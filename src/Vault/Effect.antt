-- ===== src/Vault/Effect.antt =====
-- What a batch does to the row of one key: the rows that `_set_secret_values` writes, creates and deletes.
use cetmix_tower.Prelude.{
  ℕ, suc, ◌≤◌, ◌<◌, ◌≡◌, refl, ◌∙◌, subst, Bool, true, false, not, ◌&&◌, Option, none, some, List,
  [], ◌∷◌, ◌++◌, ◌==◌, nat_eq, list_eq, list_beq_iff, if◌then◌else◌, contains, keep, map,
  find_first, All, Bool-cases, inl, inr, arith, All-map,
}
use cetmix_tower.Prelude.Text.{Text}
use cetmix_tower.Vault.Rows.{VaultRow, has_key, existing, create_rows}

abbrev pub same_key : VaultRow → VaultRow → Bool
same_key r s = r.res_model == s.res_model && r.res_id == s.res_id && r.field_name == s.field_name

abbrev pub IsApart : VaultRow → VaultRow → Type 0
IsApart r s = ((r.id == s.id) ≡ false) × (same_key r s ≡ false)

-- Ids are given out below `next`, and no two rows share an id or a key.
abbrev pub IsVault : ℕ → List VaultRow → Type 0
IsVault next [] = Unit
IsVault next (r ∷ rows) = (r.id < next) × All (IsApart r) rows × IsVault next rows

abbrev pub data_of : Option VaultRow → Option Text
data_of none = none
data_of (some r) = some r.secret_data

-- the first value that the batch creates for a key
abbrev pub created : ℕ → Text → List (ℕ × Text × Text) → Option Text
created i f [] = none
created i f ((j, g, value) ∷ rest) = if j == i && g == f then some value else created i f rest

All-find_first :
    {A : Type 0} (P : A → Type 0) (q : A → Bool) (xs : List A) (a : A)
    → All P xs
    → find_first q xs ≡ some a
    → P a
All-find_first P q [] a h e = cc
All-find_first P q (x ∷ xs) a h e = elim (Bool-cases (q x)) [
  | inl b ↦ subst P (ground arith) h.0
  | inr b ↦ All-find_first P q xs a h.1 (ground arith)
]

module _ (model : Text) where
  has_key-same :
      (i j : ℕ) (f g : Text) (r s : VaultRow)
      → has_key model i f r ≡ true
      → has_key model j g s ≡ true
      → (j == i && g == f) ≡ same_key r s
  has_key-same i j f g r s h k = ground (
    arith,
    list_beq_iff r.res_model model,
    list_beq_iff s.res_model model,
    list_beq_iff r.field_name f,
    list_beq_iff s.field_name g,
    list_beq_iff g f,
    list_beq_iff r.res_model s.res_model,
    list_beq_iff r.field_name s.field_name,
  )

  -- the rows after one that has the key have it not
  pub has_key-rest :
      (i : ℕ) (f : Text) (r : VaultRow) (rows : List VaultRow)
      → All (IsApart r) rows
      → has_key model i f r ≡ true
      → All (λ s. has_key model i f s ≡ false) rows
  has_key-rest i f r rows h k =
      All-map (IsApart r) (λ s. has_key model i f s ≡ false) rows
        (λ s a. elim (Bool-cases (has_key model i f s)) [
          | inl b ↦ ground (arith, has_key-same i i f f r s k b, list_beq_iff f f, a.1)
          | inr b ↦ b
        ])
        h

  -- two keys have two rows
  pub existing-apart :
      (i j : ℕ) (f g : Text) (next : ℕ) (rows : List VaultRow) (r s : VaultRow)
      → IsVault next rows
      → (j == i && g == f) ≡ false
      → existing model rows i f ≡ some r
      → existing model rows j g ≡ some s
      → (s.id == r.id) ≡ false
  existing-apart i j f g next [] r s w n e d = cc
  existing-apart i j f g next (x ∷ rows) r s w n e d = elim (Bool-cases (has_key model i f x)) [
    | inl a ↦ elim (Bool-cases (has_key model j g x)) [
      | inl b ↦ ground (
        arith,
        has_key-same i j f g x x a b,
        list_beq_iff x.res_model x.res_model,
        list_beq_iff x.field_name x.field_name,
      )
      | inr b ↦ ground (arith, All-find_first (IsApart x) (has_key model j g) rows s w.1)
    ]
    | inr a ↦ elim (Bool-cases (has_key model j g x)) [
      | inl b ↦ ground (arith, All-find_first (IsApart x) (has_key model i f) rows r w.1)
      | inr b ↦ existing-apart i j f g next rows r s w.2 n (ground arith) (ground arith)
    ]
  ]

module _ (q live : VaultRow → Bool) (change : VaultRow → VaultRow)
    (same : (r : VaultRow) → q (change r) ≡ q r) where
  found-skip :
      (r : VaultRow) (rows new : List VaultRow)
      → q r ≡ false
      → find_first q (keep live (map change (r ∷ rows) ++ new))
        ≡ find_first q (keep live (map change rows ++ new))
  found-skip r rows new h = ground (arith, same r)

  pub found-none :
      (rows new : List VaultRow)
      → All (λ r. q r ≡ false) rows
      → find_first q (keep live (map change rows ++ new)) ≡ find_first q (keep live new)
  found-none [] new h = refl
  found-none (r ∷ rows) new h = found-skip r rows new h.0 ∙ found-none rows new h.1

  found-live :
      (r : VaultRow) (rows new : List VaultRow)
      → q r ≡ true
      → live (change r) ≡ true
      → find_first q (keep live (map change (r ∷ rows) ++ new)) ≡ some (change r)
  found-live r rows new h l = ground (arith, same r)

  found-dead :
      (r : VaultRow) (rows new : List VaultRow)
      → live (change r) ≡ false
      → find_first q (keep live (map change (r ∷ rows) ++ new))
        ≡ find_first q (keep live (map change rows ++ new))
  found-dead r rows new l = ground arith

module _ (model : Text) (i : ℕ) (f : Text) (live : VaultRow → Bool) (change : VaultRow → VaultRow)
    (same : (r : VaultRow) → has_key model i f (change r) ≡ has_key model i f r) where
  pub found-row :
      (next : ℕ) (rows new : List VaultRow) (r : VaultRow)
      → IsVault next rows
      → existing model rows i f ≡ some r
      → live (change r) ≡ true
      → find_first (has_key model i f) (keep live (map change rows ++ new)) ≡ some (change r)
  found-row next [] new r w e l = cc
  found-row next (x ∷ rows) new r w e l =
      let q = has_key model i f in
      elim (Bool-cases (q x)) [
        | inl b ↦
            subst (λ y. find_first q (keep live (map change (x ∷ rows) ++ new)) ≡ some (change y))
              (ground arith)
              (found-live q live change same x rows new b
                (subst (λ y. live (change y) ≡ true) (ground arith) l))
        | inr b ↦
            found-skip q live change same x rows new b
            ∙ found-row next rows new r w.2 (ground arith) l
      ]

  pub found-gone :
      (next : ℕ) (rows new : List VaultRow) (r : VaultRow)
      → IsVault next rows
      → existing model rows i f ≡ some r
      → live (change r) ≡ false
      → find_first (has_key model i f) (keep live (map change rows ++ new))
        ≡ find_first (has_key model i f) (keep live new)
  found-gone next [] new r w e l = cc
  found-gone next (x ∷ rows) new r w e l =
      let q = has_key model i f in
      elim (Bool-cases (q x)) [
        | inl b ↦
            found-dead q live change same x rows new
              (subst (λ y. live (change y) ≡ false) (ground arith) l)
            ∙ found-none q live change same rows new (has_key-rest model i f x rows w.1 b)
        | inr b ↦
            found-skip q live change same x rows new b
            ∙ found-gone next rows new r w.2 (ground arith) l
      ]

module _ (model : Text) (i : ℕ) (f : Text) where
  pub create_rows-none :
      (live : VaultRow → Bool) (next : ℕ) (new : List (ℕ × Text × Text))
      → created i f new ≡ none
      → find_first (has_key model i f) (keep live (create_rows model next new)) ≡ none
  create_rows-none live next [] e = refl
  create_rows-none live next ((j, g, value) ∷ new) e =
      ground (arith, create_rows-none live (suc next) new, list_beq_iff model model)

  pub create_rows-find_first :
      (gone : List ℕ) (next : ℕ) (new : List (ℕ × Text × Text))
      → ((m : ℕ) → next ≤ m → contains gone m ≡ false)
      → data_of (
          find_first
            (has_key model i f)
            (keep (λ r. not (contains gone r.id)) (create_rows model next new)))
        ≡ created i f new
  create_rows-find_first gone next [] h = refl
  create_rows-find_first gone next ((j, g, value) ∷ new) h = ground (
    arith,
    create_rows-find_first gone (suc next) new (λ m l. h m (omega (arith, l))),
    h next (omega arith),
    list_beq_iff model model,
  )
