-- ===== src/Vault/Values.antt =====
-- What `_get_secret_value` reads, and what `_set_secret_values` and `unlink` leave for it.
use cetmix_tower.Prelude.{
  ℕ, ◌≡◌, refl, ap, ◌∙◌, subst, true, false, ◌&&◌, Option, none, some, List, [], ◌∷◌, ◌++◌, ◌==◌,
  nat_eq, list_eq, list_beq_iff, if◌then◌else◌, if_true, contains, keep, map, lookup, is_empty, All,
  Bool-cases, Option-cases, find_first-holds, inl, inr, arith, ◌⊎◌, IsDistinct,
}
use cetmix_tower.Prelude.Text.{Text}
use cetmix_tower.Vault.Rows.{
  VaultRow, pairs, has_key, existing, in_domain, unlink, collect_values, lookup_field,
  get_secret_values, get_secret_value, set_secret_values,
}
use cetmix_tower.Vault.Effect.{IsVault, data_of, has_key-rest}
use cetmix_tower.Vault.Plan.{first_of}
use cetmix_tower.Vault.Refinement.{overwrite, assigned, IsOnce, run_batch-stored, hits}
use cetmix_tower.Prelude.Dictionaries.{keys}

abbrev block : ℕ → List (Text × Option Text) → List (ℕ × Text × Option Text)
block j vals = map (λ (g, value). (j, g, value)) vals

lookup-keys :
    (f : Text) (vals : List (Text × Option Text))
    → contains (keys vals) f ≡ false
    → lookup f vals ≡ none
lookup-keys f [] h = refl
lookup-keys f ((g, value) ∷ vals) h = ground (arith, lookup-keys f vals)

module _ (model : Text) (secret_fields : List Text) (i : ℕ) (f : Text) where
  assigned-append :
      (xs ys : List (ℕ × Text × Option Text))
      → assigned model secret_fields i f (xs ++ ys)
        ≡ first_of (assigned model secret_fields i f xs) (assigned model secret_fields i f ys)
  assigned-append [] ys = refl
  assigned-append ((j, g, value) ∷ xs) ys = ground (arith, assigned-append xs ys)

  assigned-block :
      (j : ℕ) (vals : List (Text × Option Text))
      → assigned model secret_fields i f (block j vals)
        ≡ (if j == i && contains secret_fields f then lookup f vals else none)
  assigned-block j [] = ground arith
  assigned-block j ((g, value) ∷ vals) = ground (arith, assigned-block j vals, list_beq_iff g f)

  assigned-pairs :
      (ids : List ℕ) (vals : List (Text × Option Text))
      → assigned model secret_fields i f (pairs ids vals)
        ≡ (if contains ids i && contains secret_fields f then lookup f vals else none)
  assigned-pairs [] vals = refl
  assigned-pairs (j ∷ ids) vals =
      assigned-append (block j vals) (pairs ids vals) ∙ elim (Option-cases (lookup f vals)) [
        | inl e ↦ ground (arith, assigned-block j vals, assigned-pairs ids vals)
        | inr (v, e) ↦ ground (arith, assigned-block j vals, assigned-pairs ids vals)
      ]

  IsOnce-append :
      (xs ys : List (ℕ × Text × Option Text))
      → IsOnce model secret_fields i f xs
      → IsOnce model secret_fields i f ys
      → (assigned model secret_fields i f xs ≡ none) ⊎ (assigned model secret_fields i f ys ≡ none)
      → IsOnce model secret_fields i f (xs ++ ys)
  IsOnce-append [] ys p q r = q
  IsOnce-append ((j, g, value) ∷ xs) ys p q r = (
    λ h. elim r [
      | inl e ↦ ground arith
      | inr e ↦
          assigned-append xs ys
          ∙ ap (λ a. first_of a (assigned model secret_fields i f ys)) (p.0 h)
          ∙ e
    ],
    IsOnce-append xs ys p.1 q (elim r [
      | inl e ↦ elim (Bool-cases (hits model secret_fields i f j g)) [
        | inl b ↦ inl (p.0 b)
        | inr b ↦ inl (ground arith)
      ]
      | inr e ↦ inr e
    ]),
  )

  IsOnce-block :
      (j : ℕ) (vals : List (Text × Option Text))
      → IsDistinct (keys vals)
      → IsOnce model secret_fields i f (block j vals)
  IsOnce-block j [] d = tt
  IsOnce-block j ((g, value) ∷ vals) d = (
    λ h. assigned-block j vals ∙ ground (arith, lookup-keys g vals d.0, list_beq_iff g f),
    IsOnce-block j vals d.1,
  )

  pub IsOnce-pairs :
      (ids : List ℕ) (vals : List (Text × Option Text))
      → IsDistinct ids
      → IsDistinct (keys vals)
      → IsOnce model secret_fields i f (pairs ids vals)
  IsOnce-pairs [] vals d k = tt
  IsOnce-pairs (j ∷ ids) vals d k =
      IsOnce-append (block j vals) (pairs ids vals) (IsOnce-block j vals k)
        (IsOnce-pairs ids vals d.1 k)
        (elim (Bool-cases (j == i)) [
          | inl b ↦
              (let same : j ≡ i = ground arith in
                inr (
                  assigned-pairs ids vals
                  ∙ ground (arith, subst (λ n. contains ids n ≡ false) same d.0)))
          | inr b ↦ inl (assigned-block j vals ∙ ground arith)
        ])

  -- the rows of the search are the row of the key, if there is one
  abbrev one_of : Option VaultRow → List VaultRow
  one_of none = []
  one_of (some r) = r ∷ []

  in_domain-none :
      (rows : List VaultRow)
      → All (λ r. has_key model i f r ≡ false) rows
      → keep (in_domain model (i ∷ []) (f ∷ [])) rows ≡ []
  in_domain-none [] h = refl
  in_domain-none (r ∷ rows) h = ground (
    arith,
    in_domain-none rows h.1,
    list_beq_iff r.field_name f,
    list_beq_iff f r.field_name,
    h.0,
  )

  in_domain-existing :
      (next : ℕ) (rows : List VaultRow)
      → IsVault next rows
      → keep (in_domain model (i ∷ []) (f ∷ [])) rows ≡ one_of (existing model rows i f)
  in_domain-existing next [] w = refl
  in_domain-existing next (r ∷ rows) w = elim (Bool-cases (has_key model i f r)) [
    | inl b ↦ ground (
      arith,
      in_domain-none rows (has_key-rest model i f r rows w.1 b),
      list_beq_iff r.field_name f,
      list_beq_iff f r.field_name,
    )
    | inr b ↦ ground (
      arith,
      in_domain-existing next rows w.2,
      list_beq_iff r.field_name f,
      list_beq_iff f r.field_name,
    )
  ]

  collect_values-one :
      (o : Option VaultRow)
      → ((r : VaultRow) → o ≡ some r → has_key model i f r ≡ true)
      → lookup_field f (lookup i (collect_values (one_of o) [])) ≡ data_of o
  unfolding collect_values
  collect_values-one none h = refl
  collect_values-one (some r) h = ground (arith, h r refl)

  -- the value of a secret field is the one in its row
  pub get_secret_value-existing :
      (next : ℕ) (rows : List VaultRow)
      → IsVault next rows
      → contains secret_fields f ≡ true
      → get_secret_value model secret_fields i f rows ≡ data_of (existing model rows i f)
  unfolding get_secret_value get_secret_values
  get_secret_value-existing next rows w k =
      ap
        (λ fs. lookup_field f (
          lookup i (
            if is_empty fs
            then []
            else collect_values (keep (in_domain model (i ∷ []) fs) rows) [])))
        (if_true (contains secret_fields f) (f ∷ []) [] k)
      ∙ ap (λ rs. lookup_field f (lookup i (collect_values rs []))) (in_domain-existing next rows w)
      ∙ collect_values-one (existing model rows i f)
          (λ r. find_first-holds (has_key model i f) rows r)

  pub set_secret_values-existing :
      (ids : List ℕ) (vals : List (Text × Option Text)) (next : ℕ) (rows : List VaultRow)
      → IsVault next rows
      → IsDistinct ids
      → IsDistinct (keys vals)
      → data_of (existing model (set_secret_values model secret_fields ids vals next rows) i f)
        ≡ overwrite
            (if contains ids i && contains secret_fields f then lookup f vals else none)
            (data_of (existing model rows i f))
  unfolding set_secret_values
  set_secret_values-existing ids [] next rows w d k = ground arith
  set_secret_values-existing [] (v ∷ vals) next rows w d k = refl
  set_secret_values-existing (j ∷ ids) (v ∷ vals) next rows w d k =
      run_batch-stored model secret_fields i f next rows w (pairs (j ∷ ids) (v ∷ vals))
        (IsOnce-pairs (j ∷ ids) (v ∷ vals) d k)
      ∙ ap (λ a. overwrite a (data_of (existing model rows i f)))
          (assigned-pairs (j ∷ ids) (v ∷ vals))

  -- the rows of the records that go are the rows of their keys
  pub unlink-existing :
      (ids : List ℕ) (rows : List VaultRow)
      → data_of (existing model (unlink model ids rows) i f)
        ≡ (if contains ids i then none else data_of (existing model rows i f))
  unfolding unlink
  unlink-existing ids [] = ground arith
  unlink-existing ids (r ∷ rows) = elim (Bool-cases (has_key model i f r)) [
    | inl b ↦
        (let same : r.res_id ≡ i = ground arith in
          ground (arith, unlink-existing ids rows, ap (contains ids) same))
    | inr b ↦ ground (arith, unlink-existing ids rows)
  ]
