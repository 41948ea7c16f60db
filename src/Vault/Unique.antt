-- ===== src/Vault/Unique.antt =====
-- Ids and keys of the vault's rows under the changes that `_set_secret_values` and `unlink` make to the list.
use cetmix_tower.Prelude.{
  ℕ, ◌≤◌, ◌<◌, ◌≡◌, refl, sym, subst, Bool, List, [], ◌∷◌, ◌++◌, nat_eq, list_eq, if_true, if_false,
  contains, keep, map, All, Bool-cases, inl, inr, arith,
}
use cetmix_tower.Prelude.Text.{Text}
use cetmix_tower.Vault.Rows.{VaultRow, write_groups}
use cetmix_tower.Vault.Effect.{IsVault, IsApart}

All-append : {A : Type 0} (P : A → Type 0) (xs ys : List A) → All P xs → All P ys → All P (xs ++ ys)
All-append P [] ys p q = q
All-append P (x ∷ xs) ys p q = (p.0, All-append P xs ys p.1 q)

All-keep :
    {A : Type 0} (P : A → Type 0) (live : A → Bool) (xs : List A) → All P xs → All P (keep live xs)
All-keep P live [] p = tt
All-keep P live (x ∷ xs) p = elim (Bool-cases (live x)) [
  | inl b ↦ subst (All P) (sym (if_true (live x) _ _ b)) (p.0, All-keep P live xs p.1)
  | inr b ↦ subst (All P) (sym (if_false (live x) _ _ b)) (All-keep P live xs p.1)
]

pub IsVault-keep :
    (live : VaultRow → Bool) (next : ℕ) (rows : List VaultRow)
    → IsVault next rows
    → IsVault next (keep live rows)
IsVault-keep live next [] w = tt
IsVault-keep live next (r ∷ rows) w = elim (Bool-cases (live r)) [
  | inl b ↦
      subst (IsVault next) (sym (if_true (live r) _ _ b))
        (w.0, All-keep (IsApart r) live rows w.1, IsVault-keep live next rows w.2)
  | inr b ↦ subst (IsVault next) (sym (if_false (live r) _ _ b)) (IsVault-keep live next rows w.2)
]

pub IsVault-append :
    (n m : ℕ) (rows new : List VaultRow)
    → n ≤ m
    → IsVault n rows
    → IsVault m new
    → All (λ r. All (IsApart r) new) rows
    → IsVault m (rows ++ new)
IsVault-append n m [] new l w v a = v
IsVault-append n m (r ∷ rows) new l w v a = (
  omega (arith, l, w.0),
  All-append (IsApart r) rows new w.1 a.0,
  IsVault-append n m rows new l w.2 v a.1,
)

-- writing changes the value only
pub write_groups-rest :
    (groups : List (Text × List ℕ)) (r : VaultRow)
    → write_groups groups r ≡ record r { secret_data = (write_groups groups r).secret_data }
write_groups-rest [] r = refl
write_groups-rest ((value, ids) ∷ groups) r = elim (Bool-cases (contains ids r.id)) [
  | inl b ↦
      (let e = if_true (contains ids r.id) (record r { secret_data = value }) r b in
        subst
          (λ s.
            write_groups groups s ≡ record r { secret_data = (write_groups groups s).secret_data })
          (sym e) (write_groups-rest groups (record r { secret_data = value })))
  | inr b ↦
      (let e = if_false (contains ids r.id) (record r { secret_data = value }) r b in
        subst
          (λ s.
            write_groups groups s ≡ record r { secret_data = (write_groups groups s).secret_data })
          (sym e) (write_groups-rest groups r))
]

IsApart-write_groups :
    (groups : List (Text × List ℕ)) (r s : VaultRow)
    → IsApart r s
    → IsApart (write_groups groups r) (write_groups groups s)
IsApart-write_groups groups r s a =
    subst (λ x. IsApart x (write_groups groups s)) (sym (write_groups-rest groups r))
      (subst (λ y. IsApart (record r { secret_data = (write_groups groups r).secret_data }) y)
        (sym (write_groups-rest groups s)) a)

All-write_groups :
    (groups : List (Text × List ℕ)) (r : VaultRow) (rows : List VaultRow)
    → All (IsApart r) rows
    → All (IsApart (write_groups groups r)) (map (write_groups groups) rows)
All-write_groups groups r [] a = tt
All-write_groups groups r (s ∷ rows) a =
    (IsApart-write_groups groups r s a.0, All-write_groups groups r rows a.1)

pub IsVault-write_groups :
    (groups : List (Text × List ℕ)) (next : ℕ) (rows : List VaultRow)
    → IsVault next rows
    → IsVault next (map (write_groups groups) rows)
IsVault-write_groups groups next [] w = tt
IsVault-write_groups groups next (r ∷ rows) w = (
  subst (λ x. x.id < next) (sym (write_groups-rest groups r)) w.0,
  All-write_groups groups r rows w.1,
  IsVault-write_groups groups next rows w.2,
)
