-- ===== src/Prelude/Dictionaries.antt =====
-- Association lists with texts for keys: what insertion does to the list of entries.
use mathlib.Core.Path.{◌≡◌, ◌∙◌, refl, ap}
use mathlib.Core.Bool.{true, false}
use mathlib.Core.List.{List, [], ◌∷◌, ◌++◌}
use native.Mathlib.Omega.{arith}
use cetmix_tower.Prelude.Tests.{◌==◌, nat_eq, list_eq, list_beq_iff, if◌then◌else◌}
use cetmix_tower.Prelude.Lists.{contains, insert, All}
use cetmix_tower.Prelude.Text.{Text}

-- `d.keys()`
abbrev pub keys {ℓ} : {V : Type ℓ} → List (Text × V) → List Text
keys [] = []
keys ((k, v) ∷ m) = k ∷ keys m

pub append_one {ℓ} : {A : Type ℓ} (xs ys : List A) (x : A) → (xs ++ x ∷ []) ++ ys ≡ xs ++ x ∷ ys
append_one [] ys x = refl
append_one (y ∷ xs) ys x = ap (λ zs. y ∷ zs) (append_one xs ys x)

pub append_nil {ℓ} : {A : Type ℓ} (xs : List A) → xs ≡ xs ++ []
append_nil [] = refl
append_nil (x ∷ xs) = ap (λ zs. x ∷ zs) (append_nil xs)

module _ {ℓ} {V : Type ℓ} where
  -- none of the texts is a key
  abbrev pub IsNew : List Text → List (Text × V) → Type 0
  IsNew refs m = All (λ r. contains (keys m) r ≡ false) refs

  pub insert-new :
      (k : Text) (v : V) (m : List (Text × V))
      → contains (keys m) k ≡ false
      → insert k v m ≡ m ++ (k, v) ∷ []
  insert-new k v [] h = refl
  insert-new k v ((j, w) ∷ m) h = ground (arith, insert-new k v m)

  pub keys-append :
      (m : List (Text × V)) (k j : Text) (v : V)
      → contains (keys (m ++ (k, v) ∷ [])) j ≡ (if k == j then true else contains (keys m) j)
  keys-append [] k j v = ground arith
  keys-append ((i, w) ∷ m) k j v = ground (arith, keys-append m k j v)

  pub append-IsNew :
      (k : Text) (v : V) (refs : List Text) (m : List (Text × V))
      → contains refs k ≡ false
      → IsNew refs m
      → IsNew refs (m ++ (k, v) ∷ [])
  append-IsNew k v [] m h n = tt
  append-IsNew k v (j ∷ refs) m h n = (
    keys-append m k j v ∙ ground (arith, n.0, list_beq_iff j k, list_beq_iff k j),
    append-IsNew k v refs m (ground arith) n.1,
  )
