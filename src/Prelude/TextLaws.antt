-- ===== src/Prelude/TextLaws.antt =====
-- What `find`, `startswith` and slices say of a text.
use cetmix_tower.Prelude.Tests.{nat_eq, Bool-cases, if_false}
use cetmix_tower.Prelude.Lists.{length}
use cetmix_tower.Prelude.Text.{Text, starts_with, occurs, drop, take, index_of, find}
use Prim.Native.Nat.{ℕ, zero, suc, ◌+◌, ◌-◌, ◌≤◌}
use mathlib.Core.Path.{◌≡◌, refl, sym, ap, ◌∙◌}
use mathlib.Core.Logic.{inl, inr}
use mathlib.Core.Bool.{true}
use mathlib.Core.List.{[], ◌∷◌}
use mathlib.Core.Option.{some}
use native.Mathlib.Omega.{arith}

pub starts_with-length : (p s : Text) → starts_with p s ≡ true → length p ≤ length s
starts_with-length [] s h = omega arith
starts_with-length (p ∷ ps) [] h = cc
starts_with-length (p ∷ ps) (c ∷ s) h = ground (arith, starts_with-length ps s)

pub starts_with-take :
    (p s : Text) (n : ℕ) → starts_with p s ≡ true → length p ≤ n → starts_with p (take n s) ≡ true
starts_with-take [] s n h k = refl
starts_with-take (p ∷ ps) [] n h k = cc
starts_with-take (p ∷ ps) (c ∷ s) zero h k = absurd (omega arith)
starts_with-take (p ∷ ps) (c ∷ s) (suc n) h k = ground (arith, starts_with-take ps s n)

pub take-starts_with : (n : ℕ) (s : Text) → starts_with (take n s) s ≡ true
take-starts_with zero s = refl
take-starts_with (suc n) [] = refl
take-starts_with (suc n) (c ∷ s) = ground (arith, take-starts_with n s)

pub starts_with-occurs : (p s : Text) → starts_with p s ≡ true → occurs p s ≡ true
starts_with-occurs p [] h = h
starts_with-occurs p (c ∷ s) h = ground arith

pub occurs-drop : (p : Text) (n : ℕ) (s : Text) → occurs p (drop n s) ≡ true → occurs p s ≡ true
occurs-drop p zero s h = h
occurs-drop p (suc n) [] h = h
occurs-drop p (suc n) (c ∷ s) h = ground (arith, occurs-drop p n s)

pub length-drop : (n : ℕ) (s : Text) → length (drop n s) ≡ length s - n
length-drop zero s = omega arith
length-drop (suc n) [] = omega arith
length-drop (suc n) (c ∷ s) = omega (arith, length-drop n s)

pub length-take : (n : ℕ) (s : Text) → n ≤ length s → length (take n s) ≡ n
length-take zero s h = refl
length-take (suc n) [] h = absurd (omega arith)
length-take (suc n) (c ∷ s) h = omega (arith, length-take n s)

drop-nil : (n : ℕ) → drop n [] ≡ []
drop-nil zero = refl
drop-nil (suc n) = refl

take-nil : (n : ℕ) → take n [] ≡ []
take-nil zero = refl
take-nil (suc n) = refl

pub drop-take : (m k : ℕ) (s : Text) → drop m (take (m + k) s) ≡ take k (drop m s)
drop-take zero k s = ap (λ n. take n s) (omega arith)
drop-take (suc m) k [] = ap (drop (suc m)) (take-nil (suc m + k)) ∙ sym (take-nil k)
drop-take (suc m) k (c ∷ s) =
    ap (λ n. drop (suc m) (take n (c ∷ s))) {x = suc m + k} {y = suc (m + k)} (omega arith)
    ∙ drop-take m k s

pub drop-drop : (m n : ℕ) (s : Text) → drop m (drop n s) ≡ drop (n + m) s
drop-drop m zero s = ap (λ k. drop k s) (omega arith)
drop-drop m (suc n) [] = drop-nil m ∙ sym (drop-nil (suc n + m))
drop-drop m (suc n) (c ∷ s) =
    drop-drop m n s ∙ ap (λ k. drop k (c ∷ s)) {x = suc (n + m)} {y = suc n + m} (omega arith)

-- Where a text is found it stands, and it fits: `n` characters behind the start of the search.
abbrev pub FoundAt : Text → Text → ℕ → ℕ → Type 0
FoundAt p s i j =
    (n : ℕ) × (j ≡ i + n) × (n + length p ≤ length s) × (starts_with p (drop n s) ≡ true)

index_of-FoundAt : (p s : Text) (i j : ℕ) → index_of p s i ≡ some j → FoundAt p s i j
index_of-FoundAt [] [] i j h = (0, ground arith, omega arith, refl)
index_of-FoundAt (x ∷ p) [] i j h = cc
index_of-FoundAt p (c ∷ s) i j h = elim (Bool-cases (starts_with p (c ∷ s))) [
  | inl here ↦ (0, ground arith, omega (arith, starts_with-length p (c ∷ s) here), here)
  | inr below ↦
      let (n, e, fits, stands) =
        index_of-FoundAt p s (suc i) j (sym (if_false (starts_with p (c ∷ s)) _ _ below) ∙ h) in
      (suc n, omega arith, omega arith, stands)
]

pub find-FoundAt : (p s : Text) (i j : ℕ) → find p s i ≡ some j → FoundAt p (drop i s) i j
unfolding find
find-FoundAt p s i j h = index_of-FoundAt p (drop i s) i j h
