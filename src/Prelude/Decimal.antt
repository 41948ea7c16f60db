-- ===== src/Prelude/Decimal.antt =====
-- `str(n)` of a natural number, in decimal, and that no two numbers have one text.
use Prim.Native.Nat.{ℕ, zero, suc, ◌+◌, ◌-◌, ◌*◌, ◌/◌, ◌%◌, ◌<◌}
use mathlib.Core.Path.{◌≡◌, ◌∙◌, sym, ap}
use mathlib.Core.Logic.{inl, inr}
use mathlib.Core.List.{[], ◌∷◌}
use native.Mathlib.Omega.{arith}
use cetmix_tower.Prelude.Tests.{ltb, if◌then◌else◌, Bool-cases, if_true, if_false}
use cetmix_tower.Prelude.Text.{Text}

abbrev pub digit : ℕ → ℕ
digit n = b'0' + n % 10

-- the digits of a number in front of a text
unfoldable pub digits : ℕ → ℕ → Text → Text
digits zero n out = out
digits (suc fuel) n out =
    let more = digits fuel (n / 10) (digit n ∷ out) in if ltb n 10 then digit n ∷ out else more

unfoldable pub decimal : ℕ → Text
unfolding digits
decimal n = digits (suc n) n []

value_from : ℕ → Text → ℕ
value_from n [] = n
value_from n (c ∷ s) = value_from (n * 10 + (c - b'0')) s

value-digits :
    (fuel n : ℕ) (out : Text) → n < fuel → value_from 0 (digits fuel n out) ≡ value_from n out
unfolding digits value_from
value-digits zero n out h = absurd (omega arith)
value-digits (suc fuel) n out h = elim (Bool-cases (ltb n 10)) [
  | inl small ↦
      ap (value_from 0) (if_true (ltb n 10) _ _ small)
      ∙ ap (λ k. value_from k out) {x = 0 * 10 + (digit n - b'0')} {y = n} (ground arith)
  | inr large ↦
      ap (value_from 0) (if_false (ltb n 10) _ _ large)
      ∙ value-digits fuel (n / 10) (digit n ∷ out) (ground arith)
      ∙ ap (λ k. value_from k out) {x = n / 10 * 10 + (digit n - b'0')} {y = n} (omega arith)
]

-- Two numbers with one text are one.
pub decimal-injective : (n m : ℕ) → decimal n ≡ decimal m → n ≡ m
unfolding decimal value_from
decimal-injective n m e =
    sym (value-digits (suc n) n [] (omega arith))
    ∙ ap (value_from 0) e
    ∙ value-digits (suc m) m [] (omega arith)
