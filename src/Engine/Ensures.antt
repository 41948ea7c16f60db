-- ===== src/Engine/Ensures.antt =====
-- A postcondition of engine code that may raise, and that never runs out of fuel.
use cetmix_tower.Prelude.{
  String, ◌≡◌, ◌≢◌, refl, Bool, true, false, Result, ok, err, ◌>>=◌, if◌then◌else◌, Option, none,
  some,
}
use cetmix_tower.Engine.Records.{Error, no_fuel, lift}
use cetmix_tower.Engine.Store.{required}

abbrev pub Ensures : {A : Type 0} → (A → Type 0) → Result Error A → Type 0
Ensures P (ok a) = P a
Ensures P (err x) = x ≢ no_fuel

module _ {A B : Type 0} where
  pub Ensures-bind :
      (Q : A → Type 0) (P : B → Type 0) (m : Result Error A) (f : A → Result Error B)
      → Ensures Q m
      → ((a : A) → m ≡ ok a → Q a → Ensures P (f a))
      → Ensures P (m >>= f)
  Ensures-bind Q P (ok a) f q h = h a refl q
  Ensures-bind Q P (err x) f q h = q

module _ {A : Type 0} where
  pub Ensures-lift : (r : Result String A) → Ensures (λ _. Unit {0}) (lift r)
  Ensures-lift (ok a) = tt
  Ensures-lift (err x) = λ e. cc

  pub Ensures-required : (o : Option A) → Ensures (λ _. Unit {0}) (required o)
  Ensures-required none = λ e. cc
  Ensures-required (some a) = tt

  pub Ensures-if :
      (P : A → Type 0) (b : Bool) (m n : Result Error A)
      → (b ≡ true → Ensures P m)
      → (b ≡ false → Ensures P n)
      → Ensures P (if b then m else n)
  Ensures-if P true m n h k = h refl
  Ensures-if P false m n h k = k refl

pub Ensures-map :
    {A : Type 0} (P Q : A → Type 0) (m : Result Error A)
    → ((a : A) → P a → Q a)
    → Ensures P m
    → Ensures Q m
Ensures-map P Q (ok a) f h = f a h
Ensures-map P Q (err x) f h = h

-- Code that never runs out of fuel, as a record, so that the rules below apply to a `do` block.
pub record HasFuel {A : Type 0} (r : Result Error A) : Type 0 where
  pub at : Ensures (λ _. Unit {0}) r

module _ {A : Type 0} where
  pub HasFuel-ok : (a : A) → HasFuel (ok a)
  HasFuel-ok a = record { at = tt }

  pub HasFuel-lift : (r : Result String A) → HasFuel (lift r)
  HasFuel-lift r = record { at = Ensures-lift r }

  pub HasFuel-if :
      (b : Bool) (m n : Result Error A) → HasFuel m → HasFuel n → HasFuel (if b then m else n)
  HasFuel-if true m n h k = h
  HasFuel-if false m n h k = k

module _ {A B : Type 0} where
  pub HasFuel-bind :
      (m : Result Error A) (f : A → Result Error B)
      → HasFuel m
      → ((a : A) → HasFuel (f a))
      → HasFuel (m >>= f)
  HasFuel-bind (ok a) f h k = k a
  HasFuel-bind (err x) f h k = record { at = h.at }

pub ruleset fuel_rules = (HasFuel-ok, HasFuel-lift, HasFuel-if, HasFuel-bind)
