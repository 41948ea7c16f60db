-- ===== src/Engine/Acyclic.antt =====
-- What the plans are like that `_check_recursive_plan` accepts.
use cetmix_tower.Prelude.{
  ℕ, zero, suc, ◌≡◌, refl, sym, ap, ◌∙◌, Bool, true, false, Option, none, some, List, [], ◌∷◌,
  Result, ok, err, ◌==◌, nat_eq, nat_beq_iff, if_true, if_false, contains, lookup, some_of,
  Bool-cases, inl, inr, arith, bind-ok,
}
use cetmix_tower.Engine.Records.{Error, raised}
use cetmix_tower.Engine.Nesting.{
  PlanCommand, Plans, flight_plan_of, or_empty, check_lines, visit, check_recursive_plan,
}

abbrev pub is_plan : ℕ → Option ℕ → Bool
is_plan q none = false
is_plan q (some p) = p == q

abbrev pub plan_of : PlanCommand → Option ℕ
plan_of c = flight_plan_of c.action c.flight_plan_id

-- a line of the first plan runs the second
abbrev pub runs : Plans → ℕ → ℕ → Bool
runs plans p q = some_of (λ c. is_plan q (plan_of c)) (or_empty (lookup p plans))

-- the second plan is run by the first, at any depth
pub data Reaches (plans : Plans) : ℕ → ℕ → Type 0 where
  here : (p : ℕ) → Reaches plans p p
  below : (p q r : ℕ) → runs plans p q ≡ true → Reaches plans q r → Reaches plans p r

abbrev Keeps : List ℕ → List ℕ → Type 0
Keeps v w = (q : ℕ) → contains v q ≡ true → contains w q ≡ true

module _ (check : PlanCommand → List ℕ → Result Error (List ℕ))
    (keeps : (c : PlanCommand) (v w : List ℕ) → check c v ≡ ok w → Keeps v w) where
  check_lines-Keeps :
      (cs : List PlanCommand) (v w : List ℕ) → check_lines check cs v ≡ ok w → Keeps v w
  check_lines-Keeps [] v w h = λ q k. ground (arith, h, k)
  check_lines-Keeps (c ∷ cs) v w h = λ q k.
      let (u, e, f) = bind-ok (check c v) (check_lines check cs) w h in
      check_lines-Keeps cs u w f q (keeps c v u e q k)

  -- each line has been checked, with at least the plans of before
  check_lines-line :
      (q : ℕ) (cs : List PlanCommand) (v w : List ℕ)
      → check_lines check cs v ≡ ok w
      → some_of (λ c. is_plan q (plan_of c)) cs ≡ true
      → (c : PlanCommand) × (u : List ℕ) × (t : List ℕ) × (is_plan q (plan_of c) ≡ true)
        × (check c u ≡ ok t)
        × Keeps v u
  check_lines-line q [] v w h k = ground (arith, k)
  check_lines-line q (c ∷ cs) v w h k =
      let (u, e, f) = bind-ok (check c v) (check_lines check cs) w h in
      elim (Bool-cases (is_plan q (plan_of c))) [
        | inl b ↦ (c, v, u, b, e, λ x y. y)
        | inr b ↦
            (let (d, u2, t, p, e2, g) = check_lines-line q cs u w f (ground arith) in
              (d, u2, t, p, e2, λ x y. g x (keeps c v u e x y)))
      ]

  visited_new :
      (plans : Plans) (p : ℕ) (v w : List ℕ)
      → visit check plans (some p) v ≡ ok w
      → (contains v p ≡ false) × (check_lines check (or_empty (lookup p plans)) (p ∷ v) ≡ ok w)
  visited_new plans p v w h = elim (Bool-cases (contains v p)) [
    | inl b ↦ ground (
      arith,
      sym (
            if_true (contains v p) (err (raised "Recursive plan call detected"))
              (check_lines check (or_empty (lookup p plans)) (p ∷ v)) b)
          ∙ h,
    )
    | inr b ↦ (b, sym (if_false (contains v p) _ _ b) ∙ h)
  ]

  visit-Keeps :
      (plans : Plans) (o : Option ℕ) (v w : List ℕ) → visit check plans o v ≡ ok w → Keeps v w
  visit-Keeps plans none v w h = λ q k. ground (arith, h, k)
  visit-Keeps plans (some p) v w h = λ q k.
      check_lines-Keeps (or_empty (lookup p plans)) (p ∷ v) w (visited_new plans p v w h).1 q
        (ground (arith, k))

check_recursive_plan-Keeps :
    (fuel : ℕ) (plans : Plans) (c : PlanCommand) (v w : List ℕ)
    → check_recursive_plan fuel plans c v ≡ ok w
    → Keeps v w
unfolding check_recursive_plan
check_recursive_plan-Keeps zero plans c v w h = ground (arith, h)
check_recursive_plan-Keeps (suc fuel) plans c v w h =
    visit-Keeps (check_recursive_plan fuel plans) (check_recursive_plan-Keeps fuel plans) plans
      (plan_of c) v w h

-- a check of the lines of an accepted plan
checked_line :
    (fuel : ℕ) (plans : Plans) (c : PlanCommand) (v w : List ℕ) (p q : ℕ)
    → plan_of c ≡ some p
    → check_recursive_plan (suc fuel) plans c v ≡ ok w
    → runs plans p q ≡ true
    → (d : PlanCommand) × (u : List ℕ) × (t : List ℕ) × (plan_of d ≡ some q)
      × (check_recursive_plan fuel plans d u ≡ ok t)
      × Keeps (p ∷ v) u
unfolding check_recursive_plan
checked_line fuel plans c v w p q e h k =
    let check = check_recursive_plan fuel plans in
    let visited : visit check plans (some p) v ≡ ok w =
      ap (λ o. visit check plans o v) (sym e) ∙ h in
    let (d, u, t, i, f, g) =
      check_lines-line check (check_recursive_plan-Keeps fuel plans) q (or_empty (lookup p plans))
        (p ∷ v) w (visited_new check (check_recursive_plan-Keeps fuel plans) plans p v w visited).1
        k in
    (d, u, t, by_option (plan_of d) i, f, g)
  where
    by_option : (o : Option ℕ) → is_plan q o ≡ true → o ≡ some q
    by_option none i = ground (arith, i)
    by_option (some r) i = ap some ((nat_beq_iff r q).0 i)

not_kept : (v u : List ℕ) (q : ℕ) → Keeps v u → contains u q ≡ false → contains v q ≡ false
not_kept v u q g h = elim (Bool-cases (contains v q)) [
  | inl b ↦ ground (arith, g q b, h)
  | inr b ↦ b
]

-- no plan that an accepted one reaches was there before
reached_new :
    (fuel : ℕ) (plans : Plans) (c : PlanCommand) (v w : List ℕ) (p r : ℕ)
    → plan_of c ≡ some p
    → check_recursive_plan fuel plans c v ≡ ok w
    → Reaches plans p r
    → contains v r ≡ false
unfolding check_recursive_plan
reached_new zero plans c v w p r e h path = ground (arith, h)
reached_new (suc fuel) plans c v w p _ e h (here _) =
    let check = check_recursive_plan fuel plans in
    let visited : visit check plans (some p) v ≡ ok w =
      ap (λ o. visit check plans o v) (sym e) ∙ h in
    (visited_new check (check_recursive_plan-Keeps fuel plans) plans p v w visited).0
reached_new (suc fuel) plans c v w p r e h (below _ q _ k path) =
    let (d, u, t, i, f, g) = checked_line fuel plans c v w p q e h k in
    let new : contains (p ∷ v) r ≡ false =
      not_kept (p ∷ v) u r g (reached_new fuel plans d u t q r i f path) in
    ground (arith, new)

-- When the check accepts a command that runs a plan, whatever was visited before, no plan that it reaches, itself
-- included, has a line that runs a plan which reaches it again.
pub accepted_has_no_cycle :
    (fuel : ℕ) (plans : Plans) (c : PlanCommand) (v w : List ℕ) (p r s : ℕ)
    → flight_plan_of c.action c.flight_plan_id ≡ some p
    → check_recursive_plan fuel plans c v ≡ ok w
    → Reaches plans p r
    → runs plans r s ≡ true
    → ¬ Reaches plans s r
unfolding check_recursive_plan
accepted_has_no_cycle zero plans c v w p r s e h path k back = ground (arith, h)
accepted_has_no_cycle (suc fuel) plans c v w p _ s e h (here _) k back =
    let (d, u, t, i, f, g) = checked_line fuel plans c v w p s e h k in
    ground (
      arith,
      reached_new fuel plans d u t s p i f back,
      g p (ground (arith, (nat_beq_iff p p).1 refl)),
    )
accepted_has_no_cycle (suc fuel) plans c v w p r s e h (below _ q _ j path) k back =
    let (d, u, t, i, f, g) = checked_line fuel plans c v w p q e h j in
    accepted_has_no_cycle fuel plans d u t q r s i f path k back
