-- ===== src/Engine/SharedPlan.antt =====
-- About plans that two lines run, and `_check_recursive_plan` of cx_tower_plan_line.py.
use cetmix_tower.Prelude.{
  ℕ, zero, suc, ◌<◌, ◌≡◌, ◌≢◌, ◌∙◌, refl, sym, ap, subst, true, some, List, [], ◌∷◌, ◌++◌, Result,
  ok, err, ◌>>=◌, nat_eq, if_true, if_false, contains, lookup, arith, Bool-cases, inl, inr,
}
use cetmix_tower.Engine.Records.{Error}
use cetmix_tower.Engine.Ensures.{Ensures}
use cetmix_tower.Engine.Nesting.{
  PlanCommand, Plans, flight_plan_of, or_empty, check_lines, visit, check_recursive_plan,
}
use cetmix_tower.Engine.Cycles.{
  unvisited, unvisited-lt, Grows, Visits, lines-Grows, check_recursive_plan-Visits,
}

bind-ok :
    {A B : Type 0} (m : Result Error A) (f : A → Result Error B) (b : B)
    → (m >>= f) ≡ ok b
    → (a : A) × (m ≡ ok a) × (f a ≡ ok b)
bind-ok (ok a) f b h = (a, refl, h)
bind-ok (err e) f b h = cc

Ensures-ok :
    {A : Type 0} (P : A → Type 0) (m : Result Error A) (a : A) → Ensures P m → m ≡ ok a → P a
Ensures-ok P m a h e = subst (Ensures P) e h

lines-append :
    (check : PlanCommand → List ℕ → Result Error (List ℕ)) (xs ys : List PlanCommand) (v w : List ℕ)
    → check_lines check (xs ++ ys) v ≡ ok w
    → (u : List ℕ) × (check_lines check xs v ≡ ok u) × (check_lines check ys u ≡ ok w)
lines-append check [] ys v w h = (v, refl, h)
lines-append check (x ∷ xs) ys v w h =
    let (a, e, rest) = bind-ok (check x v) (check_lines check (xs ++ ys)) w h in
    let (u, f, g) = lines-append check xs ys a w rest in
    (u, ap (λ r. r >>= check_lines check xs) e ∙ f, g)

visited_refused :
    (fuel : ℕ) (plans : Plans) (d : PlanCommand) (q : ℕ) (v w : List ℕ)
    → flight_plan_of d.action d.flight_plan_id ≡ some q
    → contains v q ≡ true
    → check_recursive_plan fuel plans d v ≢ ok w
unfolding check_recursive_plan
visited_refused zero plans d q v w e h k = cc
visited_refused (suc fuel) plans d q v w e h k = cc (
    sym (if_true (contains v q) _ _ h)
    ∙ sym (ap (λ o. visit (check_recursive_plan fuel plans) plans o v) e)
    ∙ k)

-- two commands of one plan among the lines
abbrev pub twice :
    List PlanCommand
    → PlanCommand
    → List PlanCommand
    → PlanCommand
    → List PlanCommand
    → List PlanCommand
twice before c between d after = before ++ (c ∷ (between ++ (d ∷ after)))

module _ (plans : Plans) (fuel : ℕ) (before between after : List PlanCommand) (c d : PlanCommand)
    (q : ℕ) (runs : flight_plan_of c.action c.flight_plan_id ≡ some q)
    (runs_again : flight_plan_of d.action d.flight_plan_id ≡ some q) where
  lines_refused :
      (v w : List ℕ)
      → unvisited plans v < fuel
      → check_lines (check_recursive_plan fuel plans) (twice before c between d after) v ≢ ok w
  lines_refused v w m k =
      let check = check_recursive_plan fuel plans in
      let checks = λ (x : PlanCommand) (u : List ℕ) (n : unvisited plans u < fuel).
        check_recursive_plan-Visits fuel plans x u n in
      let (a, to_a, k1) = lines-append check before (c ∷ (between ++ (d ∷ after))) v w k in
      let at_a =
        Ensures-ok (Grows plans v) _ a (lines-Grows plans fuel check checks before v m) to_a in
      let (b, to_b, k2) = bind-ok (check c a) (check_lines check (between ++ (d ∷ after))) w k1 in
      let at_b =
        Ensures-ok (Visits plans (flight_plan_of c.action c.flight_plan_id) a) (check c a) b
          (checks c a (omega (arith, at_a.fewer))) to_b in
      let (u, to_u, k3) = lines-append check between (d ∷ after) b w k2 in
      let at_u =
        Ensures-ok (Grows plans b) _ u
          (lines-Grows plans fuel check checks between b (omega (arith, at_a.fewer, at_b.0.fewer)))
          to_u in
      let (z, to_z, k4) = bind-ok (check d u) (check_lines check after) w k3 in
      visited_refused fuel plans d q u z runs_again (at_u.keeps q (at_b.1 q runs)) to_z

-- Two lines of a plan have commands that run one and the same plan. Then the check of a command that
-- runs the first plan accepts it with no amount of fuel above the number of plans left to visit, whether
-- or not there is a cycle.
pub shared_plan_refused :
    (plans : Plans) (fuel : ℕ) (before between after : List PlanCommand) (c d command : PlanCommand)
    (p q : ℕ) (v w : List ℕ)
    → flight_plan_of c.action c.flight_plan_id ≡ some q
    → flight_plan_of d.action d.flight_plan_id ≡ some q
    → flight_plan_of command.action command.flight_plan_id ≡ some p
    → lookup p plans ≡ some (twice before c between d after)
    → unvisited plans v < fuel
    → check_recursive_plan fuel plans command v ≢ ok w
unfolding check_recursive_plan
shared_plan_refused plans zero before between after c d command p q v w r s o l m k =
    absurd (omega arith)
shared_plan_refused plans (suc fuel) before between after c d command p q v w r s o l m k =
    elim (Bool-cases (contains v p)) [
      | inl old ↦ visited_refused (suc fuel) plans command p v w o old k
      | inr new ↦
          lines_refused plans fuel before between after c d q r s (p ∷ v) w
            (omega (arith, unvisited-lt plans v p _ new l))
            (ap (λ x. check_lines (check_recursive_plan fuel plans) (or_empty x) (p ∷ v)) (sym l)
              ∙ sym (if_false (contains v p) _ _ new)
              ∙ sym (ap (λ x. visit (check_recursive_plan fuel plans) plans x v) o)
              ∙ k)
    ]
