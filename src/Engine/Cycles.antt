-- ===== src/Engine/Cycles.antt =====
-- About `_check_recursive_plan` of cx_tower_plan_line.py.
use cetmix_tower.Prelude.{
  ℕ, zero, suc, ◌<◌, ◌≤◌, ◌≡◌, ◌∙◌, refl, sym, ap, true, false, not, Option, none, some, List, [],
  ◌∷◌, Result, ◌==◌, nat_eq, nat_beq_iff, if_false, contains, count_of, lookup, arith, Bool-cases,
  inl, inr,
}
use cetmix_tower.Engine.Records.{Error}
use cetmix_tower.Engine.Ensures.{Ensures, Ensures-bind, Ensures-if, Ensures-map}
use cetmix_tower.Engine.Nesting.{
  PlanCommand, Plans, flight_plan_of, or_empty, check_lines, visit, check_recursive_plan,
}

-- how many plans have not been visited
abbrev pub unvisited : Plans → List ℕ → ℕ
unvisited plans visited = count_of (λ (p, commands). not (contains visited p)) plans

pub unvisited-le :
    (plans : Plans) (v : List ℕ) (p : ℕ) → unvisited plans (p ∷ v) ≤ unvisited plans v
unvisited-le [] v p = omega arith
unvisited-le ((q, cs) ∷ plans) v p = ground (arith, unvisited-le plans v p)

pub unvisited-lt :
    (plans : Plans) (v : List ℕ) (p : ℕ) (cs : List PlanCommand)
    → contains v p ≡ false
    → lookup p plans ≡ some cs
    → unvisited plans (p ∷ v) < unvisited plans v
unvisited-lt [] v p cs h e = cc
unvisited-lt ((q, ds) ∷ plans) v p cs h e = elim (Bool-cases (q == p)) [
  | inl same ↦
      let id : q ≡ p = (nat_beq_iff q p).0 same in
      let absent : contains v q ≡ false = ap (contains v) id ∙ h in
      let there : (p == q) ≡ true = (nat_beq_iff p q).1 (sym id) in
      ground (arith, unvisited-le plans v p)
  | inr other ↦
      let below = unvisited-lt plans v p cs h (sym (if_false (q == p) _ _ other) ∙ e) in
      ground arith
]

-- What a check leaves: all that was visited, and the plan of the command.
pub record Grows (plans : Plans) (v w : List ℕ) : Type 0 where
  pub fewer : unvisited plans w ≤ unvisited plans v
  pub keeps : (q : ℕ) → contains v q ≡ true → contains w q ≡ true

Grows-trans : (plans : Plans) (u v w : List ℕ) → Grows plans u v → Grows plans v w → Grows plans u w
Grows-trans plans u v w g h = record {
  fewer = omega (arith, g.fewer, h.fewer);
  keeps = λ q c. h.keeps q (g.keeps q c);
}

abbrev pub Visits : Plans → Option ℕ → List ℕ → List ℕ → Type 0
Visits plans o v w = Grows plans v w × ((q : ℕ) → o ≡ some q → contains w q ≡ true)

module _ (plans : Plans) (fuel : ℕ) (check : PlanCommand → List ℕ → Result Error (List ℕ))
    (checks : (c : PlanCommand) (v : List ℕ)
      → unvisited plans v < fuel
      → Ensures (Visits plans (flight_plan_of c.action c.flight_plan_id) v) (check c v)) where
  pub lines-Grows :
      (cs : List PlanCommand) (v : List ℕ)
      → unvisited plans v < fuel
      → Ensures (Grows plans v) (check_lines check cs v)
  lines-Grows [] v m = record { fewer = omega arith; keeps = λ q h. h }
  lines-Grows (c ∷ cs) v m =
      Ensures-bind (Visits plans (flight_plan_of c.action c.flight_plan_id) v) (Grows plans v)
        (check c v) _ (checks c v m)
        (λ w _ g.
          Ensures-map (Grows plans w) (Grows plans v) (check_lines check cs w)
            (λ u h. Grows-trans plans v w u g.0 h) (lines-Grows cs w (omega (arith, g.0.fewer))))

  new-Visits :
      (p : ℕ) (v : List ℕ)
      → unvisited plans v < suc fuel
      → contains v p ≡ false
      → Ensures (Visits plans (some p) v) (check_lines check (or_empty (lookup p plans)) (p ∷ v))
  new-Visits p v m h = by_lines (lookup p plans) refl
    where
      visited : (w : List ℕ) → Grows plans (p ∷ v) w → Visits plans (some p) v w
      visited w g = (
        record {
          fewer = omega (arith, g.fewer, unvisited-le plans v p);
          keeps = λ q c. g.keeps q (ground arith);
        },
        λ q e. g.keeps q (ground (arith, nat_beq_iff p q, e)),
      )

      by_lines :
          (o : Option (List PlanCommand))
          → lookup p plans ≡ o
          → Ensures (Visits plans (some p) v) (check_lines check (or_empty o) (p ∷ v))
      by_lines none e = visited (p ∷ v) (record { fewer = omega arith; keeps = λ q c. c })
      by_lines (some cs) e =
          Ensures-map (Grows plans (p ∷ v)) (Visits plans (some p) v) _ visited
            (lines-Grows cs (p ∷ v) (omega (arith, unvisited-lt plans v p cs h e)))

  visit-Visits :
      (o : Option ℕ) (v : List ℕ)
      → unvisited plans v < suc fuel
      → Ensures (Visits plans o v) (visit check plans o v)
  visit-Visits none v m = (record { fewer = omega arith; keeps = λ q h. h }, λ q e. cc)
  visit-Visits (some p) v m =
      Ensures-if (Visits plans (some p) v) (contains v p) _ _ (λ _ e. cc)
        (λ new. new-Visits p v m new)

-- A check with more fuel than there are plans left to visit does not run out of fuel; if it raises
-- nothing, the visited plans are those of before and that of the command, at least.
pub check_recursive_plan-Visits :
    (fuel : ℕ) (plans : Plans) (c : PlanCommand) (v : List ℕ)
    → unvisited plans v < fuel
    → Ensures
        (Visits plans (flight_plan_of c.action c.flight_plan_id) v)
        (check_recursive_plan fuel plans c v)
unfolding check_recursive_plan
check_recursive_plan-Visits zero plans c v m = absurd (omega arith)
check_recursive_plan-Visits (suc fuel) plans c v m =
    visit-Visits plans fuel (check_recursive_plan fuel plans)
      (λ d w n. check_recursive_plan-Visits fuel plans d w n)
      (flight_plan_of c.action c.flight_plan_id) v m
