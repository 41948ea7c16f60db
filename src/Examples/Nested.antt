-- ===== src/Examples/Nested.antt =====
-- Plans that run plans. Plan 1 runs plan 2 twice; there is no cycle.
use cetmix_tower.Prelude.{ℕ, ok, ◌≢◌, refl, some, [], ◌∷◌, arith}
use cetmix_tower.Engine.Records.{plan}
use cetmix_tower.Engine.Ensures.{Ensures}
use cetmix_tower.Engine.Nesting.{PlanCommand, Plans, check_recursive_plan}
use cetmix_tower.Engine.Cycles.{Visits, check_recursive_plan-Visits}
use cetmix_tower.Engine.SharedPlan.{shared_plan_refused}
use cetmix_tower.Engine.Acyclic.{Reaches, here, below, accepted_has_no_cycle}

abbrev run_plan : ℕ → PlanCommand
run_plan p = record { action = plan; flight_plan_id = some p }

abbrev plans : Plans
plans = (1, run_plan 2 ∷ run_plan 2 ∷ []) ∷ (2, []) ∷ []

check_recursive_plan-Visits_example :
    Ensures (Visits plans (some 1) []) (check_recursive_plan 3 plans (run_plan 1) [])
check_recursive_plan-Visits_example =
    check_recursive_plan-Visits 3 plans (run_plan 1) [] (omega arith)

shared_plan_refused_example : check_recursive_plan 3 plans (run_plan 1) [] ≢ ok (2 ∷ 1 ∷ [])
shared_plan_refused_example =
    shared_plan_refused plans 3 [] [] [] (run_plan 2) (run_plan 2) (run_plan 1) 1 2 [] (2 ∷ 1 ∷ [])
      refl refl refl refl (omega arith)

-- plan 1 runs plan 2, which runs plan 3
abbrev chain : Plans
chain = (1, run_plan 2 ∷ []) ∷ (2, run_plan 3 ∷ []) ∷ (3, []) ∷ []

accepted_has_no_cycle_example : ¬ Reaches chain 3 2
unfolding check_recursive_plan
accepted_has_no_cycle_example =
    accepted_has_no_cycle 4 chain (run_plan 1) [] (3 ∷ 2 ∷ 1 ∷ []) 1 2 3 refl refl
      (below 1 2 2 refl (here 2)) refl
