-- ===== src/Engine/Nesting.antt =====
-- Plans that run plans: `_check_recursive_plan` of cx_tower_plan_line.py. The set of visited plans is shared by
-- all calls of one check. Running out of fuel is an error of its own.
use cetmix_tower.Prelude.{
  ℕ, zero, suc, Option, none, some, List, [], ◌∷◌, Result, ok, err, ◌>>=◌, nat_eq, if◌then◌else◌,
  contains, lookup,
}
use cetmix_tower.Engine.Records.{Error, no_fuel, raised, CommandAction, plan}

pub record PlanCommand : Type 0 where
  pub action : CommandAction
  pub flight_plan_id : Option ℕ

-- the commands of the lines of each plan
abbrev pub Plans : Type 0
Plans = List (ℕ × List PlanCommand)

-- the plan that a command runs
abbrev pub flight_plan_of : CommandAction → Option ℕ → Option ℕ
flight_plan_of plan flight_plan_id = flight_plan_id
flight_plan_of _ flight_plan_id = none

abbrev pub or_empty : Option (List PlanCommand) → List PlanCommand
or_empty none = []
or_empty (some commands) = commands

abbrev pub check_lines :
    (PlanCommand → List ℕ → Result Error (List ℕ))
    → List PlanCommand
    → List ℕ
    → Result Error (List ℕ)
check_lines check [] visited = ok visited
check_lines check (c ∷ cs) visited = check c visited >>= check_lines check cs

abbrev pub visit :
    (PlanCommand → List ℕ → Result Error (List ℕ))
    → Plans
    → Option ℕ
    → List ℕ
    → Result Error (List ℕ)
visit check plans none visited = ok visited
visit check plans (some p) visited =
    let below = check_lines check (or_empty (lookup p plans)) (p ∷ visited) in
    if contains visited p then err (raised "Recursive plan call detected") else below

unfoldable pub check_recursive_plan : ℕ → Plans → PlanCommand → List ℕ → Result Error (List ℕ)
check_recursive_plan zero plans command visited = err no_fuel
check_recursive_plan (suc fuel) plans command visited =
    visit (check_recursive_plan fuel plans) plans
      (flight_plan_of command.action command.flight_plan_id) visited
