-- ===== src/Examples/Tasks.antt =====
-- Two scheduled tasks, one of which raises, and the properties of their runs.
use cetmix_tower.Prelude.{
  ℕ, ◌+◌, ◌*◌, ◌≡◌, refl, Bool, true, false, none, some, List, [], ◌∷◌, ok, err, ◌==◌, nat_eq,
  contains, All, arith, if◌then◌else◌,
}
use cetmix_tower.Prelude.Text.{codes}
use cetmix_tower.Schedule.Tasks.{months, run_plan, Task, Outside, reserve_tasks, run}
use cetmix_tower.Schedule.Reservation.{
  ids_of, takes, reserve_tasks_once, MonthsForward, IsReleased, run-Released,
}

-- plan 7 counts up the state, any other plan raises; a month has 30 days
abbrev outside : Outside ℕ
outside = record {
  server_run_command = λ server command values s. ok s;
  server_run_flight_plan =
      λ server plan values s. if plan == 7 then ok (s + 1) else err (codes "no plan");
  now = λ s. s;
  add_months = λ n t. t + n * 2592000;
}

abbrev task : ℕ → ℕ → Task
task i plan = record {
  id = i;
  active = true;
  action = run_plan;
  command_id = none;
  plan_id = some plan;
  server_ids = 3 ∷ [];
  is_running = false;
  interval_number = 1;
  interval_type = some months;
  next_call = 0;
  last_call = none;
  custom_variable_value_ids = [];
}

abbrev tasks : List Task
tasks = task 1 7 ∷ task 2 8 ∷ []

abbrev unlocked : ℕ → Bool
unlocked i = false

reserve_tasks_once_example :
    All
      (λ t. takes (1 ∷ []) unlocked t ≡ false)
      (reserve_tasks (1 ∷ 2 ∷ []) unlocked (reserve_tasks (1 ∷ []) unlocked tasks).1).0
reserve_tasks_once_example = reserve_tasks_once (1 ∷ []) (1 ∷ 2 ∷ []) unlocked unlocked tasks

months_forward : MonthsForward outside
months_forward n t = omega arith

run-Released_example :
    All
      (λ r.
        contains (ids_of (reserve_tasks (1 ∷ 2 ∷ []) unlocked tasks).0) r.id ≡ true → IsReleased r)
      (run outside (1 ∷ 2 ∷ []) unlocked (record { tasks = tasks; rest = 10 })).0.tasks
run-Released_example =
    run-Released outside months_forward (1 ∷ 2 ∷ []) unlocked (record { tasks = tasks; rest = 10 })
      (refl, (refl, tt))
