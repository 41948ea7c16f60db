-- ===== src/Examples/Plans.antt =====
-- A plan of two lines on one server, and the properties of the engine applied to it.
use cetmix_tower.Prelude.{
  ℕ, String, ◌≡◌, refl, Bool, true, false, not, Option, none, some, [], ◌∷◌, ok, ℤ, pos, arith,
  ◌==◌, string_eq, length, All, some_of,
}
use cetmix_tower.Engine.Records.{
  exit_with_custom, Command, ssh_command, PlanLine, Plan, Server, PlanLog, CommandLog, World,
  Evaluation, ActionLine,
}
use cetmix_tower.Engine.Store.{get_server}
use cetmix_tower.Engine.Choice.{is_executable_line, matching_action}
use cetmix_tower.Engine.Run.{finish, skip}
use cetmix_tower.Engine.Flow.{command_finished, run_next_action}
use cetmix_tower.Engine.Start.{run_single, stop_plan, running_commands}
use cetmix_tower.Engine.Ensures.{Ensures}
use cetmix_tower.Engine.Settled.{Settled, IsAt, runs_plan}
use cetmix_tower.Engine.Progress.{command_finished-Settled}
use cetmix_tower.Engine.Begin.{run_single-Rests, Rests}
use cetmix_tower.Engine.Endings.{failed_condition_ends_with_success, last_line_exit_code}
use cetmix_tower.Engine.LastLine.{stored}
use cetmix_tower.Engine.Skips.{set_values, skip_forgets_values}
use cetmix_tower.Engine.Stop.{IsStopped, IsIdle}
use cetmix_tower.Engine.StopPlan.{stop_plan-stops}

-- templates without variables, and conditions that hold unless they say `False`
abbrev evaluation : Evaluation
evaluation = record {
  get_variables_from_code = λ _. ok [];
  get_variable_values = λ _ _. [];
  render_code_custom = λ _ text _. ok text;
  safe_eval = λ text. ok (not (text == "False"));
  expr_eval = λ _. ok false;
  str_int = λ _. "0";
  has_write_access = true;
}

abbrev list_files : Command
list_files = record {
  id = 1;
  action = ssh_command;
  code = "ls";
  path = "";
  allow_parallel_run = true;
  server_ids = [];
}

abbrev line_with : ℕ → String → PlanLine
line_with i condition = record {
  id = i;
  command = list_files;
  path = "";
  use_sudo = false;
  condition = condition;
  action_ids = [];
}

abbrev first : PlanLine
first = line_with 10 ""

abbrev second : PlanLine
second = line_with 11 ""

abbrev plan_with : PlanLine → Plan
plan_with last = record {
  id = 5;
  allow_parallel_run = false;
  line_ids = first ∷ last ∷ [];
  on_error_action = exit_with_custom;
  custom_exit_code = pos 7;
}

abbrev server : Server
server = record {
  id = 3;
  status = none;
  plan_delete_id = none;
  ssh_username = "admin";
  use_sudo = none;
  variable_value_ids = [];
}

abbrev plan_log : Plan → PlanLine → PlanLog
plan_log plan line = record {
  id = 1;
  server_id = 3;
  plan = plan;
  start_date = some 0;
  finish_date = none;
  is_running = true;
  is_stopped = false;
  plan_line_executed_id = some line;
  plan_status = pos 0;
  custom_message = none;
  variable_values = [];
}

abbrev command_log : ℤ → Option ℕ → Bool → CommandLog
command_log status finished running = record {
  id = 2;
  server_id = 3;
  command_id = 1;
  plan_log_id = some 1;
  triggered_plan_log_id = none;
  start_date = some 0;
  finish_date = finished;
  is_running = running;
  code = "ls";
  path = "";
  use_sudo = none;
  command_status = status;
  command_error = none;
  condition = "";
  is_skipped = false;
  variable_values = [];
}

abbrev world : Plan → PlanLine → CommandLog → World
world plan line log = record {
  servers = server ∷ [];
  plan_logs = plan_log plan line ∷ [];
  command_logs = log ∷ [];
  next_id = 3;
}

abbrev done : CommandLog
done = command_log (pos 0) (some 4) false

abbrev failed : CommandLog
failed = command_log (pos 1) (some 4) false

abbrev running : CommandLog
running = command_log (pos 0) none true

abbrev plan : Plan
plan = plan_with second

abbrev at_line :
    (plan : Plan) (line : PlanLine) (log : CommandLog) → IsAt 1 plan line (world plan line log)
at_line plan line log = record {
  log = plan_log plan line;
  found = refl;
  same_plan = refl;
  current = refl;
  live = refl;
}

command_finished-Settled_example :
    Ensures (Settled 1) (command_finished evaluation 3 100 done (world plan first done))
command_finished-Settled_example =
    command_finished-Settled evaluation 100 1 plan 3 done first (world plan first done)
      (refl, (refl, tt)) refl (omega arith) (at_line plan first done)

abbrev idle : World
idle = record (world plan first done) { plan_logs = []; command_logs = [] }

run_single-Rests_example :
    Ensures
      (Rests false idle)
      (run_single evaluation 100 (λ _ _. none) false false false plan server [] idle)
run_single-Rests_example =
    run_single-Rests evaluation 100 (λ _ _. none) false false false plan server [] idle
      (refl, (refl, tt)) tt

-- without command logs the plan log is left running, and nothing will take it on
unlogged_run :
    (v : World) × (run_single evaluation 100 (λ _ _. none) false false true plan server [] idle
      ≡ ok (3, v))
    × (some_of (runs_plan 3) v.plan_logs ≡ true)
    × (v.command_logs ≡ [])
unfolding run_single
unlogged_run = (_, refl, refl, refl)

stop_plan-stops_example :
    (v : World) × (stop_plan evaluation 100 "Ann" 1 1 1 (world plan first running) ≡ ok v)
    × IsStopped 1 v
    × All (IsIdle v.command_logs) (running_commands 1 (world plan first running))
    × (length v.command_logs ≡ 1)
stop_plan-stops_example =
    stop_plan-stops evaluation 100 0 0 1 "Ann" (world plan first running) (plan_log plan first)
      server refl refl refl (refl, tt)

-- the last line's condition fails when it is read again
abbrev unmet : PlanLine
unmet = line_with 11 "False"

failed_condition_ends_with_success_example :
    run_next_action evaluation
      (command_finished evaluation 1 100)
      100
      failed
      (plan_log (plan_with unmet) unmet)
      (world (plan_with unmet) unmet failed)
    ≡ finish 100 1 (pos 0) none false (world (plan_with unmet) unmet failed)
unfolding is_executable_line get_server
failed_condition_ends_with_success_example =
    failed_condition_ends_with_success evaluation (command_finished evaluation 1 100) 100 1
      (plan_with unmet) unmet failed server (world (plan_with unmet) unmet failed) refl
      (at_line (plan_with unmet) unmet failed) refl refl (unmet, refl, refl)

-- the last line has an action with an exit code of its own, which matches any exit code
abbrev leave : ActionLine
leave = record {
  condition = "!=";
  value_char = "0";
  action = exit_with_custom;
  custom_exit_code = pos 42;
  variable_value_ids = (6, "failed") ∷ [];
}

abbrev guarded : PlanLine
guarded = record second { action_ids = leave ∷ [] }

abbrev matching : Evaluation
matching = record evaluation { expr_eval = λ _. ok true }

last_line_exit_code_example :
    run_next_action matching
      (command_finished matching 1 100)
      100
      failed
      (plan_log (plan_with guarded) guarded)
      (world (plan_with guarded) guarded failed)
    ≡ finish 100 1
        (pos 42)
        none
        false
        (stored server (some leave) (world (plan_with guarded) guarded failed))
unfolding is_executable_line matching_action get_server
last_line_exit_code_example =
    last_line_exit_code matching (command_finished matching 1 100) 100 1 (plan_with guarded) guarded
      failed server (world (plan_with guarded) guarded failed) refl
      (at_line (plan_with guarded) guarded failed) refl (some leave) refl refl (guarded, refl, refl)

skip_forgets_values_example :
    skip
      (command_finished evaluation 2 100)
      100
      3
      1
      second
      (set_values 1 (("env", "prod") ∷ []) (world plan first done))
    ≡ skip
        (command_finished evaluation 2 100)
        100
        3
        1
        second
        (set_values 1 [] (world plan first done))
skip_forgets_values_example =
    skip_forgets_values evaluation 1 100 3 1 second (world plan first done) (plan_log plan first)
      (("env", "prod") ∷ []) [] refl refl
