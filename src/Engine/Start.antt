-- ===== src/Engine/Start.antt =====
-- Where plans and commands begin and end from outside: `start`, `record`, `stop` of cx_tower_plan_log.py,
-- `finish` and `stop` of cx_tower_command_log.py, and `_run_single` of cx_tower_plan.py. The check of the
-- plan's compatibility with the server is a parameter.
use cetmix_tower.Prelude.{
  ℕ, zero, suc, String, Bool, true, false, not, ◌&&◌, ◌||◌, Option, none, some, List, [], ◌∷◌,
  Result, ok, err, ◌>>=◌, ℤ, pos, ◌==◌, nat_eq, int_eq, string_eq, if◌then◌else◌, map, find_first,
  keep, some_of, length,
}
use cetmix_tower.Engine.Records.{
  Error, no_fuel, Values, PlanLine, Plan, Server, PlanLog, CommandLog, World, general_error,
  command_stopped, plan_stopped, Evaluation, another_plan_running, plan_is_empty,
  plan_not_compatible_with_server,
}
use cetmix_tower.Engine.Store.{
  has_command_log, get_plan_log, write_command_log, command_log_is_running, plan_log_is_running,
  required,
}
use cetmix_tower.Engine.Choice.{is_executable_line}
use cetmix_tower.Engine.Run.{Hook, is_id, add_plan_log, finish, skip}
use cetmix_tower.Engine.Flow.{run_line, command_finished}
use Prim.Native.String.{◌++◌ as str_append}

-- the columns of a new plan log that its caller does not give
abbrev pub new_plan_log : World → ℕ → ℕ → Plan → Values → PlanLog
new_plan_log w now server plan variable_values = record {
  id = w.next_id;
  server_id = server;
  plan = plan;
  start_date = some now;
  finish_date = none;
  is_running = plan_log_is_running true (some now) none;
  is_stopped = false;
  plan_line_executed_id = none;
  plan_status = pos 0;
  custom_message = none;
  variable_values = variable_values;
}

-- `record` of a plan log: it is created finished
unfoldable pub record_plan : ℕ → ℕ → Plan → ℤ → Option String → World → ℕ × World
record_plan now server plan status message w = (
  w.next_id,
  add_plan_log
      (record (new_plan_log w now server plan []) {
        finish_date = some now;
        is_running = plan_log_is_running false (some now) (some now);
        plan_status = status;
        custom_message = message;
      })
      w,
)

-- the rows that `search_count` counts in `_run_single`
abbrev pub runs_same_plan : ℕ → ℕ → PlanLog → Bool
runs_same_plan server plan log = log.server_id == server && log.plan.id == plan && log.is_running

-- the running commands of a plan log
abbrev pub running_commands : ℕ → World → List ℕ
running_commands p w =
    map (λ c. c.id)
      (keep (λ (c : CommandLog). is_id c.plan_log_id p && c.is_running) w.command_logs)

abbrev pub finished_command : ℕ → Option ℤ → Option String → Option Values → CommandLog → CommandLog
finished_command now status error values c = record c {
  finish_date = some now;
  is_running = command_log_is_running c.start_date (some now);
  command_status = (elim status [ none ↦ general_error | some s ↦ s ]);
  command_error = error;
  variable_values = (elim values [ none ↦ c.variable_values | some v ↦ v ]);
}

module _ (ev : Evaluation) (now : ℕ) where
  -- `finish` of a command log
  unfoldable pub finish_command :
      ℕ → ℕ → Option ℤ → Option String → Option Values → World → Result Error World
  unfolding command_finished
  finish_command fuel c status error values w = do
    let v = write_command_log c (finished_command now status error values) w
    log ← required (find_first (has_command_log c) v.command_logs)
    command_finished ev fuel now log v

  -- the loop of `start` over the lines, up to its `break`; with `no_command_log` a line whose condition
  -- fails leaves no log and the loop goes on
  unfoldable pub first_line :
      Bool → Hook → Server → ℕ → Values → List PlanLine → World → Result Error World
  unfolding run_line skip is_executable_line finish
  first_line no_command_log hook server p variable_values [] w =
      finish now p plan_is_empty none false w
  first_line no_command_log hook server p variable_values (line ∷ lines) w =
      is_executable_line ev line server.variable_value_ids variable_values >>= λ executable.
      let rest = first_line no_command_log hook server p variable_values lines w in
      if executable
      then run_line ev hook now no_command_log server p line variable_values w
      else if no_command_log
      then rest
      else skip hook now server.id p line w

  -- `start` of a plan log; the fuel is the number of lines
  unfoldable pub start : Bool → Server → Plan → Values → World → Result Error (ℕ × World)
  unfolding first_line
  start no_command_log server plan variable_values w = do
    let p = w.next_id
    v ←
        first_line no_command_log (command_finished ev (length plan.line_ids) now) server p
          variable_values plan.line_ids
          (add_plan_log (new_plan_log w now server.id plan variable_values) w)
    ok (p, v)

  -- the second half of `_run_single`: a plan that may not run in parallel is not started twice
  unfoldable pub run_or_refuse :
      Bool → Bool → Plan → Server → Values → World → Result Error (ℕ × World)
  unfolding start record_plan
  run_or_refuse prevent_plan_recursion no_command_log plan server variable_values w =
      if (not plan.allow_parallel_run || prevent_plan_recursion)
        && some_of (runs_same_plan server.id plan.id) w.plan_logs
      then ok (record_plan now server.id plan another_plan_running none w)
      else start no_command_log server plan variable_values w

  abbrev pub run_if_compatible :
      Option String → Bool → Bool → Plan → Server → Values → World → Result Error (ℕ × World)
  run_if_compatible none prevent_plan_recursion no_command_log plan server variable_values w =
      run_or_refuse prevent_plan_recursion no_command_log plan server variable_values w
  run_if_compatible (some reason) prevent_plan_recursion no_command_log plan server variable_values
        w =
      ok (record_plan now server.id plan plan_not_compatible_with_server (some reason) w)

  -- `_run_single`: the contexts `from_command`, `prevent_plan_recursion` and `no_command_log` are arguments
  unfoldable pub run_single :
      (Plan → Server → Option String)
      → Bool
      → Bool
      → Bool
      → Plan
      → Server
      → Values
      → World
      → Result Error (ℕ × World)
  unfolding run_or_refuse record_plan
  run_single incompatible from_command prevent_plan_recursion no_command_log plan server
        variable_values w =
      run_if_compatible (if from_command then none else incompatible plan server)
        prevent_plan_recursion no_command_log plan server variable_values w

module _ (ev : Evaluation) (now : ℕ) (user_name : String) where
  abbrev pub stopped_message : Option String
  stopped_message = some (str_append "Stopped by user " user_name)

  -- the end of `stop` of a command log: the plan log is stopped too if it still runs
  abbrev pub stop_plan_of : (ℕ → World → Result Error World) → Option ℕ → World → Result Error World
  stop_plan_of stop_plan none w = ok w
  stop_plan_of stop_plan (some p) w = do
    plan_log ← get_plan_log w p
    if plan_log.is_running then stop_plan p w else ok w

  abbrev pub stop_running :
      (ℕ → World → Result Error World) → ℕ → ℕ → CommandLog → World → Result Error World
  stop_running stop_plan fuel c log w = do
    v ← finish_command ev now fuel c (some command_stopped) stopped_message none w
    stop_plan_of stop_plan log.plan_log_id v

  -- `stop` of one command log
  unfoldable pub stop_command :
      (ℕ → World → Result Error World) → ℕ → ℕ → World → Result Error World
  unfolding finish_command
  stop_command stop_plan fuel c w = do
    log ← required (find_first (has_command_log c) w.command_logs)
    if log.is_running then stop_running stop_plan fuel c log w else ok w

  unfoldable pub stop_commands :
      (ℕ → World → Result Error World) → ℕ → List ℕ → World → Result Error World
  unfolding stop_command
  stop_commands stop_plan fuel [] w = ok w
  stop_commands stop_plan fuel (c ∷ cs) w =
      stop_command stop_plan fuel c w >>= stop_commands stop_plan fuel cs

  abbrev pub stop_log : (ℕ → World → Result Error World) → ℕ → ℕ → World → Result Error World
  stop_log stop_plan fuel p w = do
    v ← finish now p plan_stopped stopped_message true w
    stop_commands stop_plan fuel (running_commands p v) v

  -- `stop` of one plan log; each call of it from a command's `stop` takes one unit of depth
  unfoldable pub stop_plan : ℕ → ℕ → ℕ → World → Result Error World
  unfolding stop_commands
  stop_plan zero fuel p w = err no_fuel
  stop_plan (suc depth) fuel p w = do
    log ← get_plan_log w p
    if log.is_running then stop_log (stop_plan depth fuel) fuel p w else ok w
