-- ===== src/Engine/Run.antt =====
-- Steps of a plan that the engine's handlers share: `finish` of cx_tower_plan_log.py, `record` of
-- cx_tower_command_log.py and `_skip` of cx_tower_plan_line.py. A step that ends in `_command_finished` takes
-- that call as the argument `hook`; `command_finished` of Engine/Flow closes the circle.
use cetmix_tower.Prelude.{
  ℕ, ◌+◌, String, Bool, true, false, ◌&&◌, ◌||◌, Option, none, some, [], ◌∷◌, ◌++◌, Result, ok,
  ◌>>=◌, ℤ, pos, ◌==◌, nat_eq, int_eq, string_eq, if◌then◌else◌, is_empty, contains,
}
use cetmix_tower.Engine.Records.{
  Error, PlanLine, Server, PlanLog, CommandLog, World, plan_line_condition_check_failed, Command,
  SudoMode, CommandAction, python_code,
}
use cetmix_tower.Engine.Store.{
  get_plan_log, get_server, write_server, write_plan_log, unlink_server, command_log_is_running,
}

abbrev pub Hook : Type 0
Hook = CommandLog → World → Result Error World

-- `_check_server_compatibility` of a command
abbrev pub check_server_compatibility : Command → Server → Bool
check_server_compatibility command server =
    is_empty command.server_ids || contains command.server_ids server.id

-- the rows that `search_count` counts in `run_command`
abbrev pub runs_command : ℕ → ℕ → CommandLog → Bool
runs_command server command log =
    log.server_id == server && log.command_id == command && log.is_running

-- `create` of a command log: the id is the next one of the sequence
abbrev pub add_command_log : CommandLog → World → World
add_command_log log w = record w {
  command_logs = w.command_logs ++ log ∷ [];
  next_id = w.next_id + 1;
}

abbrev pub add_plan_log : PlanLog → World → World
add_plan_log log w = record w { plan_logs = w.plan_logs ++ log ∷ []; next_id = w.next_id + 1 }

-- `_is_being_deleted`
abbrev pub is_being_deleted : Server → Bool
is_being_deleted server = elim server.status [ none ↦ false | some s ↦ s == "deleting" ]

abbrev pub is_id : Option ℕ → ℕ → Bool
is_id none k = false
is_id (some j) k = j == k

-- the end of `finish`: the server that this plan was deleting
unfoldable pub after_finish : PlanLog → ℤ → Server → World → World
after_finish plan_log status server w =
    if is_being_deleted server && is_id server.plan_delete_id plan_log.plan.id
    then (if status == pos 0
        then unlink_server server.id w
        else write_server server.id (λ s. record s { status = some "delete_error" }) w)
    else w

abbrev pub finish_values : ℕ → ℤ → Option String → Bool → PlanLog → PlanLog
finish_values now status message stopped l = record l {
  is_running = false;
  plan_status = status;
  finish_date = some now;
  custom_message = (elim message [ none ↦ l.custom_message | some m ↦ some m ]);
  is_stopped = stopped || l.is_stopped;
}

-- `finish` of a plan log
unfoldable pub finish : ℕ → ℕ → ℤ → Option String → Bool → World → Result Error World
unfolding after_finish
finish now p status message stopped w = do
  plan_log ← get_plan_log w p
  let written = write_plan_log p (finish_values now status message stopped) w
  server ← get_server written plan_log.server_id
  ok (after_finish plan_log status server written)

-- the columns of a new command log that its caller does not give
abbrev pub new_command_log : World → ℕ → ℕ → ℕ → ℕ → CommandLog
new_command_log w now server command p = record {
  id = w.next_id;
  server_id = server;
  command_id = command;
  plan_log_id = some p;
  triggered_plan_log_id = none;
  start_date = some now;
  finish_date = none;
  is_running = command_log_is_running (some now) none;
  code = "";
  path = "";
  use_sudo = none;
  command_status = pos 0;
  command_error = none;
  condition = "";
  is_skipped = false;
  variable_values = [];
}

-- `record` of a command log: it is created finished, and the plan goes on
unfoldable pub record_command : Hook → ℕ → ℤ → String → CommandLog → World → Result Error World
record_command hook now status message log w =
    let recorded = record log {
      finish_date = some now;
      is_running = command_log_is_running log.start_date (some now);
      command_status = status;
      command_error = some message;
    } in
    hook recorded (add_command_log recorded w)

abbrev pub set_current_line : ℕ → PlanLine → World → World
set_current_line p line w = write_plan_log p (λ l. record l { plan_line_executed_id = some line }) w

-- what `_skip` gives to `record`
abbrev pub skipped_log : ℕ → ℕ → ℕ → PlanLine → World → CommandLog
skipped_log now server p line w = record (new_command_log w now server line.command.id p) {
  condition = line.condition;
  is_skipped = true;
}

-- `_skip` of a plan line
unfoldable pub skip : Hook → ℕ → ℕ → ℕ → PlanLine → World → Result Error World
unfolding record_command
skip hook now server p line w =
    let v = set_current_line p line w in
    record_command hook now plan_line_condition_check_failed "Plan line condition check failed."
      (skipped_log now server p line v) v

-- the `sudo` argument: `none` is `None`, and `some none` is `False`
abbrev pub sudo_mode : Server → Option (Option SudoMode) → Option SudoMode
sudo_mode server none = if server.ssh_username == "root" then none else server.use_sudo
sudo_mode server (some none) = none
sudo_mode server (some (some mode)) =
    if server.ssh_username == "root" then none else server.use_sudo

abbrev pub or_text : String → String → String
or_text a b = if a == "" then b else a

abbrev pub is_python : CommandAction → Bool
is_python python_code = true
is_python _ = false
