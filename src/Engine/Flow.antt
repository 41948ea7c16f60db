-- ===== src/Engine/Flow.antt =====
-- What follows when a command of a plan has finished: `run_command` and `_render_command` of
-- cx_tower_server.py, `_run` of a plan line, `_run_next_action` of a plan, `_plan_command_finished` of a plan
-- log and `_command_finished` of a command log. A command that starts leaves a running log behind, which
-- its runner finishes at once or later. With the context key `no_command_log` there is no log: the runner
-- is called all the same, and what `run_command` then returns is dropped by `_run` of the line.
use cetmix_tower.Prelude.{
  ℕ, zero, suc, String, Bool, false, not, ◌&&◌, Option, none, some, [], ◌++◌, Result, ok, err,
  ◌>>=◌, ℤ, pos, ◌==◌, nat_eq, int_eq, string_eq, if◌then◌else◌, some_of, is_empty,
}
use cetmix_tower.Engine.Records.{
  Error, no_fuel, lift, Values, PlanLine, Server, PlanLog, CommandLog, World,
  plan_line_condition_check_failed, Evaluation, Command, SudoMode,
  command_not_compatible_with_server, another_command_running,
}
use cetmix_tower.Engine.Store.{get_plan_log, get_server, write_plan_log}
use cetmix_tower.Engine.Choice.{
  is_next, merge, or_values, NextAction, is_executable_line, get_next_action_values,
}
use cetmix_tower.Engine.Run.{
  Hook, check_server_compatibility, runs_command, add_command_log, finish, new_command_log,
  record_command, set_current_line, skip, sudo_mode, or_text, is_python,
}

module _ (ev : Evaluation) where
  -- the values that the code and the path are rendered with
  unfoldable pub command_values : Server → String → Command → Values → Result Error Values
  unfolding merge
  command_values server path command custom = do
    in_code ← if command.code == "" then ok [] else lift (ev.get_variables_from_code command.code)
    in_path ← if path == "" then ok [] else lift (ev.get_variables_from_code path)
    let variables = in_code ++ in_path
    let values =
        if is_empty variables
        then []
        else ev.get_variable_values server.variable_value_ids variables
    ok (if ev.has_write_access then merge values custom else values)

  unfoldable pub render_text : Bool → Values → String → Result Error String
  render_text pythonic values text =
      if text == "" then ok text else lift (ev.render_code_custom pythonic text values)

  -- `_render_command`: the code and the path
  unfoldable pub render_command :
      Server → Command → String → Values → Result Error (String × String)
  unfolding command_values render_text
  render_command server command given custom = do
    let path = or_text given command.path
    values ← command_values server path command custom
    let pythonic = is_python command.action
    code ← if is_empty values then ok command.code else render_text pythonic values command.code
    rendered ← if is_empty values then ok path else render_text pythonic values path
    ok (code, rendered)

  module _ (hook : Hook) (now : ℕ) where
    -- `log_vals` of `run_command`
    abbrev pub command_log_of :
        Server → Command → Option (Option SudoMode) → ℕ → Values → World → CommandLog
    command_log_of server command sudo p variable_values w =
        record (new_command_log w now server.id command.id p) {
          use_sudo = sudo_mode server sudo;
          variable_values = variable_values;
        }

    -- `run_command` up to the call of the runner; its first argument is the context key `no_command_log`
    unfoldable pub run_command :
        Bool
        → Server
        → Command
        → String
        → Option (Option SudoMode)
        → ℕ
        → Values
        → World
        → Result Error World
    unfolding render_command record_command
    run_command no_command_log server command path sudo p variable_values w =
        let log = command_log_of server command sudo p variable_values w in
        if not (check_server_compatibility command server)
        then (if no_command_log
            then ok w
            else record_command hook now command_not_compatible_with_server
                "Command is not compatible with the server" log w)
        else if not command.allow_parallel_run
            && some_of (runs_command server.id command.id) w.command_logs
        then (if no_command_log
            then ok w
            else record_command hook now another_command_running
                "Another instance of the command is already running" log w)
        else do
          (code, rendered) ← render_command server command path variable_values
          ok (
              if no_command_log
              then w
              else add_command_log (record log { code = code; path = rendered }) w)

    -- `_run` of a plan line
    unfoldable pub run_line : Bool → Server → ℕ → PlanLine → Values → World → Result Error World
    unfolding run_command
    run_line no_command_log server p line variable_values w =
        run_command no_command_log server line.command (or_text line.path line.command.path)
          (some (if line.use_sudo then server.use_sudo else none)) p variable_values
          (set_current_line p line w)

    -- the next line is run or skipped by its own condition; it is reached from a command log, which is
    -- there only without the context key `no_command_log`
    unfoldable pub enter_line : Server → ℕ → PlanLine → Values → World → Result Error World
    unfolding run_line skip is_executable_line
    enter_line server p line variable_values w = do
      executable ← is_executable_line ev line server.variable_value_ids variable_values
      if executable
          then run_line false server p line variable_values w
          else skip hook now server.id p line w

    -- the branch `action == "n" and plan_line`
    unfoldable pub enter_next :
        CommandLog → ℕ → Values → Option PlanLine → World → Result Error World
    unfolding enter_line
    enter_next command_log p variable_values none w = ok w
    enter_next command_log p variable_values (some line) w = do
      server ← get_server w command_log.server_id
      enter_line server p line variable_values w

    -- the exit code -205 of a line whose condition failed counts as success
    abbrev pub saved_exit_code : ℤ → ℤ
    saved_exit_code code = if code == plan_line_condition_check_failed then pos 0 else code

    unfoldable pub follow : CommandLog → PlanLog → ℕ → NextAction → World → Result Error World
    unfolding enter_next finish
    follow command_log plan_log p next w =
        if is_next next.action
        then enter_next command_log p
            (or_values command_log.variable_values plan_log.variable_values) next.next_line w
        else finish now p (saved_exit_code next.exit_code) none false w

    -- `_run_next_action` of a plan
    unfoldable pub run_next_action : CommandLog → PlanLog → World → Result Error World
    unfolding get_next_action_values follow
    run_next_action command_log plan_log w = do
      (next, v) ← get_next_action_values ev command_log w
      follow command_log plan_log plan_log.id next v

    -- a plan log that was stopped ignores its commands
    unfoldable pub continue_plan : CommandLog → PlanLog → World → Result Error World
    unfolding run_next_action
    continue_plan command_log plan_log w =
        if plan_log.is_stopped
        then ok w
        else run_next_action command_log
            (record plan_log { variable_values = command_log.variable_values })
            (write_plan_log plan_log.id
              (λ l. record l { variable_values = command_log.variable_values }) w)

    -- `_plan_command_finished` of a plan log
    unfoldable pub plan_command_finished : CommandLog → ℕ → World → Result Error World
    unfolding continue_plan
    plan_command_finished command_log p w = do
      plan_log ← get_plan_log w p
      continue_plan command_log plan_log w

  -- `_command_finished` of a command log; the fuel bounds how many lines are passed in one go
  unfoldable pub command_finished : ℕ → ℕ → Hook
  unfolding plan_command_finished
  command_finished zero now command_log w = err no_fuel
  command_finished (suc fuel) now command_log w = elim command_log.plan_log_id [
    | none ↦ ok w
    | some p ↦ plan_command_finished (command_finished fuel now) now command_log p w
  ]
