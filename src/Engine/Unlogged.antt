-- ===== src/Engine/Unlogged.antt =====
-- About a run of a plan under the context key `no_command_log`: `start` of a plan log and `run_command`.
use cetmix_tower.Prelude.{
  ℕ, String, ◌≡◌, ◌⊎◌, refl, true, false, not, ◌&&◌, Option, some, List, [], ◌∷◌, nat_eq, int_eq,
  string_eq, if◌then◌else◌, arith, inl, inr, some_of, none, subst, sym,
}
use cetmix_tower.Engine.Records.{
  PlanLine, PlanLog, CommandLog, Command, SudoMode, Server, Values, World, Evaluation,
  plan_is_empty,
}
use cetmix_tower.Engine.Store.{has_plan_log, write}
use cetmix_tower.Engine.Choice.{is_executable_line}
use cetmix_tower.Engine.Run.{
  Hook, finish, set_current_line, runs_command, check_server_compatibility, or_text,
}
use cetmix_tower.Engine.Flow.{render_command, run_command, run_line}
use cetmix_tower.Engine.Start.{first_line}
use cetmix_tower.Engine.Ensures.{Ensures, Ensures-bind, Ensures-map, Ensures-if}
use cetmix_tower.Engine.Settled.{runs_plan, finish-not_running}
use cetmix_tower.Engine.NextLine.{executable-HasFuel, render-HasFuel}

-- The plan log is not running, or it runs and the command logs are those that were there before.
abbrev pub Unlogged : ℕ → List CommandLog → World → Type 0
Unlogged p before w =
    (some_of (runs_plan p) w.plan_logs ≡ false)
    ⊎ ((some_of (runs_plan p) w.plan_logs ≡ true) × (w.command_logs ≡ before))

running-current_line :
    (p : ℕ) (line : PlanLine) (ls : List PlanLog)
    → some_of (runs_plan p) ls ≡ true
    → some_of
        (runs_plan p)
        (write (has_plan_log p) (λ l. record l { plan_line_executed_id = some line }) ls)
      ≡ true
running-current_line p line [] h = h
running-current_line p line (l ∷ ls) h = ground (arith, running-current_line p line ls)

module _ (ev : Evaluation) (hook : Hook) (now p : ℕ) where
  -- without logs a command leaves the database as it is
  command-same :
      (server : Server) (command : Command) (path : String) (sudo : Option (Option SudoMode))
      (values : Values) (w : World)
      → Ensures (λ v. v ≡ w) (run_command ev hook now true server command path sudo p values w)
  unfolding run_command
  command-same server command path sudo values w =
      Ensures-if _ (not (check_server_compatibility command server)) _ _ (λ _. refl)
        (λ _.
          Ensures-if _
            (not command.allow_parallel_run
              && some_of (runs_command server.id command.id) w.command_logs)
            _ _ (λ _. refl)
            (λ _.
              Ensures-bind (λ _. Unit {0}) _ (render_command ev server command path values) _
                (render-HasFuel ev server command path values).at (λ r _ _. refl)))

  pub first_line-Unlogged :
      (server : Server) (values : Values) (ls : List PlanLine) (w : World)
      → some_of (runs_plan p) w.plan_logs ≡ true
      → Ensures (Unlogged p w.command_logs) (first_line ev now true hook server p values ls w)
  unfolding first_line run_line
  first_line-Unlogged server values [] w h =
      Ensures-map (λ v. some_of (runs_plan p) v.plan_logs ≡ false) (Unlogged p w.command_logs)
        (finish now p plan_is_empty none false w) (λ v e. inl e)
        (finish-not_running now p plan_is_empty none false w)
  first_line-Unlogged server values (line ∷ ls) w h =
      let at_line = set_current_line p line w in
      Ensures-bind (λ _. Unit {0}) (Unlogged p w.command_logs)
        (is_executable_line ev line server.variable_value_ids values) _
        (executable-HasFuel ev line server.variable_value_ids values).at
        (λ b _ _.
          Ensures-if (Unlogged p w.command_logs) b _ _
            (λ _.
              Ensures-map (λ v. v ≡ at_line) (Unlogged p w.command_logs) _
                (λ v same.
                  subst (Unlogged p w.command_logs) (sym same)
                    (inr (running-current_line p line w.plan_logs h, refl)))
                (command-same server line.command (or_text line.path line.command.path)
                  (some (if line.use_sudo then server.use_sudo else none)) values at_line))
            (λ _. first_line-Unlogged server values ls w h))
