-- ===== src/Engine/Progress.antt =====
-- About `_command_finished` of cx_tower_command_log.py and the engine's steps behind it.
use cetmix_tower.Prelude.{
  ℕ, zero, suc, ◌<◌, String, ◌≡◌, refl, sym, subst, true, false, not, ◌&&◌, Option, none, some,
  Result, ok, ◌>>=◌, ℤ, nat_eq, int_eq, string_eq, if◌then◌else◌, arith, inl, inr, some_of,
}
use cetmix_tower.Engine.Records.{
  Error, Values, PlanLine, Plan, PlanLog, CommandLog, Command, SudoMode, Server, World, Evaluation,
  plan_line_condition_check_failed,
}
use cetmix_tower.Engine.Store.{get_plan_log, get_server, write_plan_log, required}
use cetmix_tower.Engine.Choice.{
  is_executable_line, is_next, NextAction, get_next_action_values, or_values, line_after,
}
use cetmix_tower.Engine.Run.{
  Hook, is_id, finish, add_command_log, set_current_line, skip, record_command, runs_command,
  check_server_compatibility, or_text, skipped_log,
}
use cetmix_tower.Engine.Flow.{
  render_command, run_command, run_line, enter_line, follow, run_next_action, continue_plan,
  plan_command_finished, command_finished, command_log_of, enter_next, saved_exit_code,
}
use cetmix_tower.Engine.Ensures.{Ensures, Ensures-bind, Ensures-required, Ensures-if, Ensures-map}
use cetmix_tower.Engine.LineOrder.{Distinct, remaining, remaining-line_after, Continues}
use cetmix_tower.Engine.Settled.{
  runs_plan, runs_for, Settled, IsAt, some_of-append, finish-not_running, IsAt-set_current_line,
  IsAt-same, IsAt-set_values, IsAt-id, IsOpen, IsOpen-at,
}
use cetmix_tower.Engine.NextLine.{executable-HasFuel, render-HasFuel, Chooses, values-Chooses}

-- The hook settles every log that stands at a line with at most `n` lines below it.
abbrev pub Settles : ℕ → Plan → ℕ → Hook → Type 0
Settles p plan n hook =
    (cl : CommandLog) (line : PlanLine) (w : World)
    → cl.plan_log_id ≡ some p
    → remaining plan.line_ids line < n
    → IsAt p plan line w
    → Ensures (Settled p) (hook cl w)

module _ (ev : Evaluation) (hook : Hook) (now p : ℕ) (plan : Plan) (n : ℕ)
    (settles : Settles p plan n hook) where
  pub record-Settled :
      (status : ℤ) (message : String) (cl : CommandLog) (line : PlanLine) (w : World)
      → cl.plan_log_id ≡ some p
      → remaining plan.line_ids line < n
      → IsAt p plan line w
      → Ensures (Settled p) (record_command hook now status message cl w)
  unfolding record_command
  record-Settled status message cl line w c m h = settles _ line _ c m (record {
    log = h.log;
    found = h.found;
    same_plan = h.same_plan;
    current = h.current;
    live = h.live;
  })

  pub skip-Settled :
      (server : ℕ) (line : PlanLine) (w : World)
      → remaining plan.line_ids line < n
      → IsOpen p plan w
      → Ensures (Settled p) (skip hook now server p line w)
  unfolding skip
  skip-Settled server line w m h =
      let v = set_current_line p line w in
      record-Settled plan_line_condition_check_failed _ (skipped_log now server p line v) line v
        refl m (IsAt-set_current_line p plan line w h)

  start-Settled :
      (w : World) (cl : CommandLog) → runs_for p cl ≡ true → Settled p (add_command_log cl w)
  start-Settled w cl h = inr (some_of-append (runs_for p) w.command_logs cl h)

  self_id : is_id (some p) p && true ≡ true
  self_id = ground arith

  pub command-Settled :
      (server : Server) (command : Command) (path : String) (sudo : Option (Option SudoMode))
      (values : Values) (line : PlanLine) (w : World)
      → remaining plan.line_ids line < n
      → IsAt p plan line w
      → Ensures (Settled p) (run_command ev hook now false server command path sudo p values w)
  unfolding run_command
  command-Settled server command path sudo values line w m h =
      Ensures-if (Settled p) (not (check_server_compatibility command server)) _ _
        (λ _.
          record-Settled _ _ (command_log_of ev hook now server command sudo p values w) line w refl
            m h)
        (λ _.
          Ensures-if (Settled p)
            (not command.allow_parallel_run
              && some_of (runs_command server.id command.id) w.command_logs)
            _ _
            (λ _.
              record-Settled _ _ (command_log_of ev hook now server command sudo p values w) line w
                refl m h)
            (λ _.
              Ensures-bind (λ _. Unit {0}) (Settled p)
                (render_command ev server command path values) _
                (render-HasFuel ev server command path values).at
                (λ r _ _.
                  start-Settled w
                    (record (command_log_of ev hook now server command sudo p values w) {
                      code = r.0;
                      path = r.1;
                    })
                    self_id)))

  enter-Settled :
      (server : Server) (line : PlanLine) (values : Values) (w : World)
      → remaining plan.line_ids line < n
      → IsOpen p plan w
      → Ensures (Settled p) (enter_line ev hook now server p line values w)
  unfolding enter_line run_line
  enter-Settled server line values w m h =
      Ensures-bind (λ _. Unit {0}) (Settled p)
        (is_executable_line ev line server.variable_value_ids values) _
        (executable-HasFuel ev line server.variable_value_ids values).at
        (λ b _ _.
          Ensures-if (Settled p) b _ _
            (λ _.
              command-Settled server line.command (or_text line.path line.command.path)
                (some (if line.use_sudo then server.use_sudo else none)) values line
                (set_current_line p line w) m (IsAt-set_current_line p plan line w h))
            (λ _. skip-Settled server.id line w m h))

  next-Settled :
      (cl : CommandLog) (current line : PlanLine) (values : Values) (w : World)
      → Distinct plan.line_ids
      → remaining plan.line_ids current < suc n
      → line_after plan.line_ids current ≡ ok line
      → IsAt p plan current w
      → Ensures (Settled p) (enter_next ev hook now cl p values (some line) w)
  unfolding enter_next get_server
  next-Settled cl current line values w d m after h =
      Ensures-bind (λ _. Unit {0}) (Settled p) (get_server w cl.server_id) _ (Ensures-required _)
        (λ server _ _.
          enter-Settled server line values w
            (omega (arith, remaining-line_after plan.line_ids current line d after))
            (IsOpen-at p plan current w h))

  follow-Settled :
      (cl : CommandLog) (log : PlanLog) (current : PlanLine) (next : NextAction) (w : World)
      → Distinct plan.line_ids
      → remaining plan.line_ids current < suc n
      → Continues plan current next
      → IsAt p plan current w
      → Ensures (Settled p) (follow ev hook now cl log p next w)
  unfolding follow
  follow-Settled cl log current next w d m c h =
      Ensures-if (Settled p) (is_next next.action) _ _
        (λ goes_on.
          let (line, e, after) = c goes_on in
          let values = or_values cl.variable_values log.variable_values in
          subst (λ o. Ensures (Settled p) (enter_next ev hook now cl p values o w)) (sym e)
            (next-Settled cl current line values w d m after h))
        (λ _.
          Ensures-map (λ v. some_of (runs_plan p) v.plan_logs ≡ false) (Settled p)
            (finish now p (saved_exit_code ev hook now next.exit_code) none false w) (λ v e. inl e)
            (finish-not_running now p (saved_exit_code ev hook now next.exit_code) none false w))

  action-Settled :
      (cl : CommandLog) (log : PlanLog) (current : PlanLine) (w : World)
      → log.id ≡ p
      → cl.plan_log_id ≡ some p
      → Distinct plan.line_ids
      → remaining plan.line_ids current < suc n
      → IsAt p plan current w
      → Ensures (Settled p) (run_next_action ev hook now cl log w)
  unfolding run_next_action
  action-Settled cl log current w i c d m h =
      Ensures-bind (Chooses ev plan current w) (Settled p) (get_next_action_values ev cl w) _
        (values-Chooses ev cl p plan current w c h)
        (λ (next, v) _ (goes_on, same).
          subst (λ q. Ensures (Settled p) (follow ev hook now cl log q next v)) (sym i)
            (follow-Settled cl log current next v d m goes_on
              (IsAt-same p plan current w v same h)))

  continue-Settled :
      (cl : CommandLog) (current : PlanLine) (w : World)
      → cl.plan_log_id ≡ some p
      → Distinct plan.line_ids
      → remaining plan.line_ids current < suc n
      → (h : IsAt p plan current w) → Ensures (Settled p) (continue_plan ev hook now cl h.log w)
  unfolding continue_plan
  continue-Settled cl current w c d m h =
      let values = cl.variable_values in
      let log = record h.log { variable_values = values } in
      Ensures-if (Settled p) h.log.is_stopped _ _ (λ stopped. cc (h.live, stopped))
        (λ _.
          subst
            (λ q. Ensures (Settled p) (
              run_next_action ev hook now cl log
                (write_plan_log q (λ l. record l { variable_values = values }) w)))
            (sym (IsAt-id p plan current w h))
            (action-Settled cl log current
              (write_plan_log p (λ l. record l { variable_values = values }) w)
              (IsAt-id p plan current w h) c d m (IsAt-set_values p plan current values w h)))

  -- one round: the plan log is found, and goes on
  finished-Settled :
      (cl : CommandLog) (current : PlanLine) (w : World)
      → cl.plan_log_id ≡ some p
      → Distinct plan.line_ids
      → remaining plan.line_ids current < suc n
      → IsAt p plan current w
      → Ensures (Settled p) (plan_command_finished ev hook now cl p w)
  unfolding plan_command_finished get_plan_log
  finished-Settled cl current w c d m h =
      subst (λ o. Ensures (Settled p) (required o >>= λ log. continue_plan ev hook now cl log w))
        (sym h.found) (continue-Settled cl current w c d m h)

-- one round of `command_finished`, as a function of the plan log's id
module _ (ev : Evaluation) (now : ℕ) where
  abbrev pub round : ℕ → CommandLog → Option ℕ → World → Result Error World
  round fuel cl o w = elim o [
    | none ↦ ok w
    | some q ↦ plan_command_finished ev (command_finished ev fuel now) now cl q w
  ]

module _ (ev : Evaluation) (now p : ℕ) (plan : Plan) where
  -- A command log of a plan that was not stopped has finished at a line of the plan, the lines of the
  -- plan have distinct ids, and the fuel exceeds the number of lines below. Then the engine does not
  -- run out of fuel, and if no exception is raised it leaves the plan log finished, or a command of
  -- the plan log running.
  pub command_finished-Settled :
      (fuel : ℕ) (cl : CommandLog) (line : PlanLine) (w : World)
      → Distinct plan.line_ids
      → cl.plan_log_id ≡ some p
      → remaining plan.line_ids line < fuel
      → IsAt p plan line w
      → Ensures (Settled p) (command_finished ev fuel now cl w)
  unfolding command_finished
  command_finished-Settled zero cl line w d c m h = elim m [ ]
  command_finished-Settled (suc fuel) cl line w d c m h =
      subst (λ o. Ensures (Settled p) (round ev now fuel cl o w)) (sym c)
        (finished-Settled ev (command_finished ev fuel now) now p plan fuel
          (λ cl' line' w' c' m' h'. command_finished-Settled fuel cl' line' w' d c' m' h') cl line w
          c d m h)
