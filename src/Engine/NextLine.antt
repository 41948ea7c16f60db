-- ===== src/Engine/NextLine.antt =====
-- About the choice of the next action: `_get_next_action_values` of cx_tower_plan.py.
use cetmix_tower.Prelude.{
  ℕ, String, ◌≡◌, ◌∙◌, refl, sym, ap, subst, Bool, true, false, Option, none, some, List, [], ◌∷◌,
  ◌>>=◌, ℤ, nat_eq, int_eq, string_eq,
}
use cetmix_tower.Engine.Records.{
  next_command, Values, PlanLine, Plan, PlanLog, CommandLog, Command, Server, World, Evaluation,
  lift, ActionLine, plan_line_condition_check_failed,
}
use cetmix_tower.Engine.Store.{get_plan_log, get_server, required}
use cetmix_tower.Engine.Choice.{
  is_executable_line, NextAction, matching_action, expression, action_exit_code, apply_action,
  after_condition, next_action_of_line, get_next_action_values, get_next_action_state, or_values,
  next_action_of, next_action_of_log,
}
use cetmix_tower.Engine.Flow.{render_command}
use cetmix_tower.Engine.Ensures.{
  HasFuel-bind, HasFuel-lift, HasFuel-if, HasFuel-ok, HasFuel, fuel_rules, Ensures, Ensures-bind,
  Ensures-required,
}
use cetmix_tower.Engine.LineOrder.{Continues, state-Continues}
use cetmix_tower.Engine.Settled.{IsAt}

module _ (ev : Evaluation) where
  pub executable-HasFuel :
      (line : PlanLine) (variables : List (ℕ × String)) (values : Values)
      → HasFuel (is_executable_line ev line variables values)
  unfolding is_executable_line
  executable-HasFuel line variables values = search fuel_rules depth 9

  matching-HasFuel : (code : ℤ) (as' : List ActionLine) → HasFuel (matching_action ev code as')
  unfolding matching_action
  matching-HasFuel code [] = search fuel_rules
  matching-HasFuel code (a ∷ as') =
      HasFuel-bind (lift (ev.expr_eval (expression ev code a))) _ (HasFuel-lift _)
        (λ holds. HasFuel-if holds _ _ (HasFuel-ok (some a)) (matching-HasFuel code as'))

  pub render-HasFuel :
      (server : Server) (command : Command) (path : String) (custom : Values)
      → HasFuel (render_command ev server command path custom)
  unfolding render_command
  render-HasFuel server command path custom = search fuel_rules depth 12

  -- the chosen action, and a world in which only the server's variables may have changed
  abbrev pub Chooses : Plan → PlanLine → World → NextAction × World → Type 0
  Chooses plan current w (next, v) = Continues plan current next × (v.plan_logs ≡ w.plan_logs)

  apply-Chooses :
      (plan : Plan) (current : PlanLine) (server : Server) (code : ℤ) (a : Option ActionLine)
      (w : World)
      → Ensures (Chooses plan current w) (apply_action ev plan current server code a w)
  unfolding apply_action
  apply-Chooses plan current server code none w =
      Ensures-bind (Continues plan current) _ (get_next_action_state plan none code current) _
        (state-Continues plan none code current) (λ next _ c. (c, refl))
  apply-Chooses plan current server code (some a) w =
      Ensures-bind (Continues plan current) _
        (get_next_action_state plan (some a.action) (action_exit_code ev a code) current) _
        (state-Continues plan (some a.action) (action_exit_code ev a code) current)
        (λ next _ c. (c, refl))

  after-Chooses :
      (b : Bool) (server : Server) (cl : CommandLog) (log : PlanLog) (current : PlanLine)
      (w : World)
      → Ensures (Chooses log.plan current w) (after_condition ev b server cl log current w)
  unfolding after_condition
  after-Chooses false server cl log current w =
      Ensures-bind (Continues log.plan current) _
        (get_next_action_state log.plan (some next_command) plan_line_condition_check_failed
          current)
        _ (state-Continues log.plan (some next_command) plan_line_condition_check_failed current)
        (λ next _ c. (c, refl))
  after-Chooses true server cl log current w =
      Ensures-bind (λ _. Unit {0}) _ (matching_action ev cl.command_status current.action_ids) _
        (matching-HasFuel cl.command_status current.action_ids).at
        (λ a _ _. apply-Chooses log.plan current server cl.command_status a w)

  line-Chooses :
      (cl : CommandLog) (log : PlanLog) (current : PlanLine) (w : World)
      → Ensures (Chooses log.plan current w) (next_action_of_line ev cl log current w)
  unfolding next_action_of_line get_server
  line-Chooses cl log current w =
      Ensures-bind (λ _. Unit {0}) _ (get_server w cl.server_id) _ (Ensures-required _)
        (λ server _ _.
          Ensures-bind (λ _. Unit {0}) _
            (is_executable_line ev current server.variable_value_ids
              (or_values cl.variable_values log.variable_values))
            _
            (executable-HasFuel current server.variable_value_ids
              (or_values cl.variable_values log.variable_values)).at
            (λ b _ _. after-Chooses b server cl log current w))

  pub values_of_line :
      (cl : CommandLog) (p : ℕ) (plan : Plan) (current : PlanLine) (w : World)
      → cl.plan_log_id ≡ some p
      → (h : IsAt p plan current w)
      → get_next_action_values ev cl w ≡ next_action_of_line ev cl h.log current w
  unfolding get_next_action_values get_plan_log
  values_of_line cl p plan current w c h =
      ap (λ o. next_action_of ev cl o w) c
      ∙ ap (λ o. required o >>= λ log. next_action_of_log ev cl log log.plan_line_executed_id w)
          h.found
      ∙ ap (λ o. next_action_of_log ev cl h.log o w) h.current

  pub values-Chooses :
      (cl : CommandLog) (p : ℕ) (plan : Plan) (current : PlanLine) (w : World)
      → cl.plan_log_id ≡ some p
      → IsAt p plan current w
      → Ensures (Chooses plan current w) (get_next_action_values ev cl w)
  values-Chooses cl p plan current w c h =
      subst (λ q. Ensures (Chooses q current w) (get_next_action_values ev cl w)) h.same_plan
        (subst (λ r. Ensures (Chooses h.log.plan current w) r)
          (sym (values_of_line cl p plan current w c h)) (line-Chooses cl h.log current w))
