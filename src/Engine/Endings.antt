-- ===== src/Engine/Endings.antt =====
-- How a plan ends: with which exit code, and after which line.
use cetmix_tower.Prelude.{
  ℕ, ◌≡◌, ◌∙◌, refl, ap, Bool, true, false, Option, none, some, ok, ◌>>=◌, nat_eq, int_eq,
  string_eq, pos, if_false,
}
use cetmix_tower.Engine.Records.{
  next_command, PlanLine, Plan, CommandLog, Server, World, Evaluation,
  plan_line_condition_check_failed, ActionLine,
}
use cetmix_tower.Engine.Store.{get_server}
use cetmix_tower.Engine.Choice.{
  is_executable_line, is_next, NextAction, matching_action, or_values, after_condition,
  apply_action, next_action_of_line,
}
use cetmix_tower.Engine.Run.{Hook, finish}
use cetmix_tower.Engine.Flow.{follow, saved_exit_code, run_next_action}
use cetmix_tower.Engine.LastLine.{IsLast, last-state, counted, ending_code, stored, last-action}
use cetmix_tower.Engine.Settled.{IsAt, IsAt-id}
use cetmix_tower.Engine.NextLine.{values_of_line}

module _ (ev : Evaluation) (hook : Hook) (now p : ℕ) (plan : Plan) (line : PlanLine)
    (cl : CommandLog) (server : Server) (w : World) (c : cl.plan_log_id ≡ some p)
    (h : IsAt p plan line w) (s : get_server w cl.server_id ≡ ok server) where
  -- what follows once the line's action is known to be an exit
  exit_follows :
      (next : NextAction) (v : World)
      → next_action_of_line ev cl h.log line w ≡ ok (next, v)
      → is_next next.action ≡ false
      → run_next_action ev hook now cl h.log w
        ≡ finish now p (saved_exit_code ev hook now next.exit_code) none false v
  unfolding run_next_action follow
  exit_follows next v e x =
      ap (λ r. r >>= λ (a, u). follow ev hook now cl h.log h.log.id a u)
        (values_of_line ev cl p plan line w c h ∙ e)
      ∙ ap (λ q. follow ev hook now cl h.log q next v) (IsAt-id p plan line w h)
      ∙ if_false (is_next next.action) _ _ x

  line_from :
      (b : Bool)
      → is_executable_line ev line server.variable_value_ids
          (or_values cl.variable_values h.log.variable_values)
        ≡ ok b
      → next_action_of_line ev cl h.log line w ≡ after_condition ev b server cl h.log line w
  unfolding next_action_of_line
  line_from b e =
      ap
        (λ r. r >>= λ sv.
          is_executable_line ev line sv.variable_value_ids
            (or_values cl.variable_values h.log.variable_values)
          >>= λ x. after_condition ev x sv cl h.log line w)
        s
      ∙ ap (λ r. r >>= λ x. after_condition ev x server cl h.log line w) e

  -- A run stands at the last line of its plan and was not stopped, and the server of the command log
  -- exists. The line's condition fails when it is read again after its command has finished. Then the
  -- plan finishes with exit code 0, whatever the exit code of the command was.
  pub failed_condition_ends_with_success :
      is_executable_line ev line server.variable_value_ids
          (or_values cl.variable_values h.log.variable_values)
        ≡ ok false
      → IsLast h.log.plan line
      → run_next_action ev hook now cl h.log w ≡ finish now p (pos 0) none false w
  unfolding after_condition
  failed_condition_ends_with_success e l =
      exit_follows _ w
        (line_from false e
          ∙ ap (λ r. r >>= λ state. ok (state, w))
              (last-state h.log.plan (some next_command) plan_line_condition_check_failed line l))
        refl

  -- A run stands at the last line of its plan and was not stopped, and the server of the command log
  -- exists. The line's condition holds after its command has finished, and it is found whether one of
  -- its actions matches. Then the plan finishes, whatever that action is, after the values of the
  -- action are stored on the server. A matching action that exits with its own code gives this, unless
  -- it is 0; any other gives the command's. Without one the exit code is 0 if the command's is 0, else
  -- the plan's own code if that is its `on_error_action`, and else the command's. In each case 0 stands
  -- for -205.
  pub last_line_exit_code :
      (a : Option ActionLine)
      → is_executable_line ev line server.variable_value_ids
          (or_values cl.variable_values h.log.variable_values)
        ≡ ok true
      → matching_action ev cl.command_status line.action_ids ≡ ok a
      → IsLast h.log.plan line
      → run_next_action ev hook now cl h.log w
        ≡ finish now p
            (counted (ending_code h.log.plan cl.command_status a))
            none
            false
            (stored server a w)
  unfolding after_condition
  last_line_exit_code a e m l =
      exit_follows _ (stored server a w)
        (line_from true e
          ∙ ap (λ r. r >>= λ o. apply_action ev h.log.plan line server cl.command_status o w) m
          ∙ last-action ev h.log.plan line server cl.command_status a w l)
        refl
