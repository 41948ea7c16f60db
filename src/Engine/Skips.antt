-- ===== src/Engine/Skips.antt =====
-- What a skipped line does to the custom values of a run.
use cetmix_tower.Prelude.{
  find_first-holds, ℕ, suc, ◌≡◌, ◌∙◌, refl, sym, ap, false, some, List, [], ◌∷◌, ◌>>=◌, nat_eq,
  arith, find_first, negsuc, if_false, nat_beq_iff,
}
use cetmix_tower.Engine.Records.{Values, PlanLine, PlanLog, CommandLog, World, Evaluation}
use cetmix_tower.Engine.Store.{
  has_plan_log, get_plan_log, write, write_plan_log, required, find_first-write,
}
use cetmix_tower.Engine.Run.{Hook, skip, set_current_line, skipped_log, add_command_log}
use cetmix_tower.Engine.Flow.{
  continue_plan, plan_command_finished, command_finished, run_next_action,
}

abbrev pub set_values : ℕ → Values → World → World
set_values p values w = write_plan_log p (λ l. record l { variable_values = values }) w

-- a log at a line, with its values
abbrev at_line : PlanLine → Values → PlanLog → PlanLog
at_line line values l = record l { variable_values = values; plan_line_executed_id = some line }

write-overwrites :
    (p : ℕ) (line : PlanLine) (a : Values) (ls : List PlanLog)
    → write
        (has_plan_log p)
        (λ l. record l { variable_values = [] })
        (write
          (has_plan_log p)
          (λ l. record l { plan_line_executed_id = some line })
          (write (has_plan_log p) (λ l. record l { variable_values = a }) ls))
      ≡ write (has_plan_log p) (at_line line []) ls
write-overwrites p line a [] = refl
write-overwrites p line a (l ∷ ls) = ground (arith, write-overwrites p line a ls)

module _ (ev : Evaluation) (fuel now server p : ℕ) (line : PlanLine) (w : World) (log : PlanLog)
    (found : find_first (has_plan_log p) w.plan_logs ≡ some log)
    (live : log.is_stopped ≡ false) where
  abbrev skipped : CommandLog
  skipped = record (skipped_log now server p line w) {
    finish_date = some now;
    is_running = false;
    command_status = negsuc 204;
    command_error = some "Plan line condition check failed.";
  }

  -- the world in which the engine goes on after the skipped line
  abbrev forgotten : World
  forgotten = record (add_command_log skipped w) {
    plan_logs = write (has_plan_log p) (at_line line []) w.plan_logs;
  }

  goes_on :
      (hook : Hook) (l : PlanLog) (v : World)
      → l.is_stopped ≡ false
      → continue_plan ev hook now skipped l v
        ≡ run_next_action ev hook now skipped
            (record l { variable_values = [] })
            (set_values l.id [] v)
  unfolding continue_plan
  goes_on hook l v e = if_false l.is_stopped _ _ e

  forget :
      (a : Values)
      → skip (command_finished ev (suc fuel) now) now server p line (set_values p a w)
        ≡ run_next_action ev
            (command_finished ev fuel now)
            now
            skipped
            (at_line line [] log)
            forgotten
  unfolding skip command_finished plan_command_finished get_plan_log
  forget a =
      let hook = command_finished ev fuel now in
      let v = add_command_log skipped (set_current_line p line (set_values p a w)) in
      ap (λ o. required o >>= λ l. continue_plan ev hook now skipped l v)
        (find_first-write (has_plan_log p) (λ l. record l { plan_line_executed_id = some line })
          (write (has_plan_log p) (λ l. record l { variable_values = a }) w.plan_logs) (λ x h. h) _
          (find_first-write (has_plan_log p) (λ l. record l { variable_values = a }) w.plan_logs
            (λ x h. h) log found))
      ∙ goes_on hook (at_line line a log) v live
      ∙ ap (λ q. run_next_action ev hook now skipped (at_line line [] log) (set_values q [] v))
          ((nat_beq_iff log.id p).0 (find_first-holds (has_plan_log p) w.plan_logs log found))
      ∙ ap
          (λ ls.
            run_next_action ev hook now skipped (at_line line [] log) (record v { plan_logs = ls }))
          (write-overwrites p line a w.plan_logs)

-- A line is skipped in a run that was not stopped. Then all that follows is the same whatever custom
-- values the run had: the log of the skipped line has none, and they replace those of the run.
pub skip_forgets_values :
    (ev : Evaluation) (fuel now server p : ℕ) (line : PlanLine) (w : World) (log : PlanLog)
    (a b : Values)
    → find_first (has_plan_log p) w.plan_logs ≡ some log
    → log.is_stopped ≡ false
    → skip (command_finished ev (suc fuel) now) now server p line (set_values p a w)
      ≡ skip (command_finished ev (suc fuel) now) now server p line (set_values p b w)
skip_forgets_values ev fuel now server p line w log a b found live =
    forget ev fuel now server p line w log found live a
    ∙ sym (forget ev fuel now server p line w log found live b)
