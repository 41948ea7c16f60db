-- ===== src/Engine/Stop.antt =====
-- About `stop` of cx_tower_command_log.py for the commands of a plan log that was stopped.
use cetmix_tower.Prelude.{
  ℕ, suc, String, ◌≡◌, ◌∙◌, refl, ap, Bool, true, false, none, some, List, [], ◌∷◌, Result, ok,
  ◌>>=◌, nat_eq, if◌then◌else◌, if_true, if_false, arith, Bool-cases, inl, inr, find_first, All,
  length,
}
use cetmix_tower.Engine.Records.{Error, PlanLog, CommandLog, World, Evaluation, command_stopped}
use cetmix_tower.Engine.Store.{
  has_plan_log, has_command_log, get_plan_log, write, write_command_log, required, find_first-write,
}
use cetmix_tower.Engine.Flow.{continue_plan, plan_command_finished, command_finished}
use cetmix_tower.Engine.Start.{
  finished_command, finish_command, stopped_message, stop_plan_of, stop_running, stop_command,
  stop_commands,
}
use cetmix_tower.Engine.Progress.{round}

-- The plan log was stopped and runs no more.
pub record IsStopped (p : ℕ) (w : World) : Type 0 where
  pub log : PlanLog
  pub found : find_first (has_plan_log p) w.plan_logs ≡ some log
  pub stopped : log.is_stopped ≡ true
  pub idle : log.is_running ≡ false

-- The command log is there, and belongs to the plan log.
abbrev pub BelongsTo : ℕ → List CommandLog → ℕ → Type 0
BelongsTo p logs c =
    (l : CommandLog) × (find_first (has_command_log c) logs ≡ some l) × (l.plan_log_id ≡ some p)

-- The command log is there, and runs no more.
abbrev pub IsIdle : List CommandLog → ℕ → Type 0
IsIdle logs c =
    (l : CommandLog) × (find_first (has_command_log c) logs ≡ some l) × (l.is_running ≡ false)

module _ (ev : Evaluation) (now fuel : ℕ) (user : String) (again : ℕ → World → Result Error World)
    (p : ℕ) where
  abbrev ended : CommandLog → CommandLog
  ended = finished_command now (some command_stopped) (stopped_message ev now user) none

  abbrev end_command : ℕ → World → World
  end_command c w = write_command_log c ended w

  -- the command log of a stopped plan ends, and the plan does not go on
  finish-stopped :
      (c : ℕ) (l : CommandLog) (w : World)
      → find_first (has_command_log c) w.command_logs ≡ some l
      → l.plan_log_id ≡ some p
      → IsStopped p w
      → finish_command ev now
          (suc fuel)
          c
          (some command_stopped)
          (stopped_message ev now user)
          none
          w
        ≡ ok (end_command c w)
  unfolding finish_command command_finished plan_command_finished get_plan_log continue_plan
  finish-stopped c l w e b h =
      let v = end_command c w in
      let hook = command_finished ev fuel now in
      ap (λ o. required o >>= λ l'. command_finished ev (suc fuel) now l' v)
        (find_first-write (has_command_log c) ended w.command_logs (λ x q. q) l e)
      ∙ ap (λ o. round ev now fuel (ended l) o v) b
      ∙ ap (λ o. required o >>= λ log. continue_plan ev hook now (ended l) log v) h.found
      ∙ if_true h.log.is_stopped _ _ h.stopped

  IsStopped-end : (c : ℕ) (w : World) → IsStopped p w → IsStopped p (end_command c w)
  IsStopped-end c w h = record { log = h.log; found = h.found; stopped = h.stopped; idle = h.idle }

  -- `stop` of a command of a stopped plan ends that command and does no more
  stop-stopped :
      (c : ℕ) (l : CommandLog) (w : World)
      → find_first (has_command_log c) w.command_logs ≡ some l
      → l.plan_log_id ≡ some p
      → IsStopped p w
      → stop_command ev now user again (suc fuel) c w
        ≡ ok (if l.is_running then end_command c w else w)
  unfolding stop_command get_plan_log
  stop-stopped c l w e b h =
      ap
        (λ o. required o >>= λ log.
          if log.is_running then stop_running ev now user again (suc fuel) c log w else ok w)
        e
      ∙ stop_if l.is_running
    where
      go_on : stop_running ev now user again (suc fuel) c l w ≡ ok (end_command c w)
      go_on =
          ap (λ r. r >>= λ v. stop_plan_of ev now user again l.plan_log_id v)
            (finish-stopped c l w e b h)
          ∙ ap (λ o. stop_plan_of ev now user again o (end_command c w)) b
          ∙ ap
              (λ o. required o >>= λ log.
                if log.is_running then again p (end_command c w) else ok (end_command c w))
              h.found
          ∙ if_false h.log.is_running _ _ h.idle

      stop_if :
          (b : Bool)
          → (if b then stop_running ev now user again (suc fuel) c l w else ok w)
            ≡ ok (if b then end_command c w else w)
      stop_if true = go_on
      stop_if false = refl

  ended-idle : (l : CommandLog) → (ended l).is_running ≡ false
  ended-idle l = ground arith

  find_first-end :
      (c d : ℕ) (ls : List CommandLog) (l : CommandLog)
      → find_first (has_command_log d) ls ≡ some l
      → find_first (has_command_log d) (write (has_command_log c) ended ls)
        ≡ some (if has_command_log c l then ended l else l)
  find_first-end c d [] l h = cc
  find_first-end c d (x ∷ ls) l h = ground (arith, find_first-end c d ls l)

  IsIdle-end :
      (c d : ℕ) (ls : List CommandLog) → IsIdle ls d → IsIdle (write (has_command_log c) ended ls) d
  IsIdle-end c d ls (l, e, i) = (
    (if has_command_log c l then ended l else l),
    find_first-end c d ls l e,
    either (has_command_log c l),
  )
    where
      either : (b : Bool) → (if b then ended l else l).is_running ≡ false
      either true = ended-idle l
      either false = i

  BelongsTo-end :
      (c d : ℕ) (ls : List CommandLog)
      → BelongsTo p ls d
      → BelongsTo p (write (has_command_log c) ended ls) d
  BelongsTo-end c d ls (l, e, b) = (
    (if has_command_log c l then ended l else l),
    find_first-end c d ls l e,
    either (has_command_log c l),
  )
    where
      either : (x : Bool) → (if x then ended l else l).plan_log_id ≡ some p
      either true = b
      either false = b

  length-end :
      (c : ℕ) (ls : List CommandLog) → length (write (has_command_log c) ended ls) ≡ length ls
  length-end c [] = refl
  length-end c (x ∷ ls) = ap suc (length-end c ls)

  All-BelongsTo-end :
      (c : ℕ) (cs : List ℕ) (ls : List CommandLog)
      → All (BelongsTo p ls) cs
      → All (BelongsTo p (write (has_command_log c) ended ls)) cs
  All-BelongsTo-end c [] ls h = tt
  All-BelongsTo-end c (d ∷ cs) ls h = (BelongsTo-end c d ls h.0, All-BelongsTo-end c cs ls h.1)

  -- what stopping the commands leaves behind
  pub record Stopped (cs : List ℕ) (w v : World) : Type 0 where
    pub all_idle : All (IsIdle v.command_logs) cs
    pub still_idle : (d : ℕ) → IsIdle w.command_logs d → IsIdle v.command_logs d
    pub same_plans : v.plan_logs ≡ w.plan_logs
    pub same_length : length v.command_logs ≡ length w.command_logs

  abbrev pub Stops : List ℕ → World → Type 0
  Stops cs w =
      (v : World) × (stop_commands ev now user again (suc fuel) cs w ≡ ok v) × Stopped cs w v

  stop_one :
      (c : ℕ) (w : World)
      → IsStopped p w
      → BelongsTo p w.command_logs c
      → (v : World) × (stop_command ev now user again (suc fuel) c w ≡ ok v)
        × IsStopped p v
        × Stopped (c ∷ []) w v
        × ((cs : List ℕ)
            → All (BelongsTo p w.command_logs) cs
            → All (BelongsTo p v.command_logs) cs)
  stop_one c w h (l, e, b) = elim (Bool-cases l.is_running) [
    | inl r ↦ (
      end_command c w,
      stop-stopped c l w e b h ∙ ap (λ x. ok (if x then end_command c w else w)) r,
      IsStopped-end c w h,
      record {
        all_idle = (
          (
            ended l,
            find_first-write (has_command_log c) ended w.command_logs (λ x q. q) l e,
            ended-idle l,
          ),
          tt,
        );
        still_idle = λ d. IsIdle-end c d w.command_logs;
        same_plans = refl;
        same_length = length-end c w.command_logs;
      },
      λ cs. All-BelongsTo-end c cs w.command_logs,
    )
    | inr r ↦ (
      w,
      stop-stopped c l w e b h ∙ ap (λ x. ok (if x then end_command c w else w)) r,
      h,
      record {
        all_idle = ((l, e, r), tt);
        still_idle = λ d i. i;
        same_plans = refl;
        same_length = refl;
      },
      λ cs a. a,
    )
  ]

  pub stop_commands-Stops :
      (cs : List ℕ) (w : World) → IsStopped p w → All (BelongsTo p w.command_logs) cs → Stops cs w
  unfolding stop_commands
  stop_commands-Stops [] w h a = (
    w,
    refl,
    record { all_idle = tt; still_idle = λ d i. i; same_plans = refl; same_length = refl },
  )
  stop_commands-Stops (c ∷ cs) w h a =
      let (u, e, hu, one, keep_all) = stop_one c w h a.0 in
      let (v, f, rest) = stop_commands-Stops cs u hu (keep_all cs a.1) in
      (
        v,
        ap (λ r. r >>= stop_commands ev now user again (suc fuel) cs) e ∙ f,
        record {
          all_idle = (rest.still_idle c one.all_idle.0, rest.all_idle);
          still_idle = λ d i. rest.still_idle d (one.still_idle d i);
          same_plans = rest.same_plans ∙ one.same_plans;
          same_length = rest.same_length ∙ one.same_length;
        },
      )
