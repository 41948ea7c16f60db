-- ===== src/Engine/Begin.antt =====
-- About the start of a plan: `start` of a plan log and `_run_single`.
use cetmix_tower.Prelude.{
  ℕ, ◌<◌, String, ◌≡◌, refl, Bool, true, false, not, ◌&&◌, ◌||◌, Option, none, some, List, [], ◌∷◌,
  ◌++◌, ℤ, ◌==◌, nat_eq, int_eq, string_eq, if◌then◌else◌, arith, inl, length, some_of, find_first,
  All,
}
use cetmix_tower.Engine.Records.{
  Values, PlanLine, Plan, PlanLog, Server, World, Evaluation, plan_is_empty, another_plan_running,
  plan_not_compatible_with_server,
}
use cetmix_tower.Engine.Store.{has_plan_log}
use cetmix_tower.Engine.Choice.{is_executable_line}
use cetmix_tower.Engine.Run.{Hook, add_plan_log, finish, set_current_line, or_text}
use cetmix_tower.Engine.Flow.{run_line, command_finished}
use cetmix_tower.Engine.Start.{
  new_plan_log, record_plan, runs_same_plan, first_line, start, run_single, run_or_refuse,
  run_if_compatible,
}
use cetmix_tower.Engine.Ensures.{Ensures, Ensures-bind, Ensures-map, Ensures-if}
use cetmix_tower.Engine.LineOrder.{Distinct, has_line, remaining}
use cetmix_tower.Engine.Settled.{
  runs_plan, Settled, IsOpen, some_of-append, finish-not_running, IsAt-set_current_line,
}
use cetmix_tower.Engine.NextLine.{executable-HasFuel}
use cetmix_tower.Engine.Unlogged.{Unlogged, first_line-Unlogged}
use cetmix_tower.Engine.Progress.{Settles, skip-Settled, command-Settled, command_finished-Settled}

-- Ids of plan logs are below the sequence.
abbrev pub FreshIds : World → Type 0
FreshIds w = All (λ l. l.id < w.next_id) w.plan_logs

remaining-lt-length :
    (ls : List PlanLine) (l : PlanLine) → has_line ls l.id ≡ true → remaining ls l < length ls
remaining-lt-length [] l h = cc
remaining-lt-length (x ∷ ls) l h = ground (arith, remaining-lt-length ls l)

find_first-fresh :
    (n : ℕ) (ls : List PlanLog) (log : PlanLog)
    → All (λ l. l.id < n) ls
    → log.id ≡ n
    → find_first (has_plan_log n) (ls ++ log ∷ []) ≡ some log
find_first-fresh n [] log h e = ground arith
find_first-fresh n (x ∷ ls) log h e = ground (arith, find_first-fresh n ls log h.1 e)

not_running_append :
    (n : ℕ) (ls : List PlanLog) (log : PlanLog)
    → All (λ l. l.id < n) ls
    → log.is_running ≡ false
    → some_of (runs_plan n) (ls ++ log ∷ []) ≡ false
not_running_append n [] log h e = ground arith
not_running_append n (x ∷ ls) log h e = ground (arith, not_running_append n ls log h.1 e)

module _ (ev : Evaluation) (hook : Hook) (now p : ℕ) (plan : Plan)
    (settles : Settles p plan (length plan.line_ids) hook) where
  first_line-Settled :
      (server : Server) (values : Values) (ls : List PlanLine) (w : World)
      → All (λ l. has_line plan.line_ids l.id ≡ true) ls
      → IsOpen p plan w
      → Ensures (Settled p) (first_line ev now false hook server p values ls w)
  unfolding first_line run_line
  first_line-Settled server values [] w a h =
      Ensures-map (λ v. some_of (runs_plan p) v.plan_logs ≡ false) (Settled p)
        (finish now p plan_is_empty none false w) (λ v e. inl e)
        (finish-not_running now p plan_is_empty none false w)
  first_line-Settled server values (line ∷ ls) w a h =
      let m = remaining-lt-length plan.line_ids line a.0 in
      Ensures-bind (λ _. Unit {0}) (Settled p)
        (is_executable_line ev line server.variable_value_ids values) _
        (executable-HasFuel ev line server.variable_value_ids values).at
        (λ b _ _.
          Ensures-if (Settled p) b _ _
            (λ _.
              command-Settled ev hook now p plan (length plan.line_ids) settles server line.command
                (or_text line.path line.command.path)
                (some (if line.use_sudo then server.use_sudo else none)) values line
                (set_current_line p line w) m (IsAt-set_current_line p plan line w h))
            (λ _.
              skip-Settled ev hook now p plan (length plan.line_ids) settles server.id line w m h))

self_runs : (p : ℕ) → (p == p) && true ≡ true
self_runs p = ground arith

has_line-weaken :
    (x : PlanLine) (ls ms : List PlanLine)
    → All (λ l. has_line ms l.id ≡ true) ls
    → All (λ l. has_line (x ∷ ms) l.id ≡ true) ls
has_line-weaken x [] ms h = tt
has_line-weaken x (l ∷ ls) ms h = (ground arith, has_line-weaken x ls ms h.1)

has_line-All : (ls : List PlanLine) → All (λ l. has_line ls l.id ≡ true) ls
has_line-All [] = tt
has_line-All (l ∷ ls) = (ground arith, has_line-weaken l ls ls (has_line-All ls))

-- How a run of a plan leaves the plan log that it returns. With command logs it has come to rest: it is
-- not running, or a command of it is. Without them it is not running, or it runs and no command log was
-- made.
abbrev pub Rests : Bool → World → ℕ × World → Type 0
Rests false w (p, v) = Settled p v
Rests true w (p, v) = Unlogged p w.command_logs v

not_running-Rests :
    (no_log : Bool) (w v : World) (p : ℕ)
    → some_of (runs_plan p) v.plan_logs ≡ false
    → Rests no_log w (p, v)
not_running-Rests false w v p h = inl h
not_running-Rests true w v p h = inl h

module _ (ev : Evaluation) (now : ℕ) where
  start-Rests :
      (no_log : Bool) (server : Server) (plan : Plan) (values : Values) (w : World)
      → Distinct plan.line_ids
      → FreshIds w
      → Ensures (Rests no_log w) (start ev now no_log server plan values w)
  unfolding start
  start-Rests true server plan values w d f =
      let p = w.next_id in
      let log = new_plan_log w now server.id plan values in
      Ensures-bind (Unlogged p w.command_logs) (Rests true w) _ _
        (first_line-Unlogged ev (command_finished ev (length plan.line_ids) now) now p server values
          plan.line_ids (add_plan_log log w)
          (some_of-append (runs_plan p) w.plan_logs log (self_runs p)))
        (λ v _ s. s)
  start-Rests false server plan values w d f =
      let p = w.next_id in
      let fuel = length plan.line_ids in
      let log = new_plan_log w now server.id plan values in
      Ensures-bind (Settled p) (Rests false w) _ _
        (first_line-Settled ev (command_finished ev fuel now) now p plan
          (λ cl line v c m h. command_finished-Settled ev now p plan fuel cl line v d c m h) server
          values plan.line_ids (add_plan_log log w) (has_line-All plan.line_ids)
          (record {
            log = log;
            found = find_first-fresh p w.plan_logs log f refl;
            same_plan = refl;
            live = refl;
          }))
        (λ v _ s. s)

  record-Rests :
      (no_log : Bool) (server : ℕ) (plan : Plan) (status : ℤ) (message : Option String) (w : World)
      → FreshIds w
      → Rests no_log w (record_plan now server plan status message w)
  unfolding record_plan
  record-Rests no_log server plan status message w f =
      not_running-Rests no_log w _ w.next_id (not_running_append w.next_id w.plan_logs _ f refl)

  refuse-Rests :
      (prevent no_log : Bool) (plan : Plan) (server : Server) (values : Values) (w : World)
      → Distinct plan.line_ids
      → FreshIds w
      → Ensures (Rests no_log w) (run_or_refuse ev now prevent no_log plan server values w)
  unfolding run_or_refuse
  refuse-Rests prevent no_log plan server values w d f =
      Ensures-if (Rests no_log w)
        ((not plan.allow_parallel_run || prevent)
          && some_of (runs_same_plan server.id plan.id) w.plan_logs)
        _ _ (λ _. record-Rests no_log server.id plan another_plan_running none w f)
        (λ _. start-Rests no_log server plan values w d f)

  compatible-Rests :
      (reason : Option String) (prevent no_log : Bool) (plan : Plan) (server : Server)
      (values : Values) (w : World)
      → Distinct plan.line_ids
      → FreshIds w
      → Ensures
          (Rests no_log w)
          (run_if_compatible ev now reason prevent no_log plan server values w)
  compatible-Rests none prevent no_log plan server values w d f =
      refuse-Rests prevent no_log plan server values w d f
  compatible-Rests (some reason) prevent no_log plan server values w d f =
      record-Rests no_log server.id plan plan_not_compatible_with_server (some reason) w f

  -- When the lines of the plan have distinct ids and the ids of plan logs are below the sequence, a run
  -- of the plan never runs out of fuel. If no exception is raised, then with command logs the plan log
  -- that it returns is not running, or a command of it is; with `no_command_log` it is not running, or
  -- it runs and the command logs are those that were there before the run.
  pub run_single-Rests :
      (incompatible : Plan → Server → Option String) (from_command prevent no_log : Bool)
      (plan : Plan) (server : Server) (values : Values) (w : World)
      → Distinct plan.line_ids
      → FreshIds w
      → Ensures
          (Rests no_log w)
          (run_single ev now incompatible from_command prevent no_log plan server values w)
  unfolding run_single
  run_single-Rests incompatible from_command prevent no_log plan server values w d f =
      compatible-Rests (if from_command then none else incompatible plan server) prevent no_log plan
        server values w d f
