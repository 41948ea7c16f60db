-- ===== src/Engine/StopPlan.antt =====
-- About `stop` of cx_tower_plan_log.py as a whole.
use cetmix_tower.Prelude.{
  ℕ, suc, String, ◌≡◌, ◌∙◌, refl, sym, ap, subst, Bool, true, false, ◌&&◌, Option, some, List, [],
  ◌∷◌, ok, ◌>>=◌, ◌==◌, nat_eq, if◌then◌else◌, if_true, if_false, arith, Bool-cases, inl, inr,
  find_first, some_of, keep, map, All, nat_beq_iff, length,
}
use cetmix_tower.Engine.Records.{PlanLog, CommandLog, World, Evaluation, plan_stopped, Server}
use cetmix_tower.Engine.Store.{
  has_plan_log, has_command_log, get_plan_log, get_server, has_server, write, write_plan_log,
  required, find_first-write,
}
use cetmix_tower.Engine.Run.{finish, finish_values, after_finish, is_id}
use cetmix_tower.Engine.Settled.{runs_for}
use cetmix_tower.Engine.Start.{
  running_commands, stopped_message, stop_commands, stop_log, stop_plan,
}
use cetmix_tower.Engine.Stop.{IsStopped, BelongsTo, IsIdle, stop_commands-Stops}

-- No two command logs have one id.
abbrev pub DistinctLogs : List CommandLog → Type 0
DistinctLogs [] = Unit
DistinctLogs (l ∷ ls) = (some_of (has_command_log l.id) ls ≡ false) × DistinctLogs ls

abbrev pub ids_of : ℕ → List CommandLog → List ℕ
ids_of p ls = map (λ c. c.id) (keep (λ (c : CommandLog). is_id c.plan_log_id p && c.is_running) ls)

find_first-some_of :
    (c : ℕ) (ls : List CommandLog) (l : CommandLog)
    → find_first (has_command_log c) ls ≡ some l
    → some_of (has_command_log c) ls ≡ true
find_first-some_of c [] l e = cc
find_first-some_of c (x ∷ ls) l e = ground (arith, find_first-some_of c ls l)

-- an id that is found below a row with distinct id is not that row's
other_id :
    (x : CommandLog) (ls : List CommandLog) (c : ℕ) (l : CommandLog)
    → find_first (has_command_log c) ls ≡ some l
    → some_of (has_command_log x.id) ls ≡ false
    → (x.id == c) ≡ false
other_id x ls c l e d = elim (Bool-cases (x.id == c)) [
  | inl same ↦ cc (
    find_first-some_of c ls l e,
    subst (λ i. some_of (has_command_log i) ls ≡ false) ((nat_beq_iff x.id c).0 same) d,
  )
  | inr other ↦ other
]

module _ (p : ℕ) where
  -- a row with another id in front changes nothing
  BelongsTo-cons :
      (x : CommandLog) (ls : List CommandLog) (c : ℕ)
      → some_of (has_command_log x.id) ls ≡ false
      → BelongsTo p ls c
      → BelongsTo p (x ∷ ls) c
  BelongsTo-cons x ls c d (l, e, b) = (l, if_false (x.id == c) _ _ (other_id x ls c l e d) ∙ e, b)

  All-BelongsTo-cons :
      (x : CommandLog) (ls : List CommandLog) (cs : List ℕ)
      → some_of (has_command_log x.id) ls ≡ false
      → All (BelongsTo p ls) cs
      → All (BelongsTo p (x ∷ ls)) cs
  All-BelongsTo-cons x ls [] d h = tt
  All-BelongsTo-cons x ls (c ∷ cs) d h =
      (BelongsTo-cons x ls c d h.0, All-BelongsTo-cons x ls cs d h.1)

  plan_of : (x : CommandLog) → runs_for p x ≡ true → x.plan_log_id ≡ some p
  plan_of x h = ground arith

  running-BelongsTo : (ls : List CommandLog) → DistinctLogs ls → All (BelongsTo p ls) (ids_of p ls)
  running-BelongsTo [] d = tt
  running-BelongsTo (x ∷ ls) d =
      by_test (All-BelongsTo-cons x ls (ids_of p ls) d.0 (running-BelongsTo ls d.1)) (runs_for p x)
        refl
    where
      by_test :
          All (BelongsTo p (x ∷ ls)) (ids_of p ls)
          → (b : Bool) → runs_for p x ≡ b
          → All
              (BelongsTo p (x ∷ ls))
              (map (λ c. c.id) (if b then x ∷ keep (runs_for p) ls else keep (runs_for p) ls))
      by_test below true h =
          ((x, if_true (x.id == x.id) _ _ ((nat_beq_iff x.id x.id).1 refl), plan_of x h), below)
      by_test below false h = below

finish-plan_stopped :
    (now p : ℕ) (message : Option String) (w : World) (log : PlanLog) (server : Server)
    → find_first (has_plan_log p) w.plan_logs ≡ some log
    → find_first (has_server log.server_id) w.servers ≡ some server
    → (u : World) × (finish now p plan_stopped message true w ≡ ok u)
      × (u.plan_logs
          ≡ write (has_plan_log p) (finish_values now plan_stopped message true) w.plan_logs)
      × (u.command_logs ≡ w.command_logs)
unfolding finish get_plan_log get_server after_finish
finish-plan_stopped now p message w log server e s =
    let written = write_plan_log p (finish_values now plan_stopped message true) w in
    (
      after_finish log plan_stopped server written,
      ap
            (λ o. required o >>= λ l.
              required (find_first (has_server l.server_id) w.servers) >>= λ sv.
              ok (after_finish l plan_stopped sv written))
            e
          ∙ ap (λ o. required o >>= λ sv. ok (after_finish log plan_stopped sv written)) s,
      ground arith,
      ground arith,
    )

-- A running plan log of an existing server is stopped, the ids of command logs are distinct, and depth and
-- fuel are not 0. Then
-- `stop` raises nothing; the plan log is marked stopped and not running; every command log of it
-- that was running is there and not running; and no command log was added.
pub stop_plan-stops :
    (ev : Evaluation) (now depth fuel p : ℕ) (user : String) (w : World) (log : PlanLog)
    (server : Server)
    → find_first (has_plan_log p) w.plan_logs ≡ some log
    → log.is_running ≡ true
    → find_first (has_server log.server_id) w.servers ≡ some server
    → DistinctLogs w.command_logs
    → (v : World) × (stop_plan ev now user (suc depth) (suc fuel) p w ≡ ok v)
      × IsStopped p v
      × All (IsIdle v.command_logs) (running_commands p w)
      × (length v.command_logs ≡ length w.command_logs)
unfolding stop_plan get_plan_log
stop_plan-stops ev now depth fuel p user w log server e r s d =
    let message = stopped_message ev now user in
    let again = stop_plan ev now user depth (suc fuel) in
    let (u, f, plans, commands) = finish-plan_stopped now p message w log server e s in
    let found : find_first (has_plan_log p) u.plan_logs
        ≡ some (finish_values now plan_stopped message true log) =
      subst
        (λ ls.
          find_first (has_plan_log p) ls ≡ some (finish_values now plan_stopped message true log))
        (sym plans)
        (find_first-write (has_plan_log p) (finish_values now plan_stopped message true) w.plan_logs
          (λ x q. q) log e) in
    let stopped : IsStopped p u = record {
      log = finish_values now plan_stopped message true log;
      found = found;
      stopped = refl;
      idle = refl;
    } in
    let (v, g, done) =
      stop_commands-Stops ev now fuel user again p (running_commands p u) u stopped (
        subst (λ ls. All (BelongsTo p ls) (ids_of p ls)) (sym commands)
          (running-BelongsTo p w.command_logs d)) in
    (
      v,
      ap
            (λ o. required o >>= λ l.
              if l.is_running then stop_log ev now user again (suc fuel) p w else ok w)
            e
          ∙ if_true log.is_running _ _ r
          ∙ ap (λ x. x >>= λ y. stop_commands ev now user again (suc fuel) (running_commands p y) y)
              f
          ∙ g,
      record {
        log = stopped.log;
        found =
            subst (λ ls. find_first (has_plan_log p) ls ≡ some stopped.log) (sym done.same_plans)
              found;
        stopped = refl;
        idle = refl;
      },
      subst (λ ls. All (IsIdle v.command_logs) (ids_of p ls)) commands done.all_idle,
      done.same_length ∙ ap length commands,
    )
