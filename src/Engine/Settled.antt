-- ===== src/Engine/Settled.antt =====
-- When a plan log has come to rest: it has finished, or one of its commands is running.
use cetmix_tower.Prelude.{
  find_first-holds, ℕ, String, ◌≡◌, ◌⊎◌, refl, sym, Bool, true, false, not, ◌&&◌, Option, some,
  List, [], ◌∷◌, ◌++◌, ℤ, ◌==◌, nat_eq, int_eq, nat_beq_iff, arith, some_of, keep, find_first,
  subst,
}
use cetmix_tower.Engine.Records.{PlanLine, Plan, PlanLog, CommandLog, Server, World, Values}
use cetmix_tower.Engine.Store.{
  has_plan_log, get_plan_log, get_server, write, write_plan_log, find_first-write,
}
use cetmix_tower.Engine.Run.{is_id, after_finish, finish, finish_values, set_current_line}
use cetmix_tower.Engine.Ensures.{Ensures, Ensures-bind, Ensures-required}

abbrev pub runs_plan : ℕ → PlanLog → Bool
runs_plan p l = l.id == p && l.is_running

abbrev pub runs_for : ℕ → CommandLog → Bool
runs_for p c = is_id c.plan_log_id p && c.is_running

abbrev pub Settled : ℕ → World → Type 0
Settled p w =
    (some_of (runs_plan p) w.plan_logs ≡ false) ⊎ (some_of (runs_for p) w.command_logs ≡ true)

-- The log belongs to a plan, and was not stopped.
pub record IsOpen (p : ℕ) (plan : Plan) (w : World) : Type 0 where
  pub log : PlanLog
  pub found : find_first (has_plan_log p) w.plan_logs ≡ some log
  pub same_plan : log.plan ≡ plan
  pub live : log.is_stopped ≡ false

-- The log stands at a line of a plan, and was not stopped.
pub record IsAt (p : ℕ) (plan : Plan) (line : PlanLine) (w : World) : Type 0 where
  pub log : PlanLog
  pub found : find_first (has_plan_log p) w.plan_logs ≡ some log
  pub same_plan : log.plan ≡ plan
  pub current : log.plan_line_executed_id ≡ some line
  pub live : log.is_stopped ≡ false

pub some_of-append {ℓ} :
    {A : Type ℓ} (q : A → Bool) (xs : List A) (y : A) → q y ≡ true → some_of q (xs ++ y ∷ []) ≡ true
some_of-append q [] y h = ground arith
some_of-append q (x ∷ xs) y h = ground (arith, some_of-append q xs y h)

pub some_of-keep {ℓ} :
    {A : Type ℓ} (q r : A → Bool) (xs : List A)
    → some_of q xs ≡ false
    → some_of q (keep r xs) ≡ false
some_of-keep q r [] h = refl
some_of-keep q r (x ∷ xs) h = ground (arith, some_of-keep q r xs)

finished_not_running :
    (now p : ℕ) (status : ℤ) (message : Option String) (stopped : Bool) (ls : List PlanLog)
    → some_of (runs_plan p) (write (has_plan_log p) (finish_values now status message stopped) ls)
      ≡ false
finished_not_running now p status message stopped [] = refl
finished_not_running now p status message stopped (l ∷ ls) =
    ground (arith, finished_not_running now p status message stopped ls)

after_finish_not_running :
    (p : ℕ) (log : PlanLog) (status : ℤ) (server : Server) (w : World)
    → some_of (runs_plan p) w.plan_logs ≡ false
    → some_of (runs_plan p) (after_finish log status server w).plan_logs ≡ false
unfolding after_finish
after_finish_not_running p log status server w h =
    ground (arith, some_of-keep (runs_plan p) (λ l. not (l.server_id == server.id)) w.plan_logs h)

-- A finished plan log is not running, whatever becomes of its server.
pub finish-not_running :
    (now p : ℕ) (status : ℤ) (message : Option String) (stopped : Bool) (w : World)
    → Ensures
        (λ v. some_of (runs_plan p) v.plan_logs ≡ false)
        (finish now p status message stopped w)
unfolding finish get_plan_log get_server
finish-not_running now p status message stopped w =
    let v = write_plan_log p (finish_values now status message stopped) w in
    Ensures-bind (λ _. Unit {0}) _ (get_plan_log w p) _ (Ensures-required _)
      (λ log _ _.
        Ensures-bind (λ _. Unit {0}) _ (get_server v log.server_id) _ (Ensures-required _)
          (λ server _ _.
            after_finish_not_running p log status server v
              (finished_not_running now p status message stopped w.plan_logs)))

pub IsAt-set_current_line :
    (p : ℕ) (plan : Plan) (line : PlanLine) (w : World)
    → IsOpen p plan w
    → IsAt p plan line (set_current_line p line w)
IsAt-set_current_line p plan line w h = record {
  log = record h.log { plan_line_executed_id = some line };
  found = find_first-write (has_plan_log p) _ w.plan_logs (λ x q. q) h.log h.found;
  same_plan = h.same_plan;
  current = refl;
  live = h.live;
}

pub IsAt-same :
    (p : ℕ) (plan : Plan) (line : PlanLine) (w v : World)
    → v.plan_logs ≡ w.plan_logs
    → IsAt p plan line w
    → IsAt p plan line v
IsAt-same p plan line w v e h = record {
  log = h.log;
  found = subst (λ ls. find_first (has_plan_log p) ls ≡ some h.log) (sym e) h.found;
  same_plan = h.same_plan;
  current = h.current;
  live = h.live;
}

-- the values of the last command are stored in the log
pub IsAt-set_values :
    (p : ℕ) (plan : Plan) (line : PlanLine) (values : Values) (w : World)
    → IsAt p plan line w
    → IsAt p plan line (write_plan_log p (λ l. record l { variable_values = values }) w)
IsAt-set_values p plan line values w h = record {
  log = record h.log { variable_values = values };
  found = find_first-write (has_plan_log p) _ w.plan_logs (λ x q. q) h.log h.found;
  same_plan = h.same_plan;
  current = h.current;
  live = h.live;
}

pub IsAt-id :
    (p : ℕ) (plan : Plan) (line : PlanLine) (w : World) (h : IsAt p plan line w) → h.log.id ≡ p
IsAt-id p plan line w h =
    (nat_beq_iff h.log.id p).0 (find_first-holds (has_plan_log p) w.plan_logs h.log h.found)

pub IsOpen-at :
    (p : ℕ) (plan : Plan) (line : PlanLine) (w : World) → IsAt p plan line w → IsOpen p plan w
IsOpen-at p plan line w h = record {
  log = h.log;
  found = h.found;
  same_plan = h.same_plan;
  live = h.live;
}
