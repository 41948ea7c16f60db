-- ===== src/Engine/Store.antt =====
-- Rows by their ids: what `browse`, `write`, `create` and `unlink` of the ORM do for the engine, and
-- the computed field `is_running` of cx_tower_command_log.py and cx_tower_plan_log.py.
use cetmix_tower.Prelude.{
  ℕ, ◌≡◌, Bool, true, false, not, Option, none, some, List, [], ◌∷◌, Result, ok, err, ◌==◌, nat_eq,
  if◌then◌else◌, find_first, keep, arith,
}
use cetmix_tower.Engine.Records.{Error, missing_record, Server, PlanLog, CommandLog, World}

abbrev pub required : {A : Type 0} → Option A → Result Error A
required none = err missing_record
required (some a) = ok a

abbrev pub has_plan_log : ℕ → PlanLog → Bool
has_plan_log p l = l.id == p

abbrev pub has_command_log : ℕ → CommandLog → Bool
has_command_log c l = l.id == c

abbrev pub has_server : ℕ → Server → Bool
has_server s r = r.id == s

-- `write` on the rows that a test selects
abbrev pub write {ℓ} : {A : Type ℓ} → (A → Bool) → (A → A) → List A → List A
write p f [] = []
write p f (x ∷ xs) = (if p x then f x else x) ∷ write p f xs

unfoldable pub get_plan_log : World → ℕ → Result Error PlanLog
get_plan_log w p = required (find_first (has_plan_log p) w.plan_logs)

unfoldable pub get_server : World → ℕ → Result Error Server
get_server w s = required (find_first (has_server s) w.servers)

abbrev pub write_plan_log : ℕ → (PlanLog → PlanLog) → World → World
write_plan_log p f w = record w { plan_logs = write (has_plan_log p) f w.plan_logs }

abbrev pub write_command_log : ℕ → (CommandLog → CommandLog) → World → World
write_command_log c f w = record w { command_logs = write (has_command_log c) f w.command_logs }

abbrev pub write_server : ℕ → (Server → Server) → World → World
write_server s f w = record w { servers = write (has_server s) f w.servers }

-- a deleted server takes its logs along: `ondelete="cascade"`
abbrev pub unlink_server : ℕ → World → World
unlink_server s w = record w {
  servers = keep (λ r. not (r.id == s)) w.servers;
  plan_logs = keep (λ l. not (l.server_id == s)) w.plan_logs;
  command_logs = keep (λ c. not (c.server_id == s)) w.command_logs;
}

-- `_compute_duration` of a command log
abbrev pub command_log_is_running : Option ℕ → Option ℕ → Bool
command_log_is_running none finish_date = false
command_log_is_running (some start_date) none = true
command_log_is_running (some start_date) (some finish_date) = false

-- `_compute_duration` of a plan log, which leaves the flag of a log that has not started
abbrev pub plan_log_is_running : Bool → Option ℕ → Option ℕ → Bool
plan_log_is_running before none finish_date = before
plan_log_is_running before (some start_date) (some finish_date) = false
plan_log_is_running before (some start_date) none = true

-- the row found after a write that keeps the ids
pub find_first-write {ℓ} :
    {A : Type ℓ} (p : A → Bool) (f : A → A) (xs : List A)
    → ((x : A) → p x ≡ true → p (f x) ≡ true)
    → (a : A) → find_first p xs ≡ some a
    → find_first p (write p f xs) ≡ some (f a)
find_first-write p f [] h a e = ground arith
find_first-write p f (x ∷ xs) h a e = ground (arith, h x, find_first-write p f xs h a)
