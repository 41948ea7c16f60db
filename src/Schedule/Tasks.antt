-- ===== src/Schedule/Tasks.antt =====
-- `_run_scheduled_tasks`, `_run`, `_reserve_tasks` and `_get_next_call`. Times are seconds. What a server does to
-- run a command or a plan, the clock and the calendar's months are parameters; the rest of the database
-- is a state that the savepoint of a task restores when an exception is raised.
use cetmix_tower.Prelude.{
  ℕ, zero, suc, ◌+◌, ◌*◌, Bool, true, false, not, ◌&&◌, Option, none, some, List, [], ◌∷◌, ◌++◌,
  Result, ok, err, ◌>>=◌, ◌==◌, nat_eq, leb, if◌then◌else◌, is_empty, contains, keep, map,
}
use cetmix_tower.Prelude.Text.{Text}
use cetmix_tower.Engine.Store.{write}

pub data IntervalType : Type 0 where
  minutes hours days weeks months : IntervalType

pub data TaskAction : Type 0 where
  run_command run_plan : TaskAction

pub record Task : Type 0 where
  pub id : ℕ
  pub active : Bool
  pub action : TaskAction
  pub command_id : Option ℕ
  pub plan_id : Option ℕ
  pub server_ids : List ℕ
  pub is_running : Bool
  pub interval_number : ℕ
  pub interval_type : Option IntervalType
  pub next_call : ℕ
  pub last_call : Option ℕ
  pub custom_variable_value_ids : List (Text × Text)

pub record Outside (State : Type 0) : Type 0 where
  pub server_run_command : ℕ → ℕ → List (Text × Text) → State → Result Text State
  pub server_run_flight_plan : ℕ → ℕ → List (Text × Text) → State → Result Text State
  pub now : State → ℕ
  pub add_months : ℕ → ℕ → ℕ

pub record Database (State : Type 0) : Type 0 where
  pub tasks : List Task
  pub rest : State

abbrev pub has_task : ℕ → Task → Bool
has_task i t = t.id == i

-- the rows that the query of `_reserve_tasks` locks: `locked` are those that another transaction holds;
-- the rows stand in the order of their ids
abbrev pub is_free : List ℕ → (ℕ → Bool) → Task → Bool
is_free ids locked t = contains ids t.id && not t.is_running && not (locked t.id)

-- `_reserve_tasks`: the tasks that were free, and the rows with their flags set
unfoldable pub reserve_tasks : List ℕ → (ℕ → Bool) → List Task → List Task × List Task
reserve_tasks ids locked rows = (
  keep (is_free ids locked) rows,
  write (is_free ids locked) (λ t. record t { is_running = true }) rows,
)

module _ {State : Type 0} (out : Outside State) where
  abbrev pub interval : Option IntervalType → ℕ → ℕ → ℕ
  interval none num from_date = from_date
  interval (some minutes) num from_date = from_date + num * 60
  interval (some hours) num from_date = from_date + num * 3600
  interval (some days) num from_date = from_date + num * 86400
  interval (some weeks) num from_date = from_date + num * 604800
  interval (some months) num from_date = out.add_months num from_date

  -- `task.interval_number or 1`
  abbrev pub or_one : ℕ → ℕ
  or_one zero = 1
  or_one (suc n) = suc n

  unfoldable pub get_next_call : Task → ℕ → ℕ
  get_next_call task from_date = interval task.interval_type (or_one task.interval_number) from_date

  -- the loop over the servers of `_run_command` and `_run_plan`
  abbrev pub on_servers : (ℕ → State → Result Text State) → List ℕ → State → Result Text State
  on_servers run [] s = ok s
  on_servers run (server ∷ servers) s = run server s >>= on_servers run servers

  abbrev pub run_action : Task → TaskAction → Option ℕ → Option ℕ → State → Result Text State
  run_action task run_command (some command) plan s =
      on_servers (λ server. out.server_run_command server command task.custom_variable_value_ids)
        task.server_ids s
  run_action task run_plan command (some plan) s =
      on_servers (λ server. out.server_run_flight_plan server plan task.custom_variable_value_ids)
        task.server_ids s
  run_action task run_command none plan s = ok s
  run_action task run_plan command none s = ok s

  -- what `finally` writes
  abbrev pub released : Task → ℕ → Task → Task
  released task finished_at row = record row {
    last_call = some finished_at;
    next_call = get_next_call task finished_at;
    is_running = false;
  }

  abbrev pub finish_task : Task → State → List Task → Database State
  finish_task task s rows = record {
    tasks = write (has_task task.id) (released task (out.now s)) rows;
    rest = s;
  }

  -- the state after the savepoint, and the error of the task
  abbrev pub savepoint : State → Result Text State → State × List Text
  savepoint s (ok t) = (t, [])
  savepoint s (err e) = (s, e ∷ [])

  unfoldable pub run_tasks : List Task → Database State → Database State × List Text
  unfolding get_next_call
  run_tasks [] db = (db, [])
  run_tasks (task ∷ tasks) db =
      let (s, error) =
        savepoint db.rest (run_action task task.action task.command_id task.plan_id db.rest) in
      let (done, errors) = run_tasks tasks (finish_task task s db.tasks) in (done, error ++ errors)

  -- the errors that the notification shows; `none` when no task was free
  abbrev pub reported : Database State → List Task × List Task → Database State × Option (List Text)
  reported db ([], rows) = (db, none)
  reported db (task ∷ tasks, rows) =
      let (done, errors) = run_tasks (task ∷ tasks) (record db { tasks = rows }) in
      (done, some errors)

  unfoldable pub run : List ℕ → (ℕ → Bool) → Database State → Database State × Option (List Text)
  unfolding reserve_tasks run_tasks
  run ids locked db = reported db (reserve_tasks ids locked db.tasks)

  -- the tasks that are due
  abbrev pub is_due : ℕ → Task → Bool
  is_due now t = leb t.next_call now && t.active && not t.is_running

  unfoldable pub run_scheduled_tasks : (ℕ → Bool) → Database State → Database State
  unfolding run
  run_scheduled_tasks locked db =
      let due = map (λ t. t.id) (keep (is_due (out.now db.rest)) db.tasks) in
      let (done, errors) = run due locked db in if is_empty due then db else done
