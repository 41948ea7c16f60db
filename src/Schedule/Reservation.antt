-- ===== src/Schedule/Reservation.antt =====
-- About reservations and releases of scheduled tasks.
use cetmix_tower.Prelude.{
  ℕ, zero, suc, ◌<◌, ◌≡◌, refl, sym, subst, Bool, true, false, not, ◌&&◌, ◌||◌, Option, none, some,
  List, [], ◌∷◌, ◌==◌, nat_eq, nat_beq_iff, if◌then◌else◌, if_true, if_false, contains, keep, map,
  All, All-map, Bool-cases, inl, inr, arith,
}
use cetmix_tower.Engine.Store.{write}
use cetmix_tower.Schedule.Tasks.{
  IntervalType, minutes, hours, days, weeks, months, Task, Outside, Database, has_task, is_free,
  reserve_tasks, interval, or_one, get_next_call, run_action, released, finish_task, savepoint,
  run_tasks, reported, run,
}

keep-All {ℓ κ} :
    {A : Type ℓ} (P : A → Type κ) (p : A → Bool) (xs : List A)
    → All (λ x. p x ≡ true → P x) xs
    → All P (keep p xs)
keep-All P p [] h = tt
keep-All P p (x ∷ xs) h = elim (Bool-cases (p x)) [
  | inl kept ↦ subst (All P) (sym (if_true (p x) _ _ kept)) (h.0 kept, keep-All P p xs h.1)
  | inr left ↦ subst (All P) (sym (if_false (p x) _ _ left)) (keep-All P p xs h.1)
]

write-All {ℓ κ} :
    {A : Type ℓ} (P : A → Type κ) (p : A → Bool) (f : A → A) (xs : List A)
    → All (λ x. P (if p x then f x else x)) xs
    → All P (write p f xs)
write-All P p f [] h = tt
write-All P p f (x ∷ xs) h = (h.0, write-All P p f xs h.1)

always : (P : Task → Type 0) → ((t : Task) → P t) → (ts : List Task) → All P ts
always P f [] = tt
always P f (t ∷ ts) = (f t, always P f ts)

abbrev pub ids_of : List Task → List ℕ
ids_of ts = map (λ t. t.id) ts

-- the rows that a reservation takes: asked for, and not locked by another transaction
abbrev pub takes : List ℕ → (ℕ → Bool) → Task → Bool
takes ids locked t = contains ids t.id && not (locked t.id)

taken_once :
    (ids others : List ℕ) (l m : ℕ → Bool) (t : Task) (b : Bool)
    → is_free ids l t ≡ b
    → is_free others m (if b then record t { is_running = true } else t) ≡ true
    → takes ids l (if b then record t { is_running = true } else t) ≡ false
taken_once ids others l m t true e h = ground arith
taken_once ids others l m t false e h = ground arith

-- Of two reservations in a row, for any tasks and under any locks, the second gets no task that the
-- first asked for and that no other transaction had locked.
pub reserve_tasks_once :
    (ids others : List ℕ) (l m : ℕ → Bool) (rows : List Task)
    → All (λ t. takes ids l t ≡ false) (reserve_tasks others m (reserve_tasks ids l rows).1).0
unfolding reserve_tasks
reserve_tasks_once ids others l m rows =
    keep-All (λ t. takes ids l t ≡ false) (is_free others m) _
      (write-All (λ t. is_free others m t ≡ true → takes ids l t ≡ false) (is_free ids l) _ rows
        (always _ (λ t. taken_once ids others l m t (is_free ids l t) refl) rows))

-- Adding months goes forward in time, as `relativedelta` does for a positive number.
abbrev pub MonthsForward : {State : Type 0} → Outside State → Type 0
MonthsForward out = (n t : ℕ) → t < out.add_months (suc n) t

-- The row is not running, and was called at a time before its next call.
abbrev pub IsReleased : Task → Type 0
IsReleased r = (r.is_running ≡ false) × ((t : ℕ) × (r.last_call ≡ some t) × (t < r.next_call))

abbrev pub has_interval : Option IntervalType → Bool
has_interval none = false
has_interval (some i) = true

-- a row is as it should be once its task is behind
abbrev IsBehind : (ℕ → Bool) → Task → Type 0
IsBehind behind r = behind r.id ≡ true → IsReleased r

abbrev pub behind_of : (ℕ → Bool) → List Task → ℕ → Bool
behind_of behind [] i = behind i
behind_of behind (t ∷ ts) i = behind_of (λ j. j == t.id || behind j) ts i

module _ {State : Type 0} (out : Outside State) (forward : MonthsForward out) where
  interval_forward :
      (i : Option IntervalType) (n t : ℕ)
      → has_interval i ≡ true
      → t < interval out i (or_one out n) t
  interval_forward none n t h = cc
  interval_forward (some minutes) zero t h = omega arith
  interval_forward (some hours) zero t h = omega arith
  interval_forward (some days) zero t h = omega arith
  interval_forward (some weeks) zero t h = omega arith
  interval_forward (some months) zero t h = forward 0 t
  interval_forward (some minutes) (suc n) t h = omega arith
  interval_forward (some hours) (suc n) t h = omega arith
  interval_forward (some days) (suc n) t h = omega arith
  interval_forward (some weeks) (suc n) t h = omega arith
  interval_forward (some months) (suc n) t h = forward n t

  released-IsBehind :
      (task r : Task) (s : State) (behind : ℕ → Bool) (b : Bool)
      → has_interval task.interval_type ≡ true
      → has_task task.id r ≡ b
      → IsBehind behind r
      → IsBehind (λ i. i == task.id || behind i) (if b then released out task (out.now s) r else r)
  unfolding get_next_call
  released-IsBehind task r s behind true i e h =
      λ _. (refl, (out.now s, refl, interval_forward task.interval_type task.interval_number _ i))
  released-IsBehind task r s behind false i e h = λ k. h (ground arith)

  run_tasks-Released :
      (tasks : List Task) (db : Database State) (behind : ℕ → Bool)
      → All (λ t. has_interval t.interval_type ≡ true) tasks
      → All (IsBehind behind) db.tasks
      → All (IsBehind (behind_of behind tasks)) (run_tasks out tasks db).0.tasks
  unfolding run_tasks
  run_tasks-Released [] db behind i h = h
  run_tasks-Released (task ∷ tasks) db behind i h =
      let (s, error) =
        savepoint out db.rest
          (run_action out task task.action task.command_id task.plan_id db.rest) in
      run_tasks-Released tasks (finish_task out task s db.tasks) (λ j. j == task.id || behind j) i.1
        (write-All _ (has_task task.id) _ db.tasks (
          All-map _ _ db.tasks
            (λ r b. released-IsBehind task r s behind (has_task task.id r) i.0 refl b) h))

  behind-stays : (f : ℕ → Bool) (ts : List Task) (i : ℕ) → f i ≡ true → behind_of f ts i ≡ true
  behind-stays f [] i h = h
  behind-stays f (t ∷ ts) i h = behind-stays (λ j. j == t.id || f j) ts i (ground arith)

  contains-behind :
      (f : ℕ → Bool) (ts : List Task) (i : ℕ)
      → contains (ids_of ts) i ≡ true
      → behind_of f ts i ≡ true
  contains-behind f [] i h = cc
  contains-behind f (t ∷ ts) i h = elim (Bool-cases (i == t.id)) [
    | inl same ↦ behind-stays (λ j. j == t.id || f j) ts i (ground arith)
    | inr other ↦
        contains-behind (λ j. j == t.id || f j) ts i
          (ground (arith, nat_beq_iff i t.id, nat_beq_iff t.id i))
  ]

  reported-Released :
      (db : Database State) (reserved rows : List Task)
      → All (λ t. has_interval t.interval_type ≡ true) reserved
      → All
          (λ r. contains (ids_of reserved) r.id ≡ true → IsReleased r)
          (reported out db (reserved, rows)).0.tasks
  reported-Released db [] rows i = always _ (λ r h. cc) db.tasks
  reported-Released db (t ∷ ts) rows i =
      All-map _ _ (run_tasks out (t ∷ ts) (record db { tasks = rows })).0.tasks
        (λ r b h. b (contains-behind (λ _. false) (t ∷ ts) r.id h))
        (run_tasks-Released (t ∷ ts) (record db { tasks = rows }) (λ _. false) i
          (always _ (λ r h. cc) rows))

  -- Every task has a unit of its interval. Then after a run each task that it reserved is not running, and
  -- its next call lies after its last one, also when its action or that of another task has raised.
  pub run-Released :
      (ids : List ℕ) (locked : ℕ → Bool) (db : Database State)
      → All (λ t. has_interval t.interval_type ≡ true) db.tasks
      → All
          (λ r. contains (ids_of (reserve_tasks ids locked db.tasks).0) r.id ≡ true → IsReleased r)
          (run out ids locked db).0.tasks
  unfolding run reserve_tasks
  run-Released ids locked db i =
      reported-Released db (keep (is_free ids locked) db.tasks) _
        (keep-All _ (is_free ids locked) db.tasks (All-map _ _ db.tasks (λ t h _. h) i))
