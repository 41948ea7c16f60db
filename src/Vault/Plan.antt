-- ===== src/Vault/Plan.antt =====
-- What the loops of `_set_secret_values` collect for one record and one field.
use cetmix_tower.Prelude.{
  ℕ, ◌≤◌, ◌≡◌, refl, sym, ap, ◌∙◌, Bool, true, false, not, ◌&&◌, ◌||◌, Option, none, some, List, [],
  ◌∷◌, ◌++◌, ◌==◌, nat_eq, list_eq, list_beq_iff, if◌then◌else◌, if_true, if_false, contains,
  Bool-cases, Option-cases, inl, inr, arith, find_first-none,
}
use cetmix_tower.Prelude.Text.{Text}
use cetmix_tower.Vault.Rows.{
  VaultRow, Batch, add_update, write_group, write_groups, has_key, existing, create_rows, run_batch,
}
use cetmix_tower.Vault.Effect.{
  IsVault, data_of, created, found-row, found-gone, found-none, create_rows-none,
  create_rows-find_first,
}

abbrev pub written_or : Option Text → Text → Text
written_or none old = old
written_or (some value) old = value

abbrev pub first_of : {A : Type 0} → Option A → Option A → Option A
first_of none b = b
first_of (some a) b = some a

-- the value that the groups leave in a row
abbrev pub written : List (Text × List ℕ) → ℕ → Option Text
written [] n = none
written ((value, ids) ∷ groups) n =
    first_of (written groups n) (if contains ids n then some value else none)

write_groups-id : (groups : List (Text × List ℕ)) (r : VaultRow) → (write_groups groups r).id ≡ r.id
write_groups-id [] r = refl
write_groups-id ((value, ids) ∷ groups) r =
    write_groups-id groups (write_group value ids r) ∙ ground arith

pub write_groups-has_key :
    (model : Text) (i : ℕ) (f : Text) (groups : List (Text × List ℕ)) (r : VaultRow)
    → has_key model i f (write_groups groups r) ≡ has_key model i f r
write_groups-has_key model i f [] r = refl
write_groups-has_key model i f ((value, ids) ∷ groups) r =
    write_groups-has_key model i f groups (write_group value ids r) ∙ ground arith

write_groups-written :
    (groups : List (Text × List ℕ)) (r : VaultRow)
    → (write_groups groups r).secret_data ≡ written_or (written groups r.id) r.secret_data
write_groups-written [] r = refl
write_groups-written ((value, ids) ∷ groups) r =
    write_groups-written groups (write_group value ids r)
    ∙ elim (Option-cases (written groups r.id)) [ inl e ↦ ground arith | inr (v, e) ↦ ground arith ]

pub contains-append :
    (ids : List ℕ) (m n : ℕ) → contains (ids ++ m ∷ []) n ≡ (contains ids n || m == n)
contains-append [] m n = ground arith
contains-append (x ∷ ids) m n = ground (arith, contains-append ids m n)

pub written-add_update-apart :
    (value : Text) (m n : ℕ) (groups : List (Text × List ℕ))
    → (m == n) ≡ false
    → written (add_update value m groups) n ≡ written groups n
written-add_update-apart value m n [] h = ground arith
written-add_update-apart value m n ((v, ids) ∷ groups) h =
    ground (arith, written-add_update-apart value m n groups h, contains-append ids m n)

pub written-add_update :
    (value : Text) (n : ℕ) (groups : List (Text × List ℕ))
    → written groups n ≡ none
    → written (add_update value n groups) n ≡ some value
written-add_update value n [] h = ground arith
written-add_update value n ((v, ids) ∷ groups) h =
    ground (arith, written-add_update value n groups, contains-append ids n n, list_beq_iff v value)

pub created-append :
    (i j : ℕ) (f g value : Text) (new : List (ℕ × Text × Text))
    → created i f (new ++ (j, g, value) ∷ [])
      ≡ first_of (created i f new) (if j == i && g == f then some value else none)
created-append i j f g value [] = refl
created-append i j f g value ((k, h, v) ∷ new) = ground (arith, created-append i j f g value new)

-- What is collected for a row and a key: whether the row is to be deleted, the value that it gets, and the value
-- that is created.
abbrev pub Seen : Type 0
Seen = Bool × Option Text × Option Text

abbrev pub seen : ℕ → Text → Batch → Option VaultRow → Seen
seen i f b none = (false, none, created i f b.records_to_create)
seen i f b (some r) = (
  contains b.records_to_unlink r.id,
  written b.vals_to_update_records r.id,
  created i f b.records_to_create,
)

abbrev pub outcome : Option VaultRow → Seen → Option Text
outcome none (gone, value, new) = new
outcome (some r) (gone, value, new) = if gone then none else some (written_or value r.secret_data)

abbrev pub seen_after : Option VaultRow → Option Text → Seen
seen_after none value = (false, none, value)
seen_after (some r) none = (true, none, none)
seen_after (some r) (some value) = (false, some value, none)

-- no id that is still to be given out is deleted
abbrev pub IsBelow : ℕ → List ℕ → Type 0
IsBelow next gone = (m : ℕ) → next ≤ m → contains gone m ≡ false

module _ (model : Text) (i : ℕ) (f : Text) where
  pub run_batch-none :
      (b : Batch) (next : ℕ) (rows : List VaultRow)
      → IsVault next rows
      → IsBelow next b.records_to_unlink
      → existing model rows i f ≡ none
      → data_of (existing model (run_batch model b next rows) i f) ≡ created i f b.records_to_create
  unfolding run_batch
  run_batch-none b next rows w h e =
      ap data_of (
        found-none (has_key model i f) (λ r. not (contains b.records_to_unlink r.id))
          (write_groups b.vals_to_update_records)
          (write_groups-has_key model i f b.vals_to_update_records) rows
          (create_rows model next b.records_to_create) (find_first-none (has_key model i f) rows e))
      ∙ create_rows-find_first model i f b.records_to_unlink next b.records_to_create h

  pub run_batch-row :
      (b : Batch) (next : ℕ) (rows : List VaultRow) (r : VaultRow)
      → IsVault next rows
      → created i f b.records_to_create ≡ none
      → existing model rows i f ≡ some r
      → data_of (existing model (run_batch model b next rows) i f)
        ≡ outcome (some r) (seen i f b (some r))
  unfolding run_batch
  run_batch-row b next rows r w c e =
      let live = λ (r : VaultRow). not (contains b.records_to_unlink r.id) in
      let change = write_groups b.vals_to_update_records in
      let same = write_groups-has_key model i f b.vals_to_update_records in
      let new = create_rows model next b.records_to_create in
      let kept : live (change r) ≡ not (contains b.records_to_unlink r.id) =
        ap (λ n. not (contains b.records_to_unlink n))
          (write_groups-id b.vals_to_update_records r) in
      elim (Bool-cases (contains b.records_to_unlink r.id)) [
        | inl g ↦
            ap data_of (
              found-gone model i f live change same next rows new r w e (kept ∙ ap not g)
              ∙ create_rows-none model i f live next b.records_to_create c)
            ∙ sym (if_true (contains b.records_to_unlink r.id) _ _ g)
        | inr g ↦
            ap data_of (found-row model i f live change same next rows new r w e (kept ∙ ap not g))
            ∙ ap some (write_groups-written b.vals_to_update_records r)
            ∙ sym (if_false (contains b.records_to_unlink r.id) _ _ g)
      ]
