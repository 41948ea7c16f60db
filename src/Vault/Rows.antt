-- ===== src/Vault/Rows.antt =====
-- `_set_secret_values`, `_get_secret_values`, `_get_secret_value` and `unlink` of the vault mixin, for one model with
-- its secret fields. The value `none` is Python's False or None.
use cetmix_tower.Prelude.{
  ℕ, suc, Bool, not, ◌&&◌, ◌||◌, Option, none, some, List, [], ◌∷◌, ◌++◌, ◌==◌, nat_eq, list_eq,
  if◌then◌else◌, contains, keep, is_empty, map, lookup, insert, find_first,
}
use cetmix_tower.Prelude.Text.{Text}

pub record VaultRow : Type 0 where
  pub id : ℕ
  pub res_model : Text
  pub res_id : ℕ
  pub field_name : Text
  pub secret_data : Text

-- what the loops collect before anything is written
pub record Batch : Type 0 where
  pub vals_to_update_records : List (Text × List ℕ)
  pub records_to_unlink : List ℕ
  pub records_to_create : List (ℕ × Text × Text)

abbrev pub no_batch : Batch
no_batch = record { vals_to_update_records = []; records_to_unlink = []; records_to_create = [] }

-- `vals_to_update_records[value] |= existing_record`
abbrev pub add_update : Text → ℕ → List (Text × List ℕ) → List (Text × List ℕ)
add_update value row [] = (value, row ∷ []) ∷ []
add_update value row ((v, rows) ∷ groups) =
    if v == value then (v, rows ++ row ∷ []) ∷ groups else (v, rows) ∷ add_update value row groups

-- `for record in self: for field, value in vals.items()`
abbrev pub pairs : List ℕ → List (Text × Option Text) → List (ℕ × Text × Option Text)
pairs [] vals = []
pairs (i ∷ ids) vals = map (λ (f, value). (i, f, value)) vals ++ pairs ids vals

-- the groups are written one after the other
abbrev pub write_group : Text → List ℕ → VaultRow → VaultRow
write_group value ids r = if contains ids r.id then record r { secret_data = value } else r

abbrev pub write_groups : List (Text × List ℕ) → VaultRow → VaultRow
write_groups [] r = r
write_groups ((value, ids) ∷ groups) r = write_groups groups (write_group value ids r)

abbrev pub plan_value : ℕ → Text → Option VaultRow → Option Text → Batch → Batch
plan_value i f (some r) none b = record b { records_to_unlink = b.records_to_unlink ++ r.id ∷ [] }
plan_value i f (some r) (some value) b = record b {
  vals_to_update_records = add_update value r.id b.vals_to_update_records;
}
plan_value i f none none b = b
plan_value i f none (some value) b = record b {
  records_to_create = b.records_to_create ++ (i, f, value) ∷ [];
}

-- `res[record["res_id"]][record["field_name"]] = record["data"]`
abbrev pub or_empty : Option (List (Text × Text)) → List (Text × Text)
or_empty none = []
or_empty (some values) = values

unfoldable pub collect_values :
    List VaultRow → List (ℕ × List (Text × Text)) → List (ℕ × List (Text × Text))
collect_values [] res = res
collect_values (r ∷ rows) res =
    collect_values rows
      (insert r.res_id (insert r.field_name r.secret_data (or_empty (lookup r.res_id res))) res)

abbrev pub lookup_field : Text → Option (List (Text × Text)) → Option Text
lookup_field f none = none
lookup_field f (some values) = lookup f values

module _ (model : Text) where
  abbrev pub has_key : ℕ → Text → VaultRow → Bool
  has_key i f r = r.res_model == model && r.res_id == i && r.field_name == f

  -- the existing row of a record and a field; a key has one row at most, by the constraint `vault_unique_key`
  abbrev pub existing : List VaultRow → ℕ → Text → Option VaultRow
  existing rows i f = find_first (has_key i f) rows

  abbrev pub create_rows : ℕ → List (ℕ × Text × Text) → List VaultRow
  create_rows next [] = []
  create_rows next ((i, f, value) ∷ rest) =
      record { id = next; res_model = model; res_id = i; field_name = f; secret_data = value }
      ∷ create_rows (suc next) rest

  unfoldable pub run_batch : Batch → ℕ → List VaultRow → List VaultRow
  run_batch b next rows =
      keep (λ r. not (contains b.records_to_unlink r.id))
        (map (write_groups b.vals_to_update_records) rows ++ create_rows next b.records_to_create)

  abbrev pub in_domain : List ℕ → List Text → VaultRow → Bool
  in_domain ids fields r =
      r.res_model == model && contains ids r.res_id && contains fields r.field_name

  -- `unlink`: the vault rows of the records go too
  unfoldable pub unlink : List ℕ → List VaultRow → List VaultRow
  unlink ids rows = keep (λ r. not (r.res_model == model && contains ids r.res_id)) rows

module _ (model : Text) (secret_fields : List Text) where
  unfoldable pub plan_values : List VaultRow → List (ℕ × Text × Option Text) → Batch → Batch
  plan_values rows [] b = b
  plan_values rows ((i, f, value) ∷ rest) b =
      plan_values rows rest
        (if contains secret_fields f then plan_value i f (existing model rows i f) value b else b)

  -- `_set_secret_values`
  unfoldable pub set_secret_values :
      List ℕ → List (Text × Option Text) → ℕ → List VaultRow → List VaultRow
  unfolding plan_values run_batch
  set_secret_values ids vals next rows =
      if is_empty vals || is_empty ids
      then rows
      else run_batch model (plan_values rows (pairs ids vals) no_batch) next rows

  abbrev pub fields_to_fetch : List Text → List Text
  fields_to_fetch [] = secret_fields
  fields_to_fetch (f ∷ fields) = keep (contains secret_fields) (f ∷ fields)

  -- `_get_secret_values`
  unfoldable pub get_secret_values :
      List ℕ → List Text → List VaultRow → List (ℕ × List (Text × Text))
  unfolding collect_values
  get_secret_values ids fields_list rows =
      if is_empty ids || is_empty (fields_to_fetch fields_list)
      then []
      else collect_values (keep (in_domain model ids (fields_to_fetch fields_list)) rows) []

  -- `_get_secret_value`
  unfoldable pub get_secret_value : ℕ → Text → List VaultRow → Option Text
  unfolding get_secret_values
  get_secret_value i f rows = lookup_field f (lookup i (get_secret_values (i ∷ []) (f ∷ []) rows))
