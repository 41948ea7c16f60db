-- ===== src/Vault/Create.antt =====
-- `create` of the vault mixin: `_extract_and_replace_secret_fields`, `_process_secret_values_after_creation` and
-- `_process_single_record_secrets`. The main table holds what `create` was given, for the fields that were given.
use cetmix_tower.Prelude.{
  ℕ, suc, Option, none, some, List, [], ◌∷◌, nat_eq, list_eq, if◌then◌else◌, is_empty, lookup,
  insert,
}
use cetmix_tower.Prelude.Text.{Text}
use cetmix_tower.Prelude.Decimal.{decimal}
use cetmix_tower.Vault.History.{VaultState, set_values, run_operation}

-- the values of a record, where `none` is False or None
abbrev pub RecordVals : Type 0
RecordVals = List (Text × Option Text)

-- the values by their temporary identifiers
abbrev pub SecretVals : Type 0
SecretVals = List (Text × Text)

abbrev pub given : Option (Option Text) → Option Text
given none = none
given (some value) = value

-- the counter, the secret values and the values of the record
abbrev pub Extracted : Type 0
Extracted = ℕ × SecretVals × RecordVals

abbrev pub replace_value : Text → Option Text → Extracted → Extracted
replace_value f none e = e
replace_value f (some value) (counter, secret_vals, vals) = (
  suc counter,
  insert (decimal (suc counter)) value secret_vals,
  insert f (some (decimal (suc counter))) vals,
)

abbrev pub replace_fields : List Text → Extracted → Extracted
replace_fields [] e = e
replace_fields (f ∷ fields) e = replace_fields fields (replace_value f (given (lookup f e.2)) e)

module _ (model : Text) (secret_fields : List Text) where
  -- `_extract_and_replace_secret_fields`, with the ids that the records get
  unfoldable pub extract_secrets :
      List (ℕ × RecordVals) → ℕ → SecretVals → SecretVals × List (ℕ × RecordVals)
  extract_secrets [] counter secret_vals = (secret_vals, [])
  extract_secrets ((i, vals) ∷ records) counter secret_vals =
      let (n, s, replaced) = replace_fields secret_fields (counter, secret_vals, vals) in
      let (all, rest) = extract_secrets records n s in (all, (i, replaced) ∷ rest)

  abbrev pub put_secret : Text → Option Text → RecordVals → RecordVals
  put_secret f none vals = vals
  put_secret f (some []) vals = vals
  put_secret f (some (c ∷ s)) vals = (f, some (c ∷ s)) ∷ vals

  abbrev pub secret_of : SecretVals → Option Text → Option Text
  secret_of secret_vals none = none
  secret_of secret_vals (some identifier) = lookup identifier secret_vals

  -- the loop of `_process_single_record_secrets`
  abbrev pub vault_vals : List Text → SecretVals → RecordVals → RecordVals
  vault_vals [] secret_vals row = []
  vault_vals (f ∷ fields) secret_vals row =
      put_secret f (secret_of secret_vals (given (lookup f row)))
        (vault_vals fields secret_vals row)

  abbrev pub process_records : SecretVals → List (ℕ × RecordVals) → VaultState → VaultState
  process_records secret_vals [] s = s
  process_records secret_vals ((i, row) ∷ rows) s = process_records secret_vals rows (
      run_operation model secret_fields
        (set_values (i ∷ []) (vault_vals secret_fields secret_vals row)) s)

  unfoldable pub create_records : List (ℕ × RecordVals) → VaultState → VaultState
  unfolding extract_secrets
  create_records records s =
      let (secret_vals, rows) = extract_secrets records 0 [] in
      if is_empty secret_vals then s else process_records secret_vals rows s
