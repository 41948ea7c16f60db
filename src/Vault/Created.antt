-- ===== src/Vault/Created.antt =====
-- What is read of records that have been created.
use cetmix_tower.Prelude.{
  ℕ, ◌≡◌, refl, sym, ap, ◌∙◌, false, Option, none, some, List, [], ◌∷◌, ◌==◌, nat_eq, list_eq,
  if◌then◌else◌, is_empty, contains, lookup, All, IsDistinct, Option-cases, inl, inr, arith,
}
use cetmix_tower.Prelude.Text.{Text}
use cetmix_tower.Prelude.Dictionaries.{keys}
use cetmix_tower.Vault.Rows.{plan_values, set_secret_values}
use cetmix_tower.Vault.History.{
  VaultState, IsVaultState, set_values, IsCall, run_operation, run_operations, assign_all,
  read_values, read_values-run_operations,
}
use cetmix_tower.Vault.Create.{
  RecordVals, SecretVals, given, extract_secrets, put_secret, secret_of, vault_vals,
  process_records, create_records,
}
use cetmix_tower.Vault.Creation.{given_secrets, assignments, process_records-assignments}

module _ (model : Text) (secret_fields : List Text) where
  -- without secrets nothing is assigned
  vault_vals-none :
      (fields : List Text) (row : RecordVals) → vault_vals model secret_fields fields [] row ≡ []
  vault_vals-none [] row = refl
  vault_vals-none (f ∷ fields) row = elim (Option-cases (given (lookup f row))) [
    | inl e ↦
        ap
          (λ o.
            put_secret model secret_fields f (secret_of model secret_fields [] o)
              (vault_vals model secret_fields fields [] row))
          e
        ∙ vault_vals-none fields row
    | inr (i, e) ↦
        ap
          (λ o.
            put_secret model secret_fields f (secret_of model secret_fields [] o)
              (vault_vals model secret_fields fields [] row))
          e
        ∙ vault_vals-none fields row
  ]

  assign_nothing :
      (i : ℕ) (state : VaultState)
      → run_operation model secret_fields (set_values (i ∷ []) []) state ≡ state
  unfolding run_operation set_secret_values plan_values
  assign_nothing i state = ap (λ n. record state { next_id = n }) (omega arith)

  process_records-none :
      (rows : List (ℕ × RecordVals)) (state : VaultState)
      → process_records model secret_fields [] rows state ≡ state
  process_records-none [] state = refl
  process_records-none ((i, row) ∷ rows) state =
      process_records-none rows _
      ∙ ap (λ v. run_operation model secret_fields (set_values (i ∷ []) v) state)
          (vault_vals-none secret_fields row)
      ∙ assign_nothing i state

  -- with or without secrets, all records are processed
  processed_always :
      (all : SecretVals) (rows : List (ℕ × RecordVals)) (state : VaultState)
      → (if is_empty all then state else process_records model secret_fields all rows state)
        ≡ process_records model secret_fields all rows state
  processed_always [] rows state = sym (process_records-none rows state)
  processed_always (x ∷ all) rows state = refl

  create_records-assignments :
      (records : List (ℕ × RecordVals)) (state : VaultState)
      → IsDistinct secret_fields
      → create_records model secret_fields records state
        ≡ run_operations model secret_fields (assignments model secret_fields records) state
  unfolding create_records
  create_records-assignments records state d =
      let extracted = extract_secrets model secret_fields records 0 [] in
      processed_always extracted.0 extracted.1 state
      ∙ process_records-assignments model secret_fields records 0 [] extracted.0 state d
          (λ k l. refl) (λ i v k. k)

  contains-keys-given_secrets :
      (f : Text) (fields : List Text) (vals : RecordVals)
      → contains fields f ≡ false
      → contains (keys (given_secrets model secret_fields fields vals)) f ≡ false
  contains-keys-given_secrets f [] vals h = refl
  contains-keys-given_secrets f (g ∷ fields) vals h =
      put (given (lookup g vals)) (ground arith)
        (contains-keys-given_secrets f fields vals (ground arith))
    where
      put :
          (o : Option Text)
          → (g == f) ≡ false
          → contains (keys (given_secrets model secret_fields fields vals)) f ≡ false
          → contains
              (keys (
                put_secret model secret_fields g o (given_secrets model secret_fields fields vals)))
              f
            ≡ false
      put none n k = k
      put (some []) n k = k
      put (some (c ∷ s)) n k = ground (arith, n, k)

  put_secret-IsDistinct :
      (f : Text) (o : Option Text) (vals : RecordVals)
      → contains (keys vals) f ≡ false
      → IsDistinct (keys vals)
      → IsDistinct (keys (put_secret model secret_fields f o vals))
  put_secret-IsDistinct f none vals n d = d
  put_secret-IsDistinct f (some []) vals n d = d
  put_secret-IsDistinct f (some (c ∷ s)) vals n d = (n, d)

  given_secrets-IsDistinct :
      (fields : List Text) (vals : RecordVals)
      → IsDistinct fields
      → IsDistinct (keys (given_secrets model secret_fields fields vals))
  given_secrets-IsDistinct [] vals d = tt
  given_secrets-IsDistinct (f ∷ fields) vals d =
      put_secret-IsDistinct f (given (lookup f vals))
        (given_secrets model secret_fields fields vals)
        (contains-keys-given_secrets f fields vals d.0) (given_secrets-IsDistinct fields vals d.1)

  assignments-IsCall :
      (records : List (ℕ × RecordVals))
      → IsDistinct secret_fields
      → All IsCall (assignments model secret_fields records)
  assignments-IsCall [] d = tt
  assignments-IsCall ((i, vals) ∷ records) d =
      (((refl, tt), given_secrets-IsDistinct secret_fields vals d), assignments-IsCall records d)

  -- After records are created, on a vault whose rows have unique keys and unique ids below the next one and for distinct
  -- secret fields, the values that are read are those of before, with the secrets that each new record was given and
  -- that are not empty: no temporary identifier is read in place of a value.
  pub read_values-create_records :
      (records : List (ℕ × RecordVals)) (state : VaultState)
      → IsDistinct secret_fields
      → IsVaultState state
      → read_values model secret_fields (create_records model secret_fields records state)
        ≡ assign_all model secret_fields
            (assignments model secret_fields records)
            (read_values model secret_fields state)
  read_values-create_records records state d w =
      ap (read_values model secret_fields) (create_records-assignments records state d)
      ∙ read_values-run_operations model secret_fields (assignments model secret_fields records)
          state (assignments-IsCall records d) w
