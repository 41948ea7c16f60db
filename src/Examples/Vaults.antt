-- ===== src/Examples/Vaults.antt =====
-- A vault with one password, and the properties of histories applied to it.
use cetmix_tower.Prelude.{◌≡◌, refl, none, some, List, [], ◌∷◌, arith, ℕ}
use cetmix_tower.Prelude.Text.{Text, codes}
use cetmix_tower.Vault.History.{
  VaultState, Operation, set_values, delete_records, run_operations, run_operation, assign_all,
  read_values, IsVaultState, read_values-run_operations, run_operation-IsVaultState,
}
use cetmix_tower.Vault.Create.{RecordVals, create_records}
use cetmix_tower.Vault.Creation.{assignments}
use cetmix_tower.Vault.Created.{read_values-create_records}

abbrev fields : List Text
fields = codes "ssh_password" ∷ codes "host_key" ∷ []

abbrev state : VaultState
state = record {
  next_id = 2;
  rows =
      record {
        id = 1;
        res_model = codes "server";
        res_id = 7;
        field_name = codes "ssh_password";
        secret_data = codes "old";
      }
      ∷ [];
}

abbrev password_set : Operation
password_set =
    set_values (7 ∷ 8 ∷ [])
      ((codes "ssh_password", some (codes "new")) ∷ (codes "host_key", none) ∷ [])

abbrev history : List Operation
history = password_set ∷ delete_records (8 ∷ []) ∷ []

read_values-run_operations_example :
    read_values (codes "server") fields (run_operations (codes "server") fields history state)
    ≡ assign_all (codes "server") fields history (read_values (codes "server") fields state)
read_values-run_operations_example =
    read_values-run_operations (codes "server") fields history state
      (((refl, (refl, tt)), (refl, (refl, tt))), (tt, tt)) (omega arith, tt, tt)

run_operation-IsVaultState_example :
    IsVaultState (run_operation (codes "server") fields password_set state)
run_operation-IsVaultState_example =
    run_operation-IsVaultState (codes "server") fields password_set state
      ((refl, (refl, tt)), (refl, (refl, tt))) (omega arith, tt, tt)

-- two records, one with a password and one with an empty one
abbrev created : List (ℕ × RecordVals)
created =
    (9, (codes "name", some (codes "a")) ∷ (codes "ssh_password", some (codes "first")) ∷ [])
    ∷ (10, (codes "ssh_password", some []) ∷ (codes "host_key", some (codes "key")) ∷ [])
    ∷ []

read_values-create_records_example :
    read_values (codes "server") fields (create_records (codes "server") fields created state)
    ≡ assign_all
        (codes "server")
        fields
        (assignments (codes "server") fields created)
        (read_values (codes "server") fields state)
read_values-create_records_example =
    read_values-create_records (codes "server") fields created state (refl, (refl, tt))
      (omega arith, tt, tt)
