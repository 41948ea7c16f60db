-- ===== src/Vault/Invariant.antt =====
-- The vault stays a vault: `_set_secret_values` and `unlink` keep the ids and the keys of the rows unique.
use cetmix_tower.Prelude.{
  ℕ, suc, ◌+◌, ◌<◌, ◌≡◌, refl, sym, subst, false, not, none, List, [], ◌∷◌, ◌++◌, nat_eq, list_eq,
  list_beq_iff, contains, map, length, All, arith,
}
use cetmix_tower.Prelude.Text.{Text}
use cetmix_tower.Vault.Rows.{
  VaultRow, Batch, has_key, existing, write_groups, create_rows, run_batch,
}
use cetmix_tower.Vault.Effect.{IsVault, IsApart, created}
use cetmix_tower.Vault.Unique.{
  IsVault-keep, IsVault-append, IsVault-write_groups, write_groups-rest,
}

-- a new entry: a record, a field and a value
abbrev pub Entry : Type 0
Entry = ℕ × Text × Text

module _ (model : Text) where
  -- the entries are for keys without a row, one for each
  abbrev pub IsNewKeys : List VaultRow → List Entry → Type 0
  IsNewKeys rows [] = Unit
  IsNewKeys rows ((j, g, value) ∷ new) =
      (existing model rows j g ≡ none) × (created j g new ≡ none) × IsNewKeys rows new

  abbrev IsFree : VaultRow → Entry → Type 0
  IsFree r (j, g, value) = has_key model j g r ≡ false

  create_rows-IsApart :
      (r : VaultRow) (next : ℕ) (new : List Entry)
      → r.id < next
      → All (IsFree r) new
      → All (IsApart r) (create_rows model next new)
  create_rows-IsApart r next [] l a = tt
  create_rows-IsApart r next ((j, g, value) ∷ new) l a =
      ((ground arith, a.0), create_rows-IsApart r (suc next) new (omega (arith, l)) a.1)

  created-IsFree :
      (j : ℕ) (g : Text) (r : VaultRow) (new : List Entry)
      → r.res_id ≡ j
      → r.field_name ≡ g
      → created j g new ≡ none
      → All (IsFree r) new
  created-IsFree j g r [] h k e = tt
  created-IsFree j g r ((i, f, value) ∷ new) h k e = (
    ground (arith, list_beq_iff r.field_name f, list_beq_iff f g),
    created-IsFree j g r new h k (ground arith),
  )

  IsNewKeys-head :
      (r : VaultRow) (rows : List VaultRow) (new : List Entry)
      → IsNewKeys (r ∷ rows) new
      → All (IsFree r) new
  IsNewKeys-head r rows [] k = tt
  IsNewKeys-head r rows ((j, g, value) ∷ new) k =
      (ground (arith, k.0), IsNewKeys-head r rows new k.2)

  IsNewKeys-tail :
      (r : VaultRow) (rows : List VaultRow) (new : List Entry)
      → IsNewKeys (r ∷ rows) new
      → IsNewKeys rows new
  IsNewKeys-tail r rows [] k = tt
  IsNewKeys-tail r rows ((j, g, value) ∷ new) k =
      (ground (arith, k.0), k.1, IsNewKeys-tail r rows new k.2)

  create_rows-IsVault :
      (rows : List VaultRow) (next : ℕ) (new : List Entry)
      → IsNewKeys rows new
      → IsVault (next + length new) (create_rows model next new)
  create_rows-IsVault rows next [] k = tt
  create_rows-IsVault rows next ((j, g, value) ∷ new) k =
      let r : VaultRow = record {
        id = next;
        res_model = model;
        res_id = j;
        field_name = g;
        secret_data = value;
      } in
      (
        omega arith,
        create_rows-IsApart r (suc next) new (omega arith) (created-IsFree j g r new refl refl k.1),
        subst (λ n. IsVault n (create_rows model (suc next) new)) (omega arith)
            (create_rows-IsVault rows (suc next) new k.2),
      )

  -- the old rows are apart from the new ones
  rows-IsApart :
      (groups : List (Text × List ℕ)) (next : ℕ) (rows : List VaultRow) (new : List Entry)
      → IsVault next rows
      → IsNewKeys rows new
      → All (λ r. All (IsApart r) (create_rows model next new)) (map (write_groups groups) rows)
  rows-IsApart groups next [] new w k = tt
  rows-IsApart groups next (r ∷ rows) new w k = (
    subst (λ x. All (IsApart x) (create_rows model next new)) (sym (write_groups-rest groups r))
        (create_rows-IsApart (record r { secret_data = (write_groups groups r).secret_data }) next
          new w.0 (IsNewKeys-head r rows new k)),
    rows-IsApart groups next rows new w.2 (IsNewKeys-tail r rows new k),
  )

  pub run_batch-IsVault :
      (b : Batch) (next : ℕ) (rows : List VaultRow)
      → IsVault next rows
      → IsNewKeys rows b.records_to_create
      → IsVault (next + length b.records_to_create) (run_batch model b next rows)
  unfolding run_batch
  run_batch-IsVault b next rows w k =
      let new = b.records_to_create in
      let groups = b.vals_to_update_records in
      IsVault-keep (λ r. not (contains b.records_to_unlink r.id)) (next + length new)
        (map (write_groups groups) rows ++ create_rows model next new)
        (IsVault-append next (next + length new) (map (write_groups groups) rows)
          (create_rows model next new) (omega arith) (IsVault-write_groups groups next rows w)
          (create_rows-IsVault rows next new k) (rows-IsApart groups next rows new w k))
