-- ===== src/Vault/History.antt =====
-- The vault over any sequence of its operations: `_set_secret_values` and `unlink`, as `_get_secret_value` sees them.
use cetmix_tower.Prelude.{
  ℕ, ◌+◌, ◌≡◌, refl, sym, ap, ◌∙◌, subst, Bool, true, false, ◌&&◌, Option, none, List, [], ◌∷◌,
  nat_eq, list_eq, if◌then◌else◌, if_true, if_false, contains, lookup, is_empty, length, Bool-cases,
  inl, inr, arith, fun_ext, keep, All, IsDistinct,
}
use cetmix_tower.Prelude.Text.{Text}
use cetmix_tower.Vault.Rows.{
  VaultRow, no_batch, pairs, existing, plan_values, unlink, set_secret_values, get_secret_value,
  get_secret_values, lookup_field, in_domain, collect_values,
}
use cetmix_tower.Vault.Effect.{IsVault, data_of}
use cetmix_tower.Vault.Refinement.{overwrite}
use cetmix_tower.Vault.Unique.{IsVault-keep}
use cetmix_tower.Vault.Invariant.{run_batch-IsVault}
use cetmix_tower.Vault.NewKeys.{plan_values-IsNewKeys}
use cetmix_tower.Vault.Values.{
  IsOnce-pairs, get_secret_value-existing, set_secret_values-existing, unlink-existing,
}
use cetmix_tower.Prelude.Dictionaries.{keys}

pairs-none : (ids : List ℕ) → pairs ids [] ≡ []
pairs-none [] = refl
pairs-none (j ∷ ids) = pairs-none ids

overwrite-if :
    (listed secret : Bool) (value : Option (Option Text)) (old : Option Text)
    → (if secret then overwrite (if listed && secret then value else none) old else none)
      ≡ overwrite (if listed && secret then value else none) (if secret then old else none)
overwrite-if true true value old = refl
overwrite-if true false value old = refl
overwrite-if false true value old = refl
overwrite-if false false value old = refl

-- the table of the vault, and the id that its next row gets
pub record VaultState : Type 0 where
  pub next_id : ℕ
  pub rows : List VaultRow

abbrev pub IsVaultState : VaultState → Type 0
IsVaultState s = IsVault s.next_id s.rows

pub data Operation : Type 0 where
  set_values : List ℕ → List (Text × Option Text) → Operation
  delete_records : List ℕ → Operation

-- The records are distinct, and so are the fields: a recordset and a dictionary.
abbrev pub IsCall : Operation → Type 0
IsCall (set_values ids vals) = IsDistinct ids × IsDistinct (keys vals)
IsCall (delete_records ids) = Unit

abbrev pub Values : Type 0
Values = ℕ → Text → Option Text

module _ (model : Text) (secret_fields : List Text) where
  unfoldable pub run_operation : Operation → VaultState → VaultState
  run_operation (set_values ids vals) s = record {
    next_id =
        s.next_id
        + length
            (plan_values model secret_fields s.rows (pairs ids vals) no_batch).records_to_create;
    rows = set_secret_values model secret_fields ids vals s.next_id s.rows;
  }
  run_operation (delete_records ids) s = record s { rows = unlink model ids s.rows }

  abbrev pub run_operations : List Operation → VaultState → VaultState
  run_operations [] s = s
  run_operations (o ∷ os) s = run_operations os (run_operation o s)

  -- what the operations promise
  abbrev pub assign : Operation → Values → Values
  assign (set_values ids vals) values i f =
      overwrite (if contains ids i && contains secret_fields f then lookup f vals else none)
        (values i f)
  assign (delete_records ids) values i f = if contains ids i then none else values i f

  abbrev pub assign_all : List Operation → Values → Values
  assign_all [] values = values
  assign_all (o ∷ os) values = assign_all os (assign o values)

  abbrev pub read_values : VaultState → Values
  read_values s i f = get_secret_value model secret_fields i f s.rows

  set_secret_values-IsVault :
      (ids : List ℕ) (vals : List (Text × Option Text)) (next : ℕ) (rows : List VaultRow)
      → IsVault next rows
      → IsDistinct ids
      → IsDistinct (keys vals)
      → IsVault
          (next
            + length
                (plan_values model secret_fields rows (pairs ids vals) no_batch).records_to_create)
          (set_secret_values model secret_fields ids vals next rows)
  unfolding set_secret_values plan_values
  set_secret_values-IsVault ids [] next rows w d k =
      subst
        (λ ps.
          IsVault
            (next + length (plan_values model secret_fields rows ps no_batch).records_to_create)
            rows)
        (sym (pairs-none ids)) (subst (λ n. IsVault n rows) (omega arith) w)
  set_secret_values-IsVault [] (v ∷ vals) next rows w d k =
      subst (λ n. IsVault n rows) (omega arith) w
  set_secret_values-IsVault (j ∷ ids) (v ∷ vals) next rows w d k =
      let ps = pairs (j ∷ ids) (v ∷ vals) in
      run_batch-IsVault model (plan_values model secret_fields rows ps no_batch) next rows w (
        plan_values-IsNewKeys model secret_fields rows ps no_batch
          (λ i f. IsOnce-pairs model secret_fields i f (j ∷ ids) (v ∷ vals) d k) (λ i f. inr refl)
          tt)

  -- An assignment of distinct fields to distinct records, and a deletion of records, keep the ids and
  -- the keys of the rows of the vault unique and the ids below the next one.
  pub run_operation-IsVaultState :
      (o : Operation) (s : VaultState)
      → IsCall o
      → IsVaultState s
      → IsVaultState (run_operation o s)
  unfolding run_operation unlink
  run_operation-IsVaultState (set_values ids vals) s c w =
      set_secret_values-IsVault ids vals s.next_id s.rows w c.0 c.1
  run_operation-IsVaultState (delete_records ids) s c w = IsVault-keep _ s.next_id s.rows w

  get_secret_value-other :
      (i : ℕ) (f : Text) (rows : List VaultRow)
      → contains secret_fields f ≡ false
      → get_secret_value model secret_fields i f rows ≡ none
  unfolding get_secret_value get_secret_values
  get_secret_value-other i f rows h =
      ap
        (λ fs. lookup_field f (
          lookup i (
            if is_empty fs
            then []
            else collect_values (keep (in_domain model (i ∷ []) fs) rows) [])))
        (if_false (contains secret_fields f) (f ∷ []) [] h)

  -- the values that are read after an operation that leaves a vault
  read_values-existing :
      (i : ℕ) (f : Text) (s : VaultState)
      → IsVaultState s
      → read_values s i f
        ≡ (if contains secret_fields f then data_of (existing model s.rows i f) else none)
  read_values-existing i f s w = elim (Bool-cases (contains secret_fields f)) [
    | inl k ↦
        get_secret_value-existing model secret_fields i f s.next_id s.rows w k
        ∙ sym (if_true (contains secret_fields f) _ _ k)
    | inr k ↦ get_secret_value-other i f s.rows k ∙ sym (if_false (contains secret_fields f) _ _ k)
  ]

  run_operation-existing :
      (o : Operation) (s : VaultState) (i : ℕ) (f : Text)
      → IsCall o
      → IsVaultState s
      → data_of (existing model (run_operation o s).rows i f)
        ≡ assign o (λ j g. data_of (existing model s.rows j g)) i f
  unfolding run_operation
  run_operation-existing (set_values ids vals) s i f c w =
      set_secret_values-existing model secret_fields i f ids vals s.next_id s.rows w c.0 c.1
  run_operation-existing (delete_records ids) s i f c w =
      unlink-existing model secret_fields i f ids s.rows

  assign-secret :
      (o : Operation) (values : Values) (i : ℕ) (f : Text)
      → (if contains secret_fields f then assign o values i f else none)
        ≡ assign o (λ j g. if contains secret_fields g then values j g else none) i f
  assign-secret (set_values ids vals) values i f =
      overwrite-if (contains ids i) (contains secret_fields f) (lookup f vals) (values i f)
  assign-secret (delete_records ids) values i f = ground arith

  -- One operation acts on the values that are read as it promises.
  read_values-run_operation :
      (o : Operation) (s : VaultState)
      → IsCall o
      → IsVaultState s
      → read_values (run_operation o s) ≡ assign o (read_values s)
  read_values-run_operation o s c w = fun_ext λ i. fun_ext λ f.
      read_values-existing i f (run_operation o s) (run_operation-IsVaultState o s c w)
      ∙ ap (λ v. if contains secret_fields f then v else none) (run_operation-existing o s i f c w)
      ∙ assign-secret o (λ j g. data_of (existing model s.rows j g)) i f
      ∙ ap (λ values. assign o values i f)
          (sym (fun_ext λ j. fun_ext λ g. read_values-existing j g s w))

  -- After any sequence of assignments and deletions, each with distinct records and distinct fields,
  -- on a vault whose rows have unique keys and unique ids below the next one, the values that are read
  -- are those that the abstract assignments give, for every record and every field.
  pub read_values-run_operations :
      (os : List Operation) (s : VaultState)
      → All IsCall os
      → IsVaultState s
      → read_values (run_operations os s) ≡ assign_all os (read_values s)
  read_values-run_operations [] s c w = refl
  read_values-run_operations (o ∷ os) s c w =
      read_values-run_operations os (run_operation o s) c.1 (run_operation-IsVaultState o s c.0 w)
      ∙ ap (assign_all os) (read_values-run_operation o s c.0 w)
