-- ===== src/Vault/Creation.antt =====
-- The secrets of records that are created, as assignments to the vault.
use cetmix_tower.Prelude.{
  ℕ, suc, ◌≡◌, refl, sym, ap, ◌∙◌, false, Option, none, some, List, [], ◌∷◌, ◌==◌, nat_eq, list_eq,
  list_beq_iff, if_true, if_false, contains, lookup, insert, IsDistinct, arith,
}
use cetmix_tower.Prelude.Text.{Text}
use cetmix_tower.Prelude.Decimal.{decimal}
use cetmix_tower.Vault.History.{VaultState, Operation, set_values, run_operation, run_operations}
use cetmix_tower.Vault.Create.{
  RecordVals, SecretVals, given, Extracted, replace_value, replace_fields, extract_secrets,
  put_secret, secret_of, vault_vals, process_records,
}
use cetmix_tower.Vault.Extraction.{
  lookup-insert, IsFresh, Extends, replace_value-IsFresh, replace_fields-IsFresh,
  replace_fields-Extends, replace_fields-other,
}

module _ (model : Text) (secret_fields : List Text) where
  -- the secrets among the values of a record: those that are given and not empty
  abbrev pub given_secrets : List Text → RecordVals → RecordVals
  given_secrets [] vals = []
  given_secrets (f ∷ fields) vals =
      put_secret model secret_fields f (given (lookup f vals)) (given_secrets fields vals)

  abbrev pub assignments : List (ℕ × RecordVals) → List Operation
  assignments [] = []
  assignments ((i, vals) ∷ records) =
      set_values (i ∷ []) (given_secrets secret_fields vals) ∷ assignments records

  given_secrets-replace_value :
      (f : Text) (o : Option Text) (fields : List Text) (e : Extracted)
      → contains fields f ≡ false
      → given_secrets fields (replace_value f o e).2 ≡ given_secrets fields e.2
  given_secrets-replace_value f none fields e h = refl
  given_secrets-replace_value f (some v) [] e h = refl
  given_secrets-replace_value f (some v) (g ∷ fields) e h =
      ap
        (λ o.
          put_secret model secret_fields g (given o)
            (given_secrets fields (insert f (some (decimal (suc e.0))) e.2)))
        (lookup-insert g f (some (decimal (suc e.0))) e.2
          ∙ if_false (f == g) _ _ (ground (arith, h, list_beq_iff f g, list_beq_iff g f)))
      ∙ ap (put_secret model secret_fields g (given (lookup g e.2)))
          (given_secrets-replace_value f (some v) fields e (ground arith))

  -- the identifier of a field leads to its value
  secret_of-replace_value :
      (f : Text) (o : Option Text) (e : Extracted) (all : SecretVals)
      → o ≡ given (lookup f e.2)
      → Extends (replace_value f o e).1 all
      → secret_of model secret_fields all (given (lookup f (replace_value f o e).2)) ≡ o
  secret_of-replace_value f none e all p x = ap (secret_of model secret_fields all) (sym p)
  secret_of-replace_value f (some v) e all p x =
      ap (λ t. secret_of model secret_fields all (given t))
        (lookup-insert f f (some (decimal (suc e.0))) e.2
          ∙ if_true (f == f) _ _ ((list_beq_iff f f).1 refl))
      ∙ x (decimal (suc e.0)) v (
          lookup-insert (decimal (suc e.0)) (decimal (suc e.0)) v e.1
          ∙ if_true (decimal (suc e.0) == decimal (suc e.0)) _ _
              ((list_beq_iff (decimal (suc e.0)) (decimal (suc e.0))).1 refl))

  vault_vals-given_secrets :
      (fields : List Text) (e : Extracted) (all : SecretVals)
      → IsDistinct fields
      → IsFresh e.0 e.1
      → Extends (replace_fields fields e).1 all
      → vault_vals model secret_fields fields all (replace_fields fields e).2
        ≡ given_secrets fields e.2
  vault_vals-given_secrets [] e all d h x = refl
  vault_vals-given_secrets (f ∷ fields) e all d h x =
      let o = given (lookup f e.2) in
      let first : Extracted = replace_value f o e in
      let fresh = replace_value-IsFresh f o e h in
      let grown : Extends first.1 all =
        λ i v k. x i v (replace_fields-Extends fields first fresh i v k) in
      ap
        (λ t.
          put_secret model secret_fields f (secret_of model secret_fields all (given t))
            (vault_vals model secret_fields fields all (replace_fields fields first).2))
        (replace_fields-other f fields first d.0)
      ∙ ap
          (λ t.
            put_secret model secret_fields f t
              (vault_vals model secret_fields fields all (replace_fields fields first).2))
          (secret_of-replace_value f o e all refl grown)
      ∙ ap (put_secret model secret_fields f o) (
          vault_vals-given_secrets fields first all d.1 fresh x
          ∙ given_secrets-replace_value f o fields e d.0)

  extract_secrets-Extends :
      (records : List (ℕ × RecordVals)) (n : ℕ) (s : SecretVals)
      → IsFresh n s
      → Extends s (extract_secrets model secret_fields records n s).0
  unfolding extract_secrets
  extract_secrets-Extends [] n s h = λ i v k. k
  extract_secrets-Extends ((j, vals) ∷ records) n s h = λ i v k.
      let e : Extracted = replace_fields secret_fields (n, s, vals) in
      extract_secrets-Extends records e.0 e.1 (replace_fields-IsFresh secret_fields (n, s, vals) h)
        i v (replace_fields-Extends secret_fields (n, s, vals) h i v k)

  pub process_records-assignments :
      (records : List (ℕ × RecordVals)) (n : ℕ) (s all : SecretVals) (state : VaultState)
      → IsDistinct secret_fields
      → IsFresh n s
      → Extends (extract_secrets model secret_fields records n s).0 all
      → process_records model secret_fields all
          (extract_secrets model secret_fields records n s).1
          state
        ≡ run_operations model secret_fields (assignments records) state
  unfolding extract_secrets
  process_records-assignments [] n s all state d h x = refl
  process_records-assignments ((j, vals) ∷ records) n s all state d h x =
      let e : Extracted = replace_fields secret_fields (n, s, vals) in
      let fresh = replace_fields-IsFresh secret_fields (n, s, vals) h in
      ap
        (λ v.
          process_records model secret_fields all
            (extract_secrets model secret_fields records e.0 e.1).1
            (run_operation model secret_fields (set_values (j ∷ []) v) state))
        (vault_vals-given_secrets secret_fields (n, s, vals) all d h
          (λ i v k. x i v (extract_secrets-Extends records e.0 e.1 fresh i v k)))
      ∙ process_records-assignments records e.0 e.1 all _ d fresh x
