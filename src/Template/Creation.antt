-- ===== src/Template/Creation.antt =====
-- About the variables that are created for references of the configuration that no variable has.
use cetmix_tower.Prelude.{
  ℕ, ◌≡◌, refl, sym, ap, ◌∙◌, Bool, true, false, not, none, List, [], ◌∷◌, ◌++◌, ok, err, ◌>>=◌,
  ◌==◌, nat_eq, list_eq, list_beq_iff, if◌then◌else◌, if_true, contains, keep, lookup, arith,
  IsDistinct, bind-ok,
}
use cetmix_tower.Prelude.Text.{Text, strip, whitespace}
use cetmix_tower.Reference.Generate.{matches}
use cetmix_tower.Reference.Laws.{HasSuffixes}
use cetmix_tower.Reference.Records.{Vals, Row, references, create}
use cetmix_tower.Reference.Batch.{row_of, create_one}
use cetmix_tower.Template.Configuration.{
  TemplateValue, VariableOption, unknown_key, ValueVals, Configuration, created_rows, new_rows,
  all_variables, missing_references, name_vals, vals_of_config, server_variable_vals,
  validate_required_variables, config_commands, prepare_variable_values, merge_commands,
  options_dict, existing_options, check_options, value_vals,
}
use cetmix_tower.Template.Merge.{
  row_ids, or_else, config_vals, row_of_id, template_vals, merge_commands-value,
}
use cetmix_tower.Prelude.Dictionaries.{keys}

new_rows-append : (rows : List Row) (r : Row) → new_rows rows (rows ++ r ∷ []) ≡ r ∷ []
new_rows-append [] r = refl
new_rows-append (q ∷ rows) r = new_rows-append rows r

-- no variable has the reference
no_variable :
    (r value : Text) (rows : List Row)
    → contains (references rows) r ≡ false
    → keep (λ v. contains (keys ((r, value) ∷ [])) v.reference) rows ≡ []
no_variable r value [] h = refl
no_variable r value (q ∷ rows) h =
    ground (arith, no_variable r value rows, list_beq_iff r q.reference, list_beq_iff q.reference r)

vals_of_config-other :
    (r s value : Text) → (r == s) ≡ false → vals_of_config ((r, value) ∷ []) s ≡ err (unknown_key s)
vals_of_config-other r s value h = ground arith

module _ (in_pattern : ℕ → Bool) (generic : Text) (table : List VariableOption) (next : ℕ)
    (variables : List Row) where
  -- When the values of a server are prepared from a configuration that is not empty, with distinct
  -- variables, each variable of the configuration has the value of its option, if that is given and
  -- not empty, or else the configuration's; any other variable has the value of the template, with its
  -- option, if the template's variables are picked, and none otherwise.
  pub prepare_variable_values-value :
      (pick_all : Bool) (values : List TemplateValue) (entry : Text × Text) (config : Configuration)
      (pairs : List (Text × Text)) (created : List Row) (result : List (ℕ × ValueVals)) (v : ℕ)
      → create in_pattern generic
          (references variables)
          (name_vals (missing_references (entry ∷ config) variables))
          next
          variables
        ≡ ok created
      → IsDistinct (row_ids (all_variables (entry ∷ config) variables created))
      → prepare_variable_values in_pattern generic table next variables pick_all values
          (entry ∷ config)
          pairs
        ≡ ok result
      → lookup v result
        ≡ or_else
            (config_vals
              (entry ∷ config)
              (options_dict (existing_options table pairs) [])
              (row_of_id v (all_variables (entry ∷ config) variables created)))
            (if pick_all
              then template_vals (options_dict (existing_options table pairs) []) v values
              else none)
  unfolding prepare_variable_values config_commands
  prepare_variable_values-value pick_all values entry config pairs created result v c d h =
      let full = entry ∷ config in
      let options = options_dict (existing_options table pairs) [] in
      let (a, e, k) = bind-ok (validate_required_variables values full) _ result h in
      let (a2, e2, k2) = bind-ok (check_options (existing_options table pairs) pairs) _ result k in
      let (commands, e3, k3) =
        bind-ok (config_commands in_pattern generic table next variables full pairs) _ result k2 in
      let same : merge_commands pick_all options values commands ≡ result = ground (arith, k3) in
      let found : server_variable_vals full options (all_variables full variables created)
          ≡ ok commands =
        sym (
          ap
            (λ m. created_rows m >>= λ rows.
              server_variable_vals full options (all_variables full variables rows))
            c)
        ∙ e3 in
      ap (lookup v) (sym same)
      ∙ merge_commands-value full options pick_all values (all_variables full variables created)
          commands v d found

  -- A configuration of one value, with no options, that passes the validation and whose reference is
  -- not blank, is no text of the pattern and belongs to no variable, raises a KeyError: the variable
  -- that is created for it gets another reference. The generic reference is a text of the pattern, and
  -- the pattern has the digits and the underscore.
  pub unknown_reference_fails :
      (h : HasSuffixes in_pattern) (pick_all : Bool) (values : List TemplateValue) (r value : Text)
      (c : ℕ) (s : Text)
      → matches in_pattern generic ≡ true
      → matches in_pattern r ≡ false
      → strip whitespace r ≡ c ∷ s
      → contains (references variables) r ≡ false
      → validate_required_variables values ((r, value) ∷ []) ≡ ok tt
      → (q : Text) × (prepare_variable_values in_pattern generic table next variables pick_all
            values
            ((r, value) ∷ [])
            []
          ≡ err (unknown_key q))
        × (matches in_pattern q ≡ true)
  unfolding prepare_variable_values config_commands strip
  unknown_reference_fails h pick_all values r value c s g n e k v =
      let config : Configuration = (r, value) ∷ [] in
      let vals : Vals = record { name = r; reference = [] } in
      let options = options_dict (existing_options table []) [] in
      let (q, made, new, fits) = create_one in_pattern generic h vals c s next variables g e in
      let row = row_of in_pattern generic next vals q in
      let created : create in_pattern generic (references variables)
            (name_vals (missing_references config variables)) next variables
          ≡ ok (variables ++ row ∷ []) =
        ap
          (λ refs. create in_pattern generic (references variables) (name_vals refs) next variables)
          (if_true (not (contains (references variables) r)) (r ∷ []) [] (ap not k))
        ∙ made in
      let all : all_variables config variables (variables ++ row ∷ []) ≡ row ∷ [] =
        ap (λ rest. rest ++ new_rows variables (variables ++ row ∷ []))
          (no_variable r value variables k)
        ∙ new_rows-append variables row in
      let other : (r == q) ≡ false = ground (arith, list_beq_iff r q, ap (matches in_pattern)) in
      let fails : config_commands in_pattern generic table next variables config []
          ≡ err (unknown_key q) =
        ap
          (λ m. created_rows m >>= λ rows.
            server_variable_vals config options (all_variables config variables rows))
          created
        ∙ ap (server_variable_vals config options) all
        ∙ ap (λ m. m >>= λ w. ok ((next, value_vals (lookup next options) w) ∷ []))
            (vals_of_config-other r q value other) in
      (
        q,
        ap
              (λ m. m >>= λ a.
                config_commands in_pattern generic table next variables config [] >>= λ commands.
                ok (merge_commands pick_all options values commands))
              v
            ∙ ap (λ m. m >>= λ commands. ok (merge_commands pick_all options values commands))
                fails,
        fits,
      )
