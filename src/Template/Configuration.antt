-- ===== src/Template/Configuration.antt =====
-- The variable values of a server that is created from a template: `_validate_required_variables`, and the part of
-- `_create_new_server` and `_prepare_server_values` that concerns the configuration variables. A value that is
-- False or None is the empty text. The order of a Python set of references is that of the configuration.
use cetmix_tower.Prelude.{
  ℕ, Bool, true, false, not, ◌&&◌, Option, none, some, List, [], ◌∷◌, ◌++◌, Result, ok, err, ◌>>=◌,
  nat_eq, list_eq, if◌then◌else◌, contains, keep, is_empty, lookup, insert,
}
use cetmix_tower.Prelude.Text.{Text}
use cetmix_tower.Reference.Records.{Error as CreateError, Vals, Row, references, create}
use cetmix_tower.Prelude.Dictionaries.{keys}

-- `cx.tower.variable.value` of a template
pub record TemplateValue : Type 0 where
  pub variable_id : ℕ
  pub variable_reference : Text
  pub value_char : Text
  pub option_id : Option ℕ
  pub required : Bool

-- `cx.tower.variable.option`
pub record VariableOption : Type 0 where
  pub id : ℕ
  pub reference : Text
  pub variable_id : ℕ
  pub value_char : Text

pub data Error : Type 0 where
  required_variables : List Text → List Text → Error
  invalid_options : List (Text × Text) → Error
  unknown_key : Text → Error
  not_created : CreateError → Error

-- the values that a command of the one2many field writes
pub record ValueVals : Type 0 where
  pub value_char : Text
  pub option_id : Option ℕ

abbrev pub Configuration : Type 0
Configuration = List (Text × Text)

abbrev pub required_refs : List TemplateValue → List Text
required_refs [] = []
required_refs (v ∷ values) =
    let rest = required_refs values in if v.required then v.variable_reference ∷ rest else rest

-- `not configuration_variables[ref]`
abbrev pub is_empty_value : Option Text → Bool
is_empty_value none = true
is_empty_value (some value) = is_empty value

abbrev pub missing_variables : Configuration → List Text → List Text
missing_variables config refs = keep (λ r. not (contains (keys config) r)) refs

abbrev pub empty_variables : Configuration → List Text → List Text
empty_variables config refs =
    keep (λ r. contains (keys config) r && is_empty_value (lookup r config)) refs

-- `_validate_required_variables`
unfoldable pub validate_required_variables : List TemplateValue → Configuration → Result Error Unit
validate_required_variables values config =
    let refs = required_refs values in
    if is_empty (missing_variables config refs) && is_empty (empty_variables config refs)
    then ok tt
    else err (required_variables (missing_variables config refs) (empty_variables config refs))

-- the options of the search, by the variable that each belongs to
abbrev pub options_dict :
    List VariableOption → List (ℕ × VariableOption) → List (ℕ × VariableOption)
options_dict [] dict = dict
options_dict (o ∷ options) dict = options_dict options (insert o.variable_id o dict)

abbrev pub option_refs : List VariableOption → List Text
option_refs [] = []
option_refs (o ∷ options) = o.reference ∷ option_refs options

abbrev pub dict_values : List (Text × Text) → List Text
dict_values [] = []
dict_values ((k, v) ∷ m) = v ∷ dict_values m

-- the pairs of a variable and an option that is not found
abbrev pub missing_options : List VariableOption → List (Text × Text) → List (Text × Text)
missing_options existing pairs =
    keep (λ (var_ref, opt_ref). not (contains (option_refs existing) opt_ref)) pairs

abbrev pub existing_options : List VariableOption → List (Text × Text) → List VariableOption
existing_options table pairs = keep (λ o. contains (dict_values pairs) o.reference) table

-- `variable_option and variable_option.value_char or variable_value`
abbrev pub or_value : Text → Text → Text
or_value [] value = value
or_value (c ∷ option_value) value = c ∷ option_value

abbrev pub value_vals : Option VariableOption → Text → ValueVals
value_vals none value = record { value_char = value; option_id = none }
value_vals (some o) value = record {
  value_char = or_value o.value_char value;
  option_id = some o.id;
}

-- the commands for the variables of the configuration
abbrev pub vals_of_config : Configuration → Text → Result Error Text
vals_of_config config r = elim (lookup r config) [
  | none ↦ err (unknown_key r)
  | some value ↦ ok value
]

abbrev pub server_variable_vals :
    Configuration → List (ℕ × VariableOption) → List Row → Result Error (List (ℕ × ValueVals))
server_variable_vals config options [] = ok []
server_variable_vals config options (v ∷ variables) = vals_of_config config v.reference >>= λ value.
    server_variable_vals config options variables >>= λ rest.
    ok ((v.id, value_vals (lookup v.id options) value) ∷ rest)

-- the commands that copy the template's values, with the options that are given for their variables
abbrev pub copied_values : List TemplateValue → List (ℕ × ValueVals)
copied_values [] = []
copied_values (v ∷ values) =
    (v.variable_id, record { value_char = v.value_char; option_id = v.option_id })
    ∷ copied_values values

abbrev pub with_option : Option VariableOption → ValueVals → ValueVals
with_option none vals = vals
with_option (some o) vals = record { value_char = o.value_char; option_id = some o.id }

abbrev pub update_options : List (ℕ × VariableOption) → List (ℕ × ValueVals) → List (ℕ × ValueVals)
update_options options [] = []
update_options options ((v, vals) ∷ commands) =
    (v, with_option (lookup v options) vals) ∷ update_options options commands

-- a command replaces the template's one for its variable, or is added
abbrev pub put_commands : List (ℕ × ValueVals) → List (ℕ × ValueVals) → List (ℕ × ValueVals)
put_commands [] existing = existing
put_commands ((v, vals) ∷ commands) existing = put_commands commands (insert v vals existing)

abbrev pub merge_commands :
    Bool
    → List (ℕ × VariableOption)
    → List TemplateValue
    → List (ℕ × ValueVals)
    → List (ℕ × ValueVals)
merge_commands pick_all options values commands =
    if pick_all
    then put_commands commands (update_options options (copied_values values))
    else commands

-- the rows after the old ones
abbrev pub new_rows : List Row → List Row → List Row
new_rows [] rows = rows
new_rows (o ∷ old) [] = []
new_rows (o ∷ old) (r ∷ rows) = new_rows old rows

abbrev pub created_rows : Result CreateError (List Row) → Result Error (List Row)
created_rows (ok rows) = ok rows
created_rows (err e) = err (not_created e)

abbrev pub name_vals : List Text → List Vals
name_vals [] = []
name_vals (r ∷ refs) = record { name = r; reference = [] } ∷ name_vals refs

abbrev pub missing_references : Configuration → List Row → List Text
missing_references config variables =
    keep (λ r. not (contains (references variables) r)) (keys config)

abbrev pub all_variables : Configuration → List Row → List Row → List Row
all_variables config variables created =
    keep (λ v. contains (keys config) v.reference) variables ++ new_rows variables created

abbrev pub check_options : List VariableOption → List (Text × Text) → Result Error Unit
check_options existing pairs =
    if is_empty (missing_options existing pairs)
    then ok tt
    else err (invalid_options (missing_options existing pairs))

-- the table of options, that of variables, and the id that the next variable gets
module _ (in_pattern : ℕ → Bool) (generic : Text) (table : List VariableOption) (next : ℕ)
    (variables : List Row) where
  unfoldable pub config_commands :
      Configuration → List (Text × Text) → Result Error (List (ℕ × ValueVals))
  unfolding create
  config_commands config pairs = do
    created ← created_rows (
        create in_pattern generic (references variables)
          (name_vals (missing_references config variables)) next variables)
    server_variable_vals config (options_dict (existing_options table pairs) [])
        (all_variables config variables created)

  -- `_prepare_server_values`, the key "variable_value_ids"
  unfoldable pub prepare_variable_values :
      Bool
      → List TemplateValue
      → Configuration
      → List (Text × Text)
      → Result Error (List (ℕ × ValueVals))
  unfolding config_commands validate_required_variables
  prepare_variable_values pick_all values [] pairs = ok (copied_values values)
  prepare_variable_values pick_all values (entry ∷ config) pairs = do
    validated ← validate_required_variables values (entry ∷ config)
    checked ← check_options (existing_options table pairs) pairs
    commands ← config_commands (entry ∷ config) pairs
    ok (merge_commands pick_all (options_dict (existing_options table pairs) []) values commands)

  -- `kwargs.get("pick_all_template_variables")`, and the default of the parameter
  abbrev pub given_or_false : Option Bool → Bool
  given_or_false none = false
  given_or_false (some pick_all) = pick_all

  abbrev pub given_or_true : Option Bool → Bool
  given_or_true none = true
  given_or_true (some pick_all) = pick_all

  -- `_create_new_server`, as far as the variable values go
  unfoldable pub new_server_values :
      Option Bool
      → List TemplateValue
      → Configuration
      → List (Text × Text)
      → Result Error (List (ℕ × ValueVals))
  unfolding prepare_variable_values validate_required_variables
  new_server_values pick_all values config pairs = do
    validated ←
        (if given_or_false pick_all then ok tt else validate_required_variables values config)
    prepare_variable_values (given_or_true pick_all) values config pairs
