-- ===== src/Examples/Templates.antt =====
-- A template with a required branch, and the properties of configurations applied to it.
use cetmix_tower.Prelude.{
  ℕ, ◌≡◌, refl, Bool, true, false, none, some, ok, err, List, [], ◌∷◌, nat_eq, list_eq, lookup, All,
  ◌↔◌,
}
use cetmix_tower.Prelude.Text.{Text, codes, strip}
use cetmix_tower.Reference.Generate.{in_reference_pattern, matches}
use cetmix_tower.Reference.Records.{Row, create, fix_all}
use cetmix_tower.Template.Configuration.{
  TemplateValue, VariableOption, unknown_key, ValueVals, Configuration, required_refs,
  validate_required_variables, config_commands, prepare_variable_values, new_server_values,
}
use cetmix_tower.Template.Required.{
  HasValue, validate_required_variables_iff, new_server_values-HasValue,
}
use cetmix_tower.Template.Creation.{prepare_variable_values-value, unknown_reference_fails}
use cetmix_tower.Examples.References.{suffixes}

abbrev pattern_fits : ℕ → Bool
pattern_fits = in_reference_pattern

abbrev generic : Text
generic = codes "variable"

abbrev values : List TemplateValue
values =
    record {
      variable_id = 1;
      variable_reference = codes "branch";
      value_char = codes "main";
      option_id = none;
      required = true;
    }
    ∷ record {
      variable_id = 2;
      variable_reference = codes "port";
      value_char = codes "22";
      option_id = none;
      required = false;
    }
    ∷ []

abbrev variables : List Row
variables =
    record { id = 1; name = codes "Branch"; reference = codes "branch" }
    ∷ record { id = 2; name = codes "Port"; reference = codes "port" }
    ∷ []

abbrev options : List VariableOption
options =
    record { id = 5; reference = codes "prod"; variable_id = 1; value_char = codes "production" }
    ∷ []

abbrev config : Configuration
config = (codes "branch", codes "dev") ∷ []

abbrev option_pairs : List (Text × Text)
option_pairs = (codes "branch", codes "prod") ∷ []

abbrev prepared : List (ℕ × ValueVals)
prepared =
    (1, record { value_char = codes "production"; option_id = some 5 })
    ∷ (2, record { value_char = codes "22"; option_id = none })
    ∷ []

validate_required_variables_iff_example :
    (validate_required_variables values config ≡ ok tt)
    ↔ All (HasValue config) (required_refs values)
validate_required_variables_iff_example = validate_required_variables_iff values config

new_server_values-HasValue_example : All (HasValue config) (required_refs values)
unfolding new_server_values prepare_variable_values config_commands validate_required_variables
    create fix_all
new_server_values-HasValue_example =
    new_server_values-HasValue pattern_fits generic options 3 variables (some true) values config
      option_pairs prepared (λ e. refl) refl

prepare_variable_values-value_example :
    lookup 1 prepared ≡ some (record { value_char = codes "production"; option_id = some 5 })
unfolding prepare_variable_values config_commands validate_required_variables create fix_all
prepare_variable_values-value_example =
    prepare_variable_values-value pattern_fits generic options 3 variables true values
      (codes "branch", codes "dev") [] option_pairs variables prepared 1 refl (refl, tt) refl

unknown_reference_fails_example :
    (q : Text) × (prepare_variable_values pattern_fits generic options 3 variables true []
        ((codes "Odoo-Version", codes "16") ∷ [])
        []
      ≡ err (unknown_key q))
    × (matches pattern_fits q ≡ true)
unfolding strip validate_required_variables
unknown_reference_fails_example =
    unknown_reference_fails pattern_fits generic options 3 variables suffixes true []
      (codes "Odoo-Version") (codes "16") b'O' (codes "doo-Version") refl refl refl refl refl
