-- ===== src/Variable/Resolve.antt =====
-- `get_variable_values` of one record: the values of the record, of the system and of all records, rendered and
-- modified. Jinja and the evaluation of Python expressions are parameters.
use cetmix_tower.Prelude.{
  ℕ, zero, suc, Bool, true, false, Option, none, some, List, [], ◌∷◌, ◌==◌, nat_eq, list_eq,
  if◌then◌else◌, lookup, insert, Result, ok, err, ◌>>=◌,
}
use cetmix_tower.Prelude.Text.{Text, codes, occurs}

-- None, False, a text, or another Python object that is true
pub data Value (Object : Type 0) : Type 0 where
  absent : Value Object
  unset : Value Object
  text : Text → Value Object
  object : Object → Value Object

pub data Error : Type 0 where
  syntax_error : Error
  render_error : Error
  key_error : Error
  recursion_error : Error

-- what the database and the libraries answer
pub record Context (Object : Type 0) : Type 0 where
  -- the values of the record and the global ones: a variable has at most one of each
  pub variable_value_ids : List (Text × Value Object)
  pub global_value_ids : List (Text × Value Object)
  -- the dictionary of the `tower` variable
  pub tower : Object
  -- the variables that have an expression
  pub applied_expressions : List (Text × Text)
  pub get_variables_from_code : Text → Result Error (List Text)
  pub render_code_custom : Text → List (Text × Value Object) → Result Error (Value Object)
  -- `none` when the evaluation raises
  pub evaluate : Text → Value Object → Option (Value Object)

abbrev pub tower_reference : Text
tower_reference = codes "tower"

abbrev pub opening : Text
opening = codes "{{ "

module _ {Object : Type 0} (c : Context Object) where
  abbrev pub value_or_none : Option (Value Object) → Value Object
  value_or_none none = absent
  value_or_none (some v) = v

  -- `get_global_variable_values`
  abbrev pub add_globals : List Text → List (Text × Value Object) → List (Text × Value Object)
  add_globals [] res_vars = res_vars
  add_globals (r ∷ refs) res_vars =
      add_globals refs (insert r (value_or_none (lookup r c.global_value_ids)) res_vars)

  -- `_get_system_variable_value`
  abbrev pub system_value : Text → Option (Value Object)
  system_value r = if r == tower_reference then some (object c.tower) else none

  abbrev pub set_own :
      Text → Option (Value Object) → List (Text × Value Object) → List (Text × Value Object)
  set_own r none res_vars = res_vars
  set_own r (some v) res_vars = insert r v res_vars

  abbrev pub system_or_own : Text → Option (Value Object) → Option (Value Object)
  system_or_own r (some v) = some v
  system_or_own r none = lookup r c.variable_value_ids

  abbrev pub add_own : List Text → List (Text × Value Object) → List (Text × Value Object)
  add_own [] res_vars = res_vars
  add_own (r ∷ refs) res_vars = add_own refs (set_own r (system_or_own r (system_value r)) res_vars)

  -- `res[self.id]`
  abbrev pub entry_of_record :
      Option (List (Text × Value Object)) → Result Error (List (Text × Value Object))
  entry_of_record none = err key_error
  entry_of_record (some values) = ok values

  -- `_render_variable_values` calls `get_variable_values` again
  module _ (again : List Text → Result Error (Option (List (Text × Value Object)))) where
    abbrev pub render_template : Text → Result Error (Value Object)
    render_template t = c.get_variables_from_code t >>= λ value_vars.
        again value_vars >>= λ res. entry_of_record res >>= λ values. c.render_code_custom t values

    abbrev pub render_value : Value Object → Result Error (Value Object)
    render_value absent = ok absent
    render_value unset = ok unset
    render_value (text t) = if occurs opening t then render_template t else ok (text t)
    render_value (object o) = ok (object o)

    abbrev pub render_values :
        List (Text × Value Object) → Result Error (List (Text × Value Object))
    render_values [] = ok []
    render_values ((r, v) ∷ values) =
        render_value v >>= λ w. render_values values >>= λ rest. ok ((r, w) ∷ rest)

  abbrev pub is_true : Value Object → Bool
  is_true absent = false
  is_true unset = false
  is_true (text []) = false
  is_true (text (x ∷ t)) = true
  is_true (object o) = true

  abbrev pub evaluated : Option (Value Object) → Value Object → Value Object
  evaluated none v = v
  evaluated (some w) v = w

  abbrev pub modify_by : Option Text → Value Object → Value Object
  modify_by none v = v
  modify_by (some expression) v = evaluated (c.evaluate expression v) v

  abbrev pub modify : Text → Value Object → Value Object
  modify r v = if is_true v then modify_by (lookup r c.applied_expressions) v else v

  -- `_apply_modifiers`
  abbrev pub apply_modifiers : List (Text × Value Object) → List (Text × Value Object)
  apply_modifiers [] = []
  apply_modifiers ((r, v) ∷ values) = (r, modify r v) ∷ apply_modifiers values

  -- Python's limit on recursion is the fuel; no reference, no entry for the record
  unfoldable pub get_variable_values :
      ℕ → Bool → List Text → Result Error (Option (List (Text × Value Object)))
  get_variable_values zero modifiers refs = err recursion_error
  get_variable_values (suc fuel) modifiers [] = ok none
  get_variable_values (suc fuel) modifiers (r ∷ refs) =
      render_values (get_variable_values fuel true) (add_own (r ∷ refs) (add_globals (r ∷ refs) []))
      >>= λ values. ok (some (if modifiers then apply_modifiers values else values))
