-- ===== src/Template/Merge.antt =====
-- About the values that a new server gets for its variables: the configuration's, or those of its template.
use cetmix_tower.Prelude.{
  ℕ, ◌≡◌, refl, sym, ap, ◌∙◌, subst, Bool, true, false, Option, none, some, List, [], ◌∷◌, ok, ◌==◌,
  nat_eq, list_eq, if◌then◌else◌, if_true, if_false, contains, find_first, lookup, insert,
  Bool-cases, Option-cases, inl, inr, arith, IsDistinct, bind-ok,
}
use cetmix_tower.Prelude.Text.{Text}
use cetmix_tower.Reference.Records.{Row}
use cetmix_tower.Template.Configuration.{
  TemplateValue, VariableOption, ValueVals, Configuration, vals_of_config, value_vals,
  server_variable_vals, copied_values, with_option, update_options, put_commands, merge_commands,
}

abbrev pub row_ids : List Row → List ℕ
row_ids [] = []
row_ids (r ∷ rows) = r.id ∷ row_ids rows

abbrev pub or_else : Option ValueVals → Option ValueVals → Option ValueVals
or_else none b = b
or_else (some a) b = some a

or_else-none : (o : Option ValueVals) → o ≡ or_else o none
or_else-none none = refl
or_else-none (some vals) = refl

abbrev command_ids : List (ℕ × ValueVals) → List ℕ
command_ids [] = []
command_ids ((v, vals) ∷ commands) = v ∷ command_ids commands

lookup-insert :
    (v w : ℕ) (vals : ValueVals) (m : List (ℕ × ValueVals))
    → lookup v (insert w vals m) ≡ (if w == v then some vals else lookup v m)
lookup-insert v w vals [] = refl
lookup-insert v w vals ((u, x) ∷ m) = ground (arith, lookup-insert v w vals m)

lookup-command_ids :
    (v : ℕ) (commands : List (ℕ × ValueVals))
    → contains (command_ids commands) v ≡ false
    → lookup v commands ≡ none
lookup-command_ids v [] h = refl
lookup-command_ids v ((w, vals) ∷ commands) h = ground (arith, lookup-command_ids v commands)

lookup-put_commands :
    (v : ℕ) (commands existing : List (ℕ × ValueVals))
    → IsDistinct (command_ids commands)
    → lookup v (put_commands commands existing) ≡ or_else (lookup v commands) (lookup v existing)
lookup-put_commands v [] existing d = refl
lookup-put_commands v ((w, vals) ∷ commands) existing d =
    lookup-put_commands v commands (insert w vals existing) d.1
    ∙ ap (or_else (lookup v commands)) (lookup-insert v w vals existing)
    ∙ elim (Bool-cases (w == v)) [
      | inl b ↦
          (let same : w ≡ v = ground arith in
            ground (
              arith,
              lookup-command_ids v commands
                  (subst (λ u. contains (command_ids commands) u ≡ false) same d.0),
            ))
      | inr b ↦ ground arith
    ]

-- the template's value, with the option that is given for its variable
abbrev pub template_vals : List (ℕ × VariableOption) → ℕ → List TemplateValue → Option ValueVals
template_vals options v [] = none
template_vals options v (t ∷ values) =
    if t.variable_id == v
    then some (
        with_option (lookup v options)
          (record { value_char = t.value_char; option_id = t.option_id }))
    else template_vals options v values

lookup-update_options :
    (options : List (ℕ × VariableOption)) (v : ℕ) (values : List TemplateValue)
    → lookup v (update_options options (copied_values values)) ≡ template_vals options v values
lookup-update_options options v [] = refl
lookup-update_options options v (t ∷ values) = elim (Bool-cases (t.variable_id == v)) [
  | inl b ↦
      (let same : t.variable_id ≡ v = ground arith in
        if_true (t.variable_id == v) _ _ b
        ∙ ap
            (λ u. some (
              with_option (lookup u options)
                (record { value_char = t.value_char; option_id = t.option_id })))
            same
        ∙ sym (if_true (t.variable_id == v) _ _ b))
  | inr b ↦ ground (arith, lookup-update_options options v values)
]

abbrev pub given_vals : Option VariableOption → Option Text → Option ValueVals
given_vals o none = none
given_vals o (some value) = some (value_vals o value)

-- the value for a variable of the configuration
abbrev pub config_vals : Configuration → List (ℕ × VariableOption) → Option Row → Option ValueVals
config_vals config options none = none
config_vals config options (some r) = given_vals (lookup r.id options) (lookup r.reference config)

abbrev pub row_of_id : ℕ → List Row → Option Row
row_of_id v rows = find_first (λ r. r.id == v) rows

vals_of_config-ok :
    (config : Configuration) (r value : Text)
    → vals_of_config config r ≡ ok value
    → lookup r config ≡ some value
vals_of_config-ok config r value h = elim (Option-cases (lookup r config)) [
  | inl e ↦ ground arith
  | inr (w, e) ↦ ground arith
]

module _ (config : Configuration) (options : List (ℕ × VariableOption)) where
  server_variable_vals-cons :
      (r : Row) (rows : List Row) (commands : List (ℕ × ValueVals))
      → server_variable_vals config options (r ∷ rows) ≡ ok commands
      → (value : Text) × (rest : List (ℕ × ValueVals)) × (lookup r.reference config ≡ some value)
        × (server_variable_vals config options rows ≡ ok rest)
        × (commands ≡ (r.id, value_vals (lookup r.id options) value) ∷ rest)
  server_variable_vals-cons r rows commands h =
      let (value, e, k) = bind-ok (vals_of_config config r.reference) _ commands h in
      let (rest, f, l) = bind-ok (server_variable_vals config options rows) _ commands k in
      (value, rest, vals_of_config-ok config r.reference value e, f, ground arith)

  command_ids-server_variable_vals :
      (rows : List Row) (commands : List (ℕ × ValueVals))
      → server_variable_vals config options rows ≡ ok commands
      → command_ids commands ≡ row_ids rows
  command_ids-server_variable_vals [] commands h =
      (let e : commands ≡ [] = ground arith in ap command_ids e)
  command_ids-server_variable_vals (r ∷ rows) commands h =
      let (value, rest, e, f, g) = server_variable_vals-cons r rows commands h in
      ap command_ids g ∙ ap (λ ids. r.id ∷ ids) (command_ids-server_variable_vals rows rest f)

  lookup-server_variable_vals :
      (v : ℕ) (rows : List Row) (commands : List (ℕ × ValueVals))
      → server_variable_vals config options rows ≡ ok commands
      → lookup v commands ≡ config_vals config options (row_of_id v rows)
  lookup-server_variable_vals v [] commands h =
      (let e : commands ≡ [] = ground arith in ap (lookup v) e)
  lookup-server_variable_vals v (r ∷ rows) commands h =
      let (value, rest, e, f, g) = server_variable_vals-cons r rows commands h in
      ap (lookup v) g ∙ elim (Bool-cases (r.id == v)) [
        | inl b ↦
            if_true (r.id == v) _ _ b
            ∙ sym (ap (given_vals (lookup r.id options)) e)
            ∙ sym (
                ap (config_vals config options) (if_true (r.id == v) (some r) (row_of_id v rows) b))
        | inr b ↦
            if_false (r.id == v) _ _ b
            ∙ lookup-server_variable_vals v rows rest f
            ∙ sym (
                ap (config_vals config options)
                  (if_false (r.id == v) (some r) (row_of_id v rows) b))
      ]

  -- The value that a new server has
  pub merge_commands-value :
      (pick_all : Bool) (values : List TemplateValue) (rows : List Row)
      (commands : List (ℕ × ValueVals)) (v : ℕ)
      → IsDistinct (row_ids rows)
      → server_variable_vals config options rows ≡ ok commands
      → lookup v (merge_commands pick_all options values commands)
        ≡ or_else
            (config_vals config options (row_of_id v rows))
            (if pick_all then template_vals options v values else none)
  merge_commands-value true values rows commands v d h =
      lookup-put_commands v commands _
        (subst IsDistinct (sym (command_ids-server_variable_vals rows commands h)) d)
      ∙ ap (λ a. or_else a (lookup v (update_options options (copied_values values))))
          (lookup-server_variable_vals v rows commands h)
      ∙ ap (or_else (config_vals config options (row_of_id v rows)))
          (lookup-update_options options v values)
  merge_commands-value false values rows commands v d h =
      lookup-server_variable_vals v rows commands h
      ∙ or_else-none (config_vals config options (row_of_id v rows))
