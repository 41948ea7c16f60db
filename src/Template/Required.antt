-- ===== src/Template/Required.antt =====
-- About `_validate_required_variables` and the servers that it lets through.
use cetmix_tower.Prelude.{
  ℕ, ◌≡◌, refl, ap, ◌∙◌, Bool, true, false, ◌&&◌, Option, none, some, List, [], ◌∷◌, Result, ok,
  err, ◌>>=◌, nat_eq, list_eq, if◌then◌else◌, if_true, if_false, contains, is_empty, lookup, All,
  Bool-cases, inl, inr, arith, ◌↔◌, bind-ok,
}
use cetmix_tower.Prelude.Text.{Text}
use cetmix_tower.Reference.Records.{Row}
use cetmix_tower.Template.Configuration.{
  TemplateValue, VariableOption, Error, required_variables, ValueVals, Configuration, required_refs,
  is_empty_value, missing_variables, empty_variables, validate_required_variables,
  prepare_variable_values, new_server_values, copied_values,
}
use cetmix_tower.Prelude.Dictionaries.{keys}

-- the configuration has a value for the reference, and one that is not empty
abbrev pub HasValue : Configuration → Text → Type 0
HasValue config r = is_empty_value (lookup r config) ≡ false

contains-keys :
    (config : Configuration) (r : Text)
    → contains (keys config) r ≡ false
    → is_empty_value (lookup r config) ≡ true
contains-keys [] r h = refl
contains-keys ((k, v) ∷ config) r h = ground (arith, contains-keys config r)

validated-HasValue :
    (config : Configuration) (refs : List Text)
    → is_empty (missing_variables config refs) ≡ true
    → is_empty (empty_variables config refs) ≡ true
    → All (HasValue config) refs
validated-HasValue config [] h k = tt
validated-HasValue config (r ∷ refs) h k = elim (Bool-cases (contains (keys config) r)) [
  | inl b ↦ (ground arith, validated-HasValue config refs (ground arith) (ground arith))
  | inr b ↦ ground arith
]

HasValue-validated :
    (config : Configuration) (refs : List Text)
    → All (HasValue config) refs
    → (is_empty (missing_variables config refs) && is_empty (empty_variables config refs)) ≡ true
HasValue-validated config [] h = refl
HasValue-validated config (r ∷ refs) h =
    ground (arith, HasValue-validated config refs h.1, contains-keys config r, h.0)

-- The validation passes exactly when every required variable of the template has a value in the
-- configuration that is not empty.
pub validate_required_variables_iff :
    (values : List TemplateValue) (config : Configuration)
    → (validate_required_variables values config ≡ ok tt)
      ↔ All (HasValue config) (required_refs values)
unfolding validate_required_variables
validate_required_variables_iff values config =
    let refs = required_refs values in
    let passes =
      is_empty (missing_variables config refs) && is_empty (empty_variables config refs) in
    (
      (λ h. elim (Bool-cases passes) [
        | inl b ↦ validated-HasValue config refs (ground arith) (ground arith)
        | inr b ↦ ground (
          arith,
          if_false passes (ok tt)
              (err
                (required_variables (missing_variables config refs) (empty_variables config refs)))
              b,
        )
      ]),
      (λ h. if_true passes _ _ (HasValue-validated config refs h)),
    )

missing_variables-none : (refs : List Text) → missing_variables [] refs ≡ refs
missing_variables-none [] = refl
missing_variables-none (r ∷ refs) = ap (λ rest. r ∷ rest) (missing_variables-none refs)

empty_variables-none : (refs : List Text) → empty_variables [] refs ≡ []
empty_variables-none [] = refl
empty_variables-none (r ∷ refs) = empty_variables-none refs

validated-first :
    {B : Type 0} (values : List TemplateValue) (config : Configuration) (f : Unit → Result Error B)
    (b : B)
    → (validate_required_variables values config >>= f) ≡ ok b
    → All (HasValue config) (required_refs values)
validated-first values config f b h =
    let (a, e, k) = bind-ok (validate_required_variables values config) f b h in
    (validate_required_variables_iff values config).0 e

refused-nonempty :
    {B : Type 0} (refs : List Text) (b : B)
    → ((if is_empty refs && true then ok tt else err (required_variables refs [])) >>= λ validated.
        ok b)
      ≡ (if is_empty refs then ok b else err (required_variables refs []))
refused-nonempty [] b = refl
refused-nonempty (r ∷ refs) b = refl

module _ (in_pattern : ℕ → Bool) (generic : Text) (table : List VariableOption) (next : ℕ)
    (variables : List Row) where
  -- When the values of a new server are found, and the configuration is not empty in case the
  -- template's variables are picked explicitly, every required variable of the template has a value in
  -- the configuration that is not empty.
  pub new_server_values-HasValue :
      (pick_all : Option Bool) (values : List TemplateValue) (config : Configuration)
      (pairs : List (Text × Text)) (result : List (ℕ × ValueVals))
      → (pick_all ≡ some true → is_empty config ≡ false)
      → new_server_values in_pattern generic table next variables pick_all values config pairs
        ≡ ok result
      → All (HasValue config) (required_refs values)
  unfolding new_server_values prepare_variable_values
  new_server_values-HasValue none values config pairs result g h =
      validated-first values config _ result h
  new_server_values-HasValue (some false) values config pairs result g h =
      validated-first values config _ result h
  new_server_values-HasValue (some true) values [] pairs result g h = ground (arith, g refl)
  new_server_values-HasValue (some true) values (entry ∷ config) pairs result g h =
      validated-first values (entry ∷ config) _ result h

  -- Without a configuration and without the argument that picks the template's variables, the new
  -- server gets the template's values if no variable of the template is required, and otherwise the
  -- required ones are reported as missing.
  default_call_validates :
      (values : List TemplateValue) (pairs : List (Text × Text))
      → new_server_values in_pattern generic table next variables none values [] pairs ≡ (
          if is_empty (required_refs values)
          then ok (copied_values values)
          else err (required_variables (required_refs values) []))
  unfolding new_server_values prepare_variable_values validate_required_variables
  default_call_validates values pairs =
      let refs = required_refs values in
      ap
        (λ m.
          (if is_empty m && is_empty (empty_variables [] refs)
            then ok tt
            else err (required_variables m (empty_variables [] refs)))
          >>= λ validated. ok (copied_values values))
        (missing_variables-none refs)
      ∙ ap
          (λ e.
            (if is_empty refs && is_empty e then ok tt else err (required_variables refs e))
            >>= λ validated. ok (copied_values values))
          (empty_variables-none refs)
      ∙ refused-nonempty refs (copied_values values)
