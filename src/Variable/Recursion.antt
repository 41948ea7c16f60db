-- ===== src/Variable/Recursion.antt =====
-- The recursion of `get_variable_values` through the templates in the values.
use cetmix_tower.Prelude.{
  ℕ, zero, suc, ◌<◌, ◌≡◌, refl, ap, ◌∙◌, Bool, true, false, Option, none, some, List, [], ◌∷◌,
  if◌then◌else◌, if_true, if_false, Result, ok, err, ◌>>=◌, All, Bool-cases, inl, inr, arith,
  All-map, IsDistinct, list_eq, nat_eq,
}
use cetmix_tower.Prelude.Text.{Text, occurs}
use cetmix_tower.Variable.Resolve.{
  Value, absent, unset, text, object, Error, syntax_error, render_error, key_error, recursion_error,
  Context, opening, entry_of_record, render_template, render_value, modify, get_variable_values,
}
use cetmix_tower.Variable.Single.{chosen_value, single_value, each_result, get_variable_values-each}

abbrev pub runs_out : {A : Type 0} → Result Error A → Bool
runs_out (ok a) = false
runs_out (err syntax_error) = false
runs_out (err render_error) = false
runs_out (err key_error) = false
runs_out (err recursion_error) = true

runs_out-bind :
    {A B : Type 0} (m : Result Error A) (f : A → Result Error B)
    → runs_out m ≡ false
    → ((a : A) → m ≡ ok a → runs_out (f a) ≡ false)
    → runs_out (m >>= f) ≡ false
runs_out-bind (ok a) f h k = k a refl
runs_out-bind (err syntax_error) f h k = refl
runs_out-bind (err render_error) f h k = refl
runs_out-bind (err key_error) f h k = refl
runs_out-bind (err recursion_error) f h k = h

bind_assoc :
    {A B C : Type 0} (m : Result Error A) (f : A → Result Error B) (g : B → Result Error C)
    → (m >>= λ a. f a >>= g) ≡ ((m >>= f) >>= g)
bind_assoc (ok a) f g = refl
bind_assoc (err e) f g = refl

module _ {Object : Type 0} (c : Context Object) where
  -- a value that is a template with the given variables
  abbrev pub HasTemplate : Text → Text → List Text → Type 0
  HasTemplate r t vs =
      (chosen_value c r ≡ text t)
      × (occurs opening t ≡ true)
      × (c.get_variables_from_code t ≡ ok vs)

  single_value-template :
      (again : List Text → Result Error (Option (List (Text × Value Object)))) (modifiers : Bool)
      (r t : Text) (vs : List Text)
      → HasTemplate r t vs
      → single_value c again modifiers r ≡ (
          (again vs >>= λ res. entry_of_record c res >>= λ values. c.render_code_custom t values)
          >>= λ v. ok (if modifiers then modify c r v else v))
  single_value-template again modifiers r t vs h =
      ap (λ m. m >>= λ v. ok (if modifiers then modify c r v else v))
        (ap (render_value c again) h.0
          ∙ if_true (occurs opening t) _ _ h.1
          ∙ ap
              (λ m. m >>= λ value_vars. again value_vars >>= λ res.
                entry_of_record c res >>= λ values. c.render_code_custom t values)
              h.2)

  one_value :
      (fuel : ℕ) (modifiers : Bool) (r t : Text) (vs : List Text) (e : Error)
      → HasTemplate r t vs
      → (get_variable_values c fuel true vs >>= λ res. entry_of_record c res) ≡ err e
      → get_variable_values c (suc fuel) modifiers (r ∷ []) ≡ err e
  one_value fuel modifiers r t vs e h k =
      get_variable_values-each c fuel modifiers r [] (refl, tt)
      ∙ ap (λ m. (m >>= λ v. ok ((r, v) ∷ [])) >>= λ values. ok (some values))
          (single_value-template (get_variable_values c fuel true) modifiers r t vs h
            ∙ ap (λ m. m >>= λ v. ok (if modifiers then modify c r v else v))
                (bind_assoc (get_variable_values c fuel true vs) (entry_of_record c)
                    (c.render_code_custom t)
                  ∙ ap (λ m. m >>= c.render_code_custom t) k))

  -- When each variable of a set has a template as its value whose only variable is again of the set,
  -- the value of one of them runs out of depth, whatever the depth.
  pub looping_values_run_out :
      (IsLooping : Text → Type 0) (next : Text → Text)
      → ((r : Text) → IsLooping r → (t : Text) × HasTemplate r t (next r ∷ []) × IsLooping (next r))
      → (fuel : ℕ) (modifiers : Bool) (r : Text) → IsLooping r
      → get_variable_values c fuel modifiers (r ∷ []) ≡ err recursion_error
  unfolding get_variable_values
  looping_values_run_out IsLooping next loops zero modifiers r l = refl
  looping_values_run_out IsLooping next loops (suc fuel) modifiers r l =
      let (t, h, k) = loops r l in
      one_value fuel modifiers r t (next r ∷ []) recursion_error h (
        ap (λ m. m >>= λ res. entry_of_record c res)
          (looping_values_run_out IsLooping next loops fuel true (next r) k))

  -- A value that has the opening braces but no variable raises a KeyError, at any depth above 1.
  pub template_without_variables_fails :
      (fuel : ℕ) (modifiers : Bool) (r t : Text)
      → HasTemplate r t []
      → get_variable_values c (suc (suc fuel)) modifiers (r ∷ []) ≡ err key_error
  unfolding get_variable_values
  template_without_variables_fails fuel modifiers r t h =
      one_value (suc fuel) modifiers r t [] key_error h refl

  -- the libraries raise their own errors, and the variables of a template are distinct
  abbrev pub HasLibraries : Type 0
  HasLibraries =
      ((t : Text) → runs_out (c.get_variables_from_code t) ≡ false)
      × ((t : Text) (values : List (Text × Value Object))
          → runs_out (c.render_code_custom t values) ≡ false)
      × ((t : Text) (vs : List Text) → c.get_variables_from_code t ≡ ok vs → IsDistinct vs)

  -- the variables of a value's template come before the variable
  abbrev pub IsRank : (Text → ℕ) → Type 0
  IsRank rank =
      (r t : Text) (vs : List Text)
      → chosen_value c r ≡ text t
      → c.get_variables_from_code t ≡ ok vs
      → All (λ v. rank v < rank r) vs

  entry_of_record-runs_out :
      (res : Option (List (Text × Value Object))) → runs_out (entry_of_record c res) ≡ false
  entry_of_record-runs_out none = refl
  entry_of_record-runs_out (some values) = refl

  render_value-runs_out :
      (again : List Text → Result Error (Option (List (Text × Value Object)))) (v : Value Object)
      → HasLibraries
      → ((t : Text) (vs : List Text)
          → v ≡ text t
          → c.get_variables_from_code t ≡ ok vs
          → runs_out (again vs) ≡ false)
      → runs_out (render_value c again v) ≡ false
  render_value-runs_out again absent l h = refl
  render_value-runs_out again unset l h = refl
  render_value-runs_out again (object o) l h = refl
  render_value-runs_out again (text t) l h = elim (Bool-cases (occurs opening t)) [
    | inl b ↦
        ap runs_out (if_true (occurs opening t) (render_template c again t) (ok (text t)) b)
        ∙ runs_out-bind (c.get_variables_from_code t) _ (l.0 t) (λ vs e.
          runs_out-bind (again vs) _ (h t vs refl e) (λ res e2.
            runs_out-bind (entry_of_record c res) _ (entry_of_record-runs_out res)
              (λ values e3. l.1 t values)))
    | inr b ↦ ap runs_out (if_false (occurs opening t) (render_template c again t) (ok (text t)) b)
  ]

  each_result-runs_out :
      (f : Text → Result Error (Value Object)) (refs : List Text)
      → All (λ r. runs_out (f r) ≡ false) refs
      → runs_out (each_result c f refs) ≡ false
  each_result-runs_out f [] h = refl
  each_result-runs_out f (r ∷ refs) h = runs_out-bind (f r) _ h.0 (λ v e.
      runs_out-bind (each_result c f refs) _ (each_result-runs_out f refs h.1) (λ rest e2. refl))

  module _ (l : HasLibraries) (rank : Text → ℕ) (before : IsRank rank) where
    single_values-runs_out :
        (fuel : ℕ) (modifiers : Bool) (refs : List Text)
        → ((vs : List Text)
            → IsDistinct vs
            → All (λ v. suc (rank v) < fuel) vs
            → 0 < fuel
            → runs_out (get_variable_values c fuel true vs) ≡ false)
        → All (λ r. rank r < fuel) refs
        → All
            (λ r. runs_out (single_value c (get_variable_values c fuel true) modifiers r) ≡ false)
            refs
    single_values-runs_out fuel modifiers [] again k = tt
    single_values-runs_out fuel modifiers (r ∷ refs) again k = (
      runs_out-bind (render_value c (get_variable_values c fuel true) (chosen_value c r)) _
          (render_value-runs_out (get_variable_values c fuel true) (chosen_value c r) l (λ t vs e v.
            again vs (l.2 t vs v)
              (All-map (λ s. rank s < rank r) (λ s. suc (rank s) < fuel) vs
                (λ s q. omega (arith, q, k.0)) (before r t vs e v))
              (omega (arith, k.0))))
          (λ v e. refl),
      single_values-runs_out fuel modifiers refs again k.1,
    )

    -- When the variables of each template are of a lower rank than the variable that it is the value
    -- of, and the libraries raise only errors of their own and list the variables of a template once,
    -- the values of distinct variables of ranks below the depth are found without running out of
    -- depth.
    pub acyclic_values_end :
        (fuel : ℕ) (modifiers : Bool) (refs : List Text)
        → IsDistinct refs
        → All (λ r. rank r < fuel) refs
        → runs_out (get_variable_values c (suc fuel) modifiers refs) ≡ false
    unfolding get_variable_values
    acyclic_values_end fuel modifiers [] d k = refl
    acyclic_values_end zero modifiers (r ∷ refs) d k = ground (arith, k.0)
    acyclic_values_end (suc fuel) modifiers (r ∷ refs) d k =
        ap runs_out (get_variable_values-each c (suc fuel) modifiers r refs d)
        ∙ runs_out-bind
            (each_result c (single_value c (get_variable_values c (suc fuel) true) modifiers)
              (r ∷ refs))
            _
            (each_result-runs_out _ (r ∷ refs) (
              single_values-runs_out (suc fuel) modifiers (r ∷ refs)
                (λ vs dv kv p. acyclic_values_end fuel true vs dv (
                  All-map (λ v. suc (rank v) < suc fuel) (λ v. rank v < fuel) vs
                    (λ v q. omega (arith, q)) kv))
                k))
            (λ values e. refl)
