-- ===== src/Variable/Single.antt =====
-- `get_variable_values` of several variables against the value of each on its own.
use cetmix_tower.Prelude.{
  ℕ, suc, ◌≡◌, refl, sym, ap, ◌∙◌, Bool, true, false, Option, none, some, List, [], ◌∷◌, ◌++◌,
  nat_eq, list_eq, list_beq_iff, if◌then◌else◌, contains, lookup, insert, Result, ok, err, ◌>>=◌,
  All, arith, IsDistinct,
}
use cetmix_tower.Prelude.Text.{Text}
use cetmix_tower.Variable.Resolve.{
  Value, Error, Context, value_or_none, add_globals, system_value, set_own, system_or_own, add_own,
  render_value, render_values, modify, apply_modifiers, get_variable_values,
}
use cetmix_tower.Prelude.Dictionaries.{
  keys, append_one, append_nil, IsNew, insert-new, append-IsNew,
}

insert-there :
    {V : Type 0} (r : Text) (v w : V) (m n : List (Text × V))
    → contains (keys m) r ≡ false
    → insert r v (m ++ (r, w) ∷ n) ≡ m ++ (r, v) ∷ n
insert-there r v w [] n h = ground (arith, list_beq_iff r r)
insert-there r v w ((s, x) ∷ m) n h = ground (arith, insert-there r v w m n)

no_keys-All : (refs : List Text) → All (λ r. false ≡ false) refs
no_keys-All [] = tt
no_keys-All (r ∷ refs) = (refl, no_keys-All refs)

module _ {V : Type 0} where
  abbrev pub each_value : (Text → V) → List Text → List (Text × V)
  each_value f [] = []
  each_value f (r ∷ refs) = (r, f r) ∷ each_value f refs

module _ {Object : Type 0} (c : Context Object) where
  abbrev global_value : Text → Value Object
  global_value r = value_or_none c (lookup r c.global_value_ids)

  abbrev own_or : Option (Value Object) → Value Object → Value Object
  own_or none v = v
  own_or (some w) v = w

  -- The system's value is taken before the record's, and the record's before the global one; without any it is None.
  abbrev pub chosen_value : Text → Value Object
  chosen_value r = own_or (system_or_own c r (system_value c r)) (global_value r)

  add_globals-each :
      (refs : List Text) (m : List (Text × Value Object))
      → IsDistinct refs
      → IsNew refs m
      → add_globals c refs m ≡ m ++ each_value global_value refs
  add_globals-each [] m d k = append_nil m
  add_globals-each (r ∷ refs) m d k =
      ap (add_globals c refs) (insert-new r (global_value r) m k.0)
      ∙ add_globals-each refs (m ++ (r, global_value r) ∷ []) d.1
          (append-IsNew r (global_value r) refs m d.0 k.1)
      ∙ append_one m (each_value global_value refs) (r, global_value r)

  set_own-there :
      (r : Text) (o : Option (Value Object)) (w : Value Object) (m n : List (Text × Value Object))
      → contains (keys m) r ≡ false
      → set_own c r o (m ++ (r, w) ∷ n) ≡ m ++ (r, own_or o w) ∷ n
  set_own-there r none w m n h = refl
  set_own-there r (some v) w m n h = insert-there r v w m n h

  add_own-each :
      (refs : List Text) (m : List (Text × Value Object))
      → IsDistinct refs
      → IsNew refs m
      → add_own c refs (m ++ each_value global_value refs) ≡ m ++ each_value chosen_value refs
  add_own-each [] m d k = refl
  add_own-each (r ∷ refs) m d k =
      ap (add_own c refs) (
        set_own-there r (system_or_own c r (system_value c r)) (global_value r) m
          (each_value global_value refs) k.0
        ∙ sym (append_one m (each_value global_value refs) (r, chosen_value r)))
      ∙ add_own-each refs (m ++ (r, chosen_value r) ∷ []) d.1
          (append-IsNew r (chosen_value r) refs m d.0 k.1)
      ∙ append_one m (each_value chosen_value refs) (r, chosen_value r)

  -- the dictionary before it is rendered
  pub values-each :
      (refs : List Text)
      → IsDistinct refs
      → add_own c refs (add_globals c refs []) ≡ each_value chosen_value refs
  values-each refs d =
      ap (add_own c refs) (add_globals-each refs [] d (no_keys-All refs))
      ∙ add_own-each refs [] d (no_keys-All refs)

  -- one variable on its own
  abbrev pub single_value :
      (List Text → Result Error (Option (List (Text × Value Object))))
      → Bool
      → Text
      → Result Error (Value Object)
  single_value again modifiers r =
      render_value c again (chosen_value r) >>= λ v. ok (if modifiers then modify c r v else v)

  abbrev pub each_result :
      (Text → Result Error (Value Object)) → List Text → Result Error (List (Text × Value Object))
  each_result f [] = ok []
  each_result f (r ∷ refs) = f r >>= λ v. each_result f refs >>= λ rest. ok ((r, v) ∷ rest)

  abbrev finished_values : Bool → List (Text × Value Object) → List (Text × Value Object)
  finished_values modifiers values = if modifiers then apply_modifiers c values else values

  finished_values-cons :
      (modifiers : Bool) (r : Text) (v : Value Object) (values : List (Text × Value Object))
      → finished_values modifiers ((r, v) ∷ values)
        ≡ (r, if modifiers then modify c r v else v) ∷ finished_values modifiers values
  finished_values-cons true r v values = refl
  finished_values-cons false r v values = refl

  finished_values-nil : (modifiers : Bool) → finished_values modifiers [] ≡ []
  finished_values-nil true = refl
  finished_values-nil false = refl

  bind-finished :
      (modifiers : Bool) (r : Text) (v : Result Error (Value Object))
      (rest : Result Error (List (Text × Value Object)))
      → ((v >>= λ w. rest >>= λ values. ok ((r, w) ∷ values)) >>= λ values.
          ok (finished_values modifiers values))
        ≡ ((v >>= λ w. ok (if modifiers then modify c r w else w)) >>= λ w.
            (rest >>= λ values. ok (finished_values modifiers values)) >>= λ values.
            ok ((r, w) ∷ values))
  bind-finished modifiers r (err e) rest = refl
  bind-finished modifiers r (ok w) (err e) = refl
  bind-finished modifiers r (ok w) (ok values) = ap ok (finished_values-cons modifiers r w values)

  render_values-each :
      (again : List Text → Result Error (Option (List (Text × Value Object)))) (modifiers : Bool)
      (refs : List Text)
      → (render_values c again (each_value chosen_value refs) >>= λ values.
          ok (finished_values modifiers values))
        ≡ each_result (single_value again modifiers) refs
  render_values-each again modifiers [] = ap ok (finished_values-nil modifiers)
  render_values-each again modifiers (r ∷ refs) =
      bind-finished modifiers r (render_value c again (chosen_value r))
        (render_values c again (each_value chosen_value refs))
      ∙ ap (λ rest. single_value again modifiers r >>= λ v. rest >>= λ values. ok ((r, v) ∷ values))
          (render_values-each again modifiers refs)

  bind-some :
      (m : Result Error (List (Text × Value Object)))
      (f : List (Text × Value Object) → List (Text × Value Object))
      → (m >>= λ values. ok (some (f values)))
        ≡ ((m >>= λ values. ok (f values)) >>= λ values. ok (some values))
  bind-some (ok values) f = refl
  bind-some (err e) f = refl

  -- The values of several distinct variables of a record are those of each on its own, in order: the
  -- chosen value, rendered if it is a template, and modified if that is asked for. The first that
  -- raises decides the error.
  pub get_variable_values-each :
      (fuel : ℕ) (modifiers : Bool) (r : Text) (refs : List Text)
      → IsDistinct (r ∷ refs)
      → get_variable_values c (suc fuel) modifiers (r ∷ refs) ≡ (
          each_result (single_value (get_variable_values c fuel true) modifiers) (r ∷ refs)
          >>= λ values. ok (some values))
  unfolding get_variable_values
  get_variable_values-each fuel modifiers r refs d =
      ap
        (λ m. render_values c (get_variable_values c fuel true) m >>= λ values.
          ok (some (finished_values modifiers values)))
        (values-each (r ∷ refs) d)
      ∙ bind-some
          (render_values c (get_variable_values c fuel true) (each_value chosen_value (r ∷ refs)))
          (finished_values modifiers)
      ∙ ap (λ m. m >>= λ values. ok (some values))
          (render_values-each (get_variable_values c fuel true) modifiers (r ∷ refs))
