-- ===== src/Yaml/Relations.antt =====
-- About the entries of a record, exported and read back one by one.
use cetmix_tower.Prelude.{
  ℕ, ◌≡◌, refl, sym, ap, ◌∙◌, Bool, true, false, not, ◌&&◌, Option, none, some, List, [], ◌∷◌,
  Result, ok, ◌>>=◌, nat_eq, list_eq, if◌then◌else◌, if_true, if_false, contains, keep, is_empty,
  map, All, Bool-cases, inl, inr, arith,
}
use cetmix_tower.Prelude.Text.{Text}
use cetmix_tower.Yaml.Values.{
  FieldType, many2one, x2many, reference, Value, nothing, number, text, record_pair, record_ids,
  items, record_id, link_commands, Values, Error, Model, is_relation, is_true, export_typed,
  export_value, export_values, found_record, add_link, by_reference, import_items, import_typed,
  import_value, import_values,
}

module _ (m : Model) where
  -- a value that `read` returns for a field: its records are found again by their references
  abbrev pub IsReadTyped : Text → Option FieldType → Value → Type 0
  IsReadTyped k (some many2one) (record_pair i n) =
      (by_reference m k (m.reference_of k i) ≡ some i) × (is_empty (m.reference_of k i) ≡ false)
  IsReadTyped k (some x2many) (record_ids ids) =
      All (λ i. by_reference m k (m.reference_of k i) ≡ some i) ids
  IsReadTyped k type v = is_true v ≡ false

  abbrev pub IsRead : Text × Value → Type 0
  IsRead (k, v) = is_relation k ≡ true → IsReadTyped k (m.field_type k) v

  -- what is written for a value that was read
  abbrev pub written_value : Value → Value
  written_value (record_pair i n) = record_id i
  written_value (record_ids []) = nothing
  written_value (record_ids (i ∷ ids)) = link_commands (i ∷ ids)
  written_value v = nothing

  import_items-references :
      (k : Text) (earlier : Option Text) (ids : List ℕ)
      → All (λ i. by_reference m k (m.reference_of k i) ≡ some i) ids
      → import_items m k earlier (map (λ i. reference (m.reference_of k i)) ids) ≡ ok ids
  import_items-references k earlier [] h = refl
  import_items-references k earlier (i ∷ ids) h =
      ap (λ r. r >>= λ rest. ok (add_link m (by_reference m k (m.reference_of k i)) rest))
        (import_items-references k (some (m.reference_of k i)) ids h.1)
      ∙ ap (λ o. ok (add_link m o ids)) h.0

  abbrev out_and_in : Text → Option FieldType → Value → Result Error Value
  out_and_in k type v =
      let e = if is_true v then export_typed m k type v else nothing in
      if is_true e then import_typed m k type e else ok nothing

  written_value-falsy : (v : Value) → is_true v ≡ false → written_value v ≡ nothing
  written_value-falsy nothing h = refl
  written_value-falsy (number n) h = refl
  written_value-falsy (text s) h = refl
  written_value-falsy (record_pair i n) h = ground arith
  written_value-falsy (record_ids []) h = refl
  written_value-falsy (record_ids (i ∷ ids)) h = ground arith
  written_value-falsy (items xs) h = refl
  written_value-falsy (record_id i) h = refl
  written_value-falsy (link_commands ids) h = refl

  falsy_value :
      (k : Text) (type : Option FieldType) (v : Value)
      → is_true v ≡ false
      → out_and_in k type v ≡ ok (written_value v)
  falsy_value k type v h =
      ap
        (λ b.
          let e = if b then export_typed m k type v else nothing in
          if is_true e then import_typed m k type e else ok nothing)
        h
      ∙ ap ok (sym (written_value-falsy v h))

  typed :
      (k : Text) (type : Option FieldType) (v : Value)
      → IsReadTyped k type v
      → out_and_in k type v ≡ ok (written_value v)
  typed k none v h = falsy_value k none v h
  typed k (some many2one) (record_pair i n) h =
      if_true (not (is_empty (m.reference_of k i))) _ _ (ap not h.1)
      ∙ ap (λ o. ok (found_record m o)) h.0
  typed k (some x2many) (record_ids []) h = refl
  typed k (some x2many) (record_ids (i ∷ ids)) h =
      ap (λ r. r >>= λ found. ok (link_commands found)) (import_items-references k none (i ∷ ids) h)
  typed k (some many2one) nothing h = falsy_value k (some many2one) nothing h
  typed k (some many2one) (number n) h = falsy_value k (some many2one) (number n) h
  typed k (some many2one) (text s) h = falsy_value k (some many2one) (text s) h
  typed k (some many2one) (items xs) h = falsy_value k (some many2one) (items xs) h
  typed k (some many2one) (record_id i) h = falsy_value k (some many2one) (record_id i) h
  typed k (some many2one) (link_commands ids) h =
      falsy_value k (some many2one) (link_commands ids) h
  typed k (some many2one) (record_ids ids) h = falsy_value k (some many2one) (record_ids ids) h
  typed k (some x2many) nothing h = falsy_value k (some x2many) nothing h
  typed k (some x2many) (number n) h = falsy_value k (some x2many) (number n) h
  typed k (some x2many) (text s) h = falsy_value k (some x2many) (text s) h
  typed k (some x2many) (items xs) h = falsy_value k (some x2many) (items xs) h
  typed k (some x2many) (record_id i) h = falsy_value k (some x2many) (record_id i) h
  typed k (some x2many) (link_commands ids) h = falsy_value k (some x2many) (link_commands ids) h
  typed k (some x2many) (record_pair i n) h = falsy_value k (some x2many) (record_pair i n) h

  -- one relational value, out and in
  import_value-export_value :
      (k : Text) (v : Value)
      → IsReadTyped k (m.field_type k) v
      → import_value m k (export_value m k v) ≡ ok (written_value v)
  import_value-export_value k v h = typed k (m.field_type k) v h

  -- what is written for the entries that are exported
  abbrev pub written_values : Bool → Values → Values
  written_values remove_empty [] = []
  written_values remove_empty ((k, v) ∷ values) =
      let rest = written_values remove_empty values in
      if is_relation k
      then if not (is_true v) && remove_empty then rest else (k, written_value v) ∷ rest
      else (k, v) ∷ rest

  abbrev pub supported : Values → Values
  supported values = keep (λ (k, v). contains m.fields_for_yaml k) values

  pub import_entry :
      (k : Text) (e w : Value) (out back : Values)
      → (if is_relation k then import_value m k e else ok e) ≡ ok w
      → import_values m (supported out) ≡ ok (supported back)
      → import_values m (supported ((k, e) ∷ out)) ≡ ok (supported ((k, w) ∷ back))
  import_entry k e w out back one rest = elim (Bool-cases (contains m.fields_for_yaml k)) [
    | inl s ↦
        ap (import_values m)
          (if_true (contains m.fields_for_yaml k) ((k, e) ∷ supported out) (supported out) s)
        ∙ ap (λ r. r >>= λ x. import_values m (supported out) >>= λ more. ok ((k, x) ∷ more)) one
        ∙ ap (λ r. r >>= λ more. ok ((k, w) ∷ more)) rest
        ∙ sym (
            ap ok
              (if_true (contains m.fields_for_yaml k) ((k, w) ∷ supported back) (supported back) s))
    | inr s ↦
        ap (import_values m)
          (if_false (contains m.fields_for_yaml k) ((k, e) ∷ supported out) (supported out) s)
        ∙ rest
        ∙ sym (
            ap ok (
              if_false (contains m.fields_for_yaml k) ((k, w) ∷ supported back) (supported back) s))
  ]

  pub import_values-export_values :
      (remove_empty : Bool) (values : Values)
      → All IsRead values
      → import_values m (supported (export_values m remove_empty values))
        ≡ ok (supported (written_values remove_empty values))
  import_values-export_values remove_empty [] h = refl
  import_values-export_values remove_empty ((k, v) ∷ values) h =
      let out = export_values m remove_empty values in
      let back = written_values remove_empty values in
      let rest = import_values-export_values remove_empty values h.1 in
      elim (Bool-cases (is_relation k)) [
        | inl b ↦ elim (Bool-cases (not (is_true v) && remove_empty)) [
          | inl d ↦
              ap (λ x. import_values m (supported x))
                (if_true (is_relation k) _ ((k, v) ∷ out) b
                  ∙ if_true (not (is_true v) && remove_empty) out ((k, export_value m k v) ∷ out) d)
              ∙ rest
              ∙ sym (
                  ap (λ x. ok (supported x))
                    (if_true (is_relation k) _ ((k, v) ∷ back) b
                      ∙ if_true (not (is_true v) && remove_empty) back ((k, written_value v) ∷ back)
                          d))
          | inr d ↦
              ap (λ x. import_values m (supported x))
                (if_true (is_relation k) _ ((k, v) ∷ out) b
                  ∙ if_false (not (is_true v) && remove_empty) out ((k, export_value m k v) ∷ out)
                      d)
              ∙ import_entry k (export_value m k v) (written_value v) out back
                  (if_true (is_relation k) _ _ b ∙ import_value-export_value k v (h.0 b)) rest
              ∙ sym (
                  ap (λ x. ok (supported x))
                    (if_true (is_relation k) _ ((k, v) ∷ back) b
                      ∙ if_false (not (is_true v) && remove_empty) back
                          ((k, written_value v) ∷ back) d))
        ]
        | inr b ↦
            ap (λ x. import_values m (supported x)) (if_false (is_relation k) _ ((k, v) ∷ out) b)
            ∙ import_entry k v v out back (if_false (is_relation k) _ _ b) rest
            ∙ sym (ap (λ x. ok (supported x)) (if_false (is_relation k) _ ((k, v) ∷ back) b))
      ]
