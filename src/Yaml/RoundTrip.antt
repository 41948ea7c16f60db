-- ===== src/Yaml/RoundTrip.antt =====
-- About a record that is exported and read back.
use cetmix_tower.Prelude.{
  ◌≡◌, refl, sym, ap, ◌∙◌, subst, Bool, true, false, not, ◌||◌, some, List, [], ◌∷◌, ◌++◌, ok,
  ◌>>=◌, ◌==◌, nat_eq, list_eq, list_beq_iff, if_true, if_false, contains, lookup, All, Bool-cases,
  inl, inr, arith, IsDistinct,
}
use cetmix_tower.Prelude.Text.{Text, codes}
use cetmix_tower.Yaml.Values.{
  Value, text, Values, Model, access_key, model_key, to_yaml_access_level, to_tower_access_level,
  without_key, put_all, export_values, service_values, access_values, exported_level, put_level,
  post_process_record_values, import_values, import_level, post_process_yaml_dict_values,
  model_name,
}
use cetmix_tower.Yaml.Relations.{
  IsRead, written_values, supported, import_entry, import_values-export_values,
}
use cetmix_tower.Prelude.Dictionaries.{
  keys, append_one, append_nil, IsNew, insert-new, append-IsNew,
}

put_all-append :
    (more values : Values)
    → IsDistinct (keys more)
    → IsNew (keys more) values
    → put_all more values ≡ values ++ more
put_all-append [] values d n = append_nil values
put_all-append ((k, v) ∷ more) values d n =
    ap (put_all more) (insert-new k v values n.0)
    ∙ put_all-append more (values ++ (k, v) ∷ []) d.1 (append-IsNew k v (keys more) values d.0 n.1)
    ∙ append_one values more (k, v)

without_key-contains :
    (key j : Text) (values : Values)
    → contains (keys values) j ≡ false
    → contains (keys (without_key key values)) j ≡ false
without_key-contains key j [] h = refl
without_key-contains key j ((k, v) ∷ values) h = ground (arith, without_key-contains key j values)

without_key-gone :
    (key : Text) (values : Values) → contains (keys (without_key key values)) key ≡ false
without_key-gone key [] = refl
without_key-gone key ((k, v) ∷ values) = ground (arith, without_key-gone key values)

without_key-IsDistinct :
    (key : Text) (values : Values)
    → IsDistinct (keys values)
    → IsDistinct (keys (without_key key values))
without_key-IsDistinct key [] d = tt
without_key-IsDistinct key ((k, v) ∷ values) d = elim (Bool-cases (not (k == key))) [
  | inl b ↦
      subst (λ x. IsDistinct (keys x)) (sym (if_true (not (k == key)) _ _ b))
        (without_key-contains key k values d.0, without_key-IsDistinct key values d.1)
  | inr b ↦
      subst (λ x. IsDistinct (keys x)) (sym (if_false (not (k == key)) _ _ b))
        (without_key-IsDistinct key values d.1)
]

without_key-All :
    (P : Text × Value → Type 0) (key : Text) (values : Values)
    → All P values
    → All P (without_key key values)
without_key-All P key [] h = tt
without_key-All P key ((k, v) ∷ values) h = elim (Bool-cases (not (k == key))) [
  | inl b ↦
      subst (All P) (sym (if_true (not (k == key)) _ _ b)) (h.0, without_key-All P key values h.1)
  | inr b ↦ subst (All P) (sym (if_false (not (k == key)) _ _ b)) (without_key-All P key values h.1)
]

not_either : (b c : Bool) → b ≡ false → c ≡ false → (b || c) ≡ false
not_either b c h k = ground (arith, h, k)

apart_sym : (a j : Text) → (j == a) ≡ false → (a == j) ≡ false
apart_sym a j h = ground (arith, list_beq_iff a j, list_beq_iff j a)

contains-split :
    (j a : Text) (ks : List Text)
    → contains (j ∷ ks) a ≡ false
    → ((j == a) ≡ false) × (contains ks a ≡ false)
contains-split j a ks h = (ground arith, ground arith)

IsNew-one :
    (a : Text) (u : Value) (more : Values)
    → contains (keys more) a ≡ false
    → IsNew (keys more) ((a, u) ∷ [])
IsNew-one a u [] h = tt
IsNew-one a u ((j, v) ∷ more) h =
    let s = contains-split j a (keys more) h in
    (not_either (a == j) false (apart_sym a j s.0) refl, IsNew-one a u more s.1)

IsNew-two :
    (a b : Text) (u w : Value) (more : Values)
    → contains (keys more) a ≡ false
    → contains (keys more) b ≡ false
    → IsNew (keys more) ((a, u) ∷ (b, w) ∷ [])
IsNew-two a b u w [] h k = tt
IsNew-two a b u w ((j, v) ∷ more) h k =
    let s = contains-split j a (keys more) h in
    let t = contains-split j b (keys more) k in
    (
      not_either (a == j) _ (apart_sym a j s.0)
          (not_either (b == j) false (apart_sym b j t.0) refl),
      IsNew-two a b u w more s.1 t.1,
    )

-- the levels are read as they were written
levels_back :
    (level word : Text)
    → lookup level to_yaml_access_level ≡ some word
    → lookup word to_tower_access_level ≡ some level
levels_back level word h = elim (Bool-cases (codes "1" == level)) [
  | inl a ↦
      (let l : codes "1" ≡ level = (list_beq_iff (codes "1") level).0 a in
        let w : codes "user" ≡ word = ground arith in
        ap (λ x. lookup x to_tower_access_level) (sym w) ∙ ap some l)
  | inr a ↦ elim (Bool-cases (codes "2" == level)) [
    | inl b ↦
        (let l : codes "2" ≡ level = (list_beq_iff (codes "2") level).0 b in
          let w : codes "manager" ≡ word = ground arith in
          ap (λ x. lookup x to_tower_access_level) (sym w) ∙ ap some l)
    | inr b ↦ elim (Bool-cases (codes "3" == level)) [
      | inl c ↦
          (let l : codes "3" ≡ level = (list_beq_iff (codes "3") level).0 c in
            let w : codes "root" ≡ word = ground arith in
            ap (λ x. lookup x to_tower_access_level) (sym w) ∙ ap some l)
      | inr c ↦ ground arith
    ]
  ]
]

module _ (m : Model) where
  access_values-level :
      (level word : Text)
      → lookup level to_yaml_access_level ≡ some word
      → access_values m (some (text level)) ≡ ok ((access_key, text word) ∷ [])
  access_values-level [] word h = ground arith
  access_values-level (c ∷ s) word h = ap (exported_level m) h

  export_values-contains :
      (remove_empty : Bool) (key : Text) (values : Values)
      → contains (keys values) key ≡ false
      → without_key key (export_values m remove_empty values) ≡ export_values m remove_empty values
  export_values-contains remove_empty key [] h = refl
  export_values-contains remove_empty key ((k, v) ∷ values) h =
      ground (arith, export_values-contains remove_empty key values)

  -- the dictionary that is exported
  abbrev exported : Bool → Text → Values → Values
  exported no_service_fields word out =
      service_values m no_service_fields ++ (access_key, text word) ∷ out

  export_values-exported :
      (no_service_fields remove_empty : Bool) (word : Text) (rest : Values)
      → export_values m remove_empty (exported no_service_fields word rest)
        ≡ exported no_service_fields word (export_values m remove_empty rest)
  export_values-exported true remove_empty word rest = refl
  export_values-exported false remove_empty word rest = refl

  without_model_key :
      (no_service_fields : Bool) (word : Text) (out : Values)
      → without_key model_key out ≡ out
      → without_key model_key (exported no_service_fields word out) ≡ (access_key, text word) ∷ out
  without_model_key true word out h = ap (λ x. (access_key, text word) ∷ x) h
  without_model_key false word out h = ap (λ x. (access_key, text word) ∷ x) h

  IsNew-exported :
      (no_service_fields : Bool) (word : Text) (rest : Values)
      → contains (keys rest) model_key ≡ false
      → contains (keys rest) access_key ≡ false
      → IsNew (keys rest) (service_values m no_service_fields ++ (access_key, text word) ∷ [])
  IsNew-exported true word rest h k = IsNew-one access_key (text word) rest k
  IsNew-exported false word rest h k =
      IsNew-two model_key access_key (text (model_name m)) (text word) rest h k

  -- A record that is read with distinct keys, an access level and no key for the service data, and
  -- whose related records are found again by their references, is exported and read back without an
  -- error. The fields that the model supports come back with their values, related records as their
  -- ids, and the access level unchanged; empty relational fields are left out or written as empty.
  pub post_process-round_trip :
      (no_service_fields remove_empty : Bool) (values : Values) (level word : Text)
      → IsDistinct (keys values)
      → contains (keys values) model_key ≡ false
      → All (IsRead m) values
      → lookup access_key values ≡ some (text level)
      → lookup level to_yaml_access_level ≡ some word
      → (post_process_record_values m no_service_fields remove_empty values
          >>= post_process_yaml_dict_values m)
        ≡ ok (
            supported m (
              (access_key, text level)
              ∷ written_values m remove_empty
                  (without_key access_key (without_key (codes "id") values))))
  unfolding post_process_record_values post_process_yaml_dict_values
  post_process-round_trip no_service_fields remove_empty values level word d n reads a l =
      let rest = without_key access_key (without_key (codes "id") values) in
      let out = export_values m remove_empty rest in
      let no_model : contains (keys rest) model_key ≡ false =
        without_key-contains access_key model_key (without_key (codes "id") values)
          (without_key-contains (codes "id") model_key values n) in
      let no_access : contains (keys rest) access_key ≡ false =
        without_key-gone access_key (without_key (codes "id") values) in
      let distinct : IsDistinct (keys rest) =
        without_key-IsDistinct access_key (without_key (codes "id") values)
          (without_key-IsDistinct (codes "id") values d) in
      let rest_reads : All (IsRead m) rest =
        without_key-All (IsRead m) access_key (without_key (codes "id") values)
          (without_key-All (IsRead m) (codes "id") values reads) in
      let base = service_values m no_service_fields ++ (access_key, text word) ∷ [] in
      let dict : export_values m remove_empty (put_all rest base)
          ≡ exported no_service_fields word out =
        ap (export_values m remove_empty) (
          put_all-append rest base distinct
            (IsNew-exported no_service_fields word rest no_model no_access)
          ∙ append_one (service_values m no_service_fields) rest (access_key, text word))
        ∙ export_values-exported no_service_fields remove_empty word rest in
      ap
        (λ r.
          (r >>= λ level. ok (
            export_values m remove_empty
              (put_all rest (service_values m no_service_fields ++ level))))
          >>= post_process_yaml_dict_values m)
        (ap (access_values m) a ∙ access_values-level level word l)
      ∙ ap (post_process_yaml_dict_values m) dict
      ∙ ap
          (λ fields. import_level m (lookup access_key fields) fields >>= λ levelled.
            import_values m (supported m levelled))
          (without_model_key no_service_fields word out
            (export_values-contains remove_empty model_key rest no_model))
      ∙ ap
          (λ o. put_level m (text word) o ((access_key, text word) ∷ out) >>= λ levelled.
            import_values m (supported m levelled))
          (levels_back level word l)
      ∙ import_entry m access_key (text level) (text level) out (written_values m remove_empty rest)
          refl (import_values-export_values m remove_empty rest rest_reads)
