-- ===== src/Yaml/Values.antt =====
-- `_post_process_record_values` and `_post_process_yaml_dict_values`, where related records stand as references:
-- without `explode_related_record` and a collector on the way out, and without dictionaries on the way in.
use cetmix_tower.Prelude.{
  ℕ, Bool, true, false, not, ◌&&◌, ◌||◌, Option, none, some, List, [], ◌∷◌, ◌++◌, Result, ok, err,
  ◌>>=◌, ◌==◌, nat_eq, list_eq, if◌then◌else◌, contains, keep, is_empty, map, lookup, insert,
}
use cetmix_tower.Prelude.Text.{Text, codes, replace}

-- the class of a relational field; the comodel is looked up by the field
pub data FieldType : Type 0 where
  many2one x2many : FieldType

-- an entry of a YAML list
pub data Item : Type 0 where
  reference : Text → Item
  other : Item

pub data Value : Type 0 where
  -- False or None
  nothing : Value
  number : ℕ → Value
  text : Text → Value
  -- what `read` returns of relational fields
  record_pair : ℕ → Text → Value
  record_ids : List ℕ → Value
  items : List Item → Value
  -- what `write` takes for them
  record_id : ℕ → Value
  link_commands : List ℕ → Value

abbrev pub Values : Type 0
Values = List (Text × Value)

pub data Error : Type 0 where
  key_error : Error
  wrong_access_level : Value → Error
  unbound_reference : Error
  type_error : Error

-- a model, with its fields and the records of the comodels
pub record Model : Type 0 where
  pub name : Text
  pub fields_for_yaml : List Text
  pub field_type : Text → Option FieldType
  pub reference_of : Text → ℕ → Text
  pub get_by_reference : Text → Text → Option ℕ

abbrev pub to_yaml_access_level : List (Text × Text)
to_yaml_access_level =
    (codes "1", codes "user") ∷ (codes "2", codes "manager") ∷ (codes "3", codes "root") ∷ []

abbrev pub to_tower_access_level : List (Text × Text)
to_tower_access_level =
    (codes "user", codes "1") ∷ (codes "manager", codes "2") ∷ (codes "root", codes "3") ∷ []

abbrev pub access_key : Text
access_key = codes "access_level"

abbrev pub model_key : Text
model_key = codes "cetmix_tower_model"

abbrev pub ends_with : Text → Text → Bool
ends_with p [] = p == []
ends_with p (c ∷ s) = p == c ∷ s || ends_with p s

-- `key.endswith("_id") or key.endswith("_ids")`
abbrev pub is_relation : Text → Bool
is_relation key = ends_with (codes "_id") key || ends_with (codes "_ids") key

-- `values.pop(key, None)` leaves the other keys
abbrev pub without_key : Text → Values → Values
without_key key values = keep (λ (k, v). not (k == key)) values

abbrev pub put_all : Values → Values → Values
put_all [] values = values
put_all ((k, v) ∷ more) values = put_all more (insert k v values)

abbrev pub is_true : Value → Bool
is_true nothing = false
is_true (number n) = not (n == 0)
is_true (text s) = not (is_empty s)
is_true (record_pair i n) = true
is_true (record_ids ids) = not (is_empty ids)
is_true (items xs) = not (is_empty xs)
is_true (record_id i) = true
is_true (link_commands ids) = not (is_empty ids)

module _ (m : Model) where
  -- `_process_m2o_value` and `_process_x2m_values`, record to YAML
  abbrev pub export_typed : Text → Option FieldType → Value → Value
  export_typed key (some many2one) (record_pair i n) = text (m.reference_of key i)
  export_typed key (some x2many) (record_ids ids) =
      items (map (λ i. reference (m.reference_of key i)) ids)
  export_typed key type v = nothing

  abbrev pub export_value : Text → Value → Value
  export_value key v = if is_true v then export_typed key (m.field_type key) v else nothing

  abbrev pub export_values : Bool → Values → Values
  export_values remove_empty [] = []
  export_values remove_empty ((k, v) ∷ values) =
      let rest = export_values remove_empty values in
      if is_relation k
      then if not (is_true v) && remove_empty then rest else (k, export_value k v) ∷ rest
      else (k, v) ∷ rest

  abbrev pub model_name : Text
  model_name = replace (codes ".") (codes "_") (replace (codes "cx.tower.") [] m.name)

  abbrev pub service_values : Bool → Values
  service_values no_service_fields =
      if no_service_fields then [] else (model_key, text model_name) ∷ []

  abbrev pub exported_level : Option Text → Result Error Values
  exported_level none = err key_error
  exported_level (some level) = ok ((access_key, text level) ∷ [])

  -- `TO_YAML_ACCESS_LEVEL[access_level]`, if there is a level
  abbrev pub access_values : Option Value → Result Error Values
  access_values none = ok []
  access_values (some nothing) = ok []
  access_values (some (text [])) = ok []
  access_values (some (text (c ∷ s))) = exported_level (lookup (c ∷ s) to_yaml_access_level)
  access_values (some v) = err key_error

  -- `_post_process_record_values`
  unfoldable pub post_process_record_values : Bool → Bool → Values → Result Error Values
  post_process_record_values no_service_fields remove_empty values = do
    level ← access_values (lookup access_key values)
    ok (
        export_values remove_empty (
          put_all (without_key access_key (without_key (codes "id") values))
            (service_values no_service_fields ++ level)))

  abbrev pub found_record : Option ℕ → Value
  found_record none = nothing
  found_record (some i) = record_id i

  abbrev pub add_link : Option ℕ → List ℕ → List ℕ
  add_link none ids = ids
  add_link (some i) ids = i ∷ ids

  -- `comodel.get_by_reference(reference)`, if the reference is not empty
  abbrev pub by_reference : Text → Text → Option ℕ
  by_reference key [] = none
  by_reference key (c ∷ r) = m.get_by_reference key (c ∷ r)

  -- the variable `reference` of an entry, or that which an earlier entry has left
  abbrev pub item_reference : Item → Option Text → Result Error Text
  item_reference (reference r) earlier = ok r
  item_reference other none = err unbound_reference
  item_reference other (some r) = ok r

  -- `_process_x2m_values`, YAML to record
  abbrev pub import_items : Text → Option Text → List Item → Result Error (List ℕ)
  import_items key earlier [] = ok []
  import_items key earlier (x ∷ xs) = item_reference x earlier >>= λ r.
      import_items key (some r) xs >>= λ ids. ok (add_link (by_reference key r) ids)

  -- `_process_m2o_value`, YAML to record; the loop over a text takes its characters
  abbrev pub import_typed : Text → Option FieldType → Value → Result Error Value
  import_typed key (some many2one) (text r) = ok (found_record (by_reference key r))
  import_typed key (some x2many) (items xs) =
      import_items key none xs >>= λ ids. ok (link_commands ids)
  import_typed key (some x2many) (text s) =
      import_items key none (map (λ c. reference (c ∷ [])) s) >>= λ ids. ok (link_commands ids)
  import_typed key (some x2many) (number n) = err type_error
  import_typed key type v = ok nothing

  abbrev pub import_value : Text → Value → Result Error Value
  import_value key v = if is_true v then import_typed key (m.field_type key) v else ok nothing

  abbrev pub import_values : Values → Result Error Values
  import_values [] = ok []
  import_values ((k, v) ∷ values) = (if is_relation k then import_value k v else ok v) >>= λ w.
      import_values values >>= λ rest. ok ((k, w) ∷ rest)

  abbrev pub level_of : Value → Option Text
  level_of (text s) = lookup s to_tower_access_level
  level_of v = none

  abbrev pub put_level : Value → Option Text → Values → Result Error Values
  put_level v none values = err (wrong_access_level v)
  put_level v (some level) values = ok (insert access_key (text level) values)

  abbrev pub import_level : Option Value → Values → Result Error Values
  import_level none values = ok values
  import_level (some v) values = put_level v (level_of v) values

  -- `_post_process_yaml_dict_values`
  unfoldable pub post_process_yaml_dict_values : Values → Result Error Values
  post_process_yaml_dict_values values = do
    let fields = without_key model_key values
    levelled ← import_level (lookup access_key fields) fields
    import_values (keep (λ (k, v). contains m.fields_for_yaml k) levelled)
