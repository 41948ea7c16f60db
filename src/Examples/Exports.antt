-- ===== src/Examples/Exports.antt =====
-- A command with an operating system and two tags, exported and read back.
use cetmix_tower.Prelude.{
  ℕ, ◌≡◌, refl, true, false, Option, none, some, ok, ◌>>=◌, [], ◌∷◌, ◌==◌, nat_eq, list_eq,
  if◌then◌else◌, arith,
}
use cetmix_tower.Prelude.Text.{Text, codes}
use cetmix_tower.Yaml.Values.{
  FieldType, many2one, x2many, number, text, record_pair, record_ids, Values, Model, access_key,
  without_key, post_process_record_values, post_process_yaml_dict_values,
}
use cetmix_tower.Yaml.Relations.{written_values, supported}
use cetmix_tower.Yaml.RoundTrip.{post_process-round_trip}

abbrev type_of : Text → Option FieldType
type_of k =
    if k == codes "os_id" then some many2one else if k == codes "tag_ids" then some x2many else none

-- the reference of a record is r and one character for its id
abbrev id_of : Text → Option ℕ
id_of [] = none
id_of (c ∷ []) = none
id_of (c ∷ i ∷ s) = some i

abbrev command : Model
command = record {
  name = codes "cx.tower.command";
  fields_for_yaml = codes "access_level" ∷ codes "name" ∷ codes "os_id" ∷ codes "tag_ids" ∷ [];
  field_type = type_of;
  reference_of = λ key i. b'r' ∷ i ∷ [];
  get_by_reference = λ key r. id_of r;
}

abbrev read_values : Values
read_values =
    (codes "id", number 7)
    ∷ (codes "name", text (codes "Upgrade"))
    ∷ (codes "access_level", text (codes "2"))
    ∷ (codes "os_id", record_pair 3 (codes "Debian"))
    ∷ (codes "tag_ids", record_ids (4 ∷ 5 ∷ []))
    ∷ []

post_process-round_trip_example :
    (post_process_record_values command false true read_values
      >>= post_process_yaml_dict_values command)
    ≡ ok (
        supported command (
          (access_key, text (codes "2"))
          ∷ written_values command true
              (without_key access_key (without_key (codes "id") read_values))))
post_process-round_trip_example =
    post_process-round_trip command false true read_values (codes "2") (codes "manager")
      (refl, (refl, (refl, (refl, (refl, tt))))) refl
      (
        (λ e. ground (arith, e)),
        (
          (λ e. ground (arith, e)),
          ((λ e. ground (arith, e)), ((λ e. (refl, refl)), ((λ e. (refl, (refl, tt))), tt))),
        ),
      )
      refl refl
