-- ===== src/Key/Scan.antt =====
-- Key placeholders in a code: `_extract_key_strings`, `_extract_key_parts` and `_compute_reference_code` of
-- cx_tower_key.py.
use cetmix_tower.Prelude.{
  ℕ, zero, suc, ◌+◌, ◌≡◌, refl, Option, none, some, List, [], ◌∷◌, ◌++◌, ◌==◌, nat_eq, list_eq,
  if◌then◌else◌, contains, ltb, length,
}
use cetmix_tower.Prelude.Text.{Text, codes, find, slice, replace, split}

abbrev pub key_prefix : Text
key_prefix = codes "#!cxtower"

abbrev pub key_terminator : Text
key_terminator = codes "!#"

abbrev pub add_once : Text → List Text → List Text
add_once key_string key_strings =
    if contains key_strings key_string then key_strings else key_strings ++ key_string ∷ []

-- One round of the loop, by what the two searches find; `again` is the next round.
abbrev pub at_terminator :
    (ℕ → List Text → Option (List Text)) → Text → ℕ → Option ℕ → List Text → Option (List Text)
at_terminator again code i none key_strings = again (i + length key_prefix) key_strings
at_terminator again code i (some j) key_strings =
    let extract_to = j + length key_terminator in
    let on = again extract_to (add_once (slice code i extract_to) key_strings) in
    let past = again (i + length key_prefix) key_strings in if ltb 0 j then on else past

abbrev pub at_prefix :
    (ℕ → List Text → Option (List Text)) → Text → Option ℕ → List Text → Option (List Text)
at_prefix again code none key_strings = some key_strings
at_prefix again code (some i) key_strings =
    at_terminator again code i (find key_terminator code i) key_strings

-- The loop of `_extract_key_strings`; `none` means that the fuel ran out.
unfoldable pub extract_from : ℕ → Text → ℕ → List Text → Option (List Text)
unfolding find
extract_from zero code index_from key_strings = none
extract_from (suc fuel) code index_from key_strings =
    at_prefix (extract_from fuel code) code (find key_prefix code index_from) key_strings

unfoldable pub extract_key_strings : Text → Option (List Text)
unfolding extract_from
extract_key_strings code = extract_from (length code + 1) code 0 []

-- exactly three parts, the first of them the prefix
abbrev pub three_parts : List Text → Option (Text × Text)
three_parts (prefix ∷ key_type ∷ reference ∷ []) =
    if prefix == key_prefix then some (key_type, reference) else none
three_parts _ = none

unfoldable pub extract_key_parts : Text → Option (Text × Text)
unfolding replace split
extract_key_parts key_string =
    three_parts (split b'.' (replace key_terminator [] (replace (codes " ") [] key_string)))

pub data KeyType : Type 0 where
  ssh_key secret : KeyType

-- `_compose_key_prefix`
unfoldable pub compose_key_prefix : KeyType → Option Text
compose_key_prefix ssh_key = none
compose_key_prefix secret = some (codes "secret")

abbrev pub code_with_prefix : Option Text → Text → Option Text
code_with_prefix none reference = none
code_with_prefix (some prefix) reference =
    some (codes "#!cxtower." ++ prefix ++ codes "." ++ reference ++ codes "!#")

-- `_compute_reference_code`
unfoldable pub compute_reference_code : KeyType → Text → Option Text
unfolding compose_key_prefix
compute_reference_code key_type [] = none
compute_reference_code key_type (c ∷ reference) =
    code_with_prefix (compose_key_prefix key_type) (c ∷ reference)

scan_two :
    extract_key_strings (codes "a #!cxtower.secret.A!# b #!cxtower x #!cxtower.secret.A!#")
    ≡ some (codes "#!cxtower.secret.A!#" ∷ codes "#!cxtower x #!cxtower.secret.A!#" ∷ [])
unfolding extract_key_strings
scan_two = refl

parts_one : extract_key_parts (codes "#!cxtower . secret.AB!#") ≡ some (codes "secret", codes "AB")
unfolding extract_key_parts
parts_one = refl
