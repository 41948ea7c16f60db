-- ===== src/Key/Resolve.antt =====
-- The value of a secret: `_resolve_key_type_secret`, `_resolve_key`, `_parse_key_string` and
-- `_parse_code_and_return_key_values` of cx_tower_key.py. The keys and their values are the rows that the
-- searches return; a value is what `_get_secret_value` reads for it.
use cetmix_tower.Prelude.{
  ℕ, ◌+◌, Bool, true, false, ◌&&◌, Option, none, some, List, [], ◌∷◌, ◌++◌, ◌==◌, nat_eq, list_eq,
  if◌then◌else◌, length, leb, contains, find_first, is_empty,
}
use cetmix_tower.Prelude.Text.{Text, codes, replace}
use cetmix_tower.Key.Scan.{key_prefix, key_terminator, extract_key_strings, extract_key_parts}

pub record KeyValue : Type 0 where
  pub server_id : Option ℕ
  pub partner_id : Option ℕ
  pub secret_value : Option Text

pub record Key : Type 0 where
  pub reference : Text
  pub value_ids : List KeyValue

abbrev pub is_id : ℕ → Option ℕ → Bool
is_id k none = false
is_id k (some j) = j == k

abbrev pub is_unset : Option ℕ → Bool
is_unset none = true
is_unset (some j) = false

-- the four filters, in the order in which they are tried
abbrev pub for_both : Option ℕ → Option ℕ → List KeyValue → Option KeyValue
for_both (some server) (some partner) values =
    find_first (λ v. is_id server v.server_id && is_id partner v.partner_id) values
for_both _ _ values = none

abbrev pub for_server : Option ℕ → List KeyValue → Option KeyValue
for_server (some server) values =
    find_first (λ v. is_id server v.server_id && is_unset v.partner_id) values
for_server none values = none

abbrev pub for_partner : Option ℕ → List KeyValue → Option KeyValue
for_partner (some partner) values =
    find_first (λ v. is_id partner v.partner_id && is_unset v.server_id) values
for_partner none values = none

abbrev pub for_all : List KeyValue → Option KeyValue
for_all values = find_first (λ v. is_unset v.partner_id && is_unset v.server_id) values

-- `if not key_value`
abbrev pub or_else {ℓ} : {A : Type ℓ} → Option A → Option A → Option A
or_else none b = b
or_else (some a) b = some a

unfoldable pub choose_value : Option ℕ → Option ℕ → List KeyValue → Option KeyValue
choose_value server partner values =
    or_else
      (or_else (or_else (for_both server partner values) (for_server server values))
        (for_partner partner values))
      (for_all values)

abbrev pub value_of : Option KeyValue → Option Text
value_of none = none
value_of (some v) = v.secret_value

abbrev pub key_values_of : Option Key → List KeyValue
key_values_of none = []
key_values_of (some key) = key.value_ids

unfoldable pub resolve_key_type_secret : List Key → Option ℕ → Option ℕ → Text → Option Text
unfolding choose_value
resolve_key_type_secret keys server partner reference =
    if is_empty reference
    then none
    else value_of (
        choose_value server partner
          (key_values_of (find_first (λ (k : Key). k.reference == reference) keys)))

unfoldable pub resolve_key : List Key → Option ℕ → Option ℕ → Text × Text → Option Text
unfolding resolve_key_type_secret
resolve_key keys server partner (key_type, reference) =
    if key_type == codes "secret"
    then resolve_key_type_secret keys server partner reference
    else none

abbrev pub resolve_parts : List Key → Option ℕ → Option ℕ → Option (Text × Text) → Option Text
resolve_parts keys server partner none = none
resolve_parts keys server partner (some parts) = resolve_key keys server partner parts

unfoldable pub parse_key_string : List Key → Option ℕ → Option ℕ → Text → Option Text
unfolding extract_key_parts resolve_key
parse_key_string keys server partner key_string =
    resolve_parts keys server partner (extract_key_parts key_string)

-- a value in pythonic mode: quoted, its line breaks escaped
abbrev pub pythonic : Bool → Text → Text
pythonic false value = value
pythonic true value = replace (codes "\n") (codes "\\n") (codes "\"" ++ value ++ codes "\"")

abbrev pub save_once : Text → List Text → List Text
save_once value values = if contains values value then values else values ++ value ∷ []

-- one key string of the loop: a value that is missing or empty changes nothing
abbrev pub put_value : Bool → Text → Option Text → Text × List Text → Text × List Text
put_value mode key_string none (code, values) = (code, values)
put_value mode key_string (some []) (code, values) = (code, values)
put_value mode key_string (some (c ∷ value)) (code, values) =
    let shown = pythonic mode (c ∷ value) in (replace key_string shown code, save_once shown values)

module _ (keys : List Key) (server partner : Option ℕ) (mode : Bool) where
  unfoldable pub put_values : List Text → Text × List Text → Text × List Text
  unfolding parse_key_string
  put_values [] state = state
  put_values (k ∷ ks) state =
      put_values ks (put_value mode k (parse_key_string keys server partner k) state)

  abbrev pub with_strings : Text → Option (List Text) → Option (Text × Option (List Text))
  with_strings code none = none
  with_strings code (some key_strings) =
      let (out, values) = put_values key_strings (code, []) in some (out, some values)

  -- the code and the key values; the outer `none` is a scan that ran out of fuel
  unfoldable pub parse_code_and_return_key_values : Text → Option (Text × Option (List Text))
  unfolding put_values extract_key_strings
  parse_code_and_return_key_values code =
      if leb (length code) (length key_prefix + 3 + length key_terminator)
      then some (code, none)
      else with_strings code (extract_key_strings code)
