-- ===== src/Key/Spoiler.antt =====
-- `_replace_with_spoiler` and `_parse_code` of cx_tower_key.py.
use cetmix_tower.Prelude.{ℕ, Option, none, some, List, [], ◌∷◌, Bool}
use cetmix_tower.Prelude.Text.{Text, codes, replace, strip}
use cetmix_tower.Key.Resolve.{Key, parse_code_and_return_key_values}

abbrev pub secret_value_placeholder : Text
secret_value_placeholder = codes "*****"

-- the text that is looked for: no quotes around it, line breaks no longer escaped
unfoldable pub cleaned : Text → Text
unfolding strip replace
cleaned key_value = replace (codes "\\n") (codes "\n") (strip (codes "\"") key_value)

unfoldable pub replace_with_spoiler : Text → List Text → Text
unfolding cleaned replace
replace_with_spoiler code [] = code
replace_with_spoiler code (key_value ∷ key_values) =
    replace_with_spoiler (replace (cleaned key_value) secret_value_placeholder code) key_values

abbrev pub code_of : Text → Option (Text × Option (List Text)) → Text
code_of code none = code
code_of code (some (parsed, values)) = parsed

-- `_parse_code`
unfoldable pub parse_code : List Key → Option ℕ → Option ℕ → Bool → Text → Text
unfolding parse_code_and_return_key_values
parse_code keys server partner mode code =
    code_of code (parse_code_and_return_key_values keys server partner mode code)
