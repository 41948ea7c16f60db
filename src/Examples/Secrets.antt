-- ===== src/Examples/Secrets.antt =====
-- Values of secrets for concrete servers and partners, and the properties of secrets applied to them.
use cetmix_tower.Prelude.{ℕ, ◌≡◌, refl, false, Option, none, some, List, [], ◌∷◌, All}
use cetmix_tower.Prelude.Text.{codes, occurs, replace, strip}
use cetmix_tower.Key.Scan.{extract_key_strings, extract_key_parts, compute_reference_code}
use cetmix_tower.Key.Extraction.{IsExtraction, extract_key_strings_total}
use cetmix_tower.Key.RoundTrip.{extract_key_parts-compute_reference_code}
use cetmix_tower.Key.Resolve.{KeyValue, choose_value}
use cetmix_tower.Key.Spoiler.{cleaned, replace_with_spoiler}
use cetmix_tower.Key.Masking.{replace_with_spoiler-hides}
use cetmix_tower.Key.Escapes.{escaped_value_stays}
use cetmix_tower.Key.Isolation.{IsBest, choose_value-IsBest}

abbrev value_for : Option ℕ → Option ℕ → KeyValue
value_for server partner = record {
  server_id = server;
  partner_id = partner;
  secret_value = some (codes "s");
}

abbrev values : List KeyValue
values = value_for none none ∷ value_for none (some 7) ∷ value_for (some 3) none ∷ []

extract_key_strings_total_example :
    IsExtraction
      (codes "a #!cxtower.secret.A!# b")
      (extract_key_strings (codes "a #!cxtower.secret.A!# b"))
extract_key_strings_total_example = extract_key_strings_total (codes "a #!cxtower.secret.A!# b")

choose_value-IsBest_example : IsBest (some 3) (some 7) values (value_for (some 3) none)
unfolding choose_value
choose_value-IsBest_example =
    choose_value-IsBest (some 3) (some 7) values (value_for (some 3) none) refl

extract_key_parts-compute_reference_code_example :
    extract_key_parts (codes "#!cxtower.secret.AB!#") ≡ some (codes "secret", codes "AB")
unfolding compute_reference_code
extract_key_parts-compute_reference_code_example =
    extract_key_parts-compute_reference_code b'A' (codes "B") (codes "#!cxtower.secret.AB!#")
      ((refl, refl, refl), ((refl, refl, refl), tt)) refl

replace_with_spoiler-hides_example :
    All
      (λ v. occurs (cleaned v) (replace_with_spoiler (codes "a pw b") (codes "pw" ∷ [])) ≡ false)
      (codes "pw" ∷ [])
unfolding cleaned strip replace
replace_with_spoiler-hides_example =
    replace_with_spoiler-hides (codes "pw" ∷ []) (codes "a pw b") ((refl, refl), tt)

escaped_value_stays_example :
    replace_with_spoiler (codes "echo C:\\new") (codes "C:\\new" ∷ []) ≡ codes "echo C:\\new"
unfolding strip
escaped_value_stays_example = escaped_value_stays (codes "echo C:\\new") (codes "C:\\new") refl refl
