-- ===== src/Reference/Generate.antt =====
-- `_generate_or_fix_reference` and `_get_copied_name`. `taken` lists what the searches find: the references of the
-- other records, archived ones included, or the names of all. The characters of the pattern are a
-- parameter, since models override it.
use cetmix_tower.Prelude.{
  ℕ, zero, suc, ◌≡◌, refl, Bool, true, not, ◌&&◌, ◌||◌, Option, none, some, List, [], ◌∷◌, ◌++◌,
  ◌==◌, nat_eq, list_eq, if◌then◌else◌, contains, keep, is_empty, length, leb,
}
use cetmix_tower.Prelude.Text.{Text, codes, lower, replace, strip, whitespace}
use cetmix_tower.Prelude.Decimal.{decimal}

-- The `while` loops: the first candidate from `counter` on that is not taken. `none` means that the fuel
-- ran out.
unfoldable pub first_free : ℕ → (ℕ → Text) → List Text → ℕ → Option Text
first_free zero candidate taken counter = none
first_free (suc fuel) candidate taken counter =
    let next = first_free fuel candidate taken (suc counter) in
    if contains taken (candidate counter) then next else some (candidate counter)

-- every character is in the pattern: `re.fullmatch` of the pattern repeated
abbrev pub all_in : (ℕ → Bool) → Text → Bool
all_in in_pattern [] = true
all_in in_pattern (c ∷ s) = in_pattern c && all_in in_pattern s

abbrev pub matches : (ℕ → Bool) → Text → Bool
matches in_pattern s = not (is_empty s) && all_in in_pattern s

-- `_get_reference_pattern`: `[a-z0-9_]`
abbrev pub in_reference_pattern : ℕ → Bool
in_reference_pattern c = leb b'a' c && leb c b'z' || leb b'0' c && leb c b'9' || c == b'_'

-- `a or b` on texts
abbrev pub or_generic : Text → Text → Text
or_generic [] generic = generic
or_generic (c ∷ s) generic = c ∷ s

unfoldable pub fix_reference : (ℕ → Bool) → Text → Text → Text
unfolding replace strip
fix_reference in_pattern generic reference_source =
    if matches in_pattern reference_source
    then reference_source
    else or_generic
        (keep in_pattern
          (lower (replace (codes " ") (codes "_") (strip whitespace reference_source))))
        generic

-- the first candidate has no suffix
abbrev pub with_counter : Text → ℕ → Text
with_counter reference zero = reference
with_counter reference (suc zero) = reference
with_counter reference (suc (suc n)) = reference ++ b'_' ∷ decimal (suc (suc n))

unfoldable pub generate_or_fix_reference : (ℕ → Bool) → Text → List Text → Text → Option Text
unfolding fix_reference first_free
generate_or_fix_reference in_pattern generic taken reference_source =
    first_free (suc (length taken))
      (with_counter (fix_reference in_pattern generic reference_source)) taken 1

-- "%(name)s (copy)" and "%(name)s (copy %(number)s)"
abbrev pub copy_name : Text → ℕ → Text
copy_name name zero = name ++ codes " (copy)"
copy_name name (suc zero) = name ++ codes " (copy)"
copy_name name (suc (suc n)) = name ++ (codes " (copy " ++ (decimal (suc (suc n)) ++ codes ")"))

unfoldable pub get_copied_name : List Text → Text → Option Text
unfolding first_free
get_copied_name names original_name =
    first_free (suc (length names)) (copy_name original_name) names 1

fixed :
    generate_or_fix_reference in_reference_pattern
      (codes "plan")
      (codes "my_plan" ∷ [])
      (codes " My Plan! ")
    ≡ some (codes "my_plan_2")
unfolding generate_or_fix_reference fix_reference first_free replace strip decimal
fixed = refl
