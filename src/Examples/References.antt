-- ===== src/Examples/References.antt =====
-- References over the letters, the digits and the underscore, and the properties of references applied to them.
use cetmix_tower.Prelude.{
  ◌≡◌, refl, true, false, some, err, List, [], ◌∷◌, nat_eq, list_eq, contains, arith,
}
use cetmix_tower.Prelude.Text.{Text, codes, strip}
use cetmix_tower.Reference.Generate.{in_reference_pattern, matches, generate_or_fix_reference}
use cetmix_tower.Reference.Laws.{HasSuffixes, generate_or_fix_reference-free}
use cetmix_tower.Reference.Records.{unique_violation, Vals, Row, references, create}
use cetmix_tower.Reference.Batch.{same_source_refused}

pub suffixes : HasSuffixes in_reference_pattern
suffixes = record { underscore = refl; each_digit = λ d l. ground (arith, l) }

abbrev taken : List Text
taken = codes "my_plan" ∷ codes "my_plan_2" ∷ []

generate_or_fix_reference-free_example :
    (r : Text) × (generate_or_fix_reference in_reference_pattern
        (codes "plan")
        taken
        (codes "My Plan")
      ≡ some r)
    × (contains taken r ≡ false)
    × (matches in_reference_pattern r ≡ true)
generate_or_fix_reference-free_example =
    generate_or_fix_reference-free in_reference_pattern suffixes (codes "plan") (codes "My Plan")
      taken refl

abbrev rows : List Row
rows = record { id = 1; name = codes "My Plan"; reference = codes "my_plan" } ∷ []

abbrev named : Text → Vals
named name = record { name = name; reference = [] }

same_source_refused_example :
    create in_reference_pattern
      (codes "plan")
      (references rows)
      (named (codes "Deploy") ∷ named (codes " Deploy") ∷ [])
      2
      rows
    ≡ err unique_violation
unfolding strip
same_source_refused_example =
    same_source_refused in_reference_pattern (codes "plan") suffixes (named (codes "Deploy"))
      (named (codes " Deploy")) b'D' (codes "eploy") 2 rows refl refl refl
