-- ===== src/Reference/Records.antt =====
-- `create`, `write` of one record and `copy` of the reference mixin. A value that is missing or `None` is the
-- empty text. Inserting and updating rows is the ORM's part: it refuses a reference that another row has
-- (the constraint `reference_unique`).
use cetmix_tower.Prelude.{
  ℕ, suc, Bool, not, Option, none, some, List, [], ◌∷◌, ◌++◌, Result, ok, err, ◌>>=◌, ◌==◌, nat_eq,
  list_eq, if◌then◌else◌, contains, keep, map,
}
use cetmix_tower.Prelude.Text.{Text, strip, whitespace}
use cetmix_tower.Reference.Generate.{generate_or_fix_reference, get_copied_name}

pub data Error : Type 0 where
  unique_violation no_fuel : Error

pub record Vals : Type 0 where
  pub name : Text
  pub reference : Text

pub record Row : Type 0 where
  pub id : ℕ
  pub name : Text
  pub reference : Text

abbrev pub references : List Row → List Text
references rows = map (λ r. r.reference) rows

abbrev pub others : ℕ → List Row → List Row
others i rows = keep (λ r. not (r.id == i)) rows

-- one row after the other, while their references are new
abbrev pub insert_rows : List Vals → ℕ → List Row → Result Error (List Row)
insert_rows [] next rows = ok rows
insert_rows (v ∷ vals) next rows =
    let on =
      insert_rows vals (suc next)
        (rows ++ record { id = next; name = v.name; reference = v.reference } ∷ []) in
    if contains (references rows) v.reference then err unique_violation else on

abbrev pub required : Option Text → Result Error Text
required none = err no_fuel
required (some s) = ok s

module _ (in_pattern : ℕ → Bool) (generic : Text) where
  abbrev pub with_source : List Text → Text → Text → Result Error Vals
  with_source taken name source = do
    reference ← required (generate_or_fix_reference in_pattern generic taken source)
    ok (record { name = name; reference = reference })

  -- nothing can be done without a name and a reference
  abbrev pub fix_stripped : List Text → Vals → Text → Text → Result Error Vals
  fix_stripped taken vals [] [] = ok vals
  fix_stripped taken vals (c ∷ name) [] = with_source taken (c ∷ name) (c ∷ name)
  fix_stripped taken vals name (c ∷ reference) = with_source taken name (c ∷ reference)

  unfoldable pub fix_vals : List Text → Vals → Result Error Vals
  unfolding strip generate_or_fix_reference
  fix_vals taken vals =
      fix_stripped taken vals (strip whitespace vals.name) (strip whitespace vals.reference)

  unfoldable pub fix_all : List Text → List Vals → Result Error (List Vals)
  unfolding fix_vals
  fix_all taken [] = ok []
  fix_all taken (v ∷ vals) = do
    fixed ← fix_vals taken v
    rest ← fix_all taken vals
    ok (fixed ∷ rest)

  -- `create`: all references are generated before the first record is there. `self` are the records that
  -- it is called on, which the search leaves out.
  unfoldable pub create : List Text → List Vals → ℕ → List Row → Result Error (List Row)
  unfolding fix_all
  create taken vals next rows = do fixed ← fix_all taken vals; insert_rows fixed next rows

  -- the source of the reference in `write`
  abbrev pub write_source : Text → Text → Text → Text
  write_source [] [] record_name = record_name
  write_source [] (c ∷ updated_name) record_name = c ∷ updated_name
  write_source (c ∷ reference) updated_name record_name = c ∷ reference

  abbrev pub update_row : ℕ → Text → List Row → List Row
  update_row i reference [] = []
  update_row i reference (r ∷ rows) =
      (if r.id == i then record r { reference = reference } else r) ∷ update_row i reference rows

  -- `write` of one record whose values hold a reference, as far as the reference goes
  unfoldable pub write_reference : Row → Text → Text → List Row → Result Error (List Row)
  unfolding generate_or_fix_reference
  write_reference r reference updated_name rows = do
    let taken = references (others r.id rows)
    new ← required (
        generate_or_fix_reference in_pattern generic taken
          (write_source reference updated_name r.name))
    if contains taken new then err unique_violation else ok (update_row r.id new rows)

  -- `copy`: the record itself is left out of the search for its copy's reference, here and in `create`
  unfoldable pub copy : Row → ℕ → List Row → Result Error (List Row)
  unfolding create get_copied_name generate_or_fix_reference
  copy r next rows = do
    let taken = references (others r.id rows)
    name ← required (get_copied_name (map (λ q. q.name) rows) r.name)
    reference ← required (generate_or_fix_reference in_pattern generic taken name)
    create taken (record { name = name; reference = reference } ∷ []) next rows
