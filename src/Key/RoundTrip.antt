-- ===== src/Key/RoundTrip.antt =====
-- A key's inline reference, parsed again: `_extract_key_parts` after `_compute_reference_code`.
use cetmix_tower.Prelude.{
  ℕ, ◌≡◌, ◌∙◌, refl, sym, ap, false, some, [], ◌∷◌, ◌++◌, ◌==◌, nat_eq, list_eq, arith, All,
}
use cetmix_tower.Prelude.Text.{Text, codes, replace, replace_after, split}
use cetmix_tower.Key.Scan.{
  key_prefix, key_terminator, secret, extract_key_parts, compute_reference_code, three_parts,
}
use mathlib.Core.Option.{some-injective}
use mathlib.Core.List.{append-nil}

-- The characters of `_get_reference_pattern` of a key that matter here: no space, no `!`, no dot.
abbrev pub IsPlain : Text → Type 0
IsPlain = All (λ c. ((c == b' ') ≡ false) × ((c == b'!') ≡ false) × ((c == b'.') ≡ false))

drop_spaces :
    (s t : Text)
    → IsPlain s
    → replace_after (codes " ") [] 0 (s ++ t) ≡ s ++ replace_after (codes " ") [] 0 t
drop_spaces [] t h = refl
drop_spaces (c ∷ s) t h = ground (arith, drop_spaces s t h.1)

drop_terminator :
    (s t : Text)
    → IsPlain s
    → replace_after (codes "!#") [] 0 (s ++ t) ≡ s ++ replace_after (codes "!#") [] 0 t
drop_terminator [] t h = refl
drop_terminator (c ∷ s) t h = ground (arith, drop_terminator s t h.1)

split_plain : (s : Text) → IsPlain s → split b'.' s ≡ s ∷ []
unfolding split
split_plain [] h = refl
split_plain (c ∷ s) h = ground (arith, split_plain s h.1)

abbrev start : Text
start = codes "#!cxtower.secret."

parts :
    (s : Text) → IsPlain s → extract_key_parts (start ++ s ++ codes "!#") ≡ some (codes "secret", s)
unfolding extract_key_parts
parts s h =
    ap (λ x. three_parts (split b'.' (replace key_terminator [] (start ++ x))))
      (drop_spaces s (codes "!#") h)
    ∙ ap (λ x. three_parts (split b'.' (start ++ x)))
        (drop_terminator s (codes "!#") h ∙ append-nil s)
    ∙ ap (λ ws. three_parts (key_prefix ∷ codes "secret" ∷ ws)) (split_plain s h)

-- The inline reference of a secret parses back to the type `secret` and to the reference, if the
-- reference is not empty and has no space, exclamation mark or dot.
pub extract_key_parts-compute_reference_code :
    (c : ℕ) (s code : Text)
    → IsPlain (c ∷ s)
    → compute_reference_code secret (c ∷ s) ≡ some code
    → extract_key_parts code ≡ some (codes "secret", c ∷ s)
unfolding extract_key_parts compute_reference_code
extract_key_parts-compute_reference_code c s code h e =
    ap extract_key_parts (sym (some-injective _ _ e)) ∙ parts (c ∷ s) h
