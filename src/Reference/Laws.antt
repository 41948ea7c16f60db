-- ===== src/Reference/Laws.antt =====
-- About generated references and copied names.
use cetmix_tower.Prelude.{
  ℕ, zero, suc, ◌+◌, ◌/◌, ◌%◌, ◌<◌, ◌≡◌, ◌∙◌, refl, sym, ap, Bool, true, false, some, List, [], ◌∷◌,
  ◌++◌, nat_eq, list_eq, if_true, if_false, contains, keep, length, length-append, arith,
  Bool-cases, inl, inr,
}
use cetmix_tower.Prelude.Text.{Text, codes, lower, replace, strip, whitespace}
use cetmix_tower.Prelude.Decimal.{digit, digits, decimal, decimal-injective}
use cetmix_tower.Reference.Generate.{
  first_free, all_in, matches, or_generic, fix_reference, with_counter, generate_or_fix_reference,
  copy_name, get_copied_name,
}
use cetmix_tower.Reference.Free.{Injective, first_free-IsFree}

-- what stands behind as many characters as the first text has
abbrev behind : Text → Text → Text
behind [] s = s
behind (c ∷ r) [] = []
behind (c ∷ r) (d ∷ s) = behind r s

behind-append : (r s : Text) → behind r (r ++ s) ≡ s
behind-append [] s = refl
behind-append (c ∷ r) s = behind-append r s

append_cancel : (r s t : Text) → r ++ s ≡ r ++ t → s ≡ t
append_cancel r s t e = sym (behind-append r s) ∙ ap (behind r) e ∙ behind-append r t

abbrev init : Text → Text
init [] = []
init (c ∷ []) = []
init (c ∷ d ∷ s) = c ∷ init (d ∷ s)

init-append : (s : Text) (c : ℕ) → init (s ++ c ∷ []) ≡ s
init-append [] c = refl
init-append (d ∷ []) c = refl
init-append (d ∷ e ∷ s) c = ap (λ t. d ∷ t) (init-append (e ∷ s) c)

abbrev first_char : Text → ℕ
first_char [] = 0
first_char (c ∷ s) = c

with_counter-Injective : (reference : Text) → Injective (with_counter reference)
with_counter-Injective reference zero j p q e = absurd (omega arith)
with_counter-Injective reference (suc i) zero p q e = absurd (omega arith)
with_counter-Injective reference (suc zero) (suc zero) p q e = refl
with_counter-Injective reference (suc zero) (suc (suc j)) p q e =
    absurd (omega (arith, ap length e, length-append reference (b'_' ∷ decimal (suc (suc j)))))
with_counter-Injective reference (suc (suc i)) (suc zero) p q e =
    absurd (omega (arith, ap length e, length-append reference (b'_' ∷ decimal (suc (suc i)))))
with_counter-Injective reference (suc (suc i)) (suc (suc j)) p q e =
    decimal-injective (suc (suc i)) (suc (suc j))
      (ap (behind (b'_' ∷ [])) (append_cancel reference _ _ e))

copy_name-Injective : (name : Text) → Injective (copy_name name)
copy_name-Injective name zero j p q e = absurd (omega arith)
copy_name-Injective name (suc i) zero p q e = absurd (omega arith)
copy_name-Injective name (suc zero) (suc zero) p q e = refl
copy_name-Injective name (suc zero) (suc (suc j)) p q e =
    absurd
      (omega (arith, ap (λ s. first_char (behind (codes " (copy") s)) (append_cancel name _ _ e)))
copy_name-Injective name (suc (suc i)) (suc zero) p q e =
    absurd
      (omega (arith, ap (λ s. first_char (behind (codes " (copy") s)) (append_cancel name _ _ e)))
copy_name-Injective name (suc (suc i)) (suc (suc j)) p q e =
    decimal-injective (suc (suc i)) (suc (suc j)) (
      sym (init-append (decimal (suc (suc i))) b')')
      ∙ ap init (ap (behind (codes " (copy ")) (append_cancel name _ _ e))
      ∙ init-append (decimal (suc (suc j))) b')')

module _ (in_pattern : ℕ → Bool) where
  all_in-append :
      (s t : Text)
      → all_in in_pattern s ≡ true
      → all_in in_pattern t ≡ true
      → all_in in_pattern (s ++ t) ≡ true
  all_in-append [] t h k = k
  all_in-append (c ∷ s) t h k = ground (arith, all_in-append s t)

  all_in-keep : (s : Text) → all_in in_pattern (keep in_pattern s) ≡ true
  all_in-keep [] = refl
  all_in-keep (c ∷ s) = ground (arith, all_in-keep s)

  -- The pattern has the digits and the underscore.
  pub record HasSuffixes : Type 0 where
    pub underscore : in_pattern b'_' ≡ true
    pub each_digit : (d : ℕ) → d < 10 → in_pattern (b'0' + d) ≡ true

  module _ (h : HasSuffixes) where
    digits-all_in :
        (fuel n : ℕ) (out : Text)
        → all_in in_pattern out ≡ true
        → all_in in_pattern (digits fuel n out) ≡ true
    unfolding digits
    digits-all_in zero n out k = k
    digits-all_in (suc fuel) n out k =
        ground (arith, digits-all_in fuel (n / 10) (digit n ∷ out), h.each_digit (n % 10))

    decimal-all_in : (n : ℕ) → all_in in_pattern (decimal n) ≡ true
    unfolding decimal
    decimal-all_in n = digits-all_in (suc n) n [] refl

    fix_reference-matches :
        (generic source : Text)
        → matches in_pattern generic ≡ true
        → matches in_pattern (fix_reference in_pattern generic source) ≡ true
    unfolding fix_reference
    fix_reference-matches generic source g = elim (Bool-cases (matches in_pattern source)) [
      | inl fine ↦ ap (matches in_pattern) (if_true (matches in_pattern source) _ _ fine) ∙ fine
      | inr wrong ↦
          ap (matches in_pattern) (if_false (matches in_pattern source) _ _ wrong)
          ∙ kept
              (keep in_pattern (lower (replace (codes " ") (codes "_") (strip whitespace source))))
              (all_in-keep _)
    ]
      where
        kept :
            (s : Text)
            → all_in in_pattern s ≡ true
            → matches in_pattern (or_generic s generic) ≡ true
        kept [] a = g
        kept (c ∷ s) a = a

    with_counter-matches :
        (reference : Text) (k : ℕ)
        → matches in_pattern reference ≡ true
        → matches in_pattern (with_counter reference k) ≡ true
    with_counter-matches [] k m = cc
    with_counter-matches (c ∷ r) zero m = m
    with_counter-matches (c ∷ r) (suc zero) m = m
    with_counter-matches (c ∷ r) (suc (suc k)) m = ground (
      arith,
      all_in-append r (b'_' ∷ decimal (suc (suc k))),
      decimal-all_in (suc (suc k)),
      h.underscore,
    )

    -- A reference is always generated, with no more tries than there are taken ones: it is free, and it is a
    -- text of the pattern. The model's generic reference is such a text, and the pattern has the
    -- digits and the underscore.
    pub generate_or_fix_reference-free :
        (generic source : Text) (taken : List Text)
        → matches in_pattern generic ≡ true
        → (r : Text) × (generate_or_fix_reference in_pattern generic taken source ≡ some r)
          × (contains taken r ≡ false)
          × (matches in_pattern r ≡ true)
    unfolding generate_or_fix_reference
    generate_or_fix_reference-free generic source taken g =
        let reference = fix_reference in_pattern generic source in
        let (k, p, found, new) =
          first_free-IsFree (suc (length taken)) (with_counter reference) taken 1
            (with_counter-Injective reference) (omega arith) (omega arith) in
        (
          with_counter reference k,
          found,
          new,
          with_counter-matches reference k (fix_reference-matches generic source g),
        )

-- A reference that is a text of the pattern and is free is kept as it is.
pub generate_or_fix_reference-keeps :
    (in_pattern : ℕ → Bool) (generic source : Text) (taken : List Text)
    → matches in_pattern source ≡ true
    → contains taken source ≡ false
    → generate_or_fix_reference in_pattern generic taken source ≡ some source
unfolding generate_or_fix_reference first_free fix_reference
generate_or_fix_reference-keeps in_pattern generic source taken m f =
    let e : fix_reference in_pattern generic source ≡ source =
      if_true (matches in_pattern source) _ _ m in
    ap (λ r. first_free (suc (length taken)) (with_counter r) taken 1) e
    ∙ if_false (contains taken source) _ _ f

-- A copied name is always found, with no more tries than there are names, and no record has it.
pub get_copied_name-free :
    (names : List Text) (name : Text)
    → (c : Text) × (get_copied_name names name ≡ some c) × (contains names c ≡ false)
unfolding get_copied_name
get_copied_name-free names name =
    let (k, p, found, new) =
      first_free-IsFree (suc (length names)) (copy_name name) names 1 (copy_name-Injective name)
        (omega arith) (omega arith) in
    (copy_name name k, found, new)
