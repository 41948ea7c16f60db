-- ===== src/Key/Masking.antt =====
-- About the text behind `_replace_with_spoiler` of cx_tower_key.py.
use cetmix_tower.Prelude.{
  ℕ, zero, suc, ◌-◌, ◌≡◌, ◌∙◌, refl, sym, ap, true, false, List, [], ◌∷◌, ◌++◌, nat_eq, if_true,
  if_false, arith, length, contains, is_empty, All, Bool-cases, inl, inr, some_of,
}
use cetmix_tower.Prelude.Text.{Text, starts_with, occurs, replace, replace_after}
use cetmix_tower.Key.Spoiler.{cleaned, secret_value_placeholder, replace_with_spoiler}

-- The text is not empty and has no star.
abbrev pub IsStarless : Text → Type 0
IsStarless q = (is_empty q ≡ false) × (contains q b'*' ≡ false)

abbrev stars : Text
stars = secret_value_placeholder

occurs-stars : (q s : Text) → IsStarless q → occurs q (stars ++ s) ≡ occurs q s
occurs-stars [] s n = absurd (ground arith)
occurs-stars (p ∷ q) s n = ground arith

later : (q : Text) (c : ℕ) (s : Text) → occurs q s ≡ true → occurs q (c ∷ s) ≡ true
later q c s h = ground arith

either :
    (q : Text) (c : ℕ) (s t u : Text)
    → (starts_with q u ≡ true → starts_with q (c ∷ s) ≡ true)
    → (occurs q t ≡ true → occurs q s ≡ true)
    → occurs q (c ∷ t) ≡ true
    → starts_with q u ≡ starts_with q (c ∷ t)
    → occurs q (c ∷ s) ≡ true
either q c s t u f g h e = elim (Bool-cases (starts_with q (c ∷ t))) [
  | inl here ↦ ground (arith, f (e ∙ here))
  | inr below ↦ ground (arith, g)
]

neither :
    (q : Text) (c : ℕ) (s t : Text)
    → (starts_with q (c ∷ t) ≡ true → starts_with q (c ∷ s) ≡ true)
    → starts_with q (c ∷ s) ≡ false
    → occurs q t ≡ false
    → occurs q (c ∷ t) ≡ false
neither q c s t f e h = elim (Bool-cases (starts_with q (c ∷ t))) [
  | inl here ↦ cc (f here, e)
  | inr below ↦ ground arith
]

module _ (o : ℕ) (old : Text) where
  abbrev masked : ℕ → Text → Text
  masked skip s = replace_after (o ∷ old) stars skip s

  starts_with-masked :
      (q s : Text)
      → contains q b'*' ≡ false
      → starts_with q (masked 0 s) ≡ true
      → starts_with q s ≡ true
  starts_with-masked [] s n h = refl
  starts_with-masked (p ∷ q) [] n h = h
  starts_with-masked (p ∷ q) (c ∷ s) n h = elim (Bool-cases (starts_with (o ∷ old) (c ∷ s))) [
    | inl here ↦ ground arith
    | inr on ↦ ground (arith, starts_with-masked q s)
  ]

  occurs-masked :
      (q s : Text) (skip : ℕ) → IsStarless q → occurs q (masked skip s) ≡ true → occurs q s ≡ true
  occurs-masked q [] zero n h = h
  occurs-masked q [] (suc skip) n h = h
  occurs-masked q (c ∷ s) (suc skip) n h = ground (arith, occurs-masked q s skip n)
  occurs-masked q (c ∷ s) zero n h = elim (Bool-cases (starts_with (o ∷ old) (c ∷ s))) [
    | inl here ↦ later q c s (
        occurs-masked q s (length (o ∷ old) - 1) n (
          sym (occurs-stars q (masked (length (o ∷ old) - 1) s) n)
          ∙ sym (ap (occurs q) (if_true (starts_with (o ∷ old) (c ∷ s)) _ _ here))
          ∙ h))
    | inr on ↦
        either q c s (masked 0 s) _ (starts_with-masked q (c ∷ s) n.1) (occurs-masked q s 0 n)
          (sym (ap (occurs q) (if_false (starts_with (o ∷ old) (c ∷ s)) _ _ on)) ∙ h)
          (ap (starts_with q) (if_false (starts_with (o ∷ old) (c ∷ s)) _ _ on))
  ]

  masked-gone :
      (s : Text) (skip : ℕ) → IsStarless (o ∷ old) → occurs (o ∷ old) (masked skip s) ≡ false
  masked-gone [] zero n = refl
  masked-gone [] (suc skip) n = refl
  masked-gone (c ∷ s) (suc skip) n = masked-gone s skip n
  masked-gone (c ∷ s) zero n = elim (Bool-cases (starts_with (o ∷ old) (c ∷ s))) [
    | inl here ↦
        ap (occurs (o ∷ old)) (if_true (starts_with (o ∷ old) (c ∷ s)) _ _ here)
        ∙ occurs-stars (o ∷ old) (masked (length (o ∷ old) - 1) s) n
        ∙ masked-gone s (length (o ∷ old) - 1) n
    | inr on ↦
        ap (occurs (o ∷ old)) (if_false (starts_with (o ∷ old) (c ∷ s)) _ _ on)
        ∙ neither (o ∷ old) c s (masked 0 s)
            (λ h.
              starts_with-masked (o ∷ old) (c ∷ s) n.1
                (ap (starts_with (o ∷ old)) (if_false (starts_with (o ∷ old) (c ∷ s)) _ _ on) ∙ h))
            on (masked-gone s 0 n)
  ]

-- A text that is replaced is gone.
replace-gone : (old s : Text) → IsStarless old → occurs old (replace old stars s) ≡ false
unfolding replace
replace-gone [] s n = absurd (ground arith)
replace-gone (o ∷ old) s n = masked-gone o old s 0 n

-- A replacement brings no starless text in.
replace-absent :
    (old q s : Text)
    → IsStarless old
    → IsStarless q
    → occurs q s ≡ false
    → occurs q (replace old stars s) ≡ false
unfolding replace
replace-absent [] q s m n h = absurd (ground arith)
replace-absent (o ∷ old) q s m n h = elim (Bool-cases (occurs q (replace (o ∷ old) stars s))) [
  | inl there ↦ cc (occurs-masked o old q s 0 n there, h)
  | inr gone ↦ gone
]

spoiler-absent :
    (key_values : List Text) (q s : Text)
    → All (λ v. IsStarless (cleaned v)) key_values
    → IsStarless q
    → occurs q s ≡ false
    → occurs q (replace_with_spoiler s key_values) ≡ false
unfolding replace_with_spoiler
spoiler-absent [] q s a n h = h
spoiler-absent (v ∷ vs) q s a n h =
    spoiler-absent vs q (replace (cleaned v) stars s) a.1 n (replace-absent (cleaned v) q s a.0 n h)

-- The key values, without the quotes around them and with their line breaks unescaped, are not empty
-- and have no star. Then none of them so cleaned stands in the text behind the spoiler.
pub replace_with_spoiler-hides :
    (key_values : List Text) (code : Text)
    → All (λ v. IsStarless (cleaned v)) key_values
    → All (λ v. occurs (cleaned v) (replace_with_spoiler code key_values) ≡ false) key_values
unfolding replace_with_spoiler
replace_with_spoiler-hides [] code a = tt
replace_with_spoiler-hides (v ∷ vs) code a = (
  spoiler-absent vs (cleaned v) (replace (cleaned v) stars code) a.1 a.0
      (replace-gone (cleaned v) code a.0),
  replace_with_spoiler-hides vs (replace (cleaned v) stars code) a.1,
)

-- What does not stand in a text is not replaced in it.
pub replace-id :
    (o : ℕ) (old s new : Text) → occurs (o ∷ old) s ≡ false → replace_after (o ∷ old) new 0 s ≡ s
replace-id o old [] new h = refl
replace-id o old (c ∷ s) new h = ground (arith, replace-id o old s new)

replace-same : (q s : Text) → IsStarless q → occurs q s ≡ false → replace q stars s ≡ s
unfolding replace
replace-same [] s n h = absurd (ground arith)
replace-same (o ∷ old) s n h = replace-id o old s stars h

-- A text in which none of the cleaned key values stands is not changed.
pub replace_with_spoiler-same :
    (key_values : List Text) (code : Text)
    → All (λ v. IsStarless (cleaned v)) key_values
    → some_of (λ v. occurs (cleaned v) code) key_values ≡ false
    → replace_with_spoiler code key_values ≡ code
unfolding replace_with_spoiler
replace_with_spoiler-same [] code a h = refl
replace_with_spoiler-same (v ∷ vs) code a h =
    ap (λ s. replace_with_spoiler s vs) (replace-same (cleaned v) code a.0 (ground arith))
    ∙ replace_with_spoiler-same vs code a.1 (ground arith)

-- A key value whose cleaned form does not stand in the text is not masked there.
pub uncleaned_value_stays :
    (code key_value : Text) (c : ℕ) (rest : Text)
    → cleaned key_value ≡ c ∷ rest
    → occurs (cleaned key_value) code ≡ false
    → replace_with_spoiler code (key_value ∷ []) ≡ code
unfolding replace_with_spoiler replace
uncleaned_value_stays code key_value c rest e h =
    ap (λ q. replace q stars code) e
    ∙ replace-id c rest code stars (sym (ap (λ q. occurs q code) e) ∙ h)
