-- ===== src/Key/Pieces.antt =====
-- About `_replace_with_spoiler` of cx_tower_key.py: what it leaves of a text, piece by piece.
use cetmix_tower.Prelude.{
  ℕ, zero, suc, ◌≡◌, ◌∙◌, refl, sym, ap, Bool, true, false, List, [], ◌∷◌, ◌++◌, ◌==◌, nat_eq,
  list_eq, arith, length, contains, some_of, map, All, Bool-cases, inl, inr,
}
use cetmix_tower.Prelude.Text.{Text, starts_with, drop, replace, replace_after}
use cetmix_tower.Key.Spoiler.{cleaned, secret_value_placeholder, replace_with_spoiler}
use cetmix_tower.Key.Masking.{IsStarless}

-- A character that is kept, or a text that is hidden behind the placeholder.
pub data Piece : Type 0 where
  kept : ℕ → Piece
  hidden : Text → Piece

abbrev pub original : List Piece → Text
original [] = []
original (kept c ∷ ps) = c ∷ original ps
original (hidden q ∷ ps) = q ++ original ps

abbrev pub visible : List Piece → Text
visible [] = []
visible (kept c ∷ ps) = c ∷ visible ps
visible (hidden q ∷ ps) = secret_value_placeholder ++ visible ps

-- Only cleaned key values are hidden.
abbrev pub IsOf : List Text → Piece → Type 0
IsOf key_values (kept c) = Unit {0}
IsOf key_values (hidden q) = some_of (λ v. cleaned v == q) key_values ≡ true

-- the first `k` pieces are characters that are kept
abbrev keeps : ℕ → List Piece → Bool
keeps zero ps = true
keeps (suc k) [] = false
keeps (suc k) (kept c ∷ ps) = keeps k ps
keeps (suc k) (hidden q ∷ ps) = false

starless-keeps :
    (q : Text) (ps : List Piece)
    → contains q b'*' ≡ false
    → starts_with q (visible ps) ≡ true
    → keeps (length q) ps ≡ true
starless-keeps [] ps n h = refl
starless-keeps (p ∷ q) [] n h = h
starless-keeps (p ∷ q) (kept c ∷ ps) n h = ground (arith, starless-keeps q ps)
starless-keeps (p ∷ q) (hidden r ∷ ps) n h = ground arith

starless-original :
    (q : Text) (ps : List Piece)
    → contains q b'*' ≡ false
    → starts_with q (visible ps) ≡ true
    → q ++ drop (length q) (original ps) ≡ original ps
starless-original [] ps n h = refl
starless-original (p ∷ q) [] n h = ground arith
starless-original (p ∷ q) (kept c ∷ ps) n h = ground (arith, starless-original q ps)
starless-original (p ∷ q) (hidden r ∷ ps) n h = ground arith

module _ (key_values : List Text) (o : ℕ) (old : Text) where
  abbrev masked : ℕ → Text → Text
  masked skip s = replace_after (o ∷ old) secret_value_placeholder skip s

  -- what one replacement makes of the pieces behind the first `skip` ones
  abbrev Replaced : ℕ → List Piece → Type 0
  Replaced skip ps =
      (out : List Piece) × (original out ≡ drop skip (original ps))
      × (visible out ≡ masked skip (visible ps))
      × All (IsOf key_values) out

  hit :
      (c : ℕ) (s : Text)
      → starts_with (o ∷ old) (c ∷ s) ≡ true
      → masked 0 (c ∷ s) ≡ secret_value_placeholder ++ masked (length old) s
  hit c s h = ground arith

  miss :
      (c : ℕ) (s : Text) → starts_with (o ∷ old) (c ∷ s) ≡ false → masked 0 (c ∷ s) ≡ c ∷ masked 0 s
  miss c s h = ground arith

  masked-stars :
      (s : Text)
      → contains (o ∷ old) b'*' ≡ false
      → masked 0 (secret_value_placeholder ++ s) ≡ secret_value_placeholder ++ masked 0 s
  masked-stars s n = ground arith

  replaced :
      (ps : List Piece) (skip : ℕ)
      → contains (o ∷ old) b'*' ≡ false
      → some_of (λ v. cleaned v == o ∷ old) key_values ≡ true
      → All (IsOf key_values) ps
      → keeps skip ps ≡ true
      → Replaced skip ps
  replaced [] zero n k a h = ([], refl, refl, tt)
  replaced [] (suc skip) n k a h = absurd (ground arith)
  replaced (kept c ∷ ps) (suc skip) n k a h = replaced ps skip n k a.1 h
  replaced (hidden r ∷ ps) (suc skip) n k a h = absurd (ground arith)
  replaced (hidden r ∷ ps) zero n k a h =
      let (out, e, m, b) = replaced ps zero n k a.1 refl in
      (
        hidden r ∷ out,
        ap (λ s. r ++ s) e,
        ap (λ s. secret_value_placeholder ++ s) m ∙ sym (masked-stars (visible ps) n),
        (a.0, b),
      )
  replaced (kept c ∷ ps) zero n k a h = elim (Bool-cases (starts_with (o ∷ old) (c ∷ visible ps))) [
    | inl here ↦
        let (out, e, m, b) =
          replaced ps (length old) n k a.1 (starless-keeps (o ∷ old) (kept c ∷ ps) n here) in
        (
          hidden (o ∷ old) ∷ out,
          ap (λ s. o ∷ old ++ s) e ∙ starless-original (o ∷ old) (kept c ∷ ps) n here,
          ap (λ s. secret_value_placeholder ++ s) m ∙ sym (hit c (visible ps) here),
          (k, b),
        )
    | inr on ↦
        let (out, e, m, b) = replaced ps zero n k a.1 refl in
        (kept c ∷ out, ap (λ s. c ∷ s) e, ap (λ s. c ∷ s) m ∙ sym (miss c (visible ps) on), (tt, b))
  ]

-- The shown text is made from pieces of the line: the characters that are kept, and a placeholder for
-- each cleaned key value that is hidden.
abbrev pub IsMasked : List Text → Text → Text → Type 0
IsMasked key_values line out =
    (ps : List Piece) × (original ps ≡ line) × (visible ps ≡ out) × All (IsOf key_values) ps

module _ (key_values : List Text) where
  replaced_whole :
      (q : Text) (ps : List Piece)
      → IsStarless q
      → some_of (λ v. cleaned v == q) key_values ≡ true
      → All (IsOf key_values) ps
      → (out : List Piece) × (original out ≡ original ps)
        × (visible out ≡ replace q secret_value_placeholder (visible ps))
        × All (IsOf key_values) out
  unfolding replace
  replaced_whole [] ps n k a = absurd (ground arith)
  replaced_whole (o ∷ old) ps n k a = replaced key_values o old ps zero n.1 k a refl

  spoiled_pieces :
      (vs : List Text) (ps : List Piece)
      → All (λ v. IsStarless (cleaned v)) vs
      → All (λ v. some_of (λ u. cleaned u == cleaned v) key_values ≡ true) vs
      → All (IsOf key_values) ps
      → (out : List Piece) × (original out ≡ original ps)
        × (visible out ≡ replace_with_spoiler (visible ps) vs)
        × All (IsOf key_values) out
  unfolding replace_with_spoiler
  spoiled_pieces [] ps n k a = (ps, refl, refl, a)
  spoiled_pieces (v ∷ vs) ps n k a =
      let (next, e, m, b) = replaced_whole (cleaned v) ps n.0 k.0 a in
      let (out, f, l, c) = spoiled_pieces vs next n.1 k.1 b in
      (out, f ∙ e, l ∙ ap (λ s. replace_with_spoiler s vs) m, c)

text_eq_self : (q : Text) → (q == q) ≡ true
text_eq_self [] = refl
text_eq_self (c ∷ q) = ground (arith, text_eq_self q)

add_value :
    (u : Text) (us vs : List Text)
    → All (λ v. some_of (λ t. cleaned t == cleaned v) us ≡ true) vs
    → All (λ v. some_of (λ t. cleaned t == cleaned v) (u ∷ us) ≡ true) vs
add_value u us [] h = tt
add_value u us (v ∷ vs) h = (ground (arith, h.0), add_value u us vs h.1)

among_themselves : (vs : List Text) → All (λ v. some_of (λ t. cleaned t == cleaned v) vs ≡ true) vs
among_themselves [] = tt
among_themselves (v ∷ vs) =
    (ground (arith, text_eq_self (cleaned v)), add_value v vs vs (among_themselves vs))

original-kept : (s : Text) → original (map kept s) ≡ s
original-kept [] = refl
original-kept (c ∷ s) = ap (λ t. c ∷ t) (original-kept s)

visible-kept : (s : Text) → visible (map kept s) ≡ s
visible-kept [] = refl
visible-kept (c ∷ s) = ap (λ t. c ∷ t) (visible-kept s)

kept-IsOf : (key_values : List Text) (s : Text) → All (IsOf key_values) (map kept s)
kept-IsOf key_values [] = tt
kept-IsOf key_values (c ∷ s) = (tt, kept-IsOf key_values s)

-- When the cleaned key values are not empty and have no star, the spoiler changes nothing in a text but
-- that it puts the placeholder in place of cleaned key values.
pub replace_with_spoiler-IsMasked :
    (key_values : List Text) (line : Text)
    → All (λ v. IsStarless (cleaned v)) key_values
    → IsMasked key_values line (replace_with_spoiler line key_values)
replace_with_spoiler-IsMasked key_values line n =
    let (out, e, m, a) =
      spoiled_pieces key_values key_values (map kept line) n (among_themselves key_values)
        (kept-IsOf key_values line) in
    (
      out,
      e ∙ original-kept line,
      m ∙ ap (λ s. replace_with_spoiler s key_values) (visible-kept line),
      a,
    )
