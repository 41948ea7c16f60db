-- ===== src/Key/Extraction.antt =====
-- About `_extract_key_strings` of cx_tower_key.py.
use cetmix_tower.Prelude.{
  ℕ, zero, suc, ◌+◌, ◌-◌, ◌<◌, ◌≤◌, ◌≡◌, ◌∙◌, refl, sym, ap, subst, Bool, true, false, not, ◌&&◌,
  ◌||◌, Option, none, some, List, [], ◌∷◌, ◌++◌, ◌==◌, nat_eq, list_eq, list_beq_iff, if_true,
  if_false, arith, contains, ltb, length, All, Bool-cases, inl, inr,
}
use cetmix_tower.Prelude.Text.{Text, find, slice, starts_with, occurs, drop, take}
use cetmix_tower.Prelude.TextLaws.{
  starts_with-take, take-starts_with, starts_with-occurs, occurs-drop, length-drop, length-take,
  drop-take, drop-drop, find-FoundAt,
}
use cetmix_tower.Key.Scan.{
  key_prefix, key_terminator, add_once, extract_from, extract_key_strings, at_terminator, at_prefix,
}

-- A placeholder of the code: it begins with the prefix, ends with the terminator, and stands in the code.
pub record IsKeyString (code k : Text) : Type 0 where
  pub begins : starts_with key_prefix k ≡ true
  pub ends : drop (length k - 2) k ≡ key_terminator
  pub stands : occurs k code ≡ true

-- No string is listed twice.
abbrev pub Unique : List Text → Type 0
Unique [] = Unit
Unique (k ∷ ks) = (contains ks k ≡ false) × Unique ks

-- No terminator begins inside the text, nor at its last character.
abbrev clear : Text → Bool
clear [] = true
clear (x ∷ []) = not (x == b'!')
clear (x ∷ y ∷ p) = not (x == b'!' && y == b'#') && clear (y ∷ p)

terminator_behind :
    (p s : Text) (n : ℕ)
    → clear p ≡ true
    → starts_with p s ≡ true
    → starts_with key_terminator (drop n s) ≡ true
    → length p ≤ n
terminator_behind [] s n c h t = omega arith
terminator_behind (x ∷ p) [] n c h t = cc
terminator_behind (x ∷ []) (a ∷ s) zero c h t = ground arith
terminator_behind (x ∷ []) (a ∷ s) (suc n) c h t = omega arith
terminator_behind (x ∷ y ∷ p) (a ∷ []) n c h t = ground arith
terminator_behind (x ∷ y ∷ p) (a ∷ b ∷ s) zero c h t = ground arith
terminator_behind (x ∷ y ∷ p) (a ∷ b ∷ s) (suc n) c h t =
    ground (arith, terminator_behind (y ∷ p) (b ∷ s) n)

two_chars : (s : Text) → starts_with key_terminator s ≡ true → take 2 s ≡ key_terminator
two_chars [] h = cc
two_chars (a ∷ []) h = ground arith
two_chars (a ∷ b ∷ s) h = ground arith

slice-IsKeyString :
    (code : Text) (i n : ℕ)
    → starts_with key_prefix (drop i code) ≡ true
    → n + 2 ≤ length (drop i code)
    → starts_with key_terminator (drop n (drop i code)) ≡ true
    → IsKeyString code (take (n + 2) (drop i code))
slice-IsKeyString code i n p f t = record {
  begins =
      starts_with-take key_prefix (drop i code) (n + 2) p
        (omega (arith, terminator_behind key_prefix (drop i code) n refl p t));
  ends =
      ap (λ m. drop m (take (n + 2) (drop i code)))
        (omega (arith, length-take (n + 2) (drop i code) f))
      ∙ drop-take n 2 (drop i code)
      ∙ two_chars (drop n (drop i code)) t;
  stands = occurs-drop (take (n + 2) (drop i code)) i code (
      starts_with-occurs (take (n + 2) (drop i code)) (drop i code)
        (take-starts_with (n + 2) (drop i code)));
}

contains-append :
    (ks : List Text) (k j : Text) → contains (ks ++ k ∷ []) j ≡ (contains ks j || (k == j))
contains-append [] k j = ground arith
contains-append (x ∷ ks) k j = ground (arith, contains-append ks k j)

append-Unique :
    (ks : List Text) (k : Text) → contains ks k ≡ false → Unique ks → Unique (ks ++ k ∷ [])
append-Unique [] k h u = (refl, tt)
append-Unique (x ∷ ks) k h u = (
  ground (arith, contains-append ks k x, list_beq_iff k x, list_beq_iff x k),
  append-Unique ks k (ground arith) u.1,
)

append-All : (P : Text → Type 0) (ks : List Text) (k : Text) → All P ks → P k → All P (ks ++ k ∷ [])
append-All P [] k a h = (h, tt)
append-All P (x ∷ ks) k a h = (a.0, append-All P ks k a.1 h)

add_once-Unique : (k : Text) (ks : List Text) → Unique ks → Unique (add_once k ks)
add_once-Unique k ks u = elim (Bool-cases (contains ks k)) [
  | inl old ↦ subst Unique (sym (if_true (contains ks k) _ _ old)) u
  | inr new ↦ subst Unique (sym (if_false (contains ks k) _ _ new)) (append-Unique ks k new u)
]

add_once-All :
    (P : Text → Type 0) (k : Text) (ks : List Text) → All P ks → P k → All P (add_once k ks)
add_once-All P k ks a h = elim (Bool-cases (contains ks k)) [
  | inl old ↦ subst (All P) (sym (if_true (contains ks k) _ _ old)) a
  | inr new ↦ subst (All P) (sym (if_false (contains ks k) _ _ new)) (append-All P ks k a h)
]

positive : (j : ℕ) → 0 < j → ltb 0 j ≡ true
positive j h = ground arith

-- The result is there, and is as the theorem below says.
abbrev pub IsExtraction : Text → Option (List Text) → Type 0
IsExtraction code r = (ks : List Text) × (r ≡ some ks) × All (IsKeyString code) ks × Unique ks

-- The next rounds, from any index inside the code that is further on.
abbrev Rounds : Text → ℕ → (ℕ → List Text → Option (List Text)) → Type 0
Rounds code index again =
    (k : ℕ) (ks : List Text)
    → index < k
    → k ≤ length code
    → All (IsKeyString code) ks
    → Unique ks
    → IsExtraction code (again k ks)

module _ (code : Text) (index : ℕ) (again : ℕ → List Text → Option (List Text))
    (rounds : Rounds code index again) where
  terminator-IsExtraction :
      (i : ℕ) (o : Option ℕ) (ks : List Text)
      → index ≤ i
      → i + 9 ≤ length code
      → starts_with key_prefix (drop i code) ≡ true
      → find key_terminator code i ≡ o
      → All (IsKeyString code) ks
      → Unique ks
      → IsExtraction code (at_terminator again code i o ks)
  terminator-IsExtraction i none ks h f p e a u = rounds (i + 9) ks (omega arith) f a u
  terminator-IsExtraction i (some j) ks h f p e a u =
      let (n, at, fits, stands) = find-FoundAt key_terminator code i j e in
      let key = take (n + 2) (drop i code) in
      let same : slice code i (j + 2) ≡ key = ap (λ m. take m (drop i code)) (omega arith) in
      let new = slice-IsKeyString code i n p fits stands in
      subst (IsExtraction code)
        (sym (
          if_true (ltb 0 j) _ _ (
            positive j
              (omega (arith, terminator_behind key_prefix (drop i code) n refl p stands)))))
        (rounds (j + 2) (add_once (slice code i (j + 2)) ks) (omega arith)
          (omega (arith, length-drop i code))
          (subst (λ k. All (IsKeyString code) (add_once k ks)) (sym same)
            (add_once-All (IsKeyString code) key ks a new))
          (add_once-Unique (slice code i (j + 2)) ks u))

  prefix-IsExtraction :
      (o : Option ℕ) (ks : List Text)
      → index ≤ length code
      → find key_prefix code index ≡ o
      → All (IsKeyString code) ks
      → Unique ks
      → IsExtraction code (at_prefix again code o ks)
  prefix-IsExtraction none ks f e a u = (ks, refl, a, u)
  prefix-IsExtraction (some i) ks f e a u =
      let (n, at, fits, stands) = find-FoundAt key_prefix code index i e in
      terminator-IsExtraction i (find key_terminator code i) ks (omega arith)
        (omega (arith, length-drop index code))
        (subst (λ s. starts_with key_prefix s ≡ true)
          (drop-drop n index code ∙ ap (λ m. drop m code) (sym at)) stands)
        refl a u

extract_from-IsExtraction :
    (fuel : ℕ) (code : Text) (index : ℕ) (ks : List Text)
    → index ≤ length code
    → length code < index + fuel
    → All (IsKeyString code) ks
    → Unique ks
    → IsExtraction code (extract_from fuel code index ks)
unfolding extract_from
extract_from-IsExtraction zero code index ks f m a u = absurd (omega arith)
extract_from-IsExtraction (suc fuel) code index ks f m a u =
    prefix-IsExtraction code index (extract_from fuel code)
      (λ k js lt le b v. extract_from-IsExtraction fuel code k js le (omega arith) b v)
      (find key_prefix code index) ks f refl a u

-- `_extract_key_strings` ends for every code. Each string that it returns begins with the prefix,
-- ends with the terminator and stands in the code, and none is returned twice.
pub extract_key_strings_total : (code : Text) → IsExtraction code (extract_key_strings code)
unfolding extract_key_strings
extract_key_strings_total code =
    extract_from-IsExtraction (length code + 1) code 0 [] (omega arith) (omega arith) tt tt
