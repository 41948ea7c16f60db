-- ===== src/Key/Escapes.antt =====
-- About `_replace_with_spoiler` of cx_tower_key.py and key values with a backslash and an `n` of their own.
use cetmix_tower.Prelude.{
  ℕ, ◌≡◌, true, false, [], ◌∷◌, nat_eq, arith, contains, Bool-cases, inl, inr,
}
use cetmix_tower.Prelude.Text.{Text, codes, starts_with, occurs, replace, replace_after, strip}
use cetmix_tower.Key.Spoiler.{cleaned, secret_value_placeholder, replace_with_spoiler}
use cetmix_tower.Key.Masking.{replace-id}

-- a text that is replaced by one that begins with `n` brings `n` in
contains-replace_after :
    (o n : ℕ) (old new s : Text)
    → occurs (o ∷ old) s ≡ true
    → contains (replace_after (o ∷ old) (n ∷ new) 0 s) n ≡ true
contains-replace_after o n old new [] h = ground arith
contains-replace_after o n old new (c ∷ s) h = elim (Bool-cases (starts_with (o ∷ old) (c ∷ s))) [
  | inl here ↦ ground arith
  | inr on ↦ ground (arith, contains-replace_after o n old new s)
]

starts_with-contains :
    (q s : Text) (n : ℕ) → starts_with q s ≡ true → contains q n ≡ true → contains s n ≡ true
starts_with-contains [] s n h k = ground arith
starts_with-contains (p ∷ q) [] n h k = ground arith
starts_with-contains (p ∷ q) (c ∷ s) n h k = ground (arith, starts_with-contains q s n)

-- a text with `n` does not stand in one without it
occurs-contains :
    (q s : Text) (n : ℕ) → contains q n ≡ true → contains s n ≡ false → occurs q s ≡ false
occurs-contains q [] n h k = ground (arith, starts_with-contains q [] n)
occurs-contains q (c ∷ s) n h k =
    ground (arith, occurs-contains q s n, starts_with-contains q (c ∷ s) n)

stays : (q s new : Text) (n : ℕ) → contains q n ≡ true → contains s n ≡ false → replace q new s ≡ s
unfolding replace
stays [] s new n h k = absurd (ground arith)
stays (o ∷ old) s new n h k = replace-id o old s new (occurs-contains (o ∷ old) s n h k)

cleaned-breaks :
    (key_value : Text)
    → occurs (codes "\\n") (strip (codes "\"") key_value) ≡ true
    → contains (cleaned key_value) b'\n' ≡ true
unfolding cleaned replace
cleaned-breaks key_value h =
    contains-replace_after b'\\' b'\n' (codes "n") [] (strip (codes "\"") key_value) h

-- A key value that has, without the quotes around it, a backslash followed by an `n` is never masked in
-- a text without line breaks: such a text, the key value itself among them, is left as it is.
pub escaped_value_stays :
    (code key_value : Text)
    → occurs (codes "\\n") (strip (codes "\"") key_value) ≡ true
    → contains code b'\n' ≡ false
    → replace_with_spoiler code (key_value ∷ []) ≡ code
unfolding replace_with_spoiler
escaped_value_stays code key_value h k =
    stays (cleaned key_value) code secret_value_placeholder b'\n' (cleaned-breaks key_value h) k
