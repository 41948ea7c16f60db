-- ===== src/Prelude/Text.antt =====
-- Python text as the list of its code points, and the methods of `str` that the program calls.
use Prim.Native.Nat.{ℕ, zero, suc, ◌+◌, ◌-◌}
use Prim.Native.Char.{code}
use Prim.Native.String.{String}
use mathlib.Core.Bool.{Bool, true, false, ◌&&◌, ◌||◌}
use mathlib.Core.List.{List, [], ◌∷◌, ◌++◌}
use mathlib.Core.Option.{Option, none, some}
use cetmix_tower.Prelude.Tests.{◌==◌, nat_eq, list_eq, leb, if◌then◌else◌}
use cetmix_tower.Prelude.Lists.{length, contains}

abbrev pub Text : Type 0
Text = List ℕ

abbrev pub codes : String → Text
codes String.[] = []
codes (String.◌∷◌ c s) = code c ∷ codes s

-- `s.startswith(p)`
abbrev pub starts_with : Text → Text → Bool
starts_with [] s = true
starts_with (p ∷ ps) [] = false
starts_with (p ∷ ps) (c ∷ s) = p == c && starts_with ps s

-- `p in s`
abbrev pub occurs : Text → Text → Bool
occurs p [] = starts_with p []
occurs p (c ∷ s) = starts_with p (c ∷ s) || occurs p s

abbrev pub drop : ℕ → Text → Text
drop zero s = s
drop (suc n) [] = []
drop (suc n) (c ∷ s) = drop n s

abbrev pub take : ℕ → Text → Text
take zero s = []
take (suc n) [] = []
take (suc n) (c ∷ s) = c ∷ take n s

-- `s[i:j]` for bounds that are not negative
abbrev pub slice : Text → ℕ → ℕ → Text
slice s i j = take (j - i) (drop i s)

abbrev pub index_of : Text → Text → ℕ → Option ℕ
index_of p [] i = if starts_with p [] then some i else none
index_of p (c ∷ s) i = if starts_with p (c ∷ s) then some i else index_of p s (suc i)

-- `s.find(p, i)` for a text `p` that is not empty; `none` is -1
unfoldable pub find : Text → Text → ℕ → Option ℕ
find p s i = index_of p (drop i s) i

-- `s.replace(old, new)` after the first `skip` characters, which belong to an occurrence already replaced
abbrev pub replace_after : Text → Text → ℕ → Text → Text
replace_after old new skip [] = []
replace_after old new (suc skip) (c ∷ s) = replace_after old new skip s
replace_after old new zero (c ∷ s) =
    let over = replace_after old new (length old - 1) s in
    let on = replace_after old new zero s in if starts_with old (c ∷ s) then new ++ over else c ∷ on

-- `s.replace("", new)`
abbrev pub interleave : Text → Text → Text
interleave new [] = new
interleave new (c ∷ s) = new ++ c ∷ interleave new s

unfoldable pub replace : Text → Text → Text → Text
replace [] new s = interleave new s
replace (o ∷ old) new s = replace_after (o ∷ old) new zero s

-- `s.split(c)` for one character
abbrev pub prepend : ℕ → List Text → List Text
prepend c [] = (c ∷ []) ∷ []
prepend c (word ∷ words) = (c ∷ word) ∷ words

unfoldable pub split : ℕ → Text → List Text
split sep [] = [] ∷ []
split sep (c ∷ s) = let words = split sep s in if c == sep then [] ∷ words else prepend c words

-- `s.lstrip(chars)`
unfoldable pub strip_left : List ℕ → Text → Text
strip_left chars [] = []
strip_left chars (c ∷ s) = if contains chars c then strip_left chars s else c ∷ s

abbrev pub reverse_onto : Text → Text → Text
reverse_onto [] out = out
reverse_onto (c ∷ s) out = reverse_onto s (c ∷ out)

-- `s.strip(chars)`
unfoldable pub strip : List ℕ → Text → Text
unfolding strip_left
strip chars s = reverse_onto (strip_left chars (reverse_onto (strip_left chars s) [])) []

-- the whitespace that `str.strip()` removes, in ASCII
abbrev pub whitespace : List ℕ
whitespace = 9 ∷ 10 ∷ 11 ∷ 12 ∷ 13 ∷ 28 ∷ 29 ∷ 30 ∷ 31 ∷ 32 ∷ []

-- `s.lower()` in ASCII
abbrev pub lower_char : ℕ → ℕ
lower_char c = if leb b'A' c && leb c b'Z' then c + 32 else c

abbrev pub lower : Text → Text
lower [] = []
lower (c ∷ s) = lower_char c ∷ lower s
