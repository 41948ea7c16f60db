-- ===== src/Shell/Outcome.antt =====
-- What is sent with sudo, and what a command's results become.
use cetmix_tower.Prelude.{
  ℕ, ◌≡◌, ◌≢◌, ◌∙◌, refl, ap, Bool, true, false, some, List, [], ◌∷◌, ◌++◌, ℤ, pos, ◌==◌, int_eq,
  int_beq, int_beq_iff, if◌then◌else◌, if_true, if_false, map, All, Bool-cases, inl, inr, some_of,
  ◌⊎◌, Option, none,
}
use cetmix_tower.Prelude.Text.{Text, codes, occurs, starts_with, strip, whitespace}
use cetmix_tower.Key.Spoiler.{cleaned, replace_with_spoiler}
use cetmix_tower.Key.Pieces.{IsMasked, replace_with_spoiler-IsMasked}
use cetmix_tower.Key.Masking.{
  IsStarless, replace_with_spoiler-hides, uncleaned_value_stays, replace_with_spoiler-same,
}
use cetmix_tower.Engine.Records.{with_password}
use cetmix_tower.Shell.Command.{
  with_sudo, sudo_commands, several, prepare_ssh_command, Statuses, many, last_failure, Output,
  lines, join, spoiled, parse_command_results, compose,
}

abbrev pub cd : Text → List Text
cd [] = []
cd (c ∷ path) = (codes "cd " ++ c ∷ path) ∷ []

abbrev pub IsSudo : Text → Type 0
IsSudo cmd = starts_with (codes "sudo -S -p '' ") cmd ≡ true

map-IsSudo : (f : Text → Text) (cmds : List Text) → All IsSudo (map (λ cmd. with_sudo (f cmd)) cmds)
map-IsSudo f [] = tt
map-IsSudo f (cmd ∷ cmds) = (refl, map-IsSudo f cmds)

sudo_commands-IsSudo : (split_it : Bool) (code : Text) → All IsSudo (sudo_commands split_it code)
sudo_commands-IsSudo true code = map-IsSudo (strip whitespace) _
sudo_commands-IsSudo false code = (refl, tt)

-- With a sudo password the command becomes a list. It begins with the change of directory, if there
-- is a path, as a command of its own; every other command in it begins with sudo.
pub with_password_apart :
    (code path : Text) (no_split : Bool)
    → (cmds : List Text) × (prepare_ssh_command code path (some with_password) no_split
        ≡ several (cd path ++ cmds))
      × All IsSudo cmds
unfolding prepare_ssh_command
with_password_apart code [] no_split = (_, refl, sudo_commands-IsSudo _ code)
with_password_apart code (c ∷ path) no_split = (_, refl, sudo_commands-IsSudo _ code)

abbrev pub AllZero : List ℤ → Type 0
AllZero = All (λ st. st ≡ pos 0)

zeros_keep :
    (statuses : List ℤ) (start : ℤ) → AllZero statuses → last_failure statuses start ≡ start
zeros_keep [] start h = refl
zeros_keep (st ∷ statuses) start h =
    ap (last_failure statuses) (if_true (st == pos 0) _ _ ((int_beq_iff st (pos 0)).1 h.0))
    ∙ zeros_keep statuses start h.1

-- The status of several commands is the last one that is not 0.
last_failure-last :
    (before after : List ℤ) (st : ℤ) (response error : Output) (key_values : List Text)
    → st ≢ pos 0
    → AllZero after
    → (parse_command_results (many (before ++ st ∷ after)) response error key_values).status ≡ st
unfolding parse_command_results
last_failure-last before after st response error key_values n z = go before (pos 0)
  where
    go : (xs : List ℤ) (start : ℤ) → last_failure (xs ++ st ∷ after) start ≡ st
    go [] start =
        ap (last_failure after) (if_false (st == pos 0) _ _ nonzero) ∙ zeros_keep after st z
      where
        nonzero : (st == pos 0) ≡ false
        nonzero = elim (Bool-cases (int_beq st (pos 0))) [
          | inl same ↦ absurd (n ((int_beq_iff st (pos 0)).0 same))
          | inr other ↦ other
        ]
    go (x ∷ xs) start = go xs (if x == pos 0 then start else x)

-- A line as it is shown: none of the secrets, so cleaned, stands in it, it differs from the line only in that
-- the placeholder stands in place of cleaned secrets, and it is the line itself unless one of them stands
-- there.
abbrev pub IsShown : List Text → Text → Text → Type 0
IsShown key_values line out =
    All (λ v. occurs (cleaned v) out ≡ false) key_values
    × IsMasked key_values line out
    × ((out ≡ line) ⊎ (some_of (λ v. occurs (cleaned v) line) key_values ≡ true))

-- lines as one text; without lines there is none
abbrev pub joined : List Text → Option Text
joined [] = none
joined (line ∷ rest) = some (join [] (line ∷ rest))

spoil_line :
    (key_values : List Text) (line : Text)
    → All (λ v. IsStarless (cleaned v)) key_values
    → IsShown key_values line (spoiled key_values line)
unfolding replace_with_spoiler
spoil_line [] line h = (tt, replace_with_spoiler-IsMasked [] line tt, inl refl)
spoil_line (v ∷ vs) line h = (
  replace_with_spoiler-hides (v ∷ vs) line h,
  replace_with_spoiler-IsMasked (v ∷ vs) line h,
  elim (Bool-cases (some_of (λ v. occurs (cleaned v) line) (v ∷ vs))) [
    | inl there ↦ inr there
    | inr nowhere ↦ inl (replace_with_spoiler-same (v ∷ vs) line h nowhere)
  ],
)

spoil_lines :
    (key_values rest : List Text)
    → All (λ v. IsStarless (cleaned v)) key_values
    → All (λ line. IsShown key_values line (spoiled key_values line)) rest
spoil_lines key_values [] h = tt
spoil_lines key_values (line ∷ rest) h =
    (spoil_line key_values line h, spoil_lines key_values rest h)

compose-joined :
    (key_values rest : List Text)
    → compose key_values (lines rest) ≡ joined (map (spoiled key_values) rest)
compose-joined key_values [] = refl
compose-joined key_values (line ∷ rest) = refl

-- When the secrets, without their quotes and with line breaks unescaped, are not empty and have no star,
-- the lines of the response and those of the error become one text each, which joins the lines in order,
-- each as it is shown: none of the secrets so cleaned stands in what is shown for a line, which is the line
-- but for the placeholder in place of cleaned secrets, and the line itself when none of them stood in it.
pub response_lines_hide :
    (status : Statuses) (response error key_values : List Text)
    → All (λ v. IsStarless (cleaned v)) key_values
    → (show : Text → Text) × ((parse_command_results status
          (lines response)
          (lines error)
          key_values).response
        ≡ joined (map show response))
      × ((parse_command_results status (lines response) (lines error) key_values).error
          ≡ joined (map show error))
      × All (λ line. IsShown key_values line (show line)) response
      × All (λ line. IsShown key_values line (show line)) error
unfolding parse_command_results
response_lines_hide status response error key_values h = (
  spoiled key_values,
  compose-joined key_values response,
  compose-joined key_values error,
  spoil_lines key_values response h,
  spoil_lines key_values error h,
)

unspoiled :
    (v : Text) (c : ℕ) (w : Text) (rest : List Text)
    → cleaned v ≡ c ∷ w
    → All (λ line. occurs (cleaned v) line ≡ false) rest
    → map (spoiled (v ∷ [])) rest ≡ rest
unspoiled v c w [] e h = refl
unspoiled v c w (line ∷ rest) e h =
    ap (λ l. l ∷ map (spoiled (v ∷ [])) rest) (uncleaned_value_stays line v c w e h.0)
    ∙ ap (λ ls. line ∷ ls) (unspoiled v c w rest e h.1)

-- A secret that stands in no single line of a response is not masked in the text that joins them: one of
-- two lines stays readable.
pub secret_across_lines_stays :
    (status : Statuses) (line : Text) (rest : List Text) (error : Output) (v w : Text) (c : ℕ)
    → cleaned v ≡ c ∷ w
    → All (λ l. occurs (cleaned v) l ≡ false) (line ∷ rest)
    → (parse_command_results status (lines (line ∷ rest)) error (v ∷ [])).response
      ≡ some (join [] (line ∷ rest))
unfolding parse_command_results
secret_across_lines_stays status line rest error v w c e h =
    ap (λ ls. some (join [] ls)) (unspoiled v c w (line ∷ rest) e h)
