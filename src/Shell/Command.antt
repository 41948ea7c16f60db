-- ===== src/Shell/Command.antt =====
-- `_prepare_ssh_command` and `_parse_command_results`. A path that is `None` is the empty text: the code tests
-- both alike.
use cetmix_tower.Prelude.{
  ℕ, zero, suc, ◌-◌, Bool, true, false, not, ◌&&◌, Option, none, some, List, [], ◌∷◌, ◌++◌, ℤ, pos,
  ◌==◌, int_eq, if◌then◌else◌, is_empty, length, map,
}
use cetmix_tower.Prelude.Text.{
  Text, codes, occurs, replace, starts_with, strip, whitespace, prepend,
}
use cetmix_tower.Key.Spoiler.{replace_with_spoiler}
use cetmix_tower.Engine.Records.{SudoMode, without_password, with_password}

-- `s.split(sep)` for a separator of several characters, after the first `skip` characters, which belong to
-- a separator already found
abbrev pub split_after : Text → ℕ → Text → List Text
split_after sep skip [] = [] ∷ []
split_after sep (suc skip) (c ∷ s) = split_after sep skip s
split_after sep zero (c ∷ s) =
    let over = split_after sep (length sep - 1) s in
    let on = split_after sep zero s in if starts_with sep (c ∷ s) then [] ∷ over else prepend c on

-- `sep.join(parts)`
abbrev pub join : Text → List Text → Text
join sep [] = []
join sep (part ∷ []) = part
join sep (part ∷ next ∷ parts) = part ++ sep ++ join sep (next ∷ parts)

-- one text, or a list of commands that are run one after another
pub data Prepared : Type 0 where
  single : Text → Prepared
  several : List Text → Prepared

abbrev pub separator : Text
separator = codes "&&"

abbrev pub with_sudo : Text → Text
with_sudo cmd = codes "sudo -S -p '' " ++ cmd

abbrev pub as_mode : SudoMode → List Text → Prepared
as_mode with_password commands = several commands
as_mode without_password commands = single (join (codes " && ") commands)

abbrev pub sudo_commands : Bool → Text → List Text
sudo_commands true code =
    map (λ cmd. with_sudo (strip whitespace cmd))
      (split_after separator zero (replace (codes "\n") [] (replace (codes "\\") [] code)))
sudo_commands false code = with_sudo code ∷ []

abbrev pub prepare_command : Option SudoMode → Bool → Text → Prepared
prepare_command none no_split code = single code
prepare_command (some mode) no_split code =
    as_mode mode (sudo_commands (occurs separator code && not no_split) code)

abbrev pub in_path : Text → Prepared → Prepared
in_path [] prepared = prepared
in_path (c ∷ path) (single command) = single (codes "cd " ++ c ∷ path ++ codes " && " ++ command)
in_path (c ∷ path) (several commands) = several ((codes "cd " ++ c ∷ path) ∷ commands)

unfoldable pub prepare_ssh_command : Text → Text → Option SudoMode → Bool → Prepared
unfolding replace strip
prepare_ssh_command command_code path sudo no_split =
    in_path path (prepare_command sudo no_split command_code)

-- a status, or the statuses of several commands
pub data Statuses : Type 0 where
  one : ℤ → Statuses
  many : List ℤ → Statuses

-- the loop over the statuses
abbrev pub last_failure : List ℤ → ℤ → ℤ
last_failure [] final_status = final_status
last_failure (st ∷ statuses) final_status =
    last_failure statuses (if st == pos 0 then final_status else st)

abbrev pub final_status : Statuses → ℤ
final_status (one status) = status
final_status (many statuses) = last_failure statuses (pos 0)

-- a response or an error: lines, or a text (`None` is the empty text)
pub data Output : Type 0 where
  lines : List Text → Output
  text : Text → Output

abbrev pub spoiled : List Text → Text → Text
spoiled key_values line = if is_empty key_values then line else replace_with_spoiler line key_values

abbrev pub compose : List Text → Output → Option Text
compose key_values (lines []) = none
compose key_values (lines (line ∷ rest)) = some (join [] (map (spoiled key_values) (line ∷ rest)))
compose key_values (text []) = none
compose key_values (text (c ∷ message)) = some (c ∷ message)

pub record CommandResult : Type 0 where
  pub status : ℤ
  pub response : Option Text
  pub error : Option Text

unfoldable pub parse_command_results : Statuses → Output → Output → List Text → CommandResult
unfolding replace_with_spoiler
parse_command_results status response error key_values = record {
  status = final_status status;
  response = compose key_values response;
  error = compose key_values error;
}
