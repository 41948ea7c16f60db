-- ===== src/Examples/Shells.antt =====
-- Concrete commands and their results, and the properties of shell commands applied to them.
use cetmix_tower.Prelude.{◌≡◌, refl, false, some, List, [], ◌∷◌, ◌++◌, All, map}
use cetmix_tower.Prelude.Text.{Text, codes, strip, replace}
use cetmix_tower.Key.Spoiler.{cleaned}
use cetmix_tower.Engine.Records.{with_password}
use cetmix_tower.Shell.Command.{many, lines, several, prepare_ssh_command, parse_command_results}
use cetmix_tower.Shell.Outcome.{
  cd, IsSudo, IsShown, joined, with_password_apart, response_lines_hide, secret_across_lines_stays,
}

with_password_apart_example :
    (cmds : List Text) × (prepare_ssh_command
        (codes "pwd && ls -l")
        (codes "/tmp")
        (some with_password)
        false
      ≡ several (cd (codes "/tmp") ++ cmds))
    × All IsSudo cmds
with_password_apart_example = with_password_apart (codes "pwd && ls -l") (codes "/tmp") false

response_lines_hide_example :
    (show : Text → Text) × ((parse_command_results
        (many [])
        (lines (codes "a pw" ∷ codes "b" ∷ []))
        (lines (codes "no pw" ∷ []))
        (codes "pw" ∷ [])).response
      ≡ joined (map show (codes "a pw" ∷ codes "b" ∷ [])))
    × ((parse_command_results
          (many [])
          (lines (codes "a pw" ∷ codes "b" ∷ []))
          (lines (codes "no pw" ∷ []))
          (codes "pw" ∷ [])).error
        ≡ joined (map show (codes "no pw" ∷ [])))
    × All (λ line. IsShown (codes "pw" ∷ []) line (show line)) (codes "a pw" ∷ codes "b" ∷ [])
    × All (λ line. IsShown (codes "pw" ∷ []) line (show line)) (codes "no pw" ∷ [])
unfolding cleaned strip replace
response_lines_hide_example =
    response_lines_hide (many []) (codes "a pw" ∷ codes "b" ∷ []) (codes "no pw" ∷ [])
      (codes "pw" ∷ []) ((refl, refl), tt)

-- a secret of two lines
secret_across_lines_stays_example :
    (parse_command_results
      (many [])
      (lines (codes "one\n" ∷ codes "two" ∷ []))
      (lines [])
      (codes "one\ntwo" ∷ [])).response
    ≡ some (codes "one\ntwo")
unfolding cleaned strip replace
secret_across_lines_stays_example =
    secret_across_lines_stays (many []) (codes "one\n") (codes "two" ∷ []) (lines [])
      (codes "one\ntwo") (codes "ne\ntwo") b'o' refl (refl, (refl, tt))
