-- ===== src/Engine/Choice.antt =====
-- cx_tower_plan.py, `_get_next_action_state` and `_get_next_action_values`, and `_is_executable_line` of
-- cx_tower_plan_line.py: what happens after a command of a plan.
use Prim.Native.String.{◌++◌ as str_append}
use cetmix_tower.Prelude.{
  ℕ, String, Bool, true, false, not, ◌&&◌, Option, none, some, List, [], ◌∷◌, ◌++◌, Result, ok, err,
  ◌>>=◌, ℤ, pos, ◌==◌, nat_eq, int_eq, string_eq, if◌then◌else◌, some_of, is_empty, insert,
}
use cetmix_tower.Engine.Records.{
  Action, exit_with_code, exit_with_custom, next_command, Error, value_error, index_error, lift,
  Values, ActionLine, PlanLine, Plan, Server, PlanLog, CommandLog, World,
  plan_line_condition_check_failed, plan_not_assigned, plan_line_not_assigned, Evaluation,
}
use cetmix_tower.Engine.Store.{get_plan_log, get_server, write_server}

abbrev pub is_next : Action → Bool
is_next next_command = true
is_next _ = false

abbrev pub is_custom : Action → Bool
is_custom exit_with_custom = true
is_custom _ = false

-- `{**values, **others}`
unfoldable pub merge : Values → Values → Values
merge values [] = values
merge values ((k, v) ∷ others) = merge (insert k v values) others

-- `a or b` on two dictionaries
abbrev pub or_values : Values → Values → Values
or_values [] b = b
or_values (v ∷ a) b = v ∷ a

-- `lines[-1]`
abbrev pub last_line : List PlanLine → Result Error PlanLine
last_line [] = err index_error
last_line (l ∷ []) = ok l
last_line (l ∷ m ∷ ls) = last_line (m ∷ ls)

abbrev pub head_line : List PlanLine → Result Error PlanLine
head_line [] = err index_error
head_line (l ∷ ls) = ok l

-- `lines[indexOf(lines, current_line) + 1]`
abbrev pub line_after : List PlanLine → PlanLine → Result Error PlanLine
line_after [] current = err value_error
line_after (l ∷ ls) current = if l.id == current.id then head_line ls else line_after ls current

-- the fallback when no action of the line matched
abbrev pub chosen_action : Plan → Option Action → ℤ → Action
chosen_action plan (some action) exit_code = action
chosen_action plan none exit_code =
    if exit_code == pos 0 then next_command else plan.on_error_action

abbrev pub chosen_code : Plan → Option Action → ℤ → ℤ
chosen_code plan (some action) exit_code = exit_code
chosen_code plan none exit_code =
    if is_custom (chosen_action plan none exit_code) then plan.custom_exit_code else exit_code

pub record NextAction : Type 0 where
  pub action : Action
  pub exit_code : ℤ
  pub next_line : Option PlanLine

abbrev pub next_line_of : Bool → List PlanLine → PlanLine → Result Error (Option PlanLine)
next_line_of false lines current = ok none
next_line_of true lines current = do line ← line_after lines current; ok (some line)

unfoldable pub get_next_action_state : Plan → Option Action → ℤ → PlanLine → Result Error NextAction
get_next_action_state plan action exit_code current = do
  last ← last_line plan.line_ids
  let is_last = current.id == last.id
  let chosen = chosen_action plan action exit_code
  next ← next_line_of (is_next chosen && not is_last) plan.line_ids current
  ok (record {
    action = if is_last then exit_with_code else chosen;
    exit_code = chosen_code plan action exit_code;
    next_line = next;
  })

-- the values that the server had when the actions were read decide between update and creation
abbrev pub has_variable : ℕ → ℕ × String → Bool
has_variable variable (v, value) = v == variable

abbrev pub set_value : ℕ → String → List (ℕ × String) → List (ℕ × String)
set_value variable value [] = []
set_value variable value ((v, old) ∷ vs) =
    (v, if v == variable then value else old) ∷ set_value variable value vs

unfoldable pub store_values :
    List (ℕ × String) → List (ℕ × String) → List (ℕ × String) → List (ℕ × String)
store_values before [] now = now
store_values before ((variable, value) ∷ rest) now = store_values before rest (
    if some_of (has_variable variable) before
    then set_value variable value now
    else now ++ (variable, value) ∷ [])

module _ (ev : Evaluation) where
  unfoldable pub is_executable_line : PlanLine → List (ℕ × String) → Values → Result Error Bool
  unfolding merge
  is_executable_line line variables variable_values = if line.condition == "" then ok true else do
    references ← lift (ev.get_variables_from_code line.condition)
    let server_values =
        if is_empty references then [] else ev.get_variable_values variables references
    let merged_values = merge server_values variable_values
    condition ←
        if is_empty merged_values
        then ok line.condition
        else lift (ev.render_code_custom true line.condition merged_values)
    lift (ev.safe_eval condition)

  unfoldable pub expression : ℤ → ActionLine → String
  expression exit_code a =
      str_append (ev.str_int exit_code)
        (str_append " " (str_append a.condition (str_append " " a.value_char)))

  -- the first action line whose expression holds
  unfoldable pub matching_action : ℤ → List ActionLine → Result Error (Option ActionLine)
  unfolding expression
  matching_action exit_code [] = ok none
  matching_action exit_code (a ∷ as') = do
    holds ← lift (ev.expr_eval (expression exit_code a))
    let rest = matching_action exit_code as'
    if holds then ok (some a) else rest

  -- `custom_exit_code` replaces the exit code unless it is 0
  abbrev pub action_exit_code : ActionLine → ℤ → ℤ
  action_exit_code a exit_code =
      if is_custom a.action && not (a.custom_exit_code == pos 0)
      then a.custom_exit_code
      else exit_code

  unfoldable pub apply_action :
      Plan → PlanLine → Server → ℤ → Option ActionLine → World → Result Error (NextAction × World)
  unfolding get_next_action_state store_values
  apply_action plan current server exit_code none w = do
    state ← get_next_action_state plan none exit_code current
    ok (state, w)
  apply_action plan current server exit_code (some a) w = do
    state ← get_next_action_state plan (some a.action) (action_exit_code a exit_code) current
    ok (
      state,
      write_server server.id
          (λ s. record s {
            variable_value_ids =
                store_values server.variable_value_ids a.variable_value_ids s.variable_value_ids;
          })
          w,
    )

  -- the current line is skipped, or its actions are tried
  unfoldable pub after_condition :
      Bool → Server → CommandLog → PlanLog → PlanLine → World → Result Error (NextAction × World)
  unfolding get_next_action_state matching_action apply_action
  after_condition false server command_log plan_log current w = do
    state ←
        get_next_action_state plan_log.plan (some next_command) plan_line_condition_check_failed
          current
    ok (state, w)
  after_condition true server command_log plan_log current w = do
    action ← matching_action command_log.command_status current.action_ids
    apply_action plan_log.plan current server command_log.command_status action w

  -- the rest of `_get_next_action_values` for a log that has a plan log and a current line
  unfoldable pub next_action_of_line :
      CommandLog → PlanLog → PlanLine → World → Result Error (NextAction × World)
  unfolding is_executable_line after_condition
  next_action_of_line command_log plan_log current w = do
    server ← get_server w command_log.server_id
    executable ←
        is_executable_line current server.variable_value_ids
          (or_values command_log.variable_values plan_log.variable_values)
    after_condition executable server command_log plan_log current w

  -- the plan log has no current line, or it has one
  abbrev pub next_action_of_log :
      CommandLog → PlanLog → Option PlanLine → World → Result Error (NextAction × World)
  next_action_of_log command_log plan_log none w = ok (
    record { action = exit_with_custom; exit_code = plan_line_not_assigned; next_line = none },
    w,
  )
  next_action_of_log command_log plan_log (some current) w =
      next_action_of_line command_log plan_log current w

  -- the command log has no plan log, or it has one
  abbrev pub next_action_of : CommandLog → Option ℕ → World → Result Error (NextAction × World)
  next_action_of command_log none w =
      ok (record { action = exit_with_custom; exit_code = plan_not_assigned; next_line = none }, w)
  next_action_of command_log (some p) w = do
    plan_log ← get_plan_log w p
    next_action_of_log command_log plan_log plan_log.plan_line_executed_id w

  unfoldable pub get_next_action_values : CommandLog → World → Result Error (NextAction × World)
  unfolding next_action_of_line
  get_next_action_values command_log w = next_action_of command_log command_log.plan_log_id w
