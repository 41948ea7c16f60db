-- ===== src/Engine/LastLine.antt =====
-- The last line of a plan: what `_get_next_action_state` of cx_tower_plan.py makes of its actions.
use cetmix_tower.Prelude.{
  ◌≡◌, ◌∙◌, refl, ap, Bool, true, false, not, ◌&&◌, Option, none, some, Result, ok, ◌>>=◌, ℤ, ◌==◌,
  nat_eq, int_eq, string_eq, pos, nat_beq_iff, int_beq_iff, if◌then◌else◌, Bool-cases, inl, inr,
  int_beq, negsuc,
}
use cetmix_tower.Engine.Records.{
  Action, exit_with_code, next_command, Error, PlanLine, Plan, Server, World, Evaluation,
  exit_with_custom, ActionLine,
}
use cetmix_tower.Engine.Store.{write_server}
use cetmix_tower.Engine.Choice.{
  is_next, NextAction, last_line, next_line_of, chosen_action, chosen_code, is_custom,
  get_next_action_state, apply_action, action_exit_code, store_values,
}

-- The line is the last one of the plan.
abbrev pub IsLast : Plan → PlanLine → Type 0
IsLast plan line = (l : PlanLine) × (last_line plan.line_ids ≡ ok l) × (line.id ≡ l.id)

-- the body of `_get_next_action_state` once it is known whether the line is the last
abbrev state_if : Plan → Action → ℤ → PlanLine → Bool → Result Error NextAction
state_if plan chosen code line is_last = do
  next ← next_line_of (is_next chosen && not is_last) plan.line_ids line
  ok (record {
    action = if is_last then exit_with_code else chosen;
    exit_code = code;
    next_line = next;
  })

last_state_cases :
    (plan : Plan) (chosen : Action) (code : ℤ) (line : PlanLine) (is_last : Bool)
    → is_last ≡ true
    → state_if plan chosen code line is_last
      ≡ ok (record { action = exit_with_code; exit_code = code; next_line = none })
last_state_cases plan next_command code line true h = refl
last_state_cases plan _ code line true h = refl
last_state_cases plan chosen code line false h = cc

-- On the last line the state is an exit, with the code that the action chose.
pub last-state :
    (plan : Plan) (action : Option Action) (code : ℤ) (line : PlanLine)
    → IsLast plan line
    → get_next_action_state plan action code line
      ≡ ok (record {
        action = exit_with_code;
        exit_code = chosen_code plan action code;
        next_line = none;
      })
unfolding get_next_action_state
last-state plan action code line (l, e, i) =
    ap
      (λ r. r >>= λ last.
        state_if plan (chosen_action plan action code) (chosen_code plan action code) line
          (line.id == last.id))
      e
    ∙ last_state_cases plan (chosen_action plan action code) (chosen_code plan action code) line
        (line.id == l.id) ((nat_beq_iff line.id l.id).1 i)

-- The exit code of a plan: 0 stands for -205, the code of a line whose condition failed.
abbrev pub counted : ℤ → ℤ
counted code = if code == negsuc 204 then pos 0 else code

-- the exit code that an action asks for, with its own code (0 is none) and that of the command
abbrev pub code_of_action : Action → ℤ → ℤ → ℤ
code_of_action exit_with_custom own status = if own == pos 0 then status else own
code_of_action _ own status = status

-- the exit code that the plan's action on errors asks for
abbrev pub code_on_error : Action → ℤ → ℤ → ℤ
code_on_error exit_with_custom own status = own
code_on_error _ own status = status

-- The code that a plan ends with whose last line had this status and this matching action, if any.
abbrev pub ending_code : Plan → ℤ → Option ActionLine → ℤ
ending_code plan status (some a) = code_of_action a.action a.custom_exit_code status
ending_code plan status none =
    if status == pos 0
    then pos 0
    else code_on_error plan.on_error_action plan.custom_exit_code status

-- The values of the matching action are stored on the server.
abbrev pub stored : Server → Option ActionLine → World → World
stored server none w = w
stored server (some a) w =
    write_server server.id
      (λ s. record s {
        variable_value_ids =
            store_values server.variable_value_ids a.variable_value_ids s.variable_value_ids;
      })
      w

on_error_code :
    (action : Action) (own status : ℤ)
    → (if is_custom action then own else status) ≡ code_on_error action own status
on_error_code exit_with_code own status = refl
on_error_code exit_with_custom own status = refl
on_error_code next_command own status = refl

action_code :
    (action : Action) (own status : ℤ)
    → (if is_custom action && not (own == pos 0) then own else status)
      ≡ code_of_action action own status
action_code exit_with_code own status = refl
action_code next_command own status = refl
action_code exit_with_custom own status = elim (Bool-cases (int_beq own (pos 0))) [
  | inl z ↦ rw z
  | inr z ↦ rw z
]

default_code :
    (plan : Plan) (status : ℤ) → chosen_code plan none status ≡ ending_code plan status none
default_code plan status = elim (Bool-cases (int_beq status (pos 0))) [
  | inl z ↦ rw z ((int_beq_iff status (pos 0)).0 z)
  | inr z ↦ rw z (on_error_code plan.on_error_action plan.custom_exit_code status)
]

-- On the last line every action ends the plan.
pub last-action :
    (ev : Evaluation) (plan : Plan) (line : PlanLine) (server : Server) (status : ℤ)
    (a : Option ActionLine) (w : World)
    → IsLast plan line
    → apply_action ev plan line server status a w
      ≡ ok (
        record { action = exit_with_code; exit_code = ending_code plan status a; next_line = none },
        stored server a w,
      )
unfolding apply_action
last-action ev plan line server status none w l =
    ap (λ r. r >>= λ state. ok (state, w)) (last-state plan none status line l)
    ∙ ap (λ code. ok (record { action = exit_with_code; exit_code = code; next_line = none }, w))
        (default_code plan status)
last-action ev plan line server status (some a) w l =
    ap (λ r. r >>= λ state. ok (state, stored server (some a) w))
      (last-state plan (some a.action) (action_exit_code ev a status) line l)
    ∙ ap
        (λ code. ok (
          record { action = exit_with_code; exit_code = code; next_line = none },
          stored server (some a) w,
        ))
        (action_code a.action a.custom_exit_code status)
