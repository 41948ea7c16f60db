-- ===== src/Engine/LineOrder.antt =====
-- About the order of the lines of a plan, and the next line of cx_tower_plan.py's `_get_next_action_state`.
use cetmix_tower.Prelude.{
  ℕ, ◌<◌, ◌≡◌, refl, Bool, true, false, not, ◌&&◌, ◌||◌, Option, some, List, [], ◌∷◌, ok, err,
  ◌>>=◌, ℤ, ◌==◌, nat_eq, int_eq, if◌then◌else◌, arith, length,
}
use cetmix_tower.Engine.Records.{
  Action, exit_with_code, next_command, value_error, index_error, PlanLine, Plan,
}
use cetmix_tower.Engine.Choice.{
  last_line, line_after, next_line_of, is_next, chosen_action, chosen_code, NextAction,
  get_next_action_state,
}
use cetmix_tower.Engine.Ensures.{Ensures, Ensures-bind, Ensures-if}

abbrev pub has_line : List PlanLine → ℕ → Bool
has_line [] i = false
has_line (l ∷ ls) i = l.id == i || has_line ls i

-- No two lines have one id.
abbrev pub Distinct : List PlanLine → Type 0
Distinct [] = Unit
Distinct (l ∷ ls) = (has_line ls l.id ≡ false) × Distinct ls

-- how many lines stand below a line
abbrev pub remaining : List PlanLine → PlanLine → ℕ
remaining [] current = 0
remaining (l ∷ ls) current = if l.id == current.id then length ls else remaining ls current

line_after-has_line :
    (ls : List PlanLine) (c l : PlanLine) → line_after ls c ≡ ok l → has_line ls l.id ≡ true
line_after-has_line [] c l h = cc
line_after-has_line (x ∷ []) c l h = ground arith
line_after-has_line (x ∷ y ∷ ls) c l h = ground (arith, line_after-has_line (y ∷ ls) c l)

pub remaining-line_after :
    (ls : List PlanLine) (c l : PlanLine)
    → Distinct ls
    → line_after ls c ≡ ok l
    → remaining ls l < remaining ls c
remaining-line_after [] c l d h = cc
remaining-line_after (x ∷ []) c l d h = ground arith
remaining-line_after (x ∷ y ∷ ls) c l d h =
    ground (arith, remaining-line_after (y ∷ ls) c l d.1, line_after-has_line (y ∷ ls) c l)

-- What `_get_next_action_state` says of the next line: it is the line after the current one, and it is
-- there whenever the plan goes on.
abbrev pub Continues : Plan → PlanLine → NextAction → Type 0
Continues plan current next =
    is_next next.action ≡ true
    → (l : PlanLine) × (next.next_line ≡ some l) × (line_after plan.line_ids current ≡ ok l)

last_line-Ensures : (ls : List PlanLine) → Ensures (λ _. Unit {0}) (last_line ls)
last_line-Ensures [] = λ e. cc
last_line-Ensures (l ∷ []) = tt
last_line-Ensures (l ∷ m ∷ ls) = last_line-Ensures (m ∷ ls)

pub line_after-Ensures :
    (ls : List PlanLine) (c : PlanLine) → Ensures (λ _. Unit {0}) (line_after ls c)
line_after-Ensures [] c = λ e. cc
line_after-Ensures (l ∷ []) c =
    Ensures-if (λ _. Unit {0}) (l.id == c.id) (err index_error) (err value_error) (λ _ e. cc)
      (λ _ e. cc)
line_after-Ensures (l ∷ m ∷ ls) c =
    Ensures-if (λ _. Unit {0}) (l.id == c.id) (ok m) (line_after (m ∷ ls) c) (λ _. tt)
      (λ _. line_after-Ensures (m ∷ ls) c)

-- the two tests of the function, as values
state_cases :
    (plan : Plan) (current : PlanLine) (code : ℤ) (is_last : Bool) (chosen : Action)
    → Ensures (Continues plan current) (
        next_line_of (is_next chosen && not is_last) plan.line_ids current >>= λ next. ok (record {
          action = if is_last then exit_with_code else chosen;
          exit_code = code;
          next_line = next;
        }))
state_cases plan current code true next_command = λ h. cc
state_cases plan current code true _ = λ h. cc
state_cases plan current code false next_command =
    Ensures-bind
      (λ next. (l : PlanLine) × (next ≡ some l) × (line_after plan.line_ids current ≡ ok l))
      (Continues plan current) _ _
      (Ensures-bind (λ _. Unit {0}) _ (line_after plan.line_ids current) _
        (line_after-Ensures plan.line_ids current) (λ l e _. (l, refl, e)))
      (λ next _ q h. q)
state_cases plan current code false _ = λ h. cc

pub state-Continues :
    (plan : Plan) (action : Option Action) (code : ℤ) (current : PlanLine)
    → Ensures (Continues plan current) (get_next_action_state plan action code current)
unfolding get_next_action_state
state-Continues plan action code current =
    Ensures-bind (λ _. Unit {0}) (Continues plan current) (last_line plan.line_ids) _
      (last_line-Ensures plan.line_ids)
      (λ last _ _.
        state_cases plan current (chosen_code plan action code) (current.id == last.id)
          (chosen_action plan action code))
