-- ===== src/Engine/Records.antt =====
-- The records that the flight plan engine reads and writes: cx_tower_plan.py, cx_tower_plan_line.py,
-- cx_tower_plan_line_action.py, cx_tower_plan_log.py, cx_tower_command_log.py and constants.py.
use cetmix_tower.Prelude.{ℕ, String, Bool, Option, List, Result, ok, err, ℤ, negsuc, nat_eq}

-- `on_error_action` and `action`: "e", "ec" and "n"
pub data Action : Type 0 where
  exit_with_code exit_with_custom next_command : Action

pub data Error : Type 0 where
  value_error index_error missing_record no_fuel : Error
  raised : String → Error

-- what an expression of a third party raises
abbrev pub lift : {A : Type 0} → Result String A → Result Error A
lift (ok a) = ok a
lift (err message) = err (raised message)

-- a dictionary of variable values
abbrev pub Values : Type 0
Values = List (String × String)

pub record ActionLine : Type 0 where
  pub condition : String
  pub value_char : String
  pub action : Action
  pub custom_exit_code : ℤ
  pub variable_value_ids : List (ℕ × String)

pub data CommandAction : Type 0 where
  ssh_command file_using_template python_code plan : CommandAction

pub record Command : Type 0 where
  pub id : ℕ
  pub action : CommandAction
  pub code : String
  pub path : String
  pub allow_parallel_run : Bool
  pub server_ids : List ℕ

pub record PlanLine : Type 0 where
  pub id : ℕ
  pub command : Command
  pub path : String
  pub use_sudo : Bool
  pub condition : String
  pub action_ids : List ActionLine

pub record Plan : Type 0 where
  pub id : ℕ
  pub allow_parallel_run : Bool
  pub line_ids : List PlanLine
  pub on_error_action : Action
  pub custom_exit_code : ℤ

pub data SudoMode : Type 0 where
  without_password with_password : SudoMode

pub record Server : Type 0 where
  pub id : ℕ
  pub status : Option String
  pub plan_delete_id : Option ℕ
  pub ssh_username : String
  pub use_sudo : Option SudoMode
  pub variable_value_ids : List (ℕ × String)

pub record PlanLog : Type 0 where
  pub id : ℕ
  pub server_id : ℕ
  pub plan : Plan
  pub start_date : Option ℕ
  pub finish_date : Option ℕ
  pub is_running : Bool
  pub is_stopped : Bool
  pub plan_line_executed_id : Option PlanLine
  pub plan_status : ℤ
  pub custom_message : Option String
  pub variable_values : Values

pub record CommandLog : Type 0 where
  pub id : ℕ
  pub server_id : ℕ
  pub command_id : ℕ
  pub plan_log_id : Option ℕ
  pub triggered_plan_log_id : Option ℕ
  pub start_date : Option ℕ
  pub finish_date : Option ℕ
  pub is_running : Bool
  pub code : String
  pub path : String
  pub use_sudo : Option SudoMode
  pub command_status : ℤ
  pub command_error : Option String
  pub condition : String
  pub is_skipped : Bool
  pub variable_values : Values

-- the rows of the database that the engine works on
pub record World : Type 0 where
  pub servers : List Server
  pub plan_logs : List PlanLog
  pub command_logs : List CommandLog
  pub next_id : ℕ

abbrev pub general_error : ℤ
general_error = negsuc 99

abbrev pub another_command_running : ℤ
another_command_running = negsuc 200

abbrev pub plan_line_condition_check_failed : ℤ
plan_line_condition_check_failed = negsuc 204

abbrev pub command_not_compatible_with_server : ℤ
command_not_compatible_with_server = negsuc 206

abbrev pub command_stopped : ℤ
command_stopped = negsuc 207

abbrev pub another_plan_running : ℤ
another_plan_running = negsuc 300

abbrev pub plan_is_empty : ℤ
plan_is_empty = negsuc 301

abbrev pub plan_not_assigned : ℤ
plan_not_assigned = negsuc 302

abbrev pub plan_line_not_assigned : ℤ
plan_line_not_assigned = negsuc 303

abbrev pub plan_not_compatible_with_server : ℤ
plan_not_compatible_with_server = negsuc 305

abbrev pub plan_stopped : ℤ
plan_stopped = negsuc 307

-- Jinja templates, `safe_eval` and `str`, which the program calls, and the values of the server's
-- variables, which another component computes.
pub record Evaluation : Type 0 where
  pub get_variables_from_code : String → Result String (List String)
  pub get_variable_values : List (ℕ × String) → List String → Values
  pub render_code_custom : Bool → String → Values → Result String String
  pub safe_eval : String → Result String Bool
  pub expr_eval : String → Result String Bool
  pub str_int : ℤ → String
  pub has_write_access : Bool
