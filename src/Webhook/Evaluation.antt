-- ===== src/Webhook/Evaluation.antt =====
-- The code of webhooks and authenticators: the records of cetmix_tower_webhook/models, `_run_webhook_eval_code`
-- and `_parse_eval_code_result` of the evaluation mixin, `authenticate` and `execute`. `safe_eval`, `json.loads`
-- and `create` of the ORM are parameters; the database is a state.
use cetmix_tower.Prelude.{
  ℕ, Bool, true, false, Option, none, some, List, [], ◌∷◌, ◌++◌, Result, ok, err, ◌>>=◌, ℤ, pos,
}
use cetmix_tower.Prelude.Text.{Text, codes}
use cetmix_tower.Key.Resolve.{Key, parse_code_and_return_key_values}
use cetmix_tower.Key.Spoiler.{code_of, parse_code, replace_with_spoiler}
use cetmix_tower.Webhook.Address.{Allowlist, Peer}

-- the dictionary `result` of the code; a key that is missing is `none`
pub record Answer : Type 0 where
  pub allowed : Bool
  pub exit_code : Option ℤ
  pub message : Option Text

pub record Authenticator : Type 0 where
  pub id : ℕ
  pub allowlist : Allowlist
  pub code : Text

pub data ContentType : Type 0 where
  json form : ContentType

pub record Webhook : Type 0 where
  pub id : ℕ
  pub active : Bool
  pub endpoint : Text
  pub method : Text
  pub content_type : ContentType
  pub authenticator_id : Option Authenticator
  pub code : Text

pub data AuthenticationStatus : Type 0 where
  auth_failed auth_success not_required : AuthenticationStatus

pub data CodeStatus : Type 0 where
  code_skipped code_failed code_success : CodeStatus

pub record LogValues : Type 0 where
  pub webhook_id : Option ℕ
  pub endpoint : Text
  pub request_method : Text
  pub authentication_status : AuthenticationStatus
  pub code_status : CodeStatus
  pub http_status : ℕ
  pub error_message : Option Text
  pub result_message : Option Text

pub record Response : Type 0 where
  pub status : ℕ
  pub message : Text

pub record Request (Payload : Type 0) : Type 0 where
  pub endpoint : Text
  pub method : Text
  pub peer : Peer
  pub raw_data : Text
  pub form_data : Result Text Payload
  pub args : Result Text Payload

-- what the request's code reaches outside of the program
pub record Outside (Payload State : Type 0) : Type 0 where
  pub empty_payload : Payload
  pub json_loads : Text → Result Text Payload
  pub safe_eval : Text → Payload → State → Result Text (Option Answer × State)
  pub create : LogValues → State → Result Text State

abbrev pub secrets_of : Option (Text × Option (List Text)) → List Text
secrets_of none = []
secrets_of (some (code, none)) = []
secrets_of (some (code, some key_values)) = key_values

abbrev pub spoil : List Text → Option Text → Option Text
spoil secrets none = none
spoil secrets (some message) = some (replace_with_spoiler message secrets)

-- `_parse_eval_code_result`
unfoldable pub parse_eval_code_result : List Text → Option Answer → Result Text Answer
unfolding replace_with_spoiler
parse_eval_code_result secrets none =
    err (codes "Webhook/Authenticator code error: result is not a dict")
parse_eval_code_result secrets (some answer) =
    ok (record answer { message = spoil secrets answer.message })

-- `except Exception as e: raise ValidationError(prefix % e)`
abbrev pub with_prefix : {A : Type 0} → Text → Result Text A → Result Text A
with_prefix prefix (ok a) = ok a
with_prefix prefix (err e) = err (prefix ++ e)

module _ {Payload State : Type 0} (out : Outside Payload State) (keys : List Key) where
  -- `_run_webhook_eval_code`
  unfoldable pub run_webhook_eval_code :
      Answer → Text → Payload → State → Result Text (Answer × State)
  unfolding parse_code_and_return_key_values parse_code parse_eval_code_result
  run_webhook_eval_code default [] payload s = ok (default, s)
  run_webhook_eval_code default (c ∷ code) payload s = do
    let parsed = parse_code_and_return_key_values keys none none true (c ∷ code)
    (result, t) ←
        out.safe_eval (parse_code keys none none true (code_of (c ∷ code) parsed)) payload s
    answer ← parse_eval_code_result (secrets_of parsed) result
    ok (answer, t)

  -- `authenticate`
  unfoldable pub authenticate : Authenticator → Payload → State → Result Text (Answer × State)
  unfolding run_webhook_eval_code
  authenticate authenticator payload s = with_prefix (codes "Authentication code error: ") (
      run_webhook_eval_code (record { allowed = false; exit_code = none; message = none })
        authenticator.code payload s)

  -- `execute`
  unfoldable pub execute : Webhook → Payload → State → Result Text (Answer × State)
  unfolding run_webhook_eval_code
  execute webhook payload s = with_prefix (codes "Webhook code execution error: ") (
      run_webhook_eval_code (record { allowed = false; exit_code = some (pos 0); message = none })
        webhook.code payload s)
