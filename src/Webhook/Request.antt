-- ===== src/Webhook/Request.antt =====
-- The controller: `cetmix_webhook` of cetmix_tower_webhook/controllers/main.py with its helpers. A savepoint
-- restores the state when an exception is raised.
use cetmix_tower.Prelude.{
  Bool, ◌&&◌, Option, none, some, List, [], ◌∷◌, Result, ok, err, pos, ◌==◌, int_eq, nat_eq,
  list_eq, if◌then◌else◌, is_empty, find_first,
}
use cetmix_tower.Prelude.Text.{Text, codes, lower}
use cetmix_tower.Key.Resolve.{Key}
use cetmix_tower.Webhook.Address.{IpAddress, is_ip_allowed}
use cetmix_tower.Webhook.Evaluation.{
  Answer, Authenticator, ContentType, json, form, Webhook, AuthenticationStatus, auth_failed,
  auth_success, not_required, code_skipped, code_failed, code_success, LogValues, Response, Request,
  Outside, authenticate, execute,
}

-- `str(e)` of the exception that is raised with the message of a result
abbrev pub str_message : Option Text → Text
str_message none = codes "None"
str_message (some message) = message

-- `a or "OK"`
abbrev pub or_ok : Option Text → Text
or_ok none = codes "OK"
or_ok (some []) = codes "OK"
or_ok (some (c ∷ message)) = c ∷ message

abbrev pub or_default : Text → Option Text → Text
or_default default none = default
or_default default (some message) = message

module _ {Address Network Payload State : Type 0} (ip : IpAddress Address Network)
    (out : Outside Payload State) (keys : List Key) where
  abbrev pub recover : Result Text Payload → Payload
  recover (ok payload) = payload
  recover (err e) = out.empty_payload

  -- `_get_payload_by_content_type`
  unfoldable pub get_payload_by_content_type : ContentType → Request Payload → Result Text Payload
  get_payload_by_content_type form req = req.form_data
  get_payload_by_content_type json req =
      if is_empty req.raw_data then ok out.empty_payload else out.json_loads req.raw_data

  abbrev pub content_type_of : Option Webhook → ContentType
  content_type_of none = json
  content_type_of (some webhook) = webhook.content_type

  -- `_extract_webhook_request_payload`
  unfoldable pub extract_webhook_request_payload : Option Webhook → Request Payload → Payload
  unfolding get_payload_by_content_type
  extract_webhook_request_payload webhook req =
      if lower req.method == codes "post"
      then recover (get_payload_by_content_type (content_type_of webhook) req)
      else if lower req.method == codes "get"
      then recover req.args
      else out.empty_payload

  -- `_finalize_webhook_response`: a log that cannot be written does not break the response
  abbrev pub logged : State → Result Text State → State
  logged s (ok t) = t
  logged s (err e) = s

  unfoldable pub finalize_webhook_response : Text → LogValues → State → Response × State
  finalize_webhook_response message log s =
      (record { status = log.http_status; message = message }, logged s (out.create log s))

  -- the search for an active webhook of the endpoint and the method
  abbrev pub answers : Request Payload → Webhook → Bool
  answers req webhook =
      webhook.endpoint == req.endpoint && webhook.method == lower req.method && webhook.active

  abbrev pub first_values : Option Webhook → Request Payload → LogValues
  first_values webhook req = record {
    webhook_id = (elim webhook [ none ↦ none | some w ↦ some w.id ]);
    endpoint = (elim webhook [ none ↦ req.endpoint | some w ↦ w.endpoint ]);
    request_method = (elim webhook [ none ↦ lower req.method | some w ↦ w.method ]);
    authentication_status = not_required;
    code_status = code_skipped;
    http_status = 0;
    error_message = none;
    result_message = none;
  }

  -- a request that fails the authentication
  abbrev pub refuse : Text → LogValues → State → Response × State
  refuse message log s =
      finalize_webhook_response message
        (record log {
          authentication_status = auth_failed;
          http_status = 403;
          error_message = some message;
        })
        s

  -- the code has run, or has raised
  abbrev pub code_raised : AuthenticationStatus → Text → LogValues → State → Response × State
  code_raised auth e log s =
      finalize_webhook_response e
        (record log {
          authentication_status = auth;
          code_status = code_failed;
          http_status = 500;
          error_message = some e;
          result_message = none;
        })
        s

  abbrev pub code_done :
      AuthenticationStatus → LogValues → State → Result Text (Answer × State) → Response × State
  code_done auth log s (err e) = code_raised auth e log s
  code_done auth log s (ok (answer, t)) =
      let message = or_ok answer.message in
      let done =
        finalize_webhook_response message
          (record log {
            authentication_status = auth;
            code_status = code_success;
            http_status = 200;
            error_message = none;
            result_message = some message;
          })
          t in
      let failed = code_raised auth (str_message answer.message) log t in
      elim answer.exit_code [ none ↦ failed | some code ↦ if code == pos 0 then done else failed ]

  -- the authenticator has answered, or has raised; `go` runs the webhook's code
  abbrev pub auth_done :
      (AuthenticationStatus → State → Response × State)
      → LogValues
      → State
      → Result Text (Answer × State)
      → Response × State
  auth_done go log s (err e) = refuse e log s
  auth_done go log s (ok (answer, t)) =
      if answer.allowed
      then go auth_success t
      else refuse (or_default (codes "Authentication not allowed") answer.message) log s

  abbrev pub authenticated :
      (AuthenticationStatus → State → Response × State)
      → Request Payload
      → Payload
      → LogValues
      → State
      → Option Authenticator
      → Response × State
  authenticated go req payload log s none = go not_required s
  authenticated go req payload log s (some a) =
      if is_ip_allowed ip a.allowlist req.peer req.peer.remote_addr
      then auth_done go log s (authenticate out keys a payload s)
      else refuse (codes "Address not allowed") log s

  abbrev pub for_webhook : Request Payload → Option Webhook → State → Response × State
  for_webhook req none s =
      finalize_webhook_response (codes "Webhook not found")
        (record (first_values none req) {
          authentication_status = auth_failed;
          http_status = 404;
          error_message = some (codes "Webhook not found");
        })
        s
  for_webhook req (some w) s =
      let payload = extract_webhook_request_payload (some w) req in
      let log = first_values (some w) req in
      authenticated (λ auth t. code_done auth log t (execute out keys w payload t)) req payload log
        s w.authenticator_id

  unfoldable pub cetmix_webhook : List Webhook → Request Payload → State → Response × State
  unfolding is_ip_allowed authenticate execute finalize_webhook_response
      extract_webhook_request_payload
  cetmix_webhook webhooks req s = for_webhook req (find_first (answers req) webhooks) s
