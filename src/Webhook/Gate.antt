-- ===== src/Webhook/Gate.antt =====
-- About the order of the steps of `cetmix_webhook`.
use cetmix_tower.Prelude.{
  ◌≡◌, ◌∙◌, ◌⊎◌, inl, inr, refl, sym, ap, subst, Bool, true, false, Option, none, some, List,
  Result, ok, err, ℤ, pos, int_eq, int_beq, int_beq_iff, if◌then◌else◌, if_true, if_false,
  find_first, Bool-cases, arith,
}
use cetmix_tower.Prelude.Text.{Text, codes}
use cetmix_tower.Key.Resolve.{Key}
use cetmix_tower.Webhook.Address.{IpAddress, is_ip_allowed}
use cetmix_tower.Webhook.Evaluation.{
  Answer, Authenticator, Webhook, AuthenticationStatus, auth_failed, auth_success, not_required,
  code_skipped, LogValues, Response, Request, Outside, authenticate, execute,
}
use cetmix_tower.Webhook.Request.{
  extract_webhook_request_payload, logged, finalize_webhook_response, answers, first_values, refuse,
  code_done, auth_done, authenticated, for_webhook, cetmix_webhook,
}

module _ {Address Network Payload State : Type 0} (ip : IpAddress Address Network)
    (out : Outside Payload State) (keys : List Key) (req : Request Payload) (s : State) where
  -- The webhook has no authenticator, or its address check and its code let the request through and
  -- left the state `u`.
  abbrev pub IsGranted : Option Authenticator → Payload → State → Type 0
  IsGranted o payload u =
      ((o ≡ none) × (u ≡ s))
      ⊎ ((a : Authenticator) × (o ≡ some a)
          × (is_ip_allowed ip a.allowlist req.peer req.peer.remote_addr ≡ true)
          × ((answer : Answer) × (authenticate out keys a payload s ≡ ok (answer, u))
              × (answer.allowed ≡ true)))

  -- The request was turned down: 403 or 404, the webhook's code has not run, and the state is the one
  -- before the request with the log of it.
  abbrev pub IsRefused : Response × State → Type 0
  IsRefused r =
      (log : LogValues) × (r.1 ≡ logged ip out keys s (out.create log s))
      × (log.code_status ≡ code_skipped)
      × ((r.0.status ≡ 403) ⊎ (r.0.status ≡ 404))

  -- The request was granted, and the webhook's code ran on the state that the authenticator left.
  abbrev pub IsExecuted : List Webhook → Response × State → Type 0
  IsExecuted webhooks r =
      (w : Webhook) × (find_first (answers ip out keys req) webhooks ≡ some w)
      × ((u : State) × (auth : AuthenticationStatus) × IsGranted w.authenticator_id
            (extract_webhook_request_payload ip out keys (some w) req) u
          × (r
              ≡ code_done ip out keys auth (first_values ip out keys (some w) req) u (
                  execute out keys w (extract_webhook_request_payload ip out keys (some w) req) u)))

  refuse-IsRefused :
      (message : Text) (log : LogValues)
      → log.code_status ≡ code_skipped
      → IsRefused (refuse ip out keys message log s)
  unfolding finalize_webhook_response
  refuse-IsRefused message log h = (
    record log {
      authentication_status = auth_failed;
      http_status = 403;
      error_message = some message;
    },
    refl,
    h,
    inl refl,
  )

  -- what is known when the code runs after the authenticator
  abbrev Goes :
      Option Authenticator
      → Payload
      → (AuthenticationStatus → State → Response × State)
      → Response × State
      → Type 0
  Goes o payload go r =
      IsRefused r
      ⊎ ((u : State) × (auth : AuthenticationStatus) × IsGranted o payload u × (r ≡ go auth u))

  auth_done-Goes :
      (a : Authenticator) (payload : Payload) (go : AuthenticationStatus → State → Response × State)
      (log : LogValues) (r : Result Text (Answer × State))
      → log.code_status ≡ code_skipped
      → is_ip_allowed ip a.allowlist req.peer req.peer.remote_addr ≡ true
      → authenticate out keys a payload s ≡ r
      → Goes (some a) payload go (auth_done ip out keys go log s r)
  auth_done-Goes a payload go log (err e) h i eq = inl (refuse-IsRefused e log h)
  auth_done-Goes a payload go log (ok (answer, t)) h i eq = elim (Bool-cases answer.allowed) [
    | inl agreed ↦
        inr (
          t,
          auth_success,
          inr (a, refl, i, (answer, eq, agreed)),
          if_true answer.allowed _ _ agreed,
        )
    | inr denied ↦
        inl (subst IsRefused (sym (if_false answer.allowed _ _ denied)) (refuse-IsRefused _ log h))
  ]

  authenticated-Goes :
      (o : Option Authenticator) (payload : Payload)
      (go : AuthenticationStatus → State → Response × State) (log : LogValues)
      → log.code_status ≡ code_skipped
      → Goes o payload go (authenticated ip out keys go req payload log s o)
  authenticated-Goes none payload go log h = inr (s, not_required, inl (refl, refl), refl)
  authenticated-Goes (some a) payload go log h =
      elim (Bool-cases (is_ip_allowed ip a.allowlist req.peer req.peer.remote_addr)) [
        | inl inside ↦
            subst (Goes (some a) payload go)
              (sym
                (if_true (is_ip_allowed ip a.allowlist req.peer req.peer.remote_addr) _ _ inside))
              (auth_done-Goes a payload go log (authenticate out keys a payload s) h inside refl)
        | inr outside ↦ inl (
            subst IsRefused
              (sym
                (if_false (is_ip_allowed ip a.allowlist req.peer req.peer.remote_addr) _ _ outside))
              (refuse-IsRefused (codes "Address not allowed") log h))
      ]

  outcome :
      (webhooks : List Webhook) (o : Option Webhook)
      → find_first (answers ip out keys req) webhooks ≡ o
      → IsRefused (for_webhook ip out keys req o s)
        ⊎ IsExecuted webhooks (for_webhook ip out keys req o s)
  unfolding finalize_webhook_response
  outcome webhooks none e = inl (
    record (first_values ip out keys none req) {
      authentication_status = auth_failed;
      http_status = 404;
      error_message = some (codes "Webhook not found");
    },
    refl,
    refl,
    inr refl,
  )
  outcome webhooks (some w) e =
      let payload = extract_webhook_request_payload ip out keys (some w) req in
      let log = first_values ip out keys (some w) req in
      elim (authenticated-Goes w.authenticator_id payload
        (λ auth t. code_done ip out keys auth log t (execute out keys w payload t)) log refl) [
          | inl refused ↦ inl refused
          | inr (u, auth, granted, same) ↦ inr (w, e, (u, auth, granted, same))
        ]

  pub cetmix_webhook-outcome :
      (webhooks : List Webhook)
      → IsRefused (cetmix_webhook ip out keys webhooks req s)
        ⊎ IsExecuted webhooks (cetmix_webhook ip out keys webhooks req s)
  unfolding cetmix_webhook
  cetmix_webhook-outcome webhooks =
      outcome webhooks (find_first (answers ip out keys req) webhooks) refl

  chosen_status :
      (b : Bool) (x y : Response × State)
      → y.0.status ≡ 500
      → (if b then x else y).0.status ≡ 200
      → b ≡ true
  chosen_status true x y e h = refl
  chosen_status false x y e h = absurd (omega arith)

  -- the code ended with exit code 0
  done_is_zero :
      (auth : AuthenticationStatus) (log : LogValues) (u : State) (r : Result Text (Answer × State))
      → (code_done ip out keys auth log u r).0.status ≡ 200
      → (answer : Answer) × (t : State) × (r ≡ ok (answer, t)) × (answer.exit_code ≡ some (pos 0))
  unfolding finalize_webhook_response
  done_is_zero auth log u (err e) h = absurd (omega arith)
  done_is_zero auth log u (ok (answer, t)) h = (answer, t, refl, by_code answer.exit_code h)
    where
      by_code :
          (o : Option ℤ)
          → (code_done ip out keys auth log u (ok (record answer { exit_code = o }, t))).0.status
            ≡ 200
          → o ≡ some (pos 0)
      by_code none h = absurd (omega arith)
      by_code (some code) h =
          ap some ((int_beq_iff code (pos 0)).0 (chosen_status (int_beq code (pos 0)) _ _ refl h))

  -- A response 200 means that an active webhook of the endpoint and method was found, that the request
  -- was granted, and that the webhook's code then ended with exit code 0.
  pub success_is_authenticated :
      (webhooks : List Webhook)
      → (cetmix_webhook ip out keys webhooks req s).0.status ≡ 200
      → (w : Webhook) × (find_first (answers ip out keys req) webhooks ≡ some w)
        × ((u : State) × IsGranted w.authenticator_id
              (extract_webhook_request_payload ip out keys (some w) req)
              u
            × ((answer : Answer) × (t : State) × (execute out keys w
                    (extract_webhook_request_payload ip out keys (some w) req)
                    u
                  ≡ ok (answer, t))
                × (answer.exit_code ≡ some (pos 0))))
  success_is_authenticated webhooks h = elim (cetmix_webhook-outcome webhooks) [
    | inl (log, logs, skipped, inl at403) ↦ absurd (omega arith)
    | inl (log, logs, skipped, inr at404) ↦ absurd (omega arith)
    | inr (w, found, (u, auth, granted, same)) ↦ (
      w,
      found,
      (
        u,
        granted,
        done_is_zero auth (first_values ip out keys (some w) req) u _
            (sym (ap (λ r. r.0.status) same) ∙ h),
      ),
    )
  ]
