-- ===== src/Examples/Hooks.antt =====
-- A webhook with an authenticator, and the properties of requests applied to it. Addresses are their own
-- texts, and a network holds the address that it is written as.
use cetmix_tower.Prelude.{
  ℕ, ◌≡◌, suc, refl, true, none, some, [], ◌∷◌, ◌++◌, ok, err, ◌==◌, list_eq, nat_eq, length,
  count_of, pos, find_first, if◌then◌else◌,
}
use cetmix_tower.Prelude.Text.{Text, codes, split, starts_with, take, strip}
use cetmix_tower.Webhook.Address.{
  IpAddress, Allowlist, Peer, is_ip_allowed, parse_ip_list_to_networks, validate_ip_token,
  effective_client_ip, networks_of, validate_entries, is_listed, client_of, is_trusted_proxy,
}
use cetmix_tower.Webhook.Allowlist.{
  IsAdmitted, is_ip_allowed-IsAdmitted, untrusted_headers_ignored, has_text,
  validated_list_complete,
}
use cetmix_tower.Webhook.Evaluation.{
  Answer, Webhook, json, Request, Outside, execute, authenticate, run_webhook_eval_code,
  parse_eval_code_result,
}
use cetmix_tower.Webhook.Request.{
  cetmix_webhook, finalize_webhook_response, answers, extract_webhook_request_payload,
}
use cetmix_tower.Webhook.Gate.{IsGranted, success_is_authenticated}

-- an address begins with the digit 1; a network is any text
abbrev addresses : IpAddress Text Text
addresses = record {
  ip_address = λ text. if starts_with (codes "1") text then some text else none;
  ip_network = λ text. some text;
  is_in = λ address network. address == take (length address) network;
  compressed = λ address. address;
  exploded = λ address. address;
  is_version_4 = λ _. true;
}

abbrev allowlist : Allowlist
allowlist = record { allowed_ip_addresses = codes "10, 11"; trusted_proxy_ips = codes "19" }

abbrev peer : Peer
peer = record { remote_addr = codes "11"; x_forwarded_for = codes "10"; x_real_ip = [] }

is_ip_allowed-IsAdmitted_example : IsAdmitted addresses allowlist peer (codes "11")
unfolding is_ip_allowed is_listed parse_ip_list_to_networks networks_of effective_client_ip
    client_of is_trusted_proxy strip split
is_ip_allowed-IsAdmitted_example =
    is_ip_allowed-IsAdmitted addresses allowlist peer (codes "11") refl

untrusted_headers_ignored_example :
    is_ip_allowed addresses allowlist
      (record { remote_addr = codes "12"; x_forwarded_for = codes "10"; x_real_ip = [] })
      (codes "12")
    ≡ is_ip_allowed addresses allowlist
        (record { remote_addr = codes "12"; x_forwarded_for = []; x_real_ip = [] })
        (codes "12")
unfolding is_trusted_proxy parse_ip_list_to_networks networks_of strip split
untrusted_headers_ignored_example =
    untrusted_headers_ignored addresses allowlist (codes "12") (codes "12") (codes "12")
      (codes "10") [] [] [] refl refl

validated_list_complete_example :
    length (parse_ip_list_to_networks addresses (codes "10,,11"))
    ≡ count_of (has_text addresses) (split b',' (codes "10,,11"))
unfolding validate_ip_token validate_entries split strip
validated_list_complete_example =
    validated_list_complete addresses (codes "10,,11") (λ entry a e. (a ++ codes "/32", refl)) refl

-- the authenticator's code `ok` agrees and counts up the state; other code ends with exit code 0
abbrev outside : Outside Text ℕ
outside = record {
  empty_payload = [];
  json_loads = λ text. ok text;
  safe_eval = λ code payload s. ok (
    some (record { allowed = code == codes "ok"; exit_code = some (pos 0); message = none }),
    suc s,
  );
  create = λ log s. ok (suc s);
}

abbrev guarded : Webhook
guarded = record {
  id = 1;
  active = true;
  endpoint = codes "deploy";
  method = codes "post";
  content_type = json;
  authenticator_id = some (record { id = 2; allowlist = allowlist; code = codes "ok" });
  code = codes "run";
}

abbrev incoming : Request Text
incoming = record {
  endpoint = codes "deploy";
  method = codes "POST";
  peer = peer;
  raw_data = codes "x";
  form_data = err [];
  args = err [];
}

success_is_authenticated_example :
    (w : Webhook) × (find_first (answers addresses outside [] incoming) (guarded ∷ []) ≡ some w)
    × ((u : ℕ) × IsGranted addresses outside [] incoming 0 w.authenticator_id
          (extract_webhook_request_payload addresses outside [] (some w) incoming)
          u
        × ((answer : Answer) × (t : ℕ) × (execute outside [] w
                (extract_webhook_request_payload addresses outside [] (some w) incoming)
                u
              ≡ ok (answer, t))
            × (answer.exit_code ≡ some (pos 0))))
unfolding cetmix_webhook finalize_webhook_response execute authenticate run_webhook_eval_code
    parse_eval_code_result is_ip_allowed is_listed parse_ip_list_to_networks networks_of
    effective_client_ip client_of is_trusted_proxy strip split
success_is_authenticated_example =
    success_is_authenticated addresses outside [] incoming 0 (guarded ∷ []) refl
