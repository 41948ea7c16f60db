-- ===== src/Webhook/Address.antt =====
-- Which addresses may call a webhook: `is_ip_allowed` and its helpers of
-- cetmix_tower_webhook/models/cx_tower_webhook_authenticator.py. A text that is missing or `None` is the
-- empty text here: the code tests both alike.
use cetmix_tower.Prelude.{
  Bool, true, false, Option, none, some, List, [], ◌∷◌, ◌++◌, if◌then◌else◌, is_empty, some_of,
}
use cetmix_tower.Prelude.Text.{Text, codes, split, strip, whitespace}

-- Python's module `ipaddress`; `none` is its ValueError.
pub record IpAddress (Address Network : Type 0) : Type 0 where
  pub ip_address : Text → Option Address
  pub ip_network : Text → Option Network
  pub is_in : Address → Network → Bool
  pub compressed : Address → Text
  pub exploded : Address → Text
  pub is_version_4 : Address → Bool

pub record Allowlist : Type 0 where
  pub allowed_ip_addresses : Text
  pub trusted_proxy_ips : Text

-- what the check reads of `request.httprequest`
pub record Peer : Type 0 where
  pub remote_addr : Text
  pub x_forwarded_for : Text
  pub x_real_ip : Text

abbrev pub or_text : Text → Text → Text
or_text [] b = b
or_text (c ∷ a) b = c ∷ a

module _ {Address Network : Type 0} (ip : IpAddress Address Network) where
  -- the second attempt for an entry: an address as a network of its own
  abbrev pub single_network : Text → Option Address → Option Network
  single_network entry none = none
  single_network entry (some address) =
      ip.ip_network
        (ip.exploded address ++ (if ip.is_version_4 address then codes "/32" else codes "/128"))

  abbrev pub network_of_entry : Text → Option Network → Option Network
  network_of_entry entry none = single_network entry (ip.ip_address entry)
  network_of_entry entry (some network) = some network

  abbrev pub add_network : Option Network → List Network → List Network
  add_network none networks = networks
  add_network (some network) networks = network ∷ networks

  -- one entry between commas; a blank one is passed over
  abbrev pub put_entry : Text → List Network → List Network
  put_entry [] networks = networks
  put_entry (c ∷ entry) networks =
      add_network (network_of_entry (c ∷ entry) (ip.ip_network (c ∷ entry))) networks

  unfoldable pub networks_of : List Text → List Network
  unfolding strip
  networks_of [] = []
  networks_of (part ∷ parts) = put_entry (strip whitespace part) (networks_of parts)

  unfoldable pub parse_ip_list_to_networks : Text → List Network
  unfolding networks_of split
  parse_ip_list_to_networks spec = if is_empty spec then [] else networks_of (split b',' spec)

  -- `_validate_ip_token`: the first entry that is neither a network nor an address
  abbrev pub is_entry : Option Network → Option Address → Bool
  is_entry (some network) o = true
  is_entry none (some address) = true
  is_entry none none = false

  abbrev pub validate_entry : Text → Option Text → Option Text
  validate_entry [] rest = rest
  validate_entry (c ∷ entry) rest =
      if is_entry (ip.ip_network (c ∷ entry)) (ip.ip_address (c ∷ entry))
      then rest
      else some (c ∷ entry)

  unfoldable pub validate_entries : List Text → Option Text
  unfolding strip
  validate_entries [] = none
  validate_entries (part ∷ parts) = validate_entry (strip whitespace part) (validate_entries parts)

  unfoldable pub validate_ip_token : Text → Option Text
  unfolding validate_entries split
  validate_ip_token spec = if is_empty spec then none else validate_entries (split b',' spec)

  -- the first token of the header that is an address
  abbrev pub first_token : Text → Option Address → Text → Text
  first_token [] address rest = rest
  first_token (c ∷ token) none rest = rest
  first_token (c ∷ token) (some address) rest = ip.compressed address

  unfoldable pub first_address : List Text → Text
  unfolding strip
  first_address [] = []
  first_address (part ∷ parts) =
      let token = strip whitespace part in
      first_token token (ip.ip_address token) (first_address parts)

  unfoldable pub extract_ip_from_header : Text → Text
  unfolding first_address split
  extract_ip_from_header header_value =
      if is_empty header_value then [] else first_address (split b',' header_value)

  -- the candidate replaces the peer if it is an address
  abbrev pub use_candidate : Address → Text → Option Address → Address
  use_candidate immediate [] address = immediate
  use_candidate immediate (c ∷ candidate) none = immediate
  use_candidate immediate (c ∷ candidate) (some address) = address

  unfoldable pub client_behind_proxy : Peer → Address → Address
  unfolding extract_ip_from_header
  client_behind_proxy peer immediate =
      let candidate =
        or_text (extract_ip_from_header peer.x_forwarded_for)
          (extract_ip_from_header peer.x_real_ip) in
      use_candidate immediate candidate (ip.ip_address candidate)

  unfoldable pub is_trusted_proxy : Allowlist → Address → Bool
  unfolding parse_ip_list_to_networks strip
  is_trusted_proxy list immediate =
      some_of (ip.is_in immediate)
        (parse_ip_list_to_networks (strip whitespace list.trusted_proxy_ips))

  unfoldable pub client_of : Allowlist → Peer → Option Address → Option Address
  unfolding is_trusted_proxy client_behind_proxy
  client_of list peer none = none
  client_of list peer (some immediate) =
      some
        (if is_trusted_proxy list immediate then client_behind_proxy peer immediate else immediate)

  abbrev pub peer_address : Text → Option Address
  peer_address [] = none
  peer_address (c ∷ immediate_peer) = ip.ip_address (c ∷ immediate_peer)

  unfoldable pub effective_client_ip : Allowlist → Peer → Text → Option Address
  unfolding client_of
  effective_client_ip list peer remote_addr =
      client_of list peer (peer_address (or_text remote_addr peer.remote_addr))

  unfoldable pub is_listed : Text → Option Address → Bool
  unfolding parse_ip_list_to_networks
  is_listed spec none = false
  is_listed spec (some client_ip) =
      if is_empty spec then true else some_of (ip.is_in client_ip) (parse_ip_list_to_networks spec)

  unfoldable pub is_ip_allowed : Allowlist → Peer → Text → Bool
  unfolding effective_client_ip is_listed strip
  is_ip_allowed list peer remote_addr =
      is_listed (strip whitespace list.allowed_ip_addresses)
        (effective_client_ip list peer remote_addr)
