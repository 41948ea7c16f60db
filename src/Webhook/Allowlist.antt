-- ===== src/Webhook/Allowlist.antt =====
-- About the address check of a webhook's authenticator.
use cetmix_tower.Prelude.{
  suc, ◌≡◌, ◌∙◌, ◌⊎◌, inl, inr, refl, sym, ap, Bool, true, false, not, Option, none, some, List, [],
  ◌∷◌, if◌then◌else◌, if_false, is_empty, some_of, arith, length, count_of, Bool-cases,
}
use cetmix_tower.Prelude.Text.{Text, split, strip, whitespace}
use cetmix_tower.Webhook.Address.{
  IpAddress, Allowlist, Peer, or_text, single_network, network_of_entry, add_network, put_entry,
  networks_of, parse_ip_list_to_networks, is_entry, validate_entry, validate_entries,
  validate_ip_token, is_trusted_proxy, client_of, peer_address, effective_client_ip, is_listed,
  is_ip_allowed,
}

-- Some element of a list has a property.
abbrev pub Exists {ℓ} : {A : Type ℓ} → (A → Type 0) → List A → Type 0
Exists P [] = ⊥
Exists P (x ∷ xs) = P x ⊎ Exists P xs

module _ {Address Network : Type 0} (ip : IpAddress Address Network) where
  -- The entry between two commas is a network with the address, or an address that equals it.
  abbrev pub Admits : Address → Text → Type 0
  Admits client part =
      (n : Network) × (network_of_entry ip (strip whitespace part)
          (ip.ip_network (strip whitespace part))
        ≡ some n)
      × (ip.is_in client n ≡ true)

  entry-Admits :
      (client : Address) (entry : Text) (rest : List Network)
      → some_of (ip.is_in client) (put_entry ip entry rest) ≡ true
      → ((n : Network) × (network_of_entry ip entry (ip.ip_network entry) ≡ some n)
          × (ip.is_in client n ≡ true))
        ⊎ (some_of (ip.is_in client) rest ≡ true)
  entry-Admits client [] rest h = inr h
  entry-Admits client (c ∷ entry) rest h =
      by_network (network_of_entry ip (c ∷ entry) (ip.ip_network (c ∷ entry))) refl h
    where
      by_network :
          (o : Option Network)
          → network_of_entry ip (c ∷ entry) (ip.ip_network (c ∷ entry)) ≡ o
          → some_of (ip.is_in client) (add_network ip o rest) ≡ true
          → ((n : Network) × (network_of_entry ip (c ∷ entry) (ip.ip_network (c ∷ entry)) ≡ some n)
              × (ip.is_in client n ≡ true))
            ⊎ (some_of (ip.is_in client) rest ≡ true)
      by_network none e h = inr h
      by_network (some n) e h = elim (Bool-cases (ip.is_in client n)) [
        | inl inside ↦ inl (n, e, inside)
        | inr outside ↦ inr (ground arith)
      ]

  networks-Admits :
      (client : Address) (parts : List Text)
      → some_of (ip.is_in client) (networks_of ip parts) ≡ true
      → Exists (Admits client) parts
  unfolding networks_of
  networks-Admits client [] h = cc
  networks-Admits client (part ∷ parts) h =
      elim (entry-Admits client (strip whitespace part) (networks_of ip parts) h) [
        | inl a ↦ inl a
        | inr r ↦ inr (networks-Admits client parts r)
      ]

  -- Why an address is let through.
  abbrev pub IsAdmitted : Allowlist → Peer → Text → Type 0
  IsAdmitted list peer remote_addr =
      (client : Address) × (effective_client_ip ip list peer remote_addr ≡ some client)
      × ((strip whitespace list.allowed_ip_addresses ≡ [])
          ⊎ Exists (Admits client) (split b',' (strip whitespace list.allowed_ip_addresses)))

  listed-Admits :
      (client : Address) (spec : Text)
      → is_listed ip spec (some client) ≡ true
      → (spec ≡ []) ⊎ Exists (Admits client) (split b',' spec)
  unfolding is_listed parse_ip_list_to_networks
  listed-Admits client [] h = inl refl
  listed-Admits client (c ∷ spec) h = inr (networks-Admits client (split b',' (c ∷ spec)) h)

  listed-some :
      (spec : Text) (o : Option Address)
      → is_listed ip spec o ≡ true
      → (client : Address) × (o ≡ some client)
        × ((spec ≡ []) ⊎ Exists (Admits client) (split b',' spec))
  unfolding is_listed
  listed-some spec none h = cc
  listed-some spec (some client) h = (client, refl, listed-Admits client spec h)

  -- An address is let through only if it was determined, and if the allowlist is blank or has an entry,
  -- read as a network or a single address, that contains it: entries that are neither admit no one.
  pub is_ip_allowed-IsAdmitted :
      (list : Allowlist) (peer : Peer) (remote_addr : Text)
      → is_ip_allowed ip list peer remote_addr ≡ true
      → IsAdmitted list peer remote_addr
  unfolding is_ip_allowed
  is_ip_allowed-IsAdmitted list peer remote_addr h =
      listed-some (strip whitespace list.allowed_ip_addresses)
        (effective_client_ip ip list peer remote_addr) h

  untrusted_client :
      (list : Allowlist) (peer : Peer) (address : Address)
      → is_trusted_proxy ip list address ≡ false
      → client_of ip list peer (some address) ≡ some address
  unfolding client_of
  untrusted_client list peer address h = ap some (if_false (is_trusted_proxy ip list address) _ _ h)

  -- A request whose immediate peer is no trusted proxy: the answer of the check is the same whatever
  -- its headers X-Forwarded-For and X-Real-IP say.
  pub untrusted_headers_ignored :
      (list : Allowlist) (remote_addr direct : Text) (address : Address) (a b c d : Text)
      → peer_address ip (or_text remote_addr direct) ≡ some address
      → is_trusted_proxy ip list address ≡ false
      → is_ip_allowed ip list
          (record { remote_addr = direct; x_forwarded_for = a; x_real_ip = b })
          remote_addr
        ≡ is_ip_allowed ip list
            (record { remote_addr = direct; x_forwarded_for = c; x_real_ip = d })
            remote_addr
  unfolding is_ip_allowed effective_client_ip
  untrusted_headers_ignored list remote_addr direct address a b c d e h =
      let spec = strip whitespace list.allowed_ip_addresses in
      let p : Peer = record { remote_addr = direct; x_forwarded_for = a; x_real_ip = b } in
      let q : Peer = record { remote_addr = direct; x_forwarded_for = c; x_real_ip = d } in
      ap (λ o. is_listed ip spec (client_of ip list p o)) e
      ∙ ap (is_listed ip spec)
          (untrusted_client list p address h ∙ sym (untrusted_client list q address h))
      ∙ ap (λ o. is_listed ip spec (client_of ip list q o)) (sym e)

  -- how many entries are not blank
  abbrev pub has_text : Text → Bool
  has_text part = not (is_empty (strip whitespace part))

  entry-length :
      (entry : Text) (rest : List Network) (later : Option Text)
      → ((a : Address)
          → ip.ip_address entry ≡ some a
          → (n : Network) × (single_network ip entry (some a) ≡ some n))
      → validate_entry ip entry later ≡ none
      → (later ≡ none)
        × (length (put_entry ip entry rest)
            ≡ (if not (is_empty entry) then suc (length rest) else length rest))
  entry-length [] rest later s v = (v, refl)
  entry-length (c ∷ entry) rest later s v =
      by_parts (ip.ip_network (c ∷ entry)) (ip.ip_address (c ∷ entry)) refl refl v
    where
      by_parts :
          (n : Option Network) (a : Option Address)
          → ip.ip_network (c ∷ entry) ≡ n
          → ip.ip_address (c ∷ entry) ≡ a
          → (if is_entry ip n a then later else some (c ∷ entry)) ≡ none
          → (later ≡ none)
            × (length (add_network ip (network_of_entry ip (c ∷ entry) n) rest) ≡ suc (length rest))
      by_parts (some n) a e f v = (v, refl)
      by_parts none none e f v = cc
      by_parts none (some a) e f v =
          let (n, single) = s a f in
          (
            v,
            ap (λ o. length (add_network ip (single_network ip (c ∷ entry) o) rest)) f
                ∙ ap (λ o. length (add_network ip o rest)) single,
          )

  -- Every single address makes a network: what `ip_network` promises for an address with /32 or /128.
  abbrev pub SingleNetworks : Type 0
  SingleNetworks =
      (entry : Text) (a : Address)
      → ip.ip_address entry ≡ some a
      → (n : Network) × (single_network ip entry (some a) ≡ some n)

  entries-length :
      (parts : List Text)
      → SingleNetworks
      → validate_entries ip parts ≡ none
      → length (networks_of ip parts) ≡ count_of has_text parts
  unfolding networks_of validate_entries
  entries-length [] s v = refl
  entries-length (part ∷ parts) s v =
      let (later, e) =
        entry-length (strip whitespace part) (networks_of ip parts) (validate_entries ip parts)
          (s (strip whitespace part)) v in
      let rest = entries-length parts s later in
      e ∙ ap (λ n. if has_text part then suc n else n) rest

  -- A list that the constraint accepts loses no entry when it is parsed: it has as many networks as
  -- entries that are not blank.
  pub validated_list_complete :
      (spec : Text)
      → SingleNetworks
      → validate_ip_token ip spec ≡ none
      → length (parse_ip_list_to_networks ip spec) ≡ count_of has_text (split b',' spec)
  unfolding validate_ip_token parse_ip_list_to_networks split
  validated_list_complete [] s v = refl
  validated_list_complete (c ∷ spec) s v = entries-length (split b',' (c ∷ spec)) s v
