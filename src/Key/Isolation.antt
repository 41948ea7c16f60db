-- ===== src/Key/Isolation.antt =====
-- Who gets which value of a secret.
use cetmix_tower.Prelude.{
  ℕ, ◌≤◌, ◌≡◌, refl, Bool, true, false, ◌&&◌, Option, none, some, List, [], ◌∷◌, ◌==◌, nat_eq,
  arith, find_first, find_first-holds, find_first-none, All, All-map, All-zip, subst,
}
use cetmix_tower.Key.Resolve.{
  KeyValue, is_id, is_unset, for_both, for_server, for_partner, for_all, or_else, choose_value,
}
use mathlib.Core.Option.{some-injective}

-- The value may be used for the given server or partner: it is bound to none, or to that one.
abbrev pub fits_id : Option ℕ → Option ℕ → Bool
fits_id given none = true
fits_id none (some bound) = false
fits_id (some k) (some bound) = bound == k

abbrev pub fits : Option ℕ → Option ℕ → KeyValue → Bool
fits server partner v = fits_id server v.server_id && fits_id partner v.partner_id

-- How specific a value is: to a server and a partner, to a server, to a partner, to neither.
abbrev pub rank_of : Option ℕ → Option ℕ → ℕ
rank_of none none = 0
rank_of none (some partner) = 1
rank_of (some server) none = 2
rank_of (some server) (some partner) = 3

abbrev pub rank : KeyValue → ℕ
rank v = rank_of v.server_id v.partner_id

-- The four filters as one test each, for any arguments.
abbrev both_test : Option ℕ → Option ℕ → KeyValue → Bool
both_test (some server) (some partner) v = is_id server v.server_id && is_id partner v.partner_id
both_test _ _ v = false

abbrev server_test : Option ℕ → KeyValue → Bool
server_test (some server) v = is_id server v.server_id && is_unset v.partner_id
server_test none v = false

abbrev partner_test : Option ℕ → KeyValue → Bool
partner_test (some partner) v = is_id partner v.partner_id && is_unset v.server_id
partner_test none v = false

abbrev all_test : KeyValue → Bool
all_test v = is_unset v.partner_id && is_unset v.server_id

both_rank :
    (s p : Option ℕ) (v : KeyValue) → both_test s p v ≡ true → (fits s p v ≡ true) × (rank v ≡ 3)
both_rank s p v h = ground arith

server_rank :
    (s p : Option ℕ) (v : KeyValue) → server_test s v ≡ true → (fits s p v ≡ true) × (rank v ≡ 2)
server_rank s p v h = ground arith

partner_rank :
    (s p : Option ℕ) (v : KeyValue) → partner_test p v ≡ true → (fits s p v ≡ true) × (rank v ≡ 1)
partner_rank s p v h = ground arith

all_rank : (s p : Option ℕ) (v : KeyValue) → all_test v ≡ true → (fits s p v ≡ true) × (rank v ≡ 0)
all_rank s p v h = ground arith

below_both :
    (s p : Option ℕ) (v : KeyValue) → both_test s p v ≡ false → fits s p v ≡ true → rank v ≤ 2
below_both s p v h f = ground arith

below_server :
    (s p : Option ℕ) (v : KeyValue)
    → both_test s p v ≡ false
    → server_test s v ≡ false
    → fits s p v ≡ true
    → rank v ≤ 1
below_server s p v h k f = ground arith

below_partner :
    (s p : Option ℕ) (v : KeyValue)
    → both_test s p v ≡ false
    → server_test s v ≡ false
    → partner_test p v ≡ false
    → fits s p v ≡ true
    → rank v ≤ 0
below_partner s p v h k l f = ground arith

no_fit :
    (s p : Option ℕ) (v : KeyValue)
    → both_test s p v ≡ false
    → server_test s v ≡ false
    → partner_test p v ≡ false
    → all_test v ≡ false
    → fits s p v ≡ false
no_fit s p v h k l m = ground arith

find_first-never : (values : List KeyValue) → find_first (λ _. false) values ≡ none
find_first-never [] = refl
find_first-never (v ∷ values) = find_first-never values

both-find :
    (s p : Option ℕ) (values : List KeyValue)
    → find_first (both_test s p) values ≡ for_both s p values
both-find none p values = find_first-never values
both-find (some k) none values = find_first-never values
both-find (some k) (some j) values = refl

server-find :
    (s : Option ℕ) (values : List KeyValue)
    → find_first (server_test s) values ≡ for_server s values
server-find none values = find_first-never values
server-find (some k) values = refl

partner-find :
    (p : Option ℕ) (values : List KeyValue)
    → find_first (partner_test p) values ≡ for_partner p values
partner-find none values = find_first-never values
partner-find (some k) values = refl

-- The value fits, and no fitting value of the key is more specific.
abbrev pub IsBest : Option ℕ → Option ℕ → List KeyValue → KeyValue → Type 0
IsBest s p values v = (fits s p v ≡ true) × All (λ u. fits s p u ≡ true → rank u ≤ rank v) values

rank_top : (v : KeyValue) → rank v ≤ 3
rank_top v = ground arith

module _ (s p : Option ℕ) (values : List KeyValue) where
  every : (P : KeyValue → Type 0) → ((u : KeyValue) → P u) → All P values
  every P f = go values
    where
      go : (us : List KeyValue) → All P us
      go [] = tt
      go (u ∷ us) = (f u, go us)

  best :
      (o1 o2 o3 o4 : Option KeyValue) (v : KeyValue)
      → find_first (both_test s p) values ≡ o1
      → find_first (server_test s) values ≡ o2
      → find_first (partner_test p) values ≡ o3
      → find_first all_test values ≡ o4
      → or_else (or_else (or_else o1 o2) o3) o4 ≡ some v
      → IsBest s p values v
  best (some a) o2 o3 o4 v e1 e2 e3 e4 h =
      let (f, r) = both_rank s p a (find_first-holds (both_test s p) values a e1) in
      subst (IsBest s p values) (some-injective _ _ h)
        (f, every (λ u. fits s p u ≡ true → rank u ≤ rank a) (λ u _. omega (arith, rank_top u)))
  best none (some a) o3 o4 v e1 e2 e3 e4 h =
      let (f, r) = server_rank s p a (find_first-holds (server_test s) values a e2) in
      subst (IsBest s p values) (some-injective _ _ h) (
        f,
        All-map (λ u. both_test s p u ≡ false) _ values
            (λ u n g. omega (arith, below_both s p u n g))
            (find_first-none (both_test s p) values e1),
      )
  best none none (some a) o4 v e1 e2 e3 e4 h =
      let (f, r) = partner_rank s p a (find_first-holds (partner_test p) values a e3) in
      subst (IsBest s p values) (some-injective _ _ h) (
        f,
        All-map (λ u. (both_test s p u ≡ false) × (server_test s u ≡ false)) _ values
            (λ u (n, m) g. omega (arith, below_server s p u n m g))
            (All-zip _ _ values (find_first-none (both_test s p) values e1)
              (find_first-none (server_test s) values e2)),
      )
  best none none none (some a) v e1 e2 e3 e4 h =
      let (f, r) = all_rank s p a (find_first-holds all_test values a e4) in
      subst (IsBest s p values) (some-injective _ _ h) (
        f,
        All-map
            (λ u.
              ((both_test s p u ≡ false) × (server_test s u ≡ false)) × (partner_test p u ≡ false))
            _ values (λ u (nm, k) g. omega (arith, below_partner s p u nm.0 nm.1 k g))
            (All-zip _ _ values
              (All-zip _ _ values (find_first-none (both_test s p) values e1)
                (find_first-none (server_test s) values e2))
              (find_first-none (partner_test p) values e3)),
      )
  best none none none none v e1 e2 e3 e4 h = cc

  unchosen :
      (o1 o2 o3 o4 : Option KeyValue)
      → find_first (both_test s p) values ≡ o1
      → find_first (server_test s) values ≡ o2
      → find_first (partner_test p) values ≡ o3
      → find_first all_test values ≡ o4
      → or_else (or_else (or_else o1 o2) o3) o4 ≡ none
      → All (λ u. fits s p u ≡ false) values
  unchosen (some a) o2 o3 o4 e1 e2 e3 e4 h = cc
  unchosen none (some a) o3 o4 e1 e2 e3 e4 h = cc
  unchosen none none (some a) o4 e1 e2 e3 e4 h = cc
  unchosen none none none (some a) e1 e2 e3 e4 h = cc
  unchosen none none none none e1 e2 e3 e4 h =
      All-map
        (λ u.
          ((both_test s p u ≡ false) × (server_test s u ≡ false))
          × ((partner_test p u ≡ false) × (all_test u ≡ false)))
        _ values (λ u (nm, kl). no_fit s p u nm.0 nm.1 kl.0 kl.1)
        (All-zip _ _ values
          (All-zip _ _ values (find_first-none (both_test s p) values e1)
            (find_first-none (server_test s) values e2))
          (All-zip _ _ values (find_first-none (partner_test p) values e3)
            (find_first-none all_test values e4)))

  -- The value that is chosen for a server and a partner is bound to no other server and no other
  -- partner, and it is the most specific of the values that are so: one for both comes before one
  -- for the server, that before one for the partner, and the general one comes last.
  pub choose_value-IsBest : (v : KeyValue) → choose_value s p values ≡ some v → IsBest s p values v
  unfolding choose_value
  choose_value-IsBest v h =
      best (for_both s p values) (for_server s values) (for_partner p values) (for_all values) v
        (both-find s p values) (server-find s values) (partner-find p values) refl h

  -- No value is chosen only if each is bound to another server or another partner.
  choose_value-none : choose_value s p values ≡ none → All (λ u. fits s p u ≡ false) values
  unfolding choose_value
  choose_value-none h =
      unchosen (for_both s p values) (for_server s values) (for_partner p values) (for_all values)
        (both-find s p values) (server-find s values) (partner-find p values) refl h
