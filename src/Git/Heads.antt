-- ===== src/Git/Heads.antt =====
-- What the heads of remotes are turned into.
use cetmix_tower.Prelude.{
  ℕ, ◌≡◌, ◌∙◌, refl, sym, ap, Bool, true, false, ◌||◌, List, [], ◌∷◌, ◌++◌, ok, ◌==◌, nat_eq,
  list_eq, if◌then◌else◌, if_true, if_false, contains, Bool-cases, inl, inr, arith,
}
use cetmix_tower.Prelude.Text.{Text, codes, split, prepend, lower, lower_char}
use cetmix_tower.Git.Remote.{
  HeadType, branch, pr, github, Remote, get_head_type_from_head, last_part, head_of,
  git_aggregator_prepare_head,
}

split-cons : (sep : ℕ) (s : Text) → (w : Text) × (ws : List Text) × (split sep s ≡ w ∷ ws)
unfolding split
split-cons sep [] = ([], [], refl)
split-cons sep (c ∷ s) = elim (Bool-cases (c == sep)) [
  | inl cut ↦ ([], split sep s, if_true (c == sep) _ _ cut)
  | inr inside ↦
      let (w, ws, e) = split-cons sep s in
      (c ∷ w, ws, if_false (c == sep) _ _ inside ∙ ap (prepend c) e)
]

split-append : (sep : ℕ) (a s : Text) → split sep (a ++ sep ∷ s) ≡ split sep a ++ split sep s
unfolding split
split-append sep [] s = if_true (sep == sep) _ _ (ground arith)
split-append sep (c ∷ a) s = elim (Bool-cases (c == sep)) [
  | inl cut ↦
      if_true (c == sep) _ _ cut
      ∙ ap (λ ws. [] ∷ ws) (split-append sep a s)
      ∙ sym (ap (λ ws. ws ++ split sep s) (if_true (c == sep) _ _ cut))
  | inr inside ↦
      let (w, ws, e) = split-cons sep a in
      if_false (c == sep) _ _ inside
      ∙ ap (prepend c) (split-append sep a s)
      ∙ ap (λ xs. prepend c (xs ++ split sep s)) e
      ∙ sym (ap (λ xs. prepend c xs ++ split sep s) e)
      ∙ sym (ap (λ xs. xs ++ split sep s) (if_false (c == sep) _ _ inside))
]

split-single : (sep : ℕ) (s : Text) → contains s sep ≡ false → split sep s ≡ s ∷ []
unfolding split
split-single sep [] h = refl
split-single sep (c ∷ s) h = ground (arith, split-single sep s)

last_part-append : (xs : List Text) (y : Text) → last_part (xs ++ y ∷ []) ≡ y
last_part-append [] y = refl
last_part-append (x ∷ []) y = refl
last_part-append (x ∷ x2 ∷ xs) y = last_part-append (x2 ∷ xs) y

last_part-split :
    (a b : Text) → contains b b'/' ≡ false → last_part (split b'/' (a ++ b'/' ∷ b)) ≡ b
last_part-split a b h =
    ap last_part (split-append b'/' a b ∙ ap (λ ws. split b'/' a ++ ws) (split-single b'/' b h))
    ∙ last_part-append (split b'/' a) b

lower-append : (a b : Text) → lower (a ++ b) ≡ lower a ++ lower b
lower-append [] b = refl
lower-append (c ∷ a) b = ap (λ s. lower_char c ∷ s) (lower-append a b)

contains-append :
    (xs ys : List Text) (w : Text) → contains ys w ≡ true → contains (xs ++ ys) w ≡ true
contains-append [] ys w h = h
contains-append (x ∷ xs) ys w h = ground (arith, contains-append xs ys w h)

-- a head behind a slash, for any number of the last part
abbrev pub behind_slash : Text → Text → Text
behind_slash link part = link ++ b'/' ∷ part

is_pull : (link n : Text) → get_head_type_from_head (behind_slash link (codes "pull/" ++ n)) ≡ pr
unfolding get_head_type_from_head split
is_pull link n =
    let parts = split b'/' (lower (behind_slash link (codes "pull/" ++ n))) in
    let e : parts ≡ split b'/' (lower link) ++ split b'/' (codes "pull/" ++ lower n) =
      ap (split b'/') (lower-append link (b'/' ∷ codes "pull/" ++ n))
      ∙ split-append b'/' (lower link) (codes "pull/" ++ lower n) in
    let has : contains parts (codes "pull") ≡ true =
      ap (λ ws. contains ws (codes "pull")) e
      ∙ contains-append (split b'/' (lower link)) (codes "pull" ∷ split b'/' (lower n))
          (codes "pull") refl in
    by_test (contains parts (codes "pr")) (contains parts (codes "pull")) _ _ _ has
  where
    by_test :
        (a b : Bool) (c d : Bool) (rest : HeadType)
        → b ≡ true
        → (if a || b || c || d then pr else rest) ≡ pr
    by_test true b c d rest h = refl
    by_test false true c d rest h = refl
    by_test false false c d rest h = cc

last_part-two : (xs : List Text) (x y : Text) → last_part (xs ++ x ∷ y ∷ []) ≡ y
last_part-two [] x y = refl
last_part-two (w ∷ []) x y = refl
last_part-two (w ∷ v ∷ xs) x y = last_part-two (v ∷ xs) x y

last_of_pull :
    (link n : Text)
    → contains n b'/' ≡ false
    → last_part (split b'/' (behind_slash link (codes "pull/" ++ n))) ≡ n
unfolding split
last_of_pull link n h =
    ap last_part (
      split-append b'/' link (codes "pull/" ++ n)
      ∙ ap (λ ws. split b'/' link ++ codes "pull" ∷ ws) (split-single b'/' n h))
    ∙ last_part-two (split b'/' link) (codes "pull") n

-- A link to a pull request of GitHub, whatever stands before `/pull/`, is taken for one, and is turned into
-- the reference of the pull request's head. Its number is not empty and has no slash.
pub pull_request_link :
    (r : Remote) (link n : Text) (c : ℕ)
    → contains (c ∷ n) b'/' ≡ false
    → git_aggregator_prepare_head (record r {
      head = behind_slash link (codes "pull/" ++ c ∷ n);
      head_type = get_head_type_from_head (behind_slash link (codes "pull/" ++ c ∷ n));
      repo_provider = github;
    })
      ≡ ok (codes "refs/pull/" ++ c ∷ n ++ codes "/head")
unfolding git_aggregator_prepare_head
pull_request_link r link n c h =
    let head = behind_slash link (codes "pull/" ++ c ∷ n) in
    let number : last_part (split b'/' head) ≡ c ∷ n = last_of_pull link (c ∷ n) h in
    ap (λ t. head_of github head t (last_part (split b'/' head))) (is_pull link (c ∷ n))
    ∙ ap (head_of github head pr) number

-- The head of a branch of GitHub keeps what stands behind its last slash only: branches that differ
-- before it are one and the same for the aggregator.
pub branch_folders_lost :
    (r : Remote) (folder name : Text) (c : ℕ)
    → contains (c ∷ name) b'/' ≡ false
    → git_aggregator_prepare_head (record r {
      head = behind_slash folder (c ∷ name);
      head_type = branch;
      repo_provider = github;
    })
      ≡ ok (c ∷ name)
unfolding git_aggregator_prepare_head
branch_folders_lost r folder name c h =
    ap (head_of github (behind_slash folder (c ∷ name)) branch)
      (last_part-split folder (c ∷ name) h)
