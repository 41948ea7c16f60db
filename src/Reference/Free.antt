-- ===== src/Reference/Free.antt =====
-- About the loops that look for a free reference or name.
use cetmix_tower.Prelude.{
  ℕ, zero, suc, ◌<◌, ◌≤◌, ◌≡◌, ◌∙◌, refl, sym, ap, true, false, not, Option, some, List, [], ◌∷◌,
  ◌==◌, nat_eq, list_eq, list_beq_iff, if◌then◌else◌, if_true, if_false, contains, keep, length,
  arith, Bool-cases, inl, inr,
}
use cetmix_tower.Prelude.Text.{Text}
use cetmix_tower.Reference.Generate.{first_free}

-- the texts without one of them
abbrev without : Text → List Text → List Text
without c taken = keep (λ t. not (t == c)) taken

length-without-le : (c : Text) (taken : List Text) → length (without c taken) ≤ length taken
length-without-le c [] = omega arith
length-without-le c (t ∷ taken) = ground (arith, length-without-le c taken)

length-without :
    (c : Text) (taken : List Text)
    → contains taken c ≡ true
    → length (without c taken) < length taken
length-without c [] h = cc
length-without c (t ∷ taken) h = ground (arith, length-without-le c taken, length-without c taken)

contains-without :
    (c d : Text) (taken : List Text)
    → (c == d) ≡ false
    → contains (without c taken) d ≡ contains taken d
contains-without c d [] n = refl
contains-without c d (t ∷ taken) n =
    ground
      (arith, contains-without c d taken n, list_beq_iff t c, list_beq_iff t d, list_beq_iff c d)

-- No two candidates are the same text.
abbrev pub Injective : (ℕ → Text) → Type 0
Injective candidate = (i j : ℕ) → 0 < i → 0 < j → candidate i ≡ candidate j → i ≡ j

different :
    (candidate : ℕ → Text) (i j : ℕ)
    → Injective candidate
    → 0 < i
    → i < j
    → (candidate i == candidate j) ≡ false
different candidate i j inj p h = elim (Bool-cases (candidate i == candidate j)) [
  | inl same ↦
      let e = inj i j p (omega arith) ((list_beq_iff (candidate i) (candidate j)).0 same) in
      absurd (omega arith)
  | inr other ↦ other
]

-- only what is taken from the counter on matters
first_free-ext :
    (fuel : ℕ) (candidate : ℕ → Text) (xs ys : List Text) (counter : ℕ)
    → ((j : ℕ) → counter ≤ j → contains xs (candidate j) ≡ contains ys (candidate j))
    → first_free fuel candidate xs counter ≡ first_free fuel candidate ys counter
unfolding first_free
first_free-ext zero candidate xs ys counter h = refl
first_free-ext (suc fuel) candidate xs ys counter h =
    ap (λ b. if b then first_free fuel candidate xs (suc counter) else some (candidate counter))
      (h counter (omega arith))
    ∙ ap (λ n. if contains ys (candidate counter) then n else some (candidate counter))
        (first_free-ext fuel candidate xs ys (suc counter) (λ j le. h j (omega arith)))

-- The text that is found is a candidate from the counter on, and is not taken.
abbrev pub IsFree : (ℕ → Text) → ℕ → List Text → Option Text → Type 0
IsFree candidate counter taken o =
    (k : ℕ) × (counter ≤ k) × (o ≡ some (candidate k)) × (contains taken (candidate k) ≡ false)

-- A loop over distinct candidates with more fuel than there are taken texts finds a free one.
pub first_free-IsFree :
    (fuel : ℕ) (candidate : ℕ → Text) (taken : List Text) (counter : ℕ)
    → Injective candidate
    → 0 < counter
    → length taken < fuel
    → IsFree candidate counter taken (first_free fuel candidate taken counter)
unfolding first_free
first_free-IsFree zero candidate taken counter inj p m = absurd (omega arith)
first_free-IsFree (suc fuel) candidate taken counter inj p m =
    elim (Bool-cases (contains taken (candidate counter))) [
      | inl old ↦
          let c = candidate counter in
          let (k, le, found, new) =
            first_free-IsFree fuel candidate (without c taken) (suc counter) inj (omega arith)
              (omega (arith, length-without c taken old)) in
          let apart = λ (j : ℕ) (h : suc counter ≤ j). sym (
            contains-without c (candidate j) taken
              (different candidate counter j inj p (omega arith))) in
          (
            k,
            omega arith,
            if_true (contains taken c) _ _ old
                ∙ first_free-ext fuel candidate taken (without c taken) (suc counter) apart
                ∙ found,
            apart k le ∙ new,
          )
      | inr new ↦ (counter, omega arith, if_false (contains taken (candidate counter)) _ _ new, new)
    ]
