-- ===== src/Vault/Refinement.antt =====
-- `_set_secret_values` and `_get_secret_value` against the abstract vault, a function from records and fields to values.
use cetmix_tower.Prelude.{
  ℕ, ◌<◌, ◌≡◌, refl, sym, ap, ◌∙◌, subst, Bool, true, false, ◌&&◌, Option, none, some, List, [],
  ◌∷◌, ◌==◌, nat_eq, list_eq, list_beq_iff, if◌then◌else◌, if_true, if_false, contains, Bool-cases,
  Option-cases, inl, inr, arith,
}
use cetmix_tower.Prelude.Text.{Text}
use cetmix_tower.Vault.Rows.{
  VaultRow, Batch, no_batch, plan_value, has_key, existing, run_batch, plan_values,
}
use cetmix_tower.Vault.Effect.{IsVault, data_of, existing-apart}
use cetmix_tower.Vault.Plan.{
  Seen, seen, seen_after, outcome, IsBelow, contains-append, run_batch-none, run_batch-row,
}
use cetmix_tower.Vault.Steps.{plan_value-same, plan_value-apart}

-- the abstract assignment: no value to assign leaves the old one, and the value none deletes it
abbrev pub overwrite : Option (Option Text) → Option Text → Option Text
overwrite none old = old
overwrite (some value) old = value

abbrev seen_final : Option VaultRow → Option (Option Text) → Seen
seen_final o none = (false, none, none)
seen_final o (some value) = seen_after o value

seen-no_batch : (i : ℕ) (f : Text) (o : Option VaultRow) → seen i f no_batch o ≡ (false, none, none)
seen-no_batch i f none = refl
seen-no_batch i f (some r) = refl

outcome-seen_final :
    (o : Option VaultRow) (a : Option (Option Text))
    → outcome o (seen_final o a) ≡ overwrite a (data_of o)
outcome-seen_final none none = refl
outcome-seen_final none (some value) = refl
outcome-seen_final (some r) none = refl
outcome-seen_final (some r) (some none) = refl
outcome-seen_final (some r) (some (some value)) = refl

seen_final-created : (r : VaultRow) (a : Option (Option Text)) → (seen_final (some r) a).2 ≡ none
seen_final-created r none = refl
seen_final-created r (some none) = refl
seen_final-created r (some (some value)) = refl

existing-below :
    (model : Text) (i : ℕ) (f : Text) (next : ℕ) (rows : List VaultRow) (r : VaultRow)
    → IsVault next rows
    → existing model rows i f ≡ some r
    → r.id < next
existing-below model i f next [] r w e = cc
existing-below model i f next (x ∷ rows) r w e = elim (Bool-cases (has_key model i f x)) [
  | inl b ↦ (let same : x ≡ r = ground arith in subst (λ (y : VaultRow). y.id < next) same w.0)
  | inr b ↦ existing-below model i f next rows r w.2 (ground arith)
]

module _ (model : Text) (secret_fields : List Text) where
  plan_value-IsBelow :
      (j : ℕ) (g : Text) (next : ℕ) (p : Option VaultRow) (value : Option Text) (b : Batch)
      → ((s : VaultRow) → p ≡ some s → s.id < next)
      → IsBelow next b.records_to_unlink
      → IsBelow next (plan_value j g p value b).records_to_unlink
  plan_value-IsBelow j g next none none b h w = w
  plan_value-IsBelow j g next none (some value) b h w = w
  plan_value-IsBelow j g next (some s) none b h w =
      λ m l. contains-append b.records_to_unlink s.id m ∙ ground (arith, w m l, h s refl)
  plan_value-IsBelow j g next (some s) (some value) b h w = w

  plan_values-IsBelow :
      (next : ℕ) (rows : List VaultRow) (ps : List (ℕ × Text × Option Text)) (b : Batch)
      → IsVault next rows
      → IsBelow next b.records_to_unlink
      → IsBelow next (plan_values model secret_fields rows ps b).records_to_unlink
  unfolding plan_values
  plan_values-IsBelow next rows [] b w h = h
  plan_values-IsBelow next rows ((j, g, value) ∷ ps) b w h =
      plan_values-IsBelow next rows ps _ w (elim (Bool-cases (contains secret_fields g)) [
        | inl e ↦
            subst (λ (c : Batch). IsBelow next c.records_to_unlink)
              (sym (if_true (contains secret_fields g) _ _ e))
              (plan_value-IsBelow j g next (existing model rows j g) value b
                (λ s. existing-below model j g next rows s w) h)
        | inr e ↦
            subst (λ (c : Batch). IsBelow next c.records_to_unlink)
              (sym (if_false (contains secret_fields g) _ _ e)) h
      ])

  module _ (i : ℕ) (f : Text) where
    abbrev pub hits : ℕ → Text → Bool
    hits j g = (j == i && g == f) && contains secret_fields g

    -- what the loop assigns to the field of the record
    abbrev pub assigned : List (ℕ × Text × Option Text) → Option (Option Text)
    assigned [] = none
    assigned ((j, g, value) ∷ ps) = if hits j g then some value else assigned ps

    abbrev pub IsOnce : List (ℕ × Text × Option Text) → Type 0
    IsOnce [] = Unit
    IsOnce ((j, g, value) ∷ ps) = (hits j g ≡ true → assigned ps ≡ none) × IsOnce ps

    module _ (next : ℕ) (rows : List VaultRow) (w : IsVault next rows) where
      plan_values-step-apart :
          (j : ℕ) (g : Text) (value : Option Text) (b : Batch)
          → hits j g ≡ false
          → seen i f
              (if contains secret_fields g
                then plan_value j g (existing model rows j g) value b
                else b)
              (existing model rows i f)
            ≡ seen i f b (existing model rows i f)
      plan_values-step-apart j g value b h = elim (Bool-cases (contains secret_fields g)) [
        | inl e ↦
            ap (λ c. seen i f c (existing model rows i f))
              (if_true (contains secret_fields g) _ _ e)
            ∙ plan_value-apart i f j g (existing model rows i f) (existing model rows j g) value b
                (ground arith) (λ r s. existing-apart model i j f g next rows r s w (ground arith))
        | inr e ↦
            ap (λ c. seen i f c (existing model rows i f))
              (if_false (contains secret_fields g) _ _ e)
      ]

      plan_values-step-same :
          (j : ℕ) (g : Text) (value : Option Text) (b : Batch)
          → hits j g ≡ true
          → seen i f b (existing model rows i f) ≡ (false, none, none)
          → seen i f
              (if contains secret_fields g
                then plan_value j g (existing model rows j g) value b
                else b)
              (existing model rows i f)
            ≡ seen_after (existing model rows i f) value
      plan_values-step-same j g value b k h =
          let o = existing model rows i f in
          let same_field : g ≡ f = ground (arith, list_beq_iff g f) in
          let same_record : j ≡ i = ground arith in
          ap (λ c. seen i f c o) (if_true (contains secret_fields g) _ _ (ground arith))
          ∙ ap (λ x. seen i f (plan_value x g (existing model rows x g) value b) o) same_record
          ∙ ap (λ y. seen i f (plan_value i y (existing model rows i y) value b) o) same_field
          ∙ plan_value-same i f o value b h

      plan_values-none :
          (ps : List (ℕ × Text × Option Text)) (b : Batch)
          → assigned ps ≡ none
          → seen i f (plan_values model secret_fields rows ps b) (existing model rows i f)
            ≡ seen i f b (existing model rows i f)
      unfolding plan_values
      plan_values-none [] b e = refl
      plan_values-none ((j, g, value) ∷ ps) b e =
          plan_values-none ps _ (ground arith) ∙ plan_values-step-apart j g value b (ground arith)

      plan_values-assigned :
          (ps : List (ℕ × Text × Option Text)) (b : Batch) (value : Option Text)
          → IsOnce ps
          → assigned ps ≡ some value
          → seen i f b (existing model rows i f) ≡ (false, none, none)
          → seen i f (plan_values model secret_fields rows ps b) (existing model rows i f)
            ≡ seen_after (existing model rows i f) value
      unfolding plan_values
      plan_values-assigned [] b value o1 e h = cc
      plan_values-assigned ((j, g, v) ∷ ps) b value o1 e h =
          let o = existing model rows i f in
          let c : Batch =
            if contains secret_fields g then plan_value j g (existing model rows j g) v b else b in
          elim (Bool-cases (hits j g)) [
            | inl k ↦
                (let same : v ≡ value = ground arith in
                  plan_values-none ps c (o1.0 k)
                  ∙ plan_values-step-same j g v b k h
                  ∙ ap (seen_after o) same)
            | inr k ↦
                plan_values-assigned ps c value o1.1 (ground arith)
                  (plan_values-step-apart j g v b k ∙ h)
          ]

      plan_values-seen :
          (ps : List (ℕ × Text × Option Text))
          → IsOnce ps
          → seen i f (plan_values model secret_fields rows ps no_batch) (existing model rows i f)
            ≡ seen_final (existing model rows i f) (assigned ps)
      plan_values-seen ps o1 =
          let start = seen-no_batch i f (existing model rows i f) in
          elim (Option-cases (assigned ps)) [
            | inl e ↦
                plan_values-none ps no_batch e
                ∙ start
                ∙ ap (seen_final (existing model rows i f)) (sym e)
            | inr (v, e) ↦
                plan_values-assigned ps no_batch v o1 e start
                ∙ ap (seen_final (existing model rows i f)) (sym e)
          ]

      -- what the key has after the batch
      pub run_batch-stored :
          (ps : List (ℕ × Text × Option Text))
          → IsOnce ps
          → data_of (
              existing model
                (run_batch model (plan_values model secret_fields rows ps no_batch) next rows)
                i
                f)
            ≡ overwrite (assigned ps) (data_of (existing model rows i f))
      run_batch-stored ps o1 =
          let b = plan_values model secret_fields rows ps no_batch in
          let s = plan_values-seen ps o1 in
          let below = plan_values-IsBelow next rows ps no_batch w (λ m l. refl) in
          let rest =
            ap (outcome (existing model rows i f)) s
            ∙ outcome-seen_final (existing model rows i f) (assigned ps) in
          elim (Option-cases (existing model rows i f)) [
            | inl e ↦
                run_batch-none model i f b next rows w below e
                ∙ sym (ap (λ o. outcome o (seen i f b o)) e)
                ∙ rest
            | inr (r, e) ↦
                run_batch-row model i f b next rows r w
                  (sym (ap (λ (o : Option VaultRow). (seen i f b o).2) e)
                    ∙ ap (λ (t : Seen). t.2) s
                    ∙ ap (λ (o : Option VaultRow). (seen_final o (assigned ps)).2) e
                    ∙ seen_final-created r (assigned ps))
                  e
                ∙ sym (ap (λ o. outcome o (seen i f b o)) e)
                ∙ rest
          ]
