-- ===== src/Vault/Steps.antt =====
-- The steps of the loop of `_set_secret_values`, as one record and one field see them.
use cetmix_tower.Prelude.{
  ℕ, ◌≡◌, refl, ap, ◌∙◌, Bool, false, ◌&&◌, Option, none, some, List, [], ◌∷◌, ◌++◌, ◌==◌, nat_eq,
  list_eq, list_beq_iff, Option-cases, inl, inr, arith,
}
use cetmix_tower.Prelude.Text.{Text}
use cetmix_tower.Vault.Rows.{VaultRow, Batch, plan_value}
use cetmix_tower.Vault.Effect.{created}
use cetmix_tower.Vault.Plan.{
  Seen, seen, seen_after, contains-append, written-add_update, written-add_update-apart,
  created-append,
}

seen_eq :
    (a b : Bool) (v w x y : Option Text)
    → a ≡ b
    → v ≡ w
    → x ≡ y
    → ◌≡◌ {A = Seen} (a, v, x) (b, w, y)
seen_eq a b v w x y p q r = cc

module _ (i : ℕ) (f : Text) where
  -- the step that concerns the key
  pub plan_value-same :
      (o : Option VaultRow) (value : Option Text) (b : Batch)
      → seen i f b o ≡ (false, none, none)
      → seen i f (plan_value i f o value b) o ≡ seen_after o value
  plan_value-same none none b h = h
  plan_value-same none (some value) b h =
      let new = ap (λ (s : Seen). s.2) h in
      ap (λ c. (false, none, c))
        (created-append i i f f value b.records_to_create ∙ ground (arith, list_beq_iff f f))
  plan_value-same (some r) none b h =
      seen_eq _ _ _ _ _ _ (contains-append b.records_to_unlink r.id r.id ∙ ground arith)
        (ap (λ (s : Seen). s.1) h) (ap (λ (s : Seen). s.2) h)
  plan_value-same (some r) (some value) b h =
      seen_eq _ _ _ _ _ _ (ap (λ (s : Seen). s.0) h)
        (written-add_update value r.id b.vals_to_update_records (ap (λ (s : Seen). s.1) h))
        (ap (λ (s : Seen). s.2) h)

  pub created-apart :
      (j : ℕ) (g value : Text) (new : List (ℕ × Text × Text))
      → (j == i && g == f) ≡ false
      → created i f (new ++ (j, g, value) ∷ []) ≡ created i f new
  created-apart j g value new n =
      created-append i j f g value new
      ∙ elim (Option-cases (created i f new)) [ inl e ↦ ground arith | inr (v, e) ↦ ground arith ]

  -- a step that concerns another key
  pub plan_value-apart :
      (j : ℕ) (g : Text) (o p : Option VaultRow) (value : Option Text) (b : Batch)
      → (j == i && g == f) ≡ false
      → ((r s : VaultRow) → o ≡ some r → p ≡ some s → (s.id == r.id) ≡ false)
      → seen i f (plan_value j g p value b) o ≡ seen i f b o
  plan_value-apart j g o none none b n h = refl
  plan_value-apart j g none none (some value) b n h =
      seen_eq _ _ _ _ _ _ refl refl (created-apart j g value b.records_to_create n)
  plan_value-apart j g (some r) none (some value) b n h =
      seen_eq _ _ _ _ _ _ refl refl (created-apart j g value b.records_to_create n)
  plan_value-apart j g none (some s) none b n h = refl
  plan_value-apart j g (some r) (some s) none b n h =
      seen_eq _ _ _ _ _ _
        (contains-append b.records_to_unlink s.id r.id ∙ ground (arith, h r s refl refl)) refl refl
  plan_value-apart j g none (some s) (some value) b n h = refl
  plan_value-apart j g (some r) (some s) (some value) b n h =
      seen_eq _ _ _ _ _ _ refl
        (written-add_update-apart value s.id r.id b.vals_to_update_records (h r s refl refl)) refl
