-- ===== src/Vault/NewKeys.antt =====
-- The entries that the loop of `_set_secret_values` collects: for keys without a row, and one for each key.
use cetmix_tower.Prelude.{
  ℕ, ◌≡◌, refl, sym, ◌∙◌, subst, true, false, ◌&&◌, Option, none, some, List, [], ◌∷◌, ◌++◌, ◌==◌,
  nat_eq, list_eq, list_beq_iff, if◌then◌else◌, if_true, if_false, contains, Bool-cases, inl, inr,
  ◌⊎◌, arith,
}
use cetmix_tower.Prelude.Text.{Text}
use cetmix_tower.Vault.Rows.{VaultRow, Batch, existing, plan_value, plan_values}
use cetmix_tower.Vault.Effect.{created}
use cetmix_tower.Vault.Steps.{created-apart}
use cetmix_tower.Vault.Refinement.{assigned, IsOnce}
use cetmix_tower.Vault.Invariant.{Entry, IsNewKeys}

module _ (model : Text) where
  IsNewKeys-append :
      (rows : List VaultRow) (j : ℕ) (g value : Text) (new : List Entry)
      → IsNewKeys model rows new
      → existing model rows j g ≡ none
      → created j g new ≡ none
      → IsNewKeys model rows (new ++ (j, g, value) ∷ [])
  IsNewKeys-append rows j g value [] k e c = (e, refl, tt)
  IsNewKeys-append rows j g value ((i, f, v) ∷ new) k e c = (
    k.0,
    created-apart i f j g value new (ground (arith, list_beq_iff f g, list_beq_iff g f)) ∙ k.1,
    IsNewKeys-append rows j g value new k.2 e (ground arith),
  )

module _ (model : Text) (secret_fields : List Text) where
  -- each key is still to be assigned or still without an entry
  abbrev IsOpen : List Entry → List (ℕ × Text × Option Text) → Type 0
  IsOpen new ps =
      (i : ℕ) (f : Text) → (assigned model secret_fields i f ps ≡ none) ⊎ (created i f new ≡ none)

  plan_value-IsNewKeys :
      (rows : List VaultRow) (j : ℕ) (g : Text) (o : Option VaultRow) (value : Option Text)
      (b : Batch)
      → o ≡ existing model rows j g
      → IsNewKeys model rows b.records_to_create
      → created j g b.records_to_create ≡ none
      → IsNewKeys model rows (plan_value j g o value b).records_to_create
  plan_value-IsNewKeys rows j g none none b e k c = k
  plan_value-IsNewKeys rows j g none (some value) b e k c =
      IsNewKeys-append model rows j g value b.records_to_create k (sym e) c
  plan_value-IsNewKeys rows j g (some r) none b e k c = k
  plan_value-IsNewKeys rows j g (some r) (some value) b e k c = k

  plan_value-created :
      (i j : ℕ) (f g : Text) (o : Option VaultRow) (value : Option Text) (b : Batch)
      → (j == i && g == f) ≡ false
      → created i f (plan_value j g o value b).records_to_create ≡ created i f b.records_to_create
  plan_value-created i j f g none none b n = refl
  plan_value-created i j f g none (some value) b n =
      created-apart i f j g value b.records_to_create n
  plan_value-created i j f g (some r) none b n = refl
  plan_value-created i j f g (some r) (some value) b n = refl

  plan_value-IsOpen :
      (j : ℕ) (g : Text) (o : Option VaultRow) (value : Option Text) (b : Batch)
      (ps : List (ℕ × Text × Option Text))
      → contains secret_fields g ≡ true
      → ((i : ℕ) (f : Text) → IsOnce model secret_fields i f ((j, g, value) ∷ ps))
      → IsOpen b.records_to_create ((j, g, value) ∷ ps)
      → IsOpen (plan_value j g o value b).records_to_create ps
  plan_value-IsOpen j g o value b ps s once free = λ i f. elim (Bool-cases (j == i && g == f)) [
    | inl h ↦ inl ((once i f).0 (ground arith))
    | inr h ↦ elim (free i f) [
      | inl e ↦ inl (ground arith)
      | inr e ↦ inr (plan_value-created i j f g o value b h ∙ e)
    ]
  ]

  pub plan_values-IsNewKeys :
      (rows : List VaultRow) (ps : List (ℕ × Text × Option Text)) (b : Batch)
      → ((i : ℕ) (f : Text) → IsOnce model secret_fields i f ps)
      → IsOpen b.records_to_create ps
      → IsNewKeys model rows b.records_to_create
      → IsNewKeys model rows (plan_values model secret_fields rows ps b).records_to_create
  unfolding plan_values
  plan_values-IsNewKeys rows [] b once free k = k
  plan_values-IsNewKeys rows ((j, g, value) ∷ ps) b once free k =
      let o = existing model rows j g in
      let c : Batch = plan_value j g o value b in
      let step : Batch = if contains secret_fields g then c else b in
      let later : (i : ℕ) (f : Text) → IsOnce model secret_fields i f ps = λ i f. (once i f).1 in
      elim (Bool-cases (contains secret_fields g)) [
        | inl s ↦
            (let e : step ≡ c = if_true (contains secret_fields g) c b s in
              plan_values-IsNewKeys rows ps step later
                (subst (λ (d : Batch). IsOpen d.records_to_create ps) (sym e)
                  (plan_value-IsOpen j g o value b ps s once free))
                (subst (λ (d : Batch). IsNewKeys model rows d.records_to_create) (sym e)
                  (plan_value-IsNewKeys rows j g o value b refl k
                    (elim (free j g) [ inl a ↦ ground (arith, list_beq_iff g g) | inr a ↦ a ]))))
        | inr s ↦
            (let e : step ≡ b = if_false (contains secret_fields g) c b s in
              plan_values-IsNewKeys rows ps step later
                (subst (λ (d : Batch). IsOpen d.records_to_create ps) (sym e)
                  (λ i f. elim (free i f) [
                    | inl a ↦ inl (ground (arith, list_beq_iff g f))
                    | inr a ↦ inr a
                  ]))
                (subst (λ (d : Batch). IsNewKeys model rows d.records_to_create) (sym e) k))
      ]
