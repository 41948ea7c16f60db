-- ===== src/Vault/Extraction.antt =====
-- The temporary identifiers of `create` lead back to the values that they stand for.
use cetmix_tower.Prelude.{
  ℕ, suc, ◌<◌, ◌≡◌, refl, sym, ap, ◌∙◌, false, Option, none, some, List, [], ◌∷◌, ◌==◌, nat_eq,
  list_eq, list_beq_iff, if◌then◌else◌, if_false, contains, lookup, insert, Bool-cases, inl, inr,
  arith,
}
use cetmix_tower.Prelude.Text.{Text}
use cetmix_tower.Prelude.Decimal.{decimal, decimal-injective}
use cetmix_tower.Vault.Create.{SecretVals, given, Extracted, replace_value, replace_fields}

pub lookup-insert :
    {V : Type 0} (j k : Text) (v : V) (m : List (Text × V))
    → lookup j (insert k v m) ≡ (if k == j then some v else lookup j m)
lookup-insert j k v [] = refl
lookup-insert j k v ((i, w) ∷ m) =
    ground (arith, lookup-insert j k v m, list_beq_iff i k, list_beq_iff k j, list_beq_iff i j)

-- no identifier behind the counter is taken
abbrev pub IsFresh : ℕ → SecretVals → Type 0
IsFresh n s = (k : ℕ) → n < k → lookup (decimal k) s ≡ none

-- what the first dictionary has, the second has too
abbrev pub Extends : SecretVals → SecretVals → Type 0
Extends s t = (i v : Text) → lookup i s ≡ some v → lookup i t ≡ some v

insert-IsFresh :
    (n : ℕ) (v : Text) (s : SecretVals)
    → IsFresh n s
    → IsFresh (suc n) (insert (decimal (suc n)) v s)
insert-IsFresh n v s h k l =
    lookup-insert (decimal k) (decimal (suc n)) v s
    ∙ if_false (decimal (suc n) == decimal k) _ _ other
    ∙ h k (omega (arith, l))
  where
    other : (decimal (suc n) == decimal k) ≡ false
    other = elim (Bool-cases (decimal (suc n) == decimal k)) [
      | inl b ↦
          ground (
            arith,
            decimal-injective (suc n) k ((list_beq_iff (decimal (suc n)) (decimal k)).0 b),
            l,
          )
      | inr b ↦ b
    ]

insert-Extends :
    (n : ℕ) (v : Text) (s : SecretVals) → IsFresh n s → Extends s (insert (decimal (suc n)) v s)
insert-Extends n v s h i w e =
    lookup-insert i (decimal (suc n)) v s ∙ elim (Bool-cases (decimal (suc n) == i)) [
      | inl b ↦
          (let same : decimal (suc n) ≡ i = (list_beq_iff (decimal (suc n)) i).0 b in
            ground (arith, e, ap (λ j. lookup j s) (sym same) ∙ h (suc n) (omega arith)))
      | inr b ↦ if_false (decimal (suc n) == i) _ _ b ∙ e
    ]

pub replace_value-IsFresh :
    (f : Text) (o : Option Text) (e : Extracted)
    → IsFresh e.0 e.1
    → IsFresh (replace_value f o e).0 (replace_value f o e).1
replace_value-IsFresh f none e h = h
replace_value-IsFresh f (some v) e h = insert-IsFresh e.0 v e.1 h

pub replace_value-Extends :
    (f : Text) (o : Option Text) (e : Extracted)
    → IsFresh e.0 e.1
    → Extends e.1 (replace_value f o e).1
replace_value-Extends f none e h = λ i v k. k
replace_value-Extends f (some v) e h = insert-Extends e.0 v e.1 h

pub replace_fields-IsFresh :
    (fields : List Text) (e : Extracted)
    → IsFresh e.0 e.1
    → IsFresh (replace_fields fields e).0 (replace_fields fields e).1
replace_fields-IsFresh [] e h = h
replace_fields-IsFresh (f ∷ fields) e h =
    replace_fields-IsFresh fields (replace_value f (given (lookup f e.2)) e)
      (replace_value-IsFresh f (given (lookup f e.2)) e h)

pub replace_fields-Extends :
    (fields : List Text) (e : Extracted) → IsFresh e.0 e.1 → Extends e.1 (replace_fields fields e).1
replace_fields-Extends [] e h = λ i v k. k
replace_fields-Extends (f ∷ fields) e h = λ i v k.
    replace_fields-Extends fields (replace_value f (given (lookup f e.2)) e)
      (replace_value-IsFresh f (given (lookup f e.2)) e h) i v
      (replace_value-Extends f (given (lookup f e.2)) e h i v k)

replace_value-other :
    (f g : Text) (o : Option Text) (e : Extracted)
    → (g == f) ≡ false
    → lookup f (replace_value g o e).2 ≡ lookup f e.2
replace_value-other f g none e h = refl
replace_value-other f g (some v) e h =
    lookup-insert f g (some (decimal (suc e.0))) e.2 ∙ if_false (g == f) _ _ h

pub replace_fields-other :
    (f : Text) (fields : List Text) (e : Extracted)
    → contains fields f ≡ false
    → lookup f (replace_fields fields e).2 ≡ lookup f e.2
replace_fields-other f [] e h = refl
replace_fields-other f (g ∷ fields) e h =
    replace_fields-other f fields (replace_value g (given (lookup g e.2)) e) (ground arith)
    ∙ replace_value-other f g (given (lookup g e.2)) e (ground arith)
