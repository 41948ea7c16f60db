-- ===== src/Reference/Batch.antt =====
-- About records that are created, one or several at once, and copied.
use cetmix_tower.Prelude.{
  ℕ, ◌≡◌, ◌∙◌, ap, Bool, true, false, ◌||◌, some, List, [], ◌∷◌, ◌++◌, ok, err, ◌>>=◌, ◌==◌, nat_eq,
  list_eq, list_beq_iff, if_true, if_false, contains, arith,
}
use cetmix_tower.Prelude.Text.{Text, strip, whitespace}
use cetmix_tower.Reference.Generate.{matches, generate_or_fix_reference}
use cetmix_tower.Reference.Laws.{HasSuffixes, generate_or_fix_reference-free}
use cetmix_tower.Reference.Records.{
  unique_violation, Vals, Row, references, insert_rows, required, with_source, fix_stripped,
  fix_vals, fix_all, create,
}

references-append :
    (rows : List Row) (r : Row) (s : Text)
    → contains (references (rows ++ r ∷ [])) s
      ≡ (contains (references rows) s || (r.reference == s))
references-append [] r s = ground arith
references-append (q ∷ rows) r s = ground (arith, references-append rows r s)

-- the text from which the reference of new values is generated
abbrev pub source_of : Text → Text → Text
source_of name [] = name
source_of name (c ∷ reference) = c ∷ reference

module _ (in_pattern : ℕ → Bool) (generic : Text) where
  fix_vals-source :
      (taken : List Text) (v : Vals) (c : ℕ) (s r : Text)
      → source_of (strip whitespace v.name) (strip whitespace v.reference) ≡ c ∷ s
      → generate_or_fix_reference in_pattern generic taken (c ∷ s) ≡ some r
      → fix_vals in_pattern generic taken v
        ≡ ok (record { name = strip whitespace v.name; reference = r })
  unfolding fix_vals
  fix_vals-source taken v c s r e g =
      by_texts (strip whitespace v.name) (strip whitespace v.reference) e
    where
      by_texts :
          (name reference : Text)
          → source_of name reference ≡ c ∷ s
          → fix_stripped in_pattern generic taken v name reference
            ≡ ok (record { name = name; reference = r })
      by_texts [] [] e = cc
      by_texts (d ∷ name) [] e =
          ap (λ t. with_source in_pattern generic taken (d ∷ name) t) e
          ∙ ap (λ o. required o >>= λ x. ok (record { name = d ∷ name; reference = x })) g
      by_texts name (d ∷ reference) e =
          ap (λ t. with_source in_pattern generic taken name t) e
          ∙ ap (λ o. required o >>= λ x. ok (record { name = name; reference = x })) g

  -- the row that is inserted
  abbrev pub row_of : ℕ → Vals → Text → Row
  row_of next v r = record { id = next; name = strip whitespace v.name; reference = r }

  -- A record that has a name or a reference, blanks aside, is created: its reference is new and is a text
  -- of the pattern. The generic reference is such a text, and the pattern has the digits and the
  -- underscore.
  pub create_one :
      (h : HasSuffixes in_pattern) (v : Vals) (c : ℕ) (s : Text) (next : ℕ) (rows : List Row)
      → matches in_pattern generic ≡ true
      → source_of (strip whitespace v.name) (strip whitespace v.reference) ≡ c ∷ s
      → (r : Text) × (create in_pattern generic (references rows) (v ∷ []) next rows
          ≡ ok (rows ++ row_of next v r ∷ []))
        × (contains (references rows) r ≡ false)
        × (matches in_pattern r ≡ true)
  unfolding create fix_all
  create_one h v c s next rows g e =
      let (r, found, new, fits) =
        generate_or_fix_reference-free in_pattern h generic (c ∷ s) (references rows) g in
      (
        r,
        ap (λ m. (m >>= λ a. ok (a ∷ [])) >>= λ fixed. insert_rows fixed next rows)
              (fix_vals-source (references rows) v c s r e found)
            ∙ if_false (contains (references rows) r) _ _ new,
        new,
        fits,
      )

  -- Two records whose references would be generated from one text are not created together: both get the
  -- same reference, since neither is there when the other's is generated.
  pub same_source_refused :
      (h : HasSuffixes in_pattern) (v w : Vals) (c : ℕ) (s : Text) (next : ℕ) (rows : List Row)
      → matches in_pattern generic ≡ true
      → source_of (strip whitespace v.name) (strip whitespace v.reference) ≡ c ∷ s
      → source_of (strip whitespace w.name) (strip whitespace w.reference) ≡ c ∷ s
      → create in_pattern generic (references rows) (v ∷ w ∷ []) next rows ≡ err unique_violation
  unfolding create fix_all
  same_source_refused h v w c s next rows g e f =
      let (r, found, new, fits) =
        generate_or_fix_reference-free in_pattern h generic (c ∷ s) (references rows) g in
      let taken = references rows in
      let second : contains (references (rows ++ row_of next v r ∷ [])) r ≡ true =
        references-append rows (row_of next v r) r ∙ ground (arith, list_beq_iff r r) in
      ap
        (λ m.
          (m >>= λ a.
          (fix_vals in_pattern generic taken w >>= λ b. ok (b ∷ [])) >>= λ rest. ok (a ∷ rest))
          >>= λ fixed. insert_rows fixed next rows)
        (fix_vals-source taken v c s r e found)
      ∙ ap
          (λ m.
            ((m >>= λ b. ok (b ∷ [])) >>= λ rest.
            ok (record { name = strip whitespace v.name; reference = r } ∷ rest))
            >>= λ fixed. insert_rows fixed next rows)
          (fix_vals-source taken w c s r f found)
      ∙ if_false (contains taken r) _ _ new
      ∙ if_true (contains (references (rows ++ row_of next v r ∷ [])) r) _ _ second
