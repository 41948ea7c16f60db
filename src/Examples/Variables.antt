-- ===== src/Examples/Variables.antt =====
-- A record with a root and a path below it, and the properties of variables applied to it.
use cetmix_tower.Prelude.{
  ℕ, ◌<◌, ◌≡◌, refl, sym, ap, subst, true, false, none, some, Result, ok, err, ◌>>=◌, List, [], ◌∷◌,
  ◌==◌, nat_eq, list_eq, list_beq_iff, if◌then◌else◌, lookup, Bool-cases, inl, inr, All, arith,
  IsDistinct,
}
use cetmix_tower.Prelude.Text.{Text, codes}
use cetmix_tower.Variable.Resolve.{
  Value, text, Error, recursion_error, key_error, Context, get_variable_values,
}
use cetmix_tower.Variable.Single.{chosen_value, single_value, each_result, get_variable_values-each}
use cetmix_tower.Variable.Recursion.{
  runs_out, IsRank, HasLibraries, HasTemplate, acyclic_values_end, looping_values_run_out,
  template_without_variables_fails,
}

abbrev below_root : Text
below_root = codes "{{ root }}/x"

-- the variables of the templates
abbrev variables_of : Text → Result Error (List Text)
variables_of t = ok (
    if t == below_root
    then codes "root" ∷ []
    else if t == codes "{{ a }}"
    then codes "a" ∷ []
    else [])

abbrev plain_variables : Text → Result Error (List Text)
plain_variables t = ok (if t == below_root then codes "root" ∷ [] else [])

abbrev render : Text → List (Text × Value Unit) → Result Error (Value Unit)
render t values = ok (elim (lookup (codes "root") values) [ none ↦ text t | some v ↦ v ])

abbrev context : Context Unit
context = record {
  variable_value_ids = (codes "path", text below_root) ∷ [];
  global_value_ids = (codes "root", text (codes "/opt")) ∷ (codes "path", text (codes "/tmp")) ∷ [];
  tower = tt;
  applied_expressions = (codes "root", codes "result = value.strip()") ∷ [];
  get_variables_from_code = variables_of;
  render_code_custom = render;
  evaluate = λ expression value. some value;
}

get_variable_values-each_example :
    get_variable_values context 2 true (codes "path" ∷ codes "root" ∷ codes "other" ∷ []) ≡ (
      each_result context
        (single_value context (get_variable_values context 1 true) true)
        (codes "path" ∷ codes "root" ∷ codes "other" ∷ [])
      >>= λ values. ok (some values))
get_variable_values-each_example =
    get_variable_values-each context 1 true (codes "path") (codes "root" ∷ codes "other" ∷ [])
      (refl, (refl, (refl, tt)))

-- a value that leads to itself, and one that is a template without variables
abbrev broken : Context Unit
broken = record context {
  variable_value_ids =
      (codes "a", text (codes "{{ a }}")) ∷ (codes "b", text (codes "{{ 1 }}")) ∷ [];
}

looping_values_run_out_example :
    get_variable_values broken 100 true (codes "a" ∷ []) ≡ err recursion_error
looping_values_run_out_example =
    looping_values_run_out broken (λ r. r ≡ codes "a") (λ r. r)
      (λ r e. (
        codes "{{ a }}",
        subst (λ s. HasTemplate broken s (codes "{{ a }}") (s ∷ [])) (sym e) (refl, refl, refl),
        e,
      ))
      100 true (codes "a") refl

template_without_variables_fails_example :
    get_variable_values broken 5 true (codes "b" ∷ []) ≡ err key_error
template_without_variables_fails_example =
    template_without_variables_fails broken 3 true (codes "b") (codes "{{ 1 }}") (refl, refl, refl)

abbrev template_rank : Text → ℕ
template_rank r = if r == codes "path" then 1 else 0

abbrev plain : Context Unit
plain = record context { get_variables_from_code = plain_variables }

plain-IsDistinct : (t : Text) (vs : List Text) → plain_variables t ≡ ok vs → IsDistinct vs
plain-IsDistinct t vs e = elim (Bool-cases (t == below_root)) [
  | inl b ↦ (let same : codes "root" ∷ [] ≡ vs = ground arith in subst IsDistinct same (refl, tt))
  | inr b ↦ (let same : [] ≡ vs = ground arith in subst IsDistinct same tt)
]

-- only the path has a template
not_path :
    (r t : Text)
    → (codes "path" == r) ≡ false
    → chosen_value plain r ≡ text t
    → (t == below_root) ≡ false
not_path r t n e = elim (Bool-cases (r == codes "tower")) [
  | inl b ↦ ground arith
  | inr b ↦ elim (Bool-cases (codes "root" == r)) [
    | inl k ↦ (let same : codes "/opt" ≡ t = ground arith in ap (λ u. u == below_root) (sym same))
    | inr k ↦ ground arith
  ]
]

plain_libraries : HasLibraries plain
plain_libraries = ((λ t. refl), (λ t values. refl), plain-IsDistinct)

plain-IsRank : IsRank plain template_rank
plain-IsRank r t vs e f = elim (Bool-cases (t == below_root)) [
  | inl b ↦ elim (Bool-cases (codes "path" == r)) [
    | inl k ↦
        (let same : codes "root" ∷ [] ≡ vs = ground arith in
          let path : codes "path" ≡ r = (list_beq_iff (codes "path") r).0 k in
          subst (All (λ v. template_rank v < template_rank r)) same
            (subst (λ s. template_rank (codes "root") < template_rank s) path (omega arith), tt))
    | inr k ↦ ground (arith, not_path r t k e)
  ]
  | inr b ↦
      (let same : [] ≡ vs = ground arith in
        subst (All (λ v. template_rank v < template_rank r)) same tt)
]

acyclic_values_end_example :
    runs_out (get_variable_values plain 3 true (codes "path" ∷ codes "root" ∷ [])) ≡ false
acyclic_values_end_example =
    acyclic_values_end plain plain_libraries template_rank plain-IsRank 2 true
      (codes "path" ∷ codes "root" ∷ []) (refl, (refl, tt)) (omega arith, (omega arith, tt))
