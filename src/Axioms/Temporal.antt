-- ===== src/Axioms/Temporal.antt =====
-- The temporal kind of a relation, against the axioms of the relation one by one.
use text.Mathlib.Text.{is_lt}
use Prim.Native.String.{compare}
use neuron_kg.Prelude.{
  String, ◌≡◌, refl, ap, ◌∙◌, Bool, true, false, ◌&&◌, List, [], ◌∷◌, arith, ◌==◌, eq_iff, inl, inr,
  Bool-cases,
}
use neuron_kg.Axioms.{
  RelationAxiom, AxiomSet, put_text, temporals, only_or_state, for_relation, temporal_of,
}

-- Every axiom of the list has the kind t.
abbrev pub all_are : String → List RelationAxiom → Bool
all_are t [] = true
all_are t (a ∷ rest) = a.temporal == t && all_are t rest

abbrev pub has_any : List RelationAxiom → Bool
has_any [] = false
has_any (_ ∷ _) = true

-- The list holds t and nothing else.
abbrev is_only : String → List String → Bool
is_only t (s ∷ []) = s == t
is_only t _ = false

-- The list holds nothing but t, at most once.
abbrev is_at_most : String → List String → Bool
is_at_most t [] = true
is_at_most t (s ∷ []) = s == t
is_at_most t (s ∷ _ ∷ _) = false

is_some_more : (t s u v : String) (ts : List String) → is_only t (u ∷ put_text s (v ∷ ts)) ≡ false
is_some_more t s u v ts = elim (Bool-cases (s == v)) [
  | inl q ↦ rw q refl
  | inr q ↦ elim (Bool-cases (is_lt (compare s v))) [
    | inl r ↦ rw (q, r) refl
    | inr r ↦ rw (q, r) refl
  ]
]

is_only-put :
    (t s : String) (ts : List String) → is_only t (put_text s ts) ≡ (s == t && is_at_most t ts)
is_only-put t s [] = ground arith
is_only-put t s (u ∷ []) = ground (arith, eq_iff s t, eq_iff u t, eq_iff s u)
is_only-put t s (u ∷ v ∷ ts) =
    let k = is_some_more t s u v ts in
    elim (Bool-cases (s == u)) [
      | inl q ↦ rw q (ground arith)
      | inr q ↦ elim (Bool-cases (is_lt (compare s u))) [
        | inl r ↦ rw (q, r) (ground arith)
        | inr r ↦ rw (q, r) (k ∙ ground arith)
      ]
    ]

is_at_most-put :
    (t s : String) (ts : List String) → is_at_most t (put_text s ts) ≡ is_only t (put_text s ts)
is_at_most-put t s [] = refl
is_at_most-put t s (u ∷ ts) = elim (Bool-cases (s == u)) [
  | inl q ↦ rw q (same u ts)
  | inr q ↦ elim (Bool-cases (is_lt (compare s u))) [
    | inl r ↦ rw (q, r) (same s (u ∷ ts))
    | inr r ↦ rw (q, r) (same u (put_text s ts))
  ]
]
  where
    same : (x : String) (xs : List String) → is_at_most t (x ∷ xs) ≡ is_only t (x ∷ xs)
    same x [] = refl
    same x (_ ∷ _) = refl

is_at_most-temporals :
    (t : String) (axioms : List RelationAxiom) → is_at_most t (temporals axioms) ≡ all_are t axioms
is_at_most-temporals t [] = refl
is_at_most-temporals t (a ∷ axioms) =
    is_at_most-put t a.temporal (temporals axioms)
    ∙ (is_only-put t a.temporal (temporals axioms)
        ∙ ap (λ z. a.temporal == t && z) (is_at_most-temporals t axioms))

is_only-temporals :
    (t : String) (axioms : List RelationAxiom)
    → is_only t (temporals axioms) ≡ (has_any axioms && all_are t axioms)
is_only-temporals t [] = refl
is_only-temporals t (a ∷ axioms) =
    is_only-put t a.temporal (temporals axioms)
    ∙ ap (λ z. a.temporal == t && z) (is_at_most-temporals t axioms)

only_or_state-is_only :
    (t : String) (ts : List String) → "state" == t ≡ false → (only_or_state ts == t) ≡ is_only t ts
only_or_state-is_only t [] h = h
only_or_state-is_only t (s ∷ []) h = refl
only_or_state-is_only t (s ∷ _ ∷ _) h = h

-- A relation is of a kind other than "state" if and only if the vocabulary has an axiom of the
-- relation and all its axioms are of that kind: an unknown relation, and one whose axioms differ,
-- is a state.
pub temporal_of-agree :
    (relation t : String) (s : AxiomSet)
    → "state" == t ≡ false
    → (temporal_of relation s == t)
      ≡ (has_any (for_relation relation s) && all_are t (for_relation relation s))
unfolding temporal_of for_relation
temporal_of-agree relation t s h =
    only_or_state-is_only t (temporals (for_relation relation s)) h
    ∙ is_only-temporals t (for_relation relation s)
