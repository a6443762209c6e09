-- ===== src/Adoption/Widening.antt =====
-- What an adoption allows an extraction to assert, and what it leaves alone.
use mathlib.Core.Option.{some-injective, none-ne-some}
use neuron_kg.Prelude.{
  ℕ, String, ◌≡◌, refl, subst, sym, ap, ◌∙◌, Bool, true, false, ◌&&◌, ◌||◌, not, is_some, Option,
  some, List, [], ◌∷◌, arith, ◌==◌, eq_iff, inl, inr, Bool-cases,
}
use neuron_kg.Prelude.Table.{find}
use neuron_kg.Axioms.{RelationAxiom, build, is_allowed}
use neuron_kg.Axioms.Allowed.{has_axiom, admits, find-cons, is_allowed-build}
use neuron_kg.Adoption.{
  Shape, Ontology, is_key, insert_axiom, insert_axioms, adopted_row, adopted_rows, axiom_of,
  axioms_of, axiom_rows, is_batch, adopt_shapes,
}

abbrev pub has_row : String → String → String → List RelationAxiom → Bool
has_row subject relation object [] = false
has_row subject relation object (a ∷ rows) =
    is_key subject relation object a || has_row subject relation object rows

-- One of the shapes is the triple.
abbrev pub mentions : String → String → String → List Shape → Bool
mentions subject relation object [] = false
mentions subject relation object (s ∷ rest) =
    (s.relation == relation && (s.subject_kind == subject && s.object_kind == object))
    || mentions subject relation object rest

same_key :
    (s r o : String) (a x : RelationAxiom)
    → is_key s r o a ≡ true
    → is_key a.subject_kind a.relation a.object_kind x ≡ is_key s r o x
same_key s r o a x h =
    ground (arith, eq_iff a.relation r, eq_iff a.subject_kind s, eq_iff a.object_kind o)

has_axiom-cons :
    (s r o : String) (a : RelationAxiom) (rows : List RelationAxiom)
    → has_axiom s r o (a ∷ rows) ≡ (is_key s r o a && a.extractable || has_axiom s r o rows)
has_axiom-cons s r o a rows = find-cons (admits s r o) a rows

step_new :
    (k e h r f : Bool)
    → (f ≡ true → k ≡ false)
    → (k && e || (h || not r && f)) ≡ ((k && e || h) || not (k || r) && f)
step_new k e h r true u = rw (u refl) (ground arith)
step_new k e h r false u = ground arith

no_more : (x q : Bool) → x ≡ (x || not q && false)
no_more x q = ground arith

step_old : (x k r f : Bool) → (f ≡ true → k ≡ true) → x ≡ (x || not (k || r) && f)
step_old x k r true u = rw (u refl) (ground arith)
step_old x k r false u = ground arith

module _ (s r o : String) where
  has_axiom-insert :
      (a : RelationAxiom) (rows : List RelationAxiom)
      → a.extractable ≡ true
      → has_axiom s r o (insert_axiom a rows)
        ≡ (has_axiom s r o rows || not (has_row s r o rows) && is_key s r o a)
  unfolding insert_axiom
  has_axiom-insert a [] e =
      has_axiom-cons s r o a [] ∙ (ap (λ z. is_key s r o a && z || false) e ∙ ground arith)
  has_axiom-insert a (x ∷ rows) e =
      elim (Bool-cases (is_key a.subject_kind a.relation a.object_kind x)) [
        | inl u ↦ rw u (
            step_old (has_axiom s r o (x ∷ rows)) (is_key s r o x) (has_row s r o rows)
              (is_key s r o a) (λ f. sym (same_key s r o a x f) ∙ u))
        | inr u ↦ rw u (
            has_axiom-cons s r o x (insert_axiom a rows)
            ∙ (ap (λ z. is_key s r o x && x.extractable || z) (has_axiom-insert a rows e)
                ∙ (step_new (is_key s r o x) x.extractable (has_axiom s r o rows)
                      (has_row s r o rows) (is_key s r o a) (λ f. sym (same_key s r o a x f) ∙ u)
                    ∙ ap (λ z. z || not (has_row s r o (x ∷ rows)) && is_key s r o a)
                        (sym (has_axiom-cons s r o x rows)))))
      ]

  has_row-insert :
      (a : RelationAxiom) (rows : List RelationAxiom)
      → has_row s r o (insert_axiom a rows) ≡ (has_row s r o rows || is_key s r o a)
  unfolding insert_axiom
  has_row-insert a [] = ground arith
  has_row-insert a (x ∷ rows) =
      elim (Bool-cases (is_key a.subject_kind a.relation a.object_kind x)) [
        | inl u ↦ rw u (
            kept (is_key s r o x) (has_row s r o rows) (is_key s r o a)
              (λ f. sym (same_key s r o a x f) ∙ u))
        | inr u ↦ rw u (
            ap (λ z. is_key s r o x || z) (has_row-insert a rows)
            ∙ or_assoc (is_key s r o x) (has_row s r o rows) (is_key s r o a))
      ]
    where
      kept : (k r f : Bool) → (f ≡ true → k ≡ true) → (k || r) ≡ ((k || r) || f)
      kept k r true u = rw (u refl) refl
      kept k r false u = ground arith

      or_assoc : (p q t : Bool) → (p || (q || t)) ≡ ((p || q) || t)
      or_assoc p q t = ground arith

  take_shape :
      (h q f m : Bool) → ((h || not q && f) || not (q || f) && m) ≡ (h || not q && (f || m))
  take_shape h q f m = ground arith

  has_axiom-insert_adopted :
      (batch : String) (shapes : List Shape) (rows : List RelationAxiom)
      → has_axiom s r o (insert_axioms (adopted_rows batch shapes) rows)
        ≡ (has_axiom s r o rows || not (has_row s r o rows) && mentions s r o shapes)
  unfolding insert_axioms
  has_axiom-insert_adopted batch [] rows = ground arith
  has_axiom-insert_adopted batch (h ∷ rest) rows =
      let a = adopted_row batch h in
      has_axiom-insert_adopted batch rest (insert_axiom a rows)
      ∙ (ap (λ z. z || not (has_row s r o (insert_axiom a rows)) && mentions s r o rest)
            (has_axiom-insert a rows refl)
          ∙ (ap
                (λ z.
                  (has_axiom s r o rows || not (has_row s r o rows) && is_key s r o a)
                  || not z && mentions s r o rest)
                (has_row-insert a rows)
              ∙ take_shape (has_axiom s r o rows) (has_row s r o rows) (is_key s r o a)
                  (mentions s r o rest)))

  has_axiom-axioms_of :
      (rows : List RelationAxiom) → has_axiom s r o (axioms_of rows) ≡ has_axiom s r o rows
  has_axiom-axioms_of [] = refl
  has_axiom-axioms_of (a ∷ rows) =
      has_axiom-cons s r o (axiom_of a) (axioms_of rows)
      ∙ (ap (λ z. is_key s r o a && a.extractable || z) (has_axiom-axioms_of rows)
          ∙ sym (has_axiom-cons s r o a rows))

  is_allowed-rows :
      (rows : List RelationAxiom) → is_allowed s r o (build (axioms_of rows)) ≡ has_axiom s r o rows
  is_allowed-rows rows = is_allowed-build s r o (axioms_of rows) ∙ has_axiom-axioms_of rows

  abbrev IsWidened : List Shape → Ontology → Ontology → Type 0
  IsWidened shapes t after = is_allowed s r o (build (axioms_of (axiom_rows after))) ≡ (
      is_allowed s r o (build (axioms_of (axiom_rows t)))
      || not (has_row s r o (axiom_rows t)) && mentions s r o shapes)

-- An adoption only widens what an extraction may assert, and by no more than its shapes: afterwards
-- a triple is allowed if it was before, or if it is one of the shapes and the vocabulary had no
-- axiom of it; a row that exists is never made extractable.
pub adopt_shapes-widens :
    (s r o : String) (batch : String) (now : ℕ) (shapes : List Shape) (min_docs : ℕ)
    (t after : Ontology) (id : Option String)
    → adopt_shapes batch now shapes min_docs t ≡ some (after, id)
    → is_allowed s r o (build (axioms_of (axiom_rows after))) ≡ (
        is_allowed s r o (build (axioms_of (axiom_rows t)))
        || not (has_row s r o (axiom_rows t)) && mentions s r o shapes)
unfolding adopt_shapes axiom_rows
adopt_shapes-widens s r o batch now [] min_docs t after id h =
    subst (IsWidened s r o [] t) (ap (λ w. w.0) (some-injective _ _ h))
      (no_more (is_allowed s r o (build (axioms_of t.axioms))) (has_row s r o t.axioms))
adopt_shapes-widens s r o batch now (g ∷ rest) min_docs t after id h =
    let m =
      is_allowed-rows s r o (insert_axioms (adopted_rows batch (g ∷ rest)) t.axioms)
      ∙ has_axiom-insert_adopted s r o batch (g ∷ rest) t.axioms in
    let k =
      ap (λ z. z || not (has_row s r o t.axioms) && mentions s r o (g ∷ rest))
        (sym (is_allowed-rows s r o t.axioms)) in
    elim (Bool-cases (is_some (find (is_batch batch) t.batches))) [
      | inl u ↦ absurd (none-ne-some _ (rw u at h))
      | inr u ↦
          subst (IsWidened s r o (g ∷ rest) t) (ap (λ w. w.0) (some-injective _ _ (rw u at h)))
            (m ∙ k)
    ]
