-- ===== src/Axioms/Allowed.antt =====
-- The allow-list against the axioms that it is built from.
use neuron_kg.Prelude.{
  String, ◌≡◌, refl, ap, ◌∙◌, Bool, true, false, ◌&&◌, ◌||◌, Option, none, some, List, [], ◌∷◌,
  ◌++◌, arith, ◌==◌, eq_iff, inl, inr, Bool-cases, is_some, if◌then◌else◌,
}
use neuron_kg.Prelude.Table.{find}
use neuron_kg.Axioms.{
  RelationAxiom, Entry, is_entry, allow, allow_all, build, is_text, lists, is_allowed, Direction,
  as_is, swapped, resolve_direction,
}

abbrev pub fits : String → String → String → RelationAxiom → Bool
fits subject relation object a =
    a.relation == relation && (a.subject_kind == subject && a.object_kind == object)

-- An axiom of the triple that an extraction may assert.
abbrev pub admits : String → String → String → RelationAxiom → Bool
admits subject relation object a = fits subject relation object a && a.extractable

abbrev pub has_axiom : String → String → String → List RelationAxiom → Bool
has_axiom subject relation object axioms = is_some (find (admits subject relation object) axioms)

find-append :
    (r s : String) (rs : List String)
    → is_some (find (is_text r) (rs ++ s ∷ [])) ≡ (is_some (find (is_text r) rs) || s == r)
find-append r s [] = ground arith
find-append r s (t ∷ rs) = ground (arith, find-append r s rs)

same_kinds :
    (s o s' o' : String) (t : Entry)
    → is_entry s' o' t ≡ true
    → is_entry s o t ≡ (s' == s && o' == o)
same_kinds s o s' o' t u = ground (
  arith,
  eq_iff t.subject_kind s',
  eq_iff t.object_kind o',
  eq_iff t.subject_kind s,
  eq_iff t.object_kind o,
  eq_iff s' s,
  eq_iff o' o,
)

other_kinds :
    (s o s' o' : String) (t : Entry)
    → is_entry s' o' t ≡ false
    → is_entry s o t ≡ true
    → (s' == s && o' == o) ≡ false
other_kinds s o s' o' t u v = ground (
  arith,
  eq_iff t.subject_kind s',
  eq_iff t.object_kind o',
  eq_iff t.subject_kind s,
  eq_iff t.object_kind o,
  eq_iff s' s,
  eq_iff o' o,
)

lists-first :
    (r : String) (b c : Bool) (x y : Entry) (e : Option Entry)
    → is_some (find (is_text r) y.relations) ≡ (is_some (find (is_text r) x.relations) || c)
    → lists r (if b then some y else e) ≡ (lists r (if b then some x else e) || c && b)
lists-first r true c x y e h = ground arith
lists-first r false c x y e h = ground arith

lists-rest :
    (r : String) (b c d : Bool) (x : Entry) (e e' : Option Entry)
    → lists r e' ≡ (lists r e || c && d)
    → (b ≡ true → d ≡ false)
    → lists r (if b then some x else e') ≡ (lists r (if b then some x else e) || c && d)
lists-rest r true c d x e e' h k = rw (k refl) (ground arith)
lists-rest r false c d x e e' h k = h

pub find-cons {ℓ} :
    {A : Type ℓ}
    → (p : A → Bool) (x : A) (xs : List A)
    → is_some (find p (x ∷ xs)) ≡ (p x || is_some (find p xs))
find-cons p x xs = elim (Bool-cases (p x)) [ inl q ↦ rw q refl | inr q ↦ rw q refl ]

take_in : (h f e r q : Bool) → e ≡ true → q ≡ (f && e || r) → ((h || f) || r) ≡ (h || q)
take_in h f e r q u k = rw (k, u) (ground arith)

pass_by : (h f e r q : Bool) → e ≡ false → q ≡ (f && e || r) → (h || r) ≡ (h || q)
pass_by h f e r q u k = rw (k, u) (ground arith)

module _ (subject relation object : String) where
  lists-allow :
      (a : RelationAxiom) (ts : List Entry)
      → lists relation (find (is_entry subject object) (allow a ts))
        ≡ (lists relation (find (is_entry subject object) ts) || fits subject relation object a)
  lists-allow a [] = ground arith
  lists-allow a (t ∷ ts) = elim (Bool-cases (is_entry a.subject_kind a.object_kind t)) [
    | inl u ↦
        let k = same_kinds subject object a.subject_kind a.object_kind t u in
        let m =
          lists-first relation (is_entry subject object t) (a.relation == relation) t
            (record t { relations = t.relations ++ a.relation ∷ [] })
            (find (is_entry subject object) ts) (find-append relation a.relation t.relations) in
        rw u (
          m
          ∙ ap
              (λ z.
                lists relation
                  (if is_entry subject object t then some t else find (is_entry subject object) ts)
                || a.relation == relation && z)
              k)
    | inr u ↦ rw u (
        lists-rest relation (is_entry subject object t) (a.relation == relation)
          (a.subject_kind == subject && a.object_kind == object) t
          (find (is_entry subject object) ts) (find (is_entry subject object) (allow a ts))
          (lists-allow a ts) (other_kinds subject object a.subject_kind a.object_kind t u))
  ]

  let_in :
      {b : Bool} (axioms : List RelationAxiom) (a : RelationAxiom) (ts : List Entry)
      → a.extractable ≡ b
      → lists relation (
          find
            (is_entry subject object)
            (allow_all axioms (if a.extractable then allow a ts else ts)))
        ≡ lists relation
            (find (is_entry subject object) (allow_all axioms (if b then allow a ts else ts)))
  let_in axioms a ts u =
      ap
        (λ z.
          lists relation
            (find (is_entry subject object) (allow_all axioms (if z then allow a ts else ts))))
        u

  lists-allow_all :
      (axioms : List RelationAxiom) (ts : List Entry)
      → lists relation (find (is_entry subject object) (allow_all axioms ts)) ≡ (
          lists relation (find (is_entry subject object) ts)
          || has_axiom subject relation object axioms)
  unfolding allow_all
  lists-allow_all [] ts = ground arith
  lists-allow_all (a ∷ axioms) ts = elim (Bool-cases a.extractable) [
    | inl u ↦
        let_in axioms a ts u
        ∙ (lists-allow_all axioms (allow a ts)
            ∙ (ap (λ z. z || has_axiom subject relation object axioms) (lists-allow a ts)
                ∙ take_in (lists relation (find (is_entry subject object) ts))
                    (fits subject relation object a) a.extractable
                    (has_axiom subject relation object axioms)
                    (has_axiom subject relation object (a ∷ axioms)) u
                    (find-cons (admits subject relation object) a axioms)))
    | inr u ↦
        let_in axioms a ts u
        ∙ (lists-allow_all axioms ts
            ∙ pass_by (lists relation (find (is_entry subject object) ts))
                (fits subject relation object a) a.extractable
                (has_axiom subject relation object axioms)
                (has_axiom subject relation object (a ∷ axioms)) u
                (find-cons (admits subject relation object) a axioms))
  ]

-- The allow-list lists the axioms that an extraction may assert.
pub is_allowed-build :
    (subject relation object : String) (axioms : List RelationAxiom)
    → is_allowed subject relation object (build axioms) ≡ has_axiom subject relation object axioms
unfolding is_allowed build
is_allowed-build subject relation object axioms = lists-allow_all subject relation object axioms []

abbrev pub direction_of : Bool → Bool → Option Direction
direction_of true _ = some as_is
direction_of false true = some swapped
direction_of false false = none

-- What an extraction may assert is what the extractable axioms say, by exactly their kinds: a
-- triple with such an axiom is kept as it is; a triple that has none is swapped if its reverse has
-- one, and refused otherwise.
pub resolve_direction-build :
    (subject relation object : String) (axioms : List RelationAxiom)
    → resolve_direction subject relation object (build axioms)
      ≡ direction_of
          (has_axiom subject relation object axioms)
          (has_axiom object relation subject axioms)
unfolding resolve_direction
resolve_direction-build subject relation object axioms =
    let k = is_allowed-build subject relation object axioms in
    let m = is_allowed-build object relation subject axioms in
    elim (Bool-cases (has_axiom subject relation object axioms)) [
      | inl u ↦ rw (k, u) refl
      | inr u ↦ elim (Bool-cases (has_axiom object relation subject axioms)) [
        | inl v ↦ rw (k, u, m, v) refl
        | inr v ↦ rw (k, u, m, v) refl
      ]
    ]
