-- ===== src/Adoption/Seeding.antt =====
-- Seeding a table that has rows.
use mathlib.Core.List.{append-nil, append_assoc}
use native.Mathlib.Omega.{arith}
use neuron_kg.Prelude.{
  ◌-◌, ◌≡◌, refl, sym, ap, ◌∙◌, Bool, true, false, ◌||◌, List, [], ◌∷◌, ◌++◌, length, length-append,
  All, eq_refl, inl, inr, Bool-cases,
}
use neuron_kg.Axioms.{RelationAxiom}
use neuron_kg.Adoption.{
  Ontology, is_key, insert_axiom, insert_axioms, seed_rows, seed_axioms_if_empty,
}

abbrev key_of : RelationAxiom → RelationAxiom → Bool
key_of a = is_key a.subject_kind a.relation a.object_kind

abbrev has_key : RelationAxiom → List RelationAxiom → Bool
has_key a [] = false
has_key a (x ∷ rows) = key_of a x || has_key a rows

insert_present :
    (a : RelationAxiom) (rows : List RelationAxiom)
    → has_key a rows ≡ true
    → insert_axiom a rows ≡ rows
unfolding insert_axiom
insert_present a [] h = ground arith
insert_present a (x ∷ rows) h = elim (Bool-cases (key_of a x)) [
  | inl u ↦ rw u refl
  | inr u ↦ rw u (ap (λ z. x ∷ z) (insert_present a rows (rw u at h)))
]

insert_shows :
    (a : RelationAxiom) (rows : List RelationAxiom) → has_key a (insert_axiom a rows) ≡ true
unfolding insert_axiom
insert_shows a [] =
    ground (arith, eq_refl a.relation, eq_refl a.subject_kind, eq_refl a.object_kind)
insert_shows a (x ∷ rows) = elim (Bool-cases (key_of a x)) [
  | inl u ↦ rw (u, u) refl
  | inr u ↦ rw (u, u) (insert_shows a rows)
]

insert_keeps :
    (a b : RelationAxiom) (rows : List RelationAxiom)
    → has_key b rows ≡ true
    → has_key b (insert_axiom a rows) ≡ true
unfolding insert_axiom
insert_keeps a b [] h = ground arith
insert_keeps a b (x ∷ rows) h = elim (Bool-cases (key_of a x)) [
  | inl u ↦ rw u h
  | inr u ↦ rw u (elim (Bool-cases (key_of b x)) [
    | inl v ↦ rw v refl
    | inr v ↦ rw v (insert_keeps a b rows (rw v at h))
  ])
]

inserts_keep :
    (axioms : List RelationAxiom) (b : RelationAxiom) (rows : List RelationAxiom)
    → has_key b rows ≡ true
    → has_key b (insert_axioms axioms rows) ≡ true
unfolding insert_axioms
inserts_keep [] b rows h = h
inserts_keep (a ∷ axioms) b rows h =
    inserts_keep axioms b (insert_axiom a rows) (insert_keeps a b rows h)

inserts_show :
    (axioms rows : List RelationAxiom)
    → All (λ a. has_key a (insert_axioms axioms rows) ≡ true) axioms
unfolding insert_axioms
inserts_show [] rows = tt
inserts_show (a ∷ axioms) rows = (
  inserts_keep axioms a (insert_axiom a rows) (insert_shows a rows),
  inserts_show axioms (insert_axiom a rows),
)

inserts_present :
    (axioms rows : List RelationAxiom)
    → All (λ a. has_key a rows ≡ true) axioms
    → insert_axioms axioms rows ≡ rows
unfolding insert_axioms
inserts_present [] rows h = refl
inserts_present (a ∷ axioms) rows h =
    rw (insert_present a rows h.0) (inserts_present axioms rows h.1)

insert_appends :
    (a : RelationAxiom) (rows : List RelationAxiom)
    → (new : List RelationAxiom) × (insert_axiom a rows ≡ rows ++ new)
unfolding insert_axiom
insert_appends a [] = (a ∷ [], refl)
insert_appends a (x ∷ rows) = elim (Bool-cases (key_of a x)) [
  | inl u ↦ ([], rw u (ap (λ z. x ∷ z) (sym (append-nil rows))))
  | inr u ↦ let (new, k) = insert_appends a rows in (new, rw u (ap (λ z. x ∷ z) k))
]

inserts_append :
    (axioms rows : List RelationAxiom)
    → (new : List RelationAxiom) × (insert_axioms axioms rows ≡ rows ++ new)
unfolding insert_axioms
inserts_append [] rows = ([], sym (append-nil rows))
inserts_append (a ∷ axioms) rows =
    let (x, k) = insert_appends a rows in
    let (y, m) = inserts_append axioms (insert_axiom a rows) in
    (x ++ y, m ∙ (ap (λ z. z ++ y) k ∙ append_assoc rows x y))

added : (rows new : List RelationAxiom) → length (rows ++ new) - length rows ≡ length new
added rows new = omega (arith, length-append rows new)

none_added : (rows : List RelationAxiom) → length rows - length rows ≡ 0
none_added rows = omega arith

-- Seeding only adds rows, behind those that are there and without a change of them, and returns
-- their number; seeding once more with the same rows changes nothing and returns 0.
pub seed_axioms_if_empty-again :
    (seeds : List RelationAxiom) (o : Ontology)
    → ((new : List RelationAxiom) × ((seed_axioms_if_empty seeds o).0.axioms ≡ o.axioms ++ new)
        × ((seed_axioms_if_empty seeds o).1 ≡ length new))
      × (seed_axioms_if_empty seeds (seed_axioms_if_empty seeds o).0
          ≡ ((seed_axioms_if_empty seeds o).0, 0))
unfolding seed_axioms_if_empty
seed_axioms_if_empty-again [] o = (([], sym (append-nil o.axioms), refl), refl)
seed_axioms_if_empty-again (a ∷ seeds) o =
    let rows = seed_rows (a ∷ seeds) in
    let (new, k) = inserts_append rows o.axioms in
    let again = inserts_present rows (insert_axioms rows o.axioms) (inserts_show rows o.axioms) in
    (
      (new, k, ap (λ z. length z - length o.axioms) k ∙ added o.axioms new),
      ap (λ z. (record o { axioms = z }, length z - length (insert_axioms rows o.axioms))) again
          ∙ ap (λ z. (record o { axioms = insert_axioms rows o.axioms }, z))
              (none_added (insert_axioms rows o.axioms)),
    )
