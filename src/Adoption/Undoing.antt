-- ===== src/Adoption/Undoing.antt =====
-- An adopted batch that is undone.
use neuron_kg.Prelude.{
  ℕ, String, ◌≡◌, refl, ap, ◌∙◌, Bool, true, false, not, is_some, ◌&&◌, some, List, [], ◌∷◌, ◌++◌,
  All, arith, eq_refl, inl, inr, Bool-cases,
}
use neuron_kg.Prelude.Table.{select, find, update, delete, order_by}
use neuron_kg.Axioms.{RelationAxiom}
use neuron_kg.Adoption.{
  Shape, AdoptionBatch, Ontology, is_key, insert_axiom, insert_axioms, adopted_row, adopted_rows,
  new_batch, is_batch, is_standing, is_of_batch, undo, later_batch, adopt_shapes, unadopt,
  adoptions,
}

delete-insert :
    (p : RelationAxiom → Bool) (a : RelationAxiom) (rows : List RelationAxiom)
    → p a ≡ true
    → delete p (insert_axiom a rows) ≡ delete p rows
unfolding insert_axiom
delete-insert p a [] h = rw h refl
delete-insert p a (x ∷ rows) h =
    elim (Bool-cases (is_key a.subject_kind a.relation a.object_kind x)) [
      | inl u ↦ rw u refl
      | inr u ↦ rw u (elim (Bool-cases (p x)) [
        | inl v ↦ rw v (delete-insert p a rows h)
        | inr v ↦ rw v (ap (λ z. x ∷ z) (delete-insert p a rows h))
      ])
    ]

delete-insert_adopted :
    (batch : String) (shapes : List Shape) (rows : List RelationAxiom)
    → delete (is_of_batch batch) (insert_axioms (adopted_rows batch shapes) rows)
      ≡ delete (is_of_batch batch) rows
unfolding insert_axioms
delete-insert_adopted batch [] rows = refl
delete-insert_adopted batch (s ∷ rest) rows =
    delete-insert_adopted batch rest (insert_axiom (adopted_row batch s) rows)
    ∙ delete-insert (is_of_batch batch) (adopted_row batch s) rows (eq_refl batch)

delete-all_others {ℓ} :
    {A : Type ℓ}
    → (p : A → Bool) (rows : List A) → All (λ a. p a ≡ false) rows
    → delete p rows ≡ rows
delete-all_others p [] h = refl
delete-all_others p (x ∷ rows) h = rw h.0 (ap (λ z. x ∷ z) (delete-all_others p rows h.1))

-- A batch id that no batch and no axiom has.
abbrev pub IsNew : String → Ontology → Type 0
IsNew batch o =
    All (λ b. is_batch batch b ≡ false) o.batches × All (λ a. is_of_batch batch a ≡ false) o.axioms

find-new :
    (p : AdoptionBatch → Bool) (bs : List AdoptionBatch) (b : AdoptionBatch)
    → All (λ c. p c ≡ false) bs
    → p b ≡ true
    → find p (bs ++ b ∷ []) ≡ some b
find-new p [] b h k = rw k refl
find-new p (c ∷ bs) b h k = rw h.0 (find-new p bs b h.1 k)

find-none_new :
    (p : AdoptionBatch → Bool) (bs : List AdoptionBatch)
    → All (λ c. p c ≡ false) bs
    → is_some (find p bs) ≡ false
find-none_new p [] h = refl
find-none_new p (c ∷ bs) h = rw h.0 (find-none_new p bs h.1)

abbrev is_open : AdoptionBatch → Bool
is_open b = not (is_some b.undone_at)

select-undone :
    (p : AdoptionBatch → Bool) (now : ℕ) (bs : List AdoptionBatch) (b : AdoptionBatch)
    → All (λ c. p c ≡ false) bs
    → p b ≡ true
    → select is_open (update p (undo now) (bs ++ b ∷ [])) ≡ select is_open bs
select-undone p now [] b h k = rw k refl
select-undone p now (c ∷ bs) b h k = rw h.0 (elim (Bool-cases (is_open c)) [
  | inl u ↦ rw u (ap (λ z. c ∷ z) (select-undone p now bs b h.1 k))
  | inr u ↦ rw u (select-undone p now bs b h.1 k)
])

standing_others :
    (batch : String) (bs : List AdoptionBatch)
    → All (λ b. is_batch batch b ≡ false) bs
    → All (λ b. is_standing batch b ≡ false) bs
standing_others batch [] h = tt
standing_others batch (b ∷ bs) h = (ap (λ z. z && is_open b) h.0, standing_others batch bs h.1)

-- Adoption can be undone: after the adoption of at least one shape under an id that no batch and no
-- axiom has, unadopt returns the shapes, and the axioms and the list of adoptions in force are
-- those from before the adoption.
pub unadopt-adopt_shapes :
    (batch : String) (now later : ℕ) (s : Shape) (rest : List Shape) (min_docs : ℕ) (o : Ontology)
    → IsNew batch o
    → (after : Ontology) × (adopt_shapes batch now (s ∷ rest) min_docs o ≡ some (after, some batch))
      × ((unadopt batch later after).1 ≡ s ∷ rest)
      × ((unadopt batch later after).0.axioms ≡ o.axioms)
      × (adoptions false (unadopt batch later after).0 ≡ adoptions false o)
unfolding adopt_shapes unadopt adoptions
unadopt-adopt_shapes batch now later s rest min_docs o h =
    let found =
      find-new (is_standing batch) o.batches (new_batch batch now (s ∷ rest) min_docs)
        (standing_others batch o.batches h.0) (ground (arith, eq_refl batch)) in
    (
      record {
        axioms = insert_axioms (adopted_rows batch (s ∷ rest)) o.axioms;
        batches = o.batches ++ new_batch batch now (s ∷ rest) min_docs ∷ [];
      },
      rw (find-none_new (is_batch batch) o.batches h.0) refl,
      rw found refl,
      rw found (
          delete-insert_adopted batch (s ∷ rest) o.axioms
          ∙ delete-all_others (is_of_batch batch) o.axioms h.1),
      rw found (
          ap (order_by later_batch) (
            select-undone (is_batch batch) later o.batches (new_batch batch now (s ∷ rest) min_docs)
              h.0 (eq_refl batch))),
    )
