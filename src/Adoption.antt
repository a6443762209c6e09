-- ===== src/Adoption.antt =====
-- The vocabulary of a graph in connectors/core/ledger.py: the tables relation_axioms and
-- axiom_adoptions (seed_axioms_if_empty, axiom_rows, adopt_shapes, unadopt, adoptions), and
-- load_axioms of graph/semantics/axioms.py. The shapes stand in the table as the list that their
-- JSON text encodes. uuid4 and the built-in vocabulary are arguments.
pub mod Graph
pub mod Seeding
pub mod Undoing
pub mod Widening
mod Tests
use neuron_kg.Prelude.{
  ℕ, ◌+◌, ◌-◌, String, Bool, true, false, ◌&&◌, not, Option, none, some, List, [], ◌∷◌, ◌++◌,
  length, is_some, if◌then◌else◌, ◌==◌, ltb,
}
use neuron_kg.Prelude.Table.{select, find, update, delete, order_by}
use neuron_kg.Axioms.{RelationAxiom, AxiomSet, build}

pub record Shape : Type 0 where
  pub relation : String
  pub subject_kind : String
  pub object_kind : String
  pub facts : ℕ

pub record AdoptionBatch : Type 0 where
  pub batch_id : String
  pub adopted_at : ℕ
  pub shapes : List Shape
  pub facts_expected : ℕ
  pub min_docs : ℕ
  pub undone_at : Option ℕ

-- The two tables.
pub record Ontology : Type 0 where
  pub axioms : List RelationAxiom
  pub batches : List AdoptionBatch

-- PRIMARY KEY(relation, subject_kind, object_kind)
abbrev pub is_key : String → String → String → RelationAxiom → Bool
is_key subject relation object a =
    a.relation == relation && (a.subject_kind == subject && a.object_kind == object)

-- INSERT … ON CONFLICT DO NOTHING
unfoldable pub insert_axiom : RelationAxiom → List RelationAxiom → List RelationAxiom
insert_axiom a [] = a ∷ []
insert_axiom a (x ∷ xs) =
    let rest = insert_axiom a xs in
    if is_key a.subject_kind a.relation a.object_kind x then x ∷ xs else x ∷ rest

unfoldable pub insert_axioms : List RelationAxiom → List RelationAxiom → List RelationAxiom
insert_axioms [] rows = rows
insert_axioms (a ∷ rest) rows = insert_axioms rest (insert_axiom a rows)

-- The columns that the seeding fills: adopted_batch is left NULL.
abbrev pub seed_row : RelationAxiom → RelationAxiom
seed_row a = record a { adopted_batch = none }

abbrev pub seed_rows : List RelationAxiom → List RelationAxiom
seed_rows [] = []
seed_rows (a ∷ rest) = seed_row a ∷ seed_rows rest

-- The table, and how many rows were added.
unfoldable pub seed_axioms_if_empty : List RelationAxiom → Ontology → Ontology × ℕ
unfolding insert_axioms
seed_axioms_if_empty [] o = (o, 0)
seed_axioms_if_empty (a ∷ rest) o =
    let after = insert_axioms (seed_rows (a ∷ rest)) o.axioms in
    (record o { axioms = after }, length after - length o.axioms)

unfoldable pub axiom_rows : Ontology → List RelationAxiom
axiom_rows o = o.axioms

-- An axiom of an adopted shape: extractable, and every other column at its default.
abbrev pub adopted_row : String → Shape → RelationAxiom
adopted_row batch s = record {
  relation = s.relation;
  subject_kind = s.subject_kind;
  object_kind = s.object_kind;
  extractable = true;
  functional = false;
  is_transitive = false;
  is_symmetric = false;
  is_asymmetric = false;
  inverse_of = none;
  sub_property_of = none;
  temporal = "state";
  adopted_batch = some batch;
}

abbrev pub adopted_rows : String → List Shape → List RelationAxiom
adopted_rows batch [] = []
adopted_rows batch (s ∷ rest) = adopted_row batch s ∷ adopted_rows batch rest

abbrev pub total_facts : List Shape → ℕ
total_facts [] = 0
total_facts (s ∷ rest) = s.facts + total_facts rest

abbrev pub is_batch : String → AdoptionBatch → Bool
is_batch batch b = b.batch_id == batch

abbrev pub new_batch : String → ℕ → List Shape → ℕ → AdoptionBatch
new_batch batch now shapes min_docs = record {
  batch_id = batch;
  adopted_at = now;
  shapes = shapes;
  facts_expected = total_facts shapes;
  min_docs = min_docs;
  undone_at = none;
}

-- What the call does to the tables, and the batch id it returns; `none` is the IntegrityError on a
-- batch id that exists, which rolls back.
unfoldable pub adopt_shapes :
    String → ℕ → List Shape → ℕ → Ontology → Option (Ontology × Option String)
unfolding insert_axioms
adopt_shapes batch now [] min_docs o = some (o, none)
adopt_shapes batch now (s ∷ rest) min_docs o =
    if is_some (find (is_batch batch) o.batches)
    then none
    else some (
      record {
        axioms = insert_axioms (adopted_rows batch (s ∷ rest)) o.axioms;
        batches = o.batches ++ new_batch batch now (s ∷ rest) min_docs ∷ [];
      },
      some batch,
    )

abbrev pub is_standing : String → AdoptionBatch → Bool
is_standing batch b = is_batch batch b && not (is_some b.undone_at)

abbrev pub has_batch : Option String → String → Bool
has_batch none batch = false
has_batch (some b) batch = b == batch

abbrev pub is_of_batch : String → RelationAxiom → Bool
is_of_batch batch a = has_batch a.adopted_batch batch

abbrev pub undo : ℕ → AdoptionBatch → AdoptionBatch
undo now b = record b { undone_at = some now }

abbrev pub undone : String → ℕ → Ontology → Option AdoptionBatch → Ontology × List Shape
undone batch now o none = (o, [])
undone batch now o (some b) = (
  record {
    axioms = delete (is_of_batch batch) o.axioms;
    batches = update (is_batch batch) (undo now) o.batches;
  },
  b.shapes,
)

-- The tables, and the shapes that are returned.
unfoldable pub unadopt : String → ℕ → Ontology → Ontology × List Shape
unadopt batch now o = undone batch now o (find (is_standing batch) o.batches)

abbrev pub later_batch : AdoptionBatch → AdoptionBatch → Bool
later_batch b c = ltb c.adopted_at b.adopted_at

unfoldable pub adoptions : Bool → Ontology → List AdoptionBatch
adoptions include_undone o =
    order_by later_batch
      (if include_undone then o.batches else select (λ b. not (is_some b.undone_at)) o.batches)

-- s or None, s or "state"
abbrev pub text_or_none : Option String → Option String
text_or_none none = none
text_or_none (some s) = if s == "" then none else some s

abbrev pub axiom_of : RelationAxiom → RelationAxiom
axiom_of a = record a {
  inverse_of = text_or_none a.inverse_of;
  sub_property_of = text_or_none a.sub_property_of;
  temporal = if a.temporal == "" then "state" else a.temporal;
  adopted_batch = text_or_none a.adopted_batch;
}

abbrev pub axioms_of : List RelationAxiom → List RelationAxiom
axioms_of [] = []
axioms_of (a ∷ rest) = axiom_of a ∷ axioms_of rest

abbrev pub set_of : List RelationAxiom → List RelationAxiom → AxiomSet
set_of seeds [] = build seeds
set_of seeds (a ∷ rest) = build (axioms_of (a ∷ rest))

-- The table after the seeding, and the vocabulary; seeds is what seed_axioms gives.
unfoldable pub load_axioms : List RelationAxiom → Ontology → Ontology × AxiomSet
unfolding seed_axioms_if_empty axiom_rows
load_axioms seeds o =
    let seeded = (seed_axioms_if_empty seeds o).0 in (seeded, set_of seeds (axiom_rows seeded))
