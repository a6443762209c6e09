-- ===== src/Adoption/Tests.antt =====
-- Two shapes adopted and undone; a redeploy.
use neuron_kg.Prelude.{◌≡◌, refl, true, false, none, some, [], ◌∷◌}
use neuron_kg.Axioms.{RelationAxiom, build}
use neuron_kg.Adoption.{
  Shape, Ontology, insert_axiom, insert_axioms, adopted_row, axioms_of, seed_axioms_if_empty,
  axiom_rows, adopt_shapes, unadopt, adoptions, load_axioms,
}
use neuron_kg.Adoption.Graph.{State, unadopt_graph}
use neuron_kg.Adoption.Graph.Rerun.{unadopt_graph-rerun}
use neuron_kg.Adoption.Undoing.{unadopt-adopt_shapes}

abbrev calls : Shape
calls = record { relation = "CALLS"; subject_kind = "System"; object_kind = "System"; facts = 4 }

abbrev uses : Shape
uses = record { relation = "USES"; subject_kind = "Person"; object_kind = "System"; facts = 3 }

abbrev structural : RelationAxiom
structural = record (adopted_row "" calls) { extractable = false; adopted_batch = none }

abbrev vocabulary : Ontology
vocabulary = record { axioms = structural ∷ []; batches = [] }

abbrev widened : Ontology
widened = record {
  axioms = structural ∷ adopted_row "b1" uses ∷ [];
  batches =
      record {
        batch_id = "b1";
        adopted_at = 5;
        shapes = calls ∷ uses ∷ [];
        facts_expected = 7;
        min_docs = 2;
        undone_at = none;
      }
      ∷ [];
}

adopts : adopt_shapes "b1" 5 (calls ∷ uses ∷ []) 2 vocabulary ≡ some (widened, some "b1")
unfolding adopt_shapes insert_axioms insert_axiom
adopts = refl

reads_adopted : (load_axioms (structural ∷ []) widened).1 ≡ build (axioms_of widened.axioms)
unfolding load_axioms seed_axioms_if_empty axiom_rows insert_axioms insert_axiom
reads_adopted = refl

lists_batches : adoptions true (unadopt "b1" 9 widened).0 ≡ (unadopt "b1" 9 widened).0.batches
unfolding adoptions unadopt
lists_batches = refl

unadopt-adopt_shapes_example :
    (o : Ontology) × (adopt_shapes "b1" 5 (calls ∷ uses ∷ []) 2 vocabulary ≡ some (o, some "b1"))
    × ((unadopt "b1" 9 o).1 ≡ calls ∷ uses ∷ [])
    × ((unadopt "b1" 9 o).0.axioms ≡ vocabulary.axioms)
    × (adoptions false (unadopt "b1" 9 o).0 ≡ adoptions false vocabulary)
unadopt-adopt_shapes_example =
    unadopt-adopt_shapes "b1" 5 9 calls (uses ∷ []) 2 vocabulary (tt, (refl, tt))

abbrev stamped : State
stamped = record { ledger = widened; edges = some "b1" ∷ none ∷ [] }

removes_stamped : (unadopt_graph "b1" 9 false stamped).0.edges ≡ none ∷ []
unfolding unadopt_graph unadopt
removes_stamped = refl

keeps_on_failure : (unadopt_graph "b1" 9 true stamped).0.edges ≡ stamped.edges
unfolding unadopt_graph unadopt
keeps_on_failure = refl

unadopt_graph-rerun_example :
    unadopt_graph "b1" 10 false (unadopt_graph "b1" 9 true stamped).0
    ≡ ((unadopt_graph "b1" 9 true stamped).0, some record { shapes = 0; edges_removed = 0 })
unadopt_graph-rerun_example = unadopt_graph-rerun "b1" 9 10 true false stamped
