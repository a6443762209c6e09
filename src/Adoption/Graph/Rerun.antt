-- ===== src/Adoption/Graph/Rerun.antt =====
-- A second call after the query of the first one has failed.
use neuron_kg.Prelude.{
  ℕ, String, ◌≡◌, refl, Bool, true, false, Option, none, some, List, [], ◌∷◌, inl, inr, Bool-cases,
  Option-cases,
}
use neuron_kg.Prelude.Table.{find, update}
use neuron_kg.Adoption.{AdoptionBatch, Ontology, Shape, is_batch, is_standing, undo, unadopt}
use neuron_kg.Adoption.Graph.{State, remove_edges, unadopt_graph}

none_standing :
    (batch : String) (now : ℕ) (bs : List AdoptionBatch)
    → find (is_standing batch) (update (is_batch batch) (undo now) bs) ≡ none
none_standing batch now [] = refl
none_standing batch now (b ∷ bs) = elim (Bool-cases (is_batch batch b)) [
  | inl u ↦ rw (u, u) (none_standing batch now bs)
  | inr u ↦ rw (u, u) (none_standing batch now bs)
]

-- The table after a call has no standing batch of the id.
none_left :
    (batch : String) (now : ℕ) (o : Ontology)
    → find (is_standing batch) (unadopt batch now o).0.batches ≡ none
unfolding unadopt
none_left batch now o = elim (Option-cases (find (is_standing batch) o.batches)) [
  | inl u ↦ rw (u, unadopt) u
  | inr (b, u) ↦ rw (u, unadopt) (none_standing batch now o.batches)
]

unadopt-none :
    (batch : String) (now : ℕ) (o : Ontology)
    → find (is_standing batch) o.batches ≡ none
    → unadopt batch now o ≡ (o, [])
unfolding unadopt
unadopt-none batch now o u = rw u refl

rerun :
    (batch : String) (later : ℕ) (fails again : Bool) (edges : List (Option String))
    (r : Ontology × List Shape)
    → find (is_standing batch) r.0.batches ≡ none
    → unadopt_graph batch later again (remove_edges batch fails edges r).0
      ≡ ((remove_edges batch fails edges r).0, some record { shapes = 0; edges_removed = 0 })
unfolding unadopt_graph
rerun batch later fails again edges (o, []) h = rw (unadopt-none batch later o h) refl
rerun batch later true again edges (o, s ∷ rest) h = rw (unadopt-none batch later o h) refl
rerun batch later false again edges (o, s ∷ rest) h = rw (unadopt-none batch later o h) refl

-- A rerun does not remove the edges that a failed call has left: whatever unadopt did the first
-- time, the call with the same id after it reports no shapes and no edges removed and changes
-- nothing.
pub unadopt_graph-rerun :
    (batch : String) (now later : ℕ) (fails again : Bool) (w : State)
    → unadopt_graph batch later again (unadopt_graph batch now fails w).0
      ≡ ((unadopt_graph batch now fails w).0, some record { shapes = 0; edges_removed = 0 })
unfolding unadopt_graph
unadopt_graph-rerun batch now later fails again w =
    rerun batch later fails again w.edges (unadopt batch now w.ledger)
      (none_left batch now w.ledger)
