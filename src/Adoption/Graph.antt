-- ===== src/Adoption/Graph.antt =====
-- unadopt of graph/semantics/adoption.py: the ledger's part, then a query that deletes the edges
-- of the batch. The graph is the list of the adopted_batch of its edges, and `fails` says that the
-- query raises, which leaves the graph as it is while the ledger's transaction has ended.
pub mod Rerun
use neuron_kg.Prelude.{ℕ, String, Bool, Option, none, some, List, [], ◌∷◌, length, if◌then◌else◌}
use neuron_kg.Prelude.Table.{delete, rowcount}
use neuron_kg.Adoption.{Shape, Ontology, has_batch, unadopt}

pub record State : Type 0 where
  pub ledger : Ontology
  pub edges : List (Option String)

-- What the call reports: how many shapes, and how many edges it removed.
pub record Report : Type 0 where
  pub shapes : ℕ
  pub edges_removed : ℕ

abbrev pub is_edge_of : String → Option String → Bool
is_edge_of batch e = has_batch e batch

-- With no shapes the call returns before the query.
abbrev pub remove_edges :
    String → Bool → List (Option String) → Ontology × List Shape → State × Option Report
remove_edges batch fails edges (ledger, []) =
    (record { ledger = ledger; edges = edges }, some record { shapes = 0; edges_removed = 0 })
remove_edges batch fails edges (ledger, s ∷ rest) =
    if fails then (record { ledger = ledger; edges = edges }, none) else (
      record { ledger = ledger; edges = delete (is_edge_of batch) edges },
      some record { shapes = length (s ∷ rest); edges_removed = rowcount (is_edge_of batch) edges },
    )

-- `none` is the exception of the query.
unfoldable pub unadopt_graph : String → ℕ → Bool → State → State × Option Report
unadopt_graph batch now fails w = remove_edges batch fails w.edges (unadopt batch now w.ledger)
