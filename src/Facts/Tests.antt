-- ===== src/Facts/Tests.antt =====
-- Fact edges at small inputs.
use neuron_kg.Prelude.{
  All, arith, String, ◌≡◌, refl, true, false, none, some, [], ◌∷◌, Member, here,
}
use neuron_kg.Facts.{
  FactEdge, FactRow, Graph, Trace, created_edge, matched_edge, merge_edge, upsert_row,
  upsert_fact_edges,
}
use neuron_kg.TimeAxis.{holds_point}
use neuron_kg.Facts.Sync.{SupportRow, is_current, supersede_fact_edges, remove_record_support}
use neuron_kg.Facts.Single.{single_valued}
use neuron_kg.Facts.Sync.Support.{Stands, remove-Stands, removal_widens}
use neuron_kg.Facts.Confirming.{Keeps, resync_clock, unrevived-Keeps}

abbrev trace : Trace
trace = record {
  chunk_id = none;
  chunk_hash = none;
  extractor_version = none;
  model = none;
  derived_rule = none;
  premise_fact_uids = none;
  adopted_batch = none;
  decay_class = none;
}

abbrev row : String → FactRow
row evidence = record {
  from_uid = "d1";
  to_uid = "t";
  fact_uid = "f1";
  source_record_keys = "r1" ∷ [];
  evidence = some evidence;
  extraction_method = some "llm";
  confidence = some 900;
  valid_at = some 5;
  valid_at_basis = none;
  invalid_at = none;
  derived = none;
  ended_unknown = none;
  attested_from = none;
  attested_by_record = none;
  pinned = none;
  projection_status = none;
  trace = trace;
}

abbrev edge : FactEdge
edge = created_edge "APPLIES_TO" 10 (row "we chose Redis")

abbrev closed : FactEdge
closed = record edge { invalid_at = some 20 }

abbrev graph : FactEdge → Graph
graph e = record {
  nodes = record { uid = "d1"; label = "Decision" } ∷ record { uid = "t"; label = "Term" } ∷ [];
  edges = e ∷ [];
  history = [];
  disputes = [];
}

-- The evidence of a second write is not stored.
evidence_stays :
    (upsert_fact_edges "APPLIES_TO" "Decision" "Term"
      (row "we chose Postgres" ∷ [])
      true
      30
      (graph edge)).edges
    ≡ record edge { last_confirmed_at = 30 } ∷ []
unfolding merge_edge upsert_row upsert_fact_edges
evidence_stays = refl

resync_clock_example :
    (matched_edge true 40
      (row "we chose Postgres")
      (matched_edge true 30 (row "we chose Postgres") edge)).last_confirmed_at
    ≡ 40
resync_clock_example = resync_clock true 30 40 (row "we chose Postgres") edge refl

unrevived-Keeps_example :
    (f : FactEdge) × Member f
      (upsert_fact_edges "APPLIES_TO" "Decision" "Term"
        (row "we chose Redis" ∷ [])
        false
        30
        (graph closed)).edges
    × Keeps closed f
unrevived-Keeps_example =
    unrevived-Keeps "APPLIES_TO" "Decision" "Term" (row "we chose Redis" ∷ []) 30 (graph closed)
      closed (here refl)

abbrev make_uid : String → String → String → String
make_uid from rel to = "f"

-- The same value again, and no other.
single_valued_example :
    All
      (λ e. is_current "APPLIES_TO" "Decision" "Term" "d1" (graph edge) e ≡ true → e.to_uid ≡ "t")
      (upsert_fact_edges "APPLIES_TO" "Decision" "Term" (row "we chose Redis" ∷ []) true 41 (
        supersede_fact_edges make_uid "APPLIES_TO" "Decision" "Term"
          ("d1" ∷ [])
          40
          (graph edge))).edges
    × ((f : FactEdge) × Member f
          (upsert_fact_edges "APPLIES_TO" "Decision" "Term" (row "we chose Redis" ∷ []) true 41 (
            supersede_fact_edges make_uid "APPLIES_TO" "Decision" "Term"
              ("d1" ∷ [])
              40
              (graph edge))).edges
        × (is_current "APPLIES_TO" "Decision" "Term" "d1" (graph edge) f ≡ true))
single_valued_example =
    single_valued make_uid "APPLIES_TO" "Decision" "Term" (row "we chose Redis") 40 41 (graph edge)
      refl refl refl

abbrev support : SupportRow
support = record { rel_type = "APPLIES_TO"; from_uid = "d1"; to_uid = "t"; valid_to = none }

abbrev shared : FactEdge
shared = record edge { source_record_keys = "r1" ∷ "r2" ∷ [] }

remove-Stands_example :
    (f : FactEdge) × Member f
      (remove_record_support make_uid "r1" (support ∷ []) 40 (graph shared)).edges
    × Stands "r1" shared f
remove-Stands_example =
    remove-Stands make_uid "r1" (support ∷ []) 40 (graph shared) shared refl (here refl)

removal_widens_example :
    (holds_point (some 5) (some 20) 25 ≡ false)
    × ((f : FactEdge) × Member f
          (remove_record_support make_uid "r1" (support ∷ []) 40 (graph closed)).edges
        × (holds_point f.valid_at f.invalid_at 25 ≡ true))
removal_widens_example =
    removal_widens make_uid "r1" support 40 (graph closed) closed 5 20 25 (here refl) refl refl refl
      refl (omega arith) (omega arith) (omega arith)
