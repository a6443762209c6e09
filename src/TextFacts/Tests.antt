-- ===== src/TextFacts/Tests.antt =====
-- Two decisions about one term.
use neuron_kg.Prelude.{
  String, ◌≡◌, refl, inr, Bool, true, false, none, some, [], ◌∷◌, arith, eq_iff,
}
use neuron_kg.TimeAxis.{live_fact_cypher}
use neuron_kg.Facts.{
  FactEdge, FactRow, Trace, created_edge, merge_edge, upsert_row, upsert_fact_edges,
}
use neuron_kg.Facts.Exec.{World, Run, returned, raised, Safe}
use neuron_kg.Facts.Writer.{
  find_live_fact, archive, close_fact, correct_fact, confirm_fact, set_projection_status,
}
use neuron_kg.TextFacts.{
  OldFact, NewFact, contradicts, newer_state, auto, Action, newer_state_close, windows_disjoint,
  write_incoming_fact, mutate, resolve_conflict, resolve_newer, resolve_text_fact,
}
use neuron_kg.TextFacts.Ordering.{Apart, Ended, auto_apart}
use neuron_kg.TextFacts.Pinned.{IsLive, pinned_stays}

abbrev make_uid : String → String → String → String
make_uid from rel to = "f2"

abbrev dumps : Action → NewFact → OldFact → String
dumps action new old = "{}"

abbrev trace : Trace
trace = record {
  chunk_id = none;
  chunk_hash = none;
  extractor_version = none;
  model = none;
  derived_rule = none;
  premise_fact_uids = none;
  adopted_batch = none;
  decay_class = none;
}

abbrev row : FactRow
row = record {
  from_uid = "d1";
  to_uid = "t";
  fact_uid = "f1";
  source_record_keys = "r1" ∷ [];
  evidence = some "we chose Redis";
  extraction_method = some "llm";
  confidence = some 900;
  valid_at = some 5;
  valid_at_basis = none;
  invalid_at = none;
  derived = none;
  ended_unknown = none;
  attested_from = none;
  attested_by_record = none;
  pinned = none;
  projection_status = none;
  trace = trace;
}

abbrev edge : FactEdge
edge = created_edge "APPLIES_TO" 10 row

abbrev world : World
world = record {
  graph = record {
    nodes =
        record { uid = "d1"; label = "Decision" }
        ∷ record { uid = "d2"; label = "Decision" }
        ∷ record { uid = "t"; label = "Term" }
        ∷ [];
    edges = edge ∷ [];
    history = [];
    disputes = [];
  };
  queue = record { reviews = []; rejections = []; next_id = 1 };
}

abbrev old : Bool → OldFact
old pinned = record {
  fact_uid = "f1";
  from_uid = "d1";
  from_label = "Decision";
  to_uid = "t";
  to_label = "Term";
  rel_type = "APPLIES_TO";
  valid_at = some 5;
  invalid_at = none;
  pinned = pinned;
}

abbrev new : NewFact
new = record {
  from_uid = "d2";
  from_label = "Decision";
  to_uid = "t";
  to_label = "Term";
  rel_type = "APPLIES_TO";
  source_time = 30;
  source_record_key = some "r2";
  valid_at = some 25;
  invalid_at = none;
  evidence = some "we moved to Postgres";
  confidence = some 800;
  extraction_method = some "llm";
  fact_uid = none;
  pinned = false;
  decay_class = none;
  valid_at_basis = some "stated";
  ended_unknown = false;
  adopted_batch = none;
}

abbrev last : {A : Type 0} → Run A → World
last (returned ws w a) = w
last (raised ws w) = w

program : Unit {0}
unfolding merge_edge upsert_row upsert_fact_edges find_live_fact archive close_fact correct_fact
    confirm_fact set_projection_status windows_disjoint write_incoming_fact mutate resolve_conflict
    resolve_newer resolve_text_fact live_fact_cypher
program = tt

superseded :
    (last (resolve_text_fact make_uid 40 dumps new (old false) newer_state auto world)).graph.edges
    ≡ record edge { invalid_at = some 25; close_reason = some "superseded" }
      ∷ created_edge "APPLIES_TO" 40 (record row {
        from_uid = "d2";
        fact_uid = "f2";
        source_record_keys = "r2" ∷ [];
        evidence = some "we moved to Postgres";
        confidence = some 800;
        valid_at = some 25;
        valid_at_basis = some "stated";
      })
      ∷ []
unfolding program
superseded = refl

differ : ¬ (make_uid "d2" "APPLIES_TO" "t" ≡ "f1")
differ e = absurd (ground (arith, eq_iff "f2" "f1"))

auto_apart_example :
    Safe
      (Apart "f1" "f2")
      (λ _ w. Ended "f1" w)
      (resolve_conflict make_uid 40 dumps new (old false) auto newer_state_close world)
auto_apart_example =
    auto_apart make_uid 40 new (old false) dumps newer_state_close world refl differ
      ((λ e. absurd (ground (arith, eq_iff "f1" "f2"))), tt)
      (inr ((λ e. absurd (ground (arith, eq_iff "f1" "f2"))), tt))

pinned_stays_example :
    Safe
      (IsLive "f1")
      (λ _ w. IsLive "f1" w)
      (resolve_text_fact make_uid 40 dumps new (old true) contradicts auto world)
pinned_stays_example =
    pinned_stays make_uid 40 new (old true) differ dumps contradicts auto world refl
      ((λ _. refl), tt) (unfold program in refl)
