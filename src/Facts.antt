-- ===== src/Facts.antt =====
-- The fact edges of graph/storage/writer.py: upsert_fact_edges, supersede_fact_edges,
-- close_fact, correct_fact, confirm_fact, mark_ended_unknown, set_projection_status and
-- remove_record_support on the graph as lists of nodes and edges. One Cypher query is one step.
-- Times are microseconds, confidences thousandths; a stored date is one that parses.
pub mod Exec
pub mod Writer
pub mod Confirming
pub mod Sync
pub mod Single
mod Tests
use neuron_kg.Prelude.{
  ℕ, ◌+◌, String, Bool, true, false, not, ◌&&◌, ◌||◌, Option, none, some, List, [], ◌∷◌, ◌++◌, map,
  eqb, ltb, is_some, if◌then◌else◌, ◌==◌, ◌>>=◌,
}
use neuron_kg.Prelude.Table.{select, find, update}
use neuron_kg.TimeAxis.{FactState, live_fact_cypher}

pub record Node : Type 0 where
  pub uid : String
  pub label : String

-- The columns that a write sets and nothing here reads.
pub record Trace : Type 0 where
  pub chunk_id : Option String
  pub chunk_hash : Option String
  pub extractor_version : Option String
  pub model : Option String
  pub derived_rule : Option String
  pub premise_fact_uids : Option (List String)
  pub adopted_batch : Option String
  pub decay_class : Option String

pub record FactEdge : Type 0 where
  pub from_uid : String
  pub rel_type : String
  pub to_uid : String
  pub fact_uid : String
  pub valid_at : Option ℕ
  pub valid_at_basis : Option String
  pub invalid_at : Option ℕ
  pub first_seen_at : ℕ
  pub last_confirmed_at : ℕ
  pub metadata_revised_at : Option ℕ
  pub source_record_keys : List String
  pub evidence : Option String
  pub extraction_method : Option String
  pub confidence : Option ℕ
  pub derived : Bool
  pub ended_unknown : Bool
  pub attested_from : Option ℕ
  pub attested_by_record : Option String
  pub pinned : Bool
  pub assertion_status : Option String
  pub corrected_by : Option String
  pub correction_observed_at : Option ℕ
  pub close_reason : Option String
  pub projection_status : Option String
  pub trace : Trace

-- A row that upsert_fact_edges takes, its fact_uid filled in.
pub record FactRow : Type 0 where
  pub from_uid : String
  pub to_uid : String
  pub fact_uid : String
  pub source_record_keys : List String
  pub evidence : Option String
  pub extraction_method : Option String
  pub confidence : Option ℕ
  pub valid_at : Option ℕ
  pub valid_at_basis : Option String
  pub invalid_at : Option ℕ
  pub derived : Option Bool
  pub ended_unknown : Option Bool
  pub attested_from : Option ℕ
  pub attested_by_record : Option String
  pub pinned : Option Bool
  pub projection_status : Option String
  pub trace : Trace

-- An archived interval, a FactHistory node. Its uid is made of the endpoints, the relation,
-- valid_from and the time of archiving, archived_at. Its display name is left out.
pub record FactHistory : Type 0 where
  pub from_uid : String
  pub relation : String
  pub to_uid : String
  pub fact_uid : String
  pub archived_at : ℕ
  pub valid_from : Option ℕ
  pub valid_to : Option ℕ
  pub observed_from : ℕ
  pub observed_to : ℕ
  pub last_confirmed_at : ℕ
  pub source_record_keys : List String
  pub evidence : Option String
  pub extraction_method : Option String
  pub confidence : Option ℕ
  pub chunk_id : Option String
  pub chunk_hash : Option String
  pub extractor_version : Option String
  pub model : Option String
  pub close_reason : Option String
  pub assertion_status : Option String
  pub corrected_by : Option String
  pub correction_observed_at : Option ℕ

pub record Graph : Type 0 where
  pub nodes : List Node
  pub edges : List FactEdge
  pub history : List FactHistory
  pub disputes : List (String × String)

abbrev pub is_open : Option ℕ → Bool
is_open none = true
is_open (some t) = false

-- The edge as LIVE_FACT_CYPHER reads it.
abbrev pub state_of : FactEdge → FactState
state_of e = record {
  invalid_at = e.invalid_at;
  assertion_status = e.assertion_status;
  projection_status = e.projection_status;
}

abbrev pub is_live : FactEdge → Bool
is_live e = live_fact_cypher (state_of e)

-- coalesce(a, b)
abbrev pub coalesce {ℓ} : {A : Type ℓ} → Option A → A → A
coalesce none b = b
coalesce (some a) b = a

-- CASE WHEN a IS NULL THEN b ELSE a END
abbrev pub or_keep {ℓ} : {A : Type ℓ} → Option A → Option A → Option A
or_keep none b = b
or_keep (some a) b = some a

-- a IS NOT NULL AND a <> b, which is not true where b is NULL
abbrev pub differs : Option String → Option String → Bool
differs (some a) (some b) = not (a == b)
differs _ _ = false

abbrev pub differs_ℕ : Option ℕ → Option ℕ → Bool
differs_ℕ (some a) (some b) = not (eqb a b)
differs_ℕ _ _ = false

abbrev is_text : String → String → Bool
is_text k j = j == k

abbrev pub has_key : String → List String → Bool
has_key k keys = is_some (find (is_text k) keys)

-- size(keys) > 0 AND NOT keys[0] IN known
abbrev pub brings_key : List String → List String → Bool
brings_key [] known = false
brings_key (k ∷ ks) known = not (has_key k known)

-- keys[0] IN known, which is NULL and so not true for no keys
abbrev pub knows_first : List String → List String → Bool
knows_first [] known = false
knows_first (k ∷ ks) known = has_key k known

abbrev is_node : String → String → Node → Bool
is_node label uid n = n.label == label && n.uid == uid

abbrev pub has_node : String → String → Graph → Bool
has_node label uid g = is_some (find (is_node label uid) g.nodes)

-- (a)-[r:rel_type]->(b)
abbrev pub is_edge : String → String → String → FactEdge → Bool
is_edge from rel to e = e.from_uid == from && e.rel_type == rel && e.to_uid == to

abbrev pub content_changed : Bool → FactRow → FactEdge → Bool
content_changed revive row e =
    differs row.evidence e.evidence
    || differs_ℕ row.confidence e.confidence
    || brings_key row.source_record_keys e.source_record_keys
    || (not (is_open e.invalid_at) && revive)

-- ON CREATE SET
abbrev pub created_edge : String → ℕ → FactRow → FactEdge
created_edge rel now row = record {
  from_uid = row.from_uid;
  rel_type = rel;
  to_uid = row.to_uid;
  fact_uid = row.fact_uid;
  valid_at = some (coalesce row.valid_at now);
  valid_at_basis = some (coalesce row.valid_at_basis "record_time");
  invalid_at = row.invalid_at;
  first_seen_at = now;
  last_confirmed_at = now;
  metadata_revised_at = none;
  source_record_keys = row.source_record_keys;
  evidence = row.evidence;
  extraction_method = row.extraction_method;
  confidence = row.confidence;
  derived = coalesce row.derived false;
  ended_unknown = coalesce row.ended_unknown false;
  attested_from = row.attested_from;
  attested_by_record = row.attested_by_record;
  pinned = coalesce row.pinned false;
  assertion_status = some "live";
  corrected_by = none;
  correction_observed_at = none;
  close_reason = none;
  projection_status = some (coalesce row.projection_status "live");
  trace = row.trace;
}

abbrev matched_trace : Trace → Trace → Trace
matched_trace new old = record {
  chunk_id = or_keep new.chunk_id old.chunk_id;
  chunk_hash = or_keep new.chunk_hash old.chunk_hash;
  extractor_version = or_keep new.extractor_version old.extractor_version;
  model = or_keep new.model old.model;
  derived_rule = or_keep new.derived_rule old.derived_rule;
  premise_fact_uids = or_keep new.premise_fact_uids old.premise_fact_uids;
  adopted_batch = or_keep new.adopted_batch old.adopted_batch;
  decay_class = or_keep new.decay_class old.decay_class;
}

abbrev matched_basis : Bool → Option String → Option String → Option String
matched_basis false row old = some (coalesce old (coalesce row "record_time"))
matched_basis true none old = some (coalesce old "record_time")
matched_basis true (some b) old = some b

-- ON MATCH SET. It has no clause for evidence, confidence and extraction_method.
abbrev pub matched_edge : Bool → ℕ → FactRow → FactEdge → FactEdge
matched_edge revive now row e = record e {
  last_confirmed_at = if content_changed revive row e then now else e.last_confirmed_at;
  valid_at =
      if not revive
      then e.valid_at
      else if is_open e.invalid_at
      then e.valid_at
      else some (coalesce row.valid_at now);
  valid_at_basis = matched_basis revive row.valid_at_basis e.valid_at_basis;
  invalid_at = if revive then none else e.invalid_at;
  derived = coalesce row.derived e.derived;
  ended_unknown = coalesce row.ended_unknown e.ended_unknown;
  attested_from = or_keep row.attested_from e.attested_from;
  attested_by_record = or_keep row.attested_by_record e.attested_by_record;
  pinned = coalesce row.pinned false || e.pinned;
  projection_status = some (coalesce row.projection_status (coalesce e.projection_status "live"));
  source_record_keys =
      if knows_first row.source_record_keys e.source_record_keys
      then e.source_record_keys
      else e.source_record_keys ++ row.source_record_keys;
  fact_uid = row.fact_uid;
  trace = matched_trace row.trace e.trace;
}

-- MERGE: every edge of the triple is matched, or one is created.
unfoldable pub merge_edge : String → Bool → ℕ → FactRow → List FactEdge → List FactEdge
merge_edge rel revive now row edges = elim (find (is_edge row.from_uid rel row.to_uid) edges) [
  | some _ ↦ update (is_edge row.from_uid rel row.to_uid) (matched_edge revive now row) edges
  | none ↦ edges ++ created_edge rel now row ∷ []
]

-- One row of the UNWIND; a row whose nodes are not both there is dropped by MATCH.
unfoldable pub upsert_row : String → String → String → Bool → ℕ → FactRow → Graph → Graph
upsert_row rel from_label to_label revive now row g =
    if has_node from_label row.from_uid g && has_node to_label row.to_uid g
    then record g { edges = merge_edge rel revive now row g.edges }
    else g

unfoldable pub upsert_fact_edges :
    String → String → String → List FactRow → Bool → ℕ → Graph → Graph
upsert_fact_edges rel from_label to_label [] revive now g = g
upsert_fact_edges rel from_label to_label (row ∷ rows) revive now g =
    upsert_fact_edges rel from_label to_label rows revive now
      (upsert_row rel from_label to_label revive now row g)
