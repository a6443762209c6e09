-- ===== src/Records.antt =====
-- connectors/core/actions.py and the part of connectors/core/ledger.py that plans and commits
-- records and numbers their versions (ConnectorLedger.get … record_version, commit_delete). Each
-- table is the list of its rows in the order of insertion, and times are microseconds.
pub mod Plans
pub mod Versions
mod Tests
use neuron_kg.Prelude.{
  ℕ, ◌+◌, min, String, Bool, true, false, Option, none, some, List, [], ◌∷◌, ◌++◌, map, take, ltb,
  eqb, ◌&&◌, ◌||◌, if◌then◌else◌, ◌==◌,
}
use neuron_kg.Prelude.Table.{select, find, update, delete, first, order_by}

pub data RecordAction : Type 0 where
  insert update_record remove keep : RecordAction

-- A value, or the ValueError of a live record without a hash.
pub data Planned : Type 0 where
  ok : RecordAction → Planned
  value_error : Planned

-- resolve_action(previous_hash, current_hash, deleted=…)
pub resolve_action : Option String → Option String → Bool → Planned
resolve_action none _ true = ok keep
resolve_action (some _) _ true = ok remove
resolve_action _ none false = value_error
resolve_action none (some current) false = ok insert
resolve_action (some previous) (some current) false =
    if previous == current then ok keep else ok update_record

pub data SemanticStatus : Type 0 where
  pending done not_applicable : SemanticStatus

pub record LedgerEntry : Type 0 where
  pub record_key : String
  pub content_hash : String
  pub primary_node_uid : Option String
  pub semantic_status : SemanticStatus
  pub semantic_priority : ℕ
  pub update_count : ℕ
  pub updated_at : ℕ

-- A row of record_versions.
pub record RecordVersion : Type 0 where
  pub record_key : String
  pub version : ℕ
  pub content_hash : String
  pub ingested_at : ℕ

pub record RecordEdgeRef : Type 0 where
  pub record_key : String
  pub rel_type : String
  pub from_uid : String
  pub to_uid : String

-- The tables source_records, record_versions and record_edges.
pub record Ledger : Type 0 where
  pub records : List LedgerEntry
  pub versions : List RecordVersion
  pub edges : List RecordEdgeRef

abbrev pub has_key : String → LedgerEntry → Bool
has_key k e = e.record_key == k

pub get : String → Ledger → Option LedgerEntry
get k l = find (has_key k) l.records

abbrev pub hash_of : Option LedgerEntry → Option String
hash_of none = none
hash_of (some e) = some e.content_hash

pub plan : String → Option String → Bool → Ledger → Planned
plan k current deleted l = resolve_action (hash_of (get k l)) current deleted

abbrev pub is_version_of : String → RecordVersion → Bool
is_version_of k v = v.record_key == k

-- ORDER BY version DESC
abbrev pub is_newer : RecordVersion → RecordVersion → Bool
is_newer v w = ltb w.version v.version

pub latest : String → List RecordVersion → Option RecordVersion
latest k vs = first is_newer (select (is_version_of k) vs)

abbrev pub same_version : String → ℕ → RecordVersion → Bool
same_version k n v = v.record_key == k && eqb v.version n

-- INSERT … ON CONFLICT DO NOTHING on the primary key (record_key, version)
abbrev insert_version : RecordVersion → List RecordVersion → List RecordVersion
insert_version v vs = elim (find (same_version v.record_key v.version) vs) [
  | none ↦ vs ++ v ∷ []
  | some _ ↦ vs
]

-- The rows after the call, and the version number that it returns.
pub record_version : String → String → ℕ → List RecordVersion → List RecordVersion × ℕ
record_version k hash now vs = elim (latest k vs) [
  | none ↦ (
    insert_version (record { record_key = k; version = 1; content_hash = hash; ingested_at = now })
        vs,
    1,
  )
  | some v ↦ if v.content_hash == hash then (vs, v.version) else (
    insert_version
        (record { record_key = k; version = v.version + 1; content_hash = hash; ingested_at = now })
        vs,
    v.version + 1,
  )
]

-- ON CONFLICT(record_key) DO UPDATE
abbrev recommit : String → Option String → SemanticStatus → ℕ → LedgerEntry → LedgerEntry
recommit hash uid status now e = record e {
  content_hash = hash;
  primary_node_uid = uid;
  semantic_status = status;
  semantic_priority = min 300 (200 + e.update_count);
  update_count = e.update_count + 1;
  updated_at = now;
}

abbrev upsert :
    String → String → Option String → SemanticStatus → ℕ → List LedgerEntry → List LedgerEntry
upsert k hash uid status now es = elim (find (has_key k) es) [
  | some _ ↦ update (has_key k) (recommit hash uid status now) es
  | none ↦
      es
      ++ record {
        record_key = k;
        content_hash = hash;
        primary_node_uid = uid;
        semantic_status = status;
        semantic_priority = 100;
        update_count = 0;
        updated_at = now;
      }
        ∷ []
]

pub commit : String → String → Option String → SemanticStatus → ℕ → Ledger → Ledger
commit k hash uid status now l = record l {
  records = upsert k hash uid status now l.records;
  versions = (record_version k hash now l.versions).0;
}

pub set_semantic_status : String → SemanticStatus → Ledger → Ledger
set_semantic_status k status l = record l {
  records = update (has_key k) (λ e. record e { semantic_status = status }) l.records;
}

abbrev pub is_pending : SemanticStatus → Bool
is_pending pending = true
is_pending _ = false

-- ORDER BY semantic_priority DESC, updated_at ASC
abbrev pub is_sooner : LedgerEntry → LedgerEntry → Bool
is_sooner e f =
    ltb f.semantic_priority e.semantic_priority
    || (eqb e.semantic_priority f.semantic_priority && ltb e.updated_at f.updated_at)

pub pending_semantic_records : ℕ → Ledger → List String
pending_semantic_records limit l =
    map (λ e. e.record_key)
      (take limit (order_by is_sooner (select (λ e. is_pending e.semantic_status) l.records)))

abbrev is_edge : RecordEdgeRef → RecordEdgeRef → Bool
is_edge r e =
    e.record_key == r.record_key
    && e.rel_type == r.rel_type
    && e.from_uid == r.from_uid
    && e.to_uid == r.to_uid

-- INSERT … ON CONFLICT DO NOTHING, for each edge
pub record_edges_batch : List RecordEdgeRef → List RecordEdgeRef → List RecordEdgeRef
record_edges_batch [] rows = rows
record_edges_batch (e ∷ es) rows =
    record_edges_batch es (elim (find (is_edge e) rows) [ none ↦ rows ++ e ∷ [] | some _ ↦ rows ])

abbrev pub supports : String → RecordEdgeRef → Bool
supports k e = e.record_key == k

pub edges_for_record : String → Ledger → List RecordEdgeRef
edges_for_record k l = select (supports k) l.edges

pub clear_edges : String → Ledger → Ledger
clear_edges k l = record l { edges = delete (supports k) l.edges }

-- The chunks of the record, which commit_delete removes too, are in `Chunks.commit_delete`.
pub commit_delete : String → Ledger → Ledger
commit_delete k l = record l {
  records = delete (has_key k) l.records;
  edges = delete (supports k) l.edges;
}
