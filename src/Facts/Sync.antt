-- ===== src/Facts/Sync.antt =====
-- graph/storage/writer.py: the writes of a sync that act on many edges, namely
-- supersede_fact_edges, remove_record_support, invalidate_edges_by_uid_pairs and what they
-- archive, and touch_metadata. Each reads the clock once, at `now`.
pub mod Support
use neuron_kg.Prelude.{
  ℕ, String, Bool, true, false, not, ◌&&◌, ◌||◌, Option, none, some, List, [], ◌∷◌, ◌++◌, length,
  eqb, is_some, if◌then◌else◌, ◌==◌,
}
use neuron_kg.Prelude.Table.{select, find, update, delete}
use neuron_kg.Facts.{FactEdge, FactHistory, Graph, is_open, coalesce, has_node, is_edge}
use neuron_kg.Facts.Writer.{snapshot, archive, has_uid}

-- A row of _archive_history_rows.
pub record ArchiveRow : Type 0 where
  pub from_uid : String
  pub to_uid : String
  pub valid_to : Option ℕ

abbrev pub is_open_edge : String → String → String → FactEdge → Bool
is_open_edge from rel to e = is_edge from rel to e && is_open e.invalid_at

abbrev pub archive_edges :
    (String → String → String → String) → Option ℕ → ℕ → List FactEdge → Graph → Graph
archive_edges make_uid valid_to now [] g = g
archive_edges make_uid valid_to now (e ∷ es) g = archive_edges make_uid valid_to now es (
    archive
      (snapshot e (make_uid e.from_uid e.rel_type e.to_uid) now (some (coalesce valid_to now)) now)
      g)

unfoldable pub archive_history_rows :
    (String → String → String → String) → String → List ArchiveRow → ℕ → Graph → Graph
archive_history_rows make_uid rel [] now g = g
archive_history_rows make_uid rel (row ∷ rows) now g = archive_history_rows make_uid rel rows now (
    archive_edges make_uid row.valid_to now
      (select (is_open_edge row.from_uid rel row.to_uid) g.edges) g)

-- (a:from_label {uid: from})-[r:rel]->(b:to_label) WHERE r.invalid_at IS NULL
abbrev pub is_current : String → String → String → String → Graph → FactEdge → Bool
is_current rel from_label to_label from g e =
    e.from_uid == from
    && e.rel_type == rel
    && is_open e.invalid_at
    && has_node from_label from g
    && has_node to_label e.to_uid g

abbrev row_of : FactEdge → ArchiveRow
row_of e = record { from_uid = e.from_uid; to_uid = e.to_uid; valid_to = none }

abbrev rows_of : List FactEdge → List ArchiveRow
rows_of [] = []
rows_of (e ∷ es) = row_of e ∷ rows_of es

-- UNWIND $from_uids MATCH … RETURN a.uid, b.uid
abbrev pub live_rows : String → String → String → List String → Graph → List ArchiveRow
live_rows rel from_label to_label [] g = []
live_rows rel from_label to_label (u ∷ us) g =
    rows_of (select (is_current rel from_label to_label u g) g.edges)
    ++ live_rows rel from_label to_label us g

abbrev pub close_at : ℕ → FactEdge → FactEdge
close_at now e = record e { invalid_at = some now }

abbrev pub close_current : String → String → String → List String → ℕ → Graph → Graph
close_current rel from_label to_label [] now g = g
close_current rel from_label to_label (u ∷ us) now g =
    close_current rel from_label to_label us now
      (record g { edges = update (is_current rel from_label to_label u g) (close_at now) g.edges })

unfoldable pub supersede_fact_edges :
    (String → String → String → String) → String → String → String → List String → ℕ → Graph → Graph
unfolding archive_history_rows
supersede_fact_edges make_uid rel from_label to_label from_uids now g =
    close_current rel from_label to_label from_uids now
      (archive_history_rows make_uid rel (live_rows rel from_label to_label from_uids g) now g)

-- A row that the ledger has of an edge.
pub record SupportRow : Type 0 where
  pub rel_type : String
  pub from_uid : String
  pub to_uid : String
  pub valid_to : Option ℕ

abbrev is_text : String → String → Bool
is_text k j = j == k

-- [key IN keys WHERE key <> $record_key]
abbrev pub remaining : String → List String → List String
remaining k keys = delete (is_text k) keys

abbrev pub without_support : String → ℕ → FactEdge → FactEdge
without_support k now e = record e {
  source_record_keys = remaining k e.source_record_keys;
  invalid_at = if eqb (length (remaining k e.source_record_keys)) 0 then some now else e.invalid_at;
}

abbrev is_lost : String → FactEdge → Bool
is_lost k e = eqb (length (remaining k e.source_record_keys)) 0

abbrev lost_rows : Option ℕ → List FactEdge → List ArchiveRow
lost_rows valid_to [] = []
lost_rows valid_to (e ∷ es) =
    record { from_uid = e.from_uid; to_uid = e.to_uid; valid_to = valid_to } ∷ lost_rows valid_to es

-- The first row of the edge gives its valid_to.
abbrev is_row : String → String → SupportRow → Bool
is_row from to r = r.from_uid == from && r.to_uid == to

abbrev end_of : Option SupportRow → Option ℕ
end_of none = none
end_of (some r) = r.valid_to

abbrev pub to_archive :
    String → String → List SupportRow → List SupportRow → Graph → List ArchiveRow
to_archive k rel rows [] g = []
to_archive k rel rows (r ∷ rs) g =
    lost_rows (end_of (find (is_row r.from_uid r.to_uid) rows))
      (select (is_lost k) (select (is_open_edge r.from_uid rel r.to_uid) g.edges))
    ++ to_archive k rel rows rs g

abbrev pub drop_support : String → String → ℕ → List SupportRow → List FactEdge → List FactEdge
drop_support k rel now [] es = es
drop_support k rel now (r ∷ rs) es =
    drop_support k rel now rs (update (is_edge r.from_uid rel r.to_uid) (without_support k now) es)

-- The rows of one relation.
pub remove_typed_support :
    (String → String → String → String) → String → String → List SupportRow → ℕ → Graph → Graph
unfolding archive_history_rows
remove_typed_support make_uid k rel rows now g =
    let archived = archive_history_rows make_uid rel (to_archive k rel rows rows g) now g in
    record archived { edges = drop_support k rel now rows archived.edges }

-- by_type.setdefault(rel_type, []).append(row)
abbrev put_row : SupportRow → List (String × List SupportRow) → List (String × List SupportRow)
put_row r [] = (r.rel_type, r ∷ []) ∷ []
put_row r (t ∷ ts) = if t.0 == r.rel_type then (t.0, t.1 ++ r ∷ []) ∷ ts else t ∷ put_row r ts

abbrev pub group_rows :
    List SupportRow → List (String × List SupportRow) → List (String × List SupportRow)
group_rows [] ts = ts
group_rows (r ∷ rs) ts = group_rows rs (put_row r ts)

pub remove_groups :
    (String → String → String → String)
    → String
    → List (String × List SupportRow)
    → ℕ
    → Graph
    → Graph
remove_groups make_uid k [] now g = g
remove_groups make_uid k (t ∷ ts) now g =
    remove_groups make_uid k ts now (remove_typed_support make_uid k t.0 t.1 now g)

pub remove_record_support :
    (String → String → String → String) → String → List SupportRow → ℕ → Graph → Graph
unfolding remove_groups
remove_record_support make_uid k rows now g = remove_groups make_uid k (group_rows rows []) now g

unfoldable pub invalidate_edges_by_uid_pairs : List SupportRow → ℕ → Graph → Graph
invalidate_edges_by_uid_pairs [] now g = g
invalidate_edges_by_uid_pairs (r ∷ rs) now g =
    invalidate_edges_by_uid_pairs rs now
      (record g { edges = update (is_edge r.from_uid r.rel_type r.to_uid) (close_at now) g.edges })

pub touch_metadata : String → Option ℕ → ℕ → Graph → Graph
touch_metadata uid at now g = record g {
  edges =
      update (has_uid uid) (λ e. record e { metadata_revised_at = some (coalesce at now) }) g.edges;
}

unfoldable pub reinforce_count : List String → ℕ
reinforce_count keys = length keys
