-- ===== src/Duplicates/Merge.antt =====
-- graph/resolution/duplicate_collector.py: apply_approved_duplicate_merge, with
-- invalidate_edges_by_uid_pairs and link_mentioned_in of graph/storage/writer.py and the
-- merge_trace table of connectors/core/ledger.py. The uid of a fact and the reading of a review's
-- payload are arguments; the clock is read once.
use neuron_kg.Prelude.{
  ℕ, suc, ◌+◌, String, ◌==◌, Bool, true, false, ◌&&◌, ◌||◌, not, Option, none, some, List, [], ◌∷◌,
  ◌++◌, map, take, is_some, if◌then◌else◌, eqb, ltb,
}
use neuron_kg.Prelude.Table.{select, find, first, order_by}
use neuron_kg.Facts.{Graph, Node, FactEdge, FactRow, has_node, is_live, upsert_fact_edges}
use neuron_kg.Facts.Sync.{SupportRow, invalidate_edges_by_uid_pairs, reinforce_count}
use neuron_kg.Reviews.{Queue, Review, ReviewState, pending, approved, rejected, get_review}
use neuron_kg.Duplicates.Candidates.{Mention, SourceNode, is_record, node_source_record_keys}

-- first_seen_at of a node
pub record Seen : Type 0 where
  pub uid : String
  pub first_seen_at : Option ℕ

pub record MergeTrace : Type 0 where
  pub id : ℕ
  pub survivor_uid : String
  pub absorbed_uid : String
  pub label : String
  pub merged_at : ℕ
  pub reason : Option String

pub record State : Type 0 where
  pub graph : Graph
  pub seen : List Seen
  pub mentions : List Mention
  pub records : List SourceNode
  pub traces : List MergeTrace
  pub next_trace : ℕ

pub record Merged : Type 0 where
  pub review_id : ℕ
  pub label : String
  pub survivor_uid : String
  pub absorbed_uid : String
  pub merge_trace_id : ℕ

-- The three ValueErrors.
pub data Refusal : Type 0 where
  no_review wrong_type not_approved : Refusal

pub data Answer {ℓ} (A : Type ℓ) : Type ℓ where
  done : A → Answer A
  refused : Refusal → Answer A

abbrev pub is_fact : FactEdge → Bool
is_fact e = not (e.rel_type == "MENTIONED_IN") && is_live e

abbrev pub touches : String → FactEdge → Bool
touches uid e = is_fact e && (e.from_uid == uid || e.to_uid == uid)

abbrev pub sum_keys : List FactEdge → ℕ
sum_keys [] = 0
sum_keys (e ∷ es) = reinforce_count e.source_record_keys + sum_keys es

unfoldable pub node_reinforcement : Graph → String → ℕ
node_reinforcement g uid = sum_keys (select (touches uid) g.edges)

abbrev pub is_seen : String → Seen → Bool
is_seen uid s = s.uid == uid

abbrev pub seen_at : Option Seen → Option ℕ
seen_at none = none
seen_at (some s) = s.first_seen_at

-- first_seen_b and (not first_seen_a or first_seen_b < first_seen_a)
abbrev pub is_older : Option ℕ → Option ℕ → Bool
is_older none a = false
is_older (some b) none = true
is_older (some b) (some a) = ltb b a

unfoldable pub choose_survivor : State → String → String → String × String
unfolding node_reinforcement
choose_survivor s a b =
    let ra = node_reinforcement s.graph a in
    let rb = node_reinforcement s.graph b in
    if not (eqb ra rb)
    then (if ltb rb ra then (a, b) else (b, a))
    else if is_older (seen_at (find (is_seen b) s.seen)) (seen_at (find (is_seen a) s.seen))
    then (b, a)
    else (a, b)

-- Closed edges between the two are closed again.
unfoldable pub invalidate_pair : String → String → String → ℕ → Graph → Graph
unfolding invalidate_edges_by_uid_pairs
invalidate_pair from rel to now g =
    let row : SupportRow = record {
      from_uid = from;
      to_uid = to;
      rel_type = rel;
      valid_to = none;
    } in
    invalidate_edges_by_uid_pairs (row ∷ []) now g

abbrev pub is_uid : String → Node → Bool
is_uid uid n = n.uid == uid

abbrev pub label_in : Option Node → String
label_in none = ""
label_in (some n) = n.label

abbrev pub label_of : Graph → String → String
label_of g uid = label_in (find (is_uid uid) g.nodes)

module _ (fact_uid : String → String → String → String) (now : ℕ) where
  -- properties(r), with its ends set and its fact_uid made anew
  abbrev pub row_of : FactEdge → String → String → FactRow
  row_of e from to = record {
    from_uid = from;
    to_uid = to;
    fact_uid = fact_uid from e.rel_type to;
    source_record_keys = e.source_record_keys;
    evidence = e.evidence;
    extraction_method = e.extraction_method;
    confidence = e.confidence;
    valid_at = e.valid_at;
    valid_at_basis = e.valid_at_basis;
    invalid_at = e.invalid_at;
    derived = some e.derived;
    ended_unknown = some e.ended_unknown;
    attested_from = e.attested_from;
    attested_by_record = e.attested_by_record;
    pinned = some e.pinned;
    projection_status = e.projection_status;
    trace = e.trace;
  }

  -- The labels are those that the query read.
  abbrev pub move_out : String → String → List (FactEdge × String) → Graph → Graph
  move_out label survivor [] g = g
  move_out label survivor ((e, other) ∷ es) g = move_out label survivor es (
      invalidate_pair e.from_uid e.rel_type e.to_uid now
        (upsert_fact_edges e.rel_type label other (row_of e survivor e.to_uid ∷ []) true now g))

  abbrev pub move_in : String → String → List (FactEdge × String) → Graph → Graph
  move_in label survivor [] g = g
  move_in label survivor ((e, other) ∷ es) g = move_in label survivor es (
      invalidate_pair e.from_uid e.rel_type e.to_uid now
        (upsert_fact_edges e.rel_type other label (row_of e e.from_uid survivor ∷ []) true now g))

  abbrev pub leaves : String → String → FactEdge → Bool
  leaves survivor absorbed e = e.from_uid == absorbed && (is_fact e && not (e.to_uid == survivor))

  abbrev pub enters : String → String → FactEdge → Bool
  enters survivor absorbed e = e.to_uid == absorbed && (is_fact e && not (e.from_uid == survivor))

  abbrev pub outgoing : String → String → Graph → List (FactEdge × String)
  outgoing survivor absorbed g =
      map (λ e. (e, label_of g e.to_uid)) (select (leaves survivor absorbed) g.edges)

  abbrev pub incoming : String → String → Graph → List (FactEdge × String)
  incoming survivor absorbed g =
      map (λ e. (e, label_of g e.from_uid)) (select (enters survivor absorbed) g.edges)

  unfoldable pub absorb_fact_edges : String → String → String → Graph → Graph
  absorb_fact_edges label survivor absorbed g =
      let moved = move_out label survivor (outgoing survivor absorbed g) g in
      move_in label survivor (incoming survivor absorbed moved) moved

  abbrev pub mentions_of : String → String → Mention → Bool
  mentions_of uid key m = m.uid == uid && m.record_key == key

  -- MERGE (n)-[:MENTIONED_IN]->(s)
  abbrev pub add_mention : String → String → List Mention → List Mention
  add_mention uid key ms =
      let row : Mention = record { uid = uid; record_key = key } in
      if is_some (find (mentions_of uid key) ms) then ms else ms ++ row ∷ []

  -- After the MATCH of the node, by its label, and of the source record.
  unfoldable pub link_mentioned_in :
      Graph → List SourceNode → String → String → List String → List Mention → List Mention
  link_mentioned_in g rs label uid [] ms = ms
  link_mentioned_in g rs label uid (key ∷ keys) ms =
      let next =
        if has_node label uid g && is_some (find (is_record key) rs)
        then add_mention uid key ms
        else ms in
      link_mentioned_in g rs label uid keys next

  unfoldable pub absorb_mentions :
      Graph → List SourceNode → String → String → String → List Mention → List Mention
  absorb_mentions g rs label survivor absorbed ms =
      link_mentioned_in g rs label survivor (node_source_record_keys rs ms absorbed) ms

  unfoldable pub record_merge_trace : String → String → String → Option String → State → State × ℕ
  record_merge_trace survivor absorbed label reason s =
      let row : MergeTrace = record {
        id = s.next_trace;
        survivor_uid = survivor;
        absorbed_uid = absorbed;
        label = label;
        merged_at = now;
        reason = reason;
      } in
      (record s { traces = s.traces ++ row ∷ []; next_trace = suc s.next_trace }, s.next_trace)

  unfoldable pub merge : ℕ → String → String → String → State → State × Merged
  unfolding absorb_fact_edges absorb_mentions
  merge review_id label survivor absorbed s =
      let moved = absorb_fact_edges label survivor absorbed s.graph in
      let after : State = record s {
        graph = moved;
        mentions = absorb_mentions moved s.records label survivor absorbed s.mentions;
      } in
      let trace = record_merge_trace survivor absorbed label (some "duplicate_pair_merge") after in
      let result : Merged = record {
        review_id = review_id;
        label = label;
        survivor_uid = survivor;
        absorbed_uid = absorbed;
        merge_trace_id = trace.1;
      } in
      (trace.0, result)

  abbrev pub is_approved : ReviewState → Bool
  is_approved approved = true
  is_approved pending = false
  is_approved rejected = false

  -- `payload` reads the label and the two uids of a payload.
  abbrev pub apply :
      (String → String × (String × String)) → State → Option Review → Answer (State × Merged)
  apply payload s none = refused no_review
  apply payload s (some r) =
      let p = payload r.payload in
      let chosen = choose_survivor s p.1.0 p.1.1 in
      if not (r.type == "duplicate_pair")
      then refused wrong_type
      else if not (is_approved r.state)
      then refused not_approved
      else done (merge r.id p.0 chosen.0 chosen.1 s)

  unfoldable pub apply_approved_duplicate_merge :
      (String → String × (String × String)) → ℕ → Queue → State → Answer (State × Merged)
  apply_approved_duplicate_merge payload review_id q s = apply payload s (get_review review_id q)

-- ORDER BY merged_at DESC, id DESC
abbrev pub is_later : MergeTrace → MergeTrace → Bool
is_later t u = ltb u.merged_at t.merged_at || (eqb t.merged_at u.merged_at && ltb u.id t.id)

abbrev pub absorbs : String → MergeTrace → Bool
absorbs uid t = t.absorbed_uid == uid

abbrev pub survivor_of : Option MergeTrace → Option String
survivor_of none = none
survivor_of (some t) = some t.survivor_uid

unfoldable pub merged_into : String → List MergeTrace → Option String
merged_into uid traces = survivor_of (first is_later (select (absorbs uid) traces))

unfoldable pub list_merge_traces : ℕ → List MergeTrace → List MergeTrace
list_merge_traces limit traces = take limit (order_by is_later traces)
