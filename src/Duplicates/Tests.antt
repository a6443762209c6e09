-- ===== src/Duplicates/Tests.antt =====
-- Two decisions that say the same, collected as a pair and merged.
use neuron_kg.Prelude.{
  ℕ, ◌+◌, String, ◌==◌, ◌≡◌, refl, Bool, true, false, ◌&&◌, ◌||◌, Option, none, some, List, [], ◌∷◌,
  All, map, if◌then◌else◌, eqb, ltb, leb, arith,
}
use neuron_kg.Prelude.Table.{}
use neuron_kg.Chars.{Chars, codes, CharClass}
use neuron_kg.Reviews.{Queue, Review, approved, get_review}
use neuron_kg.Facts.{upsert_fact_edges, upsert_row, merge_edge, Graph, FactEdge, Trace}
use neuron_kg.TimeAxis.{live_fact_cypher}
use neuron_kg.Facts.Sync.{reinforce_count, invalidate_edges_by_uid_pairs}
use neuron_kg.Duplicates.{
  Ratio, DuplicateCandidate, Labelled, normalize_identity, polarity_conflict, lexical_overlap_score,
  jaccard, duplicate_score,
}
use neuron_kg.Duplicates.Candidates.{
  World, find_duplicate_candidates, node_source_record_keys, outgoing_targets, pair_of, score_of,
  candidate_of,
}
use neuron_kg.Duplicates.Merge.{
  invalidate_pair, State, Merged, choose_survivor, node_reinforcement, leaves, enters, merged_into,
  apply_approved_duplicate_merge, absorb_fact_edges, merge, record_merge_trace,
}
use neuron_kg.Duplicates.Applied.{has_mention, merge_applied}

abbrev digit : ℕ → Bool
digit c = leb b'0' c && leb c b'9'

abbrev word : ℕ → Bool
word c = digit c || leb b'a' c && leb c b'z' || leb b'A' c && leb c b'Z' || eqb c b'_'

abbrev space : ℕ → Bool
space c = leb 9 c && leb c 13 || eqb c b' '

classes_apart : (c : ℕ) → space c ≡ true → word c ≡ false
classes_apart c h = ground arith

abbrev ascii : CharClass
ascii = record {
  is_word = word;
  is_space = space;
  is_digit = digit;
  apart = classes_apart;
  newline_space = refl;
  blank_space = refl;
  tab_space = refl;
}

abbrev fold : ℕ → ℕ
fold c = if leb b'A' c && leb c b'Z' then c + 32 else c

negated :
    polarity_conflict ascii fold (codes "We no longer use Kafka") (codes "Note: we use Kafka")
    ≡ true
unfolding polarity_conflict
negated = refl

normal : normalize_identity (map fold) (codes " Use  Kafka, v2!") ≡ codes "use kafka v2"
unfolding normalize_identity
normal = refl

-- The order of code points.
abbrev less : Chars → Chars → Bool
less [] [] = false
less [] (d ∷ ds) = true
less (c ∷ cs) [] = false
less (c ∷ cs) (d ∷ ds) = ltb c d || (eqb c d && less cs ds)

abbrev head : Chars → ℕ
head [] = 0
head (c ∷ cs) = c

abbrev tail : Chars → Chars
tail [] = []
tail (c ∷ cs) = cs

abbrev before : String → String → Bool
before a b = less (codes a) (codes b)

abbrev no_trace : Trace
no_trace = record {
  chunk_id = none;
  chunk_hash = none;
  extractor_version = none;
  model = none;
  derived_rule = none;
  premise_fact_uids = none;
  adopted_batch = none;
  decay_class = none;
}

abbrev applies : String → List String → FactEdge
applies from keys = record {
  from_uid = from;
  rel_type = "APPLIES_TO";
  to_uid = "S";
  fact_uid = "f";
  valid_at = some 1;
  valid_at_basis = none;
  invalid_at = none;
  first_seen_at = 1;
  last_confirmed_at = 1;
  metadata_revised_at = none;
  source_record_keys = keys;
  evidence = none;
  extraction_method = none;
  confidence = none;
  derived = false;
  ended_unknown = false;
  attested_from = none;
  attested_by_record = none;
  pinned = false;
  assertion_status = none;
  corrected_by = none;
  correction_observed_at = none;
  close_reason = none;
  projection_status = none;
  trace = no_trace;
}

abbrev graph : Graph
graph = record {
  nodes =
      record { uid = "A"; label = "Decision" }
      ∷ record { uid = "B"; label = "Decision" }
      ∷ record { uid = "S"; label = "System" }
      ∷ [];
  edges = applies "A" ("k1" ∷ "k3" ∷ []) ∷ applies "B" ("k1" ∷ "k2" ∷ "k4" ∷ []) ∷ [];
  history = [];
  disputes = [];
}

abbrev node : String → String → Labelled
node uid text = record { uid = uid; name = codes "Use X"; text = codes text }

abbrev full : Ratio
full = record { num = 1; den = 1 }

abbrev hits_for : String → Option (List (String × Ratio))
hits_for uid = if uid == "A" then some (("B", full) ∷ []) else some (("A", full) ∷ [])

abbrev world : World
world = record {
  graph = graph;
  mentions = record { uid = "A"; record_key = "k3" } ∷ record { uid = "A"; record_key = "k5" } ∷ [];
  records =
      record { record_key = "k3"; deleted_at = none }
      ∷ record { record_key = "k5"; deleted_at = some 3 }
      ∷ [];
  nodes = node "A" "X" ∷ node "B" "X" ∷ [];
  node_of = λ uid. node uid "";
  hits = hits_for;
}

abbrev three_fifths : Ratio
three_fifths = record { num = 3; den = 5 }

abbrev found : List DuplicateCandidate
unfolding find_duplicate_candidates
found =
    elim (find_duplicate_candidates (map fold) ascii fold before world "Decision" three_fifths) [
      | none ↦ []
      | some cs ↦ cs
    ]

one_pair : map (λ c. c.uid_b) found ≡ "B" ∷ []
unfolding found find_duplicate_candidates pair_of score_of candidate_of outgoing_targets
    node_source_record_keys lexical_overlap_score normalize_identity jaccard duplicate_score
    polarity_conflict live_fact_cypher
one_pair = refl

abbrev state : State
state = record {
  graph = graph;
  seen = [];
  mentions = world.mentions;
  records = world.records;
  traces = [];
  next_trace = 1;
}

abbrev review : Review
review = record {
  id = 7;
  type = "duplicate_pair";
  payload = "{}";
  identity = none;
  state = approved;
  decided_by = none;
  decided_at = none;
  created_at = 0;
}

abbrev queue : Queue
queue = record { reviews = review ∷ []; rejections = []; next_id = 8 }

abbrev uid_of : String → String → String → String
uid_of from rel to = from

-- The survivor is B, and its fact does not get the key k3 of the fact that it takes over.
key_lost :
    map (λ e. e.source_record_keys) (absorb_fact_edges uid_of 9 "Decision" "B" "A" graph).edges
    ≡ ("k1" ∷ "k3" ∷ []) ∷ ("k1" ∷ "k2" ∷ "k4" ∷ []) ∷ []
unfolding absorb_fact_edges invalidate_pair invalidate_edges_by_uid_pairs upsert_fact_edges
    upsert_row merge_edge live_fact_cypher
key_lost = refl

abbrev payload : String → String × (String × String)
payload p = ("Decision", ("A", "B"))

abbrev outcome : State × Merged
unfolding merge
outcome = merge uid_of 9 7 "Decision" "B" "A" state

merge_applied_example :
    (r : Review) × (get_review 7 queue ≡ some r)
    × ((r.type == "duplicate_pair") ≡ true)
    × (r.state ≡ approved)
    × ((payload r.payload).0 ≡ "Decision")
    × (choose_survivor state "A" "B" ≡ ("B", "A"))
    × All
        (λ e. (leaves uid_of 9 "B" "A" e ≡ false) × (enters uid_of 9 "B" "A" e ≡ false))
        outcome.0.graph.edges
    × All
        (λ key. has_mention uid_of 9 "B" key outcome.0.mentions ≡ true)
        (node_source_record_keys world.records world.mentions "A")
    × (merged_into "A" outcome.0.traces ≡ some "B")
unfolding outcome merge record_merge_trace apply_approved_duplicate_merge get_review choose_survivor
    node_reinforcement reinforce_count live_fact_cypher node_source_record_keys
merge_applied_example =
    merge_applied uid_of 9 payload 7 queue state outcome.0 outcome.1 refl refl tt refl
