-- ===== src/Duplicates/Candidates.antt =====
-- graph/resolution/duplicate_collector.py: find_duplicate_candidates and propose_duplicate_reviews.
use neuron_kg.Prelude.{
  ℕ, String, ◌==◌, Bool, true, false, ◌&&◌, ◌||◌, not, Option, none, some, List, [], ◌∷◌, ◌++◌, map,
  if◌then◌else◌,
}
use neuron_kg.Prelude.Table.{select, find}
use neuron_kg.Chars.{Chars, CharClass, codes}
use neuron_kg.Reviews.{Queue, create_review}
use neuron_kg.Facts.{Graph, FactEdge, is_live}
use neuron_kg.Duplicates.{
  Ratio, DuplicateCandidate, Labelled, polarity_conflict, lexical_overlap_score, jaccard,
  duplicate_score, below,
}

-- An edge MENTIONED_IN from a node to a SourceRecord, and a SourceRecord.
pub record Mention : Type 0 where
  pub uid : String
  pub record_key : String

pub record SourceNode : Type 0 where
  pub record_key : String
  pub deleted_at : Option ℕ

-- What the collector reads: the facts, the mentions and their source records, the nodes of the label in the order of the
-- graph, the node of any uid, and the hits of search_above for a node with an embedding.
pub record World : Type 0 where
  pub graph : Graph
  pub mentions : List Mention
  pub records : List SourceNode
  pub nodes : List Labelled
  pub node_of : String → Labelled
  pub hits : String → Option (List (String × Ratio))

abbrev pub is_target_edge : String → FactEdge → Bool
is_target_edge uid e =
    e.from_uid == uid
    && ((e.rel_type == "APPLIES_TO" || e.rel_type == "DEFINES")
        && (is_live e && not (e.to_uid == "")))

unfoldable pub outgoing_targets : Graph → String → List Chars
outgoing_targets g uid = map (λ e. codes e.to_uid) (select (is_target_edge uid) g.edges)

abbrev pub is_kept : Option ℕ → Bool
is_kept none = true
is_kept (some t) = false

abbrev pub is_record : String → SourceNode → Bool
is_record key s = s.record_key == key

-- WHERE s.deleted_at IS NULL, at the record of a mention
abbrev pub is_kept_record : Option SourceNode → Bool
is_kept_record none = false
is_kept_record (some s) = is_kept s.deleted_at

unfoldable pub node_source_record_keys : List SourceNode → List Mention → String → List String
node_source_record_keys rs ms uid =
    map (λ m. m.record_key)
      (select
        (λ m.
          m.uid == uid
          && (is_kept_record (find (is_record m.record_key) rs) && not (m.record_key == "")))
        ms)

abbrev pub Pair : Type 0
Pair = String × String

abbrev pub same_pair : Pair → Pair → Bool
same_pair p q = p.0 == q.0 && p.1 == q.1

abbrev pub seen_in : Pair → List Pair → Bool
seen_in p [] = false
seen_in p (q ∷ qs) = same_pair p q || seen_in p qs

pub record Found : Type 0 where
  pub seen_pairs : List Pair
  pub candidates : List DuplicateCandidate

abbrev pub is_node : String → Labelled → Bool
is_node uid n = n.uid == uid

abbrev pub or_read : World → String → Option Labelled → Labelled
or_read w uid none = w.node_of uid
or_read w uid (some n) = n

-- The thresholds of a call are in `floor`, that of the search in w.hits.
module _ (casefold : Chars → Chars) (k : CharClass) (fold : ℕ → ℕ)
    (before : String → String → Bool) where
  unfoldable pub pair_of : String → String → Pair
  pair_of a b = if before a b then (a, b) else (b, a)

  unfoldable pub score_of : World → Labelled → String → Ratio → Option Ratio
  score_of w n other similarity =
      let o = or_read w other (find (is_node other) w.nodes) in
      let keys : String → List Chars =
        λ uid. map codes (node_source_record_keys w.records w.mentions uid) in
      duplicate_score similarity (lexical_overlap_score casefold n.name o.name)
        (jaccard (outgoing_targets w.graph n.uid) (outgoing_targets w.graph other))
        (jaccard (keys n.uid) (keys other)) (polarity_conflict k fold n.text o.text)

  unfoldable pub candidate_of :
      World → String → Labelled → String → Ratio → Ratio → DuplicateCandidate
  candidate_of w label n other similarity score =
      let o = or_read w other (find (is_node other) w.nodes) in
      let keys : String → List Chars =
        λ uid. map codes (node_source_record_keys w.records w.mentions uid) in
      record {
        label = label;
        uid_a = (pair_of n.uid other).0;
        uid_b = (pair_of n.uid other).1;
        vector_similarity = similarity;
        lexical_overlap = lexical_overlap_score casefold n.name o.name;
        shared_targets = jaccard (outgoing_targets w.graph n.uid) (outgoing_targets w.graph other);
        shared_source_records = jaccard (keys n.uid) (keys other);
        score = score;
      }

  abbrev pub kept :
      World → String → Ratio → Labelled → String → Ratio → Option Ratio → List DuplicateCandidate
  kept w label floor n other similarity none = []
  kept w label floor n other similarity (some score) =
      if below score floor then [] else candidate_of w label n other similarity score ∷ []

  abbrev pub visit : World → String → Ratio → Labelled → String × Ratio → Found → Found
  visit w label floor n h f =
      if h.0 == n.uid || seen_in (pair_of n.uid h.0) f.seen_pairs then f else record {
        seen_pairs = pair_of n.uid h.0 ∷ f.seen_pairs;
        candidates = f.candidates ++ kept w label floor n h.0 h.1 (score_of w n h.0 h.1);
      }

  abbrev pub visit_all : World → String → Ratio → Labelled → List (String × Ratio) → Found → Found
  visit_all w label floor n [] f = f
  visit_all w label floor n (h ∷ hs) f = visit_all w label floor n hs (visit w label floor n h f)

  abbrev pub hits_of : Option (List (String × Ratio)) → List (String × Ratio)
  hits_of none = []
  hits_of (some hs) = hs

  abbrev pub collect : World → String → Ratio → List Labelled → Found → Found
  collect w label floor [] f = f
  collect w label floor (n ∷ ns) f =
      collect w label floor ns (visit_all w label floor n (hits_of (w.hits n.uid)) f)

  -- None is the ValueError of another label.
  unfoldable pub find_duplicate_candidates :
      World → String → Ratio → Option (List DuplicateCandidate)
  find_duplicate_candidates w label floor =
      if label == "Decision" || label == "Term"
      then some
          (collect w label floor w.nodes (record { seen_pairs = []; candidates = [] })).candidates
      else none

abbrev pub add_text : String → String → String
add_text String.[] t = t
add_text (String.◌∷◌ c s) t = String.◌∷◌ c (add_text s t)

unfoldable pub pair_identity : DuplicateCandidate → String
pair_identity c =
    add_text "duplicate_pair:"
      (add_text c.label (add_text ":" (add_text c.uid_a (add_text ":" c.uid_b))))

-- `dump` writes the payload as JSON.
unfoldable pub propose_duplicate_reviews :
    (DuplicateCandidate → String) → ℕ → List DuplicateCandidate → Queue → Queue × List (Option ℕ)
propose_duplicate_reviews dump now [] q = (q, [])
propose_duplicate_reviews dump now (c ∷ cs) q =
    let one = create_review "duplicate_pair" (dump c) (some (pair_identity c)) now q in
    let rest = propose_duplicate_reviews dump now cs one.0 in (rest.0, one.1 ∷ rest.1)
