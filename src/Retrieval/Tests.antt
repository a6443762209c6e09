-- ===== src/Retrieval/Tests.antt =====
-- A long page cut to a window, two callers and a record, and the neighbours of one seed.
use neuron_kg.Prelude.{
  ℕ, ◌≤◌, ◌≡◌, refl, true, false, none, some, List, [], ◌∷◌, map, length, All, Any, arith,
}
use neuron_kg.Chars.{codes}
use neuron_kg.Retrieval.Windows.{
  Window, Encoder, slide, overlap_score, token_windows, best_window, query_terms, slice,
}
use neuron_kg.Retrieval.Windows.Cover.{Fits, Holds, token_windows-cover}
use neuron_kg.Retrieval.Windows.Best.{First, best_window_first}
use neuron_kg.Retrieval.Access.{AccessScope, SourceAccess, cypher, lets}
use neuron_kg.Retrieval.Access.Isolation.{scope_grants}
use neuron_kg.Retrieval.Expand.{
  Hop, Row, derived, query_rows, candidate, readable, tier_for_extraction_method, expand_neighbors,
  hit,
}
use neuron_kg.TimeAxis.{live_fact_cypher}
use neuron_kg.Retrieval.Expand.Bounded.{UniqueUid, AssertedFirst}
use neuron_kg.Retrieval.Expand.Neighbours.{Reason, expand_neighbors_bounded}

-- A token for each character.
abbrev letters : Encoder
letters = record { encode = λ t. t; decode = λ t. t }

windows :
    token_windows 5 2
    ≡ some (
        map {A = ℕ × ℕ} {B = Window}
          (λ p. record { start = p.0; end = p.1 })
          ((0, 2) ∷ (1, 3) ∷ (2, 4) ∷ (3, 5) ∷ []))
unfolding token_windows slide
windows = refl

token_windows-cover_example :
    (ws : List Window) × (token_windows 5 2 ≡ some ws) × All (Fits 5 2) ws × Any (Holds 4) ws
token_windows-cover_example = token_windows-cover 5 2 4 (omega arith) (omega arith)

cuts :
    best_window (λ t. t) letters (codes "who pays") (codes "tax and pays") 4 ≡ some (codes "pays")
unfolding best_window query_terms overlap_score token_windows slide
cuts = refl

best_window_first_example :
    (ws : List Window) × (w : Window) × (token_windows 12 4 ≡ some ws)
    × First (λ t. t) letters (query_terms (λ t. t) (codes "who pays")) (codes "tax and pays") ws w
    × (best_window (λ t. t) letters (codes "who pays") (codes "tax and pays") 4
        ≡ some (slice w (codes "tax and pays")))
    × (length (slice w (codes "tax and pays")) ≤ 4)
best_window_first_example =
    best_window_first (λ t. t) letters (codes "who pays") (codes "tax and pays") 4 refl
      (omega arith) (omega arith)

abbrev session : AccessScope
session = record {
  connections = (codes "jira", codes "c1" ∷ []) ∷ [];
  principals = [];
  allow_public = false;
  unrestricted = false;
}

abbrev issue : SourceAccess
issue = record {
  is_public = none;
  provider = codes "jira";
  connection_id = none;
  record_key = codes "jira:c1:Issue:P-1";
  principals = none;
}

scope_grants_example : lets (cypher session) issue ≡ true
scope_grants_example =
    scope_grants issue (codes "c1") (codes "Issue:P-1") refl tt (refl, (refl, tt)) session refl
      (((refl, (refl, tt)), tt), tt)

abbrev edge : Hop
edge = record {
  seed = "A";
  uid = "B";
  label = "Document";
  name = some "Design";
  search_text = none;
  rel = "DOCUMENTS";
  state = record { invalid_at = none; assertion_status = none; projection_status = none };
  derived_edge = none;
  extraction_method = some "llm";
  from_uid = "B";
  to_uid = "A";
  sources = record { deleted_at = none; access = issue } ∷ [];
}

expands :
    map (λ h. h.uid) (expand_neighbors ("A" ∷ []) session none derived [] (some (edge ∷ [])))
    ≡ "B" ∷ []
unfolding expand_neighbors query_rows candidate readable lets cypher tier_for_extraction_method
    live_fact_cypher
expands = refl

expand_neighbors_bounded_example :
    (rows : List Row) × (expand_neighbors ("A" ∷ []) session none derived [] (some (edge ∷ []))
      ≡ map hit rows)
    × (length rows ≤ 32)
    × UniqueUid rows
    × AssertedFirst rows
    × All (Reason ("A" ∷ []) session none derived [] (edge ∷ [])) rows
expand_neighbors_bounded_example =
    expand_neighbors_bounded ("A" ∷ []) session none derived [] (edge ∷ [])
