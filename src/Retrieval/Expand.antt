-- ===== src/Retrieval/Expand.antt =====
-- graph/retrieval/expand.py: expand_neighbors, with its Cypher query over the edges at the seeds
-- and the source records of the other ends. The order that the graph returns rows in is the order
-- of the list. A query that fails is none.
pub mod Bounded
pub mod Neighbours
use neuron_kg.Prelude.{
  ℕ, zero, suc, String, ◌==◌, Bool, true, false, ◌&&◌, ◌||◌, not, Option, none, some, List, [], ◌∷◌,
  ◌++◌, ◌*◌, map, length, take, if◌then◌else◌, ltb, leb,
}
use neuron_kg.Prelude.Table.{select, order_by}
use neuron_kg.Chars.{Chars}
use neuron_kg.Retrieval.Windows.{elem}
use neuron_kg.Retrieval.Access.{AccessScope, SourceAccess, cypher, lets, coalesce}
use neuron_kg.TimeAxis.{FactState, live_fact_cypher}

abbrev pub member : String → List String → Bool
member x [] = false
member x (y ∷ ys) = x == y || member x ys

abbrev pub expand_rels : List String
expand_rels =
    "IMPLEMENTS" ∷ "DOCUMENTS" ∷ "PARENT_OF" ∷ "REFERENCES" ∷ "MODIFIES" ∷ "APPLIES_TO" ∷ "DEFINES"
    ∷ []

abbrev pub hub_labels : List String
hub_labels = "Repository" ∷ "Project" ∷ "Workspace" ∷ "Person" ∷ "SourceRecord" ∷ []

abbrev pub max_seeds : ℕ
max_seeds = 8

abbrev pub per_seed : ℕ
per_seed = 4

abbrev pub query_safety_limit : ℕ
query_safety_limit = 5000

pub data Tier : Type 0 where
  unknown derived secondary primary : Tier

abbrev pub tier_rank : Tier → ℕ
tier_rank unknown = 0
tier_rank derived = 1
tier_rank secondary = 2
tier_rank primary = 3

abbrev pub primary_methods : List String
primary_methods = "deterministic" ∷ "exact_anchor" ∷ "changelog" ∷ []

unfoldable pub tier_for_extraction_method : Option String → Tier
tier_for_extraction_method none = unknown
tier_for_extraction_method (some m) =
    if member m primary_methods
    then primary
    else if m == "llm"
    then secondary
    else if m == "derived"
    then derived
    else unknown

pub record Source : Type 0 where
  pub deleted_at : Option ℕ
  pub access : SourceAccess

-- An edge at a node, seen from that node, with the node at its other end and the source records
-- that it is mentioned in.
pub record Hop : Type 0 where
  pub seed : String
  pub uid : String
  pub label : String
  pub name : Option String
  pub search_text : Option String
  pub rel : String
  pub state : FactState
  pub derived_edge : Option Bool
  pub extraction_method : Option String
  pub from_uid : String
  pub to_uid : String
  pub sources : List Source

pub record SearchHit : Type 0 where
  pub uid : String
  pub label : String
  pub name : String
  pub summary : String
  pub score : ℕ
  pub methods : List String

abbrev pub any {ℓ} : {A : Type ℓ} → (A → Bool) → List A → Bool
any p [] = false
any p (x ∷ xs) = p x || any p xs

-- list(dict.fromkeys(xs))
abbrev pub fromkeys : List String → List String → List String
fromkeys seen [] = []
fromkeys seen (x ∷ xs) =
    let rest = fromkeys seen xs in
    let more = fromkeys (x ∷ seen) xs in if member x seen then rest else x ∷ more

-- The filter on providers, which an empty list leaves out.
abbrev pub wanted : Option (List Chars) → Chars → Bool
wanted none p = true
wanted (some []) p = true
wanted (some (q ∷ qs)) p = elem p (q ∷ qs)

unfoldable pub readable : AccessScope → Option (List Chars) → Source → Bool
readable scope providers s = elim s.deleted_at [
  | none ↦ lets (cypher scope) s.access && wanted providers s.access.provider
  | some _ ↦ false
]

-- The WHERE clauses of the query, a row for each edge whose other end has a record to read.
unfoldable pub candidate :
    List String → List String → AccessScope → Option (List Chars) → Hop → Bool
candidate seeds excluded scope providers h =
    member h.seed seeds
    && (member h.rel expand_rels
        && (live_fact_cypher h.state
            && (not (member h.uid excluded)
                && (not (member h.label hub_labels) && any (readable scope providers) h.sources))))

-- A row of the query's result.
pub record Row : Type 0 where
  pub seed : String
  pub uid : String
  pub label : String
  pub name : Option String
  pub search_text : Option String
  pub rel : String
  pub is_derived : Bool
  pub extraction_method : Option String
  pub from_uid : String
  pub to_uid : String

abbrev pub row_of : Hop → Row
row_of h = record {
  seed = h.seed;
  uid = h.uid;
  label = h.label;
  name = h.name;
  search_text = h.search_text;
  rel = h.rel;
  is_derived = coalesce false h.derived_edge;
  extraction_method = h.extraction_method;
  from_uid = h.from_uid;
  to_uid = h.to_uid;
}

abbrev pub same_text : Option String → Option String → Bool
same_text none none = true
same_text none (some _) = false
same_text (some _) none = false
same_text (some x) (some y) = x == y

abbrev pub same_flag : Bool → Bool → Bool
same_flag true b = b
same_flag false b = not b

abbrev pub same_row : Row → Row → Bool
same_row r t =
    r.seed == t.seed
    && (r.uid == t.uid
        && (r.label == t.label
            && (same_text r.name t.name
                && (same_text r.search_text t.search_text
                    && (r.rel == t.rel
                        && (same_flag r.is_derived t.is_derived
                            && (same_text r.extraction_method t.extraction_method
                                && (r.from_uid == t.from_uid && r.to_uid == t.to_uid))))))))

-- RETURN DISTINCT, by first occurrence
abbrev pub distinct_rows : List Row → List Row → List Row
distinct_rows seen [] = []
distinct_rows seen (r ∷ rs) =
    let rest = distinct_rows seen rs in
    let more = distinct_rows (r ∷ seen) rs in if any (same_row r) seen then rest else r ∷ more

unfoldable pub query_rows :
    List String → List String → AccessScope → Option (List Chars) → List Hop → List Row
query_rows seeds excluded scope providers hops =
    take query_safety_limit
      (distinct_rows [] (map row_of (select (candidate seeds excluded scope providers) hops)))

abbrev pub Edge : Type 0
Edge = String × (String × String)

abbrev pub excluded_edge : List Edge → Row → Bool
excluded_edge edges r = any (λ e. e.0 == r.from_uid && (e.1.0 == r.rel && e.1.1 == r.to_uid)) edges

abbrev pub passes : List Edge → Tier → Row → Bool
passes edges floor r =
    not (excluded_edge edges r)
    && leb (tier_rank floor) (tier_rank (tier_for_extraction_method r.extraction_method))

-- by_seed, in seed_order
abbrev pub add_entry : Row → List (String × List Row) → List (String × List Row)
add_entry r [] = (r.seed, r ∷ []) ∷ []
add_entry r ((s, es) ∷ g) = if s == r.seed then (s, es ++ r ∷ []) ∷ g else (s, es) ∷ add_entry r g

abbrev pub by_seed : List (String × List Row) → List Row → List (String × List Row)
by_seed g [] = g
by_seed g (r ∷ rs) = by_seed (add_entry r g) rs

abbrev pub asserted_first : Row → Row → Bool
asserted_first r t = not r.is_derived && t.is_derived

abbrev pub has_uid : String → List Row → Bool
has_uid u [] = false
has_uid u (r ∷ rs) = u == r.uid || has_uid u rs

-- `if entry["uid"] in added_uids: continue`
abbrev pub add_new : List Row → List Row → List Row
add_new done [] = done
add_new done (e ∷ es) = add_new (if has_uid e.uid done then done else done ++ e ∷ []) es

abbrev pub add_groups : List Row → List (String × List Row) → List Row
add_groups done [] = done
add_groups done ((s, es) ∷ g) =
    add_groups (add_new done (take per_seed (order_by asserted_first es))) g

abbrev pub or_empty : Option String → String
or_empty none = ""
or_empty (some t) = t

abbrev pub plus : String → String → String
plus String.[] t = t
plus (String.◌∷◌ c s) t = String.◌∷◌ c (plus s t)

abbrev pub hit : Row → SearchHit
hit r = record {
  uid = r.uid;
  label = r.label;
  name = or_empty r.name;
  summary = or_empty r.search_text;
  score = 0;
  methods = plus "graph:" r.rel ∷ [];
}

abbrev pub ordered_rows : List Edge → Tier → List Row → List Row
ordered_rows edges floor rows =
    take (max_seeds * per_seed)
      (order_by asserted_first (add_groups [] (by_seed [] (select (passes edges floor) rows))))

unfoldable pub expand_neighbors :
    List String
    → AccessScope
    → Option (List Chars)
    → Tier
    → List Edge
    → Option (List Hop)
    → List SearchHit
expand_neighbors seed_uids scope providers floor edges none = []
expand_neighbors seed_uids scope providers floor edges (some hops) =
    let all = fromkeys [] seed_uids in
    let seeds = take max_seeds all in
    map hit (ordered_rows edges floor (query_rows seeds all scope providers hops))
