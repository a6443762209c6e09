-- ===== src/Inference.antt =====
-- graph/semantics/inference.py: edges derived from asserted ones by the axioms of their relation.
-- Confidences are in thousandths, and the stored ISO texts are times in microseconds, which
-- compare as the texts do. The graph that read_asserted reads and _write fills is not modelled.
pub mod Validity
pub mod Sound
pub mod Complete
pub mod Rules
mod Tests
use Prim.Native.String.{compare}
use text.Mathlib.Text.{is_lt}
use neuron_kg.Prelude.{
  ℕ, zero, suc, ◌-◌, min, max, String, Bool, true, false, not, ◌&&◌, ◌||◌, Option, none, some, List,
  [], ◌∷◌, ◌++◌, map, length, leb, eqb, is_some, if◌then◌else◌, ◌==◌,
}
use neuron_kg.Prelude.Table.{select, find}

pub record Edge : Type 0 where
  pub from_uid : String
  pub to_uid : String
  pub from_label : String
  pub to_label : String
  pub fact_uid : Option String
  pub valid_at : Option ℕ
  pub invalid_at : Option ℕ
  pub confidence : ℕ
  pub source_record_keys : List String

pub record Derivation : Type 0 where
  pub relation : String
  pub rule : String
  pub from_uid : String
  pub to_uid : String
  pub from_label : String
  pub to_label : String
  pub premises : List String
  pub valid_at : Option ℕ
  pub invalid_at : Option ℕ
  pub confidence : ℕ
  pub source_record_keys : List String

-- max and min over the times that are there
abbrev pub later : Option ℕ → Option ℕ → Option ℕ
later none b = b
later (some a) none = some a
later (some a) (some b) = some (max a b)

abbrev pub sooner : Option ℕ → Option ℕ → Option ℕ
sooner none b = b
sooner (some a) none = some a
sooner (some a) (some b) = some (min a b)

pub latest_start : List Edge → Option ℕ
latest_start [] = none
latest_start (e ∷ es) = later e.valid_at (latest_start es)

pub earliest_end : List Edge → Option ℕ
earliest_end [] = none
earliest_end (e ∷ es) = sooner e.invalid_at (earliest_end es)

-- valid_at and invalid_at and valid_at >= invalid_at
abbrev pub is_empty : Option ℕ → Option ℕ → Bool
is_empty (some v) (some i) = leb i v
is_empty _ _ = false

pub intersect_validity : List Edge → Option (Option ℕ × Option ℕ)
intersect_validity premises =
    if is_empty (latest_start premises) (earliest_end premises)
    then none
    else some (latest_start premises, earliest_end premises)

-- min(…, default=1.0)
pub min_confidence : List Edge → ℕ
min_confidence [] = 1000
min_confidence (e ∷ []) = e.confidence
min_confidence (e ∷ f ∷ es) = min e.confidence (min_confidence (f ∷ es))

-- e.fact_uid for e in premises if e.fact_uid
abbrev fact_uids : List Edge → List String
fact_uids [] = []
fact_uids (e ∷ es) = elim e.fact_uid [
  | none ↦ fact_uids es
  | some u ↦ if u == "" then fact_uids es else u ∷ fact_uids es
]

-- sorted({key … if key})
abbrev put_key : String → List String → List String
put_key k [] = k ∷ []
put_key k (j ∷ js) =
    let rest = put_key k js in
    if k == j then j ∷ js else if is_lt (compare k j) then k ∷ j ∷ js else j ∷ rest

abbrev add_keys : List String → List String → List String
add_keys [] acc = acc
add_keys (k ∷ ks) acc = let rest = add_keys ks acc in if k == "" then rest else put_key k rest

abbrev source_keys : List Edge → List String
source_keys [] = []
source_keys (e ∷ es) = add_keys e.source_record_keys (source_keys es)

pub conclude : String → String → String → String → String → String → List Edge → Option Derivation
conclude relation rule from to from_label to_label premises = elim (intersect_validity premises) [
  | none ↦ none
  | some (valid_at, invalid_at) ↦ some record {
    relation = relation;
    rule = rule;
    from_uid = from;
    to_uid = to;
    from_label = from_label;
    to_label = to_label;
    premises = fact_uids premises;
    valid_at = valid_at;
    invalid_at = invalid_at;
    confidence = min_confidence premises;
    source_record_keys = source_keys premises;
  }
]

-- (from, to) in asserted
abbrev pub joins : String → String → Edge → Bool
joins from to e = e.from_uid == from && e.to_uid == to

abbrev pub is_asserted : List Edge → String → String → Bool
is_asserted edges from to = is_some (find (joins from to) edges)

-- pair in derived
abbrev pub concludes : String → String → Derivation → Bool
concludes from to d = d.from_uid == from && d.to_uid == to

abbrev pub is_derived : List Derivation → String → String → Bool
is_derived ds from to = is_some (find (concludes from to) ds)

-- by_source.get(uid, [])
abbrev pub leaves : String → Edge → Bool
leaves uid e = e.from_uid == uid

abbrev pub by_source : List Edge → String → List Edge
by_source edges uid = select (leaves uid) edges

-- An entry of the frontier: its first and last edge and the whole chain.
pub record Trail : Type 0 where
  pub first : Edge
  pub last : Edge
  pub chain : List Edge

abbrev pub start_trail : Edge → Edge → Trail
start_trail e f = record { first = e; last = f; chain = e ∷ f ∷ [] }

abbrev pub extend : Trail → Edge → Trail
extend p e = record { first = p.first; last = e; chain = p.chain ++ e ∷ [] }

pub starts_of : List Edge → List Edge → List Trail
starts_of edges [] = []
starts_of edges (e ∷ es) = map (start_trail e) (by_source edges e.to_uid) ++ starts_of edges es

-- The state of the inner loop: the derivations and the next frontier, or the return at the cap.
pub data Sweep : Type 0 where
  going : List Derivation → List Trail → Sweep
  full : List Derivation → Sweep

-- The derivations with the conclusion of the path, where it is a new one.
pub add_conclusion : String → List Edge → Trail → List Derivation → Option (List Derivation)
add_conclusion relation edges p ds =
    if is_asserted edges p.first.from_uid p.last.to_uid
      || is_derived ds p.first.from_uid p.last.to_uid
    then none
    else elim (conclude relation "axiom_transitive" p.first.from_uid p.last.to_uid
        p.first.from_label p.last.to_label p.chain) [ none ↦ none | some d ↦ some (ds ++ d ∷ []) ]

-- One turn of the inner loop.
pub visit : String → List Edge → ℕ → Trail → Sweep → Sweep
visit relation edges cap p (full ds) = full ds
visit relation edges cap p (going ds next) =
    if p.first.from_uid == p.last.to_uid
    then going ds next
    else elim (add_conclusion relation edges p ds) [
      | none ↦ going ds (next ++ map (extend p) (by_source edges p.last.to_uid))
      | some more ↦
          if leb cap (length more)
          then full more
          else going more (next ++ map (extend p) (by_source edges p.last.to_uid))
    ]

pub sweep : String → List Edge → ℕ → List Trail → Sweep → Sweep
unfolding visit
sweep relation edges cap [] s = s
sweep relation edges cap (p ∷ ps) s = sweep relation edges cap ps (visit relation edges cap p s)

-- The outer loop. Its fuel is the number of turns that the depth allows.
pub levels : String → List Edge → ℕ → ℕ → List Trail → List Derivation → List Derivation × Bool
unfolding sweep
levels relation edges cap n [] ds = (ds, false)
levels relation edges cap zero (p ∷ ps) ds = (ds, true)
levels relation edges cap (suc n) (p ∷ ps) ds =
    elim (sweep relation edges cap (p ∷ ps) (going ds [])) [
      | full more ↦ (more, true)
      | going more next ↦ levels relation edges cap n next more
    ]

-- The derivations in the order of their discovery, and whether a limit was met. The depth counts
-- from 2 to max_depth, so it allows max_depth - 1 turns.
pub transitive_closure : String → List Edge → ℕ → ℕ → List Derivation × Bool
unfolding starts_of levels
transitive_closure relation edges max_depth cap =
    levels relation edges cap (max_depth - 1) (starts_of edges edges) []

abbrev add_some : Option Derivation → List Derivation → List Derivation
add_some none ds = ds
add_some (some d) ds = d ∷ ds

pub symmetric_from : String → List Edge → List Edge → List Derivation
symmetric_from relation edges [] = []
symmetric_from relation edges (e ∷ es) =
    let rest = symmetric_from relation edges es in
    if is_asserted edges e.to_uid e.from_uid || e.from_uid == e.to_uid
    then rest
    else add_some
        (conclude relation "axiom_symmetric" e.to_uid e.from_uid e.to_label e.from_label (e ∷ []))
        rest

pub symmetric_closure : String → List Edge → List Derivation
symmetric_closure relation edges = symmetric_from relation edges edges

pub inverse_edges : String → List Edge → List Derivation
inverse_edges inverse [] = []
inverse_edges inverse (e ∷ es) =
    add_some (conclude inverse "axiom_inverse" e.to_uid e.from_uid e.to_label e.from_label (e ∷ []))
      (inverse_edges inverse es)

pub sub_property_edges : String → List Edge → List Derivation
sub_property_edges parent [] = []
sub_property_edges parent (e ∷ es) =
    add_some
      (conclude parent "axiom_sub_property" e.from_uid e.to_uid e.from_label e.to_label (e ∷ []))
      (sub_property_edges parent es)
