-- ===== src/Axioms.antt =====
-- graph/semantics/axioms.py: the relations that the ontology knows, as rows (AxiomSet).
pub mod Allowed
pub mod Temporal
mod Tests
use Prim.Native.String.{compare}
use text.Mathlib.Text.{is_lt}
use neuron_kg.Prelude.{
  String, Bool, true, false, ◌&&◌, Option, none, some, List, [], ◌∷◌, ◌++◌, is_some, if◌then◌else◌,
  ◌==◌,
}
use neuron_kg.Prelude.Table.{select, find}

pub record RelationAxiom : Type 0 where
  pub relation : String
  pub subject_kind : String
  pub object_kind : String
  pub extractable : Bool
  pub functional : Bool
  pub is_transitive : Bool
  pub is_symmetric : Bool
  pub is_asymmetric : Bool
  pub inverse_of : Option String
  pub sub_property_of : Option String
  pub temporal : String
  pub adopted_batch : Option String

-- An entry of the dict _allowed: the pair of kinds, and its relations.
pub record Entry : Type 0 where
  pub subject_kind : String
  pub object_kind : String
  pub relations : List String

pub record AxiomSet : Type 0 where
  pub axioms : List RelationAxiom
  pub allowed : List Entry

abbrev pub is_entry : String → String → Entry → Bool
is_entry subject object t = t.subject_kind == subject && t.object_kind == object

-- allowed.setdefault((subject_kind, object_kind), []).append(relation)
abbrev pub allow : RelationAxiom → List Entry → List Entry
allow a [] =
    record {
      subject_kind = a.subject_kind;
      object_kind = a.object_kind;
      relations = a.relation ∷ [];
    }
    ∷ []
allow a (t ∷ ts) =
    let rest = allow a ts in
    if is_entry a.subject_kind a.object_kind t
    then record t { relations = t.relations ++ a.relation ∷ [] } ∷ ts
    else t ∷ rest

unfoldable pub allow_all : List RelationAxiom → List Entry → List Entry
allow_all [] ts = ts
allow_all (a ∷ rest) ts = allow_all rest (if a.extractable then allow a ts else ts)

unfoldable pub build : List RelationAxiom → AxiomSet
unfolding allow_all
build axioms = record { axioms = axioms; allowed = allow_all axioms [] }

abbrev pub is_text : String → String → Bool
is_text s t = t == s

abbrev pub lists : String → Option Entry → Bool
lists relation none = false
lists relation (some t) = is_some (find (is_text relation) t.relations)

unfoldable pub is_allowed : String → String → String → AxiomSet → Bool
is_allowed subject relation object s = lists relation (find (is_entry subject object) s.allowed)

pub data Direction : Type 0 where
  as_is swapped : Direction

unfoldable pub resolve_direction : String → String → String → AxiomSet → Option Direction
resolve_direction subject relation object s =
    if is_allowed subject relation object s
    then some as_is
    else if is_allowed object relation subject s
    then some swapped
    else none

abbrev is_of : String → RelationAxiom → Bool
is_of relation a = a.relation == relation

unfoldable pub for_relation : String → AxiomSet → List RelationAxiom
for_relation relation s = select (is_of relation) s.axioms

abbrev pub is_shape : String → String → String → RelationAxiom → Bool
is_shape subject relation object a =
    a.relation == relation && a.subject_kind == subject && a.object_kind == object

abbrev batch_of : Option RelationAxiom → Option String
batch_of none = none
batch_of (some a) = a.adopted_batch

-- The batch of the first axiom of the triple.
unfoldable pub adopted_batch_for : String → String → String → AxiomSet → Option String
adopted_batch_for subject relation object s =
    batch_of (find (is_shape subject relation object) s.axioms)

-- The set of the texts, sorted.
abbrev pub put_text : String → List String → List String
put_text s [] = s ∷ []
put_text s (t ∷ ts) =
    let rest = put_text s ts in
    if s == t then t ∷ ts else if is_lt (compare s t) then s ∷ t ∷ ts else t ∷ rest

abbrev pub temporals : List RelationAxiom → List String
temporals [] = []
temporals (a ∷ rest) = put_text a.temporal (temporals rest)

abbrev pub only_or_state : List String → String
only_or_state (t ∷ []) = t
only_or_state _ = "state"

unfoldable pub temporal_of : String → AxiomSet → String
unfolding for_relation
temporal_of relation s = only_or_state (temporals (for_relation relation s))

abbrev relations_of : List RelationAxiom → List String
relations_of [] = []
relations_of (a ∷ rest) = put_text a.relation (relations_of rest)

unfoldable pub transitive_relations : AxiomSet → List String
transitive_relations s = relations_of (select (λ a. a.is_transitive) s.axioms)

pub symmetric_relations : AxiomSet → List String
symmetric_relations s = relations_of (select (λ a. a.is_symmetric) s.axioms)

pub functional_relations : AxiomSet → List String
functional_relations s = relations_of (select (λ a. a.functional) s.axioms)

abbrev is_pair_before : String × String → String × String → Bool
is_pair_before p q = if p.0 == q.0 then is_lt (compare p.1 q.1) else is_lt (compare p.0 q.0)

abbrev put_pair : String × String → List (String × String) → List (String × String)
put_pair p [] = p ∷ []
put_pair p (q ∷ qs) =
    let rest = put_pair p qs in
    if p.0 == q.0 && p.1 == q.1 then q ∷ qs else if is_pair_before p q then p ∷ q ∷ qs else q ∷ rest

abbrev put_inverse : String → Option String → List (String × String) → List (String × String)
put_inverse relation none pairs = pairs
put_inverse relation (some inverse) pairs =
    if inverse == "" then pairs else put_pair (relation, inverse) pairs

abbrev pairs_of : List RelationAxiom → List (String × String)
pairs_of [] = []
pairs_of (a ∷ rest) = put_inverse a.relation a.inverse_of (pairs_of rest)

unfoldable pub inverse_pairs : AxiomSet → List (String × String)
inverse_pairs s = pairs_of s.axioms
