-- ===== src/Retrieval/Access.antt =====
-- graph/retrieval/access.py: AccessScope and what its Cypher predicate lets through. A predicate is
-- its clauses; str.lower and the order of texts are arguments. Ids and keys are code points.
pub mod Isolation
use neuron_kg.Prelude.{
  ℕ, Bool, true, false, ◌&&◌, ◌||◌, not, Option, none, some, List, [], ◌∷◌, ◌++◌, map,
  if◌then◌else◌,
}
use neuron_kg.Prelude.Table.{order_by}
use neuron_kg.Chars.{Chars, is_empty}
use neuron_kg.Retrieval.Windows.{same, elem, set, starts}

pub record AccessScope : Type 0 where
  pub connections : List (Chars × List Chars)
  pub principals : List Chars
  pub allow_public : Bool
  pub unrestricted : Bool

-- What the predicate reads of a SourceRecord node.
pub record SourceAccess : Type 0 where
  pub is_public : Option Bool
  pub provider : Chars
  pub connection_id : Option Chars
  pub record_key : Chars
  pub principals : Option (List Chars)

module _ (lower : Chars → Chars) (before : Chars → Chars → Bool) where
  -- tuple(sorted(set(values)))
  abbrev pub sorted_set : List Chars → List Chars
  sorted_set xs = order_by before (set xs)

  abbrev pub proven : List (Chars × List Chars) → List (Chars × List Chars)
  proven [] = []
  proven ((p, []) ∷ vs) = proven vs
  proven ((p, c ∷ cs) ∷ vs) = (lower p, sorted_set (c ∷ cs)) ∷ proven vs

  -- The items of a mapping are sorted by provider, and a provider is in it once.
  unfoldable pub from_connections : List (Chars × List Chars) → List Chars → Bool → AccessScope
  from_connections values principals allow_public = record {
    connections = proven (order_by (λ v w. before v.0 w.0) values);
    principals = sorted_set principals;
    allow_public = allow_public;
    unrestricted = false;
  }

abbrev pub trusted_internal : AccessScope
trusted_internal = record {
  connections = [];
  principals = [];
  allow_public = true;
  unrestricted = true;
}

pub data Clause : Type 0 where
  public_record : Clause
  of_connection : Chars → List Chars → Clause
  of_principal : List Chars → Clause

pub data Predicate : Type 0 where
  always never : Predicate
  any_of : List Clause → Predicate

abbrev pub public_clause : Bool → List Clause
public_clause true = public_record ∷ []
public_clause false = []

abbrev pub connection_clauses : List (Chars × List Chars) → List Clause
connection_clauses [] = []
connection_clauses ((p, cs) ∷ rest) = of_connection p cs ∷ connection_clauses rest

abbrev pub principal_clause : List Chars → List Clause
principal_clause [] = []
principal_clause (p ∷ ps) = of_principal (p ∷ ps) ∷ []

abbrev pub one_of : List Clause → Predicate
one_of [] = never
one_of (c ∷ cs) = any_of (c ∷ cs)

unfoldable pub cypher : AccessScope → Predicate
cypher s =
    if s.unrestricted
    then always
    else one_of (
        public_clause s.allow_public
        ++ (connection_clauses s.connections ++ principal_clause s.principals))

abbrev pub colon : ℕ
colon = b':'

-- connection_id IN …: NULL is no member
abbrev pub in_connections : Option Chars → List Chars → Bool
in_connections none cs = false
in_connections (some c) cs = elem c cs

-- any(connection IN … WHERE record_key STARTS WITH provider + ':' + connection + ':')
abbrev pub keyed : Chars → Chars → List Chars → Bool
keyed key p [] = false
keyed key p (c ∷ cs) = starts (p ++ (colon ∷ (c ++ colon ∷ []))) key || keyed key p cs

abbrev pub shares : List Chars → List Chars → Bool
shares [] ps = false
shares (q ∷ qs) ps = elem q ps || shares qs ps

-- coalesce(x, …)
abbrev pub coalesce {ℓ} : {A : Type ℓ} → A → Option A → A
coalesce d none = d
coalesce d (some x) = x

abbrev pub meets : SourceAccess → Clause → Bool
meets r public_record = coalesce false r.is_public
meets r (of_connection p cs) =
    same r.provider p && (in_connections r.connection_id cs || keyed r.record_key p cs)
meets r (of_principal ps) = shares (coalesce [] r.principals) ps

abbrev pub meets_any : SourceAccess → List Clause → Bool
meets_any r [] = false
meets_any r (c ∷ cs) = meets r c || meets_any r cs

unfoldable pub lets : Predicate → SourceAccess → Bool
lets always r = true
lets never r = false
lets (any_of cs) r = meets_any r cs
