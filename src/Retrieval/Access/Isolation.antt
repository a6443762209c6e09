-- ===== src/Retrieval/Access/Isolation.antt =====
-- graph/retrieval/access.py: what a scope lets through, for ids of connections without a colon.
use neuron_kg.Prelude.{
  ◌≡◌, refl, sym, Bool, true, false, ◌&&◌, ◌||◌, Option, none, some, List, [], ◌∷◌, ◌++◌, All, eqb,
  arith, Bool-cases, inl, inr,
}
use mathlib.Core.Path.{ap₂}
use neuron_kg.Chars.{Chars}
use neuron_kg.Retrieval.Windows.{same, elem, starts}
use neuron_kg.Retrieval.Access.{
  AccessScope, SourceAccess, Clause, of_connection, cypher, lets, meets, meets_any, colon,
  in_connections, keyed, shares, coalesce, public_clause, connection_clauses, principal_clause,
  one_of,
}

abbrev pub NoColon : Chars → Type 0
NoColon t = All (λ c. eqb c colon ≡ false) t

-- A connection of the record's provider that the caller has proven.
abbrev pub proves : List (Chars × List Chars) → Chars → Chars → Bool
proves [] p c = false
proves ((q, cs) ∷ rest) p c = (same p q && elem c cs) || proves rest p c

same-≡ : (t u : Chars) → same t u ≡ true → t ≡ u
same-≡ [] [] e = refl
same-≡ [] (u ∷ us) e = ground arith
same-≡ (t ∷ ts) [] e = ground arith
same-≡ (t ∷ ts) (u ∷ us) e =
    let c : t ≡ u = ground arith in
    let s : same ts us ≡ true = ground arith in ap₂ (λ x l. x ∷ l) c (same-≡ ts us s)

starts-append : (p t u : Chars) → starts (p ++ t) (p ++ u) ≡ starts t u
starts-append [] t u = refl
starts-append (c ∷ p) t u = let i : eqb c c ≡ true = ground arith in rw i (starts-append p t u)

-- An id, closed by a colon, begins what follows the provider just when it is the record's own.
starts-id :
    (c d rest : Chars)
    → NoColon c
    → NoColon d
    → starts (d ++ colon ∷ []) (c ++ colon ∷ rest) ≡ same c d
starts-id [] [] rest h k = refl
starts-id [] (x ∷ xs) rest h k = rw (k.0) refl
starts-id (y ∷ ys) [] rest h k = ground (arith, h.0)
starts-id (y ∷ ys) (x ∷ xs) rest h k =
    let flip : eqb x y ≡ eqb y x = ground arith in rw (flip, starts-id ys xs rest h.1 k.1) refl

keyed-elem :
    (p c rest : Chars) (cs : List Chars)
    → NoColon c
    → All NoColon cs
    → keyed (p ++ (colon ∷ (c ++ colon ∷ rest))) p cs ≡ elem c cs
keyed-elem p c rest [] h k = refl
keyed-elem p c rest (d ∷ ds) h k =
    rw
      (
        starts-append p (colon ∷ (d ++ colon ∷ [])) (colon ∷ (c ++ colon ∷ rest)),
        starts-id c d rest h k.0,
        keyed-elem p c rest ds h k.1,
      )
      refl

-- The connection of a record, where it is stored, is the one in its key.
abbrev pub Stored : Option Chars → Chars → Type 0
Stored none c = Unit
Stored (some d) c = d ≡ c

module _ (r : SourceAccess) where
  lets_any : (cs : List Clause) → lets (one_of cs) r ≡ meets_any r cs
  unfolding lets
  lets_any [] = refl
  lets_any (c ∷ cs) = refl

  meets_any-append :
      (cs ds : List Clause) → meets_any r (cs ++ ds) ≡ (meets_any r cs || meets_any r ds)
  meets_any-append [] ds = refl
  meets_any-append (c ∷ cs) ds =
      rw (meets_any-append cs ds) (assoc (meets r c) (meets_any r cs) (meets_any r ds))
    where
      assoc : (a b d : Bool) → (a || (b || d)) ≡ (a || b || d)
      assoc true b d = refl
      assoc false b d = refl

  public_met : (b : Bool) → meets_any r (public_clause b) ≡ (b && coalesce false r.is_public)
  public_met true = ground arith
  public_met false = refl

  principals_met :
      (ps : List Chars) → meets_any r (principal_clause ps) ≡ shares (coalesce [] r.principals) ps
  principals_met [] = sym (no_one (coalesce [] r.principals))
    where
      no_one : (qs : List Chars) → shares qs [] ≡ false
      no_one [] = refl
      no_one (q ∷ qs) = no_one qs
  principals_met (p ∷ ps) = ground arith

module _ (r : SourceAccess) (c rest : Chars)
    (key : r.record_key ≡ r.provider ++ (colon ∷ (c ++ colon ∷ rest)))
    (stored : Stored r.connection_id c) (plain : NoColon c) where
  owned :
      (cs : List Chars)
      → All NoColon cs
      → (in_connections r.connection_id cs || keyed r.record_key r.provider cs) ≡ elem c cs
  owned cs h = rw (key, keyed-elem r.provider c rest cs plain h) (joined r.connection_id stored)
    where
      joined : (o : Option Chars) → Stored o c → (in_connections o cs || elem c cs) ≡ elem c cs
      joined none q = refl
      joined (some d) q = rw q (idem (elem c cs))
        where
          idem : (b : Bool) → (b || b) ≡ b
          idem true = refl
          idem false = refl

  clause :
      (p : Chars) (cs : List Chars)
      → All NoColon cs
      → meets r (of_connection p cs) ≡ (same r.provider p && elem c cs)
  clause p cs h = elim (Bool-cases (same r.provider p)) [
    | inl e ↦ let q = same-≡ r.provider p e in rw (e, ← q) (owned cs h)
    | inr e ↦ rw e refl
  ]

  clauses :
      (vs : List (Chars × List Chars))
      → All (λ v. All NoColon v.1) vs
      → meets_any r (connection_clauses vs) ≡ proves vs r.provider c
  clauses [] h = refl
  clauses ((p, cs) ∷ vs) h = rw (clause p cs h.0, clauses vs h.1) refl

  -- For a caller that is not trusted and connections whose ids have no colon, a record is let
  -- through just when it is public and the scope takes public records, when its connection is one
  -- that the caller has proven for its provider, or when it shares a principal with the caller.
  -- A scope with none of these lets nothing through.
  pub scope_grants :
      (s : AccessScope)
      → s.unrestricted ≡ false
      → All (λ v. All NoColon v.1) s.connections
      → lets (cypher s) r ≡ (
          (s.allow_public && coalesce false r.is_public)
          || (proves s.connections r.provider c || shares (coalesce [] r.principals) s.principals))
  unfolding cypher lets
  scope_grants s scoped h =
      rw
        (
          scoped,
          lets_any r (
              public_clause s.allow_public
              ++ (connection_clauses s.connections ++ principal_clause s.principals)),
          meets_any-append r (public_clause s.allow_public)
              (connection_clauses s.connections ++ principal_clause s.principals),
          meets_any-append r (connection_clauses s.connections) (principal_clause s.principals),
          clauses s.connections h,
          public_met r s.allow_public,
          principals_met r s.principals,
        )
        refl
