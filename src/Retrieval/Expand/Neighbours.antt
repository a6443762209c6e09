-- ===== src/Retrieval/Expand/Neighbours.antt =====
-- graph/retrieval/expand.py: the bounds of expand_neighbors and the reason of each neighbour.
use neuron_kg.Prelude.{
  ◌≤◌, ◌*◌, String, ◌≡◌, refl, sym, subst, ◌∙◌, ◌==◌, eq_iff, Bool, true, false, ◌&&◌, ◌||◌, not,
  Option, some, List, [], ◌∷◌, map, length, take, length-take-le, All, All-map, All-take,
  All-Member, Member, leb→le, arith, Bool-cases, inl, inr,
}
use neuron_kg.Prelude.Table.{select, order_by, All-select}
use neuron_kg.Prelude.Rows.{All-to-map}
use neuron_kg.Chars.{Chars}
use mathlib.Core.Bool.{true≢false}
use neuron_kg.Retrieval.Access.{AccessScope}
use neuron_kg.TimeAxis.{live_fact_cypher}
use neuron_kg.Retrieval.Expand.{
  Hop, Row, Tier, Edge, member, fromkeys, any, candidate, row_of, query_rows, passes, excluded_edge,
  tier_rank, tier_for_extraction_method, by_seed, asserted_first, add_groups, hit, ordered_rows,
  expand_neighbors, hub_labels, expand_rels, readable, max_seeds, per_seed, query_safety_limit,
}
use neuron_kg.Retrieval.Expand.Bounded.{
  All-distinct_rows, All-ordered_rows, UniqueUid, UniqueUid-ordered, UniqueUid-add_groups,
  UniqueUid-take, AssertedFirst, AssertedFirst-ordered, AssertedFirst-take,
}

-- The edge that a neighbour comes from: of a relation that is walked, live, to a node that is no
-- seed and no hub, with a source record that the caller may read, and of the tier asked for.
pub record Reason (seed_uids : List String) (scope : AccessScope) (providers : Option (List Chars))
    (floor : Tier) (edges : List Edge) (hops : List Hop) (r : Row) : Type 0 where
  pub hop : Hop
  pub of_graph : Member hop hops
  pub row : r ≡ row_of hop
  pub walked : member hop.rel expand_rels ≡ true
  pub live : live_fact_cypher hop.state ≡ true
  pub no_seed : member hop.uid seed_uids ≡ false
  pub no_hub : member hop.label hub_labels ≡ false
  pub may_read : any (readable scope providers) hop.sources ≡ true
  pub trusted : tier_rank floor ≤ tier_rank (tier_for_extraction_method hop.extraction_method)
  pub kept : excluded_edge edges r ≡ false

neither : (a b : Bool) → (a || b) ≡ false → (a ≡ false) × (b ≡ false)
neither false b e = (refl, e)
neither true b e = absurd (true≢false e)

both : (a b : Bool) → (a && b) ≡ true → (a ≡ true) × (b ≡ true)
both true b e = (refl, e)
both false b e = absurd (true≢false (sym e))

no : (a : Bool) → not a ≡ true → a ≡ false
no false e = refl
no true e = absurd (true≢false (sym e))

no_key :
    (x : String) (seen xs : List String)
    → member x (fromkeys seen xs) ≡ false
    → member x seen ≡ false
    → member x xs ≡ false
no_key x seen [] e h = refl
no_key x seen (y ∷ ys) e h = elim (Bool-cases (member y seen)) [
  | inl q ↦
      let rest = no_key x seen ys (rw q at e) h in
      elim (Bool-cases (x == y)) [
        | inl t ↦
            let same : x ≡ y = ground (arith, eq_iff x y, t) in
            absurd (true≢false (sym (subst (λ z. member z seen ≡ true) (sym same) q) ∙ h))
        | inr t ↦ rw (t, rest) refl
      ]
  | inr q ↦
      let (apart, more) = neither (x == y) (member x (fromkeys (y ∷ seen) ys)) (rw q at e) in
      rw (apart, no_key x (y ∷ seen) ys more (rw (apart, h) refl)) refl
]

module _ (seed_uids : List String) (scope : AccessScope) (providers : Option (List Chars))
    (floor : Tier) (edges : List Edge) (hops : List Hop) where
  abbrev Asked : Row → Type 0
  Asked r =
      (h : Hop) × Member h hops
      × (r ≡ row_of h)
      × (candidate (take max_seeds (fromkeys [] seed_uids)) (fromkeys [] seed_uids) scope providers
            h
          ≡ true)

  asked : All Asked (
      query_rows
        (take max_seeds (fromkeys [] seed_uids))
        (fromkeys [] seed_uids)
        scope
        providers
        hops)
  unfolding query_rows
  asked =
      let all = fromkeys [] seed_uids in
      let c = candidate (take max_seeds all) all scope providers in
      All-take Asked query_safety_limit _ (
        All-distinct_rows Asked [] _ (
          All-to-map Asked row_of _ (
            All-map (λ h q. (h, q.1, refl, q.0)) _
              (All-select (λ h. Member h hops) c hops (All-Member hops)))))

  reason :
      (r : Row)
      → Asked r
      → passes edges floor r ≡ true
      → Reason seed_uids scope providers floor edges hops r
  unfolding candidate
  reason r (h, m, q, c) p =
      let all = fromkeys [] seed_uids in
      let (seeded, c1) = both _ _ c in
      let (walks, c2) = both _ _ c1 in
      let (lives, c3) = both _ _ c2 in
      let (new, c4) = both _ _ c3 in
      let (plain, reads) = both _ _ c4 in
      let (stays, tier) = both (not (excluded_edge edges r)) _ p in
      record {
        hop = h;
        of_graph = m;
        row = q;
        walked = walks;
        live = lives;
        no_seed = no_key h.uid [] seed_uids (no _ new) refl;
        no_hub = no _ plain;
        may_read = reads;
        trusted =
            subst
              (λ x. tier_rank floor ≤ tier_rank (tier_for_extraction_method x.extraction_method)) q
              (leb→le _ _ tier);
        kept = no _ stays;
      }

  -- The search adds at most 32 neighbours, one for a node, the asserted before the derived, and
  -- each comes from an edge of the graph that is live and of a relation that is walked, whose
  -- other end is neither a seed, of all that were given, nor a hub, and is mentioned in a source
  -- record that is not deleted and that the caller may read; the edge is of the tier asked for at
  -- least and is not one of those excluded.
  pub expand_neighbors_bounded :
      (rows : List Row) × (expand_neighbors seed_uids scope providers floor edges (some hops)
        ≡ map hit rows)
      × (length rows ≤ 32)
      × UniqueUid rows
      × AssertedFirst rows
      × All (Reason seed_uids scope providers floor edges hops) rows
  unfolding expand_neighbors
  expand_neighbors_bounded =
      let all = fromkeys [] seed_uids in
      let found = query_rows (take max_seeds all) all scope providers hops in
      let kept = by_seed [] (select (passes edges floor) found) in
      (
        ordered_rows edges floor found,
        refl,
        length-take-le (max_seeds * per_seed) (order_by asserted_first (add_groups [] kept)),
        UniqueUid-take (max_seeds * per_seed) _
            (UniqueUid-ordered _ (UniqueUid-add_groups [] kept tt)),
        AssertedFirst-take (max_seeds * per_seed) _ (AssertedFirst-ordered (add_groups [] kept)),
        All-ordered_rows (Reason seed_uids scope providers floor edges hops) edges floor found (
            All-map (λ r h. reason r h.1 h.0) _
              (All-select Asked (passes edges floor) found asked)),
      )
