-- ===== src/Duplicates/Absorbed.antt =====
-- graph/resolution/duplicate_collector.py: what a merge leaves at the node that is absorbed.
use neuron_kg.Prelude.{
  ℕ, String, ◌==◌, eq_iff, eq_refl, ◌≡◌, refl, sym, subst, ◌∙◌, Bool, true, false, ◌&&◌, ◌||◌, not,
  some, List, [], ◌∷◌, ◌++◌, All, All-map, All-zip, All-append, All-Member, Member, here, there,
  map, arith, Bool-cases, Option-cases, inl, inr,
}
use neuron_kg.Prelude.Table.{find, select, update, All-update_of}
use neuron_kg.Prelude.Rows.{Member-select}
use neuron_kg.Facts.{
  Graph, FactEdge, FactRow, is_edge, merge_edge, matched_edge, created_edge, upsert_row,
  upsert_fact_edges, has_node,
}
use neuron_kg.TimeAxis.{live_fact_cypher}
use neuron_kg.Duplicates.Merge.{
  is_fact, leaves, enters, outgoing, incoming, move_out, move_in, row_of, invalidate_pair,
  absorb_fact_edges, label_of,
}

-- An edge that is closed is no live fact.
closed_no_fact : (e : FactEdge) (t : ℕ) → is_fact (record e { invalid_at = some t }) ≡ false
unfolding live_fact_cypher
closed_no_fact e t = ground arith

ends :
    (from rel to : String) (e : FactEdge)
    → is_edge from rel to e ≡ true
    → (e.from_uid ≡ from) × (e.to_uid ≡ to)
ends from rel to e h = (ground (arith, eq_iff e.from_uid from), ground (arith, eq_iff e.to_uid to))

module _ {κ} (P : FactEdge → Type κ) (row : FactRow) (now : ℕ)
    (there_too : (e : FactEdge) → e.from_uid ≡ row.from_uid → e.to_uid ≡ row.to_uid → P e) where
  -- An upsert writes edges between the ends of its row and no others.
  All-merge_edge :
      (rel : String) (es : List FactEdge) → All P es → All P (merge_edge rel true now row es)
  unfolding merge_edge
  All-merge_edge rel es h = elim (Option-cases (find (is_edge row.from_uid rel row.to_uid) es)) [
    | inl q ↦
        let made : merge_edge rel true now row es ≡ es ++ created_edge rel now row ∷ [] =
          rw (merge_edge, q) refl in
        subst (λ l. All P l) (sym made)
          (All-append P es (created_edge rel now row ∷ []) h (there_too _ refl refl, tt))
    | inr (e, q) ↦
        let p = is_edge row.from_uid rel row.to_uid in
        let met : merge_edge rel true now row es ≡ update p (matched_edge true now row) es =
          rw (merge_edge, q) refl in
        subst (λ l. All P l) (sym met)
          (All-update_of P p (matched_edge true now row) es
            (λ r m _. let (a, b) = ends row.from_uid rel row.to_uid r m in there_too _ a b)
            (λ r _ h. h) h)
  ]

  All-upsert :
      (rel from_label to_label : String) (g : Graph)
      → All P g.edges
      → All P (upsert_fact_edges rel from_label to_label (row ∷ []) true now g).edges
  unfolding upsert_fact_edges upsert_row
  All-upsert rel from_label to_label g h =
      elim (Bool-cases (has_node from_label row.from_uid g && has_node to_label row.to_uid g)) [
        | inl q ↦ rw q (All-merge_edge rel g.edges h)
        | inr q ↦ rw q h
      ]

module _ {κ μ} (P : FactEdge → Type κ) (Q : FactEdge → Type μ) (now : ℕ) where
  All-invalidate :
      (from rel to : String) (g : Graph)
      → ((e : FactEdge) → P e → Q (record e { invalid_at = some now }))
      → ((e : FactEdge) → is_edge from rel to e ≡ false → P e → Q e)
      → All P g.edges
      → All Q (invalidate_pair from rel to now g).edges
  unfolding invalidate_pair
  All-invalidate from rel to g hit miss h =
      All-update_of Q (is_edge from rel to) _ g.edges (λ e _ p. hit e p) miss h

-- An upsert leaves the nodes.
upsert-nodes :
    (rel from_label to_label : String) (row : FactRow) (now : ℕ) (g : Graph)
    → (upsert_fact_edges rel from_label to_label (row ∷ []) true now g).nodes ≡ g.nodes
unfolding upsert_fact_edges upsert_row
upsert-nodes rel from_label to_label row now g =
    elim (Bool-cases (has_node from_label row.from_uid g && has_node to_label row.to_uid g)) [
      | inl q ↦ rw q refl
      | inr q ↦ rw q refl
    ]

module _ (fact_uid : String → String → String → String) (now : ℕ) (label survivor : String) where
  move_out-nodes :
      (xs : List (FactEdge × String)) (g : Graph)
      → (move_out fact_uid now label survivor xs g).nodes ≡ g.nodes
  unfolding invalidate_pair
  move_out-nodes [] g = refl
  move_out-nodes ((e, o) ∷ xs) g =
      let row = row_of fact_uid now e survivor e.to_uid in
      let after = upsert_fact_edges e.rel_type label o (row ∷ []) true now g in
      move_out-nodes xs (invalidate_pair e.from_uid e.rel_type e.to_uid now after)
      ∙ upsert-nodes e.rel_type label o row now g

  move_in-nodes :
      (xs : List (FactEdge × String)) (g : Graph)
      → (move_in fact_uid now label survivor xs g).nodes ≡ g.nodes
  unfolding invalidate_pair
  move_in-nodes [] g = refl
  move_in-nodes ((e, o) ∷ xs) g =
      let row = row_of fact_uid now e e.from_uid survivor in
      let after = upsert_fact_edges e.rel_type o label (row ∷ []) true now g in
      move_in-nodes xs (invalidate_pair e.from_uid e.rel_type e.to_uid now after)
      ∙ upsert-nodes e.rel_type o label row now g

  pub absorb_fact_edges-nodes :
      (absorbed : String) (g : Graph)
      → (absorb_fact_edges fact_uid now label survivor absorbed g).nodes ≡ g.nodes
  unfolding absorb_fact_edges
  absorb_fact_edges-nodes absorbed g =
      let moved =
        move_out fact_uid now label survivor (outgoing fact_uid now survivor absorbed g) g in
      move_in-nodes (incoming fact_uid now survivor absorbed moved) moved
      ∙ move_out-nodes (outgoing fact_uid now survivor absorbed g) g

-- The edge of one of the pairs.
abbrev covered : List (FactEdge × String) → FactEdge → Bool
covered [] e = false
covered ((x, _) ∷ xs) e = is_edge x.from_uid x.rel_type x.to_uid e || covered xs e

abbrev Left : (FactEdge → Bool) → List (FactEdge × String) → FactEdge → Type 0
Left bad xs e = (bad e && not (covered xs e)) ≡ false

self : (e : FactEdge) → is_edge e.from_uid e.rel_type e.to_uid e ≡ true
self e = rw (eq_refl e.from_uid, eq_refl e.rel_type, eq_refl e.to_uid) refl

module _ (label : FactEdge → String) where
  covered-Member :
      (e : FactEdge) (xs : List FactEdge)
      → Member e xs
      → covered (map (λ x. (x, label x)) xs) e ≡ true
  covered-Member e [] m = elim m [ ]
  covered-Member e (x ∷ xs) (here q) = rw (← q, self e) refl
  covered-Member e (x ∷ xs) (there m) = ground (arith, covered-Member e xs m)

  -- What the query finds is all that there is.
  found_all :
      (bad : FactEdge → Bool) (es : List FactEdge)
      → All (Left bad (map (λ x. (x, label x)) (select bad es))) es
  found_all bad es = All-map left es (All-Member es)
    where
      left : (e : FactEdge) → Member e es → Left bad (map (λ x. (x, label x)) (select bad es)) e
      left e m = elim (Bool-cases (bad e)) [
        | inl q ↦ rw (q, covered-Member e (select bad es) (Member-select bad es q m)) refl
        | inr q ↦ rw q refl
      ]

not_bad :
    (bad : FactEdge → Bool) (es : List FactEdge)
    → All (Left bad []) es
    → All (λ e. bad e ≡ false) es
not_bad bad es h = All-map (λ e q. ground arith) es h

uncover :
    (bad : FactEdge → Bool) (x : FactEdge) (o : String) (xs : List (FactEdge × String))
    (e : FactEdge)
    → is_edge x.from_uid x.rel_type x.to_uid e ≡ false
    → Left bad ((x, o) ∷ xs) e
    → Left bad xs e
uncover bad x o xs e q h = rw q at h

spared :
    (bad : FactEdge → Bool) (xs : List (FactEdge × String)) (e : FactEdge)
    → bad e ≡ false
    → Left bad xs e
spared bad xs e h = rw h refl

module _ (fact_uid : String → String → String → String) (now : ℕ) (label survivor absorbed : String)
    (apart : (survivor == absorbed) ≡ false) where
  abbrev out : FactEdge → Bool
  out = leaves fact_uid now survivor absorbed

  abbrev into : FactEdge → Bool
  into = enters fact_uid now survivor absorbed

  from_survivor : (e : FactEdge) → e.from_uid ≡ survivor → out e ≡ false
  from_survivor e q = rw (q, apart) refl

  to_survivor : (e : FactEdge) → e.to_uid ≡ survivor → (out e ≡ false) × (into e ≡ false)
  to_survivor e q = (rw (q, eq_refl survivor) (last (survivor == absorbed) e), rw (q, apart) refl)
    where
      last : (b : Bool) (e : FactEdge) → (e.from_uid == absorbed && (is_fact e && not true)) ≡ false
      last b e = ground arith

  closed_out : (e : FactEdge) → out (record e { invalid_at = some now }) ≡ false
  closed_out e = rw (closed_no_fact e now) (ground arith)

  closed_into : (e : FactEdge) → into (record e { invalid_at = some now }) ≡ false
  closed_into e = rw (closed_no_fact e now) (ground arith)

  all_out :
      (xs : List (FactEdge × String)) (g : Graph)
      → All (Left out xs) g.edges
      → All (λ e. out e ≡ false) (move_out fact_uid now label survivor xs g).edges
  all_out [] g h = not_bad out g.edges h
  all_out ((x, o) ∷ xs) g h =
      let row = row_of fact_uid now x survivor x.to_uid in
      let after = upsert_fact_edges x.rel_type label o (row ∷ []) true now g in
      all_out xs (invalidate_pair x.from_uid x.rel_type x.to_uid now after) (
        All-invalidate (Left out ((x, o) ∷ xs)) (Left out xs) now x.from_uid x.rel_type x.to_uid
          after (λ e _. spared out xs _ (closed_out e)) (λ e q k. uncover out x o xs e q k)
          (All-upsert (Left out ((x, o) ∷ xs)) row now
            (λ e a _. spared out ((x, o) ∷ xs) e (from_survivor e a)) x.rel_type label o g h))

  -- The second loop makes no edge that leaves the node.
  all_in :
      (xs : List (FactEdge × String)) (g : Graph)
      → All (λ e. (out e ≡ false) × Left into xs e) g.edges
      → All
          (λ e. (out e ≡ false) × (into e ≡ false))
          (move_in fact_uid now label survivor xs g).edges
  all_in [] g h = All-map (λ e k. (k.0, ground arith)) g.edges h
  all_in ((x, o) ∷ xs) g h =
      let row = row_of fact_uid now x x.from_uid survivor in
      let after = upsert_fact_edges x.rel_type o label (row ∷ []) true now g in
      all_in xs (invalidate_pair x.from_uid x.rel_type x.to_uid now after) (
        All-invalidate (λ e. (out e ≡ false) × Left into ((x, o) ∷ xs) e)
          (λ e. (out e ≡ false) × Left into xs e) now x.from_uid x.rel_type x.to_uid after
          (λ e _. (closed_out e, spared into xs _ (closed_into e)))
          (λ e q k. (k.0, uncover into x o xs e q k.1))
          (All-upsert (λ e. (out e ≡ false) × Left into ((x, o) ∷ xs) e) row now
            (λ e _ b. let (p, q) = to_survivor e b in (p, spared into ((x, o) ∷ xs) e q)) x.rel_type
            o label g h))

  -- After a merge of two nodes no live fact but one with the survivor touches the absorbed node.
  pub absorbed_untouched :
      (g : Graph)
      → All
          (λ e. (out e ≡ false) × (into e ≡ false))
          (absorb_fact_edges fact_uid now label survivor absorbed g).edges
  unfolding absorb_fact_edges
  absorbed_untouched g =
      let moved =
        move_out fact_uid now label survivor (outgoing fact_uid now survivor absorbed g) g in
      all_in (incoming fact_uid now survivor absorbed moved) moved (
        All-zip (λ e. out e ≡ false) (Left into (incoming fact_uid now survivor absorbed moved))
          moved.edges
          (all_out (outgoing fact_uid now survivor absorbed g) g
            (found_all (λ e. label_of g e.to_uid) out g.edges))
          (found_all (λ e. label_of moved e.from_uid) into moved.edges))
