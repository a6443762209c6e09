-- ===== src/Duplicates/Applied.antt =====
-- graph/resolution/duplicate_collector.py: what an applied merge does.
use neuron_kg.Prelude.{
  ℕ, ◌≤◌, ◌<◌, String, ◌==◌, eq_refl, ◌≡◌, refl, sym, ap, subst, Bool, true, false, Option, none,
  some, List, [], ◌∷◌, ◌++◌, All, All-map, All-Member, Member-All, Member, here, there, is_some,
  ◌&&◌, not, if◌then◌else◌, arith, Bool-cases, inl, inr,
}
use neuron_kg.Prelude.Table.{find, select, first, All-select}
use neuron_kg.Prelude.Rows.{All-intro, All-to-map}
use neuron_kg.Facts.{Graph, has_node}
use mathlib.Core.Bool.{true≢false, false≢true}
use neuron_kg.Reviews.{Queue, Review, ReviewState, pending, approved, rejected, get_review}
use neuron_kg.Duplicates.Candidates.{
  Mention, SourceNode, is_record, is_kept_record, node_source_record_keys,
}
use neuron_kg.Duplicates.Merge.{
  State, Merged, MergeTrace, Answer, done, refused, choose_survivor, leaves, enters,
  absorb_fact_edges, absorb_mentions, add_mention, link_mentioned_in, mentions_of, merge,
  record_merge_trace, apply, is_approved, apply_approved_duplicate_merge, merged_into, is_later,
  absorbs, survivor_of,
}
use neuron_kg.Duplicates.Absorbed.{absorbed_untouched, absorb_fact_edges-nodes}

found-snoc :
    {R : Type 0} (p : R → Bool) (rs : List R) (r : R)
    → is_some (find p rs) ≡ true
    → is_some (find p (rs ++ r ∷ [])) ≡ true
found-snoc p [] r e = absurd (true≢false (sym e))
found-snoc p (x ∷ rs) r e = elim (Bool-cases (p x)) [
  | inl q ↦ rw q refl
  | inr q ↦ rw q (found-snoc p rs r (rw q at e))
]

found_last :
    {R : Type 0} (p : R → Bool) (rs : List R) (r : R)
    → p r ≡ true
    → is_some (find p (rs ++ r ∷ [])) ≡ true
found_last p [] r e = rw e refl
found_last p (x ∷ rs) r e = elim (Bool-cases (p x)) [
  | inl q ↦ rw q refl
  | inr q ↦ rw q (found_last p rs r e)
]

module _ (fact_uid : String → String → String → String) (now : ℕ) where
  abbrev pub has_mention : String → String → List Mention → Bool
  has_mention uid key ms = is_some (find (mentions_of fact_uid now uid key) ms)

  added_stays :
      (uid k other key : String) (ms : List Mention)
      → has_mention other key ms ≡ true
      → has_mention other key (add_mention fact_uid now uid k ms) ≡ true
  added_stays uid k other key ms h = elim (Bool-cases (has_mention uid k ms)) [
    | inl q ↦ rw q h
    | inr q ↦ rw q (found-snoc (mentions_of fact_uid now other key) ms _ h)
  ]

  added :
      (uid key : String) (ms : List Mention)
      → has_mention uid key (add_mention fact_uid now uid key ms) ≡ true
  added uid key ms = elim (Bool-cases (has_mention uid key ms)) [
    | inl q ↦ rw (q, q) refl
    | inr q ↦
        let row : Mention = record { uid = uid; record_key = key } in
        rw q (
          found_last (mentions_of fact_uid now uid key) ms row (rw (eq_refl uid, eq_refl key) refl))
  ]

  module _ (g : Graph) (rs : List SourceNode) (label uid : String) where
    linked_stays :
        (other key : String) (keys : List String) (ms : List Mention)
        → has_mention other key ms ≡ true
        → has_mention other key (link_mentioned_in fact_uid now g rs label uid keys ms) ≡ true
    unfolding link_mentioned_in
    linked_stays other key [] ms h = h
    linked_stays other key (k ∷ keys) ms h =
        elim (Bool-cases (has_node label uid g && is_some (find (is_record k) rs))) [
          | inl q ↦ rw q (
              linked_stays other key keys (add_mention fact_uid now uid k ms)
                (added_stays uid k other key ms h))
          | inr q ↦ rw q (linked_stays other key keys ms h)
        ]

    -- A key of a record that is there is a mention of a node that is there.
    linked :
        (key : String) (keys : List String) (ms : List Mention)
        → has_node label uid g ≡ true
        → is_some (find (is_record key) rs) ≡ true
        → Member key keys
        → has_mention uid key (link_mentioned_in fact_uid now g rs label uid keys ms) ≡ true
    unfolding link_mentioned_in
    linked key [] ms n r m = elim m [ ]
    linked key (k ∷ keys) ms n r (here e) =
        let both : (has_node label uid g && is_some (find (is_record k) rs)) ≡ true =
          subst (λ x. (has_node label uid g && is_some (find (is_record x) rs)) ≡ true) e
            (rw (n, r) refl) in
        rw both (
          linked_stays uid key keys (add_mention fact_uid now uid k ms) (
            subst (λ x. has_mention uid key (add_mention fact_uid now uid x ms) ≡ true) e
              (added uid key ms)))
    linked key (k ∷ keys) ms n r (there m) =
        linked key keys
          (if has_node label uid g && is_some (find (is_record k) rs)
            then add_mention fact_uid now uid k ms
            else ms)
          n r m

  -- The keys that the query returns are those of source records.
  keys_recorded :
      (rs : List SourceNode) (ms : List Mention) (uid : String)
      → All (λ key. is_some (find (is_record key) rs) ≡ true) (node_source_record_keys rs ms uid)
  unfolding node_source_record_keys
  keys_recorded rs ms uid =
      All-to-map _ (λ m. m.record_key) _
        (All-map (λ m h. recorded (find (is_record m.record_key) rs) (ground arith)) _
          (All-select (λ m. Member m ms)
            (λ m.
              m.uid == uid
              && (is_kept_record (find (is_record m.record_key) rs) && not (m.record_key == "")))
            ms (All-Member ms)))
    where
      recorded : (o : Option SourceNode) → is_kept_record o ≡ true → is_some o ≡ true
      recorded none h = absurd (false≢true h)
      recorded (some s) h = refl

  -- The trace that was written last is the one that counts.
  traced :
      (uid : String) (ts : List MergeTrace) (t : MergeTrace)
      → All (λ u. is_later t u ≡ true) ts
      → (t.absorbed_uid == uid) ≡ true
      → first is_later (select (absorbs uid) (ts ++ t ∷ [])) ≡ some t
  traced uid [] t h e = rw e refl
  traced uid (u ∷ ts) t h e = elim (Bool-cases (u.absorbed_uid == uid)) [
    | inl q ↦ rw (q, traced uid ts t h.1 e, h.0) refl
    | inr q ↦ rw q (traced uid ts t h.1 e)
  ]

  later :
      (ts : List MergeTrace) (t : MergeTrace)
      → All (λ u. (u.merged_at ≤ t.merged_at) × (u.id < t.id)) ts
      → All (λ u. is_later t u ≡ true) ts
  later ts t h = All-map (λ u k. ground arith) ts h

  abbrev answer : State × Merged → Answer (State × Merged) → State × Merged
  answer d (done x) = x
  answer d (refused e) = d

  abbrev is_done : Answer (State × Merged) → Bool
  is_done (done x) = true
  is_done (refused e) = false

  approved-≡ : (r : ReviewState) → is_approved fact_uid now r ≡ true → r ≡ approved
  approved-≡ approved e = refl
  approved-≡ pending e = absurd (true≢false (sym e))
  approved-≡ rejected e = absurd (true≢false (sym e))

  -- What lets a merge through.
  let_through :
      (payload : String → String × (String × String)) (s : State) (o : Option Review)
      {x : State × Merged}
      → apply fact_uid now payload s o ≡ done x
      → (r : Review) × (o ≡ some r)
        × ((r.type == "duplicate_pair") ≡ true)
        × (r.state ≡ approved)
        × (merge fact_uid now r.id
              (payload r.payload).0
              (choose_survivor s (payload r.payload).1.0 (payload r.payload).1.1).0
              (choose_survivor s (payload r.payload).1.0 (payload r.payload).1.1).1
              s
            ≡ x)
  let_through payload s none e = absurd (false≢true (ap is_done e))
  let_through payload s (some r) {x} e = elim (Bool-cases (r.type == "duplicate_pair")) [
    | inr q ↦ absurd (false≢true (ap is_done (rw q at e)))
    | inl q ↦ elim (Bool-cases (is_approved fact_uid now r.state)) [
      | inr t ↦ absurd (false≢true (ap is_done (rw (q, t) at e)))
      | inl t ↦ (r, refl, q, approved-≡ r.state t, ap (answer x) (rw (q, t) at e))
    ]
  ]

  -- What holds of two nodes after a merge that answers with them.
  abbrev After : String × String → State → State × Merged → Type 0
  After chosen s x =
      (chosen ≡ (x.1.survivor_uid, x.1.absorbed_uid))
      × All
          (λ e.
            (leaves fact_uid now x.1.survivor_uid x.1.absorbed_uid e ≡ false)
            × (enters fact_uid now x.1.survivor_uid x.1.absorbed_uid e ≡ false))
          x.0.graph.edges
      × All (λ key. has_mention x.1.survivor_uid key x.0.mentions ≡ true)
          (node_source_record_keys s.records s.mentions x.1.absorbed_uid)
      × (merged_into x.1.absorbed_uid x.0.traces ≡ some x.1.survivor_uid)

  merge-After :
      (id : ℕ) (label : String) (c : String × String) (s : State)
      → (c.0 == c.1) ≡ false
      → All (λ u. (u.merged_at ≤ now) × (u.id < s.next_trace)) s.traces
      → has_node label c.0 s.graph ≡ true
      → After c s (merge fact_uid now id label c.0 c.1 s)
  unfolding merge merged_into record_merge_trace absorb_mentions
  merge-After id label c s apart times stands =
      let t : MergeTrace = record {
        id = s.next_trace;
        survivor_uid = c.0;
        absorbed_uid = c.1;
        label = label;
        merged_at = now;
        reason = some "duplicate_pair_merge";
      } in
      (
        refl,
        absorbed_untouched fact_uid now label c.0 c.1 apart s.graph,
        mentioned (absorb_fact_edges fact_uid now label c.0 c.1 s.graph) (
            subst (λ ns. has_node label c.0 (record s.graph { nodes = ns }) ≡ true)
              (sym (absorb_fact_edges-nodes fact_uid now label c.0 c.1 s.graph)) stands),
        ap survivor_of (traced c.1 s.traces t (later s.traces t times) (eq_refl c.1)),
      )
    where
      mentioned :
          (g : Graph)
          → has_node label c.0 g ≡ true
          → All
              (λ key.
                has_mention c.0 key (
                  link_mentioned_in fact_uid now g s.records label c.0
                    (node_source_record_keys s.records s.mentions c.1)
                    s.mentions)
                ≡ true)
              (node_source_record_keys s.records s.mentions c.1)
      mentioned g there_is = All-intro _ (node_source_record_keys s.records s.mentions c.1) λ key m.
          linked g s.records label c.0 key (node_source_record_keys s.records s.mentions c.1)
            s.mentions there_is
            (Member-All (λ k. is_some (find (is_record k) s.records) ≡ true) m
              (keys_recorded s.records s.mentions c.1))
            m

  answered :
      (id : ℕ) (label : String) (c : String × String) (s : State) {x : State × Merged}
      → merge fact_uid now id label c.0 c.1 s ≡ x
      → (c ≡ (x.1.survivor_uid, x.1.absorbed_uid)) × (label ≡ x.1.label)
  unfolding merge record_merge_trace
  answered id label c s e =
      (ap (λ y. (y.1.survivor_uid, y.1.absorbed_uid)) e, ap (λ y. y.1.label) e)

  -- Where a merge is carried out, the clock has not run back since the traces that are there, whose
  -- ids are below the next one, and the survivor and the absorbed node are two nodes, the former
  -- in the graph under the label that is answered: the review exists, is of a duplicate pair and
  -- is approved, the label is that of its payload and the survivor the one chosen of its two
  -- nodes; no live fact but one with the survivor touches the absorbed node; each source record
  -- of the absorbed node that is not deleted mentions the survivor; and the absorbed node is known
  -- to be merged into the survivor.
  pub merge_applied :
      (payload : String → String × (String × String)) (id : ℕ) (q : Queue) (s s' : State)
      (m : Merged)
      → apply_approved_duplicate_merge fact_uid now payload id q s ≡ done (s', m)
      → (m.survivor_uid == m.absorbed_uid) ≡ false
      → All (λ u. (u.merged_at ≤ now) × (u.id < s.next_trace)) s.traces
      → has_node m.label m.survivor_uid s.graph ≡ true
      → (r : Review) × (get_review id q ≡ some r)
        × ((r.type == "duplicate_pair") ≡ true)
        × (r.state ≡ approved)
        × ((payload r.payload).0 ≡ m.label)
        × (choose_survivor s (payload r.payload).1.0 (payload r.payload).1.1
            ≡ (m.survivor_uid, m.absorbed_uid))
        × All
            (λ e.
              (leaves fact_uid now m.survivor_uid m.absorbed_uid e ≡ false)
              × (enters fact_uid now m.survivor_uid m.absorbed_uid e ≡ false))
            s'.graph.edges
        × All
            (λ key. has_mention m.survivor_uid key s'.mentions ≡ true)
            (node_source_record_keys s.records s.mentions m.absorbed_uid)
        × (merged_into m.absorbed_uid s'.traces ≡ some m.survivor_uid)
  unfolding apply_approved_duplicate_merge
  merge_applied payload id q s s' m e apart times stands =
      let (r, found, type, state, x) = let_through payload s (get_review id q) e in
      let p = payload r.payload in
      let chosen = choose_survivor s p.1.0 p.1.1 in
      let (pair, same) = answered r.id p.0 chosen s x in
      let here_it_is : has_node p.0 chosen.0 s.graph ≡ true =
        subst (λ y. has_node p.0 y.0 s.graph ≡ true) (sym pair)
          (subst (λ l. has_node l m.survivor_uid s.graph ≡ true) (sym same) stands) in
      let (a, b, c, d) = subst (After chosen s) x (
        merge-After r.id p.0 chosen s (subst (λ y. (y.0 == y.1) ≡ false) (sym pair) apart) times
          here_it_is) in
      (r, found, type, state, same, a, b, c, d)
