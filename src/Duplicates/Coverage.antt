-- ===== src/Duplicates/Coverage.antt =====
-- graph/resolution/duplicate_collector.py: which hits find_duplicate_candidates considers.
use neuron_kg.Prelude.{
  ℕ, String, ◌==◌, eq_iff, eq_refl, ◌≡◌, refl, sym, ap, ◌∙◌, Bool, true, false, ◌||◌, none, some,
  List, [], ◌∷◌, ◌++◌, All, All-map, All-Member, Member, here, arith, Bool-cases, Option-cases, inl,
  inr,
}
use neuron_kg.Prelude.Rows.{Member-left, Member-right}
use neuron_kg.Chars.{Chars, CharClass}
use neuron_kg.Duplicates.{Ratio, DuplicateCandidate, Labelled, below}
use neuron_kg.Duplicates.Candidates.{
  World, Found, Pair, pair_of, same_pair, seen_in, score_of, candidate_of, kept, visit, visit_all,
  hits_of, collect,
}

pub same_pair-≡ : (p q : Pair) → same_pair p q ≡ true → p ≡ q
same_pair-≡ (a, b) (c, d) e =
    let first : a ≡ c = ground (arith, eq_iff a c) in
    let second : b ≡ d = ground (arith, eq_iff b d) in
    ap (λ x. (x, b)) first ∙ ap (λ x. (c, x)) second

module _ (casefold : Chars → Chars) (k : CharClass) (fold : ℕ → ℕ) (before : String → String → Bool)
    (w : World) (label : String) (floor : Ratio) where
  -- What becomes of a node and a hit of its search: their texts contradict each other, their score
  -- is below the threshold, or they are a candidate.
  pub data Verdict (n : Labelled) (h : String × Ratio) (cs : List DuplicateCandidate) : Type 0 where
    vetoed : score_of casefold k fold before w n h.0 h.1 ≡ none → Verdict n h cs
    too_low :
        (score : Ratio)
        → score_of casefold k fold before w n h.0 h.1 ≡ some score
        → below score floor ≡ true
        → Verdict n h cs
    proposed :
        (score : Ratio)
        → score_of casefold k fold before w n h.0 h.1 ≡ some score
        → below score floor ≡ false
        → Member (candidate_of casefold k fold before w label n h.0 h.1 score) cs
        → Verdict n h cs

  -- A pair on which there is a verdict, from one of the searches that gave it.
  pub record Considered (cs : List DuplicateCandidate) (p : Pair) : Type 0 where
    pub node : Labelled
    pub hit : String × Ratio
    pub listed : Member node w.nodes
    pub given : Member hit (hits_of casefold k fold before (w.hits node.uid))
    pub pair_is : pair_of casefold k fold before node.uid hit.0 ≡ p
    pub verdict : Verdict node hit cs

  judge :
      (n : Labelled) (h : String × Ratio) (cs : List DuplicateCandidate)
      → Verdict n h (
          cs
          ++ kept casefold k fold before w label floor n h.0 h.1
              (score_of casefold k fold before w n h.0 h.1))
  judge n h cs = elim (Option-cases (score_of casefold k fold before w n h.0 h.1)) [
    | inl q ↦ vetoed q
    | inr (score, q) ↦ elim (Bool-cases (below score floor)) [
      | inl e ↦ too_low score q e
      | inr e ↦ proposed score q e (rw (q, e) (Member-right cs _ (here refl)))
    ]
  ]

  later : (cs new : List DuplicateCandidate) (p : Pair) → Considered cs p → Considered (cs ++ new) p
  later cs new p c = record {
    node = c.node;
    hit = c.hit;
    listed = c.listed;
    given = c.given;
    pair_is = c.pair_is;
    verdict = kept_verdict c.verdict;
  }
    where
      kept_verdict : Verdict c.node c.hit cs → Verdict c.node c.hit (cs ++ new)
      kept_verdict (vetoed q) = vetoed q
      kept_verdict (too_low score q e) = too_low score q e
      kept_verdict (proposed score q e m) = proposed score q e (Member-left cs new m)

  -- There is a verdict on every pair that was seen.
  abbrev Judged : Found → Type 0
  Judged f = (p : Pair) → seen_in p f.seen_pairs ≡ true → Considered f.candidates p

  visit-Judged :
      (n : Labelled) (h : String × Ratio) (f : Found)
      → Member n w.nodes
      → Member h (hits_of casefold k fold before (w.hits n.uid))
      → Judged f
      → Judged (visit casefold k fold before w label floor n h f)
  visit-Judged n h f listed given j =
      let q = pair_of casefold k fold before n.uid h.0 in
      elim (Bool-cases (h.0 == n.uid || seen_in q f.seen_pairs)) [
        | inl e ↦ rw e j
        | inr e ↦ rw e λ p s. elim (Bool-cases (same_pair p q)) [
          | inl t ↦ record {
            node = n;
            hit = h;
            listed = listed;
            given = given;
            pair_is = sym (same_pair-≡ p q t);
            verdict = judge n h f.candidates;
          }
          | inr t ↦ later f.candidates _ p (j p (rw t at s))
        ]
      ]

  visit-seen :
      (n : Labelled) (h : String × Ratio) (f : Found) (p : Pair)
      → seen_in p f.seen_pairs ≡ true
      → seen_in p (visit casefold k fold before w label floor n h f).seen_pairs ≡ true
  visit-seen n h f p s =
      elim (Bool-cases
        (h.0 == n.uid || seen_in (pair_of casefold k fold before n.uid h.0) f.seen_pairs)) [
          | inl e ↦ rw e s
          | inr e ↦ rw e (ground arith)
        ]

  visit-sees :
      (n : Labelled) (h : String × Ratio) (f : Found)
      → (h.0 == n.uid) ≡ false
      → seen_in
          (pair_of casefold k fold before n.uid h.0)
          (visit casefold k fold before w label floor n h f).seen_pairs
        ≡ true
  visit-sees n h f apart =
      let q = pair_of casefold k fold before n.uid h.0 in
      elim (Bool-cases (seen_in q f.seen_pairs)) [
        | inl e ↦ rw (apart, e, e) refl
        | inr e ↦ rw (apart, e, eq_refl q.0, eq_refl q.1) refl
      ]

  visits-seen :
      (n : Labelled) (hs : List (String × Ratio)) (f : Found) (p : Pair)
      → seen_in p f.seen_pairs ≡ true
      → seen_in p (visit_all casefold k fold before w label floor n hs f).seen_pairs ≡ true
  visits-seen n [] f p s = s
  visits-seen n (h ∷ hs) f p s =
      visits-seen n hs (visit casefold k fold before w label floor n h f) p (visit-seen n h f p s)

  collect-seen :
      (ns : List Labelled) (f : Found) (p : Pair)
      → seen_in p f.seen_pairs ≡ true
      → seen_in p (collect casefold k fold before w label floor ns f).seen_pairs ≡ true
  collect-seen [] f p s = s
  collect-seen (n ∷ ns) f p s =
      let hs = hits_of casefold k fold before (w.hits n.uid) in
      collect-seen ns (visit_all casefold k fold before w label floor n hs f) p
        (visits-seen n hs f p s)

  visits-Judged :
      (n : Labelled) (hs : List (String × Ratio)) (f : Found)
      → Member n w.nodes
      → All (λ h. Member h (hits_of casefold k fold before (w.hits n.uid))) hs
      → Judged f
      → Judged (visit_all casefold k fold before w label floor n hs f)
  visits-Judged n [] f listed given j = j
  visits-Judged n (h ∷ hs) f listed given j =
      visits-Judged n hs (visit casefold k fold before w label floor n h f) listed given.1
        (visit-Judged n h f listed given.0 j)

  visits-sees :
      (n : Labelled) (hs : List (String × Ratio)) (f : Found)
      → All
          (λ h.
            (h.0 == n.uid) ≡ false
            → seen_in
                (pair_of casefold k fold before n.uid h.0)
                (visit_all casefold k fold before w label floor n hs f).seen_pairs
              ≡ true)
          hs
  visits-sees n [] f = tt
  visits-sees n (h ∷ hs) f =
      let one = visit casefold k fold before w label floor n h f in
      (
        (λ apart.
            visits-seen n hs one (pair_of casefold k fold before n.uid h.0)
              (visit-sees n h f apart)),
        visits-sees n hs one,
      )

  collect-Judged :
      (ns : List Labelled) (f : Found)
      → All (λ n. Member n w.nodes) ns
      → Judged f
      → Judged (collect casefold k fold before w label floor ns f)
  collect-Judged [] f listed j = j
  collect-Judged (n ∷ ns) f listed j =
      let hs = hits_of casefold k fold before (w.hits n.uid) in
      collect-Judged ns (visit_all casefold k fold before w label floor n hs f) listed.1
        (visits-Judged n hs f listed.0 (All-Member hs) j)

  collect-sees :
      (ns : List Labelled) (f : Found)
      → All
          (λ n.
            All
              (λ h.
                (h.0 == n.uid) ≡ false
                → seen_in
                    (pair_of casefold k fold before n.uid h.0)
                    (collect casefold k fold before w label floor ns f).seen_pairs
                  ≡ true)
              (hits_of casefold k fold before (w.hits n.uid)))
          ns
  collect-sees [] f = tt
  collect-sees (n ∷ ns) f =
      let hs = hits_of casefold k fold before (w.hits n.uid) in
      let next = visit_all casefold k fold before w label floor n hs f in
      (
        All-map
            (λ h s apart. collect-seen ns next (pair_of casefold k fold before n.uid h.0) (s apart))
            hs (visits-sees n hs f),
        collect-sees ns next,
      )

  -- Each node of the label with each of its hits, unless that is the node itself.
  abbrev pub Covered : List DuplicateCandidate → Type 0
  Covered cs =
      All
        (λ n.
          All
            (λ h. (h.0 == n.uid) ≡ false → Considered cs (pair_of casefold k fold before n.uid h.0))
            (hits_of casefold k fold before (w.hits n.uid)))
        w.nodes

  -- The collector passes over no hit.
  pub collect-Covered :
      Covered
        (collect casefold k fold before w label floor w.nodes
          (record { seen_pairs = []; candidates = [] })).candidates
  collect-Covered =
      let start : Found = record { seen_pairs = []; candidates = [] } in
      let j = collect-Judged w.nodes start (All-Member w.nodes) (λ p s. absurd (ground arith)) in
      All-map
        (λ n all.
          All-map (λ h s apart. j (pair_of casefold k fold before n.uid h.0) (s apart))
            (hits_of casefold k fold before (w.hits n.uid)) all)
        w.nodes (collect-sees w.nodes start)
