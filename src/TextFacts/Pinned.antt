-- ===== src/TextFacts/Pinned.antt =====
-- graph/resolution/resolve_text_fact.py: a pinned fact through every kind and mode.
use mathlib.Core.Bool.{true≢false}
use neuron_kg.Prelude.{
  ℕ, String, ◌≡◌, ◌≢◌, inl, inr, refl, sym, subst, ◌∙◌, Bool, true, false, ◌&&◌, Option, none, some,
  List, [], ◌∷◌, ◌++◌, arith, ◌==◌, eq_iff, Bool-cases, Option-cases, is_some, All, All-map,
  All-of-forall, if◌then◌else◌,
}
use neuron_kg.Prelude.Table.{find, update}
use neuron_kg.TimeAxis.{live_fact_cypher}
use neuron_kg.Reviews.{create_review}
use neuron_kg.Facts.{
  FactHistory, FactEdge, Graph, FactRow, is_live, is_edge, has_node, matched_edge, merge_edge,
  upsert_row, upsert_fact_edges,
}
use neuron_kg.Facts.Exec.{World, Safe, Safe-bind, write, pure, on_queue, ◌>>=◌}
use neuron_kg.Facts.Writer.{
  find_live_fact, is_found, set_found, starts_after, archive, close_fact, confirm_fact, confirmed,
  set_projection_status, has_uid,
}
use neuron_kg.TextFacts.{
  OldFact, NewFact, Kind, duplicate, extends, unrelated, newer_state, corrects, contradicts, Mode,
  suggest, auto, Action, dispute, correct, unless_pinned, resolve_newer, uid_of, row_of,
  decision_endpoint, linked, is_pair, has_any, merge_dispute, link_disputed, write_incoming_fact,
  close_backfilled, is_still_live, plain, identity_of, mutate, resolve_conflict, resolve_text_fact,
}
use neuron_kg.TextFacts.Ordering.{archive-edges}

abbrev is_live_as : String → FactEdge → Bool
is_live_as o e = e.fact_uid == o && is_live e

abbrev pub has_live : String → List FactEdge → Bool
has_live o es = is_some (find (is_live_as o) es)

-- The fact is live.
abbrev pub IsLive : String → World → Type 0
IsLive o w = has_live o w.graph.edges ≡ true

-- The fact does not stand on these ends.
abbrev pub NotOn : String → String → String → String → List FactEdge → Type 0
NotOn o from rel to es = All (λ e. e.fact_uid ≡ o → is_edge from rel to e ≡ false) es

live-append :
    (o : String) (es fs : List FactEdge) → has_live o es ≡ true → has_live o (es ++ fs) ≡ true
live-append o [] fs h = absurd (ground arith)
live-append o (e ∷ es) fs h = ground (arith, live-append o es fs)

live-update :
    (o : String) (p : FactEdge → Bool) (f : FactEdge → FactEdge) (es : List FactEdge)
    → All (λ e. p e ≡ true → is_live_as o e ≡ true → is_live_as o (f e) ≡ true) es
    → has_live o es ≡ true
    → has_live o (update p f es) ≡ true
live-update o p f [] k h = absurd (ground arith)
live-update o p f (e ∷ es) k h = elim (Bool-cases (p e)) [
  | inl t ↦ elim (Bool-cases (is_live_as o e)) [
    | inl u ↦ let v = k.0 t u in rw (t, v)
    | inr u ↦ let rest = live-update o p f es k.1 (rw u at h) in rw (t) (ground arith)
  ]
  | inr t ↦ elim (Bool-cases (is_live_as o e)) [
    | inl u ↦ rw (t, u)
    | inr u ↦ let rest = live-update o p f es k.1 (rw u at h) in rw (t, u) rest
  ]
]

module _ (o n : String) (other : n ≢ o) where
  -- An update of edges with the other uid.
  update-other :
      (p : FactEdge → Bool) (f : FactEdge → FactEdge) (es : List FactEdge)
      → ((e : FactEdge) → p e ≡ true → e.fact_uid ≡ n)
      → has_live o es ≡ true
      → has_live o (update p f es) ≡ true
  update-other p f es named h =
      live-update o p f es
        (All-of-forall _ es (λ e met live. absurd (other (sym (named e met) ∙ uid_is e live)))) h
    where
      uid_is : (e : FactEdge) → is_live_as o e ≡ true → e.fact_uid ≡ o
      uid_is e live = (eq_iff e.fact_uid o).0 (ground arith)

  end-IsLive :
      (w : World) (f : FactEdge) (k : FactHistory) (g : FactEdge → FactEdge)
      → IsLive o w
      → Safe (IsLive o) (λ _ v. IsLive o v) ((write (archive k) >>= λ _. write (set_found f n g)) w)
  end-IsLive w f k g h =
      let archived : has_live o (archive k w.graph).edges ≡ true = rw (archive-edges k w.graph) h in
      let kept =
        update-other (is_found f n) g (archive k w.graph).edges
          (λ x met. (eq_iff x.fact_uid n).0 (ground arith)) archived in
      ((archived, (kept, tt)), kept)

  close-IsLive :
      (t : ℕ) (reason : String) (now : ℕ) (w : World)
      → IsLive o w
      → Safe (IsLive o) (λ _ v. IsLive o v) (close_fact n t reason now w)
  unfolding close_fact
  close-IsLive t reason now w h = elim (Option-cases (find_live_fact n w.graph)) [
    | inl e ↦ rw (e, close_fact) tt
    | inr (f, e) ↦ elim (Bool-cases (starts_after f.valid_at t)) [
      | inl u ↦ rw (e, u, close_fact) tt
      | inr u ↦ rw (e, u, close_fact) (end-IsLive w f _ _ h)
    ]
  ]

  promote-IsLive :
      (status : String) (w : World)
      → IsLive o w
      → Safe (IsLive o) (λ _ v. IsLive o v) (set_projection_status n status w)
  unfolding set_projection_status
  promote-IsLive status w h =
      let kept =
        update-other (has_uid n) (λ e. record e { projection_status = some status }) w.graph.edges
          (λ e met. (eq_iff e.fact_uid n).0 met) h in
      ((kept, tt), kept)

module _ (o : String) where
  merge-IsLive :
      (rel : String) (now : ℕ) (row : FactRow) (es : List FactEdge)
      → NotOn o row.from_uid rel row.to_uid es
      → has_live o es ≡ true
      → has_live o (merge_edge rel false now row es) ≡ true
  unfolding merge_edge
  merge-IsLive rel now row es off h =
      elim (Option-cases (find (is_edge row.from_uid rel row.to_uid) es)) [
        | inl e ↦ rw (e, merge_edge) (live-append o es _ h)
        | inr (x, e) ↦
            rw (e, merge_edge)
              (live-update o (is_edge row.from_uid rel row.to_uid) (matched_edge false now row) es
                (All-map
                  (λ y k met live.
                    absurd (true≢false (sym met ∙ k ((eq_iff y.fact_uid o).0 (named y live)))))
                  es off)
                h)
      ]
    where
      named : (y : FactEdge) → is_live_as o y ≡ true → (y.fact_uid == o) ≡ true
      named y live = ground arith

  upsert-IsLive :
      (rel from_label to_label : String) (now : ℕ) (row : FactRow) (g : Graph)
      → NotOn o row.from_uid rel row.to_uid g.edges
      → has_live o g.edges ≡ true
      → has_live o (upsert_fact_edges rel from_label to_label (row ∷ []) false now g).edges ≡ true
  unfolding upsert_fact_edges upsert_row
  upsert-IsLive rel from_label to_label now row g off h =
      elim (Bool-cases (has_node from_label row.from_uid g && has_node to_label row.to_uid g)) [
        | inl t ↦ rw (t, upsert_row) (merge-IsLive rel now row g.edges off h)
        | inr t ↦ rw (t, upsert_row) h
      ]

  linked-IsLive :
      (a b : Option String) (w : World)
      → IsLive o w
      → Safe (IsLive o) (λ _ v. IsLive o v) (linked a b w)
  unfolding merge_dispute
  linked-IsLive none b w h = tt
  linked-IsLive (some a) none w h = tt
  linked-IsLive (some a) (some b) w h = elim (Bool-cases (a == b)) [
    | inl t ↦ rw t (tt, h)
    | inr t ↦ elim (Bool-cases (has_any a w.graph && has_any b w.graph)) [
      | inr n ↦ rw (t, n, merge_dispute) ((h, tt), h)
      | inl n ↦ elim (Option-cases (find (is_pair a b) w.graph.disputes)) [
        | inl e ↦ rw (t, n, e, merge_dispute) ((h, tt), h)
        | inr (x, e) ↦ rw (t, n, e, merge_dispute) ((h, tt), h)
      ]
    ]
  ]

  dispute-IsLive :
      (old : OldFact) (new : NewFact) (w : World)
      → IsLive o w
      → Safe (IsLive o) (λ _ v. IsLive o v) (link_disputed old new w)
  unfolding link_disputed
  dispute-IsLive old new w h =
      linked-IsLive (decision_endpoint old.from_uid old.from_label old.to_uid old.to_label)
        (decision_endpoint new.from_uid new.from_label new.to_uid new.to_label) w h

  confirm-IsLive :
      (at : Option ℕ) (key evidence : Option String) (confidence : Option ℕ) (now : ℕ) (w : World)
      → IsLive o w
      → Safe (IsLive o) (λ _ v. IsLive o v) (confirm_fact o at key evidence confidence now w)
  unfolding confirm_fact live_fact_cypher
  confirm-IsLive at key evidence confidence now w h =
      elim (Option-cases (find_live_fact o w.graph)) [
        | inl e ↦ rw (e, confirm_fact) tt
        | inr (f, e) ↦
            let kept =
              live-update o (is_found f o) (confirmed at key evidence confidence now) w.graph.edges
                (All-of-forall _ w.graph.edges (λ x met live. live)) h in
            rw (e, confirm_fact) ((kept, tt), kept)
      ]

module _ (make_uid : String → String → String → String) (now : ℕ) (new : NewFact) (old : OldFact)
    (other : uid_of make_uid now new ≢ old.fact_uid) where
  backfill-IsLive :
      (end : Option ℕ) (w : World)
      → IsLive old.fact_uid w
      → Safe
          (IsLive old.fact_uid)
          (λ _ v. IsLive old.fact_uid v)
          (close_backfilled make_uid now (uid_of make_uid now new) end w)
  backfill-IsLive none w h = (tt, h)
  backfill-IsLive (some t) w h =
      elim (Bool-cases (is_still_live make_uid now (uid_of make_uid now new) w.graph)) [
        | inl u ↦ rw u (
            close-IsLive old.fact_uid (uid_of make_uid now new) other t "backfilled_before_existing"
              now w h)
        | inr u ↦ rw u (tt, h)
      ]

  incoming-IsLive :
      (status : String) (w : World)
      → NotOn old.fact_uid new.from_uid new.rel_type new.to_uid w.graph.edges
      → IsLive old.fact_uid w
      → Safe
          (IsLive old.fact_uid)
          (λ u v. (u ≡ uid_of make_uid now new) × IsLive old.fact_uid v)
          (write_incoming_fact make_uid now new status w)
  unfolding write_incoming_fact
  incoming-IsLive status w off h =
      let written =
        upsert-IsLive old.fact_uid new.rel_type new.from_label new.to_label now
          (row_of make_uid now new status) w.graph off h in
      Safe-bind P (λ _ v. P v) (λ u v. (u ≡ uid_of make_uid now new) × P v)
        (write
          (upsert_fact_edges new.rel_type new.from_label new.to_label
            (row_of make_uid now new status ∷ []) false now)
          w)
        (λ _. close_backfilled make_uid now (uid_of make_uid now new) new.invalid_at >>= λ _.
          pure (uid_of make_uid now new))
        ((written, tt), written)
        (λ _ v k.
          Safe-bind P (λ _ v. P v) (λ u v. (u ≡ uid_of make_uid now new) × P v)
            (close_backfilled make_uid now (uid_of make_uid now new) new.invalid_at v)
            (λ _. pure (uid_of make_uid now new)) (backfill-IsLive new.invalid_at v k)
            (λ _ x l. (tt, (refl, l))))
    where
      P : World → Type 0
      P = IsLive old.fact_uid

  plain-IsLive :
      (status : String) (w : World)
      → NotOn old.fact_uid new.from_uid new.rel_type new.to_uid w.graph.edges
      → IsLive old.fact_uid w
      → Safe
          (IsLive old.fact_uid)
          (λ _ v. IsLive old.fact_uid v)
          (plain make_uid now (write_incoming_fact make_uid now new status) w)
  plain-IsLive status w off h =
      Safe-bind (IsLive old.fact_uid) (λ u v. (u ≡ uid_of make_uid now new) × IsLive old.fact_uid v)
        (λ _ v. IsLive old.fact_uid v) (write_incoming_fact make_uid now new status w)
        (λ uid. pure (some uid, none)) (incoming-IsLive status w off h) (λ u v k. (tt, k.1))

  conflict-IsLive :
      (dumps : Action → NewFact → OldFact → String) (mode : Mode) (w : World)
      → NotOn old.fact_uid new.from_uid new.rel_type new.to_uid w.graph.edges
      → IsLive old.fact_uid w
      → Safe
          (IsLive old.fact_uid)
          (λ _ v. IsLive old.fact_uid v)
          (resolve_conflict make_uid now dumps new old mode dispute w)
  unfolding resolve_conflict mutate
  conflict-IsLive dumps suggest w off h =
      Safe-bind (IsLive old.fact_uid)
        (λ _ v.
          NotOn old.fact_uid new.from_uid new.rel_type new.to_uid v.graph.edges
          × IsLive old.fact_uid v)
        (λ _ v. IsLive old.fact_uid v)
        (on_queue
          (create_review "fact_update" (dumps dispute new old)
            (some (identity_of make_uid now dispute new old)) now)
          w)
        (λ review. write_incoming_fact make_uid now new "pending_review" >>= λ uid.
          pure (some uid, some review))
        ((h, tt), (off, h))
        (λ review v k.
          Safe-bind (IsLive old.fact_uid)
            (λ u x. (u ≡ uid_of make_uid now new) × IsLive old.fact_uid x)
            (λ _ x. IsLive old.fact_uid x) (write_incoming_fact make_uid now new "pending_review" v)
            (λ uid. pure (some uid, some review)) (incoming-IsLive "pending_review" v k.0 k.1)
            (λ u x l. (tt, l.1)))
  conflict-IsLive dumps auto w off h =
      Safe-bind P (λ u v. (u ≡ uid_of make_uid now new) × P v) Q
        (write_incoming_fact make_uid now new "pending_review" w)
        (λ uid. link_disputed old new >>= λ _.
          set_projection_status uid "live" >>= λ _. pure (some uid, none))
        (incoming-IsLive "pending_review" w off h)
        (λ u v r.
          Safe-bind P (λ _ v. P v) Q (link_disputed old new v)
            (λ _. set_projection_status u "live" >>= λ _. pure (some u, none))
            (dispute-IsLive old.fact_uid old new v r.1)
            (λ _ x k.
              Safe-bind P (λ _ v. P v) Q (set_projection_status u "live" x)
                (λ _. pure (some u, none))
                (subst (λ u. Safe P (λ _ v. P v) (set_projection_status u "live" x)) (sym r.0)
                  (promote-IsLive old.fact_uid (uid_of make_uid now new) other "live" x k))
                (λ _ y l. (tt, l))))
    where
      P : World → Type 0
      P = IsLive old.fact_uid

      Q : Option String × Option (Option ℕ) → World → Type 0
      Q = λ _ v. IsLive old.fact_uid v

  -- A pinned fact that is live stays live in every state that resolve_text_fact passes through,
  -- whatever the kind and the mode, and whether the run ends, raises an error or is stopped. The
  -- new fact has another uid and stands on other ends.
  pub pinned_stays :
      (dumps : Action → NewFact → OldFact → String) (kind : Kind) (mode : Mode) (w : World)
      → old.pinned ≡ true
      → NotOn old.fact_uid new.from_uid new.rel_type new.to_uid w.graph.edges
      → IsLive old.fact_uid w
      → Safe
          (IsLive old.fact_uid)
          (λ _ v. IsLive old.fact_uid v)
          (resolve_text_fact make_uid now dumps new old kind mode w)
  unfolding resolve_text_fact
  pinned_stays dumps duplicate mode w pin off h =
      Safe-bind (IsLive old.fact_uid) (λ _ v. IsLive old.fact_uid v) (λ _ v. IsLive old.fact_uid v)
        (confirm_fact old.fact_uid (some new.source_time) new.source_record_key new.evidence
          new.confidence now w)
        (λ _. pure (none, none))
        (confirm-IsLive old.fact_uid (some new.source_time) new.source_record_key new.evidence
          new.confidence now w h)
        (λ _ v k. (tt, k))
  pinned_stays dumps extends mode w pin off h = plain-IsLive "live" w off h
  pinned_stays dumps unrelated mode w pin off h = plain-IsLive "live" w off h
  pinned_stays dumps contradicts mode w pin off h = conflict-IsLive dumps mode w off h
  pinned_stays dumps corrects mode w pin off h =
      subst
        (λ b.
          Safe (IsLive old.fact_uid) (λ _ v. IsLive old.fact_uid v)
            (resolve_conflict make_uid now dumps new old mode (unless_pinned make_uid now b correct)
              w))
        (sym pin) (conflict-IsLive dumps mode w off h)
  pinned_stays dumps newer_state mode w pin off h =
      subst
        (λ b.
          Safe (IsLive old.fact_uid) (λ _ v. IsLive old.fact_uid v)
            ((if b
                then resolve_conflict make_uid now dumps new old mode dispute
                else resolve_newer make_uid now dumps new old mode old.valid_at new.valid_at)
              w))
        (sym pin) (conflict-IsLive dumps mode w off h)
