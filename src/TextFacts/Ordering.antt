-- ===== src/TextFacts/Ordering.antt =====
-- _resolve_conflict of graph/resolution/resolve_text_fact.py: the order of the writes in auto mode.
use mathlib.Core.Bool.{true≢false}
use mathlib.Core.Option.{some-injective}
use neuron_kg.Prelude.{
  ℕ, String, ◌≡◌, ◌≢◌, ◌⊎◌, inl, inr, refl, sym, ap, subst, ◌∙◌, Bool, true, false, ◌&&◌, Option,
  none, some, List, [], ◌∷◌, arith, ◌==◌, eq_iff, eq_refl, Bool-cases, Option-cases, All, All-map,
  All-append, All-zip,
}
use neuron_kg.Prelude.Table.{find, select, update, All-update_of}
use neuron_kg.Prelude.Rows.{find-none, All-of-select}
use neuron_kg.TimeAxis.{live_fact_cypher}
use neuron_kg.Facts.{
  FactHistory, FactEdge, FactRow, Graph, is_open, is_live, is_edge, has_node, matched_edge,
  merge_edge, upsert_row, upsert_fact_edges,
}
use neuron_kg.Facts.Exec.{World, Safe, Safe-bind, Safe-map, write, pure, ◌>>=◌}
use neuron_kg.Facts.Writer.{
  only, is_open_fact, find_live_fact, is_found, set_found, starts_after, archive, same_interval,
  close_fact, correct_fact, set_projection_status, has_uid,
}
use neuron_kg.TextFacts.{
  OldFact, NewFact, Action, newer_state_close, correct, dispute, auto, uid_of, row_of,
  write_incoming_fact, is_still_live, close_backfilled, mutate, resolve_conflict,
}

-- No edge with this uid is live.
abbrev pub NotLive : String → List FactEdge → Type 0
NotLive u es = All (λ e. e.fact_uid ≡ u → is_live e ≡ false) es

-- The edges with this uid stand on these ends.
abbrev pub Names : String → String → String → String → List FactEdge → Type 0
Names u from rel to es = All (λ e. e.fact_uid ≡ u → is_edge from rel to e ≡ true) es

module _ (rel : String) (now : ℕ) (row : FactRow) where
  merge-NotLive :
      (es : List FactEdge) (s : String)
      → row.projection_status ≡ some s
      → (s == "live") ≡ false
      → Names row.fact_uid row.from_uid rel row.to_uid es
      → NotLive row.fact_uid (merge_edge rel false now row es)
  unfolding merge_edge live_fact_cypher
  merge-NotLive es s q pending names =
      elim (Option-cases (find (is_edge row.from_uid rel row.to_uid) es)) [
        | inl e ↦
            rw (e, merge_edge)
              (All-append _ es _
                (All-map (λ x h named. absurd (true≢false (sym (h.0 named) ∙ h.1))) es
                  (All-zip _ _ es names (find-none (is_edge row.from_uid rel row.to_uid) es e)))
                ((λ _. rw q (ground arith)), tt))
        | inr (x, e) ↦
            rw (e, merge_edge)
              (All-update_of
                {P = λ e. e.fact_uid ≡ row.fact_uid → is_edge row.from_uid rel row.to_uid e ≡ true}
                (λ e. e.fact_uid ≡ row.fact_uid → is_live e ≡ false)
                (is_edge row.from_uid rel row.to_uid) (matched_edge false now row) es
                (λ r met h _. rw q (ground arith))
                (λ r missed h named. absurd (true≢false (sym (h named) ∙ missed))) names)
      ]

  merge-keeps :
      (o : String) (es : List FactEdge)
      → row.fact_uid ≢ o
      → NotLive o es
      → NotLive o (merge_edge rel false now row es)
  unfolding merge_edge
  merge-keeps o es apart h = elim (Option-cases (find (is_edge row.from_uid rel row.to_uid) es)) [
    | inl e ↦ rw (e, merge_edge) (All-append _ es _ h ((λ same. absurd (apart same)), tt))
    | inr (x, e) ↦
        rw (e, merge_edge)
          (All-update_of {P = λ e. e.fact_uid ≡ o → is_live e ≡ false}
            (λ e. e.fact_uid ≡ o → is_live e ≡ false) (is_edge row.from_uid rel row.to_uid)
            (matched_edge false now row) es (λ r met k same. absurd (apart same)) (λ r missed k. k)
            h)
  ]

only-select :
    (p : FactEdge → Bool) (es : List FactEdge) {f : FactEdge}
    → only (select p es) ≡ some f
    → All (λ e. p e ≡ true → e ≡ f) es
only-select p es {f} q = All-of-select p (λ e. e ≡ f) es (single (select p es) q)
  where
    single : (xs : List FactEdge) → only xs ≡ some f → All (λ e. e ≡ f) xs
    single [] r = tt
    single (x ∷ []) r = (some-injective x f r, tt)
    single (x ∷ y ∷ xs) r = absurd (ground arith)

-- The query that ends the one open fact with a uid leaves no live one.
set_found-NotLive :
    (uid : String) (es : List FactEdge) (f : FactEdge) (g : FactEdge → FactEdge)
    → only (select (is_open_fact uid) es) ≡ some f
    → ((e : FactEdge) → is_live (g e) ≡ false)
    → NotLive uid (update (is_found f uid) g es)
unfolding live_fact_cypher
set_found-NotLive uid es f g one ends =
    All-update_of {P = λ e. is_open_fact uid e ≡ true → e ≡ f}
      (λ e. e.fact_uid ≡ uid → is_live e ≡ false) (is_found f uid) g es (λ e met h same. ends e)
      (λ e missed h same. elim (Bool-cases (is_open e.invalid_at)) [
        | inl t ↦
            let q : e ≡ f = h (ground (arith, eq_iff e.fact_uid uid)) in
            absurd (
              true≢false (
                sym (self f uid (ap (λ e. e.fact_uid) (sym q) ∙ same))
                ∙ subst (λ x. is_found f uid x ≡ false) q missed))
        | inr t ↦ ground arith
      ])
      (only-select (is_open_fact uid) es one)
  where
    self : (f : FactEdge) (uid : String) → f.fact_uid ≡ uid → is_found f uid f ≡ true
    self f uid q =
        ground
          (arith, eq_refl f.from_uid, eq_refl f.rel_type, eq_refl f.to_uid, eq_iff f.fact_uid uid)

-- The two facts are not both live.
abbrev pub Apart : String → String → World → Type 0
Apart o n w = NotLive o w.graph.edges ⊎ NotLive n w.graph.edges

abbrev pub Ended : String → World → Type 0
Ended o w = NotLive o w.graph.edges

pub archive-edges : (h : FactHistory) (g : Graph) → (archive h g).edges ≡ g.edges
unfolding archive
archive-edges h g = elim (Option-cases (find (same_interval h) g.history)) [
  | inl e ↦ rw (e, archive) refl
  | inr (x, e) ↦ rw (e, archive) refl
]

module _ (o n : String) (now : ℕ) where
  -- A run that archives and then ends the old fact, once it has found it.
  end-Safe :
      (w : World) (f : FactEdge) (h : FactHistory) (g : FactEdge → FactEdge)
      → Apart o n w
      → only (select (is_open_fact o) w.graph.edges) ≡ some f
      → ((e : FactEdge) → is_live (g e) ≡ false)
      → Safe (Apart o n) (λ _ v. Ended o v) ((write (archive h) >>= λ _. write (set_found f o g)) w)
  end-Safe w f h g apart one ends =
      let same = archive-edges h w.graph in
      let ended : NotLive o (update (is_found f o) g (archive h w.graph).edges) =
        set_found-NotLive o (archive h w.graph).edges f g (rw same one) ends in
      ((rw same apart, (inl ended, tt)), ended)

  found :
      (w : World) {f : FactEdge}
      → find_live_fact o w.graph ≡ some f
      → only (select (is_open_fact o) w.graph.edges) ≡ some f
  unfolding find_live_fact
  found w q = q

  close-Safe :
      (t : ℕ) (reason : String) (w : World)
      → Apart o n w
      → Safe (Apart o n) (λ _ v. Ended o v) (close_fact o t reason now w)
  unfolding close_fact live_fact_cypher
  close-Safe t reason w apart = elim (Option-cases (find_live_fact o w.graph)) [
    | inl e ↦ rw (e, close_fact) tt
    | inr (f, e) ↦ elim (Bool-cases (starts_after f.valid_at t)) [
      | inl u ↦ rw (e, u, close_fact) tt
      | inr u ↦ rw (e, u, close_fact) (end-Safe w f _ _ apart (found w e) (λ x. ground arith))
    ]
  ]

  correct-Safe :
      (by : String) (at : ℕ) (w : World)
      → Apart o n w
      → Safe (Apart o n) (λ _ v. Ended o v) (correct_fact o by at now w)
  unfolding correct_fact live_fact_cypher
  correct-Safe by at w apart = elim (Option-cases (find_live_fact o w.graph)) [
    | inl e ↦ rw (e, correct_fact) tt
    | inr (f, e) ↦ rw (e, correct_fact) (end-Safe w f _ _ apart (found w e) (λ x. ground arith))
  ]

upsert-Apart :
    (o : String) (new : NewFact) (make_uid : String → String → String → String) (now : ℕ)
    (g : Graph)
    → uid_of make_uid now new ≢ o
    → Names (uid_of make_uid now new) new.from_uid new.rel_type new.to_uid g.edges
    → NotLive o g.edges ⊎ NotLive (uid_of make_uid now new) g.edges
    → NotLive o
        (upsert_fact_edges new.rel_type new.from_label new.to_label
          (row_of make_uid now new "pending_review" ∷ [])
          false
          now
          g).edges
      ⊎ NotLive
          (uid_of make_uid now new)
          (upsert_fact_edges new.rel_type new.from_label new.to_label
            (row_of make_uid now new "pending_review" ∷ [])
            false
            now
            g).edges
unfolding upsert_fact_edges upsert_row
upsert-Apart o new make_uid now g other names apart =
    elim (Bool-cases
      (has_node new.from_label new.from_uid g && has_node new.to_label new.to_uid g)) [
        | inl t ↦
            rw (t, upsert_row)
              (inr (
                merge-NotLive new.rel_type now (row_of make_uid now new "pending_review") g.edges
                  "pending_review" refl refl names))
        | inr t ↦ rw (t, upsert_row) apart
      ]

abbrev pub is_dispute : Action → Bool
is_dispute dispute = true
is_dispute _ = false

module _ (make_uid : String → String → String → String) (now : ℕ) (new : NewFact)
    (old : OldFact) where
  mutate-Safe :
      (action : Action) (w : World)
      → is_dispute action ≡ false
      → Apart old.fact_uid (uid_of make_uid now new) w
      → Safe
          (Apart old.fact_uid (uid_of make_uid now new))
          (λ _ v. Ended old.fact_uid v)
          (mutate make_uid now action new old (uid_of make_uid now new) w)
  unfolding mutate
  mutate-Safe newer_state_close w e apart = elim (Option-cases new.valid_at) [
    | inl q ↦ rw (q, mutate) tt
    | inr (t, q) ↦
        rw (q, mutate)
          (close-Safe old.fact_uid (uid_of make_uid now new) now t "superseded" w apart)
  ]
  mutate-Safe correct w e apart =
      correct-Safe old.fact_uid (uid_of make_uid now new) now (uid_of make_uid now new)
        new.source_time w apart
  mutate-Safe dispute w e apart = absurd (ground arith)

  promote-Ended :
      (w : World)
      → uid_of make_uid now new ≢ old.fact_uid
      → Ended old.fact_uid w
      → NotLive old.fact_uid (
          update
            (has_uid (uid_of make_uid now new))
            (λ e. record e { projection_status = some "live" })
            w.graph.edges)
  promote-Ended w other ended =
      All-update_of {P = λ e. e.fact_uid ≡ old.fact_uid → is_live e ≡ false}
        (λ e. e.fact_uid ≡ old.fact_uid → is_live e ≡ false) (has_uid (uid_of make_uid now new))
        (λ e. record e { projection_status = some "live" }) w.graph.edges
        (λ e met h same.
          absurd (other (sym ((eq_iff e.fact_uid (uid_of make_uid now new)).0 met) ∙ same)))
        (λ e missed h. h) ended

  swapped :
      (w : World)
      → Apart (uid_of make_uid now new) old.fact_uid w
      → Apart old.fact_uid (uid_of make_uid now new) w
  swapped w (inl h) = inr h
  swapped w (inr h) = inl h

  -- A new fact that has ended already is closed while it waits.
  backfilled :
      (w : World)
      → Apart old.fact_uid (uid_of make_uid now new) w
      → Safe
          (Apart old.fact_uid (uid_of make_uid now new))
          (λ _ v. Apart old.fact_uid (uid_of make_uid now new) v)
          (close_backfilled make_uid now (uid_of make_uid now new) new.invalid_at w)
  backfilled w apart = elim (Option-cases new.invalid_at) [
    | inl q ↦ rw q (tt, apart)
    | inr (end, q) ↦
        rw q (elim (Bool-cases (is_still_live make_uid now (uid_of make_uid now new) w.graph)) [
          | inr t ↦ rw t (tt, apart)
          | inl t ↦ rw t (
              Safe-map (λ v h. swapped v h) (λ _ v ended. inr ended)
                (close_fact (uid_of make_uid now new) end "backfilled_before_existing" now w)
                (close-Safe (uid_of make_uid now new) old.fact_uid now end
                  "backfilled_before_existing" w (flipped w apart)))
        ])
  ]
    where
      flipped :
          (w : World)
          → Apart old.fact_uid (uid_of make_uid now new) w
          → Apart (uid_of make_uid now new) old.fact_uid w
      flipped w (inl h) = inr h
      flipped w (inr h) = inl h

  incoming :
      (w : World)
      → uid_of make_uid now new ≢ old.fact_uid
      → Names (uid_of make_uid now new) new.from_uid new.rel_type new.to_uid w.graph.edges
      → Apart old.fact_uid (uid_of make_uid now new) w
      → Safe
          (Apart old.fact_uid (uid_of make_uid now new))
          (λ u v. (u ≡ uid_of make_uid now new) × Apart old.fact_uid (uid_of make_uid now new) v)
          (write_incoming_fact make_uid now new "pending_review" w)
  unfolding write_incoming_fact
  incoming w other names apart =
      let P : World → Type 0 = Apart old.fact_uid (uid_of make_uid now new) in
      let written = upsert-Apart old.fact_uid new make_uid now w.graph other names apart in
      Safe-bind P (λ _ v. P v) (λ u v. (u ≡ uid_of make_uid now new) × P v)
        (write
          (upsert_fact_edges new.rel_type new.from_label new.to_label
            (row_of make_uid now new "pending_review" ∷ []) false now)
          w)
        (λ _. close_backfilled make_uid now (uid_of make_uid now new) new.invalid_at >>= λ _.
          pure (uid_of make_uid now new))
        ((written, tt), written)
        (λ _ v there_is.
          Safe-bind P (λ _ v. P v) (λ u v. (u ≡ uid_of make_uid now new) × P v)
            (close_backfilled make_uid now (uid_of make_uid now new) new.invalid_at v)
            (λ _. pure (uid_of make_uid now new)) (backfilled v there_is)
            (λ _ x h. (tt, (refl, h))))

  -- In auto mode, when a new fact closes or corrects an old one: in no state that the run passes
  -- through, whether it ends, raises an error or is stopped between two queries, are both facts
  -- live, and where it returns the old fact is not. The two have different uids, were not both
  -- live before, and the new uid stands on no other ends; the new fact may have an end.
  pub auto_apart :
      (dumps : Action → NewFact → OldFact → String) (action : Action) (w : World)
      → is_dispute action ≡ false
      → uid_of make_uid now new ≢ old.fact_uid
      → Names (uid_of make_uid now new) new.from_uid new.rel_type new.to_uid w.graph.edges
      → Apart old.fact_uid (uid_of make_uid now new) w
      → Safe
          (Apart old.fact_uid (uid_of make_uid now new))
          (λ _ v. Ended old.fact_uid v)
          (resolve_conflict make_uid now dumps new old auto action w)
  unfolding resolve_conflict write_incoming_fact set_projection_status
  auto_apart dumps action w acts other names apart =
      Safe-bind P (λ u v. (u ≡ uid_of make_uid now new) × P v) Q
        (write_incoming_fact make_uid now new "pending_review" w)
        (λ uid. mutate make_uid now action new old uid >>= λ _.
          set_projection_status uid "live" >>= λ _. pure (some uid, none))
        (incoming w other names apart)
        (λ u v r.
          subst
            (λ u. Safe P Q (
              (mutate make_uid now action new old u >>= λ _.
              set_projection_status u "live" >>= λ _. pure (some u, none))
                v))
            (sym r.0)
            (Safe-bind P (λ _ v. Ended old.fact_uid v) Q
              (mutate make_uid now action new old (uid_of make_uid now new) v)
              (λ _. set_projection_status (uid_of make_uid now new) "live" >>= λ _.
                pure (some (uid_of make_uid now new), none))
              (mutate-Safe action v acts r.1)
              (λ _ x ended.
                ((inl (promote-Ended x other ended), tt), promote-Ended x other ended))))
    where
      P : World → Type 0
      P = Apart old.fact_uid (uid_of make_uid now new)

      Q : Option String × Option (Option ℕ) → World → Type 0
      Q = λ _ v. Ended old.fact_uid v
