-- ===== src/Inference/Sound.antt =====
-- transitive_closure of graph/semantics/inference.py: what it derives, against walks.
use mathlib.Core.Option.{some-injective}
use neuron_kg.Prelude.{
  ℕ, zero, suc, ◌≤◌, String, ◌≡◌, ◌↔◌, ◌≢◌, refl, sym, ap, subst, ◌∙◌, true, false, ◌||◌, Option,
  none, some, List, [], ◌∷◌, ◌++◌, map, arith, inl, inr, Bool-cases, Option-cases, All, All-map,
  All-append, Member, All-Member, leb, length, ◌==◌, eq_iff,
}
use neuron_kg.Prelude.Rows.{All-to-map}
use neuron_kg.Prelude.Updates.{selected}
use neuron_kg.Inference.{
  Edge, Derivation, Trail, intersect_validity, min_confidence, conclude, is_asserted, is_derived,
  leaves, by_source, start_trail, extend, starts_of, Sweep, going, full, add_conclusion, visit,
  sweep, levels, transitive_closure,
}
use neuron_kg.Inference.Validity.{during, intersect_validity-during, min_confidence-le}

-- A walk of asserted edges from the first to the last one.
pub data Walk (edges : List Edge) (e : Edge) : Edge → List Edge → Type 0 where
  pair :
      {f : Edge}
      → Member e edges
      → Member f edges
      → f.from_uid ≡ e.to_uid
      → Walk edges e f (e ∷ f ∷ [])
  onward :
      {f : Edge} {chain : List Edge} (g : Edge)
      → Walk edges e f chain
      → Member g edges
      → g.from_uid ≡ f.to_uid
      → Walk edges e g (chain ++ g ∷ [])

abbrev pub IsWalk : List Edge → Trail → Type 0
IsWalk edges p = Walk edges p.first p.last p.chain

-- A conclusion that the asserted edges carry: a walk leads from its subject to its object, which
-- differ and are not joined by an asserted edge; it holds exactly while all edges of the walk do,
-- and is trusted no more than any of them.
pub record IsCarried (edges : List Edge) (d : Derivation) : Type 0 where
  pub first : Edge
  pub last : Edge
  pub chain : List Edge
  pub walk : Walk edges first last chain
  pub subject : d.from_uid ≡ first.from_uid
  pub object : d.to_uid ≡ last.to_uid
  pub apart : d.from_uid ≢ d.to_uid
  pub unasserted : is_asserted edges d.from_uid d.to_uid ≡ false
  pub window :
      (t : ℕ)
      → (during d.valid_at d.invalid_at t ≡ true)
        ↔ All (λ e. during e.valid_at e.invalid_at t ≡ true) chain
  pub trust : All (λ e. d.confidence ≤ e.confidence) chain

pub conclude-fields :
    (relation rule from to from_label to_label : String) (es : List Edge) {d : Derivation}
    → conclude relation rule from to from_label to_label es ≡ some d
    → (d.from_uid ≡ from)
      × (d.to_uid ≡ to)
      × (d.confidence ≡ min_confidence es)
      × (intersect_validity es ≡ some (d.valid_at, d.invalid_at))
unfolding conclude
conclude-fields relation rule from to from_label to_label es {d} q =
    elim (Option-cases (intersect_validity es)) [
      | inl e ↦ absurd (nothing (rw (e, conclude) at q))
      | inr (w, e) ↦
          let r = some-injective _ _ (rw (e, conclude) at q) in
          (
            ap (λ d. d.from_uid) (sym r),
            ap (λ d. d.to_uid) (sym r),
            ap (λ d. d.confidence) (sym r),
            e ∙ ap (λ d. some (d.valid_at, d.invalid_at)) r,
          )
    ]
  where
    nothing : {A : Type 0} {d : A} → ¬ (none ≡ some d)
    nothing e = cc

-- The window of a conclusion, in the words of the conclusion.
pub conclude-during :
    (es : List Edge) (v i : Option ℕ) (t : ℕ)
    → intersect_validity es ≡ some (v, i)
    → (during v i t ≡ true) ↔ All (λ e. during e.valid_at e.invalid_at t ≡ true) es
conclude-during es v i t q = (
  (λ h. (intersect_validity-during es t).1 ((v, i), q, h)),
  (λ h.
      let (w, r, k) = (intersect_validity-during es t).0 h in
      subst (λ w. during w.0 w.1 t ≡ true) (some-injective _ _ (sym r ∙ q)) k),
)

module _ (relation : String) (edges : List Edge) (cap : ℕ) where
  add-IsCarried :
      (p : Trail) (ds : List Derivation) {more : List Derivation}
      → IsWalk edges p
      → (p.first.from_uid == p.last.to_uid) ≡ false
      → All (IsCarried edges) ds
      → add_conclusion relation edges p ds ≡ some more
      → All (IsCarried edges) more
  unfolding add_conclusion
  add-IsCarried p ds {more} walk apart all q =
      elim (Bool-cases (
        is_asserted edges p.first.from_uid p.last.to_uid
        || is_derived ds p.first.from_uid p.last.to_uid)) [
          | inl t ↦ absurd (nothing (rw (t, add_conclusion) at q))
          | inr t ↦
              elim (Option-cases (
                conclude relation "axiom_transitive" p.first.from_uid p.last.to_uid
                  p.first.from_label p.last.to_label p.chain)) [
                    | inl e ↦ absurd (nothing (rw (t, e, add_conclusion) at q))
                    | inr (d, e) ↦
                        let r = some-injective _ _ (rw (t, e, add_conclusion) at q) in
                        subst (λ ds. All (IsCarried edges) ds) r
                          (All-append (IsCarried edges) ds (d ∷ []) all
                            (carried d e (ground arith), tt))
                  ]
        ]
    where
      nothing : {A : Type 0} {d : A} → ¬ (none ≡ some d)
      nothing e = cc

      carried :
          (d : Derivation)
          → conclude relation "axiom_transitive" p.first.from_uid p.last.to_uid p.first.from_label
              p.last.to_label p.chain
            ≡ some d
          → is_asserted edges p.first.from_uid p.last.to_uid ≡ false
          → IsCarried edges d
      carried d e new =
          let (from, to, trust, window) =
            conclude-fields relation "axiom_transitive" p.first.from_uid p.last.to_uid
              p.first.from_label p.last.to_label p.chain e in
          record {
            first = p.first;
            last = p.last;
            chain = p.chain;
            walk = walk;
            subject = from;
            object = to;
            apart = λ same. ground (arith, eq_iff p.first.from_uid p.last.to_uid);
            unasserted = rw (from, to) new;
            window = λ t. conclude-during p.chain d.valid_at d.invalid_at t window;
            trust = rw trust (min_confidence-le p.chain);
          }

  AreCarried : Sweep → Type 0
  AreCarried (going ds next) = All (IsCarried edges) ds × All (IsWalk edges) next
  AreCarried (full ds) = All (IsCarried edges) ds

  extended :
      (p : Trail)
      → IsWalk edges p
      → All (IsWalk edges) (map (extend p) (by_source edges p.last.to_uid))
  extended p walk = All-to-map (IsWalk edges) (extend p) (by_source edges p.last.to_uid) (
      All-map (λ g h. onward g walk h.1 ((eq_iff g.from_uid p.last.to_uid).0 h.0))
        (by_source edges p.last.to_uid) (selected (leaves p.last.to_uid) edges))

  visit-AreCarried :
      (p : Trail) (s : Sweep)
      → IsWalk edges p
      → AreCarried s
      → AreCarried (visit relation edges cap p s)
  unfolding visit AreCarried
  visit-AreCarried p (full ds) walk h = h
  visit-AreCarried p (going ds next) walk h =
      elim (Bool-cases (p.first.from_uid == p.last.to_uid)) [
        | inl t ↦ rw (t, visit) h
        | inr t ↦ elim (Option-cases (add_conclusion relation edges p ds)) [
          | inl e ↦ rw (t, e, visit) (h.0, All-append (IsWalk edges) next _ h.1 (extended p walk))
          | inr (more, e) ↦ elim (Bool-cases (leb cap (length more))) [
            | inl u ↦ rw (t, e, u, visit) (add-IsCarried p ds walk t h.0 e)
            | inr u ↦
                rw (t, e, u, visit)
                  (
                    add-IsCarried p ds walk t h.0 e,
                    All-append (IsWalk edges) next _ h.1 (extended p walk),
                  )
          ]
        ]
      ]

  sweep-AreCarried :
      (ps : List Trail) (s : Sweep)
      → All (IsWalk edges) ps
      → AreCarried s
      → AreCarried (sweep relation edges cap ps s)
  unfolding sweep
  sweep-AreCarried [] s walks h = h
  sweep-AreCarried (p ∷ ps) s walks h =
      sweep-AreCarried ps (visit relation edges cap p s) walks.1 (visit-AreCarried p s walks.0 h)

  levels-IsCarried :
      (n : ℕ) (ps : List Trail) (ds : List Derivation)
      → All (IsWalk edges) ps
      → All (IsCarried edges) ds
      → All (IsCarried edges) (levels relation edges cap n ps ds).0
  unfolding levels AreCarried
  levels-IsCarried n [] ds walks h = h
  levels-IsCarried zero (p ∷ ps) ds walks h = h
  levels-IsCarried (suc n) (p ∷ ps) ds walks h =
      go (sweep relation edges cap (p ∷ ps) (going ds [])) refl
        (sweep-AreCarried (p ∷ ps) (going ds []) walks (h, tt))
        (λ more next k. levels-IsCarried n next more k.1 k.0)
    where
      go :
          (s : Sweep)
          → sweep relation edges cap (p ∷ ps) (going ds []) ≡ s
          → AreCarried s
          → ((more : List Derivation) (next : List Trail)
              → AreCarried (going more next)
              → All (IsCarried edges) (levels relation edges cap n next more).0)
          → All (IsCarried edges) (levels relation edges cap (suc n) (p ∷ ps) ds).0
      go (full more) e k deeper = rw (e, levels) k
      go (going more next) e k deeper = rw (e, levels) (deeper more next k)

starts-IsWalk :
    (edges es : List Edge) → All (λ e. Member e edges) es → All (IsWalk edges) (starts_of edges es)
unfolding starts_of
starts-IsWalk edges [] h = tt
starts-IsWalk edges (e ∷ es) h =
    All-append (IsWalk edges) _ (starts_of edges es)
      (All-to-map (IsWalk edges) (start_trail e) (by_source edges e.to_uid) (
        All-map (λ f k. pair h.0 k.1 ((eq_iff f.from_uid e.to_uid).0 k.0))
          (by_source edges e.to_uid) (selected (leaves e.to_uid) edges)))
      (starts-IsWalk edges es h.1)

-- Every edge that transitive_closure derives is carried by the asserted edges, whatever the
-- limits: a walk of asserted edges leads from its subject to its object, which differ and are not
-- joined by an asserted edge; it holds exactly at the moments at which all edges of the walk hold;
-- and its confidence is no greater than that of any of them.
pub transitive_closure-IsCarried :
    (relation : String) (edges : List Edge) (max_depth cap : ℕ)
    → All (IsCarried edges) (transitive_closure relation edges max_depth cap).0
unfolding transitive_closure
transitive_closure-IsCarried relation edges max_depth cap =
    levels-IsCarried relation edges cap _ (starts_of edges edges) []
      (starts-IsWalk edges edges (All-Member edges)) tt
