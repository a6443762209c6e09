-- ===== src/Inference/Complete.antt =====
-- transitive_closure of graph/semantics/inference.py: what it reaches, against walks.
use mathlib.Core.Bool.{true≢false}
use mathlib.Core.Option.{some-injective}
use neuron_kg.Prelude.{
  ℕ, zero, suc, String, ◌≡◌, ◌≢◌, refl, sym, ap, subst, ◌∙◌, Bool, true, false, ◌||◌, none, some,
  List, [], ◌∷◌, ◌++◌, map, arith, inl, inr, Bool-cases, Option-cases, Member, here, there,
  not-Member-nil, leb, length, ◌==◌, eq_iff, eq_refl,
}
use neuron_kg.Prelude.Rows.{Member-left, Member-right, Member-map, Member-select}
use neuron_kg.Inference.{
  Edge, Derivation, Trail, intersect_validity, conclude, is_asserted, is_derived, leaves, by_source,
  start_trail, extend, starts_of, Sweep, going, full, add_conclusion, visit, sweep, levels,
  transitive_closure,
}
use neuron_kg.Inference.Sound.{conclude-fields}

-- A walk of asserted edges that does not come back to where it started.
pub data Straight (edges : List Edge) (e : Edge) : Edge → List Edge → Type 0 where
  pair :
      {f : Edge}
      → Member e edges
      → Member f edges
      → f.from_uid ≡ e.to_uid
      → e.from_uid ≢ f.to_uid
      → Straight edges e f (e ∷ f ∷ [])
  onward :
      {f : Edge} {chain : List Edge} (g : Edge)
      → Straight edges e f chain
      → Member g edges
      → g.from_uid ≡ f.to_uid
      → e.from_uid ≢ g.to_uid
      → Straight edges e g (chain ++ g ∷ [])

abbrev loops : Trail → Bool
loops p = p.first.from_uid == p.last.to_uid

-- The pair of a trail whose edges can all hold at once is asserted or derived.
Covers : List Edge → List Derivation → Trail → Type 0
Covers edges ds p =
    intersect_validity p.chain ≢ none
    → (is_asserted edges p.first.from_uid p.last.to_uid
        || is_derived ds p.first.from_uid p.last.to_uid)
      ≡ true

-- q comes from p by edges that leave open trails.
data Leads (edges : List Edge) : Trail → Trail → Type 0 where
  same : {p q : Trail} → p ≡ q → Leads edges p q
  step :
      {p q : Trail} (g : Edge)
      → loops p ≡ false
      → Member g edges
      → g.from_uid ≡ p.last.to_uid
      → Leads edges (extend p g) q
      → Leads edges p q

Leads-onward :
    {edges : List Edge} {p q : Trail} (g : Edge)
    → Leads edges p q
    → loops q ≡ false
    → Member g edges
    → g.from_uid ≡ q.last.to_uid
    → Leads edges p (extend q g)
Leads-onward g (same r) l m e =
    step g (subst (λ q. loops q ≡ false) (sym r) l) m (e ∙ ap (λ q. q.last.to_uid) (sym r))
      (same (ap (λ q. extend q g) r))
Leads-onward g (step h k n f rest) l m e = step h k n f (Leads-onward g rest l m e)

not-equal : (a b : String) → a ≢ b → (a == b) ≡ false
not-equal a b n = elim (Bool-cases (a == b)) [ inl t ↦ absurd (n ((eq_iff a b).0 t)) | inr t ↦ t ]

is_derived-append :
    (ds es : List Derivation) (a b : String)
    → is_derived ds a b ≡ true
    → is_derived (ds ++ es) a b ≡ true
is_derived-append [] es a b h = absurd (ground arith)
is_derived-append (d ∷ ds) es a b h = ground (arith, is_derived-append ds es a b)

is_derived-last :
    (ds : List Derivation) (d : Derivation) → is_derived (ds ++ d ∷ []) d.from_uid d.to_uid ≡ true
is_derived-last [] d = ground (arith, eq_refl d.from_uid, eq_refl d.to_uid)
is_derived-last (e ∷ ds) d = ground (arith, is_derived-last ds d)

module _ (relation : String) (edges : List Edge) (cap : ℕ) where
  -- A new conclusion covers its trail and leaves the earlier ones.
  add-Covers :
      (p : Trail) (ds : List Derivation)
      → ((a b : String)
          → is_derived ds a b ≡ true
          → (more : List Derivation) → add_conclusion relation edges p ds ≡ some more
          → is_derived more a b ≡ true)
        × ((more : List Derivation)
            → add_conclusion relation edges p ds ≡ some more
            → Covers edges more p)
        × (add_conclusion relation edges p ds ≡ none → Covers edges ds p)
  unfolding add_conclusion Covers conclude
  add-Covers p ds =
      elim (Bool-cases (
        is_asserted edges p.first.from_uid p.last.to_uid
        || is_derived ds p.first.from_uid p.last.to_uid)) [
          | inl t ↦ (
            (λ a b h more q. absurd (nothing (rw (t, add_conclusion) at q))),
            (λ more q. absurd (nothing (rw (t, add_conclusion) at q))),
            (λ q holds. t),
          )
          | inr t ↦
              elim (Option-cases (
                conclude relation "axiom_transitive" p.first.from_uid p.last.to_uid
                  p.first.from_label p.last.to_label p.chain)) [
                    | inl e ↦ (
                      (λ a b h more q. absurd (nothing (rw (t, e, add_conclusion) at q))),
                      (λ more q. absurd (nothing (rw (t, e, add_conclusion) at q))),
                      (λ q holds. absurd (
                          holds (
                            no_window p.first.from_uid p.last.to_uid p.first.from_label
                              p.last.to_label p.chain e))),
                    )
                    | inr (d, e) ↦
                        let (from, to, _, _) =
                          conclude-fields relation "axiom_transitive" p.first.from_uid p.last.to_uid
                            p.first.from_label p.last.to_label p.chain e in
                        (
                          (λ a b h more q.
                              subst (λ ds. is_derived ds a b ≡ true)
                                (some-injective _ _ (rw (t, e, add_conclusion) at q))
                                (is_derived-append ds (d ∷ []) a b h)),
                          (λ more q holds.
                              let k : is_derived more p.first.from_uid p.last.to_uid ≡ true =
                                subst (λ ds. is_derived ds p.first.from_uid p.last.to_uid ≡ true)
                                  (some-injective _ _ (rw (t, e, add_conclusion) at q))
                                  (rw (sym from, sym to) (is_derived-last ds d)) in
                              ground arith),
                          (λ q. absurd (nothing (sym (rw (t, e, add_conclusion) at q)))),
                        )
                  ]
        ]
    where
      nothing : {A : Type 0} {d : A} → ¬ (none ≡ some d)
      nothing e = cc

      no_window :
          (from to from_label to_label : String) (es : List Edge)
          → conclude relation "axiom_transitive" from to from_label to_label es ≡ none
          → intersect_validity es ≡ none
      no_window from to from_label to_label es e = elim (Option-cases (intersect_validity es)) [
        | inl q ↦ q
        | inr (w, q) ↦ absurd (nothing (sym (rw (q, conclude) at e)))
      ]

  -- What one state of the inner loop has that a later one keeps.
  Keeps : Sweep → Sweep → Type 0
  Keeps (going ds next) (going more further) =
      ((a b : String) → is_derived ds a b ≡ true → is_derived more a b ≡ true)
      × ((q : Trail) → Member q next → Member q further)
  Keeps (full ds) (going more further) = ⊥
  Keeps s (full more) = Unit

  Keeps-trans : (r s t : Sweep) → Keeps r s → Keeps s t → Keeps r t
  unfolding Keeps
  Keeps-trans r s (full ds) h k = tt
  Keeps-trans (going a b) (going c d) (going e f) h k =
      ((λ x y i. k.0 x y (h.0 x y i)), (λ q m. k.1 q (h.1 q m)))
  Keeps-trans (full a) (going c d) (going e f) h k = absurd h
  Keeps-trans r (full a) (going e f) h k = absurd k

  -- What the inner loop has done for a trail once it has visited it.
  Done : Trail → Sweep → Type 0
  Done p (going ds next) =
      loops p ≡ false
      → Covers edges ds p
        × ((g : Edge) → Member g edges → g.from_uid ≡ p.last.to_uid → Member (extend p g) next)
  Done p (full ds) = Unit

  visit-Keeps :
      (p : Trail) (s : Sweep)
      → Keeps s (visit relation edges cap p s) × Done p (visit relation edges cap p s)
  unfolding visit Keeps Done
  visit-Keeps p (full ds) = (tt, tt)
  visit-Keeps p (going ds next) = elim (Bool-cases (loops p)) [
    | inl t ↦
        rw (t, visit) (((λ a b h. h), (λ q m. m)), λ apart. absurd (true≢false (sym t ∙ apart)))
    | inr t ↦ elim (Option-cases (add_conclusion relation edges p ds)) [
      | inl e ↦
          rw (t, e, visit)
            (
              ((λ a b h. h), (λ q m. Member-left next _ m)),
              (λ apart. ((add-Covers p ds).2 e, extensions)),
            )
      | inr (more, e) ↦ elim (Bool-cases (leb cap (length more))) [
        | inl u ↦ rw (t, e, u, visit) (tt, tt)
        | inr u ↦
            rw (t, e, u, visit)
              (
                ((λ a b h. (add-Covers p ds).0 a b h more e), (λ q m. Member-left next _ m)),
                (λ apart. ((add-Covers p ds).1 more e, extensions)),
              )
      ]
    ]
  ]
    where
      extensions :
          (g : Edge)
          → Member g edges
          → g.from_uid ≡ p.last.to_uid
          → Member (extend p g) (next ++ map (extend p) (by_source edges p.last.to_uid))
      extensions g m e = Member-right next _ (
          Member-map (extend p) (by_source edges p.last.to_uid)
            (Member-select (leaves p.last.to_uid) edges ((eq_iff g.from_uid p.last.to_uid).1 e) m))

  Covers-Keeps :
      (p : Trail) (ds more : List Derivation)
      → ((a b : String) → is_derived ds a b ≡ true → is_derived more a b ≡ true)
      → Covers edges ds p
      → Covers edges more p
  unfolding Covers
  Covers-Keeps p ds more keep h holds =
      let k = h holds in
      elim (Bool-cases (is_derived ds p.first.from_uid p.last.to_uid)) [
        | inl t ↦ let u = keep p.first.from_uid p.last.to_uid t in ground arith
        | inr t ↦ ground arith
      ]

  Done-Keeps : (p : Trail) (s t : Sweep) → Keeps s t → Done p s → Done p t
  unfolding Keeps Done
  Done-Keeps p s (full ds) k d = tt
  Done-Keeps p (full a) (going more further) k d = absurd k
  Done-Keeps p (going ds next) (going more further) k d = λ apart.
      let (cover, ext) = d apart in
      (Covers-Keeps p ds more k.0 cover, λ g m e. k.1 (extend p g) (ext g m e))

  sweep-Keeps : (ps : List Trail) (s : Sweep) → Keeps s (sweep relation edges cap ps s)
  unfolding sweep Keeps
  sweep-Keeps [] (going ds next) = ((λ a b h. h), (λ q m. m))
  sweep-Keeps [] (full ds) = tt
  sweep-Keeps (p ∷ ps) s =
      Keeps-trans s (visit relation edges cap p s) _ (visit-Keeps p s).0
        (sweep-Keeps ps (visit relation edges cap p s))

  sweep-Done :
      {p : Trail} (ps : List Trail) (s : Sweep)
      → Member p ps
      → Done p (sweep relation edges cap ps s)
  unfolding sweep
  sweep-Done [] s m = absurd (not-Member-nil m)
  sweep-Done {p} (q ∷ ps) s (here e) =
      subst (λ p. Done p (sweep relation edges cap ps (visit relation edges cap q s))) (sym e)
        (Done-Keeps q (visit relation edges cap q s) _
          (sweep-Keeps ps (visit relation edges cap q s)) (visit-Keeps q s).1)
  sweep-Done (q ∷ ps) s (there m) = sweep-Done ps (visit relation edges cap q s) m

  levels-keeps :
      (n : ℕ) (ps : List Trail) (ds : List Derivation)
      → (levels relation edges cap n ps ds).1 ≡ false
      → (a b : String) → is_derived ds a b ≡ true
      → is_derived (levels relation edges cap n ps ds).0 a b ≡ true
  unfolding levels Keeps Done
  levels-keeps n [] ds e a b h = h
  levels-keeps zero (p ∷ ps) ds e a b h = absurd (true≢false e)
  levels-keeps (suc n) (p ∷ ps) ds e a b h =
      go (sweep relation edges cap (p ∷ ps) (going ds [])) refl (sweep-Keeps (p ∷ ps) (going ds []))
        (λ more next k. levels-keeps n next more k a b)
    where
      go :
          (s : Sweep)
          → sweep relation edges cap (p ∷ ps) (going ds []) ≡ s
          → Keeps (going ds []) s
          → ((more : List Derivation) (next : List Trail)
              → (levels relation edges cap n next more).1 ≡ false
              → is_derived more a b ≡ true
              → is_derived (levels relation edges cap n next more).0 a b ≡ true)
          → is_derived (levels relation edges cap (suc n) (p ∷ ps) ds).0 a b ≡ true
      go (full more) q k deeper = absurd (true≢false (rw (q, levels) at e))
      go (going more next) q k deeper =
          rw (q, levels) (deeper more next (rw (q, levels) at e) (k.0 a b h))

  levels-Covers :
      (n : ℕ) (ps : List Trail) (ds : List Derivation) (p q : Trail)
      → (levels relation edges cap n ps ds).1 ≡ false
      → Member p ps
      → Leads edges p q
      → loops q ≡ false
      → Covers edges (levels relation edges cap n ps ds).0 q
  unfolding levels Keeps Done
  levels-Covers n [] ds p q e m leads apart = absurd (not-Member-nil m)
  levels-Covers zero (r ∷ ps) ds p q e m leads apart = absurd (true≢false e)
  levels-Covers (suc n) (r ∷ ps) ds p q e m leads apart =
      go (sweep relation edges cap (r ∷ ps) (going ds [])) refl
        (sweep-Done (r ∷ ps) (going ds []) m) leads
        (λ more next p k m leads. levels-Covers n next more p q k m leads apart)
    where
      go :
          (s : Sweep)
          → sweep relation edges cap (r ∷ ps) (going ds []) ≡ s
          → Done p s
          → Leads edges p q
          → ((more : List Derivation) (next : List Trail) (p : Trail)
              → (levels relation edges cap n next more).1 ≡ false
              → Member p next
              → Leads edges p q
              → Covers edges (levels relation edges cap n next more).0 q)
          → Covers edges (levels relation edges cap (suc n) (r ∷ ps) ds).0 q
      go (full more) f d leads deeper = absurd (true≢false (rw (f, levels) at e))
      go (going more next) f d (same r) deeper =
          let stopped : (levels relation edges cap n next more).1 ≡ false = rw (f, levels) at e in
          rw (f, levels)
            (Covers-Keeps q more _ (levels-keeps n next more stopped) (
              subst (λ q. Covers edges more q) r
                (d (subst (λ q. loops q ≡ false) (sym r) apart)).0))
      go (going more next) f d (step g l k c rest) deeper =
          rw (f, levels) (deeper more next (extend p g) (rw (f, levels) at e) ((d l).1 g k c) rest)

starts-Member :
    (edges es : List Edge) {e f : Edge}
    → Member e es
    → Member f edges
    → f.from_uid ≡ e.to_uid
    → Member (start_trail e f) (starts_of edges es)
unfolding starts_of
starts-Member edges [] m n e = absurd (not-Member-nil m)
starts-Member edges (x ∷ es) {e} {f} (here q) n link = Member-left _ (starts_of edges es) (
    subst (λ y. Member (start_trail y f) (map (start_trail x) (by_source edges x.to_uid))) (sym q)
      (Member-map (start_trail x) (by_source edges x.to_uid) (
        Member-select (leaves x.to_uid) edges
          ((eq_iff f.from_uid x.to_uid).1 (link ∙ ap (λ y. y.to_uid) q)) n)))
starts-Member edges (x ∷ es) (there m) n link =
    Member-right (map (start_trail x) (by_source edges x.to_uid)) _
      (starts-Member edges es m n link)

abbrev trail : Edge → Edge → List Edge → Trail
trail e f chain = record { first = e; last = f; chain = chain }

-- A straight walk is open, and the start of the search leads to it.
Straight-Leads :
    {edges : List Edge} {e f : Edge} {chain : List Edge}
    → Straight edges e f chain
    → (loops (trail e f chain) ≡ false)
      × ((p : Trail) × Member p (starts_of edges edges) × Leads edges p (trail e f chain))
Straight-Leads {edges} {e} {f} (pair m n link apart) = (
  not-equal e.from_uid f.to_uid apart,
  (start_trail e f, starts-Member edges edges m n link, same refl),
)
Straight-Leads {e = e} (onward g walk m link apart) =
    let (unlooped, (p, k, leads)) = Straight-Leads walk in
    (not-equal e.from_uid g.to_uid apart, (p, k, Leads-onward g leads unlooped m link))

-- Where transitive_closure reports no limit, it misses nothing: the ends of every straight walk of
-- asserted edges that can all hold at once are joined by an asserted or a derived edge.
pub transitive_closure_complete :
    (relation : String) (edges : List Edge) (max_depth cap : ℕ) {e f : Edge} {chain : List Edge}
    → (transitive_closure relation edges max_depth cap).1 ≡ false
    → Straight edges e f chain
    → intersect_validity chain ≢ none
    → (is_asserted edges e.from_uid f.to_uid
        || is_derived (transitive_closure relation edges max_depth cap).0 e.from_uid f.to_uid)
      ≡ true
unfolding transitive_closure Covers
transitive_closure_complete relation edges max_depth most stopped walk holds =
    let (apart, (p, m, leads)) = Straight-Leads walk in
    levels-Covers relation edges most _ (starts_of edges edges) [] p _ stopped m leads apart holds
