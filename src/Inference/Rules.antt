-- ===== src/Inference/Rules.antt =====
-- The rules with one premise: symmetric_closure, inverse_edges and sub_property_edges.
use mathlib.Core.Bool.{true≢false}
use mathlib.Core.Option.{some-injective, none-ne-some}
use neuron_kg.Prelude.{
  ℕ, ◌<◌, String, ◌≡◌, ◌≢◌, refl, sym, ap, subst, ◌∙◌, true, false, ◌||◌, Option, none, some, List,
  [], ◌∷◌, arith, inl, inr, is_some, Bool-cases, Option-cases, All, All-map, Any, here, there, ◌==◌,
  eq_iff,
}
use neuron_kg.Inference.{
  Edge, Derivation, latest_start, earliest_end, is_empty, intersect_validity, min_confidence,
  conclude, is_asserted, add_some, symmetric_from, symmetric_closure, inverse_edges,
  sub_property_edges,
}
use neuron_kg.Inference.Validity.{during, intersect_validity-during}

-- A conclusion of a rule from the edge `e` alone: it has the relation, the rule and the ends given,
-- the window of `e`, which is not empty, and its confidence.
pub record Follows (r by a b la lb : String) (e : Edge) (d : Derivation) : Type 0 where
  pub relation : d.relation ≡ r
  pub rule : d.rule ≡ by
  pub from_uid : d.from_uid ≡ a
  pub to_uid : d.to_uid ≡ b
  pub from_label : d.from_label ≡ la
  pub to_label : d.to_label ≡ lb
  pub valid_at : d.valid_at ≡ e.valid_at
  pub invalid_at : d.invalid_at ≡ e.invalid_at
  pub not_empty : (s t : ℕ) → e.valid_at ≡ some s → e.invalid_at ≡ some t → s < t
  pub confidence : d.confidence ≡ e.confidence

-- The edge turned round.
abbrev pub Reverses : String → String → Edge → Derivation → Type 0
Reverses relation rule e d = Follows relation rule e.to_uid e.from_uid e.to_label e.from_label e d

-- The edge under another relation.
abbrev pub Repeats : String → String → Edge → Derivation → Type 0
Repeats relation rule e d = Follows relation rule e.from_uid e.to_uid e.from_label e.to_label e d

abbrev pub HoldsAt : ℕ → Edge → Type 0
HoldsAt t e = during e.valid_at e.invalid_at t ≡ true

latest_start-one : (e : Edge) → latest_start (e ∷ []) ≡ e.valid_at
unfolding latest_start
latest_start-one e = elim (Option-cases e.valid_at) [ inl q ↦ rw q refl | inr (a, q) ↦ rw q refl ]

earliest_end-one : (e : Edge) → earliest_end (e ∷ []) ≡ e.invalid_at
unfolding earliest_end
earliest_end-one e = elim (Option-cases e.invalid_at) [ inl q ↦ rw q refl | inr (a, q) ↦ rw q refl ]

module _ (relation rule from to from_label to_label : String) (e : Edge) where
  -- What _conclude gives for the one premise.
  conclude-Follows :
      {d : Derivation}
      → conclude relation rule from to from_label to_label (e ∷ []) ≡ some d
      → Follows relation rule from to from_label to_label e d
  unfolding conclude intersect_validity min_confidence
  conclude-Follows {d} q =
      elim (Bool-cases (is_empty (latest_start (e ∷ [])) (earliest_end (e ∷ [])))) [
        | inl t ↦ absurd (none-ne-some _ (rw (conclude, intersect_validity, t) at q))
        | inr t ↦
            let r = some-injective _ _ (rw (conclude, intersect_validity, t) at q) in
            record {
              relation = ap (λ x. x.relation) (sym r);
              rule = ap (λ x. x.rule) (sym r);
              from_uid = ap (λ x. x.from_uid) (sym r);
              to_uid = ap (λ x. x.to_uid) (sym r);
              from_label = ap (λ x. x.from_label) (sym r);
              to_label = ap (λ x. x.to_label) (sym r);
              valid_at = ap (λ x. x.valid_at) (sym r) ∙ latest_start-one e;
              invalid_at = ap (λ x. x.invalid_at) (sym r) ∙ earliest_end-one e;
              not_empty =
                  λ a b p s. ordered a b p s (rw (latest_start-one e, earliest_end-one e) at t);
              confidence = ap (λ x. x.confidence) (sym r);
            }
      ]
    where
      ordered :
          (a b : ℕ)
          → e.valid_at ≡ some a
          → e.invalid_at ≡ some b
          → is_empty e.valid_at e.invalid_at ≡ false
          → a < b
      ordered a b p s t =
          let u : is_empty (some a) (some b) ≡ false = rw (p, s) at t in ground arith

  -- A premise that holds at some moment has a conclusion.
  conclude-some :
      (t : ℕ)
      → HoldsAt t e
      → (d : Derivation) × (conclude relation rule from to from_label to_label (e ∷ []) ≡ some d)
  unfolding conclude
  conclude-some t h =
      let (w, q, _) = (intersect_validity-during (e ∷ []) t).0 (h, tt) in
      elim (Option-cases (conclude relation rule from to from_label to_label (e ∷ []))) [
        | inl n ↦
            let k : is_some (conclude relation rule from to from_label to_label (e ∷ [])) ≡ true =
              rw (conclude, q) refl in
            absurd (true≢false (sym k ∙ ap is_some n))
        | inr x ↦ x
      ]

-- The conclusions of some edges, each of which a rule leaves out or puts before the rest.
module _ {κ} (P : Derivation → Type κ) where
  add_some-All :
      (o : Option Derivation) (ds : List Derivation)
      → ((d : Derivation) → o ≡ some d → P d)
      → All P ds
      → All P (add_some o ds)
  add_some-All none ds h k = k
  add_some-All (some d) ds h k = (h d refl, k)

  add_some-later : (o : Option Derivation) (ds : List Derivation) → Any P ds → Any P (add_some o ds)
  add_some-later none ds k = k
  add_some-later (some d) ds k = there k

  add_some-first :
      (o : Option Derivation) (ds : List Derivation) {d : Derivation}
      → o ≡ some d
      → P d
      → Any P (add_some o ds)
  add_some-first none ds q p = absurd (none-ne-some _ q)
  add_some-first (some c) ds q p = here (subst P (sym (some-injective _ _ q)) p)

inverse-derives :
    (inverse : String) (es : List Edge)
    → All
        (λ e.
          (t : ℕ)
          → HoldsAt t e
          → Any (Reverses inverse "axiom_inverse" e) (inverse_edges inverse es))
        es
unfolding inverse_edges
inverse-derives inverse [] = tt
inverse-derives inverse (e ∷ es) = (
  (λ t h.
      let (d, q) =
        conclude-some inverse "axiom_inverse" e.to_uid e.from_uid e.to_label e.from_label e t h in
      add_some-first (Reverses inverse "axiom_inverse" e) _ (inverse_edges inverse es) q
        (conclude-Follows inverse "axiom_inverse" e.to_uid e.from_uid e.to_label e.from_label e q)),
  All-map
      (λ f h t k.
        add_some-later (Reverses inverse "axiom_inverse" f) _ (inverse_edges inverse es) (h t k))
      es (inverse-derives inverse es),
)

inverse-follows :
    (inverse : String) (es : List Edge)
    → All (λ d. Any (λ e. Reverses inverse "axiom_inverse" e d) es) (inverse_edges inverse es)
unfolding inverse_edges
inverse-follows inverse [] = tt
inverse-follows inverse (e ∷ es) =
    add_some-All (λ d. Any (λ x. Reverses inverse "axiom_inverse" x d) (e ∷ es)) _
      (inverse_edges inverse es)
      (λ d q.
        here (
          conclude-Follows inverse "axiom_inverse" e.to_uid e.from_uid e.to_label e.from_label e q))
      (All-map (λ d k. there k) (inverse_edges inverse es) (inverse-follows inverse es))

sub_property-derives :
    (parent : String) (es : List Edge)
    → All
        (λ e.
          (t : ℕ)
          → HoldsAt t e
          → Any (Repeats parent "axiom_sub_property" e) (sub_property_edges parent es))
        es
unfolding sub_property_edges
sub_property-derives parent [] = tt
sub_property-derives parent (e ∷ es) = (
  (λ t h.
      let (d, q) =
        conclude-some parent "axiom_sub_property" e.from_uid e.to_uid e.from_label e.to_label e t
          h in
      add_some-first (Repeats parent "axiom_sub_property" e) _ (sub_property_edges parent es) q (
        conclude-Follows parent "axiom_sub_property" e.from_uid e.to_uid e.from_label e.to_label e
          q)),
  All-map
      (λ f h t k.
        add_some-later (Repeats parent "axiom_sub_property" f) _ (sub_property_edges parent es)
          (h t k))
      es (sub_property-derives parent es),
)

sub_property-follows :
    (parent : String) (es : List Edge)
    → All
        (λ d. Any (λ e. Repeats parent "axiom_sub_property" e d) es)
        (sub_property_edges parent es)
unfolding sub_property_edges
sub_property-follows parent [] = tt
sub_property-follows parent (e ∷ es) =
    add_some-All (λ d. Any (λ x. Repeats parent "axiom_sub_property" x d) (e ∷ es)) _
      (sub_property_edges parent es)
      (λ d q. here (
        conclude-Follows parent "axiom_sub_property" e.from_uid e.to_uid e.from_label e.to_label e
          q))
      (All-map (λ d k. there k) (sub_property_edges parent es) (sub_property-follows parent es))

module _ (relation : String) (edges : List Edge) where
  symmetric-derives :
      (es : List Edge)
      → All
          (λ e.
            (t : ℕ)
            → HoldsAt t e
            → e.from_uid ≢ e.to_uid
            → is_asserted edges e.to_uid e.from_uid ≡ false
            → Any (Reverses relation "axiom_symmetric" e) (symmetric_from relation edges es))
          es
  unfolding symmetric_from
  symmetric-derives [] = tt
  symmetric-derives (e ∷ es) = (
    (λ t h apart new.
        let go : (is_asserted edges e.to_uid e.from_uid || e.from_uid == e.to_uid) ≡ false =
          ground (arith, eq_iff e.from_uid e.to_uid) in
        let (d, q) =
          conclude-some relation "axiom_symmetric" e.to_uid e.from_uid e.to_label e.from_label e t
            h in
        rw (go, symmetric_from)
          (add_some-first (Reverses relation "axiom_symmetric" e) _
            (symmetric_from relation edges es) q
            (conclude-Follows relation "axiom_symmetric" e.to_uid e.from_uid e.to_label e.from_label
              e q))),
    All-map (λ f h t k apart new. later f (h t k apart new)) es (symmetric-derives es),
  )
    where
      later :
          (f : Edge)
          → Any (Reverses relation "axiom_symmetric" f) (symmetric_from relation edges es)
          → Any (Reverses relation "axiom_symmetric" f) (symmetric_from relation edges (e ∷ es))
      later f h =
          elim (Bool-cases (is_asserted edges e.to_uid e.from_uid || e.from_uid == e.to_uid)) [
            | inl t ↦ rw (t, symmetric_from) h
            | inr t ↦
                rw (t, symmetric_from)
                  (add_some-later (Reverses relation "axiom_symmetric" f) _
                    (symmetric_from relation edges es) h)
          ]

  -- What symmetric_closure derives is new and joins two nodes.
  abbrev pub IsNew : Derivation → Type 0
  IsNew d = (d.from_uid ≢ d.to_uid) × (is_asserted edges d.from_uid d.to_uid ≡ false)

  symmetric-follows :
      (es : List Edge)
      → All
          (λ d. Any (λ e. Reverses relation "axiom_symmetric" e d) es × IsNew d)
          (symmetric_from relation edges es)
  unfolding symmetric_from
  symmetric-follows [] = tt
  symmetric-follows (e ∷ es) =
      let rest =
        All-map (λ d k. (there {x = e} k.0, k.1)) (symmetric_from relation edges es)
          (symmetric-follows es) in
      elim (Bool-cases (is_asserted edges e.to_uid e.from_uid || e.from_uid == e.to_uid)) [
        | inl t ↦ rw (t, symmetric_from) rest
        | inr t ↦
            rw (t, symmetric_from)
              (add_some-All
                (λ d. Any (λ x. Reverses relation "axiom_symmetric" x d) (e ∷ es) × IsNew d) _
                (symmetric_from relation edges es)
                (λ d q.
                  let f =
                    conclude-Follows relation "axiom_symmetric" e.to_uid e.from_uid e.to_label
                      e.from_label e q in
                  (here f, fresh d f t))
                rest)
      ]
    where
      fresh :
          (d : Derivation)
          → Reverses relation "axiom_symmetric" e d
          → (is_asserted edges e.to_uid e.from_uid || e.from_uid == e.to_uid) ≡ false
          → IsNew d
      fresh d f t = (
        (λ same.
            let loop : e.from_uid ≡ e.to_uid = sym f.to_uid ∙ (sym same ∙ f.from_uid) in
            absurd (ground (arith, eq_iff e.from_uid e.to_uid))),
        rw (f.from_uid, f.to_uid) (ground arith),
      )

-- Every edge that holds at some moment is turned round by inverse_edges, repeated under the parent
-- by sub_property_edges, and turned round by symmetric_closure where its ends differ and the
-- reversed pair is not asserted. And nothing else is derived: each conclusion is that of an edge,
-- with the relation, the rule and the ends that its function promises, and with the window of the
-- edge, which is not empty, and its confidence; one of symmetric_closure joins two nodes that no
-- edge joins in that direction.
pub rules_cover :
    (relation inverse parent : String) (edges : List Edge)
    → All
        (λ e.
          (t : ℕ)
          → HoldsAt t e
          → Any (Reverses inverse "axiom_inverse" e) (inverse_edges inverse edges))
        edges
      × All
          (λ e.
            (t : ℕ)
            → HoldsAt t e
            → Any (Repeats parent "axiom_sub_property" e) (sub_property_edges parent edges))
          edges
      × All
          (λ e.
            (t : ℕ)
            → HoldsAt t e
            → e.from_uid ≢ e.to_uid
            → is_asserted edges e.to_uid e.from_uid ≡ false
            → Any (Reverses relation "axiom_symmetric" e) (symmetric_closure relation edges))
          edges
      × All
          (λ d. Any (λ e. Reverses inverse "axiom_inverse" e d) edges)
          (inverse_edges inverse edges)
      × All
          (λ d. Any (λ e. Repeats parent "axiom_sub_property" e d) edges)
          (sub_property_edges parent edges)
      × All
          (λ d. Any (λ e. Reverses relation "axiom_symmetric" e d) edges × IsNew relation edges d)
          (symmetric_closure relation edges)
unfolding symmetric_closure
rules_cover relation inverse parent edges = (
  inverse-derives inverse edges,
  sub_property-derives parent edges,
  symmetric-derives relation edges edges,
  inverse-follows inverse edges,
  sub_property-follows parent edges,
  symmetric-follows relation edges edges,
)
