-- ===== src/Inference/Validity.antt =====
-- The validity and the confidence of a conclusion against those of its premises.
use mathlib.Core.Bool.{true≢false}
use mathlib.Core.Option.{some-injective}
use neuron_kg.Prelude.{
  ℕ, ◌≤◌, ◌≡◌, ◌↔◌, refl, sym, subst, ◌∙◌, Bool, true, false, ◌&&◌, Option, none, some, List, [],
  ◌∷◌, arith, inl, inr, Bool-cases, All, All-map,
}
use neuron_kg.TimeAxis.{starts_by, ends_after}
use neuron_kg.Inference.{
  Edge, later, sooner, latest_start, earliest_end, is_empty, intersect_validity, min_confidence,
}

-- t is in the window [start, end), an absent end of which is open.
abbrev pub during : Option ℕ → Option ℕ → ℕ → Bool
during start end t = starts_by start t && ends_after end t

later-starts : (a b : Option ℕ) (t : ℕ) → starts_by (later a b) t ≡ (starts_by a t && starts_by b t)
later-starts none b t = refl
later-starts (some a) none t = ground arith
later-starts (some a) (some b) t = ground arith

sooner-ends :
    (a b : Option ℕ) (t : ℕ) → ends_after (sooner a b) t ≡ (ends_after a t && ends_after b t)
sooner-ends none b t = refl
sooner-ends (some a) none t = ground arith
sooner-ends (some a) (some b) t = ground arith

window-premises :
    (es : List Edge) (t : ℕ)
    → (during (latest_start es) (earliest_end es) t ≡ true)
      ↔ All (λ e. during e.valid_at e.invalid_at t ≡ true) es
unfolding latest_start earliest_end
window-premises [] t = ((λ h. tt), (λ h. refl))
window-premises (e ∷ es) t =
    let rest = window-premises es t in
    rw (later-starts e.valid_at (latest_start es) t, sooner-ends e.invalid_at (earliest_end es) t)
      (
        (λ h. (ground arith, rest.0 (ground arith))),
        (λ h. let k = rest.1 h.1 in let l = h.0 in ground arith),
      )

during-empty : (v i : Option ℕ) (t : ℕ) → is_empty v i ≡ true → during v i t ≡ false
during-empty none i t e = absurd (ground arith)
during-empty (some v) none t e = absurd (ground arith)
during-empty (some v) (some i) t e = ground arith

-- A moment is in the window that intersect_validity computes exactly when every premise holds
-- then; where it computes none, there is no such moment.
pub intersect_validity-during :
    (es : List Edge) (t : ℕ)
    → All (λ e. during e.valid_at e.invalid_at t ≡ true) es
      ↔ ((w : Option ℕ × Option ℕ) × (intersect_validity es ≡ some w) × (during w.0 w.1 t ≡ true))
unfolding intersect_validity
intersect_validity-during es t = elim (Bool-cases (is_empty (latest_start es) (earliest_end es))) [
  | inl e ↦ (
    (λ h. absurd (
        true≢false (
          sym ((window-premises es t).1 h)
          ∙ during-empty (latest_start es) (earliest_end es) t e))),
    (λ h. let (w, q, k) = h in absurd (none≢some (rw e at q))),
  )
  | inr e ↦ (
    (λ h. ((latest_start es, earliest_end es), rw e refl, (window-premises es t).1 h)),
    (λ h. let (w, q, k) = h in (window-premises es t).0 (window q e k)),
  )
]
  where
    none≢some : {w : Option ℕ × Option ℕ} → ¬ (none ≡ some w)
    none≢some q = cc

    window :
        {w : Option ℕ × Option ℕ}
        → intersect_validity es ≡ some w
        → is_empty (latest_start es) (earliest_end es) ≡ false
        → during w.0 w.1 t ≡ true
        → during (latest_start es) (earliest_end es) t ≡ true
    window {w} q e k =
        let r : some (latest_start es, earliest_end es) ≡ some w =
          rw (e, intersect_validity) at q in
        subst (λ w. during w.0 w.1 t ≡ true) (sym (some-injective _ _ r)) k

-- A conclusion is no more trusted than any of its premises.
pub min_confidence-le : (es : List Edge) → All (λ e. min_confidence es ≤ e.confidence) es
unfolding min_confidence
min_confidence-le [] = tt
min_confidence-le (e ∷ []) = (omega arith, tt)
min_confidence-le (e ∷ f ∷ es) =
    (omega arith, All-map (λ g h. omega arith) (f ∷ es) (min_confidence-le (f ∷ es)))
