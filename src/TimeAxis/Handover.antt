-- ===== src/TimeAxis/Handover.antt =====
-- graph/semantics/time_axis.py: a fact and its successor on both clocks; the two forms of the live
-- test.
use neuron_kg.Prelude.{
  ltb, ℕ, ◌≤◌, String, ◌≡◌, ◌≢◌, refl, ap, Bool, true, false, not, Option, none, some, arith, ◌==◌,
  eq_iff, inl, inr, Bool-cases, if◌then◌else◌, ◌&&◌,
}
use neuron_kg.TimeAxis.{
  Stamp, blank, moment, parse_iso, parse_or, end_of, holds_point, holds_at, observed, held_at,
  FactState, is_live_fact, live_fact_cypher, or_live, coalesce_live, is_none,
}

-- A fact from s that gave way at c to its successor: at every moment from s on exactly one of the
-- two holds in the world, and of every moment from s on (or now) exactly one of the two was held.
pub handover :
    (s c t : ℕ) (temporal : String) (attested_from : Stamp)
    → s ≤ t
    → ((now : Bool) × (holds_at (moment s) (moment c) (some t) none temporal attested_from false
          ≡ some now)
        × (holds_at (moment c) blank (some t) none temporal attested_from false ≡ some (not now)))
      × ((now : Bool) × (held_at (moment s) (moment c) (some t) ≡ some now)
          × (held_at (moment c) blank (some t) ≡ some (not now)))
      × (held_at (moment s) (moment c) none ≡ some false)
      × (held_at (moment c) blank none ≡ some true)
unfolding holds_at held_at parse_iso parse_or end_of holds_point observed
handover s c t temporal attested from_s = elim (Bool-cases (ltb t c)) [
  | inl e ↦ ((true, ground arith, ground arith), (true, ground arith, ground arith), refl, refl)
  | inr e ↦ ((false, ground arith, ground arith), (false, ground arith, ground arith), refl, refl)
]

is_corrected : (o : Option String) → (or_live o == "corrected") ≡ (coalesce_live o == "corrected")
is_corrected none = refl
is_corrected (some s) = elim (Bool-cases (s == "")) [
  | inl e ↦ rw (e, (eq_iff s "").0 e) refl
  | inr e ↦ rw e refl
]

is_projected :
    (o : Option String) → o ≢ some "" → (or_live o == "live") ≡ (coalesce_live o == "live")
is_projected none n = refl
is_projected (some s) n = elim (Bool-cases (s == "")) [
  | inl e ↦ absurd (n (ap some ((eq_iff s "").0 e)))
  | inr e ↦ rw e refl
]

-- The test in Python and the test in Cypher agree on every edge, unless its projection status is
-- the empty text.
pub is_live_fact-cypher :
    (e : FactState) → e.projection_status ≢ some "" → is_live_fact e ≡ live_fact_cypher e
unfolding is_live_fact live_fact_cypher
is_live_fact-cypher e filled =
    let a = is_corrected e.assertion_status in
    let b = is_projected e.projection_status filled in
    rw (a, b)
      (combined (is_none e.invalid_at) (coalesce_live e.assertion_status == "corrected")
        (coalesce_live e.projection_status == "live"))
  where
    combined :
        (x y z : Bool)
        → (if not x then false else if y then false else if not z then false else true)
          ≡ (x && not y && z)
    combined x y z = ground arith
