-- ===== src/TimeAxis/Tests.antt =====
-- Facts of July and August at small times.
use neuron_kg.Prelude.{
  ℕ, ◌≤◌, ◌<◌, ◌≡◌, ◌↔◌, refl, Bool, true, false, not, none, some, arith, eq_iff,
}
use neuron_kg.TimeAxis.{
  blank, garbled, moment, parse_iso, parse_or, end_of, holds_at, held_at, holds_in, holds_point,
  FactState, is_live_fact, live_fact_cypher, freshness_class, aged,
}
use neuron_kg.TimeAxis.Windows.{holds_at-window}
use neuron_kg.TimeAxis.Handover.{handover, is_live_fact-cypher}

program : Unit {0}
unfolding parse_iso parse_or end_of holds_at holds_in holds_point freshness_class aged
program = tt

undated : holds_at blank blank (some 5) none "state" blank false ≡ some false
unfolding program
undated = refl

unreadable : holds_at garbled blank (some 5) none "state" blank false ≡ none
unfolding program
unreadable = refl

holds_at-window_example :
    (holds_at (moment 3) (moment 9) (some 5) (some 20) "state" blank false ≡ some true) ↔ (
      (t : ℕ) × (5 ≤ t)
      × (t < 20)
      × (holds_at (moment 3) (moment 9) (some t) none "state" blank false ≡ some true))
holds_at-window_example =
    holds_at-window (moment 3) (moment 9) blank false "state" 5 20 (some 3) (some 9)
      (unfold program in refl) (unfold program in refl) (omega arith) (omega arith) refl refl

handover_example :
    ((now : Bool) × (holds_at (moment 3) (moment 9) (some 9) none "state" blank false ≡ some now)
      × (holds_at (moment 9) blank (some 9) none "state" blank false ≡ some (not now)))
    × ((now : Bool) × (held_at (moment 3) (moment 9) (some 9) ≡ some now)
        × (held_at (moment 9) blank (some 9) ≡ some (not now)))
    × (held_at (moment 3) (moment 9) none ≡ some false)
    × (held_at (moment 9) blank none ≡ some true)
handover_example = handover 3 9 9 "state" blank (omega arith)

abbrev candidate : FactState
candidate = record {
  invalid_at = none;
  assertion_status = none;
  projection_status = some "pending_review";
}

is_live_fact-cypher_example : is_live_fact candidate ≡ live_fact_cypher candidate
is_live_fact-cypher_example =
    is_live_fact-cypher candidate (λ e. absurd (ground (arith, eq_iff "pending_review" "")))
