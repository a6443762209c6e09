-- ===== src/TimeAxis/Ageing.antt =====
-- Freshness and the confidence that follows from it.
use neuron_kg.Prelude.{ℕ, ◌≤◌, ◌<◌, String, ◌≡◌, Bool, false, some, arith, ◌==◌}
use neuron_kg.TimeAxis.{moment, fresh, stale, freshness_class, aged}

-- Time alone never makes a fact fresh again: where a fact was stale at n and is fresh at a later
-- m, it has been confirmed in between. "task" facts do not age.
pub fresh_again :
    (decay : String) (c c' n m clock clock' : ℕ) (closed closed' : Bool)
    → (decay == "task") ≡ false
    → n ≤ m
    → freshness_class decay (moment c) (moment n) clock closed ≡ some stale
    → freshness_class decay (moment c') (moment m) clock' closed' ≡ some fresh
    → c < c'
unfolding freshness_class aged
fresh_again decay c c' n m clock clock' closed closed' task later old new = ground arith
