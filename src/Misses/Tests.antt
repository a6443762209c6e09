-- ===== src/Misses/Tests.antt =====
-- A term that is refused, dismissed, and refused again.
use neuron_kg.Prelude.{String, ◌≡◌, refl, false, none, some, List, [], ◌∷◌, All}
use neuron_kg.Misses.{Miss, record_miss, misses, dismiss_miss, new_miss, dismiss}
use neuron_kg.Misses.Dismissed.{recorded, run, is_row, dismissed_stays}

abbrev shape : String
shape = "Person -USES-> System"

abbrev refused : List Miss
refused = new_miss "relation_type" shape none 1 ∷ new_miss "entity_type" "Team" none 2 ∷ []

counts :
    misses false (record_miss "entity_type" "Team" (some "Core") 3 refused)
    ≡ ("entity_type", ("Team", (2, some "Core"))) ∷ ("relation_type", (shape, (1, none))) ∷ []
unfolding misses record_miss
counts = refl

abbrev declined : List Miss
declined =
    dismiss 5 (new_miss "relation_type" shape none 1) ∷ new_miss "entity_type" "Team" none 2 ∷ []

declines : dismiss_miss "relation_type" shape 5 refused ≡ declined
unfolding dismiss_miss
declines = refl

dismissed_stays_example :
    All
      (λ t. is_row "relation_type" shape t ≡ false)
      (misses false
        (run (recorded "relation_type" shape none 7 ∷ recorded "kind" "X" none 8 ∷ []) declined))
dismissed_stays_example =
    dismissed_stays "relation_type" shape
      (recorded "relation_type" shape none 7 ∷ recorded "kind" "X" none 8 ∷ []) declined
      (refl, (refl, (refl, tt)))
