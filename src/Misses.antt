-- ===== src/Misses.antt =====
-- The miss log of connectors/core/ledger.py: the table ontology_misses (record_miss, misses,
-- dismiss_miss).
pub mod Dismissed
mod Tests
use Prim.Native.String.{compare}
use text.Mathlib.Text.{is_lt}
use neuron_kg.Prelude.{
  ℕ, ◌+◌, String, Bool, ◌&&◌, not, Option, none, some, List, [], ◌∷◌, ◌++◌, map, is_some,
  if◌then◌else◌, ◌==◌, eqb, ltb,
}
use neuron_kg.Prelude.Table.{select, find, update, order_by}

pub record Miss : Type 0 where
  pub kind : String
  pub key : String
  pub example : Option String
  pub count : ℕ
  pub first_seen_at : ℕ
  pub last_seen_at : ℕ
  pub dismissed_at : Option ℕ

abbrev pub is_miss : String → String → Miss → Bool
is_miss kind key m = m.kind == kind && m.key == key

abbrev pub coalesce_example : Option String → Option String → Option String
coalesce_example none e = e
coalesce_example (some s) e = some s

abbrev pub new_miss : String → String → Option String → ℕ → Miss
new_miss kind key example now = record {
  kind = kind;
  key = key;
  example = example;
  count = 1;
  first_seen_at = now;
  last_seen_at = now;
  dismissed_at = none;
}

-- ON CONFLICT(kind, key) DO UPDATE
abbrev pub seen_again : Option String → ℕ → Miss → Miss
seen_again example now m = record m {
  count = m.count + 1;
  last_seen_at = now;
  example = coalesce_example m.example example;
}

unfoldable pub record_miss : String → String → Option String → ℕ → List Miss → List Miss
record_miss kind key example now ms =
    if is_some (find (is_miss kind key) ms)
    then update (is_miss kind key) (seen_again example now) ms
    else ms ++ new_miss kind key example now ∷ []

-- ORDER BY count DESC, key
abbrev pub is_miss_before : Miss → Miss → Bool
is_miss_before m n =
    if eqb m.count n.count then is_lt (compare m.key n.key) else ltb n.count m.count

-- (kind, key, count, example)
abbrev pub row_of : Miss → String × (String × (ℕ × Option String))
row_of m = (m.kind, (m.key, (m.count, m.example)))

abbrev pub is_undecided : Miss → Bool
is_undecided m = not (is_some m.dismissed_at)

unfoldable pub misses : Bool → List Miss → List (String × (String × (ℕ × Option String)))
misses include_dismissed ms =
    map row_of (order_by is_miss_before (if include_dismissed then ms else select is_undecided ms))

abbrev pub dismiss : ℕ → Miss → Miss
dismiss now m = record m { dismissed_at = some now }

unfoldable pub dismiss_miss : String → String → ℕ → List Miss → List Miss
dismiss_miss kind key now ms = update (is_miss kind key) (dismiss now) ms
