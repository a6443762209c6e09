-- ===== src/TextFacts/Dates.antt =====
-- The date rule against the moments of the two windows.
use neuron_kg.Prelude.{
  ℕ, ◌<◌, ◌≡◌, ◌↔◌, true, false, Option, none, some, arith, max, inl, inr, Bool-cases,
}
use neuron_kg.Inference.Validity.{during}
use neuron_kg.TextFacts.{windows_disjoint}

-- The window has a moment.
abbrev pub IsProper : Option ℕ → Option ℕ → Type 0
IsProper (some s) (some e) = s < e
IsProper none (some e) = 0 < e
IsProper s none = Unit

abbrev from : Option ℕ → ℕ
from none = 0
from (some s) = s

common :
    (a b c d : Option ℕ)
    → IsProper a b
    → IsProper c d
    → windows_disjoint a b c d ≡ false
    → (during a b (max (from a) (from c)) ≡ true) × (during c d (max (from a) (from c)) ≡ true)
unfolding windows_disjoint
common none none none none p q h = (ground arith, ground arith)
common none none none (some d) p q h = (ground arith, ground arith)
common none none (some c) none p q h = (ground arith, ground arith)
common none none (some c) (some d) p q h = (ground arith, ground arith)
common none (some b) none none p q h = (ground arith, ground arith)
common none (some b) none (some d) p q h = (ground arith, ground arith)
common none (some b) (some c) none p q h = (ground arith, ground arith)
common none (some b) (some c) (some d) p q h = (ground arith, ground arith)
common (some a) none none none p q h = (ground arith, ground arith)
common (some a) none none (some d) p q h = (ground arith, ground arith)
common (some a) none (some c) none p q h = (ground arith, ground arith)
common (some a) none (some c) (some d) p q h = (ground arith, ground arith)
common (some a) (some b) none none p q h = (ground arith, ground arith)
common (some a) (some b) none (some d) p q h = (ground arith, ground arith)
common (some a) (some b) (some c) none p q h = (ground arith, ground arith)
common (some a) (some b) (some c) (some d) p q h = (ground arith, ground arith)

apart :
    (a b c d : Option ℕ) (t : ℕ)
    → windows_disjoint a b c d ≡ true
    → ¬ ((during a b t ≡ true) × (during c d t ≡ true))
unfolding windows_disjoint
apart (some a) b c (some d) t h k = let x = k.0 in let y = k.1 in sides a b c d t h x y
  where
    sides :
        (a : ℕ) (b c : Option ℕ) (d t : ℕ)
        → windows_disjoint (some a) b c (some d) ≡ true
        → during (some a) b t ≡ true
        → during c (some d) t ≡ true
        → ⊥
    sides a none c d t h x y = ground arith
    sides a (some b) none d t h x y = ground arith
    sides a (some b) (some c) d t h x y = ground arith
apart none (some b) (some c) d t h k = let x = k.0 in let y = k.1 in ground arith
apart none none c d t h k = absurd (ground arith)
apart none (some b) none d t h k = absurd (ground arith)
apart (some a) none c none t h k = absurd (ground arith)
apart (some a) (some b) none none t h k = absurd (ground arith)
apart (some a) (some b) (some c) none t h k = let x = k.0 in let y = k.1 in ground arith

-- Of two windows that each have a moment, windows_disjoint says exactly that they have none in
-- common.
pub windows_disjoint_iff :
    (old_start old_end new_start new_end : Option ℕ)
    → IsProper old_start old_end
    → IsProper new_start new_end
    → (windows_disjoint old_start old_end new_start new_end ≡ true)
      ↔ ((t : ℕ) → ¬ ((during old_start old_end t ≡ true) × (during new_start new_end t ≡ true)))
windows_disjoint_iff a b c d p q = (
  (λ h t. apart a b c d t h),
  (λ k. elim (Bool-cases (windows_disjoint a b c d)) [
    | inl t ↦ t
    | inr f ↦ absurd (k _ (common a b c d p q f))
  ]),
)
