-- ===== src/TimeAxis/Windows.antt =====
-- Reads of a window against reads of its moments.
use neuron_kg.Prelude.{
  ℕ, ◌≤◌, ◌<◌, String, ◌≡◌, ◌↔◌, ◌⊎◌, inl, inr, refl, ap, Bool, true, false, Option, none, some,
  arith, ◌==◌, max, Bool-cases,
}
use neuron_kg.TimeAxis.{Stamp, parse_or, end_of, holds_in, holds_point, holds_at, falls_in}

-- An interval that has both ends is not empty.
abbrev pub IsProper : Option ℕ → Option ℕ → Type 0
IsProper (some s) (some e) = s < e
IsProper _ _ = Unit

module _ (a b : ℕ) (a<b : a < b) (temporal : String) (lasting : (temporal == "eternal") ≡ false)
    (state : (temporal == "event") ≡ false) where
  some-moment :
      (start end : Option ℕ)
      → IsProper start end
      → holds_in start end a b temporal ≡ true
      → (t : ℕ) × (a ≤ t) × (t < b) × (holds_point start end t ≡ true)
  unfolding holds_in holds_point
  some-moment none none p h = absurd (ground arith)
  some-moment none (some e) p h = (a, ground arith, ground arith, ground arith)
  some-moment (some s) none p h = (max a s, ground arith, ground arith, ground arith)
  some-moment (some s) (some e) p h = (max a s, ground arith, ground arith, ground arith)

  any-moment :
      (start end : Option ℕ) (t : ℕ)
      → a ≤ t
      → t < b
      → holds_point start end t ≡ true
      → holds_in start end a b temporal ≡ true
  unfolding holds_in holds_point
  any-moment none none t l u h = ground arith
  any-moment none (some e) t l u h = ground arith
  any-moment (some s) none t l u h = ground arith
  any-moment (some s) (some e) t l u h = ground arith

-- The window read of a state is the union of the moment reads: a state holds in [a, b) exactly
-- when it holds at some moment from a on and before b. Both ends are times that parse, a is
-- before b, and the fact starts before it ends.
pub holds_at-window :
    (valid_from valid_to attested_from : Stamp) (ended_unknown : Bool) (temporal : String) (a b : ℕ)
    (start end : Option ℕ)
    → parse_or valid_from attested_from ≡ some start
    → end_of valid_to attested_from ended_unknown ≡ some end
    → IsProper start end
    → a < b
    → (temporal == "eternal") ≡ false
    → (temporal == "event") ≡ false
    → (holds_at valid_from valid_to (some a) (some b) temporal attested_from ended_unknown
        ≡ some true)
      ↔ ((t : ℕ) × (a ≤ t)
          × (t < b)
          × (holds_at valid_from valid_to (some t) none temporal attested_from ended_unknown
              ≡ some true))
unfolding holds_at
holds_at-window from to attested unknown temporal a b start end p q proper a<b lasting state = (
  (λ h.
      let (t, l, u, k) =
        some-moment a b a<b temporal lasting state start end proper
          (truth (rw (p, q, holds_at) at h)) in
      (t, l, u, rw (p, q, holds_at) (ap some k))),
  (λ h.
      let (t, l, u, k) = h in
      rw (p, q, holds_at)
        (ap some (
          any-moment a b a<b temporal lasting state start end t l u
            (truth (rw (p, q, holds_at) at k))))),
)
  where
    truth : {x : Bool} → some x ≡ some true → x ≡ true
    truth e = cc

-- The read of an event in [a, b).
abbrev pub event_in : Stamp → Stamp → Stamp → Bool → ℕ → ℕ → Option Bool
event_in valid_from valid_to attested_from ended_unknown a b =
    holds_at valid_from valid_to (some a) (some b) "event" attested_from ended_unknown

event-read :
    (valid_from valid_to attested_from : Stamp) (ended_unknown : Bool) (a b : ℕ)
    {start end : Option ℕ}
    → parse_or valid_from attested_from ≡ some start
    → end_of valid_to attested_from ended_unknown ≡ some end
    → event_in valid_from valid_to attested_from ended_unknown a b ≡ some (falls_in start a b)
unfolding holds_at holds_in
event-read from to attested unknown a b p q = rw (p, q, holds_at) refl

falls_once :
    (start : Option ℕ) (a b c : ℕ)
    → a ≤ b
    → b ≤ c
    → ((some (falls_in start a c) ≡ some true)
        ↔ ((some (falls_in start a b) ≡ some true) ⊎ (some (falls_in start b c) ≡ some true)))
      × ¬ ((some (falls_in start a b) ≡ some true) × (some (falls_in start b c) ≡ some true))
falls_once none a b c l u = ((λ h. inl h, λ h. elim h [ inl x ↦ x | inr x ↦ x ]), λ h. ground arith)
falls_once (some s) a b c l u = (
  (
    λ h. elim (Bool-cases (falls_in (some s) a b)) [
      | inl t ↦ inl (ap some t)
      | inr t ↦ inr (ground arith)
    ],
    λ h. elim h [ inl x ↦ ground arith | inr x ↦ ground arith ],
  ),
  λ h. let x = h.0 in let y = h.1 in ground arith,
)

-- For an event whose times parse, and a ≤ b ≤ c: it is read in [a, c) exactly when it is read in
-- [a, b) or in [b, c), and never in both, so that each event is counted in one month.
pub event_once :
    (valid_from valid_to attested_from : Stamp) (ended_unknown : Bool) (a b c : ℕ)
    (start end : Option ℕ)
    → parse_or valid_from attested_from ≡ some start
    → end_of valid_to attested_from ended_unknown ≡ some end
    → a ≤ b
    → b ≤ c
    → ((event_in valid_from valid_to attested_from ended_unknown a c ≡ some true) ↔ (
        (event_in valid_from valid_to attested_from ended_unknown a b ≡ some true)
        ⊎ (event_in valid_from valid_to attested_from ended_unknown b c ≡ some true)))
      × ¬ (
          (event_in valid_from valid_to attested_from ended_unknown a b ≡ some true)
          × (event_in valid_from valid_to attested_from ended_unknown b c ≡ some true))
event_once from to attested unknown a b c start end p q l u =
    rw
      (
        event-read from to attested unknown a c p q,
        event-read from to attested unknown a b p q,
        event-read from to attested unknown b c p q,
      )
      (falls_once start a b c l u)
