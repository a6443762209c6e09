-- ===== src/Retrieval/Windows/Cover.antt =====
-- graph/retrieval/text_window.py: the windows against the tokens of the text, and the fuel.
use neuron_kg.Prelude.{
  ℕ, zero, suc, ◌+◌, ◌≤◌, ◌<◌, min, ◌≡◌, refl, false, some, List, All, Any, here, there, eqb, leb,
  arith, Bool-cases, inl, inr, ◌⊎◌, ltb, ltb→lt, leb→le,
}
use neuron_kg.Retrieval.Windows.{Window, half, step, slide, token_windows}

-- A window has a token at least and the size at most, and ends in the text.
abbrev pub Fits : ℕ → ℕ → Window → Type 0
Fits count size w = (w.start < w.end) × (w.end ≤ count) × (w.end ≤ w.start + size)

abbrev pub Holds : ℕ → Window → Type 0
Holds i w = (w.start ≤ i) × (i < w.end)

half-le : (n : ℕ) → half n ≤ n
half-le zero = omega arith
half-le (suc zero) = omega arith
half-le (suc (suc n)) = omega (arith, half-le n)

step-positive : (size : ℕ) → 0 < step size
step-positive size = omega arith

step-le : (size : ℕ) → 0 < size → step size ≤ size
step-le size positive = omega (arith, half-le size)

-- The token is in the window that starts here, or at the next start or later.
place :
    (i start size count : ℕ)
    → start ≤ i
    → start + step size ≤ start + size
    → start + size < count
    → (Holds i (record { start = start; end = min (start + size) count })) ⊎ (start + step size ≤ i)
place i start size count from le inside = elim (Bool-cases (ltb i (start + step size))) [
  | inl e ↦ let lt = ltb→lt i (start + step size) e in inl (from, omega arith)
  | inr e ↦ inr (ground arith)
]

pub slide-cover :
    (fuel count size start : ℕ)
    → 0 < size
    → start < count
    → count ≤ start + fuel
    → All (Fits count size) (slide fuel count size start)
      × ((i : ℕ) → start ≤ i → i < count → Any (Holds i) (slide fuel count size start))
unfolding slide
slide-cover zero count size start positive inside enough = absurd (omega arith)
slide-cover (suc fuel) count size start positive inside enough =
    elim (Bool-cases (leb count (min (start + size) count))) [
      | inl e ↦
          let all = leb→le count (min (start + size) count) e in
          rw e (
            (((omega arith), (omega arith), (omega arith)), tt),
            (λ i from to. here (from, omega arith)),
          )
      | inr e ↦
          let beyond : start + size < count = ground arith in
          let le = step-le size positive in
          let up = step-positive size in
          let (fits, covers) =
            slide-cover fuel count size (start + step size) positive (omega arith) (omega arith) in
          rw e (
            ((omega arith, omega arith, omega arith), fits),
            (λ i from to. elim (place i start size count from (omega arith) beyond) [
              | inl h ↦ here h
              | inr later ↦ there (covers i later to)
            ]),
          )
    ]

pub windows_of :
    (count size : ℕ)
    → 0 < size
    → 0 < count
    → token_windows count size ≡ some (slide count count size 0)
unfolding token_windows
windows_of zero size positive some_text = absurd (omega arith)
windows_of (suc n) size positive some_text =
    let nonzero : eqb size 0 ≡ false = ground arith in rw nonzero refl

-- For a size that is positive the windows are computed, each has a token at least, the size at
-- most and ends in the text, and every token of the text is in a window.
pub token_windows-cover :
    (count size i : ℕ)
    → 0 < size
    → i < count
    → (ws : List Window) × (token_windows count size ≡ some ws)
      × All (Fits count size) ws
      × Any (Holds i) ws
token_windows-cover count size i positive inside =
    let (fits, covers) = slide-cover count count size 0 positive (omega arith) (omega arith) in
    (
      slide count count size 0,
      windows_of count size positive (omega arith),
      fits,
      covers i (omega arith) inside,
    )
