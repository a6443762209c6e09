-- ===== src/Retrieval/Windows/Best.antt =====
-- graph/retrieval/text_window.py: which window best_window takes.
use neuron_kg.Prelude.{
  ℕ, ◌+◌, ◌-◌, ◌≤◌, ◌<◌, ◌≡◌, refl, false, none, some, List, [], ◌∷◌, All, Any, length,
  length-take-le, leb, ltb, ltb→lt, arith, Bool-cases, inl, inr, ◌⊎◌,
}
use neuron_kg.Chars.{Chars, is_empty}
use neuron_kg.Retrieval.Windows.{
  Window, Encoder, slide, token_windows, slice, pick, best_window, overlap_score, query_terms,
}
use neuron_kg.Retrieval.Windows.Cover.{slide-cover, windows_of, Fits, Holds}
use neuron_kg.Sql.{drop}

slice-le :
    (w : Window) (ids : List ℕ) (size : ℕ) → w.end ≤ w.start + size → length (slice w ids) ≤ size
slice-le w ids size h = let cut = length-take-le (w.end - w.start) (drop w.start ids) in omega arith

module _ (lower : Chars → Chars) (e : Encoder) (terms : List Chars) (ids : List ℕ) where
  abbrev text_of : Window → Chars
  text_of w = e.decode (slice w ids)

  abbrev score_of : Window → ℕ
  score_of w = overlap_score lower (text_of w) terms

  -- The first of the windows that score best.
  pub data First : List Window → Window → Type 0 where
    head :
        {w : Window} {ws : List Window} → All (λ v. score_of v ≤ score_of w) ws → First (w ∷ ws) w
    later :
        {v w : Window} {ws : List Window} → score_of v < score_of w → First ws w → First (v ∷ ws) w

  First-All {κ} :
      (P : Window → Type κ) {ws : List Window} {w : Window} → First ws w → All P ws → P w
  First-All P (head _) h = h.0
  First-All P (later _ f) h = First-All P f h.1

  abbrev result : Window → ℕ × Chars
  result w = (score_of w, text_of w)

  -- The loop keeps what it has when no window scores more, and else ends with the first of the
  -- best.
  picks :
      (ws : List Window) (s : ℕ) (t : Chars)
      → (pick lower e terms ids ws (some (s, t)) ≡ some (s, t)) × All (λ v. score_of v ≤ s) ws
        ⊎ (w : Window) × (pick lower e terms ids ws (some (s, t)) ≡ some (result w))
          × (s < score_of w)
          × First ws w
  picks [] s t = inl (refl, tt)
  picks (v ∷ ws) s t = elim (Bool-cases (ltb s (score_of v))) [
    | inl q ↦
        let more = ltb→lt s (score_of v) q in
        elim (picks ws (score_of v) (text_of v)) [
          | inl (same, none_more) ↦ inr (v, rw q same, more, head none_more)
          | inr (w, found, above, f) ↦ inr (w, rw q found, omega arith, later above f)
        ]
    | inr q ↦
        let less : score_of v ≤ s = ground arith in
        elim (picks ws s t) [
          | inl (same, none_more) ↦ inl (rw q same, (less, none_more))
          | inr (w, found, above, f) ↦ inr (w, rw q found, above, later (omega arith) f)
        ]
  ]

  picks_first :
      (v : Window) (ws : List Window)
      → (w : Window) × (pick lower e terms ids (v ∷ ws) none ≡ some (result w)) × First (v ∷ ws) w
  picks_first v ws = elim (picks ws (score_of v) (text_of v)) [
    | inl (same, none_more) ↦ (v, same, head none_more)
    | inr (w, found, above, f) ↦ (w, found, later above f)
  ]

  picks_some :
      (ws : List Window) {i : ℕ}
      → Any (Holds i) ws
      → (w : Window) × (pick lower e terms ids ws none ≡ some (result w)) × First ws w
  picks_some [] h = elim h [ ]
  picks_some (v ∷ ws) h = picks_first v ws

-- A text that is not empty and does not fit a positive number of tokens is cut to the first of the
-- windows that name most terms of the question, which is computed and is not longer than asked.
pub best_window_first :
    (lower : Chars → Chars) (e : Encoder) (question text : Chars) (tokens : ℕ)
    → is_empty text ≡ false
    → 0 < tokens
    → tokens < length (e.encode text)
    → let ids = e.encode text in
      let terms = query_terms lower question in
      (ws : List Window) × (w : Window) × (token_windows (length ids) tokens ≡ some ws)
      × First lower e terms ids ws w
      × (best_window lower e question text tokens ≡ some (e.decode (slice w ids)))
      × (length (slice w ids) ≤ tokens)
unfolding best_window
best_window_first lower e question text tokens written positive long =
    let ids = e.encode text in
    let terms = query_terms lower question in
    let ws = slide (length ids) (length ids) tokens 0 in
    let windows = windows_of (length ids) tokens positive (omega arith) in
    let (fits, covers) =
      slide-cover (length ids) (length ids) tokens 0 positive (omega arith) (omega arith) in
    let (w, found, f) = picks_some lower e terms ids ws (covers 0 (omega arith) (omega arith)) in
    let within = First-All lower e terms ids (Fits (length ids) tokens) f fits in
    let too_long : leb (length ids) tokens ≡ false = ground arith in
    (ws, w, windows, f, rw (written, too_long, windows, found) refl, slice-le w ids tokens within.2)
