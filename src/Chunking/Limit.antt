-- ===== src/Chunking/Limit.antt =====
-- RegexTokenCounter of connectors/core/chunking/tokens.py against what the callers of a
-- TokenCounter rely on.
use neuron_kg.Prelude.{
  ℕ, zero, suc, ◌-◌, ◌≤◌, ◌≡◌, refl, sym, ap, ◌∙◌, subst, true, false, List, [], ◌∷◌, ◌++◌, arith,
  inl, inr, Bool-cases, length, All, All-map, leb, leb→le,
}
use mathlib.Core.List.{append_assoc, append-nil}
use neuron_kg.Chars.{Chars, CharClass, is_empty, concat, strip, strip_all}
use neuron_kg.Chars.Ink.{ink, ink-append, ink-strip_all}
use neuron_kg.Chunking.{
  IsCounter, Splits, cut, groups, append_first, regex_count, regex_split, regex_counter,
}
use neuron_kg.Chunking.Count.{
  tokens, tokens-append, tokens-strip, IsCut, cut-IsCut, regex_count-tokens,
}

module _ (k : CharClass) where
  -- The first group has room for at most `left` tokens, the others for n.
  abbrev Fits : ℕ → ℕ → List Chars → Type 0
  Fits left n [] = Unit
  Fits left n (p ∷ ps) = (tokens k p ≤ left) × All (λ q. tokens k q ≤ n) ps

  append_first-Fits :
      (left n : ℕ) (s : Chars) (ps : List Chars)
      → tokens k s ≡ 1
      → Fits left n ps
      → Fits (suc left) n (append_first s ps)
  append_first-Fits left n s [] h f = (omega arith, tt)
  append_first-Fits left n s (p ∷ ps) h f = (omega (arith, tokens-append k s p), f.1)

  Fits-All : (n : ℕ) (ps : List Chars) → Fits n n ps → All (λ q. tokens k q ≤ n) ps
  Fits-All n [] f = tt
  Fits-All n (p ∷ ps) f = f

  groups-Fits :
      (n left : ℕ) (segs : List Chars)
      → 1 ≤ n
      → All (λ s. tokens k s ≡ 1) segs
      → Fits left n (groups n left segs)
  unfolding groups
  groups-Fits n left [] h a = (omega arith, tt)
  groups-Fits n zero (s ∷ ss) h a = (
    omega arith,
    Fits-All n (append_first s (groups n (n - 1) ss)) (
        subst (λ z. Fits z n (append_first s (groups n (n - 1) ss))) (omega arith)
          (append_first-Fits (n - 1) n s (groups n (n - 1) ss) a.0
            (groups-Fits n (n - 1) ss h a.1))),
  )
  groups-Fits n (suc left) (s ∷ ss) h a =
      append_first-Fits left n s (groups n left ss) a.0 (groups-Fits n left ss h a.1)

  concat-append_first : (s : Chars) (ps : List Chars) → concat (append_first s ps) ≡ s ++ concat ps
  concat-append_first s [] = refl
  concat-append_first s (p ∷ ps) = append_assoc s p (concat ps)

  concat-groups : (n left : ℕ) (segs : List Chars) → concat (groups n left segs) ≡ concat segs
  unfolding groups
  concat-groups n left [] = refl
  concat-groups n zero (s ∷ ss) =
      concat-append_first s (groups n (n - 1) ss) ∙ ap (λ z. s ++ z) (concat-groups n (n - 1) ss)
  concat-groups n (suc left) (s ∷ ss) =
      concat-append_first s (groups n left ss) ∙ ap (λ z. s ++ z) (concat-groups n left ss)

  strip_all-All :
      (n : ℕ) (ts : List Chars)
      → All (λ t. tokens k t ≤ n) ts
      → All (λ t. tokens k t ≤ n) (strip_all k ts)
  unfolding strip_all
  strip_all-All n [] a = tt
  strip_all-All n (t ∷ ts) a = elim (Bool-cases (is_empty (strip k t))) [
    | inl u ↦ rw u (strip_all-All n ts a.1)
    | inr u ↦ rw u (omega (arith, tokens-strip k t), strip_all-All n ts a.1)
  ]

  tokens-counts :
      (n : ℕ) (ts : List Chars) → All (λ t. tokens k t ≤ n) ts → All (λ t. regex_count k t ≤ n) ts
  tokens-counts n ts a = All-map (λ t h. subst (λ z. z ≤ n) (sym (regex_count-tokens k t)) h) ts a

  ink-no_token : (t : Chars) → tokens k t ≡ 0 → ink k t ≡ []
  ink-no_token [] h = refl
  ink-no_token (c ∷ []) h = ground arith
  ink-no_token (c ∷ d ∷ t) h = ground (arith, ink-no_token (d ∷ t), k.apart d)

  ink-lead :
      (t lead : Chars) (segs : List Chars) → IsCut k t (lead, segs) → ink k (concat segs) ≡ ink k t
  ink-lead t lead segs h =
      ap (λ z. z ++ ink k (concat segs)) (sym (ink-no_token lead h.no_token))
      ∙ (sym (ink-append k lead (concat segs)) ∙ ap (ink k) h.whole)

  count_fits : (t : Chars) (n : ℕ) → leb (length (cut k t).1) n ≡ true → regex_count k t ≤ n
  unfolding regex_count
  count_fits t n u = leb→le (length (cut k t).1) n u

  split-fitting :
      (t : Chars) (n : ℕ)
      → 1 ≤ n
      → leb (length (cut k t).1) n ≡ true
      → (ps : List Chars) × Splits k (regex_counter k) t n ps
  unfolding regex_split
  split-fitting [] n h u = ([], (ground arith, tt, refl))
  split-fitting (c ∷ t) n h u =
      ((c ∷ t) ∷ [], (ground arith, (count_fits (c ∷ t) n u, tt), ap (ink k) (append-nil (c ∷ t))))

  split-cut :
      (t : Chars) (n : ℕ)
      → 1 ≤ n
      → leb (length (cut k t).1) n ≡ false
      → (ps : List Chars) × Splits k (regex_counter k) t n ps
  unfolding regex_split
  split-cut t n h u =
      let c = cut-IsCut k t in
      (
        strip_all k (groups n n (cut k t).1),
        (
          ground arith,
          tokens-counts n _ (
              strip_all-All n (groups n n (cut k t).1)
                (Fits-All n _ (groups-Fits n n (cut k t).1 h c.single))),
          ink-strip_all k (groups n n (cut k t).1)
              ∙ (ap (ink k) (concat-groups n n (cut k t).1) ∙ ink-lead t (cut k t).0 (cut k t).1 c),
        ),
      )

-- The fallback counter keeps what the callers of a TokenCounter rely on, whatever the tables of
-- Unicode: stripping a text adds no token; a split at a positive limit succeeds, each part has no
-- more tokens than the limit, and the parts have all characters of the text that are no space, in
-- their order.
pub regex_counter-IsCounter : (k : CharClass) → IsCounter k (regex_counter k)
regex_counter-IsCounter k = record {
  count-strip = λ t.
      omega (arith, regex_count-tokens k (strip k t), regex_count-tokens k t, tokens-strip k t);
  splits = λ t n h. elim (Bool-cases (leb (length (cut k t).1) n)) [
    | inl u ↦ split-fitting k t n h u
    | inr u ↦ split-cut k t n h u
  ];
}
