-- ===== src/Chunking/Lossless.antt =====
-- chunk_semantic of connectors/core/chunking/semantic.py: its chunks against the text and the limit.
use mathlib.Core.List.{append_assoc, append-nil}
use neuron_kg.Prelude.{
  ℕ, zero, suc, ◌+◌, ◌≤◌, ◌≡◌, refl, sym, ap, ◌∙◌, subst, Bool, true, false, not, ◌||◌, some, List,
  [], ◌∷◌, ◌++◌, arith, inl, inr, Bool-cases, All, All-append, ltb, leb, leb→le, eqb, if◌then◌else◌,
}
use neuron_kg.Chars.{Chars, CharClass, is_empty, concat, join, strip, strip_all, re_split}
use neuron_kg.Chars.Ink.{
  ink, ink-append, ink-strip, ink-empty, ink-strip_all, ink-re_split, StartsBlank,
}
use neuron_kg.Chars.Regex.{fullmatch}
use neuron_kg.Chunking.{
  TokenCounter, IsCounter, flush, is_full, is_blank, is_newline, run_of, ends_sentence,
  sentence_boundary, after_newline, through_newline, blank_line, heading, or_whole, pack,
  pack_units, units_of, all_units, semantic_units, enforce_hard_limit, chunk_semantic,
}

module _ (k : CharClass) where
  run_of-StartsBlank :
      (p : ℕ → Bool) (t : Chars)
      → ((c : ℕ) → p c ≡ true → k.is_space c ≡ true)
      → StartsBlank k (run_of p t) t
  run_of-StartsBlank p [] h = tt
  run_of-StartsBlank p (c ∷ t) h = elim (Bool-cases (p c)) [
    | inl u ↦ rw u (h c u, run_of-StartsBlank p t h)
    | inr u ↦ rw u tt
  ]

  blank-IsSpace : (c : ℕ) → is_blank c ≡ true → k.is_space c ≡ true
  blank-IsSpace c h = elim (Bool-cases (eqb c b' ')) [
    | inl u ↦
        let e : c ≡ b' ' = ground arith in subst (λ z. k.is_space z ≡ true) (sym e) k.blank_space
    | inr u ↦
        let e : c ≡ b'\t' = ground arith in subst (λ z. k.is_space z ≡ true) (sym e) k.tab_space
  ]

  newline-IsSpace : (c : ℕ) → is_newline c ≡ true → k.is_space c ≡ true
  newline-IsSpace c h =
      let e : c ≡ b'\n' = ground arith in subst (λ z. k.is_space z ≡ true) (sym e) k.newline_space

  sentence_boundary-StartsBlank :
      (before : ℕ) (t : Chars) → StartsBlank k (sentence_boundary before t) t
  unfolding sentence_boundary
  sentence_boundary-StartsBlank before t = elim (Bool-cases (not (ends_sentence before))) [
    | inl u ↦ rw u tt
    | inr u ↦ elim (Bool-cases (ltb 0 (run_of is_blank t))) [
      | inl v ↦ rw (u, v) (run_of-StartsBlank is_blank t blank-IsSpace)
      | inr v ↦ rw (u, v) (run_of-StartsBlank is_newline t newline-IsSpace)
    ]
  ]

  through_newline-StartsBlank : (t : Chars) → StartsBlank k (through_newline k t) t
  through_newline-StartsBlank [] = tt
  through_newline-StartsBlank (c ∷ t) = elim (Bool-cases (k.is_space c)) [
    | inr u ↦ rw u tt
    | inl u ↦ elim (Bool-cases (ltb 0 (through_newline k t))) [
      | inl v ↦ rw (u, v) (u, through_newline-StartsBlank t)
      | inr v ↦ elim (Bool-cases (is_newline c)) [
        | inl w ↦ rw (u, v, w) (u, tt)
        | inr w ↦ rw (u, v, w) tt
      ]
    ]
  ]

  after-StartsBlank :
      (n c : ℕ) (t : Chars)
      → k.is_space c ≡ true
      → StartsBlank k n t
      → StartsBlank k (after_newline n) (c ∷ t)
  after-StartsBlank zero c t u h = tt
  after-StartsBlank (suc n) c t u h = (u, h)

  blank_line-StartsBlank : (before : ℕ) (t : Chars) → StartsBlank k (blank_line k before t) t
  unfolding blank_line
  blank_line-StartsBlank before [] = tt
  blank_line-StartsBlank before (c ∷ t) = elim (Bool-cases (is_newline c)) [
    | inl u ↦ rw u (
        after-StartsBlank (through_newline k t) c t (newline-IsSpace c u)
          (through_newline-StartsBlank t))
    | inr u ↦ rw u tt
  ]

  -- A chunk of units, or none.
  ink-join :
      (t : Chars) (ts : List Chars)
      → ink k (join (b'\n' ∷ b'\n' ∷ []) (t ∷ ts)) ≡ ink k (concat (t ∷ ts))
  ink-join t [] = ap (ink k) (sym (append-nil t))
  ink-join t (u ∷ ts) =
      ink-append k t (b'\n' ∷ b'\n' ∷ join (b'\n' ∷ b'\n' ∷ []) (u ∷ ts))
      ∙ (ap (λ z. ink k t ++ z) (rw k.newline_space (ink-join u ts))
          ∙ sym (ink-append k t (concat (u ∷ ts))))

  ink-flush : (ts : List Chars) → ink k (concat (flush ts)) ≡ ink k (concat ts)
  ink-flush [] = refl
  ink-flush (t ∷ ts) = ap (ink k) (append-nil (join (b'\n' ∷ b'\n' ∷ []) (t ∷ ts))) ∙ ink-join t ts

  concat-append : (ss ts : List Chars) → concat (ss ++ ts) ≡ concat ss ++ concat ts
  concat-append [] ts = refl
  concat-append (s ∷ ss) ts =
      ap (λ z. s ++ z) (concat-append ss ts) ∙ sym (append_assoc s (concat ss) (concat ts))

  ink-concat-append :
      (ss ts : List Chars) → ink k (concat (ss ++ ts)) ≡ ink k (concat ss) ++ ink k (concat ts)
  ink-concat-append ss ts = ap (ink k) (concat-append ss ts) ∙ ink-append k (concat ss) (concat ts)

  ink-or_whole :
      (p : Chars) (ss : List Chars)
      → ink k (concat ss) ≡ ink k p
      → ink k (concat (or_whole p ss)) ≡ ink k p
  ink-or_whole p [] h = ap (ink k) (append-nil p)
  ink-or_whole p (s ∷ ss) h = h

  module _ (counter : TokenCounter) where
    ink-pack :
        (target : ℕ) (current : List Chars) (tokens : ℕ) (units : List Chars)
        → ink k (concat (pack counter target current tokens units))
          ≡ ink k (concat current) ++ ink k (concat units)
    unfolding pack
    ink-pack target current tokens [] =
        ink-flush current ∙ sym (append-nil (ink k (concat current)))
    ink-pack target current tokens (u ∷ units) =
        let n = counter.count u in
        let one = ap (ink k) (append-nil u) in
        elim (Bool-cases (is_full current (tokens + n) target)) [
          | inl f ↦ rw f (
              ink-concat-append (flush current) (pack counter target (u ∷ []) n units)
              ∙ (ap (λ z. z ++ ink k (concat (pack counter target (u ∷ []) n units)))
                    (ink-flush current)
                  ∙ ap (λ z. ink k (concat current) ++ z)
                      (ink-pack target (u ∷ []) n units
                        ∙ (ap (λ z. z ++ ink k (concat units)) one
                            ∙ sym (ink-append k u (concat units))))))
          | inr f ↦ rw f (
              ink-pack target (current ++ u ∷ []) (tokens + n) units
              ∙ (ap (λ z. z ++ ink k (concat units))
                    (ink-concat-append current (u ∷ []) ∙ ap (λ z. ink k (concat current) ++ z) one)
                  ∙ (append_assoc (ink k (concat current)) (ink k u) (ink k (concat units))
                      ∙ ap (λ z. ink k (concat current) ++ z)
                          (sym (ink-append k u (concat units))))))
        ]

    ink-units_of : (target : ℕ) (p : Chars) → ink k (concat (units_of k counter target p)) ≡ ink k p
    unfolding units_of
    ink-units_of target p =
        elim (Bool-cases (fullmatch (heading k) p || leb (counter.count p) target)) [
          | inl u ↦ rw u (ap (ink k) (append-nil p))
          | inr u ↦ rw u (
              ink-or_whole p (strip_all k (re_split sentence_boundary 0 0 p)) (
                ink-strip_all k (re_split sentence_boundary 0 0 p)
                ∙ ink-re_split k sentence_boundary sentence_boundary-StartsBlank 0 0 p tt))
        ]

    ink-all_units :
        (target : ℕ) (ps : List Chars)
        → ink k (concat (all_units k counter target ps)) ≡ ink k (concat ps)
    unfolding all_units
    ink-all_units target [] = refl
    ink-all_units target (p ∷ ps) =
        ink-concat-append (units_of k counter target p) (all_units k counter target ps)
        ∙ (ap (λ z. z ++ ink k (concat (all_units k counter target ps))) (ink-units_of target p)
            ∙ (ap (λ z. ink k p ++ z) (ink-all_units target ps) ∙ sym (ink-append k p (concat ps))))

    ink-semantic_units :
        (t : Chars) (target : ℕ) → ink k (concat (semantic_units k counter t target)) ≡ ink k t
    unfolding semantic_units
    ink-semantic_units t target =
        ink-all_units target (strip_all k (re_split (blank_line k) 0 0 t))
        ∙ (ink-strip_all k (re_split (blank_line k) 0 0 t)
            ∙ ink-re_split k (blank_line k) blank_line-StartsBlank 0 0 t tt)

    -- What enforce_hard_limit makes of a text.
    abbrev Within : List Chars → ℕ → List Chars → Type 0
    Within ts n ps = All (λ p. counter.count p ≤ n) ps × (ink k (concat ps) ≡ ink k (concat ts))

    enforced_one :
        (c : IsCounter k counter) (n : ℕ) (t : Chars)
        → 1 ≤ n
        → (ps : List Chars) × (((if leb (counter.count t) n
                then some (if is_empty (strip k t) then [] else strip k t ∷ [])
                else counter.split t n)
              ≡ some ps)
            × All (λ p. counter.count p ≤ n) ps
            × (ink k (concat ps) ≡ ink k t))
    unfolding strip_all
    enforced_one c n t h = elim (Bool-cases (leb (counter.count t) n)) [
      | inr u ↦ rw u (c.splits t n h)
      | inl u ↦ rw u (
        (if is_empty (strip k t) then [] else strip k t ∷ []),
        (
          refl,
          kept (is_empty (strip k t))
              (omega (arith, c.count-strip t, leb→le (counter.count t) n u)),
          ink-strip_all k (t ∷ []) ∙ ap (ink k) (append-nil t),
        ),
      )
    ]
      where
        kept :
            (b : Bool)
            → counter.count (strip k t) ≤ n
            → All (λ p. counter.count p ≤ n) (if b then [] else strip k t ∷ [])
        kept true e = tt
        kept false e = (e, tt)

    enforced :
        (c : IsCounter k counter) (n : ℕ) (ts : List Chars)
        → 1 ≤ n
        → (ps : List Chars) × ((enforce_hard_limit k counter ts n ≡ some ps) × Within ts n ps)
    unfolding enforce_hard_limit
    enforced c n [] h = ([], (refl, (tt, refl)))
    enforced c n (t ∷ ts) h =
        let (ps, (e, a, i)) = enforced_one c n t h in
        let (qs, (f, w)) = enforced c n ts h in
        (
          ps ++ qs,
          (
            rw (e, f) refl,
            (
              All-append (λ p. counter.count p ≤ n) ps qs a w.0,
              ink-concat-append ps qs
                  ∙ (ap (λ z. z ++ ink k (concat qs)) i
                      ∙ (ap (λ z. ink k t ++ z) w.1 ∙ sym (ink-append k t (concat ts)))),
            ),
          ),
        )

    all_of_units :
        (t : Chars) (target : ℕ)
        → ink k (concat (pack_units counter (semantic_units k counter (strip k t) target) target))
          ≡ ink k t
    unfolding pack_units
    all_of_units t target =
        ink-pack target [] 0 (semantic_units k counter (strip k t) target)
        ∙ (ink-semantic_units (strip k t) target ∙ ink-strip k t)

-- With any counter that keeps the contract, and a positive hard limit, chunk_semantic returns:
-- every chunk has at most as many tokens as the hard limit, and the chunks, one after the other,
-- have every character of the text that is no space, each once and in its order.
pub chunk_semantic-lossless :
    (k : CharClass) (counter : TokenCounter) (t : Chars) (target hard : ℕ)
    → IsCounter k counter
    → 1 ≤ hard
    → (ps : List Chars) × (chunk_semantic k counter t target hard ≡ some ps)
      × All (λ p. counter.count p ≤ hard) ps
      × (ink k (concat ps) ≡ ink k t)
unfolding chunk_semantic
chunk_semantic-lossless k counter t target hard c h = elim (Bool-cases (is_empty (strip k t))) [
  | inl u ↦ rw u ([], refl, tt, sym (ink-empty k t u))
  | inr u ↦ rw u (
      let (ps, (e, (a, i))) =
        enforced k counter c hard
          (pack_units counter (semantic_units k counter (strip k t) target) target) h in
      (ps, e, a, i ∙ all_of_units k counter t target))
]
