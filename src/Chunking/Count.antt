-- ===== src/Chunking/Count.antt =====
-- The tokens of RegexTokenCounter, counted from the front of the text.
use mathlib.Core.Bool.{true≢false}
use neuron_kg.Prelude.{
  ℕ, suc, ◌+◌, ◌≤◌, ◌≡◌, refl, sym, ap, ◌∙◌, Bool, true, false, ◌&&◌, List, [], ◌∷◌, ◌++◌, arith,
  inl, inr, Bool-cases, length, All, if◌then◌else◌,
}
use neuron_kg.Chars.{Chars, CharClass, concat, trim, lstrip, rstrip, strip}
use neuron_kg.Chunking.{starts_word, grow, add_char, cut, regex_count}

module _ (k : CharClass) where
  -- The tokens of a text; a word counts at its last character.
  abbrev pub tokens : Chars → ℕ
  tokens [] = 0
  tokens (c ∷ cs) =
      if k.is_space c
      then tokens cs
      else if k.is_word c && starts_word k cs
      then tokens cs
      else suc (tokens cs)

  pub tokens-append : (s t : Chars) → tokens (s ++ t) ≤ tokens s + tokens t
  tokens-append [] t = omega arith
  tokens-append (c ∷ []) t = ground arith
  tokens-append (c ∷ d ∷ s) t = ground (arith, tokens-append (d ∷ s) t)

  tokens-lstrip : (t : Chars) → tokens (lstrip k t) ≡ tokens t
  unfolding lstrip
  tokens-lstrip [] = refl
  tokens-lstrip (c ∷ t) = ground (arith, tokens-lstrip t)

  starts_word-rstrip : (t : Chars) → starts_word k (rstrip k t) ≡ starts_word k t
  unfolding rstrip
  starts_word-rstrip [] = refl
  starts_word-rstrip (c ∷ t) = first (rstrip k t)
    where
      first : (s : Chars) → starts_word k (trim k c s) ≡ k.is_word c
      first [] = ground (arith, k.apart c)
      first (_ ∷ _) = refl

  tokens-trim : (c : ℕ) (t : Chars) → tokens (trim k c t) ≡ tokens (c ∷ t)
  tokens-trim c [] = ground arith
  tokens-trim c (d ∷ t) = refl

  tokens-rstrip : (t : Chars) → tokens (rstrip k t) ≡ tokens t
  unfolding rstrip
  tokens-rstrip [] = refl
  tokens-rstrip (c ∷ t) =
      tokens-trim c (rstrip k t) ∙ ground (arith, starts_word-rstrip t, tokens-rstrip t)

  pub tokens-strip : (t : Chars) → tokens (strip k t) ≡ tokens t
  unfolding strip
  tokens-strip t = tokens-rstrip (lstrip k t) ∙ tokens-lstrip t

  -- What `cut` gives: no token before the first match, and one in each part.
  pub record IsCut (t : Chars) (r : Chars × List Chars) : Type 0 where
    pub no_token : tokens r.0 ≡ 0
    pub no_word : starts_word k r.0 ≡ false
    pub at_once : starts_word k t ≡ true → r.0 ≡ []
    pub counted : length r.1 ≡ tokens t
    pub single : All (λ s. tokens s ≡ 1) r.1
    pub whole : r.0 ++ concat r.1 ≡ t

  tokens-lead :
      (c : ℕ) (lead : Chars)
      → tokens lead ≡ 0
      → starts_word k lead ≡ false
      → k.is_space c ≡ false
      → tokens (c ∷ lead) ≡ 1
  tokens-lead c lead h n u = ground arith

  -- A word goes on in the first part.
  grow-IsCut :
      (c : ℕ) (segs : List Chars)
      → k.is_space c ≡ false
      → k.is_word c ≡ true
      → starts_word k (concat segs) ≡ true
      → All (λ s. tokens s ≡ 1) segs
      → (length (grow c segs) ≡ length segs)
        × All (λ s. tokens s ≡ 1) (grow c segs)
        × (concat (grow c segs) ≡ c ∷ concat segs)
  grow-IsCut c [] u w h a = absurd (true≢false (sym h))
  grow-IsCut c ([] ∷ ss) u w h a = ground arith
  grow-IsCut c ((d ∷ s) ∷ ss) u w h a = (refl, (ground arith, a.1), refl)

  space-IsCut :
      (c : ℕ) (cs lead : Chars) (segs : List Chars)
      → k.is_space c ≡ true
      → IsCut cs (lead, segs)
      → IsCut (c ∷ cs) (c ∷ lead, segs)
  space-IsCut c cs lead segs u h = record {
    no_token = ground arith;
    no_word = k.apart c u;
    at_once = λ w. absurd (true≢false (sym w ∙ k.apart c u));
    counted = ground arith;
    single = h.single;
    whole = ap (λ z. c ∷ z) h.whole;
  }

  word-IsCut :
      (c : ℕ) (cs lead : Chars) (segs : List Chars)
      → k.is_space c ≡ false
      → k.is_word c ≡ true
      → starts_word k cs ≡ true
      → IsCut cs (lead, segs)
      → IsCut (c ∷ cs) ([], grow c segs)
  word-IsCut c cs lead segs u w v h =
      let e = sym (ap (λ z. z ++ concat segs) (h.at_once v)) ∙ h.whole in
      let g = grow-IsCut c segs u w (ap (starts_word k) e ∙ v) h.single in
      record {
        no_token = refl;
        no_word = refl;
        at_once = λ _. refl;
        counted = g.0 ∙ ground arith;
        single = g.1;
        whole = g.2 ∙ ap (λ z. c ∷ z) e;
      }

  start-IsCut :
      (c : ℕ) (cs lead : Chars) (segs : List Chars)
      → k.is_space c ≡ false
      → (k.is_word c && starts_word k cs) ≡ false
      → IsCut cs (lead, segs)
      → IsCut (c ∷ cs) ([], (c ∷ lead) ∷ segs)
  start-IsCut c cs lead segs u v h = record {
    no_token = refl;
    no_word = refl;
    at_once = λ _. refl;
    counted = ground arith;
    single = (tokens-lead c lead h.no_token h.no_word u, h.single);
    whole = ap (λ z. c ∷ z) h.whole;
  }

  and_true : (a b : Bool) → (a && b) ≡ true → (a ≡ true) × (b ≡ true)
  and_true a b h = ground arith

  add_char-IsCut :
      (c : ℕ) (cs : Chars) (r : Chars × List Chars)
      → IsCut cs r
      → IsCut (c ∷ cs) (add_char k c (starts_word k cs) r)
  add_char-IsCut c cs (lead, segs) h = elim (Bool-cases (k.is_space c)) [
    | inl u ↦ rw u (space-IsCut c cs lead segs u h)
    | inr u ↦ elim (Bool-cases (k.is_word c && starts_word k cs)) [
      | inl v ↦
          let w = and_true (k.is_word c) (starts_word k cs) v in
          rw (u, v) (word-IsCut c cs lead segs u w.0 w.1 h)
      | inr v ↦ rw (u, v) (start-IsCut c cs lead segs u v h)
    ]
  ]

  pub cut-IsCut : (t : Chars) → IsCut t (cut k t)
  unfolding cut
  cut-IsCut [] = record {
    no_token = refl;
    no_word = refl;
    at_once = λ _. refl;
    counted = refl;
    single = tt;
    whole = refl;
  }
  cut-IsCut (c ∷ cs) = add_char-IsCut c cs (cut k cs) (cut-IsCut cs)

  pub regex_count-tokens : (t : Chars) → regex_count k t ≡ tokens t
  unfolding regex_count
  regex_count-tokens t = (cut-IsCut t).counted
