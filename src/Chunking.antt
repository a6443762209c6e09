-- ===== src/Chunking.antt =====
-- connectors/core/chunking/tokens.py, semantic.py and models.py: how the text of a record is cut
-- into chunks under a hard limit of tokens. RegexTokenCounter is modelled; tiktoken is a library,
-- and its counter enters as any TokenCounter does. A text is cut where a match of the token pattern
-- starts, so `cut` gives the text before the first match and, for each match, the text from it to
-- the next.
pub mod Count
pub mod Limit
pub mod Lossless
pub mod Router
mod Tests
use neuron_kg.Prelude.{
  ℕ, zero, suc, ◌+◌, ◌-◌, ◌≤◌, ◌≡◌, Bool, true, false, ◌&&◌, ◌||◌, not, Option, none, some, List,
  [], ◌∷◌, ◌++◌, ◌>>=◌, length, All, leb, ltb, eqb, if◌then◌else◌,
}
use neuron_kg.Chars.{Chars, CharClass, is_empty, concat, join, push, strip, strip_all, re_split}
use neuron_kg.Chars.Ink.{ink}
use neuron_kg.Chars.Regex.{Regex, fullmatch, one, alt, seq, star, plus, maybe, up_to, done}

-- The Protocol TokenCounter; `none` is the ValueError.
pub record TokenCounter : Type 0 where
  pub count : Chars → ℕ
  pub split : Chars → ℕ → Option (List Chars)

abbrev pub Splits : CharClass → TokenCounter → Chars → ℕ → List Chars → Type 0
Splits k c t n ps =
    (c.split t n ≡ some ps) × All (λ p. c.count p ≤ n) ps × (ink k (concat ps) ≡ ink k t)

-- What the callers rely on: stripping a text adds no token, and a split at a positive limit
-- succeeds, keeps every part within the limit and loses nothing but spaces.
pub record IsCounter (k : CharClass) (c : TokenCounter) : Type 0 where
  pub count-strip : (t : Chars) → c.count (strip k t) ≤ c.count t
  pub splits : (t : Chars) (n : ℕ) → 1 ≤ n → (ps : List Chars) × Splits k c t n ps

abbrev pub grow : ℕ → List Chars → List Chars
grow c [] = (c ∷ []) ∷ []
grow c (s ∷ ss) = (c ∷ s) ∷ ss

abbrev pub append_first : Chars → List Chars → List Chars
append_first s [] = s ∷ []
append_first s (p ∷ ps) = (s ++ p) ∷ ps

-- The groups of n matches, each as text; `left` is the room in the group at hand.
unfoldable pub groups : ℕ → ℕ → List Chars → List Chars
groups n left [] = [] ∷ []
groups n zero (s ∷ ss) = [] ∷ append_first s (groups n (n - 1) ss)
groups n (suc left) (s ∷ ss) = append_first s (groups n left ss)

abbrev pub flush : List Chars → List Chars
flush [] = []
flush (u ∷ us) = join (b'\n' ∷ b'\n' ∷ []) (u ∷ us) ∷ []

abbrev pub is_full : List Chars → ℕ → ℕ → Bool
is_full [] tokens target = false
is_full (_ ∷ _) tokens target = ltb target tokens

-- (?:[ \t]+|\n+) from here on: how many characters it takes.
abbrev pub is_blank : ℕ → Bool
is_blank c = eqb c b' ' || eqb c b'\t'

abbrev pub run_of : (ℕ → Bool) → Chars → ℕ
run_of p [] = 0
run_of p (c ∷ cs) = let n = run_of p cs in if p c then suc n else 0

abbrev pub is_newline : ℕ → Bool
is_newline c = eqb c b'\n'

abbrev pub ends_sentence : ℕ → Bool
ends_sentence c = eqb c b'.' || eqb c b'!' || eqb c b'?'

-- _SENTENCE_BOUNDARY, with the character before
unfoldable pub sentence_boundary : ℕ → Chars → ℕ
sentence_boundary before t =
    if not (ends_sentence before)
    then 0
    else if ltb 0 (run_of is_blank t)
    then run_of is_blank t
    else run_of is_newline t

abbrev pub after_newline : ℕ → ℕ
after_newline zero = 0
after_newline (suc n) = suc (suc n)

abbrev pub between : ℕ → ℕ → ℕ → Bool
between lo hi c = leb lo c && leb c hi

abbrev pub upper : ℕ → Bool
upper c = between b'A' b'Z' c

abbrev pub heading_char : ℕ → Bool
heading_char c =
    upper c
    || between b'0' b'9' c
    || eqb c b' '
    || eqb c b'/'
    || eqb c b'&'
    || eqb c b':'
    || eqb c b'_'
    || eqb c b'-'

abbrev pub char : ℕ → Regex
char d = one (λ c. eqb c d)

abbrev pub or_whole : Chars → List Chars → List Chars
or_whole p [] = p ∷ []
or_whole p (s ∷ ss) = s ∷ ss

module _ (counter : TokenCounter) where
  -- The loop of pack_units, with the units of the chunk at hand and their tokens.
  unfoldable pub pack : ℕ → List Chars → ℕ → List Chars → List Chars
  pack target current tokens [] = flush current
  pack target current tokens (u ∷ units) =
      let n = counter.count u in
      let cut_here = flush current ++ pack target (u ∷ []) n units in
      let go_on = pack target (current ++ u ∷ []) (tokens + n) units in
      if is_full current (tokens + n) target then cut_here else go_on

  unfoldable pub pack_units : List Chars → ℕ → List Chars
  unfolding pack
  pack_units units target = pack target [] 0 units

module _ (k : CharClass) where
  -- \w+|[^\w\s]
  abbrev pub starts_word : Chars → Bool
  starts_word [] = false
  starts_word (c ∷ _) = k.is_word c

  abbrev pub add_char : ℕ → Bool → Chars × List Chars → Chars × List Chars
  add_char c joins (lead, segs) =
      if k.is_space c
      then (c ∷ lead, segs)
      else if k.is_word c && joins
      then ([], grow c segs)
      else ([], (c ∷ lead) ∷ segs)

  unfoldable pub cut : Chars → Chars × List Chars
  cut [] = ([], [])
  cut (c ∷ cs) = add_char c (starts_word cs) (cut cs)

  unfoldable pub regex_count : Chars → ℕ
  regex_count t = length (cut t).1

  unfoldable pub regex_split : Chars → ℕ → Option (List Chars)
  regex_split t n =
      if ltb n 1
      then none
      else if leb (length (cut t).1) n
      then some (if is_empty t then [] else t ∷ [])
      else some (strip_all k (groups n n (cut t).1))

  abbrev pub regex_counter : TokenCounter
  regex_counter = record { count = regex_count; split = regex_split }

  module _ (counter : TokenCounter) where
    unfoldable pub enforce_hard_limit : List Chars → ℕ → Option (List Chars)
    enforce_hard_limit [] n = some []
    enforce_hard_limit (t ∷ ts) n = do
      let here =
          if leb (counter.count t) n
          then some (if is_empty (strip k t) then [] else strip k t ∷ [])
          else counter.split t n
      ps ← here
      rest ← enforce_hard_limit ts n
      some (ps ++ rest)

  -- \s*\n from here on: how many characters it takes, 0 for none. \s* gives back what the last
  -- \n needs.
  abbrev pub through_newline : Chars → ℕ
  through_newline [] = 0
  through_newline (c ∷ cs) =
      let n = through_newline cs in
      if not (k.is_space c) then 0 else if ltb 0 n then suc n else if is_newline c then 1 else 0

  -- \n\s*\n
  unfoldable pub blank_line : ℕ → Chars → ℕ
  blank_line before [] = 0
  blank_line before (c ∷ cs) = if is_newline c then after_newline (through_newline cs) else 0

  -- \s+.+
  abbrev pub title : Regex
  title = seq (plus (one k.is_space)) (plus (one (λ c. not (is_newline c))))

  -- _HEADING
  abbrev pub heading : Regex
  heading = alt (seq (char b'#') (seq (up_to 5 (char b'#')) title)) (
      alt
        (seq (one upper)
          (seq (one heading_char) (seq (one heading_char) (plus (one heading_char)))))
        (seq (plus (one k.is_digit)) (
          seq (star (seq (char b'.') (plus (one k.is_digit))))
            (seq (maybe (one (λ c. eqb c b'.' || eqb c b')'))) title))))

  module _ (counter : TokenCounter) where
    unfoldable pub units_of : ℕ → Chars → List Chars
    units_of target p =
        if fullmatch heading p || leb (counter.count p) target
        then p ∷ []
        else or_whole p (strip_all k (re_split sentence_boundary 0 0 p))

    unfoldable pub all_units : ℕ → List Chars → List Chars
    unfolding units_of
    all_units target [] = []
    all_units target (p ∷ ps) = units_of target p ++ all_units target ps

    unfoldable pub semantic_units : Chars → ℕ → List Chars
    unfolding all_units
    semantic_units t target = all_units target (strip_all k (re_split blank_line 0 0 t))

    -- `none` is the ValueError of the counter's split.
    unfoldable pub chunk_semantic : Chars → ℕ → ℕ → Option (List Chars)
    unfolding semantic_units pack_units enforce_hard_limit
    chunk_semantic t target hard =
        if is_empty (strip k t)
        then some []
        else enforce_hard_limit counter
            (pack_units counter (semantic_units (strip k t) target) target) hard
