-- ===== src/Retrieval/Windows.antt =====
-- graph/retrieval/text_window.py: best_window and what it calls. The encoder and str.lower are
-- arguments; texts are lists of code points, a set of terms is the list of its members.
pub mod Cover
pub mod Best
use neuron_kg.Prelude.{
  ℕ, zero, suc, ◌+◌, ◌-◌, min, max, ◌≡◌, Bool, true, false, ◌&&◌, ◌||◌, Option, none, some, List,
  [], ◌∷◌, ◌++◌, map, length, take, if◌then◌else◌, eqb, leb, ltb,
}
use neuron_kg.Chars.{Chars, is_empty}
use neuron_kg.Sql.{drop}

pub record Encoder : Type 0 where
  pub encode : Chars → List ℕ
  pub decode : List ℕ → Chars

-- [A-Za-z0-9_]
abbrev pub in_term : ℕ → Bool
in_term c =
    (leb b'a' c && leb c b'z')
    || (leb b'A' c && leb c b'Z')
    || (leb b'0' c && leb c b'9')
    || eqb c b'_'

abbrev pub same : Chars → Chars → Bool
same [] [] = true
same [] (_ ∷ _) = false
same (_ ∷ _) [] = false
same (c ∷ cs) (d ∷ ds) = eqb c d && same cs ds

abbrev pub elem : Chars → List Chars → Bool
elem t [] = false
elem t (u ∷ us) = same t u || elem t us

abbrev pub set : List Chars → List Chars
set [] = []
set (t ∷ ts) = if elem t (set ts) then set ts else t ∷ set ts

-- A run of term characters, at its end: three at least make a term.
abbrev pub ended : Chars → List Chars → List Chars
ended run ts = if leb 3 (length run) then run ∷ ts else ts

-- _TERM_RE.findall, with the run that is open
abbrev pub find_terms : Chars → Chars → List Chars
find_terms run [] = ended run []
find_terms run (c ∷ cs) =
    let more = find_terms (run ++ c ∷ []) cs in
    let rest = find_terms [] cs in if in_term c then more else ended run rest

unfoldable pub query_terms : (Chars → Chars) → Chars → List Chars
query_terms lower question = set (map lower (find_terms [] question))

abbrev pub starts : Chars → Chars → Bool
starts [] cs = true
starts (t ∷ ts) [] = false
starts (t ∷ ts) (c ∷ cs) = eqb t c && starts ts cs

-- term in text
abbrev pub contains : Chars → Chars → Bool
contains term [] = starts term []
contains term (c ∷ cs) = starts term (c ∷ cs) || contains term cs

abbrev pub count_in : Chars → List Chars → ℕ
count_in text [] = 0
count_in text (t ∷ ts) = if contains t text then suc (count_in text ts) else count_in text ts

unfoldable pub overlap_score : (Chars → Chars) → Chars → List Chars → ℕ
overlap_score lower window terms = count_in (lower window) terms

pub record Window : Type 0 where
  pub start : ℕ
  pub end : ℕ

-- int(size * (1 - 0.5)), which the callers of _token_windows leave at its default
abbrev pub half : ℕ → ℕ
half zero = 0
half (suc zero) = 0
half (suc (suc n)) = suc (half n)

abbrev pub step : ℕ → ℕ
step size = max 1 (half size)

-- The while loop. The fuel is the count of the tokens, and each turn starts later.
unfoldable pub slide : ℕ → ℕ → ℕ → ℕ → List Window
slide zero count size start = []
slide (suc fuel) count size start =
    let rest = slide fuel count size (start + step size) in
    let end = min (start + size) count in
    let here : Window = record { start = start; end = end } in
    if leb count end then here ∷ [] else here ∷ rest

-- None is the ValueError of a size that is not positive.
unfoldable pub token_windows : ℕ → ℕ → Option (List Window)
token_windows zero size = if eqb size 0 then none else some (record { start = 0; end = 0 } ∷ [])
token_windows (suc n) size = if eqb size 0 then none else some (slide (suc n) (suc n) size 0)

-- token_ids[start:end]
abbrev pub slice : Window → List ℕ → List ℕ
slice w ids = take (w.end - w.start) (drop w.start ids)

-- The best window up to here, with its score: none is the -1 at the start.
abbrev pub better : ℕ → Chars → Option (ℕ × Chars) → ℕ × Chars
better score text none = (score, text)
better score text (some (s, t)) = if ltb s score then (score, text) else (s, t)

module _ (lower : Chars → Chars) (e : Encoder) where
  abbrev pub pick : List Chars → List ℕ → List Window → Option (ℕ × Chars) → Option (ℕ × Chars)
  pick terms ids [] best = best
  pick terms ids (w ∷ ws) best =
      let text = e.decode (slice w ids) in
      pick terms ids ws (some (better (overlap_score lower text terms) text best))

  abbrev pub picked : Option (ℕ × Chars) → Option Chars
  picked none = none
  picked (some (s, t)) = some t

  abbrev pub pick_from : List Chars → List ℕ → Option (List Window) → Option Chars
  pick_from terms ids none = none
  pick_from terms ids (some ws) = picked (pick terms ids ws none)

  unfoldable pub best_window : Chars → Chars → ℕ → Option Chars
  best_window question text tokens =
      let ids = e.encode text in
      if is_empty text || leb (length ids) tokens
      then some text
      else pick_from (query_terms lower question) ids (token_windows (length ids) tokens)
