-- ===== src/Chars.antt =====
-- Texts as lists of code points: what str.strip, str.join and the re module do where the modules
-- of connectors/core/chunking use them. The tables of Unicode are an argument, CharClass.
pub mod Ink
pub mod Regex
use Prim.Native.Char.{code}
use neuron_kg.Prelude.{
  String, ℕ, zero, suc, ◌≡◌, Bool, true, false, List, [], ◌∷◌, ◌++◌, if◌then◌else◌,
}

abbrev pub Chars : Type 0
Chars = List ℕ

-- \w, \s and \d of the re module. str.strip removes what \s matches.
pub record CharClass : Type 0 where
  pub is_word : ℕ → Bool
  pub is_space : ℕ → Bool
  pub is_digit : ℕ → Bool
  pub apart : (c : ℕ) → is_space c ≡ true → is_word c ≡ false
  pub newline_space : is_space b'\n' ≡ true
  pub blank_space : is_space b' ' ≡ true
  pub tab_space : is_space b'\t' ≡ true

-- The code points of a text.
abbrev pub codes : String → Chars
codes String.[] = []
codes (String.◌∷◌ c s) = code c ∷ codes s

abbrev pub is_empty : Chars → Bool
is_empty [] = true
is_empty (_ ∷ _) = false

abbrev pub concat : List Chars → Chars
concat [] = []
concat (t ∷ ts) = t ++ concat ts

-- sep.join(ts)
abbrev pub join : Chars → List Chars → Chars
join sep [] = []
join sep (t ∷ []) = t
join sep (t ∷ u ∷ ts) = t ++ (sep ++ join sep (u ∷ ts))

abbrev pub push : ℕ → List Chars → List Chars
push c [] = (c ∷ []) ∷ []
push c (t ∷ ts) = (c ∷ t) ∷ ts

-- re.split(pattern, text). `sep` gives the length of the match at a place, 0 for none, from the
-- character before it and the text from there on; the count says how much of a match is left.
unfoldable pub re_split : (ℕ → Chars → ℕ) → ℕ → ℕ → Chars → List Chars
re_split sep before n [] = [] ∷ []
re_split sep before (suc n) (c ∷ cs) = re_split sep c n cs
re_split sep before zero (c ∷ cs) = elim (sep before (c ∷ cs)) [
  | zero ↦ push c (re_split sep c zero cs)
  | suc n ↦ [] ∷ re_split sep c n cs
]

module _ (k : CharClass) where
  unfoldable pub lstrip : Chars → Chars
  lstrip [] = []
  lstrip (c ∷ cs) = let rest = lstrip cs in if k.is_space c then rest else c ∷ cs

  abbrev pub trim : ℕ → Chars → Chars
  trim c [] = if k.is_space c then [] else c ∷ []
  trim c (d ∷ ds) = c ∷ d ∷ ds

  unfoldable pub rstrip : Chars → Chars
  rstrip [] = []
  rstrip (c ∷ cs) = trim c (rstrip cs)

  unfoldable pub strip : Chars → Chars
  unfolding lstrip rstrip
  strip t = rstrip (lstrip t)

  -- [part.strip() for part in parts if part.strip()]
  unfoldable pub strip_all : List Chars → List Chars
  strip_all [] = []
  strip_all (t ∷ ts) = if is_empty (strip t) then strip_all ts else strip t ∷ strip_all ts
