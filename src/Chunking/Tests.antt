-- ===== src/Chunking/Tests.antt =====
-- ASCII texts cut into chunks.
use neuron_kg.Prelude.{
  ℕ, ◌≤◌, ◌≡◌, refl, String, Bool, true, false, ◌&&◌, ◌||◌, Option, none, some, List, [], ◌∷◌,
  arith, All, leb, eqb, if◌then◌else◌,
}
use neuron_kg.Chars.{Chars, codes, CharClass, concat, lstrip, rstrip, strip, strip_all, re_split}
use neuron_kg.Chars.Ink.{ink}
use neuron_kg.Chars.Regex.{fullmatch}
use neuron_kg.Chunking.{
  IsCounter, cut, groups, regex_count, regex_split, regex_counter, pack, pack_units, heading,
  blank_line, sentence_boundary, units_of, all_units, semantic_units, enforce_hard_limit,
  chunk_semantic,
}
use neuron_kg.Chunking.Limit.{regex_counter-IsCounter}
use neuron_kg.Chunking.Lossless.{chunk_semantic-lossless}
use neuron_kg.Chunking.Router.{SourceChunk, ids, number_pieces, chunk_record}

abbrev digit : ℕ → Bool
digit c = leb b'0' c && leb c b'9'

abbrev word : ℕ → Bool
word c = digit c || leb b'a' c && leb c b'z' || leb b'A' c && leb c b'Z' || eqb c b'_'

abbrev space : ℕ → Bool
space c = leb 9 c && leb c 13 || eqb c b' '

classes_apart : (c : ℕ) → space c ≡ true → word c ≡ false
classes_apart c h = ground arith

abbrev ascii : CharClass
ascii = record {
  is_word = word;
  is_space = space;
  is_digit = digit;
  apart = classes_apart;
  newline_space = refl;
  blank_space = refl;
  tab_space = refl;
}

counts : regex_count ascii (codes "Hello, big world! ") ≡ 5
unfolding regex_count cut
counts = refl

splits :
    regex_split ascii (codes " Hello, big  world! ") 2
    ≡ some (codes "Hello," ∷ codes "big  world" ∷ codes "!" ∷ [])
unfolding regex_split cut groups strip_all strip lstrip rstrip
splits = refl

refuses : regex_split ascii (codes "a") 0 ≡ none
unfolding regex_split
refuses = refl

numbered_heading : fullmatch (heading ascii) (codes "2.1) All of it. And more.") ≡ true
unfolding fullmatch
numbered_heading = refl

no_heading : fullmatch (heading ascii) (codes "All of it.") ≡ false
unfolding fullmatch
no_heading = refl

abbrev page : Chars
page = codes "# Title\n \n\nOne two. Three four five!\nSix seven.  "

units :
    semantic_units ascii (regex_counter ascii) page 4
    ≡ codes "# Title" ∷ codes "One two." ∷ codes "Three four five!" ∷ codes "Six seven." ∷ []
unfolding semantic_units units_of all_units re_split blank_line sentence_boundary strip_all strip
    lstrip rstrip regex_count cut fullmatch
units = refl

chunks :
    chunk_semantic ascii (regex_counter ascii) page 5 3
    ≡ some (
        codes "# Title\n\nOne"
        ∷ codes "two."
        ∷ codes "Three four five"
        ∷ codes "!"
        ∷ codes "Six seven."
        ∷ [])
unfolding chunk_semantic semantic_units units_of all_units re_split blank_line sentence_boundary
    strip_all strip lstrip rstrip regex_count cut fullmatch pack pack_units enforce_hard_limit
    regex_split groups
chunks = refl

regex_counter-IsCounter_example : IsCounter ascii (regex_counter ascii)
regex_counter-IsCounter_example = regex_counter-IsCounter ascii

chunk_semantic-lossless_example :
    (ps : List Chars) × (chunk_semantic ascii (regex_counter ascii) page 5 3 ≡ some ps)
    × All (λ p. regex_count ascii p ≤ 3) ps
    × (ink ascii (concat ps) ≡ ink ascii page)
chunk_semantic-lossless_example =
    chunk_semantic-lossless ascii (regex_counter ascii) page 5 3 (regex_counter-IsCounter ascii)
      (omega arith)

abbrev first_digest : Chars → String
first_digest [] = "none"
first_digest (c ∷ _) = if eqb c b'o' then "o" else "x"

abbrev pair : String → ℕ → String × ℕ
pair d n = (d, n)

abbrev pieces : List (SourceChunk (String × ℕ))
pieces =
    number_pieces first_digest pair (regex_counter ascii) 0 []
      (codes "one" ∷ codes "two" ∷ codes "ore" ∷ [])

third_is_second_o : ids pieces ≡ ("o", 0) ∷ ("x", 0) ∷ ("o", 1) ∷ []
unfolding number_pieces
third_is_second_o = refl

abbrev words : Chars → Option (List Chars)
words t = some (codes "one" ∷ codes "two" ∷ codes "ore" ∷ [])

routes :
    chunk_record first_digest pair
      (regex_counter ascii)
      ascii
      (λ t. t)
      (some words)
      5
      3
      (codes "one two ore")
    ≡ some pieces
unfolding chunk_record number_pieces strip lstrip rstrip
routes = refl
