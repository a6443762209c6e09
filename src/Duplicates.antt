-- ===== src/Duplicates.antt =====
-- graph/resolution/duplicate_collector.py: the signals, the pairs and their reviews, with
-- _normalize_identity and polarity_conflict of graph/ingestion/semantic_pass.py. A float is an
-- exact fraction; case folding, the tables of Unicode and the order of uids are arguments, and so
-- are what the vector store and the graph's queries give.
pub mod Candidates
pub mod Coverage
pub mod Pairs
pub mod Merge
pub mod Survivor
pub mod Absorbed
pub mod Applied
mod Tests
use neuron_kg.Prelude.{
  ℕ, zero, suc, ◌+◌, ◌*◌, String, ◌==◌, Bool, true, false, ◌&&◌, ◌||◌, not, Option, none, some,
  List, [], ◌∷◌, ◌++◌, map, length, if◌then◌else◌, eqb, leb, ltb,
}
use neuron_kg.Chars.{Chars, CharClass, codes, join, is_empty}
use neuron_kg.Retrieval.Windows.{elem, set}
use neuron_kg.Reviews.{Queue, create_review}

-- The maximal runs of the characters that p takes, with the run that is open.
abbrev pub closed : Chars → List Chars → List Chars
closed [] ts = ts
closed (c ∷ cs) ts = (c ∷ cs) ∷ ts

abbrev pub runs : (ℕ → Bool) → Chars → Chars → List Chars
runs p run [] = closed run []
runs p run (c ∷ cs) =
    let more = runs p (run ++ c ∷ []) cs in
    let rest = runs p [] cs in if p c then more else closed run rest

-- [a-z0-9]
abbrev pub is_plain : ℕ → Bool
is_plain c = (leb b'a' c && leb c b'z') || (leb b'0' c && leb c b'9')

unfoldable pub normalize_identity : (Chars → Chars) → Chars → Chars
normalize_identity casefold t = join (b' ' ∷ []) (runs is_plain [] (casefold t))

-- _NEG
abbrev pub markers : List Chars
markers =
    codes "not"
    ∷ codes "no longer"
    ∷ codes "don't"
    ∷ codes "do not"
    ∷ codes "never"
    ∷ codes "instead of"
    ∷ codes "rejected"
    ∷ codes "avoid"
    ∷ codes "deprecated"
    ∷ codes "stop using"
    ∷ codes "stopped using"
    ∷ []

module _ (k : CharClass) (fold : ℕ → ℕ) where
  abbrev pub at_end : Chars → Bool
  at_end [] = true
  at_end (c ∷ cs) = not (k.is_word c)

  -- A marker, whatever its case, that a word ends with.
  abbrev pub marker_here : Chars → Chars → Bool
  marker_here [] cs = at_end cs
  marker_here (m ∷ ms) [] = false
  marker_here (m ∷ ms) (c ∷ cs) = eqb (fold c) (fold m) && marker_here ms cs

  abbrev pub any_marker : List Chars → Chars → Bool
  any_marker [] cs = false
  any_marker (m ∷ ms) cs = marker_here m cs || any_marker ms cs

  -- _NEG.search, after a character that is a part of a word or not
  abbrev pub negates : Bool → Chars → Bool
  negates inside [] = false
  negates inside (c ∷ cs) = (not inside && any_marker markers (c ∷ cs)) || negates (k.is_word c) cs

  abbrev pub differ : Bool → Bool → Bool
  differ true b = not b
  differ false b = b

  unfoldable pub polarity_conflict : Chars → Chars → Bool
  polarity_conflict a b = differ (negates false a) (negates false b)

-- num / den
pub record Ratio : Type 0 where
  pub num : ℕ
  pub den : ℕ

abbrev pub count_common : List Chars → List Chars → ℕ
count_common [] ys = 0
count_common (x ∷ xs) ys = if elem x ys then suc (count_common xs ys) else count_common xs ys

-- _jaccard of two sets, given by lists
abbrev pub ratio : ℕ → ℕ → Ratio
ratio common zero = record { num = 0; den = 1 }
ratio common (suc n) = record { num = common; den = suc n }

unfoldable pub jaccard : List Chars → List Chars → Ratio
jaccard a b = ratio (count_common (set a) (set b)) (length (set (a ++ b)))

unfoldable pub lexical_overlap_score : (Chars → Chars) → Chars → Chars → Ratio
unfolding jaccard normalize_identity
lexical_overlap_score casefold a b =
    let words : Chars → List Chars = runs (λ c. not (eqb c b' ')) [] in
    jaccard (words (normalize_identity casefold a)) (words (normalize_identity casefold b))

abbrev pub plus : Ratio → Ratio → Ratio
plus a b = record { num = a.num * b.den + b.num * a.den; den = a.den * b.den }

abbrev pub below : Ratio → Ratio → Bool
below a b = ltb (a.num * b.den) (b.num * a.den)

-- The weights are 0.4, 0.2, 0.2 and 0.2.
abbrev pub weighed : ℕ → Ratio → Ratio
weighed w a = record { num = w * a.num; den = 5 * a.den }

unfoldable pub duplicate_score : Ratio → Ratio → Ratio → Ratio → Bool → Option Ratio
duplicate_score vector lexical targets sources true = none
duplicate_score vector lexical targets sources false = some (
    plus (weighed 2 vector)
      (plus (weighed 1 lexical) (plus (weighed 1 targets) (weighed 1 sources))))

pub record DuplicateCandidate : Type 0 where
  pub label : String
  pub uid_a : String
  pub uid_b : String
  pub vector_similarity : Ratio
  pub lexical_overlap : Ratio
  pub shared_targets : Ratio
  pub shared_source_records : Ratio
  pub score : Ratio

-- A node as _label_nodes and _node_name_and_text give it.
pub record Labelled : Type 0 where
  pub uid : String
  pub name : Chars
  pub text : Chars
