-- ===== src/Duplicates/Pairs.antt =====
-- graph/resolution/duplicate_collector.py: which pairs find_duplicate_candidates gives.
use neuron_kg.Prelude.{ℕ, String, ◌==◌, ◌≡◌, Bool, true, false, some, List, [], ◌∷◌, All, Member}
use neuron_kg.Prelude.Table.{find}
use neuron_kg.Chars.{Chars, CharClass}
use neuron_kg.Duplicates.{Ratio, DuplicateCandidate, Labelled, polarity_conflict, below}
use neuron_kg.Duplicates.Candidates.{
  World, Found, Pair, pair_of, same_pair, seen_in, score_of, candidate_of, hits_of, or_read,
  is_node,
}

abbrev pub pair : DuplicateCandidate → Pair
pair c = (c.uid_a, c.uid_b)

-- No two candidates are of one pair.
abbrev pub Distinct : List DuplicateCandidate → Type 0
Distinct [] = Unit
Distinct (c ∷ cs) = All (λ d. same_pair (pair c) (pair d) ≡ false) cs × Distinct cs

module _ (casefold : Chars → Chars) (k : CharClass) (fold : ℕ → ℕ) (before : String → String → Bool)
    (w : World) (label : String) (floor : Ratio) where
  -- The pair is that of a node of the label and of a hit of its search, in order; its signals and
  -- its score are those of the two nodes, the score is not below the threshold, and the texts do
  -- not contradict each other.
  pub record Proposed (c : DuplicateCandidate) : Type 0 where
    pub node : Labelled
    pub other : String
    pub similarity : Ratio
    pub listed : Member node w.nodes
    pub hit : Member (other, similarity) (hits_of casefold k fold before (w.hits node.uid))
    pub apart : (other == node.uid) ≡ false
    pub made : c ≡ candidate_of casefold k fold before w label node other similarity c.score
    pub ordered : before c.uid_a c.uid_b ≡ true
    pub scored : score_of casefold k fold before w node other similarity ≡ some c.score
    pub same_pair_of : pair c ≡ pair_of casefold k fold before node.uid other
    pub reaches : below c.score floor ≡ false
    pub agrees :
        polarity_conflict k fold node.text (or_read w other (find (is_node other) w.nodes)).text
        ≡ false

  abbrev Good : Found → Type 0
  Good f =
      Distinct f.candidates
      × (All (λ c. seen_in (pair c) f.seen_pairs ≡ true) f.candidates × All Proposed f.candidates)
