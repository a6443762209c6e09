-- ===== src/Chunking/Router.antt =====
-- connectors/core/chunking/router.py: the pieces of a record with their ids. The digest of a piece
-- and the id made of a digest and an occurrence are arguments, as is the route for code.
use mathlib.Core.Option.{some-injective, none-ne-some}
use neuron_kg.Prelude.{
  ℕ, ◌+◌, ◌<◌, ◌≡◌, ◌≢◌, ap, subst, String, ◌==◌, eq_refl, eq_iff, Bool, true, false, Option, none,
  some, List, [], ◌∷◌, ◌>>=◌, arith, All, Unique, if◌then◌else◌,
}
use neuron_kg.Chars.{Chars, CharClass, is_empty, strip}
use neuron_kg.Chunking.{TokenCounter, chunk_semantic}

pub record SourceChunk {ℓ} (Uid : Type ℓ) : Type ℓ where
  pub chunk_id : Uid
  pub chunk_index : ℕ
  pub text : Chars
  pub token_count : ℕ
  pub content_hash : String

-- occurrences[digest], of a defaultdict(int)
abbrev pub occurrences_of : String → List (String × ℕ) → ℕ
occurrences_of d [] = 0
occurrences_of d ((e, n) ∷ seen) = if e == d then n else occurrences_of d seen

abbrev pub count_in : String → List (String × ℕ) → List (String × ℕ)
count_in d [] = (d, 1) ∷ []
count_in d ((e, n) ∷ seen) =
    let rest = count_in d seen in if e == d then (e, n + 1) ∷ seen else (e, n) ∷ rest

module _ {ℓ} {Uid : Type ℓ} (digest : Chars → String) (make_id : String → ℕ → Uid)
    (counter : TokenCounter) where
  unfoldable pub number_pieces : ℕ → List (String × ℕ) → List Chars → List (SourceChunk Uid)
  number_pieces index seen [] = []
  number_pieces index seen (p ∷ ps) =
      record {
        chunk_id = make_id (digest p) (occurrences_of (digest p) seen);
        chunk_index = index;
        text = p;
        token_count = counter.count p;
        content_hash = digest p;
      }
      ∷ number_pieces (index + 1) (count_in (digest p) seen) ps

  abbrev pub routed :
      CharClass → Option (Chars → Option (List Chars)) → ℕ → ℕ → Chars → Option (List Chars)
  routed k none target hard text = chunk_semantic k counter text target hard
  routed k (some chunk_code) target hard text = chunk_code text

  abbrev pub numbered : Bool → Option (List Chars) → Option (List (SourceChunk Uid))
  numbered nothing pieces =
      if nothing then some [] else (pieces >>= λ ps. some (number_pieces 0 [] ps))

  -- `normalize` is normalize_text, whose NFC is the standard library's, and `code_route` is
  -- chunk_code where the record is code.
  unfoldable pub chunk_record :
      CharClass
      → (Chars → Chars)
      → Option (Chars → Option (List Chars))
      → ℕ
      → ℕ
      → Chars
      → Option (List (SourceChunk Uid))
  unfolding number_pieces
  chunk_record k normalize code_route target hard content =
      let text = strip k (normalize content) in
      numbered (is_empty text) (routed k code_route target hard text)

abbrev pub ids {ℓ} : {Uid : Type ℓ} → List (SourceChunk Uid) → List Uid
ids [] = []
ids (c ∷ cs) = c.chunk_id ∷ ids cs

occurrences_of-count_in :
    (d e : String) (seen : List (String × ℕ))
    → occurrences_of d (count_in e seen)
      ≡ (if e == d then occurrences_of d seen + 1 else occurrences_of d seen)
occurrences_of-count_in d e [] = ground (arith, eq_iff e d)
occurrences_of-count_in d e ((f, n) ∷ seen) =
    ground (arith, eq_iff e d, eq_iff f e, eq_iff f d, occurrences_of-count_in d e seen)

module _ {ℓ} {Uid : Type ℓ} (digest : Chars → String) (make_id : String → ℕ → Uid)
    (counter : TokenCounter)
    (apart : (d e : String) (i j : ℕ) → make_id d i ≡ make_id e j → (d ≡ e) × (i ≡ j)) where
  -- An id that was given away comes no more.
  past-ne :
      (d : String) (j index : ℕ) (seen : List (String × ℕ)) (ps : List Chars)
      → j < occurrences_of d seen
      → All (λ x. make_id d j ≢ x) (ids (number_pieces digest make_id counter index seen ps))
  unfolding number_pieces
  past-ne d j index seen [] h = tt
  past-ne d j index seen (p ∷ ps) h = (
    λ e.
        let (a, b) = apart d (digest p) j (occurrences_of (digest p) seen) e in
        let f = ap (λ z. occurrences_of z seen) a in absurd (omega arith),
    past-ne d j (index + 1) (count_in (digest p) seen) ps
        (ground (arith, occurrences_of-count_in d (digest p) seen)),
  )

  number_pieces-Unique :
      (index : ℕ) (seen : List (String × ℕ)) (ps : List Chars)
      → Unique (ids (number_pieces digest make_id counter index seen ps))
  unfolding number_pieces
  number_pieces-Unique index seen [] = tt
  number_pieces-Unique index seen (p ∷ ps) = (
    past-ne (digest p) (occurrences_of (digest p) seen) (index + 1) (count_in (digest p) seen) ps
        (ground (arith, occurrences_of-count_in (digest p) (digest p) seen, eq_refl (digest p))),
    number_pieces-Unique (index + 1) (count_in (digest p) seen) ps,
  )

  numbered-Unique :
      (nothing : Bool) (pieces : Option (List Chars)) (cs : List (SourceChunk Uid))
      → numbered digest make_id counter nothing pieces ≡ some cs
      → Unique (ids cs)
  numbered-Unique true pieces cs h = subst (λ z. Unique (ids z)) (some-injective _ _ h) tt
  numbered-Unique false none cs h = absurd (none-ne-some _ h)
  numbered-Unique false (some ps) cs h =
      subst (λ z. Unique (ids z)) (some-injective _ _ h) (number_pieces-Unique 0 [] ps)

  -- The chunks of a record have their own ids, also where pieces are equal or their digests clash:
  -- no two chunks of one chunk_record have one id, where ids differ for different digests or
  -- occurrences.
  pub chunk_record-Unique :
      (k : CharClass) (normalize : Chars → Chars)
      (code_route : Option (Chars → Option (List Chars))) (target hard : ℕ) (content : Chars)
      {cs : List (SourceChunk Uid)}
      → chunk_record digest make_id counter k normalize code_route target hard content ≡ some cs
      → Unique (ids cs)
  unfolding chunk_record
  chunk_record-Unique k normalize code_route target hard content {cs} h =
      let text = strip k (normalize content) in
      numbered-Unique (is_empty text) (routed digest make_id counter k code_route target hard text)
        cs h
