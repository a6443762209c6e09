-- ===== src/Duplicates/Survivor.antt =====
-- graph/resolution/duplicate_collector.py: which node survives.
use neuron_kg.Prelude.{
  ℕ, String, ◌≡◌, refl, true, false, ◌||◌, not, Option, none, some, if◌then◌else◌, eqb, ltb, arith,
  Bool-cases, inl, inr, ◌⊎◌,
}
use neuron_kg.Prelude.Table.{find}
use neuron_kg.Duplicates.Merge.{
  State, choose_survivor, node_reinforcement, is_older, seen_at, is_seen,
}

older_asym : (a b : Option ℕ) → is_older a b ≡ true → is_older b a ≡ false
older_asym none b e = ground arith
older_asym (some a) none e = refl
older_asym (some a) (some b) e = ground arith

uneven :
    (m n : ℕ) (f g : Option ℕ) (a b : String)
    → eqb m n ≡ false
    → Path
        (String × String)
        (if not (eqb m n)
          then (if ltb n m then (a, b) else (b, a))
          else if is_older g f
          then (b, a)
          else (a, b))
        (if not (eqb n m)
          then (if ltb m n then (b, a) else (a, b))
          else if is_older f g
          then (a, b)
          else (b, a))
uneven m n f g a b e =
    let back : eqb n m ≡ false = ground arith in
    elim (Bool-cases (ltb n m)) [
      | inl q ↦ let less : ltb m n ≡ false = ground arith in rw (e, back, q, less) refl
      | inr q ↦ let less : ltb m n ≡ true = ground arith in rw (e, back, q, less) refl
    ]

either :
    (m n : ℕ) (f g : Option ℕ) (a b : String)
    → (eqb m n ≡ false) ⊎ (is_older g f || is_older f g) ≡ true
    → Path
        (String × String)
        (if not (eqb m n)
          then (if ltb n m then (a, b) else (b, a))
          else if is_older g f
          then (b, a)
          else (a, b))
        (if not (eqb n m)
          then (if ltb m n then (b, a) else (a, b))
          else if is_older f g
          then (a, b)
          else (b, a))
either m n f g a b (inl e) = uneven m n f g a b e
either m n f g a b (inr e) = elim (Bool-cases (eqb m n)) [
  | inr q ↦ uneven m n f g a b q
  | inl q ↦
      let back : eqb n m ≡ true = ground arith in
      elim (Bool-cases (is_older g f)) [
        | inl t ↦ rw (q, back, t, older_asym g f t) refl
        | inr t ↦ let other : is_older f g ≡ true = rw t at e in rw (q, back, t, other) refl
      ]
]

-- In whichever order a pair is named, the same node survives, unless both have as many supporting
-- records and were first seen at the same time, or neither has a time.
pub choose_survivor_symmetric :
    (s : State) (a b : String)
    → (eqb (node_reinforcement s.graph a) (node_reinforcement s.graph b) ≡ false)
      ⊎ (is_older (seen_at (find (is_seen b) s.seen)) (seen_at (find (is_seen a) s.seen))
          || is_older (seen_at (find (is_seen a) s.seen)) (seen_at (find (is_seen b) s.seen)))
        ≡ true
    → choose_survivor s a b ≡ choose_survivor s b a
unfolding choose_survivor
choose_survivor_symmetric s a b h =
    either (node_reinforcement s.graph a) (node_reinforcement s.graph b)
      (seen_at (find (is_seen a) s.seen)) (seen_at (find (is_seen b) s.seen)) a b h
