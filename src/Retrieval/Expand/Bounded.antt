-- ===== src/Retrieval/Expand/Bounded.antt =====
-- graph/retrieval/expand.py: what expand_neighbors adds.
use neuron_kg.Prelude.{
  ℕ, zero, suc, ◌*◌, String, ◌≡◌, ◌==◌, eq_iff, Bool, true, false, ◌&&◌, not, List, [], ◌∷◌, ◌++◌,
  take, All, All-map, All-take, All-append, arith, Bool-cases, inl, inr,
}
use neuron_kg.Prelude.Table.{select, order_by, insert_sorted}
use neuron_kg.Retrieval.Expand.{
  Row, Tier, Edge, any, distinct_rows, same_row, passes, add_entry, by_seed, asserted_first,
  has_uid, add_new, add_groups, ordered_rows, max_seeds, per_seed,
}

-- What each row of a list has, each row of what is made of it has.
module _ {κ} (P : Row → Type κ) where
  All-insert_sorted :
      (r : Row) (rs : List Row) → P r → All P rs → All P (insert_sorted asserted_first r rs)
  All-insert_sorted r [] p h = (p, tt)
  All-insert_sorted r (s ∷ rs) p h = elim (Bool-cases (asserted_first s r)) [
    | inl e ↦ rw e (h.0, All-insert_sorted r rs p h.1)
    | inr e ↦ rw e (p, h)
  ]

  All-ordered : (rs : List Row) → All P rs → All P (order_by asserted_first rs)
  All-ordered [] h = tt
  All-ordered (r ∷ rs) h = All-insert_sorted r (order_by asserted_first rs) h.0 (All-ordered rs h.1)

  pub All-distinct_rows : (seen rs : List Row) → All P rs → All P (distinct_rows seen rs)
  All-distinct_rows seen [] h = tt
  All-distinct_rows seen (r ∷ rs) h = elim (Bool-cases (any (same_row r) seen)) [
    | inl e ↦ rw e (All-distinct_rows seen rs h.1)
    | inr e ↦ rw e (h.0, All-distinct_rows (r ∷ seen) rs h.1)
  ]

  All-add_entry :
      (r : Row) (g : List (String × List Row))
      → P r
      → All (λ x. All P x.1) g
      → All (λ x. All P x.1) (add_entry r g)
  All-add_entry r [] p h = ((p, tt), tt)
  All-add_entry r ((s, es) ∷ g) p h = elim (Bool-cases (s == r.seed)) [
    | inl e ↦ rw e (All-append P es (r ∷ []) h.0 (p, tt), h.1)
    | inr e ↦ rw e (h.0, All-add_entry r g p h.1)
  ]

  All-by_seed :
      (g : List (String × List Row)) (rs : List Row)
      → All (λ x. All P x.1) g
      → All P rs
      → All (λ x. All P x.1) (by_seed g rs)
  All-by_seed g [] h k = h
  All-by_seed g (r ∷ rs) h k = All-by_seed (add_entry r g) rs (All-add_entry r g k.0 h) k.1

  All-add_new : (done es : List Row) → All P done → All P es → All P (add_new done es)
  All-add_new done [] h k = h
  All-add_new done (e ∷ es) h k = elim (Bool-cases (has_uid e.uid done)) [
    | inl q ↦ rw q (All-add_new done es h k.1)
    | inr q ↦ rw q (All-add_new (done ++ e ∷ []) es (All-append P done (e ∷ []) h (k.0, tt)) k.1)
  ]

  All-add_groups :
      (done : List Row) (g : List (String × List Row))
      → All P done
      → All (λ x. All P x.1) g
      → All P (add_groups done g)
  All-add_groups done [] h k = h
  All-add_groups done ((s, es) ∷ g) h k =
      let chosen = take per_seed (order_by asserted_first es) in
      All-add_groups (add_new done chosen) g
        (All-add_new done chosen h (All-take P per_seed _ (All-ordered es k.0))) k.1

  pub All-ordered_rows :
      (edges : List Edge) (floor : Tier) (rs : List Row)
      → All P (select (passes edges floor) rs)
      → All P (ordered_rows edges floor rs)
  All-ordered_rows edges floor rs h =
      All-take P (max_seeds * per_seed) _
        (All-ordered _ (All-add_groups [] _ tt (All-by_seed [] _ tt h)))

-- No two rows are of one node.
abbrev pub UniqueUid : List Row → Type 0
UniqueUid [] = Unit
UniqueUid (r ∷ rs) = All (λ t. (r.uid == t.uid) ≡ false) rs × UniqueUid rs

-- No asserted row comes after a derived one.
abbrev pub AssertedFirst : List Row → Type 0
AssertedFirst [] = Unit
AssertedFirst (r ∷ rs) = All (λ t. asserted_first t r ≡ false) rs × AssertedFirst rs

flip : (a b : String) → (a == b) ≡ false → (b == a) ≡ false
flip a b e = ground (arith, eq_iff a b, eq_iff b a, e)

UniqueUid-insert_sorted :
    (r : Row) (rs : List Row)
    → All (λ t. (r.uid == t.uid) ≡ false) rs
    → UniqueUid rs
    → UniqueUid (insert_sorted asserted_first r rs)
UniqueUid-insert_sorted r [] h u = (tt, tt)
UniqueUid-insert_sorted r (s ∷ rs) h u = elim (Bool-cases (asserted_first s r)) [
  | inl e ↦ rw e (
    All-insert_sorted (λ t. (s.uid == t.uid) ≡ false) r rs (flip r.uid s.uid h.0) u.0,
    UniqueUid-insert_sorted r rs h.1 u.1,
  )
  | inr e ↦ rw e (h, u)
]

pub UniqueUid-ordered : (rs : List Row) → UniqueUid rs → UniqueUid (order_by asserted_first rs)
UniqueUid-ordered [] u = tt
UniqueUid-ordered (r ∷ rs) u =
    UniqueUid-insert_sorted r (order_by asserted_first rs)
      (All-ordered (λ t. (r.uid == t.uid) ≡ false) rs u.0) (UniqueUid-ordered rs u.1)

UniqueUid-snoc :
    (done : List Row) (e : Row)
    → has_uid e.uid done ≡ false
    → UniqueUid done
    → UniqueUid (done ++ e ∷ [])
UniqueUid-snoc [] e h u = (tt, tt)
UniqueUid-snoc (r ∷ rs) e h u = (
  All-append (λ t. (r.uid == t.uid) ≡ false) rs (e ∷ []) u.0 (flip e.uid r.uid (ground arith), tt),
  UniqueUid-snoc rs e (ground arith) u.1,
)

UniqueUid-add_new : (done es : List Row) → UniqueUid done → UniqueUid (add_new done es)
UniqueUid-add_new done [] u = u
UniqueUid-add_new done (e ∷ es) u = elim (Bool-cases (has_uid e.uid done)) [
  | inl q ↦ rw q (UniqueUid-add_new done es u)
  | inr q ↦ rw q (UniqueUid-add_new (done ++ e ∷ []) es (UniqueUid-snoc done e q u))
]

pub UniqueUid-add_groups :
    (done : List Row) (g : List (String × List Row))
    → UniqueUid done
    → UniqueUid (add_groups done g)
UniqueUid-add_groups done [] u = u
UniqueUid-add_groups done ((s, es) ∷ g) u =
    let chosen = take per_seed (order_by asserted_first es) in
    UniqueUid-add_groups (add_new done chosen) g (UniqueUid-add_new done chosen u)

pub UniqueUid-take : (n : ℕ) (rs : List Row) → UniqueUid rs → UniqueUid (take n rs)
UniqueUid-take zero rs u = tt
UniqueUid-take (suc n) [] u = tt
UniqueUid-take (suc n) (r ∷ rs) u =
    (All-take (λ t. (r.uid == t.uid) ≡ false) n rs u.0, UniqueUid-take n rs u.1)

AssertedFirst-insert_sorted :
    (r : Row) (rs : List Row) → AssertedFirst rs → AssertedFirst (insert_sorted asserted_first r rs)
AssertedFirst-insert_sorted r [] u = (tt, tt)
AssertedFirst-insert_sorted r (s ∷ rs) u = elim (Bool-cases (asserted_first s r)) [
  | inl e ↦ rw e (
    All-insert_sorted (λ t. asserted_first t s ≡ false) r rs (asym s.is_derived r.is_derived e) u.0,
    AssertedFirst-insert_sorted r rs u.1,
  )
  | inr e ↦ rw e ((e, All-map (λ t q. trans t.is_derived s.is_derived r.is_derived q e) rs u.0), u)
]
  where
    asym : (a b : Bool) → (not a && b) ≡ true → (not b && a) ≡ false
    asym a b e = ground arith

    trans : (a b c : Bool) → (not a && b) ≡ false → (not b && c) ≡ false → (not a && c) ≡ false
    trans a b c e h = ground arith

pub AssertedFirst-ordered : (rs : List Row) → AssertedFirst (order_by asserted_first rs)
AssertedFirst-ordered [] = tt
AssertedFirst-ordered (r ∷ rs) =
    AssertedFirst-insert_sorted r (order_by asserted_first rs) (AssertedFirst-ordered rs)

pub AssertedFirst-take : (n : ℕ) (rs : List Row) → AssertedFirst rs → AssertedFirst (take n rs)
AssertedFirst-take zero rs u = tt
AssertedFirst-take (suc n) [] u = tt
AssertedFirst-take (suc n) (r ∷ rs) u =
    (All-take (λ t. asserted_first t r ≡ false) n rs u.0, AssertedFirst-take n rs u.1)
