-- ===== src/Reviews/Outcomes.antt =====
-- What the decisions answer, in the queues that the methods reach.
use neuron_kg.Prelude.{
  ℕ, suc, ◌<◌, String, ◌≡◌, refl, true, false, not, Option, none, some, List, [], map, arith, eqb,
  is_some, inl, inr, Bool-cases, Option-cases, All, All-map, All-append, Member, Unique,
}
use neuron_kg.Prelude.Table.{find, update, rowcount, All-update, map-update}
use neuron_kg.Prelude.Rows.{Unique-insert, Unique-same}
use neuron_kg.Prelude.Updates.{rowcount-Member, rowcount-zero, find-update_key}
use neuron_kg.Reviews.{
  Review, ReviewState, approved, rejected, Queue, is_declined, new_review, create_review,
  has_review_id, is_pending, is_open, decided, approve_review, reject_review,
}
use neuron_kg.Reviews.Deciding.{
  created, accepted, declined, Run, stay, further, create-reviews, approve-reviews, reject-reviews,
}

abbrev pub ids : List Review → List ℕ
ids rs = map (λ r. r.id) rs

-- No id twice, and a decider and a time exactly on the decided reviews.
abbrev pub AreSound : List Review → Type 0
AreSound rs =
    Unique (ids rs)
    × All
        (λ r.
          (is_some r.decided_by ≡ not (is_pending r.state))
          × (is_some r.decided_at ≡ not (is_pending r.state)))
        rs

abbrev pub Below : ℕ → List Review → Type 0
Below n rs = All (λ r. r.id < n) rs

abbrev pub empty : Queue
empty = record { reviews = []; rejections = []; next_id = 1 }

create-Below :
    (type payload : String) (identity : Option String) (now : ℕ) (q : Queue)
    → Below q.next_id q.reviews
    → Below
        (create_review type payload identity now q).0.next_id
        (create_review type payload identity now q).0.reviews
unfolding create_review
create-Below type payload identity now q h = elim (Bool-cases (is_declined identity q)) [
  | inl t ↦ rw (t, create_review) h
  | inr t ↦
      rw (t, create_review)
        (All-append (λ r. r.id < suc q.next_id) q.reviews _
          (All-map (λ r l. omega arith) q.reviews h) (omega arith, tt))
]

create-AreSound :
    (type payload : String) (identity : Option String) (now : ℕ) (q : Queue)
    → Below q.next_id q.reviews
    → AreSound q.reviews
    → AreSound (create_review type payload identity now q).0.reviews
create-AreSound type payload identity now q h s =
    create-reviews AreSound type payload identity now q s (
      Unique-insert (λ r. r.id) q.reviews (new_review q.next_id type payload identity now)
          (All-map (λ r l e. omega arith) q.reviews h) s.0,
      All-append _ q.reviews _ s.1 ((refl, refl), tt),
    )

decided-AreSound :
    (state : ReviewState) (i : ℕ) (by : String) (now : ℕ) (rs : List Review)
    → is_pending state ≡ false
    → AreSound rs
    → AreSound (update (is_open i) (decided state by now) rs)
decided-AreSound state i by now rs closed s = (
  rw (map-update (λ r. r.id) (is_open i) (decided state by now) rs (λ r. refl)) s.0,
  All-update _ (is_open i) (decided state by now) rs (λ r _ _. (ground arith, ground arith)) s.1,
)

approve-Below :
    (i : ℕ) (by : String) (now : ℕ) (q : Queue)
    → Below q.next_id q.reviews
    → Below (approve_review i by now q).0.next_id (approve_review i by now q).0.reviews
unfolding approve_review
approve-Below i by now q h = elim (Bool-cases (eqb (rowcount (is_open i) q.reviews) 0)) [
  | inl t ↦ rw (t, approve_review) h
  | inr t ↦
      rw (t, approve_review)
        (All-update (λ r. r.id < q.next_id) (is_open i) (decided approved by now) q.reviews
          (λ r _ l. l) h)
]

reject-Below :
    (i : ℕ) (by : String) (now : ℕ) (q : Queue)
    → Below q.next_id q.reviews
    → Below (reject_review i by now q).0.next_id (reject_review i by now q).0.reviews
unfolding reject_review
reject-Below i by now q h = elim (Bool-cases (eqb (rowcount (is_open i) q.reviews) 0)) [
  | inl t ↦ rw (t, reject_review) h
  | inr t ↦
      elim (Option-cases
        (find (has_review_id i) (update (is_open i) (decided rejected by now) q.reviews))) [
          | inl e ↦ rw (t, e, reject_review) h
          | inr (r, e) ↦
              rw (t, e, reject_review)
                (All-update (λ r. r.id < q.next_id) (is_open i) (decided rejected by now) q.reviews
                  (λ r _ l. l) h)
        ]
]

-- In every queue that the methods reach from the empty one no two reviews have one id, new ids
-- are above all earlier ones, and a review has a decider and a time exactly when it is decided.
pub Run-AreSound : {q : Queue} → Run empty q → Below q.next_id q.reviews × AreSound q.reviews
Run-AreSound stay = (tt, (tt, tt))
Run-AreSound (further {p = p} run (created type payload identity now)) =
    let (h, s) = Run-AreSound run in
    (create-Below type payload identity now p h, create-AreSound type payload identity now p h s)
Run-AreSound (further {p = p} run (accepted i by now)) =
    let (h, s) = Run-AreSound run in
    (
      approve-Below i by now p h,
      approve-reviews AreSound i by now p s (decided-AreSound approved i by now p.reviews refl s),
    )
Run-AreSound (further {p = p} run (declined i by now)) =
    let (h, s) = Run-AreSound run in
    (
      reject-Below i by now p h,
      reject-reviews AreSound i by now p s (decided-AreSound rejected i by now p.reviews refl s),
    )

-- What a decision answers: the pending review with that id, decided, which the table then has;
-- or nothing, where there is none, and the queue is as before.
pub data Answer (state : ReviewState) (i : ℕ) (by : String) (now : ℕ) (q : Queue)
    (result : Queue × Option Review) : Type 0 where
  was_open :
      (r : Review)
      → Member r q.reviews
      → r.id ≡ i
      → is_pending r.state ≡ true
      → result.1 ≡ some (decided state by now r)
      → result.0.reviews ≡ update (is_open i) (decided state by now) q.reviews
      → Answer state i by now q result
  was_closed :
      All (λ r. r.id ≡ i → is_pending r.state ≡ false) q.reviews
      → result ≡ (q, none)
      → Answer state i by now q result

module _ (i : ℕ) (by : String) (now : ℕ) (q : Queue) where
  found-decided :
      (state : ReviewState) {r : Review}
      → Unique (ids q.reviews)
      → is_open i r ≡ true
      → Member r q.reviews
      → find (has_review_id i) (update (is_open i) (decided state by now) q.reviews)
        ≡ some (decided state by now r)
  found-decided state {r} u met m =
      find-update_key (is_open i) (has_review_id i) (decided state by now) q.reviews (λ s. refl) met
        (ground arith)
        (All-map (λ s same h. same (ground arith)) q.reviews
          (Unique-same (λ r. r.id) q.reviews u m))
        m

  closed :
      All (λ r. is_open i r ≡ false) q.reviews
      → All (λ r. r.id ≡ i → is_pending r.state ≡ false) q.reviews
  closed h = All-map (λ r e same. ground arith) q.reviews h

  approve-Answer : Unique (ids q.reviews) → Answer approved i by now q (approve_review i by now q)
  unfolding approve_review
  approve-Answer u = elim (Bool-cases (eqb (rowcount (is_open i) q.reviews) 0)) [
    | inl t ↦
        was_closed (closed (rowcount-zero (is_open i) q.reviews t)) (rw (t, approve_review) refl)
    | inr t ↦
        let (r, met, m) = rowcount-Member (is_open i) q.reviews t in
        was_open r m (ground arith) (ground arith)
          (rw (t, approve_review) (found-decided approved u met m)) (rw (t, approve_review) refl)
  ]

  reject-Answer : Unique (ids q.reviews) → Answer rejected i by now q (reject_review i by now q)
  unfolding reject_review
  reject-Answer u = elim (Bool-cases (eqb (rowcount (is_open i) q.reviews) 0)) [
    | inl t ↦
        was_closed (closed (rowcount-zero (is_open i) q.reviews t)) (rw (t, reject_review) refl)
    | inr t ↦
        let (r, met, m) = rowcount-Member (is_open i) q.reviews t in
        let found = found-decided rejected u met m in
        was_open r m (ground arith) (ground arith) (rw (t, found, reject_review) refl)
          (rw (t, found, reject_review) refl)
  ]

-- In a reachable queue approve_review and reject_review decide the pending review with the given
-- id and return it, or change nothing and return nothing where no pending review has that id.
pub decisions-Answer :
    {q : Queue} (i : ℕ) (by : String) (now : ℕ)
    → Run empty q
    → Answer approved i by now q (approve_review i by now q)
      × Answer rejected i by now q (reject_review i by now q)
decisions-Answer {q} i by now run =
    let (h, s) = Run-AreSound run in (approve-Answer i by now q s.0, reject-Answer i by now q s.0)
