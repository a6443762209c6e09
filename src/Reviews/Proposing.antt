-- ===== src/Reviews/Proposing.antt =====
-- connectors/core/ledger.py: proposals after a rejection.
use neuron_kg.Prelude.{
  ℕ, String, ◌≡◌, ◌∙◌, true, ◌||◌, none, some, List, [], ◌∷◌, arith, ◌==◌, eq_iff, eq_refl, eqb,
  is_some, inl, inr, Bool-cases, Option-cases,
}
use neuron_kg.Prelude.Table.{find, update, rowcount}
use neuron_kg.Reviews.{
  Review, rejected, Rejection, Queue, names, is_identity_rejected, is_declined, create_review,
  has_review_id, is_open, decided, approve_review, reject_review, put_rejection, cache_rejection,
}
use neuron_kg.Reviews.Deciding.{Step, created, accepted, declined, Run, stay, further}

find-put_rejection :
    (j : String) (r : Rejection) (rs : List Rejection)
    → is_some (find (names j) (put_rejection r rs))
      ≡ (r.identity == j || is_some (find (names j) rs))
find-put_rejection j r [] = ground arith
find-put_rejection j r (s ∷ rs) = ground (
  arith,
  find-put_rejection j r rs,
  eq_iff s.identity r.identity,
  eq_iff s.identity j,
  eq_iff r.identity j,
)

cache-keeps :
    (j : String) (r : Review) (now : ℕ) (rs : List Rejection)
    → is_some (find (names j) rs) ≡ true
    → is_some (find (names j) (cache_rejection r now rs)) ≡ true
cache-keeps j r now rs h = elim (Option-cases r.identity) [
  | inl e ↦ rw e h
  | inr (i, e) ↦ rw e (
      find-put_rejection j
        (record { identity = i; type = r.type; review_id = r.id; rejected_at = now }) rs
      ∙ ground arith)
]

cache-adds :
    (j : String) (r : Review) (now : ℕ) (rs : List Rejection)
    → r.identity ≡ some j
    → is_some (find (names j) (cache_rejection r now rs)) ≡ true
cache-adds j r now rs e = rw e (
    find-put_rejection j
      (record { identity = j; type = r.type; review_id = r.id; rejected_at = now }) rs
    ∙ ground (arith, eq_refl j))

Step-keeps_rejected :
    {q p : Queue} (i : String)
    → Step q p
    → is_identity_rejected i q ≡ true
    → is_identity_rejected i p ≡ true
unfolding is_identity_rejected create_review approve_review reject_review
Step-keeps_rejected {q} i (created type payload identity now) h =
    elim (Bool-cases (is_declined identity q)) [
      | inl t ↦ rw (t, create_review) h
      | inr t ↦ rw (t, create_review) h
    ]
Step-keeps_rejected {q} i (accepted n by now) h =
    elim (Bool-cases (eqb (rowcount (is_open n) q.reviews) 0)) [
      | inl t ↦ rw (t, approve_review) h
      | inr t ↦ rw (t, approve_review) h
    ]
Step-keeps_rejected {q} i (declined n by now) h =
    elim (Bool-cases (eqb (rowcount (is_open n) q.reviews) 0)) [
      | inl t ↦ rw (t, reject_review) h
      | inr t ↦
          elim (Option-cases
            (find (has_review_id n) (update (is_open n) (decided rejected by now) q.reviews))) [
              | inl e ↦ rw (t, e, reject_review) h
              | inr (r, e) ↦ rw (t, e, reject_review) (cache-keeps i r now q.rejections h)
            ]
    ]

Run-keeps_rejected :
    {q p : Queue} (i : String)
    → Run q p
    → is_identity_rejected i q ≡ true
    → is_identity_rejected i p ≡ true
Run-keeps_rejected i stay h = h
Run-keeps_rejected i (further run s) h = Step-keeps_rejected i s (Run-keeps_rejected i run h)

-- Where a review with an identity was rejected, no call of create_review with that identity adds
-- a review or gives an id, after whatever further calls.
pub rejected_stays :
    (q : Queue) {p : Queue} (n : ℕ) (by : String) (now : ℕ) (r : Review) (i : String)
    → (reject_review n by now q).1 ≡ some r
    → r.identity ≡ some i
    → Run (reject_review n by now q).0 p
    → (type payload : String) (later : ℕ) → create_review type payload (some i) later p ≡ (p, none)
unfolding is_identity_rejected create_review reject_review
rejected_stays q {p} n by now r i e named run type payload later =
    rw (Run-keeps_rejected i run cached, create_review)
  where
    cached : is_identity_rejected i (reject_review n by now q).0 ≡ true
    cached = elim (Bool-cases (eqb (rowcount (is_open n) q.reviews) 0)) [
      | inl t ↦ absurd (ground arith)
      | inr t ↦
          elim (Option-cases
            (find (has_review_id n) (update (is_open n) (decided rejected by now) q.reviews))) [
              | inl f ↦ absurd (ground arith)
              | inr (s, f) ↦
                  rw (t, f, reject_review) (cache-adds i s now q.rejections (ground arith))
            ]
    ]
