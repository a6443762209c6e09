-- ===== src/Reviews/Deciding.antt =====
-- connectors/core/ledger.py: the decisions on reviews, the queue as a transition system.
use neuron_kg.Prelude.{
  ℕ, String, ◌≡◌, false, Option, List, [], ◌∷◌, ◌++◌, arith, eqb, inl, inr, Bool-cases,
  Option-cases, Member,
}
use neuron_kg.Prelude.Table.{find, update, rowcount}
use neuron_kg.Prelude.Rows.{Member-left, Member-update_miss}
use neuron_kg.Reviews.{
  Review, approved, rejected, Queue, is_declined, new_review, create_review, has_review_id,
  is_pending, is_open, decided, approve_review, reject_review,
}

-- One call of a method that writes.
pub data Step (q : Queue) : Queue → Type 0 where
  created :
      (type payload : String) (identity : Option String) (now : ℕ)
      → Step q (create_review type payload identity now q).0
  accepted : (i : ℕ) (by : String) (now : ℕ) → Step q (approve_review i by now q).0
  declined : (i : ℕ) (by : String) (now : ℕ) → Step q (reject_review i by now q).0

-- Any number of calls.
pub data Run (q : Queue) : Queue → Type 0 where
  stay : Run q q
  further : {p r : Queue} → Run q p → Step p r → Run q r

-- The three outcomes of a method on the rows: none, one more row, or a decision.
pub create-reviews {ℓ} :
    (P : List Review → Type ℓ) (type payload : String) (identity : Option String) (now : ℕ)
    (q : Queue)
    → P q.reviews
    → P (q.reviews ++ new_review q.next_id type payload identity now ∷ [])
    → P (create_review type payload identity now q).0.reviews
unfolding create_review
create-reviews P type payload identity now q same more =
    elim (Bool-cases (is_declined identity q)) [
      | inl t ↦ rw (t, create_review) same
      | inr t ↦ rw (t, create_review) more
    ]

pub approve-reviews {ℓ} :
    (P : List Review → Type ℓ) (i : ℕ) (by : String) (now : ℕ) (q : Queue)
    → P q.reviews
    → P (update (is_open i) (decided approved by now) q.reviews)
    → P (approve_review i by now q).0.reviews
unfolding approve_review
approve-reviews P i by now q same after =
    elim (Bool-cases (eqb (rowcount (is_open i) q.reviews) 0)) [
      | inl t ↦ rw (t, approve_review) same
      | inr t ↦ rw (t, approve_review) after
    ]

pub reject-reviews {ℓ} :
    (P : List Review → Type ℓ) (i : ℕ) (by : String) (now : ℕ) (q : Queue)
    → P q.reviews
    → P (update (is_open i) (decided rejected by now) q.reviews)
    → P (reject_review i by now q).0.reviews
unfolding reject_review
reject-reviews P i by now q same after =
    elim (Bool-cases (eqb (rowcount (is_open i) q.reviews) 0)) [
      | inl t ↦ rw (t, reject_review) same
      | inr t ↦
          elim (Option-cases
            (find (has_review_id i) (update (is_open i) (decided rejected by now) q.reviews))) [
              | inl e ↦ rw (t, e, reject_review) same
              | inr (r, e) ↦ rw (t, e, reject_review) after
            ]
    ]

Step-keeps_decided :
    {q p : Queue} {r : Review}
    → Step q p
    → is_pending r.state ≡ false
    → Member r q.reviews
    → Member r p.reviews
Step-keeps_decided {q} {r = r} (created type payload identity now) closed m =
    create-reviews (λ rs. Member r rs) type payload identity now q m (Member-left q.reviews _ m)
Step-keeps_decided {q} {r = r} (accepted i by now) closed m =
    approve-reviews (λ rs. Member r rs) i by now q m
      (Member-update_miss (is_open i) (decided approved by now) q.reviews (ground arith) m)
Step-keeps_decided {q} {r = r} (declined i by now) closed m =
    reject-reviews (λ rs. Member r rs) i by now q m
      (Member-update_miss (is_open i) (decided rejected by now) q.reviews (ground arith) m)

-- A review that has been decided keeps its state, its decider and its time, whatever is called
-- afterwards.
pub decided_once :
    {q p : Queue} {r : Review}
    → Run q p
    → is_pending r.state ≡ false
    → Member r q.reviews
    → Member r p.reviews
decided_once stay closed m = m
decided_once (further run s) closed m = Step-keeps_decided s closed (decided_once run closed m)
