-- ===== src/Reviews/Linking.antt =====
-- connectors/core/ledger.py: candidate links by their ends and their relation.
use neuron_kg.Prelude.{
  ℕ, String, ◌≡◌, refl, sym, ap, ◌∙◌, Bool, true, false, Option, none, some, List, [], ◌∷◌, ◌++◌,
  arith, eq_refl, eqb, inl, inr, Bool-cases, Option-cases, Member,
}
use neuron_kg.Prelude.Table.{find, update, rowcount}
use neuron_kg.Prelude.Rows.{Member-left, Member-update_miss}
use neuron_kg.Reviews.{
  ReviewState, approved, rejected, is_pending, LinkCandidate, Candidates, is_link,
  create_link_candidate, is_open_candidate, decide_link_candidate, approve_link_candidate,
  reject_link_candidate,
}

-- One call of a method that writes.
pub data Step (cs : Candidates) : Candidates → Type 0 where
  created :
      (from to relation : String) (confidence : ℕ) (rule : String) (now : ℕ)
      → Step cs (create_link_candidate from to relation confidence rule now cs).0
  accepted : (i now : ℕ) → Step cs (approve_link_candidate i now cs).0
  declined : (i now : ℕ) → Step cs (reject_link_candidate i now cs).0

pub data Run (cs : Candidates) : Candidates → Type 0 where
  stay : Run cs cs
  further : {ds es : Candidates} → Run cs ds → Step ds es → Run cs es

-- What the rows satisfy when no call adds or rewrites one, when a call adds one, and when it
-- decides one.
create-rows {ℓ} :
    (P : List LinkCandidate → Type ℓ) (from to relation : String) (confidence : ℕ) (rule : String)
    (now : ℕ) (cs : Candidates)
    → P cs.rows
    → ((c : LinkCandidate) → P (cs.rows ++ c ∷ []))
    → P (create_link_candidate from to relation confidence rule now cs).0.rows
unfolding create_link_candidate
create-rows P from to relation confidence rule now cs same more =
    elim (Option-cases (find (is_link from to relation) cs.rows)) [
      | inl e ↦ rw (e, create_link_candidate) (more _)
      | inr (c, e) ↦ rw (e, create_link_candidate) same
    ]

decide-rows {ℓ} :
    (P : List LinkCandidate → Type ℓ) (state : ReviewState) (i now : ℕ) (cs : Candidates)
    → P cs.rows
    → P (
        update
          (is_open_candidate i)
          (λ c. record c { state = state; decided_at = some now })
          cs.rows)
    → P (decide_link_candidate state i now cs).0.rows
decide-rows P state i now cs same after =
    elim (Bool-cases (eqb (rowcount (is_open_candidate i) cs.rows) 0)) [
      | inl t ↦ rw t same
      | inr t ↦ rw t after
    ]

module _ {c : LinkCandidate} (closed : is_pending c.state ≡ false) where
  decide-keeps :
      (state : ReviewState) (i now : ℕ) (cs : Candidates)
      → Member c cs.rows
      → Member c (decide_link_candidate state i now cs).0.rows
  decide-keeps state i now cs m =
      decide-rows (λ rs. Member c rs) state i now cs m
        (Member-update_miss (is_open_candidate i)
          (λ c. record c { state = state; decided_at = some now }) cs.rows (ground arith) m)

  -- A candidate link that has been decided keeps its state and its time, whatever is called
  -- afterwards.
  pub candidate_decided_once :
      {cs ds : Candidates} → Run cs ds → Member c cs.rows → Member c ds.rows
  unfolding approve_link_candidate reject_link_candidate
  candidate_decided_once stay m = m
  candidate_decided_once (further {ds = ds} run (created from to relation confidence rule now)) m =
      create-rows (λ rs. Member c rs) from to relation confidence rule now ds
        (candidate_decided_once run m)
        (λ d. Member-left ds.rows (d ∷ []) (candidate_decided_once run m))
  candidate_decided_once (further {ds = ds} run (accepted i now)) m =
      decide-keeps approved i now ds (candidate_decided_once run m)
  candidate_decided_once (further {ds = ds} run (declined i now)) m =
      decide-keeps rejected i now ds (candidate_decided_once run m)

abbrev found_id : Option LinkCandidate → Option ℕ
found_id none = none
found_id (some c) = some c.id

module _ (h : LinkCandidate → Bool) (i : ℕ) where
  found-append :
      (rs ss : List LinkCandidate)
      → found_id (find h rs) ≡ some i
      → found_id (find h (rs ++ ss)) ≡ some i
  found-append [] ss e = absurd (ground arith)
  found-append (r ∷ rs) ss e = ground (arith, found-append rs ss)

  found-update :
      (p : LinkCandidate → Bool) (f : LinkCandidate → LinkCandidate) (rs : List LinkCandidate)
      → ((r : LinkCandidate) → h (f r) ≡ h r)
      → ((r : LinkCandidate) → (f r).id ≡ r.id)
      → found_id (find h rs) ≡ some i
      → found_id (find h (update p f rs)) ≡ some i
  found-update p f [] hs ids e = absurd (ground arith)
  found-update p f (r ∷ rs) hs ids e =
      let rest = found-update p f rs hs ids in ground (arith, hs r, ids r)

module _ (from to relation : String) {i : ℕ} where
  Run-keeps_found :
      {cs ds : Candidates}
      → Run cs ds
      → found_id (find (is_link from to relation) cs.rows) ≡ some i
      → found_id (find (is_link from to relation) ds.rows) ≡ some i
  unfolding approve_link_candidate reject_link_candidate
  Run-keeps_found stay e = e
  Run-keeps_found (further {ds = ds} run (created a b c confidence rule now)) e =
      create-rows (λ rs. found_id (find (is_link from to relation) rs) ≡ some i) a b c confidence
        rule now ds (Run-keeps_found run e)
        (λ d. found-append (is_link from to relation) i ds.rows (d ∷ []) (Run-keeps_found run e))
  Run-keeps_found (further {ds = ds} run (accepted n now)) e =
      decide-rows (λ rs. found_id (find (is_link from to relation) rs) ≡ some i) approved n now ds
        (Run-keeps_found run e)
        (found-update (is_link from to relation) i (is_open_candidate n)
          (λ c. record c { state = approved; decided_at = some now }) ds.rows (λ r. refl)
          (λ r. refl) (Run-keeps_found run e))
  Run-keeps_found (further {ds = ds} run (declined n now)) e =
      decide-rows (λ rs. found_id (find (is_link from to relation) rs) ≡ some i) rejected n now ds
        (Run-keeps_found run e)
        (found-update (is_link from to relation) i (is_open_candidate n)
          (λ c. record c { state = rejected; decided_at = some now }) ds.rows (λ r. refl)
          (λ r. refl) (Run-keeps_found run e))

created-found :
    (from to relation : String) (confidence : ℕ) (rule : String) (now : ℕ) (cs : Candidates)
    → found_id (
        find
          (is_link from to relation)
          (create_link_candidate from to relation confidence rule now cs).0.rows)
      ≡ some (create_link_candidate from to relation confidence rule now cs).1
unfolding create_link_candidate
created-found from to relation confidence rule now cs =
    elim (Option-cases (find (is_link from to relation) cs.rows)) [
      | inl e ↦
          rw (e, create_link_candidate)
            (appended cs.rows _ (ground (arith, eq_refl from, eq_refl to, eq_refl relation)) e)
      | inr (c, e) ↦ rw (e, create_link_candidate, e) refl
    ]
  where
    appended :
        (rs : List LinkCandidate) (c : LinkCandidate)
        → is_link from to relation c ≡ true
        → find (is_link from to relation) rs ≡ none
        → found_id (find (is_link from to relation) (rs ++ c ∷ [])) ≡ some c.id
    appended [] c t e = rw t refl
    appended (r ∷ rs) c t e = ground (arith, appended rs c t)

create-known :
    (from to relation : String) (confidence : ℕ) (rule : String) (now : ℕ) (cs : Candidates)
    {c : LinkCandidate}
    → find (is_link from to relation) cs.rows ≡ some c
    → create_link_candidate from to relation confidence rule now cs ≡ (cs, c.id)
unfolding create_link_candidate
create-known from to relation confidence rule now cs e = rw (e, create_link_candidate) refl

same_id : {a b : ℕ} → some a ≡ some b → a ≡ b
same_id e = cc

-- The link that a call of create_link_candidate names keeps the id that the call gave: after
-- whatever further calls, a rejection included, a second call for it adds and changes nothing and
-- gives that id again.
pub candidate_stays :
    (from to relation rule again : String) (confidence surer now later : ℕ) (cs : Candidates)
    {ds : Candidates}
    → Run (create_link_candidate from to relation confidence rule now cs).0 ds
    → create_link_candidate from to relation surer again later ds
      ≡ (ds, (create_link_candidate from to relation confidence rule now cs).1)
unfolding create_link_candidate
candidate_stays from to relation rule again confidence surer now later cs {ds} run =
    let kept =
      Run-keeps_found from to relation run
        (created-found from to relation confidence rule now cs) in
    elim (Option-cases (find (is_link from to relation) ds.rows)) [
      | inl e ↦ absurd (ground arith)
      | inr (c, e) ↦
          create-known from to relation surer again later ds e
          ∙ ap (λ i. (ds, i)) (same_id (ap found_id (sym e) ∙ kept))
    ]
