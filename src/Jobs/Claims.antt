-- ===== src/Jobs/Claims.antt =====
-- What a claim returns, which rows it leaves alone, and the two database backends.
use mathlib.Core.Path.{fun_ext}
use mathlib.Core.Bool.{true≢false}
use neuron_kg.Prelude.{
  Member-All, ℕ, ◌+◌, ◌*◌, String, ◌≡◌, refl, sym, ◌≢◌, inl, inr, Bool, true, false, Option, none,
  some, arith, Option-cases, ap, All, All-map, Member, eq_iff, eq_refl, ◌∙◌,
}
use neuron_kg.Prelude.Table.{select, find, update, first, first-none, first_least}
use neuron_kg.Prelude.Rows.{
  first-select, Unique-same, find-update_self, Member-update_miss, select-nil,
}
use neuron_kg.Jobs.{
  ConnectorJob, Jobs, second, has_id, is_running, has_lapsed, is_expired, recover_row, recover,
  is_claimable, before, lease, claim, is_free_expired, is_free_claimable, recover_free,
  claim_postgres,
}
use neuron_kg.Jobs.Invariant.{IsWellFormed, recover-IsWellFormed, recover_free-IsWellFormed}

module _ (worker : String) (lease_seconds now : ℕ) where
  -- The leased row, found again by its key.
  find-leased :
      (recovered : Jobs) (row : ConnectorJob)
      → IsWellFormed recovered
      → Member row recovered
      → find
          (has_id row.job_id)
          (update (has_id row.job_id) (lease worker (now + lease_seconds * second) now) recovered)
        ≡ some (lease worker (now + lease_seconds * second) now row)
  unfolding lease
  find-leased recovered row w m =
      find-update_self (has_id row.job_id) (lease worker (now + lease_seconds * second) now)
        recovered (λ s. refl) (eq_refl row.job_id)
        (All-map (λ s same h. same ((eq_iff s.job_id row.job_id).0 h)) recovered
          (Unique-same (λ j. j.job_id) recovered w.unique m))
        m

  -- What a claim returns is the lease of a claimable row of the recovered table, none of whose
  -- claimable rows comes before it.
  pub record IsLeaseOf (jobs : Jobs) (j : ConnectorJob) : Type 0 where
    pub row : ConnectorJob
    pub stood : Member row (recover now jobs)
    pub claimable : is_claimable now row ≡ true
    pub earliest : All (λ s. before s row ≡ false) (select (is_claimable now) (recover now jobs))
    pub leased : j ≡ lease worker (now + lease_seconds * second) now row

  -- The job that a claim on a well-formed queue returns is the lease, to this worker, of a
  -- claimable row of the recovered queue, and no claimable row comes before it.
  pub claim-IsLeaseOf :
      (jobs : Jobs) (j : ConnectorJob)
      → IsWellFormed jobs
      → (claim worker lease_seconds now jobs).1 ≡ some j
      → IsLeaseOf jobs j
  unfolding claim
  claim-IsLeaseOf jobs j w e =
      elim (Option-cases (first before (select (is_claimable now) (recover now jobs)))) [
        | inl q ↦ ground arith
        | inr (row, q) ↦
            let (met, m) = first-select (is_claimable now) before (recover now jobs) q in
            let found = find-leased (recover now jobs) row (recover-IsWellFormed now jobs w) m in
            record {
              row = row;
              stood = m;
              claimable = met;
              earliest =
                  first_least before (λ a b h. ground arith) (λ a b c h k. ground arith)
                    (λ a. ground arith) (select (is_claimable now) (recover now jobs)) q;
              leased = ground arith;
            }
      ]

  -- Nothing is claimed only where no row of the recovered table is claimable.
  pub claim-none :
      (jobs : Jobs)
      → IsWellFormed jobs
      → (claim worker lease_seconds now jobs).1 ≡ none
      → All (λ r. is_claimable now r ≡ false) (recover now jobs)
  unfolding claim
  claim-none jobs w e =
      elim (Option-cases (first before (select (is_claimable now) (recover now jobs)))) [
        | inl q ↦
            select-nil (is_claimable now) (recover now jobs)
              (first-none before (select (is_claimable now) (recover now jobs)) q)
        | inr (row, q) ↦
            let (met, m) = first-select (is_claimable now) before (recover now jobs) q in
            let found = find-leased (recover now jobs) row (recover-IsWellFormed now jobs w) m in
            ground arith
      ]

  -- The second half of a claim, on either backend.
  abbrev take_first : (ConnectorJob → Bool) → Jobs → Jobs × Option ConnectorJob
  take_first p recovered = elim (first before (select p recovered)) [
    | none ↦ (recovered, none)
    | some row ↦
        let leased =
          update (has_id row.job_id) (lease worker (now + lease_seconds * second) now) recovered in
        (leased, find (has_id row.job_id) leased)
  ]

  -- `j` stands in the table that a call leaves, and the call did not return its key.
  pub record Leaves (j : ConnectorJob) (result : Jobs × Option ConnectorJob) : Type 0 where
    pub stays : Member j result.0
    pub other : (k : ConnectorJob) → result.1 ≡ some k → k.job_id ≢ j.job_id

  -- A row that the test of the SELECT does not meet is left alone.
  take_first-Leaves :
      (p : ConnectorJob → Bool) (recovered : Jobs) (j : ConnectorJob)
      → IsWellFormed recovered
      → p j ≡ false
      → Member j recovered
      → Leaves j (take_first p recovered)
  unfolding lease
  take_first-Leaves p recovered j w missed m =
      elim (Option-cases (first before (select p recovered))) [
        | inl q ↦ rw (q, take_first) (record { stays = m; other = λ k e. cc })
        | inr (row, q) ↦
            let (met, at) = first-select p before recovered q in
            let differs : j.job_id ≢ row.job_id = λ same. true≢false (
              sym met
              ∙ ap p (
                  sym (
                    Member-All (λ s. s.job_id ≡ row.job_id → s ≡ row) m
                      (Unique-same (λ s. s.job_id) recovered w.unique at) same))
              ∙ missed) in
            rw (q, take_first)
              (record {
                stays =
                    Member-update_miss (has_id row.job_id)
                      (lease worker (now + lease_seconds * second) now) recovered
                      (ground (arith, eq_iff j.job_id row.job_id)) m;
                other = λ k e same. let found = find-leased recovered row w at in ground arith;
              })
      ]

  -- In a well-formed queue a running job whose lease has not lapsed stays as it is through a
  -- claim, and the claim does not hand it out.
  pub claim-Leaves :
      (jobs : Jobs) (j : ConnectorJob)
      → IsWellFormed jobs
      → Member j jobs
      → is_running j.status ≡ true
      → has_lapsed now j.lease_expires_at ≡ false
      → Leaves j (claim worker lease_seconds now jobs)
  unfolding claim recover
  claim-Leaves jobs j w m runs held =
      take_first-Leaves (is_claimable now) (recover now jobs) j (recover-IsWellFormed now jobs w)
        (ground arith) (Member-update_miss (is_expired now) (recover_row now) jobs (ground arith) m)

  -- On Postgres, in a well-formed queue, a row that another transaction has locked stays as it is
  -- through a claim and is not handed out, whatever its state.
  pub claim_postgres-Leaves :
      (locked : String → Bool) (jobs : Jobs) (j : ConnectorJob)
      → IsWellFormed jobs
      → Member j jobs
      → locked j.job_id ≡ true
      → Leaves j (claim_postgres locked worker lease_seconds now jobs)
  unfolding claim_postgres recover_free
  claim_postgres-Leaves locked jobs j w m held =
      take_first-Leaves (is_free_claimable locked now) (recover_free locked now jobs) j
        (recover_free-IsWellFormed now locked jobs w) (ground arith)
        (Member-update_miss (is_free_expired locked now) (recover_row now) jobs (ground arith) m)

  -- Where no other transaction holds a row, the claim on Postgres does what the one on SQLite does.
  pub claim_postgres-eq-claim :
      (jobs : Jobs)
      → claim_postgres (λ _. false) worker lease_seconds now jobs
        ≡ claim worker lease_seconds now jobs
  unfolding claim_postgres claim recover_free recover
  claim_postgres-eq-claim jobs =
      let expired : is_free_expired (λ _. false) now ≡ is_expired now =
        fun_ext (λ j. ground arith) in
      let claimable : is_free_claimable (λ _. false) now ≡ is_claimable now =
        fun_ext (λ j. ground arith) in
      λ i. take_first (claimable i) (update (expired i) (recover_row now) jobs)
