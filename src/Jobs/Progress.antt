-- ===== src/Jobs/Progress.antt =====
-- connectors/core/jobs.py: the queue as a transition system, its states and its waiting jobs.
use neuron_kg.Prelude.{
  ℕ, ◌≤◌, ◌<◌, String, ◌≡◌, inl, inr, Bool, true, false, Option, some, [], ◌∷◌, ◌++◌, arith,
  Option-cases, subst, All, All-append, All-zip, Member, Member-All, eq_iff,
}
use neuron_kg.Prelude.Table.{find, select, update, first, All-update, All-update_of}
use neuron_kg.Prelude.Rows.{Member-update_miss}
use neuron_kg.Jobs.{
  ConnectorJob, Jobs, has_id, is_waiting, new_job, enqueue, is_expired, recover_row, recover,
  is_claimable, before, lease, claim, is_free_expired, is_free_claimable, recover_free,
  claim_postgres, is_held, heartbeat, is_owned, complete, failed_status, fail,
}
use neuron_kg.Jobs.Invariant.{
  IsWellFormed, heartbeat-IsWellFormed, complete-IsWellFormed, fail-IsWellFormed,
  enqueue-IsWellFormed, claim-IsWellFormed, claim_postgres-IsWellFormed,
}
use neuron_kg.Jobs.Claims.{claim-none}

-- The caller's copy of a row has the row's counts of attempts, as the copy that a claim returned
-- has until the row is claimed again.
abbrev pub IsFresh : ConnectorJob → Jobs → Type 0
IsFresh job jobs =
    All
      (λ j.
        j.job_id ≡ job.job_id → (j.attempts ≡ job.attempts) × (j.max_attempts ≡ job.max_attempts))
      jobs

-- One call of a method, by any worker at any time.
pub data Step (jobs : Jobs) : Jobs → Type 0 where
  enqueued :
      (i provider payload : String) (max_attempts now : ℕ) {after : Jobs}
      → 0 < max_attempts
      → enqueue i provider payload max_attempts now jobs ≡ some after
      → Step jobs after
  claimed :
      (worker : String) (lease_seconds now : ℕ) → Step jobs (claim worker lease_seconds now jobs).0
  claimed_postgres :
      (locked : String → Bool) (worker : String) (lease_seconds now : ℕ)
      → Step jobs (claim_postgres locked worker lease_seconds now jobs).0
  beat :
      (i worker : String) (lease_seconds now : ℕ)
      → Step jobs (heartbeat i worker lease_seconds now jobs).0
  completed : (i worker : String) (now : ℕ) → Step jobs (complete i worker now jobs)
  failed :
      (job : ConnectorJob) (worker error : String) (retry_after : Option ℕ) (now : ℕ)
      → IsFresh job jobs
      → Step jobs (fail job worker error retry_after now jobs).0

pub data Reach : Jobs → Type 0 where
  start : Reach []
  next : {jobs after : Jobs} → Reach jobs → Step jobs after → Reach after

Step-IsWellFormed : {jobs after : Jobs} → Step jobs after → IsWellFormed jobs → IsWellFormed after
Step-IsWellFormed {jobs} (enqueued i p q n now {after = after} _ e) w =
    enqueue-IsWellFormed i p q n now jobs after e w
Step-IsWellFormed {jobs} (claimed worker s now) w = claim-IsWellFormed now worker s jobs w
Step-IsWellFormed {jobs} (claimed_postgres locked worker s now) w =
    claim_postgres-IsWellFormed now locked worker s jobs w
Step-IsWellFormed {jobs} (beat i worker s now) w = heartbeat-IsWellFormed now i worker s jobs w
Step-IsWellFormed {jobs} (completed i worker now) w = complete-IsWellFormed now i worker jobs w
Step-IsWellFormed {jobs} (failed job worker error r now _) w =
    fail-IsWellFormed now job worker error r jobs w

-- Every queue that the methods reach from the empty one, where jobs are enqueued with at least
-- one attempt and `fail` is given a copy with the row's counts, is well formed: no two rows have
-- one id, a row has an owner and an expiry exactly while it is running, and no row has had more
-- attempts than it may.
pub Reach-IsWellFormed : {jobs : Jobs} → Reach jobs → IsWellFormed jobs
Reach-IsWellFormed start = record { unique = tt; sound = tt }
Reach-IsWellFormed (next r s) = Step-IsWellFormed s (Reach-IsWellFormed r)

-- A waiting row has an attempt left.
abbrev pub HasAttempt : ConnectorJob → Type 0
HasAttempt j = is_waiting j.status ≡ true → j.attempts < j.max_attempts

leased-HasAttempt :
    (worker : String) (expires now : ℕ) (i : String) (jobs : Jobs)
    → All HasAttempt jobs
    → All HasAttempt (update (has_id i) (lease worker expires now) jobs)
unfolding lease
leased-HasAttempt worker expires now i jobs h =
    All-update HasAttempt (has_id i) (lease worker expires now) jobs (λ j _ a. λ waits. cc) h

recovered-HasAttempt :
    (p : ConnectorJob → Bool) (now : ℕ) (jobs : Jobs)
    → All HasAttempt jobs
    → All HasAttempt (update p (recover_row now) jobs)
unfolding recover_row
recovered-HasAttempt p now jobs h =
    All-update HasAttempt p (recover_row now) jobs (λ j _ a. λ waits. ground arith) h

Step-HasAttempt : {jobs after : Jobs} → Step jobs after → All HasAttempt jobs → All HasAttempt after
unfolding enqueue claim recover claim_postgres recover_free heartbeat complete fail failed_status
Step-HasAttempt {jobs} (enqueued i p q n now {after = after} room e) h =
    elim (Option-cases (find (has_id i) jobs)) [
      | inr (j, found) ↦ ground arith
      | inl absent ↦
          subst (All HasAttempt) {x = jobs ++ new_job i p q n now ∷ []} (ground arith)
            (All-append HasAttempt jobs _ h (λ _. room, tt))
    ]
Step-HasAttempt {jobs} (claimed worker s now) h =
    let h' = recovered-HasAttempt (is_expired now) now jobs h in
    elim (Option-cases (first before (select (is_claimable now) (recover now jobs)))) [
      | inl e ↦ rw (e, claim) h'
      | inr (row, e) ↦ rw (e, claim) (leased-HasAttempt worker _ now row.job_id _ h')
    ]
Step-HasAttempt {jobs} (claimed_postgres locked worker s now) h =
    let h' = recovered-HasAttempt (is_free_expired locked now) now jobs h in
    elim (Option-cases
      (first before (select (is_free_claimable locked now) (recover_free locked now jobs)))) [
        | inl e ↦ rw (e, claim_postgres) h'
        | inr (row, e) ↦ rw (e, claim_postgres) (leased-HasAttempt worker _ now row.job_id _ h')
      ]
Step-HasAttempt {jobs} (beat i worker s now) h =
    All-update HasAttempt (is_held i worker) _ jobs (λ j _ a. a) h
Step-HasAttempt {jobs} (completed i worker now) h =
    All-update HasAttempt (is_owned i worker) _ jobs (λ j _ a. λ waits. cc) h
Step-HasAttempt {jobs} (failed job worker error r now fresh) h =
    All-update_of HasAttempt (is_owned job.job_id worker) _ jobs
      (λ j met both. λ waits. let same = both.1 in ground (arith, eq_iff j.job_id job.job_id))
      (λ j _ both. both.0) (All-zip HasAttempt _ jobs h fresh)

pub Reach-HasAttempt : {jobs : Jobs} → Reach jobs → All HasAttempt jobs
Reach-HasAttempt start = tt
Reach-HasAttempt (next r s) = Step-HasAttempt s (Reach-HasAttempt r)

-- No waiting job is parked for ever: in a reachable queue with a waiting job, every claim from
-- the time at which that job is available hands out some job.
pub claim_serves :
    {jobs : Jobs} (worker : String) (lease_seconds now : ℕ) (j : ConnectorJob)
    → Reach jobs
    → Member j jobs
    → is_waiting j.status ≡ true
    → j.available_at ≤ now
    → (k : ConnectorJob) × ((claim worker lease_seconds now jobs).1 ≡ some k)
unfolding recover
claim_serves {jobs} worker lease_seconds now j r m waits due =
    elim (Option-cases (claim worker lease_seconds now jobs).1) [
      | inr found ↦ found
      | inl e ↦
          let idle = claim-none worker lease_seconds now jobs (Reach-IsWellFormed r) e in
          let kept = Member-update_miss (is_expired now) (recover_row now) jobs (ground arith) m in
          let room = Member-All HasAttempt m (Reach-HasAttempt r) waits in
          let missed = Member-All (λ r. is_claimable now r ≡ false) kept idle in
          absurd (ground arith)
    ]
