-- ===== src/Jobs/Backoff.antt =====
-- What ends a lease: completion, failure with its delay, and the fence around other workers' rows.
use mathlib.Core.Path.{ap₂}
use native.Mathlib.Nat.{pow-suc}
use neuron_kg.Prelude.{
  ℕ, zero, suc, ◌+◌, ◌-◌, ◌*◌, ◌^◌, ◌≤◌, min, String, ◌≡◌, refl, ◌≢◌, true, false, Option, none,
  some, arith, All, All-map, Member, eq_iff, if◌then◌else◌, leb, eqb, ap, inl, inr, Bool-cases,
}
use neuron_kg.Prelude.Rows.{update_none, rowcount_none, Member-update_hit}
use neuron_kg.Jobs.{
  retry, dead, ConnectorJob, Jobs, second, is_owner, is_claimable, is_held, heartbeat, is_owned,
  complete, retry_delay, failed_status, clip, fail,
}

one-le-pow : (n : ℕ) → 1 ≤ 2 ^ n
one-le-pow zero = omega arith
one-le-pow (suc n) = simp pow-suc (omega (arith, one-le-pow n))

-- The delay is between a second and an hour, whatever the caller asks for.
pub retry_delay_bounds :
    (attempts : ℕ) (retry_after : Option ℕ)
    → (second ≤ retry_delay attempts retry_after)
      × (retry_delay attempts retry_after ≤ 3600 * second)
unfolding retry_delay
retry_delay_bounds attempts none = (omega (arith, one-le-pow (attempts - 1)), omega arith)
retry_delay_bounds attempts (some r) = (omega (arith, one-le-pow (attempts - 1)), omega arith)

-- Within those bounds a provider's Retry-After is obeyed, and never shortens the delay.
pub retry_delay-some :
    (attempts r : ℕ)
    → (min r (3600 * second) ≤ retry_delay attempts (some r))
      × (retry_delay attempts none ≤ retry_delay attempts (some r))
unfolding retry_delay
retry_delay-some attempts r = (omega arith, omega arith)

-- A row that worker `worker` owns after it failed: what the caller was told, no lease, and no
-- claim for a second.
pub record IsParked (job : ConnectorJob) (now : ℕ) (k : ConnectorJob) : Type 0 where
  pub told : k.status ≡ (if leb job.max_attempts job.attempts then dead else retry)
  pub freed : k.lease_owner ≡ none
  pub later : (t : ℕ) → is_claimable t k ≡ true → now + second ≤ t

fail_row : ConnectorJob → String → Option ℕ → ℕ → ConnectorJob → ConnectorJob
unfolding failed_status clip
fail_row job error retry_after now j = record j {
  status = failed_status job;
  available_at = now + retry_delay job.attempts retry_after;
  lease_owner = none;
  lease_expires_at = none;
  updated_at = now;
  last_error = some (clip 2_000 error);
}

fail_row-IsParked :
    (job : ConnectorJob) (error : String) (retry_after : Option ℕ) (now : ℕ) (j : ConnectorJob)
    → IsParked job now (fail_row job error retry_after now j)
unfolding fail_row failed_status
fail_row-IsParked job error retry_after now j = record {
  told = refl;
  freed = refl;
  later = λ t c. ground (arith, (retry_delay_bounds job.attempts retry_after).0);
}

-- The worker that owns a row ends its lease by `fail`: the row is parked with the status that the
-- call returns.
pub fail-IsParked :
    (job : ConnectorJob) (worker error : String) (retry_after : Option ℕ) (now : ℕ) (jobs : Jobs)
    (j : ConnectorJob)
    → Member j jobs
    → is_owned job.job_id worker j ≡ true
    → (k : ConnectorJob) × Member k (fail job worker error retry_after now jobs).0
      × IsParked job now k
      × ((fail job worker error retry_after now jobs).1 ≡ k.status)
unfolding fail fail_row
fail-IsParked job worker error retry_after now jobs j m owned = (
  fail_row job error retry_after now j,
  Member-update_hit (is_owned job.job_id worker) (fail_row job error retry_after now) jobs owned m,
  fail_row-IsParked job error retry_after now j,
  refl,
)

owner_of : (worker : String) (o : Option String) → is_owner worker o ≡ true → o ≡ some worker
owner_of worker none e = cc
owner_of worker (some o) e = ap some ((eq_iff o worker).0 e)

not-owned :
    (i worker : String) (j : ConnectorJob)
    → (j.job_id ≡ i → j.lease_owner ≢ some worker)
    → is_owned i worker j ≡ false
not-owned i worker j lost = elim (Bool-cases (is_owned i worker j)) [
  | inr e ↦ e
  | inl e ↦
      absurd
        (lost (ground (arith, eq_iff j.job_id i)) (owner_of worker j.lease_owner (ground arith)))
]

-- A worker whose lease is gone (recovered, or claimed by another) can change nothing: its
-- `heartbeat` answers false, and `complete` and `fail` write no row.
pub lost_lease_fenced :
    (job : ConnectorJob) (worker error : String) (lease_seconds now : ℕ) (retry_after : Option ℕ)
    (jobs : Jobs)
    → All (λ j. j.job_id ≡ job.job_id → j.lease_owner ≢ some worker) jobs
    → (heartbeat job.job_id worker lease_seconds now jobs ≡ (jobs, false))
      × (complete job.job_id worker now jobs ≡ jobs)
      × ((fail job worker error retry_after now jobs).0 ≡ jobs)
unfolding heartbeat complete fail
lost_lease_fenced job worker error lease_seconds now retry_after jobs lost =
    let misses = All-map (λ j h. not-owned job.job_id worker j h) jobs lost in
    let unheld : All (λ j. is_held job.job_id worker j ≡ false) jobs =
      All-map (λ j h. ground arith) jobs misses in
    (
      ap₂ (λ js n. (js, eqb n 1)) (update_none (is_held job.job_id worker) _ jobs unheld)
          (rowcount_none (is_held job.job_id worker) jobs unheld),
      update_none (is_owned job.job_id worker) _ jobs misses,
      update_none (is_owned job.job_id worker) _ jobs misses,
    )
