-- ===== src/Jobs.antt =====
-- connectors/core/jobs.py: the durable queue of leased jobs (ConnectorJobStore). The table
-- connector_jobs is the list of its rows; each method takes the table and the time of its call
-- and gives the table that it leaves. Times are microseconds; the ISO texts that the code stores
-- are of one form and compare as the times do. The payload is the stored JSON text.
pub mod Invariant
pub mod Claims
pub mod Backoff
pub mod Progress
mod Tests
use neuron_kg.Prelude.{
  ℕ, zero, suc, ◌+◌, ◌-◌, ◌*◌, ◌^◌, min, max, String, Bool, true, false, not, ◌&&◌, ◌||◌, Option,
  none, some, List, [], ◌∷◌, ◌++◌, ltb, leb, eqb, if◌then◌else◌, ◌==◌,
}
use neuron_kg.Prelude.Table.{select, find, update, rowcount, first}

pub data Status : Type 0 where
  queued running retry completed dead : Status

pub record ConnectorJob : Type 0 where
  pub job_id : String
  pub provider : String
  pub payload : String
  pub status : Status
  pub attempts : ℕ
  pub max_attempts : ℕ
  pub available_at : ℕ
  pub lease_owner : Option String
  pub lease_expires_at : Option ℕ
  pub created_at : ℕ
  pub updated_at : ℕ
  pub last_error : Option String

abbrev pub Jobs : Type 0
Jobs = List ConnectorJob

abbrev pub second : ℕ
second = 1_000_000

abbrev pub has_id : String → ConnectorJob → Bool
has_id i j = j.job_id == i

-- lease_owner = ?, false on NULL
abbrev pub is_owner : String → Option String → Bool
is_owner w none = false
is_owner w (some o) = o == w

abbrev pub is_running : Status → Bool
is_running running = true
is_running _ = false

-- status IN ('queued', 'retry')
abbrev pub is_waiting : Status → Bool
is_waiting queued = true
is_waiting retry = true
is_waiting _ = false

-- lease_expires_at < ?, false on NULL
abbrev pub has_lapsed : ℕ → Option ℕ → Bool
has_lapsed now none = false
has_lapsed now (some t) = ltb t now

abbrev new_job : String → String → String → ℕ → ℕ → ConnectorJob
new_job i provider payload max_attempts now = record {
  job_id = i;
  provider = provider;
  payload = payload;
  status = queued;
  attempts = 0;
  max_attempts = max_attempts;
  available_at = now;
  lease_owner = none;
  lease_expires_at = none;
  created_at = now;
  updated_at = now;
  last_error = none;
}

-- `none` is the IntegrityError of a second row with the same primary key.
pub enqueue : String → String → String → ℕ → ℕ → Jobs → Option Jobs
enqueue i provider payload max_attempts now jobs = elim (find (has_id i) jobs) [
  | some _ ↦ none
  | none ↦ some (jobs ++ new_job i provider payload max_attempts now ∷ [])
]

abbrev pub is_expired : ℕ → ConnectorJob → Bool
is_expired now j = is_running j.status && has_lapsed now j.lease_expires_at

abbrev coalesce : Option String → String → String
coalesce none d = d
coalesce (some s) d = s

-- _RECOVER_SET
recover_row : ℕ → ConnectorJob → ConnectorJob
recover_row now j = record j {
  status = if leb j.max_attempts j.attempts then dead else retry;
  lease_owner = none;
  lease_expires_at = none;
  available_at = now;
  updated_at = now;
  last_error = some (coalesce j.last_error "Worker lease expired; recovered");
}

pub recover : ℕ → Jobs → Jobs
recover now jobs = update (is_expired now) (recover_row now) jobs

-- _CLAIMABLE
abbrev pub is_claimable : ℕ → ConnectorJob → Bool
is_claimable now j = is_waiting j.status && leb j.available_at now && ltb j.attempts j.max_attempts

-- ORDER BY available_at, created_at
abbrev pub before : ConnectorJob → ConnectorJob → Bool
before j k =
    ltb j.available_at k.available_at
    || (eqb j.available_at k.available_at && ltb j.created_at k.created_at)

pub lease : String → ℕ → ℕ → ConnectorJob → ConnectorJob
lease worker expires now j = record j {
  status = running;
  attempts = j.attempts + 1;
  lease_owner = some worker;
  lease_expires_at = some expires;
  updated_at = now;
}

-- The branch on SQLite, whose BEGIN IMMEDIATE makes the call one step.
pub claim : String → ℕ → ℕ → Jobs → Jobs × Option ConnectorJob
claim worker lease_seconds now jobs =
    let recovered = recover now jobs in
    elim (first before (select (is_claimable now) recovered)) [
      | none ↦ (recovered, none)
      | some row ↦
          let leased =
            update (has_id row.job_id) (lease worker (now + lease_seconds * second) now)
              recovered in
          (leased, find (has_id row.job_id) leased)
    ]

-- The tests of the statements on Postgres. `locked` are the rows that other transactions hold at
-- this time, which SKIP LOCKED passes over.
abbrev pub is_free_expired : (String → Bool) → ℕ → ConnectorJob → Bool
is_free_expired locked now j = is_expired now j && not (locked j.job_id)

abbrev pub is_free_claimable : (String → Bool) → ℕ → ConnectorJob → Bool
is_free_claimable locked now j = is_claimable now j && not (locked j.job_id)

pub recover_free : (String → Bool) → ℕ → Jobs → Jobs
recover_free locked now jobs = update (is_free_expired locked now) (recover_row now) jobs

-- The branch on Postgres.
pub claim_postgres : (String → Bool) → String → ℕ → ℕ → Jobs → Jobs × Option ConnectorJob
claim_postgres locked worker lease_seconds now jobs =
    let recovered = recover_free locked now jobs in
    elim (first before (select (is_free_claimable locked now) recovered)) [
      | none ↦ (recovered, none)
      | some row ↦
          let leased =
            update (has_id row.job_id) (lease worker (now + lease_seconds * second) now)
              recovered in
          (leased, find (has_id row.job_id) leased)
    ]

abbrev is_held : String → String → ConnectorJob → Bool
is_held i worker j = j.job_id == i && is_running j.status && is_owner worker j.lease_owner

pub heartbeat : String → String → ℕ → ℕ → Jobs → Jobs × Bool
heartbeat i worker lease_seconds now jobs = (
  update (is_held i worker)
      (λ j. record j { lease_expires_at = some (now + lease_seconds * second); updated_at = now })
      jobs,
  eqb (rowcount (is_held i worker) jobs) 1,
)

abbrev is_owned : String → String → ConnectorJob → Bool
is_owned i worker j = j.job_id == i && is_owner worker j.lease_owner

pub complete : String → String → ℕ → Jobs → Jobs
complete i worker now jobs =
    update (is_owned i worker)
      (λ j. record j {
        status = completed;
        lease_owner = none;
        lease_expires_at = none;
        updated_at = now;
      })
      jobs

-- The delay in microseconds before the next attempt. `retry_after` is in microseconds too.
pub retry_delay : ℕ → Option ℕ → ℕ
retry_delay attempts none = min 300 (2 ^ (attempts - 1)) * second
retry_delay attempts (some retry_after) =
    max (min 300 (2 ^ (attempts - 1)) * second) (min (3600 * second) (max second retry_after))

pub failed_status : ConnectorJob → Status
failed_status job = if leb job.max_attempts job.attempts then dead else retry

-- text[:n]
clip : ℕ → String → String
clip zero s = String.[]
clip (suc n) String.[] = String.[]
clip (suc n) (String.◌∷◌ c s) = String.◌∷◌ c (clip n s)

-- `job` is the caller's copy of the row.
pub fail : ConnectorJob → String → String → Option ℕ → ℕ → Jobs → Jobs × Status
unfolding failed_status
fail job worker error retry_after now jobs = (
  update (is_owned job.job_id worker)
      (λ j. record j {
        status = failed_status job;
        available_at = now + retry_delay job.attempts retry_after;
        lease_owner = none;
        lease_expires_at = none;
        updated_at = now;
        last_error = some (clip 2_000 error);
      })
      jobs,
  failed_status job,
)

pub get : String → Jobs → Option ConnectorJob
get i jobs = find (has_id i) jobs
