-- ===== src/Jobs/Invariant.antt =====
-- connectors/core/jobs.py: the form of the rows of the queue, method by method.
use neuron_kg.Prelude.{
  is_some, ℕ, ◌+◌, ◌≤◌, String, ◌≡◌, refl, ◌≢◌, inl, inr, Bool, true, Option, none, some, List, [],
  ◌∷◌, ◌++◌, map, arith, Option-cases, subst, All, All-map, All-zip, Member, Unique, All-append,
  eq_iff,
}
use neuron_kg.Prelude.Rows.{Unique-insert, Unique-same, first-select, find-none}
use neuron_kg.Prelude.Table.{All-update_of, find, update, select, first, All-update, map-update}
use neuron_kg.Jobs.{
  ConnectorJob, Jobs, has_id, is_running, new_job, enqueue, is_expired, recover_row, recover,
  is_claimable, before, lease, claim, is_free_expired, is_free_claimable, recover_free,
  claim_postgres, is_held, heartbeat, is_owned, complete, fail,
}

-- A row is leased, with an owner and a time of expiry, exactly while it is running.
pub record IsSound (j : ConnectorJob) : Type 0 where
  pub owned : is_some j.lease_owner ≡ is_running j.status
  pub timed : is_some j.lease_expires_at ≡ is_running j.status
  pub bounded : j.attempts ≤ j.max_attempts

abbrev pub ids : Jobs → List String
ids jobs = map (λ j. j.job_id) jobs

pub record IsWellFormed (jobs : Jobs) : Type 0 where
  pub unique : Unique (ids jobs)
  pub sound : All IsSound jobs

recover_row-IsSound : (now : ℕ) (j : ConnectorJob) → IsSound j → IsSound (recover_row now j)
unfolding recover_row
recover_row-IsSound now j s = ground arith

-- An UPDATE that leaves the key alone and keeps each row that it meets sound.
update-IsWellFormed :
    (p : ConnectorJob → Bool) (f : ConnectorJob → ConnectorJob) (jobs : Jobs)
    → ((j : ConnectorJob) → (f j).job_id ≡ j.job_id)
    → ((j : ConnectorJob) → p j ≡ true → IsSound j → IsSound (f j))
    → IsWellFormed jobs
    → IsWellFormed (update p f jobs)
update-IsWellFormed p f jobs keeps sound w = record {
  unique = rw (map-update (λ j. j.job_id) p f jobs keeps) w.unique;
  sound = All-update IsSound p f jobs sound w.sound;
}

-- What a claim does after recovery: it leases the row that ORDER BY … LIMIT 1 picks.
module _ (worker : String) (expires now : ℕ) where
  lease-IsSound :
      (j : ConnectorJob) → j.attempts + 1 ≤ j.max_attempts → IsSound (lease worker expires now j)
  unfolding lease
  lease-IsSound j room = ground arith

  lease-IsWellFormed :
      (jobs : Jobs) (row : ConnectorJob)
      → Member row jobs
      → row.attempts + 1 ≤ row.max_attempts
      → IsWellFormed jobs
      → IsWellFormed (update (has_id row.job_id) (lease worker expires now) jobs)
  unfolding lease
  lease-IsWellFormed jobs row m room w = record {
    unique =
        rw
          (map-update (λ j. j.job_id) (has_id row.job_id) (lease worker expires now) jobs
            (λ j. refl))
          w.unique;
    sound =
        All-update_of IsSound (has_id row.job_id) (lease worker expires now) jobs
          (λ j same h. lease-IsSound j (rw (h.1 ((eq_iff j.job_id row.job_id).0 same)) room))
          (λ j _ h. h.0)
          (All-zip IsSound (λ j. j.job_id ≡ row.job_id → j ≡ row) jobs w.sound
            (Unique-same (λ j. j.job_id) jobs w.unique m));
  }

enqueue-fresh :
    (i : String) (jobs : Jobs) → find (has_id i) jobs ≡ none → All (λ j. j.job_id ≢ i) jobs
enqueue-fresh i jobs q =
    All-map (λ j h same. ground (arith, eq_iff j.job_id i)) jobs (find-none (has_id i) jobs q)

pub enqueue-IsWellFormed :
    (i provider payload : String) (max_attempts now : ℕ) (jobs after : Jobs)
    → enqueue i provider payload max_attempts now jobs ≡ some after
    → IsWellFormed jobs
    → IsWellFormed after
unfolding enqueue
enqueue-IsWellFormed i provider payload max_attempts now jobs after e w =
    elim (Option-cases (find (has_id i) jobs)) [
      | inr (j, q) ↦ ground arith
      | inl q ↦
          subst IsWellFormed {x = jobs ++ new_job i provider payload max_attempts now ∷ []}
            (ground arith)
            (record {
              unique =
                  Unique-insert (λ j. j.job_id) jobs (new_job i provider payload max_attempts now)
                    (enqueue-fresh i jobs q) w.unique;
              sound = All-append IsSound jobs _ w.sound (ground arith, tt);
            })
    ]

module _ (now : ℕ) where
  pub recover-IsWellFormed : (jobs : Jobs) → IsWellFormed jobs → IsWellFormed (recover now jobs)
  unfolding recover recover_row
  recover-IsWellFormed jobs w =
      update-IsWellFormed (is_expired now) (recover_row now) jobs (λ j. refl)
        (λ j _ s. recover_row-IsSound now j s) w

  pub recover_free-IsWellFormed :
      (locked : String → Bool) (jobs : Jobs)
      → IsWellFormed jobs
      → IsWellFormed (recover_free locked now jobs)
  unfolding recover_free recover_row
  recover_free-IsWellFormed locked jobs w =
      update-IsWellFormed (is_free_expired locked now) (recover_row now) jobs (λ j. refl)
        (λ j _ s. recover_row-IsSound now j s) w

  pub heartbeat-IsWellFormed :
      (i worker : String) (lease_seconds : ℕ) (jobs : Jobs)
      → IsWellFormed jobs
      → IsWellFormed (heartbeat i worker lease_seconds now jobs).0
  unfolding heartbeat
  heartbeat-IsWellFormed i worker lease_seconds jobs w =
      update-IsWellFormed (is_held i worker) _ jobs (λ j. refl) (λ j held s. ground arith) w

  pub complete-IsWellFormed :
      (i worker : String) (jobs : Jobs)
      → IsWellFormed jobs
      → IsWellFormed (complete i worker now jobs)
  unfolding complete
  complete-IsWellFormed i worker jobs w =
      update-IsWellFormed (is_owned i worker) _ jobs (λ j. refl) (λ j _ s. ground arith) w

  pub fail-IsWellFormed :
      (job : ConnectorJob) (worker error : String) (retry_after : Option ℕ) (jobs : Jobs)
      → IsWellFormed jobs
      → IsWellFormed (fail job worker error retry_after now jobs).0
  unfolding fail
  fail-IsWellFormed job worker error retry_after jobs w =
      update-IsWellFormed (is_owned job.job_id worker) _ jobs (λ j. refl) (λ j _ s. ground arith) w

  -- Both branches of `claim`, at the test `p` of the SELECT and after the recovery `recovered`.
  leased-IsWellFormed :
      (worker : String) (expires : ℕ) (p : ConnectorJob → Bool) (recovered : Jobs)
      → ((j : ConnectorJob) → p j ≡ true → is_claimable now j ≡ true)
      → IsWellFormed recovered
      → (row : ConnectorJob) → first before (select p recovered) ≡ some row
      → IsWellFormed (update (has_id row.job_id) (lease worker expires now) recovered)
  leased-IsWellFormed worker expires p recovered sub w row e =
      let (met, m) = first-select p before recovered e in
      lease-IsWellFormed worker expires now recovered row m (room row (sub row met)) w
    where
      room : (j : ConnectorJob) → is_claimable now j ≡ true → j.attempts + 1 ≤ j.max_attempts
      room j c = ground arith

  pub claim-IsWellFormed :
      (worker : String) (lease_seconds : ℕ) (jobs : Jobs)
      → IsWellFormed jobs
      → IsWellFormed (claim worker lease_seconds now jobs).0
  unfolding claim
  claim-IsWellFormed worker lease_seconds jobs w =
      let w' = recover-IsWellFormed jobs w in
      elim (Option-cases (first before (select (is_claimable now) (recover now jobs)))) [
        | inl e ↦ rw (e, claim) w'
        | inr (row, e) ↦
            rw (e, claim) (leased-IsWellFormed worker _ (is_claimable now) _ (λ j h. h) w' row e)
      ]

  pub claim_postgres-IsWellFormed :
      (locked : String → Bool) (worker : String) (lease_seconds : ℕ) (jobs : Jobs)
      → IsWellFormed jobs
      → IsWellFormed (claim_postgres locked worker lease_seconds now jobs).0
  unfolding claim_postgres recover_free
  claim_postgres-IsWellFormed locked worker lease_seconds jobs w =
      let w' = recover_free-IsWellFormed locked jobs w in
      elim (Option-cases
        (first before (select (is_free_claimable locked now) (recover_free locked now jobs)))) [
          | inl e ↦ rw (e, claim_postgres) w'
          | inr (row, e) ↦
              rw (e, claim_postgres)
                (leased-IsWellFormed worker _ (is_free_claimable locked now) _ (λ j h. ground arith)
                  w' row e)
        ]
