-- ===== src/Jobs/Tests.antt =====
-- The queue at small inputs.
use neuron_kg.Prelude.{◌≡◌, refl, some, [], ◌∷◌, here, there, arith}
use neuron_kg.Jobs.{
  Jobs, ConnectorJob, running, new_job, enqueue, claim, recover, recover_row, lease,
}
use neuron_kg.Jobs.Invariant.{IsWellFormed}
use neuron_kg.Jobs.Claims.{Leaves, claim-Leaves}
use neuron_kg.Jobs.Progress.{
  Reach, start, next, enqueued, claimed, Reach-IsWellFormed, claim_serves,
}

abbrev sync : ConnectorJob
sync = new_job "j1" "jira" "{}" 3 10

abbrev later : ConnectorJob
later = new_job "j2" "github" "{}" 3 20

abbrev two : Jobs
two = sync ∷ later ∷ []

-- Worker w holds j1 until 25 seconds after the claim at 30.
abbrev held : ConnectorJob
held = record sync {
  status = running;
  attempts = 1;
  lease_owner = some "w";
  lease_expires_at = some 25_000_030;
  updated_at = 30;
}

abbrev busy : Jobs
busy = held ∷ later ∷ []

claim-two : claim "w" 25 30 two ≡ (busy, some held)
unfolding claim recover recover_row lease
claim-two = refl

-- The lease has lapsed: the job goes back to the queue and to another worker.
claim_lapsed :
    (claim "v" 25 25_000_031 busy).1
    ≡ some (record later {
      status = running;
      attempts = 1;
      lease_owner = some "v";
      lease_expires_at = some 50_000_031;
      updated_at = 25_000_031;
    })
unfolding claim recover recover_row lease
claim_lapsed = refl

Reach-two : Reach two
unfolding enqueue
Reach-two =
    next (next start (enqueued "j1" "jira" "{}" 3 10 (omega arith) refl))
      (enqueued "j2" "github" "{}" 3 20 (omega arith) refl)

Reach-busy : Reach busy
unfolding claim recover recover_row lease
Reach-busy = next Reach-two (claimed "w" 25 30)

Reach-IsWellFormed_example : IsWellFormed busy
Reach-IsWellFormed_example = Reach-IsWellFormed Reach-busy

claim_serves_example : (k : ConnectorJob) × ((claim "v" 25 40 busy).1 ≡ some k)
claim_serves_example =
    claim_serves "v" 25 40 later Reach-busy (there (here refl)) refl (omega arith)

claim-Leaves_example : Leaves "v" 25 40 held (claim "v" 25 40 busy)
claim-Leaves_example =
    claim-Leaves "v" 25 40 busy held (Reach-IsWellFormed Reach-busy) (here refl) refl refl
