-- ===== src/Records/Tests.antt =====
-- Record plans and versions at small inputs.
use neuron_kg.Prelude.{◌≡◌, refl, false, none, some, [], ◌∷◌}
use neuron_kg.Records.{
  Ledger, RecordVersion, pending, update_record, ok, resolve_action, plan, get, commit,
  record_version, latest, RecordEdgeRef,
}
use neuron_kg.Records.Versions.{Outcome, record_version-Outcome}

abbrev edge : RecordEdgeRef
edge = record { record_key = "k"; rel_type = "OWNS"; from_uid = "u"; to_uid = "v" }

abbrev ledger : Ledger
ledger = record { records = []; versions = []; edges = edge ∷ [] }

abbrev version1 : RecordVersion
version1 = record { record_key = "k"; version = 1; content_hash = "h"; ingested_at = 5 }

committed_update :
    plan "k" (some "g") false (commit "k" "h" none pending 5 ledger) ≡ ok update_record
unfolding plan get commit record_version latest resolve_action
committed_update = refl

record_version-Outcome_example :
    Outcome "k" "g" (version1 ∷ []) (record_version "k" "g" 6 (version1 ∷ []))
record_version-Outcome_example = record_version-Outcome "k" "g" 6 (version1 ∷ [])
