-- ===== src/Facts/Writer.antt =====
-- The primitives of graph/storage/writer.py that act on one fact, found by its uid. Each reads
-- the clock once, at `now`.
use neuron_kg.Prelude.{
  ℕ, String, Bool, true, false, not, ◌&&◌, ◌||◌, Option, none, some, List, [], ◌∷◌, ◌++◌, eqb, ltb,
  if◌then◌else◌, ◌==◌,
}
use neuron_kg.Prelude.Table.{select, find, update}
use neuron_kg.Facts.{
  FactEdge, FactHistory, Graph, is_open, coalesce, or_keep, differs, differs_ℕ, has_key, is_edge,
}
use neuron_kg.Facts.Exec.{Exec, write, read, ◌>>=◌}

-- r.fact_uid = $fact_uid AND r.invalid_at IS NULL
abbrev pub is_open_fact : String → FactEdge → Bool
is_open_fact uid e = e.fact_uid == uid && is_open e.invalid_at

abbrev pub only {ℓ} : {A : Type ℓ} → List A → Option A
only [] = none
only (a ∷ []) = some a
only (a ∷ b ∷ rest) = none

-- `none` is the ValueError on a missing or an ambiguous fact.
unfoldable pub find_live_fact : String → Graph → Option FactEdge
find_live_fact uid g = only (select (is_open_fact uid) g.edges)

-- The edge that the query after _find_live_fact sets.
abbrev pub is_found : FactEdge → String → FactEdge → Bool
is_found fact uid e = is_edge fact.from_uid fact.rel_type fact.to_uid e && e.fact_uid == uid

abbrev pub set_found : FactEdge → String → (FactEdge → FactEdge) → Graph → Graph
set_found fact uid f g = record g { edges = update (is_found fact uid) f g.edges }

abbrev same_time : Option ℕ → Option ℕ → Bool
same_time none none = true
same_time (some a) (some b) = eqb a b
same_time _ _ = false

-- The uid of an archived interval.
abbrev pub same_interval : FactHistory → FactHistory → Bool
same_interval h k =
    h.from_uid == k.from_uid
    && h.relation == k.relation
    && h.to_uid == k.to_uid
    && same_time h.valid_from k.valid_from
    && eqb h.archived_at k.archived_at

abbrev merged_history : FactHistory → FactHistory → FactHistory
merged_history h k = record h {
  valid_to = or_keep h.valid_to k.valid_to;
  evidence = or_keep h.evidence k.evidence;
  extraction_method = or_keep h.extraction_method k.extraction_method;
  confidence = or_keep h.confidence k.confidence;
  chunk_id = or_keep h.chunk_id k.chunk_id;
  chunk_hash = or_keep h.chunk_hash k.chunk_hash;
  extractor_version = or_keep h.extractor_version k.extractor_version;
  model = or_keep h.model k.model;
  close_reason = or_keep h.close_reason k.close_reason;
  assertion_status = or_keep h.assertion_status k.assertion_status;
  corrected_by = or_keep h.corrected_by k.corrected_by;
  correction_observed_at = or_keep h.correction_observed_at k.correction_observed_at;
}

-- upsert_entities on one FactHistory row
unfoldable pub archive : FactHistory → Graph → Graph
archive h g = elim (find (same_interval h) g.history) [
  | none ↦ record g { history = g.history ++ h ∷ [] }
  | some _ ↦ record g { history = update (same_interval h) (merged_history h) g.history }
]

abbrev pub snapshot : FactEdge → String → ℕ → Option ℕ → ℕ → FactHistory
snapshot fact uid now valid_to observed_to = record {
  from_uid = fact.from_uid;
  relation = fact.rel_type;
  to_uid = fact.to_uid;
  fact_uid = uid;
  archived_at = now;
  valid_from = fact.valid_at;
  valid_to = valid_to;
  observed_from = fact.first_seen_at;
  observed_to = observed_to;
  last_confirmed_at = fact.last_confirmed_at;
  source_record_keys = fact.source_record_keys;
  evidence = fact.evidence;
  extraction_method = fact.extraction_method;
  confidence = fact.confidence;
  chunk_id = fact.trace.chunk_id;
  chunk_hash = fact.trace.chunk_hash;
  extractor_version = fact.trace.extractor_version;
  model = fact.trace.model;
  close_reason = none;
  assertion_status = none;
  corrected_by = none;
  correction_observed_at = none;
}

-- parsed_to < parsed_from
abbrev pub starts_after : Option ℕ → ℕ → Bool
starts_after none t = false
starts_after (some s) t = ltb t s

abbrev check : Bool → Option (Unit {0})
check true = some tt
check false = none

unfoldable pub close_fact : String → ℕ → String → ℕ → Exec (Unit {0})
unfolding find_live_fact archive
close_fact uid valid_to reason now = do
  fact ← read (find_live_fact uid)
  _ ← read (λ g. check (not (starts_after fact.valid_at valid_to)))
  _ ←
      write (
        archive (record (snapshot fact uid now (some valid_to) now) { close_reason = some reason }))
  write (
      set_found fact uid (λ e. record e { invalid_at = some valid_to; close_reason = some reason }))

unfoldable pub correct_fact : String → String → ℕ → ℕ → Exec (Unit {0})
unfolding find_live_fact archive
correct_fact uid corrected_by observed_to now = do
  fact ← read (find_live_fact uid)
  _ ← write (
      archive (record (snapshot fact uid now fact.valid_at observed_to) {
        assertion_status = some "corrected";
        corrected_by = some corrected_by;
      }))
  write (
      set_found fact uid (λ e. record e {
        assertion_status = some "corrected";
        corrected_by = some corrected_by;
        correction_observed_at = some observed_to;
        metadata_revised_at = some now;
        invalid_at = e.valid_at;
      }))

-- $key IS NOT NULL AND NOT $key IN keys
abbrev brings : Option String → List String → Bool
brings none keys = false
brings (some k) keys = not (has_key k keys)

abbrev with_key : Option String → List String → List String
with_key none keys = keys
with_key (some k) keys = if has_key k keys then keys else keys ++ k ∷ []

abbrev pub confirmed : Option ℕ → Option String → Option String → Option ℕ → ℕ → FactEdge → FactEdge
confirmed at key evidence confidence now e = record e {
  last_confirmed_at =
      if differs evidence e.evidence
        || differs_ℕ confidence e.confidence
        || brings key e.source_record_keys
      then coalesce at now
      else e.last_confirmed_at;
  source_record_keys = with_key key e.source_record_keys;
  evidence = or_keep evidence e.evidence;
  confidence = or_keep confidence e.confidence;
}

unfoldable pub confirm_fact :
    String → Option ℕ → Option String → Option String → Option ℕ → ℕ → Exec (Unit {0})
unfolding find_live_fact
confirm_fact uid at key evidence confidence now = do
  fact ← read (find_live_fact uid)
  write (set_found fact uid (confirmed at key evidence confidence now))

unfoldable pub mark_ended_unknown : String → ℕ → Option String → Exec (Unit {0})
unfolding find_live_fact
mark_ended_unknown uid attested_from attested_by_record = do
  fact ← read (find_live_fact uid)
  write (
      set_found fact uid (λ e. record e {
        ended_unknown = true;
        attested_from = some attested_from;
        attested_by_record = attested_by_record;
      }))

abbrev pub has_uid : String → FactEdge → Bool
has_uid uid e = e.fact_uid == uid

unfoldable pub set_projection_status : String → String → Exec (Unit {0})
set_projection_status uid status = write (λ g. record g {
  edges = update (has_uid uid) (λ e. record e { projection_status = some status }) g.edges;
})
