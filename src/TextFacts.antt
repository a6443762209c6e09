-- ===== src/TextFacts.antt =====
-- graph/resolution/resolve_text_fact.py: what to do with an incoming fact that was classified
-- against a live one. The classifier is not modelled; `kind` and `mode` are its answer and
-- NEURON_FACT_UPDATE_MODE. uuid5 and json.dumps are the arguments make_uid and dumps. The clock
-- is read once for one call.
pub mod Dates
pub mod Ordering
pub mod Pinned
mod Tests
use Prim.Native.String.{◌++◌ as ◌+++◌}
use neuron_kg.Prelude.{
  ℕ, String, Bool, true, false, ◌&&◌, ◌||◌, Option, none, some, List, [], ◌∷◌, leb, ltb, is_some,
  if◌then◌else◌, ◌==◌,
}
use neuron_kg.Prelude.Table.{find}
use neuron_kg.Reviews.{create_review}
use neuron_kg.Facts.{Graph, FactEdge, FactRow, Trace, upsert_fact_edges, is_open}
use neuron_kg.Facts.Exec.{Exec, World, pure, write, read, on_queue, raised, ◌>>=◌}
use neuron_kg.Facts.Writer.{
  close_fact, correct_fact, confirm_fact, mark_ended_unknown, set_projection_status, has_uid,
}

pub data Kind : Type 0 where
  duplicate extends unrelated newer_state corrects contradicts : Kind

pub data Mode : Type 0 where
  suggest auto : Mode

-- The actions of _resolve_conflict.
pub data Action : Type 0 where
  newer_state_close correct dispute : Action

pub record OldFact : Type 0 where
  pub fact_uid : String
  pub from_uid : String
  pub from_label : String
  pub to_uid : String
  pub to_label : String
  pub rel_type : String
  pub valid_at : Option ℕ
  pub invalid_at : Option ℕ
  pub pinned : Bool

pub record NewFact : Type 0 where
  pub from_uid : String
  pub from_label : String
  pub to_uid : String
  pub to_label : String
  pub rel_type : String
  pub source_time : ℕ
  pub source_record_key : Option String
  pub valid_at : Option ℕ
  pub invalid_at : Option ℕ
  pub evidence : Option String
  pub confidence : Option ℕ
  pub extraction_method : Option String
  pub fact_uid : Option String
  pub pinned : Bool
  pub decay_class : Option String
  pub valid_at_basis : Option String
  pub ended_unknown : Bool
  pub adopted_batch : Option String

abbrev ends_by : Option ℕ → Option ℕ → Bool
ends_by (some end) (some start) = leb end start
ends_by _ _ = false

-- new_end <= old_start or old_end <= new_start, where both are there
pub windows_disjoint : Option ℕ → Option ℕ → Option ℕ → Option ℕ → Bool
windows_disjoint old_start old_end new_start new_end =
    ends_by new_end old_start || ends_by old_end new_start

pub decision_endpoint : String → String → String → String → Option String
decision_endpoint from_uid from_label to_uid to_label =
    if from_label == "Decision"
    then some from_uid
    else if to_label == "Decision"
    then some to_uid
    else none

abbrev pub is_pair : String → String → String × String → Bool
is_pair a b p = p.0 == a && p.1 == b

abbrev pub has_any : String → Graph → Bool
has_any uid g = is_some (find (λ n. n.uid == uid) g.nodes)

abbrev pub add_pair : String → String → Option (String × String) → Graph → Graph
add_pair a b (some _) g = g
add_pair a b none g = record g { disputes = (a, b) ∷ g.disputes }

-- MATCH (a), (b) and then MERGE (a)-[:DISPUTED_WITH]->(b), without its times
pub merge_dispute : String → String → Graph → Graph
merge_dispute a b g =
    if has_any a g && has_any b g then add_pair a b (find (is_pair a b) g.disputes) g else g

-- UnsupportedDisputeError where a side has no Decision; one Decision does not dispute itself.
abbrev pub linked : Option String → Option String → Exec (Unit {0})
linked none b w = raised [] w
linked (some a) none w = raised [] w
linked (some a) (some b) w = if a == b then pure tt w else write (merge_dispute a b) w

pub link_disputed : OldFact → NewFact → Exec (Unit {0})
link_disputed old new =
    linked (decision_endpoint old.from_uid old.from_label old.to_uid old.to_label)
      (decision_endpoint new.from_uid new.from_label new.to_uid new.to_label)

abbrev keys_of : Option String → List String
keys_of none = []
keys_of (some k) = if k == "" then [] else k ∷ []

abbrev named : Option String → String → String
named none d = d
named (some s) d = if s == "" then d else s

abbrev status_of : List FactEdge → Option (Option ℕ)
status_of [] = none
status_of (e ∷ es) = some e.invalid_at

module _ (make_uid : String → String → String → String) (now : ℕ) where
  abbrev pub uid_of : NewFact → String
  uid_of new = named new.fact_uid (make_uid new.from_uid new.rel_type new.to_uid)

  abbrev pub row_of : NewFact → String → FactRow
  row_of new status = record {
    from_uid = new.from_uid;
    to_uid = new.to_uid;
    fact_uid = uid_of new;
    source_record_keys = keys_of new.source_record_key;
    evidence = new.evidence;
    extraction_method = some (named new.extraction_method "llm");
    confidence = new.confidence;
    valid_at = new.valid_at;
    valid_at_basis = new.valid_at_basis;
    invalid_at = none;
    derived = none;
    ended_unknown = some new.ended_unknown;
    attested_from = none;
    attested_by_record = none;
    pinned = some new.pinned;
    projection_status = some status;
    trace = record {
      chunk_id = none;
      chunk_hash = none;
      extractor_version = none;
      model = none;
      derived_rule = none;
      premise_fact_uids = none;
      adopted_batch = new.adopted_batch;
      decay_class = new.decay_class;
    };
  }

  -- Whether the fact that was just written stands open.
  abbrev pub is_still_live : String → Graph → Bool
  is_still_live uid g = elim (find (has_uid uid) g.edges) [
    | none ↦ false
    | some e ↦ is_open e.invalid_at
  ]

  abbrev pub close_backfilled : String → Option ℕ → Exec (Unit {0})
  close_backfilled uid none w = pure tt w
  close_backfilled uid (some end) w =
      if is_still_live uid w.graph
      then close_fact uid end "backfilled_before_existing" now w
      else pure tt w

  pub write_incoming_fact : NewFact → String → Exec String
  write_incoming_fact new status = do
    _ ← write (
        upsert_fact_edges new.rel_type new.from_label new.to_label (row_of new status ∷ []) false
          now)
    _ ← close_backfilled (uid_of new) new.invalid_at
    pure (uid_of new)

  abbrev action_name : Action → String
  action_name newer_state_close = "newer_state_close"
  action_name correct = "corrects"
  action_name dispute = "contradicts"

  pub identity_of : Action → NewFact → OldFact → String
  identity_of action new old =
      "fact_update:"
      +++ action_name action
      +++ ":"
      +++ old.fact_uid
      +++ ":"
      +++ new.from_uid
      +++ ":"
      +++ new.rel_type
      +++ ":"
      +++ new.to_uid

  abbrev close_at : OldFact → NewFact → Option ℕ → Exec (Unit {0})
  close_at old new (some t) = close_fact old.fact_uid t "superseded" now
  close_at old new none = raised []

  -- The mutation of the old fact in auto mode.
  pub mutate : Action → NewFact → OldFact → String → Exec (Unit {0})
  mutate newer_state_close new old uid = close_at old new new.valid_at
  mutate correct new old uid = correct_fact old.fact_uid uid new.source_time now
  mutate dispute new old uid = link_disputed old new

  -- What the dict that is returned tells: the uid of the new fact, and the review.
  pub resolve_conflict :
      (Action → NewFact → OldFact → String)
      → NewFact
      → OldFact
      → Mode
      → Action
      → Exec (Option String × Option (Option ℕ))
  unfolding identity_of
  resolve_conflict dumps new old suggest action = do
    review_id ←
        on_queue (
          create_review "fact_update" (dumps action new old) (some (identity_of action new old))
            now)
    uid ← write_incoming_fact new "pending_review"
    pure (some uid, some review_id)
  resolve_conflict dumps new old auto action = do
    uid ← write_incoming_fact new "pending_review"
    _ ← mutate action new old uid
    _ ← set_projection_status uid "live"
    pure (some uid, none)

  abbrev pub plain : Exec String → Exec (Option String × Option (Option ℕ))
  plain m = m >>= λ uid. pure (some uid, none)

  -- newer_state, by the dates of the two facts.
  pub resolve_newer :
      (Action → NewFact → OldFact → String)
      → NewFact
      → OldFact
      → Mode
      → Option ℕ
      → Option ℕ
      → Exec (Option String × Option (Option ℕ))
  unfolding windows_disjoint
  resolve_newer dumps new old mode (some s) (some t) =
      if windows_disjoint (some s) old.invalid_at (some t) new.invalid_at
      then plain (write_incoming_fact new "live")
      else if ltb s t
      then resolve_conflict dumps new old mode newer_state_close
      else plain (write_incoming_fact (record new { invalid_at = some s }) "live")
  resolve_newer dumps new old mode _ _ = do
    _ ← mark_ended_unknown old.fact_uid new.source_time new.source_record_key
    plain (write_incoming_fact new "live")

  abbrev pub unless_pinned : Bool → Action → Action
  unless_pinned true a = dispute
  unless_pinned false a = a

  pub resolve_text_fact :
      (Action → NewFact → OldFact → String)
      → NewFact
      → OldFact
      → Kind
      → Mode
      → Exec (Option String × Option (Option ℕ))
  resolve_text_fact dumps new old duplicate mode = do
    _ ←
        confirm_fact old.fact_uid (some new.source_time) new.source_record_key new.evidence
          new.confidence now
    pure (none, none)
  resolve_text_fact dumps new old extends mode = plain (write_incoming_fact new "live")
  resolve_text_fact dumps new old unrelated mode = plain (write_incoming_fact new "live")
  resolve_text_fact dumps new old contradicts mode = resolve_conflict dumps new old mode dispute
  resolve_text_fact dumps new old corrects mode =
      resolve_conflict dumps new old mode (unless_pinned old.pinned correct)
  resolve_text_fact dumps new old newer_state mode =
      if old.pinned
      then resolve_conflict dumps new old mode dispute
      else resolve_newer dumps new old mode old.valid_at new.valid_at
