-- ===== src/Chunks.antt =====
-- The chunk half of connectors/core/ledger.py: the table source_chunks, its diff on a new version
-- of a record (save_chunks), the queue of pending chunks and the triage of chunks. A probability
-- is in thousandths, and times are microseconds.
pub mod Saving
pub mod Completion
mod Tests
use neuron_kg.Prelude.{
  ℕ, ◌+◌, String, Bool, true, false, not, Option, none, some, List, [], ◌∷◌, ◌++◌, map, eqb,
  is_some, ◌&&◌, ◌||◌, if◌then◌else◌, ◌==◌, length,
}
use neuron_kg.Prelude.Table.{select, find, update, delete, order_by}
use neuron_kg.Records.{SemanticStatus, pending, done, not_applicable, LedgerEntry, has_key}

-- A row of source_chunks.
pub record Chunk : Type 0 where
  pub record_key : String
  pub chunk_id : String
  pub chunk_index : ℕ
  pub text : String
  pub status : SemanticStatus
  pub llm_text : Option String
  pub resolution_status : String
  pub resolution_reason : Option String
  pub committed_at : ℕ
  pub superseded_at : Option ℕ
  pub triage_type : Option String
  pub triage_durable_p : ℕ
  pub triage_model : String
  pub triage_facts_written : ℕ

pub record ChunkWrite : Type 0 where
  pub chunk_id : String
  pub chunk_index : ℕ
  pub text : String
  pub status : SemanticStatus
  pub llm_text : Option String
  pub resolution_status : String
  pub resolution_reason : Option String

pub record ChunkDiff : Type 0 where
  pub kept : ℕ
  pub added : ℕ
  pub superseded : ℕ
  pub reused_done : ℕ

-- The 3-tuple (chunk_id, chunk_index, text) that save_chunks still takes.
pub normalize_chunk_write : String → ℕ → String → ChunkWrite
normalize_chunk_write i index text = record {
  chunk_id = i;
  chunk_index = index;
  text = text;
  status = pending;
  llm_text = some text;
  resolution_status = "unresolved";
  resolution_reason = none;
}

abbrev pub is_done : SemanticStatus → Bool
is_done done = true
is_done _ = false

abbrev pub is_live : Chunk → Bool
is_live c = elim c.superseded_at [ none ↦ true | some _ ↦ false ]

-- record_key = ? AND chunk_id = ?, the primary key
abbrev pub is_chunk : String → String → Chunk → Bool
is_chunk k i c = c.record_key == k && c.chunk_id == i

-- record_key = ? AND superseded_at IS NULL
abbrev pub is_current : String → Chunk → Bool
is_current k c = c.record_key == k && is_live c

abbrev pub writes_id : String → ChunkWrite → Bool
writes_id i w = w.chunk_id == i

-- incoming[w.chunk_id] = w
abbrev put_write : ChunkWrite → List ChunkWrite → List ChunkWrite
put_write w [] = w ∷ []
put_write w (v ∷ vs) = if v.chunk_id == w.chunk_id then w ∷ vs else v ∷ put_write w vs

-- {item.chunk_id: item for item in writes}: of two items with one id the later one counts.
pub incoming_from : List ChunkWrite → List ChunkWrite → List ChunkWrite
incoming_from acc [] = acc
incoming_from acc (w ∷ ws) = incoming_from (put_write w acc) ws

pub incoming_of : List ChunkWrite → List ChunkWrite
unfolding incoming_from
incoming_of ws = incoming_from [] ws

-- The three UPDATE statements of save_chunks at the row of a current chunk: a kept row is
-- rewritten, one whose id is gone is superseded. (record_key, chunk_id) is the primary key, so
-- the id of a current row names that row alone.
abbrev kept_row : ChunkWrite → Chunk → Chunk
kept_row w c = record c {
  chunk_index = w.chunk_index;
  status = if is_done c.status || is_done w.status then done else pending;
  llm_text = w.llm_text;
  resolution_status = w.resolution_status;
  resolution_reason = w.resolution_reason;
}

abbrev superseded_row : ℕ → Chunk → Chunk
superseded_row now c = record c { superseded_at = some now }

abbrev revise_row : ℕ → List ChunkWrite → Chunk → Chunk
revise_row now incoming c = elim (find (writes_id c.chunk_id) incoming) [
  | some w ↦ kept_row w c
  | none ↦ superseded_row now c
]

-- The rows whose text the predecessor `adopt_from` has extracted already.
abbrev is_adoptable : Option String → String → Chunk → Bool
is_adoptable none text c = false
is_adoptable (some from) text c = is_current from c && is_done c.status && c.text == text

abbrev is_adopted : Option String → List Chunk → ChunkWrite → Bool
is_adopted adopt_from rows w = is_some (find (is_adoptable adopt_from w.text) rows)

-- The row that the INSERT writes. `adopted` is read from the table before the statements.
abbrev added_row : String → ℕ → (ChunkWrite → Bool) → ChunkWrite → Chunk
added_row k now adopted w = record {
  record_key = k;
  chunk_id = w.chunk_id;
  chunk_index = w.chunk_index;
  text = w.text;
  status = if adopted w then done else w.status;
  llm_text = w.llm_text;
  resolution_status = w.resolution_status;
  resolution_reason = w.resolution_reason;
  committed_at = now;
  superseded_at = none;
  triage_type = none;
  triage_durable_p = 0;
  triage_model = "";
  triage_facts_written = 0;
}

-- An id of the new version that the current version has, or has not.
abbrev is_kept : String → List Chunk → ChunkWrite → Bool
is_kept k rows w = is_some (find (λ c. is_current k c && c.chunk_id == w.chunk_id) rows)

abbrev is_added : String → List Chunk → ChunkWrite → Bool
is_added k rows w = not (is_kept k rows w)

-- Whether an INSERT meets a row with its primary key, which is then a superseded one.
abbrev clashes : String → List Chunk → List ChunkWrite → Option ChunkWrite
clashes k rows ws = find (λ w. is_some (find (is_chunk k w.chunk_id) rows)) ws

abbrev has_write : List ChunkWrite → Chunk → Bool
has_write incoming c = is_some (find (writes_id c.chunk_id) incoming)

pub chunk_diff : String → Option String → List ChunkWrite → List Chunk → ChunkDiff
chunk_diff k adopt_from incoming rows =
    let current = select (is_current k) rows in
    record {
      kept = length (select (has_write incoming) current);
      added = length (select (is_added k rows) incoming);
      superseded = length (delete (has_write incoming) current);
      reused_done =
          length (select (λ c. is_done c.status) (select (has_write incoming) current))
          + length (select (is_adopted adopt_from rows) (select (is_added k rows) incoming));
    }

-- `none` is the IntegrityError of the INSERT; the transaction is then rolled back.
pub save_chunks :
    String → List ChunkWrite → Option String → ℕ → List Chunk → Option (List Chunk × ChunkDiff)
save_chunks k writes adopt_from now rows =
    let incoming = incoming_of writes in
    let added = select (is_added k rows) incoming in
    elim (clashes k rows added) [
      | some _ ↦ none
      | none ↦ some (
        update (is_current k) (revise_row now incoming) rows
            ++ map (added_row k now (is_adopted adopt_from rows)) added,
        chunk_diff k adopt_from incoming rows,
      )
    ]

pub chunk_status : String → String → List Chunk → Option SemanticStatus
chunk_status k i rows = elim (find (is_chunk k i) rows) [ none ↦ none | some c ↦ some c.status ]

pub commit_chunk : String → String → SemanticStatus → ℕ → List Chunk → List Chunk
commit_chunk k i status now rows =
    update (is_chunk k i) (λ c. record c { status = status; committed_at = now }) rows

pub record_triage : String → String → String → ℕ → String → List Chunk → List Chunk
record_triage k i chunk_type durable_p model rows =
    update (is_chunk k i)
      (λ c. record c {
        triage_type = some chunk_type;
        triage_durable_p = durable_p;
        triage_model = model;
      })
      rows

pub record_triage_yield : String → String → ℕ → List Chunk → List Chunk
record_triage_yield k i facts rows =
    update (is_chunk k i) (λ c. record c { triage_facts_written = facts }) rows

-- COUNT(*) of the current rows that are not done is zero.
pub record_fully_processed : String → List Chunk → Bool
record_fully_processed k rows =
    eqb (length (select (λ c. c.record_key == k && not (is_done c.status) && is_live c) rows)) 0

-- DELETE FROM source_chunks of ConnectorLedger.commit_delete
pub commit_delete : String → List Chunk → List Chunk
commit_delete k rows = delete (λ c. c.record_key == k) rows
