-- ===== src/Chunks/Saving.antt =====
-- save_chunks of connectors/core/ledger.py: what it leaves in the table.
use mathlib.Core.Bool.{true≢false}
use neuron_kg.Prelude.{
  ℕ, String, ◌≡◌, ◌≢◌, refl, sym, ap, ◌∙◌, subst, true, false, ◌&&◌, Option, none, some, List, ◌++◌,
  map, arith, ◌==◌, eq_iff, eq_refl, inl, inr, Option-cases, Bool-cases, is_some, All, All-map,
  Member, All-Member, All-append,
}
use neuron_kg.Prelude.Table.{find, select, update, All-update_of, All-select}
use neuron_kg.Prelude.Rows.{
  Member-update_hit, Member-update_miss, Member-found, found-Member, find-Member, find-none,
  Member-select, Member-left, Member-right, Member-map, All-intro, All-to-map,
}
use neuron_kg.Records.{pending, done}
use neuron_kg.Chunks.{
  Chunk, ChunkWrite, ChunkDiff, is_done, is_live, is_current, writes_id, incoming_of, kept_row,
  superseded_row, revise_row, is_adopted, added_row, is_kept, is_added, clashes, has_write,
  save_chunks,
}

-- A row that is written again from `w`: it is current still, with the place and the resolution of
-- `w` and its own text, commit and triage; it is done if the row or `w` was done and else pending.
pub record Rewritten (w : ChunkWrite) (c c' : Chunk) : Type 0 where
  pub record_key : c'.record_key ≡ c.record_key
  pub chunk_id : c'.chunk_id ≡ c.chunk_id
  pub chunk_index : c'.chunk_index ≡ w.chunk_index
  pub text : c'.text ≡ c.text
  pub was_done : is_done c.status ≡ true → c'.status ≡ done
  pub is_given_done : is_done w.status ≡ true → c'.status ≡ done
  pub else_pending : is_done c.status ≡ false → is_done w.status ≡ false → c'.status ≡ pending
  pub llm_text : c'.llm_text ≡ w.llm_text
  pub resolution_status : c'.resolution_status ≡ w.resolution_status
  pub resolution_reason : c'.resolution_reason ≡ w.resolution_reason
  pub committed_at : c'.committed_at ≡ c.committed_at
  pub superseded_at : c'.superseded_at ≡ none
  pub triage_type : c'.triage_type ≡ c.triage_type
  pub triage_durable_p : c'.triage_durable_p ≡ c.triage_durable_p
  pub triage_model : c'.triage_model ≡ c.triage_model
  pub triage_facts_written : c'.triage_facts_written ≡ c.triage_facts_written

-- A row that is superseded at a time and keeps what it says.
pub record Retired (now : ℕ) (c c' : Chunk) : Type 0 where
  pub record_key : c'.record_key ≡ c.record_key
  pub chunk_id : c'.chunk_id ≡ c.chunk_id
  pub text : c'.text ≡ c.text
  pub status : c'.status ≡ c.status
  pub committed_at : c'.committed_at ≡ c.committed_at
  pub superseded_at : c'.superseded_at ≡ some now

-- How one row of the table stands after a save of record `k`.
pub data Revision (k : String) (now : ℕ) (incoming : List ChunkWrite) (c c' : Chunk) : Type 0 where
  untouched : is_current k c ≡ false → c' ≡ c → Revision k now incoming c c'
  rewritten :
      (w : ChunkWrite)
      → is_current k c ≡ true
      → Member w incoming
      → w.chunk_id ≡ c.chunk_id
      → Rewritten w c c'
      → Revision k now incoming c c'
  retired :
      is_current k c ≡ true
      → All (λ w. w.chunk_id ≢ c.chunk_id) incoming
      → Retired now c c'
      → Revision k now incoming c c'

is_live-superseded_at : (c : Chunk) → is_live c ≡ true → c.superseded_at ≡ none
is_live-superseded_at c h = elim (Option-cases c.superseded_at) [
  | inl e ↦ e
  | inr (t, e) ↦ absurd (true≢false (sym h ∙ rw e refl))
]

kept_row-Rewritten : (w : ChunkWrite) (c : Chunk) → is_live c ≡ true → Rewritten w c (kept_row w c)
kept_row-Rewritten w c live = record {
  record_key = refl;
  chunk_id = refl;
  chunk_index = refl;
  text = refl;
  was_done = λ h. rw h refl;
  is_given_done = λ h. given h;
  else_pending = λ h g. rw (h, g) refl;
  llm_text = refl;
  resolution_status = refl;
  resolution_reason = refl;
  committed_at = refl;
  superseded_at = is_live-superseded_at c live;
  triage_type = refl;
  triage_durable_p = refl;
  triage_model = refl;
  triage_facts_written = refl;
}
  where
    given : is_done w.status ≡ true → (kept_row w c).status ≡ done
    given h = elim (Bool-cases (is_done c.status)) [ inl t ↦ rw t refl | inr t ↦ rw (t, h) refl ]

superseded_row-Retired : (now : ℕ) (c : Chunk) → Retired now c (superseded_row now c)
superseded_row-Retired now c = record {
  record_key = refl;
  chunk_id = refl;
  text = refl;
  status = refl;
  committed_at = refl;
  superseded_at = refl;
}

module _ (k : String) (writes : List ChunkWrite) (adopt_from : Option String) (now : ℕ)
    (rows : List Chunk) where
  abbrev pub incoming : List ChunkWrite
  incoming = incoming_of writes

  abbrev pub new_writes : List ChunkWrite
  new_writes = select (is_added k rows) incoming

  abbrev pub saved : List Chunk
  saved =
      update (is_current k) (revise_row now incoming) rows
      ++ map (added_row k now (is_adopted adopt_from rows)) new_writes

  save_chunks-saved :
      {after : List Chunk} {diff : ChunkDiff}
      → save_chunks k writes adopt_from now rows ≡ some (after, diff)
      → saved ≡ after
  unfolding save_chunks
  save_chunks-saved e = elim (Option-cases (clashes k rows new_writes)) [
    | inl q ↦ ground arith
    | inr (w, q) ↦ ground arith
  ]

  row-Revision :
      (c : Chunk) → Member c rows → (c' : Chunk) × Member c' saved × Revision k now incoming c c'
  row-Revision c m = elim (Bool-cases (is_current k c)) [
    | inr other ↦ (
      c,
      Member-left _ _ (Member-update_miss (is_current k) _ rows other m),
      untouched other refl,
    )
    | inl own ↦
        let hit =
          Member-left _ (map (added_row k now (is_adopted adopt_from rows)) new_writes)
            (Member-update_hit (is_current k) (revise_row now incoming) rows own m) in
        elim (Option-cases (find (writes_id c.chunk_id) incoming)) [
          | inl gone ↦ (
            superseded_row now c,
            rw (gone, revise_row) at hit,
            retired own
                (All-map (λ w h e. absurd (true≢false (sym (rw e (eq_refl c.chunk_id)) ∙ h)))
                  incoming (find-none (writes_id c.chunk_id) incoming gone))
                (superseded_row-Retired now c),
          )
          | inr (w, kept) ↦
              let (same, given) = find-Member (writes_id c.chunk_id) incoming kept in
              (
                kept_row w c,
                rw (kept, revise_row) at hit,
                rewritten w own given ((eq_iff w.chunk_id c.chunk_id).0 same)
                    (kept_row-Rewritten w c (ground arith)),
              )
        ]
  ]

  revise_row-has_write :
      (c : Chunk)
      → is_current k (revise_row now incoming c) ≡ true
      → has_write incoming (revise_row now incoming c) ≡ true
  revise_row-has_write c own = elim (Option-cases (find (writes_id c.chunk_id) incoming)) [
    | inl gone ↦ ground arith
    | inr (w, kept) ↦ ground arith
  ]

  -- No id but one of the new version is current afterwards.
  saved-has_write : All (λ c. is_current k c ≡ true → has_write incoming c ≡ true) saved
  saved-has_write =
      All-append (λ c. is_current k c ≡ true → has_write incoming c ≡ true)
        (update (is_current k) (revise_row now incoming) rows) _
        (All-update_of (λ c. is_current k c ≡ true → has_write incoming c ≡ true) (is_current k)
          (revise_row now incoming) rows (λ c _ _ own. revise_row-has_write c own)
          (λ c other m now_own. absurd (true≢false (sym now_own ∙ other))) (All-Member rows))
        (All-to-map _ _ new_writes (
          All-map (λ w h _. Member-found (writes_id w.chunk_id) incoming (eq_refl w.chunk_id) h.1)
            new_writes
            (All-select (λ w. Member w incoming) (is_added k rows) incoming (All-Member incoming))))

  saved-is_kept_old :
      (w : ChunkWrite) → Member w incoming → is_kept k rows w ≡ true → is_kept k saved w ≡ true
  saved-is_kept_old w m old =
      let (c, met, at) = found-Member (λ c. is_current k c && c.chunk_id == w.chunk_id) rows old in
      let own : is_current k c ≡ true = ground arith in
      let named : (c.chunk_id == w.chunk_id) ≡ true = ground arith in
      elim (Option-cases (find (writes_id c.chunk_id) incoming)) [
        | inl gone ↦
            let there_is =
              Member-found (writes_id c.chunk_id) incoming
                (ground (arith, eq_iff c.chunk_id w.chunk_id, eq_iff w.chunk_id c.chunk_id)) m in
            absurd (true≢false (sym there_is ∙ ap is_some gone))
        | inr (v, kept) ↦
            Member-found (λ c. is_current k c && c.chunk_id == w.chunk_id) {r = kept_row v c} saved
              met
              (Member-left _ _ (
                rw (kept, revise_row) at
                  (Member-update_hit (is_current k) (revise_row now incoming) rows own at)))
      ]

  -- And each of them is.
  saved-is_kept : All (λ w. is_kept k saved w ≡ true) incoming
  saved-is_kept =
      All-intro (λ w. is_kept k saved w ≡ true) incoming
        λ w m. elim (Bool-cases (is_kept k rows w)) [
          | inl old ↦ saved-is_kept_old w m old
          | inr new ↦
              Member-found (λ c. is_current k c && c.chunk_id == w.chunk_id)
                {r = added_row k now (is_adopted adopt_from rows) w} saved
                (rw (eq_refl k, eq_refl w.chunk_id))
                (Member-right (update (is_current k) (revise_row now incoming) rows) _
                  (Member-map _ new_writes (Member-select (is_added k rows) incoming (rw new) m)))
        ]

-- After a save every old row still stands. A row of another record, or one superseded before, is as
-- it was. A current row of the record whose id comes again is current still, with its text, its
-- commit time and its triage, and with the place and the resolution that were given; it is done
-- if it was done or is given as done, and pending otherwise. Any other current row is superseded
-- now, and keeps its text, its status and its commit time.
pub save_chunks-Revision :
    (k : String) (writes : List ChunkWrite) (adopt_from : Option String) (now : ℕ)
    (rows after : List Chunk) (diff : ChunkDiff)
    → save_chunks k writes adopt_from now rows ≡ some (after, diff)
    → All (λ c. (c' : Chunk) × Member c' after × Revision k now (incoming_of writes) c c') rows
save_chunks-Revision k writes adopt_from now rows after diff e =
    subst
      (λ t. All (λ c. (c' : Chunk) × Member c' t × Revision k now (incoming_of writes) c c') rows)
      (save_chunks-saved k writes adopt_from now rows e)
      (All-intro _ rows (row-Revision k writes adopt_from now rows))

-- After a save the current ids of the record are exactly those of the new version.
pub save_chunks-current :
    (k : String) (writes : List ChunkWrite) (adopt_from : Option String) (now : ℕ)
    (rows after : List Chunk) (diff : ChunkDiff)
    → save_chunks k writes adopt_from now rows ≡ some (after, diff)
    → All (λ c. is_current k c ≡ true → has_write (incoming_of writes) c ≡ true) after
      × All (λ w. is_kept k after w ≡ true) (incoming_of writes)
save_chunks-current k writes adopt_from now rows after diff e =
    subst
      (λ t.
        All (λ c. is_current k c ≡ true → has_write (incoming_of writes) c ≡ true) t
        × All (λ w. is_kept k t w ≡ true) (incoming_of writes))
      (save_chunks-saved k writes adopt_from now rows e)
      (saved-has_write k writes adopt_from now rows, saved-is_kept k writes adopt_from now rows)
