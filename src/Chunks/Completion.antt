-- ===== src/Chunks/Completion.antt =====
-- Saving a version twice, saving a version whose text had gone, and when a record is finished.
use mathlib.Core.Bool.{true≢false}
use neuron_kg.Prelude.{
  ℕ, String, ◌≡◌, refl, sym, ap, ◌∙◌, ◌↔◌, Bool, true, false, not, ◌&&◌, Option, none, some, List,
  [], ◌∷◌, arith, ◌==◌, eq_iff, inl, inr, Option-cases, Bool-cases, is_some, length, All, All-map,
  Member, eqb,
}
use neuron_kg.Prelude.Table.{find, select, delete, All-select}
use neuron_kg.Prelude.Rows.{
  find_missing, Member-found, Member-select, select_none, delete_every, select-nil,
}
use neuron_kg.Chunks.{
  Chunk, ChunkWrite, ChunkDiff, is_done, is_live, is_chunk, is_current, incoming_of, is_added,
  clashes, has_write, chunk_diff, save_chunks, record_fully_processed,
}
use neuron_kg.Chunks.Saving.{saved, save_chunks-current}

-- Saving the same version again succeeds, adds nothing and supersedes nothing.
pub save_chunks_again :
    (k : String) (writes : List ChunkWrite) (adopt_from adopt_again : Option String) (now later : ℕ)
    (rows after : List Chunk) (diff : ChunkDiff)
    → save_chunks k writes adopt_from now rows ≡ some (after, diff)
    → (again : List Chunk) × (change : ChunkDiff) × (save_chunks k writes adopt_again later after
        ≡ some (again, change))
      × (change.added ≡ 0)
      × (change.superseded ≡ 0)
unfolding save_chunks chunk_diff
save_chunks_again k writes adopt_from adopt_again now later rows after diff e =
    let (known, kept) = save_chunks-current k writes adopt_from now rows after diff e in
    let none_added : select (is_added k after) (incoming_of writes) ≡ [] =
      select_none (is_added k after) (incoming_of writes)
        (All-map (λ w h. ap not h) (incoming_of writes) kept) in
    let none_gone : delete (has_write (incoming_of writes)) (select (is_current k) after) ≡ [] =
      delete_every (has_write (incoming_of writes)) (select (is_current k) after) (
        All-map (λ c h. h.1 h.0) (select (is_current k) after)
          (All-select (λ c. is_current k c ≡ true → has_write (incoming_of writes) c ≡ true)
            (is_current k) after known)) in
    let no_clash : clashes k after (select (is_added k after) (incoming_of writes)) ≡ none =
      ap (clashes k after) none_added in
    (
      saved k writes adopt_again later after,
      chunk_diff k adopt_again (incoming_of writes) after,
      rw (no_clash, save_chunks),
      ap length none_added,
      ap length none_gone,
    )

-- A text that was superseded and comes back has its old content-addressed id, under which the
-- superseded row still stands: the INSERT fails, and nothing of the new version is saved.
pub save_chunks_reverted :
    (k : String) (writes : List ChunkWrite) (adopt_from : Option String) (now : ℕ)
    (rows : List Chunk) (c : Chunk) (w : ChunkWrite)
    → Member c rows
    → c.record_key ≡ k
    → Member w (incoming_of writes)
    → w.chunk_id ≡ c.chunk_id
    → All (λ r. r.chunk_id ≡ c.chunk_id → is_current k r ≡ false) rows
    → save_chunks k writes adopt_from now rows ≡ none
unfolding save_chunks
save_chunks_reverted k writes adopt_from now rows c w at own m same gone =
    let is_new : is_added k rows w ≡ true = ap not (
      ap is_some (
        find_missing (λ r. is_current k r && r.chunk_id == w.chunk_id) rows
          (All-map
            (λ r h. elim (Bool-cases (r.chunk_id == w.chunk_id)) [
              | inl named ↦ rw (h ((eq_iff r.chunk_id w.chunk_id).0 named ∙ same)) refl
              | inr other ↦ ground arith
            ])
            rows gone))) in
    let meets : is_some (find (is_chunk k w.chunk_id) rows) ≡ true =
      Member-found (is_chunk k w.chunk_id) {r = c} rows
        (ground (arith, eq_iff c.record_key k, eq_iff c.chunk_id w.chunk_id)) at in
    let clash =
      Member-found (λ v. is_some (find (is_chunk k v.chunk_id) rows)) {r = w}
        (select (is_added k rows) (incoming_of writes)) meets
        (Member-select (is_added k rows) (incoming_of writes) is_new m) in
    elim (Option-cases (clashes k rows (select (is_added k rows) (incoming_of writes)))) [
      | inr (v, q) ↦ rw (q, save_chunks)
      | inl q ↦ absurd (true≢false (sym clash ∙ ap is_some q))
    ]

length-zero {ℓ} : {A : Type ℓ} (xs : List A) → eqb (length xs) 0 ≡ true → xs ≡ []
length-zero [] e = refl
length-zero (x ∷ xs) e = absurd (ground arith)

abbrev is_open : String → Chunk → Bool
is_open k c = c.record_key == k && not (is_done c.status) && is_live c

-- A record is finished exactly when all its current chunks are done.
pub record_fully_processed_iff :
    (k : String) (rows : List Chunk)
    → (record_fully_processed k rows ≡ true)
      ↔ All (λ c. is_current k c ≡ true → is_done c.status ≡ true) rows
unfolding record_fully_processed
record_fully_processed_iff k rows = (
  (λ e.
      All-map (λ c h own. ground arith) rows
        (select-nil (is_open k) rows (length-zero (select (is_open k) rows) e))),
  (λ h.
      ap (λ l. eqb (length l) 0)
        (select_none (is_open k) rows (All-map (λ c fin. closed c fin) rows h))),
)
  where
    closed : (c : Chunk) → (is_current k c ≡ true → is_done c.status ≡ true) → is_open k c ≡ false
    closed c fin = elim (Bool-cases (is_current k c)) [
      | inl own ↦ let d = fin own in ground arith
      | inr other ↦ ground arith
    ]
