-- ===== src/Chunks/Tests.antt =====
-- Chunks at small inputs: a save, the save after it, and a text that comes back.
use neuron_kg.Prelude.{
  ℕ, String, ◌≡◌, refl, true, Option, none, some, List, [], ◌∷◌, arith, All, Member, here, eq_iff,
}
use neuron_kg.Records.{pending}
use neuron_kg.Chunks.{
  Chunk, ChunkWrite, ChunkDiff, normalize_chunk_write, incoming_of, save_chunks, chunk_diff,
  is_current, has_write, is_kept, commit_chunk,
}
use neuron_kg.Chunks.Saving.{Revision, save_chunks-Revision, save_chunks-current}
use neuron_kg.Chunks.Completion.{save_chunks_reverted}

abbrev chunk : String → ℕ → String → Option ℕ → Chunk
chunk i index text gone = record {
  record_key = "k";
  chunk_id = i;
  chunk_index = index;
  text = text;
  status = pending;
  llm_text = some text;
  resolution_status = "unresolved";
  resolution_reason = none;
  committed_at = 1;
  superseded_at = gone;
  triage_type = none;
  triage_durable_p = 0;
  triage_model = "";
  triage_facts_written = 0;
}

abbrev first_version : List ChunkWrite
first_version = normalize_chunk_write "a" 0 "alpha" ∷ normalize_chunk_write "b" 1 "beta" ∷ []

abbrev second_version : List ChunkWrite
second_version = normalize_chunk_write "b" 0 "beta" ∷ []

program : Unit {0}
unfolding save_chunks incoming_of normalize_chunk_write chunk_diff commit_chunk
program = tt

abbrev rows1 : List Chunk
rows1 = chunk "a" 0 "alpha" none ∷ chunk "b" 1 "beta" none ∷ []

abbrev rows2 : List Chunk
rows2 = chunk "a" 0 "alpha" (some 2) ∷ chunk "b" 0 "beta" none ∷ []

abbrev diff1 : ChunkDiff
diff1 = record { kept = 0; added = 2; superseded = 0; reused_done = 0 }

abbrev diff2 : ChunkDiff
diff2 = record { kept = 1; added = 0; superseded = 1; reused_done = 0 }

save_first : save_chunks "k" first_version none 1 [] ≡ some (rows1, diff1)
unfolding program
save_first = refl

save_second : save_chunks "k" second_version none 2 rows1 ≡ some (rows2, diff2)
unfolding program
save_second = refl

save_chunks-Revision_example :
    All
      (λ c. (c' : Chunk) × Member c' rows2 × Revision "k" 2 (incoming_of second_version) c c')
      rows1
save_chunks-Revision_example =
    save_chunks-Revision "k" second_version none 2 rows1 rows2 diff2 save_second

save_chunks-current_example :
    All (λ c. is_current "k" c ≡ true → has_write (incoming_of second_version) c ≡ true) rows2
    × All (λ w. is_kept "k" rows2 w ≡ true) (incoming_of second_version)
save_chunks-current_example =
    save_chunks-current "k" second_version none 2 rows1 rows2 diff2 save_second

save_chunks_reverted_example : save_chunks "k" first_version none 3 rows2 ≡ none
save_chunks_reverted_example =
    save_chunks_reverted "k" first_version none 3 rows2 (chunk "a" 0 "alpha" (some 2))
      (normalize_chunk_write "a" 0 "alpha") (here refl) refl (unfold program in here refl)
      (unfold program in refl) ((λ _. refl), ((λ same. ground (arith, eq_iff "b" "a")), tt))
