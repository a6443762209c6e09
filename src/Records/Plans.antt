-- ===== src/Records/Plans.antt =====
-- What plan answers after commit and commit_delete.
use neuron_kg.Prelude.{
  ℕ, String, ◌≡◌, refl, Bool, false, Option, none, some, List, [], ◌∷◌, ◌++◌, arith, ◌==◌, eq_iff,
  if◌then◌else◌, inl, inr, Option-cases, Bool-cases,
}
use neuron_kg.Prelude.Table.{find, update, delete, select}
use neuron_kg.Records.{
  resolve_action, SemanticStatus, LedgerEntry, Ledger, has_key, get, hash_of, plan, recommit,
  upsert, commit, commit_delete, supports, edges_for_record, RecordEdgeRef,
}

module _ (k j hash : String) (uid : Option String) (status : SemanticStatus) (now : ℕ) where
  hash-update :
      (es : List LedgerEntry) {e : LedgerEntry}
      → find (has_key k) es ≡ some e
      → hash_of (find (has_key j) (update (has_key k) (recommit hash uid status now) es))
        ≡ (if k == j then some hash else hash_of (find (has_key j) es))
  hash-update [] q = cc
  hash-update (e ∷ es) q = elim (Bool-cases (e.record_key == k)) [
    | inl t ↦ elim (Bool-cases (e.record_key == j)) [
      | inl u ↦ ground (arith, eq_iff e.record_key k, eq_iff e.record_key j, eq_iff k j)
      | inr u ↦
          rw (t, u)
            (hash-update_ne es
              (ground (arith, eq_iff e.record_key k, eq_iff e.record_key j, eq_iff k j)))
    ]
    | inr t ↦ elim (Bool-cases (e.record_key == j)) [
      | inl u ↦ ground (arith, eq_iff e.record_key k, eq_iff e.record_key j, eq_iff k j)
      | inr u ↦ rw (t, u) (hash-update es (rw t at q))
    ]
  ]
    where
      hash-update_ne :
          (xs : List LedgerEntry)
          → (k == j) ≡ false
          → hash_of (find (has_key j) (update (has_key k) (recommit hash uid status now) xs))
            ≡ (if k == j then some hash else hash_of (find (has_key j) xs))
      hash-update_ne [] ne = rw ne
      hash-update_ne (x ∷ xs) ne =
          let rest = hash-update_ne xs ne in
          ground (arith, eq_iff x.record_key k, eq_iff x.record_key j, eq_iff k j)

  hash-append :
      (es : List LedgerEntry) (new : LedgerEntry)
      → new.record_key ≡ k
      → new.content_hash ≡ hash
      → find (has_key k) es ≡ none
      → hash_of (find (has_key j) (es ++ new ∷ []))
        ≡ (if k == j then some hash else hash_of (find (has_key j) es))
  hash-append [] new a b q = ground arith
  hash-append (e ∷ es) new a b q =
      ground
        (arith, hash-append es new a b, eq_iff e.record_key k, eq_iff e.record_key j, eq_iff k j)

  hash-upsert :
      (es : List LedgerEntry)
      → hash_of (find (has_key j) (upsert k hash uid status now es))
        ≡ (if k == j then some hash else hash_of (find (has_key j) es))
  hash-upsert es = elim (Option-cases (find (has_key k) es)) [
    | inl q ↦ rw (q, upsert) (hash-append es _ refl refl q)
    | inr (e, q) ↦ rw (q, upsert) (hash-update es q)
  ]

-- After a commit the same content is kept, other content of that record is an update, and the
-- plans of other records are as before; so too for the plan of a deletion.
pub plan-commit :
    (k j hash : String) (uid : Option String) (status : SemanticStatus) (now : ℕ)
    (current : Option String) (deleted : Bool) (l : Ledger)
    → plan j current deleted (commit k hash uid status now l)
      ≡ (if k == j then resolve_action (some hash) current deleted else plan j current deleted l)
unfolding plan get commit
plan-commit k j hash uid status now current deleted l =
    rw (hash-upsert k j hash uid status now l.records) (ground arith)

hash-delete :
    (k j : String) (es : List LedgerEntry)
    → hash_of (find (has_key j) (delete (has_key k) es))
      ≡ (if k == j then none else hash_of (find (has_key j) es))
hash-delete k j [] = ground arith
hash-delete k j (e ∷ es) =
    ground (arith, hash-delete k j es, eq_iff e.record_key k, eq_iff e.record_key j, eq_iff k j)

edges-delete :
    (k j : String) (es : List RecordEdgeRef)
    → select (supports j) (delete (supports k) es) ≡ (if k == j then [] else select (supports j) es)
edges-delete k j [] = ground arith
edges-delete k j (e ∷ es) =
    ground (arith, edges-delete k j es, eq_iff e.record_key k, eq_iff e.record_key j, eq_iff k j)

-- A deletion forgets the record and the edges that it supports, and nothing of other records:
-- the record is planned as new.
pub plan-commit_delete :
    (k j : String) (current : Option String) (deleted : Bool) (l : Ledger)
    → (plan j current deleted (commit_delete k l)
        ≡ (if k == j then resolve_action none current deleted else plan j current deleted l))
      × (edges_for_record j (commit_delete k l) ≡ (if k == j then [] else edges_for_record j l))
unfolding plan get commit_delete edges_for_record
plan-commit_delete k j current deleted l =
    (rw (hash-delete k j l.records) (ground arith), edges-delete k j l.edges)
