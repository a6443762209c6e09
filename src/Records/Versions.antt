-- ===== src/Records/Versions.antt =====
-- The version history of a record.
use mathlib.Core.Bool.{true≢false}
use neuron_kg.Prelude.{
  ◌∙◌, ap, ℕ, suc, ◌+◌, ◌<◌, ◌≤◌, String, ◌≡◌, refl, sym, ◌≢◌, true, false, Option, none, some,
  List, [], ◌∷◌, ◌++◌, arith, ◌==◌, eq_iff, inl, inr, Option-cases, Bool-cases, All, All-map,
}
use neuron_kg.Prelude.Table.{select, first_least, first-none}
use neuron_kg.Prelude.Rows.{select-nil, All-of-select, find_missing}
use neuron_kg.Records.{
  RecordVersion, is_version_of, is_newer, same_version, latest, record_version, insert_version,
}

abbrev pub version_of : Option RecordVersion → ℕ
version_of none = 0
version_of (some v) = v.version

-- A row that is newer than all others of its record is the latest once it is there.
latest-append :
    (k : String) (vs : List RecordVersion) (v : RecordVersion)
    → v.record_key ≡ k
    → All (λ w. is_version_of k w ≡ true → w.version < v.version) vs
    → latest k (vs ++ v ∷ []) ≡ some v
unfolding latest
latest-append k [] v e h = ground (arith, eq_iff v.record_key k)
latest-append k (w ∷ vs) v e h = let rest = latest-append k vs v e h.1 in ground (arith, h.0)

-- Versions of a record do not exceed that of its latest row.
versions-le :
    (k : String) (vs : List RecordVersion) {v : RecordVersion}
    → latest k vs ≡ some v
    → All (λ w. is_version_of k w ≡ true → w.version ≤ v.version) vs
unfolding latest
versions-le k vs {v} e =
    All-of-select (is_version_of k) (λ w. w.version ≤ v.version) vs
      (All-map (λ w h. ground arith) (select (is_version_of k) vs)
        (first_least is_newer (λ a b h. ground arith) (λ a b c h g. ground arith)
          (λ a. ground arith) (select (is_version_of k) vs) e))

no-versions :
    (k : String) (vs : List RecordVersion)
    → latest k vs ≡ none
    → All (λ w. is_version_of k w ≡ false) vs
unfolding latest
no-versions k vs e =
    select-nil (is_version_of k) vs (first-none is_newer (select (is_version_of k) vs) e)

-- The insert of the next version meets no row, so its ON CONFLICT clause drops nothing.
insert_version-append :
    (v : RecordVersion) (vs : List RecordVersion)
    → All (λ w. is_version_of v.record_key w ≡ true → w.version < v.version) vs
    → insert_version v vs ≡ vs ++ v ∷ []
insert_version-append v vs h = rw (
  find_missing (same_version v.record_key v.version) vs (
      All-map
        (λ w older. elim (Bool-cases (is_version_of v.record_key w)) [
          | inr other ↦ rw other
          | inl own ↦ let less = older own in ground arith
        ])
        vs h),
  insert_version,
)

abbrev numbered : String → String → ℕ → ℕ → RecordVersion
numbered k hash now n = record {
  record_key = k;
  version = n;
  content_hash = hash;
  ingested_at = now;
}

-- The two ways in which a call ends: the latest row has the content already, and nothing is
-- written; or a row numbered one above the latest (1 at first) is written and becomes the latest.
pub data Outcome (k hash : String) (vs : List RecordVersion) (result : List RecordVersion × ℕ)
    : Type 0 where
  known :
      (v : RecordVersion)
      → latest k vs ≡ some v
      → v.content_hash ≡ hash
      → result ≡ (vs, v.version)
      → Outcome k hash vs result
  written :
      (v : RecordVersion)
      → v.content_hash ≡ hash
      → v.version ≡ suc (version_of (latest k vs))
      → result ≡ (vs ++ v ∷ [], v.version)
      → latest k (vs ++ v ∷ []) ≡ some v
      → ((w : RecordVersion) → latest k vs ≡ some w → w.content_hash ≢ hash)
      → Outcome k hash vs result

write-Outcome :
    (k hash : String) (now n : ℕ) (vs : List RecordVersion) (result : List RecordVersion × ℕ)
    → n ≡ suc (version_of (latest k vs))
    → All (λ w. is_version_of k w ≡ true → w.version < n) vs
    → ((w : RecordVersion) → latest k vs ≡ some w → w.content_hash ≢ hash)
    → result ≡ (insert_version (numbered k hash now n) vs, n)
    → Outcome k hash vs result
write-Outcome k hash now n vs result e older new r =
    written (numbered k hash now n) refl e
      (r ∙ ap (λ rows. (rows, n)) (insert_version-append (numbered k hash now n) vs older))
      (latest-append k vs (numbered k hash now n) refl older) new

-- Where the latest row of the record has the content hash that is given, record_version writes nothing
-- and returns the number of that row. Else it adds a row with that hash at the end, whose number is
-- one more than the latest one, or 1; it returns the number, and the row is the latest afterwards.
pub record_version-Outcome :
    (k hash : String) (now : ℕ) (vs : List RecordVersion)
    → Outcome k hash vs (record_version k hash now vs)
unfolding record_version
record_version-Outcome k hash now vs = elim (Option-cases (latest k vs)) [
  | inl e ↦
      write-Outcome k hash now 1 vs _ (rw e (omega arith))
        (All-map (λ w other own. absurd (true≢false (sym own ∙ other))) vs (no-versions k vs e))
        (λ w f. cc) (rw (e, record_version))
  | inr (v, e) ↦ elim (Bool-cases (v.content_hash == hash)) [
    | inl same ↦ known v e ((eq_iff v.content_hash hash).0 same) (rw (e, same, record_version))
    | inr other ↦
        write-Outcome k hash now (v.version + 1) vs _ (rw e (omega arith))
          (All-map (λ w h own. let le = h own in omega arith) vs (versions-le k vs e))
          (λ w f same. ground (arith, eq_iff v.content_hash hash)) (rw (e, other, record_version))
  ]
]
