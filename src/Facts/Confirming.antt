-- ===== src/Facts/Confirming.antt =====
-- What upsert_fact_edges does to edges that stand.
use neuron_kg.Prelude.{
  ℕ, String, ◌≡◌, refl, ◌∙◌, Bool, true, false, ◌&&◌, ◌||◌, List, [], ◌∷◌, ◌++◌, arith, eq_iff,
  eq_refl, inl, inr, Bool-cases, Option-cases, Member, if◌then◌else◌,
}
use neuron_kg.Prelude.Table.{find}
use neuron_kg.Prelude.Rows.{Member-left, Member-update_hit, Member-update_miss}
use neuron_kg.Facts.{
  FactEdge, FactRow, Graph, is_open, differs, differs_ℕ, has_key, brings_key, knows_first, has_node,
  is_edge, matched_edge, merge_edge, upsert_row, upsert_fact_edges,
}

has_key-append :
    (k : String) (ks ls : List String) → has_key k ls ≡ true → has_key k (ks ++ ls) ≡ true
has_key-append k [] ls h = h
has_key-append k (j ∷ ks) ls h = ground (arith, has_key-append k ks ls h)

-- After a match the first key of the row is known.
brings_key-again :
    (keys known : List String)
    → brings_key keys (if knows_first keys known then known else known ++ keys) ≡ false
brings_key-again [] known = ground arith
brings_key-again (k ∷ ks) known = elim (Bool-cases (has_key k known)) [
  | inl t ↦ rw (t, t)
  | inr t ↦ rw (t, has_key-append k known (k ∷ ks) (ground (arith, eq_refl k)))
]

-- Writing one row twice onto an open edge, by a sync that changes nothing: the second write moves
-- last_confirmed_at exactly when the row's evidence or confidence differs from that of the edge,
-- since the first write has not stored them.
pub resync_clock :
    (revive : Bool) (first second : ℕ) (row : FactRow) (e : FactEdge)
    → is_open e.invalid_at ≡ true
    → (matched_edge revive second row (matched_edge revive first row e)).last_confirmed_at ≡ (
        if differs row.evidence e.evidence || differs_ℕ row.confidence e.confidence
        then second
        else (matched_edge revive first row e).last_confirmed_at)
resync_clock true first second row e current =
    let known = brings_key-again row.source_record_keys e.source_record_keys in
    rw known (ground arith)
resync_clock false first second row e current =
    let known = brings_key-again row.source_record_keys e.source_record_keys in
    rw known (ground arith)

-- An edge with the same ends, window and first observation.
pub record Keeps (e f : FactEdge) : Type 0 where
  pub ends : is_edge e.from_uid e.rel_type e.to_uid f ≡ true
  pub starts : f.valid_at ≡ e.valid_at
  pub stops : f.invalid_at ≡ e.invalid_at
  pub seen : f.first_seen_at ≡ e.first_seen_at

self-Keeps : (e : FactEdge) → Keeps e e
self-Keeps e = record {
  ends = ground (arith, eq_refl e.from_uid, eq_refl e.rel_type, eq_refl e.to_uid);
  starts = refl;
  stops = refl;
  seen = refl;
}

merge-Keeps :
    (rel : String) (now : ℕ) (row : FactRow) (es : List FactEdge) (e : FactEdge)
    → Member e es
    → (f : FactEdge) × Member f (merge_edge rel false now row es) × Keeps e f
unfolding merge_edge
merge-Keeps rel now row es e m =
    elim (Option-cases (find (is_edge row.from_uid rel row.to_uid) es)) [
      | inl q ↦ rw (q, merge_edge) (e, Member-left es _ m, self-Keeps e)
      | inr (x, q) ↦
          rw (q, merge_edge)
            (elim (Bool-cases (is_edge row.from_uid rel row.to_uid e)) [
              | inl t ↦ (
                matched_edge false now row e,
                Member-update_hit (is_edge row.from_uid rel row.to_uid) (matched_edge false now row)
                    es t m,
                record {
                  ends = ground (arith, eq_refl e.from_uid, eq_refl e.rel_type, eq_refl e.to_uid);
                  starts = refl;
                  stops = refl;
                  seen = refl;
                },
              )
              | inr t ↦ (
                e,
                Member-update_miss (is_edge row.from_uid rel row.to_uid)
                    (matched_edge false now row) es t m,
                self-Keeps e,
              )
            ])
    ]

Keeps-trans : (a b c : FactEdge) → Keeps a b → Keeps b c → Keeps a c
Keeps-trans a b c h k = record {
  ends = ground (
    arith,
    h.ends,
    k.ends,
    eq_iff b.from_uid a.from_uid,
    eq_iff b.rel_type a.rel_type,
    eq_iff b.to_uid a.to_uid,
  );
  starts = k.starts ∙ h.starts;
  stops = k.stops ∙ h.stops;
  seen = k.seen ∙ h.seen;
}

-- With revive=False, as text facts are written, every edge that stood still stands with its
-- window as it was: a closed fact is not reopened and an open one not closed, whatever the rows.
pub unrevived-Keeps :
    (rel from_label to_label : String) (rows : List FactRow) (now : ℕ) (g : Graph) (e : FactEdge)
    → Member e g.edges
    → (f : FactEdge) × Member f (upsert_fact_edges rel from_label to_label rows false now g).edges
      × Keeps e f
unfolding upsert_fact_edges upsert_row
unrevived-Keeps rel from_label to_label [] now g e m = (e, m, self-Keeps e)
unrevived-Keeps rel from_label to_label (row ∷ rows) now g e m =
    let (f, n, k) = one in
    let (h, o, l) =
      unrevived-Keeps rel from_label to_label rows now
        (upsert_row rel from_label to_label false now row g) f n in
    (h, o, Keeps-trans e f h k l)
  where
    one :
        (f : FactEdge) × Member f (upsert_row rel from_label to_label false now row g).edges
        × Keeps e f
    one = elim (Bool-cases (has_node from_label row.from_uid g && has_node to_label row.to_uid g)) [
      | inl t ↦ rw (t, upsert_row) (merge-Keeps rel now row g.edges e m)
      | inr t ↦ rw (t, upsert_row) (e, m, self-Keeps e)
    ]
