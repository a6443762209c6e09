-- ===== src/Facts/Sync/Support.antt =====
-- What the removal of a record does to the edges that it supports.
use neuron_kg.Prelude.{
  ℕ, ◌≤◌, ◌<◌, String, ◌≡◌, refl, sym, ap, subst, ◌∙◌, Bool, true, false, some, List, [], ◌∷◌,
  length, eqb, arith, inl, inr, Bool-cases, Member, if◌then◌else◌,
}
use neuron_kg.Prelude.Table.{update, delete}
use neuron_kg.Prelude.Rows.{Member-update_hit, Member-update_miss}
use neuron_kg.TimeAxis.{holds_point}
use neuron_kg.Facts.{FactEdge, Graph, is_edge}
use neuron_kg.Facts.Single.{rows-SameEdges}
use neuron_kg.Facts.Sync.{
  SupportRow, remaining, without_support, drop_support, to_archive, remove_typed_support,
  remove_groups, group_rows, remove_record_support,
}

delete_twice : (p : String → Bool) (ks : List String) → delete p (delete p ks) ≡ delete p ks
delete_twice p [] = refl
delete_twice p (k ∷ ks) = elim (Bool-cases (p k)) [
  | inl t ↦ rw t (delete_twice p ks)
  | inr t ↦ rw (t, t, delete_twice p ks) refl
]

-- The edge has a key of another record.
abbrev pub IsShared : String → FactEdge → Type 0
IsShared k e = eqb (length (remaining k e.source_record_keys)) 0 ≡ false

-- The window and the other keys.
pub record Stands (k : String) (e f : FactEdge) : Type 0 where
  pub starts : f.valid_at ≡ e.valid_at
  pub stops : f.invalid_at ≡ e.invalid_at
  pub keys : remaining k f.source_record_keys ≡ remaining k e.source_record_keys

Stands-trans : (k : String) (a b c : FactEdge) → Stands k a b → Stands k b c → Stands k a c
Stands-trans k a b c h l = record {
  starts = l.starts ∙ h.starts;
  stops = l.stops ∙ h.stops;
  keys = l.keys ∙ h.keys;
}

module _ (k : String) (now : ℕ) where
  without-Stands : (e : FactEdge) → IsShared k e → Stands k e (without_support k now e)
  without-Stands e shared = record {
    starts = refl;
    stops = rw shared refl;
    keys = delete_twice _ e.source_record_keys;
  }

  drop-Stands :
      (rel : String) (rows : List SupportRow) (es : List FactEdge) (e : FactEdge)
      → IsShared k e
      → Member e es
      → (f : FactEdge) × Member f (drop_support k rel now rows es) × Stands k e f
  drop-Stands rel [] es e shared m = (e, m, record { starts = refl; stops = refl; keys = refl })
  drop-Stands rel (r ∷ rows) es e shared m = elim (Bool-cases (is_edge r.from_uid rel r.to_uid e)) [
    | inl t ↦
        let s = without-Stands e shared in
        let (f, n, l) =
          drop-Stands rel rows (update (is_edge r.from_uid rel r.to_uid) (without_support k now) es)
            (without_support k now e) (ap (λ ks. eqb (length ks) 0) s.keys ∙ shared)
            (Member-update_hit (is_edge r.from_uid rel r.to_uid) (without_support k now) es t m) in
        (f, n, Stands-trans k e (without_support k now e) f s l)
    | inr t ↦
        drop-Stands rel rows _ e shared
          (Member-update_miss (is_edge r.from_uid rel r.to_uid) (without_support k now) es t m)
  ]

  module _ (make_uid : String → String → String → String) where
    typed-Stands :
        (rel : String) (rows : List SupportRow) (g : Graph) (e : FactEdge)
        → IsShared k e
        → Member e g.edges
        → (f : FactEdge) × Member f (remove_typed_support make_uid k rel rows now g).edges
          × Stands k e f
    unfolding remove_typed_support
    typed-Stands rel rows g e shared m = drop-Stands rel rows _ e shared (
        subst (Member e)
          (sym (rows-SameEdges make_uid rel (to_archive k rel rows rows g) now g).edges) m)

    groups-Stands :
        (ts : List (String × List SupportRow)) (g : Graph) (e : FactEdge)
        → IsShared k e
        → Member e g.edges
        → (f : FactEdge) × Member f (remove_groups make_uid k ts now g).edges × Stands k e f
    unfolding remove_groups
    groups-Stands [] g e shared m = (e, m, record { starts = refl; stops = refl; keys = refl })
    groups-Stands (t ∷ ts) g e shared m =
        let (f, n, l) = typed-Stands t.0 t.1 g e shared m in
        let (h, o, r) = groups-Stands ts _ f (ap (λ ks. eqb (length ks) 0) l.keys ∙ shared) n in
        (h, o, Stands-trans k e f h l r)

-- The removal of a record leaves every edge that has a key of another record with its window and
-- its other keys, whichever rows the ledger has.
pub remove-Stands :
    (make_uid : String → String → String → String) (k : String) (rows : List SupportRow) (now : ℕ)
    (g : Graph) (e : FactEdge)
    → IsShared k e
    → Member e g.edges
    → (f : FactEdge) × Member f (remove_record_support make_uid k rows now g).edges × Stands k e f
unfolding remove_record_support
remove-Stands make_uid k rows now g e shared m =
    groups-Stands k now make_uid (group_rows rows []) g e shared m

-- An edge of the removed record alone that was closed at c is closed anew at the time of the
-- removal: a moment from c on and before it, at which the fact did not hold, is in its window
-- afterwards.
pub removal_widens :
    (make_uid : String → String → String → String) (k : String) (r : SupportRow) (now : ℕ)
    (g : Graph) (e : FactEdge) (s c t : ℕ)
    → Member e g.edges
    → is_edge r.from_uid r.rel_type r.to_uid e ≡ true
    → eqb (length (remaining k e.source_record_keys)) 0 ≡ true
    → e.valid_at ≡ some s
    → e.invalid_at ≡ some c
    → s ≤ t
    → c ≤ t
    → t < now
    → (holds_point e.valid_at e.invalid_at t ≡ false)
      × ((f : FactEdge) × Member f (remove_record_support make_uid k (r ∷ []) now g).edges
          × (holds_point f.valid_at f.invalid_at t ≡ true))
unfolding remove_record_support remove_groups remove_typed_support holds_point
removal_widens make_uid k r now g e s c t m met sole from to s≤t c≤t t<now = (
  before,
  (
    without_support k now e,
    Member-update_hit (is_edge r.from_uid r.rel_type r.to_uid) (without_support k now) _ met (
        subst (Member e)
          (sym
            (rows-SameEdges make_uid r.rel_type (to_archive k r.rel_type (r ∷ []) (r ∷ []) g) now
              g).edges)
          m),
    after,
  ),
)
  where
    before : holds_point e.valid_at e.invalid_at t ≡ false
    before = rw (from, to) (ground arith)

    after :
        holds_point e.valid_at
          (if eqb (length (remaining k e.source_record_keys)) 0 then some now else e.invalid_at)
          t
        ≡ true
    after = rw (sole, from) (ground arith)
