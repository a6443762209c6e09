-- ===== src/Facts/Single.antt =====
-- The facts of a structured record that have one value at a time.
use mathlib.Core.Bool.{true≢false}
use neuron_kg.Prelude.{
  ℕ, String, ◌≡◌, refl, sym, ap, subst, ◌∙◌, true, false, ◌&&◌, Option, none, List, [], ◌∷◌, arith,
  eq_iff, eq_refl, inl, inr, Option-cases, All, All-map, All-append, Member, here,
}
use neuron_kg.Prelude.Table.{select, find, update, All-update_of}
use neuron_kg.Prelude.Rows.{Member-right, Member-update_hit, find-Member, All-intro}
use neuron_kg.Facts.{
  FactEdge, FactHistory, FactRow, Graph, has_node, is_edge, created_edge, matched_edge, merge_edge,
  upsert_row, upsert_fact_edges,
}
use neuron_kg.Facts.Writer.{archive, same_interval}
use neuron_kg.Facts.Sync.{
  is_open_edge, ArchiveRow, archive_edges, archive_history_rows, is_current, live_rows, close_at,
  supersede_fact_edges,
}

-- What archiving leaves alone.
pub record SameEdges (g h : Graph) : Type 0 where
  pub nodes : h.nodes ≡ g.nodes
  pub edges : h.edges ≡ g.edges

archive-SameEdges : (k : FactHistory) (g : Graph) → SameEdges g (archive k g)
unfolding archive
archive-SameEdges k g = elim (Option-cases (find (same_interval k) g.history)) [
  | inl e ↦ rw (e, archive) (record { nodes = refl; edges = refl })
  | inr (x, e) ↦ rw (e, archive) (record { nodes = refl; edges = refl })
]

SameEdges-trans : (f g h : Graph) → SameEdges f g → SameEdges g h → SameEdges f h
SameEdges-trans f g h a b = record { nodes = b.nodes ∙ a.nodes; edges = b.edges ∙ a.edges }

edges-SameEdges :
    (make_uid : String → String → String → String) (end : Option ℕ) (now : ℕ) (es : List FactEdge)
    (g : Graph)
    → SameEdges g (archive_edges make_uid end now es g)
edges-SameEdges make_uid end now [] g = record { nodes = refl; edges = refl }
edges-SameEdges make_uid end now (e ∷ es) g =
    SameEdges-trans g _ _ (archive-SameEdges _ g)
      (edges-SameEdges make_uid end now es (archive _ g))

pub rows-SameEdges :
    (make_uid : String → String → String → String) (rel : String) (rows : List ArchiveRow) (now : ℕ)
    (g : Graph)
    → SameEdges g (archive_history_rows make_uid rel rows now g)
unfolding archive_history_rows
rows-SameEdges make_uid rel [] now g = record { nodes = refl; edges = refl }
rows-SameEdges make_uid rel (row ∷ rows) now g =
    let es = select (is_open_edge row.from_uid rel row.to_uid) g.edges in
    SameEdges-trans g _ _ (edges-SameEdges make_uid row.valid_to now es g)
      (rows-SameEdges make_uid rel rows now (archive_edges make_uid row.valid_to now es g))

module _ (rel from_label to_label : String) (row : FactRow) (g : Graph) where
  NoCurrent : FactEdge → Type 0
  NoCurrent e = is_current rel from_label to_label row.from_uid g e ≡ false

  OnlyTarget : FactEdge → Type 0
  OnlyTarget e = is_current rel from_label to_label row.from_uid g e ≡ true → e.to_uid ≡ row.to_uid

  closed :
      (now : ℕ) (es : List FactEdge)
      → All NoCurrent (update (is_current rel from_label to_label row.from_uid g) (close_at now) es)
  unfolding NoCurrent
  closed now es =
      All-update_of {P = λ e. Unit {0}} NoCurrent
        (is_current rel from_label to_label row.from_uid g) (close_at now) es
        (λ e met _. ground arith) (λ e missed _. missed) (All-intro _ es (λ e m. tt))

  merged-OnlyTarget :
      (now : ℕ) (es : List FactEdge)
      → All NoCurrent es
      → All OnlyTarget (merge_edge rel true now row es)
  unfolding merge_edge NoCurrent OnlyTarget
  merged-OnlyTarget now es h = elim (Option-cases (find (is_edge row.from_uid rel row.to_uid) es)) [
    | inl q ↦
        rw (q, merge_edge)
          (All-append OnlyTarget es _ (All-map (λ e k met. absurd (true≢false (sym met ∙ k))) es h)
            ((λ _. refl), tt))
    | inr (x, q) ↦
        rw (q, merge_edge)
          (All-update_of {P = NoCurrent} OnlyTarget (is_edge row.from_uid rel row.to_uid)
            (matched_edge true now row) es
            (λ e met k _. (eq_iff e.to_uid row.to_uid).0 (ground arith))
            (λ e missed k met. absurd (true≢false (sym met ∙ k))) h)
  ]

  merged-Member :
      (now : ℕ) (es : List FactEdge)
      → row.invalid_at ≡ none
      → has_node from_label row.from_uid g ≡ true
      → has_node to_label row.to_uid g ≡ true
      → (f : FactEdge) × Member f (merge_edge rel true now row es)
        × (is_current rel from_label to_label row.from_uid g f ≡ true)
  unfolding merge_edge
  merged-Member now es current a b =
      elim (Option-cases (find (is_edge row.from_uid rel row.to_uid) es)) [
        | inl q ↦
            rw (q, merge_edge)
              (
                created_edge rel now row,
                Member-right es _ (here refl),
                ground (arith, eq_refl row.from_uid, eq_refl rel),
              )
        | inr (x, q) ↦
            let (met, m) = find-Member (is_edge row.from_uid rel row.to_uid) es q in
            rw (q, merge_edge)
              (
                matched_edge true now row x,
                Member-update_hit (is_edge row.from_uid rel row.to_uid) (matched_edge true now row)
                    es met m,
                target x met,
              )
      ]
    where
      target :
          (x : FactEdge)
          → is_edge row.from_uid rel row.to_uid x ≡ true
          → is_current rel from_label to_label row.from_uid g (matched_edge true now row x) ≡ true
      target x met =
          let same : x.to_uid ≡ row.to_uid = (eq_iff x.to_uid row.to_uid).0 (ground arith) in
          let there' : has_node to_label x.to_uid g ≡ true =
            subst (λ u. has_node to_label u g ≡ true) (sym same) b in
          ground arith

-- After supersede_fact_edges and then upsert_fact_edges with one row out of the same node, whose
-- nodes are there and which has no end, the relation has exactly one open value out of that node
-- among the nodes with the label of the target, which is the target of the row; it has one even
-- where that is the value from before.
pub single_valued :
    (make_uid : String → String → String → String) (rel from_label to_label : String)
    (row : FactRow) (now later : ℕ) (g : Graph)
    → row.invalid_at ≡ none
    → has_node from_label row.from_uid g ≡ true
    → has_node to_label row.to_uid g ≡ true
    → All
        (λ e. is_current rel from_label to_label row.from_uid g e ≡ true → e.to_uid ≡ row.to_uid)
        (upsert_fact_edges rel from_label to_label
          (row ∷ [])
          true
          later
          (supersede_fact_edges make_uid rel from_label to_label (row.from_uid ∷ []) now g)).edges
      × ((f : FactEdge) × Member f
            (upsert_fact_edges rel from_label to_label (row ∷ []) true later (
              supersede_fact_edges make_uid rel from_label to_label
                (row.from_uid ∷ [])
                now
                g)).edges
          × (is_current rel from_label to_label row.from_uid g f ≡ true))
unfolding upsert_fact_edges upsert_row supersede_fact_edges OnlyTarget
single_valued make_uid rel from_label to_label row now later g current a b =
    written
      (archive_history_rows make_uid rel (live_rows rel from_label to_label (row.from_uid ∷ []) g)
        now g)
      (rows-SameEdges make_uid rel (live_rows rel from_label to_label (row.from_uid ∷ []) g) now g)
  where
    es : Graph → List FactEdge
    es h = update (is_current rel from_label to_label row.from_uid h) (close_at now) h.edges

    nodes :
        (h : Graph)
        → SameEdges g h
        → (has_node from_label row.from_uid h && has_node to_label row.to_uid h) ≡ true
    nodes h s =
        ap
          (λ ns.
            has_node from_label row.from_uid (record h { nodes = ns })
            && has_node to_label row.to_uid (record h { nodes = ns }))
          s.nodes
        ∙ ground arith

    written :
        (h : Graph)
        → SameEdges g h
        → All
            (λ e.
              is_current rel from_label to_label row.from_uid g e ≡ true → e.to_uid ≡ row.to_uid)
            (upsert_row rel from_label to_label true later row (record h { edges = es h })).edges
          × ((f : FactEdge) × Member f
                (upsert_row rel from_label to_label true later row
                  (record h { edges = es h })).edges
              × (is_current rel from_label to_label row.from_uid g f ≡ true))
    written h s =
        let same : es h
            ≡ update (is_current rel from_label to_label row.from_uid g) (close_at now) g.edges =
          ap
            (λ ns.
              update (is_current rel from_label to_label row.from_uid (record h { nodes = ns }))
                (close_at now) h.edges)
            s.nodes
          ∙ ap (update (is_current rel from_label to_label row.from_uid g) (close_at now))
              s.edges in
        let none_open =
          subst (All (NoCurrent rel from_label to_label row g)) (sym same)
            (closed rel from_label to_label row g now g.edges) in
        let stand : (has_node from_label row.from_uid h && has_node to_label row.to_uid h) ≡ true =
          nodes h s in
        rw (stand, upsert_row)
          (
            merged-OnlyTarget rel from_label to_label row g later (es h) none_open,
            merged-Member rel from_label to_label row g later (es h) current a b,
          )
