-- ===== src/OAuth/Runs.antt =====
-- connectors/core/oauth_store.py: the active sync runs of a source, through create_run, set_run,
-- fail_orphaned_runs and delete_connection.
use neuron_kg.Prelude.{
  ℕ, String, ◌≡◌, refl, Bool, true, false, ◌&&◌, not, Option, some, List, [], ◌∷◌, ◌++◌, All,
  All-map, All-of-forall, if◌then◌else◌, ◌==◌, eq_iff, arith, Bool-cases, sym, ◌∙◌, inl, inr,
}
use neuron_kg.Prelude.Table.{find, update, delete, All-delete}
use mathlib.Core.Bool.{true≢false}
use mathlib.Core.Option.{some-injective}
use neuron_kg.OAuth.{SyncRun, RunStatus}
use neuron_kg.OAuth.Syncs.{is_active, is_run, is_same_sync}

abbrev pub same_run : SyncRun → SyncRun → Bool
same_run r t = r.provider == t.provider && r.run_id == t.run_id

abbrev pub same_source : SyncRun → SyncRun → Bool
same_source r t =
    r.provider == t.provider
    && (r.connection_id == t.connection_id
        && (r.source_id == t.source_id && r.graph_name == t.graph_name))

-- Two runs have different names, and if both are active they are of different sources or graphs.
abbrev pub Apart : SyncRun → SyncRun → Type 0
Apart r t =
    (same_run r t ≡ false) × ((is_active r.status && is_active t.status && same_source r t) ≡ false)

abbrev pub OneActive : List SyncRun → Type 0
OneActive [] = Unit
OneActive (r ∷ rs) = All (Apart r) rs × OneActive rs

module _ (f : SyncRun → SyncRun) (p : SyncRun → Bool) (Q : SyncRun → Type 0) where
  -- An UPDATE keeps rows apart when it keeps each pair apart.
  pub OneActive-update :
      (rs : List SyncRun)
      → ((r t : SyncRun)
          → Q r
          → Q t
          → Apart r t
          → Apart (if p r then f r else r) (if p t then f t else t))
      → All Q rs
      → OneActive rs
      → OneActive (update p f rs)
  OneActive-update [] h q u = tt
  OneActive-update (r ∷ rs) h q u = (keep rs q.1 u.0, OneActive-update rs h q.1 u.1)
    where
      keep :
          (ts : List SyncRun)
          → All Q ts
          → All (Apart r) ts
          → All (Apart (if p r then f r else r)) (update p f ts)
      keep [] qs a = tt
      keep (t ∷ ts) qs a = (h r t q.0 qs.0 a.0, keep ts qs.1 a.1)

pub OneActive-delete :
    (p : SyncRun → Bool) (rs : List SyncRun) → OneActive rs → OneActive (delete p rs)
OneActive-delete p [] u = tt
OneActive-delete p (r ∷ rs) u = elim (Bool-cases (p r)) [
  | inl e ↦ rw e (OneActive-delete p rs u.1)
  | inr e ↦ rw e (All-delete (Apart r) p rs u.0, OneActive-delete p rs u.1)
]

pub OneActive-insert :
    (rs : List SyncRun) (t : SyncRun)
    → All (λ r. Apart r t) rs
    → OneActive rs
    → OneActive (rs ++ t ∷ [])
OneActive-insert [] t h u = (tt, tt)
OneActive-insert (r ∷ rs) t h u = (snoc rs u.0, OneActive-insert rs t h.1 u.1)
  where
    snoc : (xs : List SyncRun) → All (Apart r) xs → All (Apart r) (xs ++ t ∷ [])
    snoc [] a = (h.0, tt)
    snoc (x ∷ xs) a = (a.0, snoc xs a.1)

-- A change of status to one that is not active.
module _ (f : SyncRun → SyncRun) (p : SyncRun → Bool)
    (names : (r : SyncRun) → ((f r).provider ≡ r.provider) × ((f r).run_id ≡ r.run_id))
    (stops : (r : SyncRun) → is_active (f r).status ≡ false) where
  stopped : (r t : SyncRun) → Apart r t → Apart (if p r then f r else r) (if p t then f t else t)
  stopped r t a = elim (Bool-cases (p r)) [
    | inl e ↦ elim (Bool-cases (p t)) [
      | inl q ↦
          rw (e, q) (rw ((names r).0, (names r).1, (names t).0, (names t).1) a.0, rw (stops r) refl)
      | inr q ↦ rw (e, q) (rw ((names r).0, (names r).1) a.0, rw (stops r) refl)
    ]
    | inr e ↦ elim (Bool-cases (p t)) [
      | inl q ↦ rw (e, q) (rw ((names t).0, (names t).1) a.0, ground (arith, stops t))
      | inr q ↦ rw (e, q) a
    ]
  ]

  pub OneActive-stopped : (rs : List SyncRun) → OneActive rs → OneActive (update p f rs)
  OneActive-stopped rs u =
      OneActive-update f p (λ _. Unit) rs (λ r t _ _ a. stopped r t a)
        (All-of-forall (λ _. Unit) rs (λ _. tt)) u

module _ (provider run : String) where
  -- A name is the name of one run.
  pub only_run :
      (rs : List SyncRun) {r : SyncRun}
      → OneActive rs
      → find (is_run provider run) rs ≡ some r
      → All (λ t. is_run provider run t ≡ true → t ≡ r) rs
  only_run [] u e = tt
  only_run (x ∷ rs) {r} u e = elim (Bool-cases (is_run provider run x)) [
    | inl q ↦ (
      (λ _. some-injective _ _ (rw q at e)),
      All-map (λ t a h. absurd (true≢false (sym (met x t q h) ∙ a.0))) rs u.0,
    )
    | inr q ↦ ((λ h. absurd (true≢false (sym h ∙ q))), only_run rs u.1 (rw q at e))
  ]
    where
      met :
          (x t : SyncRun)
          → is_run provider run x ≡ true
          → is_run provider run t ≡ true
          → same_run x t ≡ true
      met x t e h = ground (
        arith,
        eq_iff x.provider provider,
        eq_iff x.run_id run,
        eq_iff t.provider provider,
        eq_iff t.run_id run,
        eq_iff x.provider t.provider,
        eq_iff x.run_id t.run_id,
      )

  -- What set_run checks before it makes a run active.
  module _ (status : RunStatus) (finished : Option ℕ) (result error : Option String) where
    abbrev pub entered : SyncRun → SyncRun
    entered r = record r {
      status = status;
      finished_at = finished;
      result_json = result;
      error = error;
    }

    abbrev pub Free : SyncRun → SyncRun → Type 0
    Free r t =
        (is_run provider run t ≡ true → t ≡ r)
        × ((not (is_run provider run t)
              && is_same_sync provider r.connection_id r.source_id r.graph_name t)
            ≡ false)

    alone :
        (r t : SyncRun)
        → is_run provider run r ≡ true
        → is_run provider run t ≡ false
        → (not (is_run provider run t)
            && is_same_sync provider r.connection_id r.source_id r.graph_name t)
          ≡ false
        → ((is_active t.status && same_source r t) ≡ false)
          × ((is_active t.status && same_source t r) ≡ false)
    alone r t e q h = (
      ground (
        arith,
        eq_iff r.provider provider,
        eq_iff r.provider t.provider,
        eq_iff t.provider provider,
        eq_iff r.connection_id t.connection_id,
        eq_iff t.connection_id r.connection_id,
        eq_iff r.source_id t.source_id,
        eq_iff t.source_id r.source_id,
        eq_iff r.graph_name t.graph_name,
        eq_iff t.graph_name r.graph_name,
      ),
      ground (
        arith,
        eq_iff r.provider provider,
        eq_iff t.provider r.provider,
        eq_iff t.provider provider,
        eq_iff r.connection_id t.connection_id,
        eq_iff t.connection_id r.connection_id,
        eq_iff r.source_id t.source_id,
        eq_iff t.source_id r.source_id,
        eq_iff r.graph_name t.graph_name,
        eq_iff t.graph_name r.graph_name,
      ),
    )

    pub entered_apart :
        (r x y : SyncRun)
        → is_run provider run r ≡ true
        → Free r x
        → Free r y
        → Apart x y
        → Apart
            (if is_run provider run x then entered x else x)
            (if is_run provider run y then entered y else y)
    entered_apart r x y met f g a = elim (Bool-cases (is_run provider run x)) [
      | inl e ↦ elim (Bool-cases (is_run provider run y)) [
        | inl q ↦ absurd (true≢false (sym (both e q) ∙ a.0))
        | inr q ↦
            rw (e, q)
              (a.0, blocked (is_active status) (is_active y.status) (same_source x y) (left e q))
      ]
      | inr e ↦ elim (Bool-cases (is_run provider run y)) [
        | inl q ↦
            rw (e, q)
              (
                a.0,
                blocked_first (is_active status) (is_active x.status) (same_source x y) (right e q),
              )
        | inr q ↦ rw (e, q) a
      ]
    ]
      where
        both : is_run provider run x ≡ true → is_run provider run y ≡ true → same_run x y ≡ true
        both e h = ground (
          arith,
          eq_iff x.provider provider,
          eq_iff x.run_id run,
          eq_iff y.provider provider,
          eq_iff y.run_id run,
          eq_iff x.provider y.provider,
          eq_iff x.run_id y.run_id,
        )

        left :
            is_run provider run x ≡ true
            → is_run provider run y ≡ false
            → (is_active y.status && same_source x y) ≡ false
        left e q = rw (f.0 e) (alone r y met q g.1).0

        right :
            is_run provider run x ≡ false
            → is_run provider run y ≡ true
            → (is_active x.status && same_source x y) ≡ false
        right e q = rw (g.0 q) (alone r x met e f.1).1

        blocked : (b c d : Bool) → (c && d) ≡ false → (b && c && d) ≡ false
        blocked true c d h = h
        blocked false c d h = refl

        blocked_first : (b c d : Bool) → (c && d) ≡ false → (c && b && d) ≡ false
        blocked_first b true d h = ground arith
        blocked_first b false d h = refl
