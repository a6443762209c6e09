-- ===== src/OAuth/Active.antt =====
-- connectors/core/oauth_store.py: the histories of sync runs, as a step relation on the store.
use neuron_kg.Prelude.{
  ℕ, ◌≤◌, String, ◌≡◌, refl, Bool, true, false, ◌&&◌, ◌||◌, not, Option, none, some, List, [], ◌∷◌,
  length, All, All-zip, is_some, if◌then◌else◌, eq_iff, arith, Bool-cases, Option-cases, ap, sym,
  subst, inl, inr,
}
use neuron_kg.Prelude.Table.{find, update, select}
use neuron_kg.Prelude.Rows.{find-none, find-Member, select_none, update_none}
use mathlib.Core.Bool.{true≢false}
use neuron_kg.OAuth.{Store, SyncRun, RunStatus, Outcome, Error, ok, err, failed, queued}
use neuron_kg.OAuth.Syncs.{
  create_run, set_run, fail_orphaned_runs, fail_runs, delete_connection, is_active, is_run, clashes,
  is_same_sync, is_stale, shortened,
}
use neuron_kg.OAuth.Runs.{
  Apart, OneActive, OneActive-update, OneActive-delete, OneActive-insert, OneActive-stopped,
  only_run, entered, Free, entered_apart,
}

fails-OneActive :
    (provider : String) (xs : List SyncRun) (now : ℕ) (error : String) (rs : List SyncRun)
    → OneActive rs
    → OneActive (fail_runs provider xs now error rs)
fails-OneActive provider [] now error rs u = u
fails-OneActive provider (x ∷ xs) now error rs u = fails-OneActive provider xs now error _ (
    OneActive-stopped
      (λ r. record r {
        status = failed;
        finished_at = some now;
        error = some (shortened 1000 error);
      })
      (is_run provider x.run_id) (λ r. (refl, refl)) (λ r. refl) rs u)

-- A new run beside rows that create_run found neither by name nor by source and graph.
fresh :
    (provider run id source graph : String) (t : SyncRun) (rs : List SyncRun)
    → t.provider ≡ provider
    → (t.run_id ≡ run) × (t.connection_id ≡ id) × (t.source_id ≡ source) × (t.graph_name ≡ graph)
    → All (λ r. is_run provider run r ≡ false) rs
    → All (λ r. is_same_sync provider id source graph r ≡ false) rs
    → All (λ r. Apart r t) rs
fresh provider run id source graph t [] p q h k = tt
fresh provider run id source graph t (r ∷ rs) p q h k = (
  (rw (p, q.0) h.0, ground (arith, p, q, k)),
  fresh provider run id source graph t rs p q h.1 k.1,
)

missing : {R : Type 0} (o : Option R) → is_some o ≡ false → o ≡ none
missing none e = refl
missing (some x) e = absurd (true≢false e)

neither : {R : Type 0} (o p : Option R) → (is_some o || is_some p) ≡ false → (o ≡ none) × (p ≡ none)
neither none none e = (refl, refl)
neither none (some y) e = absurd (true≢false e)
neither (some x) p e = absurd (true≢false e)

-- Runs of one source and graph that are apart are not both active.
module _ (provider id source graph : String) where
  others_inactive :
      (r : SyncRun) (rs : List SyncRun)
      → is_same_sync provider id source graph r ≡ true
      → All (Apart r) rs
      → All (λ t. is_same_sync provider id source graph t ≡ false) rs
  others_inactive r [] e a = tt
  others_inactive r (t ∷ rs) e a = (
    ground (
      arith,
      eq_iff r.provider provider,
      eq_iff t.provider provider,
      eq_iff r.provider t.provider,
      eq_iff r.connection_id id,
      eq_iff t.connection_id id,
      eq_iff r.connection_id t.connection_id,
      eq_iff r.source_id source,
      eq_iff t.source_id source,
      eq_iff r.source_id t.source_id,
      eq_iff r.graph_name graph,
      eq_iff t.graph_name graph,
      eq_iff r.graph_name t.graph_name,
      a.0,
    ),
    others_inactive r rs e a.1,
  )

  at_most_one :
      (rs : List SyncRun)
      → OneActive rs
      → length (select (is_same_sync provider id source graph) rs) ≤ 1
  at_most_one [] u = omega arith
  at_most_one (r ∷ rs) u = elim (Bool-cases (is_same_sync provider id source graph r)) [
    | inl e ↦ rw (e, select_none _ rs (others_inactive r rs e u.0)) (omega arith)
    | inr e ↦ rw e (at_most_one rs u.1)
  ]

module _ (provider run : String) (status : RunStatus) (finished : Option ℕ)
    (result error : Option String) where
  activated :
      (rs : List SyncRun)
      → clashes provider run (find (is_run provider run) rs) rs ≡ false
      → OneActive rs
      → OneActive
          (update (is_run provider run) (entered provider run status finished result error) rs)
  activated rs free u = elim (Option-cases (find (is_run provider run) rs)) [
    | inl q ↦ rw (update_none (is_run provider run) _ rs (find-none _ rs q)) u
    | inr (r, q) ↦
        OneActive-update (entered provider run status finished result error) (is_run provider run)
          (Free provider run status finished result error r) rs
          (λ x y.
            entered_apart provider run status finished result error r x y (find-Member _ rs q).0)
          (All-zip _ _ rs (only_run provider run rs u q) (unclashed r rs q free)) u
  ]
    where
      unclashed :
          (r : SyncRun) (rs : List SyncRun)
          → find (is_run provider run) rs ≡ some r
          → clashes provider run (find (is_run provider run) rs) rs ≡ false
          → All
              (λ t.
                (not (is_run provider run t)
                  && is_same_sync provider r.connection_id r.source_id r.graph_name t)
                ≡ false)
              rs
      unclashed r rs q h = find-none _ rs (missing _ (rw q at h))

  -- set_run to a status that is active, or not.
  entered-OneActive :
      (rs : List SyncRun)
      → (is_active status && clashes provider run (find (is_run provider run) rs) rs) ≡ false
      → OneActive rs
      → OneActive
          (update (is_run provider run) (entered provider run status finished result error) rs)
  entered-OneActive rs free u = elim (Bool-cases (is_active status)) [
    | inl q ↦ activated rs (rw q at free) u
    | inr q ↦ OneActive-stopped _ (is_run provider run) (λ r. (refl, refl)) (λ r. q) rs u
  ]

module _ {Blob : Type 0} where
  -- The calls that write sync runs, of any provider of the database.
  pub data Step : Store Blob → Store Blob → Type 0 where
    creates :
        (provider run id source graph : String) (now : ℕ) {s s' : Store Blob}
        → create_run provider run id source graph now s ≡ ok s'
        → Step s s'
    sets :
        (provider run : String) (status : RunStatus) (result error : Option String) (now : ℕ)
        {s s' : Store Blob}
        → set_run provider run status result error now s ≡ ok s'
        → Step s s'
    fails :
        (provider id source error : String) (live : List String) (now : ℕ) {s : Store Blob}
        → Step s (fail_orphaned_runs provider id source live error now s).0
    forgets : (provider id : String) {s : Store Blob} → Step s (delete_connection provider id s).0

  pub data Steps : Store Blob → Store Blob → Type 0 where
    here : {s : Store Blob} → Steps s s
    next : {s t u : Store Blob} → Steps s t → Step t u → Steps s u

  abbrev runs_of : List SyncRun → Outcome (Store Blob) → List SyncRun
  runs_of d (ok s) = s.runs
  runs_of d (err x) = d

  abbrev is_ok : Outcome (Store Blob) → Bool
  is_ok (ok s) = true
  is_ok (err x) = false

  -- A test that guards the result came out false, and the result is the other branch.
  guarded :
      (b : Bool) (x : Error) (s t : Store Blob)
      → Path (Outcome (Store Blob)) (if b then err x else ok s) (ok t)
      → (b ≡ false) × (s.runs ≡ t.runs)
  guarded true x s t e = absurd (true≢false (sym (ap is_ok e)))
  guarded false x s t e = (refl, ap (runs_of []) e)

  OneActive-Step : {s s' : Store Blob} → Step s s' → OneActive s.runs → OneActive s'.runs
  unfolding create_run set_run fail_orphaned_runs delete_connection
  OneActive-Step {s} {s'} (creates provider run id source graph now e) u =
      let g = guarded _ _ _ s' e in
      let q =
        neither (find (is_run provider run) s.runs)
          (find (is_same_sync provider id source graph) s.runs) g.0 in
      let row : SyncRun = record {
        provider = provider;
        run_id = run;
        connection_id = id;
        source_id = source;
        status = queued;
        started_at = now;
        finished_at = none;
        result_json = none;
        error = none;
        graph_name = graph;
      } in
      subst OneActive g.1 (
        OneActive-insert s.runs row
          (fresh provider run id source graph row s.runs refl (refl, refl, refl, refl)
            (find-none _ s.runs q.0) (find-none _ s.runs q.1))
          u)
  OneActive-Step {s} {s'} (sets provider run status result error now e) u =
      let g = guarded _ _ _ s' e in
      subst OneActive g.1 (entered-OneActive provider run status _ result error s.runs g.0 u)
  OneActive-Step {s} (fails provider id source error live now) u =
      fails-OneActive provider (select (is_stale provider id source live) s.runs) now error s.runs u
  OneActive-Step (forgets provider id) u = OneActive-delete _ _ u

  OneActive-Steps : {s s' : Store Blob} → Steps s s' → OneActive s.runs → OneActive s'.runs
  OneActive-Steps here u = u
  OneActive-Steps (next h st) u = OneActive-Step st (OneActive-Steps h u)

  -- From a store without runs, whatever the calls of all providers write and in whatever order, a
  -- source of a connection has at most one active run in a graph.
  pub one_active_sync :
      (provider id source graph : String) (s s' : Store Blob)
      → s.runs ≡ []
      → Steps s s'
      → length (select (is_same_sync provider id source graph) s'.runs) ≤ 1
  one_active_sync provider id source graph s s' start h =
      at_most_one provider id source graph s'.runs (OneActive-Steps h (rw start tt))
