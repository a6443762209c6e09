-- ===== src/OAuth/Syncs.antt =====
-- connectors/core/oauth_store.py: the sources of a connection, the sync runs and
-- delete_connection. A run's result is its JSON text, none for a result that is empty. The
-- collation of source names is the argument `before`.
use neuron_kg.Prelude.{
  ℕ, zero, suc, String, Bool, true, false, ◌&&◌, ◌||◌, not, Option, none, some, List, [], ◌∷◌, ◌++◌,
  map, length, take, is_some, if◌then◌else◌, ◌==◌, ltb,
}
use neuron_kg.Prelude.Table.{select, find, update, delete, order_by}
use neuron_kg.OAuth.{
  is_link, integrity, Connection, SessionConnection, Source, RunStatus, SyncRun, Store, Outcome, ok,
  err, queued, running, completed, failed, already_active,
}

abbrev pub mem : String → List String → Bool
mem x [] = false
mem x (y ∷ ys) = x == y || mem x ys

-- SELECT DISTINCT, whose order SQL leaves open
abbrev pub distinct : List String → List String
distinct [] = []
distinct (x ∷ xs) = if mem x (distinct xs) then distinct xs else x ∷ distinct xs

-- error[:n]
abbrev pub shortened : ℕ → String → String
shortened zero s = String.[]
shortened (suc n) String.[] = String.[]
shortened (suc n) (String.◌∷◌ c s) = String.◌∷◌ c (shortened n s)

abbrev pub is_active : RunStatus → Bool
is_active queued = true
is_active running = true
is_active completed = false
is_active failed = false

abbrev pub some_unless : Bool → ℕ → Option ℕ
some_unless true now = none
some_unless false now = some now

-- JOIN oauth_session_connections: a row for each session row that goes with it.
abbrev pub copies : {R : Type 0} → List SessionConnection → R → List R
copies [] r = []
copies (_ ∷ ls) r = r ∷ copies ls r

abbrev pub in_graph : Option String → SyncRun → Bool
in_graph none r = true
in_graph (some g) r = r.graph_name == g

module _ (provider : String) where
  abbrev pub visible :
      {R : Type 0} → (R → String) → String → List SessionConnection → List R → List R
  visible key session ls [] = []
  visible key session ls (r ∷ rs) =
      copies (select (is_link provider session (key r)) ls) r ++ visible key session ls rs

  abbrev pub is_source : String → String → Source → Bool
  is_source id source x = x.provider == provider && (x.connection_id == id && x.source_id == source)

  -- provider=? AND connection_id=?
  abbrev pub here_at : String → String → String → Bool
  here_at id p i = p == provider && i == id

  abbrev pub is_run : String → SyncRun → Bool
  is_run run r = r.provider == provider && r.run_id == run

  abbrev pub is_stale : String → String → List String → SyncRun → Bool
  is_stale id source live r =
      here_at id r.provider r.connection_id
      && (r.source_id == source && (is_active r.status && not (mem r.run_id live)))

  abbrev pub fail_runs : List SyncRun → ℕ → String → List SyncRun → List SyncRun
  fail_runs [] now error rs = rs
  fail_runs (x ∷ xs) now error rs = fail_runs xs now error (
      update (is_run x.run_id)
        (λ r. record r {
          status = failed;
          finished_at = some now;
          error = some (shortened 1000 error);
        })
        rs)

  -- oauth_one_active_sync_per_source
  abbrev pub is_same_sync : String → String → String → SyncRun → Bool
  is_same_sync id source graph r =
      here_at id r.provider r.connection_id
      && (r.source_id == source && (r.graph_name == graph && is_active r.status))

  abbrev pub synced : ℕ → Option String → Option SyncRun → List Source → List Source
  synced now error none xs = xs
  synced now error (some r) xs =
      update (is_source r.connection_id r.source_id)
        (λ x. record x { last_sync_at = some now; last_sync_error = error }) xs

  abbrev pub clashes : String → Option SyncRun → List SyncRun → Bool
  clashes run none rs = false
  clashes run (some r) rs =
      is_some (
        find (λ x. not (is_run run x) && is_same_sync r.connection_id r.source_id r.graph_name x)
          rs)

module _ {Blob : Type 0} (provider : String) where
  unfoldable pub list_connections : String → Store Blob → List (Connection Blob)
  list_connections session s =
      order_by (λ c d. ltb d.updated_at c.updated_at)
        (visible provider (λ c. c.connection_id) session s.sessions
          (select (λ c. c.provider == provider) s.connections))

  unfoldable pub save_source : String → String → String → String → String → Store Blob → Store Blob
  save_source id source name group config s =
      let row : Source = record {
        provider = provider;
        connection_id = id;
        source_id = source;
        source_name = name;
        group_id = group;
        config_json = config;
        last_sync_at = none;
        last_sync_error = none;
      } in
      record s {
        sources =
            if is_some (find (is_source provider id source) s.sources)
            then update (is_source provider id source)
                (λ x. record x { source_name = name; group_id = group; config_json = config })
                s.sources
            else s.sources ++ row ∷ [];
      }

  unfoldable pub list_sources : (String → String → Bool) → String → Store Blob → List Source
  list_sources before session s =
      order_by (λ x y. before x.source_name y.source_name)
        (visible provider (λ x. x.connection_id) session s.sessions
          (select (λ x. x.provider == provider) s.sources))

  abbrev pub group_ids : String → Store Blob → List String
  group_ids id s = distinct (
      map (λ x. x.group_id)
        (select (λ x. here_at provider id x.provider x.connection_id) s.sources))

  unfoldable pub delete_connection : String → Store Blob → Store Blob × List String
  delete_connection id s = (
    record s {
      sources = delete (λ x. here_at provider id x.provider x.connection_id) s.sources;
      runs = delete (λ r. here_at provider id r.provider r.connection_id) s.runs;
      sessions = delete (λ l. here_at provider id l.provider l.connection_id) s.sessions;
      connections = delete (λ c. here_at provider id c.provider c.connection_id) s.connections;
    },
    group_ids id s,
  )

  unfoldable pub fail_orphaned_runs :
      String → String → List String → String → ℕ → Store Blob → Store Blob × ℕ
  fail_orphaned_runs id source live error now s =
      let stale = select (is_stale provider id source live) s.runs in
      (record s { runs = fail_runs provider stale now error s.runs }, length stale)

  -- The primary key and the partial index are both an IntegrityError, and both end as the same
  -- RuntimeError.
  unfoldable pub create_run :
      String → String → String → String → ℕ → Store Blob → Outcome (Store Blob)
  create_run run id source graph now s =
      let row : SyncRun = record {
        provider = provider;
        run_id = run;
        connection_id = id;
        source_id = source;
        status = queued;
        started_at = now;
        finished_at = none;
        result_json = none;
        error = none;
        graph_name = graph;
      } in
      if is_some (find (is_run provider run) s.runs)
        || is_some (find (is_same_sync provider id source graph) s.runs)
      then err already_active
      else ok (record s { runs = s.runs ++ row ∷ [] })

  -- A run that becomes active beside another one of its source and graph breaks the index.
  unfoldable pub set_run :
      String → RunStatus → Option String → Option String → ℕ → Store Blob → Outcome (Store Blob)
  set_run run status result error now s =
      let finished = some_unless (is_active status) now in
      let rows =
        update (is_run provider run)
          (λ r. record r {
            status = status;
            finished_at = finished;
            result_json = result;
            error = error;
          })
          s.runs in
      if is_active status && clashes provider run (find (is_run provider run) s.runs) s.runs
      then err integrity
      else ok (record s {
        runs = rows;
        sources =
            if is_active status
            then s.sources
            else synced provider now error (find (is_run provider run) rows) s.sources;
      })

  unfoldable pub get_run : String → Store Blob → Option SyncRun
  get_run run s = find (is_run provider run) s.runs

  unfoldable pub list_runs : String → ℕ → Option String → Store Blob → List SyncRun
  list_runs session limit graph s = take limit (
      order_by (λ r t. ltb t.started_at r.started_at)
        (visible provider (λ r. r.connection_id) session s.sessions
          (select (λ r. r.provider == provider && in_graph graph r) s.runs)))
