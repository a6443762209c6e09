-- ===== src/OAuth/Tests.antt =====
-- A browser session that connects an account, syncs a source twice and disconnects.
use neuron_kg.Prelude.{
  ◌≤◌, ◌≡◌, refl, true, false, none, some, [], map, ◌∷◌, length, All, Member, is_some,
}
use neuron_kg.Prelude.Table.{find, select}
use neuron_kg.OAuth.{
  Vault, Store, Token, Connection, Source, OAuthState, Outcome, ok, err, already_active, completed,
  create_state, consume_state, save_connection, get_connection, session_has_connection,
  is_connection,
}
use neuron_kg.OAuth.Syncs.{create_run, set_run, delete_connection, is_same_sync, here_at}
use neuron_kg.OAuth.States.{state_used_once}
use neuron_kg.OAuth.Forgetting.{Without, delete_connection_forgets}
use neuron_kg.OAuth.Active.{Steps, creates, sets, next, one_active_sync}

-- Codes that hide nothing.
abbrev open_vault : Vault Token
open_vault = record { hash = λ s. s; encrypt = λ t. t; decrypt = λ t. some t }

abbrev empty : Store Token
empty = record { states = []; connections = []; sessions = []; sources = []; runs = [] }

abbrev waiting : OAuthState
waiting = record { provider = "jira"; state_hash = "S"; session_hash = "browser"; expires_at = 605 }

state_used_once_example :
    ((consume_state open_vault "jira" "S" 605 (record empty { states = waiting ∷ [] })).1
      ≡ some "browser")
    × ((consume_state open_vault "jira" "S" 605
          (consume_state open_vault "jira" "S" 605 (record empty { states = waiting ∷ [] })).0).1
        ≡ none)
unfolding create_state
state_used_once_example =
    state_used_once open_vault "jira" "S" "browser" 600 5 605 605 empty
      (record empty { states = waiting ∷ [] }) refl

abbrev account : Connection Token
account = record {
  provider = "jira";
  connection_id = "c1";
  account_id = "a";
  account_name = "Ann";
  encrypted_token = ("access_token", "old") ∷ ("refresh_token", "r") ∷ [];
  created_at = 1;
  updated_at = 1;
}

abbrev board : Source
board = record {
  provider = "jira";
  connection_id = "c1";
  source_id = "P";
  source_name = "Payments";
  group_id = "g1";
  config_json = "{}";
  last_sync_at = none;
  last_sync_error = none;
}

-- A source of another provider's connection with the same id.
abbrev elsewhere : Source
elsewhere = record board { provider = "notion"; group_id = "g2" }

abbrev connected : Store Token
connected = record empty { connections = account ∷ []; sources = board ∷ elsewhere ∷ [] }

saves :
    save_connection open_vault "jira" "c1" "a" "Ann"
      (("access_token", "old") ∷ ("refresh_token", "r") ∷ [])
      1
      empty
    ≡ ok (record empty { connections = account ∷ [] }, (account, account.encrypted_token))
unfolding save_connection get_connection
saves = refl

delete_connection_forgets_example :
    let s' = (delete_connection "jira" "c1" connected).0 in
    let groups = (delete_connection "jira" "c1" connected).1 in
    Without
      (λ c. here_at "jira" "c1" c.provider c.connection_id)
      connected.connections
      s'.connections
    × Without (λ l. here_at "jira" "c1" l.provider l.connection_id) connected.sessions s'.sessions
    × Without (λ x. here_at "jira" "c1" x.provider x.connection_id) connected.sources s'.sources
    × Without (λ r. here_at "jira" "c1" r.provider r.connection_id) connected.runs s'.runs
    × (s'.states ≡ connected.states)
    × All
        (λ x. here_at "jira" "c1" x.provider x.connection_id ≡ true → Member x.group_id groups)
        connected.sources
    × All
        (λ g.
          (x : Source) × Member x connected.sources
          × (here_at "jira" "c1" x.provider x.connection_id ≡ true)
          × (x.group_id ≡ g))
        groups
    × (is_some (find (is_connection open_vault "jira" "c1") s'.connections) ≡ false)
    × (session_has_connection open_vault "jira" "browser" "c1" s' ≡ false)
    × (get_connection open_vault "jira" "c2" s' ≡ get_connection open_vault "jira" "c2" connected)
    × (session_has_connection open_vault "jira" "browser" "c2" s'
        ≡ session_has_connection open_vault "jira" "browser" "c2" connected)
delete_connection_forgets_example =
    delete_connection_forgets open_vault "jira" "c1" "c2" "browser" connected refl

-- A second run of the source in the same graph is refused while the first one is active.
abbrev first_run : Outcome (Store Token)
unfolding create_run
first_run = create_run "jira" "r1" "c1" "P" "default" 3 connected

abbrev started : Store Token
unfolding create_run
started = elim first_run [ ok s ↦ s | err e ↦ connected ]

refuses : create_run "jira" "r2" "c1" "P" "default" 4 started ≡ err already_active
unfolding create_run
refuses = refl

abbrev ended : Store Token
unfolding set_run create_run
ended = elim (set_run "jira" "r1" completed none none 5 started) [ ok s ↦ s | err e ↦ started ]

syncs : map (λ x. x.last_sync_at) ended.sources ≡ some 5 ∷ none ∷ []
unfolding ended
syncs = refl

one_active_sync_example : length (select (is_same_sync "jira" "c1" "P" "default") ended.runs) ≤ 1
unfolding set_run create_run
one_active_sync_example = one_active_sync "jira" "c1" "P" "default" connected ended refl (
    next (next Steps.here (creates "jira" "r1" "c1" "P" "default" 3 refl))
      (sets "jira" "r1" completed none none 5 refl))
