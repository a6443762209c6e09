-- ===== src/OAuth.antt =====
-- connectors/core/oauth_store.py: OAuthConnectorStore, the states, connections, sessions, sources
-- and sync runs of one database file, with the provider of each row. SHA-256 and the encryption of
-- tokens are the argument Vault; a token is its list of members, the first of a name being the one
-- that counts, and a source's config is its JSON text. A method reads the clock once. An error
-- leaves the store, but for the last read of save_connection, which comes after its commit and
-- fails only where the vault does not open what it has closed.
pub mod States
pub mod Forgetting
pub mod Tokens
pub mod Syncs
pub mod Runs
pub mod Active
mod Tests
use neuron_kg.Prelude.{
  ℕ, ◌+◌, String, ◌≡◌, Bool, true, false, ◌&&◌, ◌||◌, not, Option, none, some, List, [], ◌∷◌, ◌++◌,
  map, length, take, is_some, if◌then◌else◌, ◌==◌, eqb, ltb, leb,
}
use neuron_kg.Prelude.Table.{select, find, update, delete, order_by, rowcount}

abbrev pub Token : Type 0
Token = List (String × String)

abbrev pub member : String → Token → Option String
member name [] = none
member name ((n, v) ∷ t) = if n == name then some v else member name t

pub record Vault (Blob : Type 0) : Type 0 where
  pub hash : String → String
  pub encrypt : Token → Blob
  pub decrypt : Blob → Option Token

pub record OAuthState : Type 0 where
  pub provider : String
  pub state_hash : String
  pub session_hash : String
  pub expires_at : ℕ

pub record Connection (Blob : Type 0) : Type 0 where
  pub provider : String
  pub connection_id : String
  pub account_id : String
  pub account_name : String
  pub encrypted_token : Blob
  pub created_at : ℕ
  pub updated_at : ℕ

pub record SessionConnection : Type 0 where
  pub provider : String
  pub session_hash : String
  pub connection_id : String
  pub connected_at : ℕ

pub record Source : Type 0 where
  pub provider : String
  pub connection_id : String
  pub source_id : String
  pub source_name : String
  pub group_id : String
  pub config_json : String
  pub last_sync_at : Option ℕ
  pub last_sync_error : Option String

pub data RunStatus : Type 0 where
  queued running completed failed : RunStatus

pub record SyncRun : Type 0 where
  pub provider : String
  pub run_id : String
  pub connection_id : String
  pub source_id : String
  pub status : RunStatus
  pub started_at : ℕ
  pub finished_at : Option ℕ
  pub result_json : Option String
  pub error : Option String
  pub graph_name : String

pub record Store (Blob : Type 0) : Type 0 where
  pub states : List OAuthState
  pub connections : List (Connection Blob)
  pub sessions : List SessionConnection
  pub sources : List Source
  pub runs : List SyncRun

pub data Error : Type 0 where
  incomplete no_connection undecryptable already_active integrity : Error

pub data Outcome {ℓ} (A : Type ℓ) : Type ℓ where
  ok : A → Outcome A
  err : Error → Outcome A

infixl 5 ◌>>=◌
abbrev pub ◌>>=◌ {ℓ κ} : {A : Type ℓ} {B : Type κ} → Outcome A → (A → Outcome B) → Outcome B
ok a >>= f = f a
err e >>= f = err e

abbrev pub is_state : String → String → OAuthState → Bool
is_state provider hash s = s.provider == provider && s.state_hash == hash

abbrev pub is_expired : String → ℕ → OAuthState → Bool
is_expired provider now s = s.provider == provider && ltb s.expires_at now

abbrev pub unexpired : ℕ → Option OAuthState → Option String
unexpired now none = none
unexpired now (some row) = if leb now row.expires_at then some row.session_hash else none

abbrev pub is_blank : Option String → Bool
is_blank none = true
is_blank (some t) = t == ""

abbrev pub is_link : String → String → String → SessionConnection → Bool
is_link provider session id l =
    l.provider == provider && (l.session_hash == session && l.connection_id == id)

module _ {Blob : Type 0} (vault : Vault Blob) (provider : String) where
  -- `state` is secrets.token_urlsafe(32). A state hash that exists is an IntegrityError.
  unfoldable pub create_state : String → String → ℕ → ℕ → Store Blob → Outcome (Store Blob)
  create_state state session ttl now s =
      let rest = delete (is_expired provider now) s.states in
      let row : OAuthState = record {
        provider = provider;
        state_hash = vault.hash state;
        session_hash = vault.hash session;
        expires_at = now + ttl;
      } in
      if is_some (find (is_state provider (vault.hash state)) rest)
      then err integrity
      else ok (record s { states = rest ++ row ∷ [] })

  -- DELETE … RETURNING
  unfoldable pub consume_state : String → ℕ → Store Blob → Store Blob × Option String
  consume_state state now s = (
    record s { states = delete (is_state provider (vault.hash state)) s.states },
    unexpired now (find (is_state provider (vault.hash state)) s.states),
  )

  abbrev pub is_connection : String → Connection Blob → Bool
  is_connection id c = c.provider == provider && c.connection_id == id

  abbrev pub created : ℕ → Option (Connection Blob) → ℕ
  created now none = now
  created now (some c) = c.created_at

  abbrev pub found : Option (Connection Blob) → Outcome (Connection Blob × Token)
  found none = err no_connection
  found (some c) = elim (vault.decrypt c.encrypted_token) [
    | none ↦ err undecryptable
    | some t ↦ ok (c, t)
  ]

  -- The row, and its token.
  unfoldable pub get_connection : String → Store Blob → Outcome (Connection Blob × Token)
  get_connection id s = found (find (is_connection id) s.connections)

  abbrev pub put_connection : Connection Blob → List (Connection Blob) → List (Connection Blob)
  put_connection c cs =
      if is_some (find (is_connection c.connection_id) cs)
      then update (is_connection c.connection_id)
          (λ r. record r {
            account_id = c.account_id;
            account_name = c.account_name;
            encrypted_token = c.encrypted_token;
            updated_at = c.updated_at;
          })
          cs
      else cs ++ c ∷ []

  unfoldable pub save_connection :
      String
      → String
      → String
      → Token
      → ℕ
      → Store Blob
      → Outcome (Store Blob × (Connection Blob × Token))
  unfolding get_connection
  save_connection id account name token now s =
      let row : Connection Blob = record {
        provider = provider;
        connection_id = id;
        account_id = account;
        account_name = name;
        encrypted_token = vault.encrypt token;
        created_at = created now (find (is_connection id) s.connections);
        updated_at = now;
      } in
      let after = record s { connections = put_connection row s.connections } in
      if id == "" || is_blank (member "access_token" token)
      then err incomplete
      else (get_connection id after >>= λ r. ok (after, r))

  -- {**current, **token}
  unfoldable pub update_token :
      String → Token → ℕ → Store Blob → Outcome (Store Blob × (Connection Blob × Token))
  update_token id token now s = get_connection id s >>= λ current.
      save_connection id current.0.account_id current.0.account_name (token ++ current.1) now s

  unfoldable pub link_session : String → String → ℕ → Store Blob → Store Blob
  link_session session id now s =
      let row : SessionConnection = record {
        provider = provider;
        session_hash = session;
        connection_id = id;
        connected_at = now;
      } in
      record s {
        sessions =
            if is_some (find (is_link provider session id) s.sessions)
            then update (is_link provider session id) (λ l. record l { connected_at = now })
                s.sessions
            else s.sessions ++ row ∷ [];
      }

  unfoldable pub session_has_connection : String → String → Store Blob → Bool
  session_has_connection session id s = is_some (find (is_link provider session id) s.sessions)
