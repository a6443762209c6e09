-- ===== src/OAuth/States.antt =====
-- connectors/core/oauth_store.py: create_state and consume_state.
use neuron_kg.Prelude.{
  ℕ, ◌+◌, String, ◌≡◌, refl, Bool, true, false, none, some, List, [], ◌∷◌, ◌++◌, is_some,
  if◌then◌else◌, eq_refl, leb, arith, Bool-cases, ap, sym, inl, inr,
}
use mathlib.Core.Bool.{true≢false}
use neuron_kg.Prelude.Table.{find, delete}
use neuron_kg.OAuth.{
  Vault, Store, OAuthState, Outcome, Error, ok, err, create_state, consume_state, is_state,
  is_expired,
}

module _ {ℓ} {R : Type ℓ} (p : R → Bool) where
  -- DELETE … WHERE p leaves no row that p selects.
  find-delete : (rs : List R) → find p (delete p rs) ≡ none
  find-delete [] = refl
  find-delete (r ∷ rs) = elim (Bool-cases (p r)) [
    | inl e ↦ rw e (find-delete rs)
    | inr e ↦ rw (e, e) (find-delete rs)
  ]

  -- A row added at the end is the one that is found, when there was none.
  find-append_new :
      (rs : List R) (r : R)
      → is_some (find p rs) ≡ false
      → p r ≡ true
      → find p (rs ++ r ∷ []) ≡ some r
  find-append_new [] r e h = rw h refl
  find-append_new (x ∷ rs) r e h = elim (Bool-cases (p x)) [
    | inl q ↦ ground arith
    | inr q ↦ rw q (find-append_new rs r (rw q at e) h)
  ]

module _ {Blob : Type 0} where
  abbrev states_of : List OAuthState → Outcome (Store Blob) → List OAuthState
  states_of d (ok s) = s.states
  states_of d (err x) = d

  abbrev is_ok : Outcome (Store Blob) → Bool
  is_ok (ok s) = true
  is_ok (err x) = false

  ok-states : {s t : Store Blob} → ok s ≡ ok t → s.states ≡ t.states
  ok-states e = ap (states_of []) e

  err-ne-ok : {x : Error} {t : Store Blob} → ¬ (err x ≡ ok t)
  err-ne-ok e = true≢false (sym (ap is_ok e))

module _ {Blob : Type 0} (vault : Vault Blob) (provider : String) where
  abbrev row_of : String → String → ℕ → OAuthState
  row_of state session expires = record {
    provider = provider;
    state_hash = vault.hash state;
    session_hash = vault.hash session;
    expires_at = expires;
  }

  -- The row that create_state leaves for its state.
  created_state :
      (state session : String) (ttl now : ℕ) (s s' : Store Blob)
      → create_state vault provider state session ttl now s ≡ ok s'
      → find (is_state provider (vault.hash state)) s'.states
        ≡ some (row_of state session (now + ttl))
  unfolding create_state
  created_state state session ttl now s s' e =
      let rest = delete (is_expired provider now) s.states in
      let p = is_state provider (vault.hash state) in
      elim (Bool-cases (is_some (find p rest))) [
        | inl q ↦ absurd (err-ne-ok (rw q at e))
        | inr q ↦
            let stored = ok-states (rw q at e) in
            rw (← stored) (
              find-append_new p rest (row_of state session (now + ttl)) q
                (rw (eq_refl provider, eq_refl (vault.hash state)) refl))
      ]

  -- A callback that brings back a state in time gets the hash of the session that started it, a
  -- later one nothing, and after either of them the state is worth nothing to anyone.
  pub state_used_once :
      (state session : String) (ttl now later again : ℕ) (s s' : Store Blob)
      → create_state vault provider state session ttl now s ≡ ok s'
      → ((consume_state vault provider state later s').1
          ≡ (if leb later (now + ttl) then some (vault.hash session) else none))
        × ((consume_state vault provider state again
              (consume_state vault provider state later s').0).1
            ≡ none)
  unfolding create_state consume_state
  state_used_once state session ttl now later again s s' e =
      let p = is_state provider (vault.hash state) in
      (rw (created_state state session ttl now s s' e) refl, rw (find-delete p s'.states) refl)
