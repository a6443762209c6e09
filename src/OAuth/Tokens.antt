-- ===== src/OAuth/Tokens.antt =====
-- connectors/core/oauth_store.py: update_token and what the provider did not send again.
use neuron_kg.Prelude.{
  ℕ, String, ◌≡◌, refl, Bool, true, false, Option, none, some, List, [], ◌∷◌, ◌++◌, ◌==◌, eq_iff,
  arith, Bool-cases, Option-cases, ap, sym, ◌∙◌, inl, inr,
}
use neuron_kg.Prelude.Table.{find, update}
use mathlib.Core.Bool.{true≢false}
use neuron_kg.OAuth.{
  Vault, Store, Token, member, is_blank, Connection, Outcome, ok, err, get_connection,
  save_connection, update_token, is_connection, found, ◌>>=◌,
}

-- A member of the new token counts, and of the old one what the new one does not name.
member-append :
    (name : String) (t u : Token)
    → member name (t ++ u) ≡ elim (member name t) [ none ↦ member name u | some v ↦ some v ]
member-append name [] u = refl
member-append name ((n, v) ∷ t) u = elim (Bool-cases (n == name)) [
  | inl e ↦ rw e refl
  | inr e ↦ rw e (member-append name t u)
]

module _ {ℓ} {R : Type ℓ} (p : R → Bool) (f : R → R) where
  find-update_hit :
      (rs : List R) {r : R}
      → ((s : R) → p (f s) ≡ p s)
      → find p rs ≡ some r
      → find p (update p f rs) ≡ some (f r)
  find-update_hit [] keeps e = ground arith
  find-update_hit (s ∷ rs) {r} keeps e = elim (Bool-cases (p s)) [
    | inl q ↦
        let same : some s ≡ some r = rw q at e in
        rw (q, keeps s, q) (ap (λ x. elim x [ none ↦ none | some y ↦ some (f y) ]) same)
    | inr q ↦ rw (q, q) (find-update_hit rs keeps (rw q at e))
  ]

  find-update_other :
      (q : R → Bool) (rs : List R)
      → ((s : R) → p s ≡ true → q s ≡ false)
      → ((s : R) → q (f s) ≡ q s)
      → find q (update p f rs) ≡ find q rs
  find-update_other q [] apart keeps = refl
  find-update_other q (s ∷ rs) apart keeps = elim (Bool-cases (p s)) [
    | inl e ↦ rw (e, keeps s, apart s e) (find-update_other q rs apart keeps)
    | inr e ↦ rw e (elim (Bool-cases (q s)) [
      | inl t ↦ rw t refl
      | inr t ↦ rw t (find-update_other q rs apart keeps)
    ])
  ]

abbrev is_ok : {A : Type 0} → Outcome A → Bool
is_ok (ok r) = true
is_ok (err e) = false

module _ {Blob : Type 0} where
  abbrev row_of :
      Connection Blob → Token → Outcome (Connection Blob × Token) → Connection Blob × Token
  row_of c t (ok r) = r
  row_of c t (err e) = (c, t)

  ok-fst :
      {c d : Connection Blob} {t u : Token}
      → Path (Outcome (Connection Blob × Token)) (ok (c, t)) (ok (d, u))
      → c ≡ d
  ok-fst {c} {t = t} e = ap (λ r. (row_of c t r).0) e

  found-ok :
      (vault : Vault Blob) (provider : String) (o : Option (Connection Blob)) {c : Connection Blob}
      {t : Token}
      → found vault provider o ≡ ok (c, t)
      → o ≡ some c
  found-ok vault provider none e = absurd (true≢false (sym (ap is_ok e)))
  found-ok vault provider (some d) e = elim (Option-cases (vault.decrypt d.encrypted_token)) [
    | inl q ↦ absurd (true≢false (sym (ap is_ok (rw (found, q) at e))))
    | inr (u, q) ↦ ap some (ok-fst (rw (found, q) at e))
  ]

module _ {Blob : Type 0} (vault : Vault Blob) (provider : String)
    (opens : (t : Token) → vault.decrypt (vault.encrypt t) ≡ some t) where
  abbrev renewed : Connection Blob → ℕ → Token → Connection Blob → Connection Blob
  renewed c now t r = record r {
    account_id = c.account_id;
    account_name = c.account_name;
    encrypted_token = vault.encrypt t;
    updated_at = now;
  }

  abbrev after : Connection Blob → ℕ → Token → String → Store Blob → Store Blob
  after c now t id s = record s {
    connections = update (is_connection vault provider id) (renewed c now t) s.connections;
  }

  -- The row of a connection after its token was written.
  get-after :
      (id : String) (t : Token) (c : Connection Blob) (now : ℕ) (s : Store Blob)
      → find (is_connection vault provider id) s.connections ≡ some c
      → get_connection vault provider id (after c now t id s) ≡ ok (renewed c now t c, t)
  unfolding get_connection
  get-after id t c now s e =
      ap (found vault provider) (
        find-update_hit (is_connection vault provider id) (renewed c now t) s.connections
          (λ r. refl) e)
      ∙ rw (found, opens t) refl

  -- A token that the provider renews is merged into the stored one: each member that was sent
  -- counts, the others stay, among them the refresh token; the account and the time of the
  -- connection stay, and so does each other connection of the provider. It is read back as it was
  -- stored.
  pub update_token-get_connection :
      (id other name : String) (sent old : Token) (c : Connection Blob) (now : ℕ) (s : Store Blob)
      → get_connection vault provider id s ≡ ok (c, old)
      → (id == "") ≡ false
      → is_blank (member "access_token" (sent ++ old)) ≡ false
      → (other == id) ≡ false
      → let c' : Connection Blob = record c {
        encrypted_token = vault.encrypt (sent ++ old);
        updated_at = now;
      } in
        (s' : Store Blob) × (update_token vault provider id sent now s ≡ ok (s', (c', sent ++ old)))
        × (get_connection vault provider id s' ≡ ok (c', sent ++ old))
        × (get_connection vault provider other s' ≡ get_connection vault provider other s)
        × (member name (sent ++ old)
            ≡ elim (member name sent) [ none ↦ member name old | some v ↦ some v ])
  unfolding update_token save_connection get_connection
  update_token-get_connection id other name sent old c now s e named usable apart =
      let p = is_connection vault provider id in
      let t = sent ++ old in
      let q = found-ok vault provider (find p s.connections) e in
      let back = get-after id t c now s q in
      (
        after c now t id s,
        ap
              (λ x. x >>= λ current.
                save_connection vault provider id current.0.account_id current.0.account_name
                  (sent ++ current.1) now s)
              e
            ∙ rw (named, usable, q) (ap (λ x. x >>= λ r. ok (after c now t id s, r)) back),
        back,
        ap (found vault provider) (
            find-update_other p (renewed c now t) (is_connection vault provider other) s.connections
              (λ r h. ground (
                arith,
                eq_iff r.connection_id id,
                eq_iff r.connection_id other,
                eq_iff other id,
                apart,
                h,
              ))
              (λ r. refl)),
        member-append name sent old,
      )
