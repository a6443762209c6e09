-- ===== src/OAuth/Forgetting.antt =====
-- connectors/core/oauth_store.py: which rows delete_connection removes, and what it returns.
use mathlib.Core.Bool.{false≢true}
use neuron_kg.Prelude.{
  subst, All-map, All-zip, All-Member, String, ◌≡◌, refl, Bool, true, false, ◌&&◌, List, [], ◌∷◌,
  All, Member, here, there, is_some, ◌==◌, eq_iff, eq_refl, arith, Bool-cases, ap, inl, inr,
}
use neuron_kg.Prelude.Table.{find, delete, All-select, All-delete}
use neuron_kg.Prelude.Rows.{Member-select, Member-map, All-intro, All-to-map}
use neuron_kg.OAuth.{
  Vault, Store, Source, get_connection, session_has_connection, is_connection, is_link, found,
}
use neuron_kg.OAuth.Syncs.{delete_connection, here_at, distinct, mem}

module _ {ℓ} {R : Type ℓ} (p d : R → Bool) where
  -- A DELETE of rows that p does not select changes nothing for p.
  find-delete_other :
      (rs : List R) → ((r : R) → p r ≡ true → d r ≡ false) → find p (delete d rs) ≡ find p rs
  find-delete_other [] h = refl
  find-delete_other (r ∷ rs) h = elim (Bool-cases (p r)) [
    | inl e ↦ rw (h r e, e) refl
    | inr e ↦ elim (Bool-cases (d r)) [
      | inl q ↦ rw (q, e) (find-delete_other rs h)
      | inr q ↦ rw (q, e) (find-delete_other rs h)
    ]
  ]

  -- A DELETE of all rows that p selects leaves none.
  find-delete_every :
      (rs : List R) → ((r : R) → d r ≡ false → p r ≡ false) → is_some (find p (delete d rs)) ≡ false
  find-delete_every [] h = refl
  find-delete_every (r ∷ rs) h = elim (Bool-cases (d r)) [
    | inl e ↦ rw e (find-delete_every rs h)
    | inr e ↦ rw (e, h r e) (find-delete_every rs h)
  ]

-- A table from which exactly the rows that `gone` selects have been taken: what stands is a row of
-- before that is not selected, and every such row stands.
abbrev pub Without {ℓ} : {R : Type ℓ} → (R → Bool) → List R → List R → Type ℓ
Without gone before after =
    All (λ r. (gone r ≡ false) × Member r before) after
    × All (λ r. gone r ≡ false → Member r after) before

module _ {ℓ} {R : Type ℓ} (d : R → Bool) where
  All-delete_every : (rs : List R) → All (λ r. d r ≡ false) (delete d rs)
  All-delete_every [] = tt
  All-delete_every (r ∷ rs) = elim (Bool-cases (d r)) [
    | inl e ↦ rw e (All-delete_every rs)
    | inr e ↦ rw e (e, All-delete_every rs)
  ]

  -- A row that a DELETE does not select stands.
  Member-delete : {r : R} (rs : List R) → d r ≡ false → Member r rs → Member r (delete d rs)
  Member-delete [] e m = elim m [ ]
  Member-delete (x ∷ rs) e (here q) = rw (subst (λ y. d y ≡ false) q e) (here q)
  Member-delete (x ∷ rs) e (there m) = elim (Bool-cases (d x)) [
    | inl t ↦ rw t (Member-delete rs e m)
    | inr t ↦ rw t (there (Member-delete rs e m))
  ]

  delete-Without : (rs : List R) → Without d rs (delete d rs)
  delete-Without rs = (
    All-zip (λ r. d r ≡ false) (λ r. Member r rs) (delete d rs) (All-delete_every rs)
        (All-delete (λ r. Member r rs) d rs (All-Member rs)),
    All-intro _ rs (λ r m e. Member-delete rs e m),
  )

mem-Member : (x : String) (xs : List String) → mem x xs ≡ true → Member x xs
mem-Member x [] e = absurd (false≢true e)
mem-Member x (y ∷ ys) e = elim (Bool-cases (x == y)) [
  | inl q ↦ here ((eq_iff x y).0 q)
  | inr q ↦ there (mem-Member x ys (rw q at e))
]

-- SELECT DISTINCT adds no value.
distinct-All {ℓ} : (P : String → Type ℓ) (xs : List String) → All P xs → All P (distinct xs)
distinct-All P [] h = tt
distinct-All P (x ∷ xs) h = elim (Bool-cases (mem x (distinct xs))) [
  | inl e ↦ rw e (distinct-All P xs h.1)
  | inr e ↦ rw e (h.0, distinct-All P xs h.1)
]

mem_first : (y : String) (ys : List String) → mem y (distinct (y ∷ ys)) ≡ true
mem_first y ys = elim (Bool-cases (mem y (distinct ys))) [
  | inl e ↦ rw (e, e) refl
  | inr e ↦ rw (e, eq_refl y) refl
]

mem_later :
    (x y : String) (ys : List String)
    → mem x (distinct ys) ≡ true
    → mem x (distinct (y ∷ ys)) ≡ true
mem_later x y ys e = elim (Bool-cases (mem y (distinct ys))) [
  | inl q ↦ rw (q, e) refl
  | inr q ↦ elim (Bool-cases (x == y)) [ inl t ↦ rw (q, t) refl | inr t ↦ rw (q, t, e) refl ]
]

-- SELECT DISTINCT keeps each value.
mem-distinct : (x : String) (xs : List String) → Member x xs → mem x (distinct xs) ≡ true
mem-distinct x [] m = elim m [ ]
mem-distinct x (y ∷ ys) (here q) = rw q (mem_first y ys)
mem-distinct x (y ∷ ys) (there m) = mem_later x y ys (mem-distinct x ys m)

-- Whose connection a row is, in the three tables that name one.
module _ (provider id other : String) (apart : (other == id) ≡ false) where
  not_here : (p c : String) → (p == provider && c == other) ≡ true → here_at provider id p c ≡ false
  not_here p c e = ground (arith, eq_iff p provider, eq_iff c other, eq_iff c id, apart)

  link_not_here :
      (session p c h : String)
      → (p == provider && (h == session && c == other)) ≡ true
      → here_at provider id p c ≡ false
  link_not_here session p c h e =
      ground (arith, eq_iff p provider, eq_iff c other, eq_iff c id, apart)

link_gone :
    (provider id session p c h : String)
    → here_at provider id p c ≡ false
    → (p == provider && (h == session && c == id)) ≡ false
link_gone provider id session p c h e = ground arith

-- Of the connections, session links, sources and runs of all providers, those of the deleted
-- connection are taken and no others, and the states stay. The groups returned are just those of
-- the deleted sources. Afterwards the connection is not found, for any session, and another
-- connection of the provider is answered for as before.
pub delete_connection_forgets :
    {Blob : Type 0} (vault : Vault Blob) (provider id other session : String) (s : Store Blob)
    → (other == id) ≡ false
    → let s' = (delete_connection provider id s).0 in
      let groups = (delete_connection provider id s).1 in
      Without (λ c. here_at provider id c.provider c.connection_id) s.connections s'.connections
      × Without (λ l. here_at provider id l.provider l.connection_id) s.sessions s'.sessions
      × Without (λ x. here_at provider id x.provider x.connection_id) s.sources s'.sources
      × Without (λ r. here_at provider id r.provider r.connection_id) s.runs s'.runs
      × (s'.states ≡ s.states)
      × All
          (λ x. here_at provider id x.provider x.connection_id ≡ true → Member x.group_id groups)
          s.sources
      × All
          (λ g.
            (x : Source) × Member x s.sources
            × (here_at provider id x.provider x.connection_id ≡ true)
            × (x.group_id ≡ g))
          groups
      × (is_some (find (is_connection vault provider id) s'.connections) ≡ false)
      × (session_has_connection vault provider session id s' ≡ false)
      × (get_connection vault provider other s' ≡ get_connection vault provider other s)
      × (session_has_connection vault provider session other s'
          ≡ session_has_connection vault provider session other s)
unfolding delete_connection get_connection session_has_connection
delete_connection_forgets vault provider id other session s apart = (
  delete-Without (λ c. here_at provider id c.provider c.connection_id) s.connections,
  delete-Without (λ l. here_at provider id l.provider l.connection_id) s.sessions,
  delete-Without (λ x. here_at provider id x.provider x.connection_id) s.sources,
  delete-Without (λ r. here_at provider id r.provider r.connection_id) s.runs,
  refl,
  All-intro _ s.sources (λ x m belongs. mem-Member x.group_id _ (
      mem-distinct x.group_id _
        (Member-map (λ x. x.group_id) _ (Member-select _ s.sources belongs m)))),
  distinct-All
      (λ g.
        (x : Source) × Member x s.sources
        × (here_at provider id x.provider x.connection_id ≡ true)
        × (x.group_id ≡ g))
      _
      (All-to-map _ (λ x. x.group_id) _
        (All-map (λ x h. (x, h.1, h.0, refl)) _
          (All-select (λ x. Member x s.sources)
            (λ x. here_at provider id x.provider x.connection_id) s.sources
            (All-Member s.sources)))),
  find-delete_every (is_connection vault provider id)
      (λ c. here_at provider id c.provider c.connection_id) s.connections (λ c e. e),
  find-delete_every (is_link provider session id)
      (λ l. here_at provider id l.provider l.connection_id) s.sessions
      (λ l e. link_gone provider id session l.provider l.connection_id l.session_hash e),
  ap (found vault provider) (
      find-delete_other (is_connection vault provider other)
        (λ c. here_at provider id c.provider c.connection_id) s.connections
        (λ c e. not_here provider id other apart c.provider c.connection_id e)),
  ap is_some (
      find-delete_other (is_link provider session other)
        (λ l. here_at provider id l.provider l.connection_id) s.sessions
        (λ l e.
          link_not_here provider id other apart session l.provider l.connection_id l.session_hash
            e)),
)
