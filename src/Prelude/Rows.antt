-- ===== src/Prelude/Rows.antt =====
-- Which rows a table has after a statement: keys, UPDATE and the SELECT of one row.
use mathlib.Core.Path.{◌≡◌, refl, sym, ap, subst, ◌∙◌}
use mathlib.Core.Logic.{◌≢◌, inl, inr}
use mathlib.Core.Bool.{Bool, true, false, true≢false}
use mathlib.Core.Option.{none, some}
use mathlib.Core.List.{List, [], ◌∷◌, ◌++◌, map}
use native.Mathlib.Omega.{arith}
use neuron_kg.Prelude.Tests.{Bool-cases, Option-cases, is_some}
use neuron_kg.Prelude.Lists.{
  All, All-map, Unique, here, there, Member, Member-All, All-Member, All-of-map,
}
use neuron_kg.Prelude.Table.{
  select, rowcount, find, delete, update, first, All-select, find-All, first-All,
}

module _ {ℓ κ} {R : Type ℓ} {K : Type κ} (k : R → K) where
  -- A new row whose key no row has keeps the keys unique.
  pub Unique-insert :
      (rs : List R) (r : R)
      → All (λ s. k s ≢ k r) rs
      → Unique (map k rs)
      → Unique (map k (rs ++ r ∷ []))
  Unique-insert [] r fresh u = (tt, tt)
  Unique-insert (s ∷ rs) r fresh u = (All-snoc rs u.0 fresh.0, Unique-insert rs r fresh.1 u.1)
    where
      All-snoc :
          (xs : List R)
          → All (λ y. k s ≢ y) (map k xs)
          → k s ≢ k r
          → All (λ y. k s ≢ y) (map k (xs ++ r ∷ []))
      All-snoc [] h n = (n, tt)
      All-snoc (x ∷ xs) h n = (h.0, All-snoc xs h.1 n)

pub find-none {ℓ} :
    {R : Type ℓ} (p : R → Bool) (rs : List R) → find p rs ≡ none → All (λ r. p r ≡ false) rs
find-none p [] e = tt
find-none p (r ∷ rs) e = elim (Bool-cases (p r)) [
  | inl t ↦ ground arith
  | inr t ↦ (t, find-none p rs (rw t at e))
]

module _ {ℓ} {R : Type ℓ} (p : R → Bool) where
  pub find-Member : (rs : List R) {r : R} → find p rs ≡ some r → (p r ≡ true) × Member r rs
  find-Member rs e = find-All (λ r. Member r rs) p rs e (All-Member rs)

  pub first-select :
      (lt : R → R → Bool) (rs : List R) {r : R}
      → first lt (select p rs) ≡ some r
      → (p r ≡ true) × Member r rs
  first-select lt rs {r} e =
      first-All lt (λ r. (p r ≡ true) × Member r rs) (select p rs) e
        (All-select (λ r. Member r rs) p rs (All-Member rs))

module _ {ℓ κ} {R : Type ℓ} {K : Type κ} (k : R → K) where
  -- Where keys are unique, a row is the only one with its key.
  pub Unique-same :
      (rs : List R) {r : R} → Unique (map k rs) → Member r rs → All (λ s. k s ≡ k r → s ≡ r) rs
  Unique-same [] u m = tt
  Unique-same (t ∷ rs) {r} u (here e) = (
    λ _. sym e,
    All-map (λ s n same. absurd (n (ap k (sym e) ∙ sym same))) rs
        (All-of-map (λ y. k t ≢ y) k rs u.0),
  )
  Unique-same (t ∷ rs) {r} u (there m) = (
    λ same. absurd (Member-All (λ s. k t ≢ k s) m (All-of-map (λ y. k t ≢ y) k rs u.0) same),
    Unique-same rs u.1 m,
  )

module _ {ℓ} {R : Type ℓ} (p : R → Bool) (f : R → R) where
  -- An UPDATE whose WHERE no row meets changes nothing.
  pub update_none : (rs : List R) → All (λ r. p r ≡ false) rs → update p f rs ≡ rs
  update_none [] h = refl
  update_none (r ∷ rs) h = rw (h.0, update_none rs h.1) refl

  -- A row that the WHERE does not meet stays.
  pub Member-update_miss :
      {r : R} (rs : List R) → p r ≡ false → Member r rs → Member r (update p f rs)
  Member-update_miss [] e m = elim m [ ]
  Member-update_miss (s ∷ rs) e (here q) = here (rw (subst (λ x. p x ≡ false) q e) q)
  Member-update_miss (s ∷ rs) e (there m) = there (Member-update_miss rs e m)

  -- A row that it meets stands there changed.
  pub Member-update_hit :
      {r : R} (rs : List R) → p r ≡ true → Member r rs → Member (f r) (update p f rs)
  Member-update_hit [] e m = elim m [ ]
  Member-update_hit (s ∷ rs) e (here q) = here (rw (subst (λ x. p x ≡ true) q e) (ap f q))
  Member-update_hit (s ∷ rs) e (there m) = there (Member-update_hit rs e m)

  -- UPDATE and then SELECT by a key, which no other row has.
  pub find-update_self :
      (rs : List R) {r : R}
      → ((s : R) → p (f s) ≡ p s)
      → p r ≡ true
      → All (λ s. p s ≡ true → s ≡ r) rs
      → Member r rs
      → find p (update p f rs) ≡ some (f r)
  find-update_self [] keeps e same m = elim m [ ]
  find-update_self (s ∷ rs) {r} keeps e same m = elim (Bool-cases (p s)) [
    | inl t ↦ rw (t, keeps s, t, same.0 t)
    | inr t ↦ rw (t, t) (find-update_self rs keeps e same.1 (later m t))
  ]
    where
      later : Member r (s ∷ rs) → p s ≡ false → Member r rs
      later (here q) t = absurd (true≢false (sym e ∙ ap p q ∙ t))
      later (there m) t = m

module _ {ℓ} {R : Type ℓ} (p : R → Bool) where
  pub select-nil : (rs : List R) → select p rs ≡ [] → All (λ r. p r ≡ false) rs
  select-nil [] e = tt
  select-nil (r ∷ rs) e = elim (Bool-cases (p r)) [
    | inl t ↦ ground arith
    | inr t ↦ (t, select-nil rs (rw t at e))
  ]

  pub rowcount_none : (rs : List R) → All (λ r. p r ≡ false) rs → rowcount p rs ≡ 0
  rowcount_none [] h = refl
  rowcount_none (r ∷ rs) h = rw h.0 (rowcount_none rs h.1)

  pub All-of-select {κ} :
      (P : R → Type κ) (rs : List R) → All P (select p rs) → All (λ r. p r ≡ true → P r) rs
  All-of-select P [] h = tt
  All-of-select P (r ∷ rs) h = elim (Bool-cases (p r)) [
    | inl t ↦
        let h' : P r × All P (select p rs) = rw t at h in ((λ _. h'.0), All-of-select P rs h'.1)
    | inr t ↦ ((λ met. absurd (true≢false (sym met ∙ t))), All-of-select P rs (rw t at h))
  ]

  pub find_missing : (rs : List R) → All (λ r. p r ≡ false) rs → find p rs ≡ none
  find_missing [] h = refl
  find_missing (r ∷ rs) h = rw h.0 (find_missing rs h.1)

  pub Member-found : {r : R} (rs : List R) → p r ≡ true → Member r rs → is_some (find p rs) ≡ true
  Member-found [] e m = elim m [ ]
  Member-found (s ∷ rs) e (here q) = rw (subst (λ x. p x ≡ true) q e)
  Member-found (s ∷ rs) e (there m) = elim (Bool-cases (p s)) [
    | inl t ↦ rw t
    | inr t ↦ rw t (Member-found rs e m)
  ]

  pub found-Member :
      (rs : List R) → is_some (find p rs) ≡ true → (r : R) × (p r ≡ true) × Member r rs
  found-Member rs e = elim (Option-cases (find p rs)) [
    | inl q ↦ absurd (true≢false (sym e ∙ ap is_some q))
    | inr (r, q) ↦ let (met, m) = find-Member p rs q in (r, met, m)
  ]

  pub Member-select : {r : R} (rs : List R) → p r ≡ true → Member r rs → Member r (select p rs)
  Member-select [] e m = elim m [ ]
  Member-select (s ∷ rs) e (here q) = rw (subst (λ x. p x ≡ true) q e) (here q)
  Member-select (s ∷ rs) e (there m) = elim (Bool-cases (p s)) [
    | inl t ↦ rw t (there (Member-select rs e m))
    | inr t ↦ rw t (Member-select rs e m)
  ]

  pub select_none : (rs : List R) → All (λ r. p r ≡ false) rs → select p rs ≡ []
  select_none [] h = refl
  select_none (r ∷ rs) h = rw h.0 (select_none rs h.1)

  pub delete_every : (rs : List R) → All (λ r. p r ≡ true) rs → delete p rs ≡ []
  delete_every [] h = refl
  delete_every (r ∷ rs) h = rw h.0 (delete_every rs h.1)

module _ {ℓ} {R : Type ℓ} where
  pub Member-left : {r : R} (xs ys : List R) → Member r xs → Member r (xs ++ ys)
  Member-left [] ys m = elim m [ ]
  Member-left (x ∷ xs) ys (here q) = here q
  Member-left (x ∷ xs) ys (there m) = there (Member-left xs ys m)

  pub Member-right : {r : R} (xs ys : List R) → Member r ys → Member r (xs ++ ys)
  Member-right [] ys m = m
  Member-right (x ∷ xs) ys m = there (Member-right xs ys m)

pub Member-map {ℓ κ} :
    {A : Type ℓ} {B : Type κ} (f : A → B) {a : A} (xs : List A)
    → Member a xs
    → Member (f a) (map f xs)
Member-map f [] m = elim m [ ]
Member-map f (x ∷ xs) (here q) = here (ap f q)
Member-map f (x ∷ xs) (there m) = there (Member-map f xs m)

-- What holds of each member holds of all.
pub All-intro {ℓ κ} :
    {A : Type ℓ} (P : A → Type κ) (xs : List A) → ((a : A) → Member a xs → P a) → All P xs
All-intro P [] h = tt
All-intro P (x ∷ xs) h = (h x (here refl), All-intro P xs (λ a m. h a (there m)))

pub All-to-map {ℓ κ μ} :
    {A : Type ℓ} {B : Type κ} (P : B → Type μ) (f : A → B) (xs : List A)
    → All (λ x. P (f x)) xs
    → All P (map f xs)
All-to-map P f [] h = tt
All-to-map P f (x ∷ xs) h = (h.0, All-to-map P f xs h.1)
