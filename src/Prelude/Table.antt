-- ===== src/Prelude/Table.antt =====
-- SQL tables as lists of rows in the order of insertion: SELECT, UPDATE, DELETE with a WHERE
-- test, cursor.rowcount, and ORDER BY with LIMIT. SQL leaves the order of ties open; here the
-- earlier row comes first.
use Prim.Native.Nat.{ℕ}
use mathlib.Core.Path.{◌≡◌, refl, ap₂, subst}
use mathlib.Core.Logic.{◌⊎◌, inl, inr}
use mathlib.Core.Bool.{Bool, true, false}
use mathlib.Core.Option.{Option, none, some}
use mathlib.Core.List.{List, [], ◌∷◌, map}
use native.Mathlib.Omega.{arith}
use neuron_kg.Prelude.Tests.{if◌then◌else◌, Bool-cases, Option-cases}
use neuron_kg.Prelude.Lists.{length, All, All-map}

module _ {ℓ} {R : Type ℓ} where
  -- SELECT * … WHERE p
  abbrev pub select : (R → Bool) → List R → List R
  select p [] = []
  select p (r ∷ rs) = if p r then r ∷ select p rs else select p rs

  -- the row that fetchone gives
  abbrev pub find : (R → Bool) → List R → Option R
  find p [] = none
  find p (r ∷ rs) = if p r then some r else find p rs

  -- UPDATE … SET f WHERE p
  abbrev pub update : (R → Bool) → (R → R) → List R → List R
  update p f [] = []
  update p f (r ∷ rs) = (if p r then f r else r) ∷ update p f rs

  -- DELETE … WHERE p
  abbrev pub delete : (R → Bool) → List R → List R
  delete p [] = []
  delete p (r ∷ rs) = if p r then delete p rs else r ∷ delete p rs

  -- cursor.rowcount of an UPDATE or a DELETE
  abbrev pub rowcount : (R → Bool) → List R → ℕ
  rowcount p rs = length (select p rs)

  -- ORDER BY … LIMIT 1, where `lt r s` says that `r` comes strictly before `s`
  abbrev pub first : (R → R → Bool) → List R → Option R
  first lt [] = none
  first lt (r ∷ rs) = elim (first lt rs) [ none ↦ some r | some s ↦ some (if lt s r then s else r) ]

  abbrev pub insert_sorted : (R → R → Bool) → R → List R → List R
  insert_sorted lt r [] = r ∷ []
  insert_sorted lt r (s ∷ rs) = if lt s r then s ∷ insert_sorted lt r rs else r ∷ s ∷ rs

  -- ORDER BY, stable
  abbrev pub order_by : (R → R → Bool) → List R → List R
  order_by lt [] = []
  order_by lt (r ∷ rs) = insert_sorted lt r (order_by lt rs)

module _ {ℓ κ μ} {R : Type ℓ} {P : R → Type κ} (Q : R → Type μ) where
  pub All-update_of :
      (p : R → Bool) (f : R → R) (rs : List R)
      → ((r : R) → p r ≡ true → P r → Q (f r))
      → ((r : R) → p r ≡ false → P r → Q r)
      → All P rs
      → All Q (update p f rs)
  All-update_of p f [] hit miss h = tt
  All-update_of p f (r ∷ rs) hit miss h = elim (Bool-cases (p r)) [
    | inl e ↦ rw e (hit r e h.0, All-update_of p f rs hit miss h.1)
    | inr e ↦ rw e (miss r e h.0, All-update_of p f rs hit miss h.1)
  ]

module _ {ℓ κ} {R : Type ℓ} (P : R → Type κ) where
  pub All-update :
      (p : R → Bool) (f : R → R) (rs : List R)
      → ((r : R) → p r ≡ true → P r → P (f r))
      → All P rs
      → All P (update p f rs)
  All-update p f rs keep h = All-update_of P p f rs keep (λ r _ q. q) h

  pub All-delete : (p : R → Bool) (rs : List R) → All P rs → All P (delete p rs)
  All-delete p [] h = tt
  All-delete p (r ∷ rs) h = elim (Bool-cases (p r)) [
    | inl e ↦ rw e (All-delete p rs h.1)
    | inr e ↦ rw e (h.0, All-delete p rs h.1)
  ]

  pub All-select :
      (p : R → Bool) (rs : List R) → All P rs → All (λ r. (p r ≡ true) × P r) (select p rs)
  All-select p [] h = tt
  All-select p (r ∷ rs) h = elim (Bool-cases (p r)) [
    | inl e ↦ rw e ((e, h.0), All-select p rs h.1)
    | inr e ↦ rw e (All-select p rs h.1)
  ]

  -- A row that is found is in the table, and so has what all rows have.
  pub find-All :
      (p : R → Bool) (rs : List R) {r : R} → find p rs ≡ some r → All P rs → (p r ≡ true) × P r
  find-All p [] e h = cc
  find-All p (s ∷ rs) {r} e h = elim (Bool-cases (p s)) [
    | inl t ↦ let q : some s ≡ some r = rw t at e in found r q t
    | inr t ↦ find-All p rs (rw t at e) h.1
  ]
    where
      found : (r : R) → some s ≡ some r → p s ≡ true → (p r ≡ true) × P r
      found r q t = let g : s ≡ r = cc in (rw (← g) t, rw (← g) h.0)

module _ {ℓ κ} {R : Type ℓ} {K : Type κ} where
  pub map-update :
      (k : R → K) (p : R → Bool) (f : R → R) (rs : List R)
      → ((r : R) → k (f r) ≡ k r)
      → map k (update p f rs) ≡ map k rs
  map-update k p f [] keep = refl
  map-update k p f (r ∷ rs) keep = elim (Bool-cases (p r)) [
    | inl e ↦ rw e (ap₂ (λ x l. x ∷ l) (keep r) (map-update k p f rs keep))
    | inr e ↦ rw e (ap₂ (λ x l. x ∷ l) refl (map-update k p f rs keep))
  ]

module _ {ℓ} {R : Type ℓ} (lt : R → R → Bool) where
  pub first-none : (rs : List R) → first lt rs ≡ none → rs ≡ []
  first-none [] e = refl
  first-none (r ∷ rs) e = ground arith

  -- The pick is the head, before which nothing in the rest comes, or the pick of the rest.
  first-cases :
      (s : R) (rs : List R) {r : R}
      → first lt (s ∷ rs) ≡ some r
      → (s ≡ r) × (first lt rs ≡ none)
        ⊎ (s ≡ r) × ((t : R) × (first lt rs ≡ some t) × (lt t s ≡ false))
        ⊎ (first lt rs ≡ some r) × (lt r s ≡ true)
  first-cases s rs e = elim (Option-cases (first lt rs)) [
    | inl q ↦ inl (ground arith, q)
    | inr (t, q) ↦ elim (Bool-cases (lt t s)) [
      | inl c ↦ inr (inr (ground arith, ground arith))
      | inr c ↦ inr (inl (ground arith, (t, q, c)))
    ]
  ]

  -- What ORDER BY … LIMIT 1 picks is a row.
  pub first-All {κ} : (P : R → Type κ) (rs : List R) {r : R} → first lt rs ≡ some r → All P rs → P r
  first-All P [] e h = cc
  first-All P (s ∷ rs) e h = elim (first-cases s rs e) [
    | inl (q, _) ↦ subst P q h.0
    | inr (inl (q, _)) ↦ subst P q h.0
    | inr (inr (q, _)) ↦ first-All P rs q h.1
  ]

  -- No row comes before the one that it picks.
  pub first_least :
      ((a b : R) → lt a b ≡ true → lt b a ≡ false)
      → ((a b c : R) → lt a b ≡ false → lt b c ≡ false → lt a c ≡ false)
      → ((a : R) → lt a a ≡ false)
      → (rs : List R) {r : R} → first lt rs ≡ some r
      → All (λ s. lt s r ≡ false) rs
  first_least asym trans irrefl [] e = tt
  first_least asym trans irrefl (s ∷ rs) e = elim (first-cases s rs e) [
    | inl (q, n) ↦
        subst (λ x. All (λ t. lt t x ≡ false) (s ∷ rs)) q (irrefl s, rw (first-none rs n) tt)
    | inr (inl (q, (t, n, c))) ↦
        subst (λ x. All (λ t. lt t x ≡ false) (s ∷ rs)) q
          (irrefl s, All-map (λ a h. trans a t s h c) rs (first_least asym trans irrefl rs n))
    | inr (inr (q, c)) ↦ (asym _ s c, first_least asym trans irrefl rs q)
  ]
