-- ===== src/Prelude/Updates.antt =====
-- UPDATE statements whose row is known, and the count of the rows that they meet.
use mathlib.Core.Path.{◌≡◌, refl, sym, ap, subst, ◌∙◌}
use mathlib.Core.Logic.{inl, inr}
use mathlib.Core.Bool.{Bool, true, false, true≢false}
use mathlib.Core.Option.{some}
use mathlib.Core.List.{List, [], ◌∷◌}
use native.Mathlib.Omega.{arith}
use neuron_kg.Prelude.Tests.{Bool-cases, eqb}
use neuron_kg.Prelude.Lists.{All, All-Member, here, there, Member}
use neuron_kg.Prelude.Table.{select, rowcount, find, update}

module _ {ℓ} {R : Type ℓ} (p : R → Bool) where
  pub rowcount-Member :
      (rs : List R) → eqb (rowcount p rs) 0 ≡ false → (r : R) × (p r ≡ true) × Member r rs
  rowcount-Member [] e = absurd (ground arith)
  rowcount-Member (r ∷ rs) e = elim (Bool-cases (p r)) [
    | inl t ↦ (r, t, here refl)
    | inr t ↦ let (s, met, m) = rowcount-Member rs (rw t at e) in (s, met, there m)
  ]

  pub rowcount-zero : (rs : List R) → eqb (rowcount p rs) 0 ≡ true → All (λ r. p r ≡ false) rs
  rowcount-zero [] e = tt
  rowcount-zero (r ∷ rs) e = elim (Bool-cases (p r)) [
    | inl t ↦ absurd (ground arith)
    | inr t ↦ (t, rowcount-zero rs (rw t at e))
  ]

  pub rowcount_zero : (rs : List R) → All (λ r. p r ≡ false) rs → eqb (rowcount p rs) 0 ≡ true
  rowcount_zero [] h = refl
  rowcount_zero (r ∷ rs) h = rw h.0 (rowcount_zero rs h.1)

module _ {ℓ} {R : Type ℓ} (p h : R → Bool) (f : R → R) where
  -- An UPDATE under a narrower test than the key, and then a SELECT by the key.
  pub find-update_key :
      (rs : List R) {r : R}
      → ((s : R) → h (f s) ≡ h s)
      → p r ≡ true
      → h r ≡ true
      → All (λ s. h s ≡ true → s ≡ r) rs
      → Member r rs
      → find h (update p f rs) ≡ some (f r)
  find-update_key [] keeps e k same m = elim m [ ]
  find-update_key (s ∷ rs) {r} keeps e k same m = elim (Bool-cases (h s)) [
    | inl t ↦
        let q : s ≡ r = same.0 t in
        let hit : p s ≡ true = subst (λ x. p x ≡ true) (sym q) e in rw (hit, keeps s, t, q) refl
    | inr t ↦ elim (Bool-cases (p s)) [
      | inl u ↦ rw (u, keeps s, t) (find-update_key rs keeps e k same.1 (later m t))
      | inr u ↦ rw (u, t) (find-update_key rs keeps e k same.1 (later m t))
    ]
  ]
    where
      later : Member r (s ∷ rs) → h s ≡ false → Member r rs
      later (here q) t = absurd (true≢false (sym k ∙ ap h q ∙ t))
      later (there m) t = m

module _ {ℓ} {R : Type ℓ} (p : R → Bool) where
  All-selected {κ} :
      (P : R → Type κ) (rs : List R) → All P rs → All (λ r. (p r ≡ true) × P r) (select p rs)
  All-selected P [] h = tt
  All-selected P (r ∷ rs) h = elim (Bool-cases (p r)) [
    | inl t ↦ rw t ((t, h.0), All-selected P rs h.1)
    | inr t ↦ rw t (All-selected P rs h.1)
  ]

  -- What a SELECT gives are members that meet its test.
  pub selected : (rs : List R) → All (λ r. (p r ≡ true) × Member r rs) (select p rs)
  selected rs = All-selected (λ r. Member r rs) rs (All-Member rs)
