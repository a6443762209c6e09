-- ===== src/Chars/Ink.antt =====
-- The characters of a text that are no space, in their order: what strip, join and a split at
-- spaces leave as they are.
use neuron_kg.Prelude.{
  ℕ, zero, suc, ◌≡◌, refl, sym, ap, ◌∙◌, true, List, [], ◌∷◌, ◌++◌, Bool-cases, inl, inr,
  if◌then◌else◌,
}
use neuron_kg.Chars.{
  Chars, CharClass, is_empty, concat, lstrip, rstrip, trim, strip, strip_all, push, re_split,
}

module _ (k : CharClass) where
  abbrev pub ink : Chars → Chars
  ink [] = []
  ink (c ∷ cs) = if k.is_space c then ink cs else c ∷ ink cs

  pub ink-append : (s t : Chars) → ink (s ++ t) ≡ ink s ++ ink t
  ink-append [] t = refl
  ink-append (c ∷ s) t = elim (Bool-cases (k.is_space c)) [
    | inl u ↦ rw u (ink-append s t)
    | inr u ↦ rw u (ap (λ z. c ∷ z) (ink-append s t))
  ]

  ink-lstrip : (t : Chars) → ink (lstrip k t) ≡ ink t
  unfolding lstrip
  ink-lstrip [] = refl
  ink-lstrip (c ∷ t) = elim (Bool-cases (k.is_space c)) [
    | inl u ↦ rw u (ink-lstrip t)
    | inr u ↦ rw (u, u) refl
  ]

  ink-trim : (c : ℕ) (t : Chars) → ink (trim k c t) ≡ ink (c ∷ t)
  ink-trim c [] = elim (Bool-cases (k.is_space c)) [ inl u ↦ rw u refl | inr u ↦ rw (u, u) refl ]
  ink-trim c (d ∷ t) = refl

  ink-cons : (c : ℕ) (s t : Chars) → ink s ≡ ink t → ink (c ∷ s) ≡ ink (c ∷ t)
  ink-cons c s t e = ap (λ z. if k.is_space c then z else c ∷ z) e

  ink-rstrip : (t : Chars) → ink (rstrip k t) ≡ ink t
  unfolding rstrip
  ink-rstrip [] = refl
  ink-rstrip (c ∷ t) = ink-trim c (rstrip k t) ∙ ink-cons c (rstrip k t) t (ink-rstrip t)

  pub ink-strip : (t : Chars) → ink (strip k t) ≡ ink t
  unfolding strip
  ink-strip t = ink-rstrip (lstrip k t) ∙ ink-lstrip t

  pub ink-empty : (t : Chars) → is_empty (strip k t) ≡ true → ink t ≡ []
  ink-empty t u = sym (ink-strip t) ∙ nothing (strip k t) u
    where
      nothing : (s : Chars) → is_empty s ≡ true → ink s ≡ []
      nothing [] v = refl
      nothing (_ ∷ _) v = cc

  pub ink-strip_all : (ts : List Chars) → ink (concat (strip_all k ts)) ≡ ink (concat ts)
  unfolding strip_all
  ink-strip_all [] = refl
  ink-strip_all (t ∷ ts) = elim (Bool-cases (is_empty (strip k t))) [
    | inl u ↦ rw u (
        ink-strip_all ts
        ∙ (ap (λ z. z ++ ink (concat ts)) (sym (ink-empty t u)) ∙ sym (ink-append t (concat ts))))
    | inr u ↦ rw u (
        ink-append (strip k t) (concat (strip_all k ts))
        ∙ (ap (λ z. z ++ ink (concat (strip_all k ts))) (ink-strip t)
            ∙ (ap (λ z. ink t ++ z) (ink-strip_all ts) ∙ sym (ink-append t (concat ts)))))
  ]

  -- The first n characters are spaces.
  abbrev pub StartsBlank : ℕ → Chars → Type 0
  StartsBlank zero t = Unit
  StartsBlank (suc n) [] = Unit
  StartsBlank (suc n) (c ∷ cs) = (k.is_space c ≡ true) × StartsBlank n cs

  concat-push : (c : ℕ) (ts : List Chars) → concat (push c ts) ≡ c ∷ concat ts
  concat-push c [] = refl
  concat-push c (t ∷ ts) = refl

  ink-space : (c : ℕ) (t : Chars) → k.is_space c ≡ true → ink (c ∷ t) ≡ ink t
  ink-space c t u = rw u refl

  module _ (sep : ℕ → Chars → ℕ)
      (blank : (before : ℕ) (t : Chars) → StartsBlank (sep before t) t) where
    ink-cut :
        (m c : ℕ) (cs : Chars)
        → ((n : ℕ) → StartsBlank n cs → ink (concat (re_split sep c n cs)) ≡ ink cs)
        → StartsBlank m (c ∷ cs)
        → ink (
            concat (elim m [
              | zero ↦ push c (re_split sep c zero cs)
              | suc n ↦ [] ∷ re_split sep c n cs
            ]))
          ≡ ink (c ∷ cs)
    ink-cut zero c cs ih h =
        ap ink (concat-push c (re_split sep c zero cs))
        ∙ ink-cons c (concat (re_split sep c zero cs)) cs (ih zero tt)
    ink-cut (suc n) c cs ih h = ih n h.1 ∙ sym (ink-space c cs h.0)

    pub ink-re_split :
        (before n : ℕ) (t : Chars)
        → StartsBlank n t
        → ink (concat (re_split sep before n t)) ≡ ink t
    unfolding re_split
    ink-re_split before n [] h = refl
    ink-re_split before (suc n) (c ∷ cs) h = ink-re_split c n cs h.1 ∙ sym (ink-space c cs h.0)
    ink-re_split before zero (c ∷ cs) h =
        ink-cut (sep before (c ∷ cs)) c cs (λ n. ink-re_split c n cs) (blank before (c ∷ cs))
