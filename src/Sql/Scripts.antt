-- ===== src/Sql/Scripts.antt =====
-- A script of statements, and the cursor.
use mathlib.Core.Bool.{false≢true}
use mathlib.Core.List.{append_assoc, append-nil}
use neuron_kg.Prelude.{
  ℕ, zero, suc, ◌+◌, ◌≡◌, refl, sym, ap, ◌∙◌, Bool, true, false, ◌&&◌, not, Option, none, some,
  List, [], ◌∷◌, ◌++◌, arith, inl, inr, Bool-cases, Option-cases, All, length, take, eqb,
}
use neuron_kg.Chars.{Chars, CharClass, join, lstrip, rstrip, strip, strip_all}
use neuron_kg.Sql.{
  is_quote, statement, split_from, split_script, drop, PgCursor, get_elem?, fetchone, fetchall,
  fetchmany,
}
use neuron_kg.Sql.Placeholders.{toggle}

-- The quotes are closed, and no semicolon stands outside them.
unfoldable pub is_statement : Option ℕ → Chars → Bool
is_statement none [] = true
is_statement (some q) [] = false
is_statement none (c ∷ cs) = not (eqb c b';') && is_statement (toggle none c) cs
is_statement (some q) (c ∷ cs) = is_statement (toggle (some q) c) cs

module _ (k : CharClass) where
  grown : (current s : Chars) (c : ℕ) → (current ++ c ∷ []) ++ s ≡ current ++ c ∷ s
  grown current s c = append_assoc current (c ∷ []) s

  -- A step of the loop that ends no statement.
  split_from-step :
      (quote : Option ℕ) (current : Chars) (c : ℕ) (cs : Chars)
      → (quote ≡ none → eqb c b';' ≡ false)
      → split_from k quote current (c ∷ cs) ≡ split_from k (toggle quote c) (current ++ c ∷ []) cs
  unfolding split_from
  split_from-step (some q) current c cs h = refl
  split_from-step none current c cs h = elim (Bool-cases (is_quote c)) [
    | inl u ↦ rw u refl
    | inr u ↦ rw (u, h refl) refl
  ]

  no_end : (c : ℕ) (s : Chars) → is_statement none (c ∷ s) ≡ true → eqb c b';' ≡ false
  unfolding is_statement
  no_end c s h = ground arith

  no_semicolon :
      (quote : Option ℕ) (c : ℕ) (s : Chars)
      → is_statement quote (c ∷ s) ≡ true
      → quote ≡ none
      → eqb c b';' ≡ false
  no_semicolon none c s h e = no_end c s h
  no_semicolon (some q) c s h e = cc

  goes_on :
      (quote : Option ℕ) (c : ℕ) (s : Chars)
      → is_statement quote (c ∷ s) ≡ true
      → is_statement (toggle quote c) s ≡ true
  unfolding is_statement
  goes_on none c s h = rw (no_end c s h) at h
  goes_on (some q) c s h = h

  split_from-end :
      (quote : Option ℕ) (current s rest : Chars)
      → is_statement quote s ≡ true
      → split_from k quote current (s ++ b';' ∷ rest)
        ≡ statement k (current ++ s) (split_from k none [] rest)
  unfolding split_from is_statement
  split_from-end none current [] rest h =
      ap (λ z. statement k z (split_from k none [] rest)) (sym (append-nil current))
  split_from-end (some q) current [] rest h = absurd (false≢true h)
  split_from-end quote current (c ∷ s) rest h =
      split_from-step quote current c (s ++ b';' ∷ rest) (no_semicolon quote c s h)
      ∙ (split_from-end (toggle quote c) (current ++ c ∷ []) s rest (goes_on quote c s h)
          ∙ ap (λ z. statement k z (split_from k none [] rest)) (grown current s c))

  split_from-last :
      (quote : Option ℕ) (current s : Chars)
      → is_statement quote s ≡ true
      → split_from k quote current s ≡ statement k (current ++ s) []
  unfolding split_from is_statement
  split_from-last none current [] h = ap (λ z. statement k z []) (sym (append-nil current))
  split_from-last (some q) current [] h = absurd (false≢true h)
  split_from-last quote current (c ∷ s) h =
      split_from-step quote current c s (no_semicolon quote c s h)
      ∙ (split_from-last (toggle quote c) (current ++ c ∷ []) s (goes_on quote c s h)
          ∙ ap (λ z. statement k z []) (grown current s c))

  split_from-join :
      (s : Chars) (ss : List Chars)
      → All (λ t. is_statement none t ≡ true) (s ∷ ss)
      → split_from k none [] (join (b';' ∷ []) (s ∷ ss)) ≡ strip_all k (s ∷ ss)
  unfolding strip_all
  split_from-join s [] h = split_from-last none [] s h.0
  split_from-join s (t ∷ ss) h =
      split_from-end none [] s (join (b';' ∷ []) (t ∷ ss)) h.0
      ∙ ap (statement k s) (split_from-join t ss h.1)

nothing : (k : CharClass) → split_from k none [] [] ≡ strip_all k []
unfolding split_from strip_all strip lstrip rstrip
nothing k = refl

-- Joining statements by semicolons and splitting the script gives the statements back, stripped and
-- without the blank ones: where each has its quotes closed and no semicolon outside them.
pub split_script-join :
    (k : CharClass) (ss : List Chars)
    → All (λ t. is_statement none t ≡ true) ss
    → split_script k (join (b';' ∷ []) ss) ≡ strip_all k ss
unfolding split_script
split_script-join k [] h = nothing k
split_script-join k (s ∷ ss) h = split_from-join k s ss h

-- A call on a cursor.
pub data Fetch : Type 0 where
  one all : Fetch
  many : ℕ → Fetch

module _ {ℓ} {Row : Type ℓ} where
  abbrev pub listed : Option Row → List Row
  listed none = []
  listed (some r) = r ∷ []

  abbrev pub fetch : Fetch → PgCursor Row → PgCursor Row × List Row
  fetch one c = let (c', r) = fetchone c in (c', listed r)
  fetch all c = fetchall c
  fetch (many n) c = fetchmany n c

  unfoldable pub fetches : List Fetch → PgCursor Row → PgCursor Row × List Row
  fetches [] c = (c, [])
  fetches (f ∷ fs) c =
      let (c', rows) = fetch f c in let (c'', more) = fetches fs c' in (c'', rows ++ more)

  drop-nil : (n : ℕ) → drop {A = Row} n [] ≡ []
  drop-nil zero = refl
  drop-nil (suc n) = refl

  drop-add : (a b : ℕ) (xs : List Row) → drop (a + b) xs ≡ drop b (drop a xs)
  drop-add a b [] = drop-nil (a + b) ∙ (sym (drop-nil b) ∙ ap (drop b) (sym (drop-nil a)))
  drop-add zero b (x ∷ xs) = ap (λ z. drop z (x ∷ xs)) (omega arith)
  drop-add (suc a) b (x ∷ xs) =
      let e : suc a + b ≡ suc (a + b) = omega arith in ap (λ z. drop z (x ∷ xs)) e ∙ drop-add a b xs

  drop-length : (xs : List Row) → drop (length xs) xs ≡ []
  drop-length [] = refl
  drop-length (x ∷ xs) = drop-length xs

  take-drop : (n : ℕ) (xs : List Row) → take n xs ++ drop (length (take n xs)) xs ≡ xs
  take-drop zero xs = refl
  take-drop (suc n) [] = refl
  take-drop (suc n) (x ∷ xs) = ap (λ z. x ∷ z) (take-drop n xs)

  -- What the cursor has still to give.
  abbrev pub left : PgCursor Row → List Row
  left c = drop c.pos c.rows

  get_elem?-drop :
      (xs : List Row) (n : ℕ)
      → listed (get_elem? xs n) ++ drop (length (listed (get_elem? xs n))) (drop n xs) ≡ drop n xs
  get_elem?-drop [] zero = refl
  get_elem?-drop [] (suc n) = refl
  get_elem?-drop (x ∷ xs) zero = refl
  get_elem?-drop (x ∷ xs) (suc n) = get_elem?-drop xs n

  fetchone-left : (c : PgCursor Row) → listed (fetchone c).1 ++ left (fetchone c).0 ≡ left c
  unfolding fetchone
  fetchone-left c = elim (Option-cases (get_elem? c.rows c.pos)) [
    | inl u ↦ rw u refl
    | inr (r, u) ↦
        rw u (ap (λ z. r ∷ z) (drop-add c.pos 1 c.rows) ∙ rw u at (get_elem?-drop c.rows c.pos))
  ]

  fetch-left : (f : Fetch) (c : PgCursor Row) → (fetch f c).1 ++ left (fetch f c).0 ≡ left c
  unfolding fetchall fetchmany
  fetch-left one c = fetchone-left c
  fetch-left all c =
      ap (λ z. drop c.pos c.rows ++ z) (drop-length c.rows) ∙ append-nil (drop c.pos c.rows)
  fetch-left (many n) c =
      ap (λ z. take n (drop c.pos c.rows) ++ z)
        (drop-add c.pos (length (take n (drop c.pos c.rows))) c.rows)
      ∙ take-drop n (drop c.pos c.rows)

  -- Whatever the order of fetchone, fetchall and fetchmany, each row comes once and in its place:
  -- the rows that the calls return, and then those that are left, are the rows that were left
  -- before.
  pub fetches-left :
      (fs : List Fetch) (c : PgCursor Row) → (fetches fs c).1 ++ left (fetches fs c).0 ≡ left c
  unfolding fetches
  fetches-left [] c = refl
  fetches-left (f ∷ fs) c =
      append_assoc (fetch f c).1 (fetches fs (fetch f c).0).1 (left (fetches fs (fetch f c).0).0)
      ∙ (ap (λ z. (fetch f c).1 ++ z) (fetches-left fs (fetch f c).0) ∙ fetch-left f c)
