-- ===== src/Sql/Placeholders.antt =====
-- A statement for SQLite and what psycopg reads in its translation.
use mathlib.Core.Bool.{false≢true}
use neuron_kg.Prelude.{
  ℕ, zero, suc, ◌+◌, ◌<◌, ◌≡◌, refl, sym, ap, ◌∙◌, subst, Bool, true, false, ◌&&◌, ◌||◌, not,
  Option, none, some, List, [], ◌∷◌, ◌++◌, arith, inl, inr, Bool-cases, eqb, ltb, if◌then◌else◌,
}
use neuron_kg.Chars.{Chars, CharClass}
use neuron_kg.Sql.Reading.{
  Piece, text, param, Place, code, quoted, starts, starts_digit, is_named, next, piece_in,
  sqlite_reads,
}
use neuron_kg.Sql.{is_quote, bump, closing, in_literal, in_code, placeholders, is_ddl, translate}

-- The quote that is open after a character.
abbrev pub toggle : Option ℕ → ℕ → Option ℕ
toggle none c = if is_quote c then some c else none
toggle (some q) c = if eqb c q then none else some q

-- ? is a parameter unless a quote is open.
abbrev pub piece_at : Option ℕ → ℕ → Piece
piece_at none c = if eqb c b'?' then param else text c
piece_at (some q) c = text c

pub quoted_reads : Option ℕ → Chars → List Piece
quoted_reads quote [] = []
quoted_reads quote (c ∷ cs) = piece_at quote c ∷ quoted_reads (toggle quote c) cs

-- Whether what starts here, outside quotes, is none of: a comment, a name in [ ] or backticks, a
-- parameter with a number or a name.
abbrev pub plain_at : ℕ → Chars → Bool
plain_at c cs = not (
    eqb c b'`'
    || eqb c b'['
    || is_named c
    || eqb c b'-' && starts b'-' cs
    || eqb c b'/' && starts b'*' cs
    || eqb c b'?' && starts_digit cs)

unfoldable pub is_plain : Option ℕ → Chars → Bool
is_plain quote [] = true
is_plain none (c ∷ cs) = plain_at c cs && is_plain (toggle none c) cs
is_plain (some q) (c ∷ cs) = is_plain (toggle (some q) c) cs

abbrev mode_of : Option ℕ → Place
mode_of none = code
mode_of (some q) = quoted q

next-plain : (c : ℕ) (cs : Chars) → plain_at c cs ≡ true → next code c cs ≡ mode_of (toggle none c)
next-plain c cs h = elim (Bool-cases (is_quote c)) [
  | inl e ↦ rw e refl
  | inr e ↦
      let a : eqb c b'`' ≡ false = ground arith in
      let b : eqb c b'[' ≡ false = ground arith in
      let d : (eqb c b'-' && starts b'-' cs) ≡ false = ground arith in
      let f : (eqb c b'/' && starts b'*' cs) ≡ false = ground arith in rw (e, a, b, d, f) refl
]

piece-plain : (c : ℕ) (cs : Chars) → plain_at c cs ≡ true → piece_in code c cs ≡ piece_at none c
piece-plain c cs h = elim (Bool-cases (eqb c b'?')) [
  | inl e ↦ let d : starts_digit cs ≡ false = ground arith in rw (e, d) refl
  | inr e ↦ let n : is_named c ≡ false = ground arith in rw (e, n) refl
]

next-quoted : (q c : ℕ) (cs : Chars) → next (quoted q) c cs ≡ mode_of (toggle (some q) c)
next-quoted q c cs = elim (Bool-cases (eqb c q)) [ inl e ↦ rw e refl | inr e ↦ rw e refl ]

-- In a plain statement quotes are all that SQLite minds.
plain-reads :
    (quote : Option ℕ) (cs : Chars)
    → is_plain quote cs ≡ true
    → sqlite_reads (mode_of quote) cs ≡ quoted_reads quote cs
unfolding is_plain sqlite_reads quoted_reads
plain-reads quote [] h = refl
plain-reads none (c ∷ cs) h =
    let here_plain : plain_at c cs ≡ true = ground arith in
    let rest : is_plain (toggle none c) cs ≡ true = ground arith in
    rw (next-plain c cs here_plain, piece-plain c cs here_plain)
      (ap (λ ps. piece_at none c ∷ ps) (plain-reads (toggle none c) cs rest))
plain-reads (some q) (c ∷ cs) h =
    rw (next-quoted q c cs) (ap (λ ps. text c ∷ ps) (plain-reads (toggle (some q) c) cs h))

-- Every quote is closed again.
unfoldable pub is_closed : Option ℕ → Chars → Bool
is_closed none [] = true
is_closed (some q) [] = false
is_closed quote (c ∷ cs) = is_closed (toggle quote c) cs

abbrev pub prepend : Piece → Option (List Piece) → Option (List Piece)
prepend p none = none
prepend p (some ps) = some (p ∷ ps)

abbrev pub directive : ℕ → Option (List Piece) → Option (List Piece)
directive d rest =
    if eqb d b'%' then prepend (text b'%') rest else if eqb d b's' then prepend param rest else none

-- A statement with parameters as psycopg reads it, literals too: %s is a parameter and %% is %. It
-- has other directives, which translate does not write; they count as errors here.
pub pg_reads : Chars → Option (List Piece)
pg_reads [] = some []
pg_reads (c ∷ []) = if eqb c b'%' then none else some (text c ∷ [])
pg_reads (c ∷ d ∷ cs) =
    let plain = prepend (text c) (pg_reads (d ∷ cs)) in
    let marked = directive d (pg_reads cs) in if eqb c b'%' then marked else plain

pg_reads-text :
    (c : ℕ) (cs : Chars) → eqb c b'%' ≡ false → pg_reads (c ∷ cs) ≡ prepend (text c) (pg_reads cs)
unfolding pg_reads
pg_reads-text c [] h = rw h refl
pg_reads-text c (d ∷ cs) h = rw h refl

pg_reads-in_literal :
    (c : ℕ) (cs : Chars) → pg_reads (in_literal true c ++ cs) ≡ prepend (text c) (pg_reads cs)
unfolding pg_reads
pg_reads-in_literal c cs = elim (Bool-cases (eqb c b'%')) [
  | inl u ↦ rw u (let e : b'%' ≡ c = ground arith in ap (λ z. prepend (text z) (pg_reads cs)) e)
  | inr u ↦ rw u (pg_reads-text c cs u)
]

pg_reads-in_code :
    (c : ℕ) (cs : Chars) → pg_reads (in_code true c ++ cs) ≡ prepend (piece_at none c) (pg_reads cs)
unfolding pg_reads
pg_reads-in_code c cs = elim (Bool-cases (eqb c b'?')) [
  | inl u ↦ rw u refl
  | inr u ↦ rw u (elim (Bool-cases (eqb c b'%')) [
    | inl v ↦ rw v (let e : b'%' ≡ c = ground arith in ap (λ z. prepend (text z) (pg_reads cs)) e)
    | inr v ↦ rw v (pg_reads-text c cs v)
  ])
]

closing-open :
    (q c d : ℕ) (cs : Chars)
    → eqb c q ≡ false
    → closing q (c ∷ d ∷ cs) ≡ bump 1 (closing q (d ∷ cs))
unfolding closing
closing-open q c d cs u = rw u refl

closing-pair :
    (q c d : ℕ) (cs : Chars)
    → eqb c q ≡ true
    → (eqb d q && ltb 0 (closing q cs)) ≡ true
    → closing q (c ∷ d ∷ cs) ≡ 2 + closing q cs
unfolding closing
closing-pair q c d cs u v = rw (u, v) refl

closing-end :
    (q c d : ℕ) (cs : Chars)
    → eqb c q ≡ true
    → (eqb d q && ltb 0 (closing q cs)) ≡ false
    → closing q (c ∷ d ∷ cs) ≡ 1
unfolding closing
closing-end q c d cs u v = rw (u, v) refl

bump-pos : (m : ℕ) → 0 < m → 0 < bump 1 m
bump-pos zero h = h
bump-pos (suc m) h = omega arith

bump-suc : (n m : ℕ) → suc n ≡ bump 1 m → n ≡ m
bump-suc n zero h = omega arith
bump-suc n (suc m) h = omega arith

-- A literal that is closed again is one that the pattern matches.
closing-pos : (q : ℕ) (cs : Chars) → is_closed (some q) cs ≡ true → 0 < closing q cs
unfolding is_closed closing
closing-pos q [] h = absurd (false≢true h)
closing-pos q (c ∷ []) h = ground arith
closing-pos q (c ∷ d ∷ cs) h = elim (Bool-cases (eqb c q)) [
  | inr u ↦
      subst (λ z. 0 < z) (sym (closing-open q c d cs u))
        (bump-pos (closing q (d ∷ cs)) (closing-pos q (d ∷ cs) (rw u at h)))
  | inl u ↦ elim (Bool-cases (eqb d q && ltb 0 (closing q cs))) [
    | inl v ↦ omega (arith, closing-pair q c d cs u v)
    | inr v ↦ omega (arith, closing-end q c d cs u v)
  ]
]

-- How much of a literal is left, by the quote that is open.
abbrev Left : Option ℕ → ℕ → Chars → Type 0
Left none n cs = n ≡ 0
Left (some q) n cs = (n ≡ closing q cs) × (is_quote q ≡ true)

Left-toggle :
    (c : ℕ) (cs : Chars) → Left (toggle none c) (if is_quote c then closing c cs else 0) cs
Left-toggle c cs = elim (Bool-cases (is_quote c)) [ inl u ↦ rw u (refl, u) | inr u ↦ rw u refl ]

abbrev Reads : ℕ → Option ℕ → Chars → Type 0
Reads n quote cs = pg_reads (placeholders true n cs) ≡ some (quoted_reads quote cs)

in_literal-Reads :
    (n q c : ℕ) (cs : Chars) → Reads n (toggle (some q) c) cs → Reads (suc n) (some q) (c ∷ cs)
unfolding placeholders quoted_reads
in_literal-Reads n q c cs h =
    pg_reads-in_literal c (placeholders true n cs) ∙ ap (prepend (text c)) h

quote-text : (q : ℕ) → is_quote q ≡ true → piece_at none q ≡ text q
quote-text q h = ground arith

-- The second quote of a pair.
pair-Reads :
    (n q d : ℕ) (cs : Chars)
    → eqb d q ≡ true
    → is_quote q ≡ true
    → Reads n (some q) cs
    → Reads (suc n) none (d ∷ cs)
unfolding placeholders quoted_reads
pair-Reads n q d cs u v h =
    let e : q ≡ d = ground arith in
    subst (λ z. Reads (suc n) none (z ∷ cs)) e
      (pg_reads-in_literal q (placeholders true n cs)
        ∙ (ap (prepend (text q)) h
            ∙ rw v (ap (λ z. some (z ∷ quoted_reads (some q) cs)) (sym (quote-text q v)))))

pair-closed :
    (q d : ℕ) (cs : Chars)
    → eqb d q ≡ true
    → is_quote q ≡ true
    → is_closed none (d ∷ cs) ≡ true
    → is_closed (some q) cs ≡ true
unfolding is_closed
pair-closed q d cs u v h =
    let e : d ≡ q = ground arith in
    let k = subst (λ z. is_closed (if is_quote z then some z else none) cs ≡ true) e h in rw v at k

and_left : (a b : Bool) → (a && b) ≡ true → a ≡ true
and_left a b h = ground arith

read_on :
    (n : ℕ) (quote : Option ℕ) (cs : Chars)
    → Left quote n cs
    → is_closed quote cs ≡ true
    → Reads n quote cs
unfolding placeholders is_closed quoted_reads closing pg_reads
read_on n none [] l h = refl
read_on n none (c ∷ cs) l h =
    let m = if is_quote c then closing c cs else 0 in
    rw l (
      pg_reads-in_code c (placeholders true m cs)
      ∙ ap (prepend (piece_at none c)) (read_on m (toggle none c) cs (Left-toggle c cs) h))
read_on n (some q) [] l h = absurd (false≢true h)
read_on zero (some q) (c ∷ cs) l h = let p = closing-pos q (c ∷ cs) h in absurd (omega (arith, l.0))
read_on (suc n) (some q) (c ∷ []) l h = in_literal-Reads n q c [] refl
read_on (suc n) (some q) (c ∷ d ∷ cs) l h = elim (Bool-cases (eqb c q)) [
  | inr u ↦
      let e = bump-suc n (closing q (d ∷ cs)) (l.0 ∙ closing-open q c d cs u) in
      in_literal-Reads n q c (d ∷ cs) (rw u (read_on n (some q) (d ∷ cs) (e, l.1) (rw u at h)))
  | inl u ↦ elim (Bool-cases (eqb d q && ltb 0 (closing q cs))) [
    | inl v ↦
        let e : n ≡ suc (closing q cs) = omega (arith, l.0, closing-pair q c d cs u v) in
        let w = and_left (eqb d q) (ltb 0 (closing q cs)) v in
        in_literal-Reads n q c (d ∷ cs) (
          rw (u, e)
            (pair-Reads (closing q cs) q d cs w l.1 (
              read_on (closing q cs) (some q) cs (refl, l.1)
                (pair-closed q d cs w l.1 (rw u at h)))))
    | inr v ↦
        let e : n ≡ 0 = omega (arith, l.0, closing-end q c d cs u v) in
        in_literal-Reads n q c (d ∷ cs) (rw u (read_on n none (d ∷ cs) e (rw u at h)))
  ]
]

-- A statement with its quotes closed that is no CREATE or ALTER TABLE, and that has outside quotes
-- no comment, no name in [ ] or backticks and no parameter but a bare ?, is read alike on both
-- sides: with parameters, psycopg reads the translation without an error as the characters and
-- the parameters that SQLite reads in the statement, each in its place. A ? within quotes is no
-- parameter, and a % is only a %.
pub translate-reads :
    (k : CharClass) (same : ℕ → ℕ → Bool) (sql : Chars)
    → is_ddl k same sql ≡ false
    → is_closed none sql ≡ true
    → is_plain none sql ≡ true
    → pg_reads (translate k same sql true) ≡ some (sqlite_reads code sql)
unfolding translate
translate-reads k same sql d h plain =
    rw d (read_on 0 none sql refl h ∙ ap some (sym (plain-reads none sql plain)))
