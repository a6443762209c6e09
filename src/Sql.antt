-- ===== src/Sql.antt =====
-- storage/sql_backend.py: how a statement for SQLite becomes one for psycopg (translate), how a
-- script is cut into statements (split_script), and the cursor. \w and \s are those of a CharClass,
-- and `same` says which letters re.IGNORECASE takes for one.
pub mod Reading
pub mod Placeholders
pub mod Scripts
mod Tests
use neuron_kg.Prelude.{
  ℕ, zero, suc, ◌+◌, String, Bool, true, false, ◌&&◌, ◌||◌, not, Option, none, some, List, [], ◌∷◌,
  ◌++◌, length, take, eqb, ltb, if◌then◌else◌,
}
use neuron_kg.Chars.{Chars, codes, CharClass, is_empty, strip}
use neuron_kg.Chars.Regex.{Regex, nullable, derive, done, one, alt, seq, star, plus, maybe}

abbrev pub drop {ℓ} : {A : Type ℓ} → ℕ → List A → List A
drop zero xs = xs
drop (suc n) [] = []
drop (suc n) (x ∷ xs) = drop n xs

module _ (k : CharClass) (same : ℕ → ℕ → Bool) where
  abbrev pub is_word_start : Chars → Bool
  is_word_start [] = false
  is_word_start (c ∷ _) = k.is_word c

  -- \b between the character before and the text
  abbrev pub at_edge : Bool → Chars → Bool
  at_edge before t = if before then not (is_word_start t) else is_word_start t

  abbrev pub or_else : Option ℕ → Option ℕ → Option ℕ
  or_else none o = o
  or_else (some n) o = some n

  abbrev pub longer : Option ℕ → Option ℕ
  longer none = none
  longer (some n) = some (suc n)

  -- The longest match of r followed by \b at the front of the text; it is what the greedy patterns
  -- below match.
  unfoldable pub longest : Regex → Bool → Chars → Option ℕ
  longest r before [] = if nullable r && before then some 0 else none
  longest r before (c ∷ cs) =
      or_else (longer (longest (derive c r) (k.is_word c) cs))
        (if nullable r && at_edge before (c ∷ cs) then some 0 else none)

  -- re.sub(\b r \b, value, text), r no match of the empty text
  unfoldable pub substitute : Regex → Chars → Bool → ℕ → Chars → Chars
  unfolding longest
  substitute r value before n [] = []
  substitute r value before (suc n) (c ∷ cs) = substitute r value (k.is_word c) n cs
  substitute r value before zero (c ∷ cs) =
      let keep = c ∷ substitute r value (k.is_word c) zero cs in
      if not (at_edge before (c ∷ cs)) then keep else elim (longest r before (c ∷ cs)) [
        | none ↦ keep
        | some zero ↦ keep
        | some (suc n) ↦ value ++ substitute r value (k.is_word c) n cs
      ]

  abbrev pub keyword : Chars → Regex
  keyword [] = done
  keyword (c ∷ cs) = seq (one (same c)) (keyword cs)

  abbrev pub word : String → Regex
  word w = keyword (codes w)

  abbrev pub spaces : Regex
  spaces = plus (one k.is_space)

  abbrev pub primary_key : Regex
  primary_key = seq (word "INTEGER") (
      seq spaces (
        seq (word "PRIMARY")
          (seq spaces (seq (word "KEY") (maybe (seq spaces (word "AUTOINCREMENT")))))))

  -- _DDL_START
  abbrev pub ddl_start : Regex
  ddl_start = seq (star (one k.is_space)) (
      alt (seq (word "CREATE") (seq spaces (word "TABLE")))
        (seq (word "ALTER") (seq spaces (word "TABLE"))))

  unfoldable pub is_ddl : Chars → Bool
  unfolding longest
  is_ddl sql = elim (longest ddl_start false sql) [ none ↦ false | some _ ↦ true ]

  -- The substitutions of _translate_ddl
  abbrev pub ddl_word : Regex → String → Chars → Chars
  ddl_word r value sql = substitute r (codes value) false zero sql

  unfoldable pub translate_ddl : Chars → Chars
  unfolding substitute
  translate_ddl sql = ddl_word (word "BLOB") "BYTEA" (
      ddl_word (word "REAL") "DOUBLE PRECISION" (
        ddl_word (word "INTEGER") "BIGINT"
          (ddl_word (word "AUTOINCREMENT") "" (ddl_word primary_key "BIGSERIAL PRIMARY KEY" sql))))

abbrev pub is_quote : ℕ → Bool
is_quote c = eqb c b'\'' || eqb c b'"'

abbrev pub bump : ℕ → ℕ → ℕ
bump n zero = 0
bump n (suc m) = n + suc m

-- (?:[^q]|qq)*q from here on: how many characters it takes, 0 for no match. Where the rest of the
-- text after qq has no match, the match ends at the first of the two.
unfoldable pub closing : ℕ → Chars → ℕ
closing q [] = 0
closing q (c ∷ []) = if eqb c q then 1 else 0
closing q (c ∷ d ∷ cs) =
    let later = bump 1 (closing q (d ∷ cs)) in
    let pair = closing q cs in
    if not (eqb c q) then later else if eqb d q && ltb 0 pair then 2 + pair else 1

-- The characters of one match of _STRING_OR_PLACEHOLDER, as `replace` gives them back.
abbrev pub in_literal : Bool → ℕ → Chars
in_literal has_params c = if has_params && eqb c b'%' then b'%' ∷ b'%' ∷ [] else c ∷ []

abbrev pub in_code : Bool → ℕ → Chars
in_code has_params c =
    if eqb c b'?'
    then b'%' ∷ b's' ∷ []
    else if eqb c b'%' && has_params
    then b'%' ∷ b'%' ∷ []
    else c ∷ []

-- _STRING_OR_PLACEHOLDER.sub(replace, sql); the count says how much of a literal is left.
unfoldable pub placeholders : Bool → ℕ → Chars → Chars
unfolding closing
placeholders has_params n [] = []
placeholders has_params (suc n) (c ∷ cs) = in_literal has_params c ++ placeholders has_params n cs
placeholders has_params zero (c ∷ cs) =
    in_code has_params c ++ placeholders has_params (if is_quote c then closing c cs else 0) cs

unfoldable pub translate : CharClass → (ℕ → ℕ → Bool) → Chars → Bool → Chars
unfolding is_ddl translate_ddl placeholders
translate k same sql has_params =
    placeholders has_params 0 (if is_ddl k same sql then translate_ddl k same sql else sql)

-- The loop of split_script: the quote that is open, and the statement at hand.
abbrev pub statement : CharClass → Chars → List Chars → List Chars
statement k current rest = if is_empty (strip k current) then rest else strip k current ∷ rest

unfoldable pub split_from : CharClass → Option ℕ → Chars → Chars → List Chars
split_from k quote current [] = statement k current []
split_from k (some q) current (c ∷ cs) =
    split_from k (if eqb c q then none else some q) (current ++ c ∷ []) cs
split_from k none current (c ∷ cs) =
    let opened = split_from k (some c) (current ++ c ∷ []) cs in
    let ended = statement k current (split_from k none [] cs) in
    let more = split_from k none (current ++ c ∷ []) cs in
    if is_quote c then opened else if eqb c b';' then ended else more

unfoldable pub split_script : CharClass → Chars → List Chars
unfolding split_from
split_script k script = split_from k none [] script

-- PgCursor
pub record PgCursor {ℓ} (Row : Type ℓ) : Type ℓ where
  pub rows : List Row
  pub pos : ℕ

module _ {ℓ} {Row : Type ℓ} where
  abbrev pub get_elem? : List Row → ℕ → Option Row
  get_elem? [] i = none
  get_elem? (x ∷ xs) zero = some x
  get_elem? (x ∷ xs) (suc i) = get_elem? xs i

  abbrev pub stepped : PgCursor Row → Option Row → PgCursor Row × Option Row
  stepped c none = (c, none)
  stepped c (some r) = (record c { pos = c.pos + 1 }, some r)

  unfoldable pub fetchone : PgCursor Row → PgCursor Row × Option Row
  fetchone c = stepped c (get_elem? c.rows c.pos)

  unfoldable pub fetchall : PgCursor Row → PgCursor Row × List Row
  fetchall c = (record c { pos = length c.rows }, drop c.pos c.rows)

  unfoldable pub fetchmany : ℕ → PgCursor Row → PgCursor Row × List Row
  fetchmany size c =
      let rows = take size (drop c.pos c.rows) in (record c { pos = c.pos + length rows }, rows)
