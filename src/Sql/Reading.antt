-- ===== src/Sql/Reading.antt =====
-- How SQLite reads the parameters of a statement for storage/sql_backend.py: strings and names in
-- quotes, names in [ ] and backticks, and comments have none.
use neuron_kg.Prelude.{ℕ, Bool, false, ◌&&◌, ◌||◌, List, [], ◌∷◌, eqb, leb, if◌then◌else◌}
use neuron_kg.Chars.{Chars}
use neuron_kg.Sql.{is_quote}

-- A character of a statement, the place of a parameter, or the start of one with a number or a name.
pub data Piece : Type 0 where
  text : ℕ → Piece
  param : Piece
  numbered : Piece
  named : ℕ → Piece

-- Where a character stands: in the code, within a quote that another character ends, in a comment
-- to the end of the line, at the * that opens a comment, in one, or at the / that ends it.
pub data Place : Type 0 where
  code : Place
  quoted : ℕ → Place
  line opening block ending : Place

abbrev pub starts : ℕ → Chars → Bool
starts c [] = false
starts c (d ∷ _) = eqb d c

abbrev pub starts_digit : Chars → Bool
starts_digit [] = false
starts_digit (d ∷ _) = leb b'0' d && leb d b'9'

-- The first character of a named parameter.
abbrev pub is_named : ℕ → Bool
is_named c = eqb c b':' || eqb c b'@' || eqb c b'$' || eqb c b'#'

-- Where the next character stands.
abbrev pub next : Place → ℕ → Chars → Place
next code c cs =
    if is_quote c || eqb c b'`'
    then quoted c
    else if eqb c b'['
    then quoted b']'
    else if eqb c b'-' && starts b'-' cs
    then line
    else if eqb c b'/' && starts b'*' cs
    then opening
    else code
next (quoted q) c cs = if eqb c q then code else quoted q
next line c cs = if eqb c 10 then code else line
next opening c cs = block
next block c cs = if eqb c b'*' && starts b'/' cs then ending else block
next ending c cs = code

abbrev pub piece_in : Place → ℕ → Chars → Piece
piece_in code c cs =
    if eqb c b'?'
    then (if starts_digit cs then numbered else param)
    else if is_named c
    then named c
    else text c
piece_in _ c cs = text c

unfoldable pub sqlite_reads : Place → Chars → List Piece
sqlite_reads m [] = []
sqlite_reads m (c ∷ cs) = piece_in m c cs ∷ sqlite_reads (next m c cs) cs
