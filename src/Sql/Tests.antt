-- ===== src/Sql/Tests.antt =====
-- Statements and scripts in ASCII.
use neuron_kg.Prelude.{
  ℕ, ◌-◌, ◌≡◌, refl, Bool, true, false, ◌&&◌, ◌||◌, none, some, List, [], ◌∷◌, arith, All, leb, eqb,
  if◌then◌else◌,
}
use neuron_kg.Chars.{Chars, codes, CharClass, join, lstrip, rstrip, strip, strip_all}
use neuron_kg.Sql.{
  closing, placeholders, longest, substitute, is_ddl, translate_ddl, translate, split_from,
  split_script, PgCursor, fetchone, fetchall, fetchmany,
}
use neuron_kg.Sql.Placeholders.{pg_reads, is_closed, is_plain, translate-reads}
use neuron_kg.Sql.Reading.{code, text, param, sqlite_reads}
use neuron_kg.Sql.Scripts.{is_statement, split_script-join, Fetch, one, all, many, fetches}

abbrev letter : ℕ → Bool
letter c = leb b'a' c && leb c b'z' || leb b'A' c && leb c b'Z'

abbrev word : ℕ → Bool
word c = letter c || leb b'0' c && leb c b'9' || eqb c b'_'

abbrev space : ℕ → Bool
space c = leb 9 c && leb c 13 || eqb c b' '

classes_apart : (c : ℕ) → space c ≡ true → word c ≡ false
classes_apart c h = ground arith

abbrev ascii : CharClass
ascii = record {
  is_word = word;
  is_space = space;
  is_digit = λ c. leb b'0' c && leb c b'9';
  apart = classes_apart;
  newline_space = refl;
  blank_space = refl;
  tab_space = refl;
}

abbrev upper : ℕ → ℕ
upper c = if leb b'a' c && leb c b'z' then c - 32 else c

abbrev same : ℕ → ℕ → Bool
same c d = eqb (upper c) (upper d)

abbrev query : Chars
query = codes "SELECT '100%?' FROM t WHERE a LIKE ? AND b = 'it''s %'"

translates :
    translate ascii same query true
    ≡ codes "SELECT '100%%?' FROM t WHERE a LIKE %s AND b = 'it''s %%'"
unfolding translate is_ddl longest placeholders closing
translates = refl

no_params : translate ascii same (codes "SELECT a % 2 || '%'") false ≡ codes "SELECT a % 2 || '%'"
unfolding translate is_ddl longest placeholders closing
no_params = refl

unclosed : placeholders true 0 (codes "a 'b'' ?") ≡ codes "a 'b'' %s"
unfolding placeholders closing
unclosed = refl

ddl :
    translate ascii same
      (codes " create table t (id integer  primary key autoincrement, INTEGERS real, b BLOB)")
      false
    ≡ codes " create table t (id BIGSERIAL PRIMARY KEY, INTEGERS DOUBLE PRECISION, b BYTEA)"
unfolding translate is_ddl translate_ddl longest substitute placeholders closing
ddl = refl

query_reads : is_ddl ascii same query ≡ false
unfolding is_ddl longest
query_reads = refl

query_closed : is_closed none query ≡ true
unfolding is_closed
query_closed = refl

query_plain : is_plain none query ≡ true
unfolding is_plain
query_plain = refl

-- A ? in a comment is no parameter for SQLite, and becomes one for psycopg.
commented : translate ascii same (codes "a --?") true ≡ codes "a --%s"
unfolding translate is_ddl longest placeholders closing
commented = refl

comment_read : sqlite_reads code (codes "-?") ≡ text b'-' ∷ param ∷ []
unfolding sqlite_reads
comment_read = refl

comment_skipped : sqlite_reads code (codes "--?") ≡ text b'-' ∷ text b'-' ∷ text b'?' ∷ []
unfolding sqlite_reads
comment_skipped = refl

translate-reads_example :
    pg_reads (translate ascii same query true) ≡ some (sqlite_reads code query)
translate-reads_example = translate-reads ascii same query query_reads query_closed query_plain

abbrev script : List Chars
script = codes " INSERT INTO t VALUES(';')" ∷ codes "\n" ∷ codes "DELETE FROM t" ∷ []

script_statements : All (λ t. is_statement none t ≡ true) script
unfolding is_statement
script_statements = (refl, (refl, (refl, tt)))

split :
    split_script ascii (join (codes ";") script)
    ≡ codes "INSERT INTO t VALUES(';')" ∷ codes "DELETE FROM t" ∷ []
unfolding split_script split_from strip lstrip rstrip
split = refl

split_script-join_example : split_script ascii (join (codes ";") script) ≡ strip_all ascii script
split_script-join_example = split_script-join ascii script script_statements

abbrev cursor : PgCursor ℕ
cursor = record { rows = 4 ∷ 5 ∷ 6 ∷ 7 ∷ []; pos = 0 }

abbrev calls : List Fetch
calls = one ∷ many 2 ∷ all ∷ one ∷ []

reads_all : (fetches calls cursor).1 ≡ 4 ∷ 5 ∷ 6 ∷ 7 ∷ []
unfolding fetches fetchone fetchall fetchmany
reads_all = refl
