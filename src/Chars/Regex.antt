-- ===== src/Chars/Regex.antt =====
-- re.fullmatch by derivatives: a pattern and the texts that it matches whole.
use neuron_kg.Prelude.{ℕ, zero, suc, Bool, true, false, ◌&&◌, ◌||◌, [], ◌∷◌, if◌then◌else◌}
use neuron_kg.Chars.{Chars}

pub data Regex : Type 0 where
  fail : Regex
  done : Regex
  one : (ℕ → Bool) → Regex
  alt : Regex → Regex → Regex
  seq : Regex → Regex → Regex
  star : Regex → Regex

-- The pattern matches the empty text.
abbrev pub nullable : Regex → Bool
nullable fail = false
nullable done = true
nullable (one p) = false
nullable (alt r s) = nullable r || nullable s
nullable (seq r s) = nullable r && nullable s
nullable (star r) = true

-- What is left to match after the character c.
abbrev pub derive : ℕ → Regex → Regex
derive c fail = fail
derive c done = fail
derive c (one p) = if p c then done else fail
derive c (alt r s) = alt (derive c r) (derive c s)
derive c (seq r s) =
    let rest = derive c s in
    if nullable r then alt (seq (derive c r) s) rest else seq (derive c r) s
derive c (star r) = seq (derive c r) (star r)

unfoldable pub fullmatch : Regex → Chars → Bool
fullmatch r [] = nullable r
fullmatch r (c ∷ cs) = fullmatch (derive c r) cs

-- r+, r?, and r at least once and at most n + 1 times
abbrev pub plus : Regex → Regex
plus r = seq r (star r)

abbrev pub maybe : Regex → Regex
maybe r = alt done r

abbrev pub up_to : ℕ → Regex → Regex
up_to zero r = done
up_to (suc n) r = maybe (seq r (up_to n r))
