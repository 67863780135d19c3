-- ===== src/Listpack/Number.antt =====
-- data_structures/listpack.rs: `strict_parse_i64`.
pub mod Canonical
use redrum_db.Base.{
  ℕ, zero, suc, ◌+◌, ◌-◌, ◌^◌, Bool, true, false, ◌&&◌, ◌||◌, Option, none, some, [], ◌∷◌, Bytes,
  ltb, leb, ◌==◌, if◌then◌else◌, bytes_eq, ◌>>=◌,
}
use redrum_db.Base.Int.{ℤ, pos, negsuc}
use redrum_db.Base.Words.{checked_add, checked_mul}

abbrev pub i64_max : ℕ
i64_max = 2 ^ 63 - 1

unfoldable pub is_ascii_digit : ℕ → Bool
is_ascii_digit c = leb b'0' c && leb c b'9'

-- `-(val as i64)`
unfoldable pub negate : ℕ → ℤ
negate zero = pos 0
negate (suc n) = negsuc n

-- The `while` loop over the digits behind the first.
unfoldable pub scan : Bytes → ℕ → Option ℕ
unfolding is_ascii_digit
scan [] val = some val
scan (c ∷ rest) val =
    if is_ascii_digit c
    then (do v ← checked_mul val 10; v' ← checked_add v (c - b'0'); scan rest v')
    else none

-- The range test at the end.
unfoldable pub finish : Bool → ℕ → Option ℤ
unfolding negate
finish true val =
    if ltb (i64_max + 1) val
    then none
    else if val == i64_max + 1
    then some (negsuc i64_max)
    else some (negate val)
finish false val = if ltb i64_max val then none else some (pos val)

-- The digits from `idx` on.
unfoldable pub parse_digits : Bool → Bytes → Option ℤ
unfolding scan finish
parse_digits negative [] = none
parse_digits negative (c ∷ rest) =
    if ltb c b'1' || ltb b'9' c then none else do val ← scan rest (c - b'0'); finish negative val

unfoldable pub strict_parse_i64 : Bytes → Option ℤ
unfolding parse_digits
strict_parse_i64 [] = none
strict_parse_i64 (c ∷ rest) =
    if bytes_eq (c ∷ rest) (b'0' ∷ [])
    then some (pos 0)
    else if c == b'-'
    then parse_digits true rest
    else parse_digits false (c ∷ rest)
