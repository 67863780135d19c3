-- ===== src/Parser/Isize.antt =====
-- commands/handlers/lists.rs: `str::parse::<isize>`, digits that may have a sign.
use redrum_db.Base.{
  ℕ, zero, suc, ◌^◌, ◌>>=◌, Option, none, some, [], ◌∷◌, Bytes, leb, ltb, ◌==◌, if◌then◌else◌,
}
use redrum_db.Base.Int.{ℤ, pos, negsuc}
use redrum_db.Parser.Usize.{parse_unsigned}

-- Minus the number.
unfoldable pub opposite : ℕ → ℤ
opposite zero = pos 0
opposite (suc n) = negsuc n

unfoldable pub parse_isize : Bytes → Option ℤ
unfolding parse_unsigned opposite
parse_isize [] = none
parse_isize (c ∷ rest) =
    if c == b'-'
    then (do n ← parse_unsigned rest; if leb n (2 ^ 63) then some (opposite n) else none)
    else (do
      n ← if c == b'+' then parse_unsigned rest else parse_unsigned (c ∷ rest)
      if ltb n (2 ^ 63) then some (pos n) else none)
