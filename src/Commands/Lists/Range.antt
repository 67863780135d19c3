-- ===== src/Commands/Lists/Range.antt =====
-- commands/handlers/lists.rs: the part of a list that `lrange` gives. The index arithmetic is on `isize`; it
-- stays in its range, since a list has fewer than 2 ^ 63 items.
use redrum_db.Base.{
  ℕ, zero, suc, ◌+◌, ◌-◌, ◌||◌, Option, none, some, List, ◌++◌, Bytes, length, take, drop, leb, ltb,
  if◌then◌else◌,
}
use redrum_db.Base.Result.{Result, ok, ◌>>=◌, or_panic}
use redrum_db.Base.Int.{ℤ, pos, negsuc}
use redrum_db.Parser.Isize.{parse_isize}
use redrum_db.Commands.Reply.{array_header, bulk_replies, empty_array}

-- `if index < 0 { len + index } else { index }`
unfoldable pub from_end : ℕ → ℤ → ℤ
from_end len (pos n) = pos n
from_end len (negsuc n) = if leb (suc n) len then pos (len - suc n) else negsuc (n - len)

-- `if start < 0 { start = 0; }`
unfoldable pub clamp_start : ℤ → ℕ
clamp_start (pos n) = n
clamp_start (negsuc n) = 0

-- `if stop >= len { stop = len - 1; }`
unfoldable pub clamp_stop : ℕ → ℤ → ℤ
clamp_stop zero (pos n) = negsuc 0
clamp_stop (suc len) (pos n) = if leb (suc len) n then pos len else pos n
clamp_stop len (negsuc n) = negsuc n

-- The first index and the number of items, or nothing where `lrange` answers with an empty array.
unfoldable pub range_of : ℕ → ℤ → ℤ → Option (ℕ × ℕ)
unfolding from_end clamp_start clamp_stop
range_of len start stop =
    let first = clamp_start (from_end len start) in
    elim (clamp_stop len (from_end len stop)) [
      | negsuc n ↦ none
      | pos last ↦ if ltb last first || leb len first then none else some (first, last - first + 1)
    ]

-- The items of the range.
abbrev pub range_reply : List Bytes → Option (ℕ × ℕ) → Bytes
range_reply xs none = empty_array
range_reply xs (some (first, count)) =
    array_header count ++ bulk_replies (take count (drop first xs))

-- The reply for the texts of the two indices.
unfoldable pub lrange_reply : List Bytes → Bytes → Bytes → Result Bytes Bytes
unfolding range_of
lrange_reply xs start_text stop_text = do
  start ← or_panic (parse_isize start_text)
  stop ← or_panic (parse_isize stop_text)
  ok (range_reply xs (range_of (length xs) start stop))
