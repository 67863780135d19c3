-- ===== src/Parser.antt =====
-- commands/parser.rs: the parser of requests. A position in the buffer is its index; `checks` says
-- whether overflow checks are compiled in. `None` is the error `tt`.
pub mod Usize
pub mod Isize
pub mod Request
mod Tests
use redrum_db.Base.{
  ℕ, zero, suc, ◌+◌, ◌-◌, ◌*◌, ◌%◌, ◌^◌, Bool, true, false, ◌&&◌, Option, none, some, List, [], ◌∷◌,
  Bytes, length, get_elem?, drop, slice, ltb, leb, ◌==◌, if◌then◌else◌, ◌++◌,
}
use redrum_db.Base.Result.{Result, ok, err, panic, ◌>>=◌, ok_or, or_panic}
use redrum_db.Base.Words.{u64_mod, add_u64, sub_u64}
use redrum_db.Base.Text.{codes}
use Usize.{parse_usize}

-- The loop of `read_line`, on the bytes from `i` on.
unfoldable pub find_crlf : Bytes → ℕ → Option ℕ
find_crlf [] i = none
find_crlf (a ∷ []) i = none
find_crlf (a ∷ b ∷ rest) i =
    if a == b'\r' && b == b'\n' then some (i + 2) else find_crlf (b ∷ rest) (suc i)

-- On an empty buffer `buf.len() - 1` leaves the range of `usize`: it panics, or the loop does at its first
-- index.
unfoldable pub read_line : Bytes → ℕ → Result (Unit {0}) (ℕ × ℕ)
unfolding find_crlf
read_line [] start = panic
read_line (c ∷ rest) start = do
  end ← ok_or (find_crlf (drop start (c ∷ rest)) start) tt
  ok (start, end)

pub record Command : Type 0 where
  pub name : Bytes
  pub args : List Bytes

-- `isize::MAX`, the bytes that a vector may have; an argument is a slice of 16 bytes.
abbrev pub isize_max : ℕ
isize_max = 2 ^ 63 - 1

abbrev pub slice_size : ℕ
slice_size = 16

-- `Vec::with_capacity` of so many arguments panics where they are too many bytes.
unfoldable pub with_capacity {ℓ} : {E : Type ℓ} → ℕ → Result E (List Bytes)
with_capacity n = if ltb isize_max (n * slice_size) then panic else ok []

-- The length, in the line that begins at `start`, and the end of the line.
unfoldable pub read_length : Bytes → ℕ → Result (Unit {0}) (ℕ × ℕ)
read_length buf start = do
  (len_start, len_end) ← read_line buf start
  digits ← or_panic (slice buf len_start (len_end - 2))
  len ← ok_or (parse_usize digits) tt
  ok (len, len_end)

-- The error of a part of the request is replaced by "Invalid".
unfoldable pub or_invalid {ℓ} : {A : Type ℓ} → Result (Unit {0}) A → Result Bytes A
or_invalid (ok a) = ok a
or_invalid (err e) = err (codes "Invalid")
or_invalid panic = panic

module _ (checks : Bool) where
  -- So many bytes, with two behind them.
  unfoldable pub read_bytes : Bytes → ℕ → ℕ → Result (Unit {0}) (Bytes × ℕ)
  read_bytes buf data_start len = do
    data_end ← add_u64 checks data_start len
    new_pos ← add_u64 checks data_end 2
    bytes ← if ltb (length buf) new_pos then err tt else or_panic (slice buf data_start data_end)
    ok (bytes, new_pos)

  unfoldable pub parse_bulk_string : Bytes → ℕ → Result (Unit {0}) (Bytes × ℕ)
  parse_bulk_string buf start = do
    c ← ok_or (get_elem? buf start) tt
    (len, len_end) ← if c == b'$' then read_length buf (start + 1) else err tt
    read_bytes buf len_end len

  -- The loop over the arguments.
  unfoldable pub parse_args : ℕ → Bytes → ℕ → List Bytes → Result (Unit {0}) (List Bytes)
  parse_args zero buf pos args = ok args
  parse_args (suc n) buf pos args = do
    (arg, new_pos) ← parse_bulk_string buf pos
    parse_args n buf new_pos (args ++ (arg ∷ []))

  -- What follows the test of the first byte.
  unfoldable pub parse_request : Bytes → Result Bytes Command
  unfolding or_invalid
  parse_request buf = do
    (count, count_end) ← or_invalid (read_length buf 1)
    (name, pos) ← or_invalid (parse_bulk_string buf count_end)
    more ← sub_u64 checks count 1
    args ← with_capacity more
    args' ← or_invalid (parse_args more buf pos args)
    ok (record { name = name; args = args' })

  unfoldable pub parse_command : Bytes → Result Bytes Command
  unfolding parse_request
  parse_command [] = err (codes "No Command")
  parse_command (c ∷ rest) =
      if c == b'*' then parse_request (c ∷ rest) else err (codes "No Command")

-- `to_ascii_uppercase`
abbrev pub to_upper : ℕ → ℕ
to_upper c = if leb b'a' c && leb c b'z' then c - 32 else c

-- The bytes that `normalize_upper` returns. It panics where the buffer is too short.
unfoldable pub normalize_upper : Bytes → Bytes → Result (Unit {0}) Bytes
normalize_upper [] buf = ok []
normalize_upper (c ∷ cmd) [] = panic
normalize_upper (c ∷ cmd) (b ∷ buf) = do rest ← normalize_upper cmd buf; ok (to_upper c ∷ rest)
