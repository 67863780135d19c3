-- ===== src/Listpack/Codec.antt =====
-- data_structures/listpack.rs: the bytes of one entry. A byte is a number below 256. `x >> k` is
-- `x / 2 ^ k`, `x & (2 ^ k - 1)` on a word is `x % 2 ^ k`, and `|` of words that share no bit is `+`;
-- masks on single bytes are the bit operations.
use Prim.Native.Nat.{bit_and, bit_or}
use redrum_db.Base.{
  ℕ, zero, suc, ◌+◌, ◌-◌, ◌*◌, ◌/◌, ◌%◌, ◌^◌, [], ◌∷◌, ◌++◌, Bytes, length, get_elem?, slice, ltb,
  leb, ◌==◌, if◌then◌else◌, bytes_eq,
}
use redrum_db.Base.Result.{Result, ok, err, ◌>>=◌, ok_or}
use redrum_db.Base.Int.{ℤ, pos, negsuc, contains, wrap, signed}
use redrum_db.Base.Words.{checked_add, to_le_bytes, from_le_bytes}

-- `ListpackValueRef`
pub data Value : Type 0 where
  string : Bytes → Value
  int : ℤ → Value

pub data ListpackError : Type 0 where
  corrupted overflow : ListpackError

abbrev pub lp_eof : ℕ
lp_eof = 0xFF

abbrev pub u32_max : ℕ
u32_max = 2 ^ 32 - 1

unfoldable pub encode_string : Bytes → Result ListpackError Bytes
encode_string value =
    let len = length value in
    if ltb len 64
    then ok (bit_or 0x80 (len % 256) ∷ value)
    else if ltb len 4096
    then (let hi = bit_and (len / 2 ^ 8 % 256) 0x0F in ok (bit_or 0xE0 hi ∷ len % 256 ∷ value))
    else if ltb u32_max len
    then err overflow
    else ok (0xF0 ∷ (to_le_bytes 4 (len % 2 ^ 32) ++ value))

-- The pattern that the 13-bit form holds: `v`, or `v + (1 << 13)` where `v` is negative.
unfoldable pub pattern13 : ℤ → ℕ
pattern13 (pos n) = n
pattern13 (negsuc n) = 2 ^ 13 - 1 - n

unfoldable pub encode_int : ℤ → Bytes
unfolding pattern13
encode_int value =
    if contains (pos 0) (pos 127) value
    then wrap 256 value ∷ []
    else if contains (negsuc 4095) (pos 4095) value
    then (let v = pattern13 value in bit_or (v / 2 ^ 8 % 256) 0xC0 ∷ v % 256 ∷ [])
    else if contains (negsuc 32767) (pos 32767) value
    then 0xF1 ∷ to_le_bytes 2 (wrap (2 ^ 16) value)
    else if contains (negsuc 8388607) (pos 8388607) value
    then (let v = wrap (2 ^ 32) value in 0xF2 ∷ v % 256 ∷ v / 2 ^ 8 % 256 ∷ v / 2 ^ 16 % 256 ∷ [])
    else if contains (negsuc 2147483647) (pos 2147483647) value
    then 0xF3 ∷ to_le_bytes 4 (wrap (2 ^ 32) value)
    else 0xF4 ∷ to_le_bytes 8 (wrap (2 ^ 64) value)

unfoldable pub backlen_size : ℕ → ℕ
backlen_size len =
    if leb len 127
    then 1
    else if ltb len 16383
    then 2
    else if ltb len 2097151
    then 3
    else if ltb len 268435455
    then 4
    else 5

-- `((x & 127) as u8) | 128`
unfoldable pub more : ℕ → ℕ
more x = bit_or (x % 128) 128

-- The `match out.len()` of `encode_backlen`.
unfoldable pub backlen_bytes : ℕ → ℕ → Result ListpackError Bytes
unfolding more
backlen_bytes (suc zero) l = ok (l % 256 ∷ [])
backlen_bytes (suc (suc zero)) l = ok (l / 2 ^ 7 % 256 ∷ more l ∷ [])
backlen_bytes (suc (suc (suc zero))) l = ok (l / 2 ^ 14 % 256 ∷ more (l / 2 ^ 7) ∷ more l ∷ [])
backlen_bytes (suc (suc (suc (suc zero)))) l =
    ok (l / 2 ^ 21 % 256 ∷ more (l / 2 ^ 14) ∷ more (l / 2 ^ 7) ∷ more l ∷ [])
backlen_bytes (suc (suc (suc (suc (suc zero))))) l =
    ok (l / 2 ^ 28 % 256 ∷ more (l / 2 ^ 21) ∷ more (l / 2 ^ 14) ∷ more (l / 2 ^ 7) ∷ more l ∷ [])
backlen_bytes _ l = err corrupted

unfoldable pub encode_backlen : ℕ → Result ListpackError Bytes
unfolding backlen_size backlen_bytes
encode_backlen len =
    if ltb 0x0FFFFFFF len then err overflow else backlen_bytes (backlen_size len) len

-- The forms of an entry, in the order in which `decode_entry` tests for them.
pub data Form : Type 0 where
  int7 str6 int13 int16 int24 int32 int64 str12 str32 unknown : Form

unfoldable pub form_of : ℕ → Form
form_of first =
    if bit_and first 0x80 == 0
    then int7
    else if bit_and first 0xC0 == 0x80
    then str6
    else if bit_and first 0xE0 == 0xC0
    then int13
    else if first == 0xF1
    then int16
    else if first == 0xF2
    then int24
    else if first == 0xF3
    then int32
    else if first == 0xF4
    then int64
    else if bit_and first 0xF0 == 0xE0
    then str12
    else if first == 0xF0
    then str32
    else unknown

-- `if u & (1 << 12) != 0 { u |= !0x1FFF }` in a `u16`, for `u` below 2 ^ 13
unfoldable pub extend13 : ℕ → ℕ
extend13 u = if u / 2 ^ 12 % 2 == 1 then u + 0xE000 else u

-- `if u & (1 << 23) != 0 { u |= 0xFF00_0000 }` in a `u32`, for `u` below 2 ^ 24
unfoldable pub extend24 : ℕ → ℕ
extend24 u = if u / 2 ^ 23 % 2 == 1 then u + 0xFF000000 else u

-- `slen` bytes from `start` on, behind `hdr` bytes of header.
unfoldable pub read_string : Bytes → ℕ → ℕ → ℕ → Result ListpackError (Value × ℕ)
read_string bytes start hdr slen = do
  end ← ok_or (checked_add start slen) corrupted
  s ← ok_or (slice bytes start end) corrupted
  ok (string s, hdr + slen)

-- The branches of `decode_entry`: the value and the length of its encoding.
unfoldable pub decode_form : Form → Bytes → ℕ → ℕ → Result ListpackError (Value × ℕ)
unfolding extend13 extend24 read_string
decode_form int7 bytes offset first = ok (int (pos (bit_and first 0x7F)), 1)
decode_form str6 bytes offset first = read_string bytes (offset + 1) 1 (bit_and first 0x3F)
decode_form int13 bytes offset first = do
  b1 ← ok_or (get_elem? bytes (offset + 1)) corrupted
  ok (int (signed (2 ^ 15) (extend13 (bit_and first 0x1F * 2 ^ 8 + b1))), 2)
decode_form int16 bytes offset first = do
  s ← ok_or (slice bytes (offset + 1) (offset + 3)) corrupted
  ok (int (signed (2 ^ 15) (from_le_bytes s)), 3)
decode_form int24 bytes offset first = do
  s ← ok_or (slice bytes (offset + 1) (offset + 4)) corrupted
  ok (int (signed (2 ^ 31) (extend24 (from_le_bytes s))), 4)
decode_form int32 bytes offset first = do
  s ← ok_or (slice bytes (offset + 1) (offset + 5)) corrupted
  ok (int (signed (2 ^ 31) (from_le_bytes s)), 5)
decode_form int64 bytes offset first = do
  s ← ok_or (slice bytes (offset + 1) (offset + 9)) corrupted
  ok (int (signed (2 ^ 63) (from_le_bytes s)), 9)
decode_form str12 bytes offset first = do
  b1 ← ok_or (get_elem? bytes (offset + 1)) corrupted
  read_string bytes (offset + 2) 2 (bit_and first 0x0F * 2 ^ 8 + b1)
decode_form str32 bytes offset first = do
  h ← ok_or (slice bytes (offset + 1) (offset + 5)) corrupted
  read_string bytes (offset + 5) 5 (from_le_bytes h)
decode_form unknown bytes offset first = err corrupted

unfoldable pub decode_entry : Bytes → ℕ → Result ListpackError (Value × ℕ)
decode_entry bytes offset = do
  first ← ok_or (get_elem? bytes offset) corrupted
  (value, enc_len) ← decode_form (form_of first) bytes offset first
  let backlen_len = backlen_size enc_len
  let backlen_start = offset + enc_len
  backlen_end ← ok_or (checked_add backlen_start backlen_len) corrupted
  actual ← ok_or (slice bytes backlen_start backlen_end) corrupted
  expected ← encode_backlen enc_len
  if bytes_eq actual expected then ok (value, enc_len + backlen_len) else err corrupted
