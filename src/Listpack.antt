-- ===== src/Listpack.antt =====
-- data_structures/listpack.rs: the listpack, one vector of bytes with a header of six bytes, the
-- entries and an end mark. `&mut self` operations return the new listpack.
pub mod Codec
pub mod Number
pub mod Forms
pub mod RoundTrip
pub mod Entry
pub mod Represents
pub mod Append
pub mod Laws
pub mod Cursor
pub mod Built
mod Tests
use redrum_db.Base.{
  ℕ, zero, suc, ◌+◌, ◌-◌, ◌%◌, ◌^◌, Bool, Option, none, some, List, [], ◌∷◌, ◌++◌, Bytes, length,
  get_elem?, ltb, ◌==◌, if◌then◌else◌, take, drop,
}
use redrum_db.Base.Result.{Result, ok, err, panic, ◌>>=◌, ok_or}
use redrum_db.Base.Int.{ℤ}
use redrum_db.Base.Words.{checked_add, to_le_bytes, from_le_bytes}
use mathlib.Core.Option
use Codec.{
  Value, ListpackError, overflow, lp_eof, u32_max, encode_string, encode_int, encode_backlen,
  decode_entry,
}
use Number.{strict_parse_i64}

abbrev pub lp_hdr_size : ℕ
lp_hdr_size = 6

abbrev pub lp_numele_unknown : ℕ
lp_numele_unknown = 2 ^ 16 - 1

-- Indexing and slicing of the header panic where the vector is too short.
unfoldable pub read_total_bytes {ℓ} : {E : Type ℓ} → Bytes → Result E ℕ
read_total_bytes (a ∷ b ∷ c ∷ d ∷ rest) = ok (from_le_bytes (a ∷ b ∷ c ∷ d ∷ []))
read_total_bytes _ = panic

unfoldable pub write_total_bytes {ℓ} : {E : Type ℓ} → Bytes → ℕ → Result E Bytes
write_total_bytes (a ∷ b ∷ c ∷ d ∷ rest) v = ok (to_le_bytes 4 v ++ rest)
write_total_bytes _ v = panic

unfoldable pub read_num_elements {ℓ} : {E : Type ℓ} → Bytes → Result E ℕ
read_num_elements (a ∷ b ∷ c ∷ d ∷ e ∷ f ∷ rest) = ok (from_le_bytes (e ∷ f ∷ []))
read_num_elements _ = panic

unfoldable pub write_num_elements {ℓ} : {E : Type ℓ} → Bytes → ℕ → Result E Bytes
write_num_elements (a ∷ b ∷ c ∷ d ∷ e ∷ f ∷ rest) v = ok (a ∷ b ∷ c ∷ d ∷ (to_le_bytes 2 v ++ rest))
write_num_elements _ v = panic

-- `data[i] = v`
unfoldable pub write_byte {ℓ} : {E : Type ℓ} → Bytes → ℕ → ℕ → Result E Bytes
write_byte [] i v = panic
write_byte (x ∷ xs) zero v = ok (v ∷ xs)
write_byte (x ∷ xs) (suc i) v = do r ← write_byte xs i v; ok (x ∷ r)

-- `Vec::pop`
unfoldable pub pop : Bytes → Bytes
pop [] = []
pop (x ∷ []) = []
pop (x ∷ y ∷ xs) = x ∷ pop (y ∷ xs)

pub record Listpack : Type 0 where
  pub bytes : Bytes

unfoldable pub new {ℓ} : {E : Type ℓ} → Result E Listpack
unfolding write_total_bytes write_num_elements write_byte
new = do
  let zeroes = 0 ∷ 0 ∷ 0 ∷ 0 ∷ 0 ∷ 0 ∷ 0 ∷ []
  d ← write_total_bytes zeroes (lp_hdr_size + 1)
  d' ← write_num_elements d 0
  d'' ← write_byte d' lp_hdr_size lp_eof
  ok (record { bytes = d'' })

-- The last `if` of `push_encoded_entry`: the count of elements stops at "unknown".
unfoldable pub bump_num_elements {ℓ} : {E : Type ℓ} → Bytes → Result E Bytes
unfolding read_num_elements write_num_elements
bump_num_elements d = do
  n ← read_num_elements d
  if n == lp_numele_unknown
      then ok d
      else if n == lp_numele_unknown - 1
      then write_num_elements d lp_numele_unknown
      else write_num_elements d (n + 1)

unfoldable pub push_encoded_entry : Listpack → Bytes → Result ListpackError Listpack
push_encoded_entry lp encoded = do
  backlen ← encode_backlen (length encoded)
  additional ← ok_or (checked_add (length encoded) (length backlen)) overflow
  let old_len = length lp.bytes
  new_len ← ok_or (checked_add old_len additional) overflow
  if ltb u32_max new_len then err overflow else do
    let d = pop lp.bytes ++ (encoded ++ (backlen ++ (lp_eof ∷ [])))
    d' ← write_total_bytes d (new_len % 2 ^ 32)
    d'' ← bump_num_elements d'
    ok (record { bytes = d'' })

unfoldable pub append_string : Listpack → Bytes → Result ListpackError Listpack
append_string lp value = do encoded ← encode_string value; push_encoded_entry lp encoded

unfoldable pub append_int : Listpack → ℤ → Result ListpackError Listpack
append_int lp value = push_encoded_entry lp (encode_int value)

unfoldable pub append : Listpack → Bytes → Result ListpackError Listpack
unfolding append_string append_int
append lp value = elim (strict_parse_i64 value) [
  | some v ↦ append_int lp v
  | none ↦ append_string lp value
]

pub record ListpackIter : Type 0 where
  pub bytes : Bytes
  pub offset : ℕ

abbrev pub iter : Listpack → ListpackIter
iter lp = record { bytes = lp.bytes; offset = lp_hdr_size }

-- The entry at the offset, if there is one that decodes: the value and the iterator behind it. On
-- `None` the iterator stays as it is.
unfoldable pub next : ListpackIter → Option (Value × ListpackIter)
next it = elim (get_elem? it.bytes it.offset) [
  | none ↦ none
  | some b ↦ if b == lp_eof then none else elim (decode_entry it.bytes it.offset) [
    | ok (value, entry_len) ↦ some (value, record it { offset = it.offset + entry_len })
    | err e ↦ none
    | panic ↦ none
  ]
]

-- `Iterator::nth`
unfoldable pub nth : ℕ → ListpackIter → Option Value
unfolding next
nth zero it = Option.map (λ p. p.0) (next it)
nth (suc n) it = elim (next it) [ none ↦ none | some (v, it') ↦ nth n it' ]

-- All that is left, on fuel; `none` means that the fuel ran out.
unfoldable pub collect : ℕ → ListpackIter → Option (List Value)
unfolding next
collect zero it = none
collect (suc fuel) it = elim (next it) [
  | none ↦ some []
  | some (v, it') ↦ Option.map (λ vs. v ∷ vs) (collect fuel it')
]

unfoldable pub get : Listpack → ℕ → Option Value
unfolding nth
get lp index = nth index (iter lp)

-- `len`; the fuel of the count is the number of bytes.
unfoldable pub element_count : Listpack → Result ListpackError ℕ
unfolding read_num_elements collect
element_count lp = do
  n ← read_num_elements lp.bytes
  if n == lp_numele_unknown
      then (do vs ← ok_or (collect (length lp.bytes) (iter lp)) overflow; ok (length vs))
      else ok n

unfoldable pub is_empty : Listpack → Result ListpackError Bool
unfolding element_count
is_empty lp = do n ← element_count lp; ok (n == 0)

unfoldable pub total_bytes {ℓ} : {E : Type ℓ} → Listpack → Result E ℕ
unfolding read_total_bytes
total_bytes lp = read_total_bytes lp.bytes
