-- ===== src/Stream/Find.antt =====
-- data_structures/stream.rs: `find_entry_in_listpack`.
use redrum_db.Base.{
  ℕ, zero, suc, ◌==◌, ◌&&◌, Option, none, some, List, [], ◌∷◌, Bytes, length, if◌then◌else◌, ◌>>=◌,
}
use redrum_db.Base.Int.{wrap}
use redrum_db.Base.Words.{u64_mod, from_be_bytes}
use redrum_db.Listpack.{ListpackIter, Listpack, iter, next}
use redrum_db.Listpack.Codec.{Value, string, int}
use redrum_db.Stream.Id.{StreamId}

-- `u64::from_be_bytes(b.try_into().ok()?)`: only eight bytes convert.
unfoldable pub be_u64 : Bytes → Option ℕ
be_u64 b = if length b == 8 then some (from_be_bytes b) else none

unfoldable pub as_string : Value → Option Bytes
as_string (string b) = some b
as_string (int z) = none

-- `num_fields`
unfoldable pub as_count : Value → Option ℕ
as_count (int z) = some (wrap u64_mod z)
as_count (string b) = be_u64 b

-- The inner loop: so many times a field and its value.
unfoldable pub read_fields : ℕ → ListpackIter → Option (List Value × ListpackIter)
unfolding next
read_fields zero it = some ([], it)
read_fields (suc n) it = do
  (f, it1) ← next it
  (v, it2) ← next it1
  (fields, it3) ← read_fields n it2
  some (f ∷ v ∷ fields, it3)

pub record FoundEntry : Type 0 where
  pub ms : ℕ
  pub seq : ℕ
  pub fields : List Value

-- One round of the outer loop behind the first `next`: `none` where the function returns `None`.
unfoldable pub read_entry : Bytes → ListpackIter → Option (FoundEntry × ListpackIter)
read_entry ms_bytes it = do
  (seq_value, it1) ← next it
  seq_bytes ← as_string seq_value
  ms ← be_u64 ms_bytes
  seq ← be_u64 seq_bytes
  (count_value, it2) ← next it1
  num_fields ← as_count count_value
  (fields, it3) ← read_fields num_fields it2
  some (record { ms = ms; seq = seq; fields = fields }, it3)

-- The outer loop, on fuel; the outer `none` means that the fuel ran out.
unfoldable pub find_loop : ℕ → ListpackIter → StreamId → Option (Option (List Value))
unfolding read_entry
find_loop zero it target = none
find_loop (suc fuel) it target = elim (next it) [
  | none ↦ some none
  | some (int z, it') ↦ some none
  | some (string ms_bytes, it') ↦ elim (read_entry ms_bytes it') [
    | none ↦ some none
    | some (e, it'') ↦
        let rest = find_loop fuel it'' target in
        if e.ms == target.ms && e.seq == target.seq then some (some e.fields) else rest
  ]
]

-- The fuel is the number of bytes and one.
unfoldable pub find_entry_in_listpack : Listpack → StreamId → Option (Option (List Value))
unfolding find_loop
find_entry_in_listpack lp target = find_loop (suc (length lp.bytes)) (iter lp) target
