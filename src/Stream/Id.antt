-- ===== src/Stream/Id.antt =====
-- data_structures/stream.rs: `StreamID`, its order, its key bytes and `StreamID::parse`. `checks` says
-- whether overflow checks are compiled in; `now` is the wall clock in milliseconds.
use redrum_db.Base.{
  ℕ, suc, ◌+◌, ◌-◌, Bool, ◌&&◌, ◌||◌, Option, none, some, [], ◌∷◌, ◌++◌, Bytes, take, drop, ltb,
  leb, ◌==◌, if◌then◌else◌, bytes_eq,
}
use mathlib.Core.Option
use redrum_db.Base.Result.{Result, ok, err, ◌>>=◌, ok_or}
use redrum_db.Base.Words.{add_u64, mul_u64, to_be_bytes}
use redrum_db.Base.Text.{codes, line}

pub record StreamId : Type 0 where
  pub ms : ℕ
  pub seq : ℕ

-- The derived order: by `ms`, then by `seq`.
abbrev pub id_lt : StreamId → StreamId → Bool
id_lt a b = ltb a.ms b.ms || (a.ms == b.ms && ltb a.seq b.seq)

abbrev pub id_le : StreamId → StreamId → Bool
id_le a b = ltb a.ms b.ms || (a.ms == b.ms && leb a.seq b.seq)

unfoldable pub to_bytes : StreamId → Bytes
to_bytes id = to_be_bytes 8 id.ms ++ to_be_bytes 8 id.seq

abbrev pub top_item_error : Bytes
top_item_error =
    line "-ERR The ID specified in XADD is equal or smaller than the target stream top item"

abbrev pub integer_error : Bytes
integer_error = codes "-ERR invalid integer"

abbrev pub id_error : Bytes
id_error = codes "-ERR invalid stream id"

-- The index of the first byte `b`.
unfoldable pub position : ℕ → Bytes → Option ℕ
position b [] = none
position b (c ∷ rest) = if c == b then some 0 else Option.map suc (position b rest)

module _ (checks : Bool) where
  -- The loop of `parse_u64`.
  unfoldable pub digits_u64 : Bytes → ℕ → Result Bytes ℕ
  digits_u64 [] num = ok num
  digits_u64 (b ∷ rest) num =
      if leb b'0' b && leb b b'9'
      then (do n ← mul_u64 checks num 10; n' ← add_u64 checks n (b - b'0'); digits_u64 rest n')
      else err integer_error

  unfoldable pub parse_u64 : Bytes → Result Bytes ℕ
  unfolding digits_u64
  parse_u64 [] = err integer_error
  parse_u64 (b ∷ rest) = digits_u64 (b ∷ rest) 0

  -- The sequence number behind the dash, for the time `ms` before it.
  unfoldable pub parse_seq : ℕ → Bytes → StreamId → Result Bytes ℕ
  unfolding parse_u64
  parse_seq ms seq_part last_id =
      if bytes_eq seq_part (b'*' ∷ [])
      then (if ltb last_id.ms ms
          then ok 0
          else if ms == last_id.ms
          then add_u64 checks last_id.seq 1
          else err top_item_error)
      else parse_u64 seq_part

  unfoldable pub parse : ℕ → Bytes → StreamId → Result Bytes StreamId
  unfolding position parse_u64 parse_seq
  parse now input last_id =
      if bytes_eq input (b'*' ∷ [])
      then (do
        seq ← if last_id.ms == now then add_u64 checks last_id.seq 1 else ok 0
        ok (record { ms = now; seq = seq }))
      else (do
        dash ← ok_or (position b'-' input) id_error
        ms ← parse_u64 (take dash input)
        seq ← parse_seq ms (drop (dash + 1) input) last_id
        ok (record { ms = ms; seq = seq }))
