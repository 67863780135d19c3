-- ===== src/Database.antt =====
-- types.rs: the database, the expiries and the subscriptions. An `Instant` is its number of nanoseconds, and
-- a `Token` its number.
use redrum_db.Base.{ℕ, Bool, ◌&&◌, ◌||◌, false, true, Option, List, [], ◌∷◌, Bytes, ltb, ◌==◌}
use redrum_db.Base.Dict.{Dict}
use redrum_db.Stream.{Stream}

pub data Value : Type 0 where
  string : Bytes → Value
  list : List Bytes → Value
  stream : Stream → Value

pub record Entry : Type 0 where
  pub value : Value
  pub expiry : Option ℕ

-- `DB`
abbrev pub Db : Type 0
Db = Dict Entry

-- The order of byte strings.
unfoldable pub bytes_lt : Bytes → Bytes → Bool
bytes_lt a [] = false
bytes_lt [] (y ∷ ys) = true
bytes_lt (x ∷ xs) (y ∷ ys) = ltb x y || (x == y && bytes_lt xs ys)

-- `BinaryHeap<(Reverse<Instant>, Key)>` as the list in the order of `pop`.
abbrev pub Expiries : Type 0
Expiries = List (ℕ × Bytes)

-- The greater of two pairs comes out first: the earlier instant, and of equal instants the greater key.
unfoldable pub expires_before : ℕ × Bytes → ℕ × Bytes → Bool
unfolding bytes_lt
expires_before (t, k) (u, l) = ltb t u || (t == u && bytes_lt l k)

abbrev pub PubSub : Type 0
PubSub = Dict (List ℕ)
