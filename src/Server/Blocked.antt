-- ===== src/Server/Blocked.antt =====
-- server/mod.rs: events of a client that waits.
use redrum_db.Base.{ℕ, ◌≡◌, Bool, true, false, Option, none, some, List, [], ◌∷◌, ◌++◌, Bytes, ◌==◌}
use redrum_db.Server.Connection.{Connection, Slab}
use redrum_db.Server.Event.{Event, ReadResult, WriteResult, refused, written, busy, broken}

-- The second bytes are an end of the first.
abbrev pub IsEnd : Bytes → Bytes → Type 0
IsEnd bytes left = (sent : Bytes) × (bytes ≡ sent ++ left)

-- One of the writes fails.
abbrev pub any_broken : List WriteResult → Bool
any_broken [] = false
any_broken (refused ∷ results) = any_broken results
any_broken (written n ∷ results) = any_broken results
any_broken (busy ∷ results) = any_broken results
any_broken (broken ∷ results) = true

abbrev pub has_broken : Option (List WriteResult) → Bool
has_broken none = false
has_broken (some results) = any_broken results

-- The connection is what it was but for bytes at the front of its write buffer, which are written, and for
-- its registration for writing; or it is gone, where a write failed.
abbrev pub Sends : Option (List WriteResult) → Connection → Option Connection → Type 0
Sends writes conn none = has_broken writes ≡ true
Sends writes conn (some c) =
    IsEnd conn.write_buffer c.write_buffer
    × (c ≡ record conn { write_buffer = c.write_buffer; writable = c.writable })

-- Where the event is readable, the connection is what it was.
abbrev pub Stays : Option ReadResult → Connection → Option Connection → Type 0
Stays none conn o = Unit
Stays (some r) conn o = o ≡ some conn

module _ (slab : Slab) where
  open slab use {Conns, get, remove, insert, get-remove, get-insert, next_key-remove}

  -- The conclusion about an event of a client that waits.
  abbrev Passes : Option (List WriteResult) → ℕ → Connection → Conns → Conns → Type 0
  Passes writes i conn conns conns' =
      ((j : ℕ) → (j == i) ≡ false → get conns' j ≡ get conns j) × Sends writes conn (get conns' i)
