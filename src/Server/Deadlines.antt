-- ===== src/Server/Deadlines.antt =====
-- server/mod.rs: the deadlines of the clients that wait, under the steps of the event loop.
use redrum_db.Base.{ℕ, Bytes}
use redrum_db.Base.Result.{Result, ok, err, panic}
use redrum_db.Server.Connection.{Connection, Slab}
use redrum_db.Server.Request.{Shared}
use redrum_db.Server.Event.{Event, Fate}
use redrum_db.Server.Ticks.{IsOrdered}
use redrum_db.Server.Timed.{IsTimed, AllTimed, Leaves}

module _ (slab : Slab) where
  open slab use {Conns, get, remove, insert, next_key, next_key-remove}

  -- The connection with the key `i` is out of the slab, where the next one gets its key.
  abbrev Reads : ℕ → Result Bytes (Shared × Conns × Connection × Fate) → Type 0
  Reads i (ok (s, conns, conn, fate)) = Leaves slab s.timeouts i conns × IsTimed s.timeouts i conn
  Reads i (err e) = Unit
  Reads i panic = Unit

  abbrev Keeps : Result Bytes (Shared × Conns) → Type 0
  Keeps (ok (s, conns)) = IsOrdered s.timeouts × AllTimed slab s.timeouts conns
  Keeps (err e) = Unit
  Keeps panic = Unit
