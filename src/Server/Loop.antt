-- ===== src/Server/Loop.antt =====
-- server/mod.rs: the steps that `run` makes, in whichever order the poll gives the events.
use redrum_db.Base.{ℕ, ◌-◌, ◌≡◌, Option, none, some, [], ◌∷◌, leb, if◌then◌else◌}
use redrum_db.Base.Result.{ok}
use redrum_db.Commands.Context.{Env}
use redrum_db.Server.Connection.{Slab}
use redrum_db.Server.Blocking.{Timeouts}
use redrum_db.Server.Request.{Shared, TimeoutParser}
use redrum_db.Server.Event.{Event, on_event, on_accept, clean_up}

-- What `run` starts with.
abbrev pub started : Shared
started = record { db = []; expiries = []; queues = []; timeouts = []; pubsub = []; actions = [] }

-- How long the poll may wait: until the earliest of the times, or without an end where there is none.
unfoldable pub poll_timeout : ℕ → Timeouts → Option ℕ
poll_timeout now [] = none
poll_timeout now ((t, token) ∷ q) = some (if leb t now then 0 else t - now)

-- A client is accepted, the clean-ups are run, or an event is handled without a panic.
pub data Step (slab : Slab) (timeouts : TimeoutParser) (w v : Shared × slab.Conns) : Type 0 where
  accepts : v ≡ (w.0, on_accept slab w.1) → Step slab timeouts w v
  cleans : (now now' : ℕ) → v ≡ clean_up slab now now' w.0 w.1 → Step slab timeouts w v
  handles :
      (env : Env) (event : Event)
      → on_event slab timeouts env event w.0 w.1 ≡ ok v
      → Step slab timeouts w v

pub data Reach (slab : Slab) (timeouts : TimeoutParser) (w : Shared × slab.Conns)
    : Shared × slab.Conns → Type 0 where
  here : Reach slab timeouts w w
  next :
      {u v : Shared × slab.Conns}
      → Reach slab timeouts w u
      → Step slab timeouts u v
      → Reach slab timeouts w v
