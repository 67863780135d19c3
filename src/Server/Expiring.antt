-- ===== src/Server/Expiring.antt =====
-- server/mod.rs: the heap of expiries under the steps of the event loop.
use redrum_db.Base.{
  ℕ, ◌-◌, ◌≡◌, true, ◌&&◌, Option, none, some, List, Bytes, if◌then◌else◌, Option-cases, if_intro,
  inl, inr,
}
use redrum_db.Base.Dict.{lookup}
use redrum_db.Base.Result.{Result, ok, err, panic}
use redrum_db.Database.{Entry}
use redrum_db.Parser.{Command, parse_command}
use redrum_db.Commands.Context.{Env}
use redrum_db.Commands.Tracked.{has}
use redrum_db.Server.Connection.{Connection, send, Slab}
use redrum_db.Server.Request.{Shared, TimeoutParser, Answer, answered, waits, Handled, dispatch}
use redrum_db.Server.Event.{
  Event, ReadResult, closed, received, not_ready, failed, WriteResult, Fate, kept, dropped, parked,
  finish_request, receive, read_part, write_part, wake_part, put_back, on_connection, on_event,
  clean_up, is_readable, append_read, clear_read, invalid_request,
}
use redrum_db.Server.Tracking.{cleanup_expired-AllTracked, wake_client-AllTracked}
use redrum_db.Server.Loop.{started, Step, accepts, cleans, handles, Reach, here, next}
use redrum_db.Server.Lasting.{IsLasting, Handles, dispatch-Handles}

module _ (slab : Slab) where
  open slab use {Conns, get, remove, insert}

  abbrev Reads : Result Bytes (Shared × Conns × Connection × Fate) → Type 0
  Reads (ok (s, conns, conn, fate)) = IsLasting s
  Reads (err e) = Unit
  Reads panic = Unit

  finish_request-Reads :
      (conns : Conns) (s : Shared) (conn : Connection) (answer : Answer)
      → IsLasting s
      → Reads (ok (finish_request slab conns s conn answer))
  unfolding finish_request
  finish_request-Reads conns s conn waits h = h
  finish_request-Reads conns s conn (answered key) h = h

  receive-Reads :
      (timeouts : TimeoutParser) (env : Env) (token : ℕ) (conns : Conns) (s : Shared)
      (conn : Connection)
      → IsLasting s
      → Reads (receive slab timeouts env token conns s conn)
  unfolding receive
  receive-Reads timeouts env token conns s conn h =
      parsed (parse_command env.checks conn.read_buffer)
    where
      handled :
          (r : Result Bytes Handled)
          → Handles r
          → Reads (elim r [
            | ok (s', conn', answer) ↦ ok (finish_request slab conns s' conn' answer)
            | err e ↦ panic
            | panic ↦ panic
          ])
      handled (ok (s', conn', answer)) k = finish_request-Reads conns s' conn' answer k
      handled (err e) k = tt
      handled panic k = tt

      parsed :
          (r : Result Bytes Command)
          → Reads (elim r [
            | err e ↦ ok (s, conns, clear_read (send invalid_request conn), kept none)
            | panic ↦ panic
            | ok command ↦ elim (dispatch timeouts env token command s conn) [
              | ok (s', conn', answer) ↦ ok (finish_request slab conns s' conn' answer)
              | err e ↦ panic
              | panic ↦ panic
            ]
          ])
      parsed (ok command) =
          handled (dispatch timeouts env token command s conn)
            (dispatch-Handles timeouts env token command s conn h)
      parsed (err e) = h
      parsed panic = tt

  read_part-Reads :
      (timeouts : TimeoutParser) (env : Env) (token : ℕ) (r : Option ReadResult) (conns : Conns)
      (s : Shared) (conn : Connection)
      → IsLasting s
      → Reads (read_part slab timeouts env token r conns s conn)
  unfolding read_part
  read_part-Reads timeouts env token none conns s conn h = h
  read_part-Reads timeouts env token (some closed) conns s conn h = h
  read_part-Reads timeouts env token (some not_ready) conns s conn h = h
  read_part-Reads timeouts env token (some failed) conns s conn h = h
  read_part-Reads timeouts env token (some (received bytes)) conns s conn h =
      receive-Reads timeouts env token conns s (append_read bytes conn) h

  abbrev Keeps : Result Bytes (Shared × Conns) → Type 0
  Keeps (ok (s, conns)) = IsLasting s
  Keeps (err e) = Unit
  Keeps panic = Unit

  wake_part-Keeps :
      (key : Option Bytes) (s : Shared) (conns : Conns)
      → IsLasting s
      → Keeps (ok (wake_part slab key s conns))
  unfolding wake_part
  wake_part-Keeps none s conns h = h
  wake_part-Keeps (some key) s conns h =
      wake_client-AllTracked slab key s.db s.expiries s.queues conns h

  put_back-Keeps :
      (writes : Option (List WriteResult)) (s : Shared) (conns : Conns) (conn : Connection)
      (fate : Fate)
      → IsLasting s
      → Keeps (ok (put_back slab writes (s, conns, conn, fate)))
  unfolding put_back
  put_back-Keeps writes s conns conn parked h = h
  put_back-Keeps writes s conns conn dropped h = h
  put_back-Keeps writes s conns conn (kept key) h =
      wake_part-Keeps key s
        (if (write_part writes conn).1 then conns else insert conns (write_part writes conn).0) h

  on_connection-Keeps :
      (timeouts : TimeoutParser) (env : Env) (event : Event) (conn : Connection) (s : Shared)
      (conns : Conns)
      → IsLasting s
      → Keeps (on_connection slab timeouts env event conn s conns)
  unfolding on_connection
  on_connection-Keeps timeouts env event conn s conns h =
      read (read_part slab timeouts env event.token event.readable conns s conn)
        (read_part-Reads timeouts env event.token event.readable conns s conn h)
    where
      read :
          (r : Result Bytes (Shared × Conns × Connection × Fate))
          → Reads r
          → Keeps (elim r [
            | ok after ↦ ok (put_back slab event.writable after)
            | err e ↦ panic
            | panic ↦ panic
          ])
      read (ok (s', conns', conn', fate)) k = put_back-Keeps event.writable s' conns' conn' fate k
      read (err e) k = tt
      read panic k = tt

  on_event-Keeps :
      (timeouts : TimeoutParser) (env : Env) (event : Event) (s : Shared) (conns : Conns)
      → IsLasting s
      → Keeps (on_event slab timeouts env event s conns)
  unfolding on_event
  on_event-Keeps timeouts env event s conns h = elim (Option-cases (get conns (event.token - 1))) [
    | inl e ↦ rw (e, on_event) h
    | inr (conn, e) ↦
        let out = remove conns (event.token - 1) in
        rw (e, on_event)
          (if_intro Keeps (is_readable slab event.readable && conn.blocked)
            (ok (s, insert out conn)) (on_connection slab timeouts env event conn s out) (λ _. h)
            (λ _. on_connection-Keeps timeouts env event conn s out h))
  ]

  Step-IsLasting :
      (timeouts : TimeoutParser) (w v : Shared × Conns)
      → Step slab timeouts w v
      → IsLasting w.0
      → IsLasting v.0
  unfolding clean_up
  Step-IsLasting timeouts (s, conns) v (accepts e) h = rw e h
  Step-IsLasting timeouts (s, conns) v (cleans now now' e) h =
      rw e (cleanup_expired-AllTracked now s.db s.expiries h)
  Step-IsLasting timeouts (s, conns) v (handles env event e) h =
      rw e at (on_event-Keeps timeouts env event s conns h)

  Reach-IsLasting :
      (timeouts : TimeoutParser) (w : Shared × Conns) {v : Shared × Conns}
      → IsLasting w.0
      → Reach slab timeouts w v
      → IsLasting v.0
  Reach-IsLasting timeouts w h here = h
  Reach-IsLasting timeouts w h (next {u} {v} r st) =
      Step-IsLasting timeouts u v st (Reach-IsLasting timeouts w h r)

  started-IsLasting : IsLasting started
  unfolding lookup
  started-IsLasting k = tt

  -- In every state that the event loop reaches from the one that it starts with, a key with an expiry has
  -- its expiry in the heap, whatever the events, their order and the
  -- results of the system calls are.
  pub Reach-has :
      (timeouts : TimeoutParser) (conns : Conns) {v : Shared × Conns} (k : Bytes) (e : Entry)
      (t : ℕ)
      → Reach slab timeouts (started, conns) v
      → lookup k v.0.db ≡ some e
      → e.expiry ≡ some t
      → has t k v.0.expiries ≡ true
  Reach-has timeouts conns k e t r found expires =
      (rw found at (Reach-IsLasting timeouts (started, conns) started-IsLasting r k)) t expires
