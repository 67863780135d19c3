-- ===== src/Server/Reach.antt =====
-- server/mod.rs: what holds in every state that the event loop reaches.
use redrum_db.Base.{ℕ, ◌-◌, ◌≡◌, refl, ◌&&◌, none, Bytes, Option-cases, inl, inr, if_intro}
use redrum_db.Base.Result.{Result, ok, err, panic}
use redrum_db.Commands.Context.{Env}
use redrum_db.Server.Connection.{Connection, new, Slab}
use redrum_db.Server.Request.{Shared, TimeoutParser}
use redrum_db.Server.Event.{
  Event, Fate, read_part, put_back, on_connection, on_event, on_accept, clean_up, is_readable,
}
use redrum_db.Server.Flushing.{
  IsFlushable, Flushable, AllFlushable, insert-AllFlushable, remove-AllFlushable,
  cleanup_blocked-AllFlushable,
}
use redrum_db.Server.Steps.{Reads, read_part-Reads, put_back-AllFlushable}
use redrum_db.Server.Loop.{Step, accepts, cleans, handles, Reach, here, next}

module _ (slab : Slab) where
  open slab use {Conns, get, remove, insert}

  abbrev Keeps : Result Bytes (Shared × Conns) → Type 0
  Keeps (ok (s, conns)) = AllFlushable slab conns
  Keeps (err e) = Unit
  Keeps panic = Unit

  on_connection-Keeps :
      (timeouts : TimeoutParser) (env : Env) (event : Event) (conn : Connection) (s : Shared)
      (conns : Conns)
      → AllFlushable slab conns
      → IsFlushable conn
      → Keeps (on_connection slab timeouts env event conn s conns)
  unfolding on_connection
  on_connection-Keeps timeouts env event conn s conns all h =
      read (read_part slab timeouts env event.token event.readable conns s conn)
        (read_part-Reads slab timeouts env event.token event.readable conns s conn all h)
    where
      read :
          (r : Result Bytes (Shared × Conns × Connection × Fate))
          → Reads slab r
          → Keeps (elim r [
            | ok after ↦ ok (put_back slab event.writable after)
            | err e ↦ panic
            | panic ↦ panic
          ])
      read (ok (s', conns', conn', fate)) k =
          put_back-AllFlushable slab event.writable s' conns' conn' fate k.0 k.1
      read (err e) k = tt
      read panic k = tt

  on_event-Keeps :
      (timeouts : TimeoutParser) (env : Env) (event : Event) (s : Shared) (conns : Conns)
      → AllFlushable slab conns
      → Keeps (on_event slab timeouts env event s conns)
  unfolding on_event
  on_event-Keeps timeouts env event s conns all =
      elim (Option-cases (get conns (event.token - 1))) [
        | inl e ↦ rw (e, on_event) all
        | inr (conn, e) ↦
            let out = remove conns (event.token - 1) in
            let all' = remove-AllFlushable slab conns (event.token - 1) all in
            let h : IsFlushable conn = rw e at (all (event.token - 1)) in
            rw (e, on_event)
              (if_intro Keeps (is_readable slab event.readable && conn.blocked)
                (ok (s, insert out conn)) (on_connection slab timeouts env event conn s out)
                (λ _. insert-AllFlushable slab out conn all' h)
                (λ _. on_connection-Keeps timeouts env event conn s out all' h))
      ]

  Step-AllFlushable :
      (timeouts : TimeoutParser) (w v : Shared × Conns)
      → Step slab timeouts w v
      → AllFlushable slab w.1
      → AllFlushable slab v.1
  unfolding on_accept clean_up
  Step-AllFlushable timeouts (s, conns) v (accepts e) all =
      rw e (insert-AllFlushable slab conns new all refl)
  Step-AllFlushable timeouts (s, conns) v (cleans now now' e) all =
      rw e (cleanup_blocked-AllFlushable slab now' s.timeouts conns all)
  Step-AllFlushable timeouts (s, conns) v (handles env event e) all =
      rw e at (on_event-Keeps timeouts env event s conns all)

  -- In every state that the event loop reaches from one without connections, each connection with bytes to
  -- write is registered for writing, whatever the events, their order and the results of the system calls
  -- are.
  pub Reach-AllFlushable :
      (timeouts : TimeoutParser) (w : Shared × Conns) {v : Shared × Conns}
      → ((i : ℕ) → get w.1 i ≡ none)
      → Reach slab timeouts w v
      → (i : ℕ) → Flushable (get v.1 i)
  Reach-AllFlushable timeouts w empty here i = rw (empty i) tt
  Reach-AllFlushable timeouts w empty (next {u} {v} r st) i =
      Step-AllFlushable timeouts u v st (Reach-AllFlushable timeouts w empty r) i
