-- ===== src/Server/Kept.antt =====
-- server/mod.rs: the queues of the clients that wait, under the steps of the event loop.
use redrum_db.Base.{
  ℕ, ◌-◌, ◌≡◌, refl, true, ◌&&◌, Option, none, some, List, Bytes, if◌then◌else◌, Option-cases,
  if_intro, inl, inr,
}
use redrum_db.Base.Dict.{lookup}
use redrum_db.Base.Result.{Result, ok, err, panic}
use redrum_db.Parser.{Command, parse_command}
use redrum_db.Commands.Context.{Env}
use redrum_db.Server.Connection.{Connection, new, send, Slab}
use redrum_db.Server.Blocking.{Queues}
use redrum_db.Server.Request.{
  Shared, TimeoutParser, Answer, answered, waits, Handled, queue_of, dispatch,
}
use redrum_db.Server.Event.{
  Event, ReadResult, closed, received, not_ready, failed, WriteResult, Fate, kept, dropped, parked,
  finish_request, receive, read_part, write_part, wake_part, put_back, on_connection, on_event,
  on_accept, clean_up, is_readable, append_read, clear_read, invalid_request,
}
use redrum_db.Server.Queued.{
  stands, IsQueued, idle-IsQueued, send-IsQueued, QueuedAt-grows, AllQueued, Leaves,
  insert-AllQueued, remove-AllQueued, found-IsQueued, run_actions-Leaves, cleanup_blocked-AllQueued,
}
use redrum_db.Server.Woken.{wake_client-AllQueued}
use redrum_db.Server.Waits.{Handles, dispatch-Handles}
use redrum_db.Server.Loop.{Step, accepts, cleans, handles, Reach, here, next}

write_part-IsQueued :
    (queues : Queues) (j : ℕ) (writes : Option (List WriteResult)) (conn : Connection)
    → IsQueued queues j conn
    → IsQueued queues j (write_part writes conn).0
unfolding write_part
write_part-IsQueued queues j none conn h = h
write_part-IsQueued queues j (some results) conn h = h

module _ (slab : Slab) where
  open slab use {Conns, get, remove, insert, next_key, next_key-remove}

  -- The connection with the key `i` is out of the slab, where the next one gets its key.
  abbrev Reads : ℕ → Result Bytes (Shared × Conns × Connection × Fate) → Type 0
  Reads i (ok (s, conns, conn, fate)) = Leaves slab s.queues i conns × IsQueued s.queues i conn
  Reads i (err e) = Unit
  Reads i panic = Unit

  finish_request-Reads :
      (i : ℕ) (conns : Conns) (s : Shared) (conn : Connection) (answer : Answer)
      → Leaves slab s.queues i conns
      → IsQueued s.queues i conn
      → Reads i (ok (finish_request slab conns s conn answer))
  unfolding finish_request
  finish_request-Reads i conns s conn waits all h = (all, h)
  finish_request-Reads i conns s conn (answered key) all h =
      (run_actions-Leaves slab s.queues i s.pubsub s.actions conns all, h)

  receive-Reads :
      (timeouts : TimeoutParser) (env : Env) (token : ℕ) (conns : Conns) (s : Shared)
      (conn : Connection)
      → Leaves slab s.queues (token - 1) conns
      → IsQueued s.queues (token - 1) conn
      → Reads (token - 1) (receive slab timeouts env token conns s conn)
  unfolding receive
  receive-Reads timeouts env token conns s conn all h =
      parsed (parse_command env.checks conn.read_buffer)
    where
      handled :
          (r : Result Bytes Handled)
          → Handles (token - 1) s.queues r
          → Reads (token - 1) (elim r [
            | ok (s', conn', answer) ↦ ok (finish_request slab conns s' conn' answer)
            | err e ↦ panic
            | panic ↦ panic
          ])
      handled (ok (s', conn', answer)) (k, grows) =
          finish_request-Reads (token - 1) conns s' conn' answer
            ((λ j. QueuedAt-grows s.queues s'.queues j (get conns j) (grows j) (all.0 j)), all.1) k
      handled (err e) k = tt
      handled panic k = tt

      parsed :
          (r : Result Bytes Command)
          → Reads (token - 1) (elim r [
            | err e ↦ ok (s, conns, clear_read (send invalid_request conn), kept none)
            | panic ↦ panic
            | ok command ↦ elim (dispatch timeouts env token command s conn) [
              | ok (s', conn', answer) ↦ ok (finish_request slab conns s' conn' answer)
              | err e ↦ panic
              | panic ↦ panic
            ]
          ])
      parsed (ok command) =
          handled (dispatch timeouts env token command s conn)
            (dispatch-Handles timeouts env token command s conn h)
      parsed (err e) = (all, send-IsQueued s.queues (token - 1) invalid_request conn h)
      parsed panic = tt

  read_part-Reads :
      (timeouts : TimeoutParser) (env : Env) (token : ℕ) (r : Option ReadResult) (conns : Conns)
      (s : Shared) (conn : Connection)
      → Leaves slab s.queues (token - 1) conns
      → IsQueued s.queues (token - 1) conn
      → Reads (token - 1) (read_part slab timeouts env token r conns s conn)
  unfolding read_part
  read_part-Reads timeouts env token none conns s conn all h = (all, h)
  read_part-Reads timeouts env token (some closed) conns s conn all h = (all, h)
  read_part-Reads timeouts env token (some not_ready) conns s conn all h = (all, h)
  read_part-Reads timeouts env token (some failed) conns s conn all h = (all, h)
  read_part-Reads timeouts env token (some (received bytes)) conns s conn all h =
      receive-Reads timeouts env token conns s (append_read bytes conn) all h

  abbrev Keeps : Result Bytes (Shared × Conns) → Type 0
  Keeps (ok (s, conns)) = AllQueued slab s.queues conns
  Keeps (err e) = Unit
  Keeps panic = Unit

  wake_part-Keeps :
      (key : Option Bytes) (s : Shared) (conns : Conns)
      → AllQueued slab s.queues conns
      → Keeps (ok (wake_part slab key s conns))
  unfolding wake_part
  wake_part-Keeps none s conns all = all
  wake_part-Keeps (some key) s conns all = wake_client-AllQueued slab key s.db s.queues conns all

  put_back-Keeps :
      (i : ℕ) (writes : Option (List WriteResult)) (s : Shared) (conns : Conns) (conn : Connection)
      (fate : Fate)
      → Leaves slab s.queues i conns
      → IsQueued s.queues i conn
      → Keeps (ok (put_back slab writes (s, conns, conn, fate)))
  unfolding put_back
  put_back-Keeps i writes s conns conn parked all h =
      insert-AllQueued slab s.queues conns conn all.0 (rw (all.1) h)
  put_back-Keeps i writes s conns conn dropped all h = all.0
  put_back-Keeps i writes s conns conn (kept key) all h =
      wake_part-Keeps key s
        (if (write_part writes conn).1 then conns else insert conns (write_part writes conn).0)
        (if_intro (AllQueued slab s.queues) (write_part writes conn).1 conns
          (insert conns (write_part writes conn).0) (λ _. all.0)
          (λ _.
            insert-AllQueued slab s.queues conns (write_part writes conn).0 all.0
              (rw (all.1) (write_part-IsQueued s.queues i writes conn h))))

  on_connection-Keeps :
      (timeouts : TimeoutParser) (env : Env) (event : Event) (conn : Connection) (s : Shared)
      (conns : Conns)
      → Leaves slab s.queues (event.token - 1) conns
      → IsQueued s.queues (event.token - 1) conn
      → Keeps (on_connection slab timeouts env event conn s conns)
  unfolding on_connection
  on_connection-Keeps timeouts env event conn s conns all h =
      read (read_part slab timeouts env event.token event.readable conns s conn)
        (read_part-Reads timeouts env event.token event.readable conns s conn all h)
    where
      read :
          (r : Result Bytes (Shared × Conns × Connection × Fate))
          → Reads (event.token - 1) r
          → Keeps (elim r [
            | ok after ↦ ok (put_back slab event.writable after)
            | err e ↦ panic
            | panic ↦ panic
          ])
      read (ok (s', conns', conn', fate)) k =
          put_back-Keeps (event.token - 1) event.writable s' conns' conn' fate k.0 k.1
      read (err e) k = tt
      read panic k = tt

  on_event-Keeps :
      (timeouts : TimeoutParser) (env : Env) (event : Event) (s : Shared) (conns : Conns)
      → AllQueued slab s.queues conns
      → Keeps (on_event slab timeouts env event s conns)
  unfolding on_event
  on_event-Keeps timeouts env event s conns all =
      elim (Option-cases (get conns (event.token - 1))) [
        | inl e ↦ rw (e, on_event) all
        | inr (conn, e) ↦
            let i = event.token - 1 in
            let out = remove conns i in
            let all' = remove-AllQueued slab s.queues conns i all in
            let h = found-IsQueued slab s.queues conns i conn all e in
            let back = next_key-remove conns i conn e in
            rw (e, on_event)
              (if_intro Keeps (is_readable slab event.readable && conn.blocked)
                (ok (s, insert out conn)) (on_connection slab timeouts env event conn s out)
                (λ _. insert-AllQueued slab s.queues out conn all' (rw back h))
                (λ _. on_connection-Keeps timeouts env event conn s out (all', back) h))
      ]

  Step-AllQueued :
      (timeouts : TimeoutParser) (w v : Shared × Conns)
      → Step slab timeouts w v
      → AllQueued slab w.0.queues w.1
      → AllQueued slab v.0.queues v.1
  unfolding on_accept clean_up
  Step-AllQueued timeouts (s, conns) v (accepts e) all = rw e (
      insert-AllQueued slab s.queues conns new all
        (idle-IsQueued s.queues (next_key conns) new refl))
  Step-AllQueued timeouts (s, conns) v (cleans now now' e) all =
      rw e (cleanup_blocked-AllQueued slab s.queues now' s.timeouts conns all)
  Step-AllQueued timeouts (s, conns) v (handles env event e) all =
      rw e at (on_event-Keeps timeouts env event s conns all)

  Reach-AllQueued :
      (timeouts : TimeoutParser) (w : Shared × Conns) {v : Shared × Conns}
      → ((i : ℕ) → get w.1 i ≡ none)
      → Reach slab timeouts w v
      → AllQueued slab v.0.queues v.1
  Reach-AllQueued timeouts w empty here = λ i. rw (empty i) tt
  Reach-AllQueued timeouts w empty (next {u} {v} r st) =
      Step-AllQueued timeouts u v st (Reach-AllQueued timeouts w empty r)

  -- In every state that the event loop reaches from one without connections, each connection that waits has
  -- a key for which it waits, and the queue of that key has a token of the connection, whatever the events,
  -- their order and the results of the system calls are.
  pub Reach-IsQueued :
      (timeouts : TimeoutParser) (w : Shared × Conns) {v : Shared × Conns} (j : ℕ)
      (conn : Connection)
      → ((i : ℕ) → get w.1 i ≡ none)
      → Reach slab timeouts w v
      → get v.1 j ≡ some conn
      → conn.blocked ≡ true
      → (k : Bytes) × (conn.block_key ≡ some k) × (stands j (queue_of (lookup k v.0.queues)) ≡ true)
  Reach-IsQueued timeouts w {v} j conn empty r found blocked =
      found-IsQueued slab v.0.queues v.1 j conn (Reach-AllQueued timeouts w empty r) found blocked
