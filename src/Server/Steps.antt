-- ===== src/Server/Steps.antt =====
-- server/mod.rs: the steps of the event loop, and what holds in every state that they reach.
use redrum_db.Base.{
  ℕ, Option, none, some, List, [], ◌∷◌, Bytes, bytes_eq, if◌then◌else◌, Bool-cases, Option-cases,
  if_intro, inl, inr,
}
use redrum_db.Base.Dict.{lookup}
use redrum_db.Base.Result.{Result, ok, err, panic}
use redrum_db.Parser.{Command, parse_command, normalize_upper}
use redrum_db.Commands.Context.{Context, Env}
use redrum_db.Commands.Lists.{block}
use redrum_db.Commands.Table.{command_table}
use redrum_db.Server.Connection.{Connection, send, Slab}
use redrum_db.Server.Request.{
  Shared, TimeoutParser, Answer, answered, waits, Handled, block_client, block_deadline,
  start_blocking, after_handler, run_command, dispatch, name_buffer, shared_after, conn_after,
  context_of,
}
use redrum_db.Server.Event.{
  ReadResult, closed, received, not_ready, failed, WriteResult, Fate, kept, dropped, parked,
  finish_request, receive, read_part, write_part, wake_part, put_back, append_read, clear_read,
  invalid_request,
}
use redrum_db.Server.Flushing.{
  IsFlushable, send-IsFlushable, write_part-IsFlushable, AllFlushable, insert-AllFlushable,
  run_actions-AllFlushable, wake_client-AllFlushable,
}

-- What a request that is handled leaves of its connection.
abbrev Handles : Result Bytes Handled → Type 0
Handles (ok (s, conn, answer)) = IsFlushable conn
Handles (err e) = Unit
Handles panic = Unit

start_blocking-Handles :
    (timeouts : TimeoutParser) (env : Env) (token : ℕ) (args : List Bytes) (s : Shared)
    (conn : Connection)
    → IsFlushable conn
    → Handles (start_blocking timeouts env token args s conn)
unfolding start_blocking block_client
start_blocking-Handles timeouts env token [] s conn h = tt
start_blocking-Handles timeouts env token (key ∷ []) s conn h = tt
start_blocking-Handles timeouts env token (key ∷ text ∷ args) s conn h =
    elim (Option-cases (timeouts text)) [
      | inl e ↦ rw (e, start_blocking) tt
      | inr (ms, e) ↦ rw (e, start_blocking) (blocked (block_deadline env ms))
    ]
  where
    blocked :
        (r : Result Bytes (Option ℕ))
        → Handles (elim r [
          | ok deadline ↦
              let (s', conn') = block_client key token deadline (s, conn) in ok (s', conn', waits)
          | err e ↦ err e
          | panic ↦ panic
        ])
    blocked (ok deadline) = h
    blocked (err e) = tt
    blocked panic = tt

after_handler-Handles :
    (timeouts : TimeoutParser) (env : Env) (token : ℕ) (name : Bytes) (args : List Bytes)
    (s : Shared) (conn : Connection) (r : Result Bytes Bytes) (ctx : Context)
    → IsFlushable conn
    → Handles (after_handler timeouts env token name args s conn (r, ctx))
unfolding after_handler
after_handler-Handles timeouts env token name args s conn (ok bytes) ctx h =
    send-IsFlushable bytes (conn_after conn ctx) h
after_handler-Handles timeouts env token name args s conn (err bytes) ctx h =
    elim (Bool-cases (bytes_eq bytes block)) [
      | inl e ↦ rw e (
          start_blocking-Handles timeouts env token args (shared_after s ctx) (conn_after conn ctx)
            h)
      | inr e ↦ rw e (send-IsFlushable bytes (conn_after conn ctx) h)
    ]
after_handler-Handles timeouts env token name args s conn panic ctx h = tt

run_command-Handles :
    (timeouts : TimeoutParser) (env : Env) (token : ℕ) (name : Bytes) (args : List Bytes)
    (s : Shared) (conn : Connection)
    → IsFlushable conn
    → Handles (run_command timeouts env token name args s conn)
unfolding run_command
run_command-Handles timeouts env token name args s conn h =
    elim (Option-cases (lookup name command_table)) [
      | inl e ↦ rw (e, run_command) (send-IsFlushable _ conn h)
      | inr (handler, e) ↦
          let (r, ctx) = handler env args (context_of s conn token) in
          rw (e, run_command) (after_handler-Handles timeouts env token name args s conn r ctx h)
    ]

dispatch-Handles :
    (timeouts : TimeoutParser) (env : Env) (token : ℕ) (command : Command) (s : Shared)
    (conn : Connection)
    → IsFlushable conn
    → Handles (dispatch timeouts env token command s conn)
unfolding dispatch
dispatch-Handles timeouts env token command s conn h =
    named (normalize_upper command.name name_buffer)
  where
    named :
        (r : Result (Unit {0}) Bytes)
        → Handles (elim r [
          | ok name ↦ run_command timeouts env token name command.args s conn
          | err e ↦ panic
          | panic ↦ panic
        ])
    named (ok name) = run_command-Handles timeouts env token name command.args s conn h
    named (err e) = tt
    named panic = tt

module _ (slab : Slab) where
  open slab use {Conns, get, set, remove, insert}

  -- The connections that are in the slab, and the one that is not.
  abbrev pub Reads : Result Bytes (Shared × Conns × Connection × Fate) → Type 0
  Reads (ok (s, conns, conn, fate)) = AllFlushable slab conns × IsFlushable conn
  Reads (err e) = Unit
  Reads panic = Unit

  finish_request-Reads :
      (conns : Conns) (s : Shared) (conn : Connection) (answer : Answer)
      → AllFlushable slab conns
      → IsFlushable conn
      → Reads (ok (finish_request slab conns s conn answer))
  unfolding finish_request
  finish_request-Reads conns s conn waits all h = (all, h)
  finish_request-Reads conns s conn (answered key) all h =
      (run_actions-AllFlushable slab s.pubsub s.actions conns all, h)

  receive-Reads :
      (timeouts : TimeoutParser) (env : Env) (token : ℕ) (conns : Conns) (s : Shared)
      (conn : Connection)
      → AllFlushable slab conns
      → IsFlushable conn
      → Reads (receive slab timeouts env token conns s conn)
  unfolding receive
  receive-Reads timeouts env token conns s conn all h =
      parsed (parse_command env.checks conn.read_buffer)
    where
      handled :
          (r : Result Bytes Handled)
          → Handles r
          → Reads (elim r [
            | ok (s', conn', answer) ↦ ok (finish_request slab conns s' conn' answer)
            | err e ↦ panic
            | panic ↦ panic
          ])
      handled (ok (s', conn', answer)) k = finish_request-Reads conns s' conn' answer all k
      handled (err e) k = tt
      handled panic k = tt

      parsed :
          (r : Result Bytes Command)
          → Reads (elim r [
            | err e ↦ ok (s, conns, clear_read (send invalid_request conn), kept none)
            | panic ↦ panic
            | ok command ↦ elim (dispatch timeouts env token command s conn) [
              | ok (s', conn', answer) ↦ ok (finish_request slab conns s' conn' answer)
              | err e ↦ panic
              | panic ↦ panic
            ]
          ])
      parsed (ok command) =
          handled (dispatch timeouts env token command s conn)
            (dispatch-Handles timeouts env token command s conn h)
      parsed (err e) = (all, send-IsFlushable invalid_request conn h)
      parsed panic = tt

  pub read_part-Reads :
      (timeouts : TimeoutParser) (env : Env) (token : ℕ) (r : Option ReadResult) (conns : Conns)
      (s : Shared) (conn : Connection)
      → AllFlushable slab conns
      → IsFlushable conn
      → Reads (read_part slab timeouts env token r conns s conn)
  unfolding read_part
  read_part-Reads timeouts env token none conns s conn all h = (all, h)
  read_part-Reads timeouts env token (some closed) conns s conn all h = (all, h)
  read_part-Reads timeouts env token (some not_ready) conns s conn all h = (all, h)
  read_part-Reads timeouts env token (some failed) conns s conn all h = (all, h)
  read_part-Reads timeouts env token (some (received bytes)) conns s conn all h =
      receive-Reads timeouts env token conns s (append_read bytes conn) all h

  pub put_back-AllFlushable :
      (writes : Option (List WriteResult)) (s : Shared) (conns : Conns) (conn : Connection)
      (fate : Fate)
      → AllFlushable slab conns
      → IsFlushable conn
      → AllFlushable slab (put_back slab writes (s, conns, conn, fate)).1
  unfolding put_back
  put_back-AllFlushable writes s conns conn parked all h = insert-AllFlushable slab conns conn all h
  put_back-AllFlushable writes s conns conn dropped all h = all
  put_back-AllFlushable writes s conns conn (kept key) all h =
      woken key
        (if (write_part writes conn).1 then conns else insert conns (write_part writes conn).0)
        (if_intro (AllFlushable slab) (write_part writes conn).1 conns
          (insert conns (write_part writes conn).0) (λ _. all)
          (λ _.
            insert-AllFlushable slab conns (write_part writes conn).0 all
              (write_part-IsFlushable writes conn h)))
    where
      woken :
          (key : Option Bytes) (conns' : Conns)
          → AllFlushable slab conns'
          → AllFlushable slab (wake_part slab key s conns').1
      woken none conns' all' = all'
      woken (some k) conns' all' = wake_client-AllFlushable slab k s.db s.queues conns' all'
