-- ===== src/Server/Event.antt =====
-- server/mod.rs: what the event loop does with one event of a connection. The results of reads and writes,
-- the clocks and the parse of a timeout are arguments.
use redrum_db.Base.{
  ℕ, ◌-◌, Bool, true, false, ◌&&◌, Option, none, some, List, [], ◌∷◌, ◌++◌, Bytes, length, drop,
  ◌==◌, if◌then◌else◌,
}
use redrum_db.Base.Result.{Result, ok, err, panic}
use redrum_db.Base.Text.{line}
use redrum_db.Parser.{parse_command}
use redrum_db.Commands.Context.{Env}
use redrum_db.Server.Connection.{Connection, new, send, Slab}
use redrum_db.Server.Expiry.{cleanup_expired}
use redrum_db.Server.Blocking.{wake_client, cleanup_blocked}
use redrum_db.Server.Request.{Shared, TimeoutParser, Answer, answered, waits, dispatch}
use redrum_db.Server.Deliver.{run_actions}

-- The results of `read` and `write`; `failed` is any error but `WouldBlock`.
pub data ReadResult : Type 0 where
  closed : ReadResult
  received : Bytes → ReadResult
  not_ready : ReadResult
  failed : ReadResult

pub data WriteResult : Type 0 where
  refused : WriteResult
  written : ℕ → WriteResult
  busy : WriteResult
  broken : WriteResult

-- What the readable part of an event leaves of its connection, which is out of the slab meanwhile.
pub data Fate : Type 0 where
  kept : Option Bytes → Fate
  dropped : Fate
  parked : Fate

abbrev pub invalid_request : Bytes
invalid_request = line "-ERR invalid RESP"

abbrev pub append_read : Bytes → Connection → Connection
append_read bytes conn = record conn { read_buffer = conn.read_buffer ++ bytes }

abbrev pub clear_read : Connection → Connection
clear_read conn = record conn { read_buffer = [] }

-- The loop of the writes: the bytes that are left, and whether the connection is broken. Results that run
-- out stand for `WouldBlock`.
unfoldable pub flush_loop : List WriteResult → Bytes → Bytes × Bool
flush_loop results [] = ([], false)
flush_loop [] (b ∷ bytes) = (b ∷ bytes, false)
flush_loop (refused ∷ results) (b ∷ bytes) = (b ∷ bytes, false)
flush_loop (written n ∷ results) (b ∷ bytes) = flush_loop results (drop n (b ∷ bytes))
flush_loop (busy ∷ results) (b ∷ bytes) = (b ∷ bytes, false)
flush_loop (broken ∷ results) (b ∷ bytes) = (b ∷ bytes, true)

-- The writable part of an event. With nothing left to write the socket is registered for reading alone.
unfoldable pub flush : List WriteResult → Connection → Connection × Bool
unfolding flush_loop
flush results conn =
    let (left, gone) = flush_loop results conn.write_buffer in
    (
      record conn {
        write_buffer = left;
        writable = if length left == 0 then false else conn.writable;
      },
      gone,
    )

-- One event: the result of the read where it is readable, and those of the writes where it is writable.
pub record Event : Type 0 where
  pub token : ℕ
  pub readable : Option ReadResult
  pub writable : Option (List WriteResult)

unfoldable pub write_part : Option (List WriteResult) → Connection → Connection × Bool
unfolding flush
write_part none conn = (conn, false)
write_part (some results) conn = flush results conn

module _ (slab : Slab) where
  open slab use {Conns, get, remove, insert}

  -- How a request that was handled leaves the connection: its actions are run and its read buffer is
  -- cleared, unless the client waits.
  unfoldable pub finish_request :
      Conns → Shared → Connection → Answer → Shared × Conns × Connection × Fate
  unfolding run_actions
  finish_request conns s conn waits = (s, conns, conn, parked)
  finish_request conns s conn (answered key) = (
    record s { actions = [] },
    run_actions slab s.pubsub s.actions conns,
    clear_read conn,
    kept key,
  )

  unfoldable pub receive :
      TimeoutParser
      → Env
      → ℕ
      → Conns
      → Shared
      → Connection
      → Result Bytes (Shared × Conns × Connection × Fate)
  unfolding finish_request
  receive timeouts env token conns s conn = elim (parse_command env.checks conn.read_buffer) [
    | err e ↦ ok (s, conns, clear_read (send invalid_request conn), kept none)
    | panic ↦ panic
    | ok command ↦ elim (dispatch timeouts env token command s conn) [
      | ok (s', conn', answer) ↦ ok (finish_request conns s' conn' answer)
      | err e ↦ panic
      | panic ↦ panic
    ]
  ]

  -- The readable part of an event.
  unfoldable pub read_part :
      TimeoutParser
      → Env
      → ℕ
      → Option ReadResult
      → Conns
      → Shared
      → Connection
      → Result Bytes (Shared × Conns × Connection × Fate)
  unfolding receive
  read_part timeouts env token none conns s conn = ok (s, conns, conn, kept none)
  read_part timeouts env token (some closed) conns s conn = ok (s, conns, conn, dropped)
  read_part timeouts env token (some not_ready) conns s conn = ok (s, conns, conn, kept none)
  read_part timeouts env token (some failed) conns s conn = ok (s, conns, conn, dropped)
  read_part timeouts env token (some (received bytes)) conns s conn =
      receive timeouts env token conns s (append_read bytes conn)

  -- The wake-up of a client, where there is a key for it.
  unfoldable pub wake_part : Option Bytes → Shared → Conns → Shared × Conns
  wake_part none s conns = (s, conns)
  wake_part (some key) s conns =
      let (db', queues', conns') = wake_client slab key s.db s.queues conns in
      (record s { db = db'; queues = queues' }, conns')

  -- What follows the readable part. A waiting client goes back into the slab at once.
  unfoldable pub put_back :
      Option (List WriteResult) → Shared × Conns × Connection × Fate → Shared × Conns
  unfolding write_part wake_part
  put_back writes (s, conns, conn, parked) = (s, insert conns conn)
  put_back writes (s, conns, conn, dropped) = (s, conns)
  put_back writes (s, conns, conn, kept key) =
      let (conn', gone) = write_part writes conn in
      wake_part key s (if gone then conns else insert conns conn')

  -- An event of a client that waits is passed over where it is readable.
  unfoldable pub on_connection :
      TimeoutParser → Env → Event → Connection → Shared → Conns → Result Bytes (Shared × Conns)
  unfolding read_part put_back
  on_connection timeouts env event conn s conns =
      elim (read_part timeouts env event.token event.readable conns s conn) [
        | ok after ↦ ok (put_back event.writable after)
        | err e ↦ panic
        | panic ↦ panic
      ]

  abbrev pub is_readable : Option ReadResult → Bool
  is_readable none = false
  is_readable (some r) = true

  -- An event whose token is not that of the listener.
  unfoldable pub on_event :
      TimeoutParser → Env → Event → Shared → Conns → Result Bytes (Shared × Conns)
  unfolding on_connection
  on_event timeouts env event s conns = elim (get conns (event.token - 1)) [
    | none ↦ ok (s, conns)
    | some conn ↦
        let out = remove conns (event.token - 1) in
        if is_readable event.readable && conn.blocked
        then ok (s, insert out conn)
        else on_connection timeouts env event conn s out
  ]

  -- A client that is accepted.
  unfoldable pub on_accept : Conns → Conns
  on_accept conns = insert conns new

  -- The clean-ups in front of each poll, at the times that their clocks give.
  unfoldable pub clean_up : ℕ → ℕ → Shared → Conns → Shared × Conns
  clean_up now now' s conns =
      let (db', expiries') = cleanup_expired now s.db s.expiries in
      let (timeouts', conns') = cleanup_blocked slab now' s.timeouts conns in
      (record s { db = db'; expiries = expiries'; timeouts = timeouts' }, conns')
