-- ===== src/Server/Flushing.antt =====
-- server/: the bytes to write of a connection and its registration with the poll for writing.
use redrum_db.Base.{
  ℕ, ◌-◌, ◌≡◌, refl, true, ◌||◌, Option, none, some, List, [], ◌∷◌, Bytes, length, length-append,
  ◌==◌, ltb, ==_iff, arith, Bool-cases, Option-cases, inl, inr,
}
use redrum_db.Base.Dict.{lookup}
use redrum_db.Database.{Db, PubSub}
use redrum_db.Commands.Context.{Action, publish}
use redrum_db.Server.Connection.{Connection, send, unblock, Slab}
use redrum_db.Server.Blocking.{
  Timeouts, Queues, serve, take_first, wake_loop, wake_client, time_out, cleanup_blocked,
}
use redrum_db.Server.Request.{message_reply}
use redrum_db.Server.Deliver.{deliver, run_actions}
use redrum_db.Server.Event.{WriteResult, flush_loop, write_part}

abbrev pub IsFlushable : Connection → Type 0
IsFlushable conn = ((length conn.write_buffer == 0) || conn.writable) ≡ true

abbrev pub Flushable : Option Connection → Type 0
Flushable none = Unit
Flushable (some conn) = IsFlushable conn

pub send-IsFlushable :
    (bytes : Bytes) (conn : Connection) → IsFlushable conn → IsFlushable (send bytes conn)
unfolding send
send-IsFlushable bytes conn h = ground (arith, length-append conn.write_buffer bytes)

pub serve-IsFlushable :
    (key : Bytes) (db : Db) (conn : Connection)
    → IsFlushable conn
    → IsFlushable (serve key db conn).0
unfolding serve unblock
serve-IsFlushable key db conn h = elim (Option-cases (take_first key db)) [
  | inl e ↦ rw (e, serve) h
  | inr (p, e) ↦ rw (e, serve) (send-IsFlushable _ (unblock conn) h)
]

flush_loop_left :
    (results : List WriteResult) (bytes : Bytes)
    → (length bytes == 0) ≡ true
    → (length (flush_loop results bytes).0 == 0) ≡ true
unfolding flush_loop
flush_loop_left results [] h = refl
flush_loop_left results (b ∷ bytes) h = absurd (omega (arith, (==_iff (length (b ∷ bytes)) 0).0 h))

pub write_part-IsFlushable :
    (writes : Option (List WriteResult)) (conn : Connection)
    → IsFlushable conn
    → IsFlushable (write_part writes conn).0
unfolding write_part
write_part-IsFlushable none conn h = h
write_part-IsFlushable (some results) conn h =
    ground (arith, flush_loop_left results conn.write_buffer)

module _ (slab : Slab) where
  open slab use {Conns, get, set, remove, insert, next_key, get-set, get-remove, get-insert}

  abbrev pub AllFlushable : Conns → Type 0
  AllFlushable conns = (i : ℕ) → Flushable (get conns i)

  set-AllFlushable :
      (conns : Conns) (i : ℕ) (c d : Connection)
      → AllFlushable conns
      → get conns i ≡ some d
      → IsFlushable c
      → AllFlushable (set conns i c)
  set-AllFlushable conns i c d all found h j =
      rw (get-set conns i c d j found)
        (elim (Bool-cases (j == i)) [ inl e ↦ rw e h | inr e ↦ rw e (all j) ])

  pub insert-AllFlushable :
      (conns : Conns) (c : Connection)
      → AllFlushable conns
      → IsFlushable c
      → AllFlushable (insert conns c)
  insert-AllFlushable conns c all h j =
      rw (get-insert conns c j)
        (elim (Bool-cases (j == next_key conns)) [ inl e ↦ rw e h | inr e ↦ rw e (all j) ])

  pub remove-AllFlushable :
      (conns : Conns) (i : ℕ) → AllFlushable conns → AllFlushable (remove conns i)
  remove-AllFlushable conns i all j =
      rw (get-remove conns i j)
        (elim (Bool-cases (j == i)) [ inl e ↦ rw e tt | inr e ↦ rw e (all j) ])

  found-IsFlushable :
      (conns : Conns) (i : ℕ) (c : Connection)
      → AllFlushable conns
      → get conns i ≡ some c
      → IsFlushable c
  found-IsFlushable conns i c all e = rw e at (all i)

  deliver-AllFlushable :
      (bytes : Bytes) (subs : List ℕ) (conns : Conns)
      → AllFlushable conns
      → AllFlushable (deliver slab bytes subs conns)
  unfolding deliver
  deliver-AllFlushable bytes [] conns all = all
  deliver-AllFlushable bytes (token ∷ subs) conns all =
      elim (Option-cases (get conns (token - 1))) [
        | inl e ↦ rw e (deliver-AllFlushable bytes subs conns all)
        | inr (c, e) ↦ rw e (
            deliver-AllFlushable bytes subs (set conns (token - 1) (send bytes c)) (
              set-AllFlushable conns (token - 1) (send bytes c) c all e
                (send-IsFlushable bytes c (found-IsFlushable conns (token - 1) c all e))))
      ]

  pub run_actions-AllFlushable :
      (pubsub : PubSub) (actions : List Action) (conns : Conns)
      → AllFlushable conns
      → AllFlushable (run_actions slab pubsub actions conns)
  unfolding run_actions
  run_actions-AllFlushable pubsub [] conns all = all
  run_actions-AllFlushable pubsub (publish channel message ∷ actions) conns all =
      let rest = run_actions-AllFlushable pubsub actions conns all in
      elim (Option-cases (lookup channel pubsub)) [
        | inl e ↦ rw (e, run_actions) rest
        | inr (subs, e) ↦
            rw (e, run_actions) (deliver-AllFlushable (message_reply channel message) subs _ rest)
      ]

  wake_loop-AllFlushable :
      (key : Bytes) (db : Db) (conns : Conns) (queue : List ℕ)
      → AllFlushable conns
      → AllFlushable (wake_loop slab key db conns queue).1
  unfolding wake_loop
  wake_loop-AllFlushable key db conns [] all = all
  wake_loop-AllFlushable key db conns (token ∷ queue) all =
      let rest = wake_loop-AllFlushable key db conns queue all in
      elim (Option-cases (get conns (token - 1))) [
        | inl e ↦ rw (e, wake_loop) rest
        | inr (c, e) ↦ elim (Bool-cases c.blocked) [
          | inl waiting ↦
              rw (e, wake_loop)
                (rw waiting (
                  set-AllFlushable conns (token - 1) (serve key db c).0 c all e
                    (serve-IsFlushable key db c (found-IsFlushable conns (token - 1) c all e))))
          | inr other ↦ rw (e, wake_loop) (rw other rest)
        ]
      ]

  pub wake_client-AllFlushable :
      (key : Bytes) (db : Db) (queues : Queues) (conns : Conns)
      → AllFlushable conns
      → AllFlushable (wake_client slab key db queues conns).2
  unfolding wake_client
  wake_client-AllFlushable key db queues conns all = elim (Option-cases (lookup key queues)) [
    | inl e ↦ rw (e, wake_client) all
    | inr (queue, e) ↦ rw (e, wake_client) (wake_loop-AllFlushable key db conns queue all)
  ]

  time_out-AllFlushable :
      (token : ℕ) (conns : Conns) → AllFlushable conns → AllFlushable (time_out slab token conns)
  unfolding time_out unblock
  time_out-AllFlushable token conns all = elim (Option-cases (get conns (token - 1))) [
    | inl e ↦ rw (e, time_out) all
    | inr (c, e) ↦ elim (Bool-cases c.blocked) [
      | inl waiting ↦
          rw (e, time_out)
            (rw waiting (
              set-AllFlushable conns (token - 1) _ c all e
                (send-IsFlushable _ (unblock c) (found-IsFlushable conns (token - 1) c all e))))
      | inr other ↦ rw (e, time_out) (rw other all)
    ]
  ]

  pub cleanup_blocked-AllFlushable :
      (now : ℕ) (q : Timeouts) (conns : Conns)
      → AllFlushable conns
      → AllFlushable (cleanup_blocked slab now q conns).1
  unfolding cleanup_blocked
  cleanup_blocked-AllFlushable now [] conns all = all
  cleanup_blocked-AllFlushable now ((t, token) ∷ q) conns all = elim (Bool-cases (ltb now t)) [
    | inl later ↦ rw later all
    | inr due ↦ rw due (
        cleanup_blocked-AllFlushable now q (time_out slab token conns)
          (time_out-AllFlushable token conns all))
  ]
