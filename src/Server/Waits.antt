-- ===== src/Server/Waits.antt =====
-- server/mod.rs: the steps of the event loop, and the queues of the clients that wait.
use redrum_db.Base.{
  ℕ, ◌-◌, ◌≡◌, refl, true, Option, List, [], ◌∷◌, ◌++◌, Bytes, bytes_eq, bytes_eq_sound, ==_refl,
  arith, Bool-cases, Option-cases, inl, inr,
}
use redrum_db.Base.Dict.{lookup, insert, lookup-insert, lookup-insert_self}
use redrum_db.Base.Result.{Result, ok, err, panic}
use redrum_db.Parser.{Command, normalize_upper}
use redrum_db.Commands.Context.{Context, Env}
use redrum_db.Commands.Lists.{block}
use redrum_db.Commands.Table.{command_table}
use redrum_db.Server.Connection.{Connection}
use redrum_db.Server.Blocking.{Queues}
use redrum_db.Server.Request.{
  Shared, TimeoutParser, waits, Handled, unknown_command, queue_of, block_client, block_deadline,
  start_blocking, after_handler, run_command, dispatch, name_buffer, shared_after, conn_after,
  context_of,
}
use redrum_db.Server.Queued.{stands, stands-append, IsQueued, send-IsQueued}

-- What a request of the connection with the key `i` leaves of a client that waited in a queue, and of its
-- own connection.
abbrev pub Handles : ℕ → Queues → Result Bytes Handled → Type 0
Handles i queues (ok (s, conn, answer)) =
    IsQueued s.queues i conn
    × ((j : ℕ) (k : Bytes)
        → stands j (queue_of (lookup k queues)) ≡ true
        → stands j (queue_of (lookup k s.queues)) ≡ true)
Handles i queues (err e) = Unit
Handles i queues panic = Unit

-- The queues with the token of the client that is blocked.
abbrev with_token : Bytes → ℕ → Queues → Queues
with_token key token queues = insert key (queue_of (lookup key queues) ++ (token ∷ [])) queues

with_token-stands :
    (queues : Queues) (key : Bytes) (token j : ℕ) (k : Bytes)
    → stands j (queue_of (lookup k queues)) ≡ true
    → stands j (queue_of (lookup k (with_token key token queues))) ≡ true
with_token-stands queues key token j k stood =
    rw (lookup-insert key k (queue_of (lookup key queues) ++ (token ∷ [])) queues)
      (elim (Bool-cases (bytes_eq k key)) [
        | inl e ↦ rw e (
            rw (stands-append j (queue_of (lookup key queues)) (token ∷ []))
              (rw (rw (bytes_eq_sound k key e) at stood) refl))
        | inr e ↦ rw e stood
      ])

with_token_self :
    (queues : Queues) (key : Bytes) (token : ℕ)
    → stands (token - 1) (queue_of (lookup key (with_token key token queues))) ≡ true
unfolding stands
with_token_self queues key token =
    rw (lookup-insert_self key (queue_of (lookup key queues) ++ (token ∷ [])) queues) (
      rw (stands-append (token - 1) (queue_of (lookup key queues)) (token ∷ []))
        (rw (==_refl (token - 1)) (ground arith)))

start_blocking-Handles :
    (timeouts : TimeoutParser) (env : Env) (token : ℕ) (args : List Bytes) (s : Shared)
    (conn : Connection)
    → Handles (token - 1) s.queues (start_blocking timeouts env token args s conn)
unfolding start_blocking block_client block_deadline
start_blocking-Handles timeouts env token [] s conn = tt
start_blocking-Handles timeouts env token (key ∷ []) s conn = tt
start_blocking-Handles timeouts env token (key ∷ text ∷ args) s conn =
    elim (Option-cases (timeouts text)) [
      | inl e ↦ rw (e, start_blocking) tt
      | inr (ms, e) ↦ rw (e, start_blocking) (blocked (block_deadline env ms))
    ]
  where
    blocked :
        (r : Result Bytes (Option ℕ))
        → Handles (token - 1) s.queues (elim r [
          | ok deadline ↦
              let (s', conn') = block_client key token deadline (s, conn) in ok (s', conn', waits)
          | err e ↦ err e
          | panic ↦ panic
        ])
    blocked (ok deadline) = (
      λ b. (key, refl, with_token_self s.queues key token),
      λ j k. with_token-stands s.queues key token j k,
    )
    blocked (err e) = tt
    blocked panic = tt

after_handler-Handles :
    (timeouts : TimeoutParser) (env : Env) (token : ℕ) (name : Bytes) (args : List Bytes)
    (s : Shared) (conn : Connection) (r : Result Bytes Bytes) (ctx : Context)
    → IsQueued s.queues (token - 1) conn
    → Handles (token - 1) s.queues (after_handler timeouts env token name args s conn (r, ctx))
unfolding after_handler
after_handler-Handles timeouts env token name args s conn (ok bytes) ctx h =
    (send-IsQueued s.queues (token - 1) bytes (conn_after conn ctx) h, λ j k stood. stood)
after_handler-Handles timeouts env token name args s conn (err bytes) ctx h =
    elim (Bool-cases (bytes_eq bytes block)) [
      | inl e ↦ rw e (
          start_blocking-Handles timeouts env token args (shared_after s ctx) (conn_after conn ctx))
      | inr e ↦
          rw e
            (send-IsQueued s.queues (token - 1) bytes (conn_after conn ctx) h, λ j k stood. stood)
    ]
after_handler-Handles timeouts env token name args s conn panic ctx h = tt

run_command-Handles :
    (timeouts : TimeoutParser) (env : Env) (token : ℕ) (name : Bytes) (args : List Bytes)
    (s : Shared) (conn : Connection)
    → IsQueued s.queues (token - 1) conn
    → Handles (token - 1) s.queues (run_command timeouts env token name args s conn)
unfolding run_command
run_command-Handles timeouts env token name args s conn h =
    elim (Option-cases (lookup name command_table)) [
      | inl e ↦
          rw (e, run_command)
            (send-IsQueued s.queues (token - 1) unknown_command conn h, λ j k stood. stood)
      | inr (handler, e) ↦
          let (r, ctx) = handler env args (context_of s conn token) in
          rw (e, run_command) (after_handler-Handles timeouts env token name args s conn r ctx h)
    ]

pub dispatch-Handles :
    (timeouts : TimeoutParser) (env : Env) (token : ℕ) (command : Command) (s : Shared)
    (conn : Connection)
    → IsQueued s.queues (token - 1) conn
    → Handles (token - 1) s.queues (dispatch timeouts env token command s conn)
unfolding dispatch
dispatch-Handles timeouts env token command s conn h =
    named (normalize_upper command.name name_buffer)
  where
    named :
        (r : Result (Unit {0}) Bytes)
        → Handles (token - 1) s.queues (elim r [
          | ok name ↦ run_command timeouts env token name command.args s conn
          | err e ↦ panic
          | panic ↦ panic
        ])
    named (ok name) = run_command-Handles timeouts env token name command.args s conn h
    named (err e) = tt
    named panic = tt
