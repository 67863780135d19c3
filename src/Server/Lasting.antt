-- ===== src/Server/Lasting.antt =====
-- server/mod.rs: the heap of expiries under a request.
use redrum_db.Base.{ℕ, Option, List, [], ◌∷◌, Bytes, bytes_eq, Bool-cases, Option-cases, inl, inr}
use redrum_db.Base.Dict.{lookup}
use redrum_db.Base.Result.{Result, ok, err, panic}
use redrum_db.Parser.{Command, normalize_upper}
use redrum_db.Commands.Context.{Context, Env}
use redrum_db.Commands.Lists.{block}
use redrum_db.Commands.Table.{command_table}
use redrum_db.Commands.Tracked.{AllTracked}
use redrum_db.Commands.Tracks.{Tracked}
use redrum_db.Commands.Tracks.Table.{command_table-HandlerTracks}
use redrum_db.Server.Connection.{Connection}
use redrum_db.Server.Request.{
  Shared, TimeoutParser, waits, Handled, block_client, block_deadline, start_blocking,
  after_handler, run_command, dispatch, name_buffer, shared_after, conn_after, context_of,
}

abbrev pub IsLasting : Shared → Type 0
IsLasting s = AllTracked s.db s.expiries

abbrev pub Handles : Result Bytes Handled → Type 0
Handles (ok (s, conn, answer)) = IsLasting s
Handles (err e) = Unit
Handles panic = Unit

start_blocking-Handles :
    (timeouts : TimeoutParser) (env : Env) (token : ℕ) (args : List Bytes) (s : Shared)
    (conn : Connection)
    → IsLasting s
    → Handles (start_blocking timeouts env token args s conn)
unfolding start_blocking block_client
start_blocking-Handles timeouts env token [] s conn h = tt
start_blocking-Handles timeouts env token (key ∷ []) s conn h = tt
start_blocking-Handles timeouts env token (key ∷ text ∷ args) s conn h =
    elim (Option-cases (timeouts text)) [
      | inl e ↦ rw (e, start_blocking) tt
      | inr (ms, e) ↦ rw (e, start_blocking) (blocked (block_deadline env ms))
    ]
  where
    blocked :
        (r : Result Bytes (Option ℕ))
        → Handles (elim r [
          | ok deadline ↦
              let (s', conn') = block_client key token deadline (s, conn) in ok (s', conn', waits)
          | err e ↦ err e
          | panic ↦ panic
        ])
    blocked (ok deadline) = h
    blocked (err e) = tt
    blocked panic = tt

after_handler-Handles :
    (timeouts : TimeoutParser) (env : Env) (token : ℕ) (name : Bytes) (args : List Bytes)
    (s : Shared) (conn : Connection) (r : Result Bytes Bytes) (ctx : Context)
    → Tracked ctx
    → Handles (after_handler timeouts env token name args s conn (r, ctx))
unfolding after_handler
after_handler-Handles timeouts env token name args s conn (ok bytes) ctx h = h
after_handler-Handles timeouts env token name args s conn (err bytes) ctx h =
    elim (Bool-cases (bytes_eq bytes block)) [
      | inl e ↦ rw e (
          start_blocking-Handles timeouts env token args (shared_after s ctx) (conn_after conn ctx)
            h)
      | inr e ↦ rw e h
    ]
after_handler-Handles timeouts env token name args s conn panic ctx h = tt

run_command-Handles :
    (timeouts : TimeoutParser) (env : Env) (token : ℕ) (name : Bytes) (args : List Bytes)
    (s : Shared) (conn : Connection)
    → IsLasting s
    → Handles (run_command timeouts env token name args s conn)
unfolding run_command
run_command-Handles timeouts env token name args s conn h =
    elim (Option-cases (lookup name command_table)) [
      | inl e ↦ rw (e, run_command) h
      | inr (handler, e) ↦
          let (r, ctx) = handler env args (context_of s conn token) in
          rw (e, run_command)
            (after_handler-Handles timeouts env token name args s conn r ctx
              (command_table-HandlerTracks name e env args (context_of s conn token) h))
    ]

pub dispatch-Handles :
    (timeouts : TimeoutParser) (env : Env) (token : ℕ) (command : Command) (s : Shared)
    (conn : Connection)
    → IsLasting s
    → Handles (dispatch timeouts env token command s conn)
unfolding dispatch
dispatch-Handles timeouts env token command s conn h =
    named (normalize_upper command.name name_buffer)
  where
    named :
        (r : Result (Unit {0}) Bytes)
        → Handles (elim r [
          | ok name ↦ run_command timeouts env token name command.args s conn
          | err e ↦ panic
          | panic ↦ panic
        ])
    named (ok name) = run_command-Handles timeouts env token name command.args s conn h
    named (err e) = tt
    named panic = tt
