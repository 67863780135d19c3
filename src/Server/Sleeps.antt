-- ===== src/Server/Sleeps.antt =====
-- server/mod.rs: the deadlines of the clients that wait, under the handling of a request.
use redrum_db.Base.{
  ℕ, ◌-◌, ◌≡◌, refl, true, Option, none, some, List, [], ◌∷◌, Bytes, bytes_eq, Bool-cases,
  Option-cases, inl, inr,
}
use redrum_db.Base.Dict.{lookup}
use redrum_db.Base.Result.{Result, ok, err, panic}
use redrum_db.Parser.{Command, normalize_upper}
use redrum_db.Commands.Context.{Context, Env}
use redrum_db.Commands.Lists.{block}
use redrum_db.Commands.Table.{command_table}
use redrum_db.Server.Connection.{Connection}
use redrum_db.Base.Heap.{push}
use redrum_db.Server.Blocking.{Timeouts, times_out_before}
use redrum_db.Server.Request.{
  Shared, TimeoutParser, waits, Handled, unknown_command, block_client, block_deadline,
  start_blocking, after_handler, run_command, dispatch, name_buffer, shared_after, conn_after,
  context_of,
}
use redrum_db.Server.Ticks.{ticks, IsOrdered, push-IsOrdered, push-ticks_self, push-ticks}
use redrum_db.Server.Timed.{IsTimed, send-IsTimed}

-- What a request of the connection with the key `i` leaves of a heap, and of its own connection.
abbrev pub Handles : ℕ → Timeouts → Result Bytes Handled → Type 0
Handles i q (ok (s, conn, answer)) =
    IsOrdered s.timeouts
    × IsTimed s.timeouts i conn
    × ((j t : ℕ) → ticks j t q ≡ true → ticks j t s.timeouts ≡ true)
Handles i q (err e) = Unit
Handles i q panic = Unit

block_client-Handles :
    (key : Bytes) (token : ℕ) (deadline : Option ℕ) (s : Shared) (conn : Connection)
    → IsOrdered s.timeouts
    → IsTimed s.timeouts (token - 1) conn
    → let (s', conn') = block_client key token deadline (s, conn) in
      Handles (token - 1) s.timeouts (ok (s', conn', waits))
unfolding block_client
block_client-Handles key token none s conn ordered h =
    (ordered, λ t e. (refl, (h t e).1), λ j t ticked. ticked)
block_client-Handles key token (some u) s conn ordered h = (
  push-IsOrdered u token s.timeouts ordered,
  λ t e. (refl, of_some t e),
  λ j t. push-ticks j t u token s.timeouts,
)
  where
    of_some :
        (t : ℕ)
        → some u ≡ some t
        → ticks (token - 1) t (push times_out_before (u, token) s.timeouts) ≡ true
    of_some t e = let same : u ≡ t = cc in rw⁻¹ same (push-ticks_self u token s.timeouts)

start_blocking-Handles :
    (timeouts : TimeoutParser) (env : Env) (token : ℕ) (args : List Bytes) (s : Shared)
    (conn : Connection)
    → IsOrdered s.timeouts
    → IsTimed s.timeouts (token - 1) conn
    → Handles (token - 1) s.timeouts (start_blocking timeouts env token args s conn)
unfolding start_blocking block_deadline
start_blocking-Handles timeouts env token [] s conn ordered h = tt
start_blocking-Handles timeouts env token (key ∷ []) s conn ordered h = tt
start_blocking-Handles timeouts env token (key ∷ text ∷ args) s conn ordered h =
    elim (Option-cases (timeouts text)) [
      | inl e ↦ rw (e, start_blocking) tt
      | inr (ms, e) ↦ rw (e, start_blocking) (blocked (block_deadline env ms))
    ]
  where
    blocked :
        (r : Result Bytes (Option ℕ))
        → Handles (token - 1) s.timeouts (elim r [
          | ok deadline ↦
              let (s', conn') = block_client key token deadline (s, conn) in ok (s', conn', waits)
          | err e ↦ err e
          | panic ↦ panic
        ])
    blocked (ok deadline) = block_client-Handles key token deadline s conn ordered h
    blocked (err e) = tt
    blocked panic = tt

after_handler-Handles :
    (timeouts : TimeoutParser) (env : Env) (token : ℕ) (name : Bytes) (args : List Bytes)
    (s : Shared) (conn : Connection) (r : Result Bytes Bytes) (ctx : Context)
    → IsOrdered s.timeouts
    → IsTimed s.timeouts (token - 1) conn
    → Handles (token - 1) s.timeouts (after_handler timeouts env token name args s conn (r, ctx))
unfolding after_handler
after_handler-Handles timeouts env token name args s conn (ok bytes) ctx ordered h = (
  ordered,
  send-IsTimed s.timeouts (token - 1) bytes (conn_after conn ctx) h,
  λ j t ticked. ticked,
)
after_handler-Handles timeouts env token name args s conn (err bytes) ctx ordered h =
    elim (Bool-cases (bytes_eq bytes block)) [
      | inl e ↦ rw e (
          start_blocking-Handles timeouts env token args (shared_after s ctx) (conn_after conn ctx)
            ordered h)
      | inr e ↦ rw e (
        ordered,
        send-IsTimed s.timeouts (token - 1) bytes (conn_after conn ctx) h,
        λ j t ticked. ticked,
      )
    ]
after_handler-Handles timeouts env token name args s conn panic ctx ordered h = tt

run_command-Handles :
    (timeouts : TimeoutParser) (env : Env) (token : ℕ) (name : Bytes) (args : List Bytes)
    (s : Shared) (conn : Connection)
    → IsOrdered s.timeouts
    → IsTimed s.timeouts (token - 1) conn
    → Handles (token - 1) s.timeouts (run_command timeouts env token name args s conn)
unfolding run_command
run_command-Handles timeouts env token name args s conn ordered h =
    elim (Option-cases (lookup name command_table)) [
      | inl e ↦
          rw (e, run_command)
            (
              ordered,
              send-IsTimed s.timeouts (token - 1) unknown_command conn h,
              λ j t ticked. ticked,
            )
      | inr (handler, e) ↦
          let (r, ctx) = handler env args (context_of s conn token) in
          rw (e, run_command)
            (after_handler-Handles timeouts env token name args s conn r ctx ordered h)
    ]

pub dispatch-Handles :
    (timeouts : TimeoutParser) (env : Env) (token : ℕ) (command : Command) (s : Shared)
    (conn : Connection)
    → IsOrdered s.timeouts
    → IsTimed s.timeouts (token - 1) conn
    → Handles (token - 1) s.timeouts (dispatch timeouts env token command s conn)
unfolding dispatch
dispatch-Handles timeouts env token command s conn ordered h =
    named (normalize_upper command.name name_buffer)
  where
    named :
        (r : Result (Unit {0}) Bytes)
        → Handles (token - 1) s.timeouts (elim r [
          | ok name ↦ run_command timeouts env token name command.args s conn
          | err e ↦ panic
          | panic ↦ panic
        ])
    named (ok name) = run_command-Handles timeouts env token name command.args s conn ordered h
    named (err e) = tt
    named panic = tt
