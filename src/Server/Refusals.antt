-- ===== src/Server/Refusals.antt =====
-- server/mod.rs: requests of a client that is in the pub/sub mode.
use redrum_db.Base.{ℕ, ◌≡◌, refl, true, false, none, some, List, Bytes}
use redrum_db.Base.Dict.{lookup}
use redrum_db.Base.Result.{ok}
use redrum_db.Commands.Context.{Env, refusal}
use redrum_db.Commands.Table.{CommandHandler, command_table}
use redrum_db.Commands.Refused.{is_allowed, command_table-Refuses}
use redrum_db.Server.Connection.{Connection, send}
use redrum_db.Server.Request.{
  Shared, TimeoutParser, answered, context_of, after_handler, run_command,
}

-- A client in the pub/sub mode that sends a command of the table other than SUBSCRIBE, UNSUBSCRIBE and PING
-- is answered with a refusal, whatever the arguments are: nothing of the shared state is changed, nobody is
-- woken, and the client is not blocked.
pub run_command-refused :
    (timeouts : TimeoutParser) (env : Env) (token : ℕ) (name : Bytes) (args : List Bytes)
    (s : Shared) (conn : Connection) {handler : CommandHandler}
    → conn.is_pubsub ≡ true
    → lookup name command_table ≡ some handler
    → is_allowed name ≡ false
    → (text : Bytes) × (run_command timeouts env token name args s conn
        ≡ ok (s, send (refusal text) conn, answered none))
unfolding run_command after_handler
run_command-refused timeouts env token name args s conn {handler} mode found other =
    let (text, run) =
      command_table-Refuses name found other env args (context_of s conn token) mode in
    (text, rw (found, run_command) (rw run refl))
