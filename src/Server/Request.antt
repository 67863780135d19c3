-- ===== src/Server/Request.antt =====
-- server/mod.rs: how the event loop handles a request.
use redrum_db.Base.{
  ℕ, zero, suc, ◌+◌, ◌*◌, true, ◌||◌, Option, none, some, List, [], ◌∷◌, ◌++◌, Bytes, get_elem?,
  bytes_eq, ltb, if◌then◌else◌,
}
use redrum_db.Base.Result.{Result, ok, err, panic}
use redrum_db.Base.Dict.{lookup, insert}
use redrum_db.Base.Heap.{push}
use redrum_db.Base.Text.{codes, line}
use redrum_db.Database.{Db, Expiries, PubSub}
use redrum_db.Parser.{Command, normalize_upper}
use redrum_db.Commands.Context.{Context, Env, Action}
use redrum_db.Commands.Reply.{bulk_reply}
use redrum_db.Commands.Lists.{block}
use redrum_db.Commands.Table.{command_table}
use redrum_db.Server.Connection.{Connection, send}
use redrum_db.Server.Blocking.{Queues, Timeouts, times_out_before}

-- What `run` keeps between two events, without the connections.
pub record Shared : Type 0 where
  pub db : Db
  pub expiries : Expiries
  pub queues : Queues
  pub timeouts : Timeouts
  pub pubsub : PubSub
  pub actions : List Action

-- The parse of the timeout of `blpop` as a number, which panics where it is none: milliseconds where it is
-- greater than zero.
abbrev pub TimeoutParser : Type 0
TimeoutParser = Bytes → Option (Option ℕ)

abbrev pub name_buffer : Bytes
name_buffer = zeroes 32
  where
    zeroes : ℕ → Bytes
    zeroes zero = []
    zeroes (suc n) = 0 ∷ zeroes n

abbrev pub nanos_per_milli : ℕ
nanos_per_milli = 1000000

-- The message that a subscriber gets.
abbrev pub message_reply : Bytes → Bytes → Bytes
message_reply channel message =
    line "*3" ++ (bulk_reply (codes "message") ++ (bulk_reply channel ++ bulk_reply message))

-- `conn.subscriptions` and `conn.is_pubsub` are lent to the handler.
abbrev pub context_of : Shared → Connection → ℕ → Context
context_of s conn token = record {
  db = s.db;
  expiries = s.expiries;
  pubsub = s.pubsub;
  subscriptions = conn.subscriptions;
  is_pubsub = conn.is_pubsub;
  token = token;
  actions = s.actions;
}

abbrev pub shared_after : Shared → Context → Shared
shared_after s ctx = record s {
  db = ctx.db;
  expiries = ctx.expiries;
  pubsub = ctx.pubsub;
  actions = ctx.actions;
}

abbrev pub conn_after : Connection → Context → Connection
conn_after conn ctx = record conn { subscriptions = ctx.subscriptions; is_pubsub = ctx.is_pubsub }

-- Where the timeout is positive, its deadline.
unfoldable pub block_deadline : Env → Option ℕ → Result Bytes (Option ℕ)
block_deadline env none = ok none
block_deadline env (some ms) =
    let t = env.now + ms * nanos_per_milli in if ltb env.instant_max t then panic else ok (some t)

abbrev pub note_timeout : Option ℕ → ℕ → Timeouts → Timeouts
note_timeout none token q = q
note_timeout (some t) token q = push times_out_before (t, token) q

abbrev pub queue_of : Option (List ℕ) → List ℕ
queue_of none = []
queue_of (some q) = q

-- The client waits for an item under the key.
unfoldable pub block_client : Bytes → ℕ → Option ℕ → Shared × Connection → Shared × Connection
block_client key token deadline (s, conn) = (
  record s {
    queues = insert key (queue_of (lookup key s.queues) ++ (token ∷ [])) s.queues;
    timeouts = note_timeout deadline token s.timeouts;
  },
  record conn {
    blocked = true;
    block_key = some key;
    block_deadline = elim deadline [ none ↦ conn.block_deadline | some t ↦ some t ];
  },
)

-- How a request leaves the connection: it has an answer, perhaps with a key whose waiting client is woken
-- next, or it waits.
pub data Answer : Type 0 where
  answered : Option Bytes → Answer
  waits : Answer

abbrev pub wakes : Bytes → List Bytes → Option Bytes
wakes name args =
    if bytes_eq name (codes "LPUSH") || bytes_eq name (codes "RPUSH")
    then get_elem? args 0
    else none

abbrev pub Handled : Type 0
Handled = Shared × Connection × Answer

-- `bytes == b"__BLOCK__"`: the client is blocked by the first two arguments, which the index panics
-- without.
unfoldable pub start_blocking :
    TimeoutParser → Env → ℕ → List Bytes → Shared → Connection → Result Bytes Handled
unfolding block_client block_deadline
start_blocking timeouts env token (key ∷ text ∷ args) s conn = elim (timeouts text) [
  | none ↦ panic
  | some ms ↦ elim (block_deadline env ms) [
    | ok deadline ↦
        let (s', conn') = block_client key token deadline (s, conn) in ok (s', conn', waits)
    | err e ↦ err e
    | panic ↦ panic
  ]
]
start_blocking timeouts env token (key ∷ []) s conn = panic
start_blocking timeouts env token [] s conn = panic

-- The reply of the handler: `is_empty` tests the write buffer before it, which `send` does.
unfoldable pub after_handler :
    TimeoutParser
    → Env
    → ℕ
    → Bytes
    → List Bytes
    → Shared
    → Connection
    → Result Bytes Bytes × Context
    → Result Bytes Handled
unfolding start_blocking send
after_handler timeouts env token name args s conn (ok bytes, ctx) =
    ok (shared_after s ctx, send bytes (conn_after conn ctx), answered (wakes name args))
after_handler timeouts env token name args s conn (err bytes, ctx) =
    if bytes_eq bytes block
    then start_blocking timeouts env token args (shared_after s ctx) (conn_after conn ctx)
    else ok (shared_after s ctx, send bytes (conn_after conn ctx), answered none)
after_handler timeouts env token name args s conn (panic, ctx) = panic

abbrev pub unknown_command : Bytes
unknown_command = line "-ERR unknown command"

-- A command with its name in upper case.
unfoldable pub run_command :
    TimeoutParser → Env → ℕ → Bytes → List Bytes → Shared → Connection → Result Bytes Handled
unfolding after_handler
run_command timeouts env token name args s conn = elim (lookup name command_table) [
  | none ↦ ok (s, send unknown_command conn, answered none)
  | some handler ↦
      after_handler timeouts env token name args s conn (handler env args (context_of s conn token))
]

unfoldable pub dispatch :
    TimeoutParser → Env → ℕ → Command → Shared → Connection → Result Bytes Handled
unfolding run_command
dispatch timeouts env token command s conn = elim (normalize_upper command.name name_buffer) [
  | ok name ↦ run_command timeouts env token name command.args s conn
  | err e ↦ panic
  | panic ↦ panic
]
