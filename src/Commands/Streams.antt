-- ===== src/Commands/Streams.antt =====
-- commands/handlers/streams.rs
pub mod Laws
use redrum_db.Base.{
  ℕ, ◌+◌, ◌%◌, Bool, Option, none, some, List, [], ◌∷◌, ◌++◌, Bytes, length, drop, bytes_eq, ◌==◌,
  if◌then◌else◌,
}
use redrum_db.Base.Result.{Result, ok, err, panic, ok_or}
use redrum_db.Base.Decimal.{show}
use redrum_db.Base.Text.{codes, line, crlf}
use redrum_db.Base.Dict.{lookup, insert}
use redrum_db.Database.{Value, string, list, stream, Entry}
use redrum_db.Stream
use redrum_db.Stream.{Stream, Fields}
use redrum_db.Stream.Id.{StreamId, parse}
use redrum_db.Commands.Context.{
  Context, Env, Handler, ◌>>=◌, ◌>>◌, lift, reply, fail, gets, modify, arg, missing_key,
  command_handler,
}

-- `chunks_exact(2)` of what follows the ID, which has an even length.
unfoldable pub pairs : List Bytes → Fields
pairs [] = []
pairs (f ∷ []) = []
pairs (f ∷ v ∷ rest) = (f, v) ∷ pairs rest

unfoldable pub field_args : List Bytes → Result Bytes Fields
unfolding pairs
field_args kv =
    if length kv % 2 == 0 then ok (pairs kv) else err (codes "-ERR wrong number of arguments")

abbrev pub no_id : StreamId
no_id = record { ms = 0; seq = 0 }

-- `stream.last_id.unwrap_or(StreamID { ms: 0, seq: 0 })`
unfoldable pub last_or_none : Option StreamId → StreamId
last_or_none none = no_id
last_or_none (some id) = id

abbrev pub new_stream : Entry × Stream
new_stream = (record { value = stream Stream.new; expiry = none }, Stream.new)

unfoldable pub stream_in : Entry → Value → Entry × Stream
stream_in e (stream s) = (e, s)
stream_in e (string s) = new_stream
stream_in e (list xs) = new_stream

-- The stream that the key has, with its entry, or a new one in an entry of its own.
unfoldable pub stream_or_new : Option Entry → Entry × Stream
unfolding stream_in
stream_or_new none = new_stream
stream_or_new (some e) = stream_in e e.value

unfoldable pub id_reply : StreamId → Bytes
id_reply id =
    let ms = show id.ms in
    let seq = show id.seq in
    b'$' ∷ (show (length ms + 1 + length seq) ++ (crlf ++ (ms ++ (b'-' ∷ (seq ++ crlf)))))

abbrev pub zero_id_error : Bytes
zero_id_error = line "-ERR The ID specified in XADD must be greater than 0-0"

-- What is done with the stream. The error of `add` leaves the stream as it is.
unfoldable pub xadd_to : Env → Bytes → Bytes → Fields → Entry → Stream → Handler Bytes
unfolding last_or_none id_reply
xadd_to env key entry_id fields e s = do
  id ← lift (parse env.checks env.wall entry_id (last_or_none s.last_id))
  s' ← lift (Stream.add s id fields)
  modify (λ ctx. record ctx { db = insert key (record e { value = stream s' }) ctx.db })
  reply (id_reply id)

-- What follows the tests of the arguments.
unfoldable pub xadd_entry : Env → Bytes → Bytes → Fields → Handler Bytes
unfolding stream_or_new xadd_to
xadd_entry env key entry_id fields = do
  found ← gets (λ ctx. lookup key ctx.db)
  let old = stream_or_new found
  xadd_to env key entry_id fields old.0 old.1

unfoldable pub xadd_body : Env → List Bytes → Handler Bytes
unfolding field_args xadd_entry
xadd_body env args = do
  key ← arg args 0 missing_key
  entry_id ← arg args 1 (codes "-ERR missing entry id")
  if bytes_eq entry_id (codes "0-0")
      then fail zero_id_error
      else (do fields ← lift (field_args (drop 2 args)); xadd_entry env key entry_id fields)

unfoldable pub xadd : Env → List Bytes → Handler Bytes
unfolding command_handler xadd_body
xadd env args = command_handler (codes "xadd") (xadd_body env args)
