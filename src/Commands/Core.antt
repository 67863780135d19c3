-- ===== src/Commands/Core.antt =====
-- commands/handlers/core.rs
use redrum_db.Base.{Option, none, some, List, [], ◌∷◌, ◌++◌, Bytes, if◌then◌else◌}
use redrum_db.Base.Text.{codes, crlf, line}
use redrum_db.Base.Dict.{lookup}
use redrum_db.Database.{Value, string, list, stream, Entry}
use redrum_db.Commands.Context.{
  Handler, ◌>>=◌, reply, fail, gets, arg, missing_key, command_handler,
}
use redrum_db.Commands.Reply.{bulk_reply}

abbrev pub pong_header : Bytes
pong_header = line "*2" ++ (line "$4" ++ line "pong")

unfoldable pub ping_body : List Bytes → Handler Bytes
ping_body [] = do
  is_pubsub ← gets (λ ctx. ctx.is_pubsub)
  reply (if is_pubsub then pong_header ++ (line "$0" ++ crlf) else line "+PONG")
ping_body (arg0 ∷ args) = do
  is_pubsub ← gets (λ ctx. ctx.is_pubsub)
  reply ((if is_pubsub then pong_header else []) ++ bulk_reply arg0)

unfoldable pub ping : List Bytes → Handler Bytes
unfolding command_handler ping_body
ping args = command_handler (codes "ping") (ping_body args)

unfoldable pub echo_body : List Bytes → Handler Bytes
echo_body [] = fail (line "-ERR wrong number of arguments")
echo_body (arg0 ∷ args) = reply (bulk_reply arg0)

unfoldable pub echo : List Bytes → Handler Bytes
unfolding command_handler echo_body
echo args = command_handler (codes "echo") (echo_body args)

abbrev pub type_reply : Value → Bytes
type_reply (list xs) = line "+list"
type_reply (string s) = line "+string"
type_reply (stream s) = line "+stream"

unfoldable pub typee_found : Option Entry → Handler Bytes
typee_found (some e) = reply (type_reply e.value)
typee_found none = fail (line "+none")

unfoldable pub typee_body : List Bytes → Handler Bytes
unfolding typee_found
typee_body args = do
  key ← arg args 0 missing_key
  found ← gets (λ ctx. lookup key ctx.db)
  typee_found found

unfoldable pub typee : List Bytes → Handler Bytes
unfolding command_handler typee_body
typee args = command_handler (codes "typee") (typee_body args)
