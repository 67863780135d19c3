-- ===== src/Commands/Strings.antt =====
-- commands/handlers/strings.rs
pub mod Expiry
pub mod Laws
use redrum_db.Base.{
  ℕ, Bool, false, Option, none, some, List, [], ◌∷◌, ◌++◌, Bytes, leb, if◌then◌else◌,
}
use redrum_db.Base.Text.{codes}
use redrum_db.Base.Dict.{lookup, insert, erase}
use redrum_db.Base.Heap.{push}
use redrum_db.Database.{Db, Value, string, list, stream, Entry, Expiries, expires_before}
use redrum_db.Commands.Context.{
  Context, Env, Handler, ◌>>=◌, ◌>>◌, lift, reply, fail, gets, modify, set_db, arg, missing_key,
  wrong_type, command_handler,
}
use redrum_db.Commands.Reply.{bulk_reply, null_reply, ok_reply}
use Expiry.{set_expiry}

-- The push to the heap of expiries.
unfoldable pub note_expiry : Option ℕ → Bytes → Expiries → Expiries
unfolding push expires_before
note_expiry none key q = q
note_expiry (some t) key q = push expires_before (t, key) q

abbrev pub string_entry : Bytes → Option ℕ → Entry
string_entry value expiry = record { value = string value; expiry = expiry }

unfoldable pub set_body : Env → List Bytes → Handler Bytes
set_body env args = do
  key ← arg args 0 missing_key
  value ← arg args 1 (codes "-ERR missing value")
  expiry ← lift (set_expiry env args)
  modify (λ ctx. record ctx { expiries = note_expiry expiry key ctx.expiries })
  modify (λ ctx. record ctx { db = insert key (string_entry value expiry) ctx.db })
  reply ok_reply

unfoldable pub set : Env → List Bytes → Handler Bytes
unfolding command_handler set_body
set env args = command_handler (codes "set") (set_body env args)

-- `Instant::now() >= exp`
unfoldable pub is_expired : ℕ → Option ℕ → Bool
is_expired now none = false
is_expired now (some exp) = leb exp now

abbrev pub string_reply : Value → Handler Bytes
string_reply (string s) = reply (bulk_reply s)
string_reply (list xs) = fail wrong_type
string_reply (stream s) = fail wrong_type

-- What `get` does with an entry that it finds.
unfoldable pub get_entry : Env → Bytes → Entry → Handler Bytes
unfolding is_expired
get_entry env key e =
    if is_expired env.now e.expiry
    then (do modify (λ ctx. record ctx { db = erase key ctx.db }); reply null_reply)
    else string_reply e.value

unfoldable pub get_found : Env → Bytes → Option Entry → Handler Bytes
unfolding get_entry
get_found env key none = reply null_reply
get_found env key (some e) = get_entry env key e

unfoldable pub get_body : Env → List Bytes → Handler Bytes
unfolding get_found
get_body env args = do
  key ← arg args 0 missing_key
  found ← gets (λ ctx. lookup key ctx.db)
  get_found env key found

unfoldable pub get : Env → List Bytes → Handler Bytes
unfolding command_handler get_body
get env args = command_handler (codes "get") (get_body env args)
