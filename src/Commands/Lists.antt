-- ===== src/Commands/Lists.antt =====
-- commands/handlers/lists.rs
pub mod Range
pub mod Laws
pub mod Pops
pub mod Select
use redrum_db.Base.{
  ℕ, zero, suc, ◌+◌, ◌-◌, Bool, Option, none, some, List, [], ◌∷◌, ◌++◌, Bytes, length, get_elem?,
  drop, ltb, ◌==◌, if◌then◌else◌,
}
use redrum_db.Base.Result.{Result, ok, err, panic, ok_or, or_panic}
use redrum_db.Base.Text.{codes, line, crlf}
use redrum_db.Base.Dict.{lookup, insert}
use redrum_db.Database.{Db, Value, string, list, stream, Entry}
use redrum_db.Parser.Usize.{parse_usize}
use redrum_db.Commands.Context.{
  Context, Handler, ◌>>=◌, ◌>>◌, lift, reply, fail, gets, modify, arg, missing_key, wrong_type,
  command_handler,
}
use redrum_db.Commands.Reply.{bulk_reply, integer_reply, array_header, null_reply, empty_array}
use Range.{lrange_reply}

-- The loops of `push_back` and `push_front` over the values.
unfoldable pub push_back_all : List Bytes → List Bytes → List Bytes
push_back_all xs [] = xs
push_back_all xs (v ∷ vs) = push_back_all (xs ++ (v ∷ [])) vs

unfoldable pub push_front_all : List Bytes → List Bytes → List Bytes
push_front_all xs [] = xs
push_front_all xs (v ∷ vs) = push_front_all (v ∷ xs) vs

abbrev pub new_list : Entry × List Bytes
new_list = (record { value = list []; expiry = none }, [])

unfoldable pub list_or_new : Entry → Value → Entry × List Bytes
list_or_new e (list xs) = (e, xs)
list_or_new e (string s) = new_list
list_or_new e (stream s) = new_list

-- The entry that a list under the key has, or that a new list gets where there is none.
unfoldable pub entry_or_new : Option Entry → Entry × List Bytes
unfolding list_or_new
entry_or_new none = new_list
entry_or_new (some e) = list_or_new e e.value

-- `rpush` and `lpush`, for the loop that they have.
unfoldable pub push_body : (List Bytes → List Bytes → List Bytes) → List Bytes → Handler Bytes
unfolding entry_or_new
push_body push_all args = do
  key ← arg args 0 missing_key
  if ltb (length args) 2 then fail (line "-ERR wrong number of arguments") else (do
    found ← gets (λ ctx. lookup key ctx.db)
    let old = entry_or_new found
    let xs = push_all old.1 (drop 1 args)
    modify (λ ctx. record ctx { db = insert key (record (old.0) { value = list xs }) ctx.db })
    reply (integer_reply (length xs)))

unfoldable pub rpush : List Bytes → Handler Bytes
unfolding command_handler push_body push_back_all
rpush args = command_handler (codes "rpush") (push_body push_back_all args)

unfoldable pub lpush : List Bytes → Handler Bytes
unfolding command_handler push_body push_front_all
lpush args = command_handler (codes "lpush") (push_body push_front_all args)

unfoldable pub lrange_value : Value → Bytes → Bytes → Handler Bytes
unfolding lrange_reply
lrange_value (list xs) start stop = lift (lrange_reply xs start stop)
lrange_value (string s) start stop = fail wrong_type
lrange_value (stream s) start stop = fail wrong_type

unfoldable pub lrange_found : Option Entry → Bytes → Bytes → Handler Bytes
unfolding lrange_value
lrange_found none start stop = reply empty_array
lrange_found (some e) start stop = lrange_value e.value start stop

unfoldable pub lrange_body : List Bytes → Handler Bytes
unfolding lrange_found
lrange_body args = do
  key ← arg args 0 missing_key
  start ← arg args 1 (codes "-ERR missing start")
  stop ← arg args 2 (codes "-ERR missing stop")
  found ← gets (λ ctx. lookup key ctx.db)
  lrange_found found start stop

unfoldable pub lrange : List Bytes → Handler Bytes
unfolding command_handler lrange_body
lrange args = command_handler (codes "lrange") (lrange_body args)

abbrev pub llen_value : Value → Handler Bytes
llen_value (list xs) = reply (integer_reply (length xs))
llen_value (string s) = fail wrong_type
llen_value (stream s) = fail wrong_type

unfoldable pub llen_found : Option Entry → Handler Bytes
llen_found none = reply (integer_reply 0)
llen_found (some e) = llen_value e.value

unfoldable pub llen_body : List Bytes → Handler Bytes
unfolding llen_found
llen_body args = do
  key ← arg args 0 missing_key
  found ← gets (λ ctx. lookup key ctx.db)
  llen_found found

unfoldable pub llen : List Bytes → Handler Bytes
unfolding command_handler llen_body
llen args = command_handler (codes "llen") (llen_body args)

-- The count of `lpop`.
unfoldable pub pop_count : Option Bytes → Result Bytes ℕ
pop_count none = ok 1
pop_count (some text) = or_panic (parse_usize text)

-- The loop over the items: what is left of the list, what is written, and how many were there.
unfoldable pub pop_many : ℕ → List Bytes → Bytes → ℕ → List Bytes × Bytes × ℕ
pop_many zero xs res actual = (xs, res, actual)
pop_many (suc count) [] res actual = ([], res, actual)
pop_many (suc count) (x ∷ xs) res actual = pop_many count xs (res ++ bulk_reply x) (actual + 1)

-- The list behind the pop, and the reply, for a list that is not empty.
unfoldable pub pop_reply : ℕ → Bytes → List Bytes → List Bytes × Bytes
unfolding pop_many
pop_reply count x xs =
    if count == 1
    then (xs, bulk_reply x)
    else (let (rest, res, actual) = pop_many count (x ∷ xs) [] 0 in
        (rest, if actual == 0 then empty_array else array_header actual ++ res))

abbrev pub set_list : Bytes → Entry → List Bytes → Handler (Unit {0})
set_list key e xs =
    modify (λ ctx. record ctx { db = insert key (record e { value = list xs }) ctx.db })

unfoldable pub lpop_list : Bytes → Entry → Option Bytes → List Bytes → Handler Bytes
unfolding pop_count pop_reply
lpop_list key e count_text [] = reply null_reply
lpop_list key e count_text (x ∷ xs) = do
  count ← lift (pop_count count_text)
  set_list key e (pop_reply count x xs).0
  reply (pop_reply count x xs).1

unfoldable pub lpop_value : Bytes → Entry → Option Bytes → Value → Handler Bytes
unfolding lpop_list
lpop_value key e count_text (list xs) = lpop_list key e count_text xs
lpop_value key e count_text (string s) = fail wrong_type
lpop_value key e count_text (stream s) = fail wrong_type

unfoldable pub lpop_found : Bytes → Option Bytes → Option Entry → Handler Bytes
unfolding lpop_value
lpop_found key count_text none = reply null_reply
lpop_found key count_text (some e) = lpop_value key e count_text e.value

unfoldable pub lpop_body : List Bytes → Handler Bytes
unfolding lpop_found
lpop_body args = do
  key ← arg args 0 missing_key
  found ← gets (λ ctx. lookup key ctx.db)
  lpop_found key (get_elem? args 1) found

unfoldable pub lpop : List Bytes → Handler Bytes
unfolding command_handler lpop_body
lpop args = command_handler (codes "lpop") (lpop_body args)

-- The error that asks the event loop to block the client.
abbrev pub block : Bytes
block = codes "__BLOCK__"

-- The key and the item that `blpop` answers with.
abbrev pub popped_reply : Bytes → Bytes → Bytes
popped_reply key val = line "*2" ++ (bulk_reply key ++ bulk_reply val)

unfoldable pub blpop_value : Bytes → Entry → Value → Handler Bytes
blpop_value key e (list []) = fail block
blpop_value key e (list (x ∷ rest)) = do set_list key e rest; reply (popped_reply key x)
blpop_value key e (string s) = fail block
blpop_value key e (stream s) = fail block

unfoldable pub blpop_found : Bytes → Option Entry → Handler Bytes
unfolding blpop_value
blpop_found key none = fail block
blpop_found key (some e) = blpop_value key e e.value

unfoldable pub blpop_body : List Bytes → Handler Bytes
unfolding blpop_found
blpop_body args = do
  key ← arg args 0 missing_key
  timeout ← arg args 1 (codes "-ERR missing timeout")
  found ← gets (λ ctx. lookup key ctx.db)
  blpop_found key found

unfoldable pub blpop : List Bytes → Handler Bytes
unfolding command_handler blpop_body
blpop args = command_handler (codes "blpop") (blpop_body args)
