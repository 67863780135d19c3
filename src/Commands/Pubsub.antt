-- ===== src/Commands/Pubsub.antt =====
-- commands/handlers/pubsub.rs
pub mod Laws
use redrum_db.Base.{
  ℕ, Bool, true, false, Option, none, some, List, [], ◌∷◌, ◌++◌, Bytes, length, bytes_eq, ◌==◌,
  if◌then◌else◌,
}
use redrum_db.Base.Decimal.{show}
use redrum_db.Base.Text.{codes, line, crlf}
use redrum_db.Base.Dict.{lookup, insert}
use redrum_db.Database.{PubSub}
use redrum_db.Commands.Context.{
  Context, Action, publish, Handler, ◌>>=◌, ◌>>◌, lift, reply, fail, gets, modify, arg, missing_key,
  command_handler, contains_bytes,
}
use redrum_db.Commands.Reply.{bulk_reply, integer_reply}

-- The tokens under a channel, if it has an entry.
unfoldable pub tokens_of : Option (List ℕ) → List ℕ
tokens_of none = []
tokens_of (some ts) = ts

-- `entry(channel).or_insert_with(Vec::new).push(token)`
unfoldable pub add_token : Bytes → ℕ → PubSub → PubSub
unfolding tokens_of
add_token channel token p = insert channel (tokens_of (lookup channel p) ++ (token ∷ [])) p

-- `remove` at the `position` of the value, if there is one.
unfoldable pub remove_token : ℕ → List ℕ → List ℕ
remove_token t [] = []
remove_token t (x ∷ xs) = if x == t then xs else x ∷ remove_token t xs

unfoldable pub remove_channel : Bytes → List Bytes → List Bytes
remove_channel c [] = []
remove_channel c (x ∷ xs) = if bytes_eq c x then xs else x ∷ remove_channel c xs

-- `entry(channel).and_modify(…)`
unfoldable pub drop_token : Bytes → ℕ → PubSub → PubSub
unfolding remove_token
drop_token channel token p = elim (lookup channel p) [
  | none ↦ p
  | some ts ↦ insert channel (remove_token token ts) p
]

-- The channel and the number of subscriptions behind the kind of the message.
abbrev pub subscription_reply : Bytes → Bytes → ℕ → Bytes
subscription_reply kind channel n =
    line "*3" ++ (bulk_reply kind ++ (bulk_reply channel ++ integer_reply n))

unfoldable pub subscribe_body : List Bytes → Handler Bytes
unfolding add_token
subscribe_body args = do
  channel ← arg args 0 missing_key
  modify (λ ctx. record ctx { subscriptions = ctx.subscriptions ++ (channel ∷ []) })
  modify (λ ctx. record ctx { is_pubsub = true })
  modify (λ ctx. record ctx { pubsub = add_token channel ctx.token ctx.pubsub })
  n ← gets (λ ctx. length ctx.subscriptions)
  reply (subscription_reply (codes "subscribe") channel n)

unfoldable pub subscribe : List Bytes → Handler Bytes
unfolding command_handler subscribe_body
subscribe args = command_handler (codes "subscribe") (subscribe_body args)

unfoldable pub publish_body : List Bytes → Handler Bytes
unfolding tokens_of
publish_body args = do
  channel ← arg args 0 missing_key
  message ← arg args 1 missing_key
  subs ← gets (λ ctx. tokens_of (lookup channel ctx.pubsub))
  modify (λ ctx. record ctx { actions = ctx.actions ++ (publish channel message ∷ []) })
  reply (integer_reply (length subs))

unfoldable pub publish_handler : List Bytes → Handler Bytes
unfolding command_handler publish_body
publish_handler args = command_handler (codes "publish") (publish_body args)

-- What happens where the client has the channel.
unfoldable pub leave : Bytes → Context → Context
unfolding remove_channel drop_token
leave channel ctx =
    if contains_bytes ctx.subscriptions channel
    then (record ctx {
      subscriptions = remove_channel channel ctx.subscriptions;
      pubsub = drop_token channel ctx.token ctx.pubsub;
    })
    else ctx

-- The body, for a client that is in the pub/sub mode or is not.
unfoldable pub unsubscribe_in : Bool → List Bytes → Handler Bytes
unfolding leave
unsubscribe_in true args = do
  channel ← arg args 0 missing_key
  modify (leave channel)
  n ← gets (λ ctx. length ctx.subscriptions)
  reply (subscription_reply (codes "unsubscribe") channel n)
unsubscribe_in false args = reply (codes "-Err not in subscribed mode")

unfoldable pub unsubscribe_body : List Bytes → Handler Bytes
unfolding unsubscribe_in
unsubscribe_body args = do is_pubsub ← gets (λ ctx. ctx.is_pubsub); unsubscribe_in is_pubsub args

unfoldable pub unsubscribe : List Bytes → Handler Bytes
unfolding command_handler unsubscribe_body
unsubscribe args = command_handler (codes "unsubscribe") (unsubscribe_body args)
