-- ===== src/Server/Deliver.antt =====
-- server/mod.rs: the messages to the subscribers.
use redrum_db.Base.{ℕ, ◌-◌, none, some, List, [], ◌∷◌, Bytes}
use redrum_db.Base.Dict.{lookup}
use redrum_db.Database.{PubSub}
use redrum_db.Commands.Context.{Action, publish}
use redrum_db.Server.Connection.{send, Slab}
use redrum_db.Server.Request.{message_reply}

module _ (slab : Slab) where
  open slab use {Conns, get, set, remove}

  -- The loop over the tokens of a channel: who has no connection is passed over.
  unfoldable pub deliver : Bytes → List ℕ → Conns → Conns
  unfolding send
  deliver bytes [] conns = conns
  deliver bytes (token ∷ subs) conns = deliver bytes subs (elim (get conns (token - 1)) [
    | none ↦ conns
    | some conn ↦ set conns (token - 1) (send bytes conn)
  ])

  -- The loop over the actions, the last one first.
  unfoldable pub run_actions : PubSub → List Action → Conns → Conns
  unfolding deliver
  run_actions pubsub [] conns = conns
  run_actions pubsub (publish channel message ∷ actions) conns =
      let conns' = run_actions pubsub actions conns in
      elim (lookup channel pubsub) [
        | none ↦ conns'
        | some subs ↦ deliver (message_reply channel message) subs conns'
      ]
