-- ===== src/Server/Delivery.antt =====
-- server/mod.rs: what the subscribers of a channel are sent.
use redrum_db.Base.{
  ℕ, zero, suc, ◌-◌, ◌≡◌, refl, ap, sym, ◌∙◌, false, Option, none, some, List, [], ◌∷◌, ◌++◌, Bytes,
  length, append-nil, append_assoc, if◌then◌else◌, Option-cases, Bool-cases, inl, inr, ◌==◌, ==_iff,
}
use redrum_db.Base.Text.{codes}
use redrum_db.Base.Dict.{lookup}
use redrum_db.Base.Result.{ok}
use redrum_db.Commands.Context.{Context, publish, command_handler_normal}
use redrum_db.Commands.Reply.{integer_reply}
use redrum_db.Commands.Pubsub.{tokens_of, publish_handler, publish_body}
use redrum_db.Server.Connection.{Connection, send, Slab}
use redrum_db.Server.Request.{message_reply}
use redrum_db.Server.Deliver.{deliver, run_actions}

-- The tokens of the connection with the key `j`.
unfoldable pub copies : ℕ → List ℕ → ℕ
copies j [] = 0
copies j (token ∷ subs) = let rest = copies j subs in if j == (token - 1) then suc rest else rest

abbrev pub repeated : ℕ → Bytes → Bytes
repeated zero bytes = []
repeated (suc n) bytes = bytes ++ repeated n bytes

-- The bytes that are queued for a client, with others behind them.
abbrev pub queued : Option Connection → Bytes → Option Bytes
queued none more = none
queued (some conn) more = some (conn.write_buffer ++ more)

queued-send :
    (conn : Connection) (bytes more : Bytes)
    → queued (some (send bytes conn)) more ≡ queued (some conn) (bytes ++ more)
unfolding send
queued-send conn bytes more = ap some (append_assoc conn.write_buffer bytes more)

module _ (slab : Slab) where
  open slab use {Conns, get, set, get-set}

  deliver-queued :
      (bytes : Bytes) (subs : List ℕ) (conns : Conns) (j : ℕ) (more : Bytes)
      → queued (get (deliver slab bytes subs conns) j) more
        ≡ queued (get conns j) (repeated (copies j subs) bytes ++ more)
  unfolding deliver copies
  deliver-queued bytes [] conns j more = refl
  deliver-queued bytes (token ∷ subs) conns j more = elim (Option-cases (get conns (token - 1))) [
    | inl e ↦ rw e (deliver-queued bytes subs conns j more ∙ absent token subs bytes conns j more e)
    | inr (conn, e) ↦ rw e (
        deliver-queued bytes subs (set conns (token - 1) (send bytes conn)) j more
        ∙ sent token subs bytes conns conn j more e)
  ]
    where
      absent :
          (token : ℕ) (subs : List ℕ) (bytes : Bytes) (conns : Conns) (j : ℕ) (more : Bytes)
          → get conns (token - 1) ≡ none
          → queued (get conns j) (repeated (copies j subs) bytes ++ more)
            ≡ queued (get conns j) (
                repeated (if j == (token - 1) then suc (copies j subs) else copies j subs) bytes
                ++ more)
      absent token subs bytes conns j more e = elim (Bool-cases (j == (token - 1))) [
        | inl f ↦ rw ((==_iff j (token - 1)).0 f) (rw e refl)
        | inr f ↦ rw f refl
      ]

      sent :
          (token : ℕ) (subs : List ℕ) (bytes : Bytes) (conns : Conns) (conn : Connection) (j : ℕ)
          (more : Bytes)
          → get conns (token - 1) ≡ some conn
          → queued
              (get (set conns (token - 1) (send bytes conn)) j)
              (repeated (copies j subs) bytes ++ more)
            ≡ queued (get conns j) (
                repeated (if j == (token - 1) then suc (copies j subs) else copies j subs) bytes
                ++ more)
      sent token subs bytes conns conn j more e =
          rw (get-set conns (token - 1) (send bytes conn) conn j e)
            (elim (Bool-cases (j == (token - 1))) [
              | inl f ↦ rw f (
                  rw (ap (get conns) ((==_iff j (token - 1)).0 f) ∙ e) (
                    (queued-send conn bytes (repeated (copies j subs) bytes ++ more)
                      ∙ ap (queued (some conn))
                          (sym (append_assoc bytes (repeated (copies j subs) bytes) more)))))
              | inr f ↦ rw f refl
            ])

  -- Outside of the pub/sub mode and with no action left over, PUBLISH answers with the number of
  -- subscriptions to the channel, and its action queues the message for each client as often as the channel
  -- has its token, behind what is queued for the client; nothing is queued for anybody else.
  pub publish-queued :
      (channel message : Bytes) (args : List Bytes) (ctx : Context) (conns : Conns)
      → ctx.is_pubsub ≡ false
      → ctx.actions ≡ []
      → let subs = tokens_of (lookup channel ctx.pubsub) in
        let (r, ctx') = publish_handler (channel ∷ message ∷ args) ctx in
        (r ≡ ok (integer_reply (length subs)))
        × ((j : ℕ)
            → queued (get (run_actions slab ctx'.pubsub ctx'.actions conns) j) []
              ≡ queued (get conns j) (repeated (copies j subs) (message_reply channel message)))
  unfolding publish_handler publish_body run_actions tokens_of copies
  publish-queued channel message args ctx conns mode none_left =
      rw
        (command_handler_normal (codes "publish") (publish_body (channel ∷ message ∷ args)) ctx
          mode)
        (refl, λ j. rw none_left (one_action j))
    where
      one_action :
          (j : ℕ)
          → queued (get (run_actions slab ctx.pubsub (publish channel message ∷ []) conns) j) []
            ≡ queued (get conns j) (
                repeated
                  (copies j (tokens_of (lookup channel ctx.pubsub)))
                  (message_reply channel message))
      one_action j = elim (Option-cases (lookup channel ctx.pubsub)) [
        | inl e ↦ rw (e, run_actions) refl
        | inr (subs, e) ↦
            rw (e, run_actions)
              ((deliver-queued (message_reply channel message) subs conns j []
                ∙ ap (queued (get conns j))
                    (append-nil (repeated (copies j subs) (message_reply channel message)))))
      ]
