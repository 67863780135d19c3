-- ===== src/Server/Waiting.antt =====
-- server/blocking.rs: a push, and the clients that wait for an item.
use redrum_db.Base.{
  ℕ, ◌-◌, ◌≡◌, refl, ap, ◌∙◌, Bool, true, false, Option, none, some, List, [], ◌∷◌, ◌++◌, Bytes,
  bytes_eq, length, ◌==◌, if◌then◌else◌, Option-cases, inl, inr,
}
use redrum_db.Base.Dict.{lookup, insert, lookup-insert, lookup-insert_self, lookup-insert_other}
use redrum_db.Database.{Db, Value, Entry, string, list, stream}
use redrum_db.Commands.Context.{Context}
use redrum_db.Commands.Lists.{popped_reply, rpush, lpush}
use redrum_db.Commands.Lists.Laws.{items_of, value_items, onto, items_of-push}
use redrum_db.Server.Connection.{Connection, Slab, send, unblock}
use redrum_db.Server.Blocking.{
  Queues, serve, take_first, take_found, take_value, wake_loop, wake_client,
}

abbrev pub is_waiting : Option Connection → Bool
is_waiting none = false
is_waiting (some conn) = conn.blocked

nil-ne-cons : (x : Bytes) (items : List Bytes) → [] ≡ x ∷ items → ⊥
nil-ne-cons x items e = cc

append-ne-nil : (xs : List Bytes) (v : Bytes) (vs : List Bytes) → xs ++ (v ∷ vs) ≡ [] → ⊥
append-ne-nil [] v vs e = cc
append-ne-nil (x ∷ xs) v vs e = cc

onto-ne-nil : (vs : List Bytes) (v : Bytes) (xs : List Bytes) → onto vs (v ∷ xs) ≡ [] → ⊥
onto-ne-nil [] v xs e = cc
onto-ne-nil (w ∷ vs) v xs e = onto-ne-nil vs w (v ∷ xs) e

-- A key with an item has an entry with a list.
items_of-entry :
    (o : Option Entry) (x : Bytes) (items : List Bytes)
    → items_of o ≡ x ∷ items
    → (e : Entry) × (o ≡ some e) × (e.value ≡ list (x ∷ items))
items_of-entry none x items h = absurd (nil-ne-cons x items h)
items_of-entry (some e) x items h = (e, refl, of_value e.value h)
  where
    of_value : (v : Value) → value_items v ≡ x ∷ items → v ≡ list (x ∷ items)
    of_value (list xs) k = ap list k
    of_value (string s) k = absurd (nil-ne-cons x items k)
    of_value (stream s) k = absurd (nil-ne-cons x items k)

take_first-list :
    (key : Bytes) (db : Db) (e : Entry) (x : Bytes) (items : List Bytes)
    → lookup key db ≡ some e
    → e.value ≡ list (x ∷ items)
    → take_first key db ≡ some (x, insert key (record e { value = list items }) db)
unfolding take_first take_found take_value
take_first-list key db e x items found value = rw (found, take_first) (rw (value, take_value) refl)

serve-list :
    (key : Bytes) (db : Db) (e : Entry) (x : Bytes) (items : List Bytes) (conn : Connection)
    → lookup key db ≡ some e
    → e.value ≡ list (x ∷ items)
    → serve key db conn
      ≡ (send (popped_reply key x) (unblock conn), insert key (record e { value = list items }) db)
unfolding serve
serve-list key db e x items conn found value =
    rw (take_first-list key db e x items found value, serve) refl

-- What a woken client has: the reply at the end of its write buffer, and no wait.
abbrev pub served_with : Bytes → Connection → Connection
served_with bytes conn = record conn {
  write_buffer = conn.write_buffer ++ bytes;
  writable = if length conn.write_buffer == 0 then true else conn.writable;
  blocked = false;
  block_key = none;
  block_deadline = none;
}

module _ (slab : Slab) where
  open slab use {Conns, get, set, remove, insert, get-set, get-remove, get-insert, next_key-remove}

  -- The clients of these tokens are gone or do not wait.
  abbrev pub AllIdle : Conns → List ℕ → Type 0
  AllIdle conns [] = Unit
  AllIdle conns (token ∷ queue) = (is_waiting (get conns (token - 1)) ≡ false) × AllIdle conns queue

  wake_loop-first :
      (key : Bytes) (db : Db) (conns : Conns) (idle : List ℕ) (token : ℕ) (queue : List ℕ)
      (conn : Connection)
      → AllIdle conns idle
      → get conns (token - 1) ≡ some conn
      → conn.blocked ≡ true
      → wake_loop slab key db conns (idle ++ (token ∷ queue))
        ≡ ((serve key db conn).1, set conns (token - 1) (serve key db conn).0, queue)
  unfolding wake_loop
  wake_loop-first key db conns [] token queue conn all found blocked =
      rw (found, wake_loop) (rw blocked refl)
  wake_loop-first key db conns (t ∷ idle) token queue conn all found blocked =
      let rest = wake_loop-first key db conns idle token queue conn all.1 found blocked in
      elim (Option-cases (get conns (t - 1))) [
        | inl e ↦ rw (e, wake_loop) rest
        | inr (c, e) ↦ rw (e, wake_loop) (rw (rw e at all.0) rest)
      ]

  -- The item `x` of the key goes to the client of the token, and the list keeps the other items; the queue
  -- keeps the tokens behind the client's, and every other key, queue and connection is as it was.
  abbrev pub Gives :
      Bytes
      → Bytes
      → List Bytes
      → List ℕ
      → ℕ
      → Connection
      → Db
      → Queues
      → Conns
      → Db × Queues × Conns
      → Type 0
  Gives key x items queue token conn db queues conns (db', queues', conns') =
      (items_of (lookup key db') ≡ items)
      × ((j : Bytes) → bytes_eq j key ≡ false → lookup j db' ≡ lookup j db)
      × ((j : Bytes) → lookup j queues' ≡ (if bytes_eq j key then some queue else lookup j queues))
      × ((j : ℕ)
          → get conns' j ≡ (
              if j == (token - 1)
              then some (served_with (popped_reply key x) conn)
              else get conns j))

  pub wake_client-first :
      (key : Bytes) (db : Db) (queues : Queues) (conns : Conns) (idle : List ℕ) (token : ℕ)
      (queue : List ℕ) (conn : Connection) (x : Bytes) (items : List Bytes)
      → lookup key queues ≡ some (idle ++ (token ∷ queue))
      → AllIdle conns idle
      → get conns (token - 1) ≡ some conn
      → conn.blocked ≡ true
      → items_of (lookup key db) ≡ x ∷ items
      → Gives key x items queue token conn db queues conns (wake_client slab key db queues conns)
  unfolding wake_client send unblock
  wake_client-first key db queues conns idle token queue conn x items queued all found blocked has =
      let (e, there, value) = items_of-entry (lookup key db) x items has in
      rw (queued, wake_client)
        (rw (wake_loop-first key db conns idle token queue conn all found blocked, wake_client)
          (rw (serve-list key db e x items conn there value) (
            rw (lookup-insert_self key (record e { value = list items }) db) refl,
            λ j f. lookup-insert_other key j (record e { value = list items }) db f,
            (λ j. lookup-insert key j queue queues),
            (λ j. get-set conns (token - 1) _ conn j found),
          )))

  -- The same for the first item of a list, which is not empty.
  abbrev pub GivesFirst :
      Bytes
      → List Bytes
      → List ℕ
      → ℕ
      → Connection
      → Db
      → Queues
      → Conns
      → Db × Queues × Conns
      → Type 0
  GivesFirst key [] queue token conn db queues conns after = ⊥
  GivesFirst key (x ∷ items) queue token conn db queues conns after =
      Gives key x items queue token conn db queues conns after

  -- Outside of the pub/sub mode, after RPUSH or LPUSH of at least one value: where the queue of the key has a
  -- client that waits, for whatever key it waits, behind tokens of clients that are gone or do not wait,
  -- `wake_client` gives that client the first item of the list with the pushed values. The reply with the
  -- key and the item goes to the end of its write buffer and its wait ends; the list keeps the other items,
  -- the queue the tokens behind the client's, and every other connection, key and queue is as it was before
  -- the push.
  pub wake_client-push :
      (key v : Bytes) (vs : List Bytes) (ctx : Context) (queues : Queues) (conns : Conns)
      (idle : List ℕ) (token : ℕ) (queue : List ℕ) (conn : Connection)
      → ctx.is_pubsub ≡ false
      → lookup key queues ≡ some (idle ++ (token ∷ queue))
      → AllIdle conns idle
      → get conns (token - 1) ≡ some conn
      → conn.blocked ≡ true
      → GivesFirst key
          (items_of (lookup key ctx.db) ++ (v ∷ vs))
          queue
          token
          conn
          ctx.db
          queues
          conns
          (wake_client slab key (rpush (key ∷ v ∷ vs) ctx).1.db queues conns)
        × GivesFirst key
            (onto (v ∷ vs) (items_of (lookup key ctx.db)))
            queue
            token
            conn
            ctx.db
            queues
            conns
            (wake_client slab key (lpush (key ∷ v ∷ vs) ctx).1.db queues conns)
  wake_client-push key v vs ctx queues conns idle token queue conn mode queued all found blocked =
      let (back, front) = items_of-push key v vs ctx mode in
      let xs = items_of (lookup key ctx.db) in
      (
        after (xs ++ (v ∷ vs)) (rpush (key ∷ v ∷ vs) ctx).1.db (append-ne-nil xs v vs) back.1
            back.2,
        after (onto (v ∷ vs) xs) (lpush (key ∷ v ∷ vs) ctx).1.db (onto-ne-nil vs v xs) front.1
            front.2,
      )
    where
      after :
          (xs : List Bytes) (db : Db)
          → (xs ≡ [] → ⊥)
          → items_of (lookup key db) ≡ xs
          → ((j : Bytes) → bytes_eq j key ≡ false → lookup j db ≡ lookup j ctx.db)
          → GivesFirst key xs queue token conn ctx.db queues conns
              (wake_client slab key db queues conns)
      after [] db full has others = full refl
      after (x ∷ items) db full has others =
          let (list_is, keys, tokens, own) =
            wake_client-first key db queues conns idle token queue conn x items queued all found
              blocked has in
          (list_is, λ j e. keys j e ∙ others j e, tokens, own)
