-- ===== src/Server/Timed.antt =====
-- server/: the clients that wait with a deadline, and the heap of the deadlines.
use redrum_db.Base.{
  ℕ, ◌-◌, ◌≡◌, refl, sym, ◌∙◌, true, Option, none, some, List, [], ◌∷◌, Bytes, ◌==◌, ==_iff,
  Bool-cases, Option-cases, inl, inr,
}
use redrum_db.Base.Dict.{lookup}
use redrum_db.Database.{Db, PubSub}
use redrum_db.Commands.Context.{Action, publish}
use redrum_db.Server.Connection.{Connection, send, unblock, Slab}
use redrum_db.Server.Blocking.{Timeouts, Queues, serve, take_first, wake_loop, wake_client}
use redrum_db.Server.Request.{message_reply}
use redrum_db.Server.Ticks.{ticks, IsOrdered}
use redrum_db.Server.Deliver.{deliver, run_actions}

abbrev pub IsTimed : Timeouts → ℕ → Connection → Type 0
IsTimed q j conn =
    (t : ℕ) → conn.block_deadline ≡ some t → (conn.blocked ≡ true) × (ticks j t q ≡ true)

abbrev pub TimedAt : Timeouts → ℕ → Option Connection → Type 0
TimedAt q j none = Unit
TimedAt q j (some conn) = IsTimed q j conn

none-ne-some : (t : ℕ) → none ≡ some t → ⊥
none-ne-some t e = cc

pub untimed-IsTimed :
    (q : Timeouts) (j : ℕ) (conn : Connection) → conn.block_deadline ≡ none → IsTimed q j conn
untimed-IsTimed q j conn e t h = absurd (none-ne-some t (sym e ∙ h))

pub send-IsTimed :
    (q : Timeouts) (j : ℕ) (bytes : Bytes) (conn : Connection)
    → IsTimed q j conn
    → IsTimed q j (send bytes conn)
unfolding send
send-IsTimed q j bytes conn h = h

serve-untimed :
    (key : Bytes) (db : Db) (conn : Connection) → (serve key db conn).0.block_deadline ≡ none
unfolding serve unblock send
serve-untimed key db conn = elim (Option-cases (take_first key db)) [
  | inl e ↦ rw (e, serve) refl
  | inr (p, e) ↦ rw (e, serve) refl
]

-- Where the heap has at least the tokens that it had, who was in it is in it.
pub TimedAt-grows :
    (q q' : Timeouts) (j : ℕ) (o : Option Connection)
    → ((t : ℕ) → ticks j t q ≡ true → ticks j t q' ≡ true)
    → TimedAt q j o
    → TimedAt q' j o
TimedAt-grows q q' j none grows h = tt
TimedAt-grows q q' j (some conn) grows h =
    λ t e. let (blocked, ticked) = h t e in (blocked, grows t ticked)

module _ (slab : Slab) where
  open slab use {
    Conns, get, set, remove, insert, next_key, get-set, get-remove, get-insert, next_key-set,
  }

  abbrev pub AllTimed : Timeouts → Conns → Type 0
  AllTimed q conns = (j : ℕ) → TimedAt q j (get conns j)

  pub set-AllTimed :
      (q : Timeouts) (conns : Conns) (i : ℕ) (c d : Connection)
      → AllTimed q conns
      → get conns i ≡ some d
      → IsTimed q i c
      → AllTimed q (set conns i c)
  set-AllTimed q conns i c d all found h j =
      rw (get-set conns i c d j found) (elim (Bool-cases (j == i)) [
        | inl e ↦ rw e (rw ((==_iff j i).0 e) h)
        | inr e ↦ rw e (all j)
      ])

  pub insert-AllTimed :
      (q : Timeouts) (conns : Conns) (c : Connection)
      → AllTimed q conns
      → IsTimed q (next_key conns) c
      → AllTimed q (insert conns c)
  insert-AllTimed q conns c all h j =
      rw (get-insert conns c j) (elim (Bool-cases (j == next_key conns)) [
        | inl e ↦ rw e (rw ((==_iff j (next_key conns)).0 e) h)
        | inr e ↦ rw e (all j)
      ])

  pub remove-AllTimed :
      (q : Timeouts) (conns : Conns) (i : ℕ) → AllTimed q conns → AllTimed q (remove conns i)
  remove-AllTimed q conns i all j =
      rw (get-remove conns i j)
        (elim (Bool-cases (j == i)) [ inl e ↦ rw e tt | inr e ↦ rw e (all j) ])

  pub found-IsTimed :
      (q : Timeouts) (conns : Conns) (i : ℕ) (c : Connection)
      → AllTimed q conns
      → get conns i ≡ some c
      → IsTimed q i c
  found-IsTimed q conns i c all e = rw e at (all i)

  -- What the messages leave: the heap is in order, who waits with a deadline is in it, and the key of the next connection is what it was.
  abbrev pub Leaves : Timeouts → ℕ → Conns → Type 0
  Leaves q i conns = IsOrdered q × AllTimed q conns × (next_key conns ≡ i)

  deliver-Leaves :
      (q : Timeouts) (i : ℕ) (bytes : Bytes) (subs : List ℕ) (conns : Conns)
      → Leaves q i conns
      → Leaves q i (deliver slab bytes subs conns)
  unfolding deliver
  deliver-Leaves q i bytes [] conns h = h
  deliver-Leaves q i bytes (token ∷ subs) conns h = elim (Option-cases (get conns (token - 1))) [
    | inl e ↦ rw e (deliver-Leaves q i bytes subs conns h)
    | inr (c, e) ↦ rw e (
        deliver-Leaves q i bytes subs (set conns (token - 1) (send bytes c)) (
          h.0,
          set-AllTimed q conns (token - 1) (send bytes c) c h.1 e
              (send-IsTimed q (token - 1) bytes c (found-IsTimed q conns (token - 1) c h.1 e)),
          next_key-set conns (token - 1) (send bytes c) ∙ h.2,
        ))
  ]

  pub run_actions-Leaves :
      (q : Timeouts) (i : ℕ) (pubsub : PubSub) (actions : List Action) (conns : Conns)
      → Leaves q i conns
      → Leaves q i (run_actions slab pubsub actions conns)
  unfolding run_actions
  run_actions-Leaves q i pubsub [] conns h = h
  run_actions-Leaves q i pubsub (publish channel message ∷ actions) conns h =
      let rest = run_actions-Leaves q i pubsub actions conns h in
      elim (Option-cases (lookup channel pubsub)) [
        | inl e ↦ rw (e, run_actions) rest
        | inr (subs, e) ↦
            rw (e, run_actions) (deliver-Leaves q i (message_reply channel message) subs _ rest)
      ]

  wake_loop-AllTimed :
      (q : Timeouts) (key : Bytes) (db : Db) (conns : Conns) (queue : List ℕ)
      → AllTimed q conns
      → AllTimed q (wake_loop slab key db conns queue).1
  unfolding wake_loop
  wake_loop-AllTimed q key db conns [] all = all
  wake_loop-AllTimed q key db conns (token ∷ queue) all =
      let rest = wake_loop-AllTimed q key db conns queue all in
      elim (Option-cases (get conns (token - 1))) [
        | inl e ↦ rw (e, wake_loop) rest
        | inr (c, e) ↦ elim (Bool-cases c.blocked) [
          | inl waiting ↦
              rw (e, wake_loop)
                (rw waiting (
                  set-AllTimed q conns (token - 1) (serve key db c).0 c all e
                    (untimed-IsTimed q (token - 1) (serve key db c).0 (serve-untimed key db c))))
          | inr other ↦ rw (e, wake_loop) (rw other rest)
        ]
      ]

  pub wake_client-AllTimed :
      (q : Timeouts) (key : Bytes) (db : Db) (queues : Queues) (conns : Conns)
      → AllTimed q conns
      → AllTimed q (wake_client slab key db queues conns).2
  unfolding wake_client
  wake_client-AllTimed q key db queues conns all = elim (Option-cases (lookup key queues)) [
    | inl e ↦ rw (e, wake_client) all
    | inr (queue, e) ↦ rw (e, wake_client) (wake_loop-AllTimed q key db conns queue all)
  ]
