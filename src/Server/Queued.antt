-- ===== src/Server/Queued.antt =====
-- server/: the clients that wait and the queues in which they stand.
use redrum_db.Base.{
  ℕ, ◌-◌, ◌≡◌, refl, sym, ◌∙◌, Bool, true, false, ◌||◌, Option, none, some, List, [], ◌∷◌, ◌++◌,
  Bytes, ◌==◌, ==_iff, ltb, arith, Bool-cases, Option-cases, inl, inr,
}
use redrum_db.Base.Dict.{lookup}
use redrum_db.Database.{Db, PubSub}
use redrum_db.Commands.Context.{Action, publish}
use redrum_db.Server.Connection.{Connection, send, unblock, Slab}
use redrum_db.Server.Blocking.{
  Timeouts, Queues, serve, take_first, time_out, cleanup_blocked, null_array,
}
use redrum_db.Server.Request.{message_reply, queue_of}
use redrum_db.Server.Deliver.{deliver, run_actions}

-- The queue has a token of the connection with the key `j`.
unfoldable pub stands : ℕ → List ℕ → Bool
stands j [] = false
stands j (token ∷ queue) = (j == (token - 1)) || stands j queue

pub stands-append : (j : ℕ) (q r : List ℕ) → stands j (q ++ r) ≡ (stands j q || stands j r)
unfolding stands
stands-append j [] r = refl
stands-append j (t ∷ q) r = ground (arith, stands-append j q r)

abbrev pub IsQueued : Queues → ℕ → Connection → Type 0
IsQueued queues j conn =
    conn.blocked ≡ true
    → (k : Bytes) × (conn.block_key ≡ some k) × (stands j (queue_of (lookup k queues)) ≡ true)

abbrev pub QueuedAt : Queues → ℕ → Option Connection → Type 0
QueuedAt queues j none = Unit
QueuedAt queues j (some conn) = IsQueued queues j conn

false-ne-true : false ≡ true → ⊥
false-ne-true e = cc

pub idle-IsQueued :
    (queues : Queues) (j : ℕ) (conn : Connection) → conn.blocked ≡ false → IsQueued queues j conn
idle-IsQueued queues j conn idle blocked = absurd (false-ne-true (sym idle ∙ blocked))

pub send-IsQueued :
    (queues : Queues) (j : ℕ) (bytes : Bytes) (conn : Connection)
    → IsQueued queues j conn
    → IsQueued queues j (send bytes conn)
unfolding send
send-IsQueued queues j bytes conn h = h

pub serve-idle : (key : Bytes) (db : Db) (conn : Connection) → (serve key db conn).0.blocked ≡ false
unfolding serve unblock send
serve-idle key db conn = elim (Option-cases (take_first key db)) [
  | inl e ↦ rw (e, serve) refl
  | inr (p, e) ↦ rw (e, serve) refl
]

-- Where each queue has at least the tokens that it had, who was queued is queued.
pub QueuedAt-grows :
    (queues queues' : Queues) (j : ℕ) (o : Option Connection)
    → ((k : Bytes)
        → stands j (queue_of (lookup k queues)) ≡ true
        → stands j (queue_of (lookup k queues')) ≡ true)
    → QueuedAt queues j o
    → QueuedAt queues' j o
QueuedAt-grows queues queues' j none grows h = tt
QueuedAt-grows queues queues' j (some conn) grows h =
    λ blocked. let (k, key, stood) = h blocked in (k, key, grows k stood)

module _ (slab : Slab) where
  open slab use {
    Conns, get, set, remove, insert, next_key, get-set, get-remove, get-insert, next_key-set,
  }

  abbrev pub AllQueued : Queues → Conns → Type 0
  AllQueued queues conns = (j : ℕ) → QueuedAt queues j (get conns j)

  set-AllQueued :
      (queues : Queues) (conns : Conns) (i : ℕ) (c d : Connection)
      → AllQueued queues conns
      → get conns i ≡ some d
      → IsQueued queues i c
      → AllQueued queues (set conns i c)
  set-AllQueued queues conns i c d all found h j =
      rw (get-set conns i c d j found) (elim (Bool-cases (j == i)) [
        | inl e ↦ rw e (rw ((==_iff j i).0 e) h)
        | inr e ↦ rw e (all j)
      ])

  pub insert-AllQueued :
      (queues : Queues) (conns : Conns) (c : Connection)
      → AllQueued queues conns
      → IsQueued queues (next_key conns) c
      → AllQueued queues (insert conns c)
  insert-AllQueued queues conns c all h j =
      rw (get-insert conns c j) (elim (Bool-cases (j == next_key conns)) [
        | inl e ↦ rw e (rw ((==_iff j (next_key conns)).0 e) h)
        | inr e ↦ rw e (all j)
      ])

  pub remove-AllQueued :
      (queues : Queues) (conns : Conns) (i : ℕ)
      → AllQueued queues conns
      → AllQueued queues (remove conns i)
  remove-AllQueued queues conns i all j =
      rw (get-remove conns i j)
        (elim (Bool-cases (j == i)) [ inl e ↦ rw e tt | inr e ↦ rw e (all j) ])

  pub found-IsQueued :
      (queues : Queues) (conns : Conns) (i : ℕ) (c : Connection)
      → AllQueued queues conns
      → get conns i ≡ some c
      → IsQueued queues i c
  found-IsQueued queues conns i c all e = rw e at (all i)

  -- What the messages leave: who waits is queued, and the key of the next connection is what it was.
  abbrev pub Leaves : Queues → ℕ → Conns → Type 0
  Leaves queues i conns = AllQueued queues conns × (next_key conns ≡ i)

  deliver-Leaves :
      (queues : Queues) (i : ℕ) (bytes : Bytes) (subs : List ℕ) (conns : Conns)
      → Leaves queues i conns
      → Leaves queues i (deliver slab bytes subs conns)
  unfolding deliver
  deliver-Leaves queues i bytes [] conns h = h
  deliver-Leaves queues i bytes (token ∷ subs) conns h =
      elim (Option-cases (get conns (token - 1))) [
        | inl e ↦ rw e (deliver-Leaves queues i bytes subs conns h)
        | inr (c, e) ↦ rw e (
            deliver-Leaves queues i bytes subs (set conns (token - 1) (send bytes c)) (
              set-AllQueued queues conns (token - 1) (send bytes c) c h.0 e (
                  send-IsQueued queues (token - 1) bytes c
                    (found-IsQueued queues conns (token - 1) c h.0 e)),
              next_key-set conns (token - 1) (send bytes c) ∙ h.1,
            ))
      ]

  pub run_actions-Leaves :
      (queues : Queues) (i : ℕ) (pubsub : PubSub) (actions : List Action) (conns : Conns)
      → Leaves queues i conns
      → Leaves queues i (run_actions slab pubsub actions conns)
  unfolding run_actions
  run_actions-Leaves queues i pubsub [] conns h = h
  run_actions-Leaves queues i pubsub (publish channel message ∷ actions) conns h =
      let rest = run_actions-Leaves queues i pubsub actions conns h in
      elim (Option-cases (lookup channel pubsub)) [
        | inl e ↦ rw (e, run_actions) rest
        | inr (subs, e) ↦
            rw (e, run_actions)
              (deliver-Leaves queues i (message_reply channel message) subs _ rest)
      ]

  time_out-AllQueued :
      (queues : Queues) (token : ℕ) (conns : Conns)
      → AllQueued queues conns
      → AllQueued queues (time_out slab token conns)
  unfolding time_out send unblock
  time_out-AllQueued queues token conns all = elim (Option-cases (get conns (token - 1))) [
    | inl e ↦ rw (e, time_out) all
    | inr (c, e) ↦ elim (Bool-cases c.blocked) [
      | inl waiting ↦
          rw (e, time_out)
            (rw waiting (
              set-AllQueued queues conns (token - 1) _ c all e
                (idle-IsQueued queues (token - 1) (send null_array (unblock c)) refl)))
      | inr other ↦ rw (e, time_out) (rw other all)
    ]
  ]

  pub cleanup_blocked-AllQueued :
      (queues : Queues) (now : ℕ) (q : Timeouts) (conns : Conns)
      → AllQueued queues conns
      → AllQueued queues (cleanup_blocked slab now q conns).1
  unfolding cleanup_blocked
  cleanup_blocked-AllQueued queues now [] conns all = all
  cleanup_blocked-AllQueued queues now ((t, token) ∷ q) conns all = elim (Bool-cases (ltb now t)) [
    | inl later ↦ rw later all
    | inr due ↦ rw due (
        cleanup_blocked-AllQueued queues now q (time_out slab token conns)
          (time_out-AllQueued queues token conns all))
  ]
