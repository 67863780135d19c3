-- ===== src/Server/Woken.antt =====
-- server/blocking.rs: the queues of the clients that wait, under the wake-up of one of them.
use redrum_db.Base.{
  ℕ, ◌-◌, ◌≡◌, refl, sym, ◌∙◌, true, false, Option, none, some, List, [], ◌∷◌, Bytes, bytes_eq,
  bytes_eq_sound, ◌==◌, ==_iff, ==_refl, Bool-cases, Option-cases, inl, inr,
}
use redrum_db.Base.Dict.{lookup, insert, lookup-insert}
use redrum_db.Database.{Db}
use redrum_db.Server.Connection.{Connection, Slab}
use redrum_db.Server.Blocking.{Queues, serve, wake_loop, wake_client}
use redrum_db.Server.Request.{queue_of}
use redrum_db.Server.Waiting.{is_waiting}
use redrum_db.Server.Queued.{stands, QueuedAt, idle-IsQueued, QueuedAt-grows, AllQueued, serve-idle}

idle-QueuedAt :
    (queues : Queues) (j : ℕ) (o : Option Connection) → is_waiting o ≡ false → QueuedAt queues j o
idle-QueuedAt queues j none h = tt
idle-QueuedAt queues j (some conn) h = idle-IsQueued queues j conn h

stands_behind :
    (queues : Queues) (key : Bytes) (j token : ℕ) (queue : List ℕ) (k : Bytes)
    → (j == (token - 1)) ≡ false
    → stands j (queue_of (lookup k (insert key (token ∷ queue) queues))) ≡ true
    → stands j (queue_of (lookup k (insert key queue queues))) ≡ true
unfolding stands
stands_behind queues key j token queue k other stood = elim (Bool-cases (bytes_eq k key)) [
  | inl e ↦
      rw (lookup-insert key k queue queues)
        (rw e (rw other at (rw e at (rw (lookup-insert key k (token ∷ queue) queues) at stood))))
  | inr e ↦
      rw (lookup-insert key k queue queues)
        (rw e (rw e at (rw (lookup-insert key k (token ∷ queue) queues) at stood)))
]

module _ (slab : Slab) where
  open slab use {Conns, get, set, get-set}

  -- The token is taken from the queue of the key, and its client does not wait afterwards.
  take-AllQueued :
      (queues : Queues) (key : Bytes) (token : ℕ) (queue : List ℕ) (conns conns' : Conns)
      → AllQueued slab (insert key (token ∷ queue) queues) conns
      → ((j : ℕ) → (j == (token - 1)) ≡ false → get conns' j ≡ get conns j)
      → is_waiting (get conns' (token - 1)) ≡ false
      → AllQueued slab (insert key queue queues) conns'
  take-AllQueued queues key token queue conns conns' all same idle j =
      elim (Bool-cases (j == (token - 1))) [
        | inl e ↦
            idle-QueuedAt (insert key queue queues) j (get conns' j)
              (rw ((==_iff j (token - 1)).0 e) idle)
        | inr e ↦ rw (same j e) (
            QueuedAt-grows (insert key (token ∷ queue) queues) (insert key queue queues) j
              (get conns j) (λ k. stands_behind queues key j token queue k e) (all j))
      ]

  wake_loop-AllQueued :
      (queues : Queues) (key : Bytes) (db : Db) (conns : Conns) (queue : List ℕ)
      → AllQueued slab (insert key queue queues) conns
      → let (db', conns', queue') = wake_loop slab key db conns queue in
        AllQueued slab (insert key queue' queues) conns'
  unfolding wake_loop
  wake_loop-AllQueued queues key db conns [] all = all
  wake_loop-AllQueued queues key db conns (token ∷ queue) all =
      elim (Option-cases (get conns (token - 1))) [
        | inl e ↦
            rw (e, wake_loop)
              (wake_loop-AllQueued queues key db conns queue
                (take-AllQueued queues key token queue conns conns all (λ j f. refl) (rw e refl)))
        | inr (c, e) ↦ elim (Bool-cases c.blocked) [
          | inl waiting ↦
              let served = (serve key db c).0 in
              rw (e, wake_loop)
                (rw waiting (
                  take-AllQueued queues key token queue conns (set conns (token - 1) served) all
                    (λ j f. get-set conns (token - 1) served c j e ∙ rw f refl)
                    (rw (get-set conns (token - 1) served c (token - 1) e)
                      (rw (==_refl (token - 1)) (serve-idle key db c)))))
          | inr other ↦
              rw (e, wake_loop)
                (rw other (
                  wake_loop-AllQueued queues key db conns queue (
                    take-AllQueued queues key token queue conns conns all (λ j f. refl)
                      (rw e other))))
        ]
      ]

  same_queue :
      (queues : Queues) (key k : Bytes) (queue : List ℕ)
      → lookup key queues ≡ some queue
      → lookup k (insert key queue queues) ≡ lookup k queues
  same_queue queues key k queue found =
      rw (lookup-insert key k queue queues) (elim (Bool-cases (bytes_eq k key)) [
        | inl e ↦ rw (e, bytes_eq_sound k key e) (sym found)
        | inr e ↦ rw e refl
      ])

  pub wake_client-AllQueued :
      (key : Bytes) (db : Db) (queues : Queues) (conns : Conns)
      → AllQueued slab queues conns
      → let (db', queues', conns') = wake_client slab key db queues conns in
        AllQueued slab queues' conns'
  unfolding wake_client
  wake_client-AllQueued key db queues conns all = elim (Option-cases (lookup key queues)) [
    | inl e ↦ rw (e, wake_client) all
    | inr (queue, e) ↦
        rw (e, wake_client)
          (wake_loop-AllQueued queues key db conns queue (λ j.
            QueuedAt-grows queues (insert key queue queues) j (get conns j)
              (λ k stood. rw (same_queue queues key k queue e) stood) (all j)))
  ]
