-- ===== src/Server/Tracking.antt =====
-- server/: the heap of expiries under the clean-up and the wake-up.
use redrum_db.Base.{
  ℕ, suc, ◌-◌, ◌≡◌, refl, ap, sym, ◌∙◌, true, false, ◌||◌, Option, none, some, List, [], ◌∷◌, Bytes,
  bytes_eq, bytes_eq_sound, ltb, ◌==◌, ==_iff, arith, Bool-cases, Option-cases, inl, inr,
}
use redrum_db.Base.Dict.{lookup, erase, lookup-erase}
use redrum_db.Database.{Db, Value, string, list, stream, Entry, Expiries}
use redrum_db.Commands.Tracked.{has, TrackedAt, AllTracked, insert-AllTracked}
use redrum_db.Server.Connection.{Connection, Slab}
use redrum_db.Server.Expiry.{max_cleanup, drop_due, cleanup_loop, cleanup_expired}
use redrum_db.Server.Blocking.{
  Queues, take_first, take_found, take_value, serve, wake_loop, wake_client,
}

same_entry : (e f : Entry) → some e ≡ some f → e ≡ f
same_entry e f h = cc

apart : (a t : ℕ) → (a == t) ≡ false → some a ≡ some t → ⊥
apart a t g p = let same : a ≡ t = cc in ground arith

TrackedAt-behind :
    (k : Bytes) (t : ℕ) (key : Bytes) (q : Expiries) (o : Option Entry)
    → ((e : Entry) → o ≡ some e → e.expiry ≡ some t → bytes_eq k key ≡ false)
    → TrackedAt k ((t, key) ∷ q) o
    → TrackedAt k q o
unfolding has
TrackedAt-behind k t key q none fresh h = tt
TrackedAt-behind k t key q (some e) fresh h = λ u f. elim (Bool-cases (u == t)) [
  | inl g ↦
      let other = fresh e refl (f ∙ ap some ((==_iff u t).0 g)) in rw other at (rw g at (h u f))
  | inr g ↦ rw g at (h u f)
]

-- The key has no entry that expires at the time.
abbrev IsStale : ℕ → Bytes → Db → Type 0
IsStale t key db = (e : Entry) → lookup key db ≡ some e → e.expiry ≡ some t → ⊥

stale-AllTracked :
    (t : ℕ) (key : Bytes) (db : Db) (q : Expiries)
    → IsStale t key db
    → AllTracked db ((t, key) ∷ q)
    → AllTracked db q
stale-AllTracked t key db q stale all k =
    TrackedAt-behind k t key q (lookup k db)
      (λ e f g. elim (Bool-cases (bytes_eq k key)) [
        | inl s ↦ absurd (stale e (ap (λ x. lookup x db) (sym (bytes_eq_sound k key s)) ∙ f) g)
        | inr s ↦ s
      ])
      (all k)

erase-AllTracked_behind :
    (t : ℕ) (key : Bytes) (db : Db) (q : Expiries)
    → AllTracked db ((t, key) ∷ q)
    → AllTracked (erase key db) q
erase-AllTracked_behind t key db q all k =
    rw (lookup-erase key k db) (elim (Bool-cases (bytes_eq k key)) [
      | inl f ↦ rw f tt
      | inr f ↦ rw f (TrackedAt-behind k t key q (lookup k db) (λ e g j. f) (all k))
    ])

drop_due-AllTracked :
    (t : ℕ) (key : Bytes) (db : Db) (q : Expiries)
    → AllTracked db ((t, key) ∷ q)
    → AllTracked (drop_due t (lookup key db) key db) q
unfolding drop_due
drop_due-AllTracked t key db q all = elim (Option-cases (lookup key db)) [
  | inl e ↦ rw e (stale-AllTracked t key db q (λ f g j. cc) all)
  | inr (entry, e) ↦ rw e (elim (Option-cases entry.expiry) [
    | inl f ↦ rw f (stale-AllTracked t key db q (λ x g j. cc) all)
    | inr (actual, f) ↦ rw f (elim (Bool-cases (actual == t)) [
      | inl g ↦ rw g (erase-AllTracked_behind t key db q all)
      | inr g ↦ rw g (
          stale-AllTracked t key db q
            (λ x y j.
              apart actual t g
                (sym f ∙ (ap (λ z. z.expiry) (sym (same_entry x entry (sym y ∙ e))) ∙ j)))
            all)
    ])
  ])
]

pub cleanup_expired-AllTracked :
    (now : ℕ) (db : Db) (expiries : Expiries)
    → AllTracked db expiries
    → let (db', expiries') = cleanup_expired now db expiries in AllTracked db' expiries'
unfolding cleanup_expired cleanup_loop
cleanup_expired-AllTracked now db expiries all = loop 0 db expiries all
  where
    loop :
        (cleaned : ℕ) (db' : Db) (q : Expiries)
        → AllTracked db' q
        → AllTracked (cleanup_loop now cleaned db' q).0 (cleanup_loop now cleaned db' q).1
    loop cleaned db' [] h = h
    loop cleaned db' ((t, key) ∷ q) h =
        let rest =
          loop (suc cleaned) (drop_due t (lookup key db') key db') q
            (drop_due-AllTracked t key db' q h) in
        elim (Bool-cases (ltb max_cleanup cleaned || ltb now t)) [
          | inl stop ↦ rw stop h
          | inr go ↦ rw go rest
        ]

-- The database that is left behind an item.
abbrev FirstTracked : Expiries → Option (Bytes × Db) → Type 0
FirstTracked q none = Unit
FirstTracked q (some (x, db)) = AllTracked db q

take_first-FirstTracked :
    (key : Bytes) (db : Db) (q : Expiries) → AllTracked db q → FirstTracked q (take_first key db)
unfolding take_first take_found take_value
take_first-FirstTracked key db q all = found (lookup key db) (all key)
  where
    value :
        (e : Entry) (v : Value) → TrackedAt key q (some e) → FirstTracked q (take_value key db e v)
    value e (list []) h = tt
    value e (list (x ∷ rest)) h = insert-AllTracked key _ db q all h
    value e (string s) h = tt
    value e (stream s) h = tt

    found : (o : Option Entry) → TrackedAt key q o → FirstTracked q (take_found key db o)
    found none h = tt
    found (some e) h = value e e.value h

serve-AllTracked :
    (key : Bytes) (db : Db) (q : Expiries) (conn : Connection)
    → AllTracked db q
    → AllTracked (serve key db conn).1 q
unfolding serve
serve-AllTracked key db q conn all = elim (Option-cases (take_first key db)) [
  | inl e ↦ rw (e, serve) all
  | inr ((x, db'), e) ↦ rw (e, serve) (rw e at (take_first-FirstTracked key db q all))
]

module _ (slab : Slab) where
  open slab use {Conns, get, set}

  wake_loop-AllTracked :
      (key : Bytes) (db : Db) (q : Expiries) (conns : Conns) (queue : List ℕ)
      → AllTracked db q
      → AllTracked (wake_loop slab key db conns queue).0 q
  unfolding wake_loop
  wake_loop-AllTracked key db q conns [] all = all
  wake_loop-AllTracked key db q conns (token ∷ queue) all =
      let rest = wake_loop-AllTracked key db q conns queue all in
      elim (Option-cases (get conns (token - 1))) [
        | inl e ↦ rw (e, wake_loop) rest
        | inr (c, e) ↦ elim (Bool-cases c.blocked) [
          | inl waiting ↦
              rw (e, wake_loop)
                (rw waiting (serve-AllTracked key db q (record c { blocked = true }) all))
          | inr other ↦ rw (e, wake_loop) (rw other rest)
        ]
      ]

  pub wake_client-AllTracked :
      (key : Bytes) (db : Db) (q : Expiries) (queues : Queues) (conns : Conns)
      → AllTracked db q
      → AllTracked (wake_client slab key db queues conns).0 q
  unfolding wake_client
  wake_client-AllTracked key db q queues conns all = elim (Option-cases (lookup key queues)) [
    | inl e ↦ rw (e, wake_client) all
    | inr (queue, e) ↦ rw (e, wake_client) (wake_loop-AllTracked key db q conns queue all)
  ]
