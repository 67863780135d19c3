-- ===== src/Server/Blocking.antt =====
-- server/blocking.rs: the clients that wait for an item of a list.
use redrum_db.Base.{
  ℕ, ◌-◌, Bool, Option, none, some, List, [], ◌∷◌, Bytes, ltb, ◌==◌, ◌&&◌, ◌||◌, if◌then◌else◌,
}
use redrum_db.Base.Dict.{Dict, lookup, insert}
use redrum_db.Base.Text.{line}
use redrum_db.Database.{Db, Value, Entry, string, list, stream}
use redrum_db.Commands.Lists.{popped_reply}
use redrum_db.Server.Connection.{Connection, send, unblock, Slab}

-- `HashMap<Key, VecDeque<Token>>`
abbrev pub Queues : Type 0
Queues = Dict (List ℕ)

-- `BinaryHeap<(Reverse<Instant>, Token)>` as the list in the order of `pop`.
abbrev pub Timeouts : Type 0
Timeouts = List (ℕ × ℕ)

-- The earlier instant comes out first, and of equal instants the greater token.
unfoldable pub times_out_before : ℕ × ℕ → ℕ × ℕ → Bool
times_out_before (t, a) (u, b) = ltb t u || (t == u && ltb b a)

unfoldable pub take_value : Bytes → Db → Entry → Value → Option (Bytes × Db)
take_value key db e (list []) = none
take_value key db e (list (x ∷ rest)) = some (x, insert key (record e { value = list rest }) db)
take_value key db e (string s) = none
take_value key db e (stream s) = none

unfoldable pub take_found : Bytes → Db → Option Entry → Option (Bytes × Db)
unfolding take_value
take_found key db none = none
take_found key db (some e) = take_value key db e e.value

-- The first item of the list under the key, and the database without it.
unfoldable pub take_first : Bytes → Db → Option (Bytes × Db)
unfolding take_found
take_first key db = take_found key db (lookup key db)

-- What a woken client is given, and the database without it.
unfoldable pub serve : Bytes → Db → Connection → Connection × Db
unfolding take_first unblock send
serve key db conn = elim (take_first key db) [
  | none ↦ (unblock conn, db)
  | some (val, db') ↦ (send (popped_reply key val) (unblock conn), db')
]

-- The reply to a client whose time is over.
abbrev pub null_array : Bytes
null_array = line "*-1"

module _ (slab : Slab) where
  open slab use {Conns, get, set}

  -- The loop over the queue: tokens of clients that are gone or do not wait are dropped.
  unfoldable pub wake_loop : Bytes → Db → Conns → List ℕ → Db × Conns × List ℕ
  unfolding serve
  wake_loop key db conns [] = (db, conns, [])
  wake_loop key db conns (token ∷ queue) =
      let rest = wake_loop key db conns queue in
      elim (get conns (token - 1)) [
        | none ↦ rest
        | some conn ↦
            if conn.blocked
            then (let (conn', db') = serve key db conn in (db', set conns (token - 1) conn', queue))
            else rest
      ]

  unfoldable pub wake_client : Bytes → Db → Queues → Conns → Db × Queues × Conns
  unfolding wake_loop
  wake_client key db queues conns = elim (lookup key queues) [
    | none ↦ (db, queues, conns)
    | some queue ↦
        let (db', conns', queue') = wake_loop key db conns queue in
        (db', insert key queue' queues, conns')
  ]

  -- What the clean-up does with a token whose time is over.
  unfoldable pub time_out : ℕ → Conns → Conns
  unfolding send unblock
  time_out token conns = elim (get conns (token - 1)) [
    | none ↦ conns
    | some conn ↦
        if conn.blocked then set conns (token - 1) (send null_array (unblock conn)) else conns
  ]

  unfoldable pub cleanup_blocked : ℕ → Timeouts → Conns → Timeouts × Conns
  unfolding time_out
  cleanup_blocked now [] conns = ([], conns)
  cleanup_blocked now ((t, token) ∷ q) conns =
      let rest = cleanup_blocked now q (time_out token conns) in
      if ltb now t then ((t, token) ∷ q, conns) else rest
