-- ===== src/Server/Connection.antt =====
-- server/connection.rs: a connection without its socket, and the slab of the connections, which is an
-- interface: the source takes it from the crate `slab`.
use redrum_db.Base.{
  ℕ, Bool, true, false, Option, none, some, List, [], ◌++◌, Bytes, length, ◌≡◌, ◌==◌, if◌then◌else◌,
}

-- `writable` says whether the socket is registered with the poll for writing.
pub record Connection : Type 0 where
  pub read_buffer : Bytes
  pub write_buffer : Bytes
  pub blocked : Bool
  pub block_key : Option Bytes
  pub block_deadline : Option ℕ
  pub subscriptions : List Bytes
  pub is_pubsub : Bool
  pub writable : Bool

-- `Connection::new`, and the registration for reading that stands with it.
abbrev pub new : Connection
new = record {
  read_buffer = [];
  write_buffer = [];
  blocked = false;
  block_key = none;
  block_deadline = none;
  subscriptions = [];
  is_pubsub = false;
  writable = false;
}

-- Bytes at the end of the write buffer. Where that was empty, the socket is registered for writing.
unfoldable pub send : Bytes → Connection → Connection
send bytes conn = record conn {
  write_buffer = conn.write_buffer ++ bytes;
  writable = if length conn.write_buffer == 0 then true else conn.writable;
}

-- A client that waits no longer.
unfoldable pub unblock : Connection → Connection
unblock conn = record conn { blocked = false; block_key = none; block_deadline = none }

-- `Slab<Connection>`. `set` is a write through the reference that `get_mut` gives, and does nothing for a
-- vacant key. `insert` goes to `next_key`, which is the key that was removed last: the event loop takes a
-- connection out and puts it back under the same token.
pub record Slab : Type 1 where
  pub Conns : Type 0
  pub get : Conns → ℕ → Option Connection
  pub set : Conns → ℕ → Connection → Conns
  pub remove : Conns → ℕ → Conns
  pub insert : Conns → Connection → Conns
  pub next_key : Conns → ℕ
  pub get-set :
      (s : Conns) (i : ℕ) (c d : Connection) (j : ℕ)
      → get s i ≡ some d
      → get (set s i c) j ≡ (if j == i then some c else get s j)
  pub get-remove : (s : Conns) (i j : ℕ) → get (remove s i) j ≡ (if j == i then none else get s j)
  pub get-insert :
      (s : Conns) (c : Connection) (j : ℕ)
      → get (insert s c) j ≡ (if j == next_key s then some c else get s j)
  pub next_key-remove :
      (s : Conns) (i : ℕ) (c : Connection) → get s i ≡ some c → next_key (remove s i) ≡ i
  pub next_key-set : (s : Conns) (i : ℕ) (c : Connection) → next_key (set s i c) ≡ next_key s
