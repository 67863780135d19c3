-- ===== src/Stream.antt =====
-- data_structures/stream.rs: a stream as a radix tree of nodes, each with a listpack of entries, and
-- an index of the nodes' first IDs. `&mut self` operations return the new stream.
pub mod Id
pub mod Parse
pub mod Find
pub mod Log
pub mod Search
pub mod Write
pub mod Order
pub mod Chunks
pub mod Frame
pub mod Add
pub mod Laws
mod Tests
use redrum_db.Base.{
  ℕ, suc, ◌-◌, Bool, true, false, ◌&&◌, Option, none, some, List, [], ◌∷◌, Bytes, length, ltb, leb,
  if◌then◌else◌,
}
use redrum_db.Base.Result.{Result, ok, err, panic, ◌>>=◌, or_panic}
use redrum_db.Base.Words.{to_be_bytes}
use redrum_db.Radix
use redrum_db.Radix.{RadixTree}
use redrum_db.Listpack
use redrum_db.Listpack.{Listpack}
use redrum_db.Listpack.Codec.{Value, ListpackError}
use Id.{StreamId, id_lt, id_le, to_bytes, top_item_error}
use Find.{find_entry_in_listpack}

pub record StreamNode : Type 0 where
  pub last_id : StreamId
  pub lp : Listpack

-- The `BTreeMap<StreamID, ()>` is the list of its keys, the greatest first.
pub record Stream : Type 0 where
  pub tree : RadixTree StreamNode
  pub index : List StreamId
  pub last_id : Option StreamId

abbrev pub Fields : Type 0
Fields = List (Bytes × Bytes)

unfoldable pub new : Stream
unfolding Radix.new
new = record { tree = Radix.new; index = []; last_id = none }

-- `index.range(..=id).next_back()`
unfoldable pub floor_key : List StreamId → StreamId → Option StreamId
floor_key [] id = none
floor_key (k ∷ rest) id = if id_le k id then some k else floor_key rest id

-- `BTreeMap::insert` of a key with the value `()`
unfoldable pub index_insert : StreamId → List StreamId → List StreamId
index_insert id [] = id ∷ []
index_insert id (k ∷ rest) =
    if id_lt k id then id ∷ k ∷ rest else if id_lt id k then k ∷ index_insert id rest else k ∷ rest

-- `lp.append(v).unwrap()`
unfoldable pub append_unwrap : Listpack → Bytes → Result Bytes Listpack
append_unwrap lp v = elim (Listpack.append lp v) [ ok lp' ↦ ok lp' | err e ↦ panic | panic ↦ panic ]

-- The loop over the fields.
unfoldable pub append_fields : Listpack → Fields → Result Bytes Listpack
unfolding append_unwrap
append_fields lp [] = ok lp
append_fields lp ((f, v) ∷ fields) = do
  lp1 ← append_unwrap lp f
  lp2 ← append_unwrap lp1 v
  append_fields lp2 fields

unfoldable pub append_entry : Listpack → StreamId → Fields → Result Bytes Listpack
unfolding append_fields
append_entry lp id fields = do
  lp1 ← append_unwrap lp (to_be_bytes 8 id.ms)
  lp2 ← append_unwrap lp1 (to_be_bytes 8 id.seq)
  lp3 ← append_unwrap lp2 (to_be_bytes 8 (length fields))
  append_fields lp3 fields

unfoldable pub can_append : StreamNode → StreamId → Result Bytes Bool
can_append node id = do
  size ← Listpack.total_bytes node.lp
  let size_ok = ltb size 4096
  let strictly_increasing = id_lt node.last_id id
  let id_close = leb node.last_id.ms id.ms && ltb (id.ms - node.last_id.ms) 1000
  ok (size_ok && (strictly_increasing && id_close))

-- The first `if` of `add`: the ID is not above the last one.
unfoldable pub rejects : Option StreamId → StreamId → Bool
rejects none id = false
rejects (some last) id = id_le id last

-- The node that takes the entry if it can: the one at the floor of the ID.
unfoldable pub open_node : Stream → StreamId → Result Bytes (Option (StreamId × StreamNode))
open_node s id = elim (floor_key s.index id) [
  | none ↦ ok none
  | some prev_key ↦ elim (Radix.get s.tree (to_bytes prev_key)) [
    | none ↦ ok none
    | some node ↦ do fits ← can_append node id; ok (if fits then some (prev_key, node) else none)
  ]
]

-- The second half of `add`: a node of its own for the entry. The insertion is on fuel, and panics where
-- that runs out.
unfoldable pub add_node : Stream → StreamId → Fields → Result Bytes Stream
add_node s id fields = do
  empty ← Listpack.new
  lp ← append_entry empty id fields
  tree ← or_panic (Radix.insert s.tree (to_bytes id) (record { last_id = id; lp = lp }))
  ok (record { tree = tree; index = index_insert id s.index; last_id = some id })

-- The rest of `add`: the entry goes into the open node, or into a node of its own.
unfoldable pub place : Stream → StreamId → Fields → Result Bytes Stream
place s id fields = do
  found ← open_node s id
  elim found [
    | some (prev_key, node) ↦ do
      lp ← append_entry node.lp id fields
      ok (record s {
        tree = Radix.write s.tree (to_bytes prev_key) (record { last_id = id; lp = lp });
        last_id = some id;
      })
    | none ↦ add_node s id fields
  ]

unfoldable pub add : Stream → StreamId → Fields → Result Bytes Stream
unfolding rejects
add s id fields = if rejects s.last_id id then err top_item_error else place s id fields

-- The outer `none` is that of the fuel of `find_entry_in_listpack`.
unfoldable pub get : Stream → StreamId → Option (Option (List Value))
unfolding floor_key find_entry_in_listpack
get s id = elim (floor_key s.index id) [
  | none ↦ some none
  | some base_id ↦ elim (Radix.get s.tree (to_bytes base_id)) [
    | none ↦ some none
    | some node ↦ find_entry_in_listpack node.lp id
  ]
]
