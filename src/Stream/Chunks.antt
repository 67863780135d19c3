-- ===== src/Stream/Chunks.antt =====
-- data_structures/stream.rs: a stream as the log of its entries. Each node of the tree holds a run of
-- the log; the index has the first IDs of the runs, the newest first.
use redrum_db.Base.{
  ◌≡◌, refl, ap, sym, ◌∙◌, true, Option, none, some, List, [], ◌∷◌, ◌++◌, Bool-cases, inl, inr,
}
use redrum_db.Radix
use redrum_db.Radix.{RadixTree}
use redrum_db.Listpack.Codec.{Value}
use redrum_db.Listpack.Represents.{IsListpack}
use redrum_db.Stream.Id.{StreamId, id_le, to_bytes}
use redrum_db.Stream.Find.{find_entry_in_listpack}
use redrum_db.Stream.{StreamNode, Stream, floor_key, get}
use redrum_db.Stream.Log.{LogEntry, log_values, lookup, ArePlain}
use redrum_db.Stream.Search.{find_entry_in_listpack-lookup}
use redrum_db.Stream.Order.{
  Below, From, UpTo, lookup-Below, lookup-From, lookup-append_none, lookup-append_end,
}

pub record Chunk : Type 0 where
  pub first : LogEntry
  pub rest : List LogEntry

abbrev pub entries : Chunk → List LogEntry
entries c = c.first ∷ c.rest

abbrev pub bases : List Chunk → List StreamId
bases [] = []
bases (c ∷ cs) = c.first.id ∷ bases cs

abbrev pub log : List Chunk → List LogEntry
log [] = []
log (c ∷ cs) = log cs ++ entries c

abbrev pub AllBelow : StreamId → List Chunk → Type 0
AllBelow b [] = Unit
AllBelow b (c ∷ cs) = Below b (entries c) × AllBelow b cs

abbrev pub AllUpTo : StreamId → List Chunk → Type 0
AllUpTo b [] = Unit
AllUpTo b (c ∷ cs) = UpTo b (entries c) × AllUpTo b cs

-- The node under the first ID of the run holds its entries.
pub record InTree (t : RadixTree StreamNode) (c : Chunk) : Type 0 where
  pub node : StreamNode
  pub found : Radix.get t (to_bytes c.first.id) ≡ some node
  pub holds : IsListpack node.lp (log_values (entries c))
  pub plain : ArePlain (entries c)
  pub from_base : From c.first.id (entries c)

-- The runs stand in the tree, and the IDs of older runs are below the first of a newer one.
abbrev pub Chunks : RadixTree StreamNode → List Chunk → Type 0
Chunks t [] = Unit
Chunks t (c ∷ cs) = InTree t c × AllBelow c.first.id cs × Chunks t cs

abbrev pub newest : List LogEntry → Option StreamId
newest [] = none
newest (e ∷ []) = some e.id
newest (e ∷ f ∷ es) = newest (f ∷ es)

-- No ID is above the last one.
abbrev pub Top : Option StreamId → List Chunk → Type 0
Top none cs = cs ≡ []
Top (some last) cs = AllUpTo last cs

-- The stream holds the entries of the log.
pub record Represents (s : Stream) (es : List LogEntry) : Type 0 where
  pub chunks : List Chunk
  pub log_is : log chunks ≡ es
  pub index_is : s.index ≡ bases chunks
  pub in_tree : Chunks s.tree chunks
  pub last_is : s.last_id ≡ newest es
  pub top : Top s.last_id chunks

pub lookup-log_Below :
    (b id : StreamId) (cs : List Chunk)
    → AllBelow b cs
    → id_le b id ≡ true
    → lookup (log cs) id ≡ none
lookup-log_Below b id [] h low = refl
lookup-log_Below b id (c ∷ cs) (p, h) low =
    lookup-append_none (log cs) (entries c) id (lookup-log_Below b id cs h low)
    ∙ lookup-Below b id (entries c) p low

-- What `get` reads, for an index.
abbrev read_at : RadixTree StreamNode → Option StreamId → StreamId → Option (Option (List Value))
read_at t base id = elim base [
  | none ↦ some none
  | some base_id ↦ elim (Radix.get t (to_bytes base_id)) [
    | none ↦ some none
    | some node ↦ find_entry_in_listpack node.lp id
  ]
]

read_at-lookup :
    (t : RadixTree StreamNode) (cs : List Chunk) (id : StreamId)
    → Chunks t cs
    → read_at t (floor_key (bases cs) id) id ≡ some (lookup (log cs) id)
unfolding floor_key
read_at-lookup t [] id h = refl
read_at-lookup t (c ∷ cs) id (here, below, h) = elim (Bool-cases (id_le c.first.id id)) [
  | inl le ↦ rw le (
      rw (here.found, read_at)
        (find_entry_in_listpack-lookup here.node.lp (entries c) id here.holds here.plain
          ∙ ap some (
              sym (
                lookup-append_none (log cs) (entries c) id
                  (lookup-log_Below c.first.id id cs below le)))))
  | inr gt ↦ rw gt (
      read_at-lookup t cs id h
      ∙ ap some (
          sym (
            lookup-append_end (log cs) (entries c) id
              (lookup-From c.first.id id (entries c) here.from_base gt))))
]

-- On a stream that holds a log, `get` ends within its fuel. It gives the fields of the entry of the log with the ID, and nothing
-- where the log has none.
pub get-lookup :
    (s : Stream) (es : List LogEntry) (id : StreamId)
    → Represents s es
    → get s id ≡ some (lookup es id)
unfolding get
get-lookup s es id r =
    ap (λ index. read_at s.tree (floor_key index id) id) r.index_is
    ∙ read_at-lookup s.tree r.chunks id r.in_tree
    ∙ ap (λ l. some (lookup l id)) r.log_is
