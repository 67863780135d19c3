-- ===== src/Stream/Add.antt =====
-- data_structures/stream.rs: `add` adds its entry at the end of the log.
use redrum_db.Base.{
  ◌+◌, ◌-◌, ◌<◌, ◌≤◌, ◌≡◌, refl, ap, sym, ◌∙◌, Bool, true, false, ◌&&◌, none, some, List, [], ◌∷◌,
  ◌++◌, append_assoc, Bytes, length, ltb, leb, ltb→lt, if◌then◌else◌, arith, bytes_eq_refl,
  Bool-cases, inl, inr,
}
use mathlib.Core.Path.{subst}
use mathlib.Core.Option
use redrum_db.Base.Result.{ok, err}
use redrum_db.Radix
use redrum_db.Radix.{RadixTree}
use redrum_db.Radix.Lookup.{get-insert, get-write}
use redrum_db.Listpack
use redrum_db.Listpack.{Listpack}
use redrum_db.Listpack.Represents.{IsListpack}
use redrum_db.Listpack.Laws.{new-IsListpack, length_is, total_bytes-length}
use redrum_db.Stream.Id.{StreamId, id_lt, to_bytes, top_item_error}
use redrum_db.Stream.{
  StreamNode, Stream, Fields, floor_key, index_insert, append_entry, can_append, rejects, open_node,
  add_node, place, add,
}
use redrum_db.Stream.Log.{LogEntry, log_values, IsPlainEntry}
use redrum_db.Stream.Write.{fields_room, room, append_entry-log_values}
use redrum_db.Stream.Order.{IsId, le-of-lt, Below-UpTo}
use redrum_db.Stream.Chunks.{
  Chunk, entries, bases, log, AllBelow, AllUpTo, InTree, Chunks, newest, Top, Represents,
}
use redrum_db.Stream.Frame.{
  and_left, id_le_refl, newest_snoc, ArePlain-snoc, From-snoc, UpTo-snoc, AllBelow-AllUpTo,
  accepted-AllBelow, IsId-first, Chunks-frame, index_insert_top,
}

module _ (id : StreamId) (fields : Fields) where
  abbrev added : LogEntry
  added = record { id = id; fields = fields }

  add_node_run :
      (s : Stream) (empty lp : Listpack) (t' : RadixTree StreamNode)
      → Listpack.new {E = Bytes} ≡ ok empty
      → append_entry empty id fields ≡ ok lp
      → Radix.insert s.tree (to_bytes id) (record { last_id = id; lp = lp }) ≡ some t'
      → add_node s id fields
        ≡ ok (record { tree = t'; index = index_insert id s.index; last_id = some id })
  unfolding add_node
  add_node_run s empty lp t' e0 e1 e2 = rw (e0, add_node) (rw e1 (rw e2))

  -- The state after a write to the tree that put the chunk there, in front of `cs`.
  with_chunk :
      (s : Stream) (es : List LogEntry) (c : Chunk) (cs : List Chunk)
      → log (c ∷ cs) ≡ es ++ (added ∷ [])
      → s.index ≡ bases (c ∷ cs)
      → Chunks s.tree (c ∷ cs)
      → s.last_id ≡ some id
      → AllUpTo id (c ∷ cs)
      → Represents s (es ++ (added ∷ []))
  with_chunk s es c cs log_is index_is in_tree last_is top = record {
    chunks = c ∷ cs;
    log_is = log_is;
    index_is = index_is;
    in_tree = in_tree;
    last_is = last_is ∙ sym (newest_snoc es added);
    top = subst (λ last. Top last (c ∷ cs)) (sym last_is) top;
  }

  module _ (plain : IsPlainEntry added) (low : fields_room fields + 4168 ≤ room) where
    id_is : IsId id
    id_is = let ((ms, _), (seq, _), _) = plain in (ms, seq)

    -- A node of its own for the entry.
    add_node-Represents :
        (s : Stream) (cs : List Chunk)
        → s.index ≡ bases cs
        → Chunks s.tree cs
        → AllBelow id cs
        → (s' : Stream) × (add_node s id fields ≡ ok s') × Represents s' (log cs ++ (added ∷ []))
    add_node-Represents s cs index_is in_tree below =
        let (empty, e0, h0) = new-IsListpack {E = Bytes} in
        let n0 = length_is empty [] h0 in
        let m0 = ap length h0.entries in
        let (lp, e1, h1) = append_entry-log_values empty [] added h0 (omega arith) in
        let node : StreamNode = record { last_id = id; lp = lp } in
        let (t', e2, reads) = get-insert s.tree (to_bytes id) node in
        let same = bytes_eq_refl (to_bytes id) in
        let frame =
          Chunks-frame s.tree t' id cs id_is (λ j other. reads j ∙ rw other) below in_tree in
        (
          record { tree = t'; index = index_insert id s.index; last_id = some id },
          add_node_run s empty lp t' e0 e1 e2,
          with_chunk _ (log cs) (record { first = added; rest = [] }) cs refl
              (ap (index_insert id) index_is ∙ index_insert_top id cs below)
              (
                record {
                  node = node;
                  found = reads (to_bytes id) ∙ rw same;
                  holds = h1;
                  plain = (plain, tt);
                  from_base = (id_le_refl id, tt);
                },
                below,
                frame,
              )
              refl ((id_le_refl id, tt), AllBelow-AllUpTo id cs below),
        )

    -- The open node takes the entry.
    append-Represents :
        (s : Stream) (c : Chunk) (cs : List Chunk)
        → s.index ≡ bases (c ∷ cs)
        → (here : InTree s.tree c) → AllBelow c.first.id cs
        → Chunks s.tree cs
        → AllBelow id (c ∷ cs)
        → length here.node.lp.bytes < 4096
        → (lp : Listpack) × (append_entry here.node.lp id fields ≡ ok lp)
          × Represents
              (record s {
                tree = Radix.write s.tree (to_bytes c.first.id) (record { last_id = id; lp = lp });
                last_id = some id;
              })
              (log (c ∷ cs) ++ (added ∷ []))
    append-Represents s c cs index_is here older h ((p, ps), below) small =
        let (lp, e1, h1) =
          append_entry-log_values here.node.lp (entries c) added here.holds (omega arith) in
        let node : StreamNode = record { last_id = id; lp = lp } in
        let key = to_bytes c.first.id in
        let same = bytes_eq_refl key in
        let reads = get-write s.tree key node in
        let frame =
          Chunks-frame s.tree (Radix.write s.tree key node) c.first.id cs (IsId-first s.tree c here)
            (λ j other. reads j ∙ rw other) older h in
        (
          lp,
          e1,
          with_chunk _ (log (c ∷ cs)) (record { first = c.first; rest = c.rest ++ (added ∷ []) }) cs
              (sym (append_assoc (log cs) (entries c) (added ∷ []))) index_is
              (
                record {
                  node = node;
                  found = reads key ∙ rw same (ap (Option.map (λ _. node)) here.found);
                  holds = h1;
                  plain = ArePlain-snoc (entries c) added here.plain plain;
                  from_base =
                      From-snoc c.first.id (entries c) added here.from_base
                        (le-of-lt c.first.id id p);
                },
                older,
                frame,
              )
              refl
              (
                UpTo-snoc (entries c) added (Below-UpTo id (entries c) (p, ps)),
                AllBelow-AllUpTo id cs below,
              ),
        )

    can_append_cases :
        (node : StreamNode) (es : List LogEntry)
        → IsListpack node.lp (log_values es)
        → (b : Bool) × (can_append node id ≡ ok b) × (b ≡ true → length node.lp.bytes < 4096)
    unfolding can_append
    can_append_cases node es h =
        let size_ok = ltb (length node.lp.bytes) 4096 in
        let near = leb node.last_id.ms id.ms && ltb (id.ms - node.last_id.ms) 1000 in
        (
          size_ok && (id_lt node.last_id id && near),
          rw (total_bytes-length node.lp (log_values es) h {E = Bytes}, can_append),
          λ e. ltb→lt (length node.lp.bytes) 4096 (and_left size_ok _ e),
        )

    floor_first :
        (s : Stream) (c : Chunk) (cs : List Chunk)
        → s.index ≡ bases (c ∷ cs)
        → id_lt c.first.id id ≡ true
        → floor_key s.index id ≡ some c.first.id
    unfolding floor_key
    floor_first s c cs index_is p =
        ap (λ index. floor_key index id) index_is ∙ rw (le-of-lt c.first.id id p)

    open_node_first :
        (s : Stream) (key : StreamId) (node : StreamNode) (b : Bool)
        → floor_key s.index id ≡ some key
        → Radix.get s.tree (to_bytes key) ≡ some node
        → can_append node id ≡ ok b
        → open_node s id ≡ ok (if b then some (key, node) else none)
    unfolding open_node
    open_node_first s key node b e0 e1 e2 = rw (e0, open_node) (rw (e1, open_node) (rw e2))

    place_open :
        (s : Stream) (key : StreamId) (node : StreamNode) (lp : Listpack)
        → open_node s id ≡ ok (some (key, node))
        → append_entry node.lp id fields ≡ ok lp
        → place s id fields
          ≡ ok (record s {
            tree = Radix.write s.tree (to_bytes key) (record { last_id = id; lp = lp });
            last_id = some id;
          })
    unfolding place
    place_open s key node lp e0 e1 = rw (e0, place) (rw e1)

    place_closed :
        (s : Stream) → open_node s id ≡ ok none → place s id fields ≡ add_node s id fields
    unfolding place
    place_closed s e = rw (e, place)

    place-Represents :
        (s : Stream) (cs : List Chunk)
        → s.index ≡ bases cs
        → Chunks s.tree cs
        → AllBelow id cs
        → (s' : Stream) × (place s id fields ≡ ok s') × Represents s' (log cs ++ (added ∷ []))
    unfolding open_node floor_key
    place-Represents s [] index_is in_tree below =
        let (s', run, r) = add_node-Represents s [] index_is in_tree below in
        (s', place_closed s (rw (index_is, open_node)) ∙ run, r)
    place-Represents s (c ∷ cs) index_is (here, older, h) ((p, ps), below) =
        let (b, fits, small) = can_append_cases here.node (entries c) here.holds in
        let opened =
          open_node_first s c.first.id here.node b (floor_first s c cs index_is p) here.found
            fits in
        elim (Bool-cases b) [
          | inl takes ↦
              let (lp, run, r) =
                append-Represents s c cs index_is here older h ((p, ps), below) (small takes) in
              (_, place_open s c.first.id here.node lp (opened ∙ rw takes) run, r)
          | inr full ↦
              let (s', run, r) =
                add_node-Represents s (c ∷ cs) index_is (here, older, h) ((p, ps), below) in
              (s', place_closed s (opened ∙ rw full) ∙ run, r)
        ]

add_accepts :
    (s : Stream) (id : StreamId) (fields : Fields)
    → rejects s.last_id id ≡ false
    → add s id fields ≡ place s id fields
unfolding add
add_accepts s id fields e = rw (e, add)

-- On a stream that holds a log, an ID that is not above the last one of the log is rejected. With any
-- other `add` succeeds, and the stream then holds the log with the entry at its end. The entry's numbers
-- are plain: the eight bytes of the time, the sequence number and the count of fields do not print an
-- integer. Its fields and their values, with 16 bytes more for each, have at most 0x0FFFFFFF - 4168 bytes.
pub add-Represents :
    (s : Stream) (es : List LogEntry) (id : StreamId) (fields : Fields)
    → Represents s es
    → IsPlainEntry (record { id = id; fields = fields })
    → fields_room fields + 4168 ≤ room
    → (if rejects (newest es) id
        then add s id fields ≡ err top_item_error
        else (s' : Stream) × (add s id fields ≡ ok s')
          × Represents s' (es ++ (record { id = id; fields = fields } ∷ [])))
unfolding add
add-Represents s es id fields r plain low = elim (Bool-cases (rejects (newest es) id)) [
  | inl old ↦ rw old (rw (r.last_is, add) (rw old))
  | inr above ↦
      let below = accepted-AllBelow s.last_id id r.chunks r.top (rw r.last_is above) in
      let (s', run, r') =
        place-Represents id fields plain low s r.chunks r.index_is r.in_tree below in
      rw above (
        s',
        add_accepts s id fields (rw r.last_is above) ∙ run,
        subst (λ l. Represents s' (l ++ (added id fields ∷ []))) r.log_is r',
      )
]
