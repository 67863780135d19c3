-- ===== src/Commands/Streams/Laws.antt =====
-- commands/handlers/streams.rs: `xadd` as the addition of an entry to a log.
use redrum_db.Base.{
  ◌+◌, ◌≤◌, ◌≡◌, refl, ap, ◌∙◌, false, Option, none, some, List, [], ◌∷◌, ◌++◌, Bytes, bytes_eq,
  length, length-append, append_assoc, arith, if◌then◌else◌, Bool-cases, inl, inr,
}
use redrum_db.Base.Text.{codes, crlf}
use redrum_db.Base.Decimal.{show}
use redrum_db.Commands.Reply.{bulk_reply}
use redrum_db.Base.Dict.{lookup, lookup-insert_self, lookup-insert_other}
use redrum_db.Base.Result.{Result, ok, err}
use redrum_db.Database.{Value, string, list, stream, Entry}
use redrum_db.Stream
use redrum_db.Stream.{Stream, Fields, rejects}
use redrum_db.Stream.Id.{StreamId, parse, top_item_error}
use redrum_db.Stream.Log.{LogEntry, IsPlainEntry}
use redrum_db.Stream.Write.{fields_room, room}
use redrum_db.Stream.Chunks.{Represents, newest}
use redrum_db.Stream.Add.{add-Represents}
use redrum_db.Stream.Laws.{new-Represents}
use redrum_db.Commands.Context.{Context, Env, command_handler_normal}
use redrum_db.Commands.Streams.{
  field_args, last_or_none, stream_in, stream_or_new, id_reply, xadd_to, xadd_entry, xadd_body,
  xadd,
}

abbrev ValueHolds : Value → List LogEntry → Type 0
ValueHolds (stream s) es = Represents s es
ValueHolds (string s) es = es ≡ []
ValueHolds (list xs) es = es ≡ []

-- The log of the stream under a key; a key without a stream has the empty one.
abbrev pub Holds : Option Entry → List LogEntry → Type 0
Holds none es = es ≡ []
Holds (some e) es = ValueHolds e.value es

new-Holds : (es : List LogEntry) → es ≡ [] → Represents Stream.new es
new-Holds es e = rw e new-Represents

stream_or_new-Represents :
    (o : Option Entry) (es : List LogEntry) → Holds o es → Represents (stream_or_new o).1 es
unfolding stream_or_new stream_in
stream_or_new-Represents none es h = new-Holds es h
stream_or_new-Represents (some e) es h = of_value e.value h
  where
    of_value : (v : Value) → ValueHolds v es → Represents (stream_in e v).1 es
    of_value (stream s) k = k
    of_value (string s) k = new-Holds es k
    of_value (list xs) k = new-Holds es k

id_reply-bulk : (id : StreamId) → id_reply id ≡ bulk_reply (show id.ms ++ (b'-' ∷ show id.seq))
unfolding id_reply
id_reply-bulk id =
    let count : length (show id.ms ++ (b'-' ∷ show id.seq))
        ≡ length (show id.ms) + 1 + length (show id.seq) =
      length-append (show id.ms) (b'-' ∷ show id.seq) ∙ omega arith in
    rw count (rw (append_assoc (show id.ms) (b'-' ∷ show id.seq) crlf) refl)

-- An accepted entry is added to the log of the key, and other keys are as they were; the reply is its ID.
abbrev Adds : Bytes → List LogEntry → StreamId → Context → Result Bytes Bytes × Context → Type 0
Adds key es id ctx (r, ctx') =
    (r ≡ ok (bulk_reply (show id.ms ++ (b'-' ∷ show id.seq))))
    × Holds (lookup key ctx'.db) es
    × ((j : Bytes) → bytes_eq j key ≡ false → lookup j ctx'.db ≡ lookup j ctx.db)

xadd_to-Adds :
    (env : Env) (key text : Bytes) (fields : Fields) (ctx : Context) (old : Entry) (s : Stream)
    (es : List LogEntry) (id : StreamId)
    → Represents s es
    → parse env.checks env.wall text (last_or_none (newest es)) ≡ ok id
    → IsPlainEntry (record { id = id; fields = fields })
    → fields_room fields + 4168 ≤ room
    → (if rejects (newest es) id
        then xadd_to env key text fields old s ctx ≡ (err top_item_error, ctx)
        else Adds key
            (es ++ (record { id = id; fields = fields } ∷ []))
            id
            ctx
            (xadd_to env key text fields old s ctx))
unfolding xadd_to
xadd_to-Adds env key text fields ctx old s es id r parsed plain low =
    let parsed' : parse env.checks env.wall text (last_or_none s.last_id) ≡ ok id =
      ap (λ l. parse env.checks env.wall text (last_or_none l)) r.last_is ∙ parsed in
    elim (Bool-cases (rejects (newest es) id)) [
      | inl e ↦
          rw e
            (rw (parsed', xadd_to) (rw (rw e at (add-Represents s es id fields r plain low)) refl))
      | inr e ↦
          let (s', run, r') = rw e at (add-Represents s es id fields r plain low) in
          rw e (
            rw (parsed', xadd_to)
              (rw (run, xadd_to)
                (
                  ap ok (id_reply-bulk id),
                  rw (lookup-insert_self key _ ctx.db) r',
                  λ j f. lookup-insert_other key j _ ctx.db f,
                )))
    ]

-- Outside of the pub/sub mode, for a text that is not the three bytes 0-0 and that is parsed against the
-- newest ID of the key's log to an ID, and for fields in pairs: where the log is empty or the ID is above its
-- newest one, XADD answers with the bulk string of the time, a dash and the number of the ID and puts the
-- entry at the end of the log, leaving other keys as they are; where it is not above the newest one, XADD
-- answers with the error and changes nothing. The ID 0-0 is refused only where it is written with these
-- three bytes: another text of it, as 00-0, is added to an empty log. The entry's numbers are plain and its
-- fields have the room that `add-Represents` asks for. A key without a stream has the empty log.
pub xadd-Adds :
    (env : Env) (key text : Bytes) (rest : List Bytes) (fields : Fields) (ctx : Context)
    (es : List LogEntry) (id : StreamId)
    → ctx.is_pubsub ≡ false
    → bytes_eq text (codes "0-0") ≡ false
    → field_args rest ≡ ok fields
    → Holds (lookup key ctx.db) es
    → parse env.checks env.wall text (last_or_none (newest es)) ≡ ok id
    → IsPlainEntry (record { id = id; fields = fields })
    → fields_room fields + 4168 ≤ room
    → (if rejects (newest es) id
        then xadd env (key ∷ text ∷ rest) ctx ≡ (err top_item_error, ctx)
        else Adds key
            (es ++ (record { id = id; fields = fields } ∷ []))
            id
            ctx
            (xadd env (key ∷ text ∷ rest) ctx))
unfolding xadd xadd_body xadd_entry
xadd-Adds env key text rest fields ctx es id mode named paired holds parsed plain low =
    rw (command_handler_normal (codes "xadd") (xadd_body env (key ∷ text ∷ rest)) ctx mode) (
      rw (named, xadd_body)
        (rw (paired, xadd_body)
          (xadd_to-Adds env key text fields ctx (stream_or_new (lookup key ctx.db)).0
            (stream_or_new (lookup key ctx.db)).1 es id
            (stream_or_new-Represents (lookup key ctx.db) es holds) parsed plain low)))
