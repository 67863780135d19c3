-- ===== src/Commands/Tracks/Streams.antt =====
-- commands/handlers/streams.rs: the heap of expiries under `xadd`.
use redrum_db.Base.{some, List, [], ◌∷◌, Bytes, bytes_eq, Bool-cases, inl, inr}
use redrum_db.Base.Text.{codes}
use redrum_db.Base.Dict.{lookup}
use redrum_db.Base.Result.{Result-cases}
use redrum_db.Database.{Entry}
use redrum_db.Stream
use redrum_db.Stream.{Stream, Fields}
use redrum_db.Stream.Id.{parse}
use redrum_db.Commands.Context.{Context, Env}
use redrum_db.Commands.Streams.{
  xadd_body, xadd_entry, xadd_to, stream_or_new, field_args, last_or_none,
}
use redrum_db.Commands.Tracked.{TrackedAt, insert-AllTracked, stream_or_new-TrackedAt}
use redrum_db.Commands.Tracks.{Tracked, Tracks}

xadd_to-Tracked :
    (env : Env) (key text : Bytes) (fields : Fields) (e : Entry) (s : Stream) (ctx : Context)
    → Tracked ctx
    → TrackedAt key ctx.expiries (some e)
    → Tracked (xadd_to env key text fields e s ctx).1
unfolding xadd_to
xadd_to-Tracked env key text fields e s ctx h k =
    elim (Result-cases (parse env.checks env.wall text (last_or_none s.last_id))) [
      | inl (id, f) ↦
          rw (f, xadd_to)
            (elim (Result-cases (Stream.add s id fields)) [
              | inl (s', g) ↦ rw (g, xadd_to) (insert-AllTracked key _ ctx.db ctx.expiries h k)
              | inr (inl (b, g)) ↦ rw (g, xadd_to) h
              | inr (inr g) ↦ rw (g, xadd_to) h
            ])
      | inr (inl (b, f)) ↦ rw (f, xadd_to) h
      | inr (inr f) ↦ rw (f, xadd_to) h
    ]

pub xadd_body-Tracks : (env : Env) (args : List Bytes) → Tracks (xadd_body env args)
unfolding xadd_body xadd_entry xadd_to
xadd_body-Tracks env [] ctx h = h
xadd_body-Tracks env (key ∷ []) ctx h = h
xadd_body-Tracks env (key ∷ text ∷ args) ctx h = elim (Bool-cases (bytes_eq text (codes "0-0"))) [
  | inl e ↦ rw (e, xadd_body) h
  | inr e ↦
      rw (e, xadd_body)
        (elim (Result-cases (field_args args)) [
          | inl (fields, f) ↦
              rw (f, xadd_body)
                (xadd_to-Tracked env key text fields (stream_or_new (lookup key ctx.db)).0
                  (stream_or_new (lookup key ctx.db)).1 ctx h
                  (stream_or_new-TrackedAt key ctx.expiries (lookup key ctx.db) (h key)))
          | inr (inl (b, f)) ↦ rw (f, xadd_body) h
          | inr (inr f) ↦ rw (f, xadd_body) h
        ])
]
