-- ===== src/Commands/Tracks.antt =====
-- commands/handlers: the heap of expiries under the handlers.
pub mod Lists
pub mod Streams
pub mod Table
use redrum_db.Base.{
  Bool, true, false, not, ◌&&◌, Option, none, some, List, [], ◌∷◌, Bytes, bytes_eq, ltb, length,
  get_elem?, Bool-cases, inl, inr,
}
use redrum_db.Base.Text.{codes}
use redrum_db.Base.Dict.{lookup}
use redrum_db.Base.Result.{Result-cases}
use redrum_db.Database.{Value, string, list, stream, Entry}
use redrum_db.Stream
use redrum_db.Stream.{Stream, Fields}
use redrum_db.Stream.Id.{parse}
use redrum_db.Commands.Context.{
  Context, Env, Handler, command_handler, contains_bytes, pubsub_handler,
}
use redrum_db.Commands.Core.{ping_body, echo_body, typee_body, typee_found}
use redrum_db.Commands.Strings.{
  set_body, note_expiry, string_entry, is_expired, string_reply, get_body, get_entry, get_found,
}
use redrum_db.Commands.Strings.Expiry.{set_expiry}
use redrum_db.Commands.Lists.{
  push_body, lrange_body, lrange_found, lrange_value, llen_body, llen_found, llen_value, lpop_body,
  lpop_value, lpop_list, lpop_found, pop_count, blpop_body, blpop_value, blpop_found,
}
use redrum_db.Commands.Pubsub.{
  subscribe_body, publish_body, unsubscribe_body, unsubscribe_in, leave,
}
use redrum_db.Commands.Streams.{
  xadd_body, xadd_entry, xadd_to, stream_or_new, field_args, last_or_none,
}
use redrum_db.Commands.Tracked.{
  TrackedAt, AllTracked, insert-AllTracked, erase-AllTracked, TrackedAt-grows, note_expiry-grows,
  note_expiry-TrackedAt, entry_or_new-TrackedAt, stream_or_new-TrackedAt,
}

abbrev pub Tracked : Context → Type 0
Tracked ctx = AllTracked ctx.db ctx.expiries

abbrev pub Tracks : Handler Bytes → Type 0
Tracks h = (ctx : Context) → Tracked ctx → Tracked (h ctx).1

pub command_handler-Tracks :
    (name : Bytes) (body : Handler Bytes) → Tracks body → Tracks (command_handler name body)
unfolding command_handler
command_handler-Tracks name body h ctx all =
    elim (Bool-cases (ctx.is_pubsub && not (contains_bytes pubsub_handler name))) [
      | inl e ↦ rw (e, command_handler) all
      | inr e ↦ rw (e, command_handler) (h ctx all)
    ]

pub ping_body-Tracks : (args : List Bytes) → Tracks (ping_body args)
unfolding ping_body
ping_body-Tracks [] ctx h = h
ping_body-Tracks (arg0 ∷ args) ctx h = h

pub echo_body-Tracks : (args : List Bytes) → Tracks (echo_body args)
unfolding echo_body
echo_body-Tracks [] ctx h = h
echo_body-Tracks (arg0 ∷ args) ctx h = h

pub typee_body-Tracks : (args : List Bytes) → Tracks (typee_body args)
unfolding typee_body typee_found
typee_body-Tracks [] ctx h = h
typee_body-Tracks (key ∷ args) ctx h = found (lookup key ctx.db)
  where
    found : (o : Option Entry) → Tracked (typee_found o ctx).1
    found none = h
    found (some e) = h

pub set_body-Tracks : (env : Env) (args : List Bytes) → Tracks (set_body env args)
unfolding set_body
set_body-Tracks env [] ctx h = h
set_body-Tracks env (key ∷ []) ctx h = h
set_body-Tracks env (key ∷ value ∷ args) ctx h =
    elim (Result-cases (set_expiry env (key ∷ value ∷ args))) [
      | inl (exp, f) ↦
          rw (f, set_body)
            (insert-AllTracked key (string_entry value exp) ctx.db
              (note_expiry exp key ctx.expiries)
              (λ k.
                TrackedAt-grows k ctx.expiries (note_expiry exp key ctx.expiries) (lookup k ctx.db)
                  (λ t. note_expiry-grows exp key ctx.expiries t k) (h k))
              (note_expiry-TrackedAt exp key value ctx.expiries))
      | inr (inl (b, f)) ↦ rw (f, set_body) h
      | inr (inr f) ↦ rw (f, set_body) h
    ]

value_Tracks : (v : Value) → Tracks (string_reply v)
value_Tracks (string s) ctx h = h
value_Tracks (list xs) ctx h = h
value_Tracks (stream s) ctx h = h

pub get_body-Tracks : (env : Env) (args : List Bytes) → Tracks (get_body env args)
unfolding get_body get_found get_entry
get_body-Tracks env [] ctx h = h
get_body-Tracks env (key ∷ args) ctx h = found (lookup key ctx.db)
  where
    found : (o : Option Entry) → Tracked (get_found env key o ctx).1
    found none = h
    found (some e) = elim (Bool-cases (is_expired env.now e.expiry)) [
      | inl f ↦ rw f (erase-AllTracked key ctx.db ctx.expiries h)
      | inr f ↦ rw f (value_Tracks e.value ctx h)
    ]

pub subscribe_body-Tracks : (args : List Bytes) → Tracks (subscribe_body args)
unfolding subscribe_body
subscribe_body-Tracks [] ctx h = h
subscribe_body-Tracks (channel ∷ args) ctx h = h

pub publish_body-Tracks : (args : List Bytes) → Tracks (publish_body args)
unfolding publish_body
publish_body-Tracks [] ctx h = h
publish_body-Tracks (channel ∷ []) ctx h = h
publish_body-Tracks (channel ∷ message ∷ args) ctx h = h

pub unsubscribe_body-Tracks : (args : List Bytes) → Tracks (unsubscribe_body args)
unfolding unsubscribe_body unsubscribe_in leave
unsubscribe_body-Tracks args ctx h = inside ctx.is_pubsub args
  where
    inside : (mode : Bool) (args' : List Bytes) → Tracked (unsubscribe_in mode args' ctx).1
    inside false args' = h
    inside true [] = h
    inside true (channel ∷ args') = elim (Bool-cases (contains_bytes ctx.subscriptions channel)) [
      | inl e ↦ rw e h
      | inr e ↦ rw e h
    ]
