-- ===== src/Commands/Tracks/Lists.antt =====
-- commands/handlers/lists.rs: the heap of expiries under the handlers.
use redrum_db.Base.{
  Option, none, some, List, [], ◌∷◌, Bytes, ltb, length, get_elem?, Bool-cases, inl, inr,
}
use redrum_db.Base.Dict.{lookup}
use redrum_db.Base.Result.{Result-cases}
use redrum_db.Database.{Value, string, list, stream, Entry}
use redrum_db.Commands.Lists.{
  push_body, lrange_body, lrange_found, lrange_value, llen_body, llen_found, llen_value, lpop_body,
  lpop_value, lpop_list, lpop_found, pop_count, blpop_body, blpop_value, blpop_found,
}
use redrum_db.Commands.Tracked.{TrackedAt, insert-AllTracked, entry_or_new-TrackedAt}
use redrum_db.Commands.Tracks.{Tracked, Tracks}

pub push_body-Tracks :
    (push_all : List Bytes → List Bytes → List Bytes) (args : List Bytes)
    → Tracks (push_body push_all args)
unfolding push_body
push_body-Tracks push_all [] ctx h = h
push_body-Tracks push_all (key ∷ args) ctx h = elim (Bool-cases (ltb (length (key ∷ args)) 2)) [
  | inl e ↦ rw (e, push_body) h
  | inr e ↦
      rw (e, push_body)
        (insert-AllTracked key _ ctx.db ctx.expiries h
          (entry_or_new-TrackedAt key ctx.expiries (lookup key ctx.db) (h key)))
]

pub lrange_body-Tracks : (args : List Bytes) → Tracks (lrange_body args)
unfolding lrange_body lrange_found lrange_value
lrange_body-Tracks [] ctx h = h
lrange_body-Tracks (key ∷ []) ctx h = h
lrange_body-Tracks (key ∷ start ∷ []) ctx h = h
lrange_body-Tracks (key ∷ start ∷ stop ∷ args) ctx h = found (lookup key ctx.db)
  where
    value : (v : Value) → Tracked (lrange_value v start stop ctx).1
    value (string s) = h
    value (list xs) = h
    value (stream s) = h

    found : (o : Option Entry) → Tracked (lrange_found o start stop ctx).1
    found none = h
    found (some e) = value e.value

pub llen_body-Tracks : (args : List Bytes) → Tracks (llen_body args)
unfolding llen_body llen_found
llen_body-Tracks [] ctx h = h
llen_body-Tracks (key ∷ args) ctx h = found (lookup key ctx.db)
  where
    value : (v : Value) → Tracked (llen_value v ctx).1
    value (string s) = h
    value (list xs) = h
    value (stream s) = h

    found : (o : Option Entry) → Tracked (llen_found o ctx).1
    found none = h
    found (some e) = value e.value

pub lpop_body-Tracks : (args : List Bytes) → Tracks (lpop_body args)
unfolding lpop_body lpop_found lpop_value lpop_list
lpop_body-Tracks [] ctx h = h
lpop_body-Tracks (key ∷ args) ctx h = found (lookup key ctx.db) (h key)
  where
    items :
        (e : Entry) (xs : List Bytes)
        → TrackedAt key ctx.expiries (some e)
        → Tracked (lpop_list key e (get_elem? args 0) xs ctx).1
    items e [] k = h
    items e (x ∷ xs) k = elim (Result-cases (pop_count (get_elem? args 0))) [
      | inl (count, f) ↦ rw (f, lpop_list) (insert-AllTracked key _ ctx.db ctx.expiries h k)
      | inr (inl (b, f)) ↦ rw (f, lpop_list) h
      | inr (inr f) ↦ rw (f, lpop_list) h
    ]

    value :
        (e : Entry) (v : Value)
        → TrackedAt key ctx.expiries (some e)
        → Tracked (lpop_value key e (get_elem? args 0) v ctx).1
    value e (string s) k = h
    value e (list xs) k = items e xs k
    value e (stream s) k = h

    found :
        (o : Option Entry)
        → TrackedAt key ctx.expiries o
        → Tracked (lpop_found key (get_elem? args 0) o ctx).1
    found none k = h
    found (some e) k = value e e.value k

pub blpop_body-Tracks : (args : List Bytes) → Tracks (blpop_body args)
unfolding blpop_body blpop_found blpop_value
blpop_body-Tracks [] ctx h = h
blpop_body-Tracks (key ∷ []) ctx h = h
blpop_body-Tracks (key ∷ text ∷ args) ctx h = found (lookup key ctx.db) (h key)
  where
    value :
        (e : Entry) (v : Value)
        → TrackedAt key ctx.expiries (some e)
        → Tracked (blpop_value key e v ctx).1
    value e (string s) k = h
    value e (list []) k = h
    value e (list (x ∷ xs)) k = insert-AllTracked key _ ctx.db ctx.expiries h k
    value e (stream s) k = h

    found : (o : Option Entry) → TrackedAt key ctx.expiries o → Tracked (blpop_found key o ctx).1
    found none k = h
    found (some e) k = value e e.value k
