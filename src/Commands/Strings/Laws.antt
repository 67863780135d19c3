-- ===== src/Commands/Strings/Laws.antt =====
-- commands/handlers/strings.rs: what `get` reads after a `set`.
use redrum_db.Base.{
  ℕ, ◌≡◌, refl, ap, ◌∙◌, Bool, false, Option, none, some, List, ◌∷◌, Bytes, bytes_eq, if◌then◌else◌,
  Bool-cases, inl, inr,
}
use redrum_db.Base.Text.{codes}
use redrum_db.Base.Dict.{lookup, insert, lookup-insert}
use redrum_db.Base.Result.{Result, ok, err}
use redrum_db.Database.{Value, string, list, stream, Entry}
use redrum_db.Commands.Context.{
  Context, Env, command_handler_normal, command_handler_refused, refusal, wrong_type,
}
use redrum_db.Commands.Reply.{bulk_reply, null_reply, ok_reply}
use redrum_db.Commands.Strings.{
  set, get, get_body, get_found, set_body, get_entry, string_entry, string_reply, note_expiry,
  is_expired,
}
use redrum_db.Commands.Strings.Expiry.{set_expiry}

-- What `get` answers for what it finds.
abbrev pub value_reply : Value → Result Bytes Bytes
value_reply (string s) = ok (bulk_reply s)
value_reply (list xs) = err wrong_type
value_reply (stream s) = err wrong_type

abbrev pub found_reply : ℕ → Option Entry → Result Bytes Bytes
found_reply now none = ok null_reply
found_reply now (some e) = if is_expired now e.expiry then ok null_reply else value_reply e.value

abbrev pub get_reply : ℕ → Bool → Option Entry → Result Bytes Bytes
get_reply now is_pubsub found =
    if is_pubsub then err (refusal (codes "get")) else found_reply now found

-- The reply depends on the entry of the key alone.
get_body_lem :
    (env : Env) (key : Bytes) (args : List Bytes) (ctx : Context)
    → (get_body env (key ∷ args) ctx).0 ≡ found_reply env.now (lookup key ctx.db)
unfolding get_body get_found get_entry
get_body_lem env key args ctx = found (lookup key ctx.db)
  where
    of_value : (v : Value) → (string_reply v ctx).0 ≡ value_reply v
    of_value (string s) = refl
    of_value (list xs) = refl
    of_value (stream s) = refl

    found : (o : Option Entry) → (get_found env key o ctx).0 ≡ found_reply env.now o
    found none = refl
    found (some e) = elim (Bool-cases (is_expired env.now e.expiry)) [
      | inl f ↦ rw f refl
      | inr f ↦ rw f (of_value e.value)
    ]

pub get_lem :
    (env : Env) (key : Bytes) (args : List Bytes) (ctx : Context)
    → (get env (key ∷ args) ctx).0 ≡ get_reply env.now ctx.is_pubsub (lookup key ctx.db)
unfolding get
get_lem env key args ctx = elim (Bool-cases ctx.is_pubsub) [
  | inl e ↦
      ap (λ h. h.0) (command_handler_refused (codes "get") (get_body env (key ∷ args)) ctx e refl)
      ∙ simp e
  | inr e ↦
      ap (λ h. h.0) (command_handler_normal (codes "get") (get_body env (key ∷ args)) ctx e)
      ∙ (get_body_lem env key args ctx ∙ simp e)
]

abbrev after_set : Bytes → Bytes → Option ℕ → Context → Context
after_set key value expiry ctx = record ctx {
  db = insert key (string_entry value expiry) ctx.db;
  expiries = note_expiry expiry key ctx.expiries;
}

-- Outside of the pub/sub mode, a `set` whose arguments name the expiry answers OK; from then on `get` of
-- the key gives the value, until the expiry, from which on it gives nothing, and `get` of another key gives
-- what it gave before.
pub get-set :
    (env env' : Env) (key value : Bytes) (options : List Bytes) (ctx : Context) (expiry : Option ℕ)
    → ctx.is_pubsub ≡ false
    → set_expiry env (key ∷ value ∷ options) ≡ ok expiry
    → let (r, ctx') = set env (key ∷ value ∷ options) ctx in
      (r ≡ ok ok_reply)
      × ((j : Bytes) (args : List Bytes)
          → (get env' (j ∷ args) ctx').0 ≡ (
              if bytes_eq j key
              then (if is_expired env'.now expiry then ok null_reply else ok (bulk_reply value))
              else (get env' (j ∷ args) ctx).0))
unfolding set set_body
get-set env env' key value options ctx expiry mode timed =
    rw (command_handler_normal (codes "set") (set_body env (key ∷ value ∷ options)) ctx mode)
      (rw (timed, set_body) (refl, other))
  where
    other :
        (j : Bytes) (args : List Bytes)
        → (get env' (j ∷ args) (after_set key value expiry ctx)).0 ≡ (
            if bytes_eq j key
            then (if is_expired env'.now expiry then ok null_reply else ok (bulk_reply value))
            else (get env' (j ∷ args) ctx).0)
    other j args =
        rw (get_lem env' j args (after_set key value expiry ctx), get_lem env' j args ctx)
          (rw (lookup-insert key j (string_entry value expiry) ctx.db)
            (elim (Bool-cases (bytes_eq j key)) [ inl e ↦ rw e (simp mode) | inr e ↦ rw e refl ]))
