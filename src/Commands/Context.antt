-- ===== src/Commands/Context.antt =====
-- commands/mod.rs and the macro of commands/handlers/mod.rs: what a handler reads and changes. A handler is
-- a function of the context that returns the reply and the context; what was changed stays changed where
-- the reply is an error.
use redrum_db.Base.{
  ℕ, ◌≡◌, arith, Bool, true, false, not, ◌&&◌, ◌||◌, List, [], ◌∷◌, ◌++◌, Bytes, get_elem?,
  bytes_eq, if◌then◌else◌,
}
use redrum_db.Base.Result.{Result, ok, err, panic, ok_or}
use redrum_db.Base.Text.{codes, line}
use redrum_db.Database.{Db, Expiries, PubSub}

pub data Action : Type 0 where
  publish : Bytes → Bytes → Action

pub record Context : Type 0 where
  pub db : Db
  pub expiries : Expiries
  pub pubsub : PubSub
  pub subscriptions : List Bytes
  pub is_pubsub : Bool
  pub token : ℕ
  pub actions : List Action

-- What a handler has of its surroundings: the two clocks, in nanoseconds and in milliseconds, the greatest
-- `Instant`, and whether overflow checks are compiled in.
pub record Env : Type 0 where
  pub now : ℕ
  pub wall : ℕ
  pub instant_max : ℕ
  pub checks : Bool

abbrev pub Handler : Type 0 → Type 0
Handler A = Context → Result Bytes A × Context

infixl 5 ◌>>=◌ ◌>>◌
abbrev pub ◌>>=◌ : {A B : Type 0} → Handler A → (A → Handler B) → Handler B
◌>>=◌ step next ctx =
    let (r, ctx') = step ctx in
    elim r [ ok a ↦ next a ctx' | err e ↦ (err e, ctx') | panic ↦ (panic, ctx') ]

abbrev pub ◌>>◌ : {B : Type 0} → Handler (Unit {0}) → Handler B → Handler B
step >> next = step >>= λ _. next

module _ {A : Type 0} where
  -- A computation that does not touch the context.
  abbrev pub lift : Result Bytes A → Handler A
  lift r ctx = (r, ctx)

  abbrev pub reply : A → Handler A
  reply a ctx = (ok a, ctx)

  abbrev pub fail : Bytes → Handler A
  fail e ctx = (err e, ctx)

  abbrev pub gets : (Context → A) → Handler A
  gets f ctx = (ok (f ctx), ctx)

abbrev pub modify : (Context → Context) → Handler (Unit {0})
modify f ctx = (ok tt, f ctx)

abbrev pub set_db : Db → Handler (Unit {0})
set_db d = modify (λ ctx. record ctx { db = d })

-- `args.get(i).ok_or(message)?`
abbrev pub arg : List Bytes → ℕ → Bytes → Handler Bytes
arg args i message = lift (ok_or (get_elem? args i) message)

abbrev pub missing_key : Bytes
missing_key = codes "-ERR missing key"

abbrev pub wrong_type : Bytes
wrong_type = line "-WRONGTYPE Operation against a key holding the wrong kind of value"

unfoldable pub contains_bytes : List Bytes → Bytes → Bool
contains_bytes [] name = false
contains_bytes (x ∷ xs) name = bytes_eq name x || contains_bytes xs name

-- `PUBSUB_HANDLER`
abbrev pub pubsub_handler : List Bytes
pubsub_handler =
    codes "subscribe"
    ∷ codes "unsubscribe"
    ∷ codes "psubscribe"
    ∷ codes "punsubscribe"
    ∷ codes "ping"
    ∷ codes "quit"
    ∷ []

abbrev pub refusal : Bytes → Bytes
refusal name =
    codes "-ERR Can't execute '"
    ++ (name
        ++ line
            "': only (P|S)SUBSCRIBE / (P|S)UNSUBSCRIBE / PING / QUIT / RESET are allowed in this context")

-- `command_handler!`, for the handler with the name and the body.
unfoldable pub command_handler : Bytes → Handler Bytes → Handler Bytes
unfolding contains_bytes
command_handler name body ctx =
    if ctx.is_pubsub && not (contains_bytes pubsub_handler name)
    then (err (refusal name), ctx)
    else body ctx

module _ (name : Bytes) (body : Handler Bytes) (ctx : Context) where
  pub command_handler_normal : ctx.is_pubsub ≡ false → command_handler name body ctx ≡ body ctx
  unfolding command_handler
  command_handler_normal e = simp e

  pub command_handler_permitted :
      contains_bytes pubsub_handler name ≡ true → command_handler name body ctx ≡ body ctx
  unfolding command_handler
  command_handler_permitted e = ground arith

  pub command_handler_refused :
      ctx.is_pubsub ≡ true
      → contains_bytes pubsub_handler name ≡ false
      → command_handler name body ctx ≡ (err (refusal name), ctx)
  unfolding command_handler
  command_handler_refused e f = ground arith
