-- ===== src/Commands/Refused.antt =====
-- commands/handlers/mod.rs: the commands that a client in the pub/sub mode is refused.
use redrum_db.Base.{
  ◌≡◌, refl, Bool, true, false, ◌||◌, some, List, [], ◌∷◌, Bytes, bytes_eq, bytes_eq_sound,
  Bool-cases, inl, inr,
}
use mathlib.Core.Path.{subst}
use redrum_db.Base.Text.{codes}
use redrum_db.Base.Dict.{Dict, lookup}
use redrum_db.Base.Result.{err}
use redrum_db.Commands.Context.{
  Context, Env, Handler, refusal, command_handler, contains_bytes, pubsub_handler,
  command_handler_refused,
}
use redrum_db.Commands.Core.{echo, echo_body, typee, typee_body}
use redrum_db.Commands.Strings.{set, set_body, get, get_body}
use redrum_db.Commands.Lists.{
  rpush, lpush, push_body, push_back_all, push_front_all, lrange, lrange_body, llen, llen_body,
  lpop, lpop_body, blpop, blpop_body,
}
use redrum_db.Commands.Pubsub.{publish_handler, publish_body}
use redrum_db.Commands.Streams.{xadd, xadd_body}
use redrum_db.Commands.Table.{CommandHandler, command_table}

-- The commands of the table that the pub/sub mode has.
abbrev pub is_allowed : Bytes → Bool
is_allowed name =
    bytes_eq name (codes "SUBSCRIBE")
    || bytes_eq name (codes "UNSUBSCRIBE")
    || bytes_eq name (codes "PING")

-- The handler answers with a refusal and changes nothing.
abbrev pub Refuses : CommandHandler → Type 0
Refuses handler =
    (env : Env) (args : List Bytes) (ctx : Context)
    → ctx.is_pubsub ≡ true
    → (text : Bytes) × (handler env args ctx ≡ (err (refusal text), ctx))

abbrev AllRefuse : Dict CommandHandler → Type 0
AllRefuse [] = Unit
AllRefuse ((name, handler) ∷ d) = (is_allowed name ≡ false → Refuses handler) × AllRefuse d

true-ne-false : true ≡ false → ⊥
true-ne-false e = cc

handler_Refuses :
    (name : Bytes) (body : Env → List Bytes → Handler Bytes)
    → contains_bytes pubsub_handler name ≡ false
    → Refuses (λ env args. command_handler name (body env args))
handler_Refuses name body other env args ctx mode =
    (name, command_handler_refused name (body env args) ctx mode other)

command_table-AllRefuse : AllRefuse command_table
unfolding command_table echo set get rpush lrange lpush llen lpop blpop publish_handler typee xadd
    contains_bytes
command_table-AllRefuse = (
  λ e. absurd (true-ne-false e),
  (
    λ e. handler_Refuses (codes "echo") (λ env args. echo_body args) refl,
    (
      λ e. handler_Refuses (codes "set") (λ env args. set_body env args) refl,
      (
        λ e. handler_Refuses (codes "get") (λ env args. get_body env args) refl,
        (
          λ e. handler_Refuses (codes "rpush") (λ env args. push_body push_back_all args) refl,
          (
            λ e. handler_Refuses (codes "lrange") (λ env args. lrange_body args) refl,
            (
              λ e. handler_Refuses (codes "lpush") (λ env args. push_body push_front_all args) refl,
              (
                λ e. handler_Refuses (codes "llen") (λ env args. llen_body args) refl,
                (
                  λ e. handler_Refuses (codes "lpop") (λ env args. lpop_body args) refl,
                  (
                    λ e. handler_Refuses (codes "blpop") (λ env args. blpop_body args) refl,
                    (
                      λ e. absurd (true-ne-false e),
                      (
                        λ e. handler_Refuses (codes "publish") (λ env args. publish_body args) refl,
                        (
                          λ e. absurd (true-ne-false e),
                          (
                            λ e. handler_Refuses (codes "typee") (λ env args. typee_body args) refl,
                            (
                              λ e.
                                  handler_Refuses (codes "xadd") (λ env args. xadd_body env args)
                                    refl,
                              tt,
                            ),
                          ),
                        ),
                      ),
                    ),
                  ),
                ),
              ),
            ),
          ),
        ),
      ),
    ),
  ),
)

same_handler : (h k : CommandHandler) → some h ≡ some k → h ≡ k
same_handler h k e = cc

lookup-AllRefuse :
    (d : Dict CommandHandler) (name : Bytes) {handler : CommandHandler}
    → AllRefuse d
    → lookup name d ≡ some handler
    → is_allowed name ≡ false
    → Refuses handler
unfolding lookup
lookup-AllRefuse [] name all found other = cc
lookup-AllRefuse ((n, h) ∷ d) name {handler} all found other = elim (Bool-cases (bytes_eq name n)) [
  | inl e ↦
      subst Refuses (same_handler h handler (rw e at found))
        (all.0 (rw⁻¹ (bytes_eq_sound name n e) other))
  | inr e ↦ lookup-AllRefuse d name all.1 (rw e at found) other
]

-- A command of the table that the pub/sub mode does not have refuses, whatever its arguments are.
pub command_table-Refuses :
    (name : Bytes) {handler : CommandHandler}
    → lookup name command_table ≡ some handler
    → is_allowed name ≡ false
    → Refuses handler
command_table-Refuses name found other =
    lookup-AllRefuse command_table name command_table-AllRefuse found other
