-- ===== src/Commands/Tracks/Table.antt =====
-- commands/mod.rs: the heap of expiries under the table of the handlers.
use redrum_db.Base.{◌≡◌, some, List, [], ◌∷◌, Bytes, bytes_eq, Bool-cases, inl, inr}
use mathlib.Core.Path.{subst}
use redrum_db.Base.Text.{codes}
use redrum_db.Base.Dict.{Dict, lookup}
use redrum_db.Commands.Context.{Env}
use redrum_db.Commands.Core.{ping, ping_body, echo, echo_body, typee, typee_body}
use redrum_db.Commands.Strings.{set, set_body, get, get_body}
use redrum_db.Commands.Lists.{
  rpush, lpush, push_body, push_back_all, push_front_all, lrange, lrange_body, llen, llen_body,
  lpop, lpop_body, blpop, blpop_body,
}
use redrum_db.Commands.Pubsub.{
  subscribe, subscribe_body, publish_handler, publish_body, unsubscribe, unsubscribe_body,
}
use redrum_db.Commands.Streams.{xadd, xadd_body}
use redrum_db.Commands.Table.{CommandHandler, command_table}
use redrum_db.Commands.Tracks.{
  Tracks, command_handler-Tracks, ping_body-Tracks, echo_body-Tracks, typee_body-Tracks,
  set_body-Tracks, get_body-Tracks, subscribe_body-Tracks, publish_body-Tracks,
  unsubscribe_body-Tracks,
}
use redrum_db.Commands.Tracks.Lists.{
  push_body-Tracks, lrange_body-Tracks, llen_body-Tracks, lpop_body-Tracks, blpop_body-Tracks,
}
use redrum_db.Commands.Tracks.Streams.{xadd_body-Tracks}

-- The handler keeps the expiries in the heap, whatever its arguments are.
abbrev pub HandlerTracks : CommandHandler → Type 0
HandlerTracks handler = (env : Env) (args : List Bytes) → Tracks (handler env args)

abbrev AllTrack : Dict CommandHandler → Type 0
AllTrack [] = Unit
AllTrack ((name, handler) ∷ d) = HandlerTracks handler × AllTrack d

command_table-AllTrack : AllTrack command_table
unfolding command_table ping echo set get rpush lrange lpush llen lpop blpop subscribe
    publish_handler unsubscribe typee xadd
command_table-AllTrack = (
  λ env args. command_handler-Tracks (codes "ping") (ping_body args) (ping_body-Tracks args),
  (
    λ env args. command_handler-Tracks (codes "echo") (echo_body args) (echo_body-Tracks args),
    (
      λ env args.
          command_handler-Tracks (codes "set") (set_body env args) (set_body-Tracks env args),
      (
        λ env args.
            command_handler-Tracks (codes "get") (get_body env args) (get_body-Tracks env args),
        (
          λ env args.
              command_handler-Tracks (codes "rpush") (push_body push_back_all args)
                (push_body-Tracks push_back_all args),
          (
            λ env args.
                command_handler-Tracks (codes "lrange") (lrange_body args)
                  (lrange_body-Tracks args),
            (
              λ env args.
                  command_handler-Tracks (codes "lpush") (push_body push_front_all args)
                    (push_body-Tracks push_front_all args),
              (
                λ env args.
                    command_handler-Tracks (codes "llen") (llen_body args) (llen_body-Tracks args),
                (
                  λ env args.
                      command_handler-Tracks (codes "lpop") (lpop_body args)
                        (lpop_body-Tracks args),
                  (
                    λ env args.
                        command_handler-Tracks (codes "blpop") (blpop_body args)
                          (blpop_body-Tracks args),
                    (
                      λ env args.
                          command_handler-Tracks (codes "subscribe") (subscribe_body args)
                            (subscribe_body-Tracks args),
                      (
                        λ env args.
                            command_handler-Tracks (codes "publish") (publish_body args)
                              (publish_body-Tracks args),
                        (
                          λ env args.
                              command_handler-Tracks (codes "unsubscribe") (unsubscribe_body args)
                                (unsubscribe_body-Tracks args),
                          (
                            λ env args.
                                command_handler-Tracks (codes "typee") (typee_body args)
                                  (typee_body-Tracks args),
                            (
                              λ env args.
                                  command_handler-Tracks (codes "xadd") (xadd_body env args)
                                    (xadd_body-Tracks env args),
                              tt,
                            ),
                          ),
                        ),
                      ),
                    ),
                  ),
                ),
              ),
            ),
          ),
        ),
      ),
    ),
  ),
)

same_handler : (h k : CommandHandler) → some h ≡ some k → h ≡ k
same_handler h k e = cc

lookup-AllTrack :
    (d : Dict CommandHandler) (name : Bytes) {handler : CommandHandler}
    → AllTrack d
    → lookup name d ≡ some handler
    → HandlerTracks handler
unfolding lookup
lookup-AllTrack [] name all found = cc
lookup-AllTrack ((n, h) ∷ d) name {handler} all found = elim (Bool-cases (bytes_eq name n)) [
  | inl e ↦ subst HandlerTracks (same_handler h handler (rw e at found)) all.0
  | inr e ↦ lookup-AllTrack d name all.1 (rw e at found)
]

pub command_table-HandlerTracks :
    (name : Bytes) {handler : CommandHandler}
    → lookup name command_table ≡ some handler
    → HandlerTracks handler
command_table-HandlerTracks name found =
    lookup-AllTrack command_table name command_table-AllTrack found
