-- ===== src/Commands/Table.antt =====
-- commands/mod.rs: the table of the commands.
use redrum_db.Base.{List, [], ◌∷◌, Bytes}
use redrum_db.Base.Text.{codes}
use redrum_db.Base.Dict.{Dict}
use redrum_db.Commands.Context.{Env, Handler}
use redrum_db.Commands.Core
use redrum_db.Commands.Strings
use redrum_db.Commands.Lists
use redrum_db.Commands.Streams
use redrum_db.Commands.Pubsub

-- `CommandHandler`
abbrev pub CommandHandler : Type 0
CommandHandler = Env → List Bytes → Handler Bytes

unfoldable pub command_table : Dict CommandHandler
command_table =
    (codes "PING", λ env. Core.ping)
    ∷ (codes "ECHO", λ env. Core.echo)
    ∷ (codes "SET", Strings.set)
    ∷ (codes "GET", Strings.get)
    ∷ (codes "RPUSH", λ env. Lists.rpush)
    ∷ (codes "LRANGE", λ env. Lists.lrange)
    ∷ (codes "LPUSH", λ env. Lists.lpush)
    ∷ (codes "LLEN", λ env. Lists.llen)
    ∷ (codes "LPOP", λ env. Lists.lpop)
    ∷ (codes "BLPOP", λ env. Lists.blpop)
    ∷ (codes "SUBSCRIBE", λ env. Pubsub.subscribe)
    ∷ (codes "PUBLISH", λ env. Pubsub.publish_handler)
    ∷ (codes "UNSUBSCRIBE", λ env. Pubsub.unsubscribe)
    ∷ (codes "TYPE", λ env. Core.typee)
    ∷ (codes "XADD", Streams.xadd)
    ∷ []
