-- ===== src/Server/Runs.antt =====
-- server/mod.rs: runs of whole events.
use redrum_db.Base.{◌≡◌, refl, true, none, some, [], ◌∷◌, ◌++◌, Bytes, slice}
use redrum_db.Base.Text.{codes, line}
use redrum_db.Base.Dict.{lookup, insert}
use redrum_db.Base.Result.{ok}
use redrum_db.Parser.{
  parse_command, read_length, read_line, parse_bulk_string, read_bytes, with_capacity, parse_args,
  normalize_upper,
}
use redrum_db.Parser.Usize.{parse_usize, usize_digits}
use redrum_db.Commands.Table.{command_table}
use redrum_db.Commands.Lists.{llen, blpop}
use redrum_db.Server.Request.{dispatch, Shared, queue_of, TimeoutParser}
use redrum_db.Commands.Reply.{integer_reply, ok_reply}
use redrum_db.Server.Connection.{Connection, new}
use redrum_db.Server.Event.{Event, received, on_event, on_accept}
use redrum_db.Server.Flushing.{Flushable}
use redrum_db.Server.Loop.{poll_timeout, started, Step, accepts, handles, here, next}
use redrum_db.Server.Reach.{Reach-AllFlushable}
use redrum_db.Server.TestSlab.{update, Entries, slab, no_clients, one_client, env, timeouts}
use redrum_db.Server.Kept.{Reach-IsQueued}
use redrum_db.Server.Expiring.{Reach-has}
use redrum_db.Commands.Tracked.{has}
use redrum_db.Commands.Strings.{set, note_expiry}
use redrum_db.Commands.Strings.Expiry.{set_expiry}
use redrum_db.Database.{Entry, string}
use redrum_db.Server.Queued.{stands}

-- A client asks for the length of a list that is not there, and is answered at once.
abbrev llen_request : Bytes
llen_request = line "*2" ++ (line "$4" ++ (line "llen" ++ (line "$1" ++ line "k")))

abbrev llen_event : Event
llen_event = record { token = 1; readable = some (received llen_request); writable = none }

abbrev after_llen : Shared × Entries
after_llen = (
  started,
  record {
    at =
        update 0 (some (record new { write_buffer = integer_reply 0; writable = true }))
          (update 0 none (update 0 (some new) (λ i. none)));
    free = [];
    end = 1;
  },
)

llen_run : on_event slab timeouts env llen_event started one_client ≡ ok after_llen
unfolding on_event parse_command read_length read_line slice parse_usize usize_digits
    parse_bulk_string read_bytes with_capacity parse_args dispatch normalize_upper lookup
    command_table llen
llen_run = refl

accepted-Step : Step slab timeouts (started, no_clients) (started, one_client)
unfolding on_accept
accepted-Step = accepts refl

Reach-AllFlushable_example : Flushable (slab.get after_llen.1 0)
Reach-AllFlushable_example =
    Reach-AllFlushable slab timeouts (started, no_clients) (λ i. refl)
      (next (next here accepted-Step) (handles env llen_event llen_run)) 0

-- The client waits for an item without an end.
abbrev blpop_request : Bytes
blpop_request =
    line "*3"
    ++ (line "$5" ++ (line "BLPOP" ++ (line "$1" ++ (line "k" ++ (line "$1" ++ line "0")))))

abbrev blpop_event : Event
blpop_event = record { token = 1; readable = some (received (blpop_request)); writable = none }

abbrev after_blpop : Shared × Entries
after_blpop = (
  record started { queues = (codes "k", 1 ∷ []) ∷ [] },
  record {
    at =
        update 0
          (some (record new {
            read_buffer = blpop_request;
            blocked = true;
            block_key = some (codes "k");
          }))
          (update 0 none (update 0 (some new) (λ i. none)));
    free = [];
    end = 1;
  },
)

blpop_run : on_event slab timeouts env blpop_event started one_client ≡ ok after_blpop
unfolding on_event parse_command read_length read_line slice parse_usize usize_digits
    parse_bulk_string read_bytes with_capacity parse_args dispatch normalize_upper lookup insert
    command_table blpop
blpop_run = refl

abbrev waits_for_k : Connection
waits_for_k = record new {
  read_buffer = blpop_request;
  blocked = true;
  block_key = some (codes "k");
}

Reach-IsQueued_example :
    (k : Bytes) × (waits_for_k.block_key ≡ some k)
    × (stands 0 (queue_of (lookup k after_blpop.0.queues)) ≡ true)
Reach-IsQueued_example =
    Reach-IsQueued slab timeouts (started, no_clients) 0 waits_for_k (λ i. refl)
      (next (next here accepted-Step) (handles env blpop_event blpop_run)) refl refl

abbrev set_event : Event
set_event = record {
  token = 1;
  readable = some (
      received (
        line "*5"
        ++ (line "$3"
            ++ (line "SET"
                ++ (line "$1"
                    ++ (line "k"
                        ++ (line "$1"
                            ++ (line "v"
                                ++ (line "$2" ++ (line "EX" ++ (line "$1" ++ line "2")))))))))));
  writable = none;
}

abbrev expiring : Entry
expiring = record { value = string (codes "v"); expiry = some 2000000005 }

abbrev after_set : Shared × Entries
after_set = (
  record started { db = (codes "k", expiring) ∷ []; expiries = (2000000005, codes "k") ∷ [] },
  record {
    at =
        update 0 (some (record new { write_buffer = ok_reply; writable = true }))
          (update 0 none (update 0 (some new) (λ i. none)));
    free = [];
    end = 1;
  },
)

set_run : on_event slab timeouts env set_event started one_client ≡ ok after_set
unfolding on_event parse_command read_length read_line slice parse_usize usize_digits
    parse_bulk_string read_bytes with_capacity parse_args dispatch normalize_upper lookup insert
    command_table set set_expiry note_expiry
set_run = refl

set_found : lookup (codes "k") after_set.0.db ≡ some expiring
unfolding lookup
set_found = refl

Reach-has_example : has 2000000005 (codes "k") after_set.0.expiries ≡ true
Reach-has_example =
    Reach-has slab timeouts no_clients (codes "k") expiring 2000000005
      (next (next here accepted-Step) (handles env set_event set_run)) set_found refl

poll_timeout_test : poll_timeout 5 ((8, 1) ∷ (9, 2) ∷ []) ≡ some 3
unfolding poll_timeout
poll_timeout_test = refl

-- The client waits for an item for one second.
abbrev second : TimeoutParser
second text = some (some 1000)

abbrev after_second : Shared × Entries
after_second = (
  record started { queues = (codes "k", 1 ∷ []) ∷ []; timeouts = (1000000005, 1) ∷ [] },
  record {
    at =
        update 0 (some (record waits_for_k { block_deadline = some 1000000005 }))
          (update 0 none (update 0 (some new) (λ i. none)));
    free = [];
    end = 1;
  },
)
