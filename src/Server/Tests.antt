-- ===== src/Server/Tests.antt =====
-- server/: runs of the event loop on a slab that keeps its vacant keys in a stack.
use redrum_db.Base.{
  ℕ, ◌+◌, ◌≡◌, refl, true, false, none, some, [], ◌∷◌, ◌++◌, Bytes, if◌then◌else◌, length, ◌≤◌, ◌⊎◌,
}
use redrum_db.Base.Text.{codes}
use redrum_db.Base.Dict.{lookup, erase}
use redrum_db.Base.Result.{ok}
use redrum_db.Commands.Table.{command_table}
use redrum_db.Commands.Lists.{popped_reply, rpush, lpush}
use redrum_db.Server.Request.{run_command, answered, message_reply}
use redrum_db.Database.{Db, Entry, list, string, Expiries}
use redrum_db.Commands.Context.{Context, refusal}
use redrum_db.Commands.Reply.{integer_reply}
use redrum_db.Commands.Strings.{get, is_expired}
use redrum_db.Commands.Pubsub.{publish_handler, tokens_of}
use redrum_db.Server.Connection.{Connection, new, send}
use redrum_db.Server.Expiry.{cleanup_expired}
use redrum_db.Server.Blocking.{Queues, wake_client, cleanup_blocked}
use redrum_db.Server.Deliver.{run_actions}
use redrum_db.Server.Event.{Event, written}
use redrum_db.Server.Loop.{started}
use redrum_db.Server.Waiting.{served_with, GivesFirst, wake_client-push}
use redrum_db.Server.Expiries.{cleanup_expired_bound, cleanup_expired-Survives, get-cleanup_expired}
use redrum_db.Server.TimedOut.{names, timed_out, cleanup_blocked-timed_out}
use redrum_db.Server.Refusals.{run_command-refused}
use redrum_db.Server.Delivery.{copies, repeated, queued, publish-queued}
use redrum_db.Server.TestSlab.{update, Entries, slab, env, timeouts}

abbrev waiting : Connection
waiting = record new { blocked = true; block_key = some (codes "k") }

-- The client of token 1 is gone, that of token 2 does not wait, and that of token 3 waits.
abbrev clients : Entries
clients = record {
  at = update 1 (some new) (update 2 (some waiting) (λ i. none));
  free = [];
  end = 3;
}

abbrev two_items : Entry
two_items = record { value = list (codes "a" ∷ codes "b" ∷ []); expiry = none }

abbrev db_of_list : Db
db_of_list = (codes "k", two_items) ∷ []

abbrev queues : Queues
queues = (codes "k", 1 ∷ 2 ∷ 3 ∷ 2 ∷ []) ∷ []

-- RPUSH k c, LPUSH k c
abbrev push_ctx : Context
push_ctx = record {
  db = db_of_list;
  expiries = [];
  pubsub = [];
  subscriptions = [];
  is_pubsub = false;
  token = 5;
  actions = [];
}

wake_client-push_example :
    GivesFirst slab
      (codes "k")
      (codes "a" ∷ codes "b" ∷ codes "c" ∷ [])
      (2 ∷ [])
      3
      waiting
      db_of_list
      queues
      clients
      (wake_client slab
        (codes "k")
        (rpush (codes "k" ∷ codes "c" ∷ []) push_ctx).1.db
        queues
        clients)
    × GivesFirst slab
        (codes "k")
        (codes "c" ∷ codes "a" ∷ codes "b" ∷ [])
        (2 ∷ [])
        3
        waiting
        db_of_list
        queues
        clients
        (wake_client slab
          (codes "k")
          (lpush (codes "k" ∷ codes "c" ∷ []) push_ctx).1.db
          queues
          clients)
unfolding lookup
wake_client-push_example =
    wake_client-push slab (codes "k") (codes "c") [] push_ctx queues clients (1 ∷ 2 ∷ []) 3 (2 ∷ [])
      waiting refl refl (refl, (refl, tt)) refl refl

-- The client of token 3 waits for another key, and has a token in the queue of k from an earlier wait: it is
-- given the item of k.
abbrev strayed : Connection
strayed = record new { blocked = true; block_key = some (codes "other") }

abbrev stray : Entries
stray = record { at = update 2 (some strayed) (λ i. none); free = []; end = 3 }

stray_test :
    slab.get (wake_client slab (codes "k") db_of_list queues stray).2 2
    ≡ some (served_with (popped_reply (codes "k") (codes "a")) strayed)
unfolding lookup wake_client
stray_test = refl

abbrev busy_client : Connection
busy_client = record waiting { write_buffer = codes "queued"; writable = true }

abbrev busy_clients : Entries
busy_clients = record { at = update 2 (some busy_client) (λ i. none); free = []; end = 3 }

-- The socket is ready for writing, and three bytes are written.
abbrev waiting_event : Event
waiting_event = record { token = 3; readable = none; writable = some (written 3 ∷ []) }

abbrev texts : Db
texts =
    (codes "a", record { value = string (codes "x"); expiry = some 3 })
    ∷ (codes "b", record { value = string (codes "y"); expiry = some 9 })
    ∷ []

abbrev heap : Expiries
heap = (3, codes "a") ∷ (4, codes "b") ∷ (9, codes "b") ∷ []

abbrev ctx : Context
ctx = record {
  db = texts;
  expiries = heap;
  pubsub = (codes "news", 1 ∷ 3 ∷ 3 ∷ 2 ∷ []) ∷ [];
  subscriptions = [];
  is_pubsub = false;
  token = 5;
  actions = [];
}

cleanup_test : cleanup_expired 5 texts heap ≡ (
  (codes "b", record { value = string (codes "y"); expiry = some 9 }) ∷ [],
  (9, codes "b") ∷ [],
)
unfolding cleanup_expired lookup erase
cleanup_test = refl

cleanup_expired_bound_example : length heap ≤ length (cleanup_expired 5 texts heap).1 + 170
cleanup_expired_bound_example = cleanup_expired_bound 5 texts heap

cleanup_expired-Survives_example :
    (lookup (codes "a") (cleanup_expired 5 texts heap).0 ≡ lookup (codes "a") texts)
    ⊎ ((e : Entry) × (lookup (codes "a") texts ≡ some e)
        × (is_expired 5 e.expiry ≡ true)
        × (lookup (codes "a") (cleanup_expired 5 texts heap).0 ≡ none))
cleanup_expired-Survives_example = cleanup_expired-Survives 5 texts heap (codes "a")

get-cleanup_expired_example :
    (get env (codes "a" ∷ []) (record ctx { db = (cleanup_expired 4 texts heap).0 })).0
    ≡ (get env (codes "a" ∷ []) ctx).0
get-cleanup_expired_example = get-cleanup_expired env 4 (codes "a") [] ctx refl

publish-queued_example :
    let subs = tokens_of (lookup (codes "news") ctx.pubsub) in
    let (r, ctx') = publish_handler (codes "news" ∷ codes "hello" ∷ []) ctx in
    (r ≡ ok (integer_reply (length subs)))
    × ((j : ℕ)
        → queued (slab.get (run_actions slab ctx'.pubsub ctx'.actions clients) j) []
          ≡ queued
              (slab.get clients j)
              (repeated (copies j subs) (message_reply (codes "news") (codes "hello"))))
publish-queued_example = publish-queued slab (codes "news") (codes "hello") [] ctx clients refl refl

-- The times of two clients are over: one waits, and one does not.
timed_out_test :
    let (q', conns') = cleanup_blocked slab 5 (((3, 3) ∷ (5, 2) ∷ []) ++ ((6, 3) ∷ [])) clients in
    (q' ≡ (6, 3) ∷ [])
    × ((j : ℕ)
        → slab.get conns' j ≡ (
            if names j ((3, 3) ∷ (5, 2) ∷ [])
            then timed_out (slab.get clients j)
            else slab.get clients j))
timed_out_test =
    cleanup_blocked-timed_out slab 5 ((3, 3) ∷ (5, 2) ∷ []) ((6, 3) ∷ []) clients (refl, (refl, tt))
      refl

abbrev listener : Connection
listener = record new { subscriptions = codes "news" ∷ []; is_pubsub = true }

get_found : lookup (codes "GET") command_table ≡ some get
unfolding lookup command_table
get_found = refl

run_command-refused_example :
    (text : Bytes) × (run_command timeouts env 1 (codes "GET") (codes "a" ∷ []) started listener
      ≡ ok (started, send (refusal text) listener, answered none))
run_command-refused_example =
    run_command-refused timeouts env 1 (codes "GET") (codes "a" ∷ []) started listener refl
      get_found refl
