-- ===== src/Commands/Tests.antt =====
-- commands/handlers: runs of the handlers.
use redrum_db.Base.{
  ◌≡◌, refl, true, false, ◌&&◌, none, some, List, [], ◌∷◌, Bytes, bytes_eq, if◌then◌else◌, arith,
  Bool-cases, inl, inr,
}
use redrum_db.Base.Int.{pos, negsuc}
use redrum_db.Base.Text.{codes}
use redrum_db.Base.Dict.{lookup}
use redrum_db.Base.Result.{ok, err}
use redrum_db.Parser.Usize.{parse_usize, usize_digits}
use redrum_db.Parser.Isize.{parse_isize}
use redrum_db.Database.{Entry, list, string}
use redrum_db.Commands.Context.{Context, Env, command_handler}
use redrum_db.Commands.Reply.{bulk_reply, array_reply, ok_reply, null_reply}
use redrum_db.Commands.Strings.{set, get, is_expired}
use redrum_db.Commands.Strings.Expiry.{set_expiry}
use redrum_db.Commands.Strings.Laws.{get-set}
use redrum_db.Commands.Lists.{rpush, lpush, lpop, lrange, pop_count}
use redrum_db.Commands.Lists.Laws.{items_of, Pushes, items_of-push}
use redrum_db.Commands.Lists.Pops.{popped, lpop-items}
use redrum_db.Commands.Lists.Select.{pick, reaches, within, lrange-pick}
use redrum_db.Commands.Pubsub.{subscribe, unsubscribe, tokens_of}
use redrum_db.Commands.Pubsub.Laws.{
  IsConsistent, SparesOthers, count_token, count_channel, subscriptions-IsConsistent,
}
use redrum_db.Stream.{Fields, rejects}
use redrum_db.Stream.Id.{StreamId, parse}
use redrum_db.Stream.Log.{small-IsPlain}
use redrum_db.Commands.Streams.{xadd, xadd_body, zero_id_error, field_args, last_or_none}
use redrum_db.Commands.Streams.Laws.{Holds, xadd-Adds}

abbrev env : Env
env = record { now = 5; wall = 5; instant_max = 20000000000; checks = true }

abbrev letters : Entry
letters = record { value = list (codes "a" ∷ codes "b" ∷ codes "c" ∷ []); expiry = none }

abbrev ctx : Context
ctx = record {
  db =
      (codes "k", letters) ∷ (codes "s", record { value = string (codes "v"); expiry = none }) ∷ [];
  expiries = [];
  pubsub = (codes "news", 7 ∷ []) ∷ [];
  subscriptions = [];
  is_pubsub = false;
  token = 4;
  actions = [];
}

-- SET k v EX 2
abbrev options : List Bytes
options = codes "ex" ∷ codes "2" ∷ []

set_expiry_test : set_expiry env (codes "k" ∷ codes "v" ∷ options) ≡ ok (some 2000000005)
unfolding set_expiry parse_usize usize_digits
set_expiry_test = refl

get-set_example :
    let (r, ctx') = set env (codes "k" ∷ codes "v" ∷ options) ctx in
    (r ≡ ok ok_reply)
    × ((j : Bytes) (args : List Bytes)
        → (get env (j ∷ args) ctx').0 ≡ (
            if bytes_eq j (codes "k")
            then (if is_expired 5 (some 2000000005)
                then ok null_reply
                else ok (bulk_reply (codes "v")))
            else (get env (j ∷ args) ctx).0))
get-set_example =
    get-set env env (codes "k") (codes "v") options ctx (some 2000000005) refl set_expiry_test

items_of-push_example :
    Pushes
      (codes "k")
      (codes "a" ∷ codes "b" ∷ codes "c" ∷ codes "d" ∷ codes "e" ∷ [])
      ctx
      (rpush (codes "k" ∷ codes "d" ∷ codes "e" ∷ []) ctx)
    × Pushes
        (codes "k")
        (codes "e" ∷ codes "d" ∷ codes "a" ∷ codes "b" ∷ codes "c" ∷ [])
        ctx
        (lpush (codes "k" ∷ codes "d" ∷ codes "e" ∷ []) ctx)
unfolding lookup
items_of-push_example = items_of-push (codes "k") (codes "d") (codes "e" ∷ []) ctx refl

two_test : pop_count (some (codes "2")) ≡ ok 2
unfolding pop_count parse_usize usize_digits
two_test = refl

found_test : lookup (codes "k") ctx.db ≡ some letters
unfolding lookup
found_test = refl

lpop-items_example :
    let (r, ctx') = lpop (codes "k" ∷ codes "2" ∷ []) ctx in
    (r ≡ ok (popped 2 (codes "a" ∷ codes "b" ∷ [])))
    × (items_of (lookup (codes "k") ctx'.db) ≡ codes "c" ∷ [])
    × ((j : Bytes) → bytes_eq j (codes "k") ≡ false → lookup j ctx'.db ≡ lookup j ctx.db)
lpop-items_example =
    lpop-items (codes "k") (codes "2" ∷ []) ctx letters (codes "a") (codes "b" ∷ codes "c" ∷ []) 2
      refl found_test refl two_test

one_test : parse_isize (codes "1") ≡ some (pos 1)
unfolding parse_isize usize_digits
one_test = refl

last_test : parse_isize (codes "-1") ≡ some (negsuc 0)
unfolding parse_isize usize_digits
last_test = refl

pick_test :
    pick 0
      (λ i. reaches 3 (pos 1) i && within 3 (negsuc 0) i)
      (codes "a" ∷ codes "b" ∷ codes "c" ∷ [])
    ≡ codes "b" ∷ codes "c" ∷ []
unfolding pick
pick_test = refl

lrange-pick_example : lrange (codes "k" ∷ codes "1" ∷ codes "-1" ∷ []) ctx ≡ (
  ok (
      array_reply (
        pick 0
          (λ i. reaches 3 (pos 1) i && within 3 (negsuc 0) i)
          (codes "a" ∷ codes "b" ∷ codes "c" ∷ []))),
  ctx,
)
lrange-pick_example =
    lrange-pick (codes "k") (codes "1") (codes "-1") [] ctx letters
      (codes "a" ∷ codes "b" ∷ codes "c" ∷ []) (pos 1) (negsuc 0) refl found_test refl one_test
      last_test

-- The client of token 7 has subscribed to the channel.
abbrev subscriber : Context
subscriber = record ctx { subscriptions = codes "news" ∷ []; is_pubsub = true; token = 7 }

subscriber-IsConsistent : IsConsistent subscriber
unfolding count_token count_channel lookup tokens_of
subscriber-IsConsistent c = elim (Bool-cases (bytes_eq c (codes "news"))) [
  | inl e ↦ rw e refl
  | inr e ↦ rw e refl
]

subscriptions-IsConsistent_example :
    (IsConsistent (subscribe (codes "news" ∷ []) subscriber).1
      × SparesOthers subscriber (subscribe (codes "news" ∷ []) subscriber).1)
    × (IsConsistent (unsubscribe (codes "news" ∷ []) subscriber).1
        × SparesOthers subscriber (unsubscribe (codes "news" ∷ []) subscriber).1)
subscriptions-IsConsistent_example =
    subscriptions-IsConsistent (codes "news" ∷ []) subscriber subscriber-IsConsistent

abbrev one_two : StreamId
one_two = record { ms = 1; seq = 2 }

abbrev fields : Fields
fields = (codes "a", codes "7") ∷ []

fields_test : field_args (codes "a" ∷ codes "7" ∷ []) ≡ ok fields
unfolding field_args
fields_test = refl

id_test : parse true 5 (codes "1-2") (last_or_none none) ≡ ok one_two
unfolding parse
id_test = refl

missing_test : lookup (codes "st") ctx.db ≡ none
unfolding lookup
missing_test = refl

-- The ID 0-0 is refused only where it is written as that text.
zero_test :
    (xadd env (codes "st" ∷ codes "0-0" ∷ codes "a" ∷ codes "7" ∷ []) ctx).0 ≡ err zero_id_error
unfolding xadd command_handler xadd_body
zero_test = refl

abbrev zeros : StreamId
zeros = record { ms = 0; seq = 0 }

zeros_test : parse true 5 (codes "00-0") (last_or_none none) ≡ ok zeros
unfolding parse
zeros_test = refl

other_zero_test :
    (xadd env (codes "st" ∷ codes "00-0" ∷ codes "a" ∷ codes "7" ∷ []) ctx).0
    ≡ ok (bulk_reply (codes "0-0"))
unfolding rejects redrum_db.Base.Decimal.show
other_zero_test =
    (xadd-Adds env (codes "st") (codes "00-0") (codes "a" ∷ codes "7" ∷ []) fields ctx [] zeros refl
      refl fields_test (rw missing_test refl) zeros_test
      (small-IsPlain 0 (omega arith), small-IsPlain 0 (omega arith), small-IsPlain 1 (omega arith))
      (omega arith)).0

xadd-Adds_example :
    let (r, ctx') = xadd env (codes "st" ∷ codes "1-2" ∷ codes "a" ∷ codes "7" ∷ []) ctx in
    (r ≡ ok (bulk_reply (codes "1-2")))
    × Holds (lookup (codes "st") ctx'.db) (record { id = one_two; fields = fields } ∷ [])
    × ((j : Bytes) → bytes_eq j (codes "st") ≡ false → lookup j ctx'.db ≡ lookup j ctx.db)
unfolding rejects redrum_db.Base.Decimal.show
xadd-Adds_example =
    xadd-Adds env (codes "st") (codes "1-2") (codes "a" ∷ codes "7" ∷ []) fields ctx [] one_two refl
      refl fields_test (rw missing_test refl) id_test
      (small-IsPlain 1 (omega arith), small-IsPlain 2 (omega arith), small-IsPlain 1 (omega arith))
      (omega arith)
