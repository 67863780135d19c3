-- ===== src/Commands/Lists/Laws.antt =====
-- commands/handlers/lists.rs: the list under a key as the sequence of its items.
use redrum_db.Base.{
  ◌≡◌, refl, sym, ◌∙◌, false, Option, none, some, List, [], ◌∷◌, ◌++◌, Bytes, length, bytes_eq,
  arith, append-nil, append_assoc, ltb,
}
use redrum_db.Base.Text.{codes}
use redrum_db.Base.Dict.{lookup, lookup-insert_self, lookup-insert_other}
use redrum_db.Base.Result.{Result, ok}
use redrum_db.Database.{Value, string, list, stream, Entry}
use redrum_db.Commands.Context.{Context, command_handler_normal}
use redrum_db.Commands.Reply.{integer_reply}
use redrum_db.Commands.Lists.{
  push_back_all, push_front_all, entry_or_new, list_or_new, push_body, rpush, lpush,
}

abbrev pub value_items : Value → List Bytes
value_items (list xs) = xs
value_items (string s) = []
value_items (stream s) = []

-- The items of the list under the key; a key without a list has none.
abbrev pub items_of : Option Entry → List Bytes
items_of none = []
items_of (some e) = value_items e.value

entry_or_new-items : (o : Option Entry) → (entry_or_new o).1 ≡ items_of o
unfolding entry_or_new list_or_new
entry_or_new-items none = refl
entry_or_new-items (some e) = of_value e.value
  where
    of_value : (v : Value) → (list_or_new e v).1 ≡ value_items v
    of_value (list xs) = refl
    of_value (string s) = refl
    of_value (stream s) = refl

abbrev pub onto : List Bytes → List Bytes → List Bytes
onto [] ys = ys
onto (x ∷ xs) ys = onto xs (x ∷ ys)

push_back_all_lem : (xs vs : List Bytes) → push_back_all xs vs ≡ xs ++ vs
unfolding push_back_all
push_back_all_lem xs [] = sym (append-nil xs)
push_back_all_lem xs (v ∷ vs) = push_back_all_lem (xs ++ (v ∷ [])) vs ∙ append_assoc xs (v ∷ []) vs

push_front_all_lem : (xs vs : List Bytes) → push_front_all xs vs ≡ onto vs xs
unfolding push_front_all
push_front_all_lem xs [] = refl
push_front_all_lem xs (v ∷ vs) = push_front_all_lem (v ∷ xs) vs

-- What a push does: the number of items is the reply, the list has them, and other keys are as they were.
abbrev pub Pushes : Bytes → List Bytes → Context → Result Bytes Bytes × Context → Type 0
Pushes key xs ctx (r, ctx') =
    (r ≡ ok (integer_reply (length xs)))
    × (items_of (lookup key ctx'.db) ≡ xs)
    × ((j : Bytes) → bytes_eq j key ≡ false → lookup j ctx'.db ≡ lookup j ctx.db)

push_body-Pushes :
    (push_all : List Bytes → List Bytes → List Bytes) (key v : Bytes) (vs : List Bytes)
    (ctx : Context)
    → Pushes key
        (push_all (items_of (lookup key ctx.db)) (v ∷ vs))
        ctx
        (push_body push_all (key ∷ v ∷ vs) ctx)
unfolding push_body
push_body-Pushes push_all key v vs ctx =
    let enough : ltb (length (key ∷ v ∷ vs)) 2 ≡ false = ground arith in
    rw⁻¹ (entry_or_new-items (lookup key ctx.db)) (
      rw (enough, push_body)
        (
          refl,
          rw (lookup-insert_self key _ ctx.db) refl,
          λ j e. lookup-insert_other key j _ ctx.db e,
        ))

rpush-items :
    (key v : Bytes) (vs : List Bytes) (ctx : Context)
    → ctx.is_pubsub ≡ false
    → let xs = items_of (lookup key ctx.db) ++ (v ∷ vs) in
      let (r, ctx') = rpush (key ∷ v ∷ vs) ctx in
      (r ≡ ok (integer_reply (length xs)))
      × (items_of (lookup key ctx'.db) ≡ xs)
      × ((j : Bytes) → bytes_eq j key ≡ false → lookup j ctx'.db ≡ lookup j ctx.db)
unfolding rpush
rpush-items key v vs ctx mode =
    rw (command_handler_normal (codes "rpush") (push_body push_back_all (key ∷ v ∷ vs)) ctx mode) (
      rw (push_back_all_lem (items_of (lookup key ctx.db)) (v ∷ vs)) at
        (push_body-Pushes push_back_all key v vs ctx))

lpush-items :
    (key v : Bytes) (vs : List Bytes) (ctx : Context)
    → ctx.is_pubsub ≡ false
    → let xs = onto (v ∷ vs) (items_of (lookup key ctx.db)) in
      let (r, ctx') = lpush (key ∷ v ∷ vs) ctx in
      (r ≡ ok (integer_reply (length xs)))
      × (items_of (lookup key ctx'.db) ≡ xs)
      × ((j : Bytes) → bytes_eq j key ≡ false → lookup j ctx'.db ≡ lookup j ctx.db)
unfolding lpush
lpush-items key v vs ctx mode =
    rw (command_handler_normal (codes "lpush") (push_body push_front_all (key ∷ v ∷ vs)) ctx mode) (
      rw (push_front_all_lem (items_of (lookup key ctx.db)) (v ∷ vs)) at
        (push_body-Pushes push_front_all key v vs ctx))

-- Outside of the pub/sub mode and with at least one value, RPUSH puts its values behind the items of the
-- key's list in their order, and LPUSH puts them one by one in front of the items; both answer with the
-- number of items, and other keys are as they were. A key without a list counts as one without items.
pub items_of-push :
    (key v : Bytes) (vs : List Bytes) (ctx : Context)
    → ctx.is_pubsub ≡ false
    → Pushes key (items_of (lookup key ctx.db) ++ (v ∷ vs)) ctx (rpush (key ∷ v ∷ vs) ctx)
      × Pushes key (onto (v ∷ vs) (items_of (lookup key ctx.db))) ctx (lpush (key ∷ v ∷ vs) ctx)
items_of-push key v vs ctx mode = (rpush-items key v vs ctx mode, lpush-items key v vs ctx mode)
