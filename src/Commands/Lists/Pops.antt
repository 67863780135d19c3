-- ===== src/Commands/Lists/Pops.antt =====
-- commands/handlers/lists.rs: the pops.
use redrum_db.Base.{
  ℕ, zero, suc, ◌+◌, ◌≡◌, refl, ◌∙◌, false, some, List, [], ◌∷◌, ◌++◌, Bytes, length, take, drop,
  bytes_eq, if◌then◌else◌, arith, append-nil, append_assoc, ◌==◌, get_elem?,
}
use redrum_db.Base.Text.{codes}
use redrum_db.Base.Dict.{lookup, lookup-insert_self, lookup-insert_other}
use redrum_db.Base.Result.{ok}
use redrum_db.Database.{list, Entry}
use redrum_db.Commands.Context.{Context, command_handler_normal}
use redrum_db.Commands.Reply.{bulk_reply, array_reply, bulk_replies, empty_array}
use redrum_db.Commands.Lists.{
  pop_count, pop_many, pop_reply, lpop_list, lpop_found, lpop_body, lpop, lpop_value,
}
use redrum_db.Commands.Lists.Laws.{items_of}

add_zero : (n : ℕ) → n + 0 ≡ n
add_zero n = omega arith

zero_add : (n : ℕ) → 0 + n ≡ n
zero_add n = omega arith

add_suc : (n m : ℕ) → n + 1 + m ≡ n + suc m
add_suc n m = omega arith

pop_many_lem :
    (count : ℕ) (xs : List Bytes) (res : Bytes) (actual : ℕ)
    → pop_many count xs res actual
      ≡ (drop count xs, res ++ bulk_replies (take count xs), actual + length (take count xs))
unfolding pop_many
pop_many_lem zero xs res actual = rw (append-nil res, add_zero actual) refl
pop_many_lem (suc count) [] res actual = rw (append-nil res, add_zero actual) refl
pop_many_lem (suc count) (x ∷ xs) res actual =
    pop_many_lem count xs (res ++ bulk_reply x) (actual + 1)
    ∙ rw
        (
          append_assoc res (bulk_reply x) (bulk_replies (take count xs)),
          add_suc actual (length (take count xs)),
        )
        refl

-- One item stands alone in the reply; another number of items is an array.
abbrev pub popped : ℕ → List Bytes → Bytes
popped count [] = empty_array
popped count (x ∷ xs) = if count == 1 then bulk_reply x else array_reply (x ∷ xs)

pop_reply_lem :
    (count : ℕ) (x : Bytes) (xs : List Bytes)
    → pop_reply count x xs ≡ (drop count (x ∷ xs), popped count (take count (x ∷ xs)))
unfolding pop_reply
pop_reply_lem zero x xs = refl
pop_reply_lem (suc zero) x xs = refl
pop_reply_lem (suc (suc n)) x xs =
    let many : suc (suc n) == 1 ≡ false = ground arith in
    let left : (0 + length (take (suc (suc n)) (x ∷ xs)) == 0) ≡ false = ground arith in
    rw (pop_many_lem (suc (suc n)) (x ∷ xs) [] 0, pop_reply)
      (rw (many, left) (rw (zero_add (length (take (suc (suc n)) (x ∷ xs)))) refl))

-- Outside of the pub/sub mode, LPOP of a list with items takes the first items, as many as its count says
-- or all that there are, and answers with them, as one text where the count is 1 and as an array otherwise;
-- other keys are as they were.
pub lpop-items :
    (key : Bytes) (args : List Bytes) (ctx : Context) (e : Entry) (x : Bytes) (xs : List Bytes)
    (count : ℕ)
    → ctx.is_pubsub ≡ false
    → lookup key ctx.db ≡ some e
    → e.value ≡ list (x ∷ xs)
    → pop_count (get_elem? args 0) ≡ ok count
    → let (r, ctx') = lpop (key ∷ args) ctx in
      (r ≡ ok (popped count (take count (x ∷ xs))))
      × (items_of (lookup key ctx'.db) ≡ drop count (x ∷ xs))
      × ((j : Bytes) → bytes_eq j key ≡ false → lookup j ctx'.db ≡ lookup j ctx.db)
unfolding lpop lpop_body lpop_found lpop_value lpop_list
lpop-items key args ctx e x xs count mode found value counted =
    rw (command_handler_normal (codes "lpop") (lpop_body (key ∷ args)) ctx mode) (
      rw (found, lpop_body)
        (rw (value, lpop_value)
          (rw (counted, lpop_list)
            (rw (pop_reply_lem count x xs) (
              refl,
              rw (lookup-insert_self key _ ctx.db) refl,
              λ j e. lookup-insert_other key j _ ctx.db e,
            )))))
