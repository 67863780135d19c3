-- ===== src/Commands/Lists/Select.antt =====
-- commands/handlers/lists.rs: `lrange` against a selection of the items by their indices.
use redrum_db.Base.{
  ℕ, zero, suc, ◌+◌, ◌-◌, ◌≤◌, ◌<◌, ◌≡◌, refl, ap, sym, ◌∙◌, Bool, true, false, ◌&&◌, ◌||◌, Option,
  none, some, List, [], ◌∷◌, Bytes, length, take, drop, leb, ltb, length-take, length-drop,
  if◌then◌else◌, Bool-cases, inl, inr, arith,
}
use redrum_db.Base.Int.{ℤ, pos, negsuc}
use redrum_db.Base.Result.{ok}
use redrum_db.Base.Decimal.{show}
use redrum_db.Parser.Isize.{parse_isize}
use redrum_db.Commands.Reply.{array_reply, empty_array}
use redrum_db.Commands.Lists.Range.{
  from_end, clamp_start, clamp_stop, range_of, range_reply, lrange_reply,
}
use redrum_db.Commands.Lists.{lrange, lrange_body, lrange_found, lrange_value}
use redrum_db.Commands.Context.{Context, command_handler_normal}
use redrum_db.Database.{Entry, list}
use redrum_db.Base.Dict.{lookup}
use redrum_db.Base.Text.{codes}

-- An index is not before the start and not behind the stop, where the index -1 is that of the last of `len`
-- items.
abbrev pub reaches : ℕ → ℤ → ℕ → Bool
reaches len (pos n) i = leb n i
reaches len (negsuc n) i = leb len (i + suc n)

abbrev pub within : ℕ → ℤ → ℕ → Bool
within len (pos n) i = leb i n
within len (negsuc n) i = leb (i + suc n) len

-- The items with an index that is selected, where the first item has the index `k`.
unfoldable pub pick {ℓ} : {A : Type ℓ} → ℕ → (ℕ → Bool) → List A → List A
pick k p [] = []
pick k p (x ∷ xs) = let rest = pick (suc k) p xs in if p k then x ∷ rest else rest

shift :
    (k n : ℕ) (p q : ℕ → Bool)
    → ((i : ℕ) → i < suc n → p (k + i) ≡ q i)
    → (i : ℕ) → i < n
    → p (suc k + i) ≡ q (suc i)
shift k n p q h i l = let e : suc k + i ≡ k + suc i = omega arith in rw e (h (suc i) (omega arith))

shift_first : (k n : ℕ) (p q : ℕ → Bool) → ((i : ℕ) → i < suc n → p (k + i) ≡ q i) → p k ≡ q 0
shift_first k n p q h = let e : k + 0 ≡ k = omega arith in rw e at (h 0 (omega arith))

module _ {ℓ} {A : Type ℓ} where
  pick_none :
      (k : ℕ) (p : ℕ → Bool) (xs : List A)
      → ((i : ℕ) → i < length xs → p (k + i) ≡ false)
      → pick k p xs ≡ []
  unfolding pick
  pick_none k p [] h = refl
  pick_none k p (x ∷ xs) h =
      let e : k + 0 ≡ k = omega arith in
      rw (rw e at (h 0 (omega arith))) (
        pick_none (suc k) p xs
          (λ i l. let e' : suc k + i ≡ k + suc i = omega arith in rw e' (h (suc i) (omega arith))))

  take-drop_nil : (n m : ℕ) → take n (drop {A = A} m []) ≡ []
  take-drop_nil zero m = refl
  take-drop_nil (suc n) zero = refl
  take-drop_nil (suc n) (suc m) = refl

  pick_range :
      (k first count : ℕ) (p : ℕ → Bool) (xs : List A)
      → ((i : ℕ) → i < length xs → p (k + i) ≡ (leb first i && ltb i (first + count)))
      → pick k p xs ≡ take count (drop first xs)
  unfolding pick
  pick_range k first count p [] h = sym (take-drop_nil count first)
  pick_range k zero zero p (x ∷ xs) h = pick_none k p (x ∷ xs) (λ i l. h i l ∙ ground arith)
  pick_range k zero (suc count) p (x ∷ xs) h =
      let q : ℕ → Bool = λ i. leb 0 i && ltb i (0 + suc count) in
      let chosen : p k ≡ true = shift_first k (length xs) p q h ∙ ground arith in
      rw chosen (
        ap (λ ys. x ∷ ys)
          (pick_range (suc k) zero count p xs
            (λ i l. shift k (length xs) p q h i l ∙ ground arith)))
  pick_range k (suc first) count p (x ∷ xs) h =
      let q : ℕ → Bool = λ i. leb (suc first) i && ltb i (suc first + count) in
      let passed : p k ≡ false = shift_first k (length xs) p q h ∙ ground arith in
      rw passed
        (pick_range (suc k) first count p xs (λ i l. shift k (length xs) p q h i l ∙ ground arith))

reaches-from_end :
    (len : ℕ) (start : ℤ) (i : ℕ)
    → i < len
    → reaches len start i ≡ leb (clamp_start (from_end len start)) i
unfolding from_end clamp_start
reaches-from_end len (pos n) i l = refl
reaches-from_end len (negsuc n) i l = ground arith

-- The indices up to a last one, if there is one.
abbrev up_to : ℤ → ℕ → Bool
up_to (pos last) i = leb i last
up_to (negsuc n) i = false

abbrev IsInside : ℕ → ℤ → Type 0
IsInside len (pos last) = last < len
IsInside len (negsuc n) = Unit {0}

clamp_stop-IsInside : (len : ℕ) (z : ℤ) → IsInside len (clamp_stop len z)
unfolding clamp_stop
clamp_stop-IsInside zero (pos n) = tt
clamp_stop-IsInside (suc len) (pos n) = ground arith
clamp_stop-IsInside zero (negsuc n) = tt
clamp_stop-IsInside (suc len) (negsuc n) = tt

within-from_end :
    (len : ℕ) (stop : ℤ) (i : ℕ)
    → i < len
    → within len stop i ≡ up_to (clamp_stop len (from_end len stop)) i
unfolding from_end clamp_stop
within-from_end zero stop i l = absurd (omega arith)
within-from_end (suc len) (pos n) i l = ground arith
within-from_end (suc len) (negsuc n) i l = ground arith

-- A range is what the indices select.
abbrev Covers : ℕ → (ℕ → Bool) → Option (ℕ × ℕ) → Type 0
Covers len p none = (i : ℕ) → i < len → p i ≡ false
Covers len p (some (first, count)) =
    (first + count ≤ len) × ((i : ℕ) → i < len → p i ≡ (leb first i && ltb i (first + count)))

Covers-between :
    (len first last : ℕ) (p : ℕ → Bool)
    → last < len
    → ((i : ℕ) → i < len → p i ≡ (leb first i && leb i last))
    → Covers len p
        (if ltb last first || leb len first then none else some (first, last - first + 1))
Covers-between len first last p inside h = elim (Bool-cases (ltb last first || leb len first)) [
  | inl e ↦ rw e (λ i l. h i l ∙ ground arith)
  | inr e ↦ rw e (ground arith, λ i l. h i l ∙ ground arith)
]

range_of-Covers :
    (len : ℕ) (start stop : ℤ)
    → Covers len (λ i. reaches len start i && within len stop i) (range_of len start stop)
unfolding range_of
range_of-Covers len start stop =
    ends (clamp_stop len (from_end len stop)) (clamp_stop-IsInside len (from_end len stop))
      (within-from_end len stop)
  where
    ends :
        (z : ℤ)
        → IsInside len z
        → ((i : ℕ) → i < len → within len stop i ≡ up_to z i)
        → Covers len
            (λ i. reaches len start i && within len stop i)
            (elim z [
              | negsuc n ↦ none
              | pos last ↦
                  if ltb last (clamp_start (from_end len start))
                    || leb len (clamp_start (from_end len start))
                  then none
                  else some (
                    clamp_start (from_end len start),
                    last - clamp_start (from_end len start) + 1,
                  )
            ])
    ends (negsuc n) inside h = λ i l. rw (h i l) (ground arith)
    ends (pos last) inside h =
        Covers-between len (clamp_start (from_end len start)) last _ inside
          (λ i l. rw (reaches-from_end len start i l, h i l) refl)

show_zero : empty_array ≡ array_reply []
unfolding show
show_zero = refl

range_reply-Covers :
    (xs : List Bytes) (p : ℕ → Bool) (o : Option (ℕ × ℕ))
    → Covers (length xs) p o
    → range_reply xs o ≡ array_reply (pick 0 p xs)
range_reply-Covers xs p none h =
    rw (pick_none 0 p xs (λ i l. let e : 0 + i ≡ i = omega arith in rw e (h i l))) show_zero
range_reply-Covers xs p (some (first, count)) (fits, h) =
    let left : count ≤ length (drop first xs) = omega (arith, length-drop first xs) in
    rw (pick_range 0 first count p xs (λ i l. let e : 0 + i ≡ i = omega arith in rw e (h i l)))
      (rw (length-take count (drop first xs) left) refl)

-- Outside of the pub/sub mode and for two texts that are numbers, LRANGE of a list answers with the array of
-- the items whose indices are not before the start and not behind the stop, in their order, where negative
-- numbers count from the end; it changes nothing.
pub lrange-pick :
    (key start_text stop_text : Bytes) (args : List Bytes) (ctx : Context) (e : Entry)
    (xs : List Bytes) (start stop : ℤ)
    → ctx.is_pubsub ≡ false
    → lookup key ctx.db ≡ some e
    → e.value ≡ list xs
    → parse_isize start_text ≡ some start
    → parse_isize stop_text ≡ some stop
    → lrange (key ∷ start_text ∷ stop_text ∷ args) ctx ≡ (
      ok (array_reply (pick 0 (λ i. reaches (length xs) start i && within (length xs) stop i) xs)),
      ctx,
    )
unfolding lrange lrange_body lrange_found lrange_value lrange_reply
lrange-pick key start_text stop_text args ctx e xs start stop mode found value from to =
    rw
      (command_handler_normal (codes "lrange") (lrange_body (key ∷ start_text ∷ stop_text ∷ args))
        ctx mode)
      (rw (found, lrange_body)
        (rw (value, lrange_value)
          (rw (from, lrange_reply)
            (rw (to, lrange_reply)
              (rw
                (range_reply-Covers xs
                  (λ i. reaches (length xs) start i && within (length xs) stop i)
                  (range_of (length xs) start stop) (range_of-Covers (length xs) start stop))
                refl)))))
