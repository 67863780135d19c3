-- ===== src/Listpack/Append.antt =====
-- data_structures/listpack.rs: `append` adds its value at the end, and fails only where a size does
-- not fit.
use redrum_db.Base.{
  ℕ, ◌+◌, ◌<◌, ◌≤◌, ◌^◌, ◌%◌, ◌≡◌, refl, ap, sym, ◌∙◌, true, none, some, List, [], ◌∷◌, ◌++◌,
  append_assoc, append-nil, Bytes, length, length-append, arith, ltb, lt→ltb, ltb-false, ltb→lt,
  if◌then◌else◌, ◌==◌, Bool-cases, inl, inr, ◌⊎◌, Option-cases,
}
use redrum_db.Base.Result.{Result, ok, err}
use redrum_db.Base.Int.{ℤ}
use redrum_db.Base.Words.{u64_mod, to_le_bytes, from_le_bytes}
use redrum_db.Listpack.Codec.{
  Value, string, int, ListpackError, overflow, u32_max, lp_eof, backlen_size, encode_backlen,
  encode_string, encode_int,
}
use redrum_db.Listpack.Number.{strict_parse_i64}
use redrum_db.Listpack.Number.Canonical.{strict_parse_i64-canonical}
use redrum_db.Listpack.Entry.{encode_backlen_total, length-encode_backlen}
use redrum_db.Listpack.RoundTrip.{Encoded, encode_string-Encoded, encode_int-Encoded}
use redrum_db.Listpack.Represents.{Entry, Entries, saturated, header, IsListpack}
use redrum_db.Listpack.{
  Listpack, lp_numele_unknown, pop, write_total_bytes, bump_num_elements, push_encoded_entry,
  append,
}

pop_last : (xs : Bytes) (x : ℕ) → pop (xs ++ (x ∷ [])) ≡ xs
unfolding pop
pop_last [] x = refl
pop_last (y ∷ []) x = refl
pop_last (y ∷ z ∷ xs) x = ap (λ t. y ∷ t) (pop_last (z ∷ xs) x)

Entries-snoc :
    (vs : List Value) (body e : Bytes) (v : Value)
    → Entries vs body
    → Entry v e
    → Entries (vs ++ (v ∷ [])) (body ++ e)
Entries-snoc [] body e v h he = (e, [], he, refl, ap (λ t. t ++ e) h ∙ sym (append-nil e))
Entries-snoc (w ∷ vs) body e v (f, r, hf, hr, is) he =
    (f, r ++ e, hf, Entries-snoc vs r e v hr he, ap (λ t. t ++ e) is ∙ append_assoc f r e)

-- The count that the header of one more value holds.
bumped : ℕ → ℕ
bumped n = if n == lp_numele_unknown then n else n + 1

saturated_step : (n : ℕ) → bumped (saturated n) ≡ saturated (n + 1)
unfolding bumped
saturated_step n = ground arith

-- On a vector that begins with a header the count is replaced.
bump-header :
    (t n : ℕ) (rest : Bytes)
    → n ≤ lp_numele_unknown
    → bump_num_elements {E = ListpackError} (header t n ++ rest) ≡ ok (header t (bumped n) ++ rest)
unfolding bump_num_elements bumped
bump-header t n rest h =
    let e : from_le_bytes (to_le_bytes 2 n) ≡ n = omega arith in rw e (ground arith)

joined : (a b c d : Bytes) → a ++ (b ++ (c ++ d)) ≡ (a ++ (b ++ c)) ++ d
joined a b c d = sym (append_assoc a (b ++ c) d ∙ ap (λ t. a ++ t) (append_assoc b c d))

module _ (t n : ℕ) (body enc back : Bytes) (small : n ≤ lp_numele_unknown)
    (run : encode_backlen (length enc) ≡ ok back) where
  abbrev before : Listpack
  before = record { bytes = header t n ++ (body ++ (lp_eof ∷ [])) }

  popped : pop before.bytes ≡ header t n ++ body
  popped = pop_last (header t n ++ body) lp_eof

  length_before : length before.bytes ≡ 7 + length body
  length_before = omega (arith, length-append body (lp_eof ∷ []))

  -- Where the new size fits a `u32`, the entry goes in front of the end mark.
  push_fits :
      7 + length body + (length enc + length back) ≤ u32_max
      → push_encoded_entry before enc
        ≡ ok (record {
          bytes =
              header (7 + length body + (length enc + length back)) (bumped n)
              ++ ((body ++ (enc ++ back)) ++ (lp_eof ∷ []));
        })
  unfolding push_encoded_entry write_total_bytes
  push_fits fits =
      let k = length enc + length back in
      let total = 7 + length body + k in
      let e : total % 2 ^ 32 ≡ total = omega arith in
      let tail = body ++ (enc ++ (back ++ (lp_eof ∷ []))) in
      rw (run, push_encoded_entry)
        (rw (lt→ltb k u64_mod (omega arith)) (
          rw length_before (
            rw (lt→ltb total u64_mod (omega arith)) (
              rw (ltb-false u32_max total fits) (
                rw popped (
                  rw e (
                    rw (bump-header total n tail small) (
                      ap (λ b. ok (record { bytes = header total (bumped n) ++ b }))
                        (joined body enc back (lp_eof ∷ []))))))))))

  -- Where it does not, nothing is written.
  push_overflows :
      u32_max < 7 + length body + (length enc + length back)
      → push_encoded_entry before enc ≡ err overflow
  unfolding push_encoded_entry
  push_overflows big =
      let k = length enc + length back in
      let total = 7 + length body + k in
      elim (Bool-cases (ltb k u64_mod)) [
        | inr no_add ↦ rw (run, push_encoded_entry) (rw no_add)
        | inl add ↦
            rw (run, push_encoded_entry)
              (rw (add, length_before)
                (elim (Bool-cases (ltb total u64_mod)) [
                  | inr no_total ↦ rw no_total
                  | inl low ↦ rw (low, lt→ltb u32_max total big)
                ]))
      ]

-- What `append` stores for a text.
abbrev pub stored : Bytes → Value
stored value = elim (strict_parse_i64 value) [ some z ↦ int z | none ↦ string value ]

push_long :
    (lp : Listpack) (enc : Bytes)
    → ltb 0x0FFFFFFF (length enc) ≡ true
    → push_encoded_entry lp enc ≡ err overflow
unfolding push_encoded_entry encode_backlen
push_long lp enc long = rw long

data StringOutcome (value : Bytes) (r : Result ListpackError Bytes) : Type 0 where
  done : (enc : Bytes) → r ≡ ok enc → StringOutcome value r
  too_long : r ≡ err overflow → u32_max < length value → StringOutcome value r

StringOutcome-ok : (value enc : Bytes) → StringOutcome value (ok enc)
StringOutcome-ok value enc = done enc refl

StringOutcome-err :
    (value : Bytes) → ltb u32_max (length value) ≡ true → StringOutcome value (err overflow)
StringOutcome-err value big = too_long refl (ltb→lt u32_max (length value) big)

encode_string_outcome : (value : Bytes) → StringOutcome value (encode_string value)
unfolding encode_string
encode_string_outcome value = elim (Bool-cases (ltb (length value) 64)) [
  | inl a ↦ rw (a, encode_string) (StringOutcome-ok value _)
  | inr a ↦ elim (Bool-cases (ltb (length value) 4096)) [
    | inl b ↦ rw (a, b, encode_string) (StringOutcome-ok value _)
    | inr b ↦ elim (Bool-cases (ltb u32_max (length value))) [
      | inl big ↦ rw (a, b, big, encode_string) (StringOutcome-err value big)
      | inr c ↦ rw (a, b, c, encode_string) (StringOutcome-ok value _)
    ]
  ]
]

length-encode_string :
    (value enc : Bytes) → encode_string value ≡ ok enc → length enc ≤ length value + 5
unfolding encode_string
length-encode_string value enc run = ground arith

length-encode_int : (z : ℤ) → length (encode_int z) ≤ 9
unfolding encode_int
length-encode_int z = ground arith

back_short : (n : ℕ) (back : Bytes) → encode_backlen n ≡ ok back → length back ≤ 5
back_short n back run =
    let e = length-encode_backlen n back run in rw e (unfold backlen_size in ground arith)

-- The entry is added, or its size does not fit and nothing happens.
abbrev pub Extends : Result ListpackError Listpack → List Value → Type 0
Extends r vs = ((lp' : Listpack) × (r ≡ ok lp') × IsListpack lp' vs) ⊎ (r ≡ err overflow)

module _ (lp : Listpack) (vs : List Value) (h : IsListpack lp vs) where
  -- The same as a listpack whose vector is written out.
  as_before :
      (enc : Bytes)
      → push_encoded_entry lp enc
        ≡ push_encoded_entry
            (record {
              bytes =
                  header (7 + length h.body) (saturated (length vs)) ++ (h.body ++ (lp_eof ∷ []));
            })
            enc
  as_before enc = ap (λ b. push_encoded_entry (record { bytes = b }) enc) h.is

  saturated-le : saturated (length vs) ≤ lp_numele_unknown
  saturated-le = ground arith

  length_is : length lp.bytes ≡ 7 + length h.body
  length_is = ap length h.is ∙ omega (arith, length-append h.body (lp_eof ∷ []))

  pushed-Extends :
      (enc back : Bytes) (v : Value)
      → Encoded enc v
      → encode_backlen (length enc) ≡ ok back
      → 7 + length h.body + (length enc + length back) ≤ u32_max
      → (lp' : Listpack) × (push_encoded_entry lp enc ≡ ok lp')
        × IsListpack lp' (vs ++ (v ∷ []))
        × (length lp'.bytes ≡ length lp.bytes + (length enc + length back))
  pushed-Extends enc back v d run fits =
      let total = 7 + length h.body + (length enc + length back) in
      let body = h.body ++ (enc ++ back) in
      let n : 7 + length body ≡ total =
        omega (arith, length-append h.body (enc ++ back), length-append enc back) in
      let count : bumped (saturated (length vs)) ≡ saturated (length (vs ++ (v ∷ []))) =
        saturated_step (length vs) ∙ ap saturated (sym (length-append vs (v ∷ []))) in
      (
        record { bytes = header total (bumped (saturated (length vs))) ++ (body ++ (lp_eof ∷ [])) },
        as_before enc ∙ push_fits _ _ h.body enc back saturated-le run fits,
        record {
          body = body;
          is =
              ap (λ c. header total c ++ (body ++ (lp_eof ∷ []))) count
              ∙ ap (λ c. header c (saturated (length (vs ++ (v ∷ [])))) ++ (body ++ (lp_eof ∷ [])))
                  (sym n);
          fits = omega arith;
          entries =
              Entries-snoc vs h.body (enc ++ back) v h.entries
                (record { enc = enc; back = back; is = refl; encoded = d; back_is = run });
        },
        omega (arith, length_is, length-append body (lp_eof ∷ [])),
      )

  -- With room for its bytes an encoded value is added.
  pushed_fits :
      (enc : Bytes) (v : Value)
      → Encoded enc v
      → length enc ≤ 0x0FFFFFFF
      → length lp.bytes + length enc + 5 ≤ u32_max
      → (lp' : Listpack) × (push_encoded_entry lp enc ≡ ok lp')
        × IsListpack lp' (vs ++ (v ∷ []))
        × (length lp'.bytes ≤ length lp.bytes + length enc + 5)
  pushed_fits enc v d short room =
      let (back, run) = encode_backlen_total (length enc) short in
      let low = back_short (length enc) back run in
      let n = length_is in
      let (lp', is, h', size) = pushed-Extends enc back v d run (omega arith) in
      (lp', is, h', omega arith)

  push-Extends :
      (enc : Bytes) (v : Value)
      → Encoded enc v
      → Extends (push_encoded_entry lp enc) (vs ++ (v ∷ []))
  push-Extends enc v d = elim (Bool-cases (ltb 0x0FFFFFFF (length enc))) [
    | inl long ↦ inr (push_long lp enc long)
    | inr short ↦
        let (back, run) = encode_backlen_total (length enc) (ground arith) in
        let total = 7 + length h.body + (length enc + length back) in
        elim (Bool-cases (ltb u32_max total)) [
          | inl big ↦ inr (
              as_before enc
              ∙ push_overflows _ _ h.body enc back saturated-le run (ltb→lt u32_max total big))
          | inr fits ↦
              let (lp', is, h', _) = pushed-Extends enc back v d run (ground arith) in
              inl (lp', is, h')
        ]
  ]

  -- On a listpack that holds some values, `append` gives one that holds them and behind them the value
  -- of its text, an integer where `strict_parse_i64` reads one and else the string, or it reports an
  -- overflow; it never panics.
  pub append-Extends : (value : Bytes) → Extends (append lp value) (vs ++ (stored value ∷ []))
  unfolding append
  append-Extends value = elim (Option-cases (strict_parse_i64 value)) [
    | inl text ↦
        rw (text, stored, append)
          (elim (encode_string_outcome value) [
            | done enc run ↦
                rw run (push-Extends enc (string value) (encode_string-Encoded value enc run))
            | too_long run _ ↦ rw run (inr refl)
          ])
    | inr (z, number) ↦
        rw (number, stored, append)
          (push-Extends (encode_int z) (int z)
            (encode_int-Encoded z (strict_parse_i64-canonical value z number).1))
  ]

  -- On a listpack that holds some values, `append` succeeds where the text with 16 bytes more has at
  -- most 0x0FFFFFFF bytes and the vector with both fits a `u32`: the result holds the values and behind
  -- them that of the text, and is longer by the text and at most 16 bytes.
  pub append_fits :
      (value : Bytes)
      → length value + 16 ≤ 0x0FFFFFFF
      → length lp.bytes + length value + 16 ≤ u32_max
      → (lp' : Listpack) × (append lp value ≡ ok lp')
        × IsListpack lp' (vs ++ (stored value ∷ []))
        × (length lp'.bytes ≤ length lp.bytes + length value + 16)
  unfolding append
  append_fits value short room = elim (Option-cases (strict_parse_i64 value)) [
    | inl text ↦
        rw (text, stored, append)
          (elim (encode_string_outcome value) [
            | done enc run ↦
                let low = length-encode_string value enc run in
                let (lp', is, h', size) =
                  pushed_fits enc (string value) (encode_string-Encoded value enc run) (omega arith)
                    (omega arith) in
                rw run (lp', is, h', omega arith)
            | too_long _ big ↦ absurd (omega arith)
          ])
    | inr (z, number) ↦
        let low = length-encode_int z in
        let (lp', is, h', size) =
          pushed_fits (encode_int z) (int z)
            (encode_int-Encoded z (strict_parse_i64-canonical value z number).1) (omega arith)
            (omega arith) in
        rw (number, stored, append) (lp', is, h', omega arith)
  ]
