-- ===== src/Listpack/Represents.antt =====
-- data_structures/listpack.rs: the list of values that a listpack stands for, and that iterating
-- gives it back.
use redrum_db.Base.{
  ℕ, zero, suc, ◌+◌, ◌<◌, ◌≤◌, ◌≡◌, ◌≢◌, refl, ap, none, some, List, [], ◌∷◌, ◌++◌, append_assoc,
  Bytes, length, length-append, get_elem?, arith, ltb, if◌then◌else◌, ==_false,
}
use redrum_db.Base.Result.{ok}
use redrum_db.Base.Words.{u64_mod, to_le_bytes}
use redrum_db.Listpack.Codec.{Value, u32_max, lp_eof, encode_backlen, form_of, decode_form}
use redrum_db.Listpack.RoundTrip.{Decodes, Encoded}
use redrum_db.Listpack.Entry.{decode_entry-Encoded, get_elem?_middle}
use redrum_db.Listpack.{Listpack, ListpackIter, lp_numele_unknown, next, collect, nth}

-- The bytes of one entry that holds the value.
pub record Entry (v : Value) (b : Bytes) : Type 0 where
  pub enc : Bytes
  pub back : Bytes
  pub is : b ≡ enc ++ back
  pub encoded : Encoded enc v
  pub back_is : encode_backlen (length enc) ≡ ok back

abbrev pub Entries : List Value → Bytes → Type 0
Entries [] b = b ≡ []
Entries (v ∷ vs) b = (e : Bytes) × (r : Bytes) × Entry v e × Entries vs r × (b ≡ e ++ r)

-- The count in the header stops at "unknown".
abbrev pub saturated : ℕ → ℕ
saturated n = if ltb n lp_numele_unknown then n else lp_numele_unknown

abbrev pub header : ℕ → ℕ → Bytes
header total count = to_le_bytes 4 total ++ to_le_bytes 2 count

-- The vector of the listpack is its header, the entries of the values and the end mark; the header
-- holds the number of bytes, which a `u32` can hold, and the number of values.
pub record IsListpack (lp : Listpack) (vs : List Value) : Type 0 where
  pub body : Bytes
  pub is : lp.bytes ≡ header (7 + length body) (saturated (length vs)) ++ (body ++ (lp_eof ∷ []))
  pub fits : 7 + length body ≤ u32_max
  pub entries : Entries vs body

-- No entry begins with the byte of the end mark.
first-ne-eof : (f : ℕ) (r : Bytes) (v : Value) → Decodes f r v → length r + 1 < u64_mod → f ≢ lp_eof
unfolding form_of decode_form
first-ne-eof f r v d low e =
    let run = d.reads [] [] (omega arith) in
    cc (ap (λ b. decode_form (form_of b) (b ∷ (r ++ [])) 0 b) e, run)

abbrev pub at : Bytes → ℕ → ListpackIter
at b i = record { bytes = b; offset = i }

next-cons :
    (pre : Bytes) (f : ℕ) (r bl rest : Bytes) (v : Value)
    → Decodes f r v
    → encode_backlen (suc (length r)) ≡ ok bl
    → length pre + (suc (length r) + length bl) < u64_mod
    → next (at (pre ++ (f ∷ (r ++ (bl ++ rest)))) (length pre))
      ≡ some (v, at (pre ++ (f ∷ (r ++ (bl ++ rest)))) (length pre + (suc (length r) + length bl)))
unfolding next
next-cons pre f r bl rest v d run low =
    let d' : Encoded (f ∷ r) v = record { first = f; rest = r; is = refl; decodes = d } in
    rw (get_elem?_middle pre f (r ++ (bl ++ rest)), next)
      (rw (==_false f lp_eof (first-ne-eof f r v d (omega arith)))
        (rw (decode_entry-Encoded pre (f ∷ r) bl rest v d' run low)))

next-Encoded :
    (pre enc bl rest : Bytes) (v : Value)
    → Encoded enc v
    → encode_backlen (length enc) ≡ ok bl
    → length pre + (length enc + length bl) < u64_mod
    → next (at (pre ++ (enc ++ (bl ++ rest))) (length pre))
      ≡ some (v, at (pre ++ (enc ++ (bl ++ rest))) (length pre + (length enc + length bl)))
next-Encoded pre enc bl rest v d run low =
    rw d.is (next-cons pre d.first d.rest bl rest v d.decodes (rw d.is at run) (rw d.is at low))

-- At an entry the iterator gives its value and goes behind it.
next-Entry :
    (pre e rest : Bytes) (v : Value)
    → Entry v e
    → length pre + length e < u64_mod
    → next (at (pre ++ (e ++ rest)) (length pre))
      ≡ some (v, at (pre ++ (e ++ rest)) (length pre + length e))
next-Entry pre e rest v h low =
    let n = length-append h.enc h.back in
    rw (h.is, append_assoc h.enc h.back rest, n)
      (next-Encoded pre h.enc h.back rest v h.encoded h.back_is (rw (h.is, n) at low))

pub next_end : (pre rest : Bytes) → next (at (pre ++ (lp_eof ∷ rest)) (length pre)) ≡ none
unfolding next
next_end pre rest = rw (get_elem?_middle pre lp_eof rest, next)

module _ (v : Value) (vs : List Value) (pre e r : Bytes) (he : Entry v e) where
  -- The iterator behind the first of some entries, and what is left there.
  pub next_step :
      length pre + (length e + length r) < u64_mod
      → next (at (pre ++ ((e ++ r) ++ (lp_eof ∷ []))) (length pre))
        ≡ some (v, at ((pre ++ e) ++ (r ++ (lp_eof ∷ []))) (length (pre ++ e)))
  next_step fits =
      rw
        (
          append_assoc e r (lp_eof ∷ []),
          append_assoc pre e (r ++ (lp_eof ∷ [])),
          length-append pre e,
        )
        (next-Entry pre e (r ++ (lp_eof ∷ [])) v he (omega arith))

-- From the beginning of some entries on the iterator gives their values and ends.
pub collect-Entries :
    (vs : List Value) (pre body : Bytes) (fuel : ℕ)
    → Entries vs body
    → length vs < fuel
    → length pre + length body < u64_mod
    → collect fuel (at (pre ++ (body ++ (lp_eof ∷ []))) (length pre)) ≡ some vs
unfolding collect
collect-Entries vs pre body zero h low fits = absurd (omega arith)
collect-Entries [] pre body (suc fuel) h low fits = rw h (rw (next_end pre [], collect))
collect-Entries (v ∷ vs) pre body (suc fuel) (e, r, he, hr, is) low fits =
    let n : length pre + (length e + length r) < u64_mod = rw (is, length-append e r) at fits in
    rw is (
      rw (next_step v vs pre e r he n, collect)
        (rw (
          collect-Entries vs (pre ++ e) r fuel hr (omega arith)
            (omega (arith, length-append pre e)))))

pub nth-Entries :
    (i : ℕ) (vs : List Value) (pre body : Bytes)
    → Entries vs body
    → length pre + length body < u64_mod
    → nth i (at (pre ++ (body ++ (lp_eof ∷ []))) (length pre)) ≡ get_elem? vs i
unfolding nth
nth-Entries zero [] pre body h fits = rw h (rw (next_end pre [], nth))
nth-Entries (suc i) [] pre body h fits = rw h (rw (next_end pre [], nth))
nth-Entries zero (v ∷ vs) pre body (e, r, he, hr, is) fits =
    rw is (rw (next_step v vs pre e r he (rw (is, length-append e r) at fits), nth))
nth-Entries (suc i) (v ∷ vs) pre body (e, r, he, hr, is) fits =
    let n : length pre + (length e + length r) < u64_mod = rw (is, length-append e r) at fits in
    rw is (
      rw (next_step v vs pre e r he n, nth)
        (nth-Entries i vs (pre ++ e) r hr (omega (arith, length-append pre e))))
