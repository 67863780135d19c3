-- ===== src/Listpack/Entry.antt =====
-- data_structures/listpack.rs: a whole entry, with the length behind it by which a listpack is read
-- backwards.
use redrum_db.Base.{
  ℕ, suc, ◌+◌, ◌<◌, ◌≤◌, ◌≡◌, refl, ap, ◌∙◌, some, ◌∷◌, ◌++◌, Bytes, length, get_elem?,
  get_elem?-append, slice, arith, ltb, leb, lt→ltb, ltb-false, List, if_intro, bytes_eq_refl,
}
use redrum_db.Base.Result.{ok}
use redrum_db.Base.Int.{ℤ, IsI64}
use redrum_db.Base.Words.{u64_mod}
use redrum_db.Listpack.Codec.{
  Value, string, int, backlen_size, backlen_bytes, encode_string, encode_int, encode_backlen,
  decode_entry,
}
use redrum_db.Listpack.RoundTrip.{
  slice_behind, Decodes, Encoded, encode_string-Encoded, encode_int-Encoded,
}

pub length-encode_backlen :
    (n : ℕ) (bl : Bytes) → encode_backlen n ≡ ok bl → length bl ≡ backlen_size n
unfolding encode_backlen
length-encode_backlen n bl run = ground arith

-- A length that fits its 28 bits has a back length.
pub encode_backlen_total : (n : ℕ) → n ≤ 0x0FFFFFFF → (bl : Bytes) × (encode_backlen n ≡ ok bl)
unfolding encode_backlen
encode_backlen_total n h =
    let P : ℕ → Type 0 = λ k. (bl : Bytes) × (backlen_bytes k n ≡ ok bl) in
    rw (ltb-false 0x0FFFFFFF n h) (
      if_intro P (leb n 127) _ _ (λ _. (_, refl))
        (λ _.
          if_intro P (ltb n 16383) _ _ (λ _. (_, refl))
            (λ _.
              if_intro P (ltb n 2097151) _ _ (λ _. (_, refl))
                (λ _. if_intro P (ltb n 268435455) _ _ (λ _. (_, refl)) (λ _. (_, refl))))))

pub get_elem?_middle {ℓ} :
    {A : Type ℓ} (pre : List A) (x : A) (xs : List A)
    → get_elem? (pre ++ (x ∷ xs)) (length pre) ≡ some x
get_elem?_middle pre x xs =
    let e : length pre ≡ length pre + 0 = omega arith in
    ap (get_elem? (pre ++ (x ∷ xs))) e ∙ get_elem?-append pre (x ∷ xs) 0

slice_back :
    (pre h s rest : Bytes)
    → slice (pre ++ (h ++ (s ++ rest))) (length pre + length h) (length pre + length h + length s)
      ≡ some s
slice_back pre h s rest =
    let e : length pre + length h + length s ≡ length pre + (length h + length s) = omega arith in
    rw e (slice_behind pre h s rest)

decode_entry-cons :
    (pre : Bytes) (f : ℕ) (r bl rest : Bytes) (v : Value)
    → Decodes f r v
    → encode_backlen (suc (length r)) ≡ ok bl
    → length pre + (suc (length r) + length bl) < u64_mod
    → decode_entry (pre ++ (f ∷ (r ++ (bl ++ rest)))) (length pre)
      ≡ ok (v, suc (length r) + length bl)
unfolding decode_entry
decode_entry-cons pre f r bl rest v d run fits =
    let n = length-encode_backlen (suc (length r)) bl run in
    let low : length pre + suc (length r) + length bl < u64_mod = omega arith in
    rw (get_elem?_middle pre f (r ++ (bl ++ rest))) (
      rw (d.reads pre (bl ++ rest) (omega arith)) (
        rw (← n) (
          rw (lt→ltb _ _ low)
            (rw (slice_back pre (f ∷ r) bl rest) (rw run (rw (bytes_eq_refl bl)))))))

-- An encoded value with its back length decodes to the value, wherever it stands.
pub decode_entry-Encoded :
    (pre enc bl rest : Bytes) (v : Value)
    → Encoded enc v
    → encode_backlen (length enc) ≡ ok bl
    → length pre + (length enc + length bl) < u64_mod
    → decode_entry (pre ++ (enc ++ (bl ++ rest))) (length pre) ≡ ok (v, length enc + length bl)
decode_entry-Encoded pre enc bl rest v d run fits =
    rw d.is
      (decode_entry-cons pre d.first d.rest bl rest v d.decodes (rw d.is at run) (rw d.is at fits))

-- A string that `encode_string` accepts and whose entry has a back length is read back, with the
-- length of the whole entry, wherever the entry stands in a vector that a `usize` can index.
pub decode_entry-encode_string :
    (pre s enc bl rest : Bytes)
    → encode_string s ≡ ok enc
    → encode_backlen (length enc) ≡ ok bl
    → length pre + (length enc + length bl) < u64_mod
    → decode_entry (pre ++ (enc ++ (bl ++ rest))) (length pre)
      ≡ ok (string s, length enc + length bl)
decode_entry-encode_string pre s enc bl rest text run fits =
    decode_entry-Encoded pre enc bl rest (string s) (encode_string-Encoded s enc text) run fits

-- Every `i64` whose entry has a back length is read back, with the length of the whole entry,
-- wherever the entry stands in a vector that a `usize` can index.
pub decode_entry-encode_int :
    (pre : Bytes) (z : ℤ) (bl rest : Bytes)
    → IsI64 z
    → encode_backlen (length (encode_int z)) ≡ ok bl
    → length pre + (length (encode_int z) + length bl) < u64_mod
    → decode_entry (pre ++ (encode_int z ++ (bl ++ rest))) (length pre)
      ≡ ok (int z, length (encode_int z) + length bl)
decode_entry-encode_int pre z bl rest z_is run fits =
    decode_entry-Encoded pre (encode_int z) bl rest (int z) (encode_int-Encoded z z_is) run fits
