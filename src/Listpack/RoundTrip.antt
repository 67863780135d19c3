-- ===== src/Listpack/RoundTrip.antt =====
-- data_structures/listpack.rs: every entry that the encoders write decodes to its value.
use Prim.Native.Nat.{bit_and, bit_or}
use redrum_db.Base.{
  ℕ, suc, ◌+◌, ◌*◌, ◌/◌, ◌%◌, ◌^◌, ◌<◌, ◌≡◌, refl, ap, ◌∙◌, true, some, [], ◌∷◌, ◌++◌, Bytes,
  length, get_elem?-append, slice, slice-append, slice_middle, arith, if_intro, lt→ltb, ltb→lt,
}
use redrum_db.Base.Result.{Result, ok, err}
use redrum_db.Base.Int.{ℤ, pos, negsuc, contains, wrap, signed, IsI64}
use redrum_db.Base.Words.{u64_mod, to_le_bytes, from_le_bytes}
use redrum_db.Listpack.Codec.{
  Value, string, int, ListpackError, overflow, encode_string, encode_int, pattern13, form_of,
  read_string, decode_form,
}
use redrum_db.Listpack.Forms.{
  int7_byte, str6_byte, int13_byte, str12_byte, low4, from_to_le_bytes, signed-pattern13,
  signed-wrap16, signed-extend24, signed-wrap32, signed-wrap64,
}

-- `first ∷ enc` decodes to the value wherever it stands in a vector that a `usize` can index.
pub record Decodes (first : ℕ) (enc : Bytes) (v : Value) : Type 0 where
  pub reads :
      (pre rest : Bytes)
      → length pre + (length enc + 1) < u64_mod
      → decode_form (form_of first) (pre ++ (first ∷ (enc ++ rest))) (length pre) first
        ≡ ok (v, suc (length enc))

-- A part of the entry behind the part `h`.
pub slice_behind :
    (pre h s rest : Bytes)
    → slice (pre ++ (h ++ (s ++ rest))) (length pre + length h) (length pre + (length h + length s))
      ≡ some s
slice_behind pre h s rest =
    slice-append pre (h ++ (s ++ rest)) (length h) (length h + length s) ∙ slice_middle h s rest

read_string_behind :
    (pre h s rest : Bytes)
    → length pre + (length h + length s) < u64_mod
    → read_string (pre ++ (h ++ (s ++ rest))) (length pre + length h) (length h) (length s)
      ≡ ok (string s, length h + length s)
unfolding read_string
read_string_behind pre h s rest fits =
    let e : length pre + length h + length s ≡ length pre + (length h + length s) = omega arith in
    rw (e, lt→ltb _ _ fits, slice_behind pre h s rest)

module _ (v : Value) where
  -- The forms with a fixed field, which lies behind the first byte.
  fixed-Decodes :
      (first : ℕ) (enc : Bytes)
      → ((pre rest : Bytes)
          → decode_form (form_of first) (pre ++ ((first ∷ []) ++ (enc ++ rest))) (length pre) first
            ≡ ok (v, suc (length enc)))
      → Decodes first enc v
  fixed-Decodes first enc h = record { reads = λ pre rest fits. h pre rest }

str6-Decodes : (s : Bytes) → length s < 64 → Decodes (bit_or 0x80 (length s % 256)) s (string s)
unfolding decode_form
str6-Decodes s h = record {
  reads = λ pre rest fits.
      let e : length s % 256 ≡ length s = omega arith in
      let (form, field) = str6_byte (length s) h in
      rw (e, form)
        (rw field (
          read_string_behind pre (bit_or 0x80 (length s) ∷ []) s rest (omega arith)
          ∙ ap (λ n. ok (string s, n)) (omega arith)));
}

str12-Decodes :
    (s : Bytes)
    → length s < 4096
    → Decodes (bit_or 0xE0 (bit_and (length s / 2 ^ 8 % 256) 0x0F)) (length s % 256 ∷ s) (string s)
unfolding decode_form
str12-Decodes s h = record {
  reads = λ pre rest fits.
      let hi = length s / 2 ^ 8 in
      let e : hi % 256 ≡ hi = omega arith in
      let (form, field) = str12_byte hi (omega arith) in
      let f = bit_or 0xE0 hi in
      let n : hi * 2 ^ 8 + length s % 256 ≡ length s = omega arith in
      rw (e, low4 hi (omega arith), form)
        (rw (get_elem?-append pre (f ∷ length s % 256 ∷ (s ++ rest)) 1) (
          rw (field, n)
            (read_string_behind pre (f ∷ length s % 256 ∷ []) s rest (omega arith)
              ∙ ap (λ n. ok (string s, n)) (omega arith))));
}

str32-Decodes :
    (s : Bytes)
    → length s < 2 ^ 32
    → Decodes 0xF0 (to_le_bytes 4 (length s % 2 ^ 32) ++ s) (string s)
unfolding form_of decode_form
str32-Decodes s h = record {
  reads = λ pre rest fits.
      let e : length s % 2 ^ 32 ≡ length s = omega arith in
      let le = to_le_bytes 4 (length s) in
      rw e (
        rw (slice_behind pre (0xF0 ∷ []) le (s ++ rest)) (
          ap (read_string (pre ++ ((0xF0 ∷ le) ++ (s ++ rest))) (length pre + 5) 5)
            (from_to_le_bytes 4 (length s) h)
          ∙ read_string_behind pre (0xF0 ∷ le) s rest (omega (arith, fits))
          ∙ ap (λ n. ok (string s, n)) (omega arith)));
}

-- The integer that a little-endian field holds.
le_int :
    (half k n w : ℕ) (z : ℤ)
    → w < 256 ^ k
    → signed half w ≡ z
    → ◌≡◌ {A = Result ListpackError (Value × ℕ)}
        (ok (int (signed half (from_le_bytes (to_le_bytes k w))), n))
        (ok (int z, n))
le_int half k n w z low e = rw (from_to_le_bytes k w low, e)

int13-Decodes :
    (z : ℤ)
    → contains (negsuc 4095) (pos 4095) z ≡ true
    → Decodes (bit_or (pattern13 z / 2 ^ 8 % 256) 0xC0) (pattern13 z % 256 ∷ []) (int z)
unfolding decode_form
int13-Decodes z h = record {
  reads = λ pre rest fits.
      let (low, back) = signed-pattern13 z h in
      let hi = pattern13 z / 2 ^ 8 in
      let e : hi % 256 ≡ hi = omega arith in
      let (form, field) = int13_byte hi (omega arith) in
      let f = bit_or hi 0xC0 in
      rw (e, form)
        (rw (get_elem?-append pre (f ∷ pattern13 z % 256 ∷ rest) 1)
          (rw field (ap (λ t. ok (int t, 2)) back)));
}

int16-Decodes :
    (z : ℤ)
    → contains (negsuc 32767) (pos 32767) z ≡ true
    → Decodes 0xF1 (to_le_bytes 2 (wrap (2 ^ 16) z)) (int z)
unfolding form_of decode_form
int16-Decodes z h =
    let (low, e) = signed-wrap16 z h in
    let w = wrap (2 ^ 16) z in
    fixed-Decodes (int z) 0xF1 (to_le_bytes 2 w) λ pre rest.
      rw (slice_behind pre (0xF1 ∷ []) (to_le_bytes 2 w) rest) (le_int (2 ^ 15) 2 3 w z low e)

int24-Decodes :
    (z : ℤ)
    → contains (negsuc 8388607) (pos 8388607) z ≡ true
    → let v = wrap (2 ^ 32) z in
      Decodes 0xF2 (v % 256 ∷ v / 2 ^ 8 % 256 ∷ v / 2 ^ 16 % 256 ∷ []) (int z)
unfolding form_of decode_form
int24-Decodes z h =
    let v = wrap (2 ^ 32) z in
    let enc = v % 256 ∷ v / 2 ^ 8 % 256 ∷ v / 2 ^ 16 % 256 ∷ [] in
    fixed-Decodes (int z) 0xF2 enc λ pre rest.
      rw (slice_behind pre (0xF2 ∷ []) enc rest) (ap (λ t. ok (int t, 4)) (signed-extend24 z h))

int32-Decodes :
    (z : ℤ)
    → contains (negsuc 2147483647) (pos 2147483647) z ≡ true
    → Decodes 0xF3 (to_le_bytes 4 (wrap (2 ^ 32) z)) (int z)
unfolding form_of decode_form
int32-Decodes z h =
    let (low, e) = signed-wrap32 z h in
    let w = wrap (2 ^ 32) z in
    fixed-Decodes (int z) 0xF3 (to_le_bytes 4 w) λ pre rest.
      rw (slice_behind pre (0xF3 ∷ []) (to_le_bytes 4 w) rest) (le_int (2 ^ 31) 4 5 w z low e)

int64-Decodes : (z : ℤ) → IsI64 z → Decodes 0xF4 (to_le_bytes 8 (wrap (2 ^ 64) z)) (int z)
unfolding form_of decode_form
int64-Decodes z h =
    let (low, e) = signed-wrap64 z h in
    let w = wrap (2 ^ 64) z in
    fixed-Decodes (int z) 0xF4 (to_le_bytes 8 w) λ pre rest.
      rw (slice_behind pre (0xF4 ∷ []) (to_le_bytes 8 w) rest) (le_int (2 ^ 63) 8 9 w z low e)

int7-Decodes : (x : ℕ) → x < 128 → Decodes x [] (int (pos x))
unfolding decode_form
int7-Decodes x h = record {
  reads = λ pre rest fits. let (form, field) = int7_byte x h in rw (form, field);
}

-- An encoded value: its first byte, the rest, and that they decode.
pub record Encoded (enc : Bytes) (v : Value) : Type 0 where
  pub first : ℕ
  pub rest : Bytes
  pub is : enc ≡ first ∷ rest
  pub decodes : Decodes first rest v

-- Each encoding of a string that succeeds decodes.
abbrev EncodedOk : Bytes → Result ListpackError Bytes → Type 0
EncodedOk s r = (enc : Bytes) → r ≡ ok enc → Encoded enc (string s)

EncodedOk-ok : (s : Bytes) (f : ℕ) (r : Bytes) → Decodes f r (string s) → EncodedOk s (ok (f ∷ r))
EncodedOk-ok s f r d enc run = record { first = f; rest = r; is = ground arith; decodes = d }

EncodedOk-err : (s : Bytes) (e : ListpackError) → EncodedOk s (err e)
EncodedOk-err s e enc run = cc

-- Every string that `encode_string` accepts is read back from its encoding.
pub encode_string-Encoded : (s enc : Bytes) → encode_string s ≡ ok enc → Encoded enc (string s)
unfolding encode_string
encode_string-Encoded s =
    if_intro (EncodedOk s) _ _ _ (λ short. EncodedOk-ok s _ _ (str6-Decodes s (ltb→lt _ _ short)))
      (λ _.
        if_intro (EncodedOk s) _ _ _
          (λ short. EncodedOk-ok s _ _ (str12-Decodes s (ltb→lt _ _ short)))
          (λ _.
            if_intro (EncodedOk s) _ _ _ (λ _. EncodedOk-err s overflow)
              (λ fits. EncodedOk-ok s _ _ (str32-Decodes s (ground arith)))))

Encoded-cons : (f : ℕ) (r : Bytes) (v : Value) → Decodes f r v → Encoded (f ∷ r) v
Encoded-cons f r v d = record { first = f; rest = r; is = refl; decodes = d }

small-Encoded : (z : ℤ) → contains (pos 0) (pos 127) z ≡ true → Encoded (wrap 256 z ∷ []) (int z)
small-Encoded (pos n) h =
    let low : n < 128 = ground arith in
    let e : n % 256 ≡ n = omega arith in rw e (Encoded-cons n [] (int (pos n)) (int7-Decodes n low))
small-Encoded (negsuc n) h = cc

-- Every `i64` is read back from its encoding.
pub encode_int-Encoded : (z : ℤ) → IsI64 z → Encoded (encode_int z) (int z)
unfolding encode_int
encode_int-Encoded z fits =
    let P : Bytes → Type 0 = λ b. Encoded b (int z) in
    if_intro P _ _ _ (small-Encoded z) (λ _.
      if_intro P _ _ _ (λ h. Encoded-cons _ _ _ (int13-Decodes z h))
        (λ _.
          if_intro P _ _ _ (λ h. Encoded-cons _ _ _ (int16-Decodes z h))
            (λ _.
              if_intro P _ _ _ (λ h. Encoded-cons _ _ _ (int24-Decodes z h))
                (λ _.
                  if_intro P _ _ _ (λ h. Encoded-cons _ _ _ (int32-Decodes z h))
                    (λ _. Encoded-cons _ _ _ (int64-Decodes z fits))))))
