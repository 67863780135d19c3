-- ===== src/Listpack/Laws.antt =====
-- data_structures/listpack.rs: a listpack as the list of its values.
use redrum_db.Base.{
  ℕ, ◌+◌, ◌<◌, ◌≤◌, ◌^◌, ◌≡◌, refl, ap, sym, ◌∙◌, some, List, [], ◌∷◌, Bytes, length, length-append,
  get_elem?, arith, ltb, Bool-cases, inl, inr, ltb→lt, ==_false,
}
use redrum_db.Base.Result.{ok}
use redrum_db.Listpack.Codec.{Value, ListpackError, lp_eof}
use redrum_db.Listpack.Forms.{from_to_le_bytes}
use redrum_db.Listpack.Represents.{
  Entry, Entries, saturated, header, IsListpack, collect-Entries, nth-Entries,
}
use redrum_db.Listpack.{
  Listpack, lp_numele_unknown, iter, collect, nth, new, element_count, get, total_bytes,
  read_total_bytes, read_num_elements,
}

-- A new listpack is the empty list.
pub new-IsListpack {ℓ} : {E : Type ℓ} → (lp : Listpack) × (new {E = E} ≡ ok lp) × IsListpack lp []
unfolding new
new-IsListpack = (_, refl, record { body = []; is = refl; fits = omega arith; entries = refl })

Entry-pos : (v : Value) (b : Bytes) → Entry v b → 0 < length b
Entry-pos v b h =
    let d = h.encoded in
    let e = ap length h.is in let e' = ap length d.is in omega (arith, length-append h.enc h.back)

pub length-Entries : (vs : List Value) (b : Bytes) → Entries vs b → length vs ≤ length b
length-Entries [] b h = omega arith
length-Entries (v ∷ vs) b (e, r, he, hr, is) =
    let n = ap length is in
    omega (arith, length-append e r, Entry-pos v e he, length-Entries vs r hr)

module _ (lp : Listpack) (vs : List Value) (h : IsListpack lp vs) where
  pub length_is : length lp.bytes ≡ 7 + length h.body
  length_is = ap length h.is ∙ omega (arith, length-append h.body (lp_eof ∷ []))

  -- Iterating over a listpack that holds some values gives these values; fuel for the number of bytes is enough.
  pub collect-iter : collect (length lp.bytes) (iter lp) ≡ some vs
  collect-iter =
      let e = length_is in
      let low = h.fits in
      ap (λ b. collect (length lp.bytes) (record { bytes = b; offset = 6 })) h.is
      ∙ collect-Entries vs (header (7 + length h.body) (saturated (length vs))) h.body
          (length lp.bytes) h.entries (omega (arith, length-Entries vs h.body h.entries))
          (omega arith)

  -- On a listpack that holds some values, `get` is the value at the index, and nothing behind the end.
  pub get-get_elem? : (index : ℕ) → get lp index ≡ get_elem? vs index
  unfolding get
  get-get_elem? index =
      let low = h.fits in
      ap (λ b. nth index (record { bytes = b; offset = 6 })) h.is
      ∙ nth-Entries index vs (header (7 + length h.body) (saturated (length vs))) h.body h.entries
          (omega arith)

  read_num_is : read_num_elements {E = ListpackError} lp.bytes ≡ ok (saturated (length vs))
  unfolding read_num_elements
  read_num_is =
      let n = saturated (length vs) in
      let low : n < 256 ^ 2 = ground arith in
      ap read_num_elements h.is ∙ ap ok (from_to_le_bytes 2 n low)

  -- On a listpack that holds some values, `len` (`element_count`) is their number, also where there are more than the header can count.
  pub element_count-length : element_count lp ≡ ok (length vs)
  unfolding element_count
  element_count-length = elim (Bool-cases (ltb (length vs) lp_numele_unknown)) [
    | inl few ↦
        let low = ltb→lt (length vs) lp_numele_unknown few in
        rw (read_num_is, element_count)
          (rw few (rw (==_false (length vs) lp_numele_unknown (omega arith))))
    | inr many ↦ rw (read_num_is, element_count) (rw many (rw collect-iter))
  ]

  pub total_bytes-length {ℓ} : {E : Type ℓ} → total_bytes {E = E} lp ≡ ok (length lp.bytes)
  unfolding total_bytes
  total_bytes-length =
      let low = h.fits in
      let total = 7 + length h.body in
      ap read_total_bytes h.is ∙ ap ok (from_to_le_bytes 4 total (omega arith) ∙ sym length_is)
