-- ===== src/Stream/Parse.antt =====
-- data_structures/stream.rs: `StreamID::parse` reads the IDs that `xadd` writes, and numbers the entries
-- of `ms-*` upwards.
use redrum_db.Base.{
  ℕ, zero, suc, ◌+◌, ◌*◌, ◌-◌, ◌/◌, ◌%◌, ◌<◌, ◌≤◌, ◌≡◌, refl, ap, sym, ◌∙◌, Bool, true, false, some,
  [], ◌∷◌, ◌++◌, append_assoc, append-nil, Bytes, length, drop, take-append, ltb, lt→ltb, le→leb,
  ==_false, ==_iff, ◌==◌, arith, bytes_eq, Bool-cases, inl, inr, if◌then◌else◌,
}
use mathlib.Core.Path.{subst}
use mathlib.Core.Option
use redrum_db.Base.Result.{ok, err, ◌>>=◌}
use redrum_db.Base.Words.{u64_mod}
use redrum_db.Base.Decimal.{digits, show}
use redrum_db.Base.Numeral.{AreDigits, IsNumber, show-IsNumber}
use redrum_db.Stream.Id.{
  StreamId, id_lt, id_le, top_item_error, position, digits_u64, parse_u64, parse_seq, parse,
}

-- The dash behind digits is found behind them.
position-AreDigits :
    (xs ys : Bytes) → AreDigits xs → position b'-' (xs ++ (b'-' ∷ ys)) ≡ some (length xs)
unfolding position
position-AreDigits [] ys h = refl
position-AreDigits (x ∷ xs) ys (lo, hi, h) =
    rw (==_false x b'-' (omega arith)) (ap (Option.map suc) (position-AreDigits xs ys h))

-- A text that begins with a digit is not `*`.
star_apart : (s t : Bytes) → IsNumber s → bytes_eq (s ++ t) (b'*' ∷ []) ≡ false
star_apart s t h =
    let (lo, _, _) = h.all in
    ap (λ u. bytes_eq (u ++ t) (b'*' ∷ [])) h.is ∙ rw (==_false h.first b'*' (omega arith))

module _ (checks : Bool) where
  digit_step :
      (c acc : ℕ) (ys : Bytes)
      → b'0' ≤ c
      → c ≤ b'9'
      → acc * 10 + (c - b'0') < u64_mod
      → digits_u64 checks (c ∷ ys) acc ≡ digits_u64 checks ys (acc * 10 + (c - b'0'))
  unfolding digits_u64
  digit_step c acc ys lo hi fits =
      rw (le→leb b'0' c lo, le→leb c b'9' hi, digits_u64)
        (rw (lt→ltb (acc * 10) u64_mod (omega arith))
          (rw (lt→ltb (acc * 10 + (c - b'0')) u64_mod fits)))

  digits_u64_step :
      (d acc n : ℕ) (ys : Bytes)
      → d < 10
      → acc * 10 + d ≡ n
      → n < u64_mod
      → digits_u64 checks ((b'0' + d) ∷ ys) acc ≡ digits_u64 checks ys n
  digits_u64_step d acc n ys low is fits =
      digit_step (b'0' + d) acc ys (omega arith) (omega arith) (omega arith)
      ∙ ap (digits_u64 checks ys) (omega arith)

  digits_u64-digits :
      (f n : ℕ) (ys : Bytes)
      → n < f
      → n < u64_mod
      → digits_u64 checks (digits f n ++ ys) 0 ≡ digits_u64 checks ys n
  unfolding digits
  digits_u64-digits zero n ys h fits = absurd (omega arith)
  digits_u64-digits (suc f) n ys h fits = elim (Bool-cases (ltb n 10)) [
    | inl e ↦ rw e (digits_u64_step n 0 n ys (ground arith) (omega arith) fits)
    | inr e ↦
        let back : n / 10 * 10 + n % 10 ≡ n = omega arith in
        let d = b'0' + n % 10 in
        rw e (
          ap (λ t. digits_u64 checks t 0) (append_assoc (digits f (n / 10)) (d ∷ []) ys)
          ∙ digits_u64-digits f (n / 10) (d ∷ ys) (ground arith) (omega arith)
          ∙ digits_u64_step (n % 10) (n / 10) n ys (omega arith) back fits)
  ]

  parse_u64_number : (s : Bytes) → IsNumber s → parse_u64 checks s ≡ digits_u64 checks s 0
  unfolding parse_u64
  parse_u64_number s h = ap (parse_u64 checks) h.is ∙ ap (λ t. digits_u64 checks t 0) (sym h.is)

  -- The print of a `u64` is read as the number.
  parse_u64-show : (n : ℕ) → n < u64_mod → parse_u64 checks (show n) ≡ ok n
  unfolding show digits_u64
  parse_u64-show n fits =
      parse_u64_number (show n) (show-IsNumber n)
      ∙ ap (λ t. digits_u64 checks t 0) (sym (append-nil (show n)))
      ∙ digits_u64-digits (suc n) n [] (omega arith) fits

  drop_dash : (s t : Bytes) → drop (length s + 1) (s ++ (b'-' ∷ t)) ≡ t
  drop_dash [] t = refl
  drop_dash (x ∷ s) t =
      let e : suc (length s) + 1 ≡ suc (length s + 1) = omega arith in
      ap (λ k. drop k (x ∷ (s ++ (b'-' ∷ t)))) e ∙ drop_dash s t

  parse_dash :
      (now ms : ℕ) (s : Bytes) (last_id : StreamId)
      → ms < u64_mod
      → parse checks now (show ms ++ (b'-' ∷ s)) last_id
        ≡ (do seq ← parse_seq checks ms s last_id; ok (record { ms = ms; seq = seq }))
  unfolding parse
  parse_dash now ms s last_id fits =
      let t = show ms in
      let h = show-IsNumber ms in
      let found : position b'-' (t ++ (b'-' ∷ s)) ≡ some (length t) =
        position-AreDigits t s (subst AreDigits (sym h.is) h.all) in
      rw (star_apart t (b'-' ∷ s) h, found, parse)
        (rw (take-append t (b'-' ∷ s)) (rw (parse_u64-show ms fits) (rw (drop_dash t s))))

  parse_seq-show :
      (ms seq : ℕ) (last_id : StreamId)
      → seq < u64_mod
      → parse_seq checks ms (show seq) last_id ≡ ok seq
  unfolding parse_seq
  parse_seq-show ms seq last_id fits =
      let e : bytes_eq (show seq) (b'*' ∷ []) ≡ false =
        ap (λ t. bytes_eq t (b'*' ∷ [])) (sym (append-nil (show seq)))
        ∙ star_apart (show seq) [] (show-IsNumber seq) in
      rw e (parse_u64-show seq fits)

  -- An ID of two `u64`s is read back from its print, the two numbers with a dash between them, whatever
  -- the last ID is.
  pub parse-show :
      (now : ℕ) (id last_id : StreamId)
      → id.ms < u64_mod
      → id.seq < u64_mod
      → parse checks now (show id.ms ++ (b'-' ∷ show id.seq)) last_id ≡ ok id
  parse-show now id last_id ms_fits seq_fits =
      parse_dash now id.ms (show id.seq) last_id ms_fits
      ∙ rw (parse_seq-show id.ms id.seq last_id seq_fits)

  -- A time and `-*`, where the number behind the last ID's is a `u64`: where the time is before that of the
  -- last ID, the answer is the error of an ID that is too small; otherwise it is the least ID with that time
  -- that is above the last ID.
  pub parse_star :
      (now ms : ℕ) (last_id : StreamId)
      → ms < u64_mod
      → last_id.seq + 1 < u64_mod
      → (if ltb ms last_id.ms
          then parse checks now (show ms ++ (b'-' ∷ b'*' ∷ [])) last_id ≡ err top_item_error
          else (id : StreamId) × (parse checks now (show ms ++ (b'-' ∷ b'*' ∷ [])) last_id ≡ ok id)
            × (id.ms ≡ ms)
            × (id_lt last_id id ≡ true)
            × ((other : StreamId)
                → other.ms ≡ ms
                → id_lt last_id other ≡ true
                → id_le id other ≡ true))
  unfolding parse_seq
  parse_star now ms last_id ms_fits seq_fits = elim (Bool-cases (ltb ms last_id.ms)) [
    | inl before ↦
        let no_later : ltb last_id.ms ms ≡ false = ground arith in
        let other : (ms == last_id.ms) ≡ false = ground arith in
        rw before (parse_dash now ms (b'*' ∷ []) last_id ms_fits ∙ rw no_later (rw other refl))
    | inr not_before ↦ rw not_before (elim (Bool-cases (ltb last_id.ms ms)) [
      | inl later ↦ (
        record { ms = ms; seq = 0 },
        parse_dash now ms (b'*' ∷ []) last_id ms_fits ∙ rw later,
        refl,
        rw later,
        λ other same above. ground arith,
      )
      | inr no_later ↦
          let e : ms ≡ last_id.ms = ground arith in
          (
            record { ms = ms; seq = last_id.seq + 1 },
            parse_dash now ms (b'*' ∷ []) last_id ms_fits
                ∙ rw no_later (
                    rw ((==_iff ms last_id.ms).1 e)
                      (rw (lt→ltb (last_id.seq + 1) u64_mod seq_fits))),
            refl,
            ground arith,
            λ other same above. ground arith,
          )
    ])
  ]
