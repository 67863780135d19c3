-- ===== src/Listpack/Number/Canonical.antt =====
-- data_structures/listpack.rs: what `strict_parse_i64` accepts. Only the decimal print of an `i64` is
-- read as a number, so that storing the number loses nothing of the text.
use redrum_db.Base.{
  ℕ, zero, suc, ◌+◌, ◌-◌, ◌*◌, ◌<◌, ◌≤◌, ◌≡◌, ap, sym, ◌∙◌, Bool, true, false, some, [], ◌∷◌, ◌++◌,
  append_assoc, append-nil, ◌||◌, Bytes, arith, ltb, if◌then◌else◌, ◌==◌, ==_iff, bytes_eq,
  bytes_eq_sound, Bool-cases, inl, inr, >>=-eq-some,
}
use redrum_db.Base.Int.{ℤ, pos, negsuc, IsI64}
use redrum_db.Base.Decimal.{show, show_snoc, show_digit}
use redrum_db.Listpack.Number.{scan, finish, parse_digits, strict_parse_i64}

-- The decimal print of an integer, with no sign for what is not negative.
abbrev pub show_ℤ : ℤ → Bytes
show_ℤ (pos n) = show n
show_ℤ (negsuc n) = b'-' ∷ show (suc n)

scan_step :
    (c : ℕ) (s : Bytes) (val r : ℕ)
    → scan (c ∷ s) val ≡ some r
    → (b'0' ≤ c) × (c ≤ b'9') × (scan s (val * 10 + (c - b'0')) ≡ some r)
unfolding scan
scan_step c s val r run = ground arith

scan-show :
    (s : Bytes) (val r : ℕ) → 0 < val → scan s val ≡ some r → (show val ++ s ≡ show r) × (0 < r)
scan-show [] val r h run = unfold scan in (rw append-nil (ap show (ground arith)), ground arith)
scan-show (c ∷ s) val r h run =
    let (lo, hi, run') = scan_step c s val r run in
    let d = c - b'0' in
    let e : b'0' + d ≡ c = omega arith in
    let (shown, big) = scan-show s (val * 10 + d) r (omega arith) run' in
    (
      sym (append_assoc (show val) (c ∷ []) s)
          ∙ ap (λ t. (show val ++ (t ∷ [])) ++ s) (sym e)
          ∙ ap (λ t. t ++ s) (sym (show_snoc val d h (omega arith)))
          ∙ shown,
      big,
    )

finish-show :
    (negative : Bool) (r : ℕ) (z : ℤ)
    → 0 < r
    → finish negative r ≡ some z
    → (show_ℤ z ≡ (if negative then b'-' ∷ show r else show r)) × IsI64 z
unfolding finish
finish-show true zero z h run = absurd (omega arith)
finish-show true (suc r) (pos n) h run = ground arith
finish-show true (suc r) (negsuc n) h run =
    let e : n ≡ r = ground arith in (ap (λ t. b'-' ∷ show (suc t)) e, ground arith)
finish-show false r (pos n) h run = let e : n ≡ r = ground arith in (ap show e, ground arith)
finish-show false r (negsuc n) h run = ground arith

-- What is read behind the sign.
parse_digits-show :
    (negative : Bool) (s : Bytes) (z : ℤ)
    → parse_digits negative s ≡ some z
    → (show_ℤ z ≡ (if negative then b'-' ∷ s else s)) × IsI64 z
unfolding parse_digits
parse_digits-show negative [] z run = cc
parse_digits-show negative (c ∷ s) z run = elim (Bool-cases (ltb c b'1' || ltb b'9' c)) [
  | inl bad ↦ cc (rw bad at run)
  | inr good ↦
      let d = c - b'0' in
      let (val, scanned, done) = >>=-eq-some (scan s d) (finish negative) (rw good at run) in
      let e : b'0' + d ≡ c = ground arith in
      let (shown, big) = scan-show s d val (ground arith) scanned in
      let text : show val ≡ c ∷ s =
        sym shown ∙ ap (λ t. t ++ s) (show_digit d (ground arith)) ∙ ap (λ t. t ∷ s) e in
      rw text at (finish-show negative val z big done)
]

-- A text that is read as an integer is the print of that integer, which an `i64` can hold.
pub strict_parse_i64-canonical :
    (s : Bytes) (z : ℤ) → strict_parse_i64 s ≡ some z → (s ≡ show_ℤ z) × IsI64 z
unfolding strict_parse_i64
strict_parse_i64-canonical [] z run = cc
strict_parse_i64-canonical (c ∷ s) z run = elim (Bool-cases (bytes_eq (c ∷ s) (b'0' ∷ []))) [
  | inl zero_text ↦
      let e : pos 0 ≡ z = ground arith in
      rw (← e) (
        bytes_eq_sound (c ∷ s) (b'0' ∷ []) zero_text ∙ sym (show_digit 0 (omega arith)),
        omega arith,
      )
  | inr other ↦ elim (Bool-cases (c == b'-')) [
    | inl minus ↦
        let (shown, fits) = parse_digits-show true s z (rw (other, minus) at run) in
        (ap (λ t. t ∷ s) ((==_iff c b'-').0 minus) ∙ sym shown, fits)
    | inr plus ↦
        let (shown, fits) = parse_digits-show false (c ∷ s) z (rw (other, plus) at run) in
        (sym shown, fits)
  ]
]
