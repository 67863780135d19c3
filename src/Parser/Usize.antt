-- ===== src/Parser/Usize.antt =====
-- commands/parser.rs: `str::parse::<usize>`, and that it reads what is printed.
use redrum_db.Base.{
  ℕ, zero, suc, ◌+◌, ◌*◌, ◌-◌, ◌/◌, ◌%◌, ◌<◌, ◌≤◌, ◌≡◌, ap, sym, ◌∙◌, ◌&&◌, Option, none, some, [],
  ◌∷◌, ◌++◌, append_assoc, append-nil, Bytes, ltb, leb, lt→ltb, le→leb, ◌==◌, ==_false,
  if◌then◌else◌, arith, Bool-cases, inl, inr, ◌>>=◌,
}
use redrum_db.Base.Words.{u64_mod, checked_add, checked_mul}
use redrum_db.Base.Decimal.{digits, show}
use redrum_db.Base.Numeral.{IsNumber, show-IsNumber}

-- `parse::<usize>` of the digits, and of a text that may begin with a plus sign. A text that is not UTF-8
-- has a byte that is not a digit.
unfoldable pub usize_digits : Bytes → ℕ → Option ℕ
usize_digits [] num = some num
usize_digits (c ∷ rest) num =
    if leb b'0' c && leb c b'9'
    then (do n ← checked_mul num 10; n' ← checked_add n (c - b'0'); usize_digits rest n')
    else none

unfoldable pub parse_unsigned : Bytes → Option ℕ
parse_unsigned [] = none
parse_unsigned (c ∷ rest) = usize_digits (c ∷ rest) 0

unfoldable pub parse_usize : Bytes → Option ℕ
unfolding parse_unsigned
parse_usize [] = none
parse_usize (c ∷ rest) = if c == b'+' then parse_unsigned rest else parse_unsigned (c ∷ rest)

digit_step :
    (c num : ℕ) (ys : Bytes)
    → b'0' ≤ c
    → c ≤ b'9'
    → num * 10 + (c - b'0') < u64_mod
    → usize_digits (c ∷ ys) num ≡ usize_digits ys (num * 10 + (c - b'0'))
unfolding usize_digits
digit_step c num ys lo hi fits =
    rw (le→leb b'0' c lo, le→leb c b'9' hi, usize_digits)
      (rw (lt→ltb (num * 10) u64_mod (omega arith))
        (rw (lt→ltb (num * 10 + (c - b'0')) u64_mod fits)))

usize_digits_step :
    (d num n : ℕ) (ys : Bytes)
    → d < 10
    → num * 10 + d ≡ n
    → n < u64_mod
    → usize_digits ((b'0' + d) ∷ ys) num ≡ usize_digits ys n
usize_digits_step d num n ys low is fits =
    digit_step (b'0' + d) num ys (omega arith) (omega arith) (omega arith)
    ∙ ap (usize_digits ys) (omega arith)

usize_digits-digits :
    (f n : ℕ) (ys : Bytes)
    → n < f
    → n < u64_mod
    → usize_digits (digits f n ++ ys) 0 ≡ usize_digits ys n
unfolding digits
usize_digits-digits zero n ys h fits = absurd (omega arith)
usize_digits-digits (suc f) n ys h fits = elim (Bool-cases (ltb n 10)) [
  | inl e ↦ rw e (usize_digits_step n 0 n ys (ground arith) (omega arith) fits)
  | inr e ↦
      let back : n / 10 * 10 + n % 10 ≡ n = omega arith in
      let d = b'0' + n % 10 in
      rw e (
        ap (λ t. usize_digits t 0) (append_assoc (digits f (n / 10)) (d ∷ []) ys)
        ∙ usize_digits-digits f (n / 10) (d ∷ ys) (ground arith) (omega arith)
        ∙ usize_digits_step (n % 10) (n / 10) n ys (omega arith) back fits)
]

parse_usize_number : (s : Bytes) → IsNumber s → parse_usize s ≡ usize_digits s 0
unfolding parse_usize
parse_usize_number s h =
    let (lo, _, _) = h.all in
    ap parse_usize h.is
    ∙ rw (==_false h.first b'+' (omega arith)) (ap (λ t. usize_digits t 0) (sym h.is))

-- The print of a number that a `usize` can hold is read as the number.
pub parse_usize-show : (n : ℕ) → n < u64_mod → parse_usize (show n) ≡ some n
unfolding show usize_digits
parse_usize-show n fits =
    parse_usize_number (show n) (show-IsNumber n)
    ∙ ap (λ t. usize_digits t 0) (sym (append-nil (show n)))
    ∙ usize_digits-digits (suc n) n [] (omega arith) fits
