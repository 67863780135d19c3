-- ===== src/Parser/Request.antt =====
-- commands/parser.rs: a request that is written as the protocol says is parsed.
use redrum_db.Base.{
  ℕ, suc, ◌+◌, ◌-◌, ◌*◌, ◌<◌, ◌≤◌, ◌≡◌, refl, ap, sym, ◌∙◌, Bool, some, List, [], ◌∷◌, ◌++◌,
  append_assoc, append-nil, Bytes, length, length-append, get_elem?, drop, drop-append, slice,
  slice_middle, leb, lt→ltb, ltb-false, leb-false, Bool-cases, inl, inr, le→leb, ==_false,
  if◌then◌else◌, arith,
}
use redrum_db.Base.Result.{ok, panic}
use redrum_db.Base.Words.{u64_mod}
use redrum_db.Base.Decimal.{show, show_digit}
use redrum_db.Base.Numeral.{AreDigits, show-AreDigits}
use redrum_db.Parser.{
  find_crlf, read_line, with_capacity, isize_max, slice_size, read_length, read_bytes,
  parse_bulk_string, parse_args, parse_request, parse_command, to_upper, normalize_upper,
}
use redrum_db.Listpack.Entry.{get_elem?_middle}
use redrum_db.Parser.Usize.{parse_usize-show}

-- `$<length>\r\n<bytes>\r\n`, in front of the rest.
abbrev pub bulk : Bytes → Bytes → Bytes
bulk d rest = b'$' ∷ (show (length d) ++ (13 ∷ 10 ∷ (d ++ (13 ∷ 10 ∷ rest))))

abbrev pub bulks : List Bytes → Bytes → Bytes
bulks [] rest = rest
bulks (d ∷ ds) rest = bulk d (bulks ds rest)

-- `*<count>\r\n` and the name and the arguments.
abbrev pub request : Bytes → List Bytes → Bytes → Bytes
request name args rest = b'*' ∷ (show (suc (length args)) ++ (13 ∷ 10 ∷ bulks (name ∷ args) rest))

find_crlf-AreDigits :
    (xs ys : Bytes) (i : ℕ)
    → AreDigits xs
    → find_crlf (xs ++ (13 ∷ 10 ∷ ys)) i ≡ some (i + length xs + 2)
unfolding find_crlf
find_crlf-AreDigits [] ys i h = ap some (omega arith)
find_crlf-AreDigits (x ∷ []) ys i (lo, hi, h) =
    rw (==_false x 13 (omega arith)) (ap some (omega arith))
find_crlf-AreDigits (x ∷ y ∷ xs) ys i (lo, hi, h) =
    rw (==_false x 13 (omega arith))
      (find_crlf-AreDigits (y ∷ xs) ys (suc i) h ∙ ap some (omega arith))

read_line-AreDigits :
    (buf pre xs ys : Bytes)
    → AreDigits xs
    → buf ≡ pre ++ (xs ++ (13 ∷ 10 ∷ ys))
    → read_line buf (length pre) ≡ ok (length pre, length pre + length xs + 2)
unfolding read_line
read_line-AreDigits [] pre xs ys h is =
    let n = ap length is in
    absurd
      (omega (arith, length-append pre (xs ++ (13 ∷ 10 ∷ ys)), length-append xs (13 ∷ 10 ∷ ys)))
read_line-AreDigits (c ∷ rest) pre xs ys h is =
    let e : drop (length pre) (c ∷ rest) ≡ xs ++ (13 ∷ 10 ∷ ys) =
      ap (drop (length pre)) is ∙ drop-append pre (xs ++ (13 ∷ 10 ∷ ys)) in
    rw (e, read_line) (rw (find_crlf-AreDigits xs ys (length pre) h))

read_length-show :
    (buf pre ys : Bytes) (n : ℕ)
    → n < u64_mod
    → buf ≡ pre ++ (show n ++ (13 ∷ 10 ∷ ys))
    → read_length buf (length pre) ≡ ok (n, length pre + length (show n) + 2)
unfolding read_length
read_length-show buf pre ys n fits is =
    let e : length pre + length (show n) + 2 - 2 ≡ length pre + length (show n) = omega arith in
    let s : slice buf (length pre) (length pre + length (show n)) ≡ some (show n) =
      ap (λ b. slice b (length pre) (length pre + length (show n))) is
      ∙ slice_middle pre (show n) (13 ∷ 10 ∷ ys) in
    rw (read_line-AreDigits buf pre (show n) ys (show-AreDigits n) is, read_length)
      (rw e (rw s (rw (parse_usize-show n fits))))

-- Every byte in upper case.
abbrev pub upper : Bytes → Bytes
upper [] = []
upper (c ∷ cmd) = to_upper c ∷ upper cmd

module _ (checks : Bool) where
  read_bytes_runs :
      (buf pre d ys : Bytes)
      → length buf < u64_mod
      → buf ≡ pre ++ (d ++ (13 ∷ 10 ∷ ys))
      → read_bytes checks buf (length pre) (length d) ≡ ok (d, length pre + length d + 2)
  unfolding read_bytes
  read_bytes_runs buf pre d ys low is =
      let n : length buf ≡ length pre + (length d + (2 + length ys)) =
        ap length is
        ∙ omega (arith, length-append pre (d ++ (13 ∷ 10 ∷ ys)), length-append d (13 ∷ 10 ∷ ys)) in
      let s : slice buf (length pre) (length pre + length d) ≡ some d =
        ap (λ b. slice b (length pre) (length pre + length d)) is
        ∙ slice_middle pre d (13 ∷ 10 ∷ ys) in
      rw (lt→ltb (length pre + length d) u64_mod (omega arith), read_bytes)
        (rw (lt→ltb (length pre + length d + 2) u64_mod (omega arith))
          (rw (ltb-false (length buf) (length pre + length d + 2) (omega arith)) (rw s)))

  -- Behind a bulk string the parser stands at the rest.
  parse_bulk_string-bulk :
      (buf pre d rest : Bytes)
      → length buf < u64_mod
      → buf ≡ pre ++ bulk d rest
      → (pre' : Bytes) × (parse_bulk_string checks buf (length pre) ≡ ok (d, length pre'))
        × (buf ≡ pre' ++ rest)
  unfolding parse_bulk_string
  parse_bulk_string-bulk buf pre d rest low is =
      let body = d ++ (13 ∷ 10 ∷ rest) in
      let number = show (length d) in
      let pre1 = pre ++ (b'$' ∷ []) in
      let pre2 = pre1 ++ (number ++ (13 ∷ 10 ∷ [])) in
      let pre3 = pre2 ++ (d ++ (13 ∷ 10 ∷ [])) in
      let is1 : buf ≡ pre1 ++ (number ++ (13 ∷ 10 ∷ body)) =
        is ∙ sym (append_assoc pre (b'$' ∷ []) (number ++ (13 ∷ 10 ∷ body))) in
      let is2 : buf ≡ pre2 ++ body =
        is1
        ∙ ap (λ t. pre1 ++ t) (sym (append_assoc number (13 ∷ 10 ∷ []) body))
        ∙ sym (append_assoc pre1 (number ++ (13 ∷ 10 ∷ [])) body) in
      let is3 : buf ≡ pre3 ++ rest =
        is2
        ∙ ap (λ t. pre2 ++ t) (sym (append_assoc d (13 ∷ 10 ∷ []) rest))
        ∙ sym (append_assoc pre2 (d ++ (13 ∷ 10 ∷ [])) rest) in
      let n0 : length buf ≡ length pre2 + length body = ap length is2 ∙ length-append pre2 body in
      let n0' = length-append d (13 ∷ 10 ∷ rest) in
      let n1 : length pre + 1 ≡ length pre1 = sym (length-append pre (b'$' ∷ [])) in
      let n2 : length pre1 + length number + 2 ≡ length pre2 = omega (
        arith,
        length-append pre1 (number ++ (13 ∷ 10 ∷ [])),
        length-append number (13 ∷ 10 ∷ []),
      ) in
      let n3 : length pre2 + length d + 2 ≡ length pre3 =
        omega (arith, length-append pre2 (d ++ (13 ∷ 10 ∷ [])), length-append d (13 ∷ 10 ∷ [])) in
      let first : get_elem? buf (length pre) ≡ some b'$' =
        ap (λ b. get_elem? b (length pre)) is
        ∙ get_elem?_middle pre b'$' (number ++ (13 ∷ 10 ∷ body)) in
      let at_number = read_length-show buf pre1 body (length d) (omega arith) is1 in
      let at_body = read_bytes_runs buf pre2 d rest low is2 in
      (
        pre3,
        rw (first, parse_bulk_string)
            (rw n1 (rw at_number (rw n2 (at_body ∙ ap (λ k. ok (d, k)) n3)))),
        is3,
      )

  parse_args-bulks :
      (args done : List Bytes) (buf pre rest : Bytes)
      → length buf < u64_mod
      → buf ≡ pre ++ bulks args rest
      → parse_args checks (length args) buf (length pre) done ≡ ok (done ++ args)
  unfolding parse_args
  parse_args-bulks [] done buf pre rest low is = ap ok (sym (append-nil done))
  parse_args-bulks (d ∷ args) done buf pre rest low is =
      let (pre', run, is') = parse_bulk_string-bulk buf pre d (bulks args rest) low is in
      rw (run, parse_args)
        (parse_args-bulks args (done ++ (d ∷ [])) buf pre' rest low is'
          ∙ ap ok (append_assoc done (d ∷ []) args))

  parse_request-request :
      (buf name : Bytes) (args : List Bytes) (rest : Bytes)
      → buf ≡ request name args rest
      → length buf < u64_mod
      → suc (length args) < u64_mod
      → length args * slice_size ≤ isize_max
      → parse_request checks buf ≡ ok (record { name = name; args = args })
  unfolding parse_request with_capacity
  parse_request-request buf name args rest is low few room =
      let number = show (suc (length args)) in
      let pre = b'*' ∷ (number ++ (13 ∷ 10 ∷ [])) in
      let body = bulks (name ∷ args) rest in
      let is0 : buf ≡ pre ++ body =
        is ∙ ap (λ t. b'*' ∷ t) (sym (append_assoc number (13 ∷ 10 ∷ []) body)) in
      let n : 1 + length number + 2 ≡ length pre =
        omega (arith, length-append number (13 ∷ 10 ∷ [])) in
      let counted = read_length-show buf (b'*' ∷ []) body (suc (length args)) few is in
      let (pre', run, is') = parse_bulk_string-bulk buf pre name (bulks args rest) low is0 in
      let more : suc (length args) - 1 ≡ length args = omega arith in
      rw (counted, parse_request)
        (rw n (
          rw run (
            rw (le→leb 1 (suc (length args)) (omega arith)) (
              rw more (
                rw (ltb-false isize_max (length args * slice_size) room)
                  (rw (parse_args-bulks args [] buf pre' rest low is')))))))

  -- A request with its count, its lengths and its line ends, in front of any bytes, is parsed to its name
  -- and arguments, where a `usize` can hold the length of the buffer and the count, and a vector the
  -- arguments. Nothing panics, whether overflow checks are compiled in or not.
  pub parse_command-request :
      (name : Bytes) (args : List Bytes) (rest : Bytes)
      → length (request name args rest) < u64_mod
      → suc (length args) < u64_mod
      → length args * slice_size ≤ isize_max
      → parse_command checks (request name args rest) ≡ ok (record { name = name; args = args })
  unfolding parse_command
  parse_command-request name args rest low few room =
      parse_request-request (request name args rest) name args rest refl low few room

  -- A request with the count zero and a name panics: the capacity `count - 1` leaves its word where
  -- overflow checks are compiled in, and is more than a vector can hold where they are not.
  pub parse_command-zero_count :
      (name rest : Bytes)
      → length (b'*' ∷ b'0' ∷ 13 ∷ 10 ∷ bulk name rest) < u64_mod
      → parse_command checks (b'*' ∷ b'0' ∷ 13 ∷ 10 ∷ bulk name rest) ≡ panic
  unfolding parse_command with_capacity
  parse_command-zero_count name rest low =
      let buf = b'*' ∷ b'0' ∷ 13 ∷ 10 ∷ bulk name rest in
      let is : buf ≡ (b'*' ∷ []) ++ (show 0 ++ (13 ∷ 10 ∷ bulk name rest)) =
        ap (λ t. b'*' ∷ (t ++ (13 ∷ 10 ∷ bulk name rest))) (sym (show_digit 0 (omega arith))) in
      let counted = read_length-show buf (b'*' ∷ []) (bulk name rest) 0 (omega arith) is in
      let n : 1 + length (show 0) + 2 ≡ 4 =
        ap (λ t. 1 + length t + 2) (show_digit 0 (omega arith)) in
      let (pre', run, is') =
        parse_bulk_string-bulk buf (b'*' ∷ b'0' ∷ 13 ∷ 10 ∷ []) name rest low refl in
      rw (counted, parse_request)
        (rw n (rw run (elim (Bool-cases checks) [ inl e ↦ rw e | inr e ↦ rw e ])))

-- The name of a command in upper case, or a panic where the name is longer than the buffer.
pub normalize_upper-to_upper :
    (cmd buf : Bytes)
    → normalize_upper cmd buf ≡ (if leb (length cmd) (length buf) then ok (upper cmd) else panic)
unfolding normalize_upper
normalize_upper-to_upper [] buf = rw (le→leb 0 (length buf) (omega arith))
normalize_upper-to_upper (c ∷ cmd) [] = rw (leb-false (length (c ∷ cmd)) 0 (omega arith))
normalize_upper-to_upper (c ∷ cmd) (b ∷ buf) = ground (arith, normalize_upper-to_upper cmd buf)
