-- ===== src/Base/Utf8.antt =====
-- What `str::from_utf8` accepts: the well-formed sequences of one to four bytes.
use redrum_db.Base.{
  ◌≡◌, refl, ℕ, zero, suc, Bool, true, false, ◌&&◌, [], ◌∷◌, Bytes, ltb, leb, ◌==◌, if◌then◌else◌,
}

abbrev pub within : ℕ → ℕ → ℕ → Bool
within lo hi b = leb lo b && leb b hi

-- Whether `b` may stand behind the first byte `a` of a sequence.
abbrev pub second : ℕ → ℕ → Bool
second a b =
    if a == 0xE0
    then within 0xA0 0xBF b
    else if a == 0xED
    then within 0x80 0x9F b
    else if a == 0xF0
    then within 0x90 0xBF b
    else if a == 0xF4
    then within 0x80 0x8F b
    else within 0x80 0xBF b

-- A scanner: `more` bytes of a sequence are to come, and its first byte was `first`, or 0 where its second
-- byte is read.
unfoldable pub scan_utf8 : ℕ → ℕ → Bytes → Bool
scan_utf8 more first [] = more == 0
scan_utf8 (suc more) first (b ∷ rest) = second first b && scan_utf8 more 0 rest
scan_utf8 zero first (b ∷ rest) =
    let ascii = scan_utf8 0 0 rest in
    let two = scan_utf8 1 b rest in
    let three = scan_utf8 2 b rest in
    let four = scan_utf8 3 b rest in
    if ltb b 0x80
    then ascii
    else if within 0xC2 0xDF b
    then two
    else if within 0xE0 0xEF b
    then three
    else if within 0xF0 0xF4 b
    then four
    else false

unfoldable pub is_utf8 : Bytes → Bool
unfolding scan_utf8
is_utf8 text = scan_utf8 0 0 text

is_utf8_test : is_utf8 (0x65 ∷ 0xC3 ∷ 0xA9 ∷ 0xF0 ∷ 0x9F ∷ 0x98 ∷ 0x80 ∷ []) && is_utf8 [] ≡ true
unfolding is_utf8
is_utf8_test = refl

surrogate_test : is_utf8 (0xED ∷ 0xA0 ∷ 0x80 ∷ []) ≡ false
unfolding is_utf8
surrogate_test = refl
