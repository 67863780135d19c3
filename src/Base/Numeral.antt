-- ===== src/Base/Numeral.antt =====
-- The bytes of a printed number.
use Prim.Native.Nat.{ℕ, zero, suc, ◌+◌, ◌/◌, ◌%◌, ◌<◌, ◌≤◌}
use mathlib.Core.Path.{◌≡◌, refl, ap, sym, subst}
use mathlib.Core.List.{List, [], ◌∷◌, ◌++◌}
use mathlib.Core.Logic.{inl, inr}
use native.Mathlib.Omega.{arith}
use redrum_db.Base.Tests.{ltb, Bool-cases}
use redrum_db.Base.Decimal.{digits, show}

-- Bytes that are digits.
abbrev pub AreDigits : List ℕ → Type 0
AreDigits [] = Unit
AreDigits (c ∷ rest) = (b'0' ≤ c) × (c ≤ b'9') × AreDigits rest

AreDigits-append : (xs ys : List ℕ) → AreDigits xs → AreDigits ys → AreDigits (xs ++ ys)
AreDigits-append [] ys h k = k
AreDigits-append (x ∷ xs) ys (lo, hi, h) k = (lo, hi, AreDigits-append xs ys h k)

-- A printed number is a digit and more digits.
pub record IsNumber (s : List ℕ) : Type 0 where
  pub first : ℕ
  pub rest : List ℕ
  pub is : s ≡ first ∷ rest
  pub all : AreDigits (first ∷ rest)

IsNumber-snoc : (s : List ℕ) (d : ℕ) → IsNumber s → d < 10 → IsNumber (s ++ ((b'0' + d) ∷ []))
IsNumber-snoc s d h low = record {
  first = h.first;
  rest = h.rest ++ ((b'0' + d) ∷ []);
  is = ap (λ t. t ++ ((b'0' + d) ∷ [])) h.is;
  all = AreDigits-append (h.first ∷ h.rest) ((b'0' + d) ∷ []) h.all (omega arith, omega arith, tt);
}

single-IsNumber : (d : ℕ) → d < 10 → IsNumber ((b'0' + d) ∷ [])
single-IsNumber d low = record {
  first = b'0' + d;
  rest = [];
  is = refl;
  all = (omega arith, omega arith, tt);
}

digits-IsNumber : (f n : ℕ) → n < f → IsNumber (digits f n)
unfolding digits
digits-IsNumber zero n h = absurd (omega arith)
digits-IsNumber (suc f) n h = elim (Bool-cases (ltb n 10)) [
  | inl e ↦ rw e (single-IsNumber n (ground arith))
  | inr e ↦ rw e (
      IsNumber-snoc (digits f (n / 10)) (n % 10) (digits-IsNumber f (n / 10) (ground arith))
        (omega arith))
]

pub show-IsNumber : (n : ℕ) → IsNumber (show n)
unfolding show
show-IsNumber n = digits-IsNumber (suc n) n (omega arith)

pub show-AreDigits : (n : ℕ) → AreDigits (show n)
show-AreDigits n = let h = show-IsNumber n in subst AreDigits (sym h.is) h.all
