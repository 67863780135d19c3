-- ===== src/Base/Decimal.antt =====
-- The decimal print of a natural number, as `to_string` and `write!("{}", n)` give it.
use Prim.Native.Nat.{ℕ, zero, suc, ◌+◌, ◌*◌, ◌/◌, ◌%◌, ◌<◌}
use mathlib.Core.Path.{◌≡◌, refl, ap}
use mathlib.Core.List.{List, [], ◌∷◌, ◌++◌}
use native.Mathlib.Omega.{arith}
use redrum_db.Base.Tests.{ltb, if◌then◌else◌, Bool-cases, ltb-false, lt→ltb}
use mathlib.Core.Logic.{inl, inr}

-- On fuel; a number below its fuel is printed in full.
unfoldable pub digits : ℕ → ℕ → List ℕ
digits zero n = []
digits (suc fuel) n =
    let front = digits fuel (n / 10) in
    if ltb n 10 then (b'0' + n) ∷ [] else front ++ ((b'0' + n % 10) ∷ [])

unfoldable pub show : ℕ → List ℕ
unfolding digits
show n = digits (suc n) n

-- More fuel than the number changes nothing.
digits_fuel : (f g n : ℕ) → n < f → n < g → digits f n ≡ digits g n
unfolding digits
digits_fuel zero g n h k = absurd (omega arith)
digits_fuel (suc f) zero n h k = absurd (omega arith)
digits_fuel (suc f) (suc g) n h k = elim (Bool-cases (ltb n 10)) [
  | inl e ↦ rw e
  | inr e ↦ rw e (
      ap (λ t. t ++ ((b'0' + n % 10) ∷ []))
        (digits_fuel f g (n / 10) (ground arith) (ground arith)))
]

-- A digit at the end of a positive number.
pub show_snoc : (n d : ℕ) → 0 < n → d < 10 → show (n * 10 + d) ≡ show n ++ ((b'0' + d) ∷ [])
unfolding show
show_snoc n d pos h =
    let m = n * 10 + d in
    let e : m / 10 ≡ n = omega arith in
    let e' : m % 10 ≡ d = omega arith in
    rw (ltb-false m 10 (omega arith)) (
      rw (e, e')
        (ap (λ t. t ++ ((b'0' + d) ∷ [])) (digits_fuel m (suc n) n (omega arith) (omega arith))))

pub show_digit : (d : ℕ) → d < 10 → show d ≡ (b'0' + d) ∷ []
unfolding show
show_digit d h = rw (lt→ltb d 10 h)

show_runs : show 1905 ≡ b'1' ∷ b'9' ∷ b'0' ∷ b'5' ∷ []
unfolding show
show_runs = refl
