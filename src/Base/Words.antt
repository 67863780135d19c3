-- ===== src/Base/Words.antt =====
-- Machine words as lists of bytes, and byte facts that are checked over a table.
use redrum_db.Base.Result.{Result, ok, panic}
use Prim.Native.Nat.{◌-◌, ℕ, zero, suc, ◌+◌, ◌*◌, ◌/◌, ◌%◌, ◌^◌, ◌<◌}
use mathlib.Core.Path.{◌≡◌}
use mathlib.Core.Bool.{Bool, true, ◌&&◌}
use mathlib.Core.Option.{Option, none, some}
use mathlib.Core.List.{List, [], ◌∷◌, ◌++◌}
use native.Mathlib.Omega.{arith}
use redrum_db.Base.Tests.{ltb, leb, if◌then◌else◌}

-- `usize` and `u64` have 64 bits.
abbrev pub u64_mod : ℕ
u64_mod = 2 ^ 64

-- `checked_add`, `checked_mul` on 64 bits
abbrev pub checked_add : ℕ → ℕ → Option ℕ
checked_add a b = if ltb (a + b) u64_mod then some (a + b) else none

abbrev pub checked_mul : ℕ → ℕ → Option ℕ
checked_mul a b = if ltb (a * b) u64_mod then some (a * b) else none

-- `a + b`, `a - b` and `a * b` on 64 bits: where overflow checks are compiled in, as `cargo run` does,
-- a wrong result panics; in a release build it wraps around.
module _ {ℓ} {E : Type ℓ} (checks : Bool) where
  abbrev pub narrow : ℕ → Result E ℕ
  narrow n = if ltb n u64_mod then ok n else if checks then panic else ok (n % u64_mod)

  abbrev pub add_u64 : ℕ → ℕ → Result E ℕ
  add_u64 a b = narrow (a + b)

  abbrev pub mul_u64 : ℕ → ℕ → Result E ℕ
  mul_u64 a b = narrow (a * b)

  abbrev pub sub_u64 : ℕ → ℕ → Result E ℕ
  sub_u64 a b =
      if leb b a then ok (a - b) else if checks then panic else ok ((a + u64_mod - b) % u64_mod)

-- `to_le_bytes` of a word of so many bytes, and `from_le_bytes`
abbrev pub to_le_bytes : ℕ → ℕ → List ℕ
to_le_bytes zero n = []
to_le_bytes (suc k) n = n % 256 ∷ to_le_bytes k (n / 256)

abbrev pub from_le_bytes : List ℕ → ℕ
from_le_bytes [] = 0
from_le_bytes (b ∷ bs) = b + 256 * from_le_bytes bs

-- `to_be_bytes` and `from_be_bytes`
abbrev pub to_be_bytes : ℕ → ℕ → List ℕ
to_be_bytes zero n = []
to_be_bytes (suc k) n = to_be_bytes k (n / 256) ++ (n % 256 ∷ [])

abbrev pub from_be_acc : ℕ → List ℕ → ℕ
from_be_acc acc [] = acc
from_be_acc acc (b ∷ bs) = from_be_acc (acc * 256 + b) bs

abbrev pub from_be_bytes : List ℕ → ℕ
from_be_bytes bs = from_be_acc 0 bs

-- Check a test for every number below a bound.
unfoldable pub holds_below : (bound : ℕ) → (test : ℕ → Bool) → Bool
holds_below zero test = true
holds_below (suc k) test = holds_below k test && test k

pub holds_below_sound :
    (bound : ℕ) (test : ℕ → Bool) (n : ℕ)
    → n < bound
    → holds_below bound test ≡ true
    → test n ≡ true
unfolding holds_below
holds_below_sound zero test n low table = absurd (omega arith)
holds_below_sound (suc k) test n low table = ground (arith, holds_below_sound k test n)
