-- ===== src/Listpack/Forms.antt =====
-- data_structures/listpack.rs: which form the first byte of an entry shows, over all first bytes that
-- the encoders write, and the integers that the forms hold.
use Prim.Native.Nat.{bit_and, bit_or}
use redrum_db.Base.{
  ℕ, zero, suc, ◌+◌, ◌*◌, ◌/◌, ◌%◌, ◌^◌, ◌<◌, ◌≡◌, refl, Bool, true, false, ◌&&◌, [], ◌∷◌, arith,
  ◌==◌, ==_iff,
}
use native.Mathlib.Nat.{pow-suc}
use redrum_db.Base.Int.{ℤ, pos, negsuc, contains, wrap, signed, IsI64}
use redrum_db.Base.Words.{to_le_bytes, from_le_bytes, holds_below, holds_below_sound}
use redrum_db.Listpack.Codec.{
  Form, int7, str6, int13, str12, form_of, pattern13, extend13, extend24,
}

abbrev same_form : Form → Form → Bool
same_form int7 int7 = true
same_form str6 str6 = true
same_form int13 int13 = true
same_form str12 str12 = true
same_form _ _ = false

same_form_sound : (a b : Form) → same_form a b ≡ true → a ≡ b
same_form_sound int7 int7 h = refl
same_form_sound str6 str6 h = refl
same_form_sound int13 int13 h = refl
same_form_sound str12 str12 h = refl
same_form_sound a b h = ground arith

-- A first byte `f x` shows the form and gives the field `x` back under the mask.
abbrev shows : Form → (ℕ → ℕ) → ℕ → ℕ → Bool
shows form f mask x = same_form (form_of (f x)) form && bit_and (f x) mask == x

shows_sound :
    (form : Form) (f : ℕ → ℕ) (mask n x : ℕ)
    → holds_below n (shows form f mask) ≡ true
    → x < n
    → (form_of (f x) ≡ form) × (bit_and (f x) mask ≡ x)
shows_sound form f mask n x table h =
    ground (
      arith,
      holds_below_sound n (shows form f mask) x h table,
      same_form_sound (form_of (f x)) form,
    )

int7_table : holds_below 128 (shows int7 (λ x. x) 0x7F) ≡ true
unfolding holds_below form_of
int7_table = refl

pub int7_byte : (x : ℕ) → x < 128 → (form_of x ≡ int7) × (bit_and x 0x7F ≡ x)
int7_byte x h = shows_sound int7 (λ y. y) 0x7F 128 x int7_table h

str6_table : holds_below 64 (shows str6 (λ x. bit_or 0x80 x) 0x3F) ≡ true
unfolding holds_below form_of
str6_table = refl

pub str6_byte :
    (x : ℕ) → x < 64 → (form_of (bit_or 0x80 x) ≡ str6) × (bit_and (bit_or 0x80 x) 0x3F ≡ x)
str6_byte x h = shows_sound str6 (λ y. bit_or 0x80 y) 0x3F 64 x str6_table h

int13_table : holds_below 32 (shows int13 (λ x. bit_or x 0xC0) 0x1F) ≡ true
unfolding holds_below form_of
int13_table = refl

pub int13_byte :
    (x : ℕ) → x < 32 → (form_of (bit_or x 0xC0) ≡ int13) × (bit_and (bit_or x 0xC0) 0x1F ≡ x)
int13_byte x h = shows_sound int13 (λ y. bit_or y 0xC0) 0x1F 32 x int13_table h

str12_table : holds_below 16 (shows str12 (λ x. bit_or 0xE0 x) 0x0F) ≡ true
unfolding holds_below form_of
str12_table = refl

pub str12_byte :
    (x : ℕ) → x < 16 → (form_of (bit_or 0xE0 x) ≡ str12) × (bit_and (bit_or 0xE0 x) 0x0F ≡ x)
str12_byte x h = shows_sound str12 (λ y. bit_or 0xE0 y) 0x0F 16 x str12_table h

low4_table : holds_below 16 (λ x. bit_and x 0x0F == x) ≡ true
unfolding holds_below
low4_table = refl

pub low4 : (x : ℕ) → x < 16 → bit_and x 0x0F ≡ x
low4 x h = (==_iff _ x).0 (holds_below_sound 16 (λ y. bit_and y 0x0F == y) x h low4_table)

-- Little-endian bytes read back.
pub from_to_le_bytes : (k n : ℕ) → n < 256 ^ k → from_le_bytes (to_le_bytes k n) ≡ n
from_to_le_bytes zero n h = omega arith
from_to_le_bytes (suc k) n h =
    let step : n < 256 ^ k * 256 = rw pow-suc at h in
    omega (arith, from_to_le_bytes k (n / 256) (omega arith))

pub signed-pattern13 :
    (z : ℤ)
    → contains (negsuc 4095) (pos 4095) z ≡ true
    → (pattern13 z < 2 ^ 13)
      × (signed (2 ^ 15) (extend13 (pattern13 z / 2 ^ 8 * 2 ^ 8 + pattern13 z % 256)) ≡ z)
unfolding pattern13 extend13
signed-pattern13 z h = ground arith

pub signed-wrap16 :
    (z : ℤ)
    → contains (negsuc 32767) (pos 32767) z ≡ true
    → (wrap (2 ^ 16) z < 2 ^ 16) × (signed (2 ^ 15) (wrap (2 ^ 16) z) ≡ z)
signed-wrap16 z h = ground arith

pub signed-extend24 :
    (z : ℤ)
    → contains (negsuc 8388607) (pos 8388607) z ≡ true
    → signed (2 ^ 31) (
        extend24 (
          from_le_bytes (
            wrap (2 ^ 32) z % 256
            ∷ wrap (2 ^ 32) z / 2 ^ 8 % 256
            ∷ wrap (2 ^ 32) z / 2 ^ 16 % 256
            ∷ [])))
      ≡ z
unfolding extend24
signed-extend24 z h = ground arith

pub signed-wrap32 :
    (z : ℤ)
    → contains (negsuc 2147483647) (pos 2147483647) z ≡ true
    → (wrap (2 ^ 32) z < 2 ^ 32) × (signed (2 ^ 31) (wrap (2 ^ 32) z) ≡ z)
signed-wrap32 z h = ground arith

pub signed-wrap64 :
    (z : ℤ) → IsI64 z → (wrap (2 ^ 64) z < 2 ^ 64) × (signed (2 ^ 63) (wrap (2 ^ 64) z) ≡ z)
signed-wrap64 z h = ground arith
