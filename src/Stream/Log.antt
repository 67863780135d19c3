-- ===== src/Stream/Log.antt =====
-- data_structures/stream.rs: the entries of a stream in the order in which they were added, and the
-- values that `append_entry` stores for them.
use native.Mathlib.Nat.{pow-suc}
use redrum_db.Base.{
  ℕ, zero, suc, ◌+◌, ◌*◌, ◌/◌, ◌%◌, ◌^◌, ◌<◌, ◌≡◌, refl, ap, ◌∙◌, ◌&&◌, Option, none, some, List,
  [], ◌∷◌, ◌++◌, Bytes, length, drop, ◌==◌, if◌then◌else◌, arith,
}
use redrum_db.Base.Words.{u64_mod, to_be_bytes, from_be_acc, from_be_bytes}
use redrum_db.Listpack.Codec.{Value}
use redrum_db.Listpack.Number.{strict_parse_i64}
use redrum_db.Listpack.Append.{stored}
use redrum_db.Stream.Id.{StreamId}
use redrum_db.Stream.{Fields}

pub record LogEntry : Type 0 where
  pub id : StreamId
  pub fields : Fields

-- The values that fields become.
abbrev pub field_values : Fields → List Value
field_values [] = []
field_values ((f, v) ∷ fields) = stored f ∷ stored v ∷ field_values fields

abbrev pub entry_values : LogEntry → List Value
entry_values e =
    stored (to_be_bytes 8 e.id.ms)
    ∷ stored (to_be_bytes 8 e.id.seq)
    ∷ stored (to_be_bytes 8 (length e.fields))
    ∷ field_values e.fields

abbrev pub log_values : List LogEntry → List Value
log_values [] = []
log_values (e ∷ es) = entry_values e ++ log_values es

-- The fields of the entry with the ID.
abbrev pub lookup : List LogEntry → StreamId → Option (List Value)
lookup [] id = none
lookup (e ∷ es) id =
    if e.id.ms == id.ms && e.id.seq == id.seq then some (field_values e.fields) else lookup es id

-- A `u64` whose eight bytes do not print an integer.
abbrev pub IsPlain : ℕ → Type 0
IsPlain n = (n < u64_mod) × (strict_parse_i64 (to_be_bytes 8 n) ≡ none)

-- The numbers of the entry are stored as they are.
abbrev pub IsPlainEntry : LogEntry → Type 0
IsPlainEntry e = IsPlain e.id.ms × IsPlain e.id.seq × IsPlain (length e.fields)

abbrev pub ArePlain : List LogEntry → Type 0
ArePlain [] = Unit
ArePlain (e ∷ es) = IsPlainEntry e × ArePlain es

from_be_acc_snoc :
    (acc : ℕ) (xs : Bytes) (b : ℕ) → from_be_acc acc (xs ++ (b ∷ [])) ≡ from_be_acc acc xs * 256 + b
from_be_acc_snoc acc [] b = refl
from_be_acc_snoc acc (x ∷ xs) b = from_be_acc_snoc (acc * 256 + x) xs b

from_to_be_bytes : (k n : ℕ) → n < 256 ^ k → from_be_bytes (to_be_bytes k n) ≡ n
from_to_be_bytes zero n h = omega arith
from_to_be_bytes (suc k) n h =
    let step : n < 256 ^ k * 256 = rw pow-suc at h in
    from_be_acc_snoc 0 (to_be_bytes k (n / 256)) (n % 256)
    ∙ omega (arith, from_to_be_bytes k (n / 256) (omega arith))

pub from_to_be_8 : (n : ℕ) → n < u64_mod → from_be_bytes (to_be_bytes 8 n) ≡ n
from_to_be_8 n h = from_to_be_bytes 8 n (omega arith)

-- Numbers below 2 ^ 56 are plain: their first byte is zero.
pub small-IsPlain : (n : ℕ) → n < 2 ^ 56 → IsPlain n
unfolding strict_parse_i64
small-IsPlain n h =
    let e : n / 256 / 256 / 256 / 256 / 256 / 256 / 256 % 256 ≡ 0 = omega arith in
    (omega arith, ap (λ b. strict_parse_i64 (b ∷ drop 1 (to_be_bytes 8 n))) e)
