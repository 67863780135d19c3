-- ===== src/Commands/Strings/Expiry.antt =====
-- commands/handlers/strings.rs: the option of `set` with the time after which the key expires.
use redrum_db.Base.{
  ℕ, ◌+◌, ◌*◌, ◌^◌, Bool, ◌||◌, Option, none, some, List, Bytes, get_elem?, bytes_eq, ltb,
  if◌then◌else◌,
}
use redrum_db.Base.Result.{Result, ok, panic, ◌>>=◌, ok_or}
use redrum_db.Base.Text.{codes}
use redrum_db.Base.Utf8.{is_utf8}
use redrum_db.Parser.Request.{upper}
use redrum_db.Parser.Usize.{parse_usize}
use redrum_db.Commands.Context.{Env}

-- `str::from_utf8(text).unwrap()`
unfoldable pub utf8_or_panic : Bytes → Result Bytes Bytes
unfolding is_utf8
utf8_or_panic text = if is_utf8 text then ok text else panic

-- `to_uppercase() == name`, for names of the letters E, P and X: no character outside ASCII has these as
-- its upper case.
unfoldable pub is_option : Bytes → Bytes → Bool
is_option text name = bytes_eq (upper text) name

abbrev pub nanos_per_second : ℕ
nanos_per_second = 10 ^ 9

abbrev pub nanos_per_milli : ℕ
nanos_per_milli = 10 ^ 6

-- `Instant + Duration` panics where it leaves the range of an `Instant`.
unfoldable pub add_instant : Env → ℕ → Result Bytes ℕ
add_instant env nanos =
    if ltb env.instant_max (env.now + nanos) then panic else ok (env.now + nanos)

-- The time that the text says, in units of so many nanoseconds.
unfoldable pub deadline_in : Env → ℕ → Bytes → Result Bytes ℕ
deadline_in env unit text = do
  digits ← utf8_or_panic text
  exp ← ok_or (parse_usize digits) (codes "-ERR invalid EX/PX value")
  add_instant env (exp * unit)

-- The deadline for the option, if it is one.
unfoldable pub option_deadline : Env → List Bytes → Bytes → Result Bytes (Option ℕ)
option_deadline env args option =
    if is_option option (codes "EX") || is_option option (codes "PX")
    then (do
      text ← ok_or (get_elem? args 3) (codes "-ERR missing EX value")
      t ←
          deadline_in env
            (if is_option option (codes "PX") then nanos_per_milli else nanos_per_second) text
      ok (some t))
    else ok none

unfoldable pub set_expiry : Env → List Bytes → Result Bytes (Option ℕ)
unfolding option_deadline deadline_in add_instant utf8_or_panic is_option
set_expiry env args = elim (get_elem? args 2) [
  | none ↦ ok none
  | some text ↦ do option ← utf8_or_panic text; option_deadline env args option
]
