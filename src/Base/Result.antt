-- ===== src/Base/Result.antt =====
-- Rust results: a value, an error value, or a panic, which unwinds whatever called the function.
-- A function that returns `Option` and can panic is modelled with the error type `Unit`.
use mathlib.Core.Path.{◌≡◌, refl}
use mathlib.Core.Logic.{◌⊎◌, inl, inr}
use mathlib.Core.Option.{Option, none, some}

pub data Result {ℓ κ} (E : Type ℓ) (A : Type κ) : Type (ℓ ⊔ κ) where
  ok : A → Result E A
  err : E → Result E A
  panic : Result E A

module _ {ℓ} {E : Type ℓ} where
  -- `?` and the chains of fallible calls.
  infixl 5 ◌>>=◌ ◌>>◌
  abbrev pub ◌>>=◌ {κ μ} :
      {A : Type κ} {B : Type μ} → Result E A → (next : A → Result E B) → Result E B
  panic >>= next = panic
  ok a >>= next = next a
  err e >>= next = err e

  -- `ok_or`
  abbrev pub ok_or {κ} : {A : Type κ} → Option A → E → Result E A
  ok_or none e = err e
  ok_or (some a) e = ok a

  -- `unwrap` on an `Option`
  abbrev pub or_panic {κ} : {A : Type κ} → Option A → Result E A
  or_panic none = panic
  or_panic (some a) = ok a

  abbrev pub ◌>>◌ {μ} : {B : Type μ} → (done : Result E (Unit {0})) → Result E B → Result E B
  done >> rest = done >>= (λ u. rest)

  pub >>=-eq-ok {κ μ} :
      {A : Type κ} {B : Type μ} (first : Result E A) (next : A → Result E B) {result : B}
      → (first >>= next) ≡ ok result
      → (x : A) × (first ≡ ok x) × (next x ≡ ok result)
  >>=-eq-ok panic next run = cc
  >>=-eq-ok (err e) next run = cc
  >>=-eq-ok (ok x) next run = (x, refl, run)

  pub Result-cases {κ} :
      {A : Type κ} (r : Result E A)
      → ((a : A) × (r ≡ ok a)) ⊎ (((e : E) × (r ≡ err e)) ⊎ (r ≡ panic))
  Result-cases (ok a) = inl (a, refl)
  Result-cases (err e) = inr (inl (e, refl))
  Result-cases panic = inr (inr refl)
