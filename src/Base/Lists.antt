-- ===== src/Base/Lists.antt =====
-- Lists measured and indexed by native numbers, under the library's names, and the slices of Rust.
use Prim.Native.Nat.{ℕ, zero, suc, ◌+◌, ◌-◌, ◌≤◌}
use mathlib.Core.Path.{◌≡◌, refl, ap, ◌∙◌}
use mathlib.Core.List.{List, [], ◌∷◌, ◌++◌}
use mathlib.Core.Option.{Option, none, some}
use mathlib.Core.Bool.{◌&&◌}
use native.Mathlib.Omega.{arith}
use redrum_db.Base.Tests.{leb, if◌then◌else◌, le→leb}

module _ {ℓ} {A : Type ℓ} where
  abbrev pub length : List A → ℕ
  length [] = 0
  length (x ∷ xs) = suc (length xs)

  abbrev pub get_elem? : List A → ℕ → Option A
  get_elem? [] i = none
  get_elem? (x ∷ xs) zero = some x
  get_elem? (x ∷ xs) (suc i) = get_elem? xs i

  abbrev pub take : ℕ → List A → List A
  take zero xs = []
  take (suc n) [] = []
  take (suc n) (x ∷ xs) = x ∷ take n xs

  abbrev pub drop : ℕ → List A → List A
  drop zero xs = xs
  drop (suc n) [] = []
  drop (suc n) (x ∷ xs) = drop n xs

  pub length-append : (xs ys : List A) → length (xs ++ ys) ≡ length xs + length ys
  length-append [] ys = omega arith
  length-append (x ∷ xs) ys = omega (arith, length-append xs ys)

module _ {ℓ} {A : Type ℓ} where
  pub take-append : (xs ys : List A) → take (length xs) (xs ++ ys) ≡ xs
  take-append [] ys = refl
  take-append (x ∷ xs) ys = ap (λ t. x ∷ t) (take-append xs ys)

  pub drop-append : (xs ys : List A) → drop (length xs) (xs ++ ys) ≡ ys
  drop-append [] ys = refl
  drop-append (x ∷ xs) ys = drop-append xs ys

  pub take-drop : (n : ℕ) (xs : List A) → take n xs ++ drop n xs ≡ xs
  take-drop zero xs = refl
  take-drop (suc n) [] = refl
  take-drop (suc n) (x ∷ xs) = ap (λ t. x ∷ t) (take-drop n xs)

  pub length-take : (n : ℕ) (xs : List A) → n ≤ length xs → length (take n xs) ≡ n
  length-take zero xs h = refl
  length-take (suc n) [] h = absurd (omega arith)
  length-take (suc n) (x ∷ xs) h = ap suc (length-take n xs (omega arith))

  pub length-drop : (n : ℕ) (xs : List A) → length (drop n xs) ≡ length xs - n
  length-drop zero xs = omega arith
  length-drop (suc n) [] = omega arith
  length-drop (suc n) (x ∷ xs) = omega (arith, length-drop n xs)

  -- `s.get(a..b)`: the slice, or nothing where the range does not lie inside.
  unfoldable pub slice : List A → ℕ → ℕ → Option (List A)
  slice xs a b = if leb a b && leb b (length xs) then some (take (b - a) (drop a xs)) else none

module _ {ℓ} {A : Type ℓ} where
  pub get_elem?-append :
      (pre xs : List A) (i : ℕ) → get_elem? (pre ++ xs) (length pre + i) ≡ get_elem? xs i
  get_elem?-append [] xs i = let e : 0 + i ≡ i = omega arith in rw e
  get_elem?-append (x ∷ pre) xs i =
      let e : length (x ∷ pre) + i ≡ suc (length pre + i) = omega arith in
      rw e (get_elem?-append pre xs i)

  slice-cons : (x : A) (xs : List A) (a b : ℕ) → slice (x ∷ xs) (suc a) (suc b) ≡ slice xs a b
  unfolding slice
  slice-cons x xs a b = let e : suc b - suc a ≡ b - a = omega arith in rw e (ground arith)

  slice_first : (mid post : List A) → slice (mid ++ post) 0 (length mid) ≡ some mid
  unfolding slice
  slice_first mid post =
      let e : length mid - 0 ≡ length mid = omega arith in
      rw (
        e,
        take-append mid post,
        le→leb 0 (length mid) (omega arith),
        le→leb (length mid) (length (mid ++ post)) (omega (arith, length-append mid post)),
      )

  -- Behind a known beginning, a slice is a slice of the rest.
  pub slice-append :
      (pre xs : List A) (a b : ℕ)
      → slice (pre ++ xs) (length pre + a) (length pre + b) ≡ slice xs a b
  unfolding slice
  slice-append [] xs a b =
      let e : 0 + a ≡ a = omega arith in let e' : 0 + b ≡ b = omega arith in rw (e, e')
  slice-append (x ∷ pre) xs a b =
      let e : length (x ∷ pre) + a ≡ suc (length pre + a) = omega arith in
      let e' : length (x ∷ pre) + b ≡ suc (length pre + b) = omega arith in
      rw (e, e')
        (slice-cons x (pre ++ xs) (length pre + a) (length pre + b) ∙ slice-append pre xs a b)

  -- The slice that covers a middle part.
  pub slice_middle :
      (pre mid post : List A)
      → slice (pre ++ (mid ++ post)) (length pre) (length pre + length mid) ≡ some mid
  slice_middle pre mid post =
      let e : length pre ≡ length pre + 0 = omega arith in
      ap (λ k. slice (pre ++ (mid ++ post)) k (length pre + length mid)) e
      ∙ slice-append pre (mid ++ post) 0 (length mid)
      ∙ slice_first mid post
