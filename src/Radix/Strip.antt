-- ===== src/Radix/Strip.antt =====
-- Prefixes of keys in data_structures/radix.rs: a key with a prefix taken off, and what `lcp` finds.
use redrum_db.Base.{
  suc, ◌≡◌, ◌≢◌, refl, ap, Option, none, some, [], ◌∷◌, ◌++◌, arith, Bytes, length, drop, ◌==◌,
  if◌then◌else◌, bytes_eq, Bool-cases, inl, inr, ==_iff,
}
use redrum_db.Radix.{lcp, starts_with}

-- The rest of `key` behind `prefix`, if `key` begins with it.
abbrev pub strip : Bytes → Bytes → Option Bytes
strip [] key = some key
strip (p ∷ ps) [] = none
strip (p ∷ ps) (k ∷ ks) = if k == p then strip ps ks else none

-- `g` on the rest of the key behind the prefix.
abbrev pub beyond {ℓ} : {A : Type ℓ} → Option Bytes → (Bytes → A) → A → A
beyond none g d = d
beyond (some r) g d = g r

module _ {ℓ} {A : Type ℓ} (d : A) where
  -- Test and cut of the source are one `strip`.
  pub starts_with-strip :
      (prefix key : Bytes) (g : Bytes → A)
      → (if starts_with key prefix then g (drop (length prefix) key) else d)
        ≡ beyond (strip prefix key) g d
  unfolding starts_with
  starts_with-strip [] key g = refl
  starts_with-strip (p ∷ ps) [] g = refl
  starts_with-strip (p ∷ ps) (k ∷ ks) g = elim (Bool-cases (k == p)) [
    | inl e ↦ rw e (starts_with-strip ps ks g)
    | inr e ↦ rw e
  ]

  -- A prefix in two parts comes off in two steps.
  pub strip-append :
      (c p key : Bytes) (g : Bytes → A)
      → beyond (strip (c ++ p) key) g d ≡ beyond (strip c key) (λ r. beyond (strip p r) g d) d
  strip-append [] p key g = refl
  strip-append (x ∷ c) p [] g = refl
  strip-append (x ∷ c) p (k ∷ key) g = elim (Bool-cases (k == x)) [
    | inl e ↦ rw e (strip-append c p key g)
    | inr e ↦ rw e
  ]

  -- Behind a common beginning it is enough to compare the rests of the keys.
  pub beyond_agree :
      (c k key : Bytes) (g h : Bytes → A) (v : A)
      → ((r : Bytes) → g r ≡ (if bytes_eq r k then v else h r))
      → beyond (strip c key) g d ≡ (if bytes_eq key (c ++ k) then v else beyond (strip c key) h d)
  beyond_agree [] k key g h v agree = agree key
  beyond_agree (x ∷ c) k [] g h v agree = refl
  beyond_agree (x ∷ c) k (y ∷ key) g h v agree = elim (Bool-cases (y == x)) [
    | inl e ↦ rw e (beyond_agree c k key g h v agree)
    | inr e ↦ rw e
  ]

-- Two rests that do not begin with the same byte.
abbrev pub Diverge : Bytes → Bytes → Type 0
Diverge [] k = Unit
Diverge (x ∷ p) [] = Unit
Diverge (x ∷ p) (y ∷ k) = x ≢ y

-- What `lcp` finds: the two lists split behind a common beginning of that length, and their rests
-- go apart at once.
pub record Common (p k : Bytes) : Type 0 where
  pub shared : Bytes
  pub rest_p : Bytes
  pub rest_k : Bytes
  pub p_eq : p ≡ shared ++ rest_p
  pub k_eq : k ≡ shared ++ rest_k
  pub lcp_eq : lcp p k ≡ length shared
  pub apart : Diverge rest_p rest_k

pub lcp-Common : (p k : Bytes) → Common p k
unfolding lcp
lcp-Common [] k = record {
  shared = [];
  rest_p = [];
  rest_k = k;
  p_eq = refl;
  k_eq = refl;
  lcp_eq = refl;
  apart = tt;
}
lcp-Common (x ∷ p) [] = record {
  shared = [];
  rest_p = x ∷ p;
  rest_k = [];
  p_eq = refl;
  k_eq = refl;
  lcp_eq = refl;
  apart = tt;
}
lcp-Common (x ∷ p) (y ∷ k) =
    let c = lcp-Common p k in
    elim (Bool-cases (x == y)) [
      | inl e ↦ record {
        shared = x ∷ c.shared;
        rest_p = c.rest_p;
        rest_k = c.rest_k;
        p_eq = ap (λ t. x ∷ t) c.p_eq;
        k_eq = rw ((==_iff x y).0 e) (ap (λ t. y ∷ t) c.k_eq);
        lcp_eq = rw e (ap suc c.lcp_eq);
        apart = c.apart;
      }
      | inr e ↦ record {
        shared = [];
        rest_p = x ∷ p;
        rest_k = y ∷ k;
        p_eq = refl;
        k_eq = refl;
        lcp_eq = rw e;
        apart = ground arith;
      }
    ]

pub strip_sound : (p key r : Bytes) → strip p key ≡ some r → key ≡ p ++ r
strip_sound [] key r h = cc
strip_sound (x ∷ p) [] r h = cc
strip_sound (x ∷ p) (y ∷ key) r h = ground (arith, strip_sound p key r)
