-- ===== src/Stream/Order.antt =====
-- data_structures/stream.rs: the order of IDs, their key bytes, and looking up by ID.
use redrum_db.Base.{
  ◌<◌, ◌≡◌, refl, ap, sym, ◌∙◌, true, false, ◌&&◌, none, List, [], ◌∷◌, ◌++◌, take, drop, ◌==◌,
  arith, bytes_eq, bytes_eq_sound, Bool-cases, inl, inr,
}
use redrum_db.Base.Words.{u64_mod, to_be_bytes, from_be_bytes}
use redrum_db.Stream.Id.{StreamId, id_lt, id_le, to_bytes}
use redrum_db.Stream.Log.{LogEntry, lookup, from_to_be_8}

-- Both numbers fit a `u64`.
abbrev pub IsId : StreamId → Type 0
IsId id = (id.ms < u64_mod) × (id.seq < u64_mod)

-- Two IDs of `u64`s with the same key bytes are equal.
pub to_bytes_injective :
    (a b : StreamId) → IsId a → IsId b → to_bytes a ≡ to_bytes b → (a.ms ≡ b.ms) × (a.seq ≡ b.seq)
unfolding to_bytes
to_bytes_injective a b (a_ms, a_seq) (b_ms, b_seq) e =
    let m : from_be_bytes (to_be_bytes 8 a.ms) ≡ from_be_bytes (to_be_bytes 8 b.ms) =
      ap (λ t. from_be_bytes (take 8 t)) e in
    let n : from_be_bytes (to_be_bytes 8 a.seq) ≡ from_be_bytes (to_be_bytes 8 b.seq) =
      ap (λ t. from_be_bytes (drop 8 t)) e in
    (
      sym (from_to_be_8 a.ms a_ms) ∙ m ∙ from_to_be_8 b.ms b_ms,
      sym (from_to_be_8 a.seq a_seq) ∙ n ∙ from_to_be_8 b.seq b_seq,
    )

lt_apart : (a b : StreamId) → id_lt a b ≡ true → a.ms ≡ b.ms → a.seq ≡ b.seq → true ≡ false
lt_apart a b low p q = ground arith

pub to_bytes-lt :
    (a b : StreamId)
    → IsId a
    → IsId b
    → id_lt a b ≡ true
    → bytes_eq (to_bytes a) (to_bytes b) ≡ false
to_bytes-lt a b a_is b_is low = elim (Bool-cases (bytes_eq (to_bytes a) (to_bytes b))) [
  | inl same ↦
      let (p, q) =
        to_bytes_injective a b a_is b_is (bytes_eq_sound (to_bytes a) (to_bytes b) same) in
      same ∙ lt_apart a b low p q
  | inr other ↦ other
]

-- Every ID is below `b`, from `b` on, or up to `b`.
abbrev pub Below : StreamId → List LogEntry → Type 0
Below b [] = Unit
Below b (e ∷ es) = (id_lt e.id b ≡ true) × Below b es

abbrev pub From : StreamId → List LogEntry → Type 0
From b [] = Unit
From b (e ∷ es) = (id_le b e.id ≡ true) × From b es

abbrev pub UpTo : StreamId → List LogEntry → Type 0
UpTo b [] = Unit
UpTo b (e ∷ es) = (id_le e.id b ≡ true) × UpTo b es

pub lt-of-le : (a b c : StreamId) → id_le a b ≡ true → id_lt b c ≡ true → id_lt a c ≡ true
lt-of-le a b c p q = ground arith

pub le-of-lt : (a b : StreamId) → id_lt a b ≡ true → id_le a b ≡ true
le-of-lt a b p = ground arith

pub UpTo-Below : (b c : StreamId) (es : List LogEntry) → id_lt b c ≡ true → UpTo b es → Below c es
UpTo-Below b c [] low h = tt
UpTo-Below b c (e ∷ es) low (p, h) = (lt-of-le e.id b c p low, UpTo-Below b c es low h)

pub Below-UpTo : (b : StreamId) (es : List LogEntry) → Below b es → UpTo b es
Below-UpTo b [] h = tt
Below-UpTo b (e ∷ es) (p, h) = (le-of-lt e.id b p, Below-UpTo b es h)

lt_not_here :
    (a b id : StreamId)
    → id_lt a b ≡ true
    → id_le b id ≡ true
    → (a.ms == id.ms && a.seq == id.seq) ≡ false
lt_not_here a b id p q = ground arith

le_not_here :
    (a b id : StreamId)
    → id_le b a ≡ true
    → id_le b id ≡ false
    → (a.ms == id.ms && a.seq == id.seq) ≡ false
le_not_here a b id p q = ground arith

pub lookup-Below :
    (b id : StreamId) (es : List LogEntry) → Below b es → id_le b id ≡ true → lookup es id ≡ none
lookup-Below b id [] h low = refl
lookup-Below b id (e ∷ es) (p, h) low =
    rw (lt_not_here e.id b id p low) (lookup-Below b id es h low)

pub lookup-From :
    (b id : StreamId) (es : List LogEntry) → From b es → id_le b id ≡ false → lookup es id ≡ none
lookup-From b id [] h low = refl
lookup-From b id (e ∷ es) (p, h) low = rw (le_not_here e.id b id p low) (lookup-From b id es h low)

-- The first of two logs that has the ID.
pub lookup-append_none :
    (xs ys : List LogEntry) (id : StreamId)
    → lookup xs id ≡ none
    → lookup (xs ++ ys) id ≡ lookup ys id
lookup-append_none [] ys id h = refl
lookup-append_none (x ∷ xs) ys id h = ground (arith, lookup-append_none xs ys id)

pub lookup-append_end :
    (xs ys : List LogEntry) (id : StreamId)
    → lookup ys id ≡ none
    → lookup (xs ++ ys) id ≡ lookup xs id
lookup-append_end [] ys id h = h
lookup-append_end (x ∷ xs) ys id h = ground (arith, lookup-append_end xs ys id h)
