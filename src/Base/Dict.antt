-- ===== src/Base/Dict.antt =====
-- A hash map with byte strings for keys: an association list, with the laws that a map has whatever the
-- order of its entries is.
use redrum_db.Base.{
  ◌≡◌, refl, Option, none, some, List, [], ◌∷◌, arith, if◌then◌else◌, bytes_eq, bytes_eq_refl,
  bytes_eq_sound, Bytes, ◌∙◌, false,
}

abbrev pub Dict {ℓ} : Type ℓ → Type ℓ
Dict V = List (Bytes × V)

module _ {ℓ} {V : Type ℓ} where
  -- `map.get(k)`
  unfoldable pub lookup : Bytes → Dict V → Option V
  lookup k [] = none
  lookup k ((j, v) ∷ d) = if bytes_eq k j then some v else lookup k d

  -- `map.insert(k, v)`
  unfoldable pub insert : Bytes → V → Dict V → Dict V
  insert k v [] = (k, v) ∷ []
  insert k v ((j, w) ∷ d) = if bytes_eq k j then (k, v) ∷ d else (j, w) ∷ insert k v d

  -- `map.remove(k)`
  unfoldable pub erase : Bytes → Dict V → Dict V
  erase k [] = []
  erase k ((j, v) ∷ d) = let rest = erase k d in if bytes_eq k j then rest else (j, v) ∷ rest

  pub lookup-insert :
      (k j : Bytes) (v : V) (d : Dict V)
      → lookup j (insert k v d) ≡ (if bytes_eq j k then some v else lookup j d)
  unfolding lookup insert
  lookup-insert k j v [] = refl
  lookup-insert k j v ((i, w) ∷ d) = ground (
    arith,
    bytes_eq_sound k i,
    bytes_eq_sound j k,
    bytes_eq_sound j i,
    bytes_eq_refl k,
    lookup-insert k j v d,
  )

  pub lookup-erase :
      (k j : Bytes) (d : Dict V)
      → lookup j (erase k d) ≡ (if bytes_eq j k then none else lookup j d)
  unfolding lookup erase
  lookup-erase k j [] = ground arith
  lookup-erase k j ((i, w) ∷ d) = ground (
    arith,
    bytes_eq_sound k i,
    bytes_eq_sound j k,
    bytes_eq_sound j i,
    bytes_eq_refl k,
    lookup-erase k j d,
  )

  pub lookup-insert_self : (k : Bytes) (v : V) (d : Dict V) → lookup k (insert k v d) ≡ some v
  lookup-insert_self k v d = lookup-insert k k v d ∙ rw (bytes_eq_refl k)

  pub lookup-insert_other :
      (k j : Bytes) (v : V) (d : Dict V)
      → bytes_eq j k ≡ false
      → lookup j (insert k v d) ≡ lookup j d
  lookup-insert_other k j v d other = lookup-insert k j v d ∙ rw other
