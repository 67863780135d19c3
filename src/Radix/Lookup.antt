-- ===== src/Radix/Lookup.antt =====
-- data_structures/radix.rs: the tree as a map from keys to values.
use redrum_db.Base.{
  ℕ, ◌++◌, bytes_eq_sound, Option-cases, ◌≡◌, refl, ap, ◌∙◌, sym, Option, none, some, [], ◌∷◌,
  Bytes, if◌then◌else◌, bytes_eq, arith, Bool-cases, inl, inr, ◌==◌,
}
use mathlib.Core.Option
use native.Mathlib.Nat.{le_refl}
use redrum_db.Radix.{
  RadixNode, Children, node, nil, cons, get_rem, get_rec, get_child, height, RadixTree, new, insert,
  get, write_rem, write_rec, write_child, write,
}
use redrum_db.Radix.Strip.{strip, beyond, starts_with-strip, beyond_agree, strip_sound}
use redrum_db.Radix.Siblings.{get_rec-strip}
use redrum_db.Radix.Insert.{insert_rec-Inserted}

-- An empty tree holds nothing.
pub get-new {ℓ} : {V : Type ℓ} (j : Bytes) → get (new {V = V}) j ≡ none
unfolding get new
get-new [] = refl
get-new (x ∷ j) = refl

module _ {ℓ} {V : Type ℓ} where
  -- Every insertion ends within its fuel, for every tree; afterwards its key reads the new value and
  -- every other key reads what it read before.
  pub get-insert :
      (t : RadixTree V) (key : Bytes) (v : V)
      → (t' : RadixTree V) × (insert t key v ≡ some t')
        × ((j : Bytes) → get t' j ≡ (if bytes_eq j key then some v else get t j))
  unfolding insert get
  get-insert t key v =
      let i = insert_rec-Inserted (height t.root) t.root key v (le_refl (height t.root)) in
      (record { root = i.result }, rw i.runs, i.reads)

  -- The value slot that a key reaches, in the loop over the children.
  abbrev WritesChild : Children V → V → Type ℓ
  WritesChild cs w =
      (next : ℕ) (key : Bytes) (x : ℕ) (j : Bytes)
      → get_child (write_child cs next key w) x j ≡ (
          if x == next
          then (if bytes_eq j key
              then Option.map (λ _. w) (get_child cs next key)
              else get_child cs x j)
          else get_child cs x j)

  -- Two nodes with one prefix agree up to the key behind it, if their insides do.
  behind :
      (p : Bytes) (cs' : Children V) (value' : Option V) (cs : Children V) (value : Option V)
      (k j : Bytes) (o : Option V)
      → ((r : Bytes)
          → get_rem value' (get_child cs') r
            ≡ (if bytes_eq r k then o else get_rem value (get_child cs) r))
      → get_rec (node p cs' value') j
        ≡ (if bytes_eq j (p ++ k) then o else get_rec (node p cs value) j)
  behind p cs' value' cs value k j o agree =
      get_rec-strip p cs' value' j
      ∙ beyond_agree none p k j _ (get_rem value (get_child cs)) o agree
      ∙ ap (λ t. if bytes_eq j (p ++ k) then o else t) (sym (get_rec-strip p cs value j))

  write_rec-strip :
      (p : Bytes) (cs : Children V) (value : Option V) (key : Bytes) (w : V)
      → write_rec (node p cs value) key w
        ≡ beyond
            (strip p key)
            (λ k. write_rem p cs value (λ next rem. write_child cs next rem w) k w)
            (node p cs value)
  unfolding write_rec
  write_rec-strip p cs value key w = starts_with-strip (node p cs value) p key _

  -- A key that does not begin with the prefix reads nothing.
  unreached :
      (p : Bytes) (cs : Children V) (value : Option V) (key : Bytes) (w : V) (j : Bytes)
      → strip p key ≡ none
      → (if bytes_eq j key
          then Option.map (λ _. w) (get_rec (node p cs value) key)
          else get_rec (node p cs value) j)
        ≡ get_rec (node p cs value) j
  unreached p cs value key w j e =
      let h : get_rec (node p cs value) key ≡ none =
        get_rec-strip p cs value key ∙ ap (λ o. beyond o (get_rem value (get_child cs)) none) e in
      elim (Bool-cases (bytes_eq j key)) [
        | inl same ↦ rw (same, h) (sym (rw (bytes_eq_sound j key same) h))
        | inr other ↦ rw other
      ]

  reached :
      (p : Bytes) (cs : Children V) (value : Option V) (key : Bytes) (w : V) (j k : Bytes)
      → strip p key ≡ some k
      → (if bytes_eq j (p ++ k)
          then Option.map (λ _. w) (get_rem value (get_child cs) k)
          else get_rec (node p cs value) j)
        ≡ (if bytes_eq j key
            then Option.map (λ _. w) (get_rec (node p cs value) key)
            else get_rec (node p cs value) j)
  reached p cs value key w j k e =
      let h : get_rec (node p cs value) key ≡ get_rem value (get_child cs) k =
        get_rec-strip p cs value key ∙ ap (λ o. beyond o (get_rem value (get_child cs)) none) e in
      let e' : p ++ k ≡ key = sym (strip_sound p key k e) in rw (h, e')

  write_rem_reads :
      (p : Bytes) (cs : Children V) (value : Option V) (w : V)
      → WritesChild cs w
      → (k j : Bytes)
      → get_rec (write_rem p cs value (λ next rem. write_child cs next rem w) k w) j ≡ (
          if bytes_eq j (p ++ k)
          then Option.map (λ _. w) (get_rem value (get_child cs) k)
          else get_rec (node p cs value) j)
  unfolding write_rem get_rem
  write_rem_reads p cs value w ih [] j =
      behind p cs (Option.map (λ _. w) value) cs value [] j (Option.map (λ _. w) value)
        (elim [ [] ↦ refl | x ∷ r ↦ refl ])
  write_rem_reads p cs value w ih (next ∷ rem) j =
      behind p (write_child cs next (next ∷ rem) w) value cs value (next ∷ rem) j
        (Option.map (λ _. w) (get_child cs next (next ∷ rem)))
        (elim [ [] ↦ refl | x ∷ r ↦ ground (arith, ih next (next ∷ rem) x (x ∷ r)) ])

  write_node_reads :
      (p : Bytes) (cs : Children V) (value : Option V) (w : V)
      → WritesChild cs w
      → (key j : Bytes)
      → get_rec (write_rec (node p cs value) key w) j ≡ (
          if bytes_eq j key
          then Option.map (λ _. w) (get_rec (node p cs value) key)
          else get_rec (node p cs value) j)
  write_node_reads p cs value w ih key j =
      ap (λ n. get_rec n j) (write_rec-strip p cs value key w) ∙ elim (Option-cases (strip p key)) [
        | inl e ↦ rw e (sym (unreached p cs value key w j e))
        | inr (k, e) ↦ rw e (write_rem_reads p cs value w ih k j ∙ reached p cs value key w j k e)
      ]

  mutual
    unfolding write_rec get_rec

    get_rec-write_rec :
        (n : RadixNode V) (key : Bytes) (w : V) (j : Bytes)
        → get_rec (write_rec n key w) j
          ≡ (if bytes_eq j key then Option.map (λ _. w) (get_rec n key) else get_rec n j)
    get_rec-write_rec (node p cs value) key w j =
        write_node_reads p cs value w (λ next k x r. get_child-write_child cs next k w x r) key j

    get_child-write_child :
        (cs : Children V) (next : ℕ) (key : Bytes) (w : V) (x : ℕ) (j : Bytes)
        → get_child (write_child cs next key w) x j ≡ (
            if x == next
            then (if bytes_eq j key
                then Option.map (λ _. w) (get_child cs next key)
                else get_child cs x j)
            else get_child cs x j)
    get_child-write_child nil next key w x j = ground arith
    get_child-write_child (cons b child rest) next key w x j = ground (
      arith,
      get_rec-write_rec child key w j,
      get_child-write_child rest next key w x j,
      bytes_eq_sound j key,
    )

  -- A write through the reference that `get` returns changes the value of that key, if there is
  -- one, and of no other.
  pub get-write :
      (t : RadixTree V) (key : Bytes) (w : V) (j : Bytes)
      → get (write t key w) j
        ≡ (if bytes_eq j key then Option.map (λ _. w) (get t key) else get t j)
  unfolding write get
  get-write t key w j = get_rec-write_rec t.root key w j
