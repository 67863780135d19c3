-- ===== src/Radix/Siblings.antt =====
-- data_structures/radix.rs: what the loops over the children find, and what an insertion does to them.
use redrum_db.Base.{
  ℕ, ◌≤◌, ◌≡◌, refl, ap, ◌∙◌, true, false, Option, none, some, [], ◌∷◌, arith, Bytes, ◌==◌,
  if◌then◌else◌, bytes_eq, Bool-cases, inl, inr, append-nil,
}
use redrum_db.Radix.{
  RadixNode, Children, node, nil, cons, get_rem, get_rec, get_child, has_child, modify_child,
  push_child, insert_sorted, sort_children, height, heights,
}
use redrum_db.Radix.Strip.{strip, beyond, starts_with-strip, beyond_agree}

module _ {ℓ} {V : Type ℓ} where
  -- `get_rec` on a node, by the rest of the key behind the prefix.
  pub get_rec-strip :
      (p : Bytes) (cs : Children V) (value : Option V) (key : Bytes)
      → get_rec (node p cs value) key ≡ beyond (strip p key) (get_rem value (get_child cs)) none
  get_rec-strip p cs value key =
      unfold get_rec in starts_with-strip none p key (get_rem value (get_child cs))

  pub get_child-insert_sorted :
      (b : ℕ) (n : RadixNode V) (cs : Children V) (x : ℕ) (r : Bytes)
      → get_child (insert_sorted b n cs) x r ≡ (if b == x then get_rec n r else get_child cs x r)
  unfolding get_rec insert_sorted
  get_child-insert_sorted b n nil x r = refl
  get_child-insert_sorted b n (cons c m rest) x r =
      ground (arith, get_child-insert_sorted b n rest x r)

  pub get_child-cons :
      (b : ℕ) (n : RadixNode V) (rest : Children V) (x : ℕ) (r : Bytes)
      → (if b == x then get_rec n r else get_child rest x r) ≡ get_child (cons b n rest) x r
  unfolding get_rec
  get_child-cons b n rest x r = refl

  -- The sort is stable, so the loop finds the same child.
  pub get_child-sort_children :
      (cs : Children V) (x : ℕ) (r : Bytes) → get_child (sort_children cs) x r ≡ get_child cs x r
  unfolding sort_children
  get_child-sort_children nil x r = refl
  get_child-sort_children (cons b n rest) x r =
      get_child-insert_sorted b n (sort_children rest) x r
      ∙ ap (λ t. if b == x then get_rec n r else t) (get_child-sort_children rest x r)
      ∙ get_child-cons b n rest x r

  pub get_child-push_child :
      (cs : Children V) (b : ℕ) (n : RadixNode V) (x : ℕ) (r : Bytes)
      → has_child cs b ≡ false
      → get_child (push_child cs b n) x r ≡ (if x == b then get_rec n r else get_child cs x r)
  unfolding get_rec push_child has_child
  get_child-push_child nil b n x r h = ground arith
  get_child-push_child (cons c m rest) b n x r h = ground (arith, get_child-push_child rest b n x r)

  pub get_child_absent :
      (cs : Children V) (b x : ℕ) (r : Bytes)
      → has_child cs b ≡ false
      → x ≡ b
      → get_child cs x r ≡ none
  unfolding get_rec has_child
  get_child_absent nil b x r h e = refl
  get_child_absent (cons c m rest) b x r h e = ground (arith, get_child_absent rest b x r)

  pub beyond-none : (o : Option Bytes) → beyond {A = Option V} o (λ _. none) none ≡ none
  beyond-none none = refl
  beyond-none (some r) = refl

  -- A new leaf holds its value at its prefix and nothing else.
  pub get_rec_leaf :
      (key : Bytes) (v : V) (j : Bytes)
      → get_rec (node key nil (some v)) j ≡ (if bytes_eq j key then some v else none)
  unfolding get_rec
  get_rec_leaf key v j =
      get_rec-strip key nil (some v) j
      ∙ beyond_agree none key [] j (get_rem (some v) (get_child nil)) (λ _. none) (some v)
          (elim [ [] ↦ refl | x ∷ r ↦ refl ])
      ∙ ap (λ t. if bytes_eq j t then some v else beyond (strip key j) (λ _. none) none)
          (append-nil key)
      ∙ ap (λ t. if bytes_eq j key then some v else t) (beyond-none (strip key j))

  -- `o` is the node that an insertion of `v` at `key` into `n` returns: every key reads as before
  -- but for `key`, which reads `v`.
  pub record Inserted (o : Option (RadixNode V)) (n : RadixNode V) (key : Bytes) (v : V)
      : Type ℓ where
    pub result : RadixNode V
    pub runs : o ≡ some result
    pub reads : (j : Bytes) → get_rec result j ≡ (if bytes_eq j key then some v else get_rec n j)

  pub record Modified (o : Option (Children V)) (cs : Children V) (next : ℕ) (key : Bytes) (v : V)
      : Type ℓ where
    pub result : Children V
    pub runs : o ≡ some result
    pub reads :
        (x : ℕ) (r : Bytes)
        → get_child result x r ≡ (
            if x == next
            then (if bytes_eq r key then some v else get_child cs x r)
            else get_child cs x r)

  pub modify_child-Modified :
      (f : ℕ) (rec : RadixNode V → Option (RadixNode V)) (next : ℕ) (key : Bytes) (v : V)
      → ((c : RadixNode V) → height c ≤ f → Inserted (rec c) c key v)
      → (cs : Children V) → heights cs ≤ f
      → has_child cs next ≡ true
      → Modified (modify_child rec cs next) cs next key v
  unfolding modify_child has_child height get_rec
  modify_child-Modified f rec next key v step nil low found = cc
  modify_child-Modified f rec next key v step (cons b child rest) low found =
      elim (Bool-cases (b == next)) [
        | inl e ↦
            let i = step child (omega arith) in
            record {
              result = cons b i.result rest;
              runs = rw (e, i.runs);
              reads = λ x r. ground (arith, i.reads r);
            }
        | inr e ↦
            let i = modify_child-Modified f rec next key v step rest (omega arith) (ground arith) in
            record {
              result = cons b child i.result;
              runs = rw (e, i.runs);
              reads = λ x r. ground (arith, i.reads x r);
            }
      ]
