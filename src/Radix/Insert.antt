-- ===== src/Radix/Insert.antt =====
-- data_structures/radix.rs: `insert_rec` puts the value at its key and changes no other key; with
-- fuel for the height of the node it ends.
use redrum_db.Base.{
  ℕ, zero, suc, ◌≤◌, ◌≡◌, refl, ap, sym, ◌∙◌, true, Option, none, some, [], ◌∷◌, ◌++◌, arith, Bytes,
  length, drop, take-append, drop-append, ◌==◌, if◌then◌else◌, bytes_eq, length-append, Bool-cases,
  inl, inr, ==_iff, append-nil, lt→ltb, ltb-false, ==_refl,
}
use mathlib.Core.Path.{fun_ext}
use redrum_db.Radix.{
  RadixNode, Children, node, nil, cons, get_rem, get_rec, get_child, split, has_child, push_child,
  sort_children, insert_rem, insert_rec, height, heights,
}
use redrum_db.Radix.Strip.{
  strip, beyond, starts_with-strip, strip-append, beyond_agree, Diverge, lcp-Common,
}
use redrum_db.Radix.Siblings.{
  get_rec-strip, get_child-sort_children, get_child-push_child, get_child_absent, get_rec_leaf,
  Inserted, modify_child-Modified,
}

module _ {ℓ} {V : Type ℓ} where
  -- The part of an insertion behind the split, on a node whose prefix has been taken off the keys.
  record Placed (o : Option (RadixNode V)) (prefix : Bytes) (h : Bytes → Option V) (rem : Bytes)
      (v : V) : Type ℓ where
    children : Children V
    value : Option V
    runs : o ≡ some (node prefix children value)
    reads :
        (r : Bytes)
        → get_rem value (get_child children) r ≡ (if bytes_eq r rem then some v else h r)

  insert_rem-Placed :
      (f : ℕ) (rec : RadixNode V → Bytes → Option (RadixNode V)) (v : V)
      → ((c : RadixNode V) (key : Bytes) → height c ≤ f → Inserted (rec c key) c key v)
      → (prefix : Bytes) (cs : Children V) (value : Option V) (rem : Bytes)
      → ((x : ℕ) (r : Bytes) → rem ≡ x ∷ r → has_child cs x ≡ true → heights cs ≤ f)
      → Placed
          (insert_rem rec (node prefix cs value) rem v)
          prefix
          (get_rem value (get_child cs))
          rem
          v
  unfolding insert_rem get_rem
  insert_rem-Placed f rec v step prefix cs value [] low = record {
    children = cs;
    value = some v;
    runs = refl;
    reads = elim [ [] ↦ refl | x ∷ r ↦ refl ];
  }
  insert_rem-Placed f rec v step prefix cs value (next ∷ rem) low =
      elim (Bool-cases (has_child cs next)) [
        | inl e ↦
            let m =
              modify_child-Modified f (λ c. rec c (next ∷ rem)) next (next ∷ rem) v
                (λ c. step c (next ∷ rem)) cs (low next rem refl e) e in
            record {
              children = m.result;
              value = value;
              runs = rw (e, m.runs);
              reads = elim [ [] ↦ refl | x ∷ r ↦ ground (arith, m.reads x (x ∷ r)) ];
            }
        | inr e ↦
            let new = node (next ∷ rem) nil (some v) in
            record {
              children = sort_children (push_child cs next new);
              value = value;
              runs = rw e;
              reads = elim [
                | [] ↦ refl
                | x ∷ r ↦
                    get_child-sort_children (push_child cs next new) x (x ∷ r)
                    ∙ get_child-push_child cs next new x (x ∷ r) e
                    ∙ ground (
                      arith,
                      get_rec_leaf (next ∷ rem) v (x ∷ r),
                      get_child_absent cs next x (x ∷ r) e,
                    )
              ];
            }
      ]

  -- What is placed behind a prefix is inserted at the whole key.
  Placed-Inserted :
      {o : Option (RadixNode V)} (c : Bytes) (cs : Children V) (value : Option V) (k : Bytes)
      (v : V)
      → Placed o c (get_rem value (get_child cs)) k v
      → Inserted o (node c cs value) (c ++ k) v
  Placed-Inserted c cs value k v p = record {
    result = node c p.children p.value;
    runs = p.runs;
    reads = λ j.
        get_rec-strip c p.children p.value j
        ∙ beyond_agree none c k j _ (get_rem value (get_child cs)) (some v) p.reads
        ∙ ap (λ t. if bytes_eq j (c ++ k) then some v else t) (sym (get_rec-strip c cs value j));
  }

  hung_reads :
      (b : ℕ) (p : Bytes) (cs : Children V) (value : Option V) (r : Bytes)
      → get_rem none (get_child (cons b (node (b ∷ p) cs value) nil)) r
        ≡ beyond (strip (b ∷ p) r) (get_rem value (get_child cs)) none
  unfolding get_rec
  hung_reads b p cs value [] = refl
  hung_reads b p cs value (x ∷ r) = elim (Bool-cases (x == b)) [
    | inl e ↦
        rw ((==_iff x b).0 e, ==_refl b) (starts_with-strip none p r (get_rem value (get_child cs)))
    | inr e ↦ ground arith
  ]

  pub split_end :
      (c : Bytes) (cs : Children V) (value : Option V)
      → split (length c) (c ++ []) cs value ≡ node c cs value
  unfolding split
  split_end c cs value = rw (append-nil c, ltb-false (length c) (length c) (omega arith))

  pub split_inside :
      (c : Bytes) (b : ℕ) (p : Bytes) (cs : Children V) (value : Option V)
      → split (length c) (c ++ (b ∷ p)) cs value ≡ node c (cons b (node (b ∷ p) cs value) nil) none
  unfolding split
  split_inside c b p cs value = rw (
    lt→ltb (length c) (length (c ++ (b ∷ p))) (omega (arith, length-append c (b ∷ p))),
    take-append c (b ∷ p),
    drop-append c (b ∷ p),
  )

  -- A split node reads as the node did.
  split_reads :
      (c : Bytes) (b : ℕ) (p : Bytes) (cs : Children V) (value : Option V) (j : Bytes)
      → get_rec (node c (cons b (node (b ∷ p) cs value) nil) none) j
        ≡ get_rec (node (c ++ (b ∷ p)) cs value) j
  split_reads c b p cs value j =
      get_rec-strip c _ none j
      ∙ ap (λ g. beyond (strip c j) g none) (fun_ext (hung_reads b p cs value))
      ∙ sym (strip-append none c (b ∷ p) j _)
      ∙ sym (get_rec-strip (c ++ (b ∷ p)) cs value j)

  -- The byte of the new child is not the next byte of the key.
  hung_apart :
      (b : ℕ) (p k : Bytes) (cs : Children V) (value : Option V) (x : ℕ) (r : Bytes)
      → Diverge (b ∷ p) k
      → k ≡ x ∷ r
      → ¬ (has_child (cons b (node (b ∷ p) cs value) nil) x ≡ true)
  unfolding has_child
  hung_apart b p [] cs value x r apart e h = cc
  hung_apart b p (y ∷ k) cs value x r apart e h = ground arith

  Inserted-reads :
      {o : Option (RadixNode V)} (m n : RadixNode V) (key : Bytes) (v : V)
      → ((j : Bytes) → get_rec m j ≡ get_rec n j)
      → Inserted o m key v
      → Inserted o n key v
  Inserted-reads m n key v same i = record {
    result = i.result;
    runs = i.runs;
    reads = λ j. i.reads j ∙ ap (λ t. if bytes_eq j key then some v else t) (same j);
  }

  module _ (f : ℕ) (rec : RadixNode V → Bytes → Option (RadixNode V)) (v : V)
      (step : (c : RadixNode V) (key : Bytes) → height c ≤ f → Inserted (rec c key) c key v) where
    insert_split-Inserted :
        (c p k : Bytes) (cs : Children V) (value : Option V)
        → Diverge p k
        → heights cs ≤ f
        → Inserted
            (insert_rem rec (split (length c) (c ++ p) cs value) k v)
            (node (c ++ p) cs value)
            (c ++ k)
            v
    insert_split-Inserted c [] k cs value apart low =
        rw (split_end c cs value, append-nil c)
          (Placed-Inserted c cs value k v
            (insert_rem-Placed f rec v step c cs value k (λ x r e h. low)))
    insert_split-Inserted c (b ∷ p) k cs value apart low =
        let hung = cons b (node (b ∷ p) cs value) nil in
        rw (split_inside c b p cs value) (
          Inserted-reads (node c hung none) (node (c ++ (b ∷ p)) cs value) (c ++ k) v
            (split_reads c b p cs value)
            (Placed-Inserted c hung none k v (
              insert_rem-Placed f rec v step c hung none k
                (λ x r e h. absurd (hung_apart b p k cs value x r apart e h)))))

    insert_at-Inserted :
        (p key : Bytes) (cs : Children V) (value : Option V) (shared rest_p rest_k : Bytes)
        → p ≡ shared ++ rest_p
        → key ≡ shared ++ rest_k
        → Diverge rest_p rest_k
        → heights cs ≤ f
        → Inserted
            (insert_rem rec (split (length shared) p cs value) (drop (length shared) key) v)
            (node p cs value)
            key
            v
    insert_at-Inserted p key cs value shared rest_p rest_k e e' apart low =
        rw (e, e', drop-append shared rest_k)
          (insert_split-Inserted shared rest_p rest_k cs value apart low)

  -- The whole of `insert_rec`, with fuel for the height of the node.
  pub insert_rec-Inserted :
      (f : ℕ) (n : RadixNode V) (key : Bytes) (v : V)
      → height n ≤ f
      → Inserted (insert_rec f n key v) n key v
  unfolding insert_rec height
  insert_rec-Inserted zero (node p cs value) key v low = absurd (omega arith)
  insert_rec-Inserted (suc f) (node p cs value) key v low =
      let c = lcp-Common p key in
      rw c.lcp_eq (
        unfold split in
        insert_at-Inserted f (λ child rest. insert_rec f child rest v) v
          (λ n k. insert_rec-Inserted f n k v) p key cs value c.shared c.rest_p c.rest_k c.p_eq
          c.k_eq c.apart (omega arith))
