-- ===== src/Radix/Wf.antt =====
-- data_structures/radix.rs: the shape of the tree. Children are sorted strictly by their byte, each
-- child's prefix begins with its byte, and no node but the root could be merged with its only
-- child: it has a value or two children.
use redrum_db.Base.{
  ℕ, suc, ◌+◌, ◌≤◌, ◌<◌, ◌≡◌, ◌≢◌, refl, ap, ◌∙◌, true, false, Option, none, some, [], ◌∷◌, arith,
  ◌==◌, if◌then◌else◌,
}
use redrum_db.Radix.{
  RadixNode, Children, node, nil, cons, has_child, push_child, insert_sorted, sort_children,
  RadixTree, new,
}

module _ {ℓ} {V : Type ℓ} where
  -- The prefix begins with the byte.
  abbrev pub Heads : ℕ → RadixNode V → Type 0
  Heads b (node [] cs value) = ⊥
  Heads b (node (x ∷ p) cs value) = x ≡ b

  abbrev pub count : Children V → ℕ
  count nil = 0
  count (cons b n rest) = suc (count rest)

  -- What a value counts towards not being mergeable.
  abbrev pub worth : Option V → ℕ
  worth none = 0
  worth (some v) = 2

  pub worth-le : (value : Option V) → worth value ≤ 2
  worth-le none = omega arith
  worth-le (some v) = omega arith

  -- Every byte of the list is above `b`.
  abbrev pub Above : ℕ → Children V → Type 0
  Above b nil = Unit
  Above b (cons c n rest) = (b < c) × Above b rest

  abbrev mutual
    pub WfNode : RadixNode V → Type 0
    WfNode (node p cs value) = (2 ≤ count cs + worth value) × WfChildren cs

    pub WfChildren : Children V → Type 0
    WfChildren nil = Unit
    WfChildren (cons b n rest) = Heads b n × Above b rest × WfNode n × WfChildren rest

  -- The tree of a `RadixTree`: its root has no prefix.
  abbrev pub WfRoot : RadixNode V → Type 0
  WfRoot (node p cs value) = (p ≡ []) × WfChildren cs

  abbrev pub IsWf : RadixTree V → Type 0
  IsWf t = WfRoot t.root

  pub Above-insert_sorted :
      (a b : ℕ) (n : RadixNode V) (cs : Children V)
      → a < b
      → Above a cs
      → Above a (insert_sorted b n cs)
  unfolding insert_sorted
  Above-insert_sorted a b n nil h above = (h, tt)
  Above-insert_sorted a b n (cons c m rest) h above =
      ground (arith, Above-insert_sorted a b n rest h)

  pub Above-trans : (a b : ℕ) (cs : Children V) → a < b → Above b cs → Above a cs
  Above-trans a b nil h above = tt
  Above-trans a b (cons c n rest) h above = (omega arith, Above-trans a b rest h above.1)

  -- Inserting a byte that is not there keeps a list sorted.
  pub WfChildren-insert_sorted :
      (b : ℕ) (n : RadixNode V) (cs : Children V)
      → Heads b n
      → WfNode n
      → has_child cs b ≡ false
      → WfChildren cs
      → WfChildren (insert_sorted b n cs)
  unfolding insert_sorted has_child
  WfChildren-insert_sorted b n nil h w new wf = (h, tt, w, tt)
  WfChildren-insert_sorted b n (cons c m rest) h w new wf = ground (
    arith,
    Above-trans b c rest,
    Above-insert_sorted c b n rest,
    WfChildren-insert_sorted b n rest h w,
  )

  pub Above-has_child : (b : ℕ) (cs : Children V) → Above b cs → has_child cs b ≡ false
  unfolding has_child
  Above-has_child b nil above = refl
  Above-has_child b (cons c n rest) above =
      ground (arith, Above-trans b c rest, Above-has_child b rest)

  pub has_child-insert_sorted :
      (b : ℕ) (n : RadixNode V) (cs : Children V) (x : ℕ)
      → has_child (insert_sorted b n cs) x ≡ (if b == x then true else has_child cs x)
  unfolding insert_sorted has_child
  has_child-insert_sorted b n nil x = refl
  has_child-insert_sorted b n (cons c m rest) x = ground (arith, has_child-insert_sorted b n rest x)

  pub has_child-sort_push :
      (cs : Children V) (b : ℕ) (n : RadixNode V) (x : ℕ)
      → b ≢ x
      → has_child (sort_children (push_child cs b n)) x ≡ has_child cs x
  unfolding sort_children push_child has_child
  has_child-sort_push nil b n x h = ground arith
  has_child-sort_push (cons c m rest) b n x h = ground (
    arith,
    has_child-insert_sorted c m (sort_children (push_child rest b n)) x,
    has_child-sort_push rest b n x h,
  )

  pub count-insert_sorted :
      (b : ℕ) (n : RadixNode V) (cs : Children V) → count (insert_sorted b n cs) ≡ suc (count cs)
  unfolding insert_sorted
  count-insert_sorted b n nil = refl
  count-insert_sorted b n (cons c m rest) = ground (arith, count-insert_sorted b n rest)

  pub count-sort_push :
      (cs : Children V) (b : ℕ) (n : RadixNode V)
      → count (sort_children (push_child cs b n)) ≡ suc (count cs)
  unfolding sort_children push_child
  count-sort_push nil b n = refl
  count-sort_push (cons c m rest) b n =
      count-insert_sorted c m (sort_children (push_child rest b n))
      ∙ ap suc (count-sort_push rest b n)

  -- Pushing a new child and sorting restores the order.
  pub WfChildren-sort_push :
      (cs : Children V) (b : ℕ) (n : RadixNode V)
      → Heads b n
      → WfNode n
      → has_child cs b ≡ false
      → WfChildren cs
      → WfChildren (sort_children (push_child cs b n))
  unfolding sort_children push_child
  WfChildren-sort_push nil b n h w new wf = (h, tt, w, tt)
  WfChildren-sort_push (cons c m rest) b n h w new wf =
      WfChildren-insert_sorted c m (sort_children (push_child rest b n)) wf.0 wf.2
        (has_child-sort_push rest b n c (unfold has_child in ground arith)
          ∙ Above-has_child c rest wf.1)
        (WfChildren-sort_push rest b n h w (unfold has_child in ground arith) wf.3)
