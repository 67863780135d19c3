-- ===== src/Radix/Shape.antt =====
-- data_structures/radix.rs: insertion keeps the shape of the tree.
use redrum_db.Base.{
  ℕ, zero, suc, ◌+◌, ◌≤◌, ◌≡◌, map-eq-some, refl, ap, false, Option, none, some, [], ◌∷◌, ◌++◌,
  drop-append, arith, Bytes, length, drop, ◌==◌, Bool-cases, inl, inr, ==_iff,
}
use redrum_db.Radix.{
  RadixNode, Children, node, nil, cons, split, has_child, modify_child, push_child, sort_children,
  insert_rem, insert_rec, height, RadixTree, new, insert,
}
use redrum_db.Radix.Strip.{Diverge, lcp-Common}
use redrum_db.Radix.Insert.{split_end, split_inside}
use redrum_db.Radix.Wf.{
  Heads, count, worth, Above, WfNode, WfChildren, WfRoot, IsWf, worth-le, count-sort_push,
  WfChildren-sort_push,
}

module _ {ℓ} {V : Type ℓ} where
  -- What the recursive call keeps of a child: the byte and the shape.
  abbrev KeepsWf : (RadixNode V → Bytes → Option (RadixNode V)) → Type ℓ
  KeepsWf rec =
      (c : RadixNode V) (x : ℕ) (r : Bytes) (c' : RadixNode V)
      → Heads x c
      → WfNode c
      → rec c (x ∷ r) ≡ some c'
      → Heads x c' × WfNode c'

  abbrev Fresh : Children V → Bytes → Type 0
  Fresh cs [] = Unit
  Fresh cs (x ∷ r) = has_child cs x ≡ false

  module _ (rec : RadixNode V → Bytes → Option (RadixNode V)) (keeps : KeepsWf rec) where
    Above-modify_child :
        (cs : Children V) (next : ℕ) (r : Bytes) (cs' : Children V) (a : ℕ)
        → modify_child (λ c. rec c r) cs next ≡ some cs'
        → Above a cs
        → Above a cs'
    unfolding modify_child
    Above-modify_child nil next r cs' a run above = ground arith
    Above-modify_child (cons b n rest) next r cs' a run above = elim (Bool-cases (b == next)) [
      | inl e ↦
          let (n', _, ec) = map-eq-some (λ c. cons b c rest) (rec n r) (rw e at run) in rw ec above
      | inr e ↦
          let (rest', er, ec) =
            map-eq-some (λ t. cons b n t) (modify_child (λ c. rec c r) rest next) (rw e at run) in
          rw ec (above.0, Above-modify_child rest next r rest' a er above.1)
    ]

    WfChildren-modify_child :
        (cs : Children V) (next : ℕ) (r : Bytes) (cs' : Children V)
        → modify_child (λ c. rec c (next ∷ r)) cs next ≡ some cs'
        → WfChildren cs
        → WfChildren cs' × (count cs' ≡ count cs)
    unfolding modify_child
    WfChildren-modify_child nil next r cs' run wf = ground arith
    WfChildren-modify_child (cons b n rest) next r cs' run wf = elim (Bool-cases (b == next)) [
      | inl e ↦
          let (n', en, ec) = map-eq-some (λ c. cons b c rest) (rec n (next ∷ r)) (rw e at run) in
          let eb : b ≡ next = (==_iff b next).0 e in
          let (h, w) = keeps n next r n' (rw (← eb) wf.0) wf.2 en in
          rw ec (((rw eb h), wf.1, w, wf.3), refl)
      | inr e ↦
          let (rest', er, ec) =
            map-eq-some (λ t. cons b n t) (modify_child (λ c. rec c (next ∷ r)) rest next)
              (rw e at run) in
          let (w, n_eq) = WfChildren-modify_child rest next r rest' er wf.3 in
          rw ec
            ((wf.0, Above-modify_child rest next (next ∷ r) rest' b er wf.1, wf.2, w), ap suc n_eq)
    ]

    -- The node that `insert_rem` returns: its children are well formed, and it is no closer to being
    -- mergeable; where no child is descended into it has one more child or a value.
    record Grown (n' : RadixNode V) (p : Bytes) (cs : Children V) (value : Option V) (rem : Bytes)
        : Type ℓ where
      children : Children V
      value' : Option V
      is : n' ≡ node p children value'
      wf : WfChildren children
      grows : count cs + worth value ≤ count children + worth value'
      fresh : Fresh cs rem → suc (count cs) ≤ count children + worth value'

    insert_rem-Grown :
        (p : Bytes) (cs : Children V) (value : Option V) (rem : Bytes) (v : V) (n' : RadixNode V)
        → WfChildren cs
        → insert_rem rec (node p cs value) rem v ≡ some n'
        → Grown n' p cs value rem
    unfolding insert_rem
    insert_rem-Grown p cs value [] v n' wf run = record {
      children = cs;
      value' = some v;
      is = ground arith;
      wf = wf;
      grows = omega (arith, worth-le value);
      fresh = λ h. omega arith;
    }
    insert_rem-Grown p cs value (next ∷ rem) v n' wf run = elim (Bool-cases (has_child cs next)) [
      | inl e ↦
          let (cs', ec, en) =
            map-eq-some (λ t. node p t value) (modify_child (λ c. rec c (next ∷ rem)) cs next)
              (rw e at run) in
          let (w, n_eq) = WfChildren-modify_child cs next rem cs' ec wf in
          record {
            children = cs';
            value' = value;
            is = en;
            wf = w;
            grows = omega arith;
            fresh = λ h. ground arith;
          }
      | inr e ↦
          let new = node (next ∷ rem) nil (some v) in
          let run' : some (node p (sort_children (push_child cs next new)) value) ≡ some n' =
            rw e at run in
          record {
            children = sort_children (push_child cs next new);
            value' = value;
            is = cc;
            wf = WfChildren-sort_push cs next new refl (omega arith, tt) e wf;
            grows = omega (arith, count-sort_push cs next new);
            fresh = λ h. omega (arith, count-sort_push cs next new);
          }
    ]

    -- The two cases of the split, with the key's rest behind the common part.
    insert_end-Grown :
        (c : Bytes) (cs : Children V) (value : Option V) (k : Bytes) (v : V) (n' : RadixNode V)
        → WfChildren cs
        → insert_rem rec (split (length c) (c ++ []) cs value) k v ≡ some n'
        → Grown n' c cs value k
    insert_end-Grown c cs value k v n' wf run =
        insert_rem-Grown c cs value k v n' wf (rw (split_end c cs value) at run)

    insert_inside-Grown :
        (c : Bytes) (b : ℕ) (p : Bytes) (cs : Children V) (value : Option V) (k : Bytes) (v : V)
        (n' : RadixNode V)
        → WfNode (node (b ∷ p) cs value)
        → insert_rem rec (split (length c) (c ++ (b ∷ p)) cs value) k v ≡ some n'
        → Grown n' c (cons b (node (b ∷ p) cs value) nil) none k
    insert_inside-Grown c b p cs value k v n' wf run =
        insert_rem-Grown c _ none k v n' (refl, tt, wf, tt)
          (rw (split_inside c b p cs value) at run)

    hung-Fresh :
        (b : ℕ) (p k : Bytes) (cs : Children V) (value : Option V)
        → Diverge (b ∷ p) k
        → Fresh (cons b (node (b ∷ p) cs value) nil) k
    hung-Fresh b p [] cs value apart = tt
    hung-Fresh b p (x ∷ k) cs value apart = unfold has_child in ground arith

    -- A node that is well formed below a byte stays so.
    insert_split-Wf :
        (c p : Bytes) (cs : Children V) (value : Option V) (k : Bytes) (v : V) (x : ℕ)
        (n' : RadixNode V)
        → Diverge p k
        → Heads x (node c cs value)
        → WfNode (node (c ++ p) cs value)
        → insert_rem rec (split (length c) (c ++ p) cs value) k v ≡ some n'
        → Heads x n' × WfNode n'
    insert_split-Wf [] p cs value k v x n' apart h wf run = absurd h
    insert_split-Wf (y ∷ c) [] cs value k v x n' apart h wf run =
        let g = insert_end-Grown (y ∷ c) cs value k v n' wf.1 run in
        let bound = g.grows in rw g.is (h, (omega arith, g.wf))
    insert_split-Wf (y ∷ c) (b ∷ p) cs value k v x n' apart h wf run =
        let g = insert_inside-Grown (y ∷ c) b p cs value k v n' wf run in
        let bound = g.fresh (hung-Fresh b p k cs value apart) in rw g.is (h, (omega arith, g.wf))

  -- With a common first byte the common part is not empty.
  Common-Heads :
      (p key shared rest_p rest_k : Bytes) (x : ℕ) (r : Bytes) (cs : Children V) (value : Option V)
      → p ≡ shared ++ rest_p
      → x ∷ r ≡ shared ++ rest_k
      → Diverge rest_p rest_k
      → Heads x (node p cs value)
      → Heads x (node shared cs value)
  Common-Heads [] key shared rest_p rest_k x r cs value ep ek apart h = absurd h
  Common-Heads (z ∷ p) key [] rest_p rest_k x r cs value ep ek apart h =
      absurd ((rw (← ep, ← ek) at apart) h)
  Common-Heads (z ∷ p) key (y ∷ shared) rest_p rest_k x r cs value ep ek apart h = ground arith

  module _ (rec : RadixNode V → Bytes → Option (RadixNode V)) (keeps : KeepsWf rec) where
    insert_at-Wf :
        (p key shared rest_p rest_k : Bytes) (cs : Children V) (value : Option V) (v : V) (x : ℕ)
        (n' : RadixNode V)
        → p ≡ shared ++ rest_p
        → key ≡ shared ++ rest_k
        → Diverge rest_p rest_k
        → Heads x (node shared cs value)
        → WfNode (node p cs value)
        → insert_rem rec (split (length shared) p cs value) (drop (length shared) key) v ≡ some n'
        → Heads x n' × WfNode n'
    insert_at-Wf p key shared rest_p rest_k cs value v x n' e e' apart h wf run =
        insert_split-Wf rec keeps shared rest_p cs value rest_k v x n' apart h wf
          (rw (e, e', drop-append shared rest_k) at run)

  insert_rec-Wf :
      (f : ℕ) (c : RadixNode V) (x : ℕ) (r : Bytes) (v : V) (c' : RadixNode V)
      → Heads x c
      → WfNode c
      → insert_rec f c (x ∷ r) v ≡ some c'
      → Heads x c' × WfNode c'
  unfolding insert_rec
  insert_rec-Wf zero c x r v c' h wf run = cc
  insert_rec-Wf (suc f) (node p cs value) x r v c' h wf run =
      let c = lcp-Common p (x ∷ r) in
      insert_at-Wf (λ child rest. insert_rec f child rest v)
        (λ n y k n'. insert_rec-Wf f n y k v n') p (x ∷ r) c.shared c.rest_p c.rest_k cs value v x
        c' c.p_eq c.k_eq c.apart
        (Common-Heads p (x ∷ r) c.shared c.rest_p c.rest_k x r cs value c.p_eq c.k_eq c.apart h) wf
        (rw c.lcp_eq at run)

  insert_rec-WfRoot :
      (f : ℕ) (n : RadixNode V) (key : Bytes) (v : V) (n' : RadixNode V)
      → WfRoot n
      → insert_rec f n key v ≡ some n'
      → WfRoot n'
  unfolding insert_rec
  insert_rec-WfRoot zero n key v n' wf run = cc
  insert_rec-WfRoot (suc f) (node [] cs value) key v n' wf run =
      let g =
        insert_rem-Grown (λ child rest. insert_rec f child rest v)
          (λ c x r c'. insert_rec-Wf f c x r v c') [] cs value key v n' wf.1 run in
      rw g.is (refl, g.wf)
  insert_rec-WfRoot (suc f) (node (x ∷ p) cs value) key v n' wf run = cc

  -- An insertion that gives a tree keeps it well formed: every list of children sorted strictly by first byte, each
  -- prefix headed by its byte, and every node below the root with a value or two children.
  pub insert-IsWf :
      (t : RadixTree V) (key : Bytes) (v : V) (t' : RadixTree V)
      → IsWf t
      → insert t key v ≡ some t'
      → IsWf t'
  unfolding insert
  insert-IsWf t key v t' wf run =
      let (n', e, is) =
        map-eq-some {B = RadixTree V} (λ n. record { root = n })
          (insert_rec (height t.root) t.root key v) run in
      rw is (insert_rec-WfRoot (height t.root) t.root key v n' wf e)

pub new-IsWf {ℓ} : (V : Type ℓ) → IsWf (new {V = V})
unfolding new
new-IsWf V = (refl, tt)
