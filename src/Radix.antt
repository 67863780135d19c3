-- ===== src/Radix.antt =====
-- data_structures/radix.rs: the radix tree with prefix compression, generic in the value.
-- `&mut self` operations return the new tree. The loop over `node.children` is a recursion on the
-- list of children, and the recursive call is passed to it as a function.
pub mod Strip
mod Siblings
mod Insert
pub mod Wf
pub mod Shape
pub mod Lookup
mod Tests
use Prim.Native.Nat.{max}
use mathlib.Core.Option
use redrum_db.Base.{
  ℕ, zero, suc, Bool, true, false, Option, none, some, [], ◌∷◌, ◌&&◌, Bytes, length, take, drop,
  ltb, leb, ◌==◌, if◌then◌else◌,
}

-- `RadixNode<V>`: the prefix, the children with their first bytes, and the value.
mutual
  pub data RadixNode {ℓ} (V : Type ℓ) : Type ℓ where
    node : Bytes → Children V → Option V → RadixNode V

  pub data Children {ℓ} (V : Type ℓ) : Type ℓ where
    nil : Children V
    cons : ℕ → RadixNode V → Children V → Children V

-- `slice::starts_with`
unfoldable pub starts_with : Bytes → Bytes → Bool
starts_with key [] = true
starts_with [] (p ∷ ps) = false
starts_with (k ∷ ks) (p ∷ ps) = k == p && starts_with ks ps

-- The loop of `lcp`; the bound `a.len().min(b.len())` is the end of the shorter list.
unfoldable pub lcp : Bytes → Bytes → ℕ
lcp [] b = 0
lcp (x ∷ a) [] = 0
lcp (x ∷ a) (y ∷ b) = if x == y then suc (lcp a b) else 0

module _ {ℓ} {V : Type ℓ} where
  -- What `get_rec` does with the remainder of the key: the node's value where it is empty, and the
  -- loop over the children, for its first byte, where it is not.
  unfoldable pub get_rem : Option V → (ℕ → Bytes → Option V) → Bytes → Option V
  get_rem value loop [] = value
  get_rem value loop (next ∷ rem) = loop next (next ∷ rem)

  unfoldable mutual
    unfolding get_rem starts_with

    pub get_rec : RadixNode V → Bytes → Option V
    get_rec (node prefix children value) key =
        if starts_with key prefix
        then get_rem value (get_child children) (drop (length prefix) key)
        else none

    pub get_child : Children V → ℕ → Bytes → Option V
    get_child nil next rem = none
    get_child (cons b child rest) next rem =
        if b == next then get_rec child rem else get_child rest next rem

  -- The child that a split hangs under the shortened node, with `child.prefix[0]` as its byte.
  unfoldable pub hang : Bytes → Children V → Option V → Children V
  hang [] children value = nil
  hang (b ∷ prefix) children value = cons b (node (b ∷ prefix) children value) nil

  -- The first `if` of `insert_rec`: a node whose prefix goes on behind the common part is split.
  unfoldable pub split : ℕ → Bytes → Children V → Option V → RadixNode V
  unfolding hang
  split common prefix children value =
      if ltb common (length prefix)
      then node (take common prefix) (hang (drop common prefix) children value) none
      else node prefix children value

  -- Whether the loop over the children finds the byte.
  unfoldable pub has_child : Children V → ℕ → Bool
  has_child nil next = false
  has_child (cons b child rest) next = if b == next then true else has_child rest next

  -- The loop with the recursive call on the first child that has the byte.
  unfoldable pub modify_child :
      (RadixNode V → Option (RadixNode V)) → Children V → ℕ → Option (Children V)
  modify_child rec nil next = some nil
  modify_child rec (cons b child rest) next =
      if b == next
      then Option.map (λ c. cons b c rest) (rec child)
      else Option.map (λ r. cons b child r) (modify_child rec rest next)

  -- `node.children.push((next, new_node))`
  unfoldable pub push_child : Children V → ℕ → RadixNode V → Children V
  push_child nil next new = cons next new nil
  push_child (cons b child rest) next new = cons b child (push_child rest next new)

  -- `sort_by_key`, a stable sort: an entry goes in front of those behind it that are not smaller.
  unfoldable pub insert_sorted : ℕ → RadixNode V → Children V → Children V
  insert_sorted b child nil = cons b child nil
  insert_sorted b child (cons c other rest) =
      if leb b c
      then cons b child (cons c other rest)
      else cons c other (insert_sorted b child rest)

  unfoldable pub sort_children : Children V → Children V
  unfolding insert_sorted
  sort_children nil = nil
  sort_children (cons b child rest) = insert_sorted b child (sort_children rest)

  -- The rest of `insert_rec`, on the node after the split and `key[common..]`, which is empty
  -- exactly where `common == key.len()`.
  unfoldable pub insert_rem :
      (RadixNode V → Bytes → Option (RadixNode V)) → RadixNode V → Bytes → V → Option (RadixNode V)
  unfolding has_child modify_child push_child sort_children
  insert_rem rec (node prefix children value) [] v = some (node prefix children (some v))
  insert_rem rec (node prefix children value) (next ∷ rem) v =
      if has_child children next
      then Option.map (λ cs. node prefix cs value)
          (modify_child (λ child. rec child (next ∷ rem)) children next)
      else some (
          node prefix (sort_children (push_child children next (node (next ∷ rem) nil (some v))))
            value)

  -- On fuel; `none` means that the fuel ran out.
  unfoldable pub insert_rec : ℕ → RadixNode V → Bytes → V → Option (RadixNode V)
  unfolding lcp split insert_rem
  insert_rec zero n key v = none
  insert_rec (suc fuel) (node prefix children value) key v =
      let common = lcp prefix key in
      insert_rem (λ child rest. insert_rec fuel child rest v) (split common prefix children value)
        (drop common key) v

  -- What a write through the `&mut V` of `get` does, with `loop` for the loop over the children.
  unfoldable pub write_rem :
      Bytes → Children V → Option V → (ℕ → Bytes → Children V) → Bytes → V → RadixNode V
  write_rem prefix children value loop [] w = node prefix children (Option.map (λ _. w) value)
  write_rem prefix children value loop (next ∷ rem) w = node prefix (loop next (next ∷ rem)) value

  -- The tree after `*r = w`, where `r` is the reference that `get_rec` returns for the key.
  unfoldable mutual
    unfolding write_rem starts_with

    pub write_rec : RadixNode V → Bytes → V → RadixNode V
    write_rec (node prefix children value) key w =
        if starts_with key prefix
        then write_rem prefix children value (λ next rem. write_child children next rem w)
            (drop (length prefix) key) w
        else node prefix children value

    pub write_child : Children V → ℕ → Bytes → V → Children V
    write_child nil next rem w = nil
    write_child (cons b child rest) next rem w =
        if b == next
        then cons b (write_rec child rem w) rest
        else cons b child (write_child rest next rem w)

  -- The number of nodes on the longest path.
  unfoldable mutual
    pub height : RadixNode V → ℕ
    height (node prefix children value) = suc (heights children)

    pub heights : Children V → ℕ
    heights nil = 0
    heights (cons b child rest) = max (height child) (heights rest)

-- `RadixTree<V>`
pub record RadixTree {ℓ} (V : Type ℓ) : Type ℓ where
  pub root : RadixNode V

module _ {ℓ} {V : Type ℓ} where
  unfoldable pub new : RadixTree V
  new = record { root = node [] nil none }

  unfoldable pub insert : RadixTree V → Bytes → V → Option (RadixTree V)
  unfolding insert_rec height
  insert tree key v =
      Option.map (λ n. record { root = n }) (insert_rec (height tree.root) tree.root key v)

  unfoldable pub get : RadixTree V → Bytes → Option V
  unfolding get_rec
  get tree key = get_rec tree.root key

  unfoldable pub write : RadixTree V → Bytes → V → RadixTree V
  unfolding write_rec
  write tree key w = record { root = write_rec tree.root key w }
