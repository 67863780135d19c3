-- ===== src/Base/Heap.antt =====
-- `BinaryHeap`: what `peek` and `pop` give depends only on the order, so a heap is the list of its elements
-- in the order in which `pop` gives them. `before x y` says that `x` comes out before `y` or is equal to it.
use redrum_db.Base.{Bool, List, [], ◌∷◌, if◌then◌else◌}

unfoldable pub push {ℓ} : {A : Type ℓ} → (A → A → Bool) → A → List A → List A
push before x [] = x ∷ []
push before x (y ∷ q) = if before x y then x ∷ y ∷ q else y ∷ push before x q
