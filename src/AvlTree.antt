-- ===== src/AvlTree.antt =====
-- Trees/AVLTree.c.
pub mod Balance
pub mod Insertion
pub mod Repair
pub mod Deletion
pub mod Order
pub mod Menu
pub mod Height
use iitm.Prelude.{
  ℕ, zero, suc, ◌+◌, ◌≡◌, refl, Bool, true, false, ◌&&◌, ◌||◌, Option, none, some, ltb,
  if◌then◌else◌, ◌>>=◌,
}
use iitm.Prelude.Int.{ℤ, pos, negsuc, sub_ℕ, leb_ℤ, ltb_ℤ}

-- `struct node *`: `leaf` is NULL.
pub data Tree : Type 0 where
  leaf : Tree
  node : (val : ℤ) (height : ℕ) (left right : Tree) → Tree

unfoldable pub max : ℕ → ℕ → ℕ
max a b = if ltb b a then a else b

abbrev pub get_height : Tree → ℕ
get_height leaf = 0
get_height (node v h l r) = h

abbrev pub get_balance : Tree → ℤ
get_balance leaf = pos 0
get_balance (node v h l r) = sub_ℕ (get_height l) (get_height r)

unfoldable pub new_node : ℤ → Tree
new_node val = node val 1 leaf leaf

-- the node with its height recomputed from its children
abbrev pub updated : ℤ → Tree → Tree → Tree
updated v l r = node v (max (get_height l) (get_height r) + 1) l r

unfoldable pub rotate_right : Tree → Option Tree
rotate_right (node y_val y_height (node x_val x_height l t2) r) =
    some (updated x_val l (updated y_val t2 r))
rotate_right _ = none

unfoldable pub rotate_left : Tree → Option Tree
rotate_left (node x_val x_height l (node y_val y_height t2 r)) =
    some (updated y_val (updated x_val l t2) r)
rotate_left _ = none

-- `test && val < n->val` and `test && val > n->val`
abbrev pub and_below : Bool → ℤ → Tree → Option Bool
and_below false val n = some false
and_below true val leaf = none
and_below true val (node v h l r) = some (ltb_ℤ val v)

abbrev pub and_above : Bool → ℤ → Tree → Option Bool
and_above false val n = some false
and_above true val leaf = none
and_above true val (node v h l r) = some (ltb_ℤ v val)

-- the end of `insert`, from the update of the height on
unfoldable pub rebalance : ℤ → ℤ → Tree → Tree → Option Tree
rebalance val v l r =
    let root = updated v l r in
    let balance = get_balance root in
    do
      ll ← and_below (ltb_ℤ (pos 1) balance) val l
      if ll then rotate_right root else do
        rr ← and_above (ltb_ℤ balance (negsuc 0)) val r
        if rr then rotate_left root else do
          lr ← and_above (ltb_ℤ (pos 1) balance) val l
          if lr then (do l' ← rotate_left l; rotate_right (node v (get_height root) l' r)) else do
            rl ← and_below (ltb_ℤ balance (negsuc 0)) val r
            if rl
                then (do r' ← rotate_right r; rotate_left (node v (get_height root) l r'))
                else some root

unfoldable pub insert : Tree → ℤ → Option Tree
insert leaf val = some (new_node val)
insert (node v h l r) val =
    let to_left = insert l val >>= λ l'. rebalance val v l' r in
    let to_right = insert r val >>= λ r'. rebalance val v l r' in
    if ltb_ℤ val v then to_left else if ltb_ℤ v val then to_right else some (node v h l r)

-- `findMin(n)->val`; `none` stands for the read through the null pointer
unfoldable pub find_min : Tree → Option ℤ
find_min leaf = none
find_min (node v h leaf r) = some v
find_min (node v h (node lv lh ll lr) r) = find_min (node lv lh ll lr)

abbrev pub is_null : Tree → Bool
is_null leaf = true
is_null (node v h l r) = false

-- the end of `deleteNode`, from the update of the height on
unfoldable pub repair : ℤ → Tree → Tree → Option Tree
repair v l r =
    let root = updated v l r in
    let balance = get_balance root in
    if ltb_ℤ (pos 1) balance && leb_ℤ (pos 0) (get_balance l)
    then rotate_right root
    else if ltb_ℤ (pos 1) balance && ltb_ℤ (get_balance l) (pos 0)
    then (do l' ← rotate_left l; rotate_right (node v (get_height root) l' r))
    else if ltb_ℤ balance (negsuc 0) && leb_ℤ (get_balance r) (pos 0)
    then rotate_left root
    else if ltb_ℤ balance (negsuc 0) && ltb_ℤ (pos 0) (get_balance r)
    then (do r' ← rotate_right r; rotate_left (node v (get_height root) l r'))
    else some root

unfoldable pub delete_node : Tree → ℤ → Option Tree
delete_node leaf val = some leaf
delete_node (node v h l r) val =
    let to_left = delete_node l val >>= λ l'. repair v l' r in
    let to_right = delete_node r val >>= λ r'. repair v l r' in
    let here = find_min r >>= λ m. delete_node r m >>= λ r'. repair m l r' in
    if ltb_ℤ val v
    then to_left
    else if ltb_ℤ v val
    then to_right
    else if is_null l || is_null r
    then some (if is_null l then r else l)
    else here
