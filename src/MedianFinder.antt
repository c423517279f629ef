-- ===== src/MedianFinder.antt =====
-- LEETCODE PROBLEMS/mediandta.c: a running median over an AVL tree that counts duplicates.
-- `none` is a read through a null pointer, or the overflow of a sum of two values of type `int`.
pub mod Erase
pub mod Items
pub mod Select
pub mod Spec
use iitm.Prelude.{
  ℕ, zero, suc, ◌+◌, ◌-◌, ◌/◌, ◌%◌, Bool, true, false, Option, some, none, ltb, leb, ◌==◌,
  if◌then◌else◌, ◌>>=◌, ◌&&◌, ◌^◌,
}
use iitm.Prelude.Int.{ℤ, pos, negsuc, sub_ℕ, ltb_ℤ, leb_ℤ, ◌+ℤ◌}

-- `AVLNode *`: `null` is NULL
pub data AvlNode : Type 0 where
  null : AvlNode
  avl_node : (val : ℤ) (height count size : ℕ) (left right : AvlNode) → AvlNode

abbrev pub height : AvlNode → ℕ
height null = 0
height (avl_node v h c s l r) = h

abbrev pub size : AvlNode → ℕ
size null = 0
size (avl_node v h c s l r) = s

unfoldable pub max : ℕ → ℕ → ℕ
max a b = if ltb b a then a else b

-- a node after `update`
abbrev pub update : ℤ → ℕ → AvlNode → AvlNode → AvlNode
update v c l r = avl_node v (max (height l) (height r) + 1) c (c + size l + size r) l r

unfoldable pub right_rotate : AvlNode → Option AvlNode
right_rotate
      (avl_node y_val y_height y_count y_size (avl_node x_val x_height x_count x_size l t2) r) =
    some (update x_val x_count l (update y_val y_count t2 r))
right_rotate _ = none

unfoldable pub left_rotate : AvlNode → Option AvlNode
left_rotate
      (avl_node x_val x_height x_count x_size l (avl_node y_val y_height y_count y_size t2 r)) =
    some (update y_val y_count (update x_val x_count l t2) r)
left_rotate _ = none

abbrev pub get_balance : AvlNode → ℤ
get_balance null = pos 0
get_balance (avl_node v h c s l r) = sub_ℕ (height l) (height r)

-- `test && val < node->val` and `test && val > node->val`
abbrev pub and_below : Bool → ℤ → AvlNode → Option Bool
and_below false val n = some false
and_below true val null = none
and_below true val (avl_node v h c s l r) = some (ltb_ℤ val v)

abbrev pub and_above : Bool → ℤ → AvlNode → Option Bool
and_above false val n = some false
and_above true val null = none
and_above true val (avl_node v h c s l r) = some (ltb_ℤ v val)

-- the end of `insert`, from `update(root)` on
unfoldable pub rebalance : ℤ → ℤ → ℕ → AvlNode → AvlNode → Option AvlNode
rebalance val v c l r =
    let root = update v c l r in
    let balance = get_balance root in
    do
      ll ← and_below (ltb_ℤ (pos 1) balance) val l
      if ll then right_rotate root else do
        rr ← and_above (ltb_ℤ balance (negsuc 0)) val r
        if rr then left_rotate root else do
          lr ← and_above (ltb_ℤ (pos 1) balance) val l
          if lr
              then (do
                l' ← left_rotate l
                right_rotate (avl_node v (height root) c (size root) l' r))
              else do
                rl ← and_below (ltb_ℤ balance (negsuc 0)) val r
                if rl
                    then (do
                      r' ← right_rotate r
                      left_rotate (avl_node v (height root) c (size root) l r'))
                    else some root

unfoldable pub insert : AvlNode → ℤ → Option AvlNode
insert null val = some (avl_node val 1 1 1 null null)
insert (avl_node v h c s l r) val =
    let to_left = insert l val >>= λ l'. rebalance val v c l' r in
    let to_right = insert r val >>= λ r'. rebalance val v c l r' in
    if ltb_ℤ val v then to_left else if ltb_ℤ v val then to_right else rebalance val v (c + 1) l r

unfoldable pub kth : AvlNode → ℕ → ℤ
kth null k = negsuc 0
kth (avl_node v h c s l r) k =
    let to_left = kth l k in
    let to_right = kth r (k - size l - c) in
    if leb k (size l) then to_left else if leb k (size l + c) then v else to_right

pub record MedianFinder : Type 0 where
  pub root : AvlNode
  pub total : ℕ

unfoldable pub create : MedianFinder
create = record { root = null; total = 0 }

unfoldable pub add_num : MedianFinder → ℤ → Option MedianFinder
add_num obj num = do
  root ← insert obj.root num
  some (record { root = root; total = obj.total + 1 })

-- a `double` that is a whole number, or the half of one
pub data Median : Type 0 where
  whole : ℤ → Median
  half : ℤ → Median

abbrev pub is_int : ℤ → Bool
is_int z = leb_ℤ (negsuc (2 ^ 31 - 1)) z && leb_ℤ z (pos (2 ^ 31 - 1))

-- the sum of the two middle values is an `int`: an overflow is a fault
unfoldable pub half_of_sum : ℤ → ℤ → Option Median
half_of_sum a b = if is_int (a +ℤ b) then some (half (a +ℤ b)) else none

unfoldable pub find_median : MedianFinder → Option Median
find_median obj =
    if obj.total % 2 == 1
    then some (whole (kth obj.root (obj.total / 2 + 1)))
    else half_of_sum (kth obj.root (obj.total / 2)) (kth obj.root (obj.total / 2 + 1))
