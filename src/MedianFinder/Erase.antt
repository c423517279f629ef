-- ===== src/MedianFinder/Erase.antt =====
-- Without the counters, the tree of LEETCODE PROBLEMS/mediandta.c is that of Trees/AVLTree.c.

use iitm.Prelude.{
  ℕ, ◌+◌, ◌≡◌, refl, ap, ◌∙◌, Bool, true, false, Option, none, some, Bool-cases, inl, inr, arith,
  ◌>>=◌,
}
use iitm.Prelude.Int.{ℤ, ltb_ℤ}
use iitm.AvlTree
use iitm.AvlTree.Balance.{IsAvl, still}
use iitm.MedianFinder.{
  AvlNode, null, avl_node, height, size, max, update, right_rotate, left_rotate, and_below,
  and_above, rebalance, insert,
}

abbrev pub erase : AvlNode → AvlTree.Tree
erase null = AvlTree.leaf
erase (avl_node v h c s l r) = AvlTree.node v h (erase l) (erase r)

abbrev pub erase? : Option AvlNode → Option AvlTree.Tree
erase? none = none
erase? (some t) = some (erase t)

height-erase : (t : AvlNode) → AvlTree.get_height (erase t) ≡ height t
height-erase null = refl
height-erase (avl_node v h c s l r) = refl

max_same : (a b : ℕ) → AvlTree.max a b ≡ max a b
unfolding max AvlTree.max
max_same a b = refl

erase-update :
    (v : ℤ) (c : ℕ) (l r : AvlNode) → erase (update v c l r) ≡ AvlTree.updated v (erase l) (erase r)
erase-update v c l r = rw (height-erase l, height-erase r, max_same (height l) (height r))

erase-right_rotate : (t : AvlNode) → erase? (right_rotate t) ≡ AvlTree.rotate_right (erase t)
unfolding right_rotate AvlTree.rotate_right
erase-right_rotate null = refl
erase-right_rotate (avl_node y k d e null r) = refl
erase-right_rotate (avl_node y k d e (avl_node x h c s l t) r) = ap some (
    erase-update x c l (update y d t r)
    ∙ ap (λ u. AvlTree.updated x (erase l) u) (erase-update y d t r))

erase-left_rotate : (t : AvlNode) → erase? (left_rotate t) ≡ AvlTree.rotate_left (erase t)
unfolding left_rotate AvlTree.rotate_left
erase-left_rotate null = refl
erase-left_rotate (avl_node x h c s l null) = refl
erase-left_rotate (avl_node x h c s l (avl_node y k d e t r)) = ap some (
    erase-update y d (update x c l t) r
    ∙ ap (λ u. AvlTree.updated y u (erase r)) (erase-update x c l t))

and_below-erase :
    (b : Bool) (val : ℤ) (t : AvlNode) → AvlTree.and_below b val (erase t) ≡ and_below b val t
and_below-erase false val t = refl
and_below-erase true val null = refl
and_below-erase true val (avl_node v h c s l r) = refl

and_above-erase :
    (b : Bool) (val : ℤ) (t : AvlNode) → AvlTree.and_above b val (erase t) ≡ and_above b val t
and_above-erase false val t = refl
and_above-erase true val null = refl
and_above-erase true val (avl_node v h c s l r) = refl

erase?-bind :
    (m : Option AvlNode) (f : AvlNode → Option AvlNode) (g : AvlTree.Tree → Option AvlTree.Tree)
    → ((t : AvlNode) → erase? (f t) ≡ g (erase t))
    → erase? (m >>= f) ≡ (erase? m >>= g)
erase?-bind none f g h = refl
erase?-bind (some t) f g h = h t

double_right :
    (v : ℤ) (h c d : ℕ) (l r : AvlNode)
    → erase? (left_rotate l >>= λ l'. right_rotate (avl_node v h c d l' r)) ≡ (
        AvlTree.rotate_left (erase l) >>= λ l'.
        AvlTree.rotate_right (AvlTree.node v h l' (erase r)))
double_right v h c d l r =
    erase?-bind (left_rotate l) (λ l'. right_rotate (avl_node v h c d l' r))
      (λ l'. AvlTree.rotate_right (AvlTree.node v h l' (erase r)))
      (λ l'. erase-right_rotate (avl_node v h c d l' r))
    ∙ ap (λ m. m >>= λ l'. AvlTree.rotate_right (AvlTree.node v h l' (erase r)))
        (erase-left_rotate l)

double_left :
    (v : ℤ) (h c d : ℕ) (l r : AvlNode)
    → erase? (right_rotate r >>= λ r'. left_rotate (avl_node v h c d l r')) ≡ (
        AvlTree.rotate_right (erase r) >>= λ r'.
        AvlTree.rotate_left (AvlTree.node v h (erase l) r'))
double_left v h c d l r =
    erase?-bind (right_rotate r) (λ r'. left_rotate (avl_node v h c d l r'))
      (λ r'. AvlTree.rotate_left (AvlTree.node v h (erase l) r'))
      (λ r'. erase-left_rotate (avl_node v h c d l r'))
    ∙ ap (λ m. m >>= λ r'. AvlTree.rotate_left (AvlTree.node v h (erase l) r'))
        (erase-right_rotate r)

erase-rebalance :
    (val v : ℤ) (c : ℕ) (l r : AvlNode)
    → erase? (rebalance val v c l r) ≡ AvlTree.rebalance val v (erase l) (erase r)
unfolding rebalance AvlTree.rebalance
erase-rebalance val v c l r =
    rw
      (
        ← erase-update v c l r,
        height-erase l,
        height-erase r,
        max_same,
        and_below-erase,
        and_above-erase,
        and_above-erase,
        and_below-erase,
      )
      (ground (
        arith,
        erase-right_rotate (update v c l r),
        erase-left_rotate (update v c l r),
        double_right v (height (update v c l r)) c (size (update v c l r)) l r,
        double_left v (height (update v c l r)) c (size (update v c l r)) l r,
      ))

-- `insert` with counters does to the keys what `insert` without them does.
pub erase-insert :
    (t : AvlNode) (val : ℤ) → IsAvl (erase t) → erase? (insert t val) ≡ AvlTree.insert (erase t) val
unfolding insert AvlTree.insert AvlTree.new_node
erase-insert null val a = refl
erase-insert (avl_node v h c s l r) val (al, ar, e, p, q) = elim (Bool-cases (ltb_ℤ val v)) [
  | inl lt ↦
      rw (lt, ← erase-insert l val al)
        (erase?-bind (insert l val) _ (λ l'. AvlTree.rebalance val v l' (erase r))
          (λ l'. erase-rebalance val v c l' r))
  | inr ge ↦ elim (Bool-cases (ltb_ℤ v val)) [
    | inl gt ↦
        rw (ge, gt, ← erase-insert r val ar)
          (erase?-bind (insert r val) _ (λ r'. AvlTree.rebalance val v (erase l) r')
            (λ r'. erase-rebalance val v c l r'))
    | inr le ↦
        rw (ge, le, erase-rebalance val v (c + 1) l r, still val v (erase l) (erase r) p q, e) refl
  ]
]
