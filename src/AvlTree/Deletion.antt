-- ===== src/AvlTree/Deletion.antt =====
-- `deleteNode` keeps the AVL invariant.
use iitm.Prelude.{
  ◌+◌, ◌≤◌, ◌<◌, refl, inl, inr, some, Returns, Returns-bind, Bool-cases, arith, ◌||◌, Option,
  if◌then◌else◌, ◌>>=◌,
}
use iitm.Prelude.Int.{ℤ, ltb_ℤ}
use iitm.AvlTree.{Tree, leaf, node, max, get_height, repair, find_min, is_null, delete_node}
use iitm.AvlTree.Balance.{IsAvl, max_native}
use iitm.AvlTree.Repair.{Shrinks, repair-Shrinks}

find_min_total : (t : Tree) → 0 < get_height t → IsAvl t → Returns (λ _. Unit {0}) (find_min t)
unfolding find_min
find_min_total leaf p a = absurd (omega arith)
find_min_total (node v h leaf r) p a = tt
find_min_total (node v h (node w k b c) r) p a =
    find_min_total (node w k b c) (omega (arith, max_native)) a.0

delete_left :
    (v : ℤ) (l r l' : Tree)
    → IsAvl r
    → get_height l ≤ get_height r + 1
    → get_height r ≤ get_height l + 1
    → Shrinks (get_height l) l'
    → Returns (Shrinks (max (get_height l) (get_height r) + 1)) (repair v l' r)
delete_left v l r l' ar p q (al, s) =
    repair-Shrinks v _ l' r al ar (omega (arith, max_native)) (omega (arith, max_native))
      (omega (arith, max_native)) (omega (arith, max_native)) (λ e. omega (arith, max_native))
      (λ e. omega (arith, max_native))

delete_right :
    (v : ℤ) (l r r' : Tree)
    → IsAvl l
    → get_height l ≤ get_height r + 1
    → get_height r ≤ get_height l + 1
    → Shrinks (get_height r) r'
    → Returns (Shrinks (max (get_height l) (get_height r) + 1)) (repair v l r')
delete_right v l r r' al p q (ar, s) =
    repair-Shrinks v _ l r' al ar (omega (arith, max_native)) (omega (arith, max_native))
      (omega (arith, max_native)) (omega (arith, max_native)) (λ e. omega (arith, max_native))
      (λ e. omega (arith, max_native))

-- the key stands in this node
delete_here :
    (l r : Tree) (rest : ℤ → Option Tree)
    → IsAvl l
    → IsAvl r
    → get_height l ≤ get_height r + 1
    → get_height r ≤ get_height l + 1
    → ((m : ℤ) → Returns (Shrinks (get_height r)) (rest m))
    → Returns (Shrinks (max (get_height l) (get_height r) + 1)) (
        if is_null l || is_null r
        then some (if is_null l then r else l)
        else (find_min r >>= λ m. rest m >>= λ r'. repair m l r'))
delete_here leaf r rest al ar p q ih = (ar, inr (omega (arith, max_native)))
delete_here (node v h b c) leaf rest al ar p q ih = (al, inr (omega (arith, max_native)))
delete_here (node v h b c) (node w k d e) rest al ar p q ih =
    Returns-bind _ _ (find_min (node w k d e)) _
      (find_min_total (node w k d e) (omega (arith, max_native)) ar)
      λ m _.
        Returns-bind _ _ (rest m) _ (ih m)
          λ r' s. delete_right m (node v h b c) (node w k d e) r' al p q s

-- `deleteNode` does not fault, and keeps the tree balanced with heights that are exact.
pub delete_node-Shrinks :
    (t : Tree) (val : ℤ) → IsAvl t → Returns (Shrinks (get_height t)) (delete_node t val)
unfolding delete_node
delete_node-Shrinks leaf val a = (tt, inl refl)
delete_node-Shrinks (node v h l r) val (al, ar, e, p, q) = elim (Bool-cases (ltb_ℤ val v)) [
  | inl lt ↦
      rw (lt, e)
        (Returns-bind _ _ (delete_node l val) _ (delete_node-Shrinks l val al)
          λ l' s. delete_left v l r l' ar p q s)
  | inr ge ↦ elim (Bool-cases (ltb_ℤ v val)) [
    | inl gt ↦
        rw (ge, gt, e)
          (Returns-bind _ _ (delete_node r val) _ (delete_node-Shrinks r val ar)
            λ r' s. delete_right v l r r' al p q s)
    | inr le ↦
        rw (ge, le, e) (delete_here l r (delete_node r) al ar p q (λ m. delete_node-Shrinks r m ar))
  ]
]
