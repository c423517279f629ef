-- ===== src/AvlTree/Order.antt =====
-- The keys of a tree of Trees/AVLTree.c in order, and what the operations do to them.
use mathlib.Core.List.{append_assoc, append-nil}
use iitm.Prelude.{
  ℕ, ◌≡◌, refl, sym, ap, Option, some, List, [], ◌∷◌, ◌++◌, ◌>>=◌, Yields, Yields-bind, Yields-mono,
  Bool-cases, ltb→lt, arith, inl, inr, ◌||◌, if◌then◌else◌,
}
use iitm.Prelude.Int.{ℤ, ltb_ℤ, eq_of_not_lt}
use iitm.SortedList.{
  IsSorted, IsSorted-append, AllBelow, AllAbove, add, remove, add-append_below, add-append_above,
  add-append_self, remove-append_below, remove-append_above, remove-append_self,
}
use iitm.AvlTree.{
  Tree, leaf, node, updated, get_height, rotate_right, rotate_left, rebalance, insert, new_node,
  repair, find_min, is_null, delete_node,
}

unfoldable pub inorder : Tree → List ℤ
inorder leaf = []
inorder (node v h l r) = inorder l ++ v ∷ inorder r

-- the keys of the result, if there is one
abbrev pub Keys : List ℤ → Tree → Type 0
Keys xs t = inorder t ≡ xs

rotate_right-inorder : (t : Tree) → Yields (Keys (inorder t)) (rotate_right t)
unfolding rotate_right inorder
rotate_right-inorder leaf = tt
rotate_right-inorder (node y k leaf r) = tt
rotate_right-inorder (node y k (node x h l t) r) =
    sym (append_assoc (inorder l) (x ∷ inorder t) (y ∷ inorder r))

rotate_left-inorder : (t : Tree) → Yields (Keys (inorder t)) (rotate_left t)
unfolding rotate_left inorder
rotate_left-inorder leaf = tt
rotate_left-inorder (node x h l leaf) = tt
rotate_left-inorder (node x h l (node y k t r)) =
    append_assoc (inorder l) (x ∷ inorder t) (y ∷ inorder r)

-- a rotation of a child, then one of the root
double_right :
    (v : ℤ) (h : ℕ) (l r : Tree)
    → Yields
        (Keys (inorder l ++ v ∷ inorder r))
        (rotate_left l >>= λ l'. rotate_right (node v h l' r))
unfolding inorder
double_right v h l r =
    Yields-bind _ _ (rotate_left l) _ (rotate_left-inorder l)
      λ l' e. rw (← e) (rotate_right-inorder (node v h l' r))

double_left :
    (v : ℤ) (h : ℕ) (l r : Tree)
    → Yields
        (Keys (inorder l ++ v ∷ inorder r))
        (rotate_right r >>= λ r'. rotate_left (node v h l r'))
unfolding inorder
double_left v h l r =
    Yields-bind _ _ (rotate_right r) _ (rotate_right-inorder r)
      λ r' e. rw (← e) (rotate_left-inorder (node v h l r'))

pub rebalance-inorder :
    (val v : ℤ) (l r : Tree) → Yields (Keys (inorder l ++ v ∷ inorder r)) (rebalance val v l r)
unfolding rebalance inorder
rebalance-inorder val v l r = ground (
  arith,
  rotate_right-inorder (updated v l r),
  rotate_left-inorder (updated v l r),
  double_right v (get_height (updated v l r)) l r,
  double_left v (get_height (updated v l r)) l r,
)

pub repair-inorder :
    (v : ℤ) (l r : Tree) → Yields (Keys (inorder l ++ v ∷ inorder r)) (repair v l r)
unfolding repair inorder
repair-inorder v l r = ground (
  arith,
  rotate_right-inorder (updated v l r),
  rotate_left-inorder (updated v l r),
  double_right v (get_height (updated v l r)) l r,
  double_left v (get_height (updated v l r)) l r,
)

-- `insert` adds the key to the ascending list of keys.
pub insert-add :
    (t : Tree) (val : ℤ) → IsSorted (inorder t) → Yields (Keys (add val (inorder t))) (insert t val)
unfolding insert new_node inorder add
insert-add leaf val s = refl
insert-add (node v h l r) val s = elim (Bool-cases (ltb_ℤ val v)) [
  | inl lt ↦
      rw (lt, add-append_below val v (inorder r) (inorder l) (ltb→lt _ _ lt))
        (Yields-bind _ _ (insert l val) _ (insert-add l val parts.0)
          λ l' e. rw (← e) (rebalance-inorder val v l' r))
  | inr ge ↦ elim (Bool-cases (ltb_ℤ v val)) [
    | inl gt ↦
        rw (ge, gt, add-append_above val v (inorder r) (inorder l) (ltb→lt _ _ gt) parts.1)
          (Yields-bind _ _ (insert r val) _ (insert-add r val parts.3)
            λ r' e. rw (← e) (rebalance-inorder val v l r'))
    | inr le ↦
        let e : val ≡ v = eq_of_not_lt val v ge le in
        rw (ge, le, e, add-append_self v (inorder r) (inorder l) parts.1) refl
  ]
]
  where
    parts :
        IsSorted (inorder l)
        × AllBelow v (inorder l)
        × AllAbove v (inorder r)
        × IsSorted (inorder r)
    parts = IsSorted-append (inorder l) v (inorder r) s

-- the least key is the head of the list
find_min-head : (t : Tree) → Yields (λ m. (xs : List ℤ) × (inorder t ≡ m ∷ xs)) (find_min t)
unfolding find_min inorder
find_min-head leaf = tt
find_min-head (node v h leaf r) = (inorder r, refl)
find_min-head (node v h (node w k b c) r) =
    Yields-mono _ _ (find_min (node w k b c)) (find_min-head (node w k b c))
      λ m (xs, e). (xs ++ v ∷ inorder r, ap (λ ys. ys ++ v ∷ inorder r) e)

remove_head : (m : ℤ) (xs : List ℤ) → remove m (m ∷ xs) ≡ xs
remove_head m xs = remove-append_self m xs [] tt

-- the key stands in this node
delete_here :
    (l r : Tree) (rest : ℤ → Option Tree)
    → ((m : ℤ) → Yields (Keys (remove m (inorder r))) (rest m))
    → Yields (Keys (inorder l ++ inorder r)) (
        if is_null l || is_null r
        then some (if is_null l then r else l)
        else (find_min r >>= λ m. rest m >>= λ r'. repair m l r'))
unfolding inorder
delete_here leaf r rest ih = refl
delete_here (node v h b c) leaf rest ih = sym (append-nil _)
delete_here (node v h b c) (node w k d e) rest ih =
    Yields-bind _ _ (find_min (node w k d e)) _ (find_min-head (node w k d e)) λ m (xs, q).
      Yields-bind _ _ (rest m) _ (ih m)
        λ r' p. rw (q, ← remove_head m xs, ← q, ← p) (repair-inorder m (node v h b c) r')

-- `deleteNode` takes the key out of the ascending list of keys.
pub delete_node-remove :
    (t : Tree) (val : ℤ)
    → IsSorted (inorder t)
    → Yields (Keys (remove val (inorder t))) (delete_node t val)
unfolding delete_node inorder remove
delete_node-remove leaf val s = refl
delete_node-remove (node v h l r) val s = elim (Bool-cases (ltb_ℤ val v)) [
  | inl lt ↦
      rw (lt, remove-append_below val v (inorder r) (inorder l) (ltb→lt _ _ lt))
        (Yields-bind _ _ (delete_node l val) _ (delete_node-remove l val parts.0)
          λ l' e. rw (← e) (repair-inorder v l' r))
  | inr ge ↦ elim (Bool-cases (ltb_ℤ v val)) [
    | inl gt ↦
        rw (ge, gt, remove-append_above val v (inorder r) (inorder l) (ltb→lt _ _ gt) parts.1)
          (Yields-bind _ _ (delete_node r val) _ (delete_node-remove r val parts.3)
            λ r' e. rw (← e) (repair-inorder v l r'))
    | inr le ↦
        let e : val ≡ v = eq_of_not_lt val v ge le in
        rw (ge, le, e, remove-append_self v (inorder r) (inorder l) parts.1)
          (delete_here l r (delete_node r) (λ m. delete_node-remove r m parts.3))
  ]
]
  where
    parts :
        IsSorted (inorder l)
        × AllBelow v (inorder l)
        × AllAbove v (inorder r)
        × IsSorted (inorder r)
    parts = IsSorted-append (inorder l) v (inorder r) s
