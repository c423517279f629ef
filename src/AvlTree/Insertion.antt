-- ===== src/AvlTree/Insertion.antt =====
-- `insert` keeps the AVL invariant.
use iitm.Prelude.{
  ℕ, ◌+◌, ◌≤◌, ◌<◌, ◌≡◌, refl, ap, ◌⊎◌, inl, inr, ltb, Returns, Returns-bind, Bool-cases, ltb→lt,
  arith,
}
use iitm.Prelude.Int.{ℤ, ltb_ℤ, ◌<ℤ◌}
use iitm.AvlTree.{Tree, leaf, node, max, get_height, updated, rebalance, insert, new_node}
use iitm.AvlTree.Balance.{IsAvl, max_native, Leans, Grows, turn_left, turn_right, still}

-- an insertion below the left child
rebalance_left :
    (val v : ℤ) (n : ℕ) (l r : Tree)
    → Grows val n l
    → IsAvl r
    → n ≤ get_height r + 1
    → get_height r ≤ n + 1
    → val <ℤ v
    → Returns (Grows val (max n (get_height r) + 1)) (rebalance val v l r)
rebalance_left val v n l r (al, inl e) ar p q s =
    rw (still val v l r (omega arith) (omega arith))
      ((al, ar, refl, omega arith, omega arith), inl (ap (λ m. max m (get_height r) + 1) e))
rebalance_left val v n l r (al, inr (e, side)) ar p q s =
    elim (Bool-cases (ltb n (get_height r + 1))) [
      | inl low ↦
          let small = ltb→lt _ _ low in
          rw (still val v l r (omega arith) (omega arith))
            ((al, ar, refl, omega arith, omega arith), grow small)
      | inr high ↦
          let big : n ≡ get_height r + 1 = ground arith in
          let e' : max n (get_height r) + 1 ≡ n + 1 = omega (arith, max_native) in
          rw e' (turn_left val v n l r al ar e big side)
    ]
  where
    grow :
        n < get_height r + 1
        → (max (get_height l) (get_height r) + 1 ≡ max n (get_height r) + 1)
          ⊎ ((max (get_height l) (get_height r) + 1 ≡ max n (get_height r) + 1 + 1)
              × Leans val (updated v l r))
    grow small = elim (Bool-cases (ltb n (get_height r))) [
      | inl below ↦ let lt = ltb→lt _ _ below in inl (omega (arith, max_native))
      | inr level ↦
          let same : n ≡ get_height r = ground arith in
          inr (omega (arith, max_native), λ _. inl (s, omega arith))
    ]

-- an insertion below the right child
rebalance_right :
    (val v : ℤ) (n : ℕ) (l r : Tree)
    → Grows val n r
    → IsAvl l
    → n ≤ get_height l + 1
    → get_height l ≤ n + 1
    → v <ℤ val
    → Returns (Grows val (max (get_height l) n + 1)) (rebalance val v l r)
rebalance_right val v n l r (ar, inl e) al p q s =
    rw (still val v l r (omega arith) (omega arith))
      ((al, ar, refl, omega arith, omega arith), inl (ap (λ m. max (get_height l) m + 1) e))
rebalance_right val v n l r (ar, inr (e, side)) al p q s =
    elim (Bool-cases (ltb n (get_height l + 1))) [
      | inl low ↦
          let small = ltb→lt _ _ low in
          rw (still val v l r (omega arith) (omega arith))
            ((al, ar, refl, omega arith, omega arith), grow small)
      | inr high ↦
          let big : n ≡ get_height l + 1 = ground arith in
          let e' : max (get_height l) n + 1 ≡ n + 1 = omega (arith, max_native) in
          rw e' (turn_right val v n l r ar al e big side)
    ]
  where
    grow :
        n < get_height l + 1
        → (max (get_height l) (get_height r) + 1 ≡ max (get_height l) n + 1)
          ⊎ ((max (get_height l) (get_height r) + 1 ≡ max (get_height l) n + 1 + 1)
              × Leans val (updated v l r))
    grow small = elim (Bool-cases (ltb n (get_height l))) [
      | inl below ↦ let lt = ltb→lt _ _ below in inl (omega (arith, max_native))
      | inr level ↦
          let same : n ≡ get_height l = ground arith in
          inr (omega (arith, max_native), λ _. inr (s, omega arith))
    ]

-- `insert` does not fault, and keeps the tree balanced with heights that are exact.
pub insert-Grows :
    (t : Tree) (val : ℤ) → IsAvl t → Returns (Grows val (get_height t)) (insert t val)
unfolding insert new_node
insert-Grows leaf val a = (
  (tt, tt, omega (arith, max_native), omega arith, omega arith),
  inr (refl, λ p. absurd (omega arith)),
)
insert-Grows (node v h l r) val (al, ar, e, p, q) = elim (Bool-cases (ltb_ℤ val v)) [
  | inl lt ↦
      rw (lt, e)
        (Returns-bind _ _ (insert l val) _ (insert-Grows l val al)
          λ l' g. rebalance_left val v (get_height l) l' r g ar p q (ltb→lt _ _ lt))
  | inr ge ↦ elim (Bool-cases (ltb_ℤ v val)) [
    | inl gt ↦
        rw (ge, gt, e)
          (Returns-bind _ _ (insert r val) _ (insert-Grows r val ar)
            λ r' g. rebalance_right val v (get_height r) l r' g al q p (ltb→lt _ _ gt))
    | inr le ↦ rw (ge, le) ((al, ar, e, p, q), inl refl)
  ]
]
