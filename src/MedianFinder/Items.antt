-- ===== src/MedianFinder/Items.antt =====
-- The numbers that a tree of LEETCODE PROBLEMS/mediandta.c holds, in order and with repetitions.
use mathlib.Core.List.{append_assoc}
use native.Mathlib.Numerals.{add-one}
use iitm.Prelude.{
  ℕ, zero, suc, ◌+◌, ◌<◌, ◌≡◌, refl, ap, List, [], ◌∷◌, ◌++◌, replicate, ◌>>=◌, Yields, Yields-bind,
  Bool-cases, ltb→lt, inl, inr, arith, if◌then◌else◌,
}
use iitm.Prelude.Int.{ℤ, ltb_ℤ, ◌<ℤ◌, eq_of_not_lt}
use iitm.SortedList.{
  All, AllBelow, AllAbove, AllBelow-trans, IsSorted, IsSorted-append, lt_irrefl_ℤ, lt_asymm_ℤ,
  lt→ltb_ℤ,
}
use iitm.AvlTree.Order.{inorder}
use iitm.MedianFinder.{
  AvlNode, null, avl_node, height, size, update, right_rotate, left_rotate, rebalance, insert,
}
use iitm.MedianFinder.Erase.{erase}

unfoldable pub items : AvlNode → List ℤ
items null = []
items (avl_node v h c s l r) = items l ++ (replicate c v ++ items r)

-- the counters are exact
abbrev pub IsCounted : AvlNode → Type 0
IsCounted null = Unit
IsCounted (avl_node v h c s l r) = IsCounted l × IsCounted r × (s ≡ c + size l + size r) × (0 < c)

-- so are those below the root
abbrev IsCountedBelow : AvlNode → Type 0
IsCountedBelow null = Unit
IsCountedBelow (avl_node v h c s l r) = IsCounted l × IsCounted r × (0 < c)

abbrev pub Keeps : List ℤ → AvlNode → Type 0
Keeps xs t = IsCounted t × (items t ≡ xs)

-- an ascending list with one more number
unfoldable pub insert_sorted : ℤ → List ℤ → List ℤ
insert_sorted v [] = v ∷ []
insert_sorted v (x ∷ xs) = if ltb_ℤ x v then x ∷ insert_sorted v xs else v ∷ x ∷ xs

right_rotate-Keeps : (t : AvlNode) → IsCountedBelow t → Yields (Keeps (items t)) (right_rotate t)
unfolding right_rotate items
right_rotate-Keeps null k = tt
right_rotate-Keeps (avl_node y k d e null r) n = tt
right_rotate-Keeps (avl_node y k d e (avl_node x h c s l t) r) ((cl, ct, es, pc), cr, pd) =
    ((cl, (ct, cr, refl, pd), refl, pc), simp append_assoc)

left_rotate-Keeps : (t : AvlNode) → IsCountedBelow t → Yields (Keeps (items t)) (left_rotate t)
unfolding left_rotate items
left_rotate-Keeps null k = tt
left_rotate-Keeps (avl_node x h c s l null) n = tt
left_rotate-Keeps (avl_node x h c s l (avl_node y k d e t r)) (cl, (ct, cr, es, pd), pc) =
    (((cl, ct, refl, pc), cr, refl, pd), simp append_assoc)

module _ (v : ℤ) (h c s : ℕ) (l r : AvlNode) (cl : IsCounted l) (cr : IsCounted r)
    (pc : 0 < c) where
  double_right :
      Yields
        (Keeps (items l ++ (replicate c v ++ items r)))
        (left_rotate l >>= λ l'. right_rotate (avl_node v h c s l' r))
  unfolding items
  double_right =
      Yields-bind _ _ (left_rotate l) _ (left_rotate-Keeps l (below l cl))
        λ l' (k, e). rw (← e) (right_rotate-Keeps (avl_node v h c s l' r) (k, cr, pc))
    where
      below : (t : AvlNode) → IsCounted t → IsCountedBelow t
      below null k = tt
      below (avl_node w j b z a d) (p, q, e, k) = (p, q, k)

  double_left :
      Yields
        (Keeps (items l ++ (replicate c v ++ items r)))
        (right_rotate r >>= λ r'. left_rotate (avl_node v h c s l r'))
  unfolding items
  double_left =
      Yields-bind _ _ (right_rotate r) _ (right_rotate-Keeps r (below r cr))
        λ r' (k, e). rw (← e) (left_rotate-Keeps (avl_node v h c s l r') (cl, k, pc))
    where
      below : (t : AvlNode) → IsCounted t → IsCountedBelow t
      below null k = tt
      below (avl_node w j b z a d) (p, q, e, k) = (p, q, k)

-- what holds of each tree that `rebalance` may return
rebalance-cases :
    (Q : AvlNode → Type 0) (val v : ℤ) (c : ℕ) (l r : AvlNode)
    → let t = update v c l r in
      Yields Q (right_rotate t)
      → Yields Q (left_rotate t)
      → Yields Q (left_rotate l >>= λ l'. right_rotate (avl_node v (height t) c (size t) l' r))
      → Yields Q (right_rotate r >>= λ r'. left_rotate (avl_node v (height t) c (size t) l r'))
      → Q t
      → Yields Q (rebalance val v c l r)
unfolding rebalance
rebalance-cases Q val v c l r p q s t u = ground arith

rebalance-Keeps :
    (val v : ℤ) (c : ℕ) (l r : AvlNode)
    → IsCounted l
    → IsCounted r
    → 0 < c
    → Yields (Keeps (items l ++ (replicate c v ++ items r))) (rebalance val v c l r)
unfolding items
rebalance-Keeps val v c l r cl cr pc =
    rebalance-cases _ val v c l r (right_rotate-Keeps (update v c l r) (cl, cr, pc))
      (left_rotate-Keeps (update v c l r) (cl, cr, pc)) (double_right v _ c _ l r cl cr pc)
      (double_left v _ c _ l r cl cr pc) ((cl, cr, refl, pc), refl)

module _ (v w : ℤ) (ys : List ℤ) where
  insert_sorted_below :
      (c : ℕ) (xs : List ℤ)
      → v <ℤ w
      → 0 < c
      → insert_sorted v (xs ++ (replicate c w ++ ys)) ≡ insert_sorted v xs ++ (replicate c w ++ ys)
  unfolding insert_sorted
  insert_sorted_below zero xs h p = absurd (omega arith)
  insert_sorted_below (suc c) [] h p = rw (lt_asymm_ℤ v w h)
  insert_sorted_below (suc c) (x ∷ xs) h p = ground (arith, insert_sorted_below (suc c) xs h p)

  insert_sorted_past :
      (c : ℕ) → w <ℤ v → insert_sorted v (replicate c w ++ ys) ≡ replicate c w ++ insert_sorted v ys
  unfolding insert_sorted
  insert_sorted_past zero h = refl
  insert_sorted_past (suc c) h = rw (lt→ltb_ℤ w v h) (ap (λ zs. w ∷ zs) (insert_sorted_past c h))

insert_sorted_after :
    (v : ℤ) (xs ys : List ℤ) → AllBelow v xs → insert_sorted v (xs ++ ys) ≡ xs ++ insert_sorted v ys
unfolding insert_sorted
insert_sorted_after v [] ys b = refl
insert_sorted_after v (x ∷ xs) ys (p, b) =
    rw (lt→ltb_ℤ x v p) (ap (λ zs. x ∷ zs) (insert_sorted_after v xs ys b))

insert_sorted_self :
    (v : ℤ) (c : ℕ) (ys : List ℤ)
    → 0 < c
    → insert_sorted v (replicate c v ++ ys) ≡ replicate (c + 1) v ++ ys
unfolding insert_sorted
insert_sorted_self v zero ys p = absurd (omega arith)
insert_sorted_self v (suc c) ys p = rw (lt_irrefl_ℤ v, add-one) refl

All-append {ℓ} :
    {A : Type ℓ} (P : A → Type 0) (xs ys : List A) → All P (xs ++ ys) → All P xs × All P ys
All-append P [] ys a = (tt, a)
All-append P (x ∷ xs) ys (p, a) = let (b, c) = All-append P xs ys a in ((p, b), c)

append-All {ℓ} :
    {A : Type ℓ} (P : A → Type 0) (xs ys : List A) → All P xs → All P ys → All P (xs ++ ys)
append-All P [] ys a b = b
append-All P (x ∷ xs) ys (p, a) b = (p, append-All P xs ys a b)

All-replicate {ℓ} : {A : Type ℓ} (P : A → Type 0) (n : ℕ) (x : A) → P x → All P (replicate n x)
All-replicate P zero x p = tt
All-replicate P (suc n) x p = (p, All-replicate P n x p)

-- what holds of the keys holds of the items
All-items : (P : ℤ → Type 0) (t : AvlNode) → All P (inorder (erase t)) → All P (items t)
unfolding inorder items
All-items P null a = tt
All-items P (avl_node v h c s l r) a =
    let (p, (q, b)) = All-append P (inorder (erase l)) (v ∷ inorder (erase r)) a in
    append-All P (items l) (replicate c v ++ items r) (All-items P l p)
      (append-All P (replicate c v) (items r) (All-replicate P c v q) (All-items P r b))

-- `insert` puts the number in its place among the items, and keeps the counters exact.
pub insert-Keeps :
    (t : AvlNode) (val : ℤ)
    → IsCounted t
    → IsSorted (inorder (erase t))
    → Yields (Keeps (insert_sorted val (items t))) (insert t val)
unfolding insert items inorder insert_sorted
insert-Keeps null val k s = ((tt, tt, omega arith, omega arith), refl)
insert-Keeps (avl_node v h c z l r) val (cl, cr, e, pc) s = elim (Bool-cases (ltb_ℤ val v)) [
  | inl lt ↦
      rw (lt, insert_sorted_below val v (items r) c (items l) (ltb→lt _ _ lt) pc)
        (Yields-bind _ _ (insert l val) _ (insert-Keeps l val cl parts.0)
          λ l' (k, q). rw (← q) (rebalance-Keeps val v c l' r k cr pc))
  | inr ge ↦ elim (Bool-cases (ltb_ℤ v val)) [
    | inl gt ↦
        let low : AllBelow val (items l) =
          All-items (λ x. x <ℤ val) l (AllBelow-trans val v _ (ltb→lt _ _ gt) parts.1) in
        rw
          (
            ge,
            gt,
            insert_sorted_after val (items l) (replicate c v ++ items r) low,
            insert_sorted_past val v (items r) c (ltb→lt _ _ gt),
          )
          (Yields-bind _ _ (insert r val) _ (insert-Keeps r val cr parts.3)
            λ r' (k, q). rw (← q) (rebalance-Keeps val v c l r' cl k pc))
    | inr le ↦
        let same : val ≡ v = eq_of_not_lt val v ge le in
        let low : AllBelow v (items l) = All-items (λ x. x <ℤ v) l parts.1 in
        rw
          (
            ge,
            le,
            same,
            insert_sorted_after v (items l) (replicate c v ++ items r) low,
            insert_sorted_self v c (items r) pc,
          )
          (rebalance-Keeps v v (c + 1) l r cl cr (omega arith))
  ]
]
  where
    parts :
        IsSorted (inorder (erase l))
        × AllBelow v (inorder (erase l))
        × AllAbove v (inorder (erase r))
        × IsSorted (inorder (erase r))
    parts = IsSorted-append (inorder (erase l)) v (inorder (erase r)) s
