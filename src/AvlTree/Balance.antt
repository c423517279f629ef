-- ===== src/AvlTree/Balance.antt =====
-- The AVL invariant of Trees/AVLTree.c: heights are exact, and siblings differ by at most one.
use Prim.Native.Nat.{max as nat_max}
use iitm.Prelude.{ℕ, ◌+◌, ◌≤◌, ◌<◌, ◌≡◌, refl, ◌⊎◌, inl, inr, some, Returns, arith}
use iitm.Prelude.Int.{ℤ, ◌<ℤ◌}
use iitm.AvlTree.{Tree, leaf, node, max, get_height, updated, rotate_right, rotate_left, rebalance}

pub max_native : (a b : ℕ) → max a b ≡ nat_max a b
unfolding max
max_native a b = ground arith

abbrev pub IsAvl : Tree → Type 0
IsAvl leaf = Unit
IsAvl (node v h l r) =
    IsAvl l
    × IsAvl r
    × (h ≡ max (get_height l) (get_height r) + 1)
    × (get_height l ≤ get_height r + 1)
    × (get_height r ≤ get_height l + 1)

-- which side of the root the value `val` went to
abbrev pub Leans : ℤ → Tree → Type 0
Leans val leaf = ⊥
Leans val (node v h l r) =
    1 < h
    → ((val <ℤ v) × (get_height r < get_height l)) ⊎ ((v <ℤ val) × (get_height l < get_height r))

-- the outcome of an insertion into a tree of height `n`
abbrev pub Grows : ℤ → ℕ → Tree → Type 0
Grows val n t = IsAvl t × ((get_height t ≡ n) ⊎ ((get_height t ≡ n + 1) × Leans val t))

module _ (val v : ℤ) (l r : Tree) where
  -- no rotation
  pub still :
      get_height l ≤ get_height r + 1
      → get_height r ≤ get_height l + 1
      → rebalance val v l r ≡ some (updated v l r)
  unfolding rebalance
  still p q = ground arith

module _ (val v w x : ℤ) (h k : ℕ) (a c d r : Tree) where
  single_right :
      get_height r + 1 < h
      → val <ℤ w
      → rebalance val v (node w h a c) r ≡ some (updated w a (updated v c r))
  unfolding rebalance rotate_right
  single_right p q = ground arith

  double_right :
      get_height r + 1 < h
      → w <ℤ val
      → rebalance val v (node w h a (node x k c d)) r
        ≡ some (updated x (updated w a c) (updated v d r))
  unfolding rebalance rotate_right rotate_left
  double_right p q = ground arith

  single_left :
      get_height r + 1 < h
      → w <ℤ val
      → rebalance val v r (node w h c a) ≡ some (updated w (updated v r c) a)
  unfolding rebalance rotate_left
  single_left p q = ground arith

  double_left :
      get_height r + 1 < h
      → val <ℤ w
      → rebalance val v r (node w h (node x k c d) a)
        ≡ some (updated x (updated v r c) (updated w d a))
  unfolding rebalance rotate_right rotate_left
  double_left p q = ground arith

-- what a rotation needs of the heights: `a` is the outer subtree of the high child, `c` the inner
module _ (val v w x : ℤ) (n h k : ℕ) (a c d r : Tree) (aa : IsAvl a) (ar : IsAvl r) (en : h ≡ n + 1)
    (er : n ≡ get_height r + 1) where
  turn_single_right :
      IsAvl c
      → val <ℤ w
      → get_height a ≡ n
      → get_height c + 1 ≡ n
      → Returns (Grows val (n + 1)) (rebalance val v (node w h a c) r)
  turn_single_right ac lt ea ec = rw (single_right val v w x h k a c d r (omega arith) lt) (
    (
      aa,
      (ac, ar, refl, omega arith, omega arith),
      refl,
      omega (arith, max_native),
      omega (arith, max_native),
    ),
    inl (omega (arith, max_native)),
  )

  turn_single_left :
      IsAvl c
      → w <ℤ val
      → get_height a ≡ n
      → get_height c + 1 ≡ n
      → Returns (Grows val (n + 1)) (rebalance val v r (node w h c a))
  turn_single_left ac gt ea ec = rw (single_left val v w x h k a c d r (omega arith) gt) (
    (
      (ar, ac, refl, omega arith, omega arith),
      aa,
      refl,
      omega (arith, max_native),
      omega (arith, max_native),
    ),
    inl (omega (arith, max_native)),
  )

  turn_double_right :
      IsAvl (node x k c d)
      → w <ℤ val
      → k ≡ n
      → get_height a + 1 ≡ n
      → Returns (Grows val (n + 1)) (rebalance val v (node w h a (node x k c d)) r)
  turn_double_right (ac, ad, ek, p, q) gt ec ea =
      rw (double_right val v w x h k a c d r (omega arith) gt) (
        (
          (aa, ac, refl, omega (arith, max_native), omega (arith, max_native)),
          (ad, ar, refl, omega (arith, max_native), omega (arith, max_native)),
          refl,
          omega (arith, max_native),
          omega (arith, max_native),
        ),
        inl (omega (arith, max_native)),
      )

  turn_double_left :
      IsAvl (node x k c d)
      → val <ℤ w
      → k ≡ n
      → get_height a + 1 ≡ n
      → Returns (Grows val (n + 1)) (rebalance val v r (node w h (node x k c d) a))
  turn_double_left (ac, ad, ek, p, q) lt ec ea =
      rw (double_left val v w x h k a c d r (omega arith) lt) (
        (
          (ar, ac, refl, omega (arith, max_native), omega (arith, max_native)),
          (ad, aa, refl, omega (arith, max_native), omega (arith, max_native)),
          refl,
          omega (arith, max_native),
          omega (arith, max_native),
        ),
        inl (omega (arith, max_native)),
      )

-- the left child has become too high
pub turn_left :
    (val v : ℤ) (n : ℕ) (l r : Tree)
    → IsAvl l
    → IsAvl r
    → get_height l ≡ n + 1
    → n ≡ get_height r + 1
    → Leans val l
    → Returns (Grows val (n + 1)) (rebalance val v l r)
turn_left val v n leaf r al ar en er side = absurd side
turn_left val v n (node w h a leaf) r al ar en er side = elim (side (omega arith)) [
  | inl (lt, lean) ↦
      turn_single_right val v w w n h h a leaf a r al.0 ar en er al.1 lt (omega (arith, max_native))
        (omega (arith, max_native))
  | inr (gt, lean) ↦ absurd (omega arith)
]
turn_left val v n (node w h a (node x k c d)) r al ar en er side = elim (side (omega arith)) [
  | inl (lt, lean) ↦
      turn_single_right val v w w n h h a (node x k c d) a r al.0 ar en er al.1 lt
        (omega (arith, max_native)) (omega (arith, max_native))
  | inr (gt, lean) ↦
      turn_double_right val v w x n h k a c d r al.0 ar en er al.1 gt (omega (arith, max_native))
        (omega (arith, max_native))
]

-- the right child has become too high
pub turn_right :
    (val v : ℤ) (n : ℕ) (l r : Tree)
    → IsAvl r
    → IsAvl l
    → get_height r ≡ n + 1
    → n ≡ get_height l + 1
    → Leans val r
    → Returns (Grows val (n + 1)) (rebalance val v l r)
turn_right val v n l leaf al ar en er side = absurd side
turn_right val v n l (node w h leaf a) al ar en er side = elim (side (omega arith)) [
  | inl (lt, lean) ↦ absurd (omega arith)
  | inr (gt, lean) ↦
      turn_single_left val v w w n h h a leaf a l al.1 ar en er al.0 gt (omega (arith, max_native))
        (omega (arith, max_native))
]
turn_right val v n l (node w h (node x k c d) a) al ar en er side = elim (side (omega arith)) [
  | inl (lt, lean) ↦
      turn_double_left val v w x n h k a c d l al.1 ar en er al.0 lt (omega (arith, max_native))
        (omega (arith, max_native))
  | inr (gt, lean) ↦
      turn_single_left val v w w n h h a (node x k c d) a l al.1 ar en er al.0 gt
        (omega (arith, max_native)) (omega (arith, max_native))
]
