-- ===== src/AvlTree/Repair.antt =====
-- The end of `deleteNode` restores the AVL invariant.
use iitm.Prelude.{
  ℕ, ◌+◌, ◌≤◌, ◌<◌, ◌≡◌, refl, ◌⊎◌, inl, inr, some, ltb, Returns, Bool-cases, ltb→lt, arith, false,
}
use iitm.Prelude.Int.{ℤ, pos, negsuc, sub_ℕ, ltb_ℤ}
use iitm.AvlTree.{Tree, leaf, node, max, get_height, updated, rotate_right, rotate_left, repair}
use iitm.AvlTree.Balance.{IsAvl, max_native}

-- the outcome of a deletion from a tree of height `n`
abbrev pub Shrinks : ℕ → Tree → Type 0
Shrinks n t = IsAvl t × ((get_height t ≡ n) ⊎ (get_height t + 1 ≡ n))

not_left_heavy : (a b : ℕ) → a ≤ b + 1 → ltb_ℤ (pos 1) (sub_ℕ a b) ≡ false
not_left_heavy a b p = ground arith

not_right_heavy : (a b : ℕ) → b ≤ a + 1 → ltb_ℤ (sub_ℕ a b) (negsuc 0) ≡ false
not_right_heavy a b p = ground arith

repair_still :
    (v : ℤ) (l r : Tree)
    → get_height l ≤ get_height r + 1
    → get_height r ≤ get_height l + 1
    → repair v l r ≡ some (updated v l r)
unfolding repair
repair_still v l r p q = rw (
  not_left_heavy (get_height l) (get_height r) p,
  not_right_heavy (get_height l) (get_height r) q,
)

module _ (v w x : ℤ) (h k : ℕ) (a c d r : Tree) where
  single_right :
      get_height r + 1 < h
      → get_height c ≤ get_height a
      → repair v (node w h a c) r ≡ some (updated w a (updated v c r))
  unfolding repair rotate_right
  single_right p q = ground arith

  double_right :
      get_height r + 1 < h
      → get_height a < k
      → repair v (node w h a (node x k c d)) r ≡ some (updated x (updated w a c) (updated v d r))
  unfolding repair rotate_right rotate_left
  double_right p q = ground arith

  single_left :
      get_height r + 1 < h
      → get_height c ≤ get_height a
      → repair v r (node w h c a) ≡ some (updated w (updated v r c) a)
  unfolding repair rotate_left
  single_left p q = ground arith

  double_left :
      get_height r + 1 < h
      → get_height a < k
      → repair v r (node w h (node x k c d) a) ≡ some (updated x (updated v r c) (updated w d a))
  unfolding repair rotate_right rotate_left
  double_left p q = ground arith

module _ (v w x : ℤ) (n h k : ℕ) (a c d r : Tree) (aa : IsAvl a) (ar : IsAvl r) (en : h ≡ n + 1)
    (er : n ≡ get_height r + 1) where
  turn_single_right :
      IsAvl c
      → get_height a ≡ n
      → get_height c ≤ n
      → n ≤ get_height c + 1
      → Returns (Shrinks (n + 2)) (repair v (node w h a c) r)
  turn_single_right ac ea p q = rw (single_right v w x h k a c d r (omega arith) (omega arith)) (
    (
      aa,
      (ac, ar, refl, omega arith, omega arith),
      refl,
      omega (arith, max_native),
      omega (arith, max_native),
    ),
    omega (arith, max_native),
  )

  turn_single_left :
      IsAvl c
      → get_height a ≡ n
      → get_height c ≤ n
      → n ≤ get_height c + 1
      → Returns (Shrinks (n + 2)) (repair v r (node w h c a))
  turn_single_left ac ea p q = rw (single_left v w x h k a c d r (omega arith) (omega arith)) (
    (
      (ar, ac, refl, omega arith, omega arith),
      aa,
      refl,
      omega (arith, max_native),
      omega (arith, max_native),
    ),
    omega (arith, max_native),
  )

  turn_double_right :
      IsAvl (node x k c d)
      → k ≡ n
      → get_height a + 1 ≡ n
      → Returns (Shrinks (n + 2)) (repair v (node w h a (node x k c d)) r)
  turn_double_right (ac, ad, ek, p, q) ec ea =
      rw (double_right v w x h k a c d r (omega arith) (omega arith)) (
        (
          (aa, ac, refl, omega (arith, max_native), omega (arith, max_native)),
          (ad, ar, refl, omega (arith, max_native), omega (arith, max_native)),
          refl,
          omega (arith, max_native),
          omega (arith, max_native),
        ),
        inr (omega (arith, max_native)),
      )

  turn_double_left :
      IsAvl (node x k c d)
      → k ≡ n
      → get_height a + 1 ≡ n
      → Returns (Shrinks (n + 2)) (repair v r (node w h (node x k c d) a))
  turn_double_left (ac, ad, ek, p, q) ec ea =
      rw (double_left v w x h k a c d r (omega arith) (omega arith)) (
        (
          (ar, ac, refl, omega (arith, max_native), omega (arith, max_native)),
          (ad, aa, refl, omega (arith, max_native), omega (arith, max_native)),
          refl,
          omega (arith, max_native),
          omega (arith, max_native),
        ),
        inr (omega (arith, max_native)),
      )

-- the left child is too high by one
turn_left :
    (v : ℤ) (n : ℕ) (l r : Tree)
    → IsAvl l
    → IsAvl r
    → get_height l ≡ n + 1
    → n ≡ get_height r + 1
    → Returns (Shrinks (n + 2)) (repair v l r)
turn_left v n leaf r al ar en er = absurd (omega arith)
turn_left v n (node w h a leaf) r al ar en er =
    turn_single_right v w w n h h a leaf a r al.0 ar en er al.1 (omega (arith, max_native))
      (omega (arith, max_native)) (omega (arith, max_native))
turn_left v n (node w h a (node x k c d)) r al ar en er = elim (Bool-cases (ltb (get_height a) k)) [
  | inl lt ↦
      let less = ltb→lt _ _ lt in
      turn_double_right v w x n h k a c d r al.0 ar en er al.1 (omega (arith, max_native))
        (omega (arith, max_native))
  | inr ge ↦
      let more : k ≤ get_height a = ground arith in
      turn_single_right v w w n h h a (node x k c d) a r al.0 ar en er al.1
        (omega (arith, max_native)) (omega (arith, max_native)) (omega (arith, max_native))
]

-- the right child is too high by one
turn_right :
    (v : ℤ) (n : ℕ) (l r : Tree)
    → IsAvl r
    → IsAvl l
    → get_height r ≡ n + 1
    → n ≡ get_height l + 1
    → Returns (Shrinks (n + 2)) (repair v l r)
turn_right v n l leaf al ar en er = absurd (omega arith)
turn_right v n l (node w h leaf a) al ar en er =
    turn_single_left v w w n h h a leaf a l al.1 ar en er al.0 (omega (arith, max_native))
      (omega (arith, max_native)) (omega (arith, max_native))
turn_right v n l (node w h (node x k c d) a) al ar en er =
    elim (Bool-cases (ltb (get_height a) k)) [
      | inl lt ↦
          let less = ltb→lt _ _ lt in
          turn_double_left v w x n h k a c d l al.1 ar en er al.0 (omega (arith, max_native))
            (omega (arith, max_native))
      | inr ge ↦
          let more : k ≤ get_height a = ground arith in
          turn_single_left v w w n h h a (node x k c d) a l al.1 ar en er al.0
            (omega (arith, max_native)) (omega (arith, max_native)) (omega (arith, max_native))
    ]

-- one child has lost at most one level: `m` is the height before
pub repair-Shrinks :
    (v : ℤ) (m : ℕ) (l r : Tree)
    → IsAvl l
    → IsAvl r
    → get_height l ≤ get_height r + 2
    → get_height r ≤ get_height l + 2
    → max (get_height l) (get_height r) + 1 ≤ m
    → m ≤ max (get_height l) (get_height r) + 2
    → (get_height l ≡ get_height r + 2 → m ≡ max (get_height l) (get_height r) + 1)
    → (get_height r ≡ get_height l + 2 → m ≡ max (get_height l) (get_height r) + 1)
    → Returns (Shrinks m) (repair v l r)
repair-Shrinks v m l r al ar p q lo hi el er =
    elim (Bool-cases (ltb (get_height r + 1) (get_height l))) [
      | inl left ↦
          let lt = ltb→lt _ _ left in
          let e : m ≡ get_height r + 1 + 2 = omega (arith, max_native) in
          rw e (turn_left v (get_height r + 1) l r al ar (omega arith) refl)
      | inr not_left ↦ elim (Bool-cases (ltb (get_height l + 1) (get_height r))) [
        | inl right ↦
            let lt = ltb→lt _ _ right in
            let e : m ≡ get_height l + 1 + 2 = omega (arith, max_native) in
            rw e (turn_right v (get_height l + 1) l r ar al (omega arith) refl)
        | inr not_right ↦
            let p' : get_height l ≤ get_height r + 1 = ground arith in
            let q' : get_height r ≤ get_height l + 1 = ground arith in
            rw (repair_still v l r p' q') ((al, ar, refl, p', q'), omega (arith, max_native))
      ]
    ]
