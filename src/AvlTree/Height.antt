-- ===== src/AvlTree/Height.antt =====
-- How high a tree of Trees/AVLTree.c can be.
use Prim.Native.Nat
use iitm.Prelude.{
  ℕ, zero, suc, ◌+◌, ◌≤◌, ◌≡◌, refl, ap, ◌∙◌, inl, inr, arith, Bool-cases, ltb, ltb→lt, List, [],
  ◌∷◌, length, length-append, Returns, Returns-mono,
}
use iitm.AvlTree.{Tree, leaf, node, max, get_height}
use iitm.AvlTree.Balance.{IsAvl, max_native}
use iitm.AvlTree.Order.{inorder}
use iitm.AvlTree.Menu.{Command, run, effects, run-Becomes}

unfoldable pub size : Tree → ℕ
size leaf = 0
size (node v h l r) = size l + size r + 1

-- the number of edges and one on a longest way down
unfoldable pub depth : Tree → ℕ
depth leaf = 0
depth (node v h l r) = Nat.max (depth l) (depth r) + 1

-- the least number of nodes of an AVL tree of height `n`, a Fibonacci number less one
unfoldable pub least_size : ℕ → ℕ
least_size zero = 0
least_size (suc zero) = 1
least_size (suc (suc n)) = least_size (suc n) + least_size n + 1

least_size_mono : (n : ℕ) → least_size n ≤ least_size (suc n)
unfolding least_size
least_size_mono zero = omega arith
least_size_mono (suc n) = omega arith

level : (n : ℕ) → least_size (suc n) ≤ least_size n + least_size n + 1
unfolding least_size
level zero = omega arith
level (suc n) = omega (arith, least_size_mono n)

uneven : (m n h : ℕ) → m ≡ suc n → h ≡ suc m → least_size h ≤ least_size m + least_size n + 1
unfolding least_size
uneven m n h p q = rw (q, p) (omega arith)

least_size_step :
    (m n h : ℕ)
    → h ≡ max m n + 1
    → m ≤ n + 1
    → n ≤ m + 1
    → least_size h ≤ least_size m + least_size n + 1
least_size_step m n h e p q = elim (Bool-cases (ltb n m)) [
  | inl high ↦ let lt = ltb→lt _ _ high in uneven m n h (omega arith) (omega (arith, max_native))
  | inr not_high ↦ elim (Bool-cases (ltb m n)) [
    | inl low ↦
        let lt = ltb→lt _ _ low in
        omega (arith, uneven n m h (omega arith) (omega (arith, max_native)))
    | inr not_low ↦
        let same : m ≡ n = ground arith in
        let e' : h ≡ suc n = omega (arith, max_native) in rw (e', same) (level n)
  ]
]

get_height-depth : (t : Tree) → IsAvl t → get_height t ≡ depth t
unfolding depth
get_height-depth leaf a = refl
get_height-depth (node v h l r) (al, ar, e, p, q) =
    rw (← get_height-depth l al, ← get_height-depth r ar)
      (e ∙ ap (λ n. n + 1) (max_native (get_height l) (get_height r)))

least_size-le-size : (t : Tree) → IsAvl t → least_size (get_height t) ≤ size t
unfolding size least_size
least_size-le-size leaf a = omega arith
least_size-le-size (node v h l r) (al, ar, e, p, q) = omega (
  arith,
  least_size-le-size l al,
  least_size-le-size r ar,
  least_size_step (get_height l) (get_height r) h e p q,
)

length-inorder : (t : Tree) → length (inorder t) ≡ size t
unfolding inorder size
length-inorder leaf = refl
length-inorder (node v h l r) =
    omega (arith, length-append (inorder l) (v ∷ inorder r), length-inorder l, length-inorder r)

-- Whatever is typed at the menu, the tree that the program has then stores at its root its real
-- number of levels `n`, and the keys that the commands leave in an ascending list are at least as many
-- as the sparsest AVL tree of `n` levels has.
pub run-depth_bound :
    (cs : List Command)
    → Returns
        (λ t. (get_height t ≡ depth t) × (least_size (depth t) ≤ length (effects [] cs)))
        (run leaf cs)
run-depth_bound cs = Returns-mono _ _ (run leaf cs) (run-Becomes cs) λ t b.
    let e = get_height-depth t b.valid.balanced in
    let fits : least_size (depth t) ≤ size t = rw (← e) (least_size-le-size t b.valid.balanced) in
    (e, omega (arith, fits, length-inorder t, ap length b.keys))
