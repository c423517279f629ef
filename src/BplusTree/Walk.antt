-- ===== src/BplusTree/Walk.antt =====
-- The chain of a valid tree, followed from the first leaf with a key to print.
use iitm.Prelude.{
  ℕ, zero, suc, ◌≤◌, ◌<◌, ◌≡◌, refl, sym, ap, ◌∙◌, subst, Bool, ltb→lt, Bool-cases, if◌then◌else◌,
  Option, none, some, ◌>>=◌, Returns, Returns-mono, List, [], ◌∷◌, ◌++◌, length, length-append,
  arith, inl, inr,
}
use mathlib.Core.List.{append_assoc, append-nil}
use iitm.Prelude.Int.{ℤ, ◌≤ℤ◌, ◌<ℤ◌, ltb_ℤ}
use iitm.SortedList.{All}
use iitm.BplusTree.{
  Leaf, Tree, Children, State, leaf, internal, last, before, create, insert_all, leaves,
  leaves_below, find_leaf, find_below, lookup, scan, walk, print_range,
}
use iitm.BplusTree.Placed.{occurrences, IsAscending, All-mono, IsAscending-right, IsAscending-left}
use iitm.BplusTree.Leaves.{
  keys_of, keys_of-append, start, IsChain, IsChain-split, copies, lookup_self, All-join,
}
use iitm.BplusTree.Shape.{IsOrdered, AreOrdered, keys_of-IsAscending}
use iitm.BplusTree.Keys.{IsValid, contents, insert_all-IsValid}
use iitm.BplusTree.Range.{
  is_in, select, select-append, select-below, select-IsAscending, occurrences-select, scan-select,
  scan-stops,
}

-- what one leaf prints, then what the others do
rest_after :
    (m : Option (List ℤ × Bool)) (here rest all : List ℤ)
    → all ≡ here ++ rest
    → Returns (λ (out, line). out ≡ rest) m
    → Returns {A = List ℤ × Bool}
        (λ (out, line). out ≡ all)
        (m >>= λ (out, line). some (here ++ out, line))
rest_after none here rest all e r = elim r [ ]
rest_after (some (out, line)) here rest all e r = ap (λ xs. here ++ xs) r ∙ sym e

module _ (lo hi : ℤ) where
  walk-select :
      (fuel : ℕ) (ls pre post : List Leaf)
      → ls ≡ pre ++ post
      → ((a : ℕ) → copies a ls ≤ 1)
      → IsChain post none
      → IsAscending (keys_of post)
      → length post < fuel
      → Returns
          (λ (out, line). out ≡ select lo hi (keys_of post))
          (walk lo hi ls fuel (start post none))
  unfolding walk IsChain start keys_of select
  walk-select zero ls pre post e c ch s h = absurd (omega arith)
  walk-select (suc fuel) ls pre [] e c ch s h = refl
  walk-select (suc fuel) ls pre (l ∷ post) e c (n, ch) s h =
      let found : lookup l.address ls ≡ some l =
        ap (lookup l.address) e
        ∙ lookup_self pre post l (subst (λ xs. copies l.address xs ≤ 1) e (c l.address)) in
      let here = scan-select lo hi l.keys (IsAscending-left l.keys (keys_of post) s) in
      let both = select-append lo hi l.keys (keys_of post) in
      let rest =
        walk-select fuel ls (pre ++ l ∷ []) post (e ∙ sym (append_assoc pre (l ∷ []) post)) c ch
          (IsAscending-right l.keys (keys_of post) s) (omega arith) in
      elim (Bool-cases (scan lo hi l.keys).1) [
        | inl t ↦
            rw (found, t, both, scan-stops lo hi l.keys (keys_of post) t s)
              (here ∙ sym (append-nil (select lo hi l.keys)))
        | inr f ↦
            rw (found, f, n)
              (rest_after (walk lo hi ls fuel (start post none)) (scan lo hi l.keys).0
                (select lo hi (keys_of post)) _
                (both ∙ ap (λ xs. xs ++ select lo hi (keys_of post)) (sym here)) rest)
      ]

-- The leaf that the search ends at: all keys before it are below the range.
pub record Splits (lo : ℤ) (ls : List Leaf) (l : Leaf) : Type 0 where
  pre : List Leaf
  post : List Leaf
  parts : ls ≡ pre ++ l ∷ post
  below : All (λ x. x <ℤ lo) (keys_of pre)

mutual
  unfolding find_leaf find_below leaves leaves_below IsOrdered AreOrdered keys_of

  find_leaf-Splits : (lo : ℤ) (t : Tree) → IsOrdered t → Splits lo (leaves t) (find_leaf lo t)
  find_leaf-Splits lo (leaf l) o = record { pre = []; post = []; parts = refl; below = tt }
  find_leaf-Splits lo (internal cs) o = find_below-Splits lo cs o

  find_below-Splits :
      (lo : ℤ) (cs : Children) → AreOrdered cs → Splits lo (leaves_below cs) (find_below lo cs)
  find_below-Splits lo (last child) (h, o) = find_leaf-Splits lo child o
  find_below-Splits lo (before child k cs) (h, a, b, o, os) = elim (Bool-cases (ltb_ℤ k lo)) [
    | inl t ↦
        let r = find_below-Splits lo cs os in
        let low =
          All-mono (λ x. x ≤ℤ k) (λ x. x <ℤ lo) (keys_of (leaves child))
            (λ x p. omega (arith, ltb→lt _ _ t)) a in
        rw t (record {
          pre = leaves child ++ r.pre;
          post = r.post;
          parts =
              ap (λ ls. leaves child ++ ls) r.parts
              ∙ sym (append_assoc (leaves child) r.pre (find_below lo cs ∷ r.post));
          below = All-join (λ x. x <ℤ lo) (leaves child) r.pre low r.below;
        })
    | inr f ↦
        let r = find_leaf-Splits lo child o in
        rw f (record {
          pre = r.pre;
          post = r.post ++ leaves_below cs;
          parts =
              ap (λ ls. ls ++ leaves_below cs) r.parts
              ∙ append_assoc r.pre (find_leaf lo child ∷ r.post) (leaves_below cs);
          below = r.below;
        })
  ]

-- In a valid tree the loops end, and print the keys of the range.
print_range-select :
    (s : State) (lo hi : ℤ)
    → IsValid s
    → Returns (λ (out, line). out ≡ select lo hi (contents s)) (print_range s.root lo hi)
unfolding print_range start
print_range-select s lo hi v =
    let ls = leaves s.root in
    let r = find_leaf-Splits lo s.root v.ordered in
    let l = find_leaf lo s.root in
    let e : keys_of ls ≡ keys_of r.pre ++ keys_of (l ∷ r.post) =
      ap keys_of r.parts ∙ keys_of-append r.pre (l ∷ r.post) in
    let up : IsAscending (keys_of ls) = keys_of-IsAscending s.root v.ordered in
    let same : select lo hi (keys_of ls) ≡ select lo hi (keys_of (l ∷ r.post)) =
      ap (select lo hi) e
      ∙ select-append lo hi (keys_of r.pre) (keys_of (l ∷ r.post))
      ∙ ap (λ xs. xs ++ select lo hi (keys_of (l ∷ r.post)))
          (select-below lo hi (keys_of r.pre) r.below) in
    rw same (
      walk-select lo hi (suc (length ls)) ls r.pre (l ∷ r.post) r.parts
        (λ a. ground (arith, v.addresses a))
        (IsChain-split r.pre (l ∷ r.post) none (subst (λ xs. IsChain xs none) r.parts v.chain)).1
        (IsAscending-right (keys_of r.pre) (keys_of (l ∷ r.post)) (subst IsAscending e up))
        (omega (arith, length-append r.pre (l ∷ r.post), ap length r.parts)))

-- After any keys were inserted in any order, `printRange` ends and prints those from `lo` to `hi`
-- in ascending order, each as often as it was inserted.
pub print_range-Returns :
    (keys : List ℤ) (lo hi : ℤ)
    → Returns
        (λ (out, line).
          IsAscending out
          × ((x : ℤ) → occurrences x out ≡ (if is_in lo hi x then occurrences x keys else 0)))
        (print_range (insert_all create keys).root lo hi)
print_range-Returns keys lo hi =
    let s = insert_all create keys in
    let (v, f) = insert_all-IsValid keys in
    Returns-mono _ _ (print_range s.root lo hi) (print_range-select s lo hi v) λ (out, line) e. (
      rw e (select-IsAscending lo hi (contents s) (keys_of-IsAscending s.root v.ordered)),
      λ x.
          ap (occurrences x) e
          ∙ occurrences-select lo hi x (contents s)
          ∙ ap (λ n. if is_in lo hi x then n else 0) (f x),
    )
