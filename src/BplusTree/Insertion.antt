-- ===== src/BplusTree/Insertion.antt =====
-- `insert` adds its key in order, and keeps the chain, the order and the depth of the leaves.
use iitm.Prelude.{
  ℕ, zero, suc, ◌≤◌, ◌<◌, ◌≡◌, refl, sym, ap, ◌∙◌, subst, true, false, ◌&&◌, if◌then◌else◌,
  Bool-cases, ltb, ltb→lt, List, [], ◌∷◌, ◌++◌, length, take, drop, length-take, length-drop,
  take-append-drop, get_or, arith, inl, inr,
}
use mathlib.Core.List.{append-nil}
use iitm.Prelude.Int.{ℤ, pos, ◌≤ℤ◌, ltb_ℤ}
use iitm.SortedList.{All}
use iitm.BplusTree.{
  Leaf, Tree, Children, leaf, internal, last, before, count, leaves, leaves_below, max_keys, mid,
  Below, place, insert_leaf, split_leaf, insert_into, grow, insert, insert_below,
}
use iitm.BplusTree.Placed.{
  IsAscending, place-IsAscending, place-All, occurrences-place, length-place, take-drop-IsAscending,
}
use iitm.BplusTree.Leaves.{keys_of, start, IsChain, copies, fresh, Grows}
use iitm.BplusTree.Shape.{
  IsOrdered, AreOrdered, IsLevel, AreLevel, Inserts, InsertsBelow, attach_last, attach_before,
  keep_before, split_node,
}

module _ (key : ℤ) (n : ℕ) (l : Leaf) where
  insert_leaf-Grows : Grows key n n (l ∷ []) (insert_leaf l key ∷ [])
  unfolding IsChain start copies fresh keys_of
  insert_leaf-Grows = record {
    allocated = omega arith;
    chain = λ e c. c;
    entered = λ e. refl;
    addresses = λ a. ground arith;
    contents =
        λ x. rw (append-nil (place key l.keys), append-nil l.keys) (occurrences-place key l.keys x);
    size = rw (append-nil (place key l.keys), append-nil l.keys) (length-place key l.keys);
    all = λ P p a.
        rw (append-nil (place key l.keys))
          (place-All key l.keys P p (subst (All P) (append-nil l.keys) a));
  }

  same_keys : keys_of ((split_leaf n l key).0 ∷ (split_leaf n l key).1 ∷ []) ≡ place key l.keys
  unfolding keys_of
  same_keys =
      ap (λ ks. take mid (place key l.keys) ++ ks) (append-nil (drop mid (place key l.keys)))
      ∙ take-append-drop mid (place key l.keys)

  split_leaf-Grows :
      Grows key n (suc n) (l ∷ []) ((split_leaf n l key).0 ∷ (split_leaf n l key).1 ∷ [])
  unfolding IsChain start copies fresh keys_of
  split_leaf-Grows = record {
    allocated = omega arith;
    chain = λ e (c, _). (refl, (c, tt));
    entered = λ e. refl;
    addresses = λ a. ground arith;
    contents = λ x. rw (same_keys, append-nil l.keys) (occurrences-place key l.keys x);
    size = rw (same_keys, append-nil l.keys) (length-place key l.keys);
    all = λ P p a. rw same_keys (place-All key l.keys P p (subst (All P) (append-nil l.keys) a));
  }

-- around the first key of the second part
parts_around :
    (n : ℕ) (xs : List ℤ)
    → n < length xs
    → IsAscending xs
    → All (λ x. x ≤ℤ get_or (drop n xs) 0 (pos 0)) (take n xs)
      × All (λ x. get_or (drop n xs) 0 (pos 0) ≤ℤ x) (drop n xs)
parts_around n [] h s = absurd (omega arith)
parts_around zero (x ∷ xs) h (a, s) = (tt, (omega arith, a))
parts_around (suc n) (x ∷ xs) h (a, s) =
    let (p, q) = parts_around n xs (omega arith) s in ((first x n xs a (omega arith), p), q)
  where
    first :
        (x : ℤ) (n : ℕ) (xs : List ℤ)
        → All (λ y. x ≤ℤ y) xs
        → n < length xs
        → x ≤ℤ get_or (drop n xs) 0 (pos 0)
    first x n [] a h = absurd (omega arith)
    first x zero (y ∷ ys) (p, a) h = p
    first x (suc n) (y ∷ ys) (p, a) h = first x n ys a (omega arith)

insert_into-Inserts :
    (key : ℤ) (n d : ℕ) (l : Leaf)
    → IsOrdered (leaf l)
    → IsLevel d (leaf l)
    → Inserts key n d (leaf l) (insert_into key n l)
unfolding insert_into leaves IsOrdered IsLevel keys_of
insert_into-Inserts key n (suc d) l o v = absurd v
insert_into-Inserts key n zero l o v = elim (Bool-cases (ltb (length l.keys) max_keys)) [
  | inl t ↦ rw t (record {
    grows = insert_leaf-Grows key n l;
    ordered = place-IsAscending key l.keys o;
    level = omega (arith, length-place key l.keys, ltb→lt _ _ t);
    sibling = tt;
  })
  | inr f ↦
      let full : length (place key l.keys) ≡ 4 = ground (arith, length-place key l.keys) in
      let s = place-IsAscending key l.keys o in
      let (first, second) = take-drop-IsAscending mid (place key l.keys) s in
      let (a, b) = parts_around mid (place key l.keys) (omega arith) s in
      rw f (record {
        grows = split_leaf-Grows key n l;
        ordered = first;
        level = omega (arith, length-take mid (place key l.keys));
        sibling =
            rw (append-nil (take mid (place key l.keys)), append-nil (drop mid (place key l.keys)))
              (
                omega (arith, length-take mid (place key l.keys)),
                omega (arith, length-drop mid (place key l.keys)),
                a,
                b,
                second,
                omega (arith, length-drop mid (place key l.keys)),
              );
      })
]

-- a node after the call for its child
grow-Inserts :
    (key : ℤ) (n d : ℕ) (cs : Children) (b : Below)
    → 0 < count cs
    → count cs ≤ max_keys
    → InsertsBelow key n d cs b
    → Inserts key n (suc d) (internal cs) (grow (count cs) b)
unfolding grow leaves leaves_below IsOrdered IsLevel
grow-Inserts key n d cs b h g i =
    elim (Bool-cases (b.split && (if ltb (count cs) max_keys then false else true))) [
      | inl t ↦
          rw t (split_node cs b.children (ground (arith, i.counted)) i.grows i.ordered i.level)
      | inr f ↦ rw f (record {
        grows = subst (Grows key n b.allocated (leaves_below cs)) (sym (append-nil _)) i.grows;
        ordered = i.ordered;
        level = (omega (arith, i.counted), ground (arith, i.counted), i.level);
        sibling = tt;
      })
    ]

mutual
  unfolding insert insert_below IsOrdered AreOrdered IsLevel AreLevel

  -- Each call adds its key in order, keeps the chain and the depth, and takes a fresh address.
  pub insert-Inserts :
      (key : ℤ) (n d : ℕ) (t : Tree)
      → IsOrdered t
      → IsLevel d t
      → Inserts key n d t (insert key n t)
  insert-Inserts key n d (leaf l) o v = insert_into-Inserts key n d l o v
  insert-Inserts key n zero (internal cs) o v = absurd v
  insert-Inserts key n (suc d) (internal cs) o (h, g, v) =
      grow-Inserts key n d cs (insert_below key n cs) h g (insert_below-Inserts key n d cs o v)

  insert_below-Inserts :
      (key : ℤ) (n d : ℕ) (cs : Children)
      → AreOrdered cs
      → AreLevel d cs
      → InsertsBelow key n d cs (insert_below key n cs)
  insert_below-Inserts key n d (last child) (h, o) v =
      attach_last (insert key n child).up h (insert-Inserts key n d child o v)
  insert_below-Inserts key n d (before child k cs) (h, a, b, o, os) (v, vs) =
      elim (Bool-cases (ltb_ℤ k key)) [
        | inl t ↦ rw t (
            keep_before child k cs (insert_below key n cs) (omega (arith, ltb→lt _ _ t))
              (h, a, b, o, os) v (insert_below-Inserts key n d cs os vs))
        | inr f ↦ rw f (
            attach_before k cs (insert key n child).up (ground arith) (h, a, b, o, os) vs
              (insert-Inserts key n d child o v))
      ]
