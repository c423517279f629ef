-- ===== src/BplusTree.antt =====
-- Trees/BplusTreeDy.c: a B+ tree of at most three keys a node, with its leaves in a chain.
-- `keys[j]` of an internal node stands between `child[j]` and `child[j + 1]`. A leaf has an address, which its
-- predecessor's `next` names: no other pointer is shared, so the rest is a tree.
pub mod Placed
mod Leaves
mod Shape
mod Insertion
pub mod Keys
pub mod Range
pub mod Walk
use iitm.Prelude.{
  ℕ, zero, suc, ◌+◌, ◌/◌, Bool, true, false, ◌&&◌, Option, some, none, List, [], ◌∷◌, ◌++◌, length,
  take, drop, get_or, ltb, ◌==◌, if◌then◌else◌, ◌>>=◌, map,
}
use mathlib.Core.List.{reverse}
use iitm.Prelude.Int.{ℤ, pos, ltb_ℤ, leb_ℤ}

abbrev pub max_keys : ℕ
max_keys = 3

-- the index at which a full node is split
abbrev pub mid : ℕ
mid = (max_keys + 1) / 2

pub record Leaf : Type 0 where
  address : ℕ
  keys : List ℤ
  next : Option ℕ

mutual
  pub data Tree : Type 0 where
    leaf : Leaf → Tree
    internal : Children → Tree

  pub data Children : Type 0 where
    last : Tree → Children
    before : Tree → ℤ → Children → Children

-- the number of keys
abbrev pub count : Children → ℕ
count (last child) = 0
count (before child key cs) = suc (count cs)

-- The loop that moves larger keys up: the keys from the last to the first.
unfoldable pub shift : ℤ → List ℤ → List ℤ
shift key [] = key ∷ []
shift key (x ∷ xs) = if ltb_ℤ key x then x ∷ shift key xs else key ∷ x ∷ xs

unfoldable pub place : ℤ → List ℤ → List ℤ
place key keys = reverse (shift key (reverse keys))

abbrev pub insert_leaf : Leaf → ℤ → Leaf
insert_leaf l key = record { address = l.address; keys = place key l.keys; next = l.next }

-- The old leaf and the new one, at `address`. `tempKeys` is sorted by the same shifts.
abbrev pub split_leaf : ℕ → Leaf → ℤ → Leaf × Leaf
split_leaf address l key =
    let temp_keys = place key l.keys in
    (
      record { address = l.address; keys = take mid temp_keys; next = some address },
      record { address = address; keys = drop mid temp_keys; next = l.next },
    )

-- What `insert` leaves: the node, `upKey` and `newChild` if it was split, and the next address.
pub record Inserted : Type 0 where
  root : Tree
  up : Option (ℤ × Tree)
  allocated : ℕ

-- The children of an internal node after the call for one of them, and whether that was split.
pub record Below : Type 0 where
  children : Children
  split : Bool
  allocated : ℕ

-- The child, then its new sibling with the key between, in front of what follows.
abbrev pub put : Tree → Option (ℤ × Tree) → (Tree → Children) → Children
put child none follow = follow child
put child (some (key, sibling)) follow = before child key (follow sibling)

abbrev pub was_split : Option (ℤ × Tree) → Bool
was_split none = false
was_split (some up) = true

-- The children up to the index.
abbrev pub take_children : ℕ → Children → Children
take_children n (last child) = last child
take_children zero (before child key cs) = last child
take_children (suc n) (before child key cs) = before child key (take_children n cs)

-- The key at the index, and the new node of the children after it.
abbrev pub split_up : ℕ → Children → Option (ℤ × Tree)
split_up n (last child) = none
split_up zero (before child key cs) = some (key, internal cs)
split_up (suc n) (before child key cs) = split_up n cs

unfoldable pub insert_into : ℤ → ℕ → Leaf → Inserted
insert_into key n l =
    if ltb (length l.keys) max_keys
    then record { root = leaf (insert_leaf l key); up = none; allocated = n }
    else let (old, new) = split_leaf n l key in
      record { root = leaf old; up = some (get_or new.keys 0 (pos 0), leaf new); allocated = suc n }

-- An internal node that had so many keys.
unfoldable pub grow : ℕ → Below → Inserted
grow n b =
    if b.split && (if ltb n max_keys then false else true)
    then record {
      root = internal (take_children mid b.children);
      up = split_up mid b.children;
      allocated = b.allocated;
    }
    else record { root = internal b.children; up = none; allocated = b.allocated }

abbrev pub attach : Inserted → (Tree → Children) → Below
attach r follow = record {
  children = put r.root r.up follow;
  split = was_split r.up;
  allocated = r.allocated;
}

abbrev pub keep : Tree → ℤ → Below → Below
keep child key b = record {
  children = before child key b.children;
  split = b.split;
  allocated = b.allocated;
}

unfoldable mutual
  pub insert : ℤ → ℕ → Tree → Inserted
  insert key n (leaf l) = insert_into key n l
  insert key n (internal cs) = grow (count cs) (insert_below key n cs)

  -- the search for the child, and the call for it
  pub insert_below : ℤ → ℕ → Children → Below
  insert_below key n (last child) = attach (insert key n child) last
  insert_below key n (before child k cs) =
      if ltb_ℤ k key
      then keep child k (insert_below key n cs)
      else attach (insert key n child) (λ d. before d k cs)

-- the tree of `main`, and the next address
pub record State : Type 0 where
  pub root : Tree
  allocated : ℕ

abbrev pub create : State
create = record { root = leaf (record { address = 0; keys = []; next = none }); allocated = 1 }

abbrev pub new_root : Tree → Option (ℤ × Tree) → Tree
new_root t none = t
new_root t (some (key, child)) = internal (before t key (last child))

unfoldable pub insert_key : ℤ → State → State
insert_key key s =
    let r = insert key s.allocated s.root in
    record { root = new_root r.root r.up; allocated = r.allocated }

unfoldable pub insert_all : State → List ℤ → State
insert_all s [] = s
insert_all s (key ∷ keys) = insert_all (insert_key key s) keys

-- The leaf that holds the first key to print.
unfoldable mutual
  pub find_leaf : ℤ → Tree → Leaf
  find_leaf start (leaf l) = l
  find_leaf start (internal cs) = find_below start cs

  pub find_below : ℤ → Children → Leaf
  find_below start (last child) = find_leaf start child
  find_below start (before child k cs) =
      if ltb_ℤ k start then find_below start cs else find_leaf start child

-- The leaves from left to right.
unfoldable mutual
  pub leaves : Tree → List Leaf
  leaves (leaf l) = l ∷ []
  leaves (internal cs) = leaves_below cs

  pub leaves_below : Children → List Leaf
  leaves_below (last child) = leaves child
  leaves_below (before child k cs) = leaves child ++ leaves_below cs

-- The leaf at an address.
unfoldable pub lookup : ℕ → List Leaf → Option Leaf
lookup a [] = none
lookup a (l ∷ ls) = if l.address == a then some l else lookup a ls

-- What the loop over one leaf prints, and whether it returns.
unfoldable pub scan : ℤ → ℤ → List ℤ → List ℤ × Bool
scan start end [] = ([], false)
scan start end (k ∷ ks) =
    let rest = if ltb_ℤ end k then ([], true) else scan start end ks in
    (if leb_ℤ start k && leb_ℤ k end then k ∷ rest.0 else rest.0, rest.1)

-- What is printed along the chain, and whether the line is ended.
unfoldable pub walk : ℤ → ℤ → List Leaf → ℕ → Option ℕ → Option (List ℤ × Bool)
walk start end ls zero at = none
walk start end ls (suc fuel) none = some ([], true)
walk start end ls (suc fuel) (some a) = lookup a ls >>= λ l.
    if (scan start end l.keys).1
    then some ((scan start end l.keys).0, false)
    else (walk start end ls fuel l.next >>= λ (out, line).
        some ((scan start end l.keys).0 ++ out, line))

unfoldable pub print_range : Tree → ℤ → ℤ → Option (List ℤ × Bool)
print_range t start end =
    walk start end (leaves t) (suc (length (leaves t))) (some (find_leaf start t).address)

abbrev pub separators : Children → List ℤ
separators (last child) = []
separators (before child k cs) = k ∷ separators cs

-- The lines of the traversal: a level and the keys of a node.
unfoldable mutual
  pub print_tree : Tree → ℕ → List (ℕ × List ℤ)
  print_tree (leaf l) level = (level, l.keys) ∷ []
  print_tree (internal cs) level = (level, separators cs) ∷ print_below cs (suc level)

  pub print_below : Children → ℕ → List (ℕ × List ℤ)
  print_below (last child) level = print_tree child level
  print_below (before child k cs) level = print_tree child level ++ print_below cs level
