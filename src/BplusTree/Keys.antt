-- ===== src/BplusTree/Keys.antt =====
-- The tree of `main` from one key to the next.
use iitm.Prelude.{
  ℕ, suc, ◌+◌, ◌≤◌, ◌≡◌, refl, ap, ltb, if◌then◌else◌, Option, none, some, List, [], ◌∷◌, ◌++◌,
  arith,
}
use iitm.Prelude.Int.{ℤ}
use iitm.BplusTree.{
  Leaf, Tree, State, create, new_root, insert, insert_key, insert_all, leaves, leaves_below,
}
use iitm.BplusTree.Placed.{one, occurrences}
use iitm.BplusTree.Leaves.{keys_of, start, IsChain, copies, fresh}
use iitm.BplusTree.Shape.{IsOrdered, AreOrdered, IsLevel, AreLevel, leaves_up, IsSibling}
use iitm.BplusTree.Insertion.{insert-Inserts}

-- The keys are in order, all leaves at one depth and no node too full. The chain is the leaves from
-- left to right, and no two have one address.
pub record IsValid (s : State) : Type 0 where
  pub ordered : IsOrdered s.root
  pub level : (d : ℕ) × IsLevel d s.root
  pub chain : IsChain (leaves s.root) none
  pub addresses : (a : ℕ) → copies a (leaves s.root) ≤ (if ltb a s.allocated then 1 else 0)

abbrev pub contents : State → List ℤ
contents s = keys_of (leaves s.root)

new_root-leaves :
    (t : Tree) (up : Option (ℤ × Tree)) → leaves (new_root t up) ≡ leaves t ++ leaves_up up
unfolding leaves leaves_below
new_root-leaves t none = append-nil' (leaves t)
  where
    append-nil' : (ls : List Leaf) → ls ≡ ls ++ []
    append-nil' [] = refl
    append-nil' (l ∷ ls) = ap (λ ks. l ∷ ks) (append-nil' ls)
new_root-leaves t (some (k, s)) = refl

new_root-shape :
    (d : ℕ) (t : Tree) (up : Option (ℤ × Tree))
    → IsOrdered t
    → IsLevel d t
    → IsSibling d (leaves t) up
    → IsOrdered (new_root t up) × ((e : ℕ) × IsLevel e (new_root t up))
unfolding leaves leaves_below IsOrdered AreOrdered IsLevel AreLevel
new_root-shape d t none o v s = (o, (d, v))
new_root-shape d t (some (k, t')) o v (h, h', a, b, o', v') =
    ((h, a, b, o, (h', o')), (suc d, (omega arith, omega arith, (v, v'))))

-- `insert` at the root of a valid tree, with the new root that `main` makes when it was split, leaves
-- a valid tree: it has the key once more than before, and every other key as often as before.
pub insert_key-IsValid :
    (key : ℤ) (s : State)
    → IsValid s
    → IsValid (insert_key key s)
      × ((x : ℤ)
          → occurrences x (contents (insert_key key s)) ≡ one x key + occurrences x (contents s))
unfolding insert_key fresh
insert_key-IsValid key s v =
    let r = insert key s.allocated s.root in
    let (d, level) = v.level in
    let i = insert-Inserts key s.allocated d s.root v.ordered level in
    let (o, l) = new_root-shape d r.root r.up i.ordered i.level i.sibling in
    let e = new_root-leaves r.root r.up in
    (
      record {
        ordered = o;
        level = l;
        chain = rw e (i.grows.chain none v.chain);
        addresses =
            λ a. rw e (ground (arith, i.grows.addresses a, v.addresses a, i.grows.allocated));
      },
      λ x. rw e (i.grows.contents x),
    )

create-IsValid : IsValid create
unfolding leaves IsOrdered IsLevel IsChain start copies
create-IsValid = record {
  ordered = tt;
  level = (0, omega arith);
  chain = (refl, tt);
  addresses = λ a. ground arith;
}

insert_all-from :
    (s : State) (keys : List ℤ)
    → IsValid s
    → IsValid (insert_all s keys)
      × ((x : ℤ)
          → occurrences x (contents (insert_all s keys))
            ≡ occurrences x keys + occurrences x (contents s))
unfolding insert_all occurrences
insert_all-from s [] v = (v, λ x. omega arith)
insert_all-from s (key ∷ keys) v =
    let (w, f) = insert_key-IsValid key s v in
    let (z, g) = insert_all-from (insert_key key s) keys w in (z, λ x. omega (arith, f x, g x))

pub insert_all-IsValid :
    (keys : List ℤ)
    → IsValid (insert_all create keys)
      × ((x : ℤ) → occurrences x (contents (insert_all create keys)) ≡ occurrences x keys)
unfolding leaves keys_of occurrences
insert_all-IsValid keys =
    let (v, f) = insert_all-from create keys create-IsValid in (v, λ x. omega (arith, f x))
