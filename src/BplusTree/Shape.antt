-- ===== src/BplusTree/Shape.antt =====
-- What a tree keeps: its order, and all leaves at one depth, with no node too full.
use iitm.Prelude.{
  ℕ, zero, suc, ◌+◌, ◌≤◌, ◌<◌, ◌≡◌, refl, sym, ap, ◌∙◌, subst, if◌then◌else◌, Option, none, some,
  List, [], ◌∷◌, ◌++◌, length, arith,
}
use mathlib.Core.List.{append_assoc, append-nil}
use iitm.Prelude.Int.{ℤ, ◌≤ℤ◌}
use iitm.SortedList.{All}
use iitm.BplusTree.{
  Leaf, Tree, Children, leaf, internal, last, before, count, leaves, leaves_below, max_keys,
  Inserted, Below, attach, keep, take_children, split_up, mid,
}
use iitm.BplusTree.Placed.{IsAscending, IsAscending-append, All-mono}
use iitm.BplusTree.Leaves.{
  keys_of, keys_of-append, length-keys_of, Grows, Grows-after, Grows-before, All-join, All-split,
}

abbrev pub HasKey : List Leaf → Type 0
HasKey ls = 0 < length (keys_of ls)

abbrev pub AllUpTo : ℤ → List Leaf → Type 0
AllUpTo k ls = All (λ x. x ≤ℤ k) (keys_of ls)

abbrev pub AllFrom : ℤ → List Leaf → Type 0
AllFrom k ls = All (λ x. k ≤ℤ x) (keys_of ls)

-- Each key of an internal node stands between its neighbours' keys, which there are.
unfoldable mutual
  pub IsOrdered : Tree → Type 0
  IsOrdered (leaf l) = IsAscending l.keys
  IsOrdered (internal cs) = AreOrdered cs

  pub AreOrdered : Children → Type 0
  AreOrdered (last child) = HasKey (leaves child) × IsOrdered child
  AreOrdered (before child k cs) =
      HasKey (leaves child)
      × AllUpTo k (leaves child)
      × AllFrom k (leaves_below cs)
      × IsOrdered child
      × AreOrdered cs

-- All leaves at the depth, and between 1 and `max_keys` keys in an internal node.
unfoldable mutual
  pub IsLevel : ℕ → Tree → Type 0
  IsLevel zero (leaf l) = length l.keys ≤ max_keys
  IsLevel zero (internal cs) = ⊥
  IsLevel (suc d) (leaf l) = ⊥
  IsLevel (suc d) (internal cs) = (0 < count cs) × (count cs ≤ max_keys) × AreLevel d cs

  pub AreLevel : ℕ → Children → Type 0
  AreLevel d (last child) = IsLevel d child
  AreLevel d (before child k cs) = IsLevel d child × AreLevel d cs

abbrev pub leaves_up : Option (ℤ × Tree) → List Leaf
leaves_up none = []
leaves_up (some (k, t)) = leaves t

-- A node and the sibling that it may have been split from.
abbrev pub IsSibling : ℕ → List Leaf → Option (ℤ × Tree) → Type 0
IsSibling d ls none = Unit
IsSibling d ls (some (k, t)) =
    HasKey ls × HasKey (leaves t) × AllUpTo k ls × AllFrom k (leaves t) × IsOrdered t × IsLevel d t

pub record Inserts (key : ℤ) (n d : ℕ) (t : Tree) (r : Inserted) : Type 1 where
  pub grows : Grows key n r.allocated (leaves t) (leaves r.root ++ leaves_up r.up)
  pub ordered : IsOrdered r.root
  pub level : IsLevel d r.root
  pub sibling : IsSibling d (leaves r.root) r.up

pub record InsertsBelow (key : ℤ) (n d : ℕ) (cs : Children) (b : Below) : Type 1 where
  pub grows : Grows key n b.allocated (leaves_below cs) (leaves_below b.children)
  pub ordered : AreOrdered b.children
  pub level : AreLevel d b.children
  pub counted : count b.children ≡ count cs + (if b.split then 1 else 0)

between :
    (j k : ℤ) (xs : List ℤ) → 0 < length xs → All (λ x. j ≤ℤ x) xs → All (λ x. x ≤ℤ k) xs → j ≤ℤ k
between j k [] h a b = absurd (omega arith)
between j k (x ∷ xs) h (p, a) (q, b) = omega arith

AllFrom-trans : (j k : ℤ) (ls : List Leaf) → j ≤ℤ k → AllFrom k ls → AllFrom j ls
AllFrom-trans j k ls h a = All-mono (λ x. k ≤ℤ x) (λ x. j ≤ℤ x) (keys_of ls) (λ x p. omega arith) a

AllUpTo-trans : (j k : ℤ) (ls : List Leaf) → j ≤ℤ k → AllUpTo j ls → AllUpTo k ls
AllUpTo-trans j k ls h a = All-mono (λ x. x ≤ℤ j) (λ x. x ≤ℤ k) (keys_of ls) (λ x p. omega arith) a

HasKey-append : (xs ys : List Leaf) → HasKey xs → HasKey (xs ++ ys)
HasKey-append xs ys h = omega (arith, length-keys_of xs ys)

pub AreOrdered-HasKey : (cs : Children) → AreOrdered cs → HasKey (leaves_below cs)
unfolding leaves_below AreOrdered
AreOrdered-HasKey (last child) (h, o) = h
AreOrdered-HasKey (before child k cs) (h, a, b, o, os) =
    HasKey-append (leaves child) (leaves_below cs) h

-- The keys of an ordered tree, from left to right, ascend.
mutual
  unfolding leaves leaves_below keys_of IsOrdered AreOrdered

  pub keys_of-IsAscending : (t : Tree) → IsOrdered t → IsAscending (keys_of (leaves t))
  keys_of-IsAscending (leaf l) o = rw (append-nil l.keys) o
  keys_of-IsAscending (internal cs) o = below-IsAscending cs o

  below-IsAscending : (cs : Children) → AreOrdered cs → IsAscending (keys_of (leaves_below cs))
  below-IsAscending (last child) (h, o) = keys_of-IsAscending child o
  below-IsAscending (before child k cs) (h, a, b, o, os) =
      rw (keys_of-append (leaves child) (leaves_below cs)) (
        IsAscending-append k (keys_of (leaves child)) (keys_of (leaves_below cs))
          (keys_of-IsAscending child o) (below-IsAscending cs os) a b)

module _ {key : ℤ} {n d m : ℕ} {t root : Tree} where
  no_sibling :
      Inserts key n d t (record { root = root; up = none; allocated = m })
      → Grows key n m (leaves t) (leaves root)
  no_sibling i = subst (Grows key n m (leaves t)) (append-nil (leaves root)) i.grows

  pub attach_last :
      (up : Option (ℤ × Tree))
      → HasKey (leaves t)
      → Inserts key n d t (record { root = root; up = up; allocated = m })
      → InsertsBelow key n d (last t) (attach (record { root = root; up = up; allocated = m }) last)
  unfolding leaves_below AreOrdered AreLevel
  attach_last none h i = record {
    grows = no_sibling i;
    ordered = (omega (arith, (no_sibling i).size), i.ordered);
    level = i.level;
    counted = refl;
  }
  attach_last (some (k, s)) h i =
      let (hr, hs, a, b, o, v) = i.sibling in
      record {
        grows = i.grows;
        ordered = (hr, a, b, i.ordered, (hs, o));
        level = (i.level, v);
        counted = refl;
      }

  pub attach_before :
      (k : ℤ) (cs : Children) (up : Option (ℤ × Tree))
      → key ≤ℤ k
      → AreOrdered (before t k cs)
      → AreLevel d cs
      → Inserts key n d t (record { root = root; up = up; allocated = m })
      → InsertsBelow key n d
          (before t k cs)
          (attach (record { root = root; up = up; allocated = m }) (λ s. before s k cs))
  unfolding leaves_below AreOrdered AreLevel
  attach_before k cs none le (h, a, b, o, os) v i = record {
    grows = Grows-before (no_sibling i) (leaves_below cs);
    ordered = (
      omega (arith, (no_sibling i).size),
      (no_sibling i).all (λ x. x ≤ℤ k) le a,
      b,
      i.ordered,
      os,
    );
    level = (i.level, v);
    counted = omega arith;
  }
  attach_before k cs (some (j, s)) le (h, a, b, o, os) v i =
      let (hr, hs, c, e, p, w) = i.sibling in
      let (_, f) =
        All-split (λ x. x ≤ℤ k) (leaves root) (leaves s) (i.grows.all (λ x. x ≤ℤ k) le a) in
      let jk : j ≤ℤ k = between j k (keys_of (leaves s)) hs e f in
      record {
        grows =
            subst (Grows key n m (leaves t ++ leaves_below cs))
              (append_assoc (leaves root) (leaves s) (leaves_below cs))
              (Grows-before i.grows (leaves_below cs));
        ordered = (
          hr,
          c,
          All-join (λ x. j ≤ℤ x) (leaves s) (leaves_below cs) e (AllFrom-trans j k _ jk b),
          i.ordered,
          (hs, f, b, p, os),
        );
        level = (i.level, (w, v));
        counted = omega arith;
      }

-- the call for a child further right
pub keep_before :
    {key : ℤ} {n d : ℕ} (child : Tree) (k : ℤ) (cs : Children) (b : Below)
    → k ≤ℤ key
    → AreOrdered (before child k cs)
    → IsLevel d child
    → InsertsBelow key n d cs b
    → InsertsBelow key n d (before child k cs) (keep child k b)
unfolding leaves_below AreOrdered AreLevel
keep_before child k cs b le (h, a, f, o, os) v i = record {
  grows = Grows-after i.grows (leaves child);
  ordered = (h, a, i.grows.all (λ x. k ≤ℤ x) le f, o, i.ordered);
  level = (v, i.level);
  counted = omega (arith, i.counted);
}

-- A full internal node with one child more, cut in two.
pub split_node :
    {key : ℤ} {n d m : ℕ} (cs cs' : Children)
    → count cs' ≡ 4
    → Grows key n m (leaves_below cs) (leaves_below cs')
    → AreOrdered cs'
    → AreLevel d cs'
    → Inserts key n
        (suc d)
        (internal cs)
        (record { root = internal (take_children mid cs'); up = split_up mid cs'; allocated = m })
unfolding leaves leaves_below IsOrdered AreOrdered IsLevel AreLevel
split_node cs (last c₀) e g o v = absurd (omega arith)
split_node cs (before c₀ k₀ (last c₁)) e g o v = absurd (omega arith)
split_node cs (before c₀ k₀ (before c₁ k₁ (last c₂))) e g o v = absurd (omega arith)
split_node {key} {n} {m = m} cs (before c₀ k₀ (before c₁ k₁ (before c₂ k₂ rest))) e g
      (h₀, a₀, b₀, o₀, (h₁, a₁, b₁, o₁, (h₂, a₂, b₂, o₂, os))) (v₀, (v₁, (v₂, vs))) =
    record {
      grows = subst (Grows key n m (leaves_below cs)) regroup g;
      ordered = (
        h₀,
        a₀,
        All-join (λ x. k₀ ≤ℤ x) (leaves c₁) (leaves c₂) (f.0) f₂.0,
        o₀,
        (h₁, a₁, (All-split (λ x. k₁ ≤ℤ x) (leaves c₂) (leaves_below rest) b₁).0, o₁, (h₂, o₂)),
      );
      level = (omega arith, omega arith, (v₀, (v₁, v₂)));
      sibling = (
        HasKey-append (leaves c₀) (leaves c₁ ++ leaves c₂) h₀,
        AreOrdered-HasKey rest os,
        All-join (λ x. x ≤ℤ k₂) (leaves c₀) (leaves c₁ ++ leaves c₂)
            (AllUpTo-trans k₀ k₂ _ (omega (arith, k₀₁, k₁₂)) a₀)
            (All-join (λ x. x ≤ℤ k₂) (leaves c₁) (leaves c₂) (AllUpTo-trans k₁ k₂ _ k₁₂ a₁) a₂),
        b₂,
        os,
        (omega arith, omega arith, vs),
      );
    }
  where
    f : AllFrom k₀ (leaves c₁) × AllFrom k₀ (leaves c₂ ++ leaves_below rest)
    f = All-split (λ x. k₀ ≤ℤ x) (leaves c₁) (leaves c₂ ++ leaves_below rest) b₀

    f₂ : AllFrom k₀ (leaves c₂) × AllFrom k₀ (leaves_below rest)
    f₂ = All-split (λ x. k₀ ≤ℤ x) (leaves c₂) (leaves_below rest) f.1

    k₀₁ : k₀ ≤ℤ k₁
    k₀₁ = between k₀ k₁ (keys_of (leaves c₁)) h₁ f.0 a₁

    k₁₂ : k₁ ≤ℤ k₂
    k₁₂ =
        between k₁ k₂ (keys_of (leaves c₂)) h₂
          (All-split (λ x. k₁ ≤ℤ x) (leaves c₂) (leaves_below rest) b₁).0 a₂

    regroup :
        leaves c₀ ++ (leaves c₁ ++ (leaves c₂ ++ leaves_below rest))
        ≡ (leaves c₀ ++ (leaves c₁ ++ leaves c₂)) ++ leaves_below rest
    regroup =
        ap (λ ls. leaves c₀ ++ ls) (sym (append_assoc (leaves c₁) (leaves c₂) (leaves_below rest)))
        ∙ sym (append_assoc (leaves c₀) (leaves c₁ ++ leaves c₂) (leaves_below rest))
