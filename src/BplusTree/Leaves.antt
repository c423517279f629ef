-- ===== src/BplusTree/Leaves.antt =====
-- The chain of leaves: their order, addresses and keys, and what adding one key does to them.
use iitm.Prelude.{
  ℕ, suc, ◌+◌, ◌≤◌, ◌≡◌, refl, sym, ap, ◌∙◌, Bool, ◌&&◌, ltb, leb, ◌==◌, if◌then◌else◌, Option,
  some, List, [], ◌∷◌, ◌++◌, length, length-append, arith, inl, inr, Bool-cases,
}
use mathlib.Core.List.{append_assoc}
use iitm.Prelude.Int.{ℤ}
use iitm.SortedList.{All}
use iitm.BplusTree.{Leaf, lookup}
use iitm.BplusTree.Placed.{one, occurrences, occurrences-append, All-append, All-left, All-right}

unfoldable pub keys_of : List Leaf → List ℤ
keys_of [] = []
keys_of (l ∷ ls) = l.keys ++ keys_of ls

-- where the chain enters the leaves, if it goes on at `e` after them
unfoldable pub start : List Leaf → Option ℕ → Option ℕ
start [] e = e
start (l ∷ ls) e = some l.address

-- Each leaf names the one after it.
unfoldable pub IsChain : List Leaf → Option ℕ → Type 0
IsChain [] e = Unit
IsChain (l ∷ ls) e = (l.next ≡ start ls e) × IsChain ls e

abbrev one_if : Bool → ℕ
one_if b = if b then 1 else 0

-- how many leaves have the address
unfoldable pub copies : ℕ → List Leaf → ℕ
copies a [] = 0
copies a (l ∷ ls) = one_if (l.address == a) + copies a ls

pub keys_of-append : (xs ys : List Leaf) → keys_of (xs ++ ys) ≡ keys_of xs ++ keys_of ys
unfolding keys_of
keys_of-append [] ys = refl
keys_of-append (l ∷ xs) ys =
    ap (λ ks. l.keys ++ ks) (keys_of-append xs ys)
    ∙ sym (append_assoc l.keys (keys_of xs) (keys_of ys))

pub start-append : (xs ys : List Leaf) (e : Option ℕ) → start (xs ++ ys) e ≡ start xs (start ys e)
unfolding start
start-append [] ys e = refl
start-append (l ∷ xs) ys e = refl

pub copies-append : (a : ℕ) (xs ys : List Leaf) → copies a (xs ++ ys) ≡ copies a xs + copies a ys
unfolding copies
copies-append a [] ys = omega arith
copies-append a (l ∷ xs) ys = omega (arith, copies-append a xs ys)

IsChain-join :
    (xs ys : List Leaf) (e : Option ℕ)
    → IsChain xs (start ys e)
    → IsChain ys e
    → IsChain (xs ++ ys) e
unfolding IsChain
IsChain-join [] ys e c d = d
IsChain-join (l ∷ xs) ys e (n, c) d = (n ∙ sym (start-append xs ys e), IsChain-join xs ys e c d)

pub IsChain-split :
    (xs ys : List Leaf) (e : Option ℕ)
    → IsChain (xs ++ ys) e
    → IsChain xs (start ys e) × IsChain ys e
unfolding IsChain
IsChain-split [] ys e c = (tt, c)
IsChain-split (l ∷ xs) ys e (n, c) =
    let (cx, cy) = IsChain-split xs ys e c in ((n ∙ start-append xs ys e, cx), cy)

-- 1 for an address taken between the two counters
unfoldable pub fresh : ℕ → ℕ → ℕ → ℕ
fresh n m a = if leb n a && ltb a m then 1 else 0

-- The leaves `ls` with one key more, and the addresses from `n` up to `m` taken.
pub record Grows (key : ℤ) (n m : ℕ) (ls ls' : List Leaf) : Type 1 where
  pub allocated : n ≤ m
  pub chain : (e : Option ℕ) → IsChain ls e → IsChain ls' e
  pub entered : (e : Option ℕ) → start ls' e ≡ start ls e
  pub addresses : (a : ℕ) → copies a ls' ≡ copies a ls + fresh n m a
  pub contents : (x : ℤ) → occurrences x (keys_of ls') ≡ one x key + occurrences x (keys_of ls)
  pub size : length (keys_of ls') ≡ suc (length (keys_of ls))
  pub all : (P : ℤ → Type 0) → P key → All P (keys_of ls) → All P (keys_of ls')

occurrences-keys_of :
    (x : ℤ) (xs ys : List Leaf)
    → occurrences x (keys_of (xs ++ ys)) ≡ occurrences x (keys_of xs) + occurrences x (keys_of ys)
occurrences-keys_of x xs ys =
    ap (occurrences x) (keys_of-append xs ys) ∙ occurrences-append x (keys_of xs) (keys_of ys)

pub length-keys_of :
    (xs ys : List Leaf) → length (keys_of (xs ++ ys)) ≡ length (keys_of xs) + length (keys_of ys)
length-keys_of xs ys = ap length (keys_of-append xs ys) ∙ length-append (keys_of xs) (keys_of ys)

module _ (P : ℤ → Type 0) (xs ys : List Leaf) where
  pub All-join : All P (keys_of xs) → All P (keys_of ys) → All P (keys_of (xs ++ ys))
  All-join a b = rw (keys_of-append xs ys) (All-append P (keys_of xs) (keys_of ys) a b)

  pub All-split : All P (keys_of (xs ++ ys)) → All P (keys_of xs) × All P (keys_of ys)
  All-split a =
      let b : All P (keys_of xs ++ keys_of ys) = rw (sym (keys_of-append xs ys)) a in
      (All-left P (keys_of xs) (keys_of ys) b, All-right P (keys_of xs) (keys_of ys) b)

-- Growth among other leaves.
module _ {key : ℤ} {n m : ℕ} {ls ls' : List Leaf} (g : Grows key n m ls ls') where
  pub Grows-after : (pre : List Leaf) → Grows key n m (pre ++ ls) (pre ++ ls')
  Grows-after pre = record {
    allocated = g.allocated;
    chain = λ e c.
        let (a, b) = IsChain-split pre ls e c in
        IsChain-join pre ls' e (rw (g.entered e) a) (g.chain e b);
    entered =
        λ e. start-append pre ls' e ∙ ap (start pre) (g.entered e) ∙ sym (start-append pre ls e);
    addresses = λ a. omega (arith, copies-append a pre ls', copies-append a pre ls, g.addresses a);
    contents = λ x.
        omega (arith, occurrences-keys_of x pre ls', occurrences-keys_of x pre ls, g.contents x);
    size = omega (arith, length-keys_of pre ls', length-keys_of pre ls, g.size);
    all = λ P p a. let (b, c) = All-split P pre ls a in All-join P pre ls' b (g.all P p c);
  }

  pub Grows-before : (post : List Leaf) → Grows key n m (ls ++ post) (ls' ++ post)
  Grows-before post = record {
    allocated = g.allocated;
    chain = λ e c.
        let (a, b) = IsChain-split ls post e c in
        IsChain-join ls' post e (g.chain (start post e) a) b;
    entered =
        λ e. start-append ls' post e ∙ g.entered (start post e) ∙ sym (start-append ls post e);
    addresses =
        λ a. omega (arith, copies-append a ls' post, copies-append a ls post, g.addresses a);
    contents = λ x.
        omega (arith, occurrences-keys_of x ls' post, occurrences-keys_of x ls post, g.contents x);
    size = omega (arith, length-keys_of ls' post, length-keys_of ls post, g.size);
    all = λ P p a. let (b, c) = All-split P ls post a in All-join P ls' post (g.all P p b) c;
  }

-- A leaf is found at its address, if no other has it.
pub lookup_self :
    (pre post : List Leaf) (l : Leaf)
    → copies l.address (pre ++ l ∷ post) ≤ 1
    → lookup l.address (pre ++ l ∷ post) ≡ some l
unfolding lookup copies
lookup_self [] post l h = ground arith
lookup_self (k ∷ pre) post l h = elim (Bool-cases (k.address == l.address)) [
  | inl t ↦ absurd (omega (arith, own, copies-append l.address pre (l ∷ post), ap one_if t))
  | inr f ↦ rw f (lookup_self pre post l (omega arith))
]
  where
    own : one_if (l.address == l.address) ≡ 1
    own = ground arith
