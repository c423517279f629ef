-- ===== src/MedianFinder/Spec.antt =====
-- What LEETCODE PROBLEMS/mediandta.c promises: the median of all numbers added so far.
use mathlib.Core.List.{Perm, perm_middle, append-nil}
use mathlib.Core.List.Perm
use mathlib.Core.Path.{subst}
use iitm.Prelude.{
  ℕ, zero, suc, ◌+◌, ◌-◌, ◌/◌, ◌%◌, ◌<◌, ◌≡◌, refl, Option, none, some, List, [], ◌∷◌, ◌++◌, length,
  get_or, ◌==◌, if◌then◌else◌, ◌>>=◌, ◌&&◌, Returns, Returns-bind, Returns-mono, Returns-Yields,
  Bool-cases, ltb→lt, inl, inr, arith,
}
use iitm.Prelude.Int.{ℤ, pos, negsuc, ltb_ℤ, leb_ℤ, ◌≤ℤ◌, ◌+ℤ◌}
use iitm.SortedList.{All}
use iitm.AvlTree
use iitm.AvlTree.Menu.{IsValid, insert-Becomes}
use iitm.MedianFinder.{
  AvlNode, insert, kth, MedianFinder, create, add_num, Median, whole, half, half_of_sum,
  find_median,
}
use iitm.MedianFinder.Erase.{erase, erase?, erase-insert}
use iitm.MedianFinder.Items.{items, IsCounted, insert_sorted, insert-Keeps}
use iitm.MedianFinder.Select.{kth-get_or}

abbrev pub IsAscending : List ℤ → Type 0
IsAscending [] = Unit
IsAscending (x ∷ xs) = All (λ y. x ≤ℤ y) xs × IsAscending xs

All-insert_sorted :
    (v x : ℤ) (xs : List ℤ) → x ≤ℤ v → All (λ y. x ≤ℤ y) xs → All (λ y. x ≤ℤ y) (insert_sorted v xs)
unfolding insert_sorted
All-insert_sorted v x [] h a = (h, tt)
All-insert_sorted v x (y ∷ ys) h (p, a) = ground (arith, All-insert_sorted v x ys h a)

All-le_trans : (v x : ℤ) (xs : List ℤ) → v ≤ℤ x → All (λ y. x ≤ℤ y) xs → All (λ y. v ≤ℤ y) xs
All-le_trans v x [] h a = tt
All-le_trans v x (y ∷ ys) h (p, a) = (omega arith, All-le_trans v x ys h a)

insert_sorted-IsAscending :
    (v : ℤ) (xs : List ℤ) → IsAscending xs → IsAscending (insert_sorted v xs)
unfolding insert_sorted
insert_sorted-IsAscending v [] s = (tt, tt)
insert_sorted-IsAscending v (x ∷ xs) (a, s) = elim (Bool-cases (ltb_ℤ x v)) [
  | inl lt ↦
      let p = ltb→lt _ _ lt in
      rw lt (All-insert_sorted v x xs (omega arith) a, insert_sorted-IsAscending v xs s)
  | inr ge ↦ let p : v ≤ℤ x = ground arith in rw ge ((p, All-le_trans v x xs p a), (a, s))
]

insert_sorted-perm : (v : ℤ) (xs : List ℤ) → Perm (insert_sorted v xs) (v ∷ xs)
unfolding insert_sorted
insert_sorted-perm v [] = Perm.refl _
insert_sorted-perm v (x ∷ xs) = elim (Bool-cases (ltb_ℤ x v)) [
  | inl lt ↦ rw lt (Perm.trans (Perm.cons x (insert_sorted-perm v xs)) (Perm.swap _ _ _))
  | inr ge ↦ rw ge (Perm.refl _)
]

-- the object holds the ascending list `xs`
pub record Holds (xs : List ℤ) (obj : MedianFinder) : Type 0 where
  pub valid : IsValid (erase obj.root)
  pub counted : IsCounted obj.root
  pub listed : items obj.root ≡ xs
  pub total : obj.total ≡ length xs

erase?-Returns :
    (P : AvlTree.Tree → Type 0) (m : Option AvlNode)
    → Returns P (erase? m)
    → Returns (λ t. P (erase t)) m
erase?-Returns P none p = p
erase?-Returns P (some t) p = p

length-insert_sorted : (v : ℤ) (xs : List ℤ) → length (insert_sorted v xs) ≡ length xs + 1
unfolding insert_sorted
length-insert_sorted v [] = omega arith
length-insert_sorted v (x ∷ xs) = ground (arith, length-insert_sorted v xs)

-- `medianFinderAddNum` reads no null pointer, and puts the number in its place.
pub add_num-Holds :
    (obj : MedianFinder) (num : ℤ) (xs : List ℤ)
    → Holds xs obj
    → Returns (Holds (insert_sorted num xs)) (add_num obj num)
unfolding add_num
add_num-Holds obj num xs h =
    let run = insert-Becomes (erase obj.root) num h.valid in
    let erased = rw (← erase-insert obj.root num h.valid.balanced) at run in
    Returns-bind _ _ (insert obj.root num) _
      (Returns-Yields _ _ (insert obj.root num) (erase?-Returns _ (insert obj.root num) erased)
        (insert-Keeps obj.root num h.counted h.valid.ordered))
      λ t (b, (k, e)). record {
        valid = b.valid;
        counted = k;
        listed = rw (e, h.listed);
        total = rw (length-insert_sorted, h.total);
      }

unfoldable pub add_all : MedianFinder → List ℤ → Option MedianFinder
add_all obj [] = some obj
add_all obj (x ∷ xs) = do obj' ← add_num obj x; add_all obj' xs

abbrev pub int_min : ℤ
int_min = negsuc 2147483647

abbrev pub int_max : ℤ
int_max = pos 2147483647

-- The median of a list that is in order, if the code can compute it: the sum of the two middle
-- numbers of a list of even length is an `int`.
unfoldable pub median : List ℤ → Option Median
median xs =
    let n = length xs in
    if n % 2 == 1
    then some (whole (get_or xs (n / 2) (negsuc 0)))
    else let sum = get_or xs (n / 2 - 1) (negsuc 0) +ℤ get_or xs (n / 2) (negsuc 0) in
      if leb_ℤ int_min sum && leb_ℤ sum int_max then some (half sum) else none

rank :
    (obj : MedianFinder) (xs : List ℤ) (m : ℕ)
    → Holds xs obj
    → 0 < m
    → kth obj.root m ≡ get_or xs (m - 1) (negsuc 0)
rank obj xs zero h p = absurd (omega arith)
rank obj xs (suc i) h p =
    let e : suc i - 1 ≡ i = omega arith in rw (e, kth-get_or obj.root i h.counted, h.listed) refl

-- `medianFinderFindMedian` reads the median off the list.
pub find_median-median :
    (obj : MedianFinder) (xs : List ℤ) → Holds xs obj → 0 < length xs → find_median obj ≡ median xs
unfolding find_median half_of_sum median
find_median-median obj xs h p =
    let n = length xs in
    let e : n / 2 + 1 - 1 ≡ n / 2 = omega arith in
    let upper = rw e at (rank obj xs (n / 2 + 1) h (omega arith)) in
    elim (Bool-cases (n % 2 == 1)) [
      | inl odd ↦ rw (h.total, odd, upper) refl
      | inr even ↦
          let low : 0 < n / 2 = ground arith in
          rw (h.total, even, upper, rank obj xs (n / 2) h low) refl
    ]

-- the ascending list after the numbers `nums`
unfoldable pub insert_all : List ℤ → List ℤ → List ℤ
insert_all xs [] = xs
insert_all xs (x ∷ nums) = insert_all (insert_sorted x xs) nums

insert_all-IsAscending : (xs nums : List ℤ) → IsAscending xs → IsAscending (insert_all xs nums)
unfolding insert_all
insert_all-IsAscending xs [] s = s
insert_all-IsAscending xs (x ∷ nums) s =
    insert_all-IsAscending (insert_sorted x xs) nums (insert_sorted-IsAscending x xs s)

insert_all-perm : (xs nums : List ℤ) → Perm (insert_all xs nums) (nums ++ xs)
unfolding insert_all
insert_all-perm xs [] = Perm.refl xs
insert_all-perm xs (x ∷ nums) =
    Perm.trans (insert_all-perm (insert_sorted x xs) nums)
      (Perm.trans (Perm.append (Perm.refl nums) (insert_sorted-perm x xs)) (perm_middle nums xs))

length-insert_all : (xs nums : List ℤ) → length (insert_all xs nums) ≡ length nums + length xs
unfolding insert_all
length-insert_all xs [] = omega arith
length-insert_all xs (x ∷ nums) =
    omega (arith, length-insert_all (insert_sorted x xs) nums, length-insert_sorted x xs)

add_all-Holds :
    (obj : MedianFinder) (nums xs : List ℤ)
    → Holds xs obj
    → Returns (Holds (insert_all xs nums)) (add_all obj nums)
unfolding add_all insert_all
add_all-Holds obj [] xs h = h
add_all-Holds obj (x ∷ nums) xs h =
    Returns-bind _ _ (add_num obj x) _ (add_num-Holds obj x xs h)
      λ obj' h'. add_all-Holds obj' nums (insert_sorted x xs) h'

create-Holds : Holds [] create
unfolding create items AvlTree.Order.inorder
create-Holds = record {
  valid = record { balanced = tt; ordered = tt };
  counted = tt;
  listed = refl;
  total = refl;
}

-- After any numbers, at least one, have been added to a new object, without a null pointer being read,
-- what it reports belongs to an ascending list with exactly those numbers: the middle one for an odd
-- number, and half the sum of the two middle ones for an even number, if that sum is an `int`. If it
-- is not, the addition overflows, which is a fault.
pub find_median_lem :
    (nums : List ℤ)
    → 0 < length nums
    → Returns
        (λ obj. (xs : List ℤ) × Perm xs nums × IsAscending xs × (find_median obj ≡ median xs))
        (add_all create nums)
find_median_lem nums p =
    Returns-mono _ _ (add_all create nums) (add_all-Holds create nums [] create-Holds) λ obj h. (
      insert_all [] nums,
      subst (λ ys. Perm (insert_all [] nums) ys) (append-nil nums) (insert_all-perm [] nums),
      insert_all-IsAscending [] nums tt,
      find_median-median obj (insert_all [] nums) h (rw (length-insert_all [] nums) (omega arith)),
    )
