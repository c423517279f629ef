-- ===== src/Tests/Median.antt =====
-- Runs of LEETCODE PROBLEMS/mediandta.c.
use mathlib.Core.List.{Perm}
use iitm.Prelude.{◌≡◌, refl, some, none, List, [], ◌∷◌, Option, Returns, ◌>>=◌, arith}
use iitm.Prelude.Int.{ℤ, pos, negsuc, ◌+ℤ◌}
use iitm.MedianFinder.{
  AvlNode, null, avl_node, max, right_rotate, left_rotate, rebalance, insert, kth, MedianFinder,
  create, add_num, Median, half, half_of_sum, find_median,
}
use iitm.MedianFinder.Spec.{IsAscending, add_all, median, find_median_lem}

program : Unit {0}
unfolding max right_rotate left_rotate rebalance insert kth create add_num half_of_sum find_median
    add_all ◌+ℤ◌
program = tt

abbrev nums : List ℤ
nums = pos 5 ∷ negsuc 1 ∷ pos 5 ∷ pos 9 ∷ []

abbrev report : Option MedianFinder → Option Median
report m = m >>= find_median

nums_median : report (add_all create nums) ≡ some (half (pos 10))
unfolding program
nums_median = refl

-- the sum of two largest numbers overflows
abbrev largest : ℤ
largest = pos 2147483647

overflow : (add_all create (largest ∷ largest ∷ []) >>= find_median) ≡ none
unfolding program
overflow = refl

-- with no number yet, both reads give -1
empty_median : find_median create ≡ some (half (negsuc 1))
unfolding program
empty_median = refl

find_median_lem_example :
    Returns
      (λ obj. (xs : List ℤ) × Perm xs nums × IsAscending xs × (find_median obj ≡ median xs))
      (add_all create nums)
find_median_lem_example = find_median_lem nums (omega arith)

abbrev tree : AvlNode
tree = avl_node (pos 5) 2 2 3 (avl_node (negsuc 1) 1 1 1 null null) null
