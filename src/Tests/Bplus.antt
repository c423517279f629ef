-- ===== src/Tests/Bplus.antt =====
-- Runs of Trees/BplusTreeDy.c.
use iitm.Prelude.{◌+◌, ◌≡◌, refl, some, true, false, List, [], ◌∷◌, if◌then◌else◌, Returns}
use iitm.Prelude.Int.{ℤ, pos}
use iitm.BplusTree.{
  State, shift, place, insert_into, grow, insert, insert_key, insert_all, create, find_leaf, leaves,
  lookup, scan, walk, print_range, print_tree,
}
use iitm.BplusTree.Placed.{one, occurrences, IsAscending}
use iitm.BplusTree.Keys.{IsValid, contents, insert_key-IsValid, insert_all-IsValid}
use iitm.BplusTree.Walk.{print_range-Returns}
use iitm.BplusTree.Range.{is_in}

program : Unit {0}
unfolding shift place insert_into grow insert insert_key insert_all find_leaf leaves lookup scan
    walk print_range print_tree
program = tt

abbrev keys : List ℤ
keys = pos 10 ∷ pos 20 ∷ pos 5 ∷ pos 6 ∷ pos 12 ∷ pos 30 ∷ pos 7 ∷ pos 17 ∷ pos 6 ∷ []

abbrev tree : State
tree = insert_all create keys

-- stops in a leaf, without the end of the line
part_of_the_keys :
    print_range tree.root (pos 6) (pos 12)
    ≡ some (pos 6 ∷ pos 6 ∷ pos 7 ∷ pos 10 ∷ pos 12 ∷ [], false)
unfolding program
part_of_the_keys = refl

to_the_end : print_range tree.root (pos 13) (pos 40) ≡ some (pos 17 ∷ pos 20 ∷ pos 30 ∷ [], true)
unfolding program
to_the_end = refl

small_tree :
    print_tree (insert_all create (pos 10 ∷ pos 20 ∷ pos 5 ∷ pos 6 ∷ [])).root 0
    ≡ (0, pos 10 ∷ []) ∷ (1, pos 5 ∷ pos 6 ∷ []) ∷ (1, pos 10 ∷ pos 20 ∷ []) ∷ []
unfolding program
small_tree = refl

insert_key-IsValid_example :
    IsValid (insert_key (pos 8) tree)
    × ((x : ℤ)
        → occurrences x (contents (insert_key (pos 8) tree))
          ≡ one x (pos 8) + occurrences x (contents tree))
insert_key-IsValid_example = insert_key-IsValid (pos 8) tree (insert_all-IsValid keys).0

print_range-Returns_example :
    Returns
      (λ (out, line).
        IsAscending out
        × ((x : ℤ)
            → occurrences x out ≡ (if is_in (pos 6) (pos 12) x then occurrences x keys else 0)))
      (print_range tree.root (pos 6) (pos 12))
print_range-Returns_example = print_range-Returns keys (pos 6) (pos 12)
