-- ===== src/Tests/Avl.antt =====
-- Runs of Trees/AVLTree.c.
use iitm.Prelude.{◌≡◌, refl, ◌≤◌, some, List, [], ◌∷◌, length, Returns, arith}
use iitm.Prelude.Int.{pos, negsuc}
use iitm.SortedList.{add, remove}
use iitm.AvlTree.{
  Tree, leaf, node, max, get_height, rotate_right, rotate_left, rebalance, insert, new_node,
  find_min, repair, delete_node,
}
use iitm.AvlTree.Order.{inorder}
use iitm.AvlTree.Menu.{
  Command, insert_single, insert_array, display, delete, insert_all, execute, run, IsValid, Becomes,
  insert-Becomes, delete_node-Becomes, run-Becomes, effect, effects, add_all,
}
use iitm.AvlTree.Height.{depth, least_size, run-depth_bound}

program : Unit {0}
unfolding max rotate_right rotate_left rebalance insert new_node find_min repair delete_node
    insert_all execute run inorder add remove effect effects add_all
program = tt

abbrev sample : Tree
sample =
    node (pos 20) 3 (node (negsuc 4) 1 leaf leaf) (node (pos 40) 2 (node (pos 30) 1 leaf leaf) leaf)

sample-IsValid : IsValid sample
unfolding max inorder
sample-IsValid = record { balanced = omega arith; ordered = omega arith }

-- a double rotation
insert_rotates :
    insert sample (pos 35)
    ≡ some (
        node
          (pos 20)
          3
          (node (negsuc 4) 1 leaf leaf)
          (node (pos 35) 2 (node (pos 30) 1 leaf leaf) (node (pos 40) 1 leaf leaf)))
unfolding program
insert_rotates = refl

-- the loss of the left leaf turns the root
delete_rotates :
    delete_node sample (negsuc 4)
    ≡ some (node (pos 30) 2 (node (pos 20) 1 leaf leaf) (node (pos 40) 1 leaf leaf))
unfolding program
delete_rotates = refl

insert-Becomes_example : Returns (Becomes (add (pos 35) (inorder sample))) (insert sample (pos 35))
insert-Becomes_example = insert-Becomes sample (pos 35) sample-IsValid

delete_node-Becomes_example :
    Returns (Becomes (remove (pos 20) (inorder sample))) (delete_node sample (pos 20))
delete_node-Becomes_example = delete_node-Becomes sample (pos 20) sample-IsValid

abbrev session : List Command
session =
    insert_array (pos 3 ∷ pos 1 ∷ pos 2 ∷ pos 1 ∷ [])
    ∷ delete (pos 3)
    ∷ display
    ∷ insert_single (negsuc 6)
    ∷ []

session_keys : effects [] session ≡ negsuc 6 ∷ pos 1 ∷ pos 2 ∷ []
unfolding program
session_keys = refl

run-Becomes_example : Returns (Becomes (effects [] session)) (run leaf session)
run-Becomes_example = run-Becomes session

run-depth_bound_example :
    Returns
      (λ t. (get_height t ≡ depth t) × (least_size (depth t) ≤ length (effects [] session)))
      (run leaf session)
run-depth_bound_example = run-depth_bound session
