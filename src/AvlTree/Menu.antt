-- ===== src/AvlTree/Menu.antt =====
-- The menu loop of Trees/AVLTree.c, and what holds of every tree that it builds.
use iitm.Prelude.{
  ◌≡◌, refl, Option, some, List, [], ◌∷◌, ◌>>=◌, Returns, Returns-bind, Returns-mono,
  Returns-Yields,
}
use iitm.Prelude.Int.{ℤ}
use iitm.SortedList.{IsSorted, add, remove, add-IsSorted, remove-IsSorted}
use iitm.AvlTree.{Tree, leaf, insert, delete_node}
use iitm.AvlTree.Balance.{IsAvl}
use iitm.AvlTree.Insertion.{insert-Grows}
use iitm.AvlTree.Deletion.{delete_node-Shrinks}
use iitm.AvlTree.Order.{inorder, insert-add, delete_node-remove}

-- one turn of the menu: the choices 1 to 4, with what the user types, and any other number
pub data Command : Type 0 where
  insert_single : ℤ → Command
  insert_array : List ℤ → Command
  display : Command
  delete : ℤ → Command
  invalid : Command

unfoldable pub insert_all : Tree → List ℤ → Option Tree
insert_all root [] = some root
insert_all root (x ∷ arr) = do root' ← insert root x; insert_all root' arr

unfoldable pub execute : Tree → Command → Option Tree
execute root (insert_single x) = insert root x
execute root (insert_array arr) = insert_all root arr
execute root display = some root
execute root (delete x) = delete_node root x
execute root invalid = some root

-- the turns before the choice 5
unfoldable pub run : Tree → List Command → Option Tree
run root [] = some root
run root (c ∷ cs) = do root' ← execute root c; run root' cs

pub record IsValid (t : Tree) : Type 0 where
  pub balanced : IsAvl t
  pub ordered : IsSorted (inorder t)

-- the result of an operation on a valid tree whose keys become `xs`
pub record Becomes (xs : List ℤ) (t : Tree) : Type 0 where
  pub valid : IsValid t
  pub keys : inorder t ≡ xs

-- On a balanced search tree `insert` reads no null pointer; the result is again one, and its keys
-- in order are the old ones with `val` added in its place, unless it was there.
pub insert-Becomes :
    (t : Tree) (val : ℤ) → IsValid t → Returns (Becomes (add val (inorder t))) (insert t val)
insert-Becomes t val v =
    Returns-mono _ _ (insert t val)
      (Returns-Yields _ _ (insert t val) (insert-Grows t val v.balanced)
        (insert-add t val v.ordered))
      λ t' (g, e). record {
        valid = record { balanced = g.0; ordered = rw e (add-IsSorted val (inorder t) v.ordered) };
        keys = e;
      }

-- On a balanced search tree `deleteNode` reads no null pointer; the result is again one, and its
-- keys in order are the old ones without `val`.
pub delete_node-Becomes :
    (t : Tree) (val : ℤ)
    → IsValid t
    → Returns (Becomes (remove val (inorder t))) (delete_node t val)
delete_node-Becomes t val v =
    Returns-mono _ _ (delete_node t val)
      (Returns-Yields _ _ (delete_node t val) (delete_node-Shrinks t val v.balanced)
        (delete_node-remove t val v.ordered))
      λ t' (g, e). record {
        valid = record {
          balanced = g.0;
          ordered = rw e (remove-IsSorted val (inorder t) v.ordered);
        };
        keys = e;
      }

-- the keys after a command, and after a session
unfoldable pub add_all : List ℤ → List ℤ → List ℤ
add_all keys [] = keys
add_all keys (x ∷ arr) = add_all (add x keys) arr

unfoldable pub effect : List ℤ → Command → List ℤ
effect keys (insert_single x) = add x keys
effect keys (insert_array arr) = add_all keys arr
effect keys display = keys
effect keys (delete x) = remove x keys
effect keys invalid = keys

unfoldable pub effects : List ℤ → List Command → List ℤ
effects keys [] = keys
effects keys (c ∷ cs) = effects (effect keys c) cs

insert_all-Becomes :
    (t : Tree) (arr : List ℤ)
    → IsValid t
    → Returns (Becomes (add_all (inorder t) arr)) (insert_all t arr)
unfolding insert_all add_all
insert_all-Becomes t [] v = record { valid = v; keys = refl }
insert_all-Becomes t (x ∷ arr) v =
    Returns-bind _ _ (insert t x) _ (insert-Becomes t x v)
      λ t' b. rw (← b.keys) (insert_all-Becomes t' arr b.valid)

execute-Becomes :
    (t : Tree) (c : Command) → IsValid t → Returns (Becomes (effect (inorder t) c)) (execute t c)
unfolding execute effect
execute-Becomes t (insert_single x) v = insert-Becomes t x v
execute-Becomes t (insert_array arr) v = insert_all-Becomes t arr v
execute-Becomes t display v = record { valid = v; keys = refl }
execute-Becomes t (delete x) v = delete_node-Becomes t x v
execute-Becomes t invalid v = record { valid = v; keys = refl }

run_from :
    (t : Tree) (cs : List Command)
    → IsValid t
    → Returns (Becomes (effects (inorder t) cs)) (run t cs)
unfolding run effects
run_from t [] v = record { valid = v; keys = refl }
run_from t (c ∷ cs) v =
    Returns-bind _ _ (execute t c) _ (execute-Becomes t c v)
      λ t' b. rw (← b.keys) (run_from t' cs b.valid)

-- Whatever is typed at the menu, no operation reads a null pointer, the tree stays a balanced
-- search tree, and its keys are those of an ascending list under the same commands.
pub run-Becomes : (cs : List Command) → Returns (Becomes (effects [] cs)) (run leaf cs)
unfolding inorder
run-Becomes cs = run_from leaf cs (record { balanced = tt; ordered = tt })
