-- ===== src/Tests/Lru.antt =====
-- Runs of LEETCODE PROBLEMS/lrucache.c.
use iitm.Prelude.{◌≡◌, refl, ◌>>=◌, some, none, List, [], ◌∷◌, Returns, arith}
use iitm.Prelude.Int.{pos, negsuc}
use iitm.LruCache.{
  Ptr, LruCache, hash, update, load, modify, link_head, add_to_head, unlink_prev, unlink_next,
  remove_node, remove_tail, move_to_head, chain, hash_get_entry, hash_get, set_entry, put_entry,
  hash_put, remove_entry, hash_remove, create, get, evict, put, free_nodes, free,
}
use iitm.LruCache.Spec.{value_of, without, get_from, put_into}
use iitm.LruCache.Put.{Puts, put-Puts}
use iitm.LruCache.Run.{
  Call, look_up, insert, run, run_on, Ends, run-create, free-frees, create-IsCache,
}

program : Unit {0}
unfolding hash update load modify link_head add_to_head unlink_prev unlink_next remove_node
    remove_tail move_to_head chain hash_get_entry hash_get set_entry put_entry hash_put remove_entry
    hash_remove create get evict put free_nodes free run run_on value_of without get_from put_into
program = tt

-- the example of the exercise, with nodes at 1, 2, …
abbrev calls : List Call
calls =
    insert (pos 1) (pos 1) 1
    ∷ insert (pos 2) (pos 2) 2
    ∷ look_up (pos 1)
    ∷ insert (pos 3) (pos 3) 3
    ∷ look_up (pos 2)
    ∷ insert (pos 4) (pos 4) 2
    ∷ look_up (pos 1)
    ∷ look_up (pos 3)
    ∷ look_up (pos 4)
    ∷ []

example :
    (do r ← run (create 2) calls; some r.1)
    ≡ some (pos 1 ∷ negsuc 0 ∷ negsuc 0 ∷ pos 3 ∷ pos 4 ∷ [])
unfolding program
example = refl

-- a negative key indexes outside the table
negative : get (create 2) (negsuc 0) ≡ none
unfolding program
negative = refl

put-Puts_example : Returns (Puts 2 [] (pos 5) (pos 7)) (put (create 2) (pos 5) (pos 7) 1)
unfolding program
put-Puts_example =
    put-Puts (create 2) [] (pos 5) (pos 7) 1 (create-IsCache 2) (omega arith) (omega arith) refl

-- the cache with one key
abbrev one_key : LruCache
unfolding program
one_key = record (create 2) {
  size = 1;
  hash_table = update (λ i. []) 5 (record { key = pos 5; node = 1 } ∷ []);
  head = 1;
  tail = 1;
  heap =
      (update
        (update (λ p. none) 1 (some (record { key = pos 5; value = pos 7; prev = 0; next = 0 }))) 1
        (some (record { key = pos 5; value = pos 7; prev = 0; next = 0 })));
}

stored : Puts 2 [] (pos 5) (pos 7) one_key
unfolding program one_key
stored = put-Puts_example

free-frees_example : Returns (λ o. (p : Ptr) → o.heap p ≡ none) (free one_key)
free-frees_example = free-frees one_key stored.cells stored.valid

run-create_example : Returns (Ends 2 [] calls) (run (create 2) calls)
unfolding program
run-create_example = run-create 2 calls (
  omega arith,
  omega arith,
  refl,
  (
    omega arith,
    omega arith,
    refl,
    (
      omega arith,
      (
        omega arith,
        omega arith,
        refl,
        (
          omega arith,
          (omega arith, omega arith, refl, (omega arith, (omega arith, (omega arith, tt)))),
        ),
      ),
    ),
  ),
)
