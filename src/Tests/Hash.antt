-- ===== src/Tests/Hash.antt =====
-- Runs of HashTable/hashTable.c.
use iitm.Prelude.{
  ◌≡◌, refl, false, ◌>>=◌, Option, some, none, List, [], ◌∷◌, Text, eqb_text, if◌then◌else◌,
}
use iitm.Prelude.Int.{pos, negsuc}
use iitm.HashTable.{
  Chain, hash_from, hash, insert_from, insert_chain, insert, find, search, delete_chain, delete,
  init_table,
}
use iitm.HashTable.Chain.{buried, count}
use iitm.HashTable.Table.{
  IsValid, Inserts, InsertOutcome, insert_lem, delete_lem, init_table-IsValid,
}

program : Unit {0}
unfolding eqb_text hash_from hash insert_from insert_chain insert find search delete_chain delete
    init_table buried count
program = tt

abbrev orange : Text
orange = b'o' ∷ b'r' ∷ b'a' ∷ b'n' ∷ b'g' ∷ b'e' ∷ []

abbrev banana : Text
banana = b'b' ∷ b'a' ∷ b'n' ∷ b'a' ∷ b'n' ∷ b'a' ∷ []

abbrev mango : Text
mango = b'm' ∷ b'a' ∷ b'n' ∷ b'g' ∷ b'o' ∷ []

-- the first insertions of `main`
abbrev filled : Option (List Chain)
filled = do
  t ← insert init_table orange (pos 200)
  t ← insert t banana (pos 500)
  insert t orange (pos 300)

found :
    (do t ← filled; some (search t orange ∷ search t banana ∷ search t mango ∷ []))
    ≡ some (pos 300 ∷ pos 500 ∷ negsuc 0 ∷ [])
unfolding program
found = refl

-- two keys of one chain: to set the first of them again is a fault
abbrev a : Text
a = b'a' ∷ []

abbrev k : Text
k = b'k' ∷ []

second_in_chain : hash a ≡ hash k
unfolding program
second_in_chain = refl

set_again : (do t ← insert init_table a (pos 1); t ← insert t k (pos 2); insert t a (pos 3)) ≡ none
unfolding program
set_again = refl

insert_lem_example :
    InsertOutcome false init_table orange (pos 200) (insert init_table orange (pos 200))
unfolding program
insert_lem_example = insert_lem init_table orange (pos 200) init_table-IsValid

abbrev one_node : List Chain
one_node =
    [] ∷ [] ∷ [] ∷ [] ∷ [] ∷ [] ∷ [] ∷ (record { key = a; value = pos 1 } ∷ []) ∷ [] ∷ [] ∷ []

one_node-IsValid : IsValid one_node
unfolding program
one_node-IsValid =
    let r : Inserts init_table a (pos 1) one_node =
      insert_lem init_table a (pos 1) init_table-IsValid in
    r.valid

delete_lem_example :
    IsValid (delete one_node a)
    × ((key : Text)
        → search (delete one_node a) key
          ≡ (if eqb_text a key then negsuc 0 else search one_node key))
delete_lem_example = delete_lem one_node a one_node-IsValid
