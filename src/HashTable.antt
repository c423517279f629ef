-- ===== src/HashTable.antt =====
-- HashTable/hashTable.c: a table of ten chains. A chain is the list of its nodes; allocations succeed.
pub mod Chain
pub mod Table
use iitm.Prelude.{
  ℕ, zero, suc, ◌+◌, ◌*◌, ◌%◌, ◌^◌, Bool, true, false, ◌||◌, Option, some, none, List, [], ◌∷◌, ltb,
  if◌then◌else◌, ◌>>=◌, set, get_or, replicate, length, Text, eqb_text, signed_char,
}
use iitm.Prelude.Int.{ℤ, negsuc}

abbrev pub table_size : ℕ
table_size = 10

-- the bytes of `key[50]`
abbrev pub key_size : ℕ
key_size = 50

pub record Node : Type 0 where
  pub key : Text
  pub value : ℤ

abbrev pub Chain : Type 0
Chain = List Node

-- `hashValue`, from the rest of the key
unfoldable pub hash_from : ℕ → Text → ℕ
hash_from hash_value [] = hash_value
hash_from hash_value (c ∷ key) = hash_from ((hash_value * 31 + signed_char c) % 2 ^ 32) key

unfoldable pub hash : Text → ℕ
hash key = hash_from 0 key % table_size

-- The loop of `insert` from node `temp` on, and what follows it. `freed` says that `newNode` has been
-- freed: to free it again or to link it is then a fault.
unfoldable pub insert_from : Bool → Node → Node → Chain → Option Chain
insert_from freed new temp [] =
    if freed
    then none
    else if eqb_text temp.key new.key
    then some (record temp { value = new.value } ∷ [])
    else some (temp ∷ new ∷ [])
insert_from freed new temp (next ∷ rest) =
    let same = eqb_text temp.key new.key in
    let tail = insert_from (freed || same) new next rest in
    if same
    then if freed
      then none
      else (tail >>= λ chain. some (record temp { value = new.value } ∷ chain))
    else (tail >>= λ chain. some (temp ∷ chain))

unfoldable pub insert_chain : Node → Chain → Option Chain
insert_chain new [] = some (new ∷ [])
insert_chain new (temp ∷ rest) = insert_from false new temp rest

-- `none` is a fault: a key that does not fit, or a use of freed memory
unfoldable pub insert : List Chain → Text → ℤ → Option (List Chain)
insert hash_table key value =
    let index = hash key in
    if ltb (length key) key_size
    then (insert_chain (record { key = key; value = value }) (get_or hash_table index [])
        >>= λ chain. some (set hash_table index chain))
    else none

-- the value of the first node of the key
unfoldable pub find : Chain → Text → Option ℤ
find [] key = none
find (temp ∷ rest) key =
    let later = find rest key in if eqb_text temp.key key then some temp.value else later

unfoldable pub search : List Chain → Text → ℤ
search hash_table key = elim (find (get_or hash_table (hash key) []) key) [
  | none ↦ negsuc 0
  | some value ↦ value
]

unfoldable pub delete_chain : Chain → Text → Chain
delete_chain [] key = []
delete_chain (temp ∷ rest) key =
    if eqb_text temp.key key then rest else temp ∷ delete_chain rest key

unfoldable pub delete : List Chain → Text → List Chain
delete hash_table key =
    let index = hash key in set hash_table index (delete_chain (get_or hash_table index []) key)

-- the loop of `main` that empties the table
unfoldable pub init_table : List Chain
init_table = replicate table_size []
