-- ===== src/LruCache.antt =====
-- LEETCODE PROBLEMS/lrucache.c: a cache of keys and values with a table of chains and a doubly linked
-- list, the latest use first. The nodes of the list stand on a heap of addresses; a chain is the list
-- of its entries. An operation that allocates a node takes the address that `malloc` returns.
-- `none` is a fault: a read through NULL or a freed pointer, or an index outside the table.
pub mod Links
pub mod Moves
pub mod Keys
pub mod Spec
pub mod Get
pub mod Value
pub mod Evict
pub mod Put
pub mod Run
use iitm.Prelude.{
  ℕ, zero, suc, ◌+◌, ◌-◌, ◌%◌, ◌^◌, Bool, true, false, Option, some, none, List, [], ◌∷◌, ltb, ◌==◌,
  if◌then◌else◌, ◌>>=◌,
}
use iitm.Prelude.Int.{ℤ, pos, negsuc, eqb_ℤ}

abbrev pub hash_size : ℕ
hash_size = 10007

abbrev pub Ptr : Type 0
Ptr = ℕ

abbrev pub null : Ptr
null = 0

pub record Node : Type 0 where
  pub key : ℤ
  pub value : ℤ
  pub prev : Ptr
  pub next : Ptr

pub record Entry : Type 0 where
  pub key : ℤ
  pub node : Ptr

-- `heap` holds the nodes that are allocated
pub record LruCache : Type 0 where
  pub capacity : ℕ
  pub size : ℕ
  pub hash_table : ℕ → List Entry
  pub head : Ptr
  pub tail : Ptr
  pub heap : Ptr → Option Node

-- `key % HASH_SIZE` takes the sign of the key, and becomes an `unsigned int`
unfoldable pub hash : ℤ → ℕ
hash (pos n) = n % hash_size
hash (negsuc n) = let r = (n + 1) % hash_size in if r == 0 then 0 else 2 ^ 32 - r

unfoldable pub update {ℓ} : {A : Type ℓ} → (ℕ → A) → ℕ → A → ℕ → A
update f p a q = if p == q then a else f q

-- `*node`
unfoldable pub load : LruCache → Ptr → Option Node
load object p = if p == null then none else object.heap p

abbrev pub store : LruCache → Ptr → Option Node → LruCache
store object p n = record object { heap = update object.heap p n }

-- an assignment to fields of `*node`
unfoldable pub modify : LruCache → Ptr → (Node → Node) → Option LruCache
modify object p f = do n ← load object p; some (store object p (some (f n)))

abbrev pub create_node : ℤ → ℤ → Node
create_node key value = record { key = key; value = value; prev = null; next = null }

-- `object->head->prev = node`, if there is a head
unfoldable pub link_head : LruCache → Ptr → Option LruCache
link_head object node =
    if object.head == null
    then some object
    else modify object object.head (λ n. record n { prev = node })

unfoldable pub add_to_head : LruCache → Ptr → Option LruCache
add_to_head object node = do
  object ← modify object node (λ n. record n { next = object.head; prev = null })
  object ← link_head object node
  some (record object { head = node; tail = if object.tail == null then node else object.tail })

-- the two `if` statements of `removeNode`
unfoldable pub unlink_prev : LruCache → Ptr → Option LruCache
unlink_prev object node = do
  n ← load object node
  (if n.prev == null
      then some (record object { head = n.next })
      else modify object n.prev (λ m. record m { next = n.next }))

unfoldable pub unlink_next : LruCache → Ptr → Option LruCache
unlink_next object node = do
  n ← load object node
  (if n.next == null
      then some (record object { tail = n.prev })
      else modify object n.next (λ m. record m { prev = n.prev }))

unfoldable pub remove_node : LruCache → Ptr → Option LruCache
remove_node object node = do object ← unlink_prev object node; unlink_next object node

unfoldable pub remove_tail : LruCache → Option (LruCache × Ptr)
remove_tail object = do
  let tail = object.tail
  object ← remove_node object tail
  some (object, tail)

unfoldable pub move_to_head : LruCache → Ptr → Option LruCache
move_to_head object node = do object ← remove_node object node; add_to_head object node

-- `hashTable[hashValue]`
unfoldable pub chain : LruCache → ℤ → Option (List Entry)
chain object key = if ltb (hash key) hash_size then some (object.hash_table (hash key)) else none

-- the node of the first entry with the key; `none` is NULL
unfoldable pub hash_get_entry : List Entry → ℤ → Option Ptr
hash_get_entry [] key = none
hash_get_entry (entry ∷ entries) key =
    let later = hash_get_entry entries key in if eqb_ℤ entry.key key then some entry.node else later

unfoldable pub hash_get : LruCache → ℤ → Option (Option Ptr)
hash_get object key = do entries ← chain object key; some (hash_get_entry entries key)

-- the assignment to the entry that was found
unfoldable pub set_entry : List Entry → ℤ → Ptr → List Entry
set_entry [] key node = []
set_entry (entry ∷ entries) key node =
    if eqb_ℤ entry.key key
    then record entry { node = node } ∷ entries
    else entry ∷ set_entry entries key node

unfoldable pub put_entry : List Entry → ℤ → Ptr → List Entry
put_entry entries key node = elim (hash_get_entry entries key) [
  | none ↦ record { key = key; node = node } ∷ entries
  | some _ ↦ set_entry entries key node
]

unfoldable pub hash_put : LruCache → ℤ → Ptr → Option LruCache
hash_put object key node = do
  entries ← chain object key
  let changed = put_entry entries key node
  some (record object { hash_table = update object.hash_table (hash key) changed })

unfoldable pub remove_entry : List Entry → ℤ → List Entry
remove_entry [] key = []
remove_entry (entry ∷ entries) key =
    if eqb_ℤ entry.key key then entries else entry ∷ remove_entry entries key

unfoldable pub hash_remove : LruCache → ℤ → Option LruCache
hash_remove object key = do
  entries ← chain object key
  some (record object {
    hash_table = update object.hash_table (hash key) (remove_entry entries key);
  })

unfoldable pub create : ℕ → LruCache
create capacity = record {
  capacity = capacity;
  size = 0;
  hash_table = λ i. [];
  head = null;
  tail = null;
  heap = λ p. none;
}

unfoldable pub get : LruCache → ℤ → Option (LruCache × ℤ)
get object key = do
  found ← hash_get object key
  elim found [
    | none ↦ some (object, negsuc 0)
    | some node ↦ do object ← move_to_head object node; n ← load object node; some (object, n.value)
  ]

-- what `put` does when there are more nodes than the capacity allows
unfoldable pub evict : LruCache → Option LruCache
evict object = do
  (object, tail) ← remove_tail object
  n ← load object tail
  object ← hash_remove object n.key
  some (record (store object tail none) { size = object.size - 1 })

-- `fresh` is the address of the node that `createNode` allocates
unfoldable pub put : LruCache → ℤ → ℤ → Ptr → Option LruCache
put object key value fresh = do
  found ← hash_get object key
  elim found [
    | some node ↦ do
      object ← modify object node (λ n. record n { value = value })
      move_to_head object node
    | none ↦ do
      object ← add_to_head (store object fresh (some (create_node key value))) fresh
      object ← hash_put object key fresh
      let grown = record object { size = object.size + 1 }
      if ltb grown.capacity grown.size then evict grown else some grown
  ]

-- the loop of `lRUCacheFree` over the list, with fuel; it returns the heap
unfoldable pub free_nodes : ℕ → LruCache → Ptr → Option LruCache
free_nodes zero object current = none
free_nodes (suc fuel) object current =
    let rest = load object current >>= λ n. free_nodes fuel (store object current none) n.next in
    if current == null then some object else rest

-- the nodes, then the chains
unfoldable pub free : LruCache → Option LruCache
free object = do
  object ← free_nodes (object.size + 1) object object.head
  some (record object { hash_table = λ i. [] })
