-- ===== src/BlockCache.antt =====
-- MemoryAllocation/cache.c, the cache of blocks: entries in the chains of a hash table and in a list by
-- their last use. An entry has the address that malloc gave it; its other fields never change, so that
-- the chains and the list hold it by value. `last_accessed` is never read and is left out.
pub mod Entries
pub mod Keys
pub mod Reads
pub mod Evict
pub mod Put
pub mod Buffers
pub mod Idle
pub mod Files
pub mod Disk
pub mod Steps
pub mod Run
pub mod Start
use iitm.Prelude.{
  ℕ, zero, suc, ◌+◌, ◌-◌, ◌*◌, ◌%◌, ◌^◌, Bool, true, false, Option, some, none, List, [], ◌∷◌, ◌==◌,
  ltb, if◌then◌else◌, ◌>>=◌, length, set, get_or, replicate, take, Text, eqb_text, signed_char,
}

abbrev pub Bytes : Type 0
Bytes = List ℕ

pub record Entry : Type 0 where
  pub address : ℕ
  pub key : Text
  pub bytes : Bytes
  pub size : ℕ

-- `lru` is the list from `lru_head` to `lru_tail`.
pub record Cache : Type 0 where
  pub hash_table : List (List Entry)
  pub lru : List Entry
  pub bucket_count : ℕ
  pub current_size : ℕ
  pub max_size : ℕ

-- the modulus of `size_t`
abbrev pub size_modulus : ℕ
size_modulus = 2 ^ 64

-- `hash_key`, from the rest of the key
unfoldable pub hash_from : ℕ → Text → ℕ
hash_from hash [] = hash
hash_from hash (c ∷ key) = hash_from ((hash * 32 + hash + signed_char c) % 2 ^ 32) key

unfoldable pub hash_key : Text → ℕ → ℕ
hash_key key bucket_count = hash_from 5381 key % bucket_count

abbrev pub create_cache : ℕ → ℕ → Cache
create_cache max_size bucket_count = record {
  hash_table = replicate bucket_count [];
  lru = [];
  bucket_count = bucket_count;
  current_size = 0;
  max_size = max_size;
}

-- a list without its entry at an address
unfoldable pub unlink : ℕ → List Entry → List Entry
unlink address [] = []
unlink address (e ∷ rest) = if e.address == address then rest else e ∷ unlink address rest

abbrev pub is_head : ℕ → List Entry → Bool
is_head address [] = false
is_head address (e ∷ rest) = e.address == address

unfoldable pub move_to_front : Cache → Entry → Cache
move_to_front c entry =
    if is_head entry.address c.lru then c else record c { lru = entry ∷ unlink entry.address c.lru }

-- `lru_tail`, and the list before it
unfoldable pub tail : List Entry → Option Entry
tail [] = none
tail (e ∷ []) = some e
tail (e ∷ next ∷ rest) = tail (next ∷ rest)

unfoldable pub before_tail : List Entry → List Entry
before_tail [] = []
before_tail (e ∷ []) = []
before_tail (e ∷ next ∷ rest) = e ∷ before_tail (next ∷ rest)

abbrev pub bucket : Cache → Text → List Entry
bucket c key = get_or c.hash_table (hash_key key c.bucket_count) []

unfoldable pub evict_lru : Cache → Cache
evict_lru c = elim (tail c.lru) [
  | none ↦ c
  | some victim ↦ record c {
    lru = before_tail c.lru;
    hash_table =
        set c.hash_table (hash_key victim.key c.bucket_count)
          (unlink victim.address (bucket c victim.key));
    current_size = (c.current_size + size_modulus - victim.size) % size_modulus;
  }
]

unfoldable pub find_entry : Text → List Entry → Option Entry
find_entry key [] = none
find_entry key (e ∷ rest) =
    let found = find_entry key rest in if eqb_text e.key key then some e else found

unfoldable pub cache_get : Cache → Text → Option Bytes × Cache
cache_get c key = elim (find_entry key (bucket c key)) [
  | none ↦ (none, c)
  | some entry ↦ (some entry.bytes, move_to_front c entry)
]

-- the loop of `cache_put`; without fuel it has not ended
unfoldable pub make_room : ℕ → ℕ → Cache → Option Cache
make_room zero size c = none
make_room (suc fuel) size c =
    let rest = make_room fuel size (evict_lru c) in
    if ltb c.max_size ((c.current_size + size) % size_modulus) then rest else some c

-- the new entry, in its chain and at the front of the list
unfoldable pub add_entry : Cache → Entry → Cache
add_entry c entry = record c {
  hash_table = set c.hash_table (hash_key entry.key c.bucket_count) (entry ∷ bucket c entry.key);
  lru = entry ∷ c.lru;
  current_size = (c.current_size + entry.size) % size_modulus;
}

-- The address that a call of malloc returns, when these entries are allocated.
abbrev pub Malloc : Type 0
Malloc = List Entry → ℕ

-- malloc is called once there is room, when the victims are freed; one round more than the list has
-- entries
unfoldable pub cache_put : Cache → Text → Bytes → ℕ → Malloc → Option Cache
cache_put c key bytes size malloc = do
  c ← make_room (suc (length c.lru)) size c
  some (
      add_entry c
        (record { address = malloc c.lru; key = key; bytes = take size bytes; size = size }))
