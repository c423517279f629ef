-- ===== src/MemoryPool.antt =====
-- MemoryPool/memoryPool.c: a first-fit pool whose blocks, free or not, form one list in the order of
-- their addresses. An address is an offset into the pool; `size_t` arithmetic wraps at 2 ^ 64.
pub mod Tiling
pub mod Allocate
pub mod Release
pub mod RoundTrip
use iitm.Prelude.{
  ℕ, ◌+◌, ◌-◌, ◌%◌, ◌^◌, Bool, true, false, ◌&&◌, Option, some, none, List, [], ◌∷◌, ltb, leb, ◌==◌,
  if◌then◌else◌, ◌>>=◌,
}

abbrev pub word : ℕ
word = 2 ^ 64

-- `sizeof(Block)` for an 8-byte `size_t`, an `int` and a pointer
abbrev pub header : ℕ
header = 24

-- `struct Block` with its own address; `next` is the next element of the list
pub record Block : Type 0 where
  pub addr : ℕ
  pub size : ℕ
  pub is_free : Bool

-- the globals `PoolSize` and `FreeList`
pub record Pool : Type 0 where
  pub pool_size : ℕ
  pub blocks : List Block

-- `none` is the exit after a failed `malloc`
unfoldable pub pool_init : (malloc_ok : Bool) → ℕ → Option Pool
pool_init false size = none
pool_init true size = some (record {
  pool_size = size;
  blocks = record { addr = 0; size = (size + word - header) % word; is_free = true } ∷ [];
})

-- `SplitBlock`: the two blocks in place of one
unfoldable pub split_block : Block → ℕ → List Block → List Block
split_block block size next =
    record block { size = size; is_free = false }
    ∷ record {
      addr = block.addr + header + size;
      size = (block.size + word - size + word - header) % word;
      is_free = true;
    }
    ∷ next

unfoldable pub take_block : Block → ℕ → List Block → List Block
unfolding split_block
take_block curr size next =
    if ltb ((size + header) % word) curr.size
    then split_block curr size next
    else record curr { is_free = false } ∷ next

-- the loop of `PoolAllocate`; `none` is NULL
unfoldable pub allocate_from : ℕ → List Block → Option (ℕ × List Block)
allocate_from size [] = none
allocate_from size (curr ∷ next) =
    let rest = allocate_from size next >>= λ (p, next'). some (p, curr ∷ next') in
    if curr.is_free && leb size curr.size
    then some (curr.addr + header, take_block curr size next)
    else rest

unfoldable pub pool_allocate : Pool → ℕ → Option (ℕ × Pool)
pool_allocate pool size = do
  (p, blocks) ← allocate_from size pool.blocks
  some (p, record pool { blocks = blocks })

-- the loop of `MergeBlock` from the block `curr` on
unfoldable pub merge_from : Block → List Block → List Block
merge_from curr [] = curr ∷ []
merge_from curr (next ∷ rest) =
    let joined =
      merge_from (record curr { size = (curr.size + (header + next.size)) % word }) rest in
    let kept = curr ∷ merge_from next rest in if curr.is_free && next.is_free then joined else kept

unfoldable pub merge_block : List Block → List Block
merge_block [] = []
merge_block (curr ∷ rest) = merge_from curr rest

-- `block_ptr->free = 1`; `none` is a write outside the blocks' headers
unfoldable pub set_free : ℕ → List Block → Option (List Block)
set_free addr [] = none
set_free addr (b ∷ bs) =
    let rest = set_free addr bs >>= λ bs'. some (b ∷ bs') in
    if b.addr == addr then some (record b { is_free = true } ∷ bs) else rest

-- `PoolFree`, of NULL or of the address of a payload
unfoldable pub pool_free : Pool → Option ℕ → Option Pool
pool_free pool none = some pool
pool_free pool (some ptr) = do
  blocks ← set_free (ptr - header) pool.blocks
  some (record pool { blocks = merge_block blocks })
