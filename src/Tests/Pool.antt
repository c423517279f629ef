-- ===== src/Tests/Pool.antt =====
-- Runs of MemoryPool/memoryPool.c.
use iitm.Prelude.{◌≡◌, refl, ℕ, ◌+◌, ◌<◌, true, false, some, List, [], ◌∷◌, Returns, Yields, arith}
use iitm.SortedList.{All}
use iitm.MemoryPool.{
  Block, Pool, pool_init, take_block, allocate_from, pool_allocate, merge_from, merge_block,
  set_free, pool_free, header,
}
use iitm.MemoryPool.Tiling.{used}
use iitm.MemoryPool.Allocate.{IsValid, Allocates, pool_allocate-Allocates, pool_allocate-none}
use iitm.MemoryPool.Release.{Releases, pool_free-Releases}
use iitm.MemoryPool.RoundTrip.{pool_free-pool_allocate}

program : Unit {0}
unfolding pool_init take_block allocate_from pool_allocate merge_from merge_block set_free pool_free
    used
program = tt

abbrev block : ℕ → ℕ → List Block → List Block
block addr size bs = record { addr = addr; size = size; is_free = true } ∷ bs

abbrev taken : ℕ → ℕ → List Block → List Block
taken addr size bs = record { addr = addr; size = size; is_free = false } ∷ bs

-- 1024 bytes after the request of 100 bytes in MemoryPool/main.c
abbrev pool : Pool
pool = record { pool_size = 1024; blocks = taken 0 100 (block 124 876 []) }

abbrev fresh : Pool
fresh = record { pool_size = 1024; blocks = block 0 1000 [] }

main_allocates : pool_allocate fresh 100 ≡ some (24, pool)
unfolding program
main_allocates = refl

main_frees : pool_free pool (some 24) ≡ some fresh
unfolding program
main_frees = refl

-- 8 bytes have no room for the header: the block claims almost 2 ^ 64 bytes
tiny : pool_init true 8 ≡ some (record { pool_size = 8; blocks = block 0 18446744073709551600 [] })
unfolding program
tiny = refl

pool-IsValid : IsValid pool
pool-IsValid = record {
  sized = omega arith;
  tiles = omega arith;
  coalesced = ((λ e. cc), ((λ _. tt), tt));
}

fresh-IsValid : IsValid fresh
fresh-IsValid = record { sized = omega arith; tiles = omega arith; coalesced = ((λ _. tt), tt) }

pool_allocate-Allocates_example : Yields (Allocates pool 200) (pool_allocate pool 200)
pool_allocate-Allocates_example = pool_allocate-Allocates pool 200 pool-IsValid

pool_allocate-none_example : All (λ b. b.is_free ≡ true → b.size < 900) pool.blocks
unfolding program
pool_allocate-none_example = pool_allocate-none pool 900 refl

pool_free-Releases_example : Returns (Releases [] []) (pool_free pool (some (0 + header)))
unfolding used
pool_free-Releases_example = pool_free-Releases pool [] [] 0 100 pool-IsValid refl

pool_free-pool_allocate_example :
    Yields (λ (p, pool'). pool_free pool' (some p) ≡ some pool) (pool_allocate pool 200)
pool_free-pool_allocate_example = pool_free-pool_allocate pool 200 pool-IsValid
