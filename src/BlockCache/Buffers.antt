-- ===== src/BlockCache/Buffers.antt =====
-- MemoryAllocation/cache.c, the pool of buffers. A buffer is known by its index; the locks are left out,
-- since one thread at a time is modelled.
use iitm.Prelude.{
  ℕ, zero, suc, ◌+◌, ◌-◌, Bool, false, Option, some, none, List, [], ◌∷◌, ◌==◌, if◌then◌else◌,
  get_or, set, replicate,
}
use iitm.Prelude.Int.{ℤ, pos, negsuc, ◌-ℤ◌, eqb_ℤ}
use iitm.BlockCache.{Bytes}

pub record Buffer : Type 0 where
  pub bytes : Bytes
  pub block_id : ℤ
  pub dirty : Bool
  pub ref_count : ℤ

pub record Pool : Type 0 where
  pub buffers : List Buffer
  pub free_list : List ℕ
  pub free_count : ℕ
  pub pool_size : ℕ

-- the numbers from `i` on
unfoldable pub indices : ℕ → ℕ → List ℕ
indices zero i = []
indices (suc n) i = i ∷ indices n (i + 1)

-- the bytes that `aligned_alloc` leaves in a buffer are not known: they are never read
unfoldable pub create_buffer_pool : ℕ → Pool
create_buffer_pool size = record {
  buffers =
      replicate size (record { bytes = []; block_id = negsuc 0; dirty = false; ref_count = pos 0 });
  free_list = indices size 0;
  free_count = size;
  pool_size = size;
}

-- a change of the buffer at an index
unfoldable pub change : (Buffer → Buffer) → ℕ → List Buffer → List Buffer
change f i [] = []
change f zero (b ∷ bs) = f b ∷ bs
change f (suc i) (b ∷ bs) = b ∷ change f i bs

unfoldable pub get_buffer : Pool → Option ℕ × Pool
get_buffer pool =
    if pool.free_count == 0
    then (none, pool)
    else let buffer_idx = get_or pool.free_list (pool.free_count - 1) 0 in
      (
        some buffer_idx,
        record pool {
          free_count = pool.free_count - 1;
          buffers = change (λ b. record b { ref_count = pos 1 }) buffer_idx pool.buffers;
        },
      )

-- a buffer that nobody has any more
abbrev pub reset : Buffer → Buffer
reset b = record b { dirty = false; block_id = negsuc 0 }

abbrev pub ref_count_at : ℕ → List Buffer → ℤ
ref_count_at i [] = pos 0
ref_count_at zero (b ∷ bs) = b.ref_count
ref_count_at (suc i) (b ∷ bs) = ref_count_at i bs

-- back on the free list when the count reaches 0
unfoldable pub release_buffer : Pool → ℕ → Pool
release_buffer pool i =
    let buffers = change (λ b. record b { ref_count = b.ref_count -ℤ pos 1 }) i pool.buffers in
    if eqb_ℤ (ref_count_at i buffers) (pos 0)
    then record pool {
      buffers = change reset i buffers;
      free_list = set pool.free_list pool.free_count i;
      free_count = pool.free_count + 1;
    }
    else record pool { buffers = buffers }
