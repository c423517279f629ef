-- ===== src/FilePool.antt =====
-- FIleCache/bufferPool.c: a pool of buffers, with the free ones in a list through `next`. A pointer
-- into `buffers` is an index, which is also the `buffer_id`; `none` is NULL. The result `none` of an
-- operation is a fault: a buffer read through NULL or outside the pool.
pub mod Lists
use iitm.Prelude.{
  ℕ, zero, suc, ◌+◌, ◌-◌, ◌==◌, Bool, true, false, Option, none, some, ◌>>=◌, List, [], ◌∷◌, Text,
  get_elem?, set, if◌then◌else◌,
}

pub record Buffer : Type 0 where
  bytes : Text
  is_free : Bool
  next : Option ℕ

pub record Pool : Type 0 where
  buffers : List Buffer
  free_list : Option ℕ
  total_buffers : ℕ
  free_count : ℕ

-- The loop from `iterator` on, with so many buffers left. `left` is what malloc leaves in `data`.
unfoldable pub free_from : Text → ℕ → ℕ → List Buffer
free_from left iterator zero = []
free_from left iterator (suc n) =
    record { bytes = left; is_free = true; next = if n == 0 then none else some (iterator + 1) }
    ∷ free_from left (suc iterator) n

-- `has_pool` and `has_buffers` tell whether the two calls of malloc succeed; `none` is NULL.
abbrev pub create_buffer_pool : Bool → Bool → Text → ℕ → Option Pool
create_buffer_pool has_pool has_buffers left pool_size =
    if has_pool
    then if has_buffers
      then some (record {
        buffers = free_from left 0 pool_size;
        free_list = some 0;
        total_buffers = pool_size;
        free_count = pool_size;
      })
      else none
    else none

-- The second result is NULL when the pool is exhausted.
unfoldable pub acquire_buffer : Pool → Option (Pool × Option ℕ)
acquire_buffer pool = if pool.free_count == 0 then some (pool, none) else (do
  at ← pool.free_list
  buffer ← get_elem? pool.buffers at
  some (
    record pool {
      buffers = set pool.buffers at (record { bytes = buffer.bytes; is_free = false; next = none });
      free_list = buffer.next;
      free_count = pool.free_count - 1;
    },
    some at,
  ))

-- `memset` leaves the empty text.
unfoldable pub release_buffer : Pool → ℕ → Option Pool
release_buffer pool at = do
  buffer ← get_elem? pool.buffers at
  (if buffer.is_free
      then some pool
      else some (record pool {
        buffers =
            set pool.buffers at (record { bytes = []; is_free = true; next = pool.free_list });
        free_list = some at;
        free_count = pool.free_count + 1;
      }))
