-- ===== src/BlockCache/Files.antt =====
-- MemoryAllocation/cache.c, blocks of a disk file through the cache and a buffer. The file and the name
-- of a block in the cache are arguments, as `read`, `write` and `snprintf` are not in the repository.
use iitm.Prelude.{
  ℕ, ◌*◌, ◌^◌, Bool, true, Option, some, none, if◌then◌else◌, ◌>>=◌, ltb, Text, take,
}
use iitm.Prelude.Int.{ℤ, pos, negsuc}
use iitm.BlockCache.{Bytes, Cache, Malloc, create_cache, cache_get, cache_put}
use iitm.BlockCache.Buffers.{Pool, create_buffer_pool, change, get_buffer, release_buffer}

abbrev pub block_size : ℕ
block_size = 4096

abbrev pub buffer_pool_size : ℕ
buffer_pool_size = 64

abbrev pub cache_buckets : ℕ
cache_buckets = 128

abbrev pub max_cache_size : ℕ
max_cache_size = 1024 * 1024

-- What `read` and `write` of a whole block at an offset make of a disk file: a read of fewer bytes
-- than a block is none.
pub record DiskFile (Disk : Type 0) : Type 0 where
  pub read_at : Disk → ℕ → Option Bytes
  pub write_at : Disk → ℕ → Bytes → Disk

pub record FileSystem (Disk : Type 0) : Type 0 where
  pub disk : Disk
  pub buffer_pool : Pool
  pub cache : Cache

-- the result of `read_block`: its code, and the bytes that it writes to its argument
pub data Reading : Type 0 where
  failed : Reading
  done : Bytes → Reading

abbrev pub offset : ℕ → ℕ
offset block_id = block_id * block_size

-- an `int` of 32 bits; beyond it the product overflows, which is a fault
abbrev pub fits_int : ℕ → Bool
fits_int block_id = ltb (offset block_id) (2 ^ 31)

module _ {Disk : Type 0} (file : DiskFile Disk) (cache_key : ℕ → Text) where
  -- once the file is open
  abbrev pub create_filesystem : Disk → FileSystem Disk
  create_filesystem disk = record {
    disk = disk;
    buffer_pool = create_buffer_pool buffer_pool_size;
    cache = create_cache max_cache_size cache_buckets;
  }

  -- the end of `read_block`, with a buffer: `block_id * BLOCK_SIZE` is an offset
  unfoldable pub read_into :
      FileSystem Disk → ℕ → Malloc → ℕ → Option Bytes → Option (Reading × FileSystem Disk)
  read_into fs block_id malloc buf none =
      some (failed, record fs { buffer_pool = release_buffer fs.buffer_pool buf })
  read_into fs block_id malloc buf (some bytes) = do
    let pool = record fs.buffer_pool {
      buffers =
          change (λ b. record b { bytes = bytes; block_id = pos block_id }) buf
            fs.buffer_pool.buffers;
    }
    c ← cache_put fs.cache (cache_key block_id) bytes block_size malloc
    some (done bytes, record fs { cache = c; buffer_pool = release_buffer pool buf })

  -- `read_block` on a miss
  unfoldable pub read_missing : FileSystem Disk → ℕ → Malloc → Option (Reading × FileSystem Disk)
  read_missing fs block_id malloc =
      let (buf, pool) = get_buffer fs.buffer_pool in
      elim buf [
        | none ↦ some (failed, fs)
        | some i ↦
            if fits_int block_id
            then read_into (record fs { buffer_pool = pool }) block_id malloc i
                (file.read_at fs.disk (offset block_id))
            else none
      ]

  -- `malloc` is the call for the entry of the block, if it is added to the cache
  unfoldable pub read_block : FileSystem Disk → ℕ → Malloc → Option (Reading × FileSystem Disk)
  read_block fs block_id malloc =
      let (cached, c) = cache_get fs.cache (cache_key block_id) in
      elim cached [
        | some bytes ↦ some (done (take block_size bytes), record fs { cache = c })
        | none ↦ read_missing (record fs { cache = c }) block_id malloc
      ]

  -- `write_block` with a buffer
  unfoldable pub write_with :
      FileSystem Disk → ℕ → Bytes → Malloc → ℕ → Option (ℤ × FileSystem Disk)
  write_with fs block_id bytes malloc buf =
      let pool = record fs.buffer_pool {
        buffers =
            change (λ b. record b { bytes = bytes; block_id = pos block_id; dirty = true }) buf
              fs.buffer_pool.buffers;
      } in
      cache_put fs.cache (cache_key block_id) bytes block_size malloc >>= λ c.
      (if fits_int block_id
        then some (
          pos 0,
          record {
            disk = file.write_at fs.disk (offset block_id) bytes;
            buffer_pool = release_buffer pool buf;
            cache = c;
          },
        )
        else none)

  unfoldable pub write_block : FileSystem Disk → ℕ → Bytes → Malloc → Option (ℤ × FileSystem Disk)
  write_block fs block_id bytes malloc =
      let (buf, pool) = get_buffer fs.buffer_pool in
      elim buf [
        | none ↦ some (negsuc 0, fs)
        | some i ↦ write_with (record fs { buffer_pool = pool }) block_id bytes malloc i
      ]
