-- ===== src/BlockCache/Steps.antt =====
-- A read and a write of a block against the disk file alone.
use iitm.Prelude.{
  ℕ, ◌+◌, ◌^◌, ◌≤◌, ◌<◌, ◌≡◌, ◌≢◌, refl, sym, ap, ◌∙◌, ◌⊎◌, inl, inr, true, Option, some, none,
  Option-cases, length, take, ltb, lt→ltb, Bool-cases, Text, arith, Returns, Returns-bind,
  Returns-mono,
}
use iitm.Prelude.Int.{pos}
use iitm.BlockCache.{Bytes, Cache, Malloc, cache_get, cache_put}
use iitm.BlockCache.Entries.{IsMalloc}
use iitm.BlockCache.Keys.{view}
use iitm.BlockCache.Reads.{Gets, cache_get-Gets}
use iitm.BlockCache.Put.{Puts, cache_put-Puts}
use iitm.BlockCache.Buffers.{Pool}
use iitm.BlockCache.Idle.{IsIdle, borrowed, last_free, get_buffer-borrowed}
use iitm.BlockCache.Files.{
  block_size, DiskFile, FileSystem, done, offset, read_into, read_missing, read_block, write_with,
  write_block,
}
use iitm.BlockCache.Disk.{
  Laws, Names, IsCoherent, Reads, Writes, disk_reading, take_all, put-backed, filled-IsIdle,
  read_into-Reads,
}

-- two blocks do not overlap
separate :
    (i j : ℕ) → j ≢ i → (offset i + block_size ≤ offset j) ⊎ (offset j + block_size ≤ offset i)
separate i j ne = elim (Bool-cases (ltb i j)) [
  | inl t ↦ inl (ground arith)
  | inr t ↦ inr (ground arith)
]

module _ {Disk : Type 0} (file : DiskFile Disk) (cache_key : ℕ → Text) (laws : Laws file)
    (names : Names cache_key) where
  -- the branches of the operations
  read_missing-buffer :
      (fs : FileSystem Disk) (block_id : ℕ) (malloc : Malloc) (idle : IsIdle fs.buffer_pool)
      → offset block_id < 2 ^ 31
      → read_missing file cache_key fs block_id malloc
        ≡ read_into file cache_key
            (record fs { buffer_pool = borrowed fs.buffer_pool idle })
            block_id
            malloc
            (last_free fs.buffer_pool idle)
            (file.read_at fs.disk (offset block_id))
  unfolding read_missing
  read_missing-buffer fs block_id malloc idle p =
      rw
        (read_missing, get_buffer-borrowed fs.buffer_pool idle, lt→ltb (offset block_id) (2 ^ 31) p)
        (ap
          (λ (r : Option ℕ × Pool).
            read_into file cache_key (record fs { buffer_pool = r.1 }) block_id malloc
              (last_free fs.buffer_pool idle) (file.read_at fs.disk (offset block_id)))
          (get_buffer-borrowed fs.buffer_pool idle))

  read_block-miss :
      (fs : FileSystem Disk) (block_id : ℕ) (malloc : Malloc)
      → (cache_get fs.cache (cache_key block_id)).0 ≡ none
      → read_block file cache_key fs block_id malloc
        ≡ read_missing file cache_key
            (record fs { cache = (cache_get fs.cache (cache_key block_id)).1 })
            block_id
            malloc
  unfolding read_block
  read_block-miss fs block_id malloc e = rw (read_block, e) refl

  read_block-hit :
      (fs : FileSystem Disk) (block_id : ℕ) (malloc : Malloc) (b : Bytes)
      → (cache_get fs.cache (cache_key block_id)).0 ≡ some b
      → read_block file cache_key fs block_id malloc
        ≡ some (
          done (take block_size b),
          record fs { cache = (cache_get fs.cache (cache_key block_id)).1 },
        )
  unfolding read_block
  read_block-hit fs block_id malloc b e = rw (read_block, e) refl

  write_block-buffer :
      (fs : FileSystem Disk) (block_id : ℕ) (bytes : Bytes) (malloc : Malloc)
      (idle : IsIdle fs.buffer_pool)
      → write_block file cache_key fs block_id bytes malloc
        ≡ write_with file cache_key
            (record fs { buffer_pool = borrowed fs.buffer_pool idle })
            block_id
            bytes
            malloc
            (last_free fs.buffer_pool idle)
  unfolding write_block
  write_block-buffer fs block_id bytes malloc idle =
      rw (write_block, get_buffer-borrowed fs.buffer_pool idle)
        (ap
          (λ (r : Option ℕ × Pool).
            write_with file cache_key (record fs { buffer_pool = r.1 }) block_id bytes malloc
              (last_free fs.buffer_pool idle))
          (get_buffer-borrowed fs.buffer_pool idle))

  read_missing-Reads :
      (fs : FileSystem Disk) (block_id : ℕ) (malloc : Malloc)
      → IsCoherent file cache_key laws names fs
      → IsMalloc malloc
      → offset block_id < 2 ^ 31
      → Returns
          (Reads file cache_key laws names fs block_id)
          (read_missing file cache_key fs block_id malloc)
  read_missing-Reads fs block_id malloc co fresh p =
      rw (read_missing-buffer fs block_id malloc co.idle p) (
        read_into-Reads file cache_key laws names fs block_id malloc co fresh
          (file.read_at fs.disk (offset block_id)) refl)

  pub read_block-Reads :
      (fs : FileSystem Disk) (block_id : ℕ) (malloc : Malloc)
      → IsCoherent file cache_key laws names fs
      → IsMalloc malloc
      → offset block_id < 2 ^ 31
      → Returns
          (Reads file cache_key laws names fs block_id)
          (read_block file cache_key fs block_id malloc)
  read_block-Reads fs block_id malloc co fresh p = elim (Option-cases got.0) [
    | inl e ↦ rw (read_block-miss fs block_id malloc e) (
        Returns-mono (Reads file cache_key laws names (record fs { cache = got.1 }) block_id)
          (Reads file cache_key laws names fs block_id)
          (read_missing file cache_key (record fs { cache = got.1 }) block_id malloc)
          (read_missing-Reads (record fs { cache = got.1 }) block_id malloc after fresh p)
          (λ r m. record { coherent = m.coherent; disk = m.disk; reading = m.reading }))
    | inr (b, e) ↦
        let hit = co.backed block_id b (sym g.found ∙ e) in
        rw (read_block-hit fs block_id malloc b e) (record {
          coherent = after;
          disk = refl;
          reading =
              ap done (take_all block_size b (laws.whole fs.disk (offset block_id) b hit))
              ∙ ap disk_reading (sym hit);
        })
  ]
    where
      got : Option Bytes × Cache
      got = cache_get fs.cache (cache_key block_id)

      g : Gets fs.cache (cache_key block_id) got
      g = cache_get-Gets fs.cache (cache_key block_id) co.valid

      after : IsCoherent file cache_key laws names (record fs { cache = got.1 })
      after = record {
        valid = g.valid;
        large = omega (arith, g.limit, co.large);
        idle = co.idle;
        backed = λ i b v. co.backed i b (sym (g.kept (cache_key i)) ∙ v);
      }

  pub write_block-Writes :
      (fs : FileSystem Disk) (block_id : ℕ) (bytes : Bytes) (malloc : Malloc)
      → IsCoherent file cache_key laws names fs
      → IsMalloc malloc
      → length bytes ≡ block_size
      → offset block_id < 2 ^ 31
      → Returns
          (Writes file cache_key laws names fs block_id bytes)
          (write_block file cache_key fs block_id bytes malloc)
  unfolding write_with
  write_block-Writes fs block_id bytes malloc co fresh long p =
      rw
        (
          write_block-buffer fs block_id bytes malloc co.idle,
          write_with,
          lt→ltb (offset block_id) (2 ^ 31) p,
        )
        (Returns-bind (Puts fs.cache (cache_key block_id) (take block_size bytes))
          (Writes file cache_key laws names fs block_id bytes)
          (cache_put fs.cache (cache_key block_id) bytes block_size malloc) _
          (cache_put-Puts fs.cache (cache_key block_id) bytes block_size malloc co.valid fresh
            co.large)
          (λ c' q. record {
            coherent = record {
              valid = q.valid;
              large = omega (arith, q.limit, co.large);
              idle =
                  filled-IsIdle file cache_key laws names fs.buffer_pool co.idle
                    (λ b. record b { bytes = bytes; block_id = pos block_id; dirty = true })
                    (λ b. refl);
              backed =
                  put-backed file cache_key laws names
                    (file.write_at fs.disk (offset block_id) bytes) fs.cache c' block_id bytes
                    (laws.read_back fs.disk (offset block_id) bytes long) others
                    (rw (take_all block_size bytes long) at q);
            };
            disk = refl;
            code = refl;
          }))
    where
      others :
          (i : ℕ) (b : Bytes)
          → i ≢ block_id
          → view fs.cache (cache_key i) ≡ some b
          → file.read_at (file.write_at fs.disk (offset block_id) bytes) (offset i) ≡ some b
      others i b ne v =
          laws.apart fs.disk (offset block_id) (offset i) bytes b (separate block_id i ne)
            (co.backed i b v)
