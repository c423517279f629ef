-- ===== src/BlockCache/Disk.antt =====
-- Reads and writes of blocks against the disk file alone.
use iitm.Prelude.{
  ℕ, zero, suc, ◌+◌, ◌≤◌, ◌≡◌, ◌≢◌, refl, sym, ap, ◌∙◌, ◌⊎◌, inl, inr, true, false, Bool-cases,
  Option, some, none, [], ◌∷◌, length, take, Text, eqb_text, eqb_text_refl, arith, Returns,
  Returns-bind, none-some, some_inj,
}
use iitm.Prelude.Int.{ℤ, pos}
use iitm.BlockCache.{Bytes, Cache, Malloc, cache_put}
use iitm.BlockCache.Entries.{IsMalloc}
use iitm.BlockCache.Keys.{IsValid, view}
use iitm.BlockCache.Put.{Puts, cache_put-Puts}
use iitm.BlockCache.Buffers.{Buffer, Pool, change, release_buffer}
use iitm.BlockCache.Idle.{
  IsIdle, borrowed, last_free, release_buffer-IsIdle, ref_count_at-kept, length-change,
}
use iitm.BlockCache.Files.{
  block_size, DiskFile, FileSystem, Reading, failed, done, offset, read_into,
}

-- What is documented of `read` and `write` of whole blocks: a read that does not fail has a block's
-- bytes, a write is read back, and a block that it does not overlap stays as it was.
pub record Laws {Disk : Type 0} (file : DiskFile Disk) : Type 0 where
  pub whole : (d : Disk) (o : ℕ) (b : Bytes) → file.read_at d o ≡ some b → length b ≡ block_size
  pub read_back :
      (d : Disk) (o : ℕ) (b : Bytes)
      → length b ≡ block_size
      → file.read_at (file.write_at d o b) o ≡ some b
  pub apart :
      (d : Disk) (o o' : ℕ) (b b' : Bytes)
      → (o + block_size ≤ o') ⊎ (o' + block_size ≤ o)
      → file.read_at d o' ≡ some b'
      → file.read_at (file.write_at d o b) o' ≡ some b'

-- the names of two blocks differ
abbrev pub Names : (ℕ → Text) → Type 0
Names cache_key = (i j : ℕ) → eqb_text (cache_key i) (cache_key j) ≡ true → i ≡ j

pub take_all : (n : ℕ) (b : Bytes) → length b ≡ n → take n b ≡ b
take_all zero [] p = refl
take_all zero (x ∷ b) p = absurd (omega arith)
take_all (suc n) [] p = refl
take_all (suc n) (x ∷ b) p = ap (λ l. x ∷ l) (take_all n b (omega arith))

-- what a read of the disk itself gives
abbrev pub disk_reading : Option Bytes → Reading
disk_reading none = failed
disk_reading (some b) = done b

module _ {Disk : Type 0} (file : DiskFile Disk) (cache_key : ℕ → Text) (laws : Laws file)
    (names : Names cache_key) where
  -- The cache has nothing but blocks of the disk, and all buffers are free.
  pub record IsCoherent (fs : FileSystem Disk) : Type 0 where
    pub valid : IsValid fs.cache
    pub large : block_size ≤ fs.cache.max_size
    pub idle : IsIdle fs.buffer_pool
    pub backed :
        (i : ℕ) (b : Bytes)
        → view fs.cache (cache_key i) ≡ some b
        → file.read_at fs.disk (offset i) ≡ some b

  -- a read gives what the disk has, and changes nothing but the cache and the buffers
  pub record Reads (fs : FileSystem Disk) (block_id : ℕ) (r : Reading × FileSystem Disk)
      : Type 0 where
    pub coherent : IsCoherent r.1
    pub disk : r.1.disk ≡ fs.disk
    pub reading : r.0 ≡ disk_reading (file.read_at fs.disk (offset block_id))

  pub record Writes (fs : FileSystem Disk) (block_id : ℕ) (bytes : Bytes) (r : ℤ × FileSystem Disk)
      : Type 0 where
    pub coherent : IsCoherent r.1
    pub disk : r.1.disk ≡ file.write_at fs.disk (offset block_id) bytes
    pub code : r.0 ≡ pos 0

  -- the cache after a block was put there
  pub put-backed :
      (d : Disk) (c c' : Cache) (block_id : ℕ) (bytes : Bytes)
      → file.read_at d (offset block_id) ≡ some bytes
      → ((i : ℕ) (b : Bytes)
          → i ≢ block_id
          → view c (cache_key i) ≡ some b
          → file.read_at d (offset i) ≡ some b)
      → Puts c (cache_key block_id) bytes c'
      → (i : ℕ) (b : Bytes) → view c' (cache_key i) ≡ some b
      → file.read_at d (offset i) ≡ some b
  put-backed d c c' block_id bytes now old p i b v =
      elim (Bool-cases (eqb_text (cache_key block_id) (cache_key i))) [
        | inl t ↦
            let e = names block_id i t in
            let q : bytes ≡ b = some_inj (sym p.stored ∙ ap (λ j. view c' (cache_key j)) e ∙ v) in
            ap (λ j. file.read_at d (offset j)) (sym e) ∙ now ∙ ap some q
        | inr t ↦
            old i b
              (λ e.
                differs
                  (ap (λ j. eqb_text (cache_key block_id) (cache_key j)) e
                    ∙ eqb_text_refl (cache_key block_id))
                  t)
              (kept (p.others (cache_key i) t))
      ]
    where
      differs :
          eqb_text (cache_key block_id) (cache_key i) ≡ true
          → eqb_text (cache_key block_id) (cache_key i) ≡ false
          → ⊥
      differs a n = cc

      kept :
          (view c' (cache_key i) ≡ none) ⊎ (view c' (cache_key i) ≡ view c (cache_key i))
          → view c (cache_key i) ≡ some b
      kept (inl n) = absurd (none-some (sym n ∙ v))
      kept (inr n) = sym n ∙ v

  -- a buffer that is filled keeps its count, and comes back
  pub filled-IsIdle :
      (pool : Pool) (idle : IsIdle pool) (f : Buffer → Buffer)
      → ((b : Buffer) → (f b).ref_count ≡ b.ref_count)
      → IsIdle (
          release_buffer
            (record (borrowed pool idle) {
              buffers = change f (last_free pool idle) (borrowed pool idle).buffers;
            })
            (last_free pool idle))
  filled-IsIdle pool idle f e =
      release_buffer-IsIdle pool idle _
        (length-change f (last_free pool idle) (borrowed pool idle).buffers
          ∙ length-change (λ b. record b { ref_count = pos 1 }) (last_free pool idle) pool.buffers)
        (λ j. ref_count_at-kept f e (last_free pool idle) j (borrowed pool idle).buffers)

  -- a read that misses, from the result of the read of the disk
  pub read_into-Reads :
      (fs : FileSystem Disk) (block_id : ℕ) (malloc : Malloc) (co : IsCoherent fs)
      → IsMalloc malloc
      → (o : Option Bytes) → file.read_at fs.disk (offset block_id) ≡ o
      → Returns (Reads fs block_id) (
          read_into file cache_key
            (record fs { buffer_pool = borrowed fs.buffer_pool co.idle })
            block_id
            malloc
            (last_free fs.buffer_pool co.idle)
            o)
  unfolding read_into
  read_into-Reads fs block_id malloc co fresh none e = record {
    coherent = record {
      valid = co.valid;
      large = co.large;
      idle =
          release_buffer-IsIdle fs.buffer_pool co.idle (borrowed fs.buffer_pool co.idle).buffers
            (length-change (λ b. record b { ref_count = pos 1 }) (last_free fs.buffer_pool co.idle)
              fs.buffer_pool.buffers)
            (λ j. refl);
      backed = co.backed;
    };
    disk = refl;
    reading = ap disk_reading (sym e);
  }
  read_into-Reads fs block_id malloc co fresh (some bytes) e =
      Returns-bind (Puts fs.cache (cache_key block_id) (take block_size bytes)) (Reads fs block_id)
        (cache_put fs.cache (cache_key block_id) bytes block_size malloc) _
        (cache_put-Puts fs.cache (cache_key block_id) bytes block_size malloc co.valid fresh
          co.large)
        (λ c' p. record {
          coherent = record {
            valid = p.valid;
            large = omega (arith, p.limit, co.large);
            idle =
                filled-IsIdle fs.buffer_pool co.idle
                  (λ b. record b { bytes = bytes; block_id = pos block_id }) (λ b. refl);
            backed =
                put-backed fs.disk fs.cache c' block_id bytes e (λ i b ne. co.backed i b)
                  (rw whole at p);
          };
          disk = refl;
          reading = ap disk_reading (sym e);
        })
    where
      whole : take block_size bytes ≡ bytes
      whole = take_all block_size bytes (laws.whole fs.disk (offset block_id) bytes e)
