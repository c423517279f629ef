-- ===== src/BlockCache/Start.antt =====
-- A new file system.
use iitm.Prelude.{
  ◌^◌, ℕ, zero, suc, ◌+◌, ◌≤◌, ◌<◌, ◌≡◌, refl, sym, ap, ◌∙◌, Bool, true, false, List, [],
  if◌then◌else◌, ◌==◌, length, length-replicate, get_or, replicate, Text, arith, none-some,
}
use iitm.Prelude.Int.{pos}
use iitm.BlockCache.{Entry, hash_key, create_cache}
use iitm.BlockCache.Entries.{of_key, total}
use iitm.BlockCache.Keys.{IsValid, view-head}
use iitm.BlockCache.Buffers.{Buffer, indices, create_buffer_pool, ref_count_at}
use iitm.BlockCache.Idle.{IsIdle}
use iitm.BlockCache.Files.{DiskFile, block_size, max_cache_size, cache_buckets, create_filesystem}
use iitm.BlockCache.Disk.{Laws, Names, IsCoherent}

get_or-replicate {ℓ} : {A : Type ℓ} (a : A) (n i : ℕ) → get_or (replicate n a) i a ≡ a
get_or-replicate a zero i = refl
get_or-replicate a (suc n) zero = refl
get_or-replicate a (suc n) (suc i) = get_or-replicate a n i

length-indices : (n i : ℕ) → length (indices n i) ≡ n
unfolding indices
length-indices zero i = refl
length-indices (suc n) i = ap suc (length-indices n (i + 1))

indices_lt : (n i j k : ℕ) → i + n ≤ k → 0 < k → get_or (indices n i) j 0 < k
unfolding indices
indices_lt zero i j k p q = q
indices_lt (suc n) i zero k p q = omega arith
indices_lt (suc n) i (suc j) k p q = indices_lt n (i + 1) j k (omega arith) q

unused : (n i : ℕ) (b : Buffer) → b.ref_count ≡ pos 0 → ref_count_at i (replicate n b) ≡ pos 0
unused zero i b e = refl
unused (suc n) zero b e = e
unused (suc n) (suc i) b e = unused n i b e

pub create_buffer_pool-IsIdle : (n : ℕ) → 0 < n → IsIdle (create_buffer_pool n)
unfolding create_buffer_pool
create_buffer_pool-IsIdle n p = record {
  some_left = p;
  all_free = refl;
  list = length-indices n 0;
  buffers = length-replicate n _;
  inside = λ i q. indices_lt n 0 i n (omega arith) p;
  unused = λ i. unused n i _ refl;
}

pub create_cache-IsValid :
    (max_size bucket_count : ℕ)
    → 0 < bucket_count
    → max_size < 2 ^ 63
    → IsValid (create_cache max_size bucket_count)
unfolding of_key total
create_cache-IsValid max_size bucket_count p q = record {
  buckets = p;
  table = length-replicate bucket_count _;
  same = λ i k.
      ap (of_key k) (get_or-replicate [] bucket_count i)
      ∙ sym (either (hash_key k bucket_count == i));
  chains = λ i. rw (get_or-replicate {A = List Entry} [] bucket_count i) tt;
  distinct = tt;
  size = refl;
  bounded = omega arith;
  no_wrap = q;
}
  where
    either : (b : Bool) → ◌≡◌ {A = List Entry} (if b then [] else []) []
    either true = refl
    either false = refl

module _ {Disk : Type 0} (file : DiskFile Disk) (cache_key : ℕ → Text) (laws : Laws file)
    (names : Names cache_key) where
  -- with an empty cache of any limit that has room for a block
  pub empty_cache-IsCoherent :
      (d : Disk) (max_size bucket_count : ℕ)
      → 0 < bucket_count
      → block_size ≤ max_size
      → max_size < 2 ^ 63
      → IsCoherent file cache_key laws names (record (create_filesystem file cache_key d) {
        cache = create_cache max_size bucket_count;
      })
  unfolding of_key
  empty_cache-IsCoherent d max_size bucket_count p large q = record {
    valid = empty;
    large = large;
    idle = create_buffer_pool-IsIdle 64 (omega arith);
    backed = λ i b v.
        absurd (
          none-some (sym (view-head (create_cache max_size bucket_count) (cache_key i) empty) ∙ v));
  }
    where
      empty : IsValid (create_cache max_size bucket_count)
      empty = create_cache-IsValid max_size bucket_count p q

  pub create_filesystem-IsCoherent :
      (d : Disk) → IsCoherent file cache_key laws names (create_filesystem file cache_key d)
  create_filesystem-IsCoherent d =
      empty_cache-IsCoherent d max_cache_size cache_buckets (omega arith) (omega arith)
        (omega arith)
