-- ===== src/MemoryPool/Allocate.antt =====
-- `PoolAllocate`.
use iitm.Prelude.{
  ℕ, ◌+◌, ◌%◌, ◌≤◌, ◌<◌, ◌≡◌, refl, true, false, ◌&&◌, none, List, [], ◌∷◌, ◌++◌, ap, arith, ltb,
  leb, Yields, Yields-bind, inl, inr, Bool-cases,
}
use iitm.SortedList.{All}
use iitm.MemoryPool.{word, header, Block, Pool, take_block, allocate_from, pool_allocate}
use iitm.MemoryPool.Tiling.{Tiles, take_block-Tiles, StartsUsed, IsCoalesced, used}

-- A request for `size` bytes turned the blocks `bs` into `r.1` and returned `r.0`.
pub record Takes (a e size : ℕ) (bs : List Block) (r : ℕ × List Block) : Type 0 where
  pub before : List (ℕ × ℕ)
  pub after : List (ℕ × ℕ)
  pub addr : ℕ
  pub got : ℕ
  pub payload : r.0 ≡ addr + header
  pub large : size ≤ got
  pub old : used bs ≡ before ++ after
  pub new : used r.1 ≡ before ++ (addr, got) ∷ after
  pub tiles : Tiles a e r.1
  pub starts : StartsUsed bs → StartsUsed r.1
  pub coalesced : IsCoalesced bs → IsCoalesced r.1

take_block-used :
    (b : Block) (size : ℕ) (bs : List Block)
    → size ≤ b.size
    → (got : ℕ) × (size ≤ got) × (used (take_block b size bs) ≡ (b.addr, got) ∷ used bs)
unfolding take_block used
take_block-used b size bs le = elim (Bool-cases (ltb ((size + header) % word) b.size)) [
  | inl split ↦ (size, omega arith, rw split refl)
  | inr whole ↦ (b.size, le, rw whole refl)
]

take_block-IsCoalesced :
    (b : Block) (size : ℕ) (bs : List Block)
    → b.is_free ≡ true
    → IsCoalesced (b ∷ bs)
    → IsCoalesced (take_block b size bs)
unfolding take_block
take_block-IsCoalesced b size bs f c = elim (Bool-cases (ltb ((size + header) % word) b.size)) [
  | inl split ↦ rw split ((λ e. absurd (false_true e)), ((λ _. c.0 f), c.1))
  | inr whole ↦ rw whole ((λ e. absurd (false_true e)), c.1)
]
  where
    false_true : false ≡ true → ⊥
    false_true e = cc

take_block-StartsUsed : (b : Block) (size : ℕ) (bs : List Block) → StartsUsed (take_block b size bs)
unfolding take_block
take_block-StartsUsed b size bs = ground arith

skip :
    (a e size : ℕ) (b : Block) (bs : List Block)
    → b.addr ≡ a
    → (r : ℕ × List Block) → Takes (a + header + b.size) e size bs r
    → Takes a e size (b ∷ bs) (r.0, b ∷ r.1)
unfolding used
skip a e size b bs at r t = elim (Bool-cases b.is_free) [
  | inl f ↦ record {
    before = t.before;
    after = t.after;
    addr = t.addr;
    got = t.got;
    payload = t.payload;
    large = t.large;
    old = rw f t.old;
    new = rw f t.new;
    tiles = (at, t.tiles);
    starts = λ u. u;
    coalesced = λ c. ((λ g. t.starts (c.0 g)), t.coalesced c.1);
  }
  | inr u ↦ record {
    before = (b.addr, b.size) ∷ t.before;
    after = t.after;
    addr = t.addr;
    got = t.got;
    payload = t.payload;
    large = t.large;
    old = rw u (ap (λ xs. (b.addr, b.size) ∷ xs) t.old);
    new = rw u (ap (λ xs. (b.addr, b.size) ∷ xs) t.new);
    tiles = (at, t.tiles);
    starts = λ v. v;
    coalesced = λ c. ((λ g. t.starts (c.0 g)), t.coalesced c.1);
  }
]

pub allocate_from-Takes :
    (size a e : ℕ) (bs : List Block)
    → e < word
    → Tiles a e bs
    → Yields (Takes a e size bs) (allocate_from size bs)
unfolding allocate_from used
allocate_from-Takes size a e [] w t = tt
allocate_from-Takes size a e (b ∷ bs) w (at, t) = elim (Bool-cases (b.is_free && leb size b.size)) [
  | inl fits ↦
      let f : b.is_free ≡ true = ground arith in
      let le : size ≤ b.size = ground arith in
      let (got, large, u) = take_block-used b size bs le in
      rw fits (record {
        before = [];
        after = used bs;
        addr = b.addr;
        got = got;
        payload = refl;
        large = large;
        old = rw f refl;
        new = u;
        tiles = take_block-Tiles a e b size bs w le (at, t);
        starts = λ _. take_block-StartsUsed b size bs;
        coalesced = take_block-IsCoalesced b size bs f;
      })
  | inr other ↦ rw other (
      Yields-bind _ _ (allocate_from size bs) _
        (allocate_from-Takes size (a + header + b.size) e bs w t) (skip a e size b bs at))
]

allocate_from-none :
    (size : ℕ) (bs : List Block)
    → allocate_from size bs ≡ none
    → All (λ b. b.is_free ≡ true → b.size < size) bs
unfolding allocate_from
allocate_from-none size [] e = tt
allocate_from-none size (b ∷ bs) e =
    ((λ f. ground arith), allocate_from-none size bs (ground arith))

-- the pool is covered by its blocks, and free space is in one piece between blocks in use
pub record IsValid (pool : Pool) : Type 0 where
  pub sized : pool.pool_size < word
  pub tiles : Tiles 0 pool.pool_size pool.blocks
  pub coalesced : IsCoalesced pool.blocks

-- the outcome of `PoolAllocate`
pub record Allocates (pool : Pool) (size : ℕ) (r : ℕ × Pool) : Type 0 where
  pub valid : IsValid r.1
  pub same_size : r.1.pool_size ≡ pool.pool_size
  pub takes : Takes 0 pool.pool_size size pool.blocks (r.0, r.1.blocks)

-- If `PoolAllocate` returns a payload of a valid pool, the pool stays valid, the block was not in
-- use before and has at least the size asked for, and the other blocks in use are as they were.
pub pool_allocate-Allocates :
    (pool : Pool) (size : ℕ) → IsValid pool → Yields (Allocates pool size) (pool_allocate pool size)
unfolding pool_allocate
pool_allocate-Allocates pool size v =
    Yields-bind _ _ (allocate_from size pool.blocks) _
      (allocate_from-Takes size 0 pool.pool_size pool.blocks v.sized v.tiles)
      λ (p, bs) t. record {
        valid = record { sized = v.sized; tiles = t.tiles; coalesced = t.coalesced v.coalesced };
        same_size = refl;
        takes = t;
      }

-- It returns NULL only if every free block is smaller than the request.
pub pool_allocate-none :
    (pool : Pool) (size : ℕ)
    → pool_allocate pool size ≡ none
    → All (λ b. b.is_free ≡ true → b.size < size) pool.blocks
unfolding pool_allocate
pool_allocate-none pool size e = allocate_from-none size pool.blocks (ground arith)
