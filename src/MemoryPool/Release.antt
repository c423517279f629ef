-- ===== src/MemoryPool/Release.antt =====
-- `PoolFree` and `MergeBlock`.
use iitm.Prelude.{
  ℕ, ◌+◌, ◌-◌, ◌%◌, ◌≤◌, ◌<◌, ◌≡◌, refl, true, false, ◌&&◌, some, List, [], ◌∷◌, ◌++◌, ap, arith,
  ◌==◌, Returns, Returns-bind, inl, inr, Bool-cases, ◌∙◌,
}
use iitm.MemoryPool.{
  word, header, Block, Pool, merge_from, merge_block, set_free, pool_free, pool_init,
}
use iitm.MemoryPool.Tiling.{Tiles, Tiles-le, StartsUsed, IsCoalesced, used}
use iitm.MemoryPool.Allocate.{IsValid}

merge_from-StartsUsed :
    (b : Block) (bs : List Block) → b.is_free ≡ false → StartsUsed (merge_from b bs)
unfolding merge_from
merge_from-StartsUsed b [] u = u
merge_from-StartsUsed b (c ∷ bs) u = ground arith

-- What `MergeBlock` keeps, and what it achieves.
record Merges (a e : ℕ) (bs bs' : List Block) : Type 0 where
  tiles : Tiles a e bs'
  coalesced : IsCoalesced bs'
  same_used : used bs' ≡ used bs

merge_from-Merges :
    (b : Block) (bs : List Block) (a e : ℕ)
    → e < word
    → Tiles a e (b ∷ bs)
    → Merges a e (b ∷ bs) (merge_from b bs)
unfolding merge_from used
merge_from-Merges b [] a e w t = record { tiles = t; coalesced = ((λ _. tt), tt); same_used = refl }
merge_from-Merges b (c ∷ bs) a e w (at, (at', t)) = elim (Bool-cases (b.is_free && c.is_free)) [
  | inl both ↦
      let le = Tiles-le (a + header + b.size + header + c.size) e bs t in
      let fits : (b.size + (header + c.size)) % word ≡ b.size + (header + c.size) = omega arith in
      let end : a + header + (b.size + (header + c.size)) ≡ a + header + b.size + header + c.size =
        omega arith in
      let m =
        merge_from-Merges (record b { size = (b.size + (header + c.size)) % word }) bs a e w
          (at, rw (fits, end) t) in
      rw both (record {
        tiles = m.tiles;
        coalesced = m.coalesced;
        same_used = ground (arith, m.same_used);
      })
  | inr split ↦
      let m = merge_from-Merges c bs (a + header + b.size) e w (at', t) in
      rw split (record {
        tiles = (at, m.tiles);
        coalesced = ((λ f. merge_from-StartsUsed c bs (ground arith)), m.coalesced);
        same_used = ground (arith, m.same_used);
      })
]

-- The blocks in use lie at or above the start of the tiling.
pub used-le :
    (a e : ℕ) (bs : List Block) (before after : List (ℕ × ℕ)) (addr got : ℕ)
    → Tiles a e bs
    → used bs ≡ before ++ (addr, got) ∷ after
    → a ≤ addr
unfolding used
used-le a e [] [] after addr got t u = cc
used-le a e [] (x ∷ before) after addr got t u = cc
used-le a e (b ∷ bs) before after addr got (at, t) u = elim (Bool-cases b.is_free) [
  | inl f ↦ omega (arith, used-le (a + header + b.size) e bs before after addr got t (rw f at u))
  | inr f ↦ go before (λ rest. used-le (a + header + b.size) e bs rest after addr got t) (rw f at u)
]
  where
    go :
        (before : List (ℕ × ℕ))
        → ((rest : List (ℕ × ℕ))
            → used bs ≡ rest ++ (addr, got) ∷ after
            → a + header + b.size ≤ addr)
        → (b.addr, b.size) ∷ used bs ≡ before ++ (addr, got) ∷ after
        → a ≤ addr
    go [] ih q = ground arith
    go (x ∷ rest) ih q = let le = ih rest (cc q) in omega arith

-- What `block_ptr->free = 1` does to a block in use.
record Frees (a e : ℕ) (before after : List (ℕ × ℕ)) (bs : List Block) : Type 0 where
  tiles : Tiles a e bs
  left : used bs ≡ before ++ after

set_free-Frees :
    (a e : ℕ) (bs : List Block) (before after : List (ℕ × ℕ)) (addr got : ℕ)
    → Tiles a e bs
    → used bs ≡ before ++ (addr, got) ∷ after
    → Returns (Frees a e before after) (set_free addr bs)
unfolding set_free used
set_free-Frees a e [] [] after addr got t u = cc
set_free-Frees a e [] (x ∷ before) after addr got t u = cc
set_free-Frees a e (b ∷ bs) before after addr got (at, t) u = elim (Bool-cases b.is_free) [
  | inl f ↦
      let u' = rw f at u in
      let le = used-le (a + header + b.size) e bs before after addr got t u' in
      let ne : (b.addr == addr) ≡ false = ground arith in
      rw ne (
        Returns-bind _ _ (set_free addr bs) _
          (set_free-Frees (a + header + b.size) e bs before after addr got t u')
          λ bs' r. record { tiles = (at, r.tiles); left = rw f r.left })
  | inr f ↦
      go before f
        (λ rest q. (
          used-le (a + header + b.size) e bs rest after addr got t q,
          set_free-Frees (a + header + b.size) e bs rest after addr got t q,
        ))
        (rw f at u)
]
  where
    go :
        (before : List (ℕ × ℕ))
        → b.is_free ≡ false
        → ((rest : List (ℕ × ℕ))
            → used bs ≡ rest ++ (addr, got) ∷ after
            → (a + header + b.size ≤ addr)
              × Returns (Frees (a + header + b.size) e rest after) (set_free addr bs))
        → (b.addr, b.size) ∷ used bs ≡ before ++ (addr, got) ∷ after
        → Returns (Frees a e before after) (set_free addr (b ∷ bs))
    go [] f ih q =
        let hit : (b.addr == addr) ≡ true = ground arith in
        let tail : used bs ≡ after = cc q in rw hit (record { tiles = (at, t); left = tail })
    go (x ∷ rest) f ih q =
        let head : x ≡ (b.addr, b.size) = cc q in
        let (le, r) = ih rest (cc q) in
        let ne : (b.addr == addr) ≡ false = ground arith in
        rw ne (
          Returns-bind _ _ (set_free addr bs) _ r λ bs' s. record {
            tiles = (at, s.tiles);
            left = rw (f, head) (ap (λ xs. (b.addr, b.size) ∷ xs) s.left);
          })

-- the outcome of `PoolFree`
pub record Releases (before after : List (ℕ × ℕ)) (pool : Pool) : Type 0 where
  pub valid : IsValid pool
  pub left : used pool.blocks ≡ before ++ after

merge_block-Merges :
    (bs : List Block) (a e : ℕ) → e < word → Tiles a e bs → Merges a e bs (merge_block bs)
unfolding merge_block
merge_block-Merges [] a e w t = record { tiles = t; coalesced = tt; same_used = refl }
merge_block-Merges (b ∷ bs) a e w t = merge_from-Merges b bs a e w t

-- To free the payload of a block in use reads and writes only block headers, takes exactly that
-- block out of use, and leaves a valid pool, so that the free space around it is one block.
pub pool_free-Releases :
    (pool : Pool) (before after : List (ℕ × ℕ)) (addr got : ℕ)
    → IsValid pool
    → used pool.blocks ≡ before ++ (addr, got) ∷ after
    → Returns (Releases before after) (pool_free pool (some (addr + header)))
unfolding pool_free
pool_free-Releases pool before after addr got v u =
    let e : addr + header - header ≡ addr = omega arith in
    rw e (
      Returns-bind _ _ (set_free addr pool.blocks) _
        (set_free-Frees 0 pool.pool_size pool.blocks before after addr got v.tiles u)
        λ bs f.
          let m = merge_block-Merges bs 0 pool.pool_size v.sized f.tiles in
          record {
            valid = record { sized = v.sized; tiles = m.tiles; coalesced = m.coalesced };
            left = m.same_used ∙ f.left;
          })

-- A pool that has been freed entirely is one free block of all its bytes, but for the header.
all_free_lem :
    (pool : Pool)
    → IsValid pool
    → 0 < pool.pool_size
    → used pool.blocks ≡ []
    → pool.blocks ≡ record { addr = 0; size = pool.pool_size - header; is_free = true } ∷ []
unfolding used
all_free_lem pool v p u = go pool.blocks v.tiles v.coalesced u
  where
    go :
        (bs : List Block)
        → Tiles 0 pool.pool_size bs
        → IsCoalesced bs
        → used bs ≡ []
        → bs ≡ record { addr = 0; size = pool.pool_size - header; is_free = true } ∷ []
    go [] t c u = absurd (omega arith)
    go (b ∷ []) t c u = ground arith
    go (b ∷ b' ∷ bs) t c u = ground arith

-- `PoolInit` of a size that has room for a header makes a valid pool with nothing in use.
pool_init-IsValid :
    (size : ℕ)
    → header ≤ size
    → size < word
    → Returns
        (λ pool. IsValid pool × (used pool.blocks ≡ []) × (pool.pool_size ≡ size))
        (pool_init true size)
unfolding pool_init used
pool_init-IsValid size h w =
    (record { sized = w; tiles = (refl, omega arith); coalesced = ((λ _. tt), tt) }, refl, refl)

-- `PoolInit` of a smaller size makes a block that claims to reach past the end of the pool.
pool_init-small :
    (size : ℕ) → size < header → Returns (λ pool. IsValid pool → ⊥) (pool_init true size)
unfolding pool_init
pool_init-small size h v = absurd (omega (arith, v.tiles.1))
