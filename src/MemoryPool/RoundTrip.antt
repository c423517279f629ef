-- ===== src/MemoryPool/RoundTrip.antt =====
-- `PoolFree` undoes `PoolAllocate`.
use iitm.Prelude.{
  ℕ, ◌+◌, ◌-◌, ◌%◌, ◌≤◌, ◌<◌, ◌≡◌, refl, true, false, ◌&&◌, Option, some, none, List, [], ◌∷◌, ap,
  arith, ltb, leb, ◌==◌, Yields, Yields-bind, Yields-and, Returns, Returns-bind, ◌>>=◌, inl, inr,
  Bool-cases, ◌∙◌,
}
use iitm.MemoryPool.{
  word, header, Block, Pool, take_block, allocate_from, pool_allocate, merge_from, merge_block,
  set_free, pool_free,
}
use iitm.MemoryPool.Tiling.{Tiles, Tiles-le, StartsUsed, IsCoalesced}
use iitm.MemoryPool.Allocate.{Takes, allocate_from-Takes, IsValid}
use iitm.MemoryPool.Release.{used-le}

-- blocks that are coalesced have nothing to merge
merge_from-id : (b : Block) (bs : List Block) → IsCoalesced (b ∷ bs) → merge_from b bs ≡ b ∷ bs
unfolding merge_from
merge_from-id b [] c = refl
merge_from-id b (c ∷ bs) co = ground (arith, merge_from-id c bs co.1)

merge_block-cons :
    (b : Block) (bs : List Block)
    → (b.is_free ≡ true → StartsUsed bs)
    → merge_block (b ∷ bs) ≡ b ∷ merge_block bs
unfolding merge_block merge_from
merge_block-cons b [] h = refl
merge_block-cons b (c ∷ bs) h = ground arith

-- merging leaves the first block as free as it was
StartsUsed-merge_from :
    (b : Block) (bs : List Block) → StartsUsed (merge_from b bs) → b.is_free ≡ false
unfolding merge_from
StartsUsed-merge_from b [] u = u
StartsUsed-merge_from b (c ∷ bs) u = elim (Bool-cases (b.is_free && c.is_free)) [
  | inl both ↦
      StartsUsed-merge_from (record b { size = (b.size + (header + c.size)) % word }) bs
        (rw both at u)
  | inr split ↦ rw split at u
]

StartsUsed-merge_block : (bs : List Block) → StartsUsed (merge_block bs) → StartsUsed bs
unfolding merge_block
StartsUsed-merge_block [] u = tt
StartsUsed-merge_block (b ∷ bs) u = StartsUsed-merge_from b bs u

abbrev MergesTo : List Block → List Block → Type 0
MergesTo bs x = merge_block x ≡ bs

undo_take :
    (a e : ℕ) (b : Block) (size : ℕ) (bs : List Block)
    → e < word
    → Tiles a e (b ∷ bs)
    → size ≤ b.size
    → b.is_free ≡ true
    → IsCoalesced (b ∷ bs)
    → Returns (MergesTo (b ∷ bs)) (set_free b.addr (take_block b size bs))
unfolding take_block set_free merge_block merge_from
undo_take a e b size bs w (at, t) le f c =
    let high = Tiles-le (a + header + b.size) e bs t in
    let hit : (b.addr == b.addr) ≡ true = ground arith in
    elim (Bool-cases (ltb ((size + header) % word) b.size)) [
      | inl split ↦
          let whole : (size + (header + (b.size + word - size + word - header) % word)) % word
              ≡ b.size =
            ground arith in
          let same : record b { size = b.size; is_free = true } ≡ b = cc f in
          rw (split, hit, whole, same) (merge_from-id b bs c)
      | inr rest ↦
          let same : record b { is_free = true } ≡ b = cc f in
          rw (rest, hit, same) (merge_from-id b bs c)
    ]

-- the blocks `r.1` left by an allocation, with its payload `r.0` freed again
abbrev UndoneBy : List Block → ℕ × List Block → Type 0
UndoneBy bs r = Returns (MergesTo bs) (set_free (r.0 - header) r.1)

undo_later :
    (a e size : ℕ) (b : Block) (bs : List Block)
    → b.addr ≡ a
    → (b.is_free ≡ true → StartsUsed bs)
    → (r : ℕ × List Block) → Takes (a + header + b.size) e size bs r × UndoneBy bs r
    → UndoneBy (b ∷ bs) (r.0, b ∷ r.1)
unfolding set_free
undo_later a e size b bs at starts r (t, undone) =
    let le = used-le (a + header + b.size) e r.1 t.before t.after t.addr t.got t.tiles t.new in
    let ne : (b.addr == r.0 - header) ≡ false = ground (arith, t.payload) in
    rw ne (
      Returns-bind _ _ (set_free (r.0 - header) r.1) _ undone λ x m.
        merge_block-cons b x (λ f. StartsUsed-merge_block x (rw m (starts f)))
        ∙ ap (λ ys. b ∷ ys) m)

undo_from :
    (size a e : ℕ) (bs : List Block)
    → e < word
    → Tiles a e bs
    → IsCoalesced bs
    → Yields (UndoneBy bs) (allocate_from size bs)
unfolding allocate_from
undo_from size a e [] w t c = tt
undo_from size a e (b ∷ bs) w (at, t) c = elim (Bool-cases (b.is_free && leb size b.size)) [
  | inl fits ↦
      let same : b.addr + header - header ≡ b.addr = omega arith in
      rw (fits, same) (undo_take a e b size bs w (at, t) (ground arith) (ground arith) c)
  | inr other ↦ rw other (
      Yields-bind _ _ (allocate_from size bs) _
        (Yields-and _ _ (allocate_from size bs)
          (allocate_from-Takes size (a + header + b.size) e bs w t)
          (undo_from size (a + header + b.size) e bs w t c.1))
        (undo_later a e size b bs at c.0))
]

-- To free at once what `PoolAllocate` returned restores a valid pool exactly.
pub pool_free-pool_allocate :
    (pool : Pool) (size : ℕ)
    → IsValid pool
    → Yields (λ (p, pool'). pool_free pool' (some p) ≡ some pool) (pool_allocate pool size)
unfolding pool_allocate pool_free
pool_free-pool_allocate pool size v =
    Yields-bind _ _ (allocate_from size pool.blocks) _
      (undo_from size 0 pool.pool_size pool.blocks v.sized v.tiles v.coalesced)
      λ (p, bs) u. go (set_free (p - header) bs) u
  where
    go :
        (m : Option (List Block))
        → Returns (MergesTo pool.blocks) m
        → (m >>= λ blocks. some (record pool { blocks = merge_block blocks })) ≡ some pool
    go none u = absurd u
    go (some bs) u = ap (λ bs'. some (record pool { blocks = bs' })) u
