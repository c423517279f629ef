-- ===== src/MemoryPool/Tiling.antt =====
-- The blocks of the pool cover it without gap or overlap, and no two free ones are neighbours.
use iitm.Prelude.{ℕ, ◌+◌, ◌≤◌, ◌<◌, ◌≡◌, true, false, List, [], ◌∷◌, arith, if◌then◌else◌}
use iitm.MemoryPool.{word, header, Block, take_block}

-- `blocks` fill the addresses from `a` up to `e`
abbrev pub Tiles : ℕ → ℕ → List Block → Type 0
Tiles a e [] = a ≡ e
Tiles a e (b ∷ bs) = (b.addr ≡ a) × Tiles (a + header + b.size) e bs

-- the first block, if any, is in use
abbrev pub StartsUsed : List Block → Type 0
StartsUsed [] = Unit
StartsUsed (b ∷ bs) = b.is_free ≡ false

abbrev pub IsCoalesced : List Block → Type 0
IsCoalesced [] = Unit
IsCoalesced (b ∷ bs) = (b.is_free ≡ true → StartsUsed bs) × IsCoalesced bs

pub Tiles-le : (a e : ℕ) (bs : List Block) → Tiles a e bs → a ≤ e
Tiles-le a e [] t = omega arith
Tiles-le a e (b ∷ bs) (p, t) = omega (arith, Tiles-le (a + header + b.size) e bs t)

-- address and size of the blocks in use
unfoldable pub used : List Block → List (ℕ × ℕ)
used [] = []
used (b ∷ bs) = if b.is_free then used bs else (b.addr, b.size) ∷ used bs

pub take_block-Tiles :
    (a e : ℕ) (b : Block) (size : ℕ) (bs : List Block)
    → e < word
    → size ≤ b.size
    → Tiles a e (b ∷ bs)
    → Tiles a e (take_block b size bs)
unfolding take_block
take_block-Tiles a e b size bs w s (p, t) =
    let le = Tiles-le (a + header + b.size) e bs t in ground (arith)
