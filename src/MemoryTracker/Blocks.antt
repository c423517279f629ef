-- ===== src/MemoryTracker/Blocks.antt =====
-- The nodes that are not freed are the blocks that the program holds.
use iitm.Prelude.{
  ℕ, ◌*◌, ◌<◌, ◌≡◌, refl, sym, ap, ◌∙◌, ◌⊎◌, Bool, true, false, ◌||◌, Option, some, none, List, [],
  ◌∷◌, if◌then◌else◌, ◌==◌, arith, by_test,
}
use iitm.MemoryTracker.{
  MemoryNode, Tracker, Libc, size_modulus, find_value, mark_freed, track_malloc, track_calloc,
  track_realloc, track_free,
}

-- the blocks a program holds, newest first: an address and a size each
abbrev pub Blocks : Type 0
Blocks = List (ℕ × ℕ)

unfoldable pub without : ℕ → Blocks → Blocks
without a [] = []
without a (b ∷ bs) = if b.0 == a then bs else b ∷ without a bs

unfoldable pub holds : ℕ → Blocks → Bool
holds a [] = false
holds a (b ∷ bs) = (b.0 == a) || holds a bs

-- the blocks of the nodes that are not freed
unfoldable pub active : List MemoryNode → Blocks
active [] = []
active (n ∷ ns) = if n.is_freed then active ns else (n.address, n.size) ∷ active ns

-- a node behind another one with its address is freed
abbrev pub Newest : List MemoryNode → Type 0
Newest [] = Unit
Newest (n ∷ ns) = (holds n.address (active ns) ≡ false) × Newest ns

pub without-none : (a : ℕ) (bs : Blocks) → holds a bs ≡ false → without a bs ≡ bs
unfolding holds without
without-none a [] e = refl
without-none a (b ∷ bs) e = ground (arith, without-none a bs)

holds-at : (a b : ℕ) (bs : Blocks) → holds a bs ≡ false → a ≡ b → holds b bs ≡ false
holds-at a b bs e p = sym (ap (λ x. holds x bs) p) ∙ e

abbrev pub unfreed : Option MemoryNode → Bool
unfreed none = false
unfreed (some n) = if n.is_freed then false else true

-- A node that is found and not freed is a block that is held, and one that is freed is not.
pub holds-find_value :
    (ns : List MemoryNode) (a : ℕ) → Newest ns → holds a (active ns) ≡ unfreed (find_value ns a)
unfolding holds active find_value
holds-find_value [] a p = refl
holds-find_value (n ∷ ns) a (p, q) =
    ground (arith, holds-find_value ns a q, holds-at n.address a (active ns) p)

pub active-mark_freed :
    (ns : List MemoryNode) (a : ℕ) → Newest ns → active (mark_freed ns a) ≡ without a (active ns)
unfolding active mark_freed without
active-mark_freed [] a p = refl
active-mark_freed (n ∷ ns) a (p, q) = ground (
  arith,
  active-mark_freed ns a q,
  holds-at n.address a (active ns) p,
  without-none a (active ns),
)

pub holds-without : (a b : ℕ) (bs : Blocks) → holds b bs ≡ false → holds b (without a bs) ≡ false
unfolding holds without
holds-without a b [] e = refl
holds-without a b (c ∷ bs) e = ground (arith, holds-without a b bs)

pub mark_freed-Newest : (ns : List MemoryNode) (a : ℕ) → Newest ns → Newest (mark_freed ns a)
unfolding mark_freed
mark_freed-Newest [] a p = tt
mark_freed-Newest (n ∷ ns) a (p, q) =
    by_test Newest (n.address == a) (λ _. (p, q))
      (λ _. (
        ap (holds n.address) (active-mark_freed ns a q) ∙ holds-without a n.address (active ns) p,
        mark_freed-Newest ns a q,
      ))

-- the calls of the tracker
pub data Call : Type 0 where
  malloc : ℕ → Call
  calloc : ℕ → ℕ → Call
  realloc : ℕ → ℕ → Call
  free : ℕ → Call

abbrev pub call : Libc → Call → Tracker → Tracker
call c (malloc size) t = (track_malloc c size t).1
call c (calloc num size) t = (track_calloc c num size t).1
call c (realloc ptr size) t = (track_realloc c ptr size t).1
call c (free ptr) t = (track_free c ptr t).tracker

-- what the C library makes of the held blocks at a call of its own functions
abbrev allocated : Libc → ℕ → Blocks → Blocks
allocated c size bs = if (size == 0) || (c.block == 0) then bs else (c.block, size) ∷ bs

abbrev pub held_after : Libc → Call → Blocks → Blocks
held_after c (malloc size) bs = allocated c size bs
held_after c (calloc num size) bs = allocated c (num * size) bs
held_after c (realloc ptr size) bs =
    if (size == 0) || (c.block == 0) then bs else (c.block, size) ∷ without ptr bs
held_after c (free ptr) bs = without ptr bs

-- What the C library promises: a new block is apart from the held ones, `calloc` does not wrap
-- around, and `realloc` is called for a held block. The tracker has room for its node.
abbrev pub Allowed : Libc → Call → Blocks → Type 0
Allowed c (malloc size) bs = (c.has_node ≡ true) × (holds c.block bs ≡ false)
Allowed c (calloc num size) bs =
    (c.has_node ≡ true) × (holds c.block bs ≡ false) × ((c.block ≡ 0) ⊎ (num * size < size_modulus))
Allowed c (realloc ptr size) bs =
    (c.has_node ≡ true) × (holds ptr bs ≡ true) × (holds c.block (without ptr bs) ≡ false)
Allowed c (free ptr) bs = Unit

-- the held blocks are those of the nodes that are not freed
pub record Tracks (t : Tracker) (bs : Blocks) : Type 0 where
  pub newest : Newest t.head
  pub held : active t.head ≡ bs
  pub not_null : holds 0 bs ≡ false
