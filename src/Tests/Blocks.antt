-- ===== src/Tests/Blocks.antt =====
-- Runs of MemoryAllocation/cache.c.
use Prim.Native.Nat.{max}
use iitm.Prelude.{
  map, ◌<◌, ℕ, suc, ◌+◌, ◌≤◌, ◌≡◌, refl, sym, ap, ◌∙◌, ◌⊎◌, inl, inr, Bool-cases, Option, some,
  none, List, [], ◌∷◌, ◌==◌, if◌then◌else◌, ◌>>=◌, length, drop, replicate, Text, eqb_text,
  eqb_text→eq, arith, Returns, some_inj,
}
use iitm.Prelude.Int.{◌-ℤ◌}
use iitm.BlockCache.{
  Bytes, Entry, Cache, Malloc, hash_from, hash_key, create_cache, unlink, move_to_front, tail,
  before_tail, evict_lru, find_entry, cache_get, make_room, add_entry, cache_put,
}
use iitm.BlockCache.Entries.{IsFresh, IsMalloc, of_key, total}
use iitm.BlockCache.Keys.{IsValid, view}
use iitm.BlockCache.Put.{Puts, cache_put-Puts, make_room_forever}
use iitm.BlockCache.Reads.{cache_get-Gets}
use iitm.BlockCache.Start.{create_cache-IsValid, empty_cache-IsCoherent}
use iitm.BlockCache.Buffers.{indices, create_buffer_pool, change, get_buffer, release_buffer}
use iitm.BlockCache.Files.{
  DiskFile, FileSystem, block_size, create_filesystem, read_into, read_missing, read_block,
  write_with, write_block,
}
use iitm.BlockCache.Disk.{Laws, Names}
use iitm.BlockCache.Run.{Request, read_request, write_request, run, run_disk, Agrees, run-Agrees}
use iitm.ExpressionTree.{atoi_from}
use iitm.ExpressionTree.Values.{digits, atoi_from-digits}

program : Unit {0}
unfolding eqb_text hash_from hash_key unlink move_to_front tail before_tail evict_lru find_entry
    cache_get make_room add_entry cache_put indices create_buffer_pool change get_buffer
    release_buffer read_into read_missing read_block write_with write_block run run_disk atoi_from
    digits of_key total view ◌-ℤ◌
program = tt

abbrev first : Text
first = b'a' ∷ []

abbrev second : Text
second = b'b' ∷ []

-- A malloc that takes the address after the last one in use, and so one that was freed.
abbrev last_address : List Entry → ℕ
last_address [] = 0
last_address (e ∷ l) = max e.address (last_address l)

abbrev next : Malloc
next l = suc (last_address l)

next-IsMalloc : IsMalloc next
next-IsMalloc l = above l (suc (last_address l)) (omega arith)
  where
    above : (l : List Entry) (a : ℕ) → last_address l < a → IsFresh a l
    above [] a p = tt
    above (e ∷ l) a p = ((λ q. absurd (omega arith)), above l a (omega arith))

abbrev kept : Option Cache → Cache
kept none = create_cache 8 4
kept (some c) = c

kept-IsValid :
    (c : Cache) (key : Text) (bytes : Bytes) (m : Option Cache)
    → Returns (Puts c key bytes) m
    → IsValid (kept m)
kept-IsValid c key bytes none p = absurd p
kept-IsValid c key bytes (some c') p = p.valid

-- two entries fill a cache of eight bytes, so that a third takes the place of the one used longest ago
abbrev one : Cache
one = kept (cache_put (create_cache 8 4) first (1 ∷ 2 ∷ 3 ∷ 4 ∷ []) 4 next)

abbrev full : Option Cache
full = cache_put one second (5 ∷ 6 ∷ 7 ∷ 8 ∷ []) 4 next

abbrev two : Cache
two = (cache_get (kept full) first).1

one-IsValid : IsValid one
one-IsValid =
    kept-IsValid (create_cache 8 4) first (1 ∷ 2 ∷ 3 ∷ 4 ∷ [])
      (cache_put (create_cache 8 4) first (1 ∷ 2 ∷ 3 ∷ 4 ∷ []) 4 next)
      (cache_put-Puts (create_cache 8 4) first (1 ∷ 2 ∷ 3 ∷ 4 ∷ []) 4 next
        (create_cache-IsValid 8 4 (omega arith) (omega arith)) next-IsMalloc (omega arith))

full-IsValid : IsValid (kept full)
unfolding program
full-IsValid =
    kept-IsValid one second (5 ∷ 6 ∷ 7 ∷ 8 ∷ []) full (
      cache_put-Puts one second (5 ∷ 6 ∷ 7 ∷ 8 ∷ []) 4 next one-IsValid next-IsMalloc (omega arith))

two-IsValid : IsValid two
two-IsValid = (cache_get-Gets (kept full) first full-IsValid).valid

abbrev three : Option Cache
three = cache_put two (b'c' ∷ []) (9 ∷ []) 1 next

abbrev both : Cache → Option (Option Bytes × Option Bytes)
both c = some ((cache_get c first).0, (cache_get c second).0)

evicted : (three >>= both) ≡ some (some (1 ∷ 2 ∷ 3 ∷ 4 ∷ []), none)
unfolding program
evicted = refl

-- the third entry has the address of the one that made room for it
addresses : map (λ (e : Entry). e.address) (kept three).lru ≡ 2 ∷ 1 ∷ []
unfolding program
addresses = refl

cache_put-Puts_example :
    Returns (Puts two (b'c' ∷ []) (9 ∷ [])) (cache_put two (b'c' ∷ []) (9 ∷ []) 1 next)
unfolding program
cache_put-Puts_example =
    cache_put-Puts two (b'c' ∷ []) (9 ∷ []) 1 next two-IsValid next-IsMalloc (omega arith)

make_room_forever_example : make_room 1000 9 (create_cache 8 4) ≡ none
make_room_forever_example =
    make_room_forever 1000 9 (create_cache 8 4)
      (create_cache-IsValid 8 4 (omega arith) (omega arith)) (omega arith) (omega arith)

-- a disk file: the blocks that were written, the last one first
abbrev Blocks : Type 0
Blocks = List (ℕ × Bytes)

unfoldable find_block : Blocks → ℕ → Option Bytes
find_block [] o = none
find_block ((o', b) ∷ d) o =
    if o' == o then (if length b == block_size then some b else none) else find_block d o

abbrev file : DiskFile Blocks
file = record { read_at = find_block; write_at = λ d o b. (o, b) ∷ d }

find_block_whole :
    (d : Blocks) (o : ℕ) (b : Bytes) → find_block d o ≡ some b → length b ≡ block_size
unfolding find_block
find_block_whole [] o b e = cc
find_block_whole ((o', b') ∷ d) o b e = elim (Bool-cases (o' == o)) [
  | inl t ↦ elim (Bool-cases (length b' == block_size)) [
    | inl u ↦
        let q : b' ≡ b = some_inj (sym (rw (t, u) refl) ∙ e) in sym (ap length q) ∙ ground arith
    | inr u ↦ let q : none ≡ some b = sym (rw (t, u) refl) ∙ e in cc
  ]
  | inr t ↦ find_block_whole d o b (sym (rw t refl) ∙ e)
]

file-Laws : Laws file
unfolding find_block
file-Laws = record {
  whole = find_block_whole;
  read_back = λ d o b p. ground arith;
  apart = λ d o o' b b' p e. elsewhere o o' (find_block d o') b b' p e;
}
  where
    elsewhere :
        (o o' : ℕ) (old : Option Bytes) (b b' : Bytes)
        → (o + block_size ≤ o') ⊎ (o' + block_size ≤ o)
        → old ≡ some b'
        → (if o == o' then (if length b == block_size then some b else none) else old) ≡ some b'
    elsewhere o o' old b b' p e = ground arith

-- "block_%d"
abbrev name_of : ℕ → Text
name_of i = b'b' ∷ b'l' ∷ b'o' ∷ b'c' ∷ b'k' ∷ b'_' ∷ digits (suc i) i []

name_of-Names : Names name_of
unfolding atoi_from
name_of-Names i j e =
    let q = ap (λ t. atoi_from 0 (drop 6 t)) (eqb_text→eq (name_of i) (name_of j) e) in
    sym (atoi_from-digits (suc i) i [] (omega arith))
    ∙ q
    ∙ atoi_from-digits (suc j) j [] (omega arith)

abbrev sevens : Bytes
sevens = replicate block_size 7

abbrev requests : List (Malloc × Request)
requests =
    (next, write_request 0 sevens)
    ∷ (next, read_request 0)
    ∷ (next, read_request 5)
    ∷ (next, write_request 5 sevens)
    ∷ (next, read_request 0)
    ∷ []

-- a cache with room for one block, so that each block takes the place of the one before
abbrev small : FileSystem Blocks
small = record (create_filesystem file name_of []) { cache = create_cache block_size 4 }

run-Agrees_example :
    Returns
      (Agrees file name_of file-Laws name_of-Names requests small)
      (run file name_of requests small)
run-Agrees_example =
    run-Agrees file name_of file-Laws name_of-Names requests small
      (empty_cache-IsCoherent file name_of file-Laws name_of-Names [] block_size 4 (omega arith)
        (omega arith) (omega arith))
      (next-IsMalloc, (next-IsMalloc, (next-IsMalloc, (next-IsMalloc, (next-IsMalloc, tt)))))
      (omega arith)
