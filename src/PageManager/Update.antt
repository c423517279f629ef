-- ===== src/PageManager/Update.antt =====
-- What `allocate_pages` and `free_pages` do to the table.
use iitm.Prelude.{
  ℕ, zero, suc, ◌+◌, ◌≤◌, ◌≡◌, ◌≢◌, refl, ◌⊎◌, false, ◌&&◌, Option, some, none, List, length,
  get_elem?, set, length-set, get_elem?-set_self, get_elem?-set_ne, ltb, leb, ltb→lt, leb→le,
  if◌then◌else◌, Bool-cases, inl, inr, arith, Returns,
}
use iitm.Prelude.Int.{ℤ, pos, ltb_ℤ, leb_ℤ, ◌+ℤ◌, ◌<ℤ◌, ◌≤ℤ◌, pos_part, +ℤ_parts, disjoint}
use iitm.PageManager.{
  Page, free, used, total_pages, int_max, find_free_block, mark, Allocation, invalid, no_room,
  allocated, allocate_pages, Release, invalid_range, freed, free_pages,
}
use iitm.PageManager.Search.{IsFreeBlock, find_free_block-IsFreeBlock, find_free_block-first}

pub length-mark :
    (p : Page) (k i : ℕ) (page_table : List Page)
    → length (mark p k i page_table) ≡ length page_table
unfolding mark
length-mark p zero i page_table = refl
length-mark p (suc k) i page_table = rw (length-mark p k (i + 1) (set page_table i p), length-set)

-- the pages `start` to `start + n - 1` hold `p`, and the others what they held
abbrev pub Marked : Page → ℕ → ℕ → List Page → List Page → Type 0
Marked p start n page_table page_table' =
    (length page_table' ≡ length page_table)
    × ((j : ℕ)
        → get_elem? page_table' j
          ≡ (if leb start j && ltb j (start + n) then some p else get_elem? page_table j))

mark-get_elem? :
    (p : Page) (k i : ℕ) (page_table : List Page)
    → i + k ≤ length page_table
    → (j : ℕ)
    → get_elem? (mark p k i page_table) j
      ≡ (if leb i j && ltb j (i + k) then some p else get_elem? page_table j)
unfolding mark
mark-get_elem? p zero i page_table h j = ground arith
mark-get_elem? p (suc k) i page_table h j = elim (Bool-cases (leb i j && leb j i)) [
  | inl here ↦
      let e : i ≡ j = ground arith in
      rw (mark-get_elem? p k (i + 1) (set page_table i p) (rw length-set (omega arith)) j, e)
        (ground (arith, get_elem?-set_self page_table j p))
  | inr other ↦
      let ne : i ≢ j = ground arith in
      rw
        (
          mark-get_elem? p k (i + 1) (set page_table i p) (rw length-set (omega arith)) j,
          get_elem?-set_ne page_table {i = i} {j = j} p ne,
        )
        (ground arith)
]

pub mark-Marked :
    (p : Page) (k i : ℕ) (page_table : List Page)
    → i + k ≤ length page_table
    → Marked p i k page_table (mark p k i page_table)
mark-Marked p k i page_table h = (length-mark p k i page_table, mark-get_elem? p k i page_table h)

-- what a call of `allocate_pages` did
abbrev pub Allocates : List Page → ℤ → List Page × Allocation → Type 0
Allocates page_table n (t, invalid) = (t ≡ page_table) × ((n ≤ℤ pos 0) ⊎ (pos total_pages <ℤ n))
Allocates page_table n (t, no_room) =
    (t ≡ page_table)
    × (pos 0 <ℤ n)
    × (n ≤ℤ pos total_pages)
    × ((s : ℕ) → IsFreeBlock page_table s (pos_part n) → ⊥)
Allocates page_table n (t, allocated s) =
    (pos 0 <ℤ n)
    × (n ≤ℤ pos total_pages)
    × IsFreeBlock page_table s (pos_part n)
    × ((s' : ℕ) → IsFreeBlock page_table s' (pos_part n) → s ≤ s')
    × Marked used s (pos_part n) page_table t

allocate_found :
    (page_table : List Page) (n : ℤ) (found : Option ℕ)
    → pos 0 <ℤ n
    → n ≤ℤ pos total_pages
    → find_free_block page_table (pos_part n) ≡ found
    → Allocates page_table n (elim found [
      | none ↦ (page_table, no_room)
      | some start ↦ (mark used (pos_part n) start page_table, allocated start)
    ])
allocate_found page_table n none p q e = (
  refl,
  p,
  q,
  λ s b.
      let (t, found, le) = find_free_block-first page_table (pos_part n) s (omega arith) b in
      ground arith,
)
allocate_found page_table n (some s) p q e =
    let b = find_free_block-IsFreeBlock page_table (pos_part n) (omega arith) e in
    (
      p,
      q,
      b,
      λ s' b'.
          let (t, found, le) = find_free_block-first page_table (pos_part n) s' (omega arith) b' in
          ground arith,
      mark-Marked used (pos_part n) s page_table b.inside,
    )

-- `allocate_pages` refuses exactly the sizes outside 1 to 16. Otherwise, if no block of the size
-- is free, it changes nothing; else it takes the first such block, whose pages become used, and
-- changes no other page.
pub allocate_pages-Allocates :
    (page_table : List Page) (n : ℤ) → Allocates page_table n (allocate_pages page_table n)
unfolding allocate_pages
allocate_pages-Allocates page_table n = elim (Bool-cases (leb_ℤ n (pos 0))) [
  | inl low ↦ rw low (refl, inl (leb→le _ _ low))
  | inr positive ↦ elim (Bool-cases (ltb_ℤ (pos total_pages) n)) [
    | inl high ↦ rw (positive, high) (refl, inr (ltb→lt _ _ high))
    | inr fine ↦
        rw (positive, fine)
          (allocate_found page_table n (find_free_block page_table (pos_part n)) (ground arith)
            (ground arith) refl)
  ]
]

-- what a call of `free_pages` did
abbrev pub Releases : List Page → ℤ → ℤ → List Page × Release → Type 0
Releases page_table start n (t, invalid_range) =
    (t ≡ page_table)
    × ((start <ℤ pos 0)
        ⊎ (pos total_pages ≤ℤ start)
        ⊎ (n ≤ℤ pos 0)
        ⊎ (pos total_pages <ℤ start +ℤ n))
Releases page_table start n (t, freed warnings) =
    (pos 0 ≤ℤ start)
    × (pos 0 <ℤ n)
    × (start +ℤ n ≤ℤ pos total_pages)
    × Marked free (pos_part start) (pos_part n) page_table t

-- On a table of 16 pages, and for a range whose end is an `int`, `free_pages` refuses exactly the
-- empty ranges and those that leave the table, and changes nothing; else the pages of the range
-- become free and no other page changes.
pub free_pages-Releases :
    (page_table : List Page) (start n : ℤ)
    → length page_table ≡ total_pages
    → start +ℤ n ≤ℤ pos int_max
    → Returns (Releases page_table start n) (free_pages page_table start n)
unfolding free_pages
free_pages-Releases page_table start n size fits = elim (Bool-cases (ltb_ℤ start (pos 0))) [
  | inl low ↦ rw low (refl, inl (ltb→lt _ _ low))
  | inr nonneg ↦ elim (Bool-cases (leb_ℤ (pos total_pages) start)) [
    | inl past ↦ rw (nonneg, past) (refl, inr (inl (leb→le _ _ past)))
    | inr inside ↦ elim (Bool-cases (leb_ℤ n (pos 0))) [
      | inl none_left ↦
          rw (nonneg, inside, none_left) (refl, inr (inr (inl (leb→le _ _ none_left))))
      | inr positive ↦
          let defined : ltb_ℤ (pos int_max) (start +ℤ n) ≡ false = ground arith in
          elim (Bool-cases (ltb_ℤ (pos total_pages) (start +ℤ n))) [
            | inl over ↦
                rw (nonneg, inside, positive, defined, over)
                  (refl, inr (inr (inr (ltb→lt _ _ over))))
            | inr fine ↦
                let a : pos 0 ≤ℤ start = ground arith in
                let b : pos 0 <ℤ n = ground arith in
                let c : start +ℤ n ≤ℤ pos total_pages = ground arith in
                rw (nonneg, inside, positive, defined, fine)
                  (a, b, c, mark-Marked free (pos_part n) (pos_part start) page_table (room a b c))
          ]
    ]
  ]
]
  where
    room :
        pos 0 ≤ℤ start
        → pos 0 <ℤ n
        → start +ℤ n ≤ℤ pos total_pages
        → pos_part start + pos_part n ≤ length page_table
    room a b c = omega (arith, +ℤ_parts, disjoint start, disjoint n)
