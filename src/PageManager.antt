-- ===== src/PageManager.antt =====
-- TASK/24-10-2025/pages_memory_manager.c: a table of 16 pages, allocated first fit.
-- Integers that the user types are in ℤ; the one sum that can overflow `int` is a fault (`none`).
pub mod Search
pub mod Update
pub mod Menu
use iitm.Prelude.{
  ℕ, zero, suc, ◌+◌, ◌-◌, ◌^◌, Bool, true, false, ◌||◌, Option, some, none, List, [], ◌∷◌, ltb, leb,
  ◌==◌, if◌then◌else◌, ◌>>=◌, set, get_elem?, replicate,
}
use iitm.Prelude.Int.{ℤ, pos, negsuc, ltb_ℤ, leb_ℤ, ◌+ℤ◌, pos_part}

abbrev pub total_pages : ℕ
total_pages = 16

abbrev pub int_max : ℕ
int_max = 2 ^ 31 - 1

pub data Page : Type 0 where
  free used : Page

unfoldable pub init_pages : List Page
init_pages = replicate total_pages free

-- the loop of `find_free_block` from page `i` on; `none` is -1
unfoldable pub find_from : ℕ → ℕ → ℕ → List Page → Option ℕ
find_from n i count [] = none
find_from n i count (free ∷ pages) =
    let rest = find_from n (i + 1) (count + 1) pages in
    if count + 1 == n then some (i + 1 - n) else rest
find_from n i count (used ∷ pages) = find_from n (i + 1) 0 pages

unfoldable pub find_free_block : List Page → ℕ → Option ℕ
find_free_block page_table n = find_from n 0 0 page_table

-- `for (i = start; i < start + n; i++) page_table[i] = p`, with `k` rounds left
unfoldable pub mark : Page → ℕ → ℕ → List Page → List Page
mark p zero i page_table = page_table
mark p (suc k) i page_table = mark p k (i + 1) (set page_table i p)

pub data Allocation : Type 0 where
  invalid no_room : Allocation
  allocated : (start : ℕ) → Allocation

unfoldable pub allocate_pages : List Page → ℤ → List Page × Allocation
allocate_pages page_table n =
    if leb_ℤ n (pos 0) || ltb_ℤ (pos total_pages) n
    then (page_table, invalid)
    else (elim (find_free_block page_table (pos_part n)) [
      | none ↦ (page_table, no_room)
      | some start ↦ (mark used (pos_part n) start page_table, allocated start)
    ])

-- the pages that the loop of `free_pages` warns of
unfoldable pub already_free : ℕ → ℕ → List Page → List ℕ
already_free zero i page_table = []
already_free (suc k) i page_table = elim (get_elem? page_table i) [
  | none ↦ already_free k (i + 1) page_table
  | some free ↦ i ∷ already_free k (i + 1) page_table
  | some used ↦ already_free k (i + 1) page_table
]

pub data Release : Type 0 where
  invalid_range : Release
  freed : (warnings : List ℕ) → Release

-- `start + n` is computed only if the tests before it fail
unfoldable pub free_pages : List Page → ℤ → ℤ → Option (List Page × Release)
free_pages page_table start n =
    if ltb_ℤ start (pos 0) || (leb_ℤ (pos total_pages) start || leb_ℤ n (pos 0))
    then some (page_table, invalid_range)
    else if ltb_ℤ (pos int_max) (start +ℤ n)
    then none
    else if ltb_ℤ (pos total_pages) (start +ℤ n)
    then some (page_table, invalid_range)
    else some (
      mark free (pos_part n) (pos_part start) page_table,
      freed (already_free (pos_part n) (pos_part start) page_table),
    )

-- the number of used pages that `print_page_table` counts
unfoldable pub count_used : List Page → ℕ
count_used [] = 0
count_used (free ∷ pages) = count_used pages
count_used (used ∷ pages) = count_used pages + 1

-- one turn of the menu in `main`
pub data Command : Type 0 where
  allocate : ℤ → Command
  release : ℤ → ℤ → Command
  show invalid_choice : Command

unfoldable pub execute : List Page → Command → Option (List Page)
execute page_table (allocate n) = some (allocate_pages page_table n).0
execute page_table (release start n) = do
  (page_table', _) ← free_pages page_table start n
  some page_table'
execute page_table show = some page_table
execute page_table invalid_choice = some page_table

-- the turns before the choice 0, or the end of the input
unfoldable pub run : List Page → List Command → Option (List Page)
run page_table [] = some page_table
run page_table (c ∷ cs) = do page_table' ← execute page_table c; run page_table' cs
