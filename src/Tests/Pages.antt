-- ===== src/Tests/Pages.antt =====
-- Runs of TASK/24-10-2025/pages_memory_manager.c.
use iitm.Prelude.{◌≡◌, refl, some, none, List, [], ◌∷◌, ◌++◌, replicate, Returns, arith}
use iitm.Prelude.Int.{pos, ◌+ℤ◌}
use iitm.PageManager.{
  Page, free, used, init_pages, find_from, find_free_block, mark, no_room, allocated,
  allocate_pages, already_free, freed, free_pages, count_used, Command, allocate, release, execute,
  run,
}
use iitm.PageManager.Update.{Allocates, allocate_pages-Allocates, Releases, free_pages-Releases}
use iitm.PageManager.Menu.{free_pages-allocate_pages}

program : Unit {0}
unfolding init_pages find_from find_free_block mark allocate_pages already_free free_pages
    count_used execute run ◌+ℤ◌
program = tt

-- pages 3 to 5 are used
abbrev table : List Page
table = replicate 3 free ++ (replicate 3 used ++ replicate 10 free)

abbrev after : List Page
after = replicate 3 free ++ (replicate 7 used ++ replicate 6 free)

first_fit : allocate_pages table (pos 4) ≡ (after, allocated 6)
unfolding program
first_fit = refl

too_large : allocate_pages table (pos 11) ≡ (table, no_room)
unfolding program
too_large = refl

-- the end of the range is past the largest `int`
free_overflow : free_pages table (pos 1) (pos 2147483647) ≡ none
unfolding program
free_overflow = refl

allocate_pages-Allocates_example : Allocates table (pos 4) (allocate_pages table (pos 4))
allocate_pages-Allocates_example = allocate_pages-Allocates table (pos 4)

free_pages-Releases_example :
    Returns (Releases table (pos 2) (pos 3)) (free_pages table (pos 2) (pos 3))
unfolding ◌+ℤ◌
free_pages-Releases_example = free_pages-Releases table (pos 2) (pos 3) refl (omega arith)

free_pages-allocate_pages_example : free_pages after (pos 6) (pos 4) ≡ some (table, freed [])
free_pages-allocate_pages_example = free_pages-allocate_pages table (pos 4) refl first_fit

abbrev session : List Command
session = allocate (pos 4) ∷ allocate (pos 20) ∷ release (pos 2) (pos 1) ∷ []

session_total : Returns (λ t. count_used t ≡ 3) (run init_pages session)
unfolding program
session_total = refl
