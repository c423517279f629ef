-- ===== src/Tests/Tracker.antt =====
-- Runs of MemoryAllocation/memoryAllocation.c.
use iitm.Prelude.{ℕ, ◌≡◌, refl, inr, true, Option, some, List, [], ◌∷◌, ◌>>=◌, get_or, arith}
use iitm.Prelude.Int.{pos}
use iitm.MemoryTracker.{
  Libc, init_tracker, find_value, mark_freed, log_event, add_allocation, track_malloc, track_calloc,
  track_realloc, record_moved, track_free, free_found, free_untracked_block, freed_lines,
  leak_lines, table_lines, list_lines, freed_memory, memory_leaks, table_view, linked_list_view,
  cleanup_tracker,
}
use iitm.MemoryTracker.Menu.{
  Menu, Command, init_menu, chosen, keep_pointer, menu_step, menu_run, choose_malloc,
  choose_realloc, choose_free, choose_table, choose_calloc,
}
use iitm.MemoryTracker.Blocks.{
  Blocks, active, without, holds, Call, malloc, calloc, realloc, free, Tracks,
}
use iitm.MemoryTracker.Calls.{calls, Frees, calls-Tracks, track_free_lem}
use iitm.MemoryTracker.Report.{total_size, cleanup_outcome, cleanup_tracker_lem}
use iitm.MemoryTracker.Pointers.{menu_call}
use iitm.MemoryTracker.Rounds.{held_after_rounds, AllPromised, AllHeld}

program : Unit {0}
unfolding find_value mark_freed log_event add_allocation track_malloc track_calloc track_realloc
    record_moved track_free free_found free_untracked_block freed_lines leak_lines table_lines
    list_lines freed_memory memory_leaks table_view linked_list_view cleanup_tracker chosen
    keep_pointer menu_step menu_run active without holds total_size menu_call held_after_rounds
    AllPromised AllHeld
program = tt

-- a call in which the C library returns the block at `a`
abbrev returns : ℕ → Libc
returns a = record { opens = true; has_node = true; block = a }

-- a block is freed and its address is given out again
abbrev reused : List (Libc × Call)
reused =
    (returns 16, malloc 8)
    ∷ (returns 48, calloc 3 4)
    ∷ (returns 0, free 16)
    ∷ (returns 16, malloc 5)
    ∷ (returns 80, realloc 48 20)
    ∷ []

init_tracker-Tracks : Tracks init_tracker []
unfolding program
init_tracker-Tracks = record { newest = tt; held = refl; not_null = refl }

calls-Tracks_example : Tracks (calls reused init_tracker) ((80, 20) ∷ (16, 5) ∷ [])
unfolding program
calls-Tracks_example = calls-Tracks reused init_tracker [] init_tracker-Tracks (
  (refl, refl),
  ((refl, refl, inr (omega arith)), (tt, ((refl, refl), ((refl, refl, refl), tt)))),
)

track_free_lem_example :
    Frees 16 ((80, 20) ∷ (16, 5) ∷ []) (track_free (returns 0) 16 (calls reused init_tracker))
track_free_lem_example =
    track_free_lem (returns 0) 16 (calls reused init_tracker) ((80, 20) ∷ (16, 5) ∷ [])
      calls-Tracks_example

freed_again :
    (track_free (returns 0) 80 (track_free (returns 0) 80 (calls reused init_tracker)).tracker).code
    ≡ 1
unfolding program
freed_again = refl

cleanup_tracker_lem_example :
    cleanup_tracker (calls reused init_tracker)
    ≡ cleanup_outcome
        (calls reused init_tracker)
        ((80, 20) ∷ (16, 5) ∷ [])
        (calls reused init_tracker).log_file
cleanup_tracker_lem_example =
    cleanup_tracker_lem (calls reused init_tracker) ((80, 20) ∷ (16, 5) ∷ []) calls-Tracks_example

abbrev rounds : List (Libc × Command)
rounds =
    (returns 16, choose_malloc 8)
    ∷ (returns 48, choose_calloc 3 4)
    ∷ (returns 96, choose_realloc (pos 0) 10)
    ∷ (returns 0, choose_free (pos 1))
    ∷ (returns 0, choose_free (pos 1))
    ∷ (returns 0, choose_table)
    ∷ []

-- A `realloc` that fails leaves its block held, and `main` drops the only pointer to it.
abbrev kept_and_held : Menu → Option (ℕ × Blocks)
kept_and_held m = some (get_or m.ptrs 0 7, active m.tracker.head)

lost :
    (menu_run
        ((returns 16, choose_malloc 8) ∷ (returns 0, choose_realloc (pos 0) 64) ∷ [])
        init_menu
      >>= kept_and_held)
    ≡ some (0, (16, 8) ∷ [])
unfolding program
lost = refl
