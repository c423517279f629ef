-- ===== src/MemoryTracker/Menu.antt =====
-- The loop of `main` of MemoryAllocation/memoryAllocation.c, its array of pointers and its choices.
use iitm.Prelude.{
  ℕ, ◌+◌, Option, some, none, List, [], ◌∷◌, ◌==◌, if◌then◌else◌, ltb, ◌>>=◌, set, get_or,
  replicate,
}
use iitm.Prelude.Int.{ℤ, pos, negsuc, pos_part}
use iitm.MemoryTracker.{
  Tracker, Libc, init_tracker, track_malloc, track_calloc, track_realloc, track_free, table_view,
  linked_list_view,
}

-- the array `ptrs` of `main`, the variable `index`, and the tracker
pub record Menu : Type 0 where
  pub ptrs : List ℕ
  pub index : ℕ
  pub tracker : Tracker

abbrev pub ptrs_size : ℕ
ptrs_size = 100

abbrev pub init_menu : Menu
init_menu = record { ptrs = replicate ptrs_size 0; index = 0; tracker = init_tracker }

-- the choices 1 to 6 with what is read for them, and any other number but 7
pub data Command : Type 0 where
  choose_malloc : ℕ → Command
  choose_calloc : ℕ → ℕ → Command
  choose_realloc : ℤ → ℕ → Command
  choose_free : ℤ → Command
  choose_table : Command
  choose_list : Command
  choose_other : Command

-- `ptrs[i]`, if the index is valid and the pointer is not NULL
unfoldable pub chosen : ℤ → Menu → Option ℕ
chosen (negsuc i) m = none
chosen (pos i) m =
    let ptr = get_or m.ptrs i 0 in
    if ltb i m.index then (if ptr == 0 then none else some ptr) else none

-- `ptrs[index++] = result.0`: beyond the array this is a fault
unfoldable pub keep_pointer : ℕ × Tracker → Menu → Option Menu
keep_pointer result m =
    if ltb m.index ptrs_size
    then some
        (record { ptrs = set m.ptrs m.index result.0; index = m.index + 1; tracker = result.1 })
    else none

-- `ptrs[i] = result.0`
abbrev pub put_pointer : ℤ → ℕ × Tracker → Menu → Menu
put_pointer i result m = record m { ptrs = set m.ptrs (pos_part i) result.0; tracker = result.1 }

-- one round of the loop of `main`
unfoldable pub menu_step : Libc → Command → Menu → Option Menu
menu_step c (choose_malloc size) m = keep_pointer (track_malloc c size m.tracker) m
menu_step c (choose_calloc num size) m = keep_pointer (track_calloc c num size m.tracker) m
menu_step c (choose_realloc i size) m = elim (chosen i m) [
  | none ↦ some m
  | some ptr ↦ some (put_pointer i (track_realloc c ptr size m.tracker) m)
]
menu_step c (choose_free i) m = elim (chosen i m) [
  | none ↦ some m
  | some ptr ↦ some (put_pointer i (0, (track_free c ptr m.tracker).tracker) m)
]
menu_step c choose_table m = some (record m { tracker = (table_view m.tracker).1 })
menu_step c choose_list m = some (record m { tracker = (linked_list_view m.tracker).1 })
menu_step c choose_other m = some m

-- the rounds before choice 7
unfoldable pub menu_run : List (Libc × Command) → Menu → Option Menu
menu_run [] m = some m
menu_run ((c, k) ∷ ks) m = menu_step c k m >>= menu_run ks
