-- ===== src/MemoryTracker.antt =====
-- MemoryAllocation/memoryAllocation.c: the allocation tracker. `head` is the list of its nodes, newest
-- first; an address is a number, and `NULL` is 0. What the C library returns during a call is an
-- argument of the call.
pub mod Blocks
pub mod Calls
pub mod Menu
pub mod Report
pub mod Pointers
pub mod Rounds
pub mod Round
use iitm.Prelude.{
  ℕ, ◌+◌, ◌*◌, ◌%◌, ◌^◌, ◌<◌, Bool, true, false, ◌||◌, Option, some, none, List, [], ◌∷◌, ◌++◌,
  ◌==◌, if◌then◌else◌, ltb, ◌>>=◌, set, get_or, replicate,
}
use iitm.Prelude.Int.{ℤ, pos, negsuc, pos_part}

pub record MemoryNode : Type 0 where
  pub address : ℕ
  pub size : ℕ
  pub is_freed : Bool

-- The first argument of `LogEvent`.
pub data Action : Type 0 where
  tracker_alloc_failed : Action
  malloc_zero : Action
  malloc_ok : Action
  malloc_failed : Action
  calloc_zero : Action
  calloc_ok : Action
  calloc_failed : Action
  realloc_zero : Action
  realloc_ok : Action
  realloc_untracked : Action
  realloc_failed : Action
  free_null : Action
  free_ok : Action
  free_untracked : Action

-- What is written to the log: an event, or a line of one of the views.
pub data Line : Type 0 where
  log_title : Line
  event : Action → ℕ → ℕ → Line
  freed_title : Line
  freed_block : ℕ → ℕ → Line
  leak_title : Line
  leaked_block : ℕ → ℕ → Line
  total_leaked : ℕ → Line
  table_title : Line
  table_row : ℕ → ℕ → Line
  list_title : Line
  list_item : ℕ → ℕ → Line
  list_end : Line

-- `logFile`: none is NULL; the lines are those written since it was opened, in their order.
abbrev pub Log : Type 0
Log = Option (List Line)

pub record Tracker : Type 0 where
  pub head : List MemoryNode
  pub log_file : Log

-- What the C library does during a call: whether `fopen` succeeds, whether `malloc` has room for a
-- `MemoryNode`, and the address that `malloc`, `calloc` or `realloc` returns for the block.
pub record Libc : Type 0 where
  pub opens : Bool
  pub has_node : Bool
  pub block : ℕ

abbrev pub init_tracker : Tracker
init_tracker = record { head = []; log_file = none }

-- `sizeof(MemoryNode)` and the modulus of `size_t`
abbrev pub node_size : ℕ
node_size = 32

abbrev pub size_modulus : ℕ
size_modulus = 2 ^ 64

unfoldable pub log_event : Libc → Action → ℕ → ℕ → Log → ℕ × Log
log_event c action address size (some lines) = (0, some (lines ++ event action address size ∷ []))
log_event c action address size none =
    if c.opens then (0, some (log_title ∷ event action address size ∷ [])) else (1, none)

-- `LogEvent` with its result dropped, as every caller does
abbrev pub logged : Libc → Action → ℕ → ℕ → Tracker → Tracker
logged c action address size t = record t {
  log_file = (log_event c action address size t.log_file).1;
}

unfoldable pub add_allocation : Libc → ℕ → ℕ → Tracker → ℕ × Tracker
add_allocation c address size t =
    if c.has_node
    then (
      0,
      record t { head = record { address = address; size = size; is_freed = false } ∷ t.head },
    )
    else (1, logged c tracker_alloc_failed 0 node_size t)

-- `FindeValue`
unfoldable pub find_value : List MemoryNode → ℕ → Option MemoryNode
find_value [] address = none
find_value (curr ∷ rest) address =
    let found = find_value rest address in if curr.address == address then some curr else found

-- `node->is_freed = 1` for the node that `find_value` returns
unfoldable pub mark_freed : List MemoryNode → ℕ → List MemoryNode
mark_freed [] address = []
mark_freed (curr ∷ rest) address =
    let marked = mark_freed rest address in
    if curr.address == address then record curr { is_freed = true } ∷ rest else curr ∷ marked

unfoldable pub track_malloc : Libc → ℕ → Tracker → ℕ × Tracker
track_malloc c size t =
    if size == 0
    then (0, logged c malloc_zero 0 0 t)
    else if c.block == 0
    then (0, logged c malloc_failed 0 size t)
    else (c.block, logged c malloc_ok c.block size (add_allocation c c.block size t).1)

unfoldable pub track_calloc : Libc → ℕ → ℕ → Tracker → ℕ × Tracker
track_calloc c num size t =
    let bytes = (num * size) % size_modulus in
    if (num == 0) || (size == 0)
    then (0, logged c calloc_zero 0 0 t)
    else if c.block == 0
    then (0, logged c calloc_failed 0 bytes t)
    else (c.block, logged c calloc_ok c.block bytes (add_allocation c c.block bytes t).1)

-- `TrackRealloc` once `realloc` has returned a block, with the node that `FindeValue` returns
unfoldable pub record_moved : Libc → ℕ → ℕ → Tracker → Option MemoryNode → Tracker
record_moved c ptr size t none = logged c realloc_untracked c.block size t
record_moved c ptr size t (some node) =
    logged c realloc_ok c.block size
      (add_allocation c c.block size (record t { head = mark_freed t.head ptr })).1

unfoldable pub track_realloc : Libc → ℕ → ℕ → Tracker → ℕ × Tracker
track_realloc c ptr size t =
    if size == 0
    then (0, logged c realloc_zero ptr 0 t)
    else if c.block == 0
    then (0, logged c realloc_failed ptr size t)
    else (c.block, record_moved c ptr size t (find_value t.head ptr))

-- The result of `TrackFree`: its code, what it hands to `free`, and the tracker.
pub record Release : Type 0 where
  pub code : ℕ
  pub released : Option ℕ
  pub tracker : Tracker

unfoldable pub free_untracked_block : Libc → ℕ → Tracker → Release
free_untracked_block c ptr t = record {
  code = 1;
  released = none;
  tracker = logged c free_untracked ptr 0 t;
}

unfoldable pub free_found : Libc → ℕ → Tracker → Option MemoryNode → Release
free_found c ptr t none = free_untracked_block c ptr t
free_found c ptr t (some node) = if node.is_freed then free_untracked_block c ptr t else record {
  code = 0;
  released = some ptr;
  tracker = logged c free_ok ptr node.size (record t { head = mark_freed t.head ptr });
}

unfoldable pub track_free : Libc → ℕ → Tracker → Release
track_free c ptr t =
    if ptr == 0
    then record { code = 1; released = none; tracker = logged c free_null 0 0 t }
    else free_found c ptr t (find_value t.head ptr)

-- The loops of the four views.
unfoldable pub freed_lines : List MemoryNode → List Line
freed_lines [] = []
freed_lines (curr ∷ rest) =
    let lines = freed_lines rest in
    if curr.is_freed then freed_block curr.address curr.size ∷ lines else lines

-- with `total_leaked`, printed at the end
unfoldable pub leak_lines : ℕ → List MemoryNode → List Line
leak_lines total [] = total_leaked total ∷ []
leak_lines total (curr ∷ rest) =
    let lines =
      leak_lines (if curr.is_freed then total else (total + curr.size) % size_modulus) rest in
    if curr.is_freed then lines else leaked_block curr.address curr.size ∷ lines

unfoldable pub table_lines : List MemoryNode → List Line
table_lines [] = []
table_lines (curr ∷ rest) =
    let lines = table_lines rest in
    if curr.is_freed then lines else table_row curr.address curr.size ∷ lines

unfoldable pub list_lines : List MemoryNode → List Line
list_lines [] = list_end ∷ []
list_lines (curr ∷ rest) =
    let lines = list_lines rest in
    if curr.is_freed then lines else list_item curr.address curr.size ∷ lines

-- A view: it fails without a log, and else writes its lines.
abbrev pub view : (List MemoryNode → List Line) → Tracker → ℕ × Tracker
view lines t = elim t.log_file [
  | none ↦ (1, t)
  | some before ↦ (0, record t { log_file = some (before ++ lines t.head) })
]

unfoldable pub freed_memory : Tracker → ℕ × Tracker
freed_memory = view (λ nodes. freed_title ∷ freed_lines nodes)

unfoldable pub memory_leaks : Tracker → ℕ × Tracker
memory_leaks = view (λ nodes. leak_title ∷ leak_lines 0 nodes)

unfoldable pub table_view : Tracker → ℕ × Tracker
table_view = view (λ nodes. table_title ∷ table_lines nodes)

unfoldable pub linked_list_view : Tracker → ℕ × Tracker
linked_list_view = view (λ nodes. list_title ∷ list_lines nodes)

-- The result of `CleanupTracker`: its code, the log as it is closed, and the tracker.
pub record Cleanup : Type 0 where
  pub code : ℕ
  pub closed : Log
  pub tracker : Tracker

-- The loop that frees the nodes, and the list that it leaves in `head`.
unfoldable pub free_all : List MemoryNode → List MemoryNode
free_all [] = []
free_all (curr ∷ nodes) = free_all nodes

unfoldable pub cleanup_tracker : Tracker → Cleanup
cleanup_tracker t = elim t.log_file [
  | none ↦ record { code = 1; closed = none; tracker = t }
  | some lines ↦ record {
    code = 0;
    closed = (linked_list_view (table_view (memory_leaks (freed_memory t).1).1).1).1.log_file;
    tracker = record t { head = free_all t.head; log_file = none };
  }
]
