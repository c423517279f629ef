-- ===== src/MemoryTracker/Report.antt =====
-- What `CleanupTracker` writes of the blocks that the program holds.
use iitm.Prelude.{
  ℕ, ◌+◌, ◌%◌, ◌<◌, ◌≡◌, refl, ap, inl, inr, Bool-cases, some, none, Option-cases, List, [], ◌∷◌,
  ◌++◌, map, arith,
}
use iitm.MemoryTracker.{
  MemoryNode, Line, Log, freed_title, leak_title, leaked_block, total_leaked, table_title,
  table_row, list_title, list_item, list_end, Tracker, Cleanup, init_tracker, size_modulus,
  freed_lines, leak_lines, table_lines, list_lines, freed_memory, memory_leaks, table_view,
  linked_list_view, free_all, cleanup_tracker,
}
use iitm.MemoryTracker.Blocks.{Blocks, active, Tracks}

-- the bytes of the held blocks
unfoldable pub total_size : Blocks → ℕ
total_size [] = 0
total_size (b ∷ bs) = b.1 + total_size bs

-- a line of a view for each block
abbrev pub lines_of : (ℕ → ℕ → Line) → Blocks → List Line
lines_of line bs = map (λ b. line b.0 b.1) bs

table_lines-active : (ns : List MemoryNode) → table_lines ns ≡ lines_of table_row (active ns)
unfolding table_lines active
table_lines-active [] = refl
table_lines-active (n ∷ ns) = ground (arith, table_lines-active ns)

list_lines-active :
    (ns : List MemoryNode) → list_lines ns ≡ lines_of list_item (active ns) ++ list_end ∷ []
unfolding list_lines active
list_lines-active [] = refl
list_lines-active (n ∷ ns) = ground (arith, list_lines-active ns)

abbrev leaks : ℕ → Blocks → List Line
leaks total bs =
    lines_of leaked_block bs ++ total_leaked ((total + total_size bs) % size_modulus) ∷ []

leaks-cons :
    (total a size : ℕ) (bs : Blocks)
    → leaked_block a size ∷ leaks ((total + size) % size_modulus) bs ≡ leaks total ((a, size) ∷ bs)
unfolding total_size
leaks-cons total a size bs =
    ap (λ s. leaked_block a size ∷ lines_of leaked_block bs ++ total_leaked s ∷ []) (omega arith)

leaks-nil : (total : ℕ) → total < size_modulus → total ≡ (total + total_size []) % size_modulus
unfolding total_size
leaks-nil total p = omega arith

leak_lines-active :
    (total : ℕ) (ns : List MemoryNode)
    → total < size_modulus
    → leak_lines total ns ≡ leaks total (active ns)
unfolding leak_lines active
leak_lines-active total [] p = ap (λ s. total_leaked s ∷ []) (leaks-nil total p)
leak_lines-active total (n ∷ ns) p = elim (Bool-cases n.is_freed) [
  | inl y ↦ rw y (leak_lines-active total ns p)
  | inr y ↦
      rw
        (
          y,
          leak_lines-active ((total + n.size) % size_modulus) ns (omega arith),
          leaks-cons total n.address n.size (active ns),
        )
        refl
]

-- the log that `CleanupTracker` closes, from the lines before it
abbrev pub report : List Line → List MemoryNode → Blocks → List Line
report before nodes bs =
    before
    ++ freed_title ∷ freed_lines nodes
    ++ leak_title ∷ (lines_of leaked_block bs ++ total_leaked (total_size bs % size_modulus) ∷ [])
    ++ table_title ∷ lines_of table_row bs
    ++ list_title ∷ (lines_of list_item bs ++ list_end ∷ [])

abbrev pub cleanup_outcome : Tracker → Blocks → Log → Cleanup
cleanup_outcome t bs none = record { code = 1; closed = none; tracker = t }
cleanup_outcome t bs (some before) = record {
  code = 0;
  closed = some (report before t.head bs);
  tracker = init_tracker;
}

free_all-empties : (nodes : List MemoryNode) → free_all nodes ≡ []
unfolding free_all
free_all-empties [] = refl
free_all-empties (curr ∷ nodes) = free_all-empties nodes

-- For a tracker whose unfreed nodes are the held blocks `bs`, `CleanupTracker` fails and changes
-- nothing without a log; with one it lists each held block once as a leak, with the sum of their
-- sizes modulo 2 ^ 64, once in the table and once in the list, closes the log and empties the tracker.
pub cleanup_tracker_lem :
    (t : Tracker) (bs : Blocks) → Tracks t bs → cleanup_tracker t ≡ cleanup_outcome t bs t.log_file
unfolding cleanup_tracker freed_memory memory_leaks table_view linked_list_view
cleanup_tracker_lem t bs r = elim (Option-cases t.log_file) [
  | inl e ↦ rw e refl
  | inr (before, e) ↦
      rw
        (
          e,
          leak_lines-active 0 t.head (omega arith),
          from_zero (active t.head),
          table_lines-active t.head,
          list_lines-active t.head,
          free_all-empties t.head,
          r.held,
        )
        refl
]
  where
    from_zero :
        (bs : Blocks)
        → leaks 0 bs ≡ lines_of leaked_block bs ++ total_leaked (total_size bs % size_modulus) ∷ []
    from_zero bs = ap (λ s. lines_of leaked_block bs ++ total_leaked s ∷ []) (omega arith)
