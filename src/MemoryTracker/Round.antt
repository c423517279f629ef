-- ===== src/MemoryTracker/Round.antt =====
-- One round of the loop of `main`: the pointers stay those of the held blocks.
use iitm.Prelude.{
  ℕ, ◌+◌, ◌*◌, ◌≤◌, ◌<◌, ◌≡◌, refl, ap, ◌∙◌, inl, inr, some, none, Option-cases, List, ◌∷◌, length,
  arith, Returns,
}
use iitm.Prelude.Int.{ℤ, pos_part}
use iitm.MemoryTracker.{
  Tracker, Libc, track_malloc, track_calloc, track_realloc, track_free, table_view,
  linked_list_view, MemoryNode, Line, view, table_title, list_title, table_lines, list_lines,
}
use iitm.MemoryTracker.Menu.{
  Menu, ptrs_size, Command, choose_malloc, choose_calloc, choose_realloc, choose_free, choose_table,
  choose_list, choose_other, chosen, menu_step, put_pointer,
}
use iitm.MemoryTracker.Blocks.{Blocks, without, malloc, calloc, realloc, free, held_after, Tracks}
use iitm.MemoryTracker.Calls.{call-Tracks}
use iitm.MemoryTracker.Pointers.{
  Keeps, menu_call, held_after_call, Promised, chosen-Valid, keep_pointer-Keeps, inside,
  chosen_free-Owns, put_pointer-Keeps, chosen-held, track_malloc-result, track_calloc-result,
  track_realloc-result, result-Owns,
}

-- after a round: one more pointer at most, and the pointers are those of the held blocks
abbrev pub AfterRound : Menu → Blocks → Menu → Type 0
AfterRound m bs m' = (m'.index ≤ m.index + 1) × Keeps m' bs

-- What a round leaves unchanged.
same-AfterRound :
    (m m' : Menu) (bs : Blocks)
    → Keeps m bs
    → m'.ptrs ≡ m.ptrs
    → m'.index ≡ m.index
    → Tracks m'.tracker bs
    → AfterRound m bs m'
same-AfterRound m m' bs r e f tracks = (
  omega arith,
  record {
    size = ap length e ∙ r.size;
    room = omega (arith, r.room);
    owns = rw e r.owns;
    tracks = tracks;
  },
)

view-Tracks :
    (lines : List MemoryNode → List Line) (t : Tracker) (bs : Blocks)
    → Tracks t bs
    → Tracks (view lines t).1 bs
view-Tracks lines t bs r = elim (Option-cases t.log_file) [
  | inl e ↦ rw e (record { newest = r.newest; held = r.held; not_null = r.not_null })
  | inr (before, e) ↦ rw e (record { newest = r.newest; held = r.held; not_null = r.not_null })
]

module _ (c : Libc) (i : ℤ) (m : Menu) where
  pub no_realloc :
      (size : ℕ)
      → chosen i m ≡ none
      → (menu_call (choose_realloc i size) m ≡ none)
        × (menu_step c (choose_realloc i size) m ≡ some m)
  unfolding menu_step menu_call
  no_realloc size e = (rw (menu_call, e) refl, rw (menu_step, e) refl)

  pub no_free :
      chosen i m ≡ none
      → (menu_call (choose_free i) m ≡ none) × (menu_step c (choose_free i) m ≡ some m)
  unfolding menu_step menu_call
  no_free e = (rw (menu_call, e) refl, rw (menu_step, e) refl)

  pub does_realloc :
      (size : ℕ) {ptr : ℕ}
      → chosen i m ≡ some ptr
      → (menu_call (choose_realloc i size) m ≡ some (realloc ptr size))
        × (menu_step c (choose_realloc i size) m
            ≡ some (put_pointer i (track_realloc c ptr size m.tracker) m))
  unfolding menu_step menu_call
  does_realloc size e = (rw (menu_call, e) refl, rw (menu_step, e) refl)

  pub does_free :
      {ptr : ℕ}
      → chosen i m ≡ some ptr
      → (menu_call (choose_free i) m ≡ some (free ptr))
        × (menu_step c (choose_free i) m
            ≡ some (put_pointer i (0, (track_free c ptr m.tracker).tracker) m))
  unfolding menu_step menu_call
  does_free e = (rw (menu_call, e) refl, rw (menu_step, e) refl)

  module _ (bs : Blocks) (r : Keeps m bs) where
    menu_realloc-Keeps :
        (size : ℕ)
        → Promised c (menu_call (choose_realloc i size) m) bs
        → Returns
            (AfterRound m (held_after_call c (menu_call (choose_realloc i size) m) bs))
            (menu_step c (choose_realloc i size) m)
    menu_realloc-Keeps size p = elim (Option-cases (chosen i m)) [
      | inl e ↦
          let (k, s) = no_realloc size e in rw (k, s) (same-AfterRound m m bs r refl refl r.tracks)
      | inr (ptr, e) ↦
          let v = chosen-Valid i m ptr e in
          let (k, s) = does_realloc size e in
          let (room, apart) = rw k at p in
          rw (k, s)
            (
              omega arith,
              put_pointer-Keeps c m bs r i ptr v (track_realloc c ptr size m.tracker)
                  (held_after c (realloc ptr size) bs)
                  (rw (track_realloc-result c ptr size m.tracker) (
                    result-Owns m.ptrs bs (pos_part i) (inside c m bs r i ptr v) r.owns c size
                      (without ptr bs) (chosen_free-Owns c m bs r i ptr v) apart))
                  (call-Tracks c (realloc ptr size) m.tracker bs r.tracks
                    (room, chosen-held c m bs r i ptr v, apart)),
            )
    ]

    menu_free-Keeps :
        Returns
          (AfterRound m (held_after_call c (menu_call (choose_free i) m) bs))
          (menu_step c (choose_free i) m)
    menu_free-Keeps = elim (Option-cases (chosen i m)) [
      | inl e ↦ let (k, s) = no_free e in rw (k, s) (same-AfterRound m m bs r refl refl r.tracks)
      | inr (ptr, e) ↦
          let v = chosen-Valid i m ptr e in
          let (k, s) = does_free e in
          rw (k, s)
            (
              omega arith,
              put_pointer-Keeps c m bs r i ptr v (0, (track_free c ptr m.tracker).tracker)
                  (without ptr bs) (chosen_free-Owns c m bs r i ptr v)
                  (call-Tracks c (free ptr) m.tracker bs r.tracks tt),
            )
    ]

pub menu_step-Keeps :
    (c : Libc) (k : Command) (m : Menu) (bs : Blocks)
    → Keeps m bs
    → m.index < ptrs_size
    → Promised c (menu_call k m) bs
    → Returns (AfterRound m (held_after_call c (menu_call k m) bs)) (menu_step c k m)
unfolding menu_step menu_call table_view linked_list_view
menu_step-Keeps c (choose_malloc size) m bs r below p =
    keep_pointer-Keeps c m bs r size (track_malloc c size m.tracker) below
      (track_malloc-result c size m.tracker) p.1
      (call-Tracks c (malloc size) m.tracker bs r.tracks p)
menu_step-Keeps c (choose_calloc num size) m bs r below p =
    keep_pointer-Keeps c m bs r (num * size) (track_calloc c num size m.tracker) below
      (track_calloc-result c num size m.tracker) p.1
      (call-Tracks c (calloc num size) m.tracker bs r.tracks p)
menu_step-Keeps c (choose_realloc i size) m bs r below p = menu_realloc-Keeps c i m bs r size p
menu_step-Keeps c (choose_free i) m bs r below p = menu_free-Keeps c i m bs r
menu_step-Keeps c choose_table m bs r below p =
    same-AfterRound m _ bs r refl refl
      (view-Tracks (λ nodes. table_title ∷ table_lines nodes) m.tracker bs r.tracks)
menu_step-Keeps c choose_list m bs r below p =
    same-AfterRound m _ bs r refl refl
      (view-Tracks (λ nodes. list_title ∷ list_lines nodes) m.tracker bs r.tracks)
menu_step-Keeps c choose_other m bs r below p = same-AfterRound m m bs r refl refl r.tracks
