-- ===== src/MemoryTracker/Pointers.antt =====
-- The pointers that `main` keeps are those of blocks that it holds.
use iitm.Prelude.{
  ℕ, ◌+◌, ◌*◌, ◌≤◌, ◌<◌, ◌≡◌, ◌≢◌, refl, ◌∙◌, inl, inr, true, false, Bool-cases, Option, some, none,
  List, [], ◌∷◌, set, get_or, get_or-set, length, length-set, if◌then◌else◌, ◌==◌, ◌||◌, arith,
  lt→ltb, Returns,
}
use iitm.Prelude.Int.{ℤ, pos, negsuc, pos_part}
use iitm.MemoryTracker.{Tracker, Libc, track_malloc, track_calloc, track_realloc}
use iitm.MemoryTracker.Menu.{
  Menu, ptrs_size, Command, choose_malloc, choose_calloc, choose_realloc, choose_free, choose_table,
  choose_list, choose_other, chosen, keep_pointer, put_pointer,
}
use iitm.MemoryTracker.Blocks.{
  Blocks, without, holds, Call, malloc, calloc, realloc, free, held_after, Allowed, Tracks,
}
use iitm.MemoryTracker.Calls.{product-zero}

-- Each pointer but NULL is that of a held block, and no other one is the same.
pub record Owns (ptrs : List ℕ) (bs : Blocks) : Type 0 where
  pub held : (i : ℕ) → get_or ptrs i 0 ≢ 0 → holds (get_or ptrs i 0) bs ≡ true
  pub apart : (i j : ℕ) → i ≢ j → get_or ptrs i 0 ≢ 0 → get_or ptrs i 0 ≢ get_or ptrs j 0

holds-without_ne : (a b : ℕ) (bs : Blocks) → a ≢ b → holds b (without a bs) ≡ holds b bs
unfolding holds without
holds-without_ne a b [] p = refl
holds-without_ne a b (c ∷ bs) p = ground (arith, holds-without_ne a b bs p)

holds-cons : (a b size : ℕ) (bs : Blocks) → holds b bs ≡ true → holds b ((a, size) ∷ bs) ≡ true
unfolding holds
holds-cons a b size bs e = ground arith

holds-head : (a size : ℕ) (bs : Blocks) → holds a ((a, size) ∷ bs) ≡ true
unfolding holds
holds-head a size bs = ground arith

module _ (ptrs : List ℕ) (bs : Blocks) (j : ℕ) (inside : j < length ptrs) (r : Owns ptrs bs) where
  -- `ptrs[j] = NULL`
  clear-Owns : Owns (set ptrs j 0) bs
  clear-Owns = record {
    held = λ i ne. ground (arith, get_or-set ptrs j i 0 0 inside, r.held i);
    apart = λ i k ne z.
        ground (arith, get_or-set ptrs j i 0 0 inside, get_or-set ptrs j k 0 0 inside, r.apart i k);
  }

  -- `ptrs[j] = NULL` when its block is freed
  free-Owns : get_or ptrs j 0 ≢ 0 → Owns (set ptrs j 0) (without (get_or ptrs j 0) bs)
  free-Owns ne = record {
    held = λ i z. ground (
      arith,
      get_or-set ptrs j i 0 0 inside,
      r.held i,
      r.apart j i,
      holds-without_ne (get_or ptrs j 0) (get_or ptrs i 0) bs,
    );
    apart = clear-Owns.apart;
  }

  -- `ptrs[j] = p` for a new block
  new-Owns :
      (p size : ℕ)
      → p ≢ 0
      → (cs : Blocks) → Owns (set ptrs j 0) cs
      → holds p cs ≡ false
      → Owns (set ptrs j p) ((p, size) ∷ cs)
  new-Owns p size ne cs s apart = record {
    held = λ i z. ground (
      arith,
      at i,
      cleared i,
      s.held i,
      holds-cons p (get_or ptrs i 0) size cs,
      holds-head p size cs,
    );
    apart =
        λ i k e z. ground (arith, at i, at k, cleared i, cleared k, s.apart i k, other i, other k);
  }
    where
      at : (i : ℕ) → get_or (set ptrs j p) i 0 ≡ (if j == i then p else get_or ptrs i 0)
      at i = get_or-set ptrs j i p 0 inside

      cleared : (i : ℕ) → get_or (set ptrs j 0) i 0 ≡ (if j == i then 0 else get_or ptrs i 0)
      cleared i = get_or-set ptrs j i 0 0 inside

      -- a pointer that is kept is not the new one
      other : (i : ℕ) → j ≢ i → p ≢ get_or ptrs i 0
      other i d e =
          let kept : get_or (set ptrs j 0) i 0 ≡ p = ground (arith, cleared i) in
          let h : holds p cs ≡ true = (rw kept at (s.held i)) ne in cc

  -- `ptrs[j]` takes what an allocating call returns
  pub result-Owns :
      (c : Libc) (size : ℕ) (cs : Blocks)
      → Owns (set ptrs j 0) cs
      → holds c.block cs ≡ false
      → Owns
          (set ptrs j (if (size == 0) || (c.block == 0) then 0 else c.block))
          (if (size == 0) || (c.block == 0) then bs else (c.block, size) ∷ cs)
  result-Owns c size cs s apart = elim (Bool-cases ((size == 0) || (c.block == 0))) [
    | inl e ↦ rw e clear-Owns
    | inr e ↦ rw e (new-Owns c.block size (ground arith) cs s apart)
  ]

pub track_malloc-result :
    (c : Libc) (size : ℕ) (t : Tracker)
    → (track_malloc c size t).0 ≡ (if (size == 0) || (c.block == 0) then 0 else c.block)
unfolding track_malloc
track_malloc-result c size t = ground arith

pub track_calloc-result :
    (c : Libc) (num size : ℕ) (t : Tracker)
    → (track_calloc c num size t).0 ≡ (if (num * size == 0) || (c.block == 0) then 0 else c.block)
unfolding track_calloc
track_calloc-result c num size t = ground (arith, product-zero num size)

pub track_realloc-result :
    (c : Libc) (ptr size : ℕ) (t : Tracker)
    → (track_realloc c ptr size t).0 ≡ (if (size == 0) || (c.block == 0) then 0 else c.block)
unfolding track_realloc
track_realloc-result c ptr size t = ground arith

-- The array has its size, and its pointers and the tracker's nodes are those of the held blocks.
pub record Keeps (m : Menu) (bs : Blocks) : Type 0 where
  pub size : length m.ptrs ≡ ptrs_size
  pub room : m.index ≤ ptrs_size
  pub owns : Owns m.ptrs bs
  pub tracks : Tracks m.tracker bs

-- the call of the tracker that a round makes
unfoldable pub menu_call : Command → Menu → Option Call
menu_call (choose_malloc size) m = some (malloc size)
menu_call (choose_calloc num size) m = some (calloc num size)
menu_call (choose_realloc i size) m = elim (chosen i m) [
  | none ↦ none
  | some ptr ↦ some (realloc ptr size)
]
menu_call (choose_free i) m = elim (chosen i m) [ none ↦ none | some ptr ↦ some (free ptr) ]
menu_call choose_table m = none
menu_call choose_list m = none
menu_call choose_other m = none

abbrev pub held_after_call : Libc → Option Call → Blocks → Blocks
held_after_call c none bs = bs
held_after_call c (some k) bs = held_after c k bs

-- What the C library promises of a call, as in `Allowed`, but not that `realloc` is called for a
-- held block: that is for `main` to see to.
abbrev pub Promised : Libc → Option Call → Blocks → Type 0
Promised c none bs = Unit
Promised c (some (malloc size)) bs = Allowed c (malloc size) bs
Promised c (some (calloc num size)) bs = Allowed c (calloc num size) bs
Promised c (some (realloc ptr size)) bs =
    (c.has_node ≡ true) × (holds c.block (without ptr bs) ≡ false)
Promised c (some (free ptr)) bs = Unit

-- a valid choice of a pointer
pub record Valid (i : ℤ) (m : Menu) (ptr : ℕ) : Type 0 where
  pub below : pos_part i < m.index
  pub value : get_or m.ptrs (pos_part i) 0 ≡ ptr
  pub not_null : ptr ≢ 0

pub chosen-Valid : (i : ℤ) (m : Menu) (ptr : ℕ) → chosen i m ≡ some ptr → Valid i m ptr
unfolding chosen
chosen-Valid (negsuc i) m ptr e = cc
chosen-Valid (pos i) m ptr e = record {
  below = ground arith;
  value = ground arith;
  not_null = ground arith;
}

module _ (c : Libc) (m : Menu) (bs : Blocks) (r : Keeps m bs) where
  -- a new block is kept at the end of the array
  pub keep_pointer-Keeps :
      (size : ℕ) (result : ℕ × Tracker)
      → m.index < ptrs_size
      → result.0 ≡ (if (size == 0) || (c.block == 0) then 0 else c.block)
      → holds c.block bs ≡ false
      → Tracks result.1 (if (size == 0) || (c.block == 0) then bs else (c.block, size) ∷ bs)
      → Returns
          (λ m'.
            (m'.index ≤ m.index + 1)
            × Keeps m' (if (size == 0) || (c.block == 0) then bs else (c.block, size) ∷ bs))
          (keep_pointer result m)
  unfolding keep_pointer
  keep_pointer-Keeps size result below value apart tracks =
      let inside : m.index < length m.ptrs = omega (arith, r.size) in
      rw (lt→ltb m.index ptrs_size below) (
        omega arith,
        record {
          size = length-set m.ptrs m.index result.0 ∙ r.size;
          room = omega arith;
          owns = rw value (
              result-Owns m.ptrs bs m.index inside r.owns c size bs
                (clear-Owns m.ptrs bs m.index inside r.owns) apart);
          tracks = tracks;
        },
      )

  module _ (i : ℤ) (ptr : ℕ) (v : Valid i m ptr) where
    pub inside : pos_part i < length m.ptrs
    inside = omega (arith, r.size, r.room, v.below)

    pub chosen_free-Owns : Owns (set m.ptrs (pos_part i) 0) (without ptr bs)
    chosen_free-Owns =
        rw v.value at (free-Owns m.ptrs bs (pos_part i) inside r.owns (rw v.value v.not_null))

    pub put_pointer-Keeps :
        (result : ℕ × Tracker) (cs : Blocks)
        → Owns (set m.ptrs (pos_part i) result.0) cs
        → Tracks result.1 cs
        → Keeps (put_pointer i result m) cs
    put_pointer-Keeps result cs owns tracks = record {
      size = length-set m.ptrs (pos_part i) result.0 ∙ r.size;
      room = r.room;
      owns = owns;
      tracks = tracks;
    }

    pub chosen-held : holds ptr bs ≡ true
    chosen-held = rw v.value at (r.owns.held (pos_part i) (rw v.value v.not_null))
