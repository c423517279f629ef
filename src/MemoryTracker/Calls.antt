-- ===== src/MemoryTracker/Calls.antt =====
-- The calls of the tracker, one by one and in a row.
use iitm.Prelude.{
  ℕ, zero, suc, ◌*◌, ◌%◌, ◌<◌, ◌≡◌, ◌≢◌, refl, sym, ap, ◌∙◌, ◌⊎◌, inl, inr, true, false, ◌||◌,
  Bool-cases, some, none, Option-cases, List, [], ◌∷◌, if◌then◌else◌, ◌==◌, arith,
}
use native.Mathlib.Nat.{suc-mul}
use iitm.MemoryTracker.{
  Action, malloc_zero, malloc_ok, malloc_failed, calloc_zero, calloc_ok, calloc_failed,
  realloc_zero, realloc_ok, realloc_failed, free_null, free_ok, free_untracked, logged, Tracker,
  Libc, Release, size_modulus, add_allocation, find_value, mark_freed, track_malloc, track_calloc,
  record_moved, track_realloc, free_found, free_untracked_block, track_free,
}
use iitm.MemoryTracker.Blocks.{
  Blocks, without, holds, active, without-none, unfreed, holds-find_value, active-mark_freed,
  mark_freed-Newest, holds-without, Call, malloc, calloc, realloc, free, call, held_after, Allowed,
  Tracks,
}

add_allocation-Tracks :
    (c : Libc) (a size : ℕ) (t : Tracker) (bs : Blocks)
    → Tracks t bs
    → c.has_node ≡ true
    → a ≢ 0
    → holds a bs ≡ false
    → Tracks (add_allocation c a size t).1 ((a, size) ∷ bs)
unfolding add_allocation active holds
add_allocation-Tracks c a size t bs r room ne apart = rw room (record {
  newest = (ap (holds a) r.held ∙ apart, r.newest);
  held = ap (λ l. (a, size) ∷ l) r.held;
  not_null = ground (arith, r.not_null);
})

mark_freed-Tracks :
    (a : ℕ) (t : Tracker) (bs : Blocks)
    → Tracks t bs
    → Tracks (record t { head = mark_freed t.head a }) (without a bs)
mark_freed-Tracks a t bs r = record {
  newest = mark_freed-Newest t.head a r.newest;
  held = active-mark_freed t.head a r.newest ∙ ap (without a) r.held;
  not_null = holds-without a 0 bs r.not_null;
}

logged-Tracks :
    (c : Libc) (action : Action) (a size : ℕ) (t : Tracker) (bs : Blocks)
    → Tracks t bs
    → Tracks (logged c action a size t) bs
logged-Tracks c action a size t bs r = record {
  newest = r.newest;
  held = r.held;
  not_null = r.not_null;
}

-- a block from `malloc` or `calloc`
allocated-Tracks :
    (c : Libc) (a size : ℕ) (action : Action) (t : Tracker) (bs : Blocks)
    → Tracks t bs
    → c.has_node ≡ true
    → a ≢ 0
    → holds a bs ≡ false
    → Tracks (logged c action a size (add_allocation c a size t).1) ((a, size) ∷ bs)
allocated-Tracks c a size action t bs r room ne apart =
    logged-Tracks c action a size (add_allocation c a size t).1 ((a, size) ∷ bs)
      (add_allocation-Tracks c a size t bs r room ne apart)

track_malloc-Tracks :
    (c : Libc) (size : ℕ) (t : Tracker) (bs : Blocks)
    → Tracks t bs
    → Allowed c (malloc size) bs
    → Tracks (track_malloc c size t).1 (held_after c (malloc size) bs)
unfolding track_malloc
track_malloc-Tracks c size t bs r (room, apart) = elim (Bool-cases (size == 0)) [
  | inl z ↦ rw z (logged-Tracks c malloc_zero 0 0 t bs r)
  | inr z ↦ elim (Bool-cases (c.block == 0)) [
    | inl y ↦ rw (z, y) (logged-Tracks c malloc_failed 0 size t bs r)
    | inr y ↦ rw (z, y) (allocated-Tracks c c.block size malloc_ok t bs r room (ground arith) apart)
  ]
]

pub product-zero : (num size : ℕ) → ((num == 0) || (size == 0)) ≡ (num * size == 0)
product-zero zero size = ground arith
product-zero (suc num) zero = ground arith
product-zero (suc num) (suc size) = ground (arith, suc-mul num (suc size))

fits : (n : ℕ) → n < size_modulus → n % size_modulus ≡ n
fits n p = omega arith

track_calloc-Tracks :
    (c : Libc) (num size : ℕ) (t : Tracker) (bs : Blocks)
    → Tracks t bs
    → Allowed c (calloc num size) bs
    → Tracks (track_calloc c num size t).1 (held_after c (calloc num size) bs)
unfolding track_calloc
track_calloc-Tracks c num size t bs r (room, apart, exact) =
    rw (product-zero num size) (elim (Bool-cases (num * size == 0)) [
      | inl z ↦ rw z (logged-Tracks c calloc_zero 0 0 t bs r)
      | inr z ↦ elim (Bool-cases (c.block == 0)) [
        | inl y ↦ rw (z, y) (logged-Tracks c calloc_failed 0 ((num * size) % size_modulus) t bs r)
        | inr y ↦
            rw (z, y, whole y exact)
              (allocated-Tracks c c.block (num * size) calloc_ok t bs r room (ground arith) apart)
      ]
    ])
  where
    whole :
        (c.block == 0) ≡ false
        → (c.block ≡ 0) ⊎ (num * size < size_modulus)
        → (num * size) % size_modulus ≡ num * size
    whole y (inl e) = absurd (ground arith)
    whole y (inr b) = fits (num * size) b

found_some :
    (t : Tracker) (bs : Blocks) (a : ℕ) → Tracks t bs → unfreed (find_value t.head a) ≡ holds a bs
found_some t bs a r = sym (holds-find_value t.head a r.newest) ∙ ap (holds a) r.held

track_realloc-Tracks :
    (c : Libc) (ptr size : ℕ) (t : Tracker) (bs : Blocks)
    → Tracks t bs
    → Allowed c (realloc ptr size) bs
    → Tracks (track_realloc c ptr size t).1 (held_after c (realloc ptr size) bs)
unfolding track_realloc record_moved
track_realloc-Tracks c ptr size t bs r (room, held, apart) = elim (Bool-cases (size == 0)) [
  | inl z ↦ rw z (logged-Tracks c realloc_zero ptr 0 t bs r)
  | inr z ↦ elim (Bool-cases (c.block == 0)) [
    | inl y ↦ rw (z, y) (logged-Tracks c realloc_failed ptr size t bs r)
    | inr y ↦ elim (Option-cases (find_value t.head ptr)) [
      | inl e ↦ absurd (missing e)
      | inr (n, e) ↦
          rw (z, y, e)
            (allocated-Tracks c c.block size realloc_ok (record t { head = mark_freed t.head ptr })
              (without ptr bs) (mark_freed-Tracks ptr t bs r) room (ground arith) apart)
    ]
  ]
]
  where
    missing : find_value t.head ptr ≡ none → ⊥
    missing e = let f = found_some t bs ptr r in let g = ap unfreed e in cc

-- what `TrackFree` does to a block, held or not
pub record Frees (ptr : ℕ) (bs : Blocks) (r : Release) : Type 0 where
  pub released : r.released ≡ (if holds ptr bs then some ptr else none)
  pub code : r.code ≡ (if holds ptr bs then 0 else 1)
  pub tracks : Tracks r.tracker (without ptr bs)

refused-Frees :
    (c : Libc) (action : Action) (a ptr size : ℕ) (t : Tracker) (bs : Blocks)
    → Tracks t bs
    → holds ptr bs ≡ false
    → Frees ptr bs (record { code = 1; released = none; tracker = logged c action a size t })
refused-Frees c action a ptr size t bs r e = record {
  released = rw e refl;
  code = rw e refl;
  tracks = rw (without-none ptr bs e) (logged-Tracks c action a size t bs r);
}

-- For a tracker whose unfreed nodes are the held blocks `bs`, `TrackFree` hands a pointer to `free`,
-- and returns 0, exactly if a held block begins there, and returns 1 without freeing otherwise, as on
-- a second `TrackFree` of one pointer; the unfreed nodes are then the held blocks without that one.
pub track_free_lem :
    (c : Libc) (ptr : ℕ) (t : Tracker) (bs : Blocks)
    → Tracks t bs
    → Frees ptr bs (track_free c ptr t)
unfolding track_free free_found free_untracked_block
track_free_lem c ptr t bs r = elim (Bool-cases (ptr == 0)) [
  | inl z ↦ rw z (refused-Frees c free_null 0 ptr 0 t bs r (null z))
  | inr z ↦ elim (Option-cases (find_value t.head ptr)) [
    | inl e ↦ rw (z, e) (refused-Frees c free_untracked ptr ptr 0 t bs r (sym f ∙ ap unfreed e))
    | inr (n, e) ↦ elim (Bool-cases n.is_freed) [
      | inl y ↦
          rw (z, e, y)
            (refused-Frees c free_untracked ptr ptr 0 t bs r (sym f ∙ ap unfreed e ∙ rw y refl))
      | inr y ↦
          let h : holds ptr bs ≡ true = sym f ∙ ap unfreed e ∙ rw y refl in
          rw (z, e, y)
            (record {
              released = rw h refl;
              code = rw h refl;
              tracks =
                  logged-Tracks c free_ok ptr n.size (record t { head = mark_freed t.head ptr })
                    (without ptr bs) (mark_freed-Tracks ptr t bs r);
            })
    ]
  ]
]
  where
    f : unfreed (find_value t.head ptr) ≡ holds ptr bs
    f = found_some t bs ptr r

    null : (ptr == 0) ≡ true → holds ptr bs ≡ false
    null z = let e : ptr ≡ 0 = ground arith in ap (λ x. holds x bs) e ∙ r.not_null

pub call-Tracks :
    (c : Libc) (k : Call) (t : Tracker) (bs : Blocks)
    → Tracks t bs
    → Allowed c k bs
    → Tracks (call c k t) (held_after c k bs)
call-Tracks c (malloc size) t bs r a = track_malloc-Tracks c size t bs r a
call-Tracks c (calloc num size) t bs r a = track_calloc-Tracks c num size t bs r a
call-Tracks c (realloc ptr size) t bs r a = track_realloc-Tracks c ptr size t bs r a
call-Tracks c (free ptr) t bs r a = (track_free_lem c ptr t bs r).tracks

abbrev pub calls : List (Libc × Call) → Tracker → Tracker
calls [] t = t
calls ((c, k) ∷ ks) t = calls ks (call c k t)

abbrev pub held_after_all : List (Libc × Call) → Blocks → Blocks
held_after_all [] bs = bs
held_after_all ((c, k) ∷ ks) bs = held_after_all ks (held_after c k bs)

abbrev pub AllAllowed : List (Libc × Call) → Blocks → Type 0
AllAllowed [] bs = Unit
AllAllowed ((c, k) ∷ ks) bs = Allowed c k bs × AllAllowed ks (held_after c k bs)

pub calls-Tracks :
    (ks : List (Libc × Call)) (t : Tracker) (bs : Blocks)
    → Tracks t bs
    → AllAllowed ks bs
    → Tracks (calls ks t) (held_after_all ks bs)
calls-Tracks [] t bs r a = r
calls-Tracks ((c, k) ∷ ks) t bs r (a, rest) =
    calls-Tracks ks (call c k t) (held_after c k bs) (call-Tracks c k t bs r a) rest
