-- ===== src/PageManager/Search.antt =====
-- `find_free_block` finds the first block that is free, if there is one.
use iitm.Prelude.{
  ℕ, zero, suc, ◌+◌, ◌-◌, ◌≤◌, ◌<◌, ◌≡◌, refl, some, List, [], ◌∷◌, ◌==◌, length, get_elem?, leb,
  Bool-cases, inl, inr, arith,
}
use iitm.PageManager.{Page, free, used, find_from, find_free_block}

-- the `n` pages from `start` on are in the table and free
pub record IsFreeBlock (page_table : List Page) (start n : ℕ) : Type 0 where
  pub inside : start + n ≤ length page_table
  pub all_free : (i : ℕ) → start ≤ i → i < start + n → get_elem? page_table i ≡ some free

-- `pages` are the pages from `i` on, and the `c` pages before `i` are free
record Fits (i c s n : ℕ) (pages : List Page) : Type 0 where
  begins : i ≤ s + c
  inside : s + n ≤ i + length pages
  all_free : (k : ℕ) → s ≤ i + k → i + k < s + n → get_elem? pages k ≡ some free

find_from-Fits :
    (n i c : ℕ) (pages : List Page) {s : ℕ}
    → c < n
    → c ≤ i
    → find_from n i c pages ≡ some s
    → Fits i c s n pages
unfolding find_from
find_from-Fits n i c [] p q e = cc
find_from-Fits n i c (used ∷ pages) {s} p q e =
    let r = find_from-Fits n (i + 1) 0 pages {s = s} (omega arith) (omega arith) e in
    record { begins = omega (arith, r.begins); inside = omega (arith, r.inside); all_free = all r }
  where
    all :
        Fits (i + 1) 0 s n pages
        → (k : ℕ) → s ≤ i + k
        → i + k < s + n
        → get_elem? (used ∷ pages) k ≡ some free
    all r zero a b = absurd (omega (arith, r.begins))
    all r (suc k) a b = r.all_free k (omega arith) (omega arith)
find_from-Fits n i c (free ∷ pages) {s} p q e = elim (Bool-cases (c + 1 == n)) [
  | inl full ↦
      let t : i + 1 - n ≡ s = ground arith in
      let m : c + 1 ≡ n = ground arith in
      record { begins = omega arith; inside = omega arith; all_free = first t m }
  | inr more ↦
      let m : c + 1 < n = ground arith in
      let r = find_from-Fits n (i + 1) (c + 1) pages {s = s} m (omega arith) (ground arith) in
      record {
        begins = omega (arith, r.begins);
        inside = omega (arith, r.inside);
        all_free = all r;
      }
]
  where
    first :
        i + 1 - n ≡ s
        → c + 1 ≡ n
        → (k : ℕ) → s ≤ i + k
        → i + k < s + n
        → get_elem? (free ∷ pages) k ≡ some free
    first t m zero a b = refl
    first t m (suc k) a b = absurd (omega arith)

    all :
        Fits (i + 1) (c + 1) s n pages
        → (k : ℕ) → s ≤ i + k
        → i + k < s + n
        → get_elem? (free ∷ pages) k ≡ some free
    all r zero a b = refl
    all r (suc k) a b = r.all_free k (omega arith) (omega arith)

shift :
    (p : Page) (i c c' s n : ℕ) (pages : List Page)
    → Fits i c s n (p ∷ pages)
    → i + 1 ≤ s + c'
    → Fits (i + 1) c' s n pages
shift p i c c' s n pages f b = record {
  begins = b;
  inside = omega (arith, f.inside);
  all_free = λ k x y. f.all_free (suc k) (omega arith) (omega arith);
}

not_free : some used ≡ some free → ⊥
not_free e = cc

find_from-first :
    (n i c : ℕ) (pages : List Page) (s : ℕ)
    → c < n
    → c ≤ i
    → Fits i c s n pages
    → (t : ℕ) × (find_from n i c pages ≡ some t) × (t ≤ s)
unfolding find_from
find_from-first n i c [] s p q f = absurd (omega (arith, f.begins, f.inside))
find_from-first n i c (used ∷ pages) s p q f =
    find_from-first n (i + 1) 0 pages s (omega arith) (omega arith)
      (shift used i c 0 s n pages f (late (f.all_free 0)))
  where
    late : (s ≤ i + 0 → i + 0 < s + n → some used ≡ some free) → i + 1 ≤ s + 0
    late h = elim (Bool-cases (leb s i)) [
      | inl le ↦ absurd (not_free (h (ground arith) (omega (arith, f.begins))))
      | inr gt ↦ ground arith
    ]
find_from-first n i c (free ∷ pages) s p q f = elim (Bool-cases (c + 1 == n)) [
  | inl full ↦
      let m : c + 1 ≡ n = ground arith in (i + 1 - n, rw full refl, omega (arith, f.begins))
  | inr more ↦
      let m : c + 1 < n = ground arith in
      rw more (
        find_from-first n (i + 1) (c + 1) pages s m (omega arith)
          (shift free i c (c + 1) s n pages f (omega (arith, f.begins))))
]

-- A block that `find_free_block` returns for a positive number of pages is in the table and free.
pub find_free_block-IsFreeBlock :
    (page_table : List Page) (n : ℕ) {s : ℕ}
    → 0 < n
    → find_free_block page_table n ≡ some s
    → IsFreeBlock page_table s n
unfolding find_free_block
find_free_block-IsFreeBlock page_table n p e =
    let f = find_from-Fits n 0 0 page_table p (omega arith) e in
    record {
      inside = omega (arith, f.inside);
      all_free = λ i a b. f.all_free i (omega arith) (omega arith);
    }

-- If a block of the size is free, one is found, and none that is free begins before it.
pub find_free_block-first :
    (page_table : List Page) (n s : ℕ)
    → 0 < n
    → IsFreeBlock page_table s n
    → (t : ℕ) × (find_free_block page_table n ≡ some t) × (t ≤ s)
unfolding find_free_block
find_free_block-first page_table n s p b =
    find_from-first n 0 0 page_table s p (omega arith) (record {
      begins = omega arith;
      inside = omega (arith, b.inside);
      all_free = λ k x y. b.all_free k (omega arith) (omega arith);
    })
