-- ===== src/PageManager/Menu.antt =====
-- The page count, allocating and freeing again, and the menu loop of `main`.
use iitm.Prelude.{
  ℕ, zero, suc, ◌+◌, ◌≤◌, ◌<◌, ◌≡◌, ◌≢◌, refl, ◌∙◌, ap, false, Returns-bind, some, none, List, [],
  ◌∷◌, length, get_elem?, set, get_elem?-set_ne, arith, Returns,
}
use iitm.Prelude.Int.{
  ℤ, pos, ltb_ℤ, leb_ℤ, ◌+ℤ◌, ◌≤ℤ◌, ◌<ℤ◌, pos_part, neg_part, +ℤ_parts, disjoint,
}
use iitm.SortedList.{All}
use iitm.PageManager.{
  Page, free, used, total_pages, int_max, init_pages, mark, Allocation, invalid, no_room, allocated,
  allocate_pages, already_free, Release, freed, invalid_range, free_pages, count_used, Command,
  allocate, release, show, invalid_choice, execute, run,
}
use iitm.PageManager.Update.{
  Allocates, allocate_pages-Allocates, mark-Marked, Releases, free_pages-Releases,
}

module _ {ℓ} {A : Type ℓ} where
  -- two lists that read alike are equal
  get_elem?-ext : (xs ys : List A) → ((j : ℕ) → get_elem? xs j ≡ get_elem? ys j) → xs ≡ ys
  get_elem?-ext [] [] h = refl
  get_elem?-ext [] (y ∷ ys) h = absurd (none_some (h 0))
    where
      none_some : none ≡ some y → ⊥
      none_some e = cc
  get_elem?-ext (x ∷ xs) [] h = absurd (some_none (h 0))
    where
      some_none : some x ≡ none → ⊥
      some_none e = cc
  get_elem?-ext (x ∷ xs) (y ∷ ys) h =
      let e : x ≡ y = cc (h 0) in let r = get_elem?-ext xs ys (λ j. h (suc j)) in cc

count_used-set :
    (t : List Page) (i : ℕ)
    → get_elem? t i ≡ some free
    → count_used (set t i used) ≡ count_used t + 1
unfolding count_used
count_used-set [] i e = cc
count_used-set (used ∷ t) zero e = cc
count_used-set (free ∷ t) zero e = refl
count_used-set (free ∷ t) (suc i) e = count_used-set t i e
count_used-set (used ∷ t) (suc i) e = omega (arith, count_used-set t i e)

count_used-mark :
    (k i : ℕ) (t : List Page)
    → ((j : ℕ) → i ≤ j → j < i + k → get_elem? t j ≡ some free)
    → count_used (mark used k i t) ≡ count_used t + k
unfolding mark
count_used-mark zero i t h = omega arith
count_used-mark (suc k) i t h = omega (
  arith,
  count_used-set t i (h i (omega arith) (omega arith)),
  count_used-mark k (i + 1) (set t i used) (λ j a b. later j a b),
)
  where
    later : (j : ℕ) → i + 1 ≤ j → j < i + 1 + k → get_elem? (set t i used) j ≡ some free
    later j a b =
        let ne : i ≢ j = omega arith in
        rw (get_elem?-set_ne t {i = i} {j = j} used ne) (h j (omega arith) (omega arith))

allocate_pages-mark :
    (t : List Page) (n : ℤ) {t' : List Page} {s : ℕ}
    → allocate_pages t n ≡ (t', allocated s)
    → t' ≡ mark used (pos_part n) s t
unfolding allocate_pages
allocate_pages-mark t n e = ground arith

-- A successful `allocate_pages` raises the number of used pages by the size of the block.
count_used-allocate_pages :
    (t : List Page) (n : ℤ) {t' : List Page} {s : ℕ}
    → allocate_pages t n ≡ (t', allocated s)
    → count_used t' ≡ count_used t + pos_part n
count_used-allocate_pages t n {t'} {s} e =
    let (p, small, b, first, m) = rw e at (allocate_pages-Allocates t n) in
    rw (allocate_pages-mark t n e) (count_used-mark (pos_part n) s t b.all_free)

-- the pages of a used block raise no warning
already_free-nil :
    (k i : ℕ) (t : List Page)
    → ((j : ℕ) → i ≤ j → j < i + k → get_elem? t j ≡ some used)
    → already_free k i t ≡ []
unfolding already_free
already_free-nil zero i t h = refl
already_free-nil (suc k) i t h =
    rw (h i (omega arith) (omega arith), already_free)
      (already_free-nil k (i + 1) t (λ j a b. h j (omega arith) (omega arith)))

free_pages_valid :
    (t : List Page) (s : ℕ) (n : ℤ)
    → pos 0 <ℤ n
    → s + pos_part n ≤ total_pages
    → free_pages t (pos s) n
      ≡ some (mark free (pos_part n) s t, freed (already_free (pos_part n) s t))
unfolding free_pages
free_pages_valid t s n p q = rw (low, inside, positive, defined, fits) refl
  where
    sum : pos_part (pos s +ℤ n) ≤ 16 + neg_part (pos s +ℤ n)
    sum = omega (arith, +ℤ_parts, disjoint n)

    low : ltb_ℤ (pos s) (pos 0) ≡ false
    low = ground arith

    inside : leb_ℤ (pos total_pages) (pos s) ≡ false
    inside = ground arith

    positive : leb_ℤ n (pos 0) ≡ false
    positive = ground arith

    defined : ltb_ℤ (pos int_max) (pos s +ℤ n) ≡ false
    defined = ground (arith, sum)

    fits : ltb_ℤ (pos total_pages) (pos s +ℤ n) ≡ false
    fits = ground (arith, sum)

-- To free the block that `allocate_pages` has just taken, with its size, gives no warning and
-- restores the table of 16 pages.
pub free_pages-allocate_pages :
    (t : List Page) (n : ℤ) {t' : List Page} {s : ℕ}
    → length t ≡ total_pages
    → allocate_pages t n ≡ (t', allocated s)
    → free_pages t' (pos s) n ≡ some (t, freed [])
free_pages-allocate_pages t n {t'} {s} size e =
    let (p, small, b, first, m) = rw e at (allocate_pages-Allocates t n) in
    let inside : s + pos_part n ≤ total_pages = omega (arith, b.inside) in
    let (len, back) = mark-Marked free (pos_part n) s t' (omega (arith, b.inside, m.0)) in
    rw
      (
        free_pages_valid t' s n p inside,
        already_free-nil (pos_part n) s t' (λ j x y. ground (arith, m.1 j)),
        get_elem?-ext (mark free (pos_part n) s t') t
            (λ j. ground (arith, back j, m.1 j, b.all_free j)),
      )
      refl

length-allocate_pages : (t : List Page) (n : ℤ) → length (allocate_pages t n).0 ≡ length t
length-allocate_pages t n = go (allocate_pages t n) (allocate_pages-Allocates t n)
  where
    go : (r : List Page × Allocation) → Allocates t n r → length r.0 ≡ length t
    go (t', invalid) a = ap length a.0
    go (t', no_room) a = ap length a.0
    go (t', allocated s) a = a.4.0

-- the releases of a session whose end is an `int`
abbrev pub IsDefined : Command → Type 0
IsDefined (release start n) = start +ℤ n ≤ℤ pos int_max
IsDefined _ = Unit

execute_total :
    (t : List Page) (c : Command)
    → IsDefined c
    → length t ≡ total_pages
    → Returns (λ t'. length t' ≡ total_pages) (execute t c)
unfolding execute
execute_total t (allocate n) d e = length-allocate_pages t n ∙ e
execute_total t (release start n) d e =
    Returns-bind _ _ (free_pages t start n) _ (free_pages-Releases t start n e d) λ r q. go r q
  where
    go : (r : List Page × Release) → Releases t start n r → length r.0 ≡ total_pages
    go (t', invalid_range) q = ap length q.0 ∙ e
    go (t', freed w) q = q.3.0 ∙ e
execute_total t show d e = e
execute_total t invalid_choice d e = e

run_total :
    (t : List Page) (cs : List Command)
    → All IsDefined cs
    → length t ≡ total_pages
    → Returns (λ t'. length t' ≡ total_pages) (run t cs)
unfolding run
run_total t [] d e = e
run_total t (c ∷ cs) (p, d) e =
    Returns-bind _ _ (execute t c) _ (execute_total t c p e) λ t' e'. run_total t' cs d e'

-- In any session whose releases end at an `int`, no sum overflows, and the table keeps 16 pages.
run-length :
    (cs : List Command)
    → All IsDefined cs
    → Returns (λ t. length t ≡ total_pages) (run init_pages cs)
unfolding init_pages
run-length cs d = run_total init_pages cs d refl
