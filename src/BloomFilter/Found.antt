-- ===== src/BloomFilter/Found.antt =====
-- A word that was inserted is found.
use iitm.Prelude.{
  ℕ, suc, ◌+◌, ◌*◌, ◌%◌, ◌^◌, ◌≤◌, ◌<◌, ◌≡◌, ◌∙◌, refl, true, ◌==◌, ◌&&◌, Option, none, some,
  Returns, Returns-bind, Returns-mono, List, [], ◌∷◌, Text, length, length-set, set, get_or,
  get_or-set, ltb, arith,
}
use iitm.SortedList.{All}
use iitm.BloomFilter.{
  Filter, bloom_size, empty, add_int, sum_one, sum_two, hash_function_one, hash_function_two,
  insert, search, insert_all,
}

-- Of ASCII characters, and short enough for its sums.
abbrev pub IsWord : Text → Type 0
IsWord word = (length word ≤ 1000) × All (λ c. c < 128) word

sum_one-Returns :
    (sum : ℕ) (word : Text)
    → All (λ c. c < 128) word
    → sum + 128 * length word < 2 ^ 31
    → Returns (λ n. Unit) (sum_one sum word)
unfolding sum_one add_int
sum_one-Returns sum [] a h = tt
sum_one-Returns sum (c ∷ word) (lt, a) h =
    let room : ltb (sum + c) (2 ^ 31) ≡ true = ground arith in
    rw room (sum_one-Returns (sum + c) word a (omega arith))

weight : (i c : ℕ) → i ≤ 1000 → c < 128 → i * c ≤ 128000
weight i c h k = grind arith

sum_two-Returns :
    (i sum : ℕ) (word : Text)
    → All (λ c. c < 128) word
    → i + length word ≤ 1000
    → sum + 128000 * length word < 2 ^ 31
    → Returns (λ n. Unit) (sum_two i sum word)
unfolding sum_two add_int
sum_two-Returns i sum [] a l h = tt
sum_two-Returns i sum (c ∷ word) (lt, a) l h =
    let w : suc i * c ≤ 128000 = weight (suc i) c (omega arith) lt in
    let room : ltb (sum + suc i * c) (2 ^ 31) ≡ true = ground (arith, w) in
    rw room (sum_two-Returns (suc i) (sum + suc i * c) word a (omega arith) (omega (arith, w)))

-- the indices of a word, both in the filter
Hashes : Text → ℕ → ℕ → Type 0
Hashes word i j =
    (hash_function_one word ≡ some i)
    × (hash_function_two word ≡ some j)
    × (i < bloom_size)
    × (j < bloom_size)

IsWord-Hashes : (word : Text) → IsWord word → (i : ℕ) × (j : ℕ) × Hashes word i j
unfolding Hashes
IsWord-Hashes word (l, a) =
    go (sum_one 0 word) (sum_two 0 0 word) refl refl (sum_one-Returns 0 word a (omega arith))
      (sum_two-Returns 0 0 word a (omega arith) (omega arith))
  where
    go :
        (s t : Option ℕ)
        → sum_one 0 word ≡ s
        → sum_two 0 0 word ≡ t
        → Returns (λ n. Unit) s
        → Returns (λ n. Unit) t
        → (i : ℕ) × (j : ℕ) × Hashes word i j
    go none t e f p q = absurd p
    go (some s) none e f p q = absurd q
    go (some s) (some t) e f p q =
        (s % bloom_size, t % bloom_size, (rw e refl, rw f refl, omega arith, omega arith))

set_keeps :
    (filter : Filter) (i j : ℕ)
    → j < length filter
    → get_or filter i 0 ≡ 1
    → get_or (set filter j 1) i 0 ≡ 1
set_keeps filter i j h e = rw (get_or-set filter j i 1 0 h) (ground (arith, e))

set_sets : (filter : Filter) (i : ℕ) → i < length filter → get_or (set filter i 1) i 0 ≡ 1
set_sets filter i h = rw (get_or-set filter i i 1 0 h) (ground arith)

-- Cells that are set stay set, so a word that is found stays found.
search_kept :
    (word : Text) (filter filter' : Filter)
    → IsWord word
    → ((i : ℕ) → get_or filter i 0 ≡ 1 → get_or filter' i 0 ≡ 1)
    → search word filter ≡ some true
    → search word filter' ≡ some true
unfolding search Hashes
search_kept word filter filter' w keep found =
    let (i, j, (e, f, g, h)) = IsWord-Hashes word w in
    let there : some ((get_or filter i 0 == 1) && (get_or filter j 0 == 1)) ≡ some true =
      rw (e, f) at found in
    let both : ((get_or filter i 0 == 1) && (get_or filter j 0 == 1)) ≡ true = cc in
    let first : get_or filter' i 0 ≡ 1 = keep i (ground (arith, both)) in
    let second : get_or filter' j 0 ≡ 1 = keep j (ground (arith, both)) in
    rw (e, f, first, second) refl

-- What an insertion does: the word is found, and no cell is reset.
Inserted : Text → Filter → Filter → Type 0
Inserted word filter filter' =
    (length filter' ≡ bloom_size)
    × (search word filter' ≡ some true)
    × ((i : ℕ) → get_or filter i 0 ≡ 1 → get_or filter' i 0 ≡ 1)

insert-Inserted :
    (word : Text) (filter : Filter)
    → IsWord word
    → length filter ≡ bloom_size
    → Returns (Inserted word filter) (insert word filter)
unfolding insert search Hashes Inserted
insert-Inserted word filter w l =
    let (i, j, (e, f, g, h)) = IsWord-Hashes word w in
    let size : length (set filter i 1) ≡ bloom_size = length-set filter i 1 ∙ l in
    let first : get_or (set (set filter i 1) j 1) i 0 ≡ 1 =
      set_keeps (set filter i 1) i j (omega arith) (set_sets filter i (omega arith)) in
    let second : get_or (set (set filter i 1) j 1) j 0 ≡ 1 =
      set_sets (set filter i 1) j (omega arith) in
    rw (e, f)
      (
        length-set (set filter i 1) j 1 ∙ size,
        rw (e, f, first, second) refl,
        λ n p. set_keeps (set filter i 1) n j (omega arith) (set_keeps filter n i (omega arith) p),
      )

found_from :
    (words : List Text) (filter : Filter)
    → All IsWord words
    → length filter ≡ bloom_size
    → Returns
        (λ filter'.
          All (λ word. search word filter' ≡ some true) words
          × ((i : ℕ) → get_or filter i 0 ≡ 1 → get_or filter' i 0 ≡ 1))
        (insert_all words filter)
unfolding insert_all Inserted
found_from [] filter a l = (tt, λ i p. p)
found_from (word ∷ words) filter (w, a) l =
    Returns-bind _ _ (insert word filter) (insert_all words) (insert-Inserted word filter w l)
      λ next (size, found, keep).
        Returns-mono _ _ (insert_all words next) (found_from words next a size) λ last (all, kept).
          ((search_kept word next last w kept found, all), λ i p. kept i (keep i p))

-- After any ASCII words of at most 1000 characters were inserted in the empty filter, no sum
-- overflowed, and `search` finds each of them.
pub insert_all-Returns :
    (words : List Text)
    → All IsWord words
    → Returns
        (λ filter. All (λ word. search word filter ≡ some true) words)
        (insert_all words empty)
insert_all-Returns words a =
    Returns-mono _ _ (insert_all words empty) (found_from words empty a refl)
      λ filter (all, kept). all
