-- ===== src/BloomFilter.antt =====
-- BloomFilter/BloomFilter.c: a Bloom filter of 20 cells with two hash functions. `none` is a sum
-- past the largest `int`.
pub mod Found
use iitm.Prelude.{
  ℕ, zero, suc, ◌+◌, ◌*◌, ◌%◌, ◌^◌, ◌==◌, Bool, true, false, ◌&&◌, Option, none, some, ◌>>=◌, List,
  [], ◌∷◌, Text, set, get_or, replicate, ltb, if◌then◌else◌,
}

abbrev pub bloom_size : ℕ
bloom_size = 20

-- the cells of `bloom_filter`
abbrev pub Filter : Type 0
Filter = List ℕ

abbrev pub empty : Filter
empty = replicate bloom_size 0

unfoldable pub add_int : ℕ → ℕ → Option ℕ
add_int a b = if ltb (a + b) (2 ^ 31) then some (a + b) else none

unfoldable pub sum_one : ℕ → Text → Option ℕ
sum_one sum [] = some sum
sum_one sum (c ∷ word) = add_int sum c >>= λ next. sum_one next word

abbrev pub hash_function_one : Text → Option ℕ
hash_function_one word = sum_one 0 word >>= λ sum. some (sum % bloom_size)

unfoldable pub sum_two : ℕ → ℕ → Text → Option ℕ
sum_two i sum [] = some sum
sum_two i sum (c ∷ word) = add_int sum (suc i * c) >>= λ next. sum_two (suc i) next word

abbrev pub hash_function_two : Text → Option ℕ
hash_function_two word = sum_two 0 0 word >>= λ sum. some (sum % bloom_size)

unfoldable pub insert : Text → Filter → Option Filter
insert word filter = do
  first ← hash_function_one word
  second ← hash_function_two word
  some (set (set filter first 1) second 1)

unfoldable pub search : Text → Filter → Option Bool
search word filter = do
  first ← hash_function_one word
  second ← hash_function_two word
  some ((get_or filter first 0 == 1) && (get_or filter second 0 == 1))

unfoldable pub insert_all : List Text → Filter → Option Filter
insert_all [] filter = some filter
insert_all (word ∷ words) filter = insert word filter >>= insert_all words
