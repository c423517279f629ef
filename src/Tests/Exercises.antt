-- ===== src/Tests/Exercises.antt =====
-- Runs of the exercises: windows, brackets and the Bloom filter.
use iitm.Prelude.{
  ◌+◌, ◌-◌, ◌≡◌, ◌↔◌, refl, true, false, some, ◌>>=◌, List, [], ◌∷◌, length, Returns, Text, arith,
}
use iitm.Prelude.Int.{ℤ, pos, negsuc}
use iitm.SortedList.{All}
use iitm.SlidingWindow.{pop_back, drop_expired, step, rounds, max_sliding_window}
use iitm.SlidingWindow.Maxima.{AreMaxima, max_sliding_window-AreMaxima}
use iitm.Brackets.{matched_from, is_valid}
use iitm.Brackets.Grammar.{IsBalanced, is_valid-IsBalanced}
use iitm.BloomFilter
use iitm.BloomFilter.{add_int, sum_one, sum_two, search, insert_all, empty}
use iitm.BloomFilter.Found.{insert_all-Returns}

program : Unit {0}
unfolding pop_back drop_expired step rounds max_sliding_window matched_from add_int sum_one sum_two
    search insert_all BloomFilter.insert
program = tt

abbrev nums : List ℤ
nums = pos 1 ∷ pos 3 ∷ negsuc 0 ∷ negsuc 2 ∷ pos 5 ∷ pos 3 ∷ pos 6 ∷ pos 7 ∷ []

windows_of_three : max_sliding_window nums 3 ≡ pos 3 ∷ pos 3 ∷ pos 5 ∷ pos 5 ∷ pos 6 ∷ pos 7 ∷ []
unfolding program
windows_of_three = refl

max_sliding_window-AreMaxima_example :
    (length (max_sliding_window nums 3) ≡ 8 + 1 - 3)
    × AreMaxima nums 3 0 (max_sliding_window nums 3)
max_sliding_window-AreMaxima_example =
    max_sliding_window-AreMaxima nums 3 (omega arith) (omega arith)

-- ([]){}
abbrev brackets : Text
brackets = 40 ∷ 91 ∷ 93 ∷ 41 ∷ 123 ∷ 125 ∷ []

brackets_valid : is_valid brackets ≡ true
unfolding program
brackets_valid = refl

-- a letter closes any bracket
letter_closes : is_valid (40 ∷ 97 ∷ []) ≡ true
unfolding program
letter_closes = refl

is_valid-IsBalanced_example : (is_valid brackets ≡ true) ↔ IsBalanced brackets
is_valid-IsBalanced_example =
    is_valid-IsBalanced brackets (refl, (refl, (refl, (refl, (refl, (refl, tt))))))

-- cat, dog, rat, bat
abbrev words : List Text
words =
    (99 ∷ 97 ∷ 116 ∷ [])
    ∷ (100 ∷ 111 ∷ 103 ∷ [])
    ∷ (114 ∷ 97 ∷ 116 ∷ [])
    ∷ (98 ∷ 97 ∷ 116 ∷ [])
    ∷ []

-- cow
unknown_word : (insert_all words empty >>= search (99 ∷ 111 ∷ 119 ∷ [])) ≡ some false
unfolding program
unknown_word = refl

insert_all-Returns_example :
    Returns (λ filter. All (λ word. search word filter ≡ some true) words) (insert_all words empty)
insert_all-Returns_example = insert_all-Returns words (omega arith)
