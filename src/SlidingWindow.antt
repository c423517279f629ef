-- ===== src/SlidingWindow.antt =====
-- LEETCODE PROBLEMS/SlidingWindowMaximum.c: the largest number of each window of `k`, with a queue
-- of indices from `front` to `back`, which is a list here.
pub mod Maxima
use iitm.Prelude.{
  ℕ, zero, suc, ◌+◌, Bool, true, false, ◌||◌, List, [], ◌∷◌, ◌++◌, length, get_or, ltb, leb, ◌==◌,
  if◌then◌else◌,
}
use iitm.Prelude.Int.{ℤ, pos, ltb_ℤ}

-- `nums[i]`: the indices in the queue are those of `nums` read so far
abbrev pub number : List ℤ → ℕ → ℤ
number nums i = get_or nums i (pos 0)

-- A step of the inner loop, for the index in front of those that are left behind it.
abbrev pub pop_last : List ℤ → ℤ → ℕ → List ℕ → List ℕ
pop_last nums x j [] = if ltb_ℤ (number nums j) x then [] else j ∷ []
pop_last nums x j (r ∷ rest) = j ∷ r ∷ rest

-- The inner loop: smaller numbers leave at the back.
unfoldable pub pop_back : List ℤ → ℤ → List ℕ → List ℕ
pop_back nums x [] = []
pop_back nums x (j ∷ js) = pop_last nums x j (pop_back nums x js)

-- The index at the front leaves when it is `k` behind `i`.
unfoldable pub drop_expired : ℕ → ℕ → List ℕ → List ℕ
drop_expired k i [] = []
drop_expired k i (j ∷ js) = if leb (j + k) i then js else j ∷ js

unfoldable pub step : List ℤ → ℕ → ℕ → List ℕ → List ℕ
step nums k i deque = drop_expired k i (pop_back nums (number nums i) deque ++ i ∷ [])

-- The results of so many rounds from `i` on.
unfoldable pub rounds : List ℤ → ℕ → ℕ → ℕ → List ℕ → List ℤ
rounds nums k zero i deque = []
rounds nums k (suc m) i deque =
    let next = step nums k i deque in
    let rest = rounds nums k m (suc i) next in
    if leb k (suc i) then number nums (get_or next 0 0) ∷ rest else rest

unfoldable pub max_sliding_window : List ℤ → ℕ → List ℤ
max_sliding_window nums k =
    if (length nums == 0) || (k == 0) then [] else rounds nums k (length nums) 0 []
