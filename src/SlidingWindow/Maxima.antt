-- ===== src/SlidingWindow/Maxima.antt =====
-- The front of the queue is the index of the largest number of the window.
use iitm.Prelude.{
  ℕ, zero, suc, ◌+◌, ◌-◌, ◌≤◌, ◌<◌, ◌≡◌, refl, subst, ◌||◌, false, Bool-cases, ◌⊎◌, inl, inr, List,
  [], ◌∷◌, ◌++◌, length, get_or, ltb, leb, ltb→lt, leb→le, ◌==◌, arith,
}
use iitm.Prelude.Int.{ℤ, ltb_ℤ, ◌≤ℤ◌}
use iitm.SortedList.{All}
use iitm.SlidingWindow.{number, pop_last, pop_back, drop_expired, step, rounds, max_sliding_window}

-- the largest of the `k` numbers from `j` on
pub record IsMaximum (nums : List ℤ) (k j : ℕ) (v : ℤ) : Type 0 where
  pub among : (t : ℕ) × (j ≤ t) × (t < j + k) × (number nums t ≡ v)
  pub largest : (t : ℕ) → j ≤ t → t < j + k → number nums t ≤ℤ v

-- for the windows from `j` on
abbrev pub AreMaxima : List ℤ → ℕ → ℕ → List ℤ → Type 0
AreMaxima nums k j [] = Unit
AreMaxima nums k j (v ∷ vs) = IsMaximum nums k j v × AreMaxima nums k (suc j) vs

module _ (nums : List ℤ) where
  -- later indices, of numbers not larger
  abbrev Behind : ℕ → List ℕ → Type 0
  Behind j = All (λ d. (j < d) × (number nums d ≤ℤ number nums j))

  abbrev IsFalling : List ℕ → Type 0
  IsFalling [] = Unit
  IsFalling (j ∷ js) = Behind j js × IsFalling js

  -- some index not before `t`, of a number not smaller
  abbrev Covers : ℕ → List ℕ → Type 0
  Covers t [] = ⊥
  Covers t (d ∷ ds) = ((t ≤ d) × (number nums t ≤ℤ number nums d)) ⊎ Covers t ds

  pop_back-All : (P : ℕ → Type 0) (x : ℤ) (js : List ℕ) → All P js → All P (pop_back nums x js)
  unfolding pop_back
  pop_back-All P x [] a = tt
  pop_back-All P x (j ∷ js) (p, a) = go (pop_back nums x js) (pop_back-All P x js a)
    where
      go : (rest : List ℕ) → All P rest → All P (pop_last nums x j rest)
      go [] b = elim (Bool-cases (ltb_ℤ (number nums j) x)) [
        | inl t ↦ rw t tt
        | inr f ↦ rw f (p, tt)
      ]
      go (r ∷ rest) b = (p, b)

  All-snoc : (P : ℕ → Type 0) (js : List ℕ) (i : ℕ) → All P js → P i → All P (js ++ i ∷ [])
  All-snoc P [] i a p = (p, tt)
  All-snoc P (j ∷ js) i (q, a) p = (q, All-snoc P js i a p)

  All-last : (P : ℕ → Type 0) (js : List ℕ) (i : ℕ) → All P (js ++ i ∷ []) → P i
  All-last P [] i (p, _) = p
  All-last P (j ∷ js) i (q, a) = All-last P js i a

  module _ (i : ℕ) where
    pop_back-IsFalling :
        (js : List ℕ)
        → IsFalling js
        → All (λ d. d < i) js
        → IsFalling (pop_back nums (number nums i) js ++ i ∷ [])
    unfolding pop_back
    pop_back-IsFalling [] f b = (tt, tt)
    pop_back-IsFalling (j ∷ js) (h, f) (lt, b) =
        go (pop_back nums (number nums i) js) (pop_back-All _ (number nums i) js h)
          (pop_back-IsFalling js f b)
      where
        go :
            (rest : List ℕ)
            → Behind j rest
            → IsFalling (rest ++ i ∷ [])
            → IsFalling (pop_last nums (number nums i) j rest ++ i ∷ [])
        go [] c g = elim (Bool-cases (ltb_ℤ (number nums j) (number nums i))) [
          | inl t ↦ rw t (tt, tt)
          | inr n ↦ rw n (((lt, ground arith), tt), (tt, tt))
        ]
        go (r ∷ rest) (c, cs) (g, gs) =
            let (a, le) = All-last _ rest i g in
            (All-snoc _ (r ∷ rest) i (c, cs) (lt, omega (arith, le, c.1)), (g, gs))

    Covers-self : (js : List ℕ) → Covers i (js ++ i ∷ [])
    Covers-self [] = inl (omega arith, omega arith)
    Covers-self (j ∷ js) = inr (Covers-self js)

    -- what leaves at the back is covered by `i`
    pop_back-Covers :
        (t : ℕ) (js : List ℕ)
        → t < i
        → Covers t js
        → Covers t (pop_back nums (number nums i) js ++ i ∷ [])
    unfolding pop_back
    pop_back-Covers t [] lt c = absurd c
    pop_back-Covers t (j ∷ js) lt c =
        go (pop_back nums (number nums i) js) c (pop_back-Covers t js lt)
      where
        go :
            (rest : List ℕ)
            → Covers t (j ∷ js)
            → (Covers t js → Covers t (rest ++ i ∷ []))
            → Covers t (pop_last nums (number nums i) j rest ++ i ∷ [])
        go [] c g = elim (Bool-cases (ltb_ℤ (number nums j) (number nums i))) [
          | inl s ↦
              rw s (elim c [
                | inl (a, b) ↦ inl (omega arith, omega (arith, ltb→lt _ _ s))
                | inr d ↦ g d
              ])
          | inr n ↦ rw n (elim c [ inl p ↦ inl p | inr d ↦ inr (g d) ])
        ]
        go (r ∷ rest) (inl p) g = inl p
        go (r ∷ rest) (inr d) g = inr (g d)

  -- The queue when the rounds before `i` are over.
  record IsQueue (k i : ℕ) (js : List ℕ) : Type 0 where
    falling : IsFalling js
    recent : All (λ d. (d < i) × (i ≤ d + k)) js
    covered : (t : ℕ) → t < i → i ≤ t + k → Covers t js

  All-both :
      (P Q R : ℕ → Type 0) (js : List ℕ)
      → ((d : ℕ) → P d → Q d → R d)
      → All P js
      → All Q js
      → All R js
  All-both P Q R [] f a b = tt
  All-both P Q R (j ∷ js) f (p, a) (q, b) = (f j p q, All-both P Q R js f a b)

  drop_expired-IsQueue :
      (k i : ℕ) (js : List ℕ)
      → IsFalling js
      → All (λ d. (d < suc i) × (i ≤ d + k)) js
      → ((t : ℕ) → t < suc i → suc i ≤ t + k → Covers t js)
      → IsQueue k (suc i) (drop_expired k i js)
  unfolding drop_expired
  drop_expired-IsQueue k i [] f r c = record { falling = tt; recent = tt; covered = c }
  drop_expired-IsQueue k i (j ∷ js) (b, f) ((lt, r), rs) c = elim (Bool-cases (leb (j + k) i)) [
    | inl t ↦ rw t (record {
      falling = f;
      recent = later;
      covered = λ s s_lt s_in. elim (c s s_lt s_in) [
        | inl (le, _) ↦ absurd (omega (arith, leb→le _ _ t))
        | inr d ↦ d
      ];
    })
    | inr n ↦ rw n (record { falling = (b, f); recent = ((lt, ground arith), later); covered = c })
  ]
    where
      later : All (λ d. (d < suc i) × (suc i ≤ d + k)) js
      later = All-both _ _ _ js (λ d p q. (q.0, omega (arith, p.0, r))) b rs

  step-IsQueue :
      (k i : ℕ) (js : List ℕ) → 0 < k → IsQueue k i js → IsQueue k (suc i) (step nums k i js)
  unfolding step
  step-IsQueue k i js h q =
      drop_expired-IsQueue k i _
        (pop_back-IsFalling i js q.falling (All-both _ _ _ js (λ d p _. p.0) q.recent q.recent))
        (All-snoc _ _ i
          (pop_back-All _ (number nums i) js
            (All-both _ _ _ js (λ d p _. (omega (arith, p.0), p.1)) q.recent q.recent))
          (omega arith, omega arith))
        covers
    where
      covers :
          (t : ℕ)
          → t < suc i
          → suc i ≤ t + k
          → Covers t (pop_back nums (number nums i) js ++ i ∷ [])
      covers t lt le = elim (Bool-cases (ltb t i)) [
        | inl s ↦ pop_back-Covers i t js (ltb→lt _ _ s) (q.covered t (ltb→lt _ _ s) (omega arith))
        | inr n ↦
            let e : t ≡ i = ground arith in rw e (Covers-self i (pop_back nums (number nums i) js))
      ]

  front-largest :
      (t j : ℕ) (js : List ℕ)
      → IsFalling (j ∷ js)
      → Covers t (j ∷ js)
      → number nums t ≤ℤ number nums j
  front-largest t j js f (inl (a, b)) = b
  front-largest t j [] f (inr c) = absurd c
  front-largest t j (d ∷ js) f (inr c) =
      let first : number nums d ≤ℤ number nums j = f.0.0.1 in
      omega (arith, front-largest t d js f.1 c, first)

  front-IsMaximum :
      (k i : ℕ) (js : List ℕ)
      → 0 < k
      → k ≤ suc i
      → IsQueue k (suc i) js
      → IsMaximum nums k (suc i - k) (number nums (get_or js 0 0))
  front-IsMaximum k i [] h le q = absurd (q.covered i (omega arith) (omega arith))
  front-IsMaximum k i (j ∷ js) h le q = record {
    among = (j, omega (arith, q.recent.0.1), omega (arith, q.recent.0.0), refl);
    largest = λ t a b. front-largest t j js q.falling (q.covered t (omega arith) (omega arith));
  }

  rounds-AreMaxima :
      (k m i : ℕ) (js : List ℕ)
      → 0 < k
      → k ≤ i + m
      → IsQueue k i js
      → (length (rounds nums k m i js) ≡ (suc (i + m) - k) - (suc i - k))
        × AreMaxima nums k (suc i - k) (rounds nums k m i js)
  unfolding rounds
  rounds-AreMaxima k zero i js h le q = (omega arith, tt)
  rounds-AreMaxima k (suc m) i js h le q =
      let next = step-IsQueue k i js h q in
      let (n, a) = rounds-AreMaxima k m (suc i) (step nums k i js) h (omega arith) next in
      elim (Bool-cases (leb k (suc i))) [
        | inl t ↦
            let full : k ≤ suc i = leb→le _ _ t in
            let e : suc (suc i) - k ≡ suc (suc i - k) = omega arith in
            rw t (
              omega (arith, n, full),
              (
                front-IsMaximum k i (step nums k i js) h full next,
                subst (λ j. AreMaxima nums k j (rounds nums k m (suc i) (step nums k i js))) e a,
              ),
            )
        | inr f ↦
            let few : suc i < k = ground arith in
            let e : suc (suc i) - k ≡ suc i - k = omega (arith, few) in
            rw f (
              omega (arith, n, few),
              subst (λ j. AreMaxima nums k j (rounds nums k m (suc i) (step nums k i js))) e a,
            )
      ]

-- For a window of at least one number and at most all of them, there is one result for each window,
-- in order, and it is the largest number of its window.
pub max_sliding_window-AreMaxima :
    (nums : List ℤ) (k : ℕ)
    → 0 < k
    → k ≤ length nums
    → (length (max_sliding_window nums k) ≡ length nums + 1 - k)
      × AreMaxima nums k 0 (max_sliding_window nums k)
unfolding max_sliding_window
max_sliding_window-AreMaxima nums k h le =
    let some_number : ((length nums == 0) || (k == 0)) ≡ false = ground arith in
    let (n, a) =
      rounds-AreMaxima nums k (length nums) 0 [] h (omega arith)
        (record { falling = tt; recent = tt; covered = λ t lt _. absurd (omega arith) }) in
    rw some_number (
      omega (arith, n),
      subst (λ j. AreMaxima nums k j (rounds nums k (length nums) 0 [])) (omega arith) a,
    )
