-- ===== src/PageCache/Frames.antt =====
-- `findPage` over the frames of a buffer, and buffers with no page in two frames.
use iitm.Prelude.{
  ℕ, zero, ◌⊎◌, ◌==◌, suc, ◌+◌, ◌<◌, ◌≡◌, ◌≢◌, refl, sym, ◌∙◌, ap, true, false, Bool-cases, inl,
  inr, Option, some, none, List, [], ◌∷◌, ◌>>=◌, set, get_elem?, length, replicate, some_inj,
  get_elem?-set_self, get_elem?-set_ne, arith,
}
use iitm.Prelude.Int.{ℤ, eqb_ℤ, eqb→eq_ℤ, eqb_refl_ℤ}
use iitm.PageCache.{free, find_page}

find_page-cons :
    (x : ℤ) (buffer : List ℤ) (page : ℤ)
    → ((x ≡ page) × (find_page (x ∷ buffer) page ≡ some 0))
      ⊎ ((x ≢ page) × (find_page (x ∷ buffer) page ≡ (find_page buffer page >>= λ i. some (i + 1))))
unfolding find_page
find_page-cons x buffer page = elim (Bool-cases (eqb_ℤ x page)) [
  | inl same ↦ inl (eqb→eq_ℤ x page same, rw same refl)
  | inr other ↦ inr (λ e. true_false (sym (eqb_refl_ℤ x) ∙ ap (eqb_ℤ x) e ∙ other), rw other refl)
]
  where
    true_false : true ≡ false → ⊥
    true_false e = cc

zero_suc : (n : ℕ) → n + 1 ≡ 0 → ⊥
zero_suc n e = omega arith

pub find_page-some :
    (buffer : List ℤ) (page : ℤ) {i : ℕ}
    → find_page buffer page ≡ some i
    → get_elem? buffer i ≡ some page
unfolding find_page
find_page-some [] page e = cc
find_page-some (x ∷ buffer) page {i} e = elim (find_page-cons x buffer page) [
  | inl (same, f) ↦ first i same (sym f ∙ e)
  | inr (other, f) ↦
      later i (find_page buffer page) refl (sym f ∙ e) (λ j. find_page-some buffer page)
]
  where
    first : (i : ℕ) → x ≡ page → some 0 ≡ some i → get_elem? (x ∷ buffer) i ≡ some page
    first zero same e = ap some same
    first (suc i) same e = cc

    later :
        (i : ℕ) (r : Option ℕ)
        → find_page buffer page ≡ r
        → (r >>= λ j. some (j + 1)) ≡ some i
        → ((j : ℕ) → find_page buffer page ≡ some j → get_elem? buffer j ≡ some page)
        → get_elem? (x ∷ buffer) i ≡ some page
    later i none f e rec = cc
    later zero (some j) f e rec = absurd (zero_suc j (some_inj e))
    later (suc i) (some j) f e rec =
        let n : j + 1 ≡ suc i = some_inj e in let m : j ≡ i = omega arith in rec i (f ∙ ap some m)

pub find_page-none :
    (buffer : List ℤ) (page : ℤ)
    → find_page buffer page ≡ none
    → (i : ℕ) → get_elem? buffer i ≢ some page
find_page-none [] page e i m = cc
find_page-none (x ∷ buffer) page e i m = elim (find_page-cons x buffer page) [
  | inl (same, f) ↦ cc
  | inr (other, f) ↦
      later i (find_page buffer page) refl (sym f ∙ e) other m (find_page-none buffer page)
]
  where
    later :
        (i : ℕ) (r : Option ℕ)
        → find_page buffer page ≡ r
        → (r >>= λ j. some (j + 1)) ≡ none
        → x ≢ page
        → get_elem? (x ∷ buffer) i ≡ some page
        → (find_page buffer page ≡ none → (k : ℕ) → get_elem? buffer k ≢ some page)
        → ⊥
    later zero r f e other m rec = other cc
    later (suc i) none f e other m rec = rec f i m
    later (suc i) (some j) f e other m rec = cc

pub find_page-set :
    (buffer : List ℤ) (page : ℤ) (i : ℕ)
    → i < length buffer
    → (j : ℕ) × (find_page (set buffer i page) page ≡ some j)
find_page-set [] page i p = absurd (omega arith)
find_page-set (x ∷ buffer) page zero p = elim (find_page-cons page buffer page) [
  | inl (same, f) ↦ (0, f)
  | inr (other, f) ↦ absurd (other refl)
]
find_page-set (x ∷ buffer) page (suc i) p =
    let (j, e) = find_page-set buffer page i (omega arith) in
    elim (find_page-cons x (set buffer i page) page) [
      | inl (same, f) ↦ (0, f)
      | inr (other, f) ↦ (j + 1, f ∙ rw e refl)
    ]

-- no page stands in two frames
abbrev pub AllDistinct : List ℤ → Type 0
AllDistinct buffer =
    (i j : ℕ) (page : ℤ)
    → page ≢ free
    → get_elem? buffer i ≡ some page
    → get_elem? buffer j ≡ some page
    → i ≡ j

pub set-AllDistinct :
    (buffer : List ℤ) (k : ℕ) (page : ℤ)
    → k < length buffer
    → find_page buffer page ≡ none
    → AllDistinct buffer
    → AllDistinct (set buffer k page)
set-AllDistinct buffer k page p absent d i j x used a b = elim (Bool-cases (k == i)) [
  | inl at ↦ elim (Bool-cases (k == j)) [
    | inl at' ↦ ground arith
    | inr off ↦ absurd (gone i j x (ground arith) (ground arith) a b)
  ]
  | inr off ↦ elim (Bool-cases (k == j)) [
    | inl at ↦ absurd (gone j i x (ground arith) (ground arith) b a)
    | inr off' ↦ d i j x used (sym (kept i (ground arith)) ∙ a) (sym (kept j (ground arith)) ∙ b)
  ]
]
  where
    kept : (i : ℕ) → k ≢ i → get_elem? (set buffer k page) i ≡ get_elem? buffer i
    kept i ne = get_elem?-set_ne buffer page ne

    gone :
        (i j : ℕ) (x : ℤ)
        → k ≡ i
        → k ≢ j
        → get_elem? (set buffer k page) i ≡ some x
        → get_elem? (set buffer k page) j ≡ some x
        → ⊥
    gone i j x at off a b =
        let e : some page ≡ some x =
          sym (get_elem?-set_self buffer k page p) ∙ ap (get_elem? (set buffer k page)) at ∙ a in
        find_page-none buffer page absent j (sym (kept j off) ∙ b ∙ sym e)

pub all_free : (n i : ℕ) (page : ℤ) → get_elem? (replicate n free) i ≡ some page → page ≡ free
all_free zero i page e = cc
all_free (suc n) zero page e = cc
all_free (suc n) (suc i) page e = all_free n i page e

pub replicate-AllDistinct : (n : ℕ) → AllDistinct (replicate n free)
replicate-AllDistinct n i j page used a b = absurd (used (all_free n i page a))

pub get_elem?_lt : (list : List ℤ) (i : ℕ) {x : ℤ} → get_elem? list i ≡ some x → i < length list
get_elem?_lt [] i e = cc
get_elem?_lt (y ∷ list) zero e = omega arith
get_elem?_lt (y ∷ list) (suc i) e = omega (arith, get_elem?_lt list i e)
