-- ===== src/BplusTree/Range.antt =====
-- `printRange` finds the first leaf and follows the chain.
use iitm.Prelude.{
  ◌≡◌, refl, ap, Bool, true, false, ◌&&◌, ltb→lt, Bool-cases, if◌then◌else◌, List, [], ◌∷◌, ◌++◌,
  arith, inl, inr,
}
use iitm.Prelude.Int.{ℤ, ◌≤ℤ◌, ◌<ℤ◌, ltb_ℤ, leb_ℤ}
use iitm.SortedList.{All}
use iitm.BplusTree.{scan}
use iitm.BplusTree.Placed.{one, occurrences, IsAscending, All-right, All-mono}

abbrev pub is_in : ℤ → ℤ → ℤ → Bool
is_in lo hi x = leb_ℤ lo x && leb_ℤ x hi

-- the keys of the range, in their order
unfoldable pub select : ℤ → ℤ → List ℤ → List ℤ
select lo hi [] = []
select lo hi (x ∷ xs) = if is_in lo hi x then x ∷ select lo hi xs else select lo hi xs

module _ (lo hi : ℤ) where
  pub select-append :
      (xs ys : List ℤ) → select lo hi (xs ++ ys) ≡ select lo hi xs ++ select lo hi ys
  unfolding select
  select-append [] ys = refl
  select-append (x ∷ xs) ys = elim (Bool-cases (is_in lo hi x)) [
    | inl t ↦ rw t (ap (λ zs. x ∷ zs) (select-append xs ys))
    | inr f ↦ rw f (select-append xs ys)
  ]

  pub select-below : (xs : List ℤ) → All (λ x. x <ℤ lo) xs → select lo hi xs ≡ []
  unfolding select
  select-below [] a = refl
  select-below (x ∷ xs) (p, a) =
      let out : is_in lo hi x ≡ false = ground arith in rw out (select-below xs a)

  select-above : (xs : List ℤ) → All (λ x. hi <ℤ x) xs → select lo hi xs ≡ []
  unfolding select
  select-above [] a = refl
  select-above (x ∷ xs) (p, a) =
      let out : is_in lo hi x ≡ false = ground arith in rw out (select-above xs a)

  pub occurrences-select :
      (x : ℤ) (xs : List ℤ)
      → occurrences x (select lo hi xs) ≡ (if is_in lo hi x then occurrences x xs else 0)
  unfolding select occurrences one
  occurrences-select x [] = ground arith
  occurrences-select x (y ∷ ys) = ground (arith, occurrences-select x ys)

  select-All : (P : ℤ → Type 0) (xs : List ℤ) → All P xs → All P (select lo hi xs)
  unfolding select
  select-All P [] a = tt
  select-All P (x ∷ xs) (p, a) = elim (Bool-cases (is_in lo hi x)) [
    | inl t ↦ rw t (p, select-All P xs a)
    | inr f ↦ rw f (select-All P xs a)
  ]

  pub select-IsAscending : (xs : List ℤ) → IsAscending xs → IsAscending (select lo hi xs)
  unfolding select
  select-IsAscending [] s = tt
  select-IsAscending (x ∷ xs) (a, s) = elim (Bool-cases (is_in lo hi x)) [
    | inl t ↦ rw t (select-All (λ y. x ≤ℤ y) xs a, select-IsAscending xs s)
    | inr f ↦ rw f (select-IsAscending xs s)
  ]

  AllAbove_of : (k : ℤ) (xs : List ℤ) → hi <ℤ k → All (λ y. k ≤ℤ y) xs → All (λ y. hi <ℤ y) xs
  AllAbove_of k xs h a = All-mono (λ y. k ≤ℤ y) (λ y. hi <ℤ y) xs (λ y p. omega arith) a

  pub scan-select : (ks : List ℤ) → IsAscending ks → (scan lo hi ks).0 ≡ select lo hi ks
  unfolding scan select
  scan-select [] s = refl
  scan-select (k ∷ ks) (a, s) = elim (Bool-cases (ltb_ℤ hi k)) [
    | inl t ↦ rw (t, select-above ks (AllAbove_of k ks (ltb→lt _ _ t) a)) refl
    | inr f ↦ rw (f, scan-select ks s) refl
  ]

  -- After a return no later key is in the range.
  pub scan-stops :
      (ks ys : List ℤ) → (scan lo hi ks).1 ≡ true → IsAscending (ks ++ ys) → select lo hi ys ≡ []
  unfolding scan
  scan-stops [] ys e s = absurd (ground arith)
  scan-stops (k ∷ ks) ys e (a, s) = elim (Bool-cases (ltb_ℤ hi k)) [
    | inl t ↦ select-above ys (AllAbove_of k ys (ltb→lt _ _ t) (All-right (λ y. k ≤ℤ y) ks ys a))
    | inr f ↦ scan-stops ks ys (rw f at e) s
  ]
