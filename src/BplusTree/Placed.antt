-- ===== src/BplusTree/Placed.antt =====
-- The sorted insertion that both a leaf with room and a full one go through.
use iitm.Prelude.{
  ℕ, suc, ◌+◌, ◌≡◌, refl, sym, ap, subst, if◌then◌else◌, List, [], ◌∷◌, ◌++◌, length, length-append,
  take, drop, take-append-drop, arith, inl, inr, Bool-cases, ltb→lt,
}
use mathlib.Core.List.{reverse, reverse-cons}
use iitm.Prelude.Int.{ℤ, ◌≤ℤ◌, ltb_ℤ, eqb_ℤ}
use iitm.SortedList.{All}
use iitm.BplusTree.{shift, place}

-- Ascending, with repetitions.
abbrev pub IsAscending : List ℤ → Type 0
IsAscending [] = Unit
IsAscending (x ∷ xs) = All (λ y. x ≤ℤ y) xs × IsAscending xs

abbrev IsDescending : List ℤ → Type 0
IsDescending [] = Unit
IsDescending (x ∷ xs) = All (λ y. y ≤ℤ x) xs × IsDescending xs

-- 1 for the key itself
unfoldable pub one : ℤ → ℤ → ℕ
one x key = if eqb_ℤ x key then 1 else 0

unfoldable pub occurrences : ℤ → List ℤ → ℕ
occurrences x [] = 0
occurrences x (y ∷ ys) = one x y + occurrences x ys

pub occurrences-append :
    (x : ℤ) (xs ys : List ℤ) → occurrences x (xs ++ ys) ≡ occurrences x xs + occurrences x ys
unfolding occurrences
occurrences-append x [] ys = omega arith
occurrences-append x (y ∷ xs) ys = omega (arith, occurrences-append x xs ys)

module _ {ℓ} {A : Type ℓ} (P : A → Type 0) where
  pub All-append : (xs ys : List A) → All P xs → All P ys → All P (xs ++ ys)
  All-append [] ys a b = b
  All-append (x ∷ xs) ys (p, a) b = (p, All-append xs ys a b)

  pub All-left : (xs ys : List A) → All P (xs ++ ys) → All P xs
  All-left [] ys a = tt
  All-left (x ∷ xs) ys (p, a) = (p, All-left xs ys a)

  pub All-right : (xs ys : List A) → All P (xs ++ ys) → All P ys
  All-right [] ys a = a
  All-right (x ∷ xs) ys (p, a) = All-right xs ys a

  pub All-mono : (Q : A → Type 0) (xs : List A) → ((x : A) → P x → Q x) → All P xs → All Q xs
  All-mono Q [] f a = tt
  All-mono Q (x ∷ xs) f (p, a) = (f x p, All-mono Q xs f a)

All-reverse {ℓ} : {A : Type ℓ} (P : A → Type 0) (xs : List A) → All P xs → All P (reverse xs)
All-reverse P [] a = tt
All-reverse P (x ∷ xs) (p, a) =
    rw (reverse-cons x xs) (All-append P (reverse xs) (x ∷ []) (All-reverse P xs a) (p, tt))

-- Two ascending lists, one not above the other.
pub IsAscending-append :
    (k : ℤ) (xs ys : List ℤ)
    → IsAscending xs
    → IsAscending ys
    → All (λ x. x ≤ℤ k) xs
    → All (λ y. k ≤ℤ y) ys
    → IsAscending (xs ++ ys)
IsAscending-append k [] ys s t a b = t
IsAscending-append k (x ∷ xs) ys (m, s) t (p, a) b = (
  All-append (λ y. x ≤ℤ y) xs ys m (All-mono (λ y. k ≤ℤ y) (λ y. x ≤ℤ y) ys (λ y h. omega arith) b),
  IsAscending-append k xs ys s t a b,
)

pub IsAscending-left : (xs ys : List ℤ) → IsAscending (xs ++ ys) → IsAscending xs
IsAscending-left [] ys s = tt
IsAscending-left (x ∷ xs) ys (a, s) = (All-left (λ y. x ≤ℤ y) xs ys a, IsAscending-left xs ys s)

pub IsAscending-right : (xs ys : List ℤ) → IsAscending (xs ++ ys) → IsAscending ys
IsAscending-right [] ys s = s
IsAscending-right (x ∷ xs) ys (a, s) = IsAscending-right xs ys s

IsDescending-snoc :
    (x : ℤ) (xs : List ℤ) → IsDescending xs → All (λ y. x ≤ℤ y) xs → IsDescending (xs ++ x ∷ [])
IsDescending-snoc x [] d a = (tt, tt)
IsDescending-snoc x (y ∷ ys) (m, d) (p, a) =
    (All-append (λ z. z ≤ℤ y) ys (x ∷ []) m (p, tt), IsDescending-snoc x ys d a)

reverse-IsDescending : (xs : List ℤ) → IsAscending xs → IsDescending (reverse xs)
reverse-IsDescending [] s = tt
reverse-IsDescending (x ∷ xs) (a, s) =
    rw (reverse-cons x xs) (
      IsDescending-snoc x (reverse xs) (reverse-IsDescending xs s) (All-reverse (λ y. x ≤ℤ y) xs a))

reverse-IsAscending : (xs : List ℤ) → IsDescending xs → IsAscending (reverse xs)
reverse-IsAscending [] d = tt
reverse-IsAscending (x ∷ xs) (a, d) = rw (reverse-cons x xs) (
    IsAscending-append x (reverse xs) (x ∷ []) (reverse-IsAscending xs d) (tt, tt)
      (All-reverse (λ y. y ≤ℤ x) xs a) (omega arith, tt))

occurrences-reverse : (x : ℤ) (xs : List ℤ) → occurrences x (reverse xs) ≡ occurrences x xs
unfolding occurrences
occurrences-reverse x [] = refl
occurrences-reverse x (y ∷ ys) =
    rw (reverse-cons y ys)
      (omega (arith, occurrences-append x (reverse ys) (y ∷ []), occurrences-reverse x ys))

length-reverse {ℓ} : {A : Type ℓ} (xs : List A) → length (reverse xs) ≡ length xs
length-reverse [] = refl
length-reverse (x ∷ xs) =
    rw (reverse-cons x xs) (omega (arith, length-append (reverse xs) (x ∷ []), length-reverse xs))

shift-All : (P : ℤ → Type 0) (key : ℤ) (xs : List ℤ) → P key → All P xs → All P (shift key xs)
unfolding shift
shift-All P key [] p a = (p, tt)
shift-All P key (x ∷ xs) p (q, a) = elim (Bool-cases (ltb_ℤ key x)) [
  | inl t ↦ rw t (q, shift-All P key xs p a)
  | inr f ↦ rw f (p, (q, a))
]

shift-IsDescending : (key : ℤ) (xs : List ℤ) → IsDescending xs → IsDescending (shift key xs)
unfolding shift
shift-IsDescending key [] d = (tt, tt)
shift-IsDescending key (x ∷ xs) (a, d) = elim (Bool-cases (ltb_ℤ key x)) [
  | inl t ↦
      rw t (
        shift-All (λ y. y ≤ℤ x) key xs (omega (arith, ltb→lt _ _ t)) a,
        shift-IsDescending key xs d,
      )
  | inr f ↦
      let le : x ≤ℤ key = ground arith in
      rw f ((le, All-mono (λ y. y ≤ℤ x) (λ y. y ≤ℤ key) xs (λ y h. omega arith) a), (a, d))
]

occurrences-shift :
    (x key : ℤ) (xs : List ℤ) → occurrences x (shift key xs) ≡ one x key + occurrences x xs
unfolding shift occurrences
occurrences-shift x key [] = refl
occurrences-shift x key (y ∷ ys) = elim (Bool-cases (ltb_ℤ key y)) [
  | inl t ↦ rw t (omega (arith, occurrences-shift x key ys))
  | inr f ↦ rw f refl
]

length-shift : (key : ℤ) (xs : List ℤ) → length (shift key xs) ≡ suc (length xs)
unfolding shift
length-shift key [] = refl
length-shift key (y ∷ ys) = elim (Bool-cases (ltb_ℤ key y)) [
  | inl t ↦ rw t (ap suc (length-shift key ys))
  | inr f ↦ rw f refl
]

module _ (key : ℤ) (xs : List ℤ) where
  pub place-IsAscending : IsAscending xs → IsAscending (place key xs)
  unfolding place
  place-IsAscending s =
      reverse-IsAscending _ (shift-IsDescending key (reverse xs) (reverse-IsDescending xs s))

  pub place-All : (P : ℤ → Type 0) → P key → All P xs → All P (place key xs)
  unfolding place
  place-All P p a = All-reverse P _ (shift-All P key (reverse xs) p (All-reverse P xs a))

  pub occurrences-place : (x : ℤ) → occurrences x (place key xs) ≡ one x key + occurrences x xs
  unfolding place
  occurrences-place x = omega (
    arith,
    occurrences-reverse x (shift key (reverse xs)),
    occurrences-shift x key (reverse xs),
    occurrences-reverse x xs,
  )

  pub length-place : length (place key xs) ≡ suc (length xs)
  unfolding place
  length-place = omega (
    arith,
    length-reverse (shift key (reverse xs)),
    length-shift key (reverse xs),
    length-reverse xs,
  )

-- The two parts of an ascending list, around the first key of the second.
pub take-drop-IsAscending :
    (n : ℕ) (xs : List ℤ) → IsAscending xs → IsAscending (take n xs) × IsAscending (drop n xs)
take-drop-IsAscending n xs s =
    let t = subst IsAscending (sym (take-append-drop n xs)) s in
    (IsAscending-left (take n xs) (drop n xs) t, IsAscending-right (take n xs) (drop n xs) t)
