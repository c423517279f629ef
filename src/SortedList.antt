-- ===== src/SortedList.antt =====
-- Ascending lists of integers: what the search trees of Trees/AVLTree.c stand for.
use iitm.Prelude.{
  ◌≡◌, refl, ap, Bool, false, true, if◌then◌else◌, List, [], ◌∷◌, ◌++◌, ◌||◌, ltb→lt, arith, inl,
  inr, Bool-cases,
}
use iitm.Prelude.Int.{ℤ, ltb_ℤ, ◌<ℤ◌}

abbrev pub All {ℓ} : {A : Type ℓ} → (A → Type 0) → List A → Type 0
All P [] = Unit
All P (x ∷ xs) = P x × All P xs

abbrev pub AllBelow : ℤ → List ℤ → Type 0
AllBelow v = All (λ x. x <ℤ v)

abbrev pub AllAbove : ℤ → List ℤ → Type 0
AllAbove v = All (λ x. v <ℤ x)

abbrev pub IsSorted : List ℤ → Type 0
IsSorted [] = Unit
IsSorted (x ∷ xs) = AllAbove x xs × IsSorted xs

-- the ascending list with `v` added, unless it is there
unfoldable pub add : ℤ → List ℤ → List ℤ
add v [] = v ∷ []
add v (x ∷ xs) = if ltb_ℤ v x then v ∷ x ∷ xs else if ltb_ℤ x v then x ∷ add v xs else x ∷ xs

-- the ascending list without `v`
unfoldable pub remove : ℤ → List ℤ → List ℤ
remove v [] = []
remove v (x ∷ xs) = if ltb_ℤ v x then x ∷ xs else if ltb_ℤ x v then x ∷ remove v xs else xs

pub lt_irrefl_ℤ : (v : ℤ) → ltb_ℤ v v ≡ false
lt_irrefl_ℤ v = ground arith

pub lt_asymm_ℤ : (v w : ℤ) → v <ℤ w → ltb_ℤ w v ≡ false
lt_asymm_ℤ v w h = ground arith

pub lt→ltb_ℤ : (v w : ℤ) → v <ℤ w → ltb_ℤ v w ≡ true
lt→ltb_ℤ v w h = ground arith

pub AllAbove-trans : (v w : ℤ) (xs : List ℤ) → v <ℤ w → AllAbove w xs → AllAbove v xs
AllAbove-trans v w [] h a = tt
AllAbove-trans v w (x ∷ xs) h (p, a) = (omega arith, AllAbove-trans v w xs h a)

pub AllBelow-trans : (v w : ℤ) (xs : List ℤ) → w <ℤ v → AllBelow w xs → AllBelow v xs
AllBelow-trans v w [] h a = tt
AllBelow-trans v w (x ∷ xs) h (p, a) = (omega arith, AllBelow-trans v w xs h a)

-- What an ascending list says of a value in its middle.
pub IsSorted-append :
    (xs : List ℤ) (v : ℤ) (ys : List ℤ)
    → IsSorted (xs ++ v ∷ ys)
    → IsSorted xs × AllBelow v xs × AllAbove v ys × IsSorted ys
IsSorted-append [] v ys (p, s) = (tt, tt, p, s)
IsSorted-append (x ∷ xs) v ys (p, s) =
    let (sx, b, a, sy) = IsSorted-append xs v ys s in ((go xs p, sx), (last xs p, b), a, sy)
  where
    go : (zs : List ℤ) → AllAbove x (zs ++ v ∷ ys) → AllAbove x zs
    go [] q = tt
    go (z ∷ zs) (q, r) = (q, go zs r)

    last : (zs : List ℤ) → AllAbove x (zs ++ v ∷ ys) → x <ℤ v
    last [] (q, r) = q
    last (z ∷ zs) (q, r) = last zs r

add_above : (v x : ℤ) (xs : List ℤ) → x <ℤ v → AllAbove x xs → AllAbove x (add v xs)
unfolding add
add_above v x [] h a = (h, tt)
add_above v x (y ∷ ys) h (p, a) = ground (arith, add_above v x ys h a)

pub add-IsSorted : (v : ℤ) (xs : List ℤ) → IsSorted xs → IsSorted (add v xs)
unfolding add
add-IsSorted v [] s = (tt, tt)
add-IsSorted v (x ∷ xs) (a, s) = elim (Bool-cases (ltb_ℤ v x)) [
  | inl lt ↦ rw lt ((ltb→lt _ _ lt, AllAbove-trans v x xs (ltb→lt _ _ lt) a), (a, s))
  | inr ge ↦ elim (Bool-cases (ltb_ℤ x v)) [
    | inl gt ↦ rw (ge, gt) (add_above v x xs (ltb→lt _ _ gt) a, add-IsSorted v xs s)
    | inr le ↦ rw (ge, le) (a, s)
  ]
]

remove_above : (v x : ℤ) (xs : List ℤ) → AllAbove x xs → AllAbove x (remove v xs)
unfolding remove
remove_above v x [] a = tt
remove_above v x (y ∷ ys) (p, a) = ground (arith, remove_above v x ys a)

pub remove-IsSorted : (v : ℤ) (xs : List ℤ) → IsSorted xs → IsSorted (remove v xs)
unfolding remove
remove-IsSorted v [] s = tt
remove-IsSorted v (x ∷ xs) (a, s) = ground (arith, remove_above v x xs a, remove-IsSorted v xs s)

module _ (v w : ℤ) (ys : List ℤ) where
  pub add-append_below : (xs : List ℤ) → v <ℤ w → add v (xs ++ w ∷ ys) ≡ add v xs ++ w ∷ ys
  unfolding add
  add-append_below [] h = ground arith
  add-append_below (x ∷ xs) h = ground (arith, add-append_below xs h)

  pub add-append_above :
      (xs : List ℤ) → w <ℤ v → AllBelow w xs → add v (xs ++ w ∷ ys) ≡ xs ++ w ∷ add v ys
  unfolding add
  add-append_above [] h b = ground arith
  add-append_above (x ∷ xs) h (p, b) =
      rw (lt_asymm_ℤ x v (omega arith), lt→ltb_ℤ x v (omega arith))
        (ap (λ zs. x ∷ zs) (add-append_above xs h b))

  pub remove-append_below : (xs : List ℤ) → v <ℤ w → remove v (xs ++ w ∷ ys) ≡ remove v xs ++ w ∷ ys
  unfolding remove
  remove-append_below [] h = ground arith
  remove-append_below (x ∷ xs) h = ground (arith, remove-append_below xs h)

  pub remove-append_above :
      (xs : List ℤ) → w <ℤ v → AllBelow w xs → remove v (xs ++ w ∷ ys) ≡ xs ++ w ∷ remove v ys
  unfolding remove
  remove-append_above [] h b = ground arith
  remove-append_above (x ∷ xs) h (p, b) =
      rw (lt_asymm_ℤ x v (omega arith), lt→ltb_ℤ x v (omega arith))
        (ap (λ zs. x ∷ zs) (remove-append_above xs h b))

module _ (v : ℤ) (ys : List ℤ) where
  pub add-append_self : (xs : List ℤ) → AllBelow v xs → add v (xs ++ v ∷ ys) ≡ xs ++ v ∷ ys
  unfolding add
  add-append_self [] b = rw lt_irrefl_ℤ
  add-append_self (x ∷ xs) (p, b) =
      rw (lt_asymm_ℤ x v p, lt→ltb_ℤ x v p) (ap (λ zs. x ∷ zs) (add-append_self xs b))

  pub remove-append_self : (xs : List ℤ) → AllBelow v xs → remove v (xs ++ v ∷ ys) ≡ xs ++ ys
  unfolding remove
  remove-append_self [] b = rw lt_irrefl_ℤ
  remove-append_self (x ∷ xs) (p, b) =
      rw (lt_asymm_ℤ x v p, lt→ltb_ℤ x v p) (ap (λ zs. x ∷ zs) (remove-append_self xs b))

-- Membership, by comparison.
abbrev pub eq_ℤ : ℤ → ℤ → Bool
eq_ℤ a b = if ltb_ℤ a b then false else if ltb_ℤ b a then false else true

unfoldable pub has : ℤ → List ℤ → Bool
has x [] = false
has x (y ∷ ys) = eq_ℤ x y || has x ys

pub has-add : (x v : ℤ) (xs : List ℤ) → has x (add v xs) ≡ (eq_ℤ x v || has x xs)
unfolding has add
has-add x v [] = refl
has-add x v (y ∷ ys) = ground (arith, has-add x v ys)

has_above : (x v : ℤ) (xs : List ℤ) → AllAbove v xs → ltb_ℤ v x ≡ false → has x xs ≡ false
unfolding has
has_above x v [] a h = refl
has_above x v (y ∷ ys) (p, a) h = ground (arith, has_above x v ys a)

pub has-remove :
    (x v : ℤ) (xs : List ℤ)
    → IsSorted xs
    → has x (remove v xs) ≡ (if eq_ℤ x v then false else has x xs)
unfolding has remove
has-remove x v [] s = ground arith
has-remove x v (y ∷ ys) (a, s) = ground (arith, has-remove x v ys s, has_above x y ys a)
