-- ===== src/MedianFinder/Select.antt =====
-- `kth` of LEETCODE PROBLEMS/mediandta.c reads the items in order.
use iitm.Prelude.{
  ℕ, zero, suc, ◌+◌, ◌-◌, ◌<◌, ◌≡◌, refl, List, [], ◌∷◌, ◌++◌, length, length-append,
  length-replicate, replicate, get_or, leb, Bool-cases, leb→le, inl, inr, arith,
}
use iitm.Prelude.Int.{ℤ, negsuc}
use iitm.MedianFinder.{AvlNode, null, avl_node, size, kth}
use iitm.MedianFinder.Items.{items, IsCounted}

module _ {ℓ} {A : Type ℓ} (d : A) where
  get_or-append_left :
      (xs ys : List A) (i : ℕ) → i < length xs → get_or (xs ++ ys) i d ≡ get_or xs i d
  get_or-append_left [] ys i h = absurd (omega arith)
  get_or-append_left (x ∷ xs) ys zero h = refl
  get_or-append_left (x ∷ xs) ys (suc i) h = get_or-append_left xs ys i (omega arith)

  get_or-append_right :
      (xs ys : List A) (i j : ℕ) → i ≡ length xs + j → get_or (xs ++ ys) i d ≡ get_or ys j d
  get_or-append_right [] ys i j h = let e : i ≡ j = omega arith in rw e
  get_or-append_right (x ∷ xs) ys zero j h = absurd (omega arith)
  get_or-append_right (x ∷ xs) ys (suc i) j h = get_or-append_right xs ys i j (omega arith)

  get_or-replicate : (n : ℕ) (x : A) (i : ℕ) → i < n → get_or (replicate n x) i d ≡ x
  get_or-replicate zero x i h = absurd (omega arith)
  get_or-replicate (suc n) x zero h = refl
  get_or-replicate (suc n) x (suc i) h = get_or-replicate n x i (omega arith)

pub length-items : (t : AvlNode) → IsCounted t → length (items t) ≡ size t
unfolding items
length-items null k = refl
length-items (avl_node v h c s l r) (cl, cr, e, pc) =
    rw (length-append, length-append, length-replicate, length-items l cl, length-items r cr)
      (omega arith)

-- At a positive rank `kth` is the item at that place of the ascending list, and -1 past its end.
pub kth-get_or : (t : AvlNode) (i : ℕ) → IsCounted t → kth t (suc i) ≡ get_or (items t) i (negsuc 0)
unfolding kth items
kth-get_or null i k = refl
kth-get_or (avl_node v h c s l r) i (cl, cr, e, pc) =
    let n : length (items l) ≡ size l = length-items l cl in
    elim (Bool-cases (leb (suc i) (size l))) [
      | inl low ↦
          let le = leb→le _ _ low in
          rw
            (
              low,
              kth-get_or l i cl,
              get_or-append_left d (items l) (replicate c v ++ items r) i (omega arith),
            )
            refl
      | inr past ↦
          let here : i ≡ length (items l) + (i - size l) = ground arith in
          elim (Bool-cases (leb (suc i) (size l + c))) [
            | inl mid ↦
                let le = leb→le _ _ mid in
                rw
                  (
                    past,
                    mid,
                    get_or-append_right d (items l) (replicate c v ++ items r) i (i - size l) here,
                    get_or-append_left d (replicate c v) (items r) (i - size l)
                        (rw length-replicate (omega arith)),
                    get_or-replicate d c v (i - size l) (omega arith),
                  )
                  refl
            | inr high ↦
                let rest : i - size l ≡ length (replicate c v) + (i - size l - c) =
                  rw length-replicate (ground arith) in
                let rank : suc i - size l - c ≡ suc (i - size l - c) = ground arith in
                rw
                  (
                    past,
                    high,
                    rank,
                    get_or-append_right d (items l) (replicate c v ++ items r) i (i - size l) here,
                    get_or-append_right d (replicate c v) (items r) (i - size l) (i - size l - c)
                        rest,
                  )
                  (kth-get_or r (i - size l - c) cr)
          ]
    ]
  where
    d : ℤ
    d = negsuc 0
