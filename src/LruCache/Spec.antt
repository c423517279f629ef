-- ===== src/LruCache/Spec.antt =====
-- The cache as a list of keys and values, the latest use first, and `get`.
use iitm.Prelude.{
  ℕ, ◌+◌, ◌≤◌, ◌<◌, ◌≡◌, ◌≢◌, refl, sym, ◌∙◌, ap, Bool-cases, inl, inr, Option, some, none, List,
  [], ◌∷◌, ◌++◌, lt→ltb, if◌then◌else◌, none-some, arith, map, length, length-append, take,
}
use iitm.Prelude.Int.{ℤ, negsuc, eqb_ℤ, eqb_refl_ℤ}
use iitm.SortedList.{All}
use iitm.LruCache.{Ptr, hash_size, LruCache, hash, chain, hash_get}
use iitm.LruCache.Links.{Cell, Avoids, Avoids-append, Avoids-split}
use iitm.LruCache.Moves.{IsList, Fronted}
use iitm.LruCache.Keys.{
  Indexes, Indexes-change, address_of, AvoidsKey, DistinctKeys, eqb-false, address_of-front,
}

abbrev pub Contents : Type 0
Contents = List (ℤ × ℤ)

unfoldable pub value_of : Contents → ℤ → Option ℤ
value_of [] key = none
value_of ((k, v) ∷ l) key = if eqb_ℤ k key then some v else value_of l key

unfoldable pub without : Contents → ℤ → Contents
without [] key = []
without ((k, v) ∷ l) key = if eqb_ℤ k key then l else (k, v) ∷ without l key

-- a key that is there comes to the front; one that is not has the value -1
unfoldable pub get_from : Contents → ℤ → Contents × ℤ
get_from l key = elim (value_of l key) [
  | none ↦ (l, negsuc 0)
  | some v ↦ ((key, v) ∷ without l key, v)
]

-- a key that is there takes the value and comes to the front; one that is not is put there, and what
-- exceeds the capacity is dropped
unfoldable pub put_into : ℕ → Contents → ℤ → ℤ → Contents
put_into capacity l key v = elim (value_of l key) [
  | none ↦ take capacity ((key, v) ∷ l)
  | some _ ↦ (key, v) ∷ without l key
]

abbrev pub contents : List Cell → Contents
contents xs = map (λ c. (c.key, c.value)) xs

-- the object stands for the cells, and the table finds each of them
pub record IsStore (object : LruCache) (xs : List Cell) : Type 0 where
  pub list : IsList object xs
  pub keys : DistinctKeys xs
  pub fits : All (λ c. hash c.key < hash_size) xs
  pub index : Indexes object.hash_table (address_of xs)
  pub size : object.size ≡ length xs
  pub only : (p : Ptr) → Avoids p xs → object.heap p ≡ none

-- what the object is as a cache: its nodes are exactly those cells, no more than the capacity
pub record IsCache (object : LruCache) (xs : List Cell) : Type 0 where
  pub store : IsStore object xs
  pub bounded : length xs ≤ object.capacity

pub hash_get-address_of :
    (object : LruCache) (xs : List Cell) (key : ℤ)
    → IsStore object xs
    → hash key < hash_size
    → hash_get object key ≡ some (address_of xs key)
unfolding hash_get chain
hash_get-address_of object xs key s p =
    rw (lt→ltb (hash key) hash_size p) (ap some (s.index.found key p))

pub All-append :
    {A : Type 0} (P : A → Type 0) (xs ys : List A) → All P xs → All P ys → All P (xs ++ ys)
All-append P [] ys a b = b
All-append P (x ∷ xs) ys (a, as') b = (a, All-append P xs ys as' b)

pub All-split :
    {A : Type 0} (P : A → Type 0) (xs ys : List A) → All P (xs ++ ys) → All P xs × All P ys
All-split P [] ys a = (tt, a)
All-split P (x ∷ xs) ys (a, b) = let (l, r) = All-split P xs ys b in ((a, l), r)

-- without the cell `c`
pub DistinctKeys-drop :
    (ys : List Cell) (c : Cell) (zs : List Cell)
    → DistinctKeys (ys ++ c ∷ zs)
    → AvoidsKey c.key (ys ++ zs) × DistinctKeys (ys ++ zs)
DistinctKeys-drop [] c zs d = d
DistinctKeys-drop (y ∷ ys) c zs (a, d) =
    let (b, e) = DistinctKeys-drop ys c zs d in
    let (l, r) = All-split (λ x. x.key ≢ y.key) ys (c ∷ zs) a in
    ((λ q. r.0 (sym q), b), (All-append (λ x. x.key ≢ y.key) ys zs l r.1, e))

pub value_of-none :
    (xs : List Cell) (key : ℤ) → address_of xs key ≡ none → value_of (contents xs) key ≡ none
unfolding value_of address_of
value_of-none [] key e = refl
value_of-none (c ∷ xs) key e = elim (Bool-cases (eqb_ℤ c.key key)) [
  | inl t ↦ absurd (none-some {a = c.at} (sym e ∙ rw t refl))
  | inr f ↦ rw f (value_of-none xs key (sym (rw f refl) ∙ e))
]

pub value_of-cell :
    (ys : List Cell) (c : Cell) (zs : List Cell)
    → AvoidsKey c.key ys
    → value_of (contents (ys ++ c ∷ zs)) c.key ≡ some c.value
unfolding value_of
value_of-cell [] c zs a = rw (eqb_refl_ℤ c.key) refl
value_of-cell (y ∷ ys) c zs (a, b) = rw (eqb-false y.key c.key a) (value_of-cell ys c zs b)

pub without-cell :
    (ys : List Cell) (c : Cell) (zs : List Cell)
    → AvoidsKey c.key ys
    → without (contents (ys ++ c ∷ zs)) c.key ≡ contents (ys ++ zs)
unfolding without
without-cell [] c zs a = rw (eqb_refl_ℤ c.key) refl
without-cell (y ∷ ys) c zs (a, b) =
    rw (eqb-false y.key c.key a) (ap (λ l. (y.key, y.value) ∷ l) (without-cell ys c zs b))

pub length-front :
    (ys : List Cell) (c : Cell) (zs : List Cell) → length (ys ++ c ∷ zs) ≡ length (ys ++ zs) + 1
length-front ys c zs = omega (arith, length-append ys (c ∷ zs), length-append ys zs)

-- a cell that comes to the front
pub Fronted-IsStore :
    (object : LruCache) (ys : List Cell) (c : Cell) (zs : List Cell) (object' : LruCache)
    → IsStore object (ys ++ c ∷ zs)
    → Fronted object c (ys ++ zs) object'
    → IsStore object' (c ∷ (ys ++ zs))
Fronted-IsStore object ys c zs object' s r =
    let (a, d) = DistinctKeys-drop ys c zs s.keys in
    let (f, f') = All-split (λ x. hash x.key < hash_size) ys (c ∷ zs) s.fits in
    record {
      list = r.list;
      keys = (a, d);
      fits = (f'.0, All-append (λ x. hash x.key < hash_size) ys zs f f'.1);
      index = rw r.kept.hash_table (
          Indexes-change object.hash_table (address_of (ys ++ c ∷ zs)) (address_of (c ∷ (ys ++ zs)))
            s.index (λ k. address_of-front ys c zs k (All-split (λ x. x.key ≢ c.key) ys zs a).0));
      size = omega (arith, r.kept.size, s.size, length-front ys c zs);
      only = λ p v.
          let (b, b') = Avoids-split p ys zs v.1 in
          r.outside p v ∙ s.only p (Avoids-append p ys (c ∷ zs) b (v.0, b'));
    }
