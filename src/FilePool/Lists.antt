-- ===== src/FilePool/Lists.antt =====
-- The list of free buffers through any calls.
use iitm.Prelude.{
  ℕ, zero, suc, ◌<◌, ◌≡◌, ◌≢◌, refl, sym, ap, ◌∙◌, inl, inr, true, false, Bool-cases, ◌==◌, Option,
  none, some, Returns, List, [], ◌∷◌, length, get_elem?, set, length-set, get_elem?-set_self,
  get_elem?-set_ne, if◌then◌else◌, arith,
}
use iitm.SortedList.{All}
use iitm.FilePool.{Buffer, Pool, acquire_buffer, release_buffer}

-- the pointers from `at` lead through these buffers, all free, and then to NULL
abbrev pub IsList : List Buffer → Option ℕ → List ℕ → Type 0
IsList bs at [] = at ≡ none
IsList bs at (i ∷ is) =
    (at ≡ some i)
    × ((b : Buffer) × (get_elem? bs i ≡ some b) × (b.is_free ≡ true) × IsList bs b.next is)

abbrev Avoids : ℕ → List ℕ → Type 0
Avoids i = All (λ j. j ≢ i)

abbrev AreDistinct : List ℕ → Type 0
AreDistinct [] = Unit
AreDistinct (i ∷ is) = Avoids i is × AreDistinct is

-- The free list has each free buffer once, and `free_count` is its length.
pub record IsPool (pool : Pool) : Type 0 where
  free : List ℕ
  listed : IsList pool.buffers pool.free_list free
  distinct : AreDistinct free
  counted : length free ≡ pool.free_count
  others :
      (i : ℕ) (b : Buffer) → Avoids i free → get_elem? pool.buffers i ≡ some b → b.is_free ≡ false

-- A write to a buffer that is not in the list.
IsList-set :
    (bs : List Buffer) (at : Option ℕ) (is : List ℕ) (i : ℕ) (v : Buffer)
    → Avoids i is
    → IsList bs at is
    → IsList (set bs i v) at is
IsList-set bs at [] i v a l = l
IsList-set bs at (j ∷ is) i v (n, a) (e, (b, f, t, l)) =
    (e, (b, get_elem?-set_ne bs v (λ p. n (sym p)) ∙ f, t, IsList-set bs b.next is i v a l))

-- A buffer in use is not in the list.
IsList-Avoids :
    (bs : List Buffer) (at : Option ℕ) (is : List ℕ) (i : ℕ) (b : Buffer)
    → get_elem? bs i ≡ some b
    → b.is_free ≡ false
    → IsList bs at is
    → Avoids i is
IsList-Avoids bs at [] i b e f l = tt
IsList-Avoids bs at (j ∷ is) i b e f (p, (c, g, t, l)) = (
  (λ q. let h : get_elem? bs i ≡ some c = rw (sym q) g in cc),
  IsList-Avoids bs c.next is i b e f l,
)

get_elem?-in : {A : Type 0} (xs : List A) (i : ℕ) (x : A) → get_elem? xs i ≡ some x → i < length xs
get_elem?-in [] i x e = cc
get_elem?-in (y ∷ xs) zero x e = omega arith
get_elem?-in (y ∷ xs) (suc i) x e = omega (arith, get_elem?-in xs i x e)

-- the buffers in use, one more of which is written
others_after :
    (bs : List Buffer) (i : ℕ) (v : Buffer)
    → v.is_free ≡ false
    → (is : List ℕ)
    → ((j : ℕ) (b : Buffer) → Avoids j (i ∷ is) → get_elem? bs j ≡ some b → b.is_free ≡ false)
    → (j : ℕ) (b : Buffer) → Avoids j is
    → get_elem? (set bs i v) j ≡ some b
    → b.is_free ≡ false
others_after bs i v f is o j b n e = elim (Bool-cases (i == j)) [
  | inl t ↦
      let same : i ≡ j = ground (arith, t) in
      let here : get_elem? (set bs i v) i ≡ some b = ap (get_elem? (set bs i v)) same ∙ e in
      let there : i < length bs = omega (arith, get_elem?-in _ i b here, length-set bs i v) in
      let w : v ≡ b = some-inj v b (sym (get_elem?-set_self bs i v there) ∙ here) in
      ap (λ x. x.is_free) (sym w) ∙ f
  | inr u ↦
      let differ : i ≢ j = λ p. let c : (i == j) ≡ true = ground (arith, p) in cc in
      o j b (differ, n) (sym (get_elem?-set_ne bs v differ) ∙ e)
]
  where
    some-inj : (x y : Buffer) → some x ≡ some y → x ≡ y
    some-inj x y p = cc

-- the buffers but one
abbrev Others : ℕ → Pool → Pool → Type 0
Others i pool pool' = (j : ℕ) → i ≢ j → get_elem? pool'.buffers j ≡ get_elem? pool.buffers j

-- What `acquire_buffer` returns: NULL only if no buffer is free, else one that was free, and is not
-- any more, with its data as they were.
abbrev pub Acquired : Pool → Pool → Option ℕ → Type 0
Acquired pool pool' none =
    (pool' ≡ pool) × ((i : ℕ) (b : Buffer) → get_elem? pool.buffers i ≡ some b → b.is_free ≡ false)
Acquired pool pool' (some i) =
    Others i pool pool'
    × ((b : Buffer) × (get_elem? pool.buffers i ≡ some b)
        × (b.is_free ≡ true)
        × (get_elem? pool'.buffers i
            ≡ some (record { bytes = b.bytes; is_free = false; next = none })))

-- In a pool with its free list in order `acquire_buffer` reads no NULL and keeps the list in order.
-- It returns NULL and changes nothing if no buffer is free. Otherwise it returns a buffer that was
-- free and is not any more, with its data as they were, and changes no other.
pub acquire_buffer-Acquired :
    (pool : Pool)
    → IsPool pool
    → Returns (λ (pool', r). IsPool pool' × Acquired pool pool' r) (acquire_buffer pool)
unfolding acquire_buffer
acquire_buffer-Acquired pool v = go v.free v.listed v.distinct v.counted v.others
  where
    go :
        (is : List ℕ)
        → IsList pool.buffers pool.free_list is
        → AreDistinct is
        → length is ≡ pool.free_count
        → ((i : ℕ) (b : Buffer)
            → Avoids i is
            → get_elem? pool.buffers i ≡ some b
            → b.is_free ≡ false)
        → Returns (λ (pool', r). IsPool pool' × Acquired pool pool' r) (acquire_buffer pool)
    go [] l d c o =
        let empty : (pool.free_count == 0) ≡ true = ground (arith, c) in
        rw empty (
          record { free = []; listed = l; distinct = d; counted = c; others = o },
          (refl, λ i b e. o i b tt e),
        )
    go (i ∷ is) (e, (b, f, t, l)) (a, d) c o =
        let some_left : (pool.free_count == 0) ≡ false = ground (arith, c) in
        let v : Buffer = record { bytes = b.bytes; is_free = false; next = none } in
        let self = get_elem?-set_self pool.buffers i v (get_elem?-in pool.buffers i b f) in
        rw (some_left, e, f)
          (
            record {
              free = is;
              listed = IsList-set pool.buffers b.next is i v a l;
              distinct = d;
              counted = omega (arith, c);
              others =
                  λ j x n p. others_after pool.buffers i v refl is (λ k y m q. o k y m q) j x n p;
            },
            (λ j n. get_elem?-set_ne pool.buffers v n, (b, f, t, self)),
          )

-- `release_buffer` of a buffer of such a pool keeps the list in order: the buffer is free again, its
-- data are erased unless it was free before, and no other changes.
pub release_buffer-IsPool :
    (pool : Pool) (i : ℕ) (b : Buffer)
    → IsPool pool
    → get_elem? pool.buffers i ≡ some b
    → Returns
        (λ pool'.
          IsPool pool'
          × Others i pool pool'
          × ((b' : Buffer) × (get_elem? pool'.buffers i ≡ some b')
              × (b'.is_free ≡ true)
              × (b'.bytes ≡ (if b.is_free then b.bytes else []))))
        (release_buffer pool i)
unfolding release_buffer
release_buffer-IsPool pool i b v e = elim (Bool-cases b.is_free) [
  | inl t ↦ rw (e, t) (v, (λ j n. refl), (b, e, t, refl))
  | inr f ↦
      let w : Buffer = record { bytes = []; is_free = true; next = pool.free_list } in
      let self = get_elem?-set_self pool.buffers i w (get_elem?-in pool.buffers i b e) in
      let out = IsList-Avoids pool.buffers pool.free_list v.free i b e f v.listed in
      rw (e, f)
        (
          record {
            free = i ∷ v.free;
            listed = (
              refl,
              (w, self, refl, IsList-set pool.buffers pool.free_list v.free i w out v.listed),
            );
            distinct = (out, v.distinct);
            counted = omega (arith, v.counted);
            others = λ j x (n, m) p. v.others j x m (sym (get_elem?-set_ne pool.buffers w n) ∙ p);
          },
          (λ j n. get_elem?-set_ne pool.buffers w n),
          (w, self, refl, refl),
        )
]
