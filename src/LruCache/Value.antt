-- ===== src/LruCache/Value.antt =====
-- The list with another value in one of its nodes.
use iitm.Prelude.{
  ◌<◌, ◌≡◌, ◌≢◌, refl, sym, ◌∙◌, Option, some, List, [], ◌∷◌, ◌++◌, if◌then◌else◌, by_test,
}
use iitm.Prelude.Int.{ℤ, eqb_ℤ}
use iitm.SortedList.{All}
use iitm.LruCache.{Ptr, null, hash_size, LruCache, hash, store, update}
use iitm.LruCache.Links.{
  Heap, Cell, Seg, Distinct, Avoids-append, Avoids-split, node, head_or, last_or, head_or-append,
  last_or-append, Seg-update, Seg-append, Seg-split, Distinct-split, update_self, update_other,
}
use iitm.LruCache.Moves.{IsList}
use iitm.LruCache.Keys.{Indexes-change, address_of, DistinctKeys}
use iitm.LruCache.Spec.{IsStore, length-front}

-- the same cell with another value
abbrev pub with_value : Cell → ℤ → Cell
with_value c v = record c { value = v }

Seg-value :
    (h : Heap) (start : Ptr) (ys : List Cell) (c : Cell) (zs : List Cell) (stop : Ptr) (v : ℤ)
    → Distinct (ys ++ c ∷ zs)
    → Seg h start (ys ++ c ∷ zs) stop
    → Seg
        (update h c.at (some (node (with_value c v) (last_or ys start) (head_or zs stop))))
        start
        (ys ++ with_value c v ∷ zs)
        stop
Seg-value h start ys c zs stop v d s =
    let (d', d'', a) = Distinct-split ys (c ∷ zs) d in
    let (s', s'') = Seg-split h start ys (c ∷ zs) stop s in
    Seg-append _ start ys (with_value c v ∷ zs) stop (Seg-update h c.at _ start ys c.at a.0 s')
      (update_self h c.at _, Seg-update h c.at _ c.at zs stop d''.1 s''.1)

-- what does not look at the value
All-value :
    (P : Cell → Type 0) (ys : List Cell) (c : Cell) (zs : List Cell) (v : ℤ)
    → (P c → P (with_value c v))
    → All P (ys ++ c ∷ zs)
    → All P (ys ++ with_value c v ∷ zs)
All-value P [] c zs v f (a, b) = (f a, b)
All-value P (y ∷ ys) c zs v f (a, b) = (a, All-value P ys c zs v f b)

Distinct-value :
    (ys : List Cell) (c : Cell) (zs : List Cell) (v : ℤ)
    → Distinct (ys ++ c ∷ zs)
    → Distinct (ys ++ with_value c v ∷ zs)
Distinct-value [] c zs v d = d
Distinct-value (y ∷ ys) c zs v (n, a, d) =
    (n, All-value (λ x. x.at ≢ y.at) ys c zs v (λ q. q) a, Distinct-value ys c zs v d)

DistinctKeys-value :
    (ys : List Cell) (c : Cell) (zs : List Cell) (v : ℤ)
    → DistinctKeys (ys ++ c ∷ zs)
    → DistinctKeys (ys ++ with_value c v ∷ zs)
DistinctKeys-value [] c zs v d = d
DistinctKeys-value (y ∷ ys) c zs v (a, d) =
    (All-value (λ x. x.key ≢ y.key) ys c zs v (λ q. q) a, DistinctKeys-value ys c zs v d)

address_of-value :
    (ys : List Cell) (c : Cell) (zs : List Cell) (v : ℤ) (k : ℤ)
    → address_of (ys ++ c ∷ zs) k ≡ address_of (ys ++ with_value c v ∷ zs) k
unfolding address_of
address_of-value [] c zs v k = refl
address_of-value (y ∷ ys) c zs v k =
    by_test {A = Option Ptr}
      (λ r. (if eqb_ℤ y.key k then some y.at else address_of (ys ++ c ∷ zs) k) ≡ r) (eqb_ℤ y.key k)
      (λ t. rw t refl) (λ t. rw t (address_of-value ys c zs v k))

-- `node->value = value`
pub set_value-IsStore :
    (object : LruCache) (ys : List Cell) (c : Cell) (zs : List Cell) (v : ℤ)
    → IsStore object (ys ++ c ∷ zs)
    → IsStore
        (store object c.at (some (node (with_value c v) (last_or ys null) (head_or zs null))))
        (ys ++ with_value c v ∷ zs)
set_value-IsStore object ys c zs v s = record {
  list = record {
    distinct = Distinct-value ys c zs v s.list.distinct;
    linked = Seg-value object.heap null ys c zs null v s.list.distinct s.list.linked;
    head =
        s.list.head
        ∙ head_or-append ys (c ∷ zs) null
        ∙ sym (head_or-append ys (with_value c v ∷ zs) null);
    tail =
        s.list.tail
        ∙ last_or-append ys (c ∷ zs) null
        ∙ sym (last_or-append ys (with_value c v ∷ zs) null);
  };
  keys = DistinctKeys-value ys c zs v s.keys;
  fits = All-value (λ x. hash x.key < hash_size) ys c zs v (λ q. q) s.fits;
  index =
      Indexes-change object.hash_table (address_of (ys ++ c ∷ zs))
        (address_of (ys ++ with_value c v ∷ zs)) s.index (address_of-value ys c zs v);
  size = s.size ∙ length-front ys c zs ∙ sym (length-front ys (with_value c v) zs);
  only = λ p a.
      let (b, b') = Avoids-split p ys (with_value c v ∷ zs) a in
      update_other object.heap c.at p _ (λ q. b'.0 (sym q))
      ∙ s.only p (Avoids-append p ys (c ∷ zs) b b');
}

pub holds-cell :
    (object : LruCache) (ys : List Cell) (c : Cell) (zs : List Cell)
    → IsList object (ys ++ c ∷ zs)
    → (c.at ≢ null) × (object.heap c.at ≡ some (node c (last_or ys null) (head_or zs null)))
holds-cell object ys c zs l = (
  (Distinct-split ys (c ∷ zs) l.distinct).1.0,
  (Seg-split object.heap null ys (c ∷ zs) null l.linked).1.0,
)
