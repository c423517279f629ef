-- ===== src/LruCache/Get.antt =====
-- `get` against the specification.
use iitm.Prelude.{
  subst, ℕ, ◌<◌, ◌≡◌, ◌≢◌, refl, sym, ◌∙◌, ap, Option, some, none, List, ◌∷◌, ◌++◌, ◌>>=◌, arith,
  Returns, Returns-bind,
}
use iitm.Prelude.Int.{ℤ, negsuc}
use iitm.LruCache.{Ptr, hash_size, LruCache, hash, load, move_to_head, get}
use iitm.LruCache.Links.{Cell, load-holds}
use iitm.LruCache.Moves.{Fronted, move_to_head-Fronted}
use iitm.LruCache.Keys.{address_of, address_of-Splits}
use iitm.LruCache.Spec.{
  Contents, value_of, without, get_from, contents, IsCache, hash_get-address_of, All-split,
  DistinctKeys-drop, value_of-none, value_of-cell, without-cell, length-front, Fronted-IsStore,
}

-- what a state and a result are to be: those of the specification
pub record Gets (capacity : ℕ) (l : Contents) (key : ℤ) (r : LruCache × ℤ) : Type 0 where
  pub cells : List Cell
  pub valid : IsCache r.0 cells
  pub capacity_kept : r.0.capacity ≡ capacity
  pub held : contents cells ≡ (get_from l key).0
  pub value : r.1 ≡ (get_from l key).1

get_from-none : (l : Contents) (key : ℤ) → value_of l key ≡ none → get_from l key ≡ (l, negsuc 0)
unfolding get_from
get_from-none l key e = rw (get_from, e) refl

get_from-some :
    (l : Contents) (key : ℤ) {v : ℤ}
    → value_of l key ≡ some v
    → get_from l key ≡ ((key, v) ∷ without l key, v)
unfolding get_from
get_from-some l key e = rw (get_from, e) refl

abbrev read_value : LruCache → Ptr → Option (LruCache × ℤ)
read_value object q = load object q >>= λ n. some (object, n.value)

hit :
    (object : LruCache) (ys : List Cell) (c : Cell) (zs : List Cell)
    → IsCache object (ys ++ c ∷ zs)
    → Returns
        (Gets object.capacity (contents (ys ++ c ∷ zs)) c.key)
        (move_to_head object c.at >>= λ o. read_value o c.at)
hit object ys c zs v =
    let a = (All-split (λ x. x.key ≢ c.key) ys zs (DistinctKeys-drop ys c zs v.store.keys).0).0 in
    let e = get_from-some (contents (ys ++ c ∷ zs)) c.key (value_of-cell ys c zs a) in
    Returns-bind (Fronted object c (ys ++ zs))
      (Gets object.capacity (contents (ys ++ c ∷ zs)) c.key) (move_to_head object c.at) _
      (move_to_head-Fronted object ys c zs v.store.list)
      (λ o r. rw (load-holds o c.at r.list.distinct.0 r.list.linked.0) (record {
        cells = c ∷ (ys ++ zs);
        valid = record {
          store = Fronted-IsStore object ys c zs o v.store r;
          bounded = omega (arith, r.kept.capacity, v.bounded, length-front ys c zs);
        };
        capacity_kept = r.kept.capacity;
        held =
            ap (λ l. (c.key, c.value) ∷ l) (sym (without-cell ys c zs a)) ∙ sym (ap (λ x. x.0) e);
        value = sym (ap (λ x. x.1) e);
      }))

-- For a key whose chain is in the table, `get` does not fault, and does what `get_from` does to the
-- keys and values.
pub get-Gets :
    (object : LruCache) (xs : List Cell) (key : ℤ)
    → IsCache object xs
    → hash key < hash_size
    → Returns (Gets object.capacity (contents xs) key) (get object key)
unfolding get
get-Gets object xs key v p = go (address_of xs key) refl
  where
    found :
        (q : Ptr) (ys : List Cell) (c : Cell) (zs : List Cell)
        → xs ≡ ys ++ c ∷ zs
        → c.at ≡ q
        → c.key ≡ key
        → Returns
            (Gets object.capacity (contents xs) key)
            (move_to_head object q >>= λ o. read_value o q)
    found q ys c zs w a k = rw (w, sym a, sym k) (hit object ys c zs (subst (IsCache object) w v))

    go :
        (o : Option Ptr)
        → address_of xs key ≡ o
        → Returns (Gets object.capacity (contents xs) key) (get object key)
    go none e =
        let f = get_from-none (contents xs) key (value_of-none xs key e) in
        rw (get, hash_get-address_of object xs key v.store p, e)
          (record {
            cells = xs;
            valid = v;
            capacity_kept = refl;
            held = sym (ap (λ x. x.0) f);
            value = sym (ap (λ x. x.1) f);
          })
    go (some q) e =
        let s = address_of-Splits xs key {p = q} e in
        rw (get, hash_get-address_of object xs key v.store p, e)
          (found q s.before s.cell s.behind s.whole s.at s.key_of)
