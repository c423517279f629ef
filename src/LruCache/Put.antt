-- ===== src/LruCache/Put.antt =====
-- `put`: a new value, or a new node.
use iitm.Prelude.{
  ℕ, ◌+◌, ◌<◌, ◌≡◌, ◌≢◌, refl, sym, ◌∙◌, ap, subst, Bool-cases, inl, inr, Option, some, none, List,
  [], ◌∷◌, ◌++◌, lt→ltb, ◌>>=◌, none-some, arith, take, Returns, Returns-bind, Returns-mono,
}
use iitm.Prelude.Int.{ℤ, eqb_ℤ, eqb_refl_ℤ}
use iitm.LruCache.{
  Ptr, null, hash_size, LruCache, hash, store, update, modify, create_node, chain, put_entry,
  hash_put, add_to_head, move_to_head, put,
}
use iitm.LruCache.Links.{
  Heap, Cell, Seg, Avoids, modify-holds, node, head_or, last_or, Seg-update, update_self,
  update_other,
}
use iitm.LruCache.Moves.{IsList, Fronted, move_to_head-Fronted, add_to_head-Fronted}
use iitm.LruCache.Keys.{Indexes, address_of, AvoidsKey, address_of-Splits, put_entry-Indexes}
use iitm.LruCache.Spec.{
  Contents, value_of, without, put_into, contents, IsStore, IsCache, hash_get-address_of, All-split,
  DistinctKeys-drop, value_of-none, value_of-cell, without-cell, length-front, Fronted-IsStore,
}
use iitm.LruCache.Value.{with_value, set_value-IsStore, holds-cell}
use iitm.LruCache.Evict.{trim, Trims, trim-Trims}

-- what a state is to be after `put`
pub record Puts (capacity : ℕ) (l : Contents) (key value : ℤ) (object : LruCache) : Type 0 where
  pub cells : List Cell
  pub valid : IsCache object cells
  pub capacity_kept : object.capacity ≡ capacity
  pub held : contents cells ≡ put_into capacity l key value

put_into-some :
    (capacity : ℕ) (l : Contents) (key v : ℤ) {w : ℤ}
    → value_of l key ≡ some w
    → put_into capacity l key v ≡ (key, v) ∷ without l key
unfolding put_into
put_into-some capacity l key v e = rw (put_into, e) refl

put_into-none :
    (capacity : ℕ) (l : Contents) (key v : ℤ)
    → value_of l key ≡ none
    → put_into capacity l key v ≡ take capacity ((key, v) ∷ l)
unfolding put_into
put_into-none capacity l key v e = rw (put_into, e) refl

put-hit :
    (object : LruCache) (ys : List Cell) (c : Cell) (zs : List Cell) (v : ℤ)
    → IsCache object (ys ++ c ∷ zs)
    → Returns
        (Puts object.capacity (contents (ys ++ c ∷ zs)) c.key v)
        (modify object c.at (λ n. record n { value = v }) >>= λ o. move_to_head o c.at)
put-hit object ys c zs v valid =
    let a =
      (All-split (λ x. x.key ≢ c.key) ys zs (DistinctKeys-drop ys c zs valid.store.keys).0).0 in
    let e =
      put_into-some object.capacity (contents (ys ++ c ∷ zs)) c.key v (value_of-cell ys c zs a) in
    let (ne, h) = holds-cell object ys c zs valid.store.list in
    let s = set_value-IsStore object ys c zs v valid.store in
    let o = store object c.at (some (node (with_value c v) (last_or ys null) (head_or zs null))) in
    rw (modify-holds object c.at (λ n. record n { value = v }) ne h) (
      Returns-mono (Fronted o (with_value c v) (ys ++ zs))
        (Puts object.capacity (contents (ys ++ c ∷ zs)) c.key v) (move_to_head o c.at)
        (move_to_head-Fronted o ys (with_value c v) zs s.list)
        (λ o' r. record {
          cells = with_value c v ∷ (ys ++ zs);
          valid = record {
            store = Fronted-IsStore o ys (with_value c v) zs o' s r;
            bounded = omega (arith, r.kept.capacity, valid.bounded, length-front ys c zs);
          };
          capacity_kept = r.kept.capacity;
          held = ap (λ l. (c.key, v) ∷ l) (sym (without-cell ys c zs a)) ∙ sym e;
        }))

-- an address that holds nothing is that of no cell
Avoids-none :
    (h : Heap) (start : Ptr) (xs : List Cell) (stop p : Ptr)
    → Seg h start xs stop
    → h p ≡ none
    → Avoids p xs
Avoids-none h start [] stop p s e = tt
Avoids-none h start (c ∷ xs) stop p (f, s) e =
    (λ q. none-some (sym e ∙ ap h (sym q) ∙ f), Avoids-none h c.at xs stop p s e)

avoids_key : (xs : List Cell) (key : ℤ) → address_of xs key ≡ none → AvoidsKey key xs
unfolding address_of
avoids_key [] key e = tt
avoids_key (c ∷ xs) key e = elim (Bool-cases (eqb_ℤ c.key key)) [
  | inl t ↦ absurd (none-some {a = c.at} (sym e ∙ rw t refl))
  | inr f ↦ (
    λ q. cc (sym f ∙ ap (λ x. eqb_ℤ x key) q ∙ eqb_refl_ℤ key),
    avoids_key xs key (sym (rw f refl) ∙ e),
  )
]

-- `hashPut` and the new size, after `addToHead`
grown-IsStore :
    (object o : LruCache) (c : Cell) (xs : List Cell)
    → IsStore object xs
    → hash c.key < hash_size
    → address_of xs c.key ≡ none
    → Fronted (store object c.at (some (node c null null))) c xs o
    → IsStore
        (record o {
          hash_table =
              update o.hash_table (hash c.key) (put_entry (o.hash_table (hash c.key)) c.key c.at);
          size = o.size + 1;
        })
        (c ∷ xs)
unfolding address_of
grown-IsStore object o c xs s p e r =
    let index : Indexes o.hash_table (address_of xs) = rw r.kept.hash_table s.index in
    record {
      list = record {
        distinct = r.list.distinct;
        linked = r.list.linked;
        head = r.list.head;
        tail = r.list.tail;
      };
      keys = (avoids_key xs c.key e, s.keys);
      fits = (p, s.fits);
      index =
          put_entry-Indexes o.hash_table (address_of xs) c.key c.at index (index.found c.key p ∙ e);
      size = omega (arith, r.kept.size, s.size);
      only = λ q v.
          r.outside q v
          ∙ update_other object.heap c.at q (some (node c null null)) (λ x. v.0 (sym x))
          ∙ s.only q v.1;
    }

hash_put-fits :
    (object : LruCache) (key : ℤ) (p : Ptr)
    → hash key < hash_size
    → hash_put object key p
      ≡ some (record object {
        hash_table =
            update object.hash_table (hash key) (put_entry (object.hash_table (hash key)) key p);
      })
unfolding hash_put chain
hash_put-fits object key p h = rw (lt→ltb (hash key) hash_size h) refl

-- For a key whose chain is in the table, and an address that is not NULL and not allocated, `put` does
-- not fault, and does what `put_into` does to the keys and values.
pub put-Puts :
    (object : LruCache) (xs : List Cell) (key value : ℤ) (fresh : Ptr)
    → IsCache object xs
    → hash key < hash_size
    → fresh ≢ null
    → object.heap fresh ≡ none
    → Returns (Puts object.capacity (contents xs) key value) (put object key value fresh)
unfolding put
put-Puts object xs key value fresh v p ne unused = go (address_of xs key) refl
  where
    found :
        (q : Ptr) (ys : List Cell) (c : Cell) (zs : List Cell)
        → xs ≡ ys ++ c ∷ zs
        → c.at ≡ q
        → c.key ≡ key
        → Returns
            (Puts object.capacity (contents xs) key value)
            (modify object q (λ n. record n { value = value }) >>= λ o. move_to_head o q)
    found q ys c zs w a k =
        rw (w, sym a, sym k) (put-hit object ys c zs value (subst (IsCache object) w v))

    new : Cell
    new = record { at = fresh; key = key; value = value }

    o : LruCache
    o = store object fresh (some (create_node key value))

    avoids : Avoids fresh xs
    avoids = Avoids-none object.heap null xs null fresh v.store.list.linked unused

    list : IsList o xs
    list = record {
      distinct = v.store.list.distinct;
      linked = Seg-update object.heap fresh _ null xs null avoids v.store.list.linked;
      head = v.store.list.head;
      tail = v.store.list.tail;
    }

    grown : LruCache → LruCache
    grown o' = record o' {
      hash_table = update o'.hash_table (hash key) (put_entry (o'.hash_table (hash key)) key fresh);
      size = o'.size + 1;
    }

    added :
        address_of xs key ≡ none
        → Returns (Puts object.capacity (contents xs) key value) (
            add_to_head o fresh >>= λ o'.
            hash_put o' key fresh >>= λ o''. trim (record o'' { size = o''.size + 1 }))
    added e =
        Returns-bind (Fronted o new xs) (Puts object.capacity (contents xs) key value)
          (add_to_head o fresh) _
          (add_to_head-Fronted o new xs null null list (ne, avoids, v.store.list.distinct)
            (update_self object.heap fresh _))
          (λ o' r.
            let g = grown o' in
            rw (hash_put-fits o' key fresh p) (
              Returns-mono (Trims g.capacity (new ∷ xs))
                (Puts object.capacity (contents xs) key value) (trim g)
                (trim-Trims g new xs (grown-IsStore object o' new xs v.store p e r)
                  (omega (arith, r.kept.capacity, v.bounded)))
                (λ o'' t. record {
                  cells = t.cells;
                  valid = t.valid;
                  capacity_kept = t.capacity_kept ∙ r.kept.capacity;
                  held =
                      t.held
                      ∙ ap (λ n. take n (contents (new ∷ xs))) r.kept.capacity
                      ∙ sym (
                          put_into-none object.capacity (contents xs) key value
                            (value_of-none xs key e));
                })))

    go :
        (r : Option Ptr)
        → address_of xs key ≡ r
        → Returns (Puts object.capacity (contents xs) key value) (put object key value fresh)
    go none e = rw (put, hash_get-address_of object xs key v.store p, e) (added e)
    go (some q) e =
        let s = address_of-Splits xs key {p = q} e in
        rw (put, hash_get-address_of object xs key v.store p, e)
          (found q s.before s.cell s.behind s.whole s.at s.key_of)
