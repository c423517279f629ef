-- ===== src/LruCache/Evict.antt =====
-- The end of `put`: the last node goes if there are too many.
use mathlib.Core.List.{append-nil}
use iitm.Prelude.{
  ℕ, zero, suc, ◌-◌, ◌≤◌, ◌<◌, ◌≡◌, ◌≢◌, refl, sym, ◌∙◌, ap, subst, Bool-cases, inl, inr, Option,
  some, none, List, [], ◌∷◌, ◌++◌, ltb, lt→ltb, ◌==◌, if◌then◌else◌, ◌>>=◌, by_test, arith, length,
  length-append, take, Returns, Returns-bind, Returns-mono,
}
use iitm.Prelude.Int.{ℤ, eqb_ℤ, eqb→eq_ℤ}
use iitm.LruCache.{
  Ptr, null, hash_size, LruCache, hash, load, store, update, chain, remove_entry, hash_remove,
  remove_node, remove_tail, evict,
}
use iitm.LruCache.Links.{
  Cell, Avoids, Avoids-append, Avoids-split, load-holds, last_or-append, Seg-update, Distinct-split,
  Distinct-append, update_self, update_other,
}
use iitm.LruCache.Moves.{IsList, Unlinked, remove_node-Unlinked}
use iitm.LruCache.Keys.{
  Indexes, Indexes-change, address_of, AvoidsKey, DistinctKeys, eqb-false, address_of-front,
  remove_entry-Indexes,
}
use iitm.LruCache.Spec.{
  Contents, contents, IsStore, IsCache, All-append, All-split, DistinctKeys-drop, length-front,
}

address_of-avoids : (xs : List Cell) (k : ℤ) → AvoidsKey k xs → address_of xs k ≡ none
unfolding address_of
address_of-avoids [] k a = refl
address_of-avoids (c ∷ xs) k (n, a) = rw (eqb-false c.key k n) (address_of-avoids xs k a)

address_of-drop :
    (ys : List Cell) (c : Cell) (zs : List Cell) (k : ℤ)
    → DistinctKeys (ys ++ c ∷ zs)
    → (if eqb_ℤ c.key k then none else address_of (ys ++ c ∷ zs) k) ≡ address_of (ys ++ zs) k
unfolding address_of
address_of-drop ys c zs k d =
    let (a, d') = DistinctKeys-drop ys c zs d in
    let b = (All-split (λ x. x.key ≢ c.key) ys zs a).0 in
    elim (Bool-cases (eqb_ℤ c.key k)) [
      | inl t ↦ rw t (
          sym (
            address_of-avoids (ys ++ zs) k
              (subst (λ x. AvoidsKey x (ys ++ zs)) (eqb→eq_ℤ c.key k t) a)))
      | inr f ↦ rw f (address_of-front ys c zs k b ∙ rw f refl)
    ]

-- what `evict` leaves
record Evicts (object : LruCache) (ys : List Cell) (object' : LruCache) : Type 0 where
  store_kept : IsStore object' ys
  capacity_kept : object'.capacity ≡ object.capacity

remove_tail-Unlinked :
    (object : LruCache) (ys : List Cell) (c : Cell)
    → IsList object (ys ++ c ∷ [])
    → Returns {A = LruCache × Ptr}
        (λ r. Unlinked object ys c [] r.0 × (r.1 ≡ c.at))
        (remove_tail object)
unfolding remove_tail
remove_tail-Unlinked object ys c l =
    subst
      (λ p.
        Returns {A = LruCache × Ptr} (λ r. Unlinked object ys c [] r.0 × (r.1 ≡ c.at))
          (remove_node object p >>= λ o. some (o, p)))
      (sym (l.tail ∙ last_or-append ys (c ∷ []) null))
      (Returns-bind (Unlinked object ys c []) _ (remove_node object c.at) _
        (remove_node-Unlinked object ys c [] l) (λ o u. (u, refl)))

-- the state after `hashRemove`, `free` and the new size
dropped-Evicts :
    (object : LruCache) (ys : List Cell) (c : Cell) (o : LruCache)
    → IsStore object (ys ++ c ∷ [])
    → Unlinked object ys c [] o
    → Evicts object (ys ++ []) (record o {
      hash_table =
          update o.hash_table (hash c.key) (remove_entry (o.hash_table (hash c.key)) c.key);
      heap = update o.heap c.at none;
      size = o.size - 1;
    })
dropped-Evicts object ys c o s u =
    let (d, d', a) = Distinct-split ys (c ∷ []) s.list.distinct in
    let (f, f') = All-split (λ x. hash x.key < hash_size) ys (c ∷ []) s.fits in
    let index : Indexes o.hash_table (address_of (ys ++ c ∷ [])) = rw u.kept.hash_table s.index in
    record {
      store_kept = record {
        list = record {
          distinct = Distinct-append ys [] d tt tt;
          linked =
              Seg-update o.heap c.at none null (ys ++ []) null (Avoids-append c.at ys [] a.0 tt)
                u.linked;
          head = u.head;
          tail = u.tail;
        };
        keys = (DistinctKeys-drop ys c [] s.keys).1;
        fits = All-append (λ x. hash x.key < hash_size) ys [] f tt;
        index =
            Indexes-change _ (λ k. if eqb_ℤ c.key k then none else address_of (ys ++ c ∷ []) k)
              (address_of (ys ++ []))
              (remove_entry-Indexes o.hash_table (address_of (ys ++ c ∷ [])) c.key index)
              (λ k. address_of-drop ys c [] k s.keys);
        size = omega (arith, u.kept.size, s.size, length-front ys c []);
        only = only;
      };
      capacity_kept = u.kept.capacity;
    }
  where
    outside : (p : Ptr) → c.at ≢ p → Avoids p (ys ++ []) → object.heap p ≡ none
    outside p ne v = s.only p (Avoids-append p ys (c ∷ []) (Avoids-split p ys [] v).0 (ne, tt))

    only : (p : Ptr) → Avoids p (ys ++ []) → update o.heap c.at none p ≡ none
    only p v = elim (Bool-cases (c.at == p)) [
      | inl t ↦
          let q : c.at ≡ p = ground arith in
          sym (ap (update o.heap c.at none) q) ∙ update_self o.heap c.at none
      | inr f ↦
          let ne : c.at ≢ p = ground arith in
          update_other o.heap c.at p none (λ q. ne (sym q))
          ∙ u.outside p (Avoids-append p ys (c ∷ []) (Avoids-split p ys [] v).0 (ne, tt))
          ∙ outside p ne v
    ]

evict-Evicts :
    (object : LruCache) (ys : List Cell) (c : Cell)
    → IsStore object (ys ++ c ∷ [])
    → Returns (Evicts object (ys ++ [])) (evict object)
unfolding evict hash_remove chain
evict-Evicts object ys c s =
    Returns-bind {A = LruCache × Ptr} (λ r. Unlinked object ys c [] r.0 × (r.1 ≡ c.at))
      (Evicts object (ys ++ [])) (remove_tail object) _ (remove_tail-Unlinked object ys c s.list)
      (λ r u. next r.0 r.1 u.0 u.1)
  where
    next :
        (o : LruCache) (p : Ptr)
        → Unlinked object ys c [] o
        → p ≡ c.at
        → Returns (Evicts object (ys ++ [])) (
            load o p >>= λ n.
            hash_remove o n.key >>= λ o. some (record (store o p none) { size = o.size - 1 }))
    next o p u e =
        let ne = (Distinct-split ys (c ∷ []) s.list.distinct).1.0 in
        let f = (All-split (λ x. hash x.key < hash_size) ys (c ∷ []) s.fits).1.0 in
        rw (e, load-holds o c.at ne u.here, lt→ltb (hash c.key) hash_size f)
          (dropped-Evicts object ys c o s u)

-- the list by its last cell
record Ends (xs : List Cell) : Type 0 where
  front : List Cell
  last : Cell
  whole : xs ≡ front ++ last ∷ []

ends : (c : Cell) (xs : List Cell) → Ends (c ∷ xs)
ends c [] = record { front = []; last = c; whole = refl }
ends c (x ∷ xs) =
    let e = ends x xs in
    record { front = c ∷ e.front; last = e.last; whole = ap (λ l. c ∷ l) e.whole }

take-contents :
    (n : ℕ) (ys zs : List Cell) → length ys ≡ n → take n (contents (ys ++ zs)) ≡ contents ys
take-contents zero [] zs e = refl
take-contents zero (y ∷ ys) zs e = absurd (omega arith)
take-contents (suc n) [] zs e = absurd (omega arith)
take-contents (suc n) (y ∷ ys) zs e =
    ap (λ l. (y.key, y.value) ∷ l) (take-contents n ys zs (omega arith))

take_all : (n : ℕ) (l : Contents) → length l ≤ n → take n l ≡ l
take_all zero [] e = refl
take_all zero (x ∷ l) e = absurd (omega arith)
take_all (suc n) [] e = refl
take_all (suc n) (x ∷ l) e = ap (λ m. x ∷ m) (take_all n l (omega arith))

length-contents : (xs : List Cell) → length (contents xs) ≡ length xs
length-contents [] = refl
length-contents (c ∷ xs) = ap suc (length-contents xs)

abbrev pub trim : LruCache → Option LruCache
trim grown = if ltb grown.capacity grown.size then evict grown else some grown

-- what the end of `put` keeps of the cells of the object with the new node
pub record Trims (capacity : ℕ) (xs : List Cell) (object : LruCache) : Type 0 where
  pub cells : List Cell
  pub valid : IsCache object cells
  pub capacity_kept : object.capacity ≡ capacity
  pub held : contents cells ≡ take capacity (contents xs)

pub trim-Trims :
    (object : LruCache) (c : Cell) (xs : List Cell)
    → IsStore object (c ∷ xs)
    → length xs ≤ object.capacity
    → Returns (Trims object.capacity (c ∷ xs)) (trim object)
trim-Trims object c xs s b =
    by_test (Returns (Trims object.capacity (c ∷ xs))) (ltb object.capacity object.size)
      (λ t. let e = ends c xs in full e.front e.last e.whole (ground arith))
      (λ f. record {
        cells = c ∷ xs;
        valid = record { store = s; bounded = ground (arith, s.size) };
        capacity_kept = refl;
        held = sym (
            take_all object.capacity (contents (c ∷ xs))
              (ground (arith, s.size, length-contents xs)));
      })
  where
    full :
        (ys : List Cell) (d : Cell)
        → c ∷ xs ≡ ys ++ d ∷ []
        → object.capacity < object.size
        → Returns (Trims object.capacity (c ∷ xs)) (evict object)
    full ys d w more =
        let n : length ys ≡ object.capacity =
          omega (arith, s.size, ap length w, length-append ys (d ∷ [])) in
        Returns-mono (Evicts object (ys ++ [])) (Trims object.capacity (c ∷ xs)) (evict object)
          (evict-Evicts object ys d (subst (IsStore object) w s))
          (λ o r. record {
            cells = ys ++ [];
            valid = record {
              store = r.store_kept;
              bounded = omega (arith, r.capacity_kept, length-append ys []);
            };
            capacity_kept = r.capacity_kept;
            held =
                ap contents (append-nil ys)
                ∙ sym (
                    ap (λ l. take object.capacity (contents l)) w
                    ∙ take-contents object.capacity ys (d ∷ []) n);
          })
