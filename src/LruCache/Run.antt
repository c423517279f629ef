-- ===== src/LruCache/Run.antt =====
-- A session with the cache, from `lRUCacheCreate` to `lRUCacheFree`.
use iitm.Prelude.{
  subst, ℕ, zero, suc, ◌+◌, ◌<◌, ◌≡◌, ◌≢◌, refl, sym, ◌∙◌, ap, false, Bool-cases, inl, inr, Option,
  some, none, List, [], ◌∷◌, ◌==◌, ◌>>=◌, arith, length, Returns, Returns-bind, Returns-mono,
  Returns-Yields, Yields,
}
use iitm.Prelude.Int.{ℤ}
use iitm.LruCache.{
  Ptr, null, hash_size, LruCache, hash, store, update, create, hash_get_entry, get, put, free_nodes,
  free,
}
use iitm.LruCache.Links.{
  Cell, Seg, Avoids, Distinct, load-holds, Seg-update, update_self, update_other, head_or,
}
use iitm.LruCache.Keys.{count, address_of}
use iitm.LruCache.Spec.{Contents, contents, get_from, put_into, IsCache}
use iitm.LruCache.Get.{Gets, get-Gets}
use iitm.LruCache.Put.{Puts, put-Puts}

-- a call, with the address that `malloc` returns if it is called
pub data Call : Type 0 where
  look_up : (key : ℤ) → Call
  insert : (key value : ℤ) → (fresh : Ptr) → Call

-- the calls in order, with what the calls of `get` return
unfoldable pub run : LruCache → List Call → Option (LruCache × List ℤ)
run object [] = some (object, [])
run object (look_up key ∷ calls) = do
  (object, value) ← get object key
  (object, values) ← run object calls
  some (object, value ∷ values)
run object (insert key value fresh ∷ calls) = do
  object ← put object key value fresh
  run object calls

-- the same on keys and values
unfoldable pub run_on : ℕ → Contents → List Call → List ℤ
run_on capacity l [] = []
run_on capacity l (look_up key ∷ calls) =
    (get_from l key).1 ∷ run_on capacity (get_from l key).0 calls
run_on capacity l (insert key value fresh ∷ calls) =
    run_on capacity (put_into capacity l key value) calls

-- keys whose chain is in the table, and addresses that are not NULL and not allocated when `malloc`
-- returns them
abbrev pub Allowed : LruCache → List Call → Type 0
Allowed object [] = Unit
Allowed object (look_up key ∷ calls) =
    (hash key < hash_size) × Yields (λ r. Allowed r.0 calls) (get object key)
Allowed object (insert key value fresh ∷ calls) =
    (hash key < hash_size)
    × (fresh ≢ null)
    × (object.heap fresh ≡ none)
    × Yields (λ object. Allowed object calls) (put object key value fresh)

-- how a session ends: the object is a cache, and the values are those of `run_on`
pub record Ends (capacity : ℕ) (l : Contents) (calls : List Call) (r : LruCache × List ℤ)
    : Type 0 where
  pub cells : List Cell
  pub valid : IsCache r.0 cells
  pub values : r.1 ≡ run_on capacity l calls

run-Ends :
    (object : LruCache) (xs : List Cell) (calls : List Call)
    → IsCache object xs
    → Allowed object calls
    → Returns (Ends object.capacity (contents xs) calls) (run object calls)
unfolding run run_on
run-Ends object xs [] v a = record { cells = xs; valid = v; values = refl }
run-Ends object xs (look_up key ∷ calls) v (p, a) =
    Returns-bind {A = LruCache × ℤ}
      (λ r. Gets object.capacity (contents xs) key r × Allowed r.0 calls)
      (Ends object.capacity (contents xs) (look_up key ∷ calls)) (get object key) _
      (Returns-Yields (Gets object.capacity (contents xs) key) (λ r. Allowed r.0 calls)
        (get object key) (get-Gets object xs key v p) a)
      (λ r g.
        Returns-bind (Ends r.0.capacity (contents g.0.cells) calls)
          (Ends object.capacity (contents xs) (look_up key ∷ calls)) (run r.0 calls) _
          (run-Ends r.0 g.0.cells calls g.0.valid g.1)
          (λ r' e. record {
            cells = e.cells;
            valid = e.valid;
            values =
                ap (λ x. x ∷ r'.1) g.0.value
                ∙ ap (λ t. (get_from (contents xs) key).1 ∷ t)
                    (e.values
                      ∙ ap (λ n. run_on n (contents g.0.cells) calls) g.0.capacity_kept
                      ∙ ap (λ l. run_on object.capacity l calls) g.0.held);
          }))
run-Ends object xs (insert key value fresh ∷ calls) v (p, q, u, a) =
    Returns-bind (λ o. Puts object.capacity (contents xs) key value o × Allowed o calls)
      (Ends object.capacity (contents xs) (insert key value fresh ∷ calls))
      (put object key value fresh) _
      (Returns-Yields (Puts object.capacity (contents xs) key value) (λ o. Allowed o calls)
        (put object key value fresh) (put-Puts object xs key value fresh v p q u) a)
      (λ o g.
        Returns-mono (Ends o.capacity (contents g.0.cells) calls)
          (Ends object.capacity (contents xs) (insert key value fresh ∷ calls)) (run o calls)
          (run-Ends o g.0.cells calls g.0.valid g.1)
          (λ r e. record {
            cells = e.cells;
            valid = e.valid;
            values =
                e.values
                ∙ ap (λ n. run_on n (contents g.0.cells) calls) g.0.capacity_kept
                ∙ ap (λ l. run_on object.capacity l calls) g.0.held;
          }))

pub create-IsCache : (capacity : ℕ) → IsCache (create capacity) []
unfolding create count address_of hash_get_entry
create-IsCache capacity = record {
  store = record {
    list = record { distinct = tt; linked = tt; head = refl; tail = refl };
    keys = tt;
    fits = tt;
    index = record { found = λ k p. refl; once = λ i k. omega arith };
    size = refl;
    only = λ p a. refl;
  };
  bounded = omega arith;
}

free_nodes-frees :
    (fuel : ℕ) (object : LruCache) (start : Ptr) (xs : List Cell)
    → length xs < fuel
    → Seg object.heap start xs null
    → Distinct xs
    → ((p : Ptr) → Avoids p xs → object.heap p ≡ none)
    → Returns (λ o. (p : Ptr) → o.heap p ≡ none) (free_nodes fuel object (head_or xs null))
unfolding free_nodes
free_nodes-frees zero object start xs f s d only = absurd (omega arith)
free_nodes-frees (suc fuel) object start [] f s d only = λ p. only p tt
free_nodes-frees (suc fuel) object start (c ∷ xs) f (e, s) (n, a, d) only =
    let test : (c.at == null) ≡ false = ground arith in
    rw (test, load-holds object c.at n e)
      (free_nodes-frees fuel (store object c.at none) c.at xs (omega arith)
        (Seg-update object.heap c.at none c.at xs null a s) d rest)
  where
    rest : (p : Ptr) → Avoids p xs → update object.heap c.at none p ≡ none
    rest p b = elim (Bool-cases (c.at == p)) [
      | inl t ↦
          let q : c.at ≡ p = ground arith in
          sym (ap (update object.heap c.at none) q) ∙ update_self object.heap c.at none
      | inr t ↦
          let ne : c.at ≢ p = ground arith in
          update_other object.heap c.at p none (λ q. ne (sym q)) ∙ only p (ne, b)
    ]

-- `lRUCacheFree` of a cache ends within the fuel, frees no node twice, and leaves none allocated.
pub free-frees :
    (object : LruCache) (xs : List Cell)
    → IsCache object xs
    → Returns (λ o. (p : Ptr) → o.heap p ≡ none) (free object)
unfolding free
free-frees object xs v =
    let n : length xs < object.size + 1 = omega (arith, v.store.size) in
    Returns-bind (λ o. (p : Ptr) → o.heap p ≡ none) (λ o. (p : Ptr) → o.heap p ≡ none)
      (free_nodes (object.size + 1) object object.head) _
      (subst
        (λ p. Returns (λ o. (p : Ptr) → o.heap p ≡ none) (free_nodes (object.size + 1) object p))
        (sym v.store.list.head)
        (free_nodes-frees (object.size + 1) object null xs n v.store.list.linked
          v.store.list.distinct v.store.only))
      (λ o e. e)

-- From a new cache, allowed calls do not fault: `get` returns the values of a list that keeps, latest
-- use first, as many keys as the capacity allows, and the object stays a cache.
pub run-create :
    (capacity : ℕ) (calls : List Call)
    → Allowed (create capacity) calls
    → Returns (Ends capacity [] calls) (run (create capacity) calls)
unfolding create
run-create capacity calls a = run-Ends (create capacity) [] calls (create-IsCache capacity) a
