-- ===== src/BlockCache/Reads.antt =====
-- `cache_get` moves an entry to the front of the list and changes nothing else.
use iitm.Prelude.{
  ℕ, ◌≡◌, refl, sym, ap, ◌∙◌, inl, inr, true, Bool-cases, Option, Option-cases, some, none, List,
  [], ◌∷◌, ◌==◌, Text, eqb_text, eqb_text→eq, arith,
}
use iitm.BlockCache.{
  Entry, Cache, Bytes, bucket, unlink, is_head, move_to_front, cache_get, find_entry,
}
use iitm.BlockCache.Entries.{
  of_key, head, total, Distinct, IsFresh, Contains, of_key-unlink, other_key, unlink_fresh,
  unlink-Distinct, unlink_self-IsFresh, total-unlink, head-Contains, unlink-IsFresh,
  Contains-IsFresh,
}
use iitm.BlockCache.Keys.{IsValid, view, view-head, bytes_of, find_entry-bucket}

-- a list from its first entry
head-unlink : (l : List Entry) (e : Entry) → head l ≡ some e → e ∷ unlink e.address l ≡ l
unfolding unlink
head-unlink [] e p = cc
head-unlink (x ∷ l) e p =
    let q : x ≡ e = cc in
    let a = ap (λ (y : Entry). y.address) q in
    let same : (x.address == e.address) ≡ true = ground arith in rw same (ap (λ y. y ∷ l) (sym q))

module _ (l : List Entry) (k : Text) (e : Entry) (d : Distinct l)
    (p : head (of_key k l) ≡ some e) where
  -- The first entry of a key goes to the front: no key has other entries, or in another order.
  of_key-front : (k' : Text) → of_key k' (e ∷ unlink e.address l) ≡ of_key k' l
  unfolding of_key
  of_key-front k' = elim (Bool-cases (eqb_text e.key k')) [
    | inl t ↦
        let own : k ≡ k' =
          sym (eqb_text→eq e.key k (head-Contains k l e p).1) ∙ eqb_text→eq e.key k' t in
        rw t (
          ap (λ m. e ∷ m) (of_key-unlink e.address k' l d)
          ∙ head-unlink (of_key k' l) e (ap (λ m. head (of_key m l)) (sym own) ∙ p))
    | inr t ↦ rw t (
        of_key-unlink e.address k' l d
        ∙ unlink_fresh e.address (of_key k' l) (other_key e k' l (head-Contains k l e p).0 d t))
  ]

pub move_to_front-IsValid :
    (c : Cache) (k : Text) (e : Entry)
    → IsValid c
    → head (of_key k c.lru) ≡ some e
    → IsValid (move_to_front c e)
      × ((k' : Text) → of_key k' (move_to_front c e).lru ≡ of_key k' c.lru)
unfolding move_to_front total
move_to_front-IsValid c k e v p = elim (Bool-cases (is_head e.address c.lru)) [
  | inl t ↦ rw t (v, λ k'. refl)
  | inr t ↦ rw t (
    record {
      buckets = v.buckets;
      table = v.table;
      same = λ i k'. rw (of_key-front c.lru k e v.distinct p k') (v.same i k');
      chains = v.chains;
      distinct = (
        unlink_self-IsFresh e.address c.lru v.distinct,
        unlink-Distinct e.address c.lru v.distinct,
      );
      size = omega (arith, v.size, total-unlink e c.lru (head-Contains k c.lru e p).0 v.distinct);
      bounded = v.bounded;
      no_wrap = v.no_wrap;
    },
    of_key-front c.lru k e v.distinct p,
  )
]

-- what `cache_get` does: it returns what the cache has for the key, and no key has anything else after
-- it, whether it was found or not
pub record Gets (c : Cache) (k : Text) (r : Option Bytes × Cache) : Type 0 where
  pub valid : IsValid r.1
  pub found : r.0 ≡ view c k
  pub kept : (k' : Text) → view r.1 k' ≡ view c k'
  pub limit : r.1.max_size ≡ c.max_size
  pub addresses : (a : ℕ) → IsFresh a c.lru → IsFresh a r.1.lru

limit-move_to_front : (c : Cache) (e : Entry) → (move_to_front c e).max_size ≡ c.max_size
unfolding move_to_front
limit-move_to_front c e = ground arith

move_to_front-IsFresh :
    (c : Cache) (e : Entry) (a : ℕ)
    → Contains e c.lru
    → IsFresh a c.lru
    → IsFresh a (move_to_front c e).lru
unfolding move_to_front
move_to_front-IsFresh c e a m f = elim (Bool-cases (is_head e.address c.lru)) [
  | inl t ↦ rw t f
  | inr t ↦ rw t (Contains-IsFresh a e c.lru m f, unlink-IsFresh a e.address c.lru f)
]

pub cache_get-Gets : (c : Cache) (k : Text) → IsValid c → Gets c k (cache_get c k)
unfolding cache_get view
cache_get-Gets c k v = elim (Option-cases (find_entry k (bucket c k))) [
  | inl p ↦
      let q : cache_get c k ≡ (none, c) = rw (cache_get, p) refl in
      rw q (record {
        valid = v;
        found = ap (λ r. r.0) (sym q);
        kept = λ k'. refl;
        limit = refl;
        addresses = λ a f. f;
      })
  | inr (e, p) ↦
      let q : cache_get c k ≡ (some e.bytes, move_to_front c e) = rw (cache_get, p) refl in
      let h : head (of_key k c.lru) ≡ some e = sym (find_entry-bucket c k v) ∙ p in
      let (w, keys) = move_to_front-IsValid c k e v h in
      rw q (record {
        valid = w;
        found = ap (λ r. r.0) (sym q);
        kept = λ k'.
            view-head (move_to_front c e) k' w
            ∙ ap (λ l. bytes_of (head l)) (keys k')
            ∙ sym (view-head c k' v);
        limit = limit-move_to_front c e;
        addresses = λ a f. move_to_front-IsFresh c e a (head-Contains k c.lru e h).0 f;
      })
]
