-- ===== src/BlockCache/Put.antt =====
-- `cache_put` makes room and adds an entry, or goes on for ever.
use iitm.Prelude.{
  ℕ, zero, suc, ◌+◌, ◌%◌, ◌^◌, ◌≤◌, ◌<◌, ◌≡◌, refl, sym, ap, ◌∙◌, ◌⊎◌, inl, inr, Bool, true, false,
  Bool-cases, Option-cases, some, none, List, [], ◌∷◌, ◌==◌, if◌then◌else◌, length, length-set,
  get_or, get_or-set, take, Text, eqb_text, eqb_text→eq, eqb_text_refl, ◌≢◌, arith, ltb, lt→ltb,
  Returns, Returns-bind, Returns-mono,
}
use iitm.BlockCache.{
  Entry, Cache, Bytes, Malloc, hash_key, bucket, tail, evict_lru, size_modulus, make_room,
  add_entry, cache_put,
}
use iitm.BlockCache.Entries.{of_key, head, total, Distinct, IsFresh, IsMalloc, of_key-IsFresh}
use iitm.BlockCache.Keys.{IsValid, view, view-head, bytes_of, hash_key_lt}
use iitm.BlockCache.Evict.{Shrinks, evict_lru-Shrinks}

Shrinks-refl : (c : Cache) → IsValid c → Shrinks c c
Shrinks-refl c v = record { valid = v; less = λ k. inr refl; limit = refl; addresses = λ a f. f }

Shrinks-trans : (c d e : Cache) → Shrinks c d → Shrinks d e → Shrinks c e
Shrinks-trans c d e r s = record {
  valid = s.valid;
  less = λ k. less k (s.less k) (r.less k);
  limit = s.limit ∙ r.limit;
  addresses = λ a f. s.addresses a (r.addresses a f);
}
  where
    less :
        (k : Text)
        → (view e k ≡ none) ⊎ (view e k ≡ view d k)
        → (view d k ≡ none) ⊎ (view d k ≡ view c k)
        → (view e k ≡ none) ⊎ (view e k ≡ view c k)
    less k (inl p) q = inl p
    less k (inr p) (inl q) = inl (p ∙ q)
    less k (inr p) (inr q) = inr (p ∙ q)

evict_lru-none : (c : Cache) → tail c.lru ≡ none → evict_lru c ≡ c
unfolding evict_lru
evict_lru-none c e = rw (evict_lru, e) refl

empty-tail : (l : List Entry) → tail l ≡ none → l ≡ []
unfolding tail
empty-tail [] e = refl
empty-tail (x ∷ []) e = cc
empty-tail (x ∷ y ∷ l) e = let r = empty-tail (y ∷ l) e in cc

total-nil : total [] ≡ 0
unfolding total
total-nil = refl

-- there is room for so many bytes
abbrev HasRoom : ℕ → Cache → Cache → Type 0
HasRoom size c c' = Shrinks c c' × (c'.current_size + size ≤ c'.max_size)

make_room-HasRoom :
    (fuel size : ℕ) (c : Cache)
    → IsValid c
    → size ≤ c.max_size
    → length c.lru < fuel
    → Returns (HasRoom size c) (make_room fuel size c)
unfolding make_room
make_room-HasRoom zero size c v p b = absurd (omega arith)
make_room-HasRoom (suc fuel) size c v p b =
    elim (Bool-cases (ltb c.max_size ((c.current_size + size) % size_modulus))) [
      | inr f ↦ rw f (Shrinks-refl c v, ground (arith, v.bounded, v.no_wrap))
      | inl t ↦ rw t (elim (Option-cases (tail c.lru)) [
        | inl e ↦
            let l = empty-tail c.lru e in
            let z = ap total l ∙ total-nil in
            absurd (ground (arith, v.size, v.bounded, v.no_wrap, z))
        | inr (x, e) ↦
            let (s, shorter) = evict_lru-Shrinks c x v e in
            Returns-mono (HasRoom size (evict_lru c)) (HasRoom size c)
              (make_room fuel size (evict_lru c))
              (make_room-HasRoom fuel size (evict_lru c) s.valid (omega (arith, s.limit))
                (omega arith))
              (λ c' (s', room). (Shrinks-trans c (evict_lru c) c' s s', room))
      ])
    ]

evict_lru-kept :
    (c : Cache) → IsValid c → IsValid (evict_lru c) × ((evict_lru c).max_size ≡ c.max_size)
evict_lru-kept c v = elim (Option-cases (tail c.lru)) [
  | inl e ↦ rw (evict_lru-none c e) (v, refl)
  | inr (x, e) ↦ let (s, shorter) = evict_lru-Shrinks c x v e in (s.valid, s.limit)
]

-- For more bytes than the limit of a valid cache, and fewer than 2 ^ 63, so that the sum of the sizes
-- does not wrap, the loop of `cache_put` does not end: it has not ended after any number of rounds.
pub make_room_forever :
    (fuel size : ℕ) (c : Cache)
    → IsValid c
    → c.max_size < size
    → size < 2 ^ 63
    → make_room fuel size c ≡ none
unfolding make_room
make_room_forever zero size c v p b = refl
make_room_forever (suc fuel) size c v p b =
    let t : ltb c.max_size ((c.current_size + size) % size_modulus) ≡ true =
      lt→ltb c.max_size ((c.current_size + size) % size_modulus)
        (omega (arith, v.bounded, v.no_wrap)) in
    let (v', limit) = evict_lru-kept c v in
    rw t (make_room_forever fuel size (evict_lru c) v' (omega (arith, limit)) b)

-- an address that no entry of any key has
IsFresh-of_key : (a : ℕ) (l : List Entry) → ((k : Text) → IsFresh a (of_key k l)) → IsFresh a l
unfolding of_key
IsFresh-of_key a [] f = tt
IsFresh-of_key a (e ∷ l) f = (first, IsFresh-of_key a l rest)
  where
    first : e.address ≢ a
    first = let g : IsFresh a (e ∷ of_key e.key l) = rw (eqb_text_refl e.key) at (f e.key) in g.0

    rest : (k : Text) → IsFresh a (of_key k l)
    rest k = elim (Bool-cases (eqb_text e.key k)) [
      | inl t ↦ let g : IsFresh a (e ∷ of_key k l) = rw t at (f k) in g.1
      | inr t ↦ rw t at (f k)
    ]

limit-add_entry : (c : Cache) (e : Entry) → (add_entry c e).max_size ≡ c.max_size
unfolding add_entry
limit-add_entry c e = refl

lru-add_entry : (c : Cache) (e : Entry) → (add_entry c e).lru ≡ e ∷ c.lru
unfolding add_entry
lru-add_entry c e = refl

module _ (c : Cache) (e : Entry) (v : IsValid c) (fresh : IsFresh e.address c.lru) where
  chain_after :
      (i : ℕ)
      → get_or (add_entry c e).hash_table i [] ≡ (
          if hash_key e.key c.bucket_count == i
          then e ∷ bucket c e.key
          else get_or c.hash_table i [])
  unfolding add_entry
  chain_after i =
      get_or-set c.hash_table (hash_key e.key c.bucket_count) i (e ∷ bucket c e.key) []
        (omega (arith, hash_key_lt e.key c.bucket_count v.buckets, v.table))

  of_key-new :
      (k : Text) (l : List Entry)
      → of_key k (e ∷ l) ≡ (if eqb_text e.key k then e ∷ of_key k l else of_key k l)
  unfolding of_key
  of_key-new k l = refl

  add_entry-same :
      (i : ℕ) (k : Text)
      → of_key k (get_or (add_entry c e).hash_table i [])
        ≡ (if hash_key k c.bucket_count == i then of_key k (e ∷ c.lru) else [])
  add_entry-same i k = ap (of_key k) (chain_after i) ∙ elim (Bool-cases (eqb_text e.key k)) [
    | inl t ↦
        let h = ap (λ key. hash_key key c.bucket_count) (eqb_text→eq e.key k t) in
        ground (
          arith,
          of_key-new k (bucket c e.key),
          of_key-new k c.lru,
          v.same i k,
          v.same (hash_key e.key c.bucket_count) k,
          h,
        )
    | inr t ↦ ground (
      arith,
      of_key-new k (bucket c e.key),
      of_key-new k c.lru,
      v.same i k,
      v.same (hash_key e.key c.bucket_count) k,
    )
  ]

  add_entry-chains : (i : ℕ) → Distinct (get_or (add_entry c e).hash_table i [])
  add_entry-chains i = rw (chain_after i) (elim (Bool-cases (hash_key e.key c.bucket_count == i)) [
    | inl t ↦ rw t (
      IsFresh-of_key e.address (bucket c e.key) (λ k.
          rw (v.same (hash_key e.key c.bucket_count) k)
            (among k (hash_key k c.bucket_count == hash_key e.key c.bucket_count))),
      v.chains (hash_key e.key c.bucket_count),
    )
    | inr t ↦ rw t (v.chains i)
  ])
    where
      among : (k : Text) (b : Bool) → IsFresh e.address (if b then of_key k c.lru else [])
      among k true = of_key-IsFresh e.address k c.lru fresh
      among k false = tt

  add_entry-IsValid : c.current_size + e.size ≤ c.max_size → IsValid (add_entry c e)
  unfolding add_entry total
  add_entry-IsValid room = record {
    buckets = v.buckets;
    table = length-set c.hash_table (hash_key e.key c.bucket_count) (e ∷ bucket c e.key) ∙ v.table;
    same = add_entry-same;
    chains = add_entry-chains;
    distinct = (fresh, v.distinct);
    size = omega (arith, v.size, v.no_wrap);
    bounded = omega (arith, v.no_wrap);
    no_wrap = v.no_wrap;
  }

  add_entry-view :
      (w : IsValid (add_entry c e)) (k : Text)
      → view (add_entry c e) k ≡ (if eqb_text e.key k then some e.bytes else view c k)
  add_entry-view w k =
      view-head (add_entry c e) k w
      ∙ ap (λ l. bytes_of (head l)) (in_list k)
      ∙ elim (Bool-cases (eqb_text e.key k)) [
        | inl t ↦ rw t refl
        | inr t ↦ rw t (sym (view-head c k v))
      ]
    where
      in_list :
          (k : Text)
          → of_key k (add_entry c e).lru
            ≡ (if eqb_text e.key k then e ∷ of_key k c.lru else of_key k c.lru)
      in_list k = ap (of_key k) (lru-add_entry c e) ∙ of_key-new k c.lru

-- what `cache_put` does
pub record Puts (c : Cache) (key : Text) (bytes : Bytes) (c' : Cache) : Type 0 where
  pub valid : IsValid c'
  pub stored : view c' key ≡ some bytes
  pub others : (k : Text) → eqb_text key k ≡ false → (view c' k ≡ none) ⊎ (view c' k ≡ view c k)
  pub limit : c'.max_size ≡ c.max_size

-- In a valid cache, for no more bytes than its limit, and if malloc does not return the address of an
-- entry that is still allocated, the loop of `cache_put` ends, and the cache is valid again, its size
-- within the limit: it has the first `size` bytes under the key, whatever it had there before, and
-- under any other key what it had, or nothing.
pub cache_put-Puts :
    (c : Cache) (key : Text) (bytes : Bytes) (size : ℕ) (malloc : Malloc)
    → IsValid c
    → IsMalloc malloc
    → size ≤ c.max_size
    → Returns (Puts c key (take size bytes)) (cache_put c key bytes size malloc)
unfolding cache_put
cache_put-Puts c key bytes size malloc v fresh p =
    Returns-bind (HasRoom size c) (Puts c key (take size bytes))
      (make_room (suc (length c.lru)) size c) _
      (make_room-HasRoom (suc (length c.lru)) size c v p (omega arith)) added
  where
    e : Cache → Entry
    e c' = record { address = malloc c'.lru; key = key; bytes = take size bytes; size = size }

    added : (c' : Cache) → HasRoom size c c' → Puts c key (take size bytes) (add_entry c' (e c'))
    added c' (s, room) =
        let f = fresh c'.lru in
        let w = add_entry-IsValid c' (e c') s.valid f room in
        let see = add_entry-view c' (e c') s.valid f w in
        record {
          valid = w;
          stored = see key ∙ rw (eqb_text_refl key) refl;
          others = λ k n. other k (see k ∙ rw n refl) (s.less k);
          limit = limit-add_entry c' (e c') ∙ s.limit;
        }
      where
        other :
            (k : Text)
            → view (add_entry c' (e c')) k ≡ view c' k
            → (view c' k ≡ none) ⊎ (view c' k ≡ view c k)
            → (view (add_entry c' (e c')) k ≡ none) ⊎ (view (add_entry c' (e c')) k ≡ view c k)
        other k q (inl r) = inl (q ∙ r)
        other k q (inr r) = inr (q ∙ r)
