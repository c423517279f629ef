-- ===== src/BlockCache/Evict.antt =====
-- `evict_lru` takes the last entry out of the list and of its chain.
use iitm.Prelude.{
  ℕ, suc, ◌+◌, ◌-◌, ◌%◌, ◌≡◌, refl, sym, ap, ◌∙◌, ◌⊎◌, inl, inr, Bool, true, false, Bool-cases,
  some, none, [], ◌==◌, if◌then◌else◌, length, length-set, set, get_or, get_or-set, Text, eqb_text,
  eqb_text→eq, arith,
}
use iitm.BlockCache.{
  Entry, Cache, hash_key, bucket, unlink, tail, before_tail, size_modulus, evict_lru,
}
use iitm.BlockCache.Entries.{
  of_key, head, total, Distinct, IsFresh, Contains, of_key-unlink, other_key, unlink_fresh,
  unlink-Distinct, total-unlink, unlink-IsFresh, tail-Contains, before_tail-unlink,
  head-before_tail, length-before_tail,
}
use iitm.BlockCache.Keys.{IsValid, view, view-head, bytes_of, hash_key_lt}

-- what holds of the cache after entries have been evicted: no key has other bytes than before
pub record Shrinks (c c' : Cache) : Type 0 where
  pub valid : IsValid c'
  pub less : (k : Text) → (view c' k ≡ none) ⊎ (view c' k ≡ view c k)
  pub limit : c'.max_size ≡ c.max_size
  pub addresses : (a : ℕ) → IsFresh a c.lru → IsFresh a c'.lru

module _ (c : Cache) (v : Entry) (valid : IsValid c) (last : tail c.lru ≡ some v) where
  abbrev pub place : ℕ
  place = hash_key v.key c.bucket_count

  -- the cache without its last entry
  abbrev pub without_tail : Cache
  without_tail = record c {
    lru = before_tail c.lru;
    hash_table = set c.hash_table place (unlink v.address (bucket c v.key));
    current_size = (c.current_size + size_modulus - v.size) % size_modulus;
  }

  evict_lru-tail : evict_lru c ≡ without_tail
  unfolding evict_lru
  evict_lru-tail = rw (evict_lru, last) refl

  shorter : before_tail c.lru ≡ unlink v.address c.lru
  shorter = before_tail-unlink c.lru v valid.distinct last

  held : Contains v c.lru
  held = tail-Contains c.lru v last

  chain_after :
      (i : ℕ)
      → get_or without_tail.hash_table i []
        ≡ (if place == i then unlink v.address (bucket c v.key) else get_or c.hash_table i [])
  chain_after i =
      get_or-set c.hash_table place i (unlink v.address (bucket c v.key)) []
        (omega (arith, hash_key_lt v.key c.bucket_count valid.buckets, valid.table))

  of_key-shorter : (k : Text) → of_key k (before_tail c.lru) ≡ unlink v.address (of_key k c.lru)
  of_key-shorter k = ap (of_key k) shorter ∙ of_key-unlink v.address k c.lru valid.distinct

  -- a key of another chain keeps its entries
  elsewhere :
      (i : ℕ) (k : Text)
      → (place == i) ≡ false
      → (hash_key k c.bucket_count == i) ≡ true
      → of_key k (before_tail c.lru) ≡ of_key k c.lru
  elsewhere i k n t = elim (Bool-cases (eqb_text v.key k)) [
    | inl e ↦
        let h = ap (λ key. hash_key key c.bucket_count) (eqb_text→eq v.key k e) in
        absurd (ground arith)
    | inr e ↦
        of_key-shorter k
        ∙ unlink_fresh v.address (of_key k c.lru) (other_key v k c.lru held valid.distinct e)
  ]

  without_tail-same :
      (i : ℕ) (k : Text)
      → of_key k (get_or without_tail.hash_table i [])
        ≡ (if hash_key k c.bucket_count == i then of_key k (before_tail c.lru) else [])
  without_tail-same i k = ap (of_key k) (chain_after i) ∙ elim (Bool-cases (place == i)) [
    | inl t ↦
        let e : place ≡ i = ground arith in
        rw t (
          of_key-unlink v.address k (bucket c v.key) (valid.chains place)
          ∙ ap (unlink v.address) (
              valid.same place k
              ∙ ap (λ j. if hash_key k c.bucket_count == j then of_key k c.lru else []) e)
          ∙ by_branch (hash_key k c.bucket_count == i))
    | inr n ↦ rw n (
        valid.same i k ∙ elim (Bool-cases (hash_key k c.bucket_count == i)) [
          | inl t ↦ rw t (sym (elsewhere i k n t))
          | inr t ↦ rw t refl
        ])
  ]
    where
      by_branch :
          (b : Bool)
          → unlink v.address (if b then of_key k c.lru else [])
            ≡ (if b then of_key k (before_tail c.lru) else [])
      by_branch true = sym (of_key-shorter k)
      by_branch false = unlink_fresh v.address [] tt

  without_tail-chains : (i : ℕ) → Distinct (get_or without_tail.hash_table i [])
  without_tail-chains i = rw (chain_after i) (elim (Bool-cases (place == i)) [
    | inl t ↦ rw t (unlink-Distinct v.address (bucket c v.key) (valid.chains place))
    | inr t ↦ rw t (valid.chains i)
  ])

  without_tail-IsValid : IsValid without_tail
  without_tail-IsValid =
      let sizes = total-unlink v c.lru held valid.distinct in
      let short = ap total shorter in
      record {
        buckets = valid.buckets;
        table = length-set c.hash_table place (unlink v.address (bucket c v.key)) ∙ valid.table;
        same = without_tail-same;
        chains = without_tail-chains;
        distinct = rw shorter (unlink-Distinct v.address c.lru valid.distinct);
        size = omega (arith, valid.size, valid.bounded, valid.no_wrap, sizes, short);
        bounded = omega (arith, valid.size, valid.bounded, valid.no_wrap, sizes, short);
        no_wrap = valid.no_wrap;
      }

  pub evict_lru-Shrinks : Shrinks c (evict_lru c) × (length c.lru ≡ suc (length (evict_lru c).lru))
  evict_lru-Shrinks = rw evict_lru-tail (
    record {
      valid = without_tail-IsValid;
      less = λ k. fewer k (head-before_tail k c.lru);
      limit = refl;
      addresses = λ a f. rw shorter (unlink-IsFresh a v.address c.lru f);
    },
    length-before_tail c.lru v last,
  )
    where
      fewer :
          (k : Text)
          → (head (of_key k (before_tail c.lru)) ≡ none)
            ⊎ (head (of_key k (before_tail c.lru)) ≡ head (of_key k c.lru))
          → (view without_tail k ≡ none) ⊎ (view without_tail k ≡ view c k)
      fewer k (inl e) = inl (view-head without_tail k without_tail-IsValid ∙ ap bytes_of e)
      fewer k (inr e) = inr (
          view-head without_tail k without_tail-IsValid ∙ ap bytes_of e ∙ sym (view-head c k valid))
