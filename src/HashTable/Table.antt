-- ===== src/HashTable/Table.antt =====
-- The whole table: `search` after `insert` and `delete`, and the faults of `insert`.
use iitm.Prelude.{
  ℕ, zero, suc, ◌≤◌, ◌<◌, ◌≡◌, refl, ap, ◌∙◌, Bool, true, false, Bool-cases, inl, inr, Option, some,
  none, List, [], ltb, leb, ◌||◌, ◌==◌, if◌then◌else◌, ◌>>=◌, by_test, Returns, Returns-bind, Text,
  eqb_text, eqb_text→eq, set, get_or, get_or-set, length, length-set, replicate, arith,
}
use iitm.Prelude.Int.{ℤ, negsuc}
use iitm.HashTable.{
  table_size, key_size, Node, Chain, hash, insert_chain, insert, find, search, delete_chain, delete,
  init_table,
}
use iitm.HashTable.Chain.{
  buried, count, Sets, insert_chain-Sets, insert_chain-buried, find-delete_chain,
  count-delete_chain,
}

-- ten chains with no key twice in a chain
pub record IsValid (hash_table : List Chain) : Type 0 where
  pub size : length hash_table ≡ table_size
  pub once : (i : ℕ) (key : Text) → count key (get_or hash_table i []) ≤ 1

bucket : List Chain → Text → Chain
bucket hash_table key = get_or hash_table (hash key) []

hash_lt : (key : Text) → hash key < table_size
unfolding hash
hash_lt key = omega arith

abbrev value_or : Option ℤ → ℤ
value_or none = negsuc 0
value_or (some value) = value

search_lem :
    (t : List Chain) (key : Text) → search t key ≡ value_or (find (get_or t (hash key) []) key)
unfolding search
search_lem t key = go (find (get_or t (hash key) []) key) refl
  where
    go : (r : Option ℤ) → find (get_or t (hash key) []) key ≡ r → search t key ≡ value_or r
    go none e = rw (search, e) refl
    go (some v) e = rw (search, e) refl

module _ (t : List Chain) (key : Text) (chain : Chain) (valid : IsValid t) where
  after : List Chain
  after = set t (hash key) chain

  bucket_after : (i : ℕ) → get_or after i [] ≡ (if hash key == i then chain else get_or t i [])
  unfolding after
  bucket_after i = get_or-set t (hash key) i chain [] (omega (arith, hash_lt key, valid.size))

  -- what holds of the bucket of the key holds of the table
  search-after :
      (o : Option ℤ)
      → ((k : Text) → find chain k ≡ (if eqb_text key k then o else find (bucket t key) k))
      → (k : Text) → search after k ≡ (if eqb_text key k then value_or o else search t k)
  unfolding bucket search find
  search-after o found k =
      rw (search_lem, bucket_after)
        (elim (Bool-cases (hash key == hash k)) [
          | inl same ↦
              let e : hash key ≡ hash k = ground arith in
              rw (same, found k)
                (elim (Bool-cases (eqb_text key k)) [
                  | inl t' ↦ rw t' refl
                  | inr f ↦ rw f (ap (λ h. value_or (find (get_or t h []) k)) e)
                ])
          | inr other ↦ rw (other, apart other) refl
        ])
    where
      apart : (hash key == hash k) ≡ false → eqb_text key k ≡ false
      apart other = elim (Bool-cases (eqb_text key k)) [
        | inl t' ↦
            let e : hash key ≡ hash k = ap hash (eqb_text→eq key k t') in absurd (ground arith)
        | inr f ↦ f
      ]

  after-IsValid : ((k : Text) → count k chain ≤ 1) → IsValid after
  unfolding after
  after-IsValid p = record {
    size = length-set t (hash key) chain ∙ valid.size;
    once = λ i k.
        rw (bucket_after i)
          (by_test (λ c. count k c ≤ 1) (hash key == i) (λ _. p k) (λ _. valid.once i k));
  }

-- what `insert` leaves behind
pub record Inserts (t : List Chain) (key : Text) (value : ℤ) (t' : List Chain) : Type 0 where
  pub valid : IsValid t'
  pub found : (k : Text) → search t' k ≡ (if eqb_text key k then value else search t k)

-- the outcome of `insert`, by whether it has a fault
abbrev pub InsertOutcome : Bool → List Chain → Text → ℤ → Option (List Chain) → Type 0
InsertOutcome true t key value r = r ≡ none
InsertOutcome false t key value r = Returns (Inserts t key value) r

-- On a valid table `insert` faults exactly if the key has 50 bytes or more, or a node that is not the
-- last of its chain has the key; otherwise the table stays valid, the key is found with the new value,
-- and any other key as before.
pub insert_lem :
    (t : List Chain) (key : Text) (value : ℤ)
    → IsValid t
    → InsertOutcome
        (leb key_size (length key) || buried key (get_or t (hash key) []))
        t
        key
        value
        (insert t key value)
unfolding insert bucket after
insert_lem t key value v = elim (Bool-cases (leb key_size (length key))) [
  | inl long ↦ let e : ltb (length key) key_size ≡ false = ground arith in rw (long, e) refl
  | inr fits ↦
      let e : ltb (length key) key_size ≡ true = ground arith in
      rw (fits, e) (go (buried key (get_or t (hash key) [])) refl)
]
  where
    new : Node
    new = record { key = key; value = value }

    chain : Chain
    chain = get_or t (hash key) []

    go :
        (b : Bool)
        → buried key chain ≡ b
        → InsertOutcome b t key value (insert_chain new chain >>= λ c. some (set t (hash key) c))
    go true e = rw (insert_chain-buried new chain e) refl
    go false e =
        Returns-bind (Sets new chain) (Inserts t key value) (insert_chain new chain) _
          (insert_chain-Sets new chain e)
          (λ c r. record {
            valid = after-IsValid t key c v (λ k. r.once k (v.once (hash key) k));
            found = search-after t key c v (some value) r.found;
          })

-- On a valid table `delete` leaves a valid table in which the key is not found, and any other key as
-- before.
pub delete_lem :
    (t : List Chain) (key : Text)
    → IsValid t
    → IsValid (delete t key)
      × ((k : Text) → search (delete t key) k ≡ (if eqb_text key k then negsuc 0 else search t k))
unfolding delete bucket after
delete_lem t key v = (
  after-IsValid t key chain v
      (λ k. omega (arith, count-delete_chain old key k, v.once (hash key) k)),
  search-after t key chain v none (λ k. find-delete_chain old key k (v.once (hash key) key)),
)
  where
    old : Chain
    old = get_or t (hash key) []

    chain : Chain
    chain = delete_chain old key

get_or-replicate : {A : Type 0} (n i : ℕ) (a : A) → get_or (replicate n a) i a ≡ a
get_or-replicate zero i a = refl
get_or-replicate (suc n) zero a = refl
get_or-replicate (suc n) (suc i) a = get_or-replicate n i a

pub init_table-IsValid : IsValid init_table
unfolding init_table count
init_table-IsValid = record {
  size = refl;
  once = λ i key. rw (get_or-replicate {A = Chain} table_size i []) (omega arith);
}
