-- ===== src/BlockCache/Keys.antt =====
-- The invariant of the cache: a chain has the entries of its keys in the order of the list.
use iitm.Prelude.{
  ℕ, ◌^◌, ◌≤◌, ◌<◌, ◌≡◌, refl, ap, ◌∙◌, Option, some, none, [], ◌==◌, if◌then◌else◌, length, get_or,
  Text, arith,
}
use iitm.BlockCache.{Entry, Cache, Bytes, hash_key, bucket, cache_get, find_entry}
use iitm.BlockCache.Entries.{of_key, head, total, Distinct, find_entry-of_key}

pub record IsValid (c : Cache) : Type 0 where
  pub buckets : 0 < c.bucket_count
  pub table : length c.hash_table ≡ c.bucket_count
  pub same :
      (i : ℕ) (k : Text)
      → of_key k (get_or c.hash_table i [])
        ≡ (if hash_key k c.bucket_count == i then of_key k c.lru else [])
  pub chains : (i : ℕ) → Distinct (get_or c.hash_table i [])
  pub distinct : Distinct c.lru
  pub size : c.current_size ≡ total c.lru
  pub bounded : c.current_size ≤ c.max_size
  pub no_wrap : c.max_size < 2 ^ 63

-- what `cache_get` returns for a key
unfoldable pub view : Cache → Text → Option Bytes
view c k = (cache_get c k).0

abbrev pub bytes_of : Option Entry → Option Bytes
bytes_of none = none
bytes_of (some e) = some e.bytes

pub bucket-of_key : (c : Cache) (k : Text) → IsValid c → of_key k (bucket c k) ≡ of_key k c.lru
bucket-of_key c k v = v.same (hash_key k c.bucket_count) k ∙ ground arith

pub find_entry-bucket :
    (c : Cache) (k : Text) → IsValid c → find_entry k (bucket c k) ≡ head (of_key k c.lru)
find_entry-bucket c k v = find_entry-of_key k (bucket c k) ∙ ap head (bucket-of_key c k v)

pub view-head : (c : Cache) (k : Text) → IsValid c → view c k ≡ bytes_of (head (of_key k c.lru))
unfolding view cache_get
view-head c k v = found (find_entry k (bucket c k)) refl ∙ ap bytes_of (find_entry-bucket c k v)
  where
    found :
        (o : Option Entry)
        → find_entry k (bucket c k) ≡ o
        → view c k ≡ bytes_of (find_entry k (bucket c k))
    found none e = rw (view, cache_get, e) refl
    found (some x) e = rw (view, cache_get, e) refl

pub hash_key_lt : (k : Text) (n : ℕ) → 0 < n → hash_key k n < n
unfolding hash_key
hash_key_lt k n p = grind arith
