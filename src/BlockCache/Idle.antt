-- ===== src/BlockCache/Idle.antt =====
-- A pool whose buffers are all free is one again when a buffer that was taken comes back.
use iitm.Prelude.{
  ℕ, zero, suc, ◌-◌, ◌<◌, ◌≡◌, refl, ap, ◌∙◌, Bool, true, false, ◌&&◌, some, List, [], ◌∷◌, ◌==◌,
  if◌then◌else◌, ltb, length, set, get_or, length-set, arith,
}
use iitm.Prelude.Int.{ℤ, pos, ◌-ℤ◌, eqb_ℤ}
use iitm.BlockCache.Buffers.{Buffer, Pool, change, get_buffer, reset, ref_count_at, release_buffer}

pub record IsIdle (pool : Pool) : Type 0 where
  pub some_left : 0 < pool.pool_size
  pub all_free : pool.free_count ≡ pool.pool_size
  pub list : length pool.free_list ≡ pool.pool_size
  pub buffers : length pool.buffers ≡ pool.pool_size
  pub inside : (i : ℕ) → i < pool.pool_size → get_or pool.free_list i 0 < pool.pool_size
  pub unused : (i : ℕ) → ref_count_at i pool.buffers ≡ pos 0

pub length-change :
    (f : Buffer → Buffer) (i : ℕ) (bs : List Buffer) → length (change f i bs) ≡ length bs
unfolding change
length-change f i [] = refl
length-change f zero (b ∷ bs) = refl
length-change f (suc i) (b ∷ bs) = ap suc (length-change f i bs)

-- the counts after a change of one of them by `g`
ref_count_at-change :
    (f : Buffer → Buffer) (g : ℤ → ℤ)
    → ((b : Buffer) → (f b).ref_count ≡ g b.ref_count)
    → (i j : ℕ) (bs : List Buffer)
    → ref_count_at j (change f i bs)
      ≡ (if (i == j) && ltb j (length bs) then g (ref_count_at j bs) else ref_count_at j bs)
unfolding change
ref_count_at-change f g e i zero [] = ground arith
ref_count_at-change f g e i (suc j) [] = ground arith
ref_count_at-change f g e zero zero (b ∷ bs) = ground (arith, e b)
ref_count_at-change f g e zero (suc j) (b ∷ bs) = ground arith
ref_count_at-change f g e (suc i) zero (b ∷ bs) = ground arith
ref_count_at-change f g e (suc i) (suc j) (b ∷ bs) =
    ground (arith, ref_count_at-change f g e i j bs)

-- a change that keeps the counts
pub ref_count_at-kept :
    (f : Buffer → Buffer)
    → ((b : Buffer) → (f b).ref_count ≡ b.ref_count)
    → (i j : ℕ) (bs : List Buffer) → ref_count_at j (change f i bs) ≡ ref_count_at j bs
ref_count_at-kept f e i j bs =
    ref_count_at-change f (λ r. r) e i j bs ∙ same ((i == j) && ltb j (length bs))
  where
    same : (b : Bool) → (if b then ref_count_at j bs else ref_count_at j bs) ≡ ref_count_at j bs
    same true = refl
    same false = refl

set-get_or : {A : Type 0} (xs : List A) (i : ℕ) (d : A) → set xs i (get_or xs i d) ≡ xs
set-get_or [] i d = refl
set-get_or (x ∷ xs) zero d = refl
set-get_or (x ∷ xs) (suc i) d = ap (λ l. x ∷ l) (set-get_or xs i d)

one_less : pos 1 -ℤ pos 1 ≡ pos 0
unfolding ◌-ℤ◌
one_less = refl

module _ (pool : Pool) (idle : IsIdle pool) where
  abbrev pub last_free : ℕ
  last_free = get_or pool.free_list (pool.free_count - 1) 0

  abbrev pub borrowed : Pool
  borrowed = record pool {
    free_count = pool.free_count - 1;
    buffers = change (λ b. record b { ref_count = pos 1 }) last_free pool.buffers;
  }

  pub get_buffer-borrowed : get_buffer pool ≡ (some last_free, borrowed)
  unfolding get_buffer
  get_buffer-borrowed =
      let n : (pool.free_count == 0) ≡ false = ground (arith, idle.some_left, idle.all_free) in
      rw n refl

  last_free_lt : last_free < pool.pool_size
  last_free_lt = idle.inside (pool.free_count - 1) (omega (arith, idle.some_left, idle.all_free))

  pub release_buffer-IsIdle :
      (bs : List Buffer)
      → length bs ≡ length pool.buffers
      → ((j : ℕ) → ref_count_at j bs ≡ ref_count_at j borrowed.buffers)
      → IsIdle (release_buffer (record borrowed { buffers = bs }) last_free)
  unfolding release_buffer
  release_buffer-IsIdle bs long counts =
      let zero_count : eqb_ℤ (ref_count_at last_free down) (pos 0) ≡ true =
        rw (counts_down last_free) refl in
      rw zero_count (record {
        some_left = idle.some_left;
        all_free = omega (arith, idle.all_free, idle.some_left);
        list = length-set pool.free_list (pool.free_count - 1) last_free ∙ idle.list;
        buffers =
            length-change reset last_free down
            ∙ length-change (λ b. record b { ref_count = b.ref_count -ℤ pos 1 }) last_free bs
            ∙ long
            ∙ idle.buffers;
        inside = λ i p. rw (set-get_or pool.free_list (pool.free_count - 1) 0) (idle.inside i p);
        unused = λ i. ref_count_at-kept reset (λ b. refl) last_free i down ∙ counts_down i;
      })
    where
      down : List Buffer
      down = change (λ b. record b { ref_count = b.ref_count -ℤ pos 1 }) last_free bs

      counts_down : (j : ℕ) → ref_count_at j down ≡ pos 0
      counts_down j = ground (
        arith,
        one_less,
        counts j,
        long,
        idle.unused j,
        idle.buffers,
        ref_count_at-change (λ b. record b { ref_count = b.ref_count -ℤ pos 1 }) (λ r. r -ℤ pos 1)
            (λ b. refl) last_free j bs,
        ref_count_at-change (λ b. record b { ref_count = pos 1 }) (λ r. pos 1) (λ b. refl) last_free
            j pool.buffers,
        last_free_lt,
      )
