-- ===== src/LruCache/Keys.antt =====
-- The table of chains as a map from keys to addresses, and the keys of the cells.
use iitm.Prelude.{
  ℕ, ◌+◌, ◌≤◌, ◌<◌, ◌≡◌, ◌≢◌, refl, sym, ◌∙◌, ap, true, false, Bool-cases, inl, inr, Option, some,
  none, List, [], ◌∷◌, ◌++◌, ◌==◌, if◌then◌else◌, by_test, none-some, some_inj, arith,
}
use iitm.Prelude.Int.{ℤ, eqb_ℤ, eqb→eq_ℤ, eqb_refl_ℤ}
use iitm.SortedList.{All}
use iitm.LruCache.{Ptr, hash_size, Entry, hash, update, hash_get_entry, put_entry, remove_entry}
use iitm.LruCache.Links.{Cell, update_self, update_other}

-- how many entries have the key
unfoldable pub count : ℤ → List Entry → ℕ
count key [] = 0
count key (e ∷ entries) = (if eqb_ℤ e.key key then 1 else 0) + count key entries

-- the table finds the address `f k` of each key whose chain is in the table, and no chain has a key
-- twice
pub record Indexes (table : ℕ → List Entry) (f : ℤ → Option Ptr) : Type 0 where
  pub found : (k : ℤ) → hash k < hash_size → hash_get_entry (table (hash k)) k ≡ f k
  pub once : (i : ℕ) (k : ℤ) → count k (table i) ≤ 1

pub Indexes-change :
    (table : ℕ → List Entry) (f g : ℤ → Option Ptr)
    → Indexes table f
    → ((k : ℤ) → f k ≡ g k)
    → Indexes table g
Indexes-change table f g r e = record { found = λ k p. r.found k p ∙ e k; once = r.once }

Indexes-update :
    (table : ℕ → List Entry) (f : ℤ → Option Ptr) (key : ℤ) (entries : List Entry) (o : Option Ptr)
    → Indexes table f
    → ((k : ℤ)
        → hash_get_entry entries k
          ≡ (if eqb_ℤ key k then o else hash_get_entry (table (hash key)) k))
    → ((k : ℤ) → count k entries ≤ 1)
    → Indexes (update table (hash key) entries) (λ k. if eqb_ℤ key k then o else f k)
Indexes-update table f key entries o r e c = record {
  found = λ k p. elim (Bool-cases (hash key == hash k)) [
    | inl same ↦ found_same k p (ground arith)
    | inr other ↦ found_other k p (ground arith)
  ];
  once = λ i k. elim (Bool-cases (hash key == i)) [
    | inl same ↦
        let q : hash key ≡ i = ground arith in
        rw (sym (ap (update table (hash key) entries) q) ∙ update_self table (hash key) entries)
          (c k)
    | inr other ↦ rw (update_other table (hash key) i entries (ground arith)) (r.once i k)
  ];
}
  where
    found_same :
        (k : ℤ)
        → hash k < hash_size
        → hash key ≡ hash k
        → hash_get_entry (update table (hash key) entries (hash k)) k
          ≡ (if eqb_ℤ key k then o else f k)
    found_same k p q =
        rw
          (sym (ap (update table (hash key) entries) q) ∙ update_self table (hash key) entries, e k)
          (by_test (λ x. x ≡ (if eqb_ℤ key k then o else f k)) (eqb_ℤ key k) (λ t. rw t refl)
            (λ t. rw t (ap (λ i. hash_get_entry (table i) k) q ∙ r.found k p)))

    found_other :
        (k : ℤ)
        → hash k < hash_size
        → hash k ≢ hash key
        → hash_get_entry (update table (hash key) entries (hash k)) k
          ≡ (if eqb_ℤ key k then o else f k)
    found_other k p q = rw (update_other table (hash key) (hash k) entries q) (
        by_test (λ x. hash_get_entry (table (hash k)) k ≡ x) (eqb_ℤ key k)
          (λ t. absurd (q (ap hash (sym (eqb→eq_ℤ key k t))))) (λ t. r.found k p))

count-none : (k : ℤ) (entries : List Entry) → hash_get_entry entries k ≡ none → count k entries ≡ 0
unfolding hash_get_entry count
count-none k [] p = refl
count-none k (e ∷ entries) p = ground (arith, count-none k entries)

none-count : (k : ℤ) (entries : List Entry) → count k entries ≡ 0 → hash_get_entry entries k ≡ none
unfolding hash_get_entry count
none-count k [] p = refl
none-count k (e ∷ entries) p = ground (arith, none-count k entries)

-- `hashPut` of a new key
pub put_entry-Indexes :
    (table : ℕ → List Entry) (f : ℤ → Option Ptr) (key : ℤ) (node : Ptr)
    → Indexes table f
    → hash_get_entry (table (hash key)) key ≡ none
    → Indexes
        (update table (hash key) (put_entry (table (hash key)) key node))
        (λ k. if eqb_ℤ key k then some node else f k)
unfolding put_entry hash_get_entry count
put_entry-Indexes table f key node r e =
    rw (put_entry, e)
      (Indexes-update table f key (record { key = key; node = node } ∷ table (hash key)) (some node)
        r (λ k. found k) (λ k. once k))
  where
    found :
        (k : ℤ)
        → hash_get_entry (record { key = key; node = node } ∷ table (hash key)) k
          ≡ (if eqb_ℤ key k then some node else hash_get_entry (table (hash key)) k)
    found k = refl

    absent : (k : ℤ) → key ≡ k → count k (table (hash key)) ≡ 0
    absent k q = ap (λ x. count x (table (hash key))) (sym q) ∙ count-none key (table (hash key)) e

    once : (k : ℤ) → count k (record { key = key; node = node } ∷ table (hash key)) ≤ 1
    once k =
        by_test (λ n. n + count k (table (hash key)) ≤ 1) (eqb_ℤ key k)
          (λ t. omega (arith, absent k (eqb→eq_ℤ key k t)))
          (λ t. omega (arith, r.once (hash key) k))

remove_entry-found :
    (entries : List Entry) (key k : ℤ)
    → count key entries ≤ 1
    → hash_get_entry (remove_entry entries key) k
      ≡ (if eqb_ℤ key k then none else hash_get_entry entries k)
unfolding hash_get_entry remove_entry count
remove_entry-found [] key k p =
    by_test {A = Option Ptr} (λ x. none ≡ x) (eqb_ℤ key k) (λ _. refl) (λ _. refl)
remove_entry-found (e ∷ entries) key k p = elim (Bool-cases (eqb_ℤ e.key key)) [
  | inl same ↦ rw same (elim (Bool-cases (eqb_ℤ key k)) [
    | inl t ↦
        rw t (none-count k entries (ap (λ x. count x entries) (sym (eqb→eq_ℤ key k t)) ∙ rest same))
    | inr f ↦ rw (f, other e.key key k (eqb→eq_ℤ e.key key same) f) refl
  ])
  | inr differs ↦ rw differs (elim (Bool-cases (eqb_ℤ e.key k)) [
    | inl t ↦ rw (t, apart e.key key k t differs) refl
    | inr f ↦ rw f (remove_entry-found entries key k (omega arith))
  ])
]
  where
    rest : eqb_ℤ e.key key ≡ true → count key entries ≡ 0
    rest same = ground arith

    other : (a b c : ℤ) → a ≡ b → eqb_ℤ b c ≡ false → eqb_ℤ a c ≡ false
    other a b c q f = ap (λ x. eqb_ℤ x c) q ∙ f

    apart : (a b c : ℤ) → eqb_ℤ a c ≡ true → eqb_ℤ a b ≡ false → eqb_ℤ b c ≡ false
    apart a b c t f = elim (Bool-cases (eqb_ℤ b c)) [
      | inl u ↦
          let q : a ≡ b = eqb→eq_ℤ a c t ∙ sym (eqb→eq_ℤ b c u) in
          cc (sym f ∙ ap (eqb_ℤ a) (sym q) ∙ eqb_refl_ℤ a)
      | inr u ↦ u
    ]

count-remove_entry :
    (entries : List Entry) (key k : ℤ) → count k (remove_entry entries key) ≤ count k entries
unfolding remove_entry count
count-remove_entry [] key k = omega arith
count-remove_entry (e ∷ entries) key k =
    by_test (λ l. count k l ≤ (if eqb_ℤ e.key k then 1 else 0) + count k entries) (eqb_ℤ e.key key)
      (λ _. omega arith) (λ _. omega (arith, count-remove_entry entries key k))

-- `hashRemove`
pub remove_entry-Indexes :
    (table : ℕ → List Entry) (f : ℤ → Option Ptr) (key : ℤ)
    → Indexes table f
    → Indexes
        (update table (hash key) (remove_entry (table (hash key)) key))
        (λ k. if eqb_ℤ key k then none else f k)
remove_entry-Indexes table f key r =
    Indexes-update table f key (remove_entry (table (hash key)) key) none r
      (λ k. remove_entry-found (table (hash key)) key k (r.once (hash key) key))
      (λ k. omega (arith, count-remove_entry (table (hash key)) key k, r.once (hash key) k))

-- the address of the first cell with the key
unfoldable pub address_of : List Cell → ℤ → Option Ptr
address_of [] k = none
address_of (c ∷ xs) k = if eqb_ℤ c.key k then some c.at else address_of xs k

abbrev pub AvoidsKey : ℤ → List Cell → Type 0
AvoidsKey key xs = All (λ c. c.key ≢ key) xs

-- no two cells with one key
abbrev pub DistinctKeys : List Cell → Type 0
DistinctKeys [] = Unit
DistinctKeys (c ∷ xs) = AvoidsKey c.key xs × DistinctKeys xs

pub eqb-false : (a b : ℤ) → a ≢ b → eqb_ℤ a b ≡ false
eqb-false a b ne = elim (Bool-cases (eqb_ℤ a b)) [
  | inl t ↦ absurd (ne (eqb→eq_ℤ a b t))
  | inr f ↦ f
]

-- the place of the cell that `address_of` finds
pub record Splits (xs : List Cell) (key : ℤ) (p : Ptr) : Type 0 where
  pub before : List Cell
  pub cell : Cell
  pub behind : List Cell
  pub whole : xs ≡ before ++ cell ∷ behind
  pub at : cell.at ≡ p
  pub key_of : cell.key ≡ key

pub address_of-Splits :
    (xs : List Cell) (key : ℤ) {p : Ptr} → address_of xs key ≡ some p → Splits xs key p
unfolding address_of
address_of-Splits [] key e = absurd (none-some e)
address_of-Splits (c ∷ xs) key {p} e = elim (Bool-cases (eqb_ℤ c.key key)) [
  | inl t ↦ record {
    before = [];
    cell = c;
    behind = xs;
    whole = refl;
    at = some_inj (sym (rw t refl) ∙ e);
    key_of = eqb→eq_ℤ c.key key t;
  }
  | inr f ↦
      let s = address_of-Splits xs key {p = p} (sym (rw f refl) ∙ e) in
      record {
        before = c ∷ s.before;
        cell = s.cell;
        behind = s.behind;
        whole = ap (λ l. c ∷ l) s.whole;
        at = s.at;
        key_of = s.key_of;
      }
]

-- Without a key twice, the order of the cells does not matter.
pub address_of-front :
    (ys : List Cell) (c : Cell) (zs : List Cell) (k : ℤ)
    → AvoidsKey c.key ys
    → address_of (ys ++ c ∷ zs) k ≡ address_of (c ∷ (ys ++ zs)) k
unfolding address_of
address_of-front [] c zs k a = refl
address_of-front (y ∷ ys) c zs k (a, b) = elim (Bool-cases (eqb_ℤ y.key k)) [
  | inl t ↦ rw (t, eqb-false c.key k (λ q. a (eqb→eq_ℤ y.key k t ∙ sym q))) refl
  | inr f ↦
      rw f (
        address_of-front ys c zs k b ∙ by_test (λ x. x ≡ x) (eqb_ℤ c.key k) (λ _. refl) (λ _. refl))
]
