-- ===== src/BlockCache/Entries.antt =====
-- Lists of entries: those of one key, and taking one out.
use iitm.Prelude.{
  ℕ, suc, ◌+◌, ◌≡◌, ◌≢◌, refl, sym, ap, ◌∙◌, ◌⊎◌, inl, inr, true, false, Bool-cases, Option, some,
  none, List, [], ◌∷◌, ◌==◌, if◌then◌else◌, length, Text, eqb_text, arith, none-some, some_inj,
}
use iitm.SortedList.{All}
use iitm.BlockCache.{Malloc, Entry, unlink, tail, before_tail, find_entry}

-- the entries of a key, in their order
unfoldable pub of_key : Text → List Entry → List Entry
of_key k [] = []
of_key k (e ∷ l) = if eqb_text e.key k then e ∷ of_key k l else of_key k l

abbrev pub head : List Entry → Option Entry
head [] = none
head (e ∷ l) = some e

unfoldable pub total : List Entry → ℕ
total [] = 0
total (e ∷ l) = e.size + total l

-- no entry is at the address
abbrev pub IsFresh : ℕ → List Entry → Type 0
IsFresh a l = All (λ e. e.address ≢ a) l

-- malloc does not return the address of an entry that is allocated
abbrev pub IsMalloc : Malloc → Type 0
IsMalloc malloc = (l : List Entry) → IsFresh (malloc l) l

abbrev pub Distinct : List Entry → Type 0
Distinct [] = Unit
Distinct (e ∷ l) = IsFresh e.address l × Distinct l

abbrev pub Contains : Entry → List Entry → Type 0
Contains e [] = ⊥
Contains e (x ∷ l) = (x ≡ e) ⊎ Contains e l

pub find_entry-of_key : (k : Text) (l : List Entry) → find_entry k l ≡ head (of_key k l)
unfolding find_entry of_key
find_entry-of_key k [] = refl
find_entry-of_key k (e ∷ l) = ground (arith, find_entry-of_key k l)

pub of_key-IsFresh : (a : ℕ) (k : Text) (l : List Entry) → IsFresh a l → IsFresh a (of_key k l)
unfolding of_key
of_key-IsFresh a k [] f = tt
of_key-IsFresh a k (e ∷ l) (n, f) = elim (Bool-cases (eqb_text e.key k)) [
  | inl t ↦ rw t (n, of_key-IsFresh a k l f)
  | inr t ↦ rw t (of_key-IsFresh a k l f)
]

pub unlink-IsFresh : (a b : ℕ) (l : List Entry) → IsFresh a l → IsFresh a (unlink b l)
unfolding unlink
unlink-IsFresh a b [] f = tt
unlink-IsFresh a b (e ∷ l) (n, f) = elim (Bool-cases (e.address == b)) [
  | inl t ↦ rw t f
  | inr t ↦ rw t (n, unlink-IsFresh a b l f)
]

pub unlink-Distinct : (b : ℕ) (l : List Entry) → Distinct l → Distinct (unlink b l)
unfolding unlink
unlink-Distinct b [] d = tt
unlink-Distinct b (e ∷ l) (f, d) = elim (Bool-cases (e.address == b)) [
  | inl t ↦ rw t d
  | inr t ↦ rw t (unlink-IsFresh e.address b l f, unlink-Distinct b l d)
]

pub unlink_fresh : (a : ℕ) (l : List Entry) → IsFresh a l → unlink a l ≡ l
unfolding unlink
unlink_fresh a [] f = refl
unlink_fresh a (e ∷ l) (n, f) = ground (arith, unlink_fresh a l f)

-- To take an entry out and to keep those of one key commute.
pub of_key-unlink :
    (a : ℕ) (k : Text) (l : List Entry) → Distinct l → of_key k (unlink a l) ≡ unlink a (of_key k l)
unfolding of_key unlink
of_key-unlink a k [] d = refl
of_key-unlink a k (e ∷ l) (f, d) = elim (Bool-cases (e.address == a)) [
  | inl t ↦
      let e' : e.address ≡ a = ground arith in
      let g = unlink_fresh a (of_key k l) (rw e' at (of_key-IsFresh e.address k l f)) in
      ground (arith, g)
  | inr t ↦ ground (arith, of_key-unlink a k l d)
]

pub Contains-IsFresh :
    (a : ℕ) (e : Entry) (l : List Entry) → Contains e l → IsFresh a l → e.address ≢ a
Contains-IsFresh a e [] c f q = absurd c
Contains-IsFresh a e (x ∷ l) (inl p) (n, f) q = n (ap (λ (y : Entry). y.address) p ∙ q)
Contains-IsFresh a e (x ∷ l) (inr c) (n, f) q = Contains-IsFresh a e l c f q

-- An entry of another key is not among those of a key.
pub other_key :
    (e : Entry) (k : Text) (l : List Entry)
    → Contains e l
    → Distinct l
    → eqb_text e.key k ≡ false
    → IsFresh e.address (of_key k l)
unfolding of_key
other_key e k [] c d n = absurd c
other_key e k (x ∷ l) (inl p) (f, d) n =
    let same : eqb_text x.key k ≡ false = ap (λ (y : Entry). eqb_text y.key k) p ∙ n in
    rw (same, ← p) (of_key-IsFresh x.address k l f)
other_key e k (x ∷ l) (inr c) (f, d) n = elim (Bool-cases (eqb_text x.key k)) [
  | inl t ↦ rw t (λ q. Contains-IsFresh x.address e l c f (sym q), other_key e k l c d n)
  | inr t ↦ rw t (other_key e k l c d n)
]

pub total-unlink :
    (e : Entry) (l : List Entry)
    → Contains e l
    → Distinct l
    → total (unlink e.address l) + e.size ≡ total l
unfolding total unlink
total-unlink e [] c d = absurd c
total-unlink e (x ∷ l) (inl p) (f, d) =
    let a = ap (λ (y : Entry). y.address) p in
    let s = ap (λ (y : Entry). y.size) p in ground (arith)
total-unlink e (x ∷ l) (inr c) (f, d) =
    let n = Contains-IsFresh x.address e l c f in ground (arith, total-unlink e l c d)

pub unlink_self-IsFresh : (a : ℕ) (l : List Entry) → Distinct l → IsFresh a (unlink a l)
unfolding unlink
unlink_self-IsFresh a [] d = tt
unlink_self-IsFresh a (e ∷ l) (f, d) = elim (Bool-cases (e.address == a)) [
  | inl t ↦ let e' : e.address ≡ a = ground arith in rw t (rw e' at f)
  | inr t ↦ rw t (ground arith, unlink_self-IsFresh a l d)
]

-- the last entry
pub tail-Contains : (l : List Entry) (v : Entry) → tail l ≡ some v → Contains v l
unfolding tail
tail-Contains [] v p = absurd (none-some p)
tail-Contains (e ∷ []) v p = inl (some_inj p)
tail-Contains (e ∷ x ∷ l) v p = inr (tail-Contains (x ∷ l) v p)

pub before_tail-unlink :
    (l : List Entry) (v : Entry) → Distinct l → tail l ≡ some v → before_tail l ≡ unlink v.address l
unfolding tail before_tail unlink
before_tail-unlink [] v d p = refl
before_tail-unlink (e ∷ []) v d p =
    let q = ap (λ (y : Entry). y.address) (some_inj p) in ground arith
before_tail-unlink (e ∷ x ∷ l) v (f, d) p =
    let n = Contains-IsFresh e.address v (x ∷ l) (tail-Contains (x ∷ l) v p) f in
    let ih = before_tail-unlink (x ∷ l) v d p in
    let ne : (e.address == v.address) ≡ false = ground (arith, n) in rw ne (ap (λ m. e ∷ m) ih)

-- Without the last entry, a key has the same first entry, or none.
pub head-before_tail :
    (k : Text) (l : List Entry)
    → (head (of_key k (before_tail l)) ≡ none)
      ⊎ (head (of_key k (before_tail l)) ≡ head (of_key k l))
unfolding before_tail of_key
head-before_tail k [] = inl refl
head-before_tail k (e ∷ []) = inl refl
head-before_tail k (e ∷ x ∷ l) = elim (Bool-cases (eqb_text e.key k)) [
  | inl t ↦ rw t (inr refl)
  | inr t ↦ rw (of_key, t) (head-before_tail k (x ∷ l))
]

pub length-before_tail :
    (l : List Entry) (v : Entry) → tail l ≡ some v → length l ≡ suc (length (before_tail l))
unfolding tail before_tail
length-before_tail [] v p = absurd (none-some p)
length-before_tail (e ∷ []) v p = refl
length-before_tail (e ∷ x ∷ l) v p = ap suc (length-before_tail (x ∷ l) v p)

pub head-Contains :
    (k : Text) (l : List Entry) (e : Entry)
    → head (of_key k l) ≡ some e
    → Contains e l × (eqb_text e.key k ≡ true)
unfolding of_key
head-Contains k [] e p = absurd (none-some p)
head-Contains k (x ∷ l) e p = elim (Bool-cases (eqb_text x.key k)) [
  | inl t ↦
      let q : x ≡ e = some_inj (sym (rw t refl) ∙ p) in
      (inl q, ap (λ (y : Entry). eqb_text y.key k) (sym q) ∙ t)
  | inr t ↦ let (c, q) = head-Contains k l e (sym (rw t refl) ∙ p) in (inr c, q)
]
