-- ===== src/QueryEngine/Scan.antt =====
-- The rows of a table that are of the city, as table_scan_next and filter_next come by them.
use iitm.Prelude.{
  ℕ, zero, suc, ◌+◌, ◌-◌, ◌≤◌, ◌<◌, ◌≡◌, refl, ap, true, false, Option, some, none, List, [], ◌∷◌,
  length, take, drop, get_elem?, if◌then◌else◌, eqb_text, arith, lt→ltb,
}
use iitm.QueryEngine.{
  Student, Engine, Row, table_size, limit, chennai, table_scan_next, filter_next,
}

-- the rows of the city, in the order of the table
unfoldable pub of_city : List Student → List Row
of_city [] = []
of_city (s ∷ rest) =
    if eqb_text s.city chennai then (s.name, s.age) ∷ of_city rest else of_city rest

pub drop-get_elem? :
    {A : Type 0} (xs : List A) (i : ℕ)
    → i < length xs
    → (x : A) × (get_elem? xs i ≡ some x) × (drop i xs ≡ x ∷ drop (suc i) xs)
drop-get_elem? [] i p = absurd (omega arith)
drop-get_elem? (x ∷ xs) zero p = (x, refl, refl)
drop-get_elem? (x ∷ xs) (suc i) p = drop-get_elem? xs i (omega arith)

pub drop_all : {A : Type 0} (xs : List A) (i : ℕ) → length xs ≤ i → drop i xs ≡ []
drop_all [] zero p = refl
drop_all [] (suc i) p = refl
drop_all (x ∷ xs) zero p = absurd (omega arith)
drop_all (x ∷ xs) (suc i) p = drop_all xs i (omega arith)

-- what `filter_next` leaves of the rows of the city, `rest` before the call
abbrev pub Remains : List Student → List Row → Option Student → Engine → Type 0
Remains students rest none e = rest ≡ []
Remains students rest (some s) e = rest ≡ (s.name, s.age) ∷ of_city (drop e.current_index students)

pub record Finds (students : List Student) (rest : List Row) (k : ℕ) (r : Option Student × Engine)
    : Type 0 where
  pub limit_kept : r.1.current_limit ≡ k
  pub rows : Remains students rest r.0 r.1

-- 1 for a row
abbrev pub found : Option Student → ℕ
found none = 0
found (some s) = 1

pub take-nil : (n : ℕ) → take {A = Row} n [] ≡ []
take-nil zero = refl
take-nil (suc n) = refl

-- nothing is printed once the limit is reached
pub none_left : (e : Engine) → limit ≤ e.current_limit → limit - e.current_limit ≡ 0
none_left e p = omega arith

module _ (students : List Student) (e : Engine) where
  table_scan_next-end : table_size ≤ e.current_index → table_scan_next students e ≡ (none, e)
  unfolding table_scan_next
  table_scan_next-end p = ground arith

  pub table_scan_next-row :
      (s : Student)
      → e.current_index < table_size
      → get_elem? students e.current_index ≡ some s
      → table_scan_next students e ≡ (some s, record e { current_index = suc e.current_index })
  unfolding table_scan_next
  table_scan_next-row s p at =
      let next : e.current_index + 1 ≡ suc e.current_index = omega arith in
      rw (lt→ltb e.current_index table_size p, at, next) refl

  module _ (fuel : ℕ) where
    pub filter_next-end :
        table_size ≤ e.current_index → filter_next students (suc fuel) e ≡ (none, e)
    unfolding filter_next
    filter_next-end p = rw (filter_next, table_scan_next-end p) (table_scan_next-end p)

    module _ (s : Student) (e' : Engine) (scan : table_scan_next students e ≡ (some s, e')) where
      pub filter_next-row :
          eqb_text s.city chennai ≡ true → filter_next students (suc fuel) e ≡ (some s, e')
      unfolding filter_next
      filter_next-row c = rw (filter_next, scan, c) scan

      pub filter_next-other :
          eqb_text s.city chennai ≡ false
          → filter_next students (suc fuel) e ≡ filter_next students fuel e'
      unfolding filter_next
      filter_next-other c = rw (filter_next, scan, c) (ap (λ r. filter_next students fuel r.1) scan)

pub of_city-row :
    (s : Student) (rest : List Student)
    → eqb_text s.city chennai ≡ true
    → of_city (s ∷ rest) ≡ (s.name, s.age) ∷ of_city rest
unfolding of_city
of_city-row s rest c = rw c refl

pub of_city-other :
    (s : Student) (rest : List Student)
    → eqb_text s.city chennai ≡ false
    → of_city (s ∷ rest) ≡ of_city rest
unfolding of_city
of_city-other s rest c = rw c refl
