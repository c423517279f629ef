-- ===== src/QueryEngine.antt =====
-- week 8/queryEngine/queryEngine.c: SELECT name, age FROM students WHERE city = "chennai" LIMIT 1, as
-- four operators that pull rows from the one below. The table is an argument; `open` and `close` only
-- print, but for `table_scan_open`.
pub mod Rows
pub mod Scan
use iitm.Prelude.{
  ℕ, zero, suc, ◌+◌, Bool, true, false, Option, some, none, List, [], ◌∷◌, ltb, if◌then◌else◌,
  get_elem?, Text, eqb_text,
}

pub record Student : Type 0 where
  pub name : Text
  pub age : ℕ
  pub city : Text

-- `TABLESIZE` and `LIMIT`
abbrev pub table_size : ℕ
table_size = 5

abbrev pub limit : ℕ
limit = 1

-- the globals `currentIndex` and `currentLimit`
pub record Engine : Type 0 where
  pub current_index : ℕ
  pub current_limit : ℕ

abbrev pub init_engine : Engine
init_engine = record { current_index = 0; current_limit = 0 }

abbrev pub chennai : Text
chennai = b'c' ∷ b'h' ∷ b'e' ∷ b'n' ∷ b'n' ∷ b'a' ∷ b'i' ∷ []

-- the row that is printed
abbrev pub Row : Type 0
Row = Text × ℕ

-- what `limit_next` makes of the result of `filter_next`
abbrev pub counted : Option Student × Engine → Option Student × Engine
counted (none, e) = (none, e)
counted (some current, e) = (some current, record e { current_limit = e.current_limit + 1 })

-- one round of `filter_next` more than the table has rows
abbrev pub scan_fuel : ℕ
scan_fuel = suc table_size

module _ (students : List Student) where
  -- `table_scan_open`, and with it `filter_open`, `limit_open` and `projection_open`
  abbrev pub table_scan_open : Engine → Engine
  table_scan_open e = record e { current_index = 0 }

  unfoldable pub table_scan_next : Engine → Option Student × Engine
  table_scan_next e =
      if ltb e.current_index table_size
      then (get_elem? students e.current_index, record e { current_index = e.current_index + 1 })
      else (none, e)

  -- the loop of `filter_next`; `fuel` bounds its rounds
  unfoldable pub filter_next : ℕ → Engine → Option Student × Engine
  filter_next zero e = (none, e)
  filter_next (suc fuel) e =
      let r = table_scan_next e in
      let rest = filter_next fuel r.1 in
      elim r.0 [ none ↦ r | some current ↦ if eqb_text current.city chennai then r else rest ]

  unfoldable pub limit_next : Engine → Option Student × Engine
  limit_next e = if ltb e.current_limit limit then counted (filter_next scan_fuel e) else (none, e)

  unfoldable pub projection_next : ℕ → Engine → List Row × Engine
  projection_next zero e = ([], e)
  projection_next (suc fuel) e =
      let r = limit_next e in
      let later = projection_next fuel r.1 in
      elim r.0 [
        | none ↦ ([], r.1)
        | some current ↦ ((current.name, current.age) ∷ later.0, later.1)
      ]

  -- `main`: the last round of the loop finds the limit reached, or no row
  unfoldable pub run_query : Engine → List Row × Engine
  run_query e = projection_next (suc limit) (table_scan_open e)

-- the table of the program: "Coimbatore" fills its field of ten bytes without a terminating zero
abbrev pub program_table : List Student
program_table =
    record {
      name = b'R' ∷ b'o' ∷ b'h' ∷ b'i' ∷ b't' ∷ b'h' ∷ [];
      age = 23;
      city = b'c' ∷ b'h' ∷ b'e' ∷ b'n' ∷ b'n' ∷ b'a' ∷ b'i' ∷ [];
    }
    ∷ record {
      name = b'N' ∷ b'a' ∷ b'v' ∷ b'e' ∷ b'e' ∷ b'n' ∷ [];
      age = 10;
      city = b'b' ∷ b'a' ∷ b'n' ∷ b'g' ∷ b'a' ∷ b'l' ∷ b'o' ∷ b'r' ∷ b'e' ∷ [];
    }
    ∷ record {
      name = b'D' ∷ b'i' ∷ b'n' ∷ b'e' ∷ b's' ∷ b'h' ∷ [];
      age = 18;
      city = b'C' ∷ b'o' ∷ b'i' ∷ b'm' ∷ b'b' ∷ b'a' ∷ b't' ∷ b'o' ∷ b'r' ∷ b'e' ∷ [];
    }
    ∷ record {
      name = b'V' ∷ b'i' ∷ b'g' ∷ b'n' ∷ b'e' ∷ b's' ∷ b'h' ∷ [];
      age = 24;
      city = b'c' ∷ b'h' ∷ b'e' ∷ b'n' ∷ b'n' ∷ b'a' ∷ b'i' ∷ [];
    }
    ∷ record {
      name = b'P' ∷ b'r' ∷ b'a' ∷ b'v' ∷ b'e' ∷ b'e' ∷ b'n' ∷ [];
      age = 26;
      city = b'M' ∷ b'u' ∷ b'm' ∷ b'b' ∷ b'a' ∷ b'i' ∷ [];
    }
    ∷ []
