-- ===== src/CrashRecovery.antt =====
-- FILEIO/CrashRecovery/crashRecovery.c: a table of records in a mapped file, with a write-ahead log.
-- All system calls succeed, and the log holds whole entries; `time_stamp` and the text of the checksum
-- are left out: a checksum is the number that `%08X` prints.
pub mod Apply
pub mod Recover
use iitm.Prelude.{
  eqb_text, signed_char, ℕ, zero, suc, ◌+◌, ◌*◌, ◌^◌, ◌%◌, ◌/◌, Bool, true, false, ◌&&◌, ◌||◌,
  Option, some, none, List, [], ◌∷◌, ◌++◌, ltb, leb, ◌-◌, ◌==◌, if◌then◌else◌, ◌>>=◌, set, take,
  length, replicate,
}

abbrev pub max_records : ℕ
max_records = 100

-- `name` is the text before the terminating zero, at most 31 bytes
pub record Record : Type 0 where
  pub id : ℕ
  pub name : List ℕ
  pub active : Bool

pub record WalEntry : Type 0 where
  pub record_id : ℕ
  pub entry_data : Record
  pub checksum : ℕ

-- the files and `next_id`
pub record DbContext : Type 0 where
  pub db : List Record
  pub wal : List WalEntry
  pub next_id : ℕ

-- the bytes of an `int`, the lowest first
unfoldable pub int_bytes : ℕ → List ℕ
int_bytes n = n % 256 ∷ n / 256 % 256 ∷ n / 65536 % 256 ∷ n / 16777216 % 256 ∷ []

unfoldable pub record_bytes : Record → List ℕ
record_bytes r =
    int_bytes r.id
    ++ (r.name ++ (replicate (32 - length r.name) 0 ++ int_bytes (if r.active then 1 else 0)))

-- A `char` is signed: a byte from 128 on counts as 256 less, modulo 2 ^ 32.
unfoldable pub hash_from : ℕ → List ℕ → ℕ
hash_from hash [] = hash
hash_from hash (b ∷ bytes) = hash_from ((hash * 31 + signed_char b) % 2 ^ 32) bytes

unfoldable pub calculate_checksum : Record → ℕ
calculate_checksum r = hash_from 0 (record_bytes r)

unfoldable pub next_after : ℕ → List Record → ℕ
next_after next_id [] = next_id
next_after next_id (r ∷ db) =
    next_after (if r.active && leb next_id r.id then r.id + 1 else next_id) db

-- a new process opens the files
unfoldable pub init_database : List Record → List WalEntry → DbContext
init_database db wal = record { db = db; wal = wal; next_id = next_after 1 db }

unfoldable pub write_wal_entry : DbContext → Record → DbContext
write_wal_entry ctx r = record ctx {
  wal =
      ctx.wal
      ++ (record { record_id = r.id; entry_data = r; checksum = calculate_checksum r } ∷ []);
}

-- the first slot with an active record of this id
unfoldable pub slot_of : List Record → ℕ → Option ℕ
slot_of [] id = none
slot_of (r ∷ db) id =
    let rest = slot_of db id >>= λ i. some (i + 1) in
    if r.active && (r.id == id) then some 0 else rest

unfoldable pub empty_slot : List Record → Option ℕ
empty_slot [] = none
empty_slot (r ∷ db) =
    let rest = empty_slot db >>= λ i. some (i + 1) in if r.active then rest else some 0

-- the records and whether there was a slot
unfoldable pub apply_to_database : List Record → Record → List Record × Bool
apply_to_database db r = elim (slot_of db r.id) [
  | some slot ↦ (set db slot r, true)
  | none ↦ (elim (empty_slot db) [ some slot ↦ (set db slot r, true) | none ↦ (db, false) ])
]

-- `strncpy` of at most 31 bytes
unfoldable pub new_record : ℕ → List ℕ → Record
new_record id name = record { id = id; name = take 31 name; active = true }

-- `none` is the result -1
unfoldable pub insert_record : DbContext → List ℕ → DbContext × Option ℕ
insert_record ctx name =
    let r = new_record ctx.next_id name in
    let ctx' = write_wal_entry (record ctx { next_id = ctx.next_id + 1 }) r in
    let (db, applied) = apply_to_database ctx'.db r in
    (record ctx' { db = db }, if applied then some r.id else none)

unfoldable pub already_applied : List Record → Record → Bool
already_applied [] e = false
already_applied (r ∷ db) e =
    (r.active && ((r.id == e.id) && eqb_text r.name e.name)) || already_applied db e

-- one entry of the loop of `recover_from_wal`
unfoldable pub replay_entry : List Record × ℕ → WalEntry → List Record × ℕ
replay_entry (db, recovered) e =
    if e.checksum == calculate_checksum e.entry_data
    then if already_applied db e.entry_data
      then (db, recovered)
      else (let (db', applied) = apply_to_database db e.entry_data in
          (db', if applied then recovered + 1 else recovered))
    else (db, recovered)

unfoldable pub replay : List Record × ℕ → List WalEntry → List Record × ℕ
replay s [] = s
replay s (e ∷ wal) = replay (replay_entry s e) wal

unfoldable pub recover_from_wal : DbContext → DbContext × ℕ
recover_from_wal ctx =
    let (db, recovered) = replay (ctx.db, 0) ctx.wal in
    (record ctx { db = db; wal = if ltb 0 recovered then [] else ctx.wal }, recovered)

-- the command `crash-after-wal`
unfoldable pub crash_after_wal : DbContext → List ℕ → DbContext
crash_after_wal ctx name =
    write_wal_entry (record ctx { next_id = ctx.next_id + 1 }) (new_record ctx.next_id name)
