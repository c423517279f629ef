-- ===== src/Tests/Recovery.antt =====
-- Runs of FILEIO/CrashRecovery/crashRecovery.c.
use iitm.Prelude.{eqb_text, ℕ, ◌≡◌, refl, false, some, none, List, [], ◌∷◌, replicate}
use iitm.CrashRecovery.{
  max_records, Record, DbContext, int_bytes, record_bytes, hash_from, calculate_checksum,
  next_after, init_database, write_wal_entry, slot_of, empty_slot, apply_to_database, new_record,
  insert_record, already_applied, replay_entry, replay, recover_from_wal, crash_after_wal,
}
use iitm.CrashRecovery.Recover.{IsLogged, recover_from_wal-crash_after_wal, insert_record-IsLogged}

program : Unit {0}
unfolding int_bytes record_bytes hash_from calculate_checksum next_after init_database
    write_wal_entry slot_of empty_slot apply_to_database new_record insert_record eqb_text
    already_applied replay_entry replay recover_from_wal crash_after_wal
program = tt

abbrev blank : Record
blank = record { id = 0; name = []; active = false }

abbrev alice : List ℕ
alice = 65 ∷ 108 ∷ 105 ∷ 99 ∷ 101 ∷ []

abbrev bob : List ℕ
bob = 66 ∷ 111 ∷ 98 ∷ []

-- a new database
abbrev new_db : DbContext
new_db = init_database (replicate max_records blank) []

abbrev with_alice : DbContext
with_alice = (insert_record new_db alice).0

second_id : (insert_record with_alice bob).1 ≡ some 2
unfolding program
second_id = refl

insert_record-IsLogged_example : IsLogged with_alice.db with_alice.wal
unfolding program
insert_record-IsLogged_example = insert_record-IsLogged new_db alice tt refl refl

recover_from_wal-crash_after_wal_example :
    let crashed = crash_after_wal new_db bob in
    let (recovered, count) = recover_from_wal (init_database crashed.db crashed.wal) in
    let (inserted, id) = insert_record new_db bob in
    (recovered.db ≡ inserted.db) × (count ≡ elim id [ none ↦ 0 | some i ↦ 1 ])
unfolding program
recover_from_wal-crash_after_wal_example = recover_from_wal-crash_after_wal new_db bob tt refl
