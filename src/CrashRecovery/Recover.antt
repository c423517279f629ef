-- ===== src/CrashRecovery/Recover.antt =====
-- A crash after the log was written, and recovery.
use iitm.Prelude.{
  ℕ, ◌+◌, ◌≤◌, ◌≡◌, refl, sym, ◌∙◌, ap, Bool, true, false, Bool-cases, inl, inr, Option, some, none,
  List, [], ◌∷◌, ◌++◌, ◌==◌, if◌then◌else◌, set, by_test, none-some, arith, ltb,
}
use iitm.SortedList.{All}
use iitm.CrashRecovery.Apply.{slot_of-already_applied, placed-applied, kept-applied}
use iitm.CrashRecovery.{
  Record, WalEntry, DbContext, slot_of, empty_slot, already_applied, apply_to_database,
  calculate_checksum, init_database, write_wal_entry, new_record, insert_record, replay_entry,
  replay, recover_from_wal, crash_after_wal,
}

-- whether the checksum of an entry is right
abbrev pub is_intact : WalEntry → Bool
is_intact e = e.checksum == calculate_checksum e.entry_data

-- every intact entry of the log is in the table
abbrev pub IsLogged : List Record → List WalEntry → Type 0
IsLogged db wal = All (λ e. is_intact e ≡ true → already_applied db e.entry_data ≡ true) wal

abbrev entry : Record → WalEntry
entry r = record { record_id = r.id; entry_data = r; checksum = calculate_checksum r }

replay_entry-applied :
    (db : List Record) (n : ℕ) (e : WalEntry)
    → (is_intact e ≡ true → already_applied db e.entry_data ≡ true)
    → replay_entry (db, n) e ≡ (db, n)
unfolding replay_entry
replay_entry-applied db n e p = elim (Bool-cases (is_intact e)) [
  | inl t ↦ rw (t, p t) refl
  | inr f ↦ rw f refl
]

replay-logged :
    (db : List Record) (n : ℕ) (wal rest : List WalEntry)
    → IsLogged db wal
    → replay (db, n) (wal ++ rest) ≡ replay (db, n) rest
unfolding replay
replay-logged db n [] rest p = refl
replay-logged db n (e ∷ wal) rest (p, q) =
    ap (λ s. replay s (wal ++ rest)) (replay_entry-applied db n e p) ∙ replay-logged db n wal rest q

replay-last :
    (db : List Record) (wal : List WalEntry) (r : Record)
    → IsLogged db wal
    → slot_of db r.id ≡ none
    → replay (db, 0) (wal ++ (entry r ∷ []))
      ≡ ((apply_to_database db r).0, if (apply_to_database db r).1 then 1 else 0)
unfolding replay replay_entry
replay-last db wal r p q =
    let intact : (calculate_checksum r == calculate_checksum r) ≡ true = ground arith in
    replay-logged db 0 wal (entry r ∷ []) p ∙ rw (intact, slot_of-already_applied db r q) refl

count_id :
    (b : Bool) (i : ℕ)
    → (if b then 1 else 0) ≡ elim (if b then some i else none) as (λ o. ℕ) [ none ↦ 0 | some j ↦ 1 ]
count_id true i = refl
count_id false i = refl

-- If the table holds every intact entry of the log and has no active record of the next id, then a
-- crash between the log and the table is repaired at the next start: recovery leaves the records
-- that `insert_record` would have left, and replays one entry if the table had room, and none
-- otherwise.
pub recover_from_wal-crash_after_wal :
    (ctx : DbContext) (name : List ℕ)
    → IsLogged ctx.db ctx.wal
    → slot_of ctx.db ctx.next_id ≡ none
    → (let crashed = crash_after_wal ctx name in
        let (recovered, count) = recover_from_wal (init_database crashed.db crashed.wal) in
        let (inserted, id) = insert_record ctx name in
        (recovered.db ≡ inserted.db) × (count ≡ elim id [ none ↦ 0 | some i ↦ 1 ]))
unfolding crash_after_wal init_database write_wal_entry recover_from_wal insert_record new_record
recover_from_wal-crash_after_wal ctx name p q =
    let r = new_record ctx.next_id name in
    let e = replay-last ctx.db ctx.wal r p q in
    (ap (λ s. s.0) e, ap (λ s. s.1) e ∙ count_id (apply_to_database ctx.db r).1 r.id)

apply_to_database-same :
    (db : List Record) (r : Record)
    → (apply_to_database db r).1 ≡ false
    → (apply_to_database db r).0 ≡ db
unfolding apply_to_database
apply_to_database-same db r = found (slot_of db r.id) (empty_slot db) refl refl
  where
    found :
        (a b : Option ℕ)
        → slot_of db r.id ≡ a
        → empty_slot db ≡ b
        → (apply_to_database db r).1 ≡ false
        → (apply_to_database db r).0 ≡ db
    found (some slot) b p q = rw (apply_to_database, p) (λ f. absurd cc)
    found none (some slot) p q = rw (apply_to_database, p, q) (λ f. absurd cc)
    found none none p q = rw (apply_to_database, p, q) (λ f. refl)

replay_entry-count :
    (db : List Record) (n : ℕ) (e : WalEntry)
    → let s = replay_entry (db, n) e in (n ≤ s.1) × (s.1 ≡ n → s.0 ≡ db)
unfolding replay_entry
replay_entry-count db n e =
    by_test {A = List Record × ℕ} (λ s. (n ≤ s.1) × (s.1 ≡ n → s.0 ≡ db)) (is_intact e)
      (λ _.
        by_test {A = List Record × ℕ} (λ s. (n ≤ s.1) × (s.1 ≡ n → s.0 ≡ db))
          (already_applied db e.entry_data) (λ _. (omega arith, λ _. refl))
          (λ _. tried (apply_to_database db e.entry_data).1 refl))
      (λ _. (omega arith, λ _. refl))
  where
    tried :
        (b : Bool)
        → (apply_to_database db e.entry_data).1 ≡ b
        → (n ≤ (if b then n + 1 else n))
          × ((if b then n + 1 else n) ≡ n → (apply_to_database db e.entry_data).0 ≡ db)
    tried true p = (omega arith, λ q. absurd (omega arith))
    tried false p = (omega arith, λ _. apply_to_database-same db e.entry_data p)

replay-count :
    (db : List Record) (n : ℕ) (wal : List WalEntry)
    → let s = replay (db, n) wal in (n ≤ s.1) × (s.1 ≡ n → s.0 ≡ db)
unfolding replay
replay-count db n [] = (omega arith, λ e. refl)
replay-count db n (e ∷ wal) =
    let s = replay_entry (db, n) e in
    let (a, b) = replay_entry-count db n e in
    let (c, d) = replay-count s.0 s.1 wal in (omega arith, λ f. d (omega arith) ∙ b (omega arith))

settled : (ctx : DbContext) → (replay (ctx.db, 0) ctx.wal).1 ≡ 0 → recover_from_wal ctx ≡ (ctx, 0)
unfolding recover_from_wal
settled ctx p =
    let q : (replay (ctx.db, 0) ctx.wal).0 ≡ ctx.db = (replay-count ctx.db 0 ctx.wal).1 p in
    rw (p, q) refl

cleared :
    (ctx : DbContext)
    → ltb 0 (replay (ctx.db, 0) ctx.wal).1 ≡ true
    → (recover_from_wal ctx).0.wal ≡ []
unfolding recover_from_wal
cleared ctx t = rw t refl

-- A second recovery, with no insertion since the first, replays nothing and changes nothing.
recover_from_wal-twice :
    (ctx : DbContext) → let ctx' = (recover_from_wal ctx).0 in recover_from_wal ctx' ≡ (ctx', 0)
unfolding replay
recover_from_wal-twice ctx = elim (Bool-cases (ltb 0 (replay (ctx.db, 0) ctx.wal).1)) [
  | inl t ↦
      let ctx' = (recover_from_wal ctx).0 in
      settled ctx' (ap (λ w. (replay (ctx'.db, 0) w).1) (cleared ctx t))
  | inr f ↦
      let e = settled ctx (ground arith) in
      ap (λ s. recover_from_wal s.0) e ∙ e ∙ ap (λ s. (s.0, 0)) (sym e)
]

add-IsLogged :
    (db db' : List Record) (wal : List WalEntry) (r : Record)
    → ((e : Record) → already_applied db e ≡ true → already_applied db' e ≡ true)
    → already_applied db' r ≡ true
    → IsLogged db wal
    → IsLogged db' (wal ++ (entry r ∷ []))
add-IsLogged db db' [] r keep new p = (λ _. new, tt)
add-IsLogged db db' (e ∷ wal) r keep new (p, q) =
    (λ t. keep e.entry_data (p t), add-IsLogged db db' wal r keep new q)

-- If the table holds every intact entry of the log and has no active record of the next id, this still
-- holds of the log after an `insert_record` that returns an id.
pub insert_record-IsLogged :
    (ctx : DbContext) (name : List ℕ) {i : ℕ}
    → IsLogged ctx.db ctx.wal
    → slot_of ctx.db ctx.next_id ≡ none
    → (insert_record ctx name).1 ≡ some i
    → IsLogged (insert_record ctx name).0.db (insert_record ctx name).0.wal
unfolding insert_record write_wal_entry new_record apply_to_database
insert_record-IsLogged ctx name p q e = found (empty_slot ctx.db) refl
  where
    r : Record
    r = new_record ctx.next_id name

    found :
        (m : Option ℕ)
        → empty_slot ctx.db ≡ m
        → IsLogged (apply_to_database ctx.db r).0 (ctx.wal ++ (entry r ∷ []))
    found (some j) f =
        rw (apply_to_database, q, f)
          (add-IsLogged ctx.db (set ctx.db j r) ctx.wal r (λ x k. kept-applied ctx.db r x f k)
            (placed-applied ctx.db r refl f) p)
    found none f = absurd (none-some (sym (rw (insert_record, apply_to_database, q, f) refl) ∙ e))
