-- ===== src/CrashRecovery/Apply.antt =====
-- `apply_to_database` and the test of `recover_from_wal` whether an entry is in the table.
use iitm.Prelude.{
  eqb_text, eqb_text_refl, ℕ, suc, ◌+◌, ◌≡◌, refl, sym, ◌∙◌, Bool, true, false, ◌&&◌, ◌||◌, ◌⊎◌,
  some_inj, Bool-cases, inl, inr, Option, some, none, List, [], ◌∷◌, ◌==◌, ◌>>=◌, set, none-some,
  arith,
}
use iitm.CrashRecovery.{Record, slot_of, empty_slot, already_applied}

-- whether an active record in slot `x` is that of the entry
abbrev is_entry : Record → Record → Bool
is_entry x e = x.active && ((x.id == e.id) && eqb_text x.name e.name)

is_entry_self : (r : Record) → r.active ≡ true → is_entry r r ≡ true
is_entry_self r a =
    let e : (r.id == r.id) ≡ true = ground arith in rw (a, e, eqb_text_refl r.name) refl

skip :
    (x : Record) (db : List Record) (e : Record)
    → x.active ≡ false
    → already_applied (x ∷ db) e ≡ already_applied db e
unfolding already_applied
skip x db e f = rw f refl

or_left : (a b : Bool) → a ≡ true → (a || b) ≡ true
or_left a b p = rw p refl

or_false : {a b : Bool} → a ≡ false → (a || b) ≡ b
or_false p = rw p refl

or_true : (a : Bool) {b : Bool} → b ≡ true → (a || b) ≡ true
or_true true p = refl
or_true false p = p

and_false : (a b c : Bool) → (a && b) ≡ false → (a && (b && c)) ≡ false
and_false true true c p = cc
and_false true false c p = refl
and_false false b c p = refl

-- An id that no active record has is in no entry that the table holds.
pub slot_of-already_applied :
    (db : List Record) (e : Record) → slot_of db e.id ≡ none → already_applied db e ≡ false
unfolding already_applied slot_of
slot_of-already_applied [] e p = refl
slot_of-already_applied (x ∷ db) e p = elim (Bool-cases (x.active && (x.id == e.id))) [
  | inl t ↦ absurd (found t)
  | inr f ↦
      rw (and_false x.active (x.id == e.id) (eqb_text x.name e.name) f)
        (slot_of-already_applied db e (rest (slot_of db e.id) (sym (other f) ∙ p)))
]
  where
    found : (x.active && (x.id == e.id)) ≡ true → ⊥
    found t = none-some {a = 0} (sym p ∙ rw (slot_of, t) refl)

    other :
        (x.active && (x.id == e.id)) ≡ false
        → slot_of (x ∷ db) e.id ≡ (slot_of db e.id >>= λ i. some (i + 1))
    other f = rw (slot_of, f) refl

    rest : (m : Option ℕ) → (m >>= λ i. some (i + 1)) ≡ none → m ≡ none
    rest none q = refl
    rest (some i) q = cc

-- Where an empty slot is.
slot-cases :
    (x : Record) (db : List Record) {i : ℕ}
    → empty_slot (x ∷ db) ≡ some i
    → ((x.active ≡ false) × (i ≡ 0)) ⊎ ((j : ℕ) × (empty_slot db ≡ some j) × (i ≡ suc j))
unfolding empty_slot
slot-cases x db {i} p = elim (Bool-cases x.active) [
  | inl t ↦ inr (next (empty_slot db) refl (sym (rw (empty_slot, t) refl) ∙ p))
  | inr f ↦ inl (f, some_inj (sym p ∙ rw (empty_slot, f) refl))
]
  where
    next :
        (m : Option ℕ)
        → empty_slot db ≡ m
        → (m >>= λ j. some (j + 1)) ≡ some i
        → (j : ℕ) × (empty_slot db ≡ some j) × (i ≡ suc j)
    next none e q = absurd (none-some q)
    next (some j) e q = let n : j + 1 ≡ i = some_inj q in (j, e, omega arith)

-- The record that has gone to an empty slot is in the table.
pub placed-applied :
    (db : List Record) (r : Record) {i : ℕ}
    → r.active ≡ true
    → empty_slot db ≡ some i
    → already_applied (set db i r) r ≡ true
unfolding empty_slot already_applied
placed-applied [] r a p = absurd (none-some p)
placed-applied (x ∷ db) r {i} a p = elim (slot-cases x db p) [
  | inl (f, n) ↦ rw n (or_left (is_entry r r) _ (is_entry_self r a))
  | inr (j, e, n) ↦ rw n (or_true (is_entry x r) (placed-applied db r a e))
]

-- A new record in an empty slot keeps the entries that the table holds.
pub kept-applied :
    (db : List Record) (r e : Record) {i : ℕ}
    → empty_slot db ≡ some i
    → already_applied db e ≡ true
    → already_applied (set db i r) e ≡ true
unfolding empty_slot already_applied
kept-applied [] r e p q = absurd (none-some p)
kept-applied (x ∷ db) r e {i} p q = elim (slot-cases x db p) [
  | inl (f, n) ↦ rw n (or_true (is_entry r e) (sym (skip x db e f) ∙ q))
  | inr (j, e', n) ↦ rw n (elim (Bool-cases (is_entry x e)) [
    | inl t ↦ or_left (is_entry x e) _ t
    | inr g ↦ or_true (is_entry x e) (kept-applied db r e e' (sym (or_false g) ∙ q))
  ])
]
