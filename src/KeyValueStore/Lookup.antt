-- ===== src/KeyValueStore/Lookup.antt =====
-- What `get_value` finds after `set_value`.
use iitm.Prelude.{
  ℕ, zero, suc, ◌≤◌, ◌≡◌, refl, sym, ap, ◌∙◌, inl, inr, Bool, true, false, ◌||◌, ◌&&◌, Bool-cases,
  Option, some, none, [], ◌∷◌, ◌++◌, length, take, ltb, if◌then◌else◌, Text, eqb_text,
  eqb_text_congr, eqb_text_sym, arith,
}
use iitm.KeyValueStore.{
  KvPair, Store, max_items, key_len, val_len, replace_value, set_value, get_value, set, get, ok,
  reply_value, answer, value,
}

-- whether a key is in the store
unfoldable pub has_key : Text → Store → Bool
has_key k [] = false
has_key k (pair ∷ rest) = eqb_text pair.key k || has_key k rest

take_all : (n : ℕ) (t : Text) → length t ≤ n → take n t ≡ t
take_all zero [] p = refl
take_all zero (c ∷ t) p = absurd (omega arith)
take_all (suc n) [] p = refl
take_all (suc n) (c ∷ t) p = ap (λ s. c ∷ s) (take_all n t (omega arith))

replace_value-none :
    (k v : Text) (store : Store) → has_key k store ≡ false → replace_value k v store ≡ none
unfolding has_key replace_value
replace_value-none k v [] p = refl
replace_value-none k v (pair ∷ rest) p = ground (arith, replace_value-none k v rest)

-- what a store is after the value of a key that it has was replaced
abbrev Replaced : Text → Text → Store → Option Store → Type 0
Replaced k v store none = ⊥
Replaced k v store (some store') =
    (k' : Text)
    → get_value k' store' ≡ (if eqb_text k k' then some (take val_len v) else get_value k' store)

-- a pair with another key stays in front
kept-Replaced :
    (k v : Text) (pair : KvPair) (rest : Store) (o : Option Store)
    → eqb_text pair.key k ≡ false
    → Replaced k v rest o
    → Replaced k v (pair ∷ rest) (elim o [ none ↦ none | some rest' ↦ some (pair ∷ rest') ])
unfolding get_value
kept-Replaced k v pair rest none f r = r
kept-Replaced k v pair rest (some rest') f r = λ k'. ground (arith, r k', apart k')
  where
    apart : (k' : Text) → eqb_text pair.key k' ≡ true → eqb_text k k' ≡ false
    apart k' e = eqb_text_sym k k' ∙ sym (eqb_text_congr pair.key k' k e) ∙ f

replace_value-Replaced :
    (k v : Text) (store : Store)
    → has_key k store ≡ true
    → Replaced k v store (replace_value k v store)
unfolding has_key replace_value get_value
replace_value-Replaced k v [] p = cc
replace_value-Replaced k v (pair ∷ rest) p = elim (Bool-cases (eqb_text pair.key k)) [
  | inl t ↦ rw (Replaced, t) (λ k'. ground (arith, eqb_text_congr pair.key k k' t))
  | inr f ↦ rw f (
      kept-Replaced k v pair rest (replace_value k v rest) f
        (replace_value-Replaced k v rest (sym (rw f refl) ∙ p)))
]

get_value-append :
    (k k' v : Text) (store : Store)
    → has_key k store ≡ false
    → get_value k' (store ++ record { key = k; val = v } ∷ [])
      ≡ (if eqb_text k k' then some v else get_value k' store)
unfolding has_key get_value
get_value-append k k' v [] p = refl
get_value-append k k' v (pair ∷ rest) p = ground (arith, get_value-append k k' v rest, apart)
  where
    apart : eqb_text pair.key k ≡ false → eqb_text pair.key k' ≡ true → eqb_text k k' ≡ false
    apart f e = eqb_text_sym k k' ∙ sym (eqb_text_congr pair.key k' k e) ∙ f

-- the value of another state of the store, for one that has the key
held-Replaced :
    (k v k' : Text) (store : Store) (o : Option Store) (new : Store)
    → Replaced k v store o
    → get_value k' (elim o [ some store' ↦ store' | none ↦ new ])
      ≡ (if eqb_text k k' then some (take val_len v) else get_value k' store)
held-Replaced k v k' store none new r = absurd r
held-Replaced k v k' store (some store') new r = r k'

set_value-new :
    (k v : Text) (store : Store)
    → replace_value k v store ≡ none
    → length k ≤ key_len
    → length v ≤ val_len
    → set_value k v store
      ≡ (if ltb (length store) max_items then store ++ record { key = k; val = v } ∷ [] else store)
unfolding set_value
set_value-new k v store e p q = rw (set_value, e, take_all key_len k p, take_all val_len v q) refl

get_value-set_value :
    (k v k' : Text) (store : Store)
    → length k ≤ key_len
    → length v ≤ val_len
    → get_value k' (set_value k v store) ≡ (
        if eqb_text k k' && (has_key k store || ltb (length store) max_items)
        then some v
        else get_value k' store)
unfolding set_value
get_value-set_value k v k' store p q = elim (Bool-cases (has_key k store)) [
  | inl h ↦
      let e =
        held-Replaced k v k' store (replace_value k v store) _
          (replace_value-Replaced k v store h) in
      e ∙ rw (h, take_all val_len v q) (ground arith)
  | inr h ↦
      let e = get_value-append k k' v store h in
      rw (set_value-new k v store (replace_value-none k v store h) p q, h) (ground (arith, e))
]

-- For a key of at most 63 bytes and a value of at most 255, SET is answered with OK, and what GET then
-- finds under that key is the value, and under any other key what it found before; but if the key is
-- new and the store has 128 pairs, OK is answered all the same, and GET finds what it found before.
pub answer_set_lem :
    (k v : Text) (store : Store)
    → length k ≤ key_len
    → length v ≤ val_len
    → (k' : Text)
    → (answer (set (some (k, v))) store).0 ≡ ok
      × ((answer (get (some k')) (answer (set (some (k, v))) store).1).0 ≡ (
          if eqb_text k k' && (has_key k store || ltb (length store) max_items)
          then value v
          else (answer (get (some k')) store).0))
unfolding answer set_value
answer_set_lem k v store p q k' =
    (refl, ap reply_value (get_value-set_value k v k' store p q) ∙ ground arith)
