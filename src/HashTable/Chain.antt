-- ===== src/HashTable/Chain.antt =====
-- One chain: what `insert`, `search` and `delete` do to the keys and values of its nodes.
use iitm.Prelude.{
  ℕ, ◌+◌, ◌≤◌, ◌≡◌, refl, sym, ap, ◌∙◌, Bool, true, false, ◌||◌, Bool-cases, inl, inr, some, none,
  [], ◌∷◌, if◌then◌else◌, by_test, Returns, Returns-bind, Text, eqb_text, eqb_text→eq,
  eqb_text_congr, eqb_text_sym, arith,
}
use iitm.HashTable.{Node, Chain, insert_from, insert_chain, find, delete_chain}

-- whether a node that is not the last one has the key
unfoldable pub buried : Text → Chain → Bool
buried key [] = false
buried key (temp ∷ []) = false
buried key (temp ∷ next ∷ rest) = eqb_text temp.key key || buried key (next ∷ rest)

-- how many nodes have the key
unfoldable pub count : Text → Chain → ℕ
count key [] = 0
count key (temp ∷ rest) = (if eqb_text temp.key key then 1 else 0) + count key rest

insert_from_freed : (new temp : Node) (rest : Chain) → insert_from true new temp rest ≡ none
unfolding insert_from
insert_from_freed new temp [] = refl
insert_from_freed new temp (next ∷ rest) =
    by_test (λ r. r ≡ none) (eqb_text temp.key new.key) (λ _. refl)
      (λ _. rw (insert_from_freed new next rest) refl)

-- what a chain is after the value of a key has been set
pub record Sets (new : Node) (chain chain' : Chain) : Type 0 where
  pub found :
      (key : Text)
      → find chain' key ≡ (if eqb_text new.key key then some new.value else find chain key)
  pub others : (key : Text) → eqb_text new.key key ≡ false → count key chain' ≡ count key chain
  pub once : (key : Text) → count key chain ≤ 1 → count key chain' ≤ 1

module _ (temp new : Node) (key : Text) (same : eqb_text temp.key new.key ≡ true) where
  -- a node with the key takes the value
  same-found :
      (rest : Chain)
      → find (record temp { value = new.value } ∷ rest) key
        ≡ (if eqb_text new.key key then some new.value else find (temp ∷ rest) key)
  unfolding find
  same-found rest = ground (arith, eqb_text_congr temp.key new.key key)

module _ (temp new : Node) (key : Text) (other : eqb_text temp.key new.key ≡ false) where
  apart : eqb_text temp.key key ≡ true → eqb_text new.key key ≡ false
  apart e = eqb_text_sym new.key key ∙ sym (eqb_text_congr temp.key key new.key e) ∙ other

  -- a node with another key stays in front
  other-found :
      (rest rest' : Chain)
      → find rest' key ≡ (if eqb_text new.key key then some new.value else find rest key)
      → find (temp ∷ rest') key
        ≡ (if eqb_text new.key key then some new.value else find (temp ∷ rest) key)
  unfolding find
  other-found rest rest' e = ground (arith, apart)

other-Sets :
    (temp new : Node)
    → eqb_text temp.key new.key ≡ false
    → (rest rest' : Chain) → Sets new rest rest'
    → Sets new (temp ∷ rest) (temp ∷ rest')
unfolding count
other-Sets temp new f rest rest' r = record {
  found = λ key. other-found temp new key f rest rest' (r.found key);
  others = λ key e. omega (arith, r.others key e);
  once = λ key b. ground (arith, apart temp new key f, r.others key, r.once key);
}

insert_from-Sets :
    (new temp : Node) (rest : Chain)
    → buried new.key (temp ∷ rest) ≡ false
    → Returns (Sets new (temp ∷ rest)) (insert_from false new temp rest)
unfolding insert_from buried find count
insert_from-Sets new temp [] p =
    by_test (Returns (Sets new (temp ∷ []))) (eqb_text temp.key new.key)
      (λ t. record {
        found = λ key. same-found temp new key t [];
        others = λ key e. refl;
        once = λ key b. b;
      })
      (λ f. record {
        found = λ key. other-found temp new key f [] (new ∷ []) refl;
        others = λ key e. ground arith;
        once = λ key b. ground (arith, apart temp new key f);
      })
insert_from-Sets new temp (next ∷ rest) p = elim (Bool-cases (eqb_text temp.key new.key)) [
  | inl t ↦ absurd (first t p)
  | inr f ↦ rw f (
      Returns-bind (Sets new (next ∷ rest)) (Sets new (temp ∷ next ∷ rest))
        (insert_from false new next rest) _ (insert_from-Sets new next rest (sym (rw f refl) ∙ p))
        (λ rest' r. other-Sets temp new f (next ∷ rest) rest' r))
]
  where
    first :
        eqb_text temp.key new.key ≡ true
        → (eqb_text temp.key new.key || buried new.key (next ∷ rest)) ≡ false
        → ⊥
    first t p = cc

-- A key in no node before the last is set, and no other key changes.
pub insert_chain-Sets :
    (new : Node) (chain : Chain)
    → buried new.key chain ≡ false
    → Returns (Sets new chain) (insert_chain new chain)
unfolding insert_chain find count
insert_chain-Sets new [] p = record {
  found = λ key. refl;
  others = λ key e. ground arith;
  once = λ key b. ground arith;
}
insert_chain-Sets new (temp ∷ rest) p = insert_from-Sets new temp rest p

insert_from-buried :
    (new temp : Node) (rest : Chain)
    → buried new.key (temp ∷ rest) ≡ true
    → insert_from false new temp rest ≡ none
unfolding insert_from buried
insert_from-buried new temp [] p = cc
insert_from-buried new temp (next ∷ rest) p = elim (Bool-cases (eqb_text temp.key new.key)) [
  | inl t ↦ rw (t, insert_from_freed new next rest) refl
  | inr f ↦ rw (f, insert_from-buried new next rest (sym (rw f refl) ∙ p)) refl
]

-- A key in a node before the last makes `insert` use the node that it has freed.
pub insert_chain-buried :
    (new : Node) (chain : Chain) → buried new.key chain ≡ true → insert_chain new chain ≡ none
unfolding insert_chain buried
insert_chain-buried new [] p = cc
insert_chain-buried new (temp ∷ rest) p = insert_from-buried new temp rest p

gone :
    (k key : Text) (chain : Chain) → eqb_text k key ≡ true → count k chain ≡ 0 → count key chain ≡ 0
gone k key chain e p = sym (ap (λ t. count t chain) (eqb_text→eq k key e)) ∙ p

apart' : (a k key : Text) → eqb_text a k ≡ false → eqb_text a key ≡ true → eqb_text k key ≡ false
apart' a k key f e = eqb_text_sym k key ∙ sym (eqb_text_congr a key k e) ∙ f

find-count : (key : Text) (chain : Chain) → count key chain ≡ 0 → find chain key ≡ none
unfolding find count
find-count key [] p = refl
find-count key (temp ∷ rest) p = ground (arith, find-count key rest)

-- What deletion leaves of a chain where the key stands at most once.
pub find-delete_chain :
    (chain : Chain) (k key : Text)
    → count k chain ≤ 1
    → find (delete_chain chain k) key ≡ (if eqb_text k key then none else find chain key)
unfolding find delete_chain count
find-delete_chain [] k key p = ground arith
find-delete_chain (temp ∷ rest) k key p = ground (
  arith,
  find-delete_chain rest k key,
  eqb_text_congr temp.key k key,
  apart' temp.key k key,
  find-count key rest,
  gone k key rest,
)

pub count-delete_chain :
    (chain : Chain) (k key : Text) → count key (delete_chain chain k) ≤ count key chain
unfolding delete_chain count
count-delete_chain [] k key = omega arith
count-delete_chain (temp ∷ rest) k key = ground (arith, count-delete_chain rest k key)
