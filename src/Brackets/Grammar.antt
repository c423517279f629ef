-- ===== src/Brackets/Grammar.antt =====
-- What the loop accepts, as a grammar.
use iitm.Prelude.{
  ℕ, Bool, ◌||◌, ◌==◌, ◌⊎◌, arith, true, false, Bool-cases, ◌≡◌, ◌↔◌, refl, sym, ap, ◌∙◌, subst,
  inl, inr, List, [], ◌∷◌, ◌++◌, Text,
}
use mathlib.Core.List.{append_assoc, append-nil}
use iitm.SortedList.{All}
use iitm.Brackets.{is_open, mismatch, matched_from, is_valid}

-- an opening bracket and the one that closes it
pub data Pairs : ℕ → ℕ → Type 0 where
  round : Pairs b'(' b')'
  curly : Pairs b'{' b'}'
  square : Pairs b'[' b']'

abbrev is_bracket : ℕ → Bool
is_bracket c =
    (c == b'(') || (c == b')') || (c == b'{') || (c == b'}') || (c == b'[') || (c == b']')

abbrev pub IsBracket : ℕ → Type 0
IsBracket c = is_bracket c ≡ true

-- Either nothing, or an opening bracket, a balanced text, the bracket that closes it and another
-- balanced text.
pub data IsBalanced : Text → Type 0 where
  nothing : IsBalanced []
  pair :
      (o c : ℕ) (inside after : Text)
      → Pairs o c
      → IsBalanced inside
      → IsBalanced after
      → IsBalanced (o ∷ inside ++ c ∷ after)

-- The tests of the code agree with the pairs.
Pairs-accepted :
    (o c : ℕ) → Pairs o c → (is_open o ≡ true) × (is_open c ≡ false) × (mismatch c o ≡ false)
Pairs-accepted _ _ round = (refl, refl, refl)
Pairs-accepted _ _ curly = (refl, refl, refl)
Pairs-accepted _ _ square = (refl, refl, refl)

matching-Pairs :
    (o c : ℕ)
    → is_open o ≡ true
    → IsBracket c
    → is_open c ≡ false
    → mismatch c o ≡ false
    → Pairs o c
matching-Pairs o c p b q r = elim which [
  | inl (e, f) ↦ rw (e, f) round
  | inr (inl (e, f)) ↦ rw (e, f) curly
  | inr (inr (e, f)) ↦ rw (e, f) square
]
  where
    which : ((o ≡ b'(') × (c ≡ b')')) ⊎ (((o ≡ b'{') × (c ≡ b'}')) ⊎ ((o ≡ b'[') × (c ≡ b']')))
    which = ground arith

-- A balanced text leaves the stack as it was.
balanced_passes :
    (s : Text)
    → IsBalanced s
    → (stack : List ℕ) (rest : Text) → matched_from stack (s ++ rest) ≡ matched_from stack rest
unfolding matched_from
balanced_passes _ nothing stack rest = refl
balanced_passes _ (pair o c inside after m b d) stack rest =
    opened stack
    ∙ ap (matched_from (o ∷ stack)) (append_assoc inside (c ∷ after) rest)
    ∙ balanced_passes inside b (o ∷ stack) (c ∷ after ++ rest)
    ∙ closed
    ∙ balanced_passes after d stack rest
  where
    opened :
        (stack : List ℕ)
        → matched_from stack (o ∷ (inside ++ c ∷ after) ++ rest)
          ≡ matched_from (o ∷ stack) ((inside ++ c ∷ after) ++ rest)
    opened [] = rw (Pairs-accepted o c m).0 refl
    opened (t ∷ stack) = rw (Pairs-accepted o c m).0 refl

    closed : matched_from (o ∷ stack) (c ∷ after ++ rest) ≡ matched_from stack (after ++ rest)
    closed = rw ((Pairs-accepted o c m).1, (Pairs-accepted o c m).2) refl

-- What is left to read with such a stack: a balanced text, then for each bracket on the stack the one
-- that closes it and a balanced text.
data Closes : List ℕ → Text → Type 0 where
  done : (s : Text) → IsBalanced s → Closes [] s
  close :
      (o c : ℕ) (stack : List ℕ) (s rest : Text)
      → IsBalanced s
      → Pairs o c
      → Closes stack rest
      → Closes (o ∷ stack) (s ++ c ∷ rest)

-- A bracket opened and closed before the rest.
reopen : (o : ℕ) (stack : List ℕ) (s : Text) → Closes (o ∷ stack) s → Closes stack (o ∷ s)
reopen o stack _ (close _ c _ s rest b m k) = go stack rest k
  where
    go : (stack : List ℕ) (rest : Text) → Closes stack rest → Closes stack (o ∷ s ++ c ∷ rest)
    go _ _ (done t d) = done (o ∷ s ++ c ∷ t) (pair o c s t m b d)
    go _ _ (close o' c' stack' t rest' d m' k') =
        subst (Closes (o' ∷ stack')) (ap (λ u. o ∷ u) (append_assoc s (c ∷ t) (c' ∷ rest')))
          (close o' c' stack' (o ∷ s ++ c ∷ t) rest' (pair o c s t m b d) m' k')

accepted-Closes :
    (stack : List ℕ) (s : Text)
    → All (λ o. is_open o ≡ true) stack
    → All IsBracket s
    → matched_from stack s ≡ true
    → Closes stack s
unfolding matched_from
accepted-Closes [] [] os bs e = done [] nothing
accepted-Closes (t ∷ stack) [] os bs e = cc
accepted-Closes [] (c ∷ s) os (b, bs) e = elim (Bool-cases (is_open c)) [
  | inl o ↦ reopen c [] s (accepted-Closes (c ∷ []) s (o, tt) bs (rw o at e))
  | inr n ↦ let f : false ≡ true = rw n at e in cc
]
accepted-Closes (t ∷ stack) (c ∷ s) (p, os) (b, bs) e = elim (Bool-cases (is_open c)) [
  | inl o ↦ reopen c (t ∷ stack) s (accepted-Closes (c ∷ t ∷ stack) s (o, (p, os)) bs (rw o at e))
  | inr n ↦ elim (Bool-cases (mismatch c t)) [
    | inl m ↦ let f : false ≡ true = rw (n, m) at e in cc
    | inr m ↦
        close t c stack [] s nothing (matching-Pairs t c p b n m)
          (accepted-Closes stack s os bs (rw (n, m) at e))
  ]
]

-- Of the texts of brackets `( ) { } [ ]`, `isValid` accepts exactly those that are balanced: nothing, or
-- an opening bracket, a balanced text, the closing bracket of its kind and another balanced text.
pub is_valid-IsBalanced : (s : Text) → All IsBracket s → (is_valid s ≡ true) ↔ IsBalanced s
unfolding matched_from
is_valid-IsBalanced s bs = (λ e. balanced s (accepted-Closes [] s tt bs e), accepts)
  where
    balanced : (s : Text) → Closes [] s → IsBalanced s
    balanced _ (done s b) = b

    accepts : IsBalanced s → is_valid s ≡ true
    accepts b = ap (matched_from []) (sym (append-nil s)) ∙ balanced_passes s b [] []
