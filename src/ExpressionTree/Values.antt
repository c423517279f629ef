-- ===== src/ExpressionTree/Values.antt =====
-- The value of a tree against that of the expression that it stands for.
use iitm.Prelude.{
  ℕ, zero, suc, ◌+◌, ◌-◌, ◌*◌, ◌/◌, ◌%◌, ◌<◌, ◌≡◌, refl, ap, ◌∙◌, true, false, ◌&&◌, ◌||◌, Option,
  some, none, [], ◌∷◌, if◌then◌else◌, ltb, ◌>>=◌, Text, eqb_text, arith, Bool-cases, inl, inr,
}
use iitm.Prelude.Int.{ℤ, pos, ◌+ℤ◌, ◌-ℤ◌, ◌*ℤ◌, ltb_ℤ, eqb_ℤ}
use iitm.ExpressionTree.{
  Tree, leaf, node, is_digit, starts_digit, atoi_from, checked, divide, truth, is_true, apply,
  evaluate,
}

pub data Op : Type 0 where
  add : Op
  sub : Op
  mul : Op
  div : Op
  greater : Op
  less : Op
  equal : Op
  conj : Op
  disj : Op

pub data Expr : Type 0 where
  num : ℕ → Expr
  binary : Op → Expr → Expr → Expr

abbrev pub symbol : Op → ℕ
symbol add = b'+'
symbol sub = b'-'
symbol mul = b'*'
symbol div = b'/'
symbol greater = b'>'
symbol less = b'<'
symbol equal = b'='
symbol conj = b'&'
symbol disj = b'|'

abbrev pub operate : Op → ℤ → ℤ → Option ℤ
operate add x y = checked (x +ℤ y)
operate sub x y = checked (x -ℤ y)
operate mul x y = checked (x *ℤ y)
operate div x y = divide x y
operate greater x y = some (truth (ltb_ℤ y x))
operate less x y = some (truth (ltb_ℤ x y))
operate equal x y = some (truth (eqb_ℤ x y))
operate conj x y = some (truth (is_true x && is_true y))
operate disj x y = some (truth (is_true x || is_true y))

unfoldable pub meaning : Expr → Option ℤ
meaning (num n) = checked (pos n)
meaning (binary o a b) = meaning a >>= λ x. meaning b >>= λ y. operate o x y

-- the decimal digits of a number, before other digits
unfoldable pub digits : ℕ → ℕ → Text → Text
digits zero n rest = rest
digits (suc fuel) n rest =
    let more = digits fuel (n / 10) ((b'0' + n % 10) ∷ rest) in
    if ltb n 10 then (b'0' + n % 10) ∷ rest else more

unfoldable pub tree_of : Expr → Tree
tree_of (num n) = node (digits (suc n) n []) leaf leaf
tree_of (binary o a b) = node (symbol o ∷ []) (tree_of a) (tree_of b)

atoi_from-digit :
    (k d : ℕ) (rest : Text) → d < 10 → atoi_from k ((b'0' + d) ∷ rest) ≡ atoi_from (k * 10 + d) rest
unfolding atoi_from
atoi_from-digit k d rest p =
    let value : b'0' + d - b'0' ≡ d = omega arith in rw value (ground arith)

atoi_from-nil : (n : ℕ) → atoi_from n [] ≡ n
unfolding atoi_from
atoi_from-nil n = refl

pub atoi_from-digits :
    (fuel n : ℕ) (rest : Text) → n < fuel → atoi_from 0 (digits fuel n rest) ≡ atoi_from n rest
unfolding digits
atoi_from-digits zero n rest p = absurd (omega arith)
atoi_from-digits (suc fuel) n rest p = elim (Bool-cases (ltb n 10)) [
  | inl t ↦
      let e : 0 * 10 + n % 10 ≡ n = ground arith in
      rw t (atoi_from-digit 0 (n % 10) rest (omega arith) ∙ ap (λ k. atoi_from k rest) e)
  | inr f ↦
      let e : n / 10 * 10 + n % 10 ≡ n = omega arith in
      rw f (
        atoi_from-digits fuel (n / 10) ((b'0' + n % 10) ∷ rest) (ground arith)
        ∙ atoi_from-digit (n / 10) (n % 10) rest (omega arith)
        ∙ ap (λ k. atoi_from k rest) e)
]

starts_digit-digits :
    (fuel n : ℕ) (rest : Text) → n < fuel → starts_digit (digits fuel n rest) ≡ true
unfolding digits
starts_digit-digits zero n rest p = absurd (omega arith)
starts_digit-digits (suc fuel) n rest p = elim (Bool-cases (ltb n 10)) [
  | inl t ↦ rw t (ground arith)
  | inr f ↦ rw f (starts_digit-digits fuel (n / 10) ((b'0' + n % 10) ∷ rest) (ground arith))
]

apply-symbol : (o : Op) (x y : ℤ) → apply (symbol o ∷ []) x y ≡ operate o x y
unfolding apply eqb_text
apply-symbol add x y = refl
apply-symbol sub x y = refl
apply-symbol mul x y = refl
apply-symbol div x y = refl
apply-symbol greater x y = refl
apply-symbol less x y = refl
apply-symbol equal x y = refl
apply-symbol conj x y = refl
apply-symbol disj x y = refl

symbol-starts_digit : (o : Op) → is_digit (symbol o) ≡ false
symbol-starts_digit add = refl
symbol-starts_digit sub = refl
symbol-starts_digit mul = refl
symbol-starts_digit div = refl
symbol-starts_digit greater = refl
symbol-starts_digit less = refl
symbol-starts_digit equal = refl
symbol-starts_digit conj = refl
symbol-starts_digit disj = refl

bind_ext :
    (m n : Option ℤ) (f g : ℤ → ℤ → Option ℤ)
    → ((x y : ℤ) → f x y ≡ g x y)
    → (m >>= λ x. n >>= λ y. f x y) ≡ (m >>= λ x. n >>= λ y. g x y)
bind_ext none n f g h = refl
bind_ext (some x) none f g h = refl
bind_ext (some x) (some y) f g h = h x y

-- `evaluate` of the tree of an expression, with its numbers in decimal digits and its operators as
-- texts of one character, is the value of the expression: `int` arithmetic, where an overflow and a
-- division by zero are faults, and 1 or 0 for a comparison or a logical operator.
pub evaluate-tree_of : (e : Expr) → evaluate (tree_of e) ≡ meaning e
unfolding evaluate tree_of meaning
evaluate-tree_of (num n) =
    rw
      (
        starts_digit-digits (suc n) n [] (omega arith),
        atoi_from-digits (suc n) n [] (omega arith),
        atoi_from-nil n,
      )
      refl
evaluate-tree_of (binary o a b) =
    rw (symbol-starts_digit o, evaluate-tree_of a, evaluate-tree_of b)
      (bind_ext (meaning a) (meaning b) (apply (symbol o ∷ [])) (operate o) (apply-symbol o))
