-- ===== src/ExpressionTree/Tokens.antt =====
-- The tokens of what `inorder` prints, and a reader of them.
use iitm.Prelude.{
  ℕ, zero, suc, ◌+◌, ◌≤◌, ◌≡◌, refl, ap, ◌∙◌, if◌then◌else◌, Option, some, none, List, [], ◌∷◌,
  ◌++◌, length, length-append, ◌>>=◌, Text, arith,
}
use mathlib.Core.List.{append_assoc}
use iitm.ExpressionTree.{Tree, leaf, node, has_child}

-- a parenthesis, or the text of a node
pub data Token : Type 0 where
  left_paren : Token
  word : Text → Token
  right_paren : Token

-- the tokens of a tree
unfoldable pub tokens : Tree → List Token
tokens leaf = []
tokens (node text left right) =
    let before = tokens left in
    let after = tokens right in
    (if has_child left then left_paren ∷ [] else [])
    ++ before
    ++ word text ∷ after
    ++ (if has_child right then right_paren ∷ [] else [])

-- each node has two children or none, as in the tree of an expression
unfoldable pub IsFull : Tree → Type 0
IsFull leaf = ⊥
IsFull (node text leaf leaf) = Unit
IsFull (node text leaf (node d l r)) = ⊥
IsFull (node text (node d l r) leaf) = ⊥
IsFull (node text (node d l r) (node d' l' r')) = IsFull (node d l r) × IsFull (node d' l' r')

abbrev expect_word : Tree × List Token → Option ((Tree × Text) × List Token)
expect_word (t, word text ∷ rest) = some ((t, text), rest)
expect_word (t, _) = none

abbrev expect_close : Tree × List Token → Option (Tree × List Token)
expect_close (t, right_paren ∷ rest) = some (t, rest)
expect_close (t, _) = none

-- A reader of printed trees; `fuel` bounds its depth.
unfoldable pub read : ℕ → List Token → Option (Tree × List Token)
read zero tokens = none
read (suc fuel) [] = none
read (suc fuel) (word text ∷ rest) = some (node text leaf leaf, rest)
read (suc fuel) (right_paren ∷ rest) = none
read (suc fuel) (left_paren ∷ rest) = do
  left ← read fuel rest
  mid ← expect_word left
  right ← read fuel mid.1
  done ← expect_close right
  some (node mid.0.1 mid.0.0 done.0, done.1)

tokens-one :
    (text : Text) (rest : List Token) → tokens (node text leaf leaf) ++ rest ≡ word text ∷ rest
unfolding tokens
tokens-one text rest = refl

tokens-two :
    (text d d' : Text) (l r l' r' : Tree) (rest : List Token)
    → tokens (node text (node d l r) (node d' l' r')) ++ rest
      ≡ left_paren
        ∷ (tokens (node d l r) ++ word text ∷ (tokens (node d' l' r') ++ right_paren ∷ rest))
unfolding tokens
tokens-two text d d' l r l' r' rest =
    ap (λ ts. left_paren ∷ ts)
      (append_assoc (a ++ word text ∷ b) (right_paren ∷ []) rest
        ∙ append_assoc a (word text ∷ b) (right_paren ∷ rest))
  where
    a : List Token
    a = tokens (node d l r)

    b : List Token
    b = tokens (node d' l' r')

length-tokens_one : (text : Text) → length (tokens (node text leaf leaf)) ≡ 1
unfolding tokens
length-tokens_one text = refl

length-tokens_two :
    (text d d' : Text) (l r l' r' : Tree)
    → length (tokens (node text (node d l r) (node d' l' r')))
      ≡ length (tokens (node d l r)) + length (tokens (node d' l' r')) + 3
unfolding tokens
length-tokens_two text d d' l r l' r' =
    omega (
      arith,
      length-append (a ++ word text ∷ b) (right_paren ∷ []),
      length-append a (word text ∷ b),
    )
  where
    a : List Token
    a = tokens (node d l r)

    b : List Token
    b = tokens (node d' l' r')

-- The reader takes a tree from the front of its tokens, with fuel for their number.
pub read-tokens :
    (t : Tree) (fuel : ℕ) (rest : List Token)
    → IsFull t
    → length (tokens t) ≤ fuel
    → read fuel (tokens t ++ rest) ≡ some (t, rest)
unfolding IsFull read
read-tokens leaf fuel rest f b = absurd f
read-tokens (node text leaf leaf) zero rest f b = absurd (omega (arith, length-tokens_one text))
read-tokens (node text leaf leaf) (suc fuel) rest f b = rw (tokens-one text rest) refl
read-tokens (node text leaf (node d l r)) fuel rest f b = absurd f
read-tokens (node text (node d l r) leaf) fuel rest f b = absurd f
read-tokens (node text (node d l r) (node d' l' r')) zero rest f b =
    absurd (omega (arith, length-tokens_two text d d' l r l' r'))
read-tokens (node text (node d l r) (node d' l' r')) (suc fuel) rest (f, f') b =
    rw
      (
        tokens-two text d d' l r l' r' rest,
        read-tokens (node d l r) fuel (word text ∷ (tokens (node d' l' r') ++ right_paren ∷ rest)) f
            (omega (arith, length-tokens_two text d d' l r l' r')),
        read-tokens (node d' l' r') fuel (right_paren ∷ rest) f'
            (omega (arith, length-tokens_two text d d' l r l' r')),
      )
      refl
