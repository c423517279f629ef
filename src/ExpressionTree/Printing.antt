-- ===== src/ExpressionTree/Printing.antt =====
-- What `inorder` prints can be read back.
use iitm.Prelude.{
  ℕ, ◌<◌, ◌≡◌, refl, sym, ap, ◌∙◌, Bool, true, false, ◌||◌, ◌==◌, if◌then◌else◌, Option, some, List,
  [], ◌∷◌, ◌++◌, length, Text, arith,
}
use mathlib.Core.List.{append_assoc, append-nil}
use iitm.SortedList.{All}
use iitm.ExpressionTree.{Tree, leaf, node, has_child, inorder}
use iitm.ExpressionTree.Tokens.{
  Token, left_paren, word, right_paren, Token, tokens, IsFull, read, read-tokens,
}

-- A word between parentheses and spaces, if there is one.
abbrev pub flush : Text → List Token → List Token
flush [] ts = ts
flush (c ∷ w) ts = word (c ∷ w) ∷ ts

-- The tokens of printed characters, after the word so far.
unfoldable pub lex_from : Text → Text → List Token
lex_from w [] = flush w []
lex_from w (c ∷ cs) =
    let fresh = lex_from [] cs in
    let longer = lex_from (w ++ c ∷ []) cs in
    if c == b' '
    then flush w fresh
    else if c == b'('
    then flush w (left_paren ∷ fresh)
    else if c == b')'
    then flush w (right_paren ∷ fresh)
    else longer

-- a character of a word: no space and no parenthesis
abbrev pub IsPlain : ℕ → Type 0
IsPlain c = ((c == b' ') || (c == b'(') || (c == b')')) ≡ false

abbrev pub IsWord : Text → Type 0
IsWord text = (0 < length text) × All IsPlain text

-- the texts of all nodes are words
unfoldable pub HasWords : Tree → Type 0
HasWords leaf = Unit
HasWords (node text left right) = IsWord text × HasWords left × HasWords right

lex_from-word :
    (w text rest : Text) → All IsPlain text → lex_from w (text ++ rest) ≡ lex_from (w ++ text) rest
unfolding lex_from
lex_from-word w [] rest a = ap (λ v. lex_from v rest) (sym (append-nil w))
lex_from-word w (c ∷ text) rest (p, a) =
    plain c w (text ++ rest) p
    ∙ lex_from-word (w ++ c ∷ []) text rest a
    ∙ ap (λ v. lex_from v rest) (append_assoc w (c ∷ []) text)
  where
    plain : (c : ℕ) (w cs : Text) → IsPlain c → lex_from w (c ∷ cs) ≡ lex_from (w ++ c ∷ []) cs
    plain c w cs p =
        let s : (c == b' ') ≡ false = ground (arith, p) in
        let l : (c == b'(') ≡ false = ground (arith, p) in
        let r : (c == b')') ≡ false = ground (arith, p) in rw (s, l, r) refl

lex_from-data :
    (text rest : Text)
    → IsWord text
    → lex_from [] (b' ' ∷ text ++ b' ' ∷ rest) ≡ word text ∷ lex_from [] rest
unfolding lex_from
lex_from-data text rest (p, a) = lex_from-word [] text (b' ' ∷ rest) a ∙ ended text p
  where
    ended :
        (text : Text) → 0 < length text → lex_from text (b' ' ∷ rest) ≡ word text ∷ lex_from [] rest
    ended [] p = absurd (omega arith)
    ended (c ∷ text) p = refl

-- a parenthesis that may stand before or after a subtree
abbrev paren : Bool → ℕ → Text
paren b c = if b then c ∷ [] else []

abbrev paren_token : Bool → Token → List Token
paren_token b t = if b then t ∷ [] else []

lex_from-left :
    (b : Bool) (rest : Text)
    → lex_from [] (paren b b'(' ++ rest) ≡ paren_token b left_paren ++ lex_from [] rest
unfolding lex_from
lex_from-left true rest = refl
lex_from-left false rest = refl

lex_from-right :
    (b : Bool) (rest : Text)
    → lex_from [] (paren b b')' ++ rest) ≡ paren_token b right_paren ++ lex_from [] rest
unfolding lex_from
lex_from-right true rest = refl
lex_from-right false rest = refl

-- The characters and the tokens of a node, in front of others.
inorder-parts :
    (text : Text) (left right : Tree) (rest : Text)
    → inorder (node text left right) ++ rest
      ≡ paren (has_child left) b'('
        ++ (inorder left
            ++ (b' ' ∷ text ++ b' ' ∷ (inorder right ++ (paren (has_child right) b')' ++ rest))))
unfolding inorder
inorder-parts text left right rest = simp append_assoc

tokens-parts :
    (text : Text) (left right : Tree) (rest : List Token)
    → tokens (node text left right) ++ rest
      ≡ paren_token (has_child left) left_paren
        ++ (tokens left
            ++ (word text ∷ (tokens right ++ (paren_token (has_child right) right_paren ++ rest))))
unfolding tokens
tokens-parts text left right rest = simp append_assoc

-- The printed characters of a tree are its tokens.
lex_from-inorder :
    (t : Tree) (rest : Text)
    → HasWords t
    → lex_from [] (inorder t ++ rest) ≡ tokens t ++ lex_from [] rest
unfolding HasWords inorder tokens
lex_from-inorder leaf rest h = refl
lex_from-inorder (node text left right) rest (w, hl, hr) =
    let after = paren (has_child right) b')' ++ rest in
    ap (lex_from []) (inorder-parts text left right rest)
    ∙ lex_from-left (has_child left) _
    ∙ ap (λ ts. paren_token (has_child left) left_paren ++ ts)
        (lex_from-inorder left (b' ' ∷ text ++ b' ' ∷ (inorder right ++ after)) hl
          ∙ ap (λ ts. tokens left ++ ts)
              (lex_from-data text (inorder right ++ after) w
                ∙ ap (λ ts. word text ∷ ts)
                    (lex_from-inorder right after hr
                      ∙ ap (λ ts. tokens right ++ ts) (lex_from-right (has_child right) rest))))
    ∙ sym (tokens-parts text left right (lex_from [] rest))

-- the tree that characters are read as, if they are one
unfoldable pub read_text : Text → Option (Tree × List Token)
read_text text = let ts = lex_from [] text in read (length ts) ts

-- What `inorder` prints of a tree determines the tree, if each node has two children or none and the
-- text of each node is a word, of at least one character and without spaces and parentheses: the reader
-- makes the tree of the printed characters, and no token is left.
pub read_text-inorder : (t : Tree) → IsFull t → HasWords t → read_text (inorder t) ≡ some (t, [])
unfolding read_text lex_from
read_text-inorder t f w =
    let e : lex_from [] (inorder t) ≡ tokens t =
      ap (lex_from []) (sym (append-nil (inorder t)))
      ∙ lex_from-inorder t [] w
      ∙ append-nil (tokens t) in
    ap (λ ts. read (length ts) ts) e
    ∙ ap (read (length (tokens t))) (sym (append-nil (tokens t)))
    ∙ read-tokens t (length (tokens t)) [] f (omega arith)
