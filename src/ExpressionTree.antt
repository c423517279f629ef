-- ===== src/ExpressionTree.antt =====
-- week 8/Expression Tree/experssiontree.c: a tree of texts, printed and evaluated. NULL is `leaf`; the
-- allocations of `createNode` succeed.
pub mod Printing
pub mod Tokens
pub mod Values
use iitm.Prelude.{
  ℕ, zero, suc, ◌+◌, ◌-◌, ◌*◌, ◌/◌, ◌^◌, Bool, true, false, ◌&&◌, ◌||◌, Option, some, none, List,
  [], ◌∷◌, ◌++◌, length, ltb, leb, if◌then◌else◌, ◌==◌, ◌>>=◌, Text, eqb_text,
}
use iitm.Prelude.Int.{ℤ, pos, negsuc, ◌+ℤ◌, ◌-ℤ◌, ◌*ℤ◌, ltb_ℤ, leb_ℤ, eqb_ℤ, sub_ℕ}

pub data Tree : Type 0 where
  leaf : Tree
  node : Text → Tree → Tree → Tree

-- the bytes of `data[10]`
abbrev pub data_size : ℕ
data_size = 10

-- `createNode`: `strcpy` beyond the field is a fault
unfoldable pub create_node : Text → Option Tree
create_node text = if ltb (length text) data_size then some (node text leaf leaf) else none

abbrev pub has_child : Tree → Bool
has_child leaf = false
has_child (node text left right) = true

-- what `inorder` prints, one character after the other
unfoldable pub inorder : Tree → Text
inorder leaf = []
inorder (node text left right) =
    let before = inorder left in
    let after = inorder right in
    (if has_child left then b'(' ∷ [] else [])
    ++ before
    ++ (b' ' ∷ text ++ b' ' ∷ [])
    ++ after
    ++ (if has_child right then b')' ∷ [] else [])

abbrev pub is_digit : ℕ → Bool
is_digit c = leb b'0' c && leb c b'9'

-- `isdigit(root->data[0])`
abbrev pub starts_digit : Text → Bool
starts_digit [] = false
starts_digit (c ∷ cs) = is_digit c

-- `atoi` of a text that begins with a digit, after the value so far
unfoldable pub atoi_from : ℕ → Text → ℕ
atoi_from n [] = n
atoi_from n (c ∷ cs) =
    let rest = atoi_from (n * 10 + (c - b'0')) cs in if is_digit c then rest else n

-- an `int`: an overflow is a fault
abbrev pub checked : ℤ → Option ℤ
checked z = if leb_ℤ (negsuc (2 ^ 31 - 1)) z && leb_ℤ z (pos (2 ^ 31 - 1)) then some z else none

abbrev pub magnitude : ℤ → ℕ
magnitude (pos n) = n
magnitude (negsuc n) = suc n

abbrev pub same_sign : ℤ → ℤ → Bool
same_sign (pos a) (pos b) = true
same_sign (pos a) (negsuc b) = false
same_sign (negsuc a) (pos b) = false
same_sign (negsuc a) (negsuc b) = true

-- `left / right`, towards zero; a division by zero is a fault
unfoldable pub divide : ℤ → ℤ → Option ℤ
divide left right =
    if magnitude right == 0
    then none
    else let q = magnitude left / magnitude right in
      checked (if same_sign left right then pos q else sub_ℕ 0 q)

-- the value of a test in C
abbrev pub truth : Bool → ℤ
truth b = if b then pos 1 else pos 0

abbrev pub is_true : ℤ → Bool
is_true z = if eqb_ℤ z (pos 0) then false else true

-- `evaluate` on an operator, after its two subtrees
unfoldable pub apply : Text → ℤ → ℤ → Option ℤ
apply text left right =
    if eqb_text text (b'+' ∷ [])
    then checked (left +ℤ right)
    else if eqb_text text (b'-' ∷ [])
    then checked (left -ℤ right)
    else if eqb_text text (b'*' ∷ [])
    then checked (left *ℤ right)
    else if eqb_text text (b'/' ∷ [])
    then divide left right
    else if eqb_text text (b'>' ∷ [])
    then some (truth (ltb_ℤ right left))
    else if eqb_text text (b'<' ∷ [])
    then some (truth (ltb_ℤ left right))
    else if eqb_text text (b'=' ∷ [])
    then some (truth (eqb_ℤ left right))
    else if eqb_text text (b'&' ∷ [])
    then some (truth (is_true left && is_true right))
    else if eqb_text text (b'|' ∷ [])
    then some (truth (is_true left || is_true right))
    else some (pos 0)

unfoldable pub evaluate : Tree → Option ℤ
evaluate leaf = some (pos 0)
evaluate (node text left right) =
    let operands = evaluate left >>= λ l. evaluate right >>= λ r. apply text l r in
    if starts_digit text then checked (pos (atoi_from 0 text)) else operands
