-- ===== src/Tests/Expression.antt =====
-- Runs of week 8/Expression Tree/experssiontree.c.
use iitm.Prelude.{◌≡◌, refl, some, none, [], ◌∷◌, eqb_text, arith}
use iitm.Prelude.Int.{pos, ◌+ℤ◌, ◌-ℤ◌, ◌*ℤ◌}
use iitm.ExpressionTree.{Tree, leaf, node, create_node, inorder, atoi_from, divide, apply, evaluate}
use iitm.ExpressionTree.Tokens.{IsFull}
use iitm.ExpressionTree.Printing.{HasWords, read_text, read_text-inorder}
use iitm.ExpressionTree.Values.{
  Expr, num, binary, add, div, greater, less, conj, meaning, digits, tree_of, evaluate-tree_of,
}

program : Unit {0}
unfolding eqb_text create_node inorder atoi_from divide apply evaluate IsFull HasWords meaning
    digits tree_of ◌+ℤ◌ ◌-ℤ◌ ◌*ℤ◌
program = tt

-- the condition of `main`
abbrev condition : Expr
condition =
    binary conj (binary greater (binary add (num 10) (num 5)) (num 12))
      (binary less (num 8) (num 15))

holds_true : evaluate (tree_of condition) ≡ some (pos 1)
unfolding program
holds_true = refl

divides_by_zero : evaluate (tree_of (binary div (num 7) (num 0))) ≡ none
unfolding program
divides_by_zero = refl

too_long : create_node (digits 12 12345678901 []) ≡ none
unfolding program
too_long = refl

evaluate-tree_of_example : evaluate (tree_of condition) ≡ meaning condition
evaluate-tree_of_example = evaluate-tree_of condition

abbrev less_tree : Tree
less_tree = node (b'<' ∷ []) (node (b'8' ∷ []) leaf leaf) (node (b'1' ∷ b'5' ∷ []) leaf leaf)

-- "( 8  <  15 )"
printed :
    inorder less_tree
    ≡ b'(' ∷ b' ' ∷ b'8' ∷ b' ' ∷ b' ' ∷ b'<' ∷ b' ' ∷ b' ' ∷ b'1' ∷ b'5' ∷ b' ' ∷ b')' ∷ []
unfolding program
printed = refl

-- A space inside a text makes two trees look the same.
same_print :
    inorder (
      node
        (b'b' ∷ [])
        (node (b'a' ∷ []) leaf leaf)
        (node (b'c' ∷ b' ' ∷ b' ' ∷ b'd' ∷ []) leaf leaf))
    ≡ inorder (
        node
          (b'c' ∷ [])
          (node (b'a' ∷ b' ' ∷ b' ' ∷ b'b' ∷ []) leaf leaf)
          (node (b'd' ∷ []) leaf leaf))
unfolding program
same_print = refl

read_text-inorder_example : read_text (inorder less_tree) ≡ some (less_tree, [])
unfolding program
read_text-inorder_example =
    read_text-inorder less_tree (tt, tt)
      (
        (omega arith, (refl, tt)),
        ((omega arith, (refl, tt)), tt, tt),
        ((omega arith, (refl, (refl, tt))), tt, tt),
      )
