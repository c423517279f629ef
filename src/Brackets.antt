-- ===== src/Brackets.antt =====
-- LEETCODE PROBLEMS/ValidParentheses.c: brackets matched on a stack.
pub mod Grammar
use iitm.Prelude.{ℕ, Bool, true, false, ◌&&◌, ◌||◌, List, [], ◌∷◌, ◌==◌, if◌then◌else◌, Text}

-- '(' '{' '['
abbrev pub is_open : ℕ → Bool
is_open c = (c == 40) || (c == 123) || (c == 91)

-- The test for a closing bracket whose opening one is another.
abbrev pub mismatch : ℕ → ℕ → Bool
mismatch c top =
    ((c == 41) && (if top == 40 then false else true))
    || ((c == 125) && (if top == 123 then false else true))
    || ((c == 93) && (if top == 91 then false else true))

-- The loop, with the characters of the stack from its top.
unfoldable pub matched_from : List ℕ → Text → Bool
matched_from [] [] = true
matched_from (top ∷ stack) [] = false
matched_from [] (c ∷ s) = if is_open c then matched_from (c ∷ []) s else false
matched_from (top ∷ stack) (c ∷ s) =
    if is_open c
    then matched_from (c ∷ top ∷ stack) s
    else if mismatch c top
    then false
    else matched_from stack s

abbrev pub is_valid : Text → Bool
is_valid s = matched_from [] s
