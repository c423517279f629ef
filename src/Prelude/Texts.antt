-- ===== src/Prelude/Texts.antt =====
-- Texts of C: the bytes before the terminating zero.
use Prim.Native.Nat.{ℕ, ◌+◌, ◌-◌, ◌^◌}
use mathlib.Core.Path.{◌≡◌, refl, ap}
use mathlib.Core.Bool.{Bool, true, false, ◌&&◌}
use mathlib.Core.List.{List, [], ◌∷◌}
use native.Mathlib.Omega.{arith}
use iitm.Prelude.Tests.{◌==◌, ltb, if◌then◌else◌}

abbrev pub Text : Type 0
Text = List ℕ

-- `strcmp(a, b) == 0`
unfoldable pub eqb_text : Text → Text → Bool
eqb_text [] [] = true
eqb_text [] (y ∷ ys) = false
eqb_text (x ∷ xs) [] = false
eqb_text (x ∷ xs) (y ∷ ys) = (x == y) && eqb_text xs ys

pub eqb_text_refl : (xs : Text) → eqb_text xs xs ≡ true
unfolding eqb_text
eqb_text_refl [] = refl
eqb_text_refl (x ∷ xs) = ground (arith, eqb_text_refl xs)

pub eqb_text→eq : (xs ys : Text) → eqb_text xs ys ≡ true → xs ≡ ys
unfolding eqb_text
eqb_text→eq [] [] e = refl
eqb_text→eq [] (y ∷ ys) e = cc
eqb_text→eq (x ∷ xs) [] e = cc
eqb_text→eq (x ∷ xs) (y ∷ ys) e = ground (arith, eqb_text→eq xs ys)

-- A text that is another one compares with a third as that does.
pub eqb_text_congr : (xs ys zs : Text) → eqb_text xs ys ≡ true → eqb_text xs zs ≡ eqb_text ys zs
eqb_text_congr xs ys zs e = ap (λ t. eqb_text t zs) (eqb_text→eq xs ys e)

pub eqb_text_sym : (xs ys : Text) → eqb_text xs ys ≡ eqb_text ys xs
unfolding eqb_text
eqb_text_sym [] [] = refl
eqb_text_sym [] (y ∷ ys) = refl
eqb_text_sym (x ∷ xs) [] = refl
eqb_text_sym (x ∷ xs) (y ∷ ys) = ground (arith, eqb_text_sym xs ys)

-- a `char` that is added to an `unsigned int`: a byte from 128 on counts as 256 less
abbrev pub signed_char : ℕ → ℕ
signed_char b = if ltb b 128 then b else b + (2 ^ 32 - 256)
