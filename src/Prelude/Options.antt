-- ===== src/Prelude/Options.antt =====
-- Fallible code: `none` is a fault of the program, such as a read through a null pointer.
use mathlib.Core.Bool.{Bool, true, false}
use mathlib.Core.Path.{◌≡◌}
use mathlib.Core.Option.{Option, none, some}
use iitm.Prelude.Tests.{if◌then◌else◌}

infixl 5 ◌>>=◌
abbrev pub ◌>>=◌ {ℓ κ} : {A : Type ℓ} {B : Type κ} → Option A → (A → Option B) → Option B
none >>= f = none
some a >>= f = f a

-- No fault, and the postcondition holds of the result.
abbrev pub Returns {ℓ} : {A : Type ℓ} → (A → Type 0) → Option A → Type 0
Returns P none = ⊥
Returns P (some a) = P a

pub Returns-bind {ℓ κ} :
    {A : Type ℓ} {B : Type κ} (P : A → Type 0) (Q : B → Type 0) (m : Option A) (f : A → Option B)
    → Returns P m
    → ((a : A) → P a → Returns Q (f a))
    → Returns Q (m >>= f)
Returns-bind P Q none f p next = p
Returns-bind P Q (some a) f p next = next a p

pub Returns-mono {ℓ} :
    {A : Type ℓ} (P Q : A → Type 0) (m : Option A)
    → Returns P m
    → ((a : A) → P a → Q a)
    → Returns Q m
Returns-mono P Q none p next = p
Returns-mono P Q (some a) p next = next a p

-- The postcondition holds of the result, if there is one.
abbrev pub Yields {ℓ} : {A : Type ℓ} → (A → Type 0) → Option A → Type 0
Yields P none = Unit
Yields P (some a) = P a

pub Yields-bind {ℓ κ} :
    {A : Type ℓ} {B : Type κ} (P : A → Type 0) (Q : B → Type 0) (m : Option A) (f : A → Option B)
    → Yields P m
    → ((a : A) → P a → Yields Q (f a))
    → Yields Q (m >>= f)
Yields-bind P Q none f p next = tt
Yields-bind P Q (some a) f p next = next a p

pub Yields-mono {ℓ} :
    {A : Type ℓ} (P Q : A → Type 0) (m : Option A) → Yields P m → ((a : A) → P a → Q a) → Yields Q m
Yields-mono P Q none p next = tt
Yields-mono P Q (some a) p next = next a p

pub Returns-Yields {ℓ} :
    {A : Type ℓ} (P Q : A → Type 0) (m : Option A)
    → Returns P m
    → Yields Q m
    → Returns (λ a. P a × Q a) m
Returns-Yields P Q none p q = p
Returns-Yields P Q (some a) p q = (p, q)

pub Yields-if {ℓ} :
    {A : Type ℓ} (P : A → Type 0) (b : Bool) (x y : Option A)
    → Yields P x
    → Yields P y
    → Yields P (if b then x else y)
Yields-if P true x y p q = p
Yields-if P false x y p q = q

pub Yields-test {ℓ} :
    {A : Type ℓ} (P : A → Type 0) (m : Option Bool) (x y : Option A)
    → Yields P x
    → Yields P y
    → Yields P (m >>= λ b. if b then x else y)
Yields-test P none x y p q = tt
Yields-test P (some b) x y p q = Yields-if P b x y p q

pub Yields-and {ℓ} :
    {A : Type ℓ} (P Q : A → Type 0) (m : Option A)
    → Yields P m
    → Yields Q m
    → Yields (λ a. P a × Q a) m
Yields-and P Q none p q = tt
Yields-and P Q (some a) p q = (p, q)

pub some_inj {ℓ} : {A : Type ℓ} {a b : A} → some a ≡ some b → a ≡ b
some_inj e = cc

pub none-some {ℓ} : {A : Type ℓ} {a : A} → none ≡ some a → ⊥
none-some e = cc
