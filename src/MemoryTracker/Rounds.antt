-- ===== src/MemoryTracker/Rounds.antt =====
-- The loop of `main`: it never frees a block twice, and never moves one that it does not hold.
use iitm.Prelude.{
  ℕ, zero, suc, ◌≡◌, refl, true, Option, some, none, List, [], ◌∷◌, get_or, replicate,
  length-replicate, arith,
}
use iitm.MemoryTracker.{Libc}
use iitm.MemoryTracker.Menu.{Menu, ptrs_size, init_menu, Command, menu_step}
use iitm.MemoryTracker.Blocks.{Blocks, Call, active, holds, malloc, calloc, realloc, free}
use iitm.MemoryTracker.Pointers.{Keeps, menu_call, held_after_call, Promised}

-- what the program holds after the rounds
unfoldable pub held_after_rounds : List (Libc × Command) → Menu → Blocks → Blocks
held_after_rounds [] m bs = bs
held_after_rounds ((c, k) ∷ ks) m bs = elim (menu_step c k m) [
  | none ↦ bs
  | some m' ↦ held_after_rounds ks m' (held_after_call c (menu_call k m) bs)
]

-- the C library keeps its promises in every round
unfoldable pub AllPromised : List (Libc × Command) → Menu → Blocks → Type 0
AllPromised [] m bs = Unit
AllPromised ((c, k) ∷ ks) m bs = Promised c (menu_call k m) bs × elim (menu_step c k m) [
  | none ↦ Unit
  | some m' ↦ AllPromised ks m' (held_after_call c (menu_call k m) bs)
]

-- what a call hands to `free` or `realloc` is the pointer of a held block
abbrev pub HandsHeld : Option Call → Blocks → Type 0
HandsHeld none bs = Unit
HandsHeld (some (malloc size)) bs = Unit
HandsHeld (some (calloc num size)) bs = Unit
HandsHeld (some (realloc ptr size)) bs = holds ptr bs ≡ true
HandsHeld (some (free ptr)) bs = holds ptr bs ≡ true

-- so in every round
unfoldable pub AllHeld : List (Libc × Command) → Menu → Blocks → Type 0
AllHeld [] m bs = Unit
AllHeld ((c, k) ∷ ks) m bs = HandsHeld (menu_call k m) bs × elim (menu_step c k m) [
  | none ↦ Unit
  | some m' ↦ AllHeld ks m' (held_after_call c (menu_call k m) bs)
]

get_or-replicate {ℓ} : {A : Type ℓ} (a : A) (n i : ℕ) → get_or (replicate n a) i a ≡ a
get_or-replicate a zero i = refl
get_or-replicate a (suc n) zero = refl
get_or-replicate a (suc n) (suc i) = get_or-replicate a n i

pub init_menu-Keeps : Keeps init_menu []
unfolding holds active
init_menu-Keeps = record {
  size = length-replicate {A = ℕ} ptrs_size 0;
  room = omega arith;
  owns = record {
    held = λ i ne. absurd (ne (get_or-replicate 0 ptrs_size i));
    apart = λ i j d ne. absurd (ne (get_or-replicate 0 ptrs_size i));
  };
  tracks = record { newest = tt; held = refl; not_null = refl };
}
