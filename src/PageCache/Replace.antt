-- ===== src/PageCache/Replace.antt =====
-- `replaceARC`: which list it takes from, and how many pages it leaves.
use iitm.Prelude.{
  ℕ, ◌+◌, ◌-◌, ◌≤◌, ◌<◌, ◌≡◌, ◌⊎◌, inl, inr, refl, sym, ◌∙◌, Bool, true, false, ◌&&◌, ◌||◌,
  Bool-cases, List, [], ◌∷◌, ltb, leb, ◌==◌, length, arith, by_test,
}
use iitm.Prelude.Int.{ℤ, pos, eqb_ℤ}
use iitm.PageCache.{max_frames, ArcState, contains, remove_node, remove_lru, replace_arc}

length-remove_lru : (list : List ℤ) → length (remove_lru list).1 ≡ length list - 1
unfolding remove_lru
length-remove_lru [] = refl
length-remove_lru (x ∷ []) = refl
length-remove_lru (x ∷ y ∷ list) = omega (arith, length-remove_lru (y ∷ list))

pub length-remove_node :
    (list : List ℤ) (page : ℤ)
    → contains list page ≡ true
    → length (remove_node list page) + 1 ≡ length list
unfolding contains remove_node
length-remove_node [] page e = cc
length-remove_node (x ∷ list) page e = elim (Bool-cases (eqb_ℤ x page)) [
  | inl same ↦ rw (remove_node, same) (omega arith)
  | inr other ↦
      rw (remove_node, other)
        (omega (arith, length-remove_node list page (sym (rw other refl) ∙ e)))
]

-- the number of pages in the cache
abbrev pub held : ArcState → ℕ
held s = length s.t1 + length s.t2

-- whether `replaceARC` takes from `T1`
unfoldable pub from_t1 : ArcState → Bool
from_t1 s =
    leb 1 (length s.t1)
    && (ltb s.p (length s.t1) || (contains s.b2 (pos 0) && (length s.t1 == s.p)))

-- the effect of `replaceARC`
pub record Replaces (s s' : ArcState) : Type 0 where
  pub target : s'.p ≡ s.p
  pub hit : s'.hits ≡ s.hits
  pub missed : s'.misses ≡ s.misses
  pub taken : from_t1 s ≡ true → held s' + 1 ≡ held s
  pub kept : from_t1 s ≡ false → held s' ≡ length s.t1 + (length s.t2 - 1)

pub replace_arc-Replaces : (s : ArcState) → Replaces s (replace_arc s)
unfolding replace_arc from_t1
replace_arc-Replaces s =
    by_test (Replaces s) (from_t1 s)
      (λ t. record {
        target = refl;
        hit = refl;
        missed = refl;
        taken = λ _. omega (arith, length-remove_lru s.t1, some_in_t1 t);
        kept = λ f. absurd (true_false (sym t ∙ f));
      })
      (λ f. record {
        target = refl;
        hit = refl;
        missed = refl;
        taken = λ t. absurd (true_false (sym t ∙ f));
        kept = λ _. omega (arith, length-remove_lru s.t2);
      })
  where
    true_false : true ≡ false → ⊥
    true_false e = cc

    some_in_t1 : from_t1 s ≡ true → 0 < length s.t1
    some_in_t1 t = ground arith

-- `replaceARC` after `p` has become `p'`
pub room :
    (s : ArcState) (p' : ℕ)
    → p' ≤ s.p + 1
    → held s ≤ max_frames
    → (length s.t1 < max_frames) ⊎ (s.p + 1 < max_frames)
    → held (replace_arc (record s { p = p' })) < max_frames
unfolding from_t1
room s p' a b c = elim (Bool-cases (from_t1 (record s { p = p' }))) [
  | inl t ↦ omega (arith, r.taken t)
  | inr f ↦
      let g : (length s.t1 ≡ 0) ⊎ (length s.t1 ≤ p') = ground arith in omega (arith, r.kept f, g, c)
]
  where
    r : Replaces (record s { p = p' }) (replace_arc (record s { p = p' }))
    r = replace_arc-Replaces (record s { p = p' })

-- `replaceARC` with an empty `T2` and `T1` at its target frees nothing
pub stuck :
    (s : ArcState)
    → length s.t1 ≡ s.p
    → length s.t2 ≡ 0
    → contains s.b2 (pos 0) ≡ false
    → held (replace_arc s) ≡ held s
unfolding from_t1
stuck s a b c =
    let f : from_t1 s ≡ false = rw (from_t1, c) (ground arith) in
    omega (arith, b, (replace_arc-Replaces s).kept f)
