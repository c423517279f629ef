-- ===== src/PageCache/Oldest.antt =====
-- The frame that the LRU simulation takes: `oldest` finds a least stamp.
use iitm.Prelude.{
  ℕ, zero, suc, ◌+◌, ◌-◌, ◌<◌, ◌≡◌, inl, inr, refl, sym, ◌∙◌, ap, Bool-cases, some, List, [], ◌∷◌,
  length, arith, some_inj, none-some, get_elem?, ltb, ◌==◌,
}
use iitm.Prelude.Int.{ℤ, ◌≤ℤ◌, ltb_ℤ}
use iitm.PageCache.{oldest_from, oldest}

-- `i` is a place of a least stamp
pub record IsLeast (time : List ℤ) (i : ℕ) : Type 0 where
  pub stamp : ℤ
  pub there : get_elem? time i ≡ some stamp
  pub least : (j : ℕ) (t : ℤ) → get_elem? time j ≡ some t → stamp ≤ℤ t

-- `all` is searched up to `j`, `time` is left
record Searches (all : List ℤ) (j lru : ℕ) (best : ℤ) (time : List ℤ) : Type 0 where
  there : get_elem? all lru ≡ some best
  least : (i : ℕ) (t : ℤ) → i < j → get_elem? all i ≡ some t → best ≤ℤ t
  left : (k : ℕ) → get_elem? all (j + k) ≡ get_elem? time k

at_j :
    (all : List ℤ) (j lru : ℕ) (best t : ℤ) (time : List ℤ)
    → Searches all j lru best (t ∷ time)
    → get_elem? all j ≡ some t
at_j all j lru best t time s = ap (get_elem? all) zero_right ∙ s.left 0
  where
    zero_right : j ≡ j + 0
    zero_right = omega arith

further :
    (all : List ℤ) (j lru l : ℕ) (best b t : ℤ) (time : List ℤ)
    → Searches all j lru best (t ∷ time)
    → get_elem? all l ≡ some b
    → b ≤ℤ best
    → b ≤ℤ t
    → Searches all (j + 1) l b time
further all j lru l best b t time s e p q = record {
  there = e;
  least = λ i u before f. elim (Bool-cases (i == j)) [
    | inl same ↦
        let n : i ≡ j = ground arith in
        let m : t ≡ u =
          some_inj (sym (at_j all j lru best t time s) ∙ ap (get_elem? all) (sym n) ∙ f) in
        rw (sym m) q
    | inr other ↦ let r = s.least i u (ground arith) f in omega arith
  ];
  left = λ k. ap (get_elem? all) (shift k) ∙ s.left (suc k);
}
  where
    shift : (k : ℕ) → j + 1 + k ≡ j + suc k
    shift k = omega arith

oldest_from-IsLeast :
    (all : List ℤ) (j lru : ℕ) (best : ℤ) (time : List ℤ)
    → Searches all j lru best time
    → IsLeast all (oldest_from j lru best time)
unfolding oldest_from
oldest_from-IsLeast all j lru best [] s = record {
  stamp = best;
  there = s.there;
  least = λ i t e. elim (Bool-cases (ltb i j)) [
    | inl before ↦ s.least i t (ground arith) e
    | inr after ↦
        let n : j + (i - j) ≡ i = ground arith in
        absurd (none-some (sym (s.left (i - j)) ∙ ap (get_elem? all) n ∙ e))
  ];
}
oldest_from-IsLeast all j lru best (t ∷ time) s = elim (Bool-cases (ltb_ℤ t best)) [
  | inl less ↦ rw less (
      oldest_from-IsLeast all (j + 1) j t time (
        further all j lru j best t t time s (at_j all j lru best t time s) (ground arith)
          (omega arith)))
  | inr more ↦ rw more (
      oldest_from-IsLeast all (j + 1) lru best time
        (further all j lru lru best best t time s s.there (omega arith) (ground arith)))
]

-- The frame that `oldest` returns for some frames has a stamp that is not above any other.
pub oldest-IsLeast : (time : List ℤ) → 0 < length time → IsLeast time (oldest time)
unfolding oldest
oldest-IsLeast [] p = absurd (omega arith)
oldest-IsLeast (t ∷ time) p =
    oldest_from-IsLeast (t ∷ time) 1 0 t time
      (record { there = refl; least = first; left = λ k. ap (get_elem? (t ∷ time)) (next k) })
  where
    next : (k : ℕ) → 1 + k ≡ suc k
    next k = omega arith

    first : (i : ℕ) (u : ℤ) → i < 1 → get_elem? (t ∷ time) i ≡ some u → t ≤ℤ u
    first zero u q e = rw (some_inj e) (omega arith)
    first (suc i) u q e = absurd (omega arith)
