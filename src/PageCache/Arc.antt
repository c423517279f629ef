-- ===== src/PageCache/Arc.antt =====
-- The ARC simulation: what one request does to the counters, the target `p` and the pages held.
use iitm.Prelude.{
  ℕ, ◌+◌, ◌-◌, ◌≤◌, ◌<◌, ◌≡◌, ◌⊎◌, refl, sym, ◌∙◌, Bool, true, false, ◌||◌, List, ◌∷◌, ltb, leb,
  if◌then◌else◌, length, arith, by_test,
}
use iitm.Prelude.Int.{ℤ, eqb_refl_ℤ}
use iitm.PageCache.{
  max_frames, ArcState, contains, remove_node, replace_arc, arc_hit, arc_from_b1, arc_from_b2,
  arc_new, arc_request,
}
use iitm.PageCache.Replace.{held, replace_arc-Replaces, room, length-remove_node}

contains-front : (list : List ℤ) (page : ℤ) → contains (page ∷ list) page ≡ true
unfolding contains
contains-front list page = rw (eqb_refl_ℤ page) refl

in_t2 : (b : Bool) (list : List ℤ) (page : ℤ) → (b || contains (page ∷ list) page) ≡ true
in_t2 true list page = refl
in_t2 false list page = contains-front list page

abbrev pub cached : ArcState → ℤ → Bool
cached s page = contains s.t1 page || contains s.t2 page

-- what a request leaves behind
pub record Requests (s : ArcState) (page : ℤ) (s' : ArcState) : Type 0 where
  pub hit : s'.hits ≡ (if cached s page then s.hits + 1 else s.hits)
  pub missed : s'.misses ≡ (if cached s page then s.misses else s.misses + 1)
  pub resident : cached s' page ≡ true
  pub target : s.p ≤ max_frames → s'.p ≤ max_frames
  pub bounded :
      held s ≤ max_frames
      → (length s.t1 < max_frames) ⊎ (s.p + 1 < max_frames)
      → held s' ≤ max_frames

-- the same of a miss, from the state after `missesARC++`
record Fills (s : ArcState) (page : ℤ) (s' : ArcState) : Type 0 where
  hit : s'.hits ≡ s.hits
  missed : s'.misses ≡ s.misses
  resident : cached s' page ≡ true
  target : s.p ≤ max_frames → s'.p ≤ max_frames
  bounded :
      held s ≤ max_frames
      → (length s.t1 < max_frames) ⊎ (s.p + 1 < max_frames)
      → held s' ≤ max_frames

arc_new-Fills : (s : ArcState) (page : ℤ) → Fills s page (arc_new s page)
unfolding arc_new
arc_new-Fills s page =
    by_test (λ t. Fills s page (record t { t1 = page ∷ t.t1 }))
      (leb max_frames (length s.t1 + length s.t2))
      (λ full.
        let r = replace_arc-Replaces s in
        record {
          hit = r.hit;
          missed = r.missed;
          resident = rw (contains-front (replace_arc s).t1 page) refl;
          target = λ a. omega (arith, r.target);
          bounded = λ a b. omega (arith, room s s.p (omega arith) a b);
        })
      (λ more. record {
        hit = refl;
        missed = refl;
        resident = rw (contains-front s.t1 page) refl;
        target = λ a. a;
        bounded = λ a b. ground arith;
      })

-- a miss that `B1` or `B2` remembers, after `p` has become `p'`
abbrev pub promoted : ArcState → ℤ → ℕ → List ℤ → List ℤ → ArcState
promoted s page p' b1 b2 =
    let s' = replace_arc (record s { p = p' }) in record s' { b1 = b1; b2 = b2; t2 = page ∷ s'.t2 }

promoted-Fills :
    (s : ArcState) (page : ℤ) (p' : ℕ) (b1 b2 : List ℤ)
    → p' ≤ s.p + 1
    → (s.p ≤ max_frames → p' ≤ max_frames)
    → Fills s page (promoted s page p' b1 b2)
promoted-Fills s page p' b1 b2 a b =
    let r = replace_arc-Replaces (record s { p = p' }) in
    let s' = replace_arc (record s { p = p' }) in
    record {
      hit = r.hit;
      missed = r.missed;
      resident = in_t2 (contains s'.t1 page) s'.t2 page;
      target = λ c. omega (arith, r.target, b c);
      bounded = λ c d. omega (arith, room s p' a c d);
    }

arc_from_b1-Fills : (s : ArcState) (page : ℤ) → Fills s page (arc_from_b1 s page)
unfolding arc_from_b1
arc_from_b1-Fills s page =
    by_test
      (λ p'.
        let s' = replace_arc (record s { p = p' }) in
        Fills s page (record s' { b1 = remove_node s'.b1 page; t2 = page ∷ s'.t2 }))
      (ltb (s.p + (if ltb 0 (length s.b2) then 1 else 0)) max_frames)
      (λ less. promoted-Fills s page (s.p + 1) _ _ (omega arith) (λ a. ground arith))
      (λ more. promoted-Fills s page max_frames _ _ (ground arith) (λ a. omega arith))

arc_from_b2-Fills : (s : ArcState) (page : ℤ) → Fills s page (arc_from_b2 s page)
unfolding arc_from_b2
arc_from_b2-Fills s page =
    by_test
      (λ p'.
        let s' = replace_arc (record s { p = p' }) in
        Fills s page (record s' { b2 = remove_node s'.b2 page; t2 = page ∷ s'.t2 }))
      (ltb 0 (s.p - (if ltb 0 (length s.b1) then 1 else 0)))
      (λ less. promoted-Fills s page (s.p - 1) _ _ (omega arith) (λ a. omega arith))
      (λ more. promoted-Fills s page 0 _ _ (omega arith) (λ a. omega arith))

-- a hit
record Moves (s : ArcState) (page : ℤ) (s' : ArcState) : Type 0 where
  hit : s'.hits ≡ s.hits + 1
  missed : s'.misses ≡ s.misses
  resident : cached s' page ≡ true
  target : s'.p ≡ s.p
  same : held s' ≡ held s

arc_hit-Moves : (s : ArcState) (page : ℤ) → cached s page ≡ true → Moves s page (arc_hit s page)
unfolding arc_hit
arc_hit-Moves s page c =
    by_test (Moves s page) (contains s.t1 page)
      (λ t. record {
        hit = refl;
        missed = refl;
        resident = in_t2 (contains (remove_node s.t1 page) page) s.t2 page;
        target = refl;
        same = omega (arith, length-remove_node s.t1 page t);
      })
      (λ f. record {
        hit = refl;
        missed = refl;
        resident = in_t2 (contains s.t1 page) (remove_node s.t2 page) page;
        target = refl;
        same = omega (arith, length-remove_node s.t2 page (sym (rw f refl) ∙ c));
      })

-- Every request ends with its page in `T1` or `T2`, as a hit exactly if the page was there before and
-- as a miss otherwise, and keeps `p` within the frames. It leaves at most three pages in `T1` and
-- `T2` if it finds at most three there, and if `T1` has a free frame or `p` is below 2.
pub arc_request-Requests : (s : ArcState) (page : ℤ) → Requests s page (arc_request s page)
unfolding arc_request
arc_request-Requests s page =
    by_test (Requests s page) (cached s page)
      (λ t.
        let m = arc_hit-Moves s page t in
        record {
          hit = rw t m.hit;
          missed = rw t m.missed;
          resident = m.resident;
          target = λ a. omega (arith, m.target);
          bounded = λ a b. omega (arith, m.same);
        })
      (λ f.
        by_test (Requests s page) (contains s.b1 page)
          (λ t. missed f (arc_from_b1-Fills (record s { misses = s.misses + 1 }) page))
          (λ _.
            by_test (Requests s page) (contains s.b2 page)
              (λ t. missed f (arc_from_b2-Fills (record s { misses = s.misses + 1 }) page))
              (λ _. missed f (arc_new-Fills (record s { misses = s.misses + 1 }) page))))
  where
    missed :
        {s' : ArcState}
        → cached s page ≡ false
        → Fills (record s { misses = s.misses + 1 }) page s'
        → Requests s page s'
    missed f r = record {
      hit = rw f r.hit;
      missed = rw f r.missed;
      resident = r.resident;
      target = r.target;
      bounded = r.bounded;
    }
