-- ===== src/PageCache/ArcRun.antt =====
-- The ARC simulation: a state in which the cache overflows, and the counters over all requests.
use iitm.Prelude.{
  ℕ, ◌+◌, ◌≤◌, ◌≡◌, ◌⊎◌, inl, inr, Bool, true, false, List, [], ◌∷◌, ltb, leb, if◌then◌else◌,
  length, arith, by_test,
}
use iitm.Prelude.Int.{ℤ, pos}
use iitm.PageCache.{
  max_frames, ArcState, contains, remove_node, replace_arc, arc_from_b1, arc_new, arc_request,
  simulate_arc,
}
use iitm.PageCache.Replace.{held, stuck}
use iitm.PageCache.Arc.{cached, promoted, arc_request-Requests}

promoted-overflow :
    (s : ArcState) (page : ℤ) (p' : ℕ) (b1 b2 : List ℤ)
    → length s.t1 ≡ p'
    → length s.t2 ≡ 0
    → contains s.b2 (pos 0) ≡ false
    → held (promoted s page p' b1 b2) ≡ held s + 1
promoted-overflow s page p' b1 b2 a b c = omega (arith, stuck (record s { p = p' }) a b c)

arc_from_b1-overflow :
    (s : ArcState) (page : ℤ)
    → length s.t1 ≡ max_frames
    → length s.t2 ≡ 0
    → max_frames ≤ s.p + 1
    → s.p ≤ max_frames
    → contains s.b2 (pos 0) ≡ false
    → held (arc_from_b1 s page) ≡ held s + 1
unfolding arc_from_b1
arc_from_b1-overflow s page a b c c' d =
    by_test
      (λ p'.
        let s' = replace_arc (record s { p = p' }) in
        held (record s' { b1 = remove_node s'.b1 page; t2 = page ∷ s'.t2 }) ≡ held s + 1)
      (ltb (s.p + (if ltb 0 (length s.b2) then 1 else 0)) max_frames)
      (λ less. promoted-overflow s page (s.p + 1) [] [] (ground arith) b d)
      (λ more. promoted-overflow s page max_frames [] [] a b d)

arc_new-overflow :
    (s : ArcState) (page : ℤ)
    → length s.t1 ≡ max_frames
    → length s.t2 ≡ 0
    → s.p ≡ max_frames
    → contains s.b2 (pos 0) ≡ false
    → held (arc_new s page) ≡ held s + 1
unfolding arc_new
arc_new-overflow s page a b c d =
    by_test (λ s'. held (record s' { t1 = page ∷ s'.t1 }) ≡ held s + 1)
      (leb max_frames (length s.t1 + length s.t2))
      (λ full. omega (arith, stuck s (omega arith) b d)) (λ more. absurd (ground arith))

-- With three pages in `T1`, none in `T2` and no page 0 in `B2`, a request for a page that is in none
-- of `T1`, `T2` and `B2` makes the cache hold four pages, if `p` is 3, or if it is 2 and the page is
-- in `B1`.
pub arc_request-overflow :
    (s : ArcState) (page : ℤ)
    → length s.t1 ≡ max_frames
    → length s.t2 ≡ 0
    → (s.p ≡ max_frames) ⊎ ((s.p + 1 ≡ max_frames) × (contains s.b1 page ≡ true))
    → contains s.b2 (pos 0) ≡ false
    → cached s page ≡ false
    → contains s.b2 page ≡ false
    → held (arc_request s page) ≡ max_frames + 1
unfolding arc_request
arc_request-overflow s page a b c d e f =
    let s' = record s { misses = s.misses + 1 } in
    rw e (
      by_test (λ t. held t ≡ max_frames + 1) (contains s.b1 page)
        (λ t. omega (arith, a, b, arc_from_b1-overflow s' page a b (omega arith) (omega arith) d))
        (λ t. rw f (omega (arith, a, b, arc_new-overflow s' page a b (at t) d))))
  where
    at : contains s.b1 page ≡ false → s.p ≡ max_frames
    at t = elim c [ inl q ↦ q | inr (q, r) ↦ cc ]

sum_if : (b : Bool) (h m : ℕ) → (if b then h + 1 else h) + (if b then m else m + 1) ≡ h + m + 1
sum_if true h m = omega arith
sum_if false h m = omega arith

-- Any number of requests is that many hits and misses, and keeps `p` within the frames.
simulate_arc-counted :
    (s : ArcState) (pages : List ℤ)
    → s.p ≤ max_frames
    → ((simulate_arc s pages).hits + (simulate_arc s pages).misses
        ≡ s.hits + s.misses + length pages)
      × ((simulate_arc s pages).p ≤ max_frames)
unfolding simulate_arc
simulate_arc-counted s [] a = (omega arith, a)
simulate_arc-counted s (page ∷ pages) a =
    let r = arc_request-Requests s page in
    let (n, b) = simulate_arc-counted (arc_request s page) pages (r.target a) in
    (omega (arith, n, r.hit, r.missed, sum_if (cached s page) s.hits s.misses), b)
