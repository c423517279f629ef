-- ===== src/PageCache/LruRun.antt =====
-- The LRU simulation: a hit, a whole request, and all requests.
use iitm.Prelude.{
  ℕ, ◌+◌, ◌≤◌, ◌≡◌, ◌≢◌, inl, inr, refl, sym, ◌∙◌, ap, Bool-cases, Option, some, none, List, [],
  ◌∷◌, arith, some_inj, get_elem?, set, length-set, get_elem?-set_self, get_elem?-set_ne, ◌==◌,
}
use iitm.Prelude.Int.{ℤ, pos_part, neg_part, pos}
use iitm.PageCache.Frames.{
  find_page-some, get_elem?_lt, find_page-none, replicate-AllDistinct, all_free,
}
use iitm.PageCache.Oldest.{IsLeast, oldest-IsLeast}
use iitm.PageCache.Lru.{
  last_use, last_use-same, last_use-other, last_use_mono, Tracks, touch-Tracks, empty-IsVictim,
  oldest-IsVictim,
}
use iitm.SortedList.{All}
use iitm.PageCache.{
  max_frames, free, find_page, LruState, lru_init, oldest, touch, lru_request, simulate_lru,
}

-- the state after a hit in frame `j`
abbrev on_hit : LruState → ℕ → LruState
on_hit s j = record s {
  time = set s.time j (pos (s.counter + 1));
  counter = s.counter + 1;
  hits = s.hits + 1;
}

hit-Tracks :
    (h : List ℤ) (s : LruState) (page : ℤ) (j : ℕ)
    → page ≢ free
    → Tracks h s
    → find_page s.buffer page ≡ some j
    → Tracks (page ∷ h) (on_hit s j)
hit-Tracks h s page j used t e = record {
  frames = t.frames;
  stamps = length-set s.time j _ ∙ t.stamps;
  clock = omega (arith, t.clock);
  counted = omega (arith, t.counted);
  distinct = t.distinct;
  stamped = λ i x u f. elim (Bool-cases (j == i)) [
    | inl at ↦ stamped_at i x (ground arith) f
    | inr off ↦ stamped_off i x (ground arith) u f
  ];
  recent = λ x u p gone i y f.
      let o = other x (λ q. find_page-none s.buffer x gone j (there ∙ ap some q)) in
      let (a, b) = t.recent x u (omega (arith, o, p)) gone i y f in
      (a, omega (arith, o, b, last_use_mono h page y));
}
  where
    there : get_elem? s.buffer j ≡ some page
    there = find_page-some s.buffer page e

    other : (x : ℤ) → page ≢ x → last_use (page ∷ h) x ≡ last_use h x
    other x ne = last_use-other h page x ne

    now : (x : ℤ) → page ≡ x → s.counter + 1 ≡ last_use (page ∷ h) x
    now x same = rw (sym same) (omega (arith, t.clock, last_use-same h page))

    stamped_at :
        (i : ℕ) (x : ℤ)
        → j ≡ i
        → get_elem? s.buffer i ≡ some x
        → get_elem? (set s.time j (pos (s.counter + 1))) i ≡ some (pos (last_use (page ∷ h) x))
    stamped_at i x at f =
        ap (get_elem? (set s.time j (pos (s.counter + 1)))) (sym at)
        ∙ get_elem?-set_self s.time j _
            (omega (arith, get_elem?_lt s.buffer j there, t.frames, t.stamps))
        ∙ ap (λ n. some (pos n)) (now x (some_inj (sym there ∙ ap (get_elem? s.buffer) at ∙ f)))

    stamped_off :
        (i : ℕ) (x : ℤ)
        → j ≢ i
        → x ≢ free
        → get_elem? s.buffer i ≡ some x
        → get_elem? (set s.time j (pos (s.counter + 1))) i ≡ some (pos (last_use (page ∷ h) x))
    stamped_off i x off u f =
        get_elem?-set_ne s.time _ off
        ∙ t.stamped i x u f
        ∙ ap (λ n. some (pos n))
            (sym (other x (λ q. off (t.distinct j i page used there (f ∙ ap some (sym q))))))

-- A request for a page keeps the stamps and the choice of the pages held right, with the request
-- added to those before.
pub lru_request-Tracks :
    (h : List ℤ) (s : LruState) (page : ℤ)
    → page ≢ free
    → Tracks h s
    → Tracks (page ∷ h) (lru_request s page)
unfolding lru_request
lru_request-Tracks h s page used t = found (find_page s.buffer page) refl
  where
    room :
        (r : Option ℕ)
        → find_page s.buffer free ≡ r
        → find_page s.buffer page ≡ none
        → Tracks (page ∷ h) (lru_request s page)
    room none e absent =
        rw (lru_request, absent, e)
          (touch-Tracks h s page (oldest s.time) used t absent (oldest-IsVictim h s t e))
    room (some v) e absent =
        rw (lru_request, absent, e)
          (touch-Tracks h s page v used t absent (empty-IsVictim h s v t e))

    found : (r : Option ℕ) → find_page s.buffer page ≡ r → Tracks (page ∷ h) (lru_request s page)
    found none e = room (find_page s.buffer free) refl e
    found (some j) e = rw (lru_request, e) (hit-Tracks h s page j used t e)

-- the requests `pages`, latest first, after `h`
unfoldable pub latest_first : List ℤ → List ℤ → List ℤ
latest_first h [] = h
latest_first h (page ∷ pages) = latest_first (page ∷ h) pages

simulate-Tracks :
    (h : List ℤ) (s : LruState) (pages : List ℤ)
    → All (λ page. page ≢ free) pages
    → Tracks h s
    → Tracks (latest_first h pages) (simulate_lru s pages)
unfolding simulate_lru latest_first
simulate-Tracks h s [] a t = t
simulate-Tracks h s (page ∷ pages) (a, b) t =
    simulate-Tracks (page ∷ h) (lru_request s page) pages b (lru_request-Tracks h s page a t)

init-Tracks : Tracks [] lru_init
unfolding lru_init last_use
init-Tracks = record {
  frames = refl;
  stamps = refl;
  clock = refl;
  counted = refl;
  distinct = replicate-AllDistinct max_frames;
  stamped = λ i x u e. absurd (u (all_free max_frames i x e));
  recent = λ x u p. absurd (omega (arith, p));
}

-- After requests for any pages but -1, each request was a hit or a miss, no page is in two frames, the
-- stamp of each page held is its last request, and a page requested but no longer held was last
-- requested no later than any page held.
pub simulate_lru-Tracks :
    (pages : List ℤ)
    → All (λ page. page ≢ free) pages
    → Tracks (latest_first [] pages) (simulate_lru lru_init pages)
simulate_lru-Tracks pages a = simulate-Tracks [] lru_init pages a init-Tracks

-- A miss without a free frame replaces the page whose last request is the longest ago.
lru_request-replaces_oldest :
    (h : List ℤ) (s : LruState) (page : ℤ)
    → Tracks h s
    → find_page s.buffer page ≡ none
    → find_page s.buffer free ≡ none
    → (v : ℕ) × ((lru_request s page).buffer ≡ set s.buffer v page)
      × ((x : ℤ)
          → get_elem? s.buffer v ≡ some x
          → (i : ℕ) (y : ℤ) → get_elem? s.buffer i ≡ some y
          → last_use h x ≤ last_use h y)
unfolding lru_request touch
lru_request-replaces_oldest h s page t absent full =
    (oldest s.time, rw (lru_request, absent, full) refl, least)
  where
    r : IsLeast s.time (oldest s.time)
    r = oldest-IsLeast s.time (omega (arith, t.stamps))

    stamp_of :
        (i : ℕ) (x : ℤ)
        → get_elem? s.buffer i ≡ some x
        → get_elem? s.time i ≡ some (pos (last_use h x))
    stamp_of i x e = t.stamped i x (λ q. find_page-none s.buffer free full i (e ∙ ap some q)) e

    least :
        (x : ℤ)
        → get_elem? s.buffer (oldest s.time) ≡ some x
        → (i : ℕ) (y : ℤ) → get_elem? s.buffer i ≡ some y
        → last_use h x ≤ last_use h y
    least x e i y f =
        let c : r.stamp ≡ pos (last_use h x) =
          some_inj (sym r.there ∙ stamp_of (oldest s.time) x e) in
        let d = r.least i (pos (last_use h y)) (stamp_of i y f) in
        omega (arith, d, ap pos_part c, ap neg_part c)
