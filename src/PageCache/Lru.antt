-- ===== src/PageCache/Lru.antt =====
-- The LRU simulation: the time stamps are the last uses, and the pages held are the most recent ones.
use iitm.Prelude.{
  ℕ, ◌+◌, ◌≤◌, ◌<◌, ◌≡◌, ◌≢◌, inl, inr, refl, sym, ◌∙◌, ap, Bool-cases, Option, some, none, List,
  [], ◌∷◌, if◌then◌else◌, length, arith, by_test, some_inj, get_elem?, set, length-set,
  get_elem?-set_self, get_elem?-set_ne, ◌==◌,
}
use iitm.Prelude.Int.{ℤ, pos_part, neg_part, pos, eqb_ℤ, eqb→eq_ℤ, eqb_refl_ℤ}
use iitm.PageCache.Frames.{
  find_page-some, get_elem?_lt, find_page-none, AllDistinct, set-AllDistinct,
}
use iitm.PageCache.Oldest.{IsLeast, oldest-IsLeast}
use iitm.PageCache.{max_frames, free, find_page, LruState, oldest, touch}

-- the number of the last request for a page, from 1, in requests that stand latest first; 0 if none
unfoldable pub last_use : List ℤ → ℤ → ℕ
last_use [] page = 0
last_use (x ∷ earlier) page =
    let before = last_use earlier page in if eqb_ℤ x page then length earlier + 1 else before

pub last_use_le : (h : List ℤ) (page : ℤ) → last_use h page ≤ length h
unfolding last_use
last_use_le [] page = omega arith
last_use_le (x ∷ h) page =
    by_test (λ n. n ≤ length (x ∷ h)) (eqb_ℤ x page) (λ _. omega arith)
      (λ _. omega (arith, last_use_le h page))

pub last_use-same : (h : List ℤ) (page : ℤ) → last_use (page ∷ h) page ≡ length h + 1
unfolding last_use
last_use-same h page = rw (eqb_refl_ℤ page) refl

pub last_use-other : (h : List ℤ) (x page : ℤ) → x ≢ page → last_use (x ∷ h) page ≡ last_use h page
unfolding last_use
last_use-other h x page ne =
    by_test (λ n. n ≡ last_use h page) (eqb_ℤ x page) (λ t. absurd (ne (eqb→eq_ℤ x page t)))
      (λ _. refl)

pub last_use_mono : (h : List ℤ) (x page : ℤ) → last_use h page ≤ last_use (x ∷ h) page
unfolding last_use
last_use_mono h x page =
    by_test (λ n. last_use h page ≤ n) (eqb_ℤ x page) (λ t. omega (arith, last_use_le h page))
      (λ _. omega arith)

-- The state after the requests `h`, latest first. The stamp of a page is its last use, and a page that
-- was requested but is in no frame was last used no later than every page that is in a frame.
pub record Tracks (h : List ℤ) (s : LruState) : Type 0 where
  pub frames : length s.buffer ≡ max_frames
  pub stamps : length s.time ≡ max_frames
  pub clock : s.counter ≡ length h
  pub counted : s.hits + s.misses ≡ length h
  pub distinct : AllDistinct s.buffer
  pub stamped :
      (i : ℕ) (x : ℤ)
      → x ≢ free
      → get_elem? s.buffer i ≡ some x
      → get_elem? s.time i ≡ some (pos (last_use h x))
  pub recent :
      (x : ℤ)
      → x ≢ free
      → 0 < last_use h x
      → find_page s.buffer x ≡ none
      → (i : ℕ) (y : ℤ) → get_elem? s.buffer i ≡ some y
      → (y ≢ free) × (last_use h x ≤ last_use h y)

-- what makes frame `v` a right one for a new page
pub record IsVictim (h : List ℤ) (s : LruState) (v : ℕ) : Type 0 where
  inside : v < max_frames
  oldest_use :
      (x : ℤ)
      → x ≢ free
      → 0 < last_use h x
      → ((i : ℕ) → get_elem? s.buffer i ≡ some x → i ≡ v)
      → (i : ℕ) (y : ℤ) → i ≢ v
      → get_elem? s.buffer i ≡ some y
      → (y ≢ free) × (last_use h x ≤ last_use h y)

pub touch-Tracks :
    (h : List ℤ) (s : LruState) (page : ℤ) (v : ℕ)
    → page ≢ free
    → Tracks h s
    → find_page s.buffer page ≡ none
    → IsVictim h s v
    → Tracks (page ∷ h) (touch v page (record s { misses = s.misses + 1 }))
unfolding touch
touch-Tracks h s page v used t absent w = record {
  frames = length-set s.buffer v page ∙ t.frames;
  stamps = length-set s.time v _ ∙ t.stamps;
  clock = omega (arith, t.clock);
  counted = omega (arith, t.counted);
  distinct = set-AllDistinct s.buffer v page (omega (arith, w.inside, t.frames)) absent t.distinct;
  stamped = λ i x u e. elim (Bool-cases (v == i)) [
    | inl at ↦ stamped_at i x (ground arith) e
    | inr off ↦ stamped_off i x (ground arith) u e
  ];
  recent = λ x u p gone i y e. elim (Bool-cases (v == i)) [
    | inl at ↦ recent_at x y (other x gone) (is_page i y (ground arith) e)
    | inr off ↦ recent_off x u p gone i y (ground arith) e
  ];
}
  where
    placed : get_elem? (set s.buffer v page) v ≡ some page
    placed = get_elem?-set_self s.buffer v page (omega (arith, w.inside, t.frames))

    is_page : (i : ℕ) (x : ℤ) → v ≡ i → get_elem? (set s.buffer v page) i ≡ some x → page ≡ x
    is_page i x at e = some_inj (sym placed ∙ ap (get_elem? (set s.buffer v page)) at ∙ e)

    now : (x : ℤ) → page ≡ x → s.counter + 1 ≡ last_use (page ∷ h) x
    now x same = rw (sym same) (omega (arith, t.clock, last_use-same h page))

    other :
        (x : ℤ) → find_page (set s.buffer v page) x ≡ none → last_use (page ∷ h) x ≡ last_use h x
    other x gone =
        last_use-other h page x
          (λ q. find_page-none (set s.buffer v page) x gone v (placed ∙ ap some q))

    recent_at :
        (x y : ℤ)
        → last_use (page ∷ h) x ≡ last_use h x
        → page ≡ y
        → (y ≢ free) × (last_use (page ∷ h) x ≤ last_use (page ∷ h) y)
    recent_at x y o same =
        (λ q. used (same ∙ q), omega (arith, o, last_use_le h x, now y same, t.clock))

    only :
        (x : ℤ)
        → find_page (set s.buffer v page) x ≡ none
        → (i : ℕ) → get_elem? s.buffer i ≡ some x
        → i ≡ v
    only x gone i e = elim (Bool-cases (v == i)) [
      | inl at ↦ ground arith
      | inr off ↦
          let ne : v ≢ i = ground arith in
          absurd
            (find_page-none (set s.buffer v page) x gone i (get_elem?-set_ne s.buffer page ne ∙ e))
    ]

    recent_off :
        (x : ℤ)
        → x ≢ free
        → 0 < last_use (page ∷ h) x
        → find_page (set s.buffer v page) x ≡ none
        → (i : ℕ) (y : ℤ) → v ≢ i
        → get_elem? (set s.buffer v page) i ≡ some y
        → (y ≢ free) × (last_use (page ∷ h) x ≤ last_use (page ∷ h) y)
    recent_off x u p gone i y off e =
        let o = other x gone in
        let (a, b) =
          w.oldest_use x u (omega (arith, o)) (only x gone) i y (λ q. off (sym q))
            (sym (get_elem?-set_ne s.buffer page off) ∙ e) in
        (a, omega (arith, o, b, last_use_mono h page y))

    stamped_at :
        (i : ℕ) (x : ℤ)
        → v ≡ i
        → get_elem? (set s.buffer v page) i ≡ some x
        → get_elem? (set s.time v (pos (s.counter + 1))) i ≡ some (pos (last_use (page ∷ h) x))
    stamped_at i x at e =
        ap (get_elem? (set s.time v (pos (s.counter + 1)))) (sym at)
        ∙ get_elem?-set_self s.time v _ (omega (arith, w.inside, t.stamps))
        ∙ ap (λ n. some (pos n)) (now x (is_page i x at e))

    stamped_off :
        (i : ℕ) (x : ℤ)
        → v ≢ i
        → x ≢ free
        → get_elem? (set s.buffer v page) i ≡ some x
        → get_elem? (set s.time v (pos (s.counter + 1))) i ≡ some (pos (last_use (page ∷ h) x))
    stamped_off i x off u e =
        let old : get_elem? s.buffer i ≡ some x = sym (get_elem?-set_ne s.buffer page off) ∙ e in
        get_elem?-set_ne s.time _ off
        ∙ t.stamped i x u old
        ∙ ap (λ n. some (pos n))
            (sym (
              last_use-other h page x
                (λ q. find_page-none s.buffer page absent i (old ∙ ap some (sym q)))))

-- a free frame is a victim
pub empty-IsVictim :
    (h : List ℤ) (s : LruState) (v : ℕ)
    → Tracks h s
    → find_page s.buffer free ≡ some v
    → IsVictim h s v
empty-IsVictim h s v t e = record {
  inside = omega (arith, get_elem?_lt s.buffer v (find_page-some s.buffer free e), t.frames);
  oldest_use = λ x u p only i y ne f. absurd (all_used x u p (find_page s.buffer x) refl only);
}
  where
    all_used :
        (x : ℤ)
        → x ≢ free
        → 0 < last_use h x
        → (r : Option ℕ) → find_page s.buffer x ≡ r
        → ((i : ℕ) → get_elem? s.buffer i ≡ some x → i ≡ v)
        → ⊥
    all_used x u p none m only = (t.recent x u p m v free (find_page-some s.buffer free e)).0 refl
    all_used x u p (some i) m only =
        let a = find_page-some s.buffer x m in
        u (some_inj (sym a ∙ ap (get_elem? s.buffer) (only i a) ∙ find_page-some s.buffer free e))

-- without a free frame, the frame with the least stamp is one
pub oldest-IsVictim :
    (h : List ℤ) (s : LruState)
    → Tracks h s
    → find_page s.buffer free ≡ none
    → IsVictim h s (oldest s.time)
oldest-IsVictim h s t full = record {
  inside = omega (arith, get_elem?_lt s.time (oldest s.time) r.there, t.stamps);
  oldest_use =
      λ x u p only i y ne f. (in_use i y f, least x u p only i y f (find_page s.buffer x) refl);
}
  where
    r : IsLeast s.time (oldest s.time)
    r = oldest-IsLeast s.time (omega (arith, t.stamps))

    in_use : (i : ℕ) (y : ℤ) → get_elem? s.buffer i ≡ some y → y ≢ free
    in_use i y f q = find_page-none s.buffer free full i (f ∙ ap some q)

    least :
        (x : ℤ)
        → x ≢ free
        → 0 < last_use h x
        → ((i : ℕ) → get_elem? s.buffer i ≡ some x → i ≡ oldest s.time)
        → (i : ℕ) (y : ℤ) → get_elem? s.buffer i ≡ some y
        → (m : Option ℕ) → find_page s.buffer x ≡ m
        → last_use h x ≤ last_use h y
    least x u p only i y f none m = (t.recent x u p m i y f).1
    least x u p only i y f (some k) m =
        let a = find_page-some s.buffer x m in
        let b = t.stamped k x u a in
        let c : r.stamp ≡ pos (last_use h x) =
          some_inj (sym r.there ∙ ap (get_elem? s.time) (sym (only k a)) ∙ b) in
        let d = r.least i (pos (last_use h y)) (t.stamped i y (in_use i y f) f) in
        omega (arith, d, ap pos_part c, ap neg_part c)
