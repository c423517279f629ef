-- ===== src/PageCache.antt =====
-- week 8/Page cache/pageCahe.c: page replacement by LRU, Clock and ARC over a list of requests.
-- Pages are in ℤ, with -1 in a free frame. A simulation is a fold of one step per request, without
-- what it prints.
pub mod Frames
pub mod Clock
pub mod Oldest
pub mod Lru
pub mod LruRun
pub mod Replace
pub mod Arc
pub mod ArcRun
use iitm.Prelude.{
  ℕ, zero, suc, ◌+◌, ◌-◌, ◌%◌, Bool, true, false, ◌&&◌, ◌||◌, Option, some, none, List, [], ◌∷◌,
  ltb, leb, ◌==◌, if◌then◌else◌, ◌>>=◌, set, get_elem?, length, replicate,
}
use iitm.Prelude.Int.{ℤ, pos, negsuc, ltb_ℤ, eqb_ℤ}

abbrev pub max_frames : ℕ
max_frames = 3

-- -1
abbrev pub free : ℤ
free = negsuc 0

-- `none` is the result -1
unfoldable pub find_page : List ℤ → ℤ → Option ℕ
find_page [] page = none
find_page (x ∷ buffer) page =
    let rest = find_page buffer page >>= λ i. some (i + 1) in if eqb_ℤ x page then some 0 else rest

pub record LruState : Type 0 where
  pub buffer : List ℤ
  pub time : List ℤ
  pub counter : ℕ
  pub hits : ℕ
  pub misses : ℕ

unfoldable pub lru_init : LruState
lru_init = record {
  buffer = replicate max_frames free;
  time = replicate max_frames free;
  counter = 0;
  hits = 0;
  misses = 0;
}

-- the search for the least time, from frame `j` on; `best` is `time[lru]`
unfoldable pub oldest_from : ℕ → ℕ → ℤ → List ℤ → ℕ
oldest_from j lru best [] = lru
oldest_from j lru best (t ∷ time) =
    oldest_from (j + 1) (if ltb_ℤ t best then j else lru) (if ltb_ℤ t best then t else best) time

unfoldable pub oldest : List ℤ → ℕ
oldest [] = 0
oldest (t ∷ time) = oldest_from 1 0 t time

-- `time[i] = ++counter`, after `buffer[i] = page`
unfoldable pub touch : ℕ → ℤ → LruState → LruState
touch i page s = record s {
  buffer = set s.buffer i page;
  time = set s.time i (pos (s.counter + 1));
  counter = s.counter + 1;
}

unfoldable pub lru_request : LruState → ℤ → LruState
lru_request s page = elim (find_page s.buffer page) [
  | some i ↦ record s {
    time = set s.time i (pos (s.counter + 1));
    counter = s.counter + 1;
    hits = s.hits + 1;
  }
  | none ↦
      let s' = record s { misses = s.misses + 1 } in
      (elim (find_page s.buffer free) [
        | none ↦ touch (oldest s.time) page s'
        | some empty ↦ touch empty page s'
      ])
]

unfoldable pub simulate_lru : LruState → List ℤ → LruState
simulate_lru s [] = s
simulate_lru s (page ∷ pages) = simulate_lru (lru_request s page) pages

pub record ClockState : Type 0 where
  pub buffer : List ℤ
  pub ref_bit : List Bool
  pub pointer : ℕ
  pub hits : ℕ
  pub misses : ℕ

unfoldable pub clock_init : ClockState
clock_init = record {
  buffer = replicate max_frames free;
  ref_bit = replicate max_frames false;
  pointer = 0;
  hits = 0;
  misses = 0;
}

-- the `while (1)` of a miss, with fuel; `none` is a lack of fuel or a pointer outside the frames
unfoldable pub advance : ℕ → ClockState → ℤ → Option ClockState
advance zero s page = none
advance (suc fuel) s page =
    let i = s.pointer in
    let next = (i + 1) % max_frames in
    let rest = advance fuel (record s { ref_bit = set s.ref_bit i false; pointer = next }) page in
    elim (get_elem? s.ref_bit i) [
      | none ↦ none
      | some false ↦ some (record s {
        buffer = set s.buffer i page;
        ref_bit = set s.ref_bit i true;
        pointer = next;
      })
      | some true ↦ rest
    ]

-- Four rounds are enough: each round before the last clears one of three bits.
unfoldable pub clock_request : ClockState → ℤ → Option ClockState
clock_request s page = elim (find_page s.buffer page) [
  | some j ↦ some (record s { ref_bit = set s.ref_bit j true; hits = s.hits + 1 })
  | none ↦ advance (max_frames + 1) (record s { misses = s.misses + 1 }) page
]

unfoldable pub simulate_clock : ClockState → List ℤ → Option ClockState
simulate_clock s [] = some s
simulate_clock s (page ∷ pages) = do s' ← clock_request s page; simulate_clock s' pages

-- the globals `T1`, `T2`, `B1`, `B2`, `p`, `hitsARC` and `missesARC`
pub record ArcState : Type 0 where
  pub t1 : List ℤ
  pub t2 : List ℤ
  pub b1 : List ℤ
  pub b2 : List ℤ
  pub p : ℕ
  pub hits : ℕ
  pub misses : ℕ

unfoldable pub arc_init : ArcState
arc_init = record { t1 = []; t2 = []; b1 = []; b2 = []; p = 0; hits = 0; misses = 0 }

unfoldable pub contains : List ℤ → ℤ → Bool
contains [] page = false
contains (x ∷ list) page = eqb_ℤ x page || contains list page

unfoldable pub remove_node : List ℤ → ℤ → List ℤ
remove_node [] page = []
remove_node (x ∷ list) page = if eqb_ℤ x page then list else x ∷ remove_node list page

-- the last page, or -1, and the list without it
unfoldable pub remove_lru : List ℤ → ℤ × List ℤ
remove_lru [] = (free, [])
remove_lru (x ∷ []) = (x, [])
remove_lru (x ∷ y ∷ list) = let (page, rest) = remove_lru (y ∷ list) in (page, x ∷ rest)

unfoldable pub replace_arc : ArcState → ArcState
replace_arc s =
    if leb 1 (length s.t1)
      && (ltb s.p (length s.t1) || (contains s.b2 (pos 0) && (length s.t1 == s.p)))
    then (let (old, rest) = remove_lru s.t1 in record s { t1 = rest; b1 = old ∷ s.b1 })
    else (let (old, rest) = remove_lru s.t2 in record s { t2 = rest; b2 = old ∷ s.b2 })

unfoldable pub arc_hit : ArcState → ℤ → ArcState
arc_hit s page =
    if contains s.t1 page
    then record s { t1 = remove_node s.t1 page; t2 = page ∷ s.t2; hits = s.hits + 1 }
    else record s { t2 = page ∷ remove_node s.t2 page; hits = s.hits + 1 }

-- a miss on a page that `B1` remembers
unfoldable pub arc_from_b1 : ArcState → ℤ → ArcState
arc_from_b1 s page =
    let p =
      if ltb (s.p + (if ltb 0 (length s.b2) then 1 else 0)) max_frames
      then s.p + 1
      else max_frames in
    let s' = replace_arc (record s { p = p }) in
    record s' { b1 = remove_node s'.b1 page; t2 = page ∷ s'.t2 }

unfoldable pub arc_from_b2 : ArcState → ℤ → ArcState
arc_from_b2 s page =
    let p = if ltb 0 (s.p - (if ltb 0 (length s.b1) then 1 else 0)) then s.p - 1 else 0 in
    let s' = replace_arc (record s { p = p }) in
    record s' { b2 = remove_node s'.b2 page; t2 = page ∷ s'.t2 }

unfoldable pub arc_new : ArcState → ℤ → ArcState
arc_new s page =
    let s' = if leb max_frames (length s.t1 + length s.t2) then replace_arc s else s in
    record s' { t1 = page ∷ s'.t1 }

unfoldable pub arc_request : ArcState → ℤ → ArcState
arc_request s page =
    if contains s.t1 page || contains s.t2 page
    then arc_hit s page
    else let s' = record s { misses = s.misses + 1 } in
      if contains s.b1 page
      then arc_from_b1 s' page
      else if contains s.b2 page
      then arc_from_b2 s' page
      else arc_new s' page

unfoldable pub simulate_arc : ArcState → List ℤ → ArcState
simulate_arc s [] = s
simulate_arc s (page ∷ pages) = simulate_arc (arc_request s page) pages
