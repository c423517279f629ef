-- ===== src/Tests/Cache.antt =====
-- Runs of week 8/Page cache/pageCahe.c.
use iitm.Prelude.{ℕ, ◌≡◌, ◌≢◌, refl, true, false, some, List, [], ◌∷◌, inr, Returns, map, arith}
use iitm.Prelude.Int.{ℤ, pos}
use iitm.SortedList.{All}
use iitm.PageCache.{
  find_page, free, LruState, lru_init, oldest_from, oldest, touch, lru_request, simulate_lru,
  ClockState, clock_init, advance, clock_request, simulate_clock, ArcState, arc_init, contains,
  remove_node, remove_lru, replace_arc, arc_hit, arc_from_b1, arc_from_b2, arc_new, arc_request,
  simulate_arc,
}
use iitm.PageCache.Frames.{replicate-AllDistinct}
use iitm.PageCache.Lru.{Tracks, last_use}
use iitm.PageCache.LruRun.{latest_first, simulate_lru-Tracks}
use iitm.PageCache.Replace.{held}
use iitm.PageCache.Clock.{
  second_chance, turned, passed, clock_request-second_chance, Serves, simulate_clock-Serves,
}
use iitm.PageCache.Arc.{Requests, arc_request-Requests}
use iitm.PageCache.ArcRun.{arc_request-overflow}

program : Unit {0}
unfolding find_page lru_init oldest_from oldest touch lru_request simulate_lru clock_init advance
    clock_request simulate_clock arc_init contains remove_node remove_lru replace_arc arc_hit
    arc_from_b1 arc_from_b2 arc_new arc_request simulate_arc second_chance turned passed last_use
    latest_first
program = tt

-- the 12 pages of the source
abbrev pages : List ℤ
pages = map pos (1 ∷ 2 ∷ 3 ∷ 1 ∷ 2 ∷ 3 ∷ 1 ∷ 4 ∷ 2 ∷ 5 ∷ 1 ∷ 2 ∷ [])

lru_run : (simulate_lru lru_init pages).misses ≡ 7
unfolding program
lru_run = refl

All-used : (ns : List ℕ) → All (λ page. page ≢ free) (map pos ns)
All-used [] = tt
All-used (n ∷ ns) = (λ e. cc, All-used ns)

simulate_lru-Tracks_example : Tracks (latest_first [] pages) (simulate_lru lru_init pages)
simulate_lru-Tracks_example =
    simulate_lru-Tracks pages (All-used (1 ∷ 2 ∷ 3 ∷ 1 ∷ 2 ∷ 3 ∷ 1 ∷ 4 ∷ 2 ∷ 5 ∷ 1 ∷ 2 ∷ []))

abbrev three : List ℤ
three = map pos (1 ∷ 2 ∷ 3 ∷ 1 ∷ [])

abbrev held_three : LruState
held_three = simulate_lru lru_init three

three-Tracks : Tracks (latest_first [] three) held_three
three-Tracks = simulate_lru-Tracks three (All-used (1 ∷ 2 ∷ 3 ∷ 1 ∷ []))

abbrev full : ClockState
full = record {
  buffer = pos 1 ∷ pos 2 ∷ pos 3 ∷ [];
  ref_bit = true ∷ false ∷ true ∷ [];
  pointer = 0;
  hits = 0;
  misses = 3;
}

clock_run :
    clock_request full (pos 4)
    ≡ some (record {
      buffer = pos 1 ∷ pos 4 ∷ pos 3 ∷ [];
      ref_bit = false ∷ true ∷ true ∷ [];
      pointer = 2;
      hits = 0;
      misses = 4;
    })
unfolding program
clock_run = refl

clock_request-second_chance_example :
    clock_request full (pos 4) ≡ some (second_chance (record full { misses = 4 }) (pos 4))
unfolding program
clock_request-second_chance_example =
    clock_request-second_chance full (pos 4)
      (record { frames = refl; bits = refl; hand = omega arith }) refl

simulate_clock-Serves_example : Returns (Serves clock_init pages) (simulate_clock clock_init pages)
unfolding program
simulate_clock-Serves_example =
    simulate_clock-Serves clock_init pages
      (record { frames = refl; bits = refl; hand = omega arith }) (replicate-AllDistinct 3)

arc_request-Requests_example : Requests arc_init (pos 1) (arc_request arc_init (pos 1))
arc_request-Requests_example = arc_request-Requests arc_init (pos 1)

-- the requests that fill `T1` with `p` at 2
abbrev before : List ℤ
before = map pos (2 ∷ 6 ∷ 5 ∷ 7 ∷ 4 ∷ 6 ∷ 5 ∷ 1 ∷ [])

abbrev at_limit : ArcState
at_limit = record {
  t1 = pos 1 ∷ pos 4 ∷ pos 7 ∷ [];
  t2 = [];
  b1 = pos 2 ∷ [];
  b2 = pos 5 ∷ pos 6 ∷ [];
  p = 2;
  hits = 0;
  misses = 8;
}

arc_run : simulate_arc arc_init before ≡ at_limit
unfolding program
arc_run = refl

arc_request-overflow_example : held (arc_request at_limit (pos 2)) ≡ 4
unfolding program
arc_request-overflow_example =
    arc_request-overflow at_limit (pos 2) refl refl (inr (refl, refl)) refl refl refl
