-- ===== src/PageCache/Clock.antt =====
-- The Clock simulation: every request ends, and a miss takes the frame of the second-chance rule.
use iitm.Prelude.{
  ◌∙◌, Returns-bind, length-set, length-append, Returns-mono, length-drop, length-take,
  length-replicate, ◌≤◌, ℕ, zero, suc, ◌+◌, ◌-◌, ◌%◌, ◌<◌, ◌≡◌, refl, Bool, true, false, Option,
  some, none, List, [], ◌∷◌, ◌++◌, set, length, replicate, take, drop, Returns, arith,
}
use iitm.Prelude.Int.{ℤ}
use iitm.PageCache.Frames.{find_page-set, AllDistinct, set-AllDistinct}
use iitm.PageCache.{max_frames, find_page, ClockState, advance, clock_request, simulate_clock}

pub record IsValid (s : ClockState) : Type 0 where
  pub frames : length s.buffer ≡ max_frames
  pub bits : length s.ref_bit ≡ max_frames
  pub hand : s.pointer < max_frames

-- the bits in the order in which a hand at `i` meets them
unfoldable pub turned : ℕ → List Bool → List Bool
turned i bits = drop i bits ++ take i bits

-- how many frames a hand passes before the first clear bit
unfoldable pub passed : List Bool → ℕ
passed [] = 0
passed (true ∷ bits) = passed bits + 1
passed (false ∷ bits) = 0

-- The page goes to the first frame with a clear bit, from the hand on, or to the frame at the hand if
-- all bits are set; the bits passed are cleared, the bit of the frame is set, and the hand stops after.
unfoldable pub second_chance : ClockState → ℤ → ClockState
second_chance s page =
    let ahead = turned s.pointer s.ref_bit in
    let victim = (s.pointer + passed ahead) % max_frames in
    let swept = replicate (passed ahead) false ++ drop (passed ahead) ahead in
    record s {
      buffer = set s.buffer victim page;
      ref_bit = set (turned (max_frames - s.pointer) swept) victim true;
      pointer = (victim + 1) % max_frames;
    }

clock : List ℤ → List Bool → ℕ → ℕ → ℕ → ClockState
clock buffer ref_bit pointer hits misses = record {
  buffer = buffer;
  ref_bit = ref_bit;
  pointer = pointer;
  hits = hits;
  misses = misses;
}

sweep :
    (buffer : List ℤ) (bits : List Bool) (i hits misses : ℕ) (page : ℤ)
    → length bits ≡ max_frames
    → i < max_frames
    → advance (max_frames + 1) (clock buffer bits i hits misses) page
      ≡ some (second_chance (clock buffer bits i hits misses) page)
unfolding advance second_chance turned passed clock
sweep buffer (false ∷ b ∷ c ∷ []) zero hits misses page p q = refl
sweep buffer (true ∷ false ∷ c ∷ []) zero hits misses page p q = refl
sweep buffer (true ∷ true ∷ false ∷ []) zero hits misses page p q = refl
sweep buffer (true ∷ true ∷ true ∷ []) zero hits misses page p q = refl
sweep buffer (a ∷ false ∷ c ∷ []) (suc zero) hits misses page p q = refl
sweep buffer (a ∷ true ∷ false ∷ []) (suc zero) hits misses page p q = refl
sweep buffer (false ∷ true ∷ true ∷ []) (suc zero) hits misses page p q = refl
sweep buffer (true ∷ true ∷ true ∷ []) (suc zero) hits misses page p q = refl
sweep buffer (a ∷ b ∷ false ∷ []) (suc (suc zero)) hits misses page p q = refl
sweep buffer (false ∷ b ∷ true ∷ []) (suc (suc zero)) hits misses page p q = refl
sweep buffer (true ∷ false ∷ true ∷ []) (suc (suc zero)) hits misses page p q = refl
sweep buffer (true ∷ true ∷ true ∷ []) (suc (suc zero)) hits misses page p q = refl
sweep buffer (a ∷ b ∷ c ∷ []) (suc (suc (suc i))) hits misses page p q = absurd (omega arith)
sweep buffer [] i hits misses page p q = absurd (omega arith)
sweep buffer (a ∷ []) i hits misses page p q = absurd (omega arith)
sweep buffer (a ∷ b ∷ []) i hits misses page p q = absurd (omega arith)
sweep buffer (a ∷ b ∷ c ∷ d ∷ bits) i hits misses page p q = absurd (omega arith)

-- On a miss, the `while (1)` loop ends, and it leaves the state that the second-chance rule
-- describes, with one miss more.
pub clock_request-second_chance :
    (s : ClockState) (page : ℤ)
    → IsValid s
    → find_page s.buffer page ≡ none
    → clock_request s page ≡ some (second_chance (record s { misses = s.misses + 1 }) page)
unfolding clock_request clock
clock_request-second_chance s page v absent =
    rw (clock_request, absent)
      (sweep s.buffer s.ref_bit s.pointer s.hits (s.misses + 1) page v.bits v.hand)

-- what a request for `page` in state `s` leaves behind
record Served (s : ClockState) (page : ℤ) (s' : ClockState) : Type 0 where
  valid : IsValid s'
  distinct : AllDistinct s.buffer → AllDistinct s'.buffer
  resident : (j : ℕ) × (find_page s'.buffer page ≡ some j)
  counted : s'.hits + s'.misses ≡ s.hits + s.misses + 1

length-turned : (i : ℕ) (bits : List Bool) → length (turned i bits) ≡ length bits
unfolding turned
length-turned i bits =
    omega (arith, length-append (drop i bits) (take i bits), length-drop i bits, length-take i bits)

passed_le : (bits : List Bool) → passed bits ≤ length bits
unfolding passed
passed_le [] = omega arith
passed_le (true ∷ bits) = omega (arith, passed_le bits)
passed_le (false ∷ bits) = omega arith

length-swept :
    (bits : List Bool) (d : ℕ)
    → d ≤ length bits
    → length (replicate d false ++ drop d bits) ≡ length bits
length-swept bits d p = omega (
  arith,
  length-append (replicate d false) (drop d bits),
  length-replicate d false,
  length-drop d bits,
)

second_chance-Served :
    (s : ClockState) (page : ℤ)
    → IsValid s
    → find_page s.buffer page ≡ none
    → Served s page (second_chance (record s { misses = s.misses + 1 }) page)
unfolding second_chance
second_chance-Served s page v absent =
    let ahead = turned s.pointer s.ref_bit in
    let d = passed ahead in
    let swept = replicate d false ++ drop d ahead in
    record {
      valid = record {
        frames = length-set s.buffer _ page ∙ v.frames;
        bits =
            length-set (turned (max_frames - s.pointer) swept) _ true
            ∙ length-turned (max_frames - s.pointer) swept
            ∙ length-swept ahead d (passed_le ahead)
            ∙ length-turned s.pointer s.ref_bit
            ∙ v.bits;
        hand = omega arith;
      };
      distinct = set-AllDistinct s.buffer _ page (omega (arith, v.frames)) absent;
      resident = find_page-set s.buffer page _ (omega (arith, v.frames));
      counted = omega arith;
    }

clock_request-Served :
    (s : ClockState) (page : ℤ) → IsValid s → Returns (Served s page) (clock_request s page)
unfolding clock_request
clock_request-Served s page v = go (find_page s.buffer page) refl
  where
    go :
        (r : Option ℕ)
        → find_page s.buffer page ≡ r
        → Returns (Served s page) (clock_request s page)
    go none e = rw (clock_request-second_chance s page v e) (second_chance-Served s page v e)
    go (some j) e =
        rw (Returns, clock_request, e)
          (record {
            valid = record {
              frames = v.frames;
              bits = length-set s.ref_bit j true ∙ v.bits;
              hand = v.hand;
            };
            distinct = λ d. d;
            resident = (j, e);
            counted = omega arith;
          })

-- what requests for `pages` leave behind
pub record Serves (s : ClockState) (pages : List ℤ) (s' : ClockState) : Type 0 where
  pub valid : IsValid s'
  pub distinct : AllDistinct s'.buffer
  pub counted : s'.hits + s'.misses ≡ s.hits + s.misses + length pages

-- From a valid state with no page in two frames, the simulation serves any requests to the end: the
-- state stays valid, no page stands in two frames, and each request is a hit or a miss.
pub simulate_clock-Serves :
    (s : ClockState) (pages : List ℤ)
    → IsValid s
    → AllDistinct s.buffer
    → Returns (Serves s pages) (simulate_clock s pages)
unfolding simulate_clock
simulate_clock-Serves s [] v d = record { valid = v; distinct = d; counted = omega arith }
simulate_clock-Serves s (page ∷ pages) v d =
    Returns-bind (Served s page) (Serves s (page ∷ pages)) (clock_request s page)
      (λ s'. simulate_clock s' pages) (clock_request-Served s page v)
      (λ s' r.
        Returns-mono (Serves s' pages) (Serves s (page ∷ pages)) (simulate_clock s' pages)
          (simulate_clock-Serves s' pages r.valid (r.distinct d))
          (λ s'' t. record {
            valid = t.valid;
            distinct = t.distinct;
            counted = omega (arith, t.counted, r.counted);
          }))
