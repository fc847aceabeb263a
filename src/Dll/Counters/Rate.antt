-- ===== src/Dll/Counters/Rate.antt =====
-- The threshold counter against the rule that it implements: an error adds 8, a good cycle takes
-- 1 away, and the counter fires and starts again where it reaches the threshold.
use powerlink_rs.Common.{
  ℕ, zero, suc, ◌+◌, ◌-◌, ◌≤◌, ◌<◌, ◌≡◌, refl, Bool, true, false, leb, if◌then◌else◌, List, [], ◌∷◌,
  ◌++◌, replicate, arith, All, ap,
}
use powerlink_rs.Dll.Counters.{
  ThresholdCounter, u32_max, new_counter, increment, decrement, check_and_reset, count_error,
}

-- What happens to one counter: an error of its kind, or a cycle without one.
pub data Tick : Type 0 where
  bad_cycle good_cycle : Tick

unfoldable pub step : Tick → ThresholdCounter → Bool × ThresholdCounter
unfolding count_error decrement
step bad_cycle c = count_error c
step good_cycle c = (false, decrement c)

-- The counter at the end of a run, and how often it fired.
unfoldable pub run : List Tick → ThresholdCounter → ℕ × ThresholdCounter
run [] c = (0, c)
run (t ∷ ts) c =
    let (fired, c') = step t c in let (n, c'') = run ts c' in ((if fired then suc n else n), c'')

-- The rule over unbounded numbers: the level, and how often it fired.
unfoldable pub level_step : ℕ → Tick → ℕ → Bool × ℕ
level_step threshold bad_cycle level =
    if leb threshold (level + 8) then (true, 0) else (false, level + 8)
level_step threshold good_cycle level = (false, level - 1)

unfoldable pub level_run : ℕ → List Tick → ℕ → ℕ × ℕ
level_run threshold [] level = (0, level)
level_run threshold (t ∷ ts) level =
    let (fired, level') = level_step threshold t level in
    let (n, level'') = level_run threshold ts level' in ((if fired then suc n else n), level'')

-- The level lies below the threshold, which leaves room for one more error in a `u32`.
pub record IsSound (c : ThresholdCounter) : Type 0 where
  pub below : c.threshold_cnt < c.threshold
  pub room : c.threshold + 8 ≤ u32_max

step-IsSound :
    (t : Tick) (c : ThresholdCounter)
    → IsSound c
    → IsSound (step t c).1 × ((step t c).1.threshold ≡ c.threshold)
unfolding step increment check_and_reset
step-IsSound bad_cycle c v = ground arith
step-IsSound good_cycle c v = ground arith

step_refines :
    (t : Tick) (c : ThresholdCounter)
    → IsSound c
    → ((step t c).0, (step t c).1.threshold_cnt) ≡ level_step c.threshold t c.threshold_cnt
unfolding step level_step increment check_and_reset
step_refines bad_cycle c v = ground arith
step_refines good_cycle c v = ground arith

-- Over any run of errors and good cycles a sound counter fires as often as the rule over
-- unbounded numbers says, ends at its level, and stays below its threshold: the saturation at
-- `u32::MAX` never shows.
pub run_refines :
    (ts : List Tick) (c : ThresholdCounter)
    → IsSound c
    → (((run ts c).0, (run ts c).1.threshold_cnt) ≡ level_run c.threshold ts c.threshold_cnt)
      × IsSound (run ts c).1
unfolding run level_run
run_refines [] c v = (refl, v)
run_refines (t ∷ ts) c v =
    let (keep, same) = step-IsSound t c v in
    let (eq, sound) = run_refines ts (step t c).1 keep in
    (ground (arith, same, eq, step_refines t c v), sound)

level_run-good :
    (threshold g level : ℕ) (ts : List Tick)
    → level_run threshold (replicate g good_cycle ++ ts) level ≡ level_run threshold ts (level - g)
unfolding level_run level_step
level_run-good threshold zero level ts = ap (level_run threshold ts) (omega arith)
level_run-good threshold (suc g) level ts = ground (
  arith,
  level_run-good threshold g (level - 1) ts,
  ap (level_run threshold ts) (sub_twice level g),
)
  where
    sub_twice : (a b : ℕ) → a - 1 - b ≡ a - suc b
    sub_twice a b = omega arith

-- Errors with the good cycles that follow each of them.
unfoldable pub spaced : List ℕ → List Tick
spaced [] = []
spaced (g ∷ gs) = bad_cycle ∷ (replicate g good_cycle ++ spaced gs)

level_run_bad :
    (threshold : ℕ) (ts : List Tick)
    → 8 < threshold
    → level_run threshold (bad_cycle ∷ ts) 0 ≡ level_run threshold ts 8
unfolding level_run level_step
level_run_bad threshold ts h = ground arith

spaced-silent :
    (threshold : ℕ) (gs : List ℕ)
    → 8 < threshold
    → All (λ g. 8 ≤ g) gs
    → (level_run threshold (spaced gs) 0).0 ≡ 0
unfolding spaced
spaced-silent threshold [] h a = unfold level_run in refl
spaced-silent threshold (g ∷ gs) h (b, a) = ground (
  arith,
  level_run_bad threshold (replicate g good_cycle ++ spaced gs) h,
  level_run-good threshold g 8 (spaced gs),
  ap (level_run threshold (spaced gs)) (spent g b),
  spaced-silent threshold gs h a,
)
  where
    spent : (g : ℕ) → 8 ≤ g → 8 - g ≡ 0
    spent g b = omega arith

new_counter-IsSound :
    (threshold : ℕ) → 0 < threshold → threshold + 8 ≤ u32_max → IsSound (new_counter threshold)
unfolding new_counter
new_counter-IsSound threshold h r = omega arith

-- A fresh counter with a threshold above 8 never fires on errors that are each followed by eight
-- good cycles or more, however many there are.
pub run-spaced :
    (threshold : ℕ) (gs : List ℕ)
    → 8 < threshold
    → threshold + 8 ≤ u32_max
    → All (λ g. 8 ≤ g) gs
    → (run (spaced gs) (new_counter threshold)).0 ≡ 0
unfolding new_counter
run-spaced threshold gs h r a =
    let (same, _) =
      run_refines (spaced gs) (new_counter threshold)
        (new_counter-IsSound threshold (omega arith) r) in
    ground (arith, same, spaced-silent threshold gs h a)

-- With the threshold 15 of the specification, a second error fires a fresh counter exactly if at
-- most one good cycle lies between the two.
pub run_two_errors :
    (g : ℕ) → (run (spaced (g ∷ 0 ∷ [])) (new_counter 15)).0 ≡ (if leb g 1 then 1 else 0)
unfolding new_counter spaced level_run level_step
run_two_errors g =
    let (same, _) =
      run_refines (spaced (g ∷ 0 ∷ [])) (new_counter 15)
        (new_counter-IsSound 15 (omega arith) (omega arith)) in
    ground (
      arith,
      same,
      level_run_bad 15 (replicate g good_cycle ++ spaced (0 ∷ [])),
      level_run-good 15 g 8 (spaced (0 ∷ [])),
    )
