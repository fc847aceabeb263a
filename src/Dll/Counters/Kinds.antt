-- ===== src/Dll/Counters/Kinds.antt =====
-- The seven threshold counters of a controlled node do not touch one another: each runs as if it
-- were alone, and a reset is asked for exactly when the counter of the error fires.
use powerlink_rs.Common.{
  ℕ, suc, ◌≡◌, refl, Bool, true, false, if◌then◌else◌, List, [], ◌∷◌, arith, inl, inr, Bool-cases,
}
use powerlink_rs.Dll.Error.{DllError, NmtAction}
use powerlink_rs.Dll.Counters.{
  ThresholdCounter, CnErrorCounters, cn_on_cycle_complete, cn_handle_error,
}
use powerlink_rs.Dll.Counters.Rate.{Tick, bad_cycle, good_cycle, step, run}

pub data Kind : Type 0 where
  collision soc soa preq jitter crc heartbeat : Kind

-- The counter of a kind, and the kind that an error counts for.
unfoldable pub counter_of : Kind → CnErrorCounters → ThresholdCounter
counter_of collision c = c.collision
counter_of soc c = c.loss_of_soc
counter_of soa c = c.loss_of_soa
counter_of preq c = c.loss_of_preq
counter_of jitter c = c.soc_jitter
counter_of crc c = c.crc_errors
counter_of heartbeat c = c.heartbeat_timeout

unfoldable pub counts_for : Kind → DllError → Bool
counts_for collision DllError.collision = true
counts_for soc DllError.loss_of_soc = true
counts_for soa DllError.loss_of_soa = true
counts_for preq DllError.loss_of_preq = true
counts_for jitter DllError.soc_jitter = true
counts_for crc DllError.crc = true
counts_for heartbeat (DllError.heartbeat_timeout n) = true
counts_for _ _ = false

-- What a controlled node tells its counters.
pub data Report : Type 0 where
  failed : DllError → Report
  completed : Report

unfoldable pub observe : Report → CnErrorCounters → NmtAction × CnErrorCounters
observe (failed e) c = let (o, c') = cn_handle_error e c in (o.action, c')
observe completed c = (NmtAction.no_action, (cn_on_cycle_complete c).1)

abbrev pub is_reset : NmtAction → Bool
is_reset NmtAction.reset_communication = true
is_reset _ = false

abbrev pub is_of : Kind → Report → Bool
unfolding counts_for
is_of k (failed e) = counts_for k e
is_of k completed = false

-- How often an error of one kind asked for a reset, and the counters at the end.
unfoldable pub observe_all : Kind → List Report → CnErrorCounters → ℕ × CnErrorCounters
observe_all k [] c = (0, c)
observe_all k (r ∷ rs) c =
    let (action, c') = observe r c in
    let (n, c'') = observe_all k rs c' in
    ((if is_of k r then (if is_reset action then suc n else n) else n), c'')

-- The reports as the counter of one kind sees them.
unfoldable pub ticks_of : Kind → List Report → List Tick
ticks_of k [] = []
ticks_of k (failed e ∷ rs) =
    let rest = ticks_of k rs in if counts_for k e then bad_cycle ∷ rest else rest
ticks_of k (completed ∷ rs) = good_cycle ∷ ticks_of k rs

observe-failed :
    (k : Kind) (e : DllError) (c : CnErrorCounters)
    → counts_for k e ≡ true
    → (is_reset (observe (failed e) c).0 ≡ (step bad_cycle (counter_of k c)).0)
      × (counter_of k (observe (failed e) c).1 ≡ (step bad_cycle (counter_of k c)).1)
unfolding observe counts_for counter_of cn_handle_error step
observe-failed collision e c h = ground arith
observe-failed soc e c h = ground arith
observe-failed soa e c h = ground arith
observe-failed preq e c h = ground arith
observe-failed jitter e c h = ground arith
observe-failed crc e c h = ground arith
observe-failed heartbeat e c h = ground arith

observe-other :
    (k : Kind) (e : DllError) (c : CnErrorCounters)
    → counts_for k e ≡ false
    → counter_of k (observe (failed e) c).1 ≡ counter_of k c
unfolding observe counts_for counter_of cn_handle_error
observe-other collision e c h = ground arith
observe-other soc e c h = ground arith
observe-other soa e c h = ground arith
observe-other preq e c h = ground arith
observe-other jitter e c h = ground arith
observe-other crc e c h = ground arith
observe-other heartbeat e c h = ground arith

observe-completed :
    (k : Kind) (c : CnErrorCounters)
    → counter_of k (observe completed c).1 ≡ (step good_cycle (counter_of k c)).1
unfolding step observe counter_of cn_on_cycle_complete
observe-completed k c = ground arith

-- For each kind, the counter after any reports is the one that ran alone over the errors of
-- its kind and the completed cycles, and the node was asked to reset its communication on an error
-- of the kind exactly as often as that counter fired.
pub observe_all-run :
    (k : Kind) (rs : List Report) (c : CnErrorCounters)
    → ((observe_all k rs c).0 ≡ (run (ticks_of k rs) (counter_of k c)).0)
      × (counter_of k (observe_all k rs c).1 ≡ (run (ticks_of k rs) (counter_of k c)).1)
unfolding observe_all ticks_of run is_of step
observe_all-run k [] c = (refl, refl)
observe_all-run k (failed e ∷ rs) c = elim (Bool-cases (counts_for k e)) [
  | inl q ↦
      let (fires, counts) = observe-failed k e c q in
      let (times, level) = observe_all-run k rs (observe (failed e) c).1 in
      (rw (q, times, fires, counts), rw (q, level, counts))
  | inr q ↦
      let (times, level) = observe_all-run k rs (observe (failed e) c).1 in
      (rw (q, times, observe-other k e c q), rw (q, level, observe-other k e c q))
]
observe_all-run k (completed ∷ rs) c =
    let (times, level) = observe_all-run k rs (observe completed c).1 in
    (rw (times, observe-completed k c), rw (level, observe-completed k c))
