-- ===== src/Dll/MnCounters/General.antt =====
-- The counters of a managing node that are not about one controlled node.
use powerlink_rs.Common.{◌≡◌, refl, Bool, false, ◌||◌, List, [], ◌∷◌, arith}
use powerlink_rs.Dll.Error.{DllError, NmtAction}
use powerlink_rs.Dll.Counters.{
  ThresholdCounter, new_counter, decrement, count_error, increment, check_and_reset,
}
use powerlink_rs.Dll.Counters.Kinds.{Report, failed, completed, is_reset}
use powerlink_rs.Dll.MnCounters.{MnErrorCounters, mn_new, mn_on_cycle_complete, mn_handle_error}

-- The actions that a managing node takes on its reports, in order.
unfoldable pub actions : List Report → MnErrorCounters → List NmtAction
actions [] c = []
actions (failed e ∷ rs) c = let (o, c') = mn_handle_error e c in o.action ∷ actions rs c'
actions (completed ∷ rs) c = actions rs (mn_on_cycle_complete c).1

-- The thresholds that `MnErrorCounters::new` leaves.
pub record HasNoThreshold (c : MnErrorCounters) : Type 0 where
  pub crc : c.crc_errors.threshold ≡ 0
  pub collision : c.collision.threshold ≡ 0
  pub cycle : c.cycle_time_exceeded.threshold ≡ 0

count_error-no_threshold :
    (c : ThresholdCounter)
    → c.threshold ≡ 0
    → (((count_error c).0) ≡ false) × ((count_error c).1.threshold ≡ 0)
unfolding count_error increment check_and_reset
count_error-no_threshold c h = ground arith

mn_handle_error-HasNoThreshold :
    (e : DllError) (c : MnErrorCounters)
    → HasNoThreshold c
    → HasNoThreshold (mn_handle_error e c).1 × (is_reset (mn_handle_error e c).0.action ≡ false)
unfolding mn_handle_error
mn_handle_error-HasNoThreshold e c h = ground (
  arith,
  count_error-no_threshold c.crc_errors h.crc,
  count_error-no_threshold c.collision h.collision,
  count_error-no_threshold c.cycle_time_exceeded h.cycle,
)

mn_on_cycle_complete-HasNoThreshold :
    (c : MnErrorCounters) → HasNoThreshold c → HasNoThreshold (mn_on_cycle_complete c).1
unfolding mn_on_cycle_complete decrement
mn_on_cycle_complete-HasNoThreshold c h = ground arith

abbrev pub has_reset : List NmtAction → Bool
has_reset [] = false
has_reset (a ∷ rest) = is_reset a || has_reset rest

actions-HasNoThreshold :
    (rs : List Report) (c : MnErrorCounters) → HasNoThreshold c → has_reset (actions rs c) ≡ false
unfolding actions
actions-HasNoThreshold [] c h = refl
actions-HasNoThreshold (failed e ∷ rs) c h =
    let (keep, quiet) = mn_handle_error-HasNoThreshold e c h in
    ground (arith, quiet, actions-HasNoThreshold rs (mn_handle_error e c).1 keep)
actions-HasNoThreshold (completed ∷ rs) c h =
    actions-HasNoThreshold rs (mn_on_cycle_complete c).1 (mn_on_cycle_complete-HasNoThreshold c h)

-- Counters fresh from `new` never ask a managing node to reset its communication, whatever errors
-- and cycles are reported.
pub actions-mn_new : (rs : List Report) → has_reset (actions rs mn_new) ≡ false
unfolding mn_new new_counter
actions-mn_new rs =
    actions-HasNoThreshold rs mn_new (record { crc = refl; collision = refl; cycle = refl })
