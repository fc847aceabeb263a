-- ===== src/Dll/MnCounters.antt =====
-- crates/powerlink-rs/src/frame/error/counters.rs: the counters of a managing node, with one
-- counter for each controlled node and kind of error.
pub mod General
use powerlink_rs.Common.{ℕ, Bool, true, false, Option, none, some, List, [], ◌∷◌, map}
use powerlink_rs.Common.BTree
use powerlink_rs.Types.{NodeId}
use powerlink_rs.Dll.Error.{DllError, NmtAction}
use powerlink_rs.Dll.Counters.{
  ThresholdCounter, new_counter, decrement, count_error, Outcome, ignored, log_only, on_threshold,
}

-- `struct MnErrorCounters`
pub record MnErrorCounters : Type 0 where
  pub crc_errors : ThresholdCounter
  pub collision : ThresholdCounter
  pub cycle_time_exceeded : ThresholdCounter
  pub loss_of_link_cumulative : ℕ
  pub cn_late_pres : List (NodeId × ThresholdCounter)
  pub cn_loss_of_pres : List (NodeId × ThresholdCounter)
  pub cn_loss_of_status_response : List (NodeId × ThresholdCounter)

-- `MnErrorCounters::new` is the derived `Default`: every number is 0, the thresholds too.
unfoldable pub mn_new : MnErrorCounters
unfolding new_counter
mn_new = record {
  crc_errors = new_counter 0;
  collision = new_counter 0;
  cycle_time_exceeded = new_counter 0;
  loss_of_link_cumulative = 0;
  cn_late_pres = [];
  cn_loss_of_pres = [];
  cn_loss_of_status_response = [];
}

-- `entry(node_id).or_insert_with(|| ThresholdCounter::new(15))`
unfoldable pub counter_for : NodeId → List (NodeId × ThresholdCounter) → ThresholdCounter
unfolding new_counter
counter_for node_id counters = elim (BTree.get node_id counters) [
  | some c ↦ c
  | none ↦ new_counter 15
]

-- The counter of one node after an error of its kind, stored back.
unfoldable pub count_node_error :
    NodeId → List (NodeId × ThresholdCounter) → Bool × List (NodeId × ThresholdCounter)
unfolding counter_for
count_node_error node_id counters =
    let (reached, c) = count_error (counter_for node_id counters) in
    (reached, BTree.insert node_id c counters)

abbrev pub decrement_each : List (NodeId × ThresholdCounter) → List (NodeId × ThresholdCounter)
decrement_each = map (λ p. (p.0, decrement p.1))

-- `on_cycle_complete` returns false on every path.
unfoldable pub mn_on_cycle_complete : MnErrorCounters → Bool × MnErrorCounters
unfolding decrement
mn_on_cycle_complete c = (
  false,
  record c {
    crc_errors = decrement c.crc_errors;
    collision = decrement c.collision;
    cycle_time_exceeded = decrement c.cycle_time_exceeded;
    cn_loss_of_pres = decrement_each c.cn_loss_of_pres;
    cn_late_pres = decrement_each c.cn_late_pres;
    cn_loss_of_status_response = decrement_each c.cn_loss_of_status_response;
  },
)

-- A threshold of the node itself resets the communication, one of a CN resets that node.
abbrev pub general_threshold : DllError → Bool → Outcome
general_threshold e reached = on_threshold reached NmtAction.reset_communication e

abbrev pub node_threshold : NodeId → DllError → Bool → Outcome
node_threshold n e reached = on_threshold reached (NmtAction.reset_node n) e

-- `MnErrorCounters::handle_error`
unfoldable pub mn_handle_error : DllError → MnErrorCounters → Outcome × MnErrorCounters
unfolding count_error count_node_error
mn_handle_error DllError.crc c =
    let (r, t) = count_error c.crc_errors in
    (general_threshold DllError.crc r, record c { crc_errors = t })
mn_handle_error DllError.collision c =
    let (r, t) = count_error c.collision in
    (general_threshold DllError.collision r, record c { collision = t })
mn_handle_error DllError.cycle_time_exceeded c =
    let (r, t) = count_error c.cycle_time_exceeded in
    (general_threshold DllError.cycle_time_exceeded r, record c { cycle_time_exceeded = t })
mn_handle_error (DllError.loss_of_pres n) c =
    let (r, m) = count_node_error n c.cn_loss_of_pres in
    (node_threshold n (DllError.loss_of_pres n) r, record c { cn_loss_of_pres = m })
mn_handle_error (DllError.late_pres n) c =
    let (r, m) = count_node_error n c.cn_late_pres in
    (node_threshold n (DllError.late_pres n) r, record c { cn_late_pres = m })
mn_handle_error (DllError.loss_of_status_res n) c =
    let (r, m) = count_node_error n c.cn_loss_of_status_response in
    (
      node_threshold n (DllError.loss_of_status_res n) r,
      record c { cn_loss_of_status_response = m },
    )
mn_handle_error (DllError.pdo_map_version n) c = (log_only (DllError.pdo_map_version n), c)
mn_handle_error (DllError.pdo_payload_short n) c = (log_only (DllError.pdo_payload_short n), c)
mn_handle_error _ c = (ignored, c)
