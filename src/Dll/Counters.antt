-- ===== src/Dll/Counters.antt =====
-- crates/powerlink-rs/src/frame/error/counters.rs: the 8:1 threshold counters of both node types.
-- What `handle_error` gives to the error handler that logs is part of its `Outcome`.
pub mod Rate
pub mod Kinds
use powerlink_rs.Common.{
  ℕ, ◌+◌, ◌-◌, ◌^◌, min, Bool, true, false, ◌&&◌, ◌||◌, not, leb, ltb, ◌==◌, if◌then◌else◌, Option,
  none, some, List, [], ◌∷◌, map,
}
use powerlink_rs.Common.BTree
use powerlink_rs.Types.{NodeId}
use powerlink_rs.Dll.Error.{DllError, NmtAction}

-- `u32::MAX`, at which `saturating_add` stops
abbrev pub u32_max : ℕ
u32_max = 4294967295

-- `struct ThresholdCounter`
pub record ThresholdCounter : Type 0 where
  pub cumulative_cnt : ℕ
  pub threshold_cnt : ℕ
  pub threshold : ℕ

unfoldable pub new_counter : ℕ → ThresholdCounter
new_counter threshold = record { cumulative_cnt = 0; threshold_cnt = 0; threshold = threshold }

unfoldable pub increment : ThresholdCounter → ThresholdCounter
increment c = record c { threshold_cnt = min (c.threshold_cnt + 8) u32_max }

-- `saturating_sub` is `-` on ℕ.
unfoldable pub decrement : ThresholdCounter → ThresholdCounter
decrement c = record c { threshold_cnt = c.threshold_cnt - 1 }

unfoldable pub check_and_reset : ThresholdCounter → Bool × ThresholdCounter
check_and_reset c =
    if ltb 0 c.threshold && leb c.threshold c.threshold_cnt
    then (true, record c { threshold_cnt = 0; cumulative_cnt = min (c.cumulative_cnt + 1) u32_max })
    else (false, c)

unfoldable pub is_active : ThresholdCounter → Bool
is_active c = ltb 0 c.threshold_cnt

-- `increment` followed by `check_and_reset`, as every arm does.
unfoldable pub count_error : ThresholdCounter → Bool × ThresholdCounter
unfolding increment check_and_reset
count_error c = check_and_reset (increment c)

-- `struct CnErrorCounters`
pub record CnErrorCounters : Type 0 where
  pub collision : ThresholdCounter
  pub loss_of_soc : ThresholdCounter
  pub loss_of_soa : ThresholdCounter
  pub loss_of_preq : ThresholdCounter
  pub soc_jitter : ThresholdCounter
  pub crc_errors : ThresholdCounter
  pub heartbeat_timeout : ThresholdCounter
  pub loss_of_link_cumulative : ℕ

unfoldable pub cn_new : CnErrorCounters
unfolding new_counter
cn_new = record {
  collision = new_counter 15;
  loss_of_soc = new_counter 15;
  loss_of_soa = new_counter 15;
  loss_of_preq = new_counter 15;
  soc_jitter = new_counter 15;
  crc_errors = new_counter 15;
  heartbeat_timeout = new_counter 15;
  loss_of_link_cumulative = 0;
}

unfoldable pub is_any_active : CnErrorCounters → Bool
unfolding is_active
is_any_active c =
    is_active c.loss_of_soc
    || is_active c.loss_of_soa
    || is_active c.loss_of_preq
    || is_active c.crc_errors
    || is_active c.collision
    || is_active c.soc_jitter
    || is_active c.heartbeat_timeout

unfoldable pub cn_decrement_all : CnErrorCounters → CnErrorCounters
unfolding decrement
cn_decrement_all c = record {
  collision = decrement c.collision;
  loss_of_soc = decrement c.loss_of_soc;
  loss_of_soa = decrement c.loss_of_soa;
  loss_of_preq = decrement c.loss_of_preq;
  soc_jitter = decrement c.soc_jitter;
  crc_errors = decrement c.crc_errors;
  heartbeat_timeout = decrement c.heartbeat_timeout;
  loss_of_link_cumulative = c.loss_of_link_cumulative;
}

-- `on_cycle_complete`: whether the last active error was just cleared.
unfoldable pub cn_on_cycle_complete : CnErrorCounters → Bool × CnErrorCounters
unfolding is_any_active cn_decrement_all
cn_on_cycle_complete c =
    let c' = cn_decrement_all c in (is_any_active c && not (is_any_active c'), c')

-- What `handle_error` returns: the action, whether the status changed, what was logged.
pub record Outcome : Type 0 where
  pub action : NmtAction
  pub status_changed : Bool
  pub logged : List DllError

abbrev pub ignored : Outcome
ignored = record { action = NmtAction.no_action; status_changed = false; logged = [] }

abbrev pub log_only : DllError → Outcome
log_only e = record { action = NmtAction.no_action; status_changed = true; logged = e ∷ [] }

-- The `if threshold_reached` at the end of both methods.
abbrev pub on_threshold : Bool → NmtAction → DllError → Outcome
on_threshold true act e = record { action = act; status_changed = true; logged = e ∷ [] }
on_threshold false act e = ignored

abbrev pub cn_threshold : DllError → Bool → Outcome
cn_threshold e reached = on_threshold reached NmtAction.reset_communication e

-- `CnErrorCounters::handle_error`
unfoldable pub cn_handle_error : DllError → CnErrorCounters → Outcome × CnErrorCounters
unfolding count_error
cn_handle_error DllError.loss_of_soc c =
    let (r, t) = count_error c.loss_of_soc in
    (cn_threshold DllError.loss_of_soc r, record c { loss_of_soc = t })
cn_handle_error DllError.loss_of_soa c =
    let (r, t) = count_error c.loss_of_soa in
    (cn_threshold DllError.loss_of_soa r, record c { loss_of_soa = t })
cn_handle_error DllError.loss_of_preq c =
    let (r, t) = count_error c.loss_of_preq in
    (cn_threshold DllError.loss_of_preq r, record c { loss_of_preq = t })
cn_handle_error DllError.crc c =
    let (r, t) = count_error c.crc_errors in
    (cn_threshold DllError.crc r, record c { crc_errors = t })
cn_handle_error DllError.collision c =
    let (r, t) = count_error c.collision in
    (cn_threshold DllError.collision r, record c { collision = t })
cn_handle_error DllError.soc_jitter c =
    let (r, t) = count_error c.soc_jitter in
    (cn_threshold DllError.soc_jitter r, record c { soc_jitter = t })
cn_handle_error (DllError.heartbeat_timeout n) c =
    let (r, t) = count_error c.heartbeat_timeout in
    (cn_threshold (DllError.heartbeat_timeout n) r, record c { heartbeat_timeout = t })
cn_handle_error DllError.loss_of_link c = (
  log_only DllError.loss_of_link,
  record c { loss_of_link_cumulative = min (c.loss_of_link_cumulative + 1) u32_max },
)
cn_handle_error (DllError.pdo_map_version n) c = (log_only (DllError.pdo_map_version n), c)
cn_handle_error (DllError.pdo_payload_short n) c = (log_only (DllError.pdo_payload_short n), c)
cn_handle_error _ c = (ignored, c)
