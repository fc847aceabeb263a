-- ===== src/Nmt/Cn.antt =====
-- crates/powerlink-rs/src/nmt/cn_state_machine.rs: the NMT state machine of a controlled node.
pub mod Trace
use powerlink_rs.Common.{
  ℕ, Bool, true, false, if◌then◌else◌, Option, none, some, List, [], ◌∷◌, Result, ok, err, ◌>>=◌,
}
use powerlink_rs.Hal.{PowerlinkError, object_not_found, type_mismatch}
use powerlink_rs.Types.{NodeId, node_id_try_from}
use powerlink_rs.Od.Value.{ObjectValue, unsigned8, unsigned32}
use powerlink_rs.Od.Dictionary.{StorageBackend, ObjectDictionary, read}
use powerlink_rs.Dll.Error.{DllError, unexpected_event_in_state}
use powerlink_rs.Nmt.State.{
  NmtState, gs_initialising, not_active, pre_operational1, pre_operational2, ready_to_operate,
  operational, cs_stopped, basic_ethernet, state_code, state_eq,
}
use powerlink_rs.Nmt.Event.{NmtEvent, event_code}
use powerlink_rs.Nmt.Reset.{is_reset_event, update_od_state, reset}

-- `struct CnNmtStateMachine`; the feature flags are the `u32` that they wrap.
pub record CnNmtStateMachine : Type 0 where
  pub current_state : NmtState
  pub node_id : NodeId
  pub feature_flags : ℕ
  pub basic_ethernet_timeout : ℕ

unfoldable pub new : NodeId → ℕ → ℕ → CnNmtStateMachine
new node_id feature_flags basic_ethernet_timeout = record {
  current_state = gs_initialising;
  node_id = node_id;
  feature_flags = feature_flags;
  basic_ethernet_timeout = basic_ethernet_timeout;
}

-- `ok_or(ObjectNotFound)?` followed by the `if let` on the type.
unfoldable pub expect_u8 : Option ObjectValue → Result ℕ PowerlinkError
expect_u8 none = err object_not_found
expect_u8 (some (unsigned8 n)) = ok n
expect_u8 (some _) = err type_mismatch

unfoldable pub expect_u32 : Option ObjectValue → Result ℕ PowerlinkError
expect_u32 none = err object_not_found
expect_u32 (some (unsigned32 n)) = ok n
expect_u32 (some _) = err type_mismatch

unfoldable pub from_od : {S : Type 0} → ObjectDictionary S → Result CnNmtStateMachine PowerlinkError
unfolding new
from_od od = do
  val ← expect_u8 (read od 0x1F93 1)
  node_id ← node_id_try_from val
  feature_flags ← expect_u32 (read od 0x1F82 0)
  basic_ethernet_timeout ← expect_u32 (read od 0x1F99 0)
  ok (new node_id feature_flags basic_ethernet_timeout)

-- The `match (self.current_state, event)`; `none` is its last arm, which keeps the state and
-- reports an unexpected event.
unfoldable pub transition : NmtState → NmtEvent → Option NmtState
transition not_active NmtEvent.soc_received = some pre_operational1
transition not_active NmtEvent.soc_soa_received = some pre_operational1
transition not_active NmtEvent.timeout = some basic_ethernet
transition pre_operational1 NmtEvent.soc_received = some pre_operational2
transition pre_operational2 NmtEvent.enable_ready_to_operate = some pre_operational2
transition pre_operational2 NmtEvent.cn_configuration_complete = some ready_to_operate
transition ready_to_operate NmtEvent.start_node = some operational
transition pre_operational2 NmtEvent.stop_node = some cs_stopped
transition ready_to_operate NmtEvent.stop_node = some cs_stopped
transition operational NmtEvent.stop_node = some cs_stopped
transition operational NmtEvent.enter_pre_operational2 = some pre_operational2
transition cs_stopped NmtEvent.enter_pre_operational2 = some pre_operational2
transition pre_operational2 NmtEvent.error = some pre_operational1
transition ready_to_operate NmtEvent.error = some pre_operational1
transition operational NmtEvent.error = some pre_operational1
transition cs_stopped NmtEvent.error = some pre_operational1
transition basic_ethernet NmtEvent.powerlink_frame_received = some pre_operational1
transition _ _ = none

abbrev pub next_state : NmtState → Option NmtState → NmtState
next_state current none = current
next_state current (some s) = s

-- `errors`, which is returned only if it is not empty
abbrev pub reported : NmtState → NmtEvent → Option NmtState → Option (List DllError)
unfolding state_code event_code
reported s e none = some (unexpected_event_in_state (state_code s) (event_code e) ∷ [])
reported s e (some _) = none

module _ {S : Type 0} where
  -- The state is written to the dictionary only where it changed.
  unfoldable pub enter : NmtState → NmtState → ObjectDictionary S → ObjectDictionary S
  enter old_state state od = if state_eq old_state state then od else update_od_state state od

  unfoldable pub process_event :
      StorageBackend S
      → NmtEvent
      → CnNmtStateMachine
      → ObjectDictionary S
      → Option (List DllError) × CnNmtStateMachine × ObjectDictionary S
  unfolding enter transition
  process_event backend event sm od =
      let old_state = sm.current_state in
      let (after_reset, reset_od) = reset backend event old_state od in
      let target = transition old_state event in
      let state = next_state old_state target in
      if is_reset_event event
      then (none, record sm { current_state = after_reset }, enter old_state after_reset reset_od)
      else (
        reported old_state event target,
        record sm { current_state = state },
        enter old_state state od,
      )
