-- ===== src/Nmt/Mn.antt =====
-- crates/powerlink-rs/src/nmt/mn_state_machine.rs: the NMT state machine of a managing node.
use powerlink_rs.Common.{
  ℕ, Bool, not, ◌==◌, if◌then◌else◌, bit_and, Option, none, List, Result, ok, ◌>>=◌,
}
use powerlink_rs.Hal.{PowerlinkError}
use powerlink_rs.Types.{NodeId, mn_def_node_id}
use powerlink_rs.Od.Dictionary.{StorageBackend, ObjectDictionary, read}
use powerlink_rs.Dll.Error.{DllError}
use powerlink_rs.Nmt.State.{
  NmtState, gs_initialising, not_active, pre_operational1, pre_operational2, ready_to_operate,
  operational, basic_ethernet,
}
use powerlink_rs.Nmt.Event.{NmtEvent}
use powerlink_rs.Nmt.Reset.{is_reset_event, reset}
use powerlink_rs.Nmt.Cn.{expect_u32, enter}

-- `struct MnNmtStateMachine`
pub record MnNmtStateMachine : Type 0 where
  pub current_state : NmtState
  pub node_id : NodeId
  pub feature_flags : ℕ
  pub wait_not_active_timeout : ℕ
  pub startup_flags : ℕ

unfoldable pub new : NodeId → ℕ → ℕ → ℕ → MnNmtStateMachine
new node_id feature_flags wait_not_active_timeout startup_flags = record {
  current_state = gs_initialising;
  node_id = node_id;
  feature_flags = feature_flags;
  wait_not_active_timeout = wait_not_active_timeout;
  startup_flags = startup_flags;
}

unfoldable pub from_od : {S : Type 0} → ObjectDictionary S → Result MnNmtStateMachine PowerlinkError
unfolding new
from_od od = do
  feature_flags ← expect_u32 (read od 0x1F82 0)
  wait_not_active_timeout ← expect_u32 (read od 0x1F89 1)
  startup_flags ← expect_u32 (read od 0x1F80 0)
  ok (new mn_def_node_id feature_flags wait_not_active_timeout startup_flags)

-- Bit 13 of NMT_StartUp_U32, `(self.startup_flags & (1 << 13)) != 0`
abbrev pub starts_in_basic_ethernet : ℕ → Bool
starts_in_basic_ethernet flags = not (bit_and flags 0x2000 == 0)

-- The `match (self.current_state, event)`; its last arm keeps the state.
unfoldable pub next_state : ℕ → NmtState → NmtEvent → NmtState
next_state flags not_active NmtEvent.timeout =
    if starts_in_basic_ethernet flags then basic_ethernet else pre_operational1
next_state flags pre_operational1 NmtEvent.all_cns_identified = pre_operational2
next_state flags pre_operational2 NmtEvent.configuration_complete_cns_ready = ready_to_operate
next_state flags ready_to_operate NmtEvent.all_mandatory_cns_operational = operational
next_state flags operational NmtEvent.error = pre_operational1
next_state flags basic_ethernet NmtEvent.powerlink_frame_received = pre_operational1
next_state flags current _ = current

module _ {S : Type 0} where
  -- `errors` stays empty, so that nothing is ever reported.
  unfoldable pub process_event :
      StorageBackend S
      → NmtEvent
      → MnNmtStateMachine
      → ObjectDictionary S
      → Option (List DllError) × MnNmtStateMachine × ObjectDictionary S
  unfolding enter next_state
  process_event backend event sm od =
      let old_state = sm.current_state in
      let (after_reset, reset_od) = reset backend event old_state od in
      let state = next_state sm.startup_flags old_state event in
      if is_reset_event event
      then (none, record sm { current_state = after_reset }, enter old_state after_reset reset_od)
      else (none, record sm { current_state = state }, enter old_state state od)
