-- ===== src/Nmt/Tests.antt =====
-- Runs of both NMT state machines.
use mathlib.Core.List.{Sublistᴰ}
use powerlink_rs.Common.{ℕ, ◌≡◌, refl, subst, ok, arith, ◌↔◌, List, [], ◌∷◌}
use powerlink_rs.Common.BTree
use powerlink_rs.Od.Value.{unsigned8}
use powerlink_rs.Od.Dictionary.{StoredParams}
use powerlink_rs.Od.Restore.{stored_value}
use powerlink_rs.Od.Samples.{memory, sample_od}
use powerlink_rs.Nmt.State.{
  NmtState, not_active, operational, state_code, state_try_from, state_from_u8_with_context,
  NodeType, pre_operational1,
}
use powerlink_rs.Nmt.State.Codes.{
  state_try_from_iff, state_from_u8_with_context-eq-state_try_from, command_try_from_iff,
}
use powerlink_rs.Nmt.Reset.{curr_state_index, reset, reset_target}
use powerlink_rs.Nmt.Event.{
  NmtEvent, NmtStateCommand, state_command_code, state_command_try_from, NmtManagingCommand,
  managing_command_code, managing_command_try_from, NmtServiceRequest, service_request_code,
  service_request_try_from,
}
use powerlink_rs.Nmt.Mirror.{StateObject, StoresU8, IsOptionalU8}
use powerlink_rs.Nmt.Cn.{CnNmtStateMachine}
use powerlink_rs.Nmt.Cn
use powerlink_rs.Nmt.Cn.Trace.{run, missing, milestones, run-milestones}
use powerlink_rs.Nmt.Mn
use powerlink_rs.Nmt.Mn.{MnNmtStateMachine}
use powerlink_rs.Nmt.Events.{cn_process_event-StateObject, mn_process_event-StateObject}

abbrev cn_in : NmtState → CnNmtStateMachine
cn_in s = record {
  current_state = s;
  node_id = 1;
  feature_flags = 0;
  basic_ethernet_timeout = 5000000;
}

abbrev mn_in : NmtState → MnNmtStateMachine
mn_in s = record {
  current_state = s;
  node_id = 240;
  feature_flags = 0;
  wait_not_active_timeout = 1000000;
  startup_flags = 0;
}

abbrev boot : List NmtEvent
boot =
    NmtEvent.soc_received ∷ NmtEvent.soc_received ∷ NmtEvent.cn_configuration_complete
    ∷ NmtEvent.start_node ∷ []

run-milestones_example : Sublistᴰ (milestones (missing not_active)) boot
unfolding run Cn.process_event
run-milestones_example = run-milestones memory boot (cn_in not_active) (sample_od 0x1C) refl

memory-StoresU8 : StoresU8 memory
unfolding stored_value
memory-StoresU8 s params h =
    subst (λ p. IsOptionalU8 (stored_value p curr_state_index 0)) (loaded s params h) tt
  where
    loaded :
        (s : ℕ) (params : StoredParams)
        → (memory.load s).0 ≡ ok params
        → ((0x1F8C, 0), unsigned8 s) ∷ [] ≡ params
    loaded s params h = ground arith

cn_process_event-StateObject_example :
    StateObject
      (state_code not_active)
      (Cn.process_event memory NmtEvent.reset_node (cn_in operational) (sample_od 0xFD)).2
unfolding Cn.process_event reset BTree.get reset_target state_code
cn_process_event-StateObject_example =
    cn_process_event-StateObject memory NmtEvent.reset_node (cn_in operational) (sample_od 0xFD)
      memory-StoresU8 (_, refl, (refl, tt))

mn_process_event-StateObject_example :
    StateObject
      (state_code pre_operational1)
      (Mn.process_event memory NmtEvent.timeout (mn_in not_active) (sample_od 0x1C)).2
unfolding Mn.process_event reset BTree.get reset_target state_code
mn_process_event-StateObject_example =
    mn_process_event-StateObject memory NmtEvent.timeout (mn_in not_active) (sample_od 0x1C)
      memory-StoresU8 (_, refl, (refl, tt))

state_try_from_iff_example :
    (state_try_from 0x1D ≡ ok pre_operational1) ↔ (state_code pre_operational1 ≡ 0x1D)
state_try_from_iff_example = state_try_from_iff 0x1D pre_operational1

state_from_u8_with_context-eq-state_try_from_example :
    state_from_u8_with_context 0x1D NodeType.managing_node ≡ state_try_from 0x1D
state_from_u8_with_context-eq-state_try_from_example =
    state_from_u8_with_context-eq-state_try_from 0x1D NodeType.managing_node

command_try_from_iff_example :
    ((c : NmtStateCommand) → (state_command_try_from 0x21 ≡ ok c) ↔ (state_command_code c ≡ 0x21))
    × ((c : NmtManagingCommand)
        → (managing_command_try_from 0x21 ≡ ok c) ↔ (managing_command_code c ≡ 0x21))
    × ((c : NmtServiceRequest)
        → (service_request_try_from 0x21 ≡ ok c) ↔ (service_request_code c ≡ 0x21))
command_try_from_iff_example = command_try_from_iff 0x21
