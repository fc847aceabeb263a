-- ===== src/Mn/Bootup.antt =====
-- crates/powerlink-rs/src/node/mn/scheduler.rs, `check_bootup_state`.
pub mod Steps
use powerlink_rs.Common.{
  ℕ, ◌≡◌, refl, Bool, true, false, ◌==◌, if◌then◌else◌, bit_and, Option, none, some, List, [], ◌∷◌,
  ◌++◌,
}
use powerlink_rs.Types.{NodeId}
use powerlink_rs.Od.Dictionary.{StorageBackend, ObjectDictionary}
use powerlink_rs.Nmt.State.{
  NmtState, pre_operational1, pre_operational2, ready_to_operate, operational,
}
use powerlink_rs.Nmt.Event.{NmtEvent, NmtStateCommand, enable_ready_to_operate, MnNmtCommandRequest}
use powerlink_rs.Nmt.Mn.{MnNmtStateMachine, process_event}
use powerlink_rs.Mn.State.{CnState, identified, CnInfo, NodeInfo}
use powerlink_rs.Mn.Validation.{
  check_all_mandatory_identified, check_all_mandatory_preop, check_all_mandatory_comm_verified,
}

-- `enum NmtCommandData`, the payload that the queue keeps with a command
pub data NmtCommandData : Type 0 where
  no_data : NmtCommandData
  host_name : List ℕ → NmtCommandData
  flush_arp : NodeId → NmtCommandData

abbrev pub PendingCommand : Type 0
PendingCommand = MnNmtCommandRequest × NodeId × NmtCommandData

-- The fields of `MnContext` that `check_bootup_state` reads or writes.
pub record BootContext (S : Type 0) : Type 0 where
  pub nmt_state_machine : MnNmtStateMachine
  pub od : ObjectDictionary S
  pub mandatory_nodes : List NodeId
  pub node_info : NodeInfo
  pub pending_nmt_commands : List PendingCommand

abbrev pub enable_ready : NodeId → PendingCommand
enable_ready id = (MnNmtCommandRequest.state enable_ready_to_operate, id, no_data)

abbrev pub is_identified : CnState → Bool
is_identified identified = true
is_identified _ = false

-- The commands that the loop over `node_info` pushes, in order.
unfoldable pub enable_commands : NodeInfo → List PendingCommand
enable_commands [] = []
enable_commands ((id, info) ∷ rest) =
    let commands = enable_commands rest in
    if is_identified info.state then enable_ready id ∷ commands else commands

module _ {S : Type 0} where
  -- `context.nmt_state_machine.process_event(event, &mut context.core.od)`
  unfoldable pub handle : StorageBackend S → NmtEvent → BootContext S → BootContext S
  handle backend event context =
      let (_, sm, od) = process_event backend event context.nmt_state_machine context.od in
      record context { nmt_state_machine = sm; od = od }

  -- The branch for NmtPreOperational1
  unfoldable pub boot_step1 : StorageBackend S → BootContext S → BootContext S
  unfolding handle
  boot_step1 backend context =
      if check_all_mandatory_identified context.mandatory_nodes context.node_info
      then record (handle backend NmtEvent.all_cns_identified context) {
        pending_nmt_commands = context.pending_nmt_commands ++ enable_commands context.node_info;
      }
      else context

  -- The branches for NmtPreOperational2 and NmtReadyToOperate: a check, and the flag of
  -- NMT_StartUp_U32 that leaves the step to the application.
  unfoldable pub boot_step_unless :
      StorageBackend S → Bool → ℕ → NmtEvent → BootContext S → BootContext S
  unfolding handle
  boot_step_unless backend passed flag event context =
      if passed
      then (if bit_and context.nmt_state_machine.startup_flags flag == 0
          then handle backend event context
          else context)
      else context

  unfoldable pub check_bootup_state : StorageBackend S → BootContext S → BootContext S
  unfolding boot_step1 boot_step_unless
  check_bootup_state backend context = elim context.nmt_state_machine.current_state [
    | pre_operational1 ↦ boot_step1 backend context
    | pre_operational2 ↦
        boot_step_unless backend
          (check_all_mandatory_preop context.mandatory_nodes context.node_info) 0x100
          NmtEvent.configuration_complete_cns_ready context
    | ready_to_operate ↦
        boot_step_unless backend
          (check_all_mandatory_comm_verified context.mandatory_nodes context.node_info) 0x4
          NmtEvent.all_mandatory_cns_operational context
    | _ ↦ context
  ]
