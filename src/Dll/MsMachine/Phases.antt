-- ===== src/Dll/MsMachine/Phases.antt =====
-- The isochronous cycle of a managing node: how the three tables of flags agree.
use powerlink_rs.Common.{
  ◌≡◌, Bool, true, false, if◌then◌else◌, Option, none, some, List, [], ◌∷◌, arith,
}
use powerlink_rs.Types.{NodeId}
use powerlink_rs.Dll.Error.{DllError, loss_of_pres}
use powerlink_rs.Nmt.State.{NmtState, pre_operational2, ready_to_operate, operational}
use powerlink_rs.Dll.MsMachine.{
  DllMsState, DllMsEvent, CycleFlags, wait_soc_trig, wait_pres, wait_asnd, pres, pres_timeout,
  soc_trig, process_event,
}

-- The phase that follows: frames that are still to be polled, then the asynchronous slot, then the
-- next SoC.
unfoldable pub phase : Bool → Bool → DllMsState
phase isochr async_in =
    if isochr then wait_pres else (if async_in then wait_asnd else wait_soc_trig)

-- The NMT states in which the isochronous cycle runs.
unfoldable pub is_isochronous : NmtState → Bool
is_isochronous pre_operational2 = true
is_isochronous ready_to_operate = true
is_isochronous operational = true
is_isochronous _ = false

-- What ends a phase, and the error that it reports.
pub data Ends : DllMsEvent → DllMsState → NodeId → Option (List DllError) → Type 0 where
  cycle_started : {n : NodeId} → Ends soc_trig wait_soc_trig n none
  node_answered : {n : NodeId} → Ends pres wait_pres n none
  node_silent : {n : NodeId} → Ends pres_timeout wait_pres n (some (loss_of_pres n ∷ []))
  slot_over : {n : NodeId} → Ends soc_trig wait_asnd n none

-- In an isochronous NMT state every event that ends a phase leads to the phase that the flags for
-- polling and for the asynchronous slot ask for, whatever the transmit flags are; the only error
-- reported is the lost PRes of the node that stayed silent.
pub process_event-phase :
    (nmt_state : NmtState) (event : DllMsEvent) (state : DllMsState) (flags : CycleFlags)
    (errors : Option (List DllError))
    → is_isochronous nmt_state ≡ true
    → Ends event state flags.dest_node_id errors
    → process_event event nmt_state flags state ≡ (phase flags.isochr flags.async_in, errors)
unfolding process_event phase is_isochronous
process_event-phase nmt_state event state flags errors h cycle_started = ground arith
process_event-phase nmt_state event state flags errors h node_answered = ground arith
process_event-phase nmt_state event state flags errors h node_silent = ground arith
process_event-phase nmt_state event state flags errors h slot_over = ground arith
