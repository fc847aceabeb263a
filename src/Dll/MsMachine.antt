-- ===== src/Dll/MsMachine.antt =====
-- crates/powerlink-rs/src/frame/ms_state_machine.rs: the cycle state machine of a managing node.
pub mod Phases
use powerlink_rs.Common.{
  ℕ, Bool, true, false, if◌then◌else◌, Option, none, some, List, [], ◌∷◌, ◌++◌,
}
use powerlink_rs.Types.{NodeId}
use powerlink_rs.Dll.Error.{DllError, loss_of_pres, mev_asnd_timeout, unexpected_event_in_state}
use powerlink_rs.Dll.CsMachine.{non_empty}
use powerlink_rs.Nmt.State.{
  NmtState, pre_operational1, pre_operational2, ready_to_operate, operational,
}

-- `enum DllMsState`
pub data DllMsState : Type 0 where
  non_cyclic wait_soc_trig wait_pres wait_asnd wait_soa : DllMsState

-- `enum DllMsEvent`
pub data DllMsEvent : Type 0 where
  pres pres_timeout asnd asnd_timeout soc_trig soa_trig : DllMsEvent

unfoldable pub ms_state_code : DllMsState → ℕ
ms_state_code non_cyclic = 0
ms_state_code wait_soc_trig = 1
ms_state_code wait_pres = 2
ms_state_code wait_asnd = 3
ms_state_code wait_soa = 4

unfoldable pub ms_event_code : DllMsEvent → ℕ
ms_event_code pres = 0
ms_event_code pres_timeout = 1
ms_event_code asnd = 2
ms_event_code asnd_timeout = 3
ms_event_code soc_trig = 4
ms_event_code soa_trig = 5

-- The flags of one call of `process_event`, with the node that a lost PRes is reported for.
pub record CycleFlags : Type 0 where
  pub response_expected : Bool
  pub async_in : Bool
  pub async_out : Bool
  pub isochr : Bool
  pub isochr_out : Bool
  pub dest_node_id : NodeId

-- The three tables of flags, arm by arm: (async_in, response_expected, async_out) …
unfoldable pub soa_table : Bool → Bool → Bool → DllMsState
soa_table true false _ = wait_soa
soa_table false _ true = wait_soa
soa_table false _ false = wait_soa
soa_table true true _ = wait_asnd

-- … (async_in, response_expected), with the error that its last arm pushes …
unfoldable pub asnd_table : Bool → Bool → DllMsState × List DllError
asnd_table false _ = (wait_soa, [])
asnd_table true false = (wait_soa, [])
asnd_table true true = (wait_asnd, mev_asnd_timeout ∷ [])

-- … and (isochr, async_in, isochr_out, async_out), after SocTrig in `WaitSocTrig`, …
unfoldable pub soc_trig_table : Bool → Bool → Bool → Bool → DllMsState
soc_trig_table true _ _ _ = wait_pres
soc_trig_table false true true _ = wait_asnd
soc_trig_table false true _ _ = wait_asnd
soc_trig_table false false true _ = wait_soc_trig
soc_trig_table false false _ true = wait_soc_trig
soc_trig_table false false _ _ = wait_soc_trig

-- … after a PRes or its timeout, …
unfoldable pub pres_table : Bool → Bool → Bool → Bool → DllMsState
pres_table true _ _ _ = wait_pres
pres_table false false true _ = wait_soc_trig
pres_table false false _ true = wait_soc_trig
pres_table false false _ _ = wait_soc_trig
pres_table false true true _ = wait_asnd
pres_table false true _ _ = wait_asnd

-- … and after SocTrig in `WaitAsnd`.
unfoldable pub asnd_soc_trig_table : Bool → Bool → Bool → Bool → DllMsState
asnd_soc_trig_table false false true _ = wait_soc_trig
asnd_soc_trig_table false false _ true = wait_soc_trig
asnd_soc_trig_table false false _ _ = wait_soc_trig
asnd_soc_trig_table false true _ _ = wait_asnd
asnd_soc_trig_table true _ _ _ = wait_pres

-- The last arm of both `match`es.
abbrev pub unexpected : DllMsState → DllMsEvent → DllMsState × List DllError
unfolding ms_state_code ms_event_code
unexpected current event =
    (current, unexpected_event_in_state (ms_state_code current) (ms_event_code event) ∷ [])

-- The `match` for `NmtPreOperational1`, the reduced cycle.
unfoldable pub reduced_transition :
    DllMsState → DllMsEvent → CycleFlags → DllMsState × List DllError
unfolding soa_table asnd_table
reduced_transition wait_soa soa_trig f = (soa_table f.async_in f.response_expected f.async_out, [])
reduced_transition wait_asnd asnd_timeout f =
    let (state, errors) = asnd_table f.async_in f.response_expected in
    (state, mev_asnd_timeout ∷ errors)
reduced_transition wait_asnd soa_trig f = asnd_table f.async_in f.response_expected
reduced_transition current event f = unexpected current event

-- The `match` for the states of the isochronous cycle.
unfoldable pub cyclic_transition : DllMsState → DllMsEvent → CycleFlags → DllMsState × List DllError
unfolding soc_trig_table pres_table asnd_soc_trig_table
cyclic_transition wait_soc_trig soc_trig f =
    (soc_trig_table f.isochr f.async_in f.isochr_out f.async_out, [])
cyclic_transition wait_pres pres f = (pres_table f.isochr f.async_in f.isochr_out f.async_out, [])
cyclic_transition wait_pres pres_timeout f =
    (pres_table f.isochr f.async_in f.isochr_out f.async_out, loss_of_pres f.dest_node_id ∷ [])
cyclic_transition wait_asnd soc_trig f =
    (asnd_soc_trig_table f.isochr f.async_in f.isochr_out f.async_out, [])
cyclic_transition wait_asnd asnd f = (wait_asnd, [])
cyclic_transition non_cyclic soc_trig f = (wait_soc_trig, [])
cyclic_transition current event f = unexpected current event

-- `process_event`
unfoldable pub process_event :
    DllMsEvent → NmtState → CycleFlags → DllMsState → DllMsState × Option (List DllError)
unfolding reduced_transition cyclic_transition
process_event event pre_operational1 f state =
    let (next_state, errors) = reduced_transition state event f in (next_state, non_empty errors)
process_event event operational f state =
    let (next_state, errors) = cyclic_transition state event f in (next_state, non_empty errors)
process_event event ready_to_operate f state =
    let (next_state, errors) = cyclic_transition state event f in (next_state, non_empty errors)
process_event event pre_operational2 f state =
    let (next_state, errors) = cyclic_transition state event f in (next_state, non_empty errors)
process_event event _ f state = (non_cyclic, none)
