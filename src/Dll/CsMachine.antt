-- ===== src/Dll/CsMachine.antt =====
-- crates/powerlink-rs/src/frame/cs_state_machine.rs: the cycle state machine of a controlled node.
pub mod Cycle
use powerlink_rs.Common.{ℕ, Bool, true, false, Option, none, some, List, [], ◌∷◌}
use powerlink_rs.Dll.Error.{
  DllError, loss_of_soc, loss_of_soa, loss_of_preq, unexpected_event_in_state,
}
use powerlink_rs.Nmt.State.{NmtState, pre_operational2, ready_to_operate, operational, cs_stopped}

-- `enum DllCsState`
pub data DllCsState : Type 0 where
  non_cyclic wait_soc wait_preq wait_soa : DllCsState

-- `enum DllCsEvent`
pub data DllCsEvent : Type 0 where
  soc preq pres soa asnd soc_timeout : DllCsEvent

-- `as u8`
unfoldable pub cs_state_code : DllCsState → ℕ
cs_state_code non_cyclic = 0
cs_state_code wait_soc = 1
cs_state_code wait_preq = 2
cs_state_code wait_soa = 3

unfoldable pub cs_event_code : DllCsEvent → ℕ
cs_event_code soc = 0
cs_event_code preq = 1
cs_event_code pres = 2
cs_event_code soa = 3
cs_event_code asnd = 4
cs_event_code soc_timeout = 5

-- The NMT states in which the machine is active.
unfoldable pub is_cyclic : NmtState → Bool
is_cyclic pre_operational2 = true
is_cyclic ready_to_operate = true
is_cyclic operational = true
is_cyclic cs_stopped = true
is_cyclic _ = false

-- The `match (self.state, event)`: the next state, and the errors that are pushed. The arms
-- stand in the order of the source; the SoC arm for any state comes after those for two states.
unfoldable pub cs_transition : DllCsState → DllCsEvent → DllCsState × List DllError
unfolding cs_state_code cs_event_code
cs_transition wait_preq preq = (wait_soa, [])
cs_transition wait_soa soa = (wait_soc, [])
cs_transition wait_soa preq = (wait_soc, loss_of_soc ∷ loss_of_soa ∷ [])
cs_transition wait_soa soc_timeout = (wait_soc, loss_of_soc ∷ loss_of_soa ∷ [])
cs_transition wait_soc asnd = (wait_soc, [])
cs_transition wait_soc preq = (wait_soc, loss_of_soc ∷ [])
cs_transition wait_soc pres = (wait_soc, loss_of_soc ∷ [])
cs_transition wait_soc soa = (wait_soc, loss_of_soc ∷ [])
cs_transition wait_soc soc_timeout = (wait_soc, loss_of_soc ∷ [])
cs_transition wait_preq pres = (wait_preq, [])
cs_transition wait_preq asnd = (wait_preq, loss_of_soa ∷ [])
cs_transition wait_preq soc = (wait_preq, loss_of_soa ∷ [])
cs_transition wait_preq soa = (wait_soc, loss_of_preq ∷ [])
cs_transition wait_preq soc_timeout = (wait_soc, loss_of_soc ∷ loss_of_soa ∷ [])
cs_transition wait_soa soc = (wait_preq, loss_of_soa ∷ [])
cs_transition wait_soa pres = (wait_soa, [])
cs_transition wait_soa asnd = (wait_soa, loss_of_soa ∷ [])
cs_transition _ soc = (wait_preq, [])
cs_transition current event =
    (current, unexpected_event_in_state (cs_state_code current) (cs_event_code event) ∷ [])

-- `if errors.is_empty() { None } else { Some(errors) }`
abbrev pub non_empty : List DllError → Option (List DllError)
non_empty [] = none
non_empty (e ∷ es) = some (e ∷ es)

-- `process_event`; the machine is the one field `state`.
unfoldable pub process_event :
    DllCsEvent → NmtState → DllCsState → DllCsState × Option (List DllError)
unfolding cs_transition is_cyclic
process_event event nmt_state state = elim (is_cyclic nmt_state) [
  | true ↦ let (next_state, errors) = cs_transition state event in (next_state, non_empty errors)
  | false ↦ (non_cyclic, none)
]
