-- ===== src/Nmt/State.antt =====
-- crates/powerlink-rs/src/nmt/states.rs: the NMT states and their wire codes.
pub mod Codes
use powerlink_rs.Common.{ℕ, Bool, ltb, leb, ◌==◌, if◌then◌else◌, Result, ok, err}
use powerlink_rs.Hal.{PowerlinkError, invalid_nmt_state}

-- `enum NodeType`
pub data NodeType : Type 0 where
  controlled_node managing_node : NodeType

-- `enum NmtState`
pub data NmtState : Type 0 where
  gs_off gs_initialising gs_reset_application gs_reset_communication : NmtState
  gs_reset_configuration not_active pre_operational1 pre_operational2 : NmtState
  ready_to_operate operational cs_stopped basic_ethernet : NmtState

-- `state as u8`
unfoldable pub state_code : NmtState → ℕ
state_code gs_off = 0x00
state_code gs_initialising = 0x19
state_code gs_reset_application = 0x29
state_code gs_reset_communication = 0x39
state_code gs_reset_configuration = 0x79
state_code not_active = 0x1C
state_code pre_operational1 = 0x1D
state_code pre_operational2 = 0x5D
state_code ready_to_operate = 0x6D
state_code operational = 0xFD
state_code cs_stopped = 0x4D
state_code basic_ethernet = 0x1E

-- `NmtState::try_from`
unfoldable pub state_try_from : ℕ → Result NmtState PowerlinkError
state_try_from value =
    if value == 0x00
    then ok gs_off
    else if value == 0x19
    then ok gs_initialising
    else if value == 0x29
    then ok gs_reset_application
    else if value == 0x39
    then ok gs_reset_communication
    else if value == 0x79
    then ok gs_reset_configuration
    else if value == 0x1C
    then ok not_active
    else if value == 0x1D
    then ok pre_operational1
    else if value == 0x5D
    then ok pre_operational2
    else if value == 0x6D
    then ok ready_to_operate
    else if value == 0xFD
    then ok operational
    else if value == 0x4D
    then ok cs_stopped
    else if value == 0x1E
    then ok basic_ethernet
    else err (invalid_nmt_state value)

-- `NmtState::from_u8_with_context`
unfoldable pub state_from_u8_with_context : ℕ → NodeType → Result NmtState PowerlinkError
state_from_u8_with_context value node_type =
    if value == 0x1C
    then ok not_active
    else if value == 0x1D
    then ok pre_operational1
    else if value == 0x5D
    then ok pre_operational2
    else if value == 0x6D
    then ok ready_to_operate
    else if value == 0xFD
    then ok operational
    else if value == 0x1E
    then ok basic_ethernet
    else state_try_from value

-- `==` of the derived `PartialEq`: the codes differ.
abbrev pub state_eq : NmtState → NmtState → Bool
unfolding state_code
state_eq s t = state_code s == state_code t

pub NmtState-discrete : Discrete NmtState
NmtState-discrete = hlevel
