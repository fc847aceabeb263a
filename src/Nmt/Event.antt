-- ===== src/Nmt/Event.antt =====
-- crates/powerlink-rs/src/nmt/events.rs: NMT commands, service requests and events.
use powerlink_rs.Common.{ℕ, ◌==◌, if◌then◌else◌, Result, ok, err}
use powerlink_rs.Hal.{PowerlinkError, invalid_enum_value}

-- `enum NmtStateCommand`
pub data NmtStateCommand : Type 0 where
  start_node stop_node enter_pre_operational2 enable_ready_to_operate : NmtStateCommand
  reset_node reset_communication reset_configuration sw_reset : NmtStateCommand

unfoldable pub state_command_code : NmtStateCommand → ℕ
state_command_code start_node = 0x21
state_command_code stop_node = 0x22
state_command_code enter_pre_operational2 = 0x23
state_command_code enable_ready_to_operate = 0x24
state_command_code reset_node = 0x28
state_command_code reset_communication = 0x29
state_command_code reset_configuration = 0x2A
state_command_code sw_reset = 0x2B

unfoldable pub state_command_try_from : ℕ → Result NmtStateCommand PowerlinkError
state_command_try_from value =
    if value == 0x21
    then ok start_node
    else if value == 0x22
    then ok stop_node
    else if value == 0x23
    then ok enter_pre_operational2
    else if value == 0x24
    then ok enable_ready_to_operate
    else if value == 0x28
    then ok reset_node
    else if value == 0x29
    then ok reset_communication
    else if value == 0x2A
    then ok reset_configuration
    else if value == 0x2B
    then ok sw_reset
    else err invalid_enum_value

-- `enum NmtManagingCommand`
pub data NmtManagingCommand : Type 0 where
  net_host_name_set flush_arp_entry : NmtManagingCommand

unfoldable pub managing_command_code : NmtManagingCommand → ℕ
managing_command_code net_host_name_set = 0x62
managing_command_code flush_arp_entry = 0x63

unfoldable pub managing_command_try_from : ℕ → Result NmtManagingCommand PowerlinkError
managing_command_try_from value =
    if value == 0x62
    then ok net_host_name_set
    else if value == 0x63
    then ok flush_arp_entry
    else err invalid_enum_value

-- `enum NmtServiceRequest`
pub data NmtServiceRequest : Type 0 where
  ident_request status_request : NmtServiceRequest

unfoldable pub service_request_code : NmtServiceRequest → ℕ
service_request_code ident_request = 0x01
service_request_code status_request = 0x02

unfoldable pub service_request_try_from : ℕ → Result NmtServiceRequest PowerlinkError
service_request_try_from value =
    if value == 0x01
    then ok ident_request
    else if value == 0x02
    then ok status_request
    else err invalid_enum_value

-- `enum CnNmtRequest`
pub data CnNmtRequest : Type 0 where
  command : NmtStateCommand → CnNmtRequest
  service : NmtServiceRequest → CnNmtRequest

unfoldable pub cn_nmt_request_code : CnNmtRequest → ℕ
unfolding state_command_code service_request_code
cn_nmt_request_code (command c) = state_command_code c
cn_nmt_request_code (service s) = service_request_code s

-- `enum MnNmtCommandRequest`
pub data MnNmtCommandRequest : Type 0 where
  state : NmtStateCommand → MnNmtCommandRequest
  managing : NmtManagingCommand → MnNmtCommandRequest

unfoldable pub mn_nmt_command_request_code : MnNmtCommandRequest → ℕ
unfolding state_command_code managing_command_code
mn_nmt_command_request_code (state c) = state_command_code c
mn_nmt_command_request_code (managing c) = managing_command_code c

-- `enum NmtEvent`
pub data NmtEvent : Type 0 where
  start_node stop_node enter_pre_operational2 enable_ready_to_operate : NmtEvent
  reset sw_reset reset_node reset_communication reset_configuration : NmtEvent
  enter_epl_mode timeout error : NmtEvent
  soc_soa_received soc_received powerlink_frame_received : NmtEvent
  cn_configuration_complete : NmtEvent
  all_cns_identified configuration_complete_cns_ready all_mandatory_cns_operational : NmtEvent

-- `event as u8`: the variants count from 0.
unfoldable pub event_code : NmtEvent → ℕ
event_code start_node = 0
event_code stop_node = 1
event_code enter_pre_operational2 = 2
event_code enable_ready_to_operate = 3
event_code reset = 4
event_code sw_reset = 5
event_code reset_node = 6
event_code reset_communication = 7
event_code reset_configuration = 8
event_code enter_epl_mode = 9
event_code timeout = 10
event_code error = 11
event_code soc_soa_received = 12
event_code soc_received = 13
event_code powerlink_frame_received = 14
event_code cn_configuration_complete = 15
event_code all_cns_identified = 16
event_code configuration_complete_cns_ready = 17
event_code all_mandatory_cns_operational = 18
