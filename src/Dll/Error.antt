-- ===== src/Dll/Error.antt =====
-- crates/powerlink-rs/src/frame/error/types.rs: DLL errors, their codes, and the actions that
-- the NMT layer takes on them.
use powerlink_rs.Common.{ℕ}
use powerlink_rs.Types.{NodeId}

-- `enum NmtAction`
pub data NmtAction : Type 0 where
  no_action : NmtAction
  reset_communication : NmtAction
  reset_node : NodeId → NmtAction

-- `enum DllError`; an unexpected event carries the codes of the state and of the event.
pub data DllError : Type 0 where
  loss_of_link bad_physical_mode mac_buffer crc collision invalid_format : DllError
  loss_of_soc loss_of_soa loss_of_preq : DllError
  loss_of_pres loss_of_status_res : NodeId → DllError
  cycle_time_exceeded : DllError
  late_pres : NodeId → DllError
  soc_jitter ms_wait_soc multiple_mn address_conflict mev_asnd_timeout : DllError
  unexpected_event_in_state : ℕ → ℕ → DllError
  pdo_map_version pdo_payload_short heartbeat_timeout : NodeId → DllError

-- `DllError::to_error_code`
unfoldable pub to_error_code : DllError → ℕ
to_error_code loss_of_link = 0x8165
to_error_code bad_physical_mode = 0x8161
to_error_code mac_buffer = 0x8166
to_error_code crc = 0x8164
to_error_code collision = 0x8163
to_error_code invalid_format = 0x8241
to_error_code loss_of_soc = 0x8245
to_error_code loss_of_soa = 0x8244
to_error_code loss_of_preq = 0x8242
to_error_code (loss_of_pres _) = 0x8243
to_error_code (loss_of_status_res _) = 0x8246
to_error_code cycle_time_exceeded = 0x8233
to_error_code (late_pres _) = 0x8236
to_error_code soc_jitter = 0x8235
to_error_code (pdo_map_version _) = 0x8211
to_error_code (pdo_payload_short _) = 0x8210
to_error_code (heartbeat_timeout _) = 0x8250
to_error_code _ = 0x8000
