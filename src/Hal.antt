-- ===== src/Hal.antt =====
-- crates/powerlink-rs/src/hal.rs: the error type of the stack, and the persistent storage that
-- the platform provides.
use Prim.Native.String.{String}
use powerlink_rs.Common.{ℕ}

-- `enum PowerlinkError`; the `&'static str` payloads are texts.
pub data PowerlinkError : Type 0 where
  buffer_too_short io_error invalid_ethernet_frame invalid_pl_frame : PowerlinkError
  invalid_message_type invalid_nmt_state invalid_service_id : ℕ → PowerlinkError
  invalid_requested_service_id invalid_node_id invalid_payload_size : ℕ → PowerlinkError
  invalid_enum_value slice_conversion frame_too_large not_ready : PowerlinkError
  object_not_found sub_object_not_found type_mismatch : PowerlinkError
  storage_error validation_error sdo_sequence_error : String → PowerlinkError
  sdo_aborted : ℕ → PowerlinkError
  sdo_invalid_command_payload pdo_map_overrun : PowerlinkError
  internal_error : String → PowerlinkError
