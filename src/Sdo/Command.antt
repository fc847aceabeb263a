-- ===== src/Sdo/Command.antt =====
-- crates/powerlink-rs/src/sdo/command/base.rs: an SDO command and its header.
pub mod Codec
pub mod RoundTrip
use powerlink_rs.Common.{ℕ, Bool, Option, List}

-- `enum CommandId`
pub data CommandId : Type 0 where
  nil write_by_index read_by_index write_all_by_index read_all_by_index : CommandId
  write_by_name read_by_name file_write file_read write_multiple_param_by_index : CommandId
  read_multiple_param_by_index abort max_segment_size : CommandId

-- `enum Segmentation`
pub data Segmentation : Type 0 where
  expedited initiate segment complete : Segmentation

-- `struct CommandLayerHeader`
pub record CommandLayerHeader : Type 0 where
  pub transaction_id : ℕ
  pub is_response : Bool
  pub is_aborted : Bool
  pub segmentation : Segmentation
  pub command_id : CommandId
  pub segment_size : ℕ

-- `struct SdoCommand`
pub record SdoCommand : Type 0 where
  pub header : CommandLayerHeader
  pub data_size : Option ℕ
  pub payload : List ℕ
