-- ===== src/Types.antt =====
-- crates/powerlink-rs/src/types.rs: node identifiers, message types and protocol constants.
-- A `NodeId` is the `u8` that it wraps.
use powerlink_rs.Common.{
  ℕ, ◌&&◌, ◌||◌, leb, ◌==◌, if◌then◌else◌, Option, none, some, Result, ok, err,
}
use powerlink_rs.Hal.{PowerlinkError, invalid_node_id}

abbrev pub NodeId : Type 0
NodeId = ℕ

abbrev pub mn_def_node_id : ℕ
mn_def_node_id = 240

abbrev pub max_cn_node_id : ℕ
max_cn_node_id = 239

abbrev pub diag_def_node_id : ℕ
diag_def_node_id = 253

abbrev pub rt1_def_node_id : ℕ
rt1_def_node_id = 254

abbrev pub broadcast_node_id : ℕ
broadcast_node_id = 255

abbrev pub EplVersion : Type 0
EplVersion = ℕ

abbrev pub ethertype_epl : ℕ
ethertype_epl = 0x88AB

-- `enum MessageType`
pub data MessageType : Type 0 where
  soc preq pres soa asnd : MessageType

unfoldable pub message_type_code : MessageType → ℕ
message_type_code soc = 0x01
message_type_code preq = 0x03
message_type_code pres = 0x04
message_type_code soa = 0x05
message_type_code asnd = 0x06

-- `MessageType::try_from`; its error carries nothing.
unfoldable pub message_type_try_from : ℕ → Option MessageType
message_type_try_from value =
    if value == 0x01
    then some soc
    else if value == 0x03
    then some preq
    else if value == 0x04
    then some pres
    else if value == 0x05
    then some soa
    else if value == 0x06
    then some asnd
    else none

-- `NodeId::try_from`, with `NodeIdError` turned into a `PowerlinkError` as `?` does.
unfoldable pub node_id_try_from : ℕ → Result NodeId PowerlinkError
node_id_try_from value =
    if leb 1 value && leb value mn_def_node_id
    then ok value
    else if value == diag_def_node_id || value == rt1_def_node_id || value == broadcast_node_id
    then ok value
    else err (invalid_node_id value)
