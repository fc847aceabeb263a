-- ===== src/Sdo/Command/Codec.antt =====
-- crates/powerlink-rs/src/sdo/command/base.rs: an SDO command as bytes.
use powerlink_rs.Common.{
  ℕ, ◌+◌, ◌*◌, ◌/◌, ◌%◌, bit_and, bit_or, Bool, ltb, ◌==◌, if◌then◌else◌, Option, none, some, List,
  [], ◌∷◌, length, get_or, Result, ok, err, ◌>>=◌,
}
use powerlink_rs.Common.Bytes.{
  slice, inside, and_then, write_slice, has_flag, le_bytes4, read_u16_le, read_u32_le,
}
use powerlink_rs.Hal.{PowerlinkError, buffer_too_short, invalid_enum_value}
use powerlink_rs.Sdo.Command.{
  CommandId, nil, write_by_index, read_by_index, write_all_by_index, read_all_by_index,
  write_by_name, read_by_name, file_write, file_read, write_multiple_param_by_index,
  read_multiple_param_by_index, abort, max_segment_size, Segmentation, expedited, initiate, segment,
  complete, CommandLayerHeader, SdoCommand,
}

unfoldable pub command_id_code : CommandId → ℕ
command_id_code nil = 0x00
command_id_code write_by_index = 0x01
command_id_code read_by_index = 0x02
command_id_code write_all_by_index = 0x03
command_id_code read_all_by_index = 0x04
command_id_code write_by_name = 0x05
command_id_code read_by_name = 0x06
command_id_code file_write = 0x20
command_id_code file_read = 0x21
command_id_code write_multiple_param_by_index = 0x31
command_id_code read_multiple_param_by_index = 0x32
command_id_code abort = 0x40
command_id_code max_segment_size = 0x70

unfoldable pub command_id_try_from : ℕ → Result CommandId PowerlinkError
command_id_try_from value =
    if value == 0x00
    then ok nil
    else if value == 0x01
    then ok write_by_index
    else if value == 0x02
    then ok read_by_index
    else if value == 0x03
    then ok write_all_by_index
    else if value == 0x04
    then ok read_all_by_index
    else if value == 0x05
    then ok write_by_name
    else if value == 0x06
    then ok read_by_name
    else if value == 0x20
    then ok file_write
    else if value == 0x21
    then ok file_read
    else if value == 0x31
    then ok write_multiple_param_by_index
    else if value == 0x32
    then ok read_multiple_param_by_index
    else if value == 0x40
    then ok abort
    else if value == 0x70
    then ok max_segment_size
    else err invalid_enum_value

unfoldable pub segmentation_code : Segmentation → ℕ
segmentation_code expedited = 0
segmentation_code initiate = 1
segmentation_code segment = 2
segmentation_code complete = 3

unfoldable pub segmentation_try_from : ℕ → Result Segmentation PowerlinkError
segmentation_try_from value =
    if value == 0
    then ok expedited
    else if value == 1
    then ok initiate
    else if value == 2
    then ok segment
    else if value == 3
    then ok complete
    else err invalid_enum_value

-- The flags of octet 2; `<< 6` wraps at 8 bits.
unfoldable pub flags_of : Bool → Bool → Segmentation → ℕ
unfolding segmentation_code
flags_of is_response is_aborted s =
    bit_or (bit_or (if is_response then 0x10 else 0) (if is_aborted then 0x20 else 0))
      (segmentation_code s * 64 % 256)

-- The eight bytes of the fixed header
unfoldable pub header_bytes : CommandLayerHeader → List ℕ
unfolding flags_of command_id_code
header_bytes h =
    0
    ∷ h.transaction_id
    ∷ flags_of h.is_response h.is_aborted h.segmentation
    ∷ command_id_code h.command_id
    ∷ h.segment_size % 256
    ∷ h.segment_size / 256 % 256
    ∷ 0
    ∷ 0
    ∷ []

-- The end of `serialize`: the payload at an offset.
unfoldable pub write_payload : ℕ → List ℕ → List ℕ → Result ℕ PowerlinkError × List ℕ
write_payload offset payload buffer =
    if ltb (length buffer) (offset + length payload)
    then (err buffer_too_short, buffer)
    else (ok (offset + length payload), write_slice offset payload buffer)

-- `self.data_size.unwrap_or(0)`
abbrev pub size_or_zero : Option ℕ → ℕ
size_or_zero none = 0
size_or_zero (some n) = n

-- `SdoCommand::serialize`: the result, and the buffer as it is left, on errors too.
unfoldable pub serialize : SdoCommand → List ℕ → Result ℕ PowerlinkError × List ℕ
unfolding header_bytes write_payload le_bytes4
serialize c buffer =
    let b = write_slice 0 (header_bytes c.header) buffer in
    if ltb (length buffer) 8 then (err buffer_too_short, buffer) else (elim c.header.segmentation [
      | initiate ↦
          if ltb (length b) 12
          then (err buffer_too_short, b)
          else write_payload 12 c.payload (write_slice 8 (le_bytes4 (size_or_zero c.data_size)) b)
      | _ ↦ write_payload 8 c.payload b
    ])

-- The header that `deserialize` reads.
unfoldable pub read_header : List ℕ → Result CommandLayerHeader PowerlinkError
unfolding segmentation_try_from command_id_try_from has_flag read_u16_le
read_header buffer = do
  segmentation ← segmentation_try_from (bit_and (get_or buffer 2 0 / 64) 3)
  command_id ← command_id_try_from (get_or buffer 3 0)
  ok (record {
    transaction_id = get_or buffer 1 0;
    is_response = has_flag (get_or buffer 2 0) 0x10;
    is_aborted = has_flag (get_or buffer 2 0) 0x20;
    segmentation = segmentation;
    command_id = command_id;
    segment_size = read_u16_le buffer 4;
  })

-- The end of `deserialize`: the payload from an offset.
unfoldable pub read_payload :
    CommandLayerHeader → Option ℕ → ℕ → List ℕ → Option (Result SdoCommand PowerlinkError)
unfolding slice
read_payload header data_size offset buffer =
    if ltb (length buffer) (offset + header.segment_size)
    then some (err buffer_too_short)
    else (elim (slice offset (offset + header.segment_size) buffer) [
      | none ↦ none
      | some payload ↦
          some (ok (record { header = header; data_size = data_size; payload = payload }))
    ])

-- What follows the header, by its segmentation.
unfoldable pub read_body : List ℕ → CommandLayerHeader → Option (Result SdoCommand PowerlinkError)
unfolding read_payload read_u32_le inside
read_body buffer header = elim header.segmentation [
  | initiate ↦
      if ltb (length buffer) 12
      then some (err buffer_too_short)
      else (elim (inside 12 buffer (read_u32_le buffer 8)) [
        | none ↦ none
        | some size ↦ read_payload header (some size) 12 buffer
      ])
  | _ ↦ read_payload header none 8 buffer
]

-- `SdoCommand::deserialize`: `none` is a panic.
unfoldable pub deserialize : List ℕ → Option (Result SdoCommand PowerlinkError)
unfolding read_header read_body inside
deserialize buffer =
    if ltb (length buffer) 8
    then some (err buffer_too_short)
    else and_then (inside 6 buffer (read_header buffer)) (read_body buffer)
