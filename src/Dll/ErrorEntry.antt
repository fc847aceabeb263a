-- ===== src/Dll/ErrorEntry.antt =====
-- crates/powerlink-rs/src/frame/error/status_response.rs: the entries of the error history, with
-- `serialize` of crates/powerlink-rs/src/od/error_history.rs.
use powerlink_rs.Common.{
  ℕ, ◌*◌, ◌/◌, bit_and, bit_or, Bool, not, ltb, ◌==◌, if◌then◌else◌, List, ◌++◌, length, Result, ok,
  err, ◌>>=◌,
}
use powerlink_rs.Common.Bytes.{le_bytes2, le_bytes4, read_u16_le, read_u32_le}
use powerlink_rs.Hal.{PowerlinkError, buffer_too_short, invalid_enum_value}
use powerlink_rs.Od.Value.{NetTime}
use powerlink_rs.Od.Bytes.{le_bytes8, read_u64_le}

pub data ErrorEntryMode : Type 0 where
  terminator error_active error_cleared event_occurred : ErrorEntryMode

unfoldable pub mode_code : ErrorEntryMode → ℕ
mode_code terminator = 0
mode_code error_active = 1
mode_code error_cleared = 2
mode_code event_occurred = 3

unfoldable pub mode_try_from : ℕ → Result ErrorEntryMode PowerlinkError
mode_try_from value =
    if value == 0
    then ok terminator
    else if value == 1
    then ok error_active
    else if value == 2
    then ok error_cleared
    else if value == 3
    then ok event_occurred
    else err invalid_enum_value

pub record EntryType : Type 0 where
  pub is_status_entry : Bool
  pub send_to_queue : Bool
  pub mode : ErrorEntryMode
  pub profile : ℕ

pub record ErrorEntry : Type 0 where
  pub entry_type : EntryType
  pub error_code : ℕ
  pub timestamp : NetTime
  pub additional_information : ℕ

-- `EntryType::from_u16`
unfoldable pub entry_type_from_u16 : ℕ → Result EntryType PowerlinkError
unfolding mode_try_from
entry_type_from_u16 value = do
  mode ← mode_try_from (bit_and (value / 4096) 3)
  ok (record {
    is_status_entry = not (bit_and value 32768 == 0);
    send_to_queue = not (bit_and value 16384 == 0);
    mode = mode;
    profile = bit_and value 4095;
  })

unfoldable pub deserialize_entry : List ℕ → Result ErrorEntry PowerlinkError
unfolding entry_type_from_u16
deserialize_entry buffer =
    if ltb (length buffer) 20
    then err buffer_too_short
    else entry_type_from_u16 (read_u16_le buffer 0) >>= λ entry_type. ok (record {
      entry_type = entry_type;
      error_code = read_u16_le buffer 2;
      timestamp = record { seconds = read_u32_le buffer 4; nanoseconds = read_u32_le buffer 8 };
      additional_information = read_u64_le buffer 12;
    })

-- The 16 bits of an entry's type.
unfoldable pub entry_type_val : EntryType → ℕ
unfolding mode_code
entry_type_val t =
    bit_or
      (bit_or (bit_or (bit_and t.profile 4095) (mode_code t.mode * 4096))
        (if t.is_status_entry then 32768 else 0))
      (if t.send_to_queue then 16384 else 0)

-- `ErrorEntry::serialize`
unfoldable pub serialize_entry : ErrorEntry → List ℕ
unfolding entry_type_val
serialize_entry e =
    le_bytes2 (entry_type_val e.entry_type)
    ++ (le_bytes2 e.error_code
        ++ (le_bytes4 e.timestamp.seconds
            ++ (le_bytes4 e.timestamp.nanoseconds ++ le_bytes8 e.additional_information)))
