-- ===== src/Sdo/Download.antt =====
-- crates/powerlink-rs/src/sdo/state.rs: the segments of a download, and the write to the dictionary.
pub mod Segments
pub mod Refused
use powerlink_rs.Common.{
  Option, ℕ, ◌+◌, ◌*◌, Bool, true, false, not, ltb, ◌==◌, if◌then◌else◌, none, some, List, ◌++◌,
  length, Result, ok, err,
}
use powerlink_rs.Hal.{
  PowerlinkError, storage_error, type_mismatch, validation_error, buffer_too_short,
}
use powerlink_rs.Od.Value.{ObjectValue, same_type}
use powerlink_rs.Od.Dictionary.{StorageBackend, ObjectDictionary, read, read_object}
use powerlink_rs.Od.Bytes.{deserialize}
use powerlink_rs.Od.Write.{write}
use powerlink_rs.Sdo.Command.{Segmentation, complete, SdoCommand}
use powerlink_rs.Sdo.Transfer.{SdoTransferState, deadline_from}
use text.Mathlib.Text

-- The abort codes for a failed write and for bytes that are not a value.
unfoldable pub write_abort_code : PowerlinkError → ℕ
write_abort_code (storage_error text) =
    if Text.◌==◌ text "Object is read-only" then 0x06010002 else 0x08000020
write_abort_code type_mismatch = 0x06070010
write_abort_code (validation_error _) = 0x06090030
write_abort_code _ = 0x08000020

unfoldable pub value_abort_code : PowerlinkError → ℕ
value_abort_code buffer_too_short = 0x06070013
value_abort_code _ = 0x06070010

abbrev pub is_complete : Segmentation → Bool
is_complete complete = true
is_complete _ = false

module _ {S : Type 0} where
  -- The result of a write with an abort code for its error.
  abbrev pub coded :
      Result (Unit {0}) PowerlinkError × ObjectDictionary S
      → Result (Unit {0}) ℕ × ObjectDictionary S
  coded (ok _, od) = (ok tt, od)
  coded (err e, od) = (err (write_abort_code e), od)

  -- `Ok(true)` after a write.
  abbrev pub finished :
      Result (Unit {0}) ℕ × ObjectDictionary S → Result Bool ℕ × ObjectDictionary S
  finished (ok _, od) = (ok true, od)
  finished (err code, od) = (err code, od)

module _ {S : Type 0} (backend : StorageBackend S) (is_utf8 : List ℕ → Bool) where
  -- The write of a value of the type that the dictionary has.
  unfoldable pub write_value :
      SdoTransferState
      → ObjectDictionary S
      → ObjectValue
      → ObjectValue
      → Result (Unit {0}) ℕ × ObjectDictionary S
  unfolding same_type write write_abort_code
  write_value t od type_template value =
      if not (same_type value type_template)
      then (err 0x06070010, od)
      else coded (write backend od t.index t.sub_index value)

  -- `perform_od_write`: `none` is a panic.
  unfoldable pub perform_od_write :
      SdoTransferState → ObjectDictionary S → Option (Result (Unit {0}) ℕ × ObjectDictionary S)
  unfolding deserialize write_value value_abort_code read read_object
  perform_od_write t od = elim (read od t.index t.sub_index) [
    | some type_template ↦ elim (deserialize is_utf8 t.data_buffer type_template) [
      | none ↦ none
      | some (ok value) ↦ some (write_value t od type_template value)
      | some (err e) ↦ some (err (value_abort_code e), od)
    ]
    | none ↦ elim (read_object od t.index) [
      | none ↦ some (err 0x06020000, od)
      | some _ ↦ some (err 0x06090011, od)
    ]
  ]

  -- The end of a download: the size is compared, and the value is written.
  unfoldable pub finish_download :
      SdoTransferState → ObjectDictionary S → Option (Result Bool ℕ × ObjectDictionary S)
  unfolding perform_od_write
  finish_download t od =
      if not (t.offset == t.total_size)
      then some (err (if ltb t.offset t.total_size then 0x06070013 else 0x06070012), od)
      else (elim (perform_od_write t od) [ none ↦ none | some r ↦ some (finished r) ])

  -- `process_download_segment`: the result, the transfer and the dictionary.
  unfoldable pub process_download_segment :
      SdoCommand
      → ℕ
      → SdoTransferState
      → ObjectDictionary S
      → Option (Result Bool ℕ × SdoTransferState × ObjectDictionary S)
  unfolding finish_download deadline_from
  process_download_segment command current_time_us t od =
      let taken = record t {
        data_buffer = t.data_buffer ++ command.payload;
        offset = t.offset + length command.payload;
      } in
      if ltb t.total_size (t.offset + length command.payload)
      then some (err 0x06070010, t, od)
      else if is_complete command.header.segmentation
      then (elim (finish_download taken od) [ none ↦ none | some r ↦ some (r.0, taken, r.1) ])
      else some
          (ok false, record taken { deadline_us = some (deadline_from od current_time_us) }, od)
