-- ===== src/Sdo/Transfer.antt =====
-- crates/powerlink-rs/src/sdo/state.rs: the segments of an upload.
pub mod Upload
use powerlink_rs.Common.{
  ℕ, ◌+◌, ◌-◌, ◌*◌, ◌^◌, ◌%◌, min, ltb, leb, ◌==◌, Bool, true, false, if◌then◌else◌, Option, none,
  some, List, length, take, drop,
}
use powerlink_rs.Common.Bytes.{slice}
use powerlink_rs.Od.Dictionary.{ObjectDictionary, read_u32}
use powerlink_rs.Sdo.Command.{Segmentation, initiate, segment, complete, read_by_index, SdoCommand}

abbrev pub max_expedited_payload : ℕ
max_expedited_payload = 1452

-- `struct SdoTransferState`
pub record SdoTransferState : Type 0 where
  pub transaction_id : ℕ
  pub total_size : ℕ
  pub data_buffer : List ℕ
  pub offset : ℕ
  pub index : ℕ
  pub sub_index : ℕ
  pub deadline_us : Option ℕ
  pub retransmissions_left : ℕ
  pub last_sent_segment : Option SdoCommand

-- `unwrap_or`
abbrev pub unwrap_or : Option ℕ → ℕ → ℕ
unwrap_or none d = d
unwrap_or (some n) d = n

-- The assignments to `segmentation`: the last one stands.
unfoldable pub segmentation_of : ℕ → Bool → Segmentation
segmentation_of offset is_last =
    if is_last then complete else (if offset == 0 then initiate else segment)

-- The command for a chunk; `as u32` and `as u16` wrap.
unfoldable pub upload_command : SdoTransferState → List ℕ → Bool → SdoCommand
unfolding segmentation_of
upload_command t chunk is_last = record {
  header = record {
    transaction_id = t.transaction_id;
    is_response = true;
    is_aborted = false;
    segmentation = segmentation_of t.offset is_last;
    command_id = read_by_index;
    segment_size = length chunk % 2 ^ 16;
  };
  data_size = if t.offset == 0 then some (t.total_size % 2 ^ 32) else none;
  payload = chunk;
}

module _ {S : Type 0} where
  -- The time a timeout from now, in milliseconds: a `u64` sum, which wraps as in a release build.
  unfoldable pub deadline_from : ObjectDictionary S → ℕ → ℕ
  unfolding read_u32
  deadline_from od current_time_us =
      (current_time_us + unwrap_or (read_u32 od 0x1300 0) 15000 * 1000) % 2 ^ 64

  -- The state after the chunk: a deadline and a copy for retransmission, unless it was the last.
  unfoldable pub advance_upload :
      ObjectDictionary S → ℕ → SdoCommand → ℕ → Bool → SdoTransferState → SdoTransferState
  unfolding deadline_from
  advance_upload od current_time_us command offset is_last t =
      if is_last
      then record t { offset = offset; deadline_us = none; last_sent_segment = none }
      else record t {
        offset = offset;
        deadline_us = some (deadline_from od current_time_us);
        retransmissions_left = unwrap_or (read_u32 od 0x1302 0) 2;
        last_sent_segment = some command;
      }

  -- `get_next_upload_segment`: `none` is its panic.
  unfoldable pub get_next_upload_segment :
      ObjectDictionary S → ℕ → SdoTransferState → Option (SdoCommand × Bool × SdoTransferState)
  unfolding advance_upload upload_command slice
  get_next_upload_segment od current_time_us t =
      let size = min max_expedited_payload (t.total_size - t.offset) in
      let offset = t.offset + size in
      let is_last = leb t.total_size offset in
      elim (slice t.offset offset t.data_buffer) [
        | none ↦ none
        | some chunk ↦
            let command = upload_command t chunk is_last in
            some (command, is_last, advance_upload od current_time_us command offset is_last t)
      ]
