-- ===== src/Sdo/Handlers.antt =====
-- crates/powerlink-rs/src/sdo/handlers.rs: the commands of the SDO server that read.
-- A handler gives its answer, the connection and the dictionary; `none` is a panic on a slice.
pub mod Writes
pub mod Named
pub mod Many
use powerlink_rs.Common.{
  ℕ, ◌+◌, ◌%◌, true, false, leb, if◌then◌else◌, Option, none, some, List, ◌++◌, length, ok, err,
}
use powerlink_rs.Common.Bytes.{inside, le_bytes2, le_bytes4, read_u16_le}
use powerlink_rs.Hal.{PowerlinkError, sdo_invalid_command_payload}
use powerlink_rs.Od.Dictionary.{ObjectDictionary, read, read_object}
use powerlink_rs.Od.Bytes.{serialize}
use powerlink_rs.Sdo.Command.{expedited, nil, CommandLayerHeader, SdoCommand}
use powerlink_rs.Sdo.Transfer.{SdoTransferState, max_expedited_payload, get_next_upload_segment}
use powerlink_rs.Sdo.Handler.{SdoSequenceHandler, segmented_upload, reset}
use powerlink_rs.Sdo.Requests.{ReadByIndexRequest, WriteByIndexRequest, read_by_index_from_payload}

-- An answer with the defaults of `SdoCommand` and its header, for a transaction.
unfoldable pub default_header : ℕ → CommandLayerHeader
default_header transaction_id = record {
  transaction_id = transaction_id;
  is_response = true;
  is_aborted = false;
  segmentation = expedited;
  command_id = nil;
  segment_size = 0;
}

-- An answer in one piece.
abbrev pub answer : CommandLayerHeader → List ℕ → SdoCommand
answer header payload = record { header = header; data_size = none; payload = payload }

-- `abort`: the answer; the connection is reset.
unfoldable pub abort_command : ℕ → ℕ → SdoCommand
unfolding le_bytes4
abort_command transaction_id abort_code = record {
  header = record {
    transaction_id = transaction_id;
    is_response = true;
    is_aborted = true;
    segmentation = expedited;
    command_id = nil;
    segment_size = 4;
  };
  data_size = none;
  payload = le_bytes4 abort_code;
}

-- The abort code for a payload that cannot be read.
unfoldable pub payload_abort_code : PowerlinkError → ℕ
payload_abort_code sdo_invalid_command_payload = 0x05040001
payload_abort_code _ = 0x08000000

-- A download that starts with these bytes.
abbrev pub new_download : ℕ → ℕ → WriteByIndexRequest → Option ℕ → SdoTransferState
new_download transaction_id total_size req deadline_us = record {
  transaction_id = transaction_id;
  total_size = total_size;
  data_buffer = req.content;
  offset = length req.content;
  index = req.index;
  sub_index = req.sub_index;
  deadline_us = deadline_us;
  retransmissions_left = 0;
  last_sent_segment = none;
}

abbrev pub new_upload : ℕ → List ℕ → ℕ → ℕ → SdoTransferState
new_upload transaction_id payload index sub = record {
  transaction_id = transaction_id;
  total_size = length payload;
  data_buffer = payload;
  offset = 0;
  index = index;
  sub_index = sub;
  deadline_us = none;
  retransmissions_left = 0;
  last_sent_segment = none;
}

-- `handle_max_segment_size`
unfoldable pub handle_max_segment_size : SdoCommand → CommandLayerHeader → Option SdoCommand
unfolding le_bytes2 read_u16_le inside
handle_max_segment_size command response_header =
    let max_size_client =
      if leb 2 (length command.payload)
      then inside 2 command.payload (read_u16_le command.payload 0)
      else some 0 in
    elim max_size_client [
      | none ↦ none
      | some size ↦ some (
          answer (record response_header { segment_size = 4 })
            (le_bytes2 size ++ le_bytes2 max_expedited_payload))
    ]

-- What a handler leaves over a storage with states `S`.
abbrev pub Reply : Type 0 → Type 0
Reply S = Option (SdoCommand × SdoSequenceHandler × ObjectDictionary S)

module _ {S : Type 0} where
  unfoldable pub abort : ℕ → ℕ → SdoSequenceHandler → ObjectDictionary S → Reply S
  unfolding abort_command reset
  abort transaction_id abort_code h od = some (abort_command transaction_id abort_code, reset h, od)

  -- The end of a read: one piece, or the first segment of an upload.
  unfoldable pub send_payload :
      ℕ
      → CommandLayerHeader
      → List ℕ
      → ℕ
      → ℕ
      → ℕ
      → SdoSequenceHandler
      → ObjectDictionary S
      → Reply S
  unfolding get_next_upload_segment
  send_payload transaction_id response_header payload index sub current_time_us h od =
      if leb (length payload) max_expedited_payload
      then some
          (answer (record response_header { segment_size = length payload % 65536 }) payload, h, od)
      else (elim (get_next_upload_segment od current_time_us
          (new_upload transaction_id payload index sub)) [
            | none ↦ none
            | some (command, is_last, t) ↦
                some (command, (if is_last then h else record h { state = segmented_upload t }), od)
          ])

  -- The abort for an address without a value.
  unfoldable pub abort_missing : ℕ → ℕ → SdoSequenceHandler → ObjectDictionary S → Reply S
  unfolding abort read_object
  abort_missing transaction_id index h od = elim (read_object od index) [
    | none ↦ abort transaction_id 0x06020000 h od
    | some _ ↦ abort transaction_id 0x06090011 h od
  ]

  -- A read of an address, the body of `handle_read_by_index`.
  unfoldable pub read_address :
      ReadByIndexRequest
      → ℕ
      → CommandLayerHeader
      → ℕ
      → SdoSequenceHandler
      → ObjectDictionary S
      → Reply S
  unfolding send_payload abort_missing serialize read
  read_address req transaction_id response_header current_time_us h od =
      elim (read od req.index req.sub_index) [
        | some value ↦
            send_payload transaction_id response_header (serialize value) req.index req.sub_index
              current_time_us h od
        | none ↦ abort_missing transaction_id req.index h od
      ]

  unfoldable pub handle_read_by_index :
      SdoCommand → CommandLayerHeader → ℕ → SdoSequenceHandler → ObjectDictionary S → Reply S
  unfolding read_by_index_from_payload read_address abort payload_abort_code
  handle_read_by_index command response_header current_time_us h od =
      let tid = command.header.transaction_id in
      elim (read_by_index_from_payload command.payload) [
        | none ↦ none
        | some (ok req) ↦ read_address req tid response_header current_time_us h od
        | some (err e) ↦ abort tid (payload_abort_code e) h od
      ]
