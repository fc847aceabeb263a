-- ===== src/Sdo/Server/Requests.antt =====
-- `process_command_layer` and `handle_request` of crates/powerlink-rs/src/sdo/sequence_handler.rs.
use Prim.Native.String.{String}
use powerlink_rs.Common.{
  ℕ, ◌%◌, Bool, ltb, ◌==◌, if◌then◌else◌, none, some, List, [], length, get_or, Result, ok, err,
}
use powerlink_rs.Common.Bytes.{slice}
use powerlink_rs.Hal.{PowerlinkError, buffer_too_short}
use powerlink_rs.Od.Dictionary.{StorageBackend, ObjectDictionary}
use powerlink_rs.Sdo.Sequence.{connection_valid, valid_ack_request, SequenceLayerHeader}
use powerlink_rs.Sdo.Sequence
use powerlink_rs.Sdo.Command.{
  CommandId, nil, write_by_index, read_by_index, write_all_by_index, read_all_by_index,
  write_by_name, read_by_name, file_write, file_read, write_multiple_param_by_index,
  read_multiple_param_by_index, max_segment_size, SdoCommand,
}
use powerlink_rs.Sdo.Command
use powerlink_rs.Sdo.Command.Codec
use powerlink_rs.Sdo.Handler.{
  SdoSequenceHandler, closed, opening, established, segmented_download, segmented_upload,
  process_sequence_layer,
}
use powerlink_rs.Sdo.Handlers.{
  default_header, answer, Reply, abort, handle_max_segment_size, handle_read_by_index,
}
use powerlink_rs.Sdo.Handlers.Many.{handle_read_all_by_index, handle_read_multiple_params}
use powerlink_rs.Sdo.Handlers.Writes.{handle_write_by_index}
use powerlink_rs.Sdo.Handlers.Named.{handle_read_by_name, handle_write_by_name}
use powerlink_rs.Sdo.Server.{
  SdoCommandHandler, closing_answer, Response, handled, during_upload, without_command, respond,
  last_segment, acknowledged, is_error_response,
}

module _ {S : Type 0} where
  -- A request for retransmission: the last segment again, or an empty command.
  unfoldable pub on_error_response :
      SequenceLayerHeader → SdoSequenceHandler → ObjectDictionary S → Response S
  unfolding last_segment process_sequence_layer default_header
  on_error_response request h od = elim (last_segment h.state) [
    | some command ↦ some (
      ok (
        record {
          receive_sequence_number = request.send_sequence_number;
          receive_con = connection_valid;
          send_sequence_number = h.send_sequence_number;
          send_con = valid_ack_request;
        },
        command,
      ),
      h,
      od,
    )
    | none ↦ acknowledged od (process_sequence_layer request h)
  ]

module _ {S : Type 0} (backend : StorageBackend S) (is_utf8 : List ℕ → Bool)
    (text_bytes : String → List ℕ) (application : SdoCommandHandler S) where
  -- The command of a request by its identifier.
  unfoldable pub dispatch :
      CommandId → SdoCommand → ℕ → SdoSequenceHandler → ObjectDictionary S → Reply S
  unfolding default_header handle_read_by_index handle_write_by_index handle_read_by_name
      handle_write_by_name handle_read_all_by_index handle_read_multiple_params
      handle_max_segment_size abort
  dispatch id command now h od =
      let tid = command.header.transaction_id in
      let header = default_header tid in
      elim id [
        | read_by_index ↦ handle_read_by_index command header now h od
        | write_by_index ↦ handle_write_by_index backend is_utf8 command header now h od
        | read_by_name ↦ handle_read_by_name backend is_utf8 text_bytes command header now h od
        | write_by_name ↦ handle_write_by_name backend is_utf8 text_bytes command header now h od
        | read_all_by_index ↦ handle_read_all_by_index command header now h od
        | read_multiple_param_by_index ↦ handle_read_multiple_params command header now h od
        | max_segment_size ↦ elim (handle_max_segment_size command header) [
          | none ↦ none
          | some response ↦ some (response, h, od)
        ]
        | write_all_by_index ↦ handled h (application.handle_write_all_by_index command od)
        | write_multiple_param_by_index ↦
            handled h (application.handle_write_multiple_params command od)
        | file_read ↦ handled h (application.handle_file_read command od)
        | file_write ↦ handled h (application.handle_file_write command od)
        | nil ↦ some (answer header [], h, od)
        | Command.abort ↦ abort tid 0x05040001 h od
      ]

  -- A command outside an upload.
  unfoldable pub outside_upload : SdoCommand → ℕ → SdoSequenceHandler → ObjectDictionary S → Reply S
  unfolding dispatch closing_answer
  outside_upload command now h od =
      if command.header.is_aborted
      then some (closing_answer, record h { state = established }, od)
      else dispatch command.header.command_id command now h od

  unfoldable pub process_command_layer :
      SdoCommand → ℕ → SdoSequenceHandler → ObjectDictionary S → Reply S
  unfolding during_upload outside_upload
  process_command_layer command now h od = elim h.state [
    | segmented_upload t ↦ during_upload t command now h od
    | closed ↦ outside_upload command now h od
    | opening ↦ outside_upload command now h od
    | established ↦ outside_upload command now h od
    | segmented_download _ ↦ outside_upload command now h od
  ]

  -- A request with a command, after the sequence layer; `payload[0] & 0x0F` of a byte is its
  -- remainder by 16.
  unfoldable pub with_command :
      List ℕ → SequenceLayerHeader → ℕ → SdoSequenceHandler → ObjectDictionary S → Response S
  unfolding Codec.deserialize process_command_layer respond abort
  with_command command_payload response now h od = elim (Codec.deserialize command_payload) [
    | none ↦ none
    | some (ok command) ↦ respond response (process_command_layer command now h od)
    | some (err _) ↦ respond response (abort (get_or command_payload 0 0 % 16) 0x05040001 h od)
  ]

  -- A request after the sequence layer.
  unfoldable pub after_sequence :
      List ℕ
      → SequenceLayerHeader
      → ℕ
      → ObjectDictionary S
      → Result SequenceLayerHeader PowerlinkError × SdoSequenceHandler
      → Response S
  unfolding without_command with_command
  after_sequence command_payload request now od (err e, h) = some (err e, h, od)
  after_sequence command_payload request now od (ok response, h) =
      if length command_payload == 0
      then without_command request response now h od
      else with_command command_payload response now h od

  unfoldable pub handle_request : List ℕ → ObjectDictionary S → ℕ → SdoSequenceHandler → Response S
  unfolding slice Sequence.deserialize process_sequence_layer after_sequence on_error_response
  handle_request request od now h =
      if ltb (length request) 4
      then some (err buffer_too_short, h, od)
      else (elim (slice 0 4 request) [
        | none ↦ none
        | some sequence_octets ↦ elim (Sequence.deserialize sequence_octets) [
          | err e ↦ some (err e, h, od)
          | ok header ↦ elim (slice 4 (length request) request) [
            | none ↦ none
            | some command_payload ↦
                if is_error_response header.receive_con
                then on_error_response header h od
                else after_sequence command_payload header now od (process_sequence_layer header h)
          ]
        ]
      ])
