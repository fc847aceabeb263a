-- ===== src/Sdo/Server.antt =====
-- crates/powerlink-rs/src/sdo/sequence_handler.rs: the command layer of the SDO server.
-- An application answers some commands itself: `SdoCommandHandler` is its interface.
pub mod Requests
pub mod Tick
pub mod Parsers
pub mod Sound
pub mod NoPanic
pub mod Retries
pub mod Life
pub mod Tests
use powerlink_rs.Common.{
  ℕ, Bool, true, false, ◌&&◌, ◌||◌, not, ◌==◌, if◌then◌else◌, Option, none, some, [], Result, ok,
  err,
}
use powerlink_rs.Hal.{PowerlinkError, sdo_invalid_command_payload}
use powerlink_rs.Od.Dictionary.{ObjectDictionary}
use powerlink_rs.Sdo.Sequence.{
  ReceiveConnState, error_response, not_connected, valid, SequenceLayerHeader,
}
use powerlink_rs.Sdo.Sequence
use powerlink_rs.Sdo.Command.{CommandId, nil, expedited, complete, SdoCommand}
use powerlink_rs.Sdo.Command.Codec
use powerlink_rs.Sdo.Transfer.{SdoTransferState, get_next_upload_segment}
use powerlink_rs.Sdo.Handler.{
  SdoSequenceHandler, SdoServerState, closed, opening, established, segmented_download,
  segmented_upload, send_con_eq,
}
use powerlink_rs.Sdo.Handlers.{default_header, answer, abort_command, Reply, abort}

-- `trait SdoCommandHandler`: the answers of an application in the state that it is in at a call. A
-- method may change that state; the next call then comes with another record.
pub record SdoCommandHandler (S : Type 0) : Type 0 where
  pub handle_write_all_by_index : SdoCommand → ObjectDictionary S → SdoCommand × ObjectDictionary S
  pub handle_write_multiple_params :
      SdoCommand → ObjectDictionary S → SdoCommand × ObjectDictionary S
  pub handle_file_read : SdoCommand → ObjectDictionary S → SdoCommand × ObjectDictionary S
  pub handle_file_write : SdoCommand → ObjectDictionary S → SdoCommand × ObjectDictionary S

-- The answer to an abort of the client: it makes the caller close the connection.
unfoldable pub closing_answer : SdoCommand
unfolding default_header
closing_answer = answer (record (default_header 0) { is_response = false; is_aborted = true }) []

-- The command with all the defaults.
abbrev pub nil_command : SdoCommand
nil_command =
    answer
      (record {
        transaction_id = 0;
        is_response = false;
        is_aborted = false;
        segmentation = expedited;
        command_id = nil;
        segment_size = 0;
      })
      []

abbrev pub is_nil : CommandId → Bool
is_nil nil = true
is_nil _ = false

-- What an open server gives for a request: a response or an error, the connection, the dictionary.
abbrev pub Response : Type 0 → Type 0
Response S = Option (
    Result (SequenceLayerHeader × SdoCommand) PowerlinkError
    × SdoSequenceHandler
    × ObjectDictionary S)

-- The state that `handle_request` leaves after a command.
unfoldable pub after_command : SdoCommand → SdoServerState → SdoServerState
after_command command opening = opening
after_command command state =
    if command.header.is_aborted
    then closed
    else (elim command.header.segmentation [ expedited ↦ closed | complete ↦ closed | _ ↦ state ])

-- A request for retransmission: `some` if there is a segment to send again.
unfoldable pub last_segment : SdoServerState → Option SdoCommand
last_segment (segmented_upload t) = t.last_sent_segment
last_segment closed = none
last_segment opening = none
last_segment established = none
last_segment (segmented_download _) = none

abbrev pub is_error_response : ReceiveConnState → Bool
is_error_response error_response = true
is_error_response _ = false

module _ {S : Type 0} where
  -- `DefaultSdoHandler`: every command is refused.
  unfoldable pub refuse : SdoCommand → ObjectDictionary S → SdoCommand × ObjectDictionary S
  unfolding abort_command
  refuse command od = (abort_command command.header.transaction_id 0x06010001, od)

  abbrev pub handled : SdoSequenceHandler → SdoCommand × ObjectDictionary S → Reply S
  handled h (command, od) = some (command, h, od)

  -- A command that comes during an upload. The state after the last segment is `Established`.
  unfoldable pub during_upload :
      SdoTransferState → SdoCommand → ℕ → SdoSequenceHandler → ObjectDictionary S → Reply S
  unfolding get_next_upload_segment abort closing_answer
  during_upload t command current_time_us h od =
      let tid = command.header.transaction_id in
      if (t.transaction_id == tid) && not command.header.is_aborted
      then (if is_nil command.header.command_id || command.header.is_response
          then (elim (get_next_upload_segment od current_time_us t) [
            | none ↦ none
            | some (response, is_last, t') ↦ some (
              response,
              record h { state = if is_last then established else segmented_upload t' },
              od,
            )
          ])
          else abort tid 0x05040003 h od)
      else if command.header.is_aborted
      then some (closing_answer, record h { state = established }, od)
      else abort tid 0x08000000 h od

  -- An upload goes on after an acknowledgement without a command.
  unfoldable pub acknowledge_upload :
      SdoTransferState
      → SequenceLayerHeader
      → ℕ
      → SdoSequenceHandler
      → ObjectDictionary S
      → Response S
  unfolding get_next_upload_segment
  acknowledge_upload t response current_time_us h od =
      elim (get_next_upload_segment od current_time_us t) [
        | none ↦ none
        | some (command, is_last, t') ↦ some (
          ok (
            record response { receive_sequence_number = h.last_received_sequence_number },
            command,
          ),
          record h { state = if is_last then closed else segmented_upload t' },
          od,
        )
      ]

  -- The answer without a command: an established connection that is only acknowledged is closed.
  unfoldable pub acknowledge_only :
      Bool → SequenceLayerHeader → SdoSequenceHandler → ObjectDictionary S → Response S
  unfolding default_header
  acknowledge_only closes response h od = some (
    ok (
      record response { receive_sequence_number = h.last_received_sequence_number },
      answer (default_header 0) [],
    ),
    if closes then record h { state = closed } else h,
    od,
  )

  -- A request without a command, after the sequence layer.
  unfoldable pub without_command :
      SequenceLayerHeader
      → SequenceLayerHeader
      → ℕ
      → SdoSequenceHandler
      → ObjectDictionary S
      → Response S
  unfolding acknowledge_upload acknowledge_only
  without_command request response current_time_us h od =
      let is_ack = send_con_eq request.send_con valid in
      elim h.state [
        | opening ↦ acknowledge_only false response h od
        | segmented_upload t ↦
            if is_ack
            then acknowledge_upload t response current_time_us h od
            else some (err sdo_invalid_command_payload, h, od)
        | established ↦
            if is_ack
            then acknowledge_only true response h od
            else some (err sdo_invalid_command_payload, h, od)
        | closed ↦
            if is_ack
            then acknowledge_only false response h od
            else some (err sdo_invalid_command_payload, h, od)
        | segmented_download _ ↦
            if is_ack
            then acknowledge_only false response h od
            else some (err sdo_invalid_command_payload, h, od)
      ]

  -- The response around the answer to a command.
  unfoldable pub respond : SequenceLayerHeader → Reply S → Response S
  unfolding after_command
  respond response none = none
  respond response (some (command, h, od)) = some (
    ok (
      record response {
        receive_sequence_number = h.last_received_sequence_number;
        send_con = if command.header.is_aborted then not_connected else response.send_con;
      },
      command,
    ),
    record h { state = after_command command h.state },
    od,
  )

  -- The empty command after the sequence layer.
  abbrev pub acknowledged :
      ObjectDictionary S
      → Result SequenceLayerHeader PowerlinkError × SdoSequenceHandler
      → Response S
  acknowledged od (err e, h) = some (err e, h, od)
  acknowledged od (ok response, h) = some (ok (response, nil_command), h, od)
