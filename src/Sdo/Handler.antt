-- ===== src/Sdo/Handler.antt =====
-- crates/powerlink-rs/src/sdo/sequence_handler.rs: the sequence layer of the SDO server.
pub mod InOrder
use powerlink_rs.Common.{
  ℕ, ◌+◌, ◌%◌, ◌==◌, Bool, true, false, ◌&&◌, if◌then◌else◌, Option, none, some, Result, ok, err,
}
use powerlink_rs.Hal.{PowerlinkError, sdo_sequence_error}
use powerlink_rs.Sdo.Sequence.{
  no_connection, initialization, connection_valid, SendConnState, not_connected, initializing,
  valid, valid_ack_request, send_con_code, SequenceLayerHeader,
}
use powerlink_rs.Sdo.Transfer.{SdoTransferState}

-- `enum SdoServerState`
pub data SdoServerState : Type 0 where
  closed opening established : SdoServerState
  segmented_download segmented_upload : SdoTransferState → SdoServerState

-- `struct SdoSequenceHandler`, less the address of the client, which this layer does not read
pub record SdoSequenceHandler : Type 0 where
  pub state : SdoServerState
  pub send_sequence_number : ℕ
  pub last_received_sequence_number : ℕ

unfoldable pub new : SdoSequenceHandler
new = record { state = closed; send_sequence_number = 0; last_received_sequence_number = 63 }

-- `reset` sets the three fields to what `new` gives them.
unfoldable pub reset : SdoSequenceHandler → SdoSequenceHandler
reset h = record h { state = closed; send_sequence_number = 0; last_received_sequence_number = 63 }

-- `increment_send_seq`
unfoldable pub increment_send_seq : SdoSequenceHandler → SdoSequenceHandler
increment_send_seq h = record h { send_sequence_number = (h.send_sequence_number + 1) % 256 % 64 }

-- `==` on `SendConnState`
abbrev pub send_con_eq : SendConnState → SendConnState → Bool
unfolding send_con_code
send_con_eq a b = send_con_code a == send_con_code b

-- The arm for `Closed`
unfoldable pub on_closed :
    SequenceLayerHeader → SdoSequenceHandler → SequenceLayerHeader × SdoSequenceHandler
on_closed request h =
    if send_con_eq request.send_con initializing
    then (
      record {
        receive_con = initialization;
        receive_sequence_number = request.send_sequence_number;
        send_con = initializing;
        send_sequence_number = 0;
      },
      record {
        state = opening;
        send_sequence_number = 0;
        last_received_sequence_number = request.send_sequence_number;
      },
    )
    else (
      record {
        receive_con = no_connection;
        receive_sequence_number = request.send_sequence_number;
        send_con = not_connected;
        send_sequence_number = h.send_sequence_number;
      },
      h,
    )

-- The arm for `Opening`
unfoldable pub on_opening :
    SequenceLayerHeader
    → SdoSequenceHandler
    → Result SequenceLayerHeader PowerlinkError × SdoSequenceHandler
unfolding increment_send_seq
on_opening request h =
    if send_con_eq request.send_con valid
      && request.receive_sequence_number == h.send_sequence_number
    then (let h' = increment_send_seq h in
        (
          ok (record {
            receive_con = connection_valid;
            receive_sequence_number = request.send_sequence_number;
            send_con = valid;
            send_sequence_number = h'.send_sequence_number;
          }),
          record h' {
            state = established;
            last_received_sequence_number = request.send_sequence_number;
          },
        ))
    else (
      err (sdo_sequence_error "Invalid sequence state during SDO opening."),
      record h { state = closed },
    )

-- The state after an acknowledgement, as far as it is one of the segment that was sent.
unfoldable pub acknowledge : ℕ → ℕ → SdoServerState → SdoServerState
acknowledge receive_number sent_number (segmented_upload t) =
    if receive_number == sent_number
    then segmented_upload
        (record t { deadline_us = none; last_sent_segment = none; retransmissions_left = 0 })
    else segmented_upload t
acknowledge receive_number sent_number closed = closed
acknowledge receive_number sent_number opening = opening
acknowledge receive_number sent_number established = established
acknowledge receive_number sent_number (segmented_download t) = segmented_download t

-- `ConnectionValidAckRequest` before the first segment of an upload
unfoldable pub send_con_of : SdoServerState → SendConnState
send_con_of (segmented_upload t) = if t.offset == 0 then valid_ack_request else valid
send_con_of _ = valid

-- The arm for the three states of an open connection
unfoldable pub on_open :
    SequenceLayerHeader
    → SdoSequenceHandler
    → Result SequenceLayerHeader PowerlinkError × SdoSequenceHandler
unfolding acknowledge send_con_of increment_send_seq
on_open request h =
    let expected_seq = (h.last_received_sequence_number + 1) % 256 % 64 in
    let h' = increment_send_seq h in
    let state = acknowledge request.receive_sequence_number h.send_sequence_number h.state in
    if request.send_sequence_number == h.last_received_sequence_number
    then (
      ok (record {
        receive_con = connection_valid;
        receive_sequence_number = h.last_received_sequence_number;
        send_con = valid;
        send_sequence_number = h.send_sequence_number;
      }),
      h,
    )
    else (if request.send_sequence_number == expected_seq
        then (
          ok (record {
            receive_con = connection_valid;
            receive_sequence_number = request.send_sequence_number;
            send_con = send_con_of state;
            send_sequence_number = h'.send_sequence_number;
          }),
          record h' { state = state; last_received_sequence_number = request.send_sequence_number },
        )
        else (err (sdo_sequence_error "SDO sequence number mismatch."), h))

-- `process_sequence_layer`
unfoldable pub process_sequence_layer :
    SequenceLayerHeader
    → SdoSequenceHandler
    → Result SequenceLayerHeader PowerlinkError × SdoSequenceHandler
unfolding on_closed on_opening on_open
process_sequence_layer request h = elim h.state [
  | closed ↦ let (response, h') = on_closed request h in (ok response, h')
  | opening ↦ on_opening request h
  | established ↦ on_open request h
  | segmented_download _ ↦ on_open request h
  | segmented_upload _ ↦ on_open request h
]
