-- ===== src/Sdo/Server/Tick.antt =====
-- `tick` of crates/powerlink-rs/src/sdo/sequence_handler.rs: the timeouts of a transfer.
use powerlink_rs.Common.{
  ℕ, ◌-◌, Bool, false, leb, ltb, if◌then◌else◌, Option, none, some, Result, ok, err,
}
use powerlink_rs.Hal.{PowerlinkError, internal_error}
use powerlink_rs.Od.Dictionary.{ObjectDictionary}
use powerlink_rs.Sdo.Sequence.{
  connection_valid, not_connected, SendConnState, valid_ack_request, SequenceLayerHeader,
}
use powerlink_rs.Sdo.Command.{SdoCommand}
use powerlink_rs.Sdo.Transfer.{SdoTransferState, deadline_from}
use powerlink_rs.Sdo.Handler.{
  SdoSequenceHandler, closed, opening, established, segmented_download, segmented_upload, reset,
}
use powerlink_rs.Sdo.Handlers.{abort_command}

-- Whether a deadline has passed.
abbrev pub is_due : Option ℕ → ℕ → Bool
is_due none now = false
is_due (some deadline) now = leb deadline now

-- The header of a frame that the server sends of its own.
abbrev pub own_header : SendConnState → SdoSequenceHandler → SequenceLayerHeader
own_header send_con h = record {
  receive_sequence_number = h.last_received_sequence_number;
  receive_con = connection_valid;
  send_sequence_number = h.send_sequence_number;
  send_con = send_con;
}

-- The abort of a transfer that took too long; the numbers in the header are those after the reset.
unfoldable pub time_out :
    SdoTransferState
    → SdoSequenceHandler
    → Result (Option (SequenceLayerHeader × SdoCommand)) PowerlinkError × SdoSequenceHandler
unfolding abort_command reset
time_out t h =
    let h' = reset h in
    (ok (some (own_header not_connected h', abort_command t.transaction_id 0x05040000)), h')

module _ {S : Type 0} where
  -- An upload whose segment was not acknowledged: it is sent again, as often as it may be.
  unfoldable pub tick_upload :
      ℕ
      → ObjectDictionary S
      → SdoTransferState
      → SdoSequenceHandler
      → Result (Option (SequenceLayerHeader × SdoCommand)) PowerlinkError × SdoSequenceHandler
  unfolding time_out deadline_from
  tick_upload current_time_us od t h =
      let again = record t {
        retransmissions_left = t.retransmissions_left - 1;
        deadline_us = some (deadline_from od current_time_us);
      } in
      let h' = record h { state = segmented_upload again } in
      if ltb 0 t.retransmissions_left
      then (elim t.last_sent_segment [
        | some last_command ↦ (ok (some (own_header valid_ack_request h, last_command)), h')
        | none ↦ (err (internal_error "Missing last sent segment during retransmission"), h')
      ])
      else time_out t h

  unfoldable pub tick :
      ℕ
      → ObjectDictionary S
      → SdoSequenceHandler
      → Result (Option (SequenceLayerHeader × SdoCommand)) PowerlinkError × SdoSequenceHandler
  unfolding tick_upload time_out
  tick current_time_us od h = elim h.state [
    | segmented_upload t ↦
        if is_due t.deadline_us current_time_us
        then tick_upload current_time_us od t h
        else (ok none, h)
    | segmented_download t ↦
        if is_due t.deadline_us current_time_us then time_out t h else (ok none, h)
    | closed ↦ (ok none, h)
    | opening ↦ (ok none, h)
    | established ↦ (ok none, h)
  ]
