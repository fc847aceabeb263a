-- ===== src/Sdo/Tests.antt =====
-- Runs of the SDO sequence layer and of an upload.
use powerlink_rs.Common.{
  ℕ, ◌%◌, ◌+◌, ◌≡◌, refl, true, false, none, some, List, [], ◌∷◌, length, drop, replicate, ok,
  arith,
}
use powerlink_rs.Od.Samples.{sample_od}
use powerlink_rs.Sdo.Sequence.{SequenceLayerHeader, connection_valid, valid, serialize, deserialize}
use powerlink_rs.Sdo.Sequence.RoundTrip.{deserialize-serialize}
use powerlink_rs.Sdo.Command.{SdoCommand, initiate, read_by_index}
use powerlink_rs.Sdo.Command.Codec
use powerlink_rs.Sdo.Command.RoundTrip.{deserialize-serialize_command}
use powerlink_rs.Sdo.Handler.{SdoSequenceHandler, established}
use powerlink_rs.Sdo.Handler.InOrder.{is_open, following, run, run-following}
use powerlink_rs.Sdo.Transfer.{SdoTransferState}
use powerlink_rs.Sdo.Transfer.Upload.{upload, upload_complete}

abbrev header_of : ℕ → SequenceLayerHeader
header_of n = record {
  receive_sequence_number = 5;
  receive_con = connection_valid;
  send_sequence_number = n;
  send_con = valid;
}

deserialize-serialize_example :
    ((serialize (header_of 63) (1 ∷ 2 ∷ 3 ∷ 4 ∷ 5 ∷ [])).0 ≡ ok 4)
    × (deserialize (serialize (header_of 63) (1 ∷ 2 ∷ 3 ∷ 4 ∷ 5 ∷ [])).1 ≡ ok (header_of 63))
deserialize-serialize_example =
    deserialize-serialize (header_of 63) (1 ∷ 2 ∷ 3 ∷ 4 ∷ 5 ∷ []) (omega arith) (omega arith)
      (omega arith)

abbrev first_segment : SdoCommand
first_segment = record {
  header = record {
    transaction_id = 9;
    is_response = true;
    is_aborted = false;
    segmentation = initiate;
    command_id = read_by_index;
    segment_size = 2;
  };
  data_size = some 70000;
  payload = 7 ∷ 8 ∷ [];
}

deserialize-serialize_command_example :
    ((Codec.serialize first_segment (replicate 15 1)).0 ≡ ok 14)
    × (Codec.deserialize (Codec.serialize first_segment (replicate 15 1)).1
        ≡ some (ok first_segment))
deserialize-serialize_command_example =
    deserialize-serialize_command first_segment (replicate 15 1)
      (record {
        fits = refl;
        small = omega arith;
        size = 70000;
        size_small = omega arith;
        has_size = refl;
      })
      (omega arith)

abbrev server : SdoSequenceHandler
server = record {
  state = established;
  send_sequence_number = 3;
  last_received_sequence_number = 62;
}

-- The next two frames with a duplicate and a frame from the future between them.
abbrev requests : List SequenceLayerHeader
requests = header_of 63 ∷ header_of 63 ∷ header_of 4 ∷ header_of 0 ∷ []

run-following_example :
    let (taken, h') = run requests server in
    (is_open h'.state ≡ true)
    × (taken ≡ following 62 (length taken))
    × (h'.send_sequence_number ≡ (3 + length taken) % 64)
run-following_example =
    run-following requests server (unfold is_open in refl) (omega arith) (omega arith)

abbrev transfer : SdoTransferState
transfer = record {
  transaction_id = 1;
  total_size = 3;
  data_buffer = 7 ∷ 8 ∷ 9 ∷ [];
  offset = 1;
  index = 0x1008;
  sub_index = 0;
  deadline_us = none;
  retransmissions_left = 0;
  last_sent_segment = none;
}

upload_complete_example :
    upload (sample_od 0) (10 ∷ []) transfer ≡ some (drop 1 (7 ∷ 8 ∷ 9 ∷ []), true)
upload_complete_example =
    upload_complete (sample_od 0) (10 ∷ []) transfer (record { sized = refl; inside = omega arith })
      (omega arith) (omega arith)
