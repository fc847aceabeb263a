-- ===== src/Sdo/Server/Tests.antt =====
-- Runs of the SDO server and of a download.
use powerlink_rs.Common.{ℕ, ◌≡◌, refl, true, false, none, some, List, [], ◌∷◌, arith}
use powerlink_rs.Common.BTree
use powerlink_rs.Od.Samples.{sample_od, memory}
use powerlink_rs.Od.Value.{unsigned32, same_type}
use powerlink_rs.Od.Dictionary.{read}
use powerlink_rs.Od.Bytes.{serialize}
use powerlink_rs.Od.Bytes.RoundTrip.{IsValue}
use powerlink_rs.Od.Write.{write}
use powerlink_rs.Sdo.Command.{Segmentation, segment, complete, SdoCommand, write_by_index}
use powerlink_rs.Sdo.Transfer.{SdoTransferState}
use powerlink_rs.Sdo.Handler.{new}
use powerlink_rs.Sdo.Download.{coded, finished}
use powerlink_rs.Sdo.Download.Segments.{download, download-write}
use powerlink_rs.Common.{inl}
use powerlink_rs.Od.Defaults.{cn_default, insert_all}
use powerlink_rs.Od.Dictionary.{insert}
use powerlink_rs.Sdo.Download.{perform_od_write}
use powerlink_rs.Sdo.Download.Refused.{perform_od_write-refused}
use powerlink_rs.Common.{err}
use powerlink_rs.Sdo.Server.{SdoCommandHandler, refuse}
use powerlink_rs.Sdo.Server.Requests.{handle_request}
use powerlink_rs.Sdo.Server.Sound.{Reachable}
use powerlink_rs.Sdo.Server.NoPanic.{IsServed, handle_request-IsServed}
use powerlink_rs.Common.{ok}
use powerlink_rs.Od.Dictionary.{read_u32}
use powerlink_rs.Sdo.Sequence.{valid_ack_request, not_connected}
use powerlink_rs.Sdo.Transfer.{deadline_from}
use powerlink_rs.Sdo.Handler.{reset}
use powerlink_rs.Sdo.Handlers.{abort_command}
use powerlink_rs.Sdo.Server.Tick.{own_header}
use powerlink_rs.Sdo.Server.Retries.{
  waiting, uploading, ticks, early, again, given_up, ticks-retries,
}
use powerlink_rs.Sdo.Server.Life.{received, elapsed, live, IsLive, live_from_new}

abbrev segment_of : Segmentation → List ℕ → SdoCommand
segment_of s payload = record {
  header = record {
    transaction_id = 3;
    is_response = false;
    is_aborted = false;
    segmentation = s;
    command_id = write_by_index;
    segment_size = 2;
  };
  data_size = none;
  payload = payload;
}

abbrev empty_transfer : SdoTransferState
empty_transfer = record {
  transaction_id = 3;
  total_size = 4;
  data_buffer = [];
  offset = 0;
  index = 0x1003;
  sub_index = 2;
  deadline_us = none;
  retransmissions_left = 0;
  last_sent_segment = none;
}

download-write_example :
    download memory
      (λ b. true)
      (segment_of segment (13 ∷ 12 ∷ []) ∷ [])
      (segment_of complete (11 ∷ 10 ∷ []))
      500
      empty_transfer
      (sample_od 0)
    ≡ some (finished (coded (write memory (sample_od 0) 0x1003 2 (unsigned32 0x0A0B0C0D))))
unfolding serialize read same_type IsValue BTree.get
download-write_example =
    download-write memory (λ b. true) (segment_of segment (13 ∷ 12 ∷ []) ∷ [])
      (segment_of complete (11 ∷ 10 ∷ [])) 500 empty_transfer (sample_od 0) (unsigned32 0x0A0B0C0D)
      (unsigned32 8) (refl, tt) refl refl refl refl refl (omega arith)

-- "save" to the first element of 0x1010.
abbrev save_transfer : SdoTransferState
save_transfer = record {
  transaction_id = 3;
  total_size = 4;
  data_buffer = 0x73 ∷ 0x61 ∷ 0x76 ∷ 0x65 ∷ [];
  offset = 4;
  index = 0x1010;
  sub_index = 1;
  deadline_us = none;
  retransmissions_left = 0;
  last_sent_segment = none;
}

perform_od_write-refused_example :
    perform_od_write memory (λ b. true) save_transfer (cn_default 5)
    ≡ some (err 0x08000020, cn_default 5)
unfolding read BTree.get cn_default insert_all insert BTree.insert
perform_od_write-refused_example =
    perform_od_write-refused memory (λ b. true) save_transfer (cn_default 5) 0 (inl refl) refl

-- An application that answers no command of its own.
abbrev refusing : SdoCommandHandler ℕ
refusing = record {
  handle_write_all_by_index = refuse;
  handle_write_multiple_params = refuse;
  handle_file_read = refuse;
  handle_file_write = refuse;
}

-- The client opens the connection, acknowledges, and asks for element 2 of 0x1003.
abbrev opening_request : List ℕ
opening_request = 0 ∷ 1 ∷ 0 ∷ 0 ∷ []

abbrev read_request : List ℕ
read_request = 2 ∷ 6 ∷ 0 ∷ 0 ∷ 0 ∷ 3 ∷ 2 ∷ 4 ∷ 0 ∷ 0 ∷ 0 ∷ 0 ∷ 3 ∷ 16 ∷ 2 ∷ 0 ∷ []

handle_request-IsServed_example :
    IsServed
      (handle_request memory (λ b. true) (λ s. []) refusing opening_request (sample_od 0) 100 new)
unfolding Reachable new
handle_request-IsServed_example =
    handle_request-IsServed memory (λ b. true) (λ s. []) refusing opening_request (sample_od 0) 100
      new tt

live_from_new_example : IsLive (
    live memory
      (λ b. true)
      (λ s. [])
      (received refusing opening_request 100 (sample_od 0)
        ∷ elapsed 200 (sample_od 0)
        ∷ received refusing read_request 300 (sample_od 0)
        ∷ [])
      new)
live_from_new_example =
    live_from_new memory (λ b. true) (λ s. [])
      (received refusing opening_request 100 (sample_od 0)
        ∷ elapsed 200 (sample_od 0)
        ∷ received refusing read_request 300 (sample_od 0)
        ∷ [])

-- Two retransmissions with a timeout of 15 seconds, since `sample_od` has no object 0x1300.
ticks-retries_example :
    ticks
      (sample_od 0)
      (100 ∷ 500 ∷ 600 ∷ 15000500 ∷ 40000000 ∷ [])
      (uploading new (waiting empty_transfer (segment_of complete (1 ∷ [])) 500 2))
    ≡ (
      ok (own_header valid_ack_request new, segment_of complete (1 ∷ []))
          ∷ ok (own_header valid_ack_request new, segment_of complete (1 ∷ []))
          ∷ ok (own_header not_connected (reset new), abort_command 3 0x05040000)
          ∷ [],
      reset new,
    )
unfolding deadline_from read_u32 read BTree.get
ticks-retries_example =
    ticks-retries (sample_od 0) new empty_transfer (segment_of complete (1 ∷ [])) 500 2
      (100 ∷ 500 ∷ 600 ∷ 15000500 ∷ 40000000 ∷ [])
      (early (omega arith)
        (again (omega arith) (early (omega arith) (again (omega arith) (given_up (omega arith))))))
