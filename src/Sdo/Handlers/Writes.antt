-- ===== src/Sdo/Handlers/Writes.antt =====
-- `handle_write_by_index` of crates/powerlink-rs/src/sdo/handlers.rs.
use powerlink_rs.Common.{
  ℕ, Bool, true, false, not, ◌==◌, if◌then◌else◌, none, some, List, [], length, ok, err,
}
use powerlink_rs.Od.Dictionary.{StorageBackend, ObjectDictionary}
use powerlink_rs.Sdo.Command.{
  expedited, initiate, segment, complete, CommandLayerHeader, SdoCommand,
}
use powerlink_rs.Sdo.Command.Codec.{size_or_zero}
use powerlink_rs.Sdo.Transfer.{SdoTransferState, deadline_from}
use powerlink_rs.Sdo.Download.{perform_od_write, process_download_segment}
use powerlink_rs.Sdo.Handler.{
  SdoSequenceHandler, established, closed, opening, segmented_download, segmented_upload,
}
use powerlink_rs.Sdo.Requests.{WriteByIndexRequest, write_by_index_from_payload}
use powerlink_rs.Sdo.Handlers.{answer, payload_abort_code, new_download, Reply, abort}

module _ {S : Type 0} (backend : StorageBackend S) (is_utf8 : List ℕ → Bool) where
  -- An expedited write.
  unfoldable pub write_expedited :
      WriteByIndexRequest
      → ℕ
      → CommandLayerHeader
      → SdoSequenceHandler
      → ObjectDictionary S
      → Reply S
  unfolding perform_od_write abort
  write_expedited req tid response_header h od =
      elim (perform_od_write backend is_utf8 (new_download tid (length req.content) req none) od) [
        | none ↦ none
        | some r ↦ elim r.0 [
          | ok _ ↦ some (answer response_header [], h, r.1)
          | err code ↦ abort tid code h r.1
        ]
      ]

  -- The first segment of a download of an announced size.
  unfoldable pub start_download :
      WriteByIndexRequest
      → ℕ
      → ℕ
      → CommandLayerHeader
      → ℕ
      → SdoSequenceHandler
      → ObjectDictionary S
      → Reply S
  unfolding abort deadline_from
  start_download req total_size tid response_header current_time_us h od =
      let deadline = deadline_from od current_time_us in
      if total_size == 0
      then abort tid 0x06070010 h od
      else some (
        answer response_header [],
        record h { state = segmented_download (new_download tid total_size req (some deadline)) },
        od,
      )

  -- A later segment; an abort resets the connection whatever state was set before it.
  unfoldable pub continue_download :
      SdoTransferState
      → SdoCommand
      → CommandLayerHeader
      → ℕ
      → SdoSequenceHandler
      → ObjectDictionary S
      → Reply S
  unfolding process_download_segment abort
  continue_download t command response_header current_time_us h od =
      let tid = command.header.transaction_id in
      if not (t.transaction_id == tid)
      then abort tid 0x08000000 h od
      else (elim (process_download_segment backend is_utf8 command current_time_us t od) [
        | none ↦ none
        | some r ↦ elim r.0 [
          | ok true ↦ some (answer response_header [], record h { state = established }, r.2)
          | ok false ↦
              some (answer response_header [], record h { state = segmented_download r.1 }, r.2)
          | err code ↦ abort tid code h r.2
        ]
      ])

  unfoldable pub write_segment :
      SdoCommand → CommandLayerHeader → ℕ → SdoSequenceHandler → ObjectDictionary S → Reply S
  unfolding continue_download abort
  write_segment command response_header current_time_us h od = elim h.state [
    | segmented_download t ↦ continue_download t command response_header current_time_us h od
    | closed ↦ abort command.header.transaction_id 0x05040003 h od
    | opening ↦ abort command.header.transaction_id 0x05040003 h od
    | established ↦ abort command.header.transaction_id 0x05040003 h od
    | segmented_upload _ ↦ abort command.header.transaction_id 0x05040003 h od
  ]

  unfoldable pub handle_write_by_index :
      SdoCommand → CommandLayerHeader → ℕ → SdoSequenceHandler → ObjectDictionary S → Reply S
  unfolding write_by_index_from_payload write_expedited start_download write_segment abort
      payload_abort_code
  handle_write_by_index command response_header current_time_us h od =
      let tid = command.header.transaction_id in
      elim command.header.segmentation [
        | expedited ↦ elim (write_by_index_from_payload command.payload) [
          | none ↦ none
          | some (ok req) ↦ write_expedited req tid response_header h od
          | some (err e) ↦ abort tid (payload_abort_code e) h od
        ]
        | initiate ↦ elim (write_by_index_from_payload command.payload) [
          | none ↦ none
          | some (ok req) ↦
              start_download req (size_or_zero command.data_size) tid response_header
                current_time_us h od
          | some (err e) ↦ abort tid (payload_abort_code e) h od
        ]
        | segment ↦ write_segment command response_header current_time_us h od
        | complete ↦ write_segment command response_header current_time_us h od
      ]
