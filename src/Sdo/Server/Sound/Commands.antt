-- ===== src/Sdo/Server/Sound/Commands.antt =====
-- Every command leaves a reachable state.
use Prim.Native.String.{String}
use powerlink_rs.Common.{
  ℕ, ◌==◌, ◌&&◌, ◌||◌, refl, Bool, true, false, not, if◌then◌else◌, Option, none, some, arith, List,
  [], inl, inr, Bool-cases,
}
use powerlink_rs.Od.Dictionary.{StorageBackend, ObjectDictionary}
use powerlink_rs.Sdo.Command
use powerlink_rs.Sdo.Command.{
  CommandId, nil, write_by_index, read_by_index, write_all_by_index, read_all_by_index,
  write_by_name, read_by_name, file_write, file_read, write_multiple_param_by_index,
  read_multiple_param_by_index, max_segment_size, SdoCommand,
}
use powerlink_rs.Sdo.Transfer.{SdoTransferState}
use powerlink_rs.Sdo.Transfer.Upload.{IsUpload, get_next-IsUpload}
use powerlink_rs.Sdo.Handler.{SdoSequenceHandler, established, segmented_upload}
use powerlink_rs.Sdo.Handlers.{answer, Reply, default_header, handle_max_segment_size}
use powerlink_rs.Sdo.Server.{
  SdoCommandHandler, after_command, closing_answer, during_upload, is_nil,
}
use powerlink_rs.Sdo.Server.Parsers.{Returns, max_segment_size-Returns}
use powerlink_rs.Sdo.Server.Requests.{dispatch, outside_upload, process_command_layer}
use powerlink_rs.Sdo.Server.Sound.{
  Reachable, IsFine, after_command-Reachable, abort-IsFine, handle_read_by_index-IsFine,
  handle_read_all_by_index-IsFine, handle_read_multiple_params-IsFine,
}
use powerlink_rs.Sdo.Server.Sound.Writes.{
  Reachable-cases, handle_write_by_index-IsFine, handle_write_by_name-IsFine,
  handle_read_by_name-IsFine,
}

next_state-Reachable :
    (is_last : Bool) (t : SdoTransferState)
    → IsUpload t
    → Reachable (if is_last then established else segmented_upload t)
unfolding Reachable
next_state-Reachable true t v = tt
next_state-Reachable false t v = v

module _ {S : Type 0} where
  -- A command in the middle of a sound upload.
  during_upload-IsFine :
      (t : SdoTransferState) (command : SdoCommand) (now : ℕ) (h : SdoSequenceHandler)
      (od : ObjectDictionary S)
      → IsUpload t
      → IsFine (during_upload t command now h od)
  unfolding during_upload IsFine Reachable after_command closing_answer
  during_upload-IsFine t command now h od u =
      let tid = command.header.transaction_id in
      let (response, is_last, t', e, sound) = get_next-IsUpload od now t u in
      elim (Bool-cases ((t.transaction_id == tid) && not command.header.is_aborted)) [
        | inl q ↦
            elim (Bool-cases (is_nil command.header.command_id || command.header.is_response)) [
              | inl r ↦
                  rw (during_upload, q, r, e)
                    (after_command-Reachable response _ (next_state-Reachable is_last t' sound))
              | inr r ↦ rw (during_upload, q, r) (abort-IsFine tid 0x05040003 h od)
            ]
        | inr q ↦ elim (Bool-cases command.header.is_aborted) [
          | inl r ↦ rw (during_upload, q, r) tt
          | inr r ↦ rw (during_upload, q, r) (abort-IsFine tid 0x08000000 h od)
        ]
      ]

either-IsFine :
    {S : Type 0} (b : Bool) (x y : Reply S) → IsFine x → IsFine y → IsFine (if b then x else y)
either-IsFine true x y v w = v
either-IsFine false x y v w = w

-- A command that answers and leaves the handler alone.
answered-IsFine :
    {S : Type 0} (r : Option SdoCommand) (h : SdoSequenceHandler) (od : ObjectDictionary S)
    → Returns r
    → Reachable h.state
    → IsFine (elim r [ none ↦ none | some response ↦ some (response, h, od) ])
unfolding Reachable IsFine after_command
answered-IsFine none h od w v = absurd (ground (arith, w))
answered-IsFine (some response) h od w v = after_command-Reachable response h.state v

module _ {S : Type 0} (backend : StorageBackend S) (is_utf8 : List ℕ → Bool)
    (text_bytes : String → List ℕ) (application : SdoCommandHandler S) where
  -- A command by its identifier.
  dispatch-IsFine :
      (id : CommandId) (command : SdoCommand) (now : ℕ) (h : SdoSequenceHandler)
      (od : ObjectDictionary S)
      → Reachable h.state
      → IsFine (dispatch backend is_utf8 text_bytes application id command now h od)
  unfolding dispatch default_header IsFine
  dispatch-IsFine nil command now h od v =
      after_command-Reachable (answer (default_header command.header.transaction_id) []) h.state v
  dispatch-IsFine write_by_index command now h od v =
      handle_write_by_index-IsFine backend is_utf8 (default_header command.header.transaction_id)
        now h od v command refl refl
  dispatch-IsFine read_by_index command now h od v =
      handle_read_by_index-IsFine command (default_header command.header.transaction_id) now h od v
  dispatch-IsFine write_all_by_index command now h od v =
      after_command-Reachable (application.handle_write_all_by_index command od).0 h.state v
  dispatch-IsFine read_all_by_index command now h od v =
      handle_read_all_by_index-IsFine command (default_header command.header.transaction_id) now h
        od v
  dispatch-IsFine write_by_name command now h od v =
      handle_write_by_name-IsFine backend is_utf8 text_bytes now h od
        (default_header command.header.transaction_id) command v refl refl
  dispatch-IsFine read_by_name command now h od v =
      handle_read_by_name-IsFine backend is_utf8 text_bytes now h od
        (default_header command.header.transaction_id) command v
  dispatch-IsFine file_write command now h od v =
      after_command-Reachable (application.handle_file_write command od).0 h.state v
  dispatch-IsFine file_read command now h od v =
      after_command-Reachable (application.handle_file_read command od).0 h.state v
  dispatch-IsFine write_multiple_param_by_index command now h od v =
      after_command-Reachable (application.handle_write_multiple_params command od).0 h.state v
  dispatch-IsFine read_multiple_param_by_index command now h od v =
      handle_read_multiple_params-IsFine command (default_header command.header.transaction_id) now
        h od v
  dispatch-IsFine Command.abort command now h od v =
      abort-IsFine command.header.transaction_id 0x05040001 h od
  dispatch-IsFine max_segment_size command now h od v =
      answered-IsFine
        (handle_max_segment_size command (default_header command.header.transaction_id)) h od
        (max_segment_size-Returns command (default_header command.header.transaction_id)) v

  outside_upload-IsFine :
      (command : SdoCommand) (now : ℕ) (h : SdoSequenceHandler) (od : ObjectDictionary S)
      → Reachable h.state
      → IsFine (outside_upload backend is_utf8 text_bytes application command now h od)
  unfolding outside_upload IsFine Reachable after_command closing_answer
  outside_upload-IsFine command now h od v =
      either-IsFine _ (some (closing_answer, record h { state = established }, od)) _ tt
        (dispatch-IsFine command.header.command_id command now h od v)

  pub process_command_layer-IsFine :
      (command : SdoCommand) (now : ℕ) (h : SdoSequenceHandler) (od : ObjectDictionary S)
      → Reachable h.state
      → IsFine (process_command_layer backend is_utf8 text_bytes application command now h od)
  unfolding process_command_layer
  process_command_layer-IsFine command now h od v = elim (Reachable-cases h.state v) [
    | inl q ↦ rw (process_command_layer, q) (outside_upload-IsFine command now h od v)
    | inr (inl q) ↦ rw (process_command_layer, q) (outside_upload-IsFine command now h od v)
    | inr (inr (inl q)) ↦ rw (process_command_layer, q) (outside_upload-IsFine command now h od v)
    | inr (inr (inr (t, q, u))) ↦
        rw (process_command_layer, q) (during_upload-IsFine t command now h od u)
  ]
