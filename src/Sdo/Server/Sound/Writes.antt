-- ===== src/Sdo/Server/Sound/Writes.antt =====
-- Commands that write leave a reachable state.
use Prim.Native.String.{String}
use powerlink_rs.Common.{
  ℕ, ◌%◌, ◌++◌, ◌≡◌, ◌==◌, refl, Bool, false, none, some, List, [], ◌∷◌, length, ◌⊎◌, inl, inr,
  Result-cases, Option-cases, Bool-cases,
}
use powerlink_rs.Common.Bytes.{le_bytes2}
use powerlink_rs.Od.Dictionary.{StorageBackend, ObjectDictionary}
use powerlink_rs.Od.Names.{find_by_name}
use powerlink_rs.Sdo.Command.{expedited, CommandLayerHeader, SdoCommand}
use powerlink_rs.Sdo.Command.Codec.{size_or_zero}
use powerlink_rs.Sdo.Transfer.{SdoTransferState}
use powerlink_rs.Sdo.Transfer.Upload.{IsUpload}
use powerlink_rs.Sdo.Handler.{
  SdoSequenceHandler, SdoServerState, closed, opening, established, segmented_download,
  segmented_upload,
}
use powerlink_rs.Sdo.Requests.{WriteByIndexRequest}
use powerlink_rs.Sdo.Handlers.{answer, new_download, payload_abort_code}
use powerlink_rs.Sdo.Handlers.Writes.{
  write_expedited, start_download, write_segment, handle_write_by_index,
}
use powerlink_rs.Sdo.Handlers.Named.{handle_read_by_name, handle_write_by_name, by_index}
use powerlink_rs.Sdo.Server.{after_command}
use powerlink_rs.Sdo.Server.Parsers.{
  read_by_name-Returns, write_by_name-Returns, write_by_index-Returns,
}
use powerlink_rs.Sdo.Server.Parsers.Decoders.{Segmentation-cases, perform_od_write-Returns}
use powerlink_rs.Sdo.Server.Sound.{
  Reachable, IsFine, after_command-Reachable, abort-IsFine, handle_read_by_index-IsFine,
}

-- The reachable states, with the equation that says which.
pub Reachable-cases :
    (s : SdoServerState)
    → Reachable s
    → (s ≡ closed)
      ⊎ ((s ≡ opening)
          ⊎ ((s ≡ established) ⊎ ((t : SdoTransferState) × (s ≡ segmented_upload t) × IsUpload t)))
unfolding Reachable
Reachable-cases closed v = inl refl
Reachable-cases opening v = inr (inl refl)
Reachable-cases established v = inr (inr (inl refl))
Reachable-cases (segmented_upload t) v = inr (inr (inr (t, refl, v)))
Reachable-cases (segmented_download t) v = absurd v

module _ {S : Type 0} (backend : StorageBackend S) (is_utf8 : List ℕ → Bool)
    (header : CommandLayerHeader) (now : ℕ) (h : SdoSequenceHandler) (od : ObjectDictionary S)
    (v : Reachable h.state) where
  answer-IsFine :
      (command : SdoCommand) (od' : ObjectDictionary S) → IsFine (some (command, h, od'))
  unfolding IsFine
  answer-IsFine command od' = after_command-Reachable command h.state v

  write_expedited-IsFine :
      (req : WriteByIndexRequest) (tid : ℕ)
      → IsFine (write_expedited backend is_utf8 req tid header h od)
  unfolding write_expedited
  write_expedited-IsFine req tid =
      let (result, p) =
        perform_od_write-Returns backend is_utf8 (new_download tid (length req.content) req none)
          od in
      elim (Result-cases result.0) [
        | inl (u, q) ↦ rw (write_expedited, p, q) (answer-IsFine (answer header []) _)
        | inr (code, q) ↦ rw (write_expedited, p, q) (abort-IsFine tid code h _)
      ]

  -- The answer to the first segment is in one piece, so that the connection is closed.
  start_download-IsFine :
      (req : WriteByIndexRequest) (size tid : ℕ)
      → header.segmentation ≡ expedited
      → header.is_aborted ≡ false
      → IsFine (start_download backend is_utf8 req size tid header now h od)
  unfolding start_download IsFine Reachable after_command
  start_download-IsFine req size tid one kept = elim (Bool-cases (size == 0)) [
    | inl q ↦ rw (start_download, q) (abort-IsFine tid 0x06070010 h od)
    | inr q ↦ rw (start_download, q, kept, one) tt
  ]

  write_segment-IsFine :
      (command : SdoCommand) → IsFine (write_segment backend is_utf8 command header now h od)
  unfolding write_segment
  write_segment-IsFine command =
      let tid = command.header.transaction_id in
      elim (Reachable-cases h.state v) [
        | inl q ↦ rw (write_segment, q) (abort-IsFine tid 0x05040003 h od)
        | inr (inl q) ↦ rw (write_segment, q) (abort-IsFine tid 0x05040003 h od)
        | inr (inr (inl q)) ↦ rw (write_segment, q) (abort-IsFine tid 0x05040003 h od)
        | inr (inr (inr (t, q, u))) ↦ rw (write_segment, q) (abort-IsFine tid 0x05040003 h od)
      ]

  pub handle_write_by_index-IsFine :
      (command : SdoCommand)
      → header.segmentation ≡ expedited
      → header.is_aborted ≡ false
      → IsFine (handle_write_by_index backend is_utf8 command header now h od)
  unfolding handle_write_by_index
  handle_write_by_index-IsFine command one kept =
      let (result, p) = write_by_index-Returns command.payload in
      let tid = command.header.transaction_id in
      elim (Segmentation-cases command.header.segmentation) [
        | inl q ↦ elim (Result-cases result) [
          | inl (req, r) ↦ rw (handle_write_by_index, q, p, r) (write_expedited-IsFine req tid)
          | inr (e, r) ↦
              rw (handle_write_by_index, q, p, r) (abort-IsFine tid (payload_abort_code e) h od)
        ]
        | inr (inl q) ↦ elim (Result-cases result) [
          | inl (req, r) ↦
              rw (handle_write_by_index, q, p, r)
                (start_download-IsFine req (size_or_zero command.data_size) tid one kept)
          | inr (e, r) ↦
              rw (handle_write_by_index, q, p, r) (abort-IsFine tid (payload_abort_code e) h od)
        ]
        | inr (inr (inl q)) ↦ rw (handle_write_by_index, q) (write_segment-IsFine command)
        | inr (inr (inr q)) ↦ rw (handle_write_by_index, q) (write_segment-IsFine command)
      ]

module _ {S : Type 0} (backend : StorageBackend S) (is_utf8 : List ℕ → Bool)
    (text_bytes : String → List ℕ) (now : ℕ) (h : SdoSequenceHandler)
    (od : ObjectDictionary S) where
  pub handle_read_by_name-IsFine :
      (header : CommandLayerHeader) (command : SdoCommand)
      → Reachable h.state
      → IsFine (handle_read_by_name backend is_utf8 text_bytes command header now h od)
  unfolding handle_read_by_name
  handle_read_by_name-IsFine header command v =
      let (result, p) = read_by_name-Returns is_utf8 command.payload in
      let tid = command.header.transaction_id in
      elim (Result-cases result) [
        | inr (e, q) ↦ rw (handle_read_by_name, p, q) (abort-IsFine tid (payload_abort_code e) h od)
        | inl (name, q) ↦ elim (Option-cases (find_by_name text_bytes name od.entries)) [
          | inl r ↦ rw (handle_read_by_name, p, q, r) (abort-IsFine tid 0x060A0023 h od)
          | inr ((index, sub), r) ↦
              rw (handle_read_by_name, p, q, r)
                (handle_read_by_index-IsFine
                  (by_index command 4 (le_bytes2 index ++ (sub ∷ 0 ∷ []))) header now h od v)
        ]
      ]

  pub handle_write_by_name-IsFine :
      (header : CommandLayerHeader) (command : SdoCommand)
      → Reachable h.state
      → header.segmentation ≡ expedited
      → header.is_aborted ≡ false
      → IsFine (handle_write_by_name backend is_utf8 text_bytes command header now h od)
  unfolding handle_write_by_name
  handle_write_by_name-IsFine header command v one kept =
      let (result, p) = write_by_name-Returns is_utf8 command.payload in
      let tid = command.header.transaction_id in
      elim (Result-cases result) [
        | inr (e, q) ↦
            rw (handle_write_by_name, p, q) (abort-IsFine tid (payload_abort_code e) h od)
        | inl (req, q) ↦ elim (Option-cases (find_by_name text_bytes req.name od.entries)) [
          | inl r ↦ rw (handle_write_by_name, p, q, r) (abort-IsFine tid 0x060A0023 h od)
          | inr ((index, sub), r) ↦
              let payload = le_bytes2 index ++ (sub ∷ 0 ∷ req.content) in
              rw (handle_write_by_name, p, q, r)
                (handle_write_by_index-IsFine backend is_utf8 header now h od v
                  (by_index command (length payload % 65536) payload) one kept)
        ]
      ]
