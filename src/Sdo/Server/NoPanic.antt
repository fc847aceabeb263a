-- ===== src/Sdo/Server/NoPanic.antt =====
-- A request of any octets, answered or refused by the server.
use Prim.Native.String.{String}
use powerlink_rs.Common.{
  ℕ, ltb, ◌==◌, Bool, true, false, if◌then◌else◌, none, some, List, length, arith, Result, ok, err,
  inl, inr, Result-cases, Option-cases, Bool-cases,
}
use powerlink_rs.Hal.{PowerlinkError}
use powerlink_rs.Od.Dictionary.{StorageBackend, ObjectDictionary}
use powerlink_rs.Sdo.Transfer.{SdoTransferState}
use powerlink_rs.Sdo.Transfer.Upload.{IsUpload, get_next-IsUpload}
use powerlink_rs.Sdo.Handler.{SdoSequenceHandler, closed, segmented_upload, process_sequence_layer}
use powerlink_rs.Sdo.Handlers.{Reply}
use powerlink_rs.Sdo.Server.{SdoCommandHandler, Response, respond, without_command}
use powerlink_rs.Sdo.Server.Parsers.{slice-Returns}
use powerlink_rs.Sdo.Server.Parsers.Decoders.{deserialize_command-Returns}
use powerlink_rs.Sdo.Server.Requests.{
  with_command, after_sequence, on_error_response, handle_request,
}
use powerlink_rs.Sdo.Server.Sound.{Reachable, IsFine, abort-IsFine}
use powerlink_rs.Sdo.Server.Sound.Writes.{Reachable-cases}
use powerlink_rs.Sdo.Server.Sound.Connection.{process_sequence_layer-Reachable}
use powerlink_rs.Sdo.Sequence.{SequenceLayerHeader}
use powerlink_rs.Sdo.Sequence
use powerlink_rs.Hal.{sdo_invalid_command_payload}
use powerlink_rs.Sdo.Server.{
  acknowledge_upload, acknowledge_only, last_segment, acknowledged, is_error_response,
}
use powerlink_rs.Sdo.Server.Sound.Commands.{process_command_layer-IsFine}

-- A response or an error, and not a panic, with the server in a reachable state.
unfoldable pub IsServed : {S : Type 0} → Response S → Type 0
IsServed none = ⊥
IsServed (some (r, h, od)) = Reachable h.state

closed_or_upload-Reachable :
    (is_last : Bool) (t : SdoTransferState)
    → IsUpload t
    → Reachable (if is_last then closed else segmented_upload t)
unfolding Reachable
closed_or_upload-Reachable true t v = tt
closed_or_upload-Reachable false t v = v

module _ {S : Type 0} where
  respond-IsServed :
      (response : SequenceLayerHeader) (reply : Reply S)
      → IsFine reply
      → IsServed (respond response reply)
  unfolding IsServed IsFine respond
  respond-IsServed response none v = v
  respond-IsServed response (some (command, h, od)) v = v

  refuse_or-IsServed :
      (b : Bool) (x : Response S) (h : SdoSequenceHandler) (od : ObjectDictionary S)
      → IsServed x
      → Reachable h.state
      → IsServed (if b then x else some (err sdo_invalid_command_payload, h, od))
  unfolding IsServed
  refuse_or-IsServed true x h od v w = v
  refuse_or-IsServed false x h od v w = w

  acknowledge_only-IsServed :
      (closes : Bool) (response : SequenceLayerHeader) (h : SdoSequenceHandler)
      (od : ObjectDictionary S)
      → Reachable h.state
      → IsServed (acknowledge_only closes response h od)
  unfolding IsServed acknowledge_only Reachable
  acknowledge_only-IsServed true response h od v = tt
  acknowledge_only-IsServed false response h od v = v

  acknowledge_upload-IsServed :
      (t : SdoTransferState) (response : SequenceLayerHeader) (now : ℕ) (h : SdoSequenceHandler)
      (od : ObjectDictionary S)
      → IsUpload t
      → IsServed (acknowledge_upload t response now h od)
  unfolding IsServed acknowledge_upload
  acknowledge_upload-IsServed t response now h od v =
      let (command, is_last, t', e, sound) = get_next-IsUpload od now t v in
      rw (acknowledge_upload, e) (closed_or_upload-Reachable is_last t' sound)

  without_command-IsServed :
      (request response : SequenceLayerHeader) (now : ℕ) (h : SdoSequenceHandler)
      (od : ObjectDictionary S)
      → Reachable h.state
      → IsServed (without_command request response now h od)
  unfolding without_command
  without_command-IsServed request response now h od v = elim (Reachable-cases h.state v) [
    | inl q ↦
        rw (without_command, q)
          (refuse_or-IsServed _ _ h od (acknowledge_only-IsServed false response h od v) v)
    | inr (inl q) ↦ rw (without_command, q) (acknowledge_only-IsServed false response h od v)
    | inr (inr (inl q)) ↦
        rw (without_command, q)
          (refuse_or-IsServed _ _ h od (acknowledge_only-IsServed true response h od v) v)
    | inr (inr (inr (t, q, u))) ↦
        rw (without_command, q)
          (refuse_or-IsServed _ _ h od (acknowledge_upload-IsServed t response now h od u) v)
  ]

  acknowledged-IsServed :
      (od : ObjectDictionary S) (r : Result SequenceLayerHeader PowerlinkError × SdoSequenceHandler)
      → Reachable r.1.state
      → IsServed (acknowledged od r)
  unfolding IsServed
  acknowledged-IsServed od (err e, h) v = v
  acknowledged-IsServed od (ok response, h) v = v

  on_error_response-IsServed :
      (request : SequenceLayerHeader) (h : SdoSequenceHandler) (od : ObjectDictionary S)
      → Reachable h.state
      → IsServed (on_error_response request h od)
  unfolding IsServed on_error_response
  on_error_response-IsServed request h od v = elim (Option-cases (last_segment h.state)) [
    | inl q ↦
        rw (on_error_response, q)
          (acknowledged-IsServed od (process_sequence_layer request h)
            (process_sequence_layer-Reachable request h v))
    | inr (command, q) ↦ rw (on_error_response, q) v
  ]

module _ {S : Type 0} (backend : StorageBackend S) (is_utf8 : List ℕ → Bool)
    (text_bytes : String → List ℕ) (application : SdoCommandHandler S) where
  with_command-IsServed :
      (command_payload : List ℕ) (response : SequenceLayerHeader) (now : ℕ) (h : SdoSequenceHandler)
      (od : ObjectDictionary S)
      → Reachable h.state
      → IsServed
          (with_command backend is_utf8 text_bytes application command_payload response now h od)
  unfolding with_command
  with_command-IsServed command_payload response now h od v =
      let (result, p) = deserialize_command-Returns command_payload in
      elim (Result-cases result) [
        | inl (command, q) ↦
            rw (with_command, p, q)
              (respond-IsServed response _ (
                process_command_layer-IsFine backend is_utf8 text_bytes application command now h od
                  v))
        | inr (e, q) ↦
            rw (with_command, p, q) (respond-IsServed response _ (abort-IsFine _ 0x05040001 h od))
      ]

  after_sequence-IsServed :
      (command_payload : List ℕ) (request : SequenceLayerHeader) (now : ℕ) (od : ObjectDictionary S)
      (r : Result SequenceLayerHeader PowerlinkError × SdoSequenceHandler)
      → Reachable r.1.state
      → IsServed
          (after_sequence backend is_utf8 text_bytes application command_payload request now od r)
  unfolding after_sequence IsServed
  after_sequence-IsServed payload request now od (err e, h) v = v
  after_sequence-IsServed payload request now od (ok response, h) v =
      elim (Bool-cases (length payload == 0)) [
        | inl q ↦ rw q (without_command-IsServed request response now h od v)
        | inr q ↦ rw q (with_command-IsServed payload response now h od v)
      ]

  -- If a server is in a state other than a download, and the offset of its upload, if there is
  -- one, lies in the buffer, then a request of any octets is answered or refused without a read
  -- outside the octets of the request, the command, its payload, a value or the upload, whatever
  -- the dictionary and the application, and the server is in such a state again. In particular, no
  -- request starts a segmented download that goes on after the answer.
  pub handle_request-IsServed :
      (request : List ℕ) (od : ObjectDictionary S) (now : ℕ) (h : SdoSequenceHandler)
      → Reachable h.state
      → IsServed (handle_request backend is_utf8 text_bytes application request od now h)
  unfolding handle_request IsServed
  handle_request-IsServed request od now h v = elim (Bool-cases (ltb (length request) 4)) [
    | inl q ↦ rw (handle_request, q) v
    | inr q ↦
        let (octets, p) = slice-Returns 0 4 request (omega arith) (ground arith) in
        let (payload, p') = slice-Returns 4 (length request) request (ground arith) (omega arith) in
        elim (Result-cases (Sequence.deserialize octets)) [
          | inr (e, r) ↦ rw (handle_request, q, p, r) v
          | inl (header, r) ↦ elim (Bool-cases (is_error_response header.receive_con)) [
            | inl s ↦ rw (handle_request, q, p, r, p', s) (on_error_response-IsServed header h od v)
            | inr s ↦
                rw (handle_request, q, p, r, p', s)
                  (after_sequence-IsServed payload header now od (process_sequence_layer header h)
                    (process_sequence_layer-Reachable header h v))
          ]
        ]
  ]
