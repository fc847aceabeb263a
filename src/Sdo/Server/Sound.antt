-- ===== src/Sdo/Server/Sound.antt =====
-- The states of a server that only answers requests.
pub mod Writes
pub mod Connection
pub mod Commands
use powerlink_rs.Common.{
  ℕ, ◌+◌, ◌%◌, ◌++◌, ltb, leb, refl, Bool, true, false, if◌then◌else◌, none, some, List, [], length,
  inl, inr, arith, Result-cases, Option-cases, Bool-cases,
}
use powerlink_rs.Od.Dictionary.{ObjectDictionary, read, read_object}
use powerlink_rs.Sdo.Command.{
  Segmentation, expedited, initiate, segment, complete, CommandLayerHeader, SdoCommand,
}
use powerlink_rs.Sdo.Transfer.{max_expedited_payload}
use powerlink_rs.Sdo.Transfer.Upload.{IsUpload, get_next-IsUpload}
use powerlink_rs.Sdo.Handler.{
  SdoSequenceHandler, SdoServerState, closed, opening, established, segmented_download,
  segmented_upload, reset,
}
use powerlink_rs.Sdo.Handlers.{
  answer, abort_command, Reply, abort, send_payload, abort_missing, read_address,
  handle_read_by_index, new_upload, payload_abort_code,
}
use powerlink_rs.Sdo.Handlers.Many.{
  read_all, read_elements, read_entries, handle_read_all_by_index, handle_read_multiple_params,
}
use powerlink_rs.Sdo.Requests.{read_by_index_from_payload, read_multiple_from_payload}
use powerlink_rs.Common.Bytes.{read_u16_le, le_bytes4}
use powerlink_rs.Od.Value.{ObjectValue}
use powerlink_rs.Od.Entry.{variable, array, rec}
use powerlink_rs.Od.Bytes.{serialize}
use powerlink_rs.Sdo.Server.Parsers.{read_by_index-Returns}
use powerlink_rs.Common.Bytes.{inside_lem}
use powerlink_rs.Sdo.Server.{after_command}

-- Every state but a download, with uploads whose offset lies in their buffer.
unfoldable pub Reachable : SdoServerState → Type 0
Reachable closed = Unit
Reachable opening = Unit
Reachable established = Unit
Reachable (segmented_upload t) = IsUpload t
Reachable (segmented_download t) = ⊥

closed_or-Reachable :
    (aborted : Bool) (g : Segmentation) (s : SdoServerState)
    → Reachable s
    → Reachable
        (if aborted then closed else (elim g [ expedited ↦ closed | complete ↦ closed | _ ↦ s ]))
unfolding Reachable
closed_or-Reachable true g s v = tt
closed_or-Reachable false expedited s v = tt
closed_or-Reachable false initiate s v = v
closed_or-Reachable false segment s v = v
closed_or-Reachable false complete s v = tt

pub after_command-Reachable :
    (command : SdoCommand) (state : SdoServerState)
    → Reachable state
    → Reachable (after_command command state)
unfolding Reachable after_command
after_command-Reachable command closed v = closed_or-Reachable _ _ closed v
after_command-Reachable command opening v = v
after_command-Reachable command established v = closed_or-Reachable _ _ established v
after_command-Reachable command (segmented_upload t) v =
    closed_or-Reachable _ _ (segmented_upload t) v
after_command-Reachable command (segmented_download t) v = absurd v

if-Reachable :
    (b : Bool) (g h : SdoSequenceHandler)
    → Reachable g.state
    → Reachable h.state
    → Reachable (if b then g else h).state
if-Reachable true g h v w = v
if-Reachable false g h v w = w

module _ {S : Type 0} where
  -- An answer, and not a panic, after which the response leaves a reachable state.
  unfoldable pub IsFine : Reply S → Type 0
  unfolding after_command
  IsFine none = ⊥
  IsFine (some (command, h, od)) = Reachable (after_command command h.state)

  pub abort-IsFine :
      (tid code : ℕ) (h : SdoSequenceHandler) (od : ObjectDictionary S)
      → IsFine (abort tid code h od)
  unfolding IsFine abort reset abort_command Reachable
  abort-IsFine tid code h od = tt

  send_payload-IsFine :
      (tid : ℕ) (header : CommandLayerHeader) (payload : List ℕ) (index sub now : ℕ)
      (h : SdoSequenceHandler) (od : ObjectDictionary S)
      → Reachable h.state
      → IsFine (send_payload tid header payload index sub now h od)
  unfolding IsFine send_payload Reachable
  send_payload-IsFine tid header payload index sub now h od v =
      elim (Bool-cases (leb (length payload) max_expedited_payload)) [
        | inl q ↦
            rw (send_payload, q)
              (after_command-Reachable
                (answer (record header { segment_size = length payload % 65536 }) payload) h.state
                v)
        | inr q ↦
            let start : IsUpload (new_upload tid payload index sub) = record {
              sized = refl;
              inside = omega arith;
            } in
            let (command, is_last, t, e, sound) = get_next-IsUpload od now _ start in
            rw (send_payload, q, e)
              (after_command-Reachable command _
                (if-Reachable is_last h (record h { state = segmented_upload t }) v sound))
      ]

  abort_missing-IsFine :
      (tid index : ℕ) (h : SdoSequenceHandler) (od : ObjectDictionary S)
      → IsFine (abort_missing tid index h od)
  unfolding abort_missing
  abort_missing-IsFine tid index h od = elim (Option-cases (read_object od index)) [
    | inl q ↦ rw (abort_missing, q) (abort-IsFine tid 0x06020000 h od)
    | inr (o, q) ↦ rw (abort_missing, q) (abort-IsFine tid 0x06090011 h od)
  ]

  module _ (command : SdoCommand) (header : CommandLayerHeader) (now : ℕ) (h : SdoSequenceHandler)
      (od : ObjectDictionary S) (v : Reachable h.state) where
    pub handle_read_by_index-IsFine : IsFine (handle_read_by_index command header now h od)
    unfolding handle_read_by_index read_address
    handle_read_by_index-IsFine =
        let tid = command.header.transaction_id in
        let (result, p) = read_by_index-Returns command.payload in
        elim (Result-cases result) [
          | inl (req, q) ↦ elim (Option-cases (read od req.index req.sub_index)) [
            | inl r ↦
                rw (handle_read_by_index, p, q, read_address, r)
                  (abort_missing-IsFine tid req.index h od)
            | inr (value, r) ↦
                rw (handle_read_by_index, p, q, read_address, r)
                  (send_payload-IsFine tid header (serialize value) req.index req.sub_index now h od
                    v)
          ]
          | inr (e, q) ↦
              rw (handle_read_by_index, p, q) (abort-IsFine tid (payload_abort_code e) h od)
        ]

    read_all-IsFine :
        (values : List ObjectValue) (index tid : ℕ)
        → IsFine (read_all values index tid header now h od)
    unfolding read_all
    read_all-IsFine values index tid = elim (Option-cases (read_elements od index values 0)) [
      | inl q ↦ rw (read_all, q) (abort-IsFine tid 0x06090011 h od)
      | inr (payload, q) ↦
          rw (read_all, q) (send_payload-IsFine tid header payload index 0 now h od v)
    ]

    pub handle_read_all_by_index-IsFine : IsFine (handle_read_all_by_index command header now h od)
    unfolding handle_read_all_by_index
    handle_read_all_by_index-IsFine =
        let tid = command.header.transaction_id in
        let index = read_u16_le command.payload 0 in
        elim (Bool-cases (ltb (length command.payload) 2)) [
          | inl q ↦ rw (handle_read_all_by_index, q) (abort-IsFine tid 0x05040001 h od)
          | inr q ↦
              let p = inside_lem 2 command.payload index (ground arith) in
              elim (Option-cases (read_object od index)) [
                | inl r ↦ rw (handle_read_all_by_index, q, p, r) (abort-IsFine tid 0x06020000 h od)
                | inr (rec vs, r) ↦
                    rw (handle_read_all_by_index, q, p, r) (read_all-IsFine vs index tid)
                | inr (array vs, r) ↦
                    rw (handle_read_all_by_index, q, p, r) (read_all-IsFine vs index tid)
                | inr (variable _, r) ↦
                    rw (handle_read_all_by_index, q, p, r) (abort-IsFine tid 0x06090030 h od)
              ]
        ]

    pub handle_read_multiple_params-IsFine :
        IsFine (handle_read_multiple_params command header now h od)
    unfolding handle_read_multiple_params
    handle_read_multiple_params-IsFine =
        let tid = command.header.transaction_id in
        elim (Result-cases (read_multiple_from_payload command.payload)) [
          | inr (e, q) ↦
              rw (handle_read_multiple_params, q) (abort-IsFine tid (payload_abort_code e) h od)
          | inl (entries, q) ↦ elim (Result-cases (read_entries od entries [])) [
            | inr (code, r) ↦ rw (handle_read_multiple_params, q, r) (abort-IsFine tid code h od)
            | inl (payload, r) ↦
                rw (handle_read_multiple_params, q, r)
                  (send_payload-IsFine tid header (le_bytes4 (length entries) ++ payload) 0 0 now h
                    od v)
          ]
        ]
