-- ===== src/Sdo/Handlers/Many.antt =====
-- crates/powerlink-rs/src/sdo/handlers.rs: the commands that read several values.
use powerlink_rs.Common.{
  ℕ, suc, ◌+◌, ◌-◌, ◌%◌, ltb, if◌then◌else◌, Option, none, some, List, [], ◌∷◌, ◌++◌, length,
  replicate, Result, ok, err,
}
use powerlink_rs.Common.Bytes.{inside, le_bytes2, le_bytes4, read_u16_le}
use powerlink_rs.Od.Value.{ObjectValue}
use powerlink_rs.Od.Entry.{variable, array, rec}
use powerlink_rs.Od.Dictionary.{ObjectDictionary, read, read_object}
use powerlink_rs.Od.Bytes.{serialize}
use powerlink_rs.Sdo.Command.{CommandLayerHeader, SdoCommand}
use powerlink_rs.Sdo.Handler.{SdoSequenceHandler}
use powerlink_rs.Sdo.Requests.{ReadByIndexRequest, read_multiple_from_payload}
use powerlink_rs.Sdo.Handlers.{payload_abort_code, Reply, abort, send_payload}

-- Zeros up to a multiple of four.
abbrev pub pad4 : List ℕ → List ℕ
pad4 payload = payload ++ replicate ((4 - length payload % 4) % 4) 0

module _ {S : Type 0} where
  -- The answer to a list of addresses, after what was put together so far.
  unfoldable pub read_entries :
      ObjectDictionary S → List ReadByIndexRequest → List ℕ → Result (List ℕ) ℕ
  unfolding read read_object serialize le_bytes2
  read_entries od [] payload = ok payload
  read_entries od (entry ∷ entries) payload = elim (read od entry.index entry.sub_index) [
    | some value ↦
        let bytes = serialize value in
        read_entries od entries
          (pad4 (payload ++ (0 ∷ 0 ∷ le_bytes2 (length bytes % 65536) ++ bytes)))
    | none ↦ elim (read_object od entry.index) [ none ↦ err 0x06020000 | some _ ↦ err 0x06090011 ]
  ]

  unfoldable pub handle_read_multiple_params :
      SdoCommand → CommandLayerHeader → ℕ → SdoSequenceHandler → ObjectDictionary S → Reply S
  unfolding read_multiple_from_payload read_entries send_payload abort payload_abort_code le_bytes4
  handle_read_multiple_params command response_header current_time_us h od =
      let tid = command.header.transaction_id in
      elim (read_multiple_from_payload command.payload) [
        | err e ↦ abort tid (payload_abort_code e) h od
        | ok entries ↦ elim (read_entries od entries []) [
          | err code ↦ abort tid code h od
          | ok payload ↦
              send_payload tid response_header (le_bytes4 (length entries) ++ payload) 0 0
                current_time_us h od
        ]
      ]

  -- The values of the elements `i + 1` and on, `count` of them; `(i + 1) as u8` wraps.
  unfoldable pub read_elements : ObjectDictionary S → ℕ → List ObjectValue → ℕ → Option (List ℕ)
  unfolding read serialize
  read_elements od index [] i = some []
  read_elements od index (v ∷ vs) i =
      let rest = read_elements od index vs (suc i) in
      elim (read od index ((i + 1) % 256)) [
        | none ↦ none
        | some value ↦ elim rest [ none ↦ none | some bytes ↦ some (serialize value ++ bytes) ]
      ]

  -- The elements of a record or an array, in `handle_read_all_by_index`.
  unfoldable pub read_all :
      List ObjectValue
      → ℕ
      → ℕ
      → CommandLayerHeader
      → ℕ
      → SdoSequenceHandler
      → ObjectDictionary S
      → Reply S
  unfolding read_elements send_payload abort
  read_all values index tid response_header current_time_us h od =
      elim (read_elements od index values 0) [
        | none ↦ abort tid 0x06090011 h od
        | some payload ↦ send_payload tid response_header payload index 0 current_time_us h od
      ]

  unfoldable pub handle_read_all_by_index :
      SdoCommand → CommandLayerHeader → ℕ → SdoSequenceHandler → ObjectDictionary S → Reply S
  unfolding read_all read_u16_le abort read_object inside
  handle_read_all_by_index command response_header current_time_us h od =
      let tid = command.header.transaction_id in
      if ltb (length command.payload) 2
      then abort tid 0x05040001 h od
      else (elim (inside 2 command.payload (read_u16_le command.payload 0)) [
        | none ↦ none
        | some index ↦ elim (read_object od index) [
          | some (rec values) ↦ read_all values index tid response_header current_time_us h od
          | some (array values) ↦ read_all values index tid response_header current_time_us h od
          | some (variable _) ↦ abort tid 0x06090030 h od
          | none ↦ abort tid 0x06020000 h od
        ]
      ])
