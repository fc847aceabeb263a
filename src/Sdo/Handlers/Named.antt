-- ===== src/Sdo/Handlers/Named.antt =====
-- `handle_read_by_name` and `handle_write_by_name` of crates/powerlink-rs/src/sdo/handlers.rs.
use Prim.Native.String.{String}
use powerlink_rs.Common.{ℕ, ◌%◌, Bool, none, some, List, [], ◌∷◌, ◌++◌, length, ok, err}
use powerlink_rs.Common.Bytes.{le_bytes2}
use powerlink_rs.Od.Dictionary.{StorageBackend, ObjectDictionary}
use powerlink_rs.Od.Names.{find_by_name}
use powerlink_rs.Sdo.Command.{CommandLayerHeader, SdoCommand}
use powerlink_rs.Sdo.Handler.{SdoSequenceHandler}
use powerlink_rs.Sdo.Requests.{read_by_name_from_payload, write_by_name_from_payload}
use powerlink_rs.Sdo.Handlers.{payload_abort_code, Reply, abort, handle_read_by_index}
use powerlink_rs.Sdo.Handlers.Writes.{handle_write_by_index}

-- The request by index that a request by name turns into, with the address in its payload.
abbrev pub by_index : SdoCommand → ℕ → List ℕ → SdoCommand
by_index command size payload = record command {
  header = record command.header { segment_size = size };
  payload = payload;
}

module _ {S : Type 0} (backend : StorageBackend S) (is_utf8 : List ℕ → Bool)
    (text_bytes : String → List ℕ) where
  unfoldable pub handle_read_by_name :
      SdoCommand → CommandLayerHeader → ℕ → SdoSequenceHandler → ObjectDictionary S → Reply S
  unfolding read_by_name_from_payload find_by_name handle_read_by_index abort payload_abort_code
      le_bytes2
  handle_read_by_name command response_header current_time_us h od =
      let tid = command.header.transaction_id in
      elim (read_by_name_from_payload is_utf8 command.payload) [
        | none ↦ none
        | some (err e) ↦ abort tid (payload_abort_code e) h od
        | some (ok name) ↦ elim (find_by_name text_bytes name od.entries) [
          | none ↦ abort tid 0x060A0023 h od
          | some (index, sub) ↦
              handle_read_by_index (by_index command 4 (le_bytes2 index ++ (sub ∷ 0 ∷ [])))
                response_header current_time_us h od
        ]
      ]

  unfoldable pub handle_write_by_name :
      SdoCommand → CommandLayerHeader → ℕ → SdoSequenceHandler → ObjectDictionary S → Reply S
  unfolding write_by_name_from_payload find_by_name handle_write_by_index abort payload_abort_code
      le_bytes2
  handle_write_by_name command response_header current_time_us h od =
      let tid = command.header.transaction_id in
      elim (write_by_name_from_payload is_utf8 command.payload) [
        | none ↦ none
        | some (err e) ↦ abort tid (payload_abort_code e) h od
        | some (ok req) ↦ elim (find_by_name text_bytes req.name od.entries) [
          | none ↦ abort tid 0x060A0023 h od
          | some (index, sub) ↦
              let payload = le_bytes2 index ++ (sub ∷ 0 ∷ req.content) in
              handle_write_by_index backend is_utf8
                (by_index command (length payload % 65536) payload) response_header current_time_us
                h od
        ]
      ]
