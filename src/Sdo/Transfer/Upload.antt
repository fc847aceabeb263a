-- ===== src/Sdo/Transfer/Upload.antt =====
-- A segmented upload carries the whole object.
use powerlink_rs.Common.{
  ℕ, ◌+◌, ◌-◌, ◌*◌, ◌≤◌, ◌<◌, ◌≡◌, refl, sym, min, leb, Bool, true, false, if◌then◌else◌, Option,
  none, some, List, [], ◌∷◌, ◌++◌, length, take, drop, length-drop, drop-drop, take-append-drop,
  take-all, arith, Bool-cases, inl, inr,
}
use powerlink_rs.Common.Bytes.{slice, slice_lem}
use powerlink_rs.Od.Dictionary.{ObjectDictionary}
use powerlink_rs.Sdo.Command.{SdoCommand}
use powerlink_rs.Sdo.Transfer.{
  SdoTransferState, max_expedited_payload, upload_command, advance_upload, get_next_upload_segment,
}

module _ {S : Type 0} where
  -- The calls of `get_next_upload_segment` at the given times, until one says that it was the
  -- last: the bytes that the client puts together, and whether it got the last segment. `none` is
  -- a panic on the way.
  unfoldable pub upload : ObjectDictionary S → List ℕ → SdoTransferState → Option (List ℕ × Bool)
  upload od [] t = some ([], false)
  upload od (now ∷ times) t = elim (get_next_upload_segment od now t) [
    | none ↦ none
    | some (command, is_last, t') ↦
        let rest = upload od times t' in
        if is_last then some (command.payload, true) else (elim rest [
          | none ↦ none
          | some (bytes, done) ↦ some (command.payload ++ bytes, done)
        ])
  ]

-- A state that `handle_read_by_index` may make: the size is that of the buffer.
pub record IsUpload (t : SdoTransferState) : Type 0 where
  pub sized : t.total_size ≡ length t.data_buffer
  pub inside : t.offset ≤ t.total_size

slice-chunk :
    (t : SdoTransferState) (size : ℕ)
    → IsUpload t
    → size ≤ t.total_size - t.offset
    → slice t.offset (t.offset + size) t.data_buffer
      ≡ some (take size (drop t.offset t.data_buffer))
slice-chunk t size v h =
    let s = v.sized in let i = v.inside in slice_lem t.offset size t.data_buffer (omega arith)

module _ {S : Type 0} where
  -- One call: the chunk, and the state that follows.
  get_next_lem :
      (od : ObjectDictionary S) (now : ℕ) (t : SdoTransferState)
      → IsUpload t
      → let size = min max_expedited_payload (t.total_size - t.offset) in
        let chunk = take size (drop t.offset t.data_buffer) in
        let is_last = leb t.total_size (t.offset + size) in
        get_next_upload_segment od now t
        ≡ some (
          upload_command t chunk is_last,
          is_last,
          advance_upload od now (upload_command t chunk is_last) (t.offset + size) is_last t,
        )
  unfolding get_next_upload_segment
  get_next_lem od now t v =
      ground
        (arith, slice-chunk t (min max_expedited_payload (t.total_size - t.offset)) v (omega arith))

  advance-IsUpload :
      (od : ObjectDictionary S) (now : ℕ) (command : SdoCommand) (size : ℕ) (t : SdoTransferState)
      → IsUpload t
      → size ≤ t.total_size - t.offset
      → IsUpload (advance_upload od now command (t.offset + size) false t)
        × ((advance_upload od now command (t.offset + size) false t).offset ≡ t.offset + size)
        × ((advance_upload od now command (t.offset + size) false t).total_size ≡ t.total_size)
        × ((advance_upload od now command (t.offset + size) false t).data_buffer ≡ t.data_buffer)
  unfolding advance_upload
  advance-IsUpload od now command size t v h =
      (record { sized = v.sized; inside = let i = v.inside in omega arith }, refl, refl, refl)

  -- Started at any offset inside the object and called at least once and often enough for the rest
  -- of it in pieces of 1452 bytes, the upload never reads outside the buffer, sends the bytes from
  -- the offset to the end, complete and in order, and then says that it is done.
  pub upload_complete :
      (od : ObjectDictionary S) (times : List ℕ) (t : SdoTransferState)
      → IsUpload t
      → 0 < length times
      → t.total_size - t.offset ≤ length times * 1452
      → upload od times t ≡ some (drop t.offset t.data_buffer, true)
  unfolding upload upload_command advance_upload
  upload_complete od [] t v n h = absurd (omega arith)
  upload_complete od (now ∷ times) t v n h =
      let size = min max_expedited_payload (t.total_size - t.offset) in
      let chunk = take size (drop t.offset t.data_buffer) in
      let command = upload_command t chunk false in
      let t' = advance_upload od now command (t.offset + size) false t in
      elim (Bool-cases (leb t.total_size (t.offset + size))) [
        | inl last ↦
            let sized = v.sized in
            let whole : chunk ≡ drop t.offset t.data_buffer =
              take-all size (drop t.offset t.data_buffer)
                (ground (arith, length-drop t.offset t.data_buffer)) in
            rw (upload, get_next_lem od now t v, last, whole)
        | inr more ↦
            let (kept, from, _, _) = advance-IsUpload od now command size t v (omega arith) in
            let rest = upload_complete od times t' kept (ground arith) (ground arith) in
            let joined : chunk ++ drop (t.offset + size) t.data_buffer
                ≡ drop t.offset t.data_buffer =
              rw (sym (drop-drop size t.offset t.data_buffer))
                (take-append-drop size (drop t.offset t.data_buffer)) in
            rw (upload, get_next_lem od now t v, more, rest, joined)
      ]

  advance_upload-IsUpload :
      (od : ObjectDictionary S) (now : ℕ) (command : SdoCommand) (offset : ℕ) (is_last : Bool)
      (t : SdoTransferState)
      → IsUpload t
      → offset ≤ t.total_size
      → IsUpload (advance_upload od now command offset is_last t)
  unfolding advance_upload
  advance_upload-IsUpload od now command offset true t v l = record { sized = v.sized; inside = l }
  advance_upload-IsUpload od now command offset false t v l = record { sized = v.sized; inside = l }

  -- A call on a sound state gives a command, and the state stays sound.
  pub get_next-IsUpload :
      (od : ObjectDictionary S) (now : ℕ) (t : SdoTransferState)
      → IsUpload t
      → (command : SdoCommand) × (is_last : Bool) × (t' : SdoTransferState)
        × (get_next_upload_segment od now t ≡ some (command, is_last, t'))
        × IsUpload t'
  get_next-IsUpload od now t v =
      let inside = v.inside in
      (_, _, _, get_next_lem od now t v, advance_upload-IsUpload od now _ _ _ t v (omega arith))
