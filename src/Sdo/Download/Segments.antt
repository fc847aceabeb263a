-- ===== src/Sdo/Download/Segments.antt =====
-- A value that comes in segments is written as a whole.
use powerlink_rs.Common.{
  Option, none, ℕ, ◌+◌, ltb, ◌≤◌, ◌≡◌, refl, sym, ap, ◌∙◌, Bool, true, false, some, List, [], ◌∷◌,
  ◌++◌, All, length, length-append, append_assoc, Result, ok, err, arith,
}
use powerlink_rs.Od.Value.{ObjectValue, same_type}
use powerlink_rs.Od.Dictionary.{StorageBackend, ObjectDictionary, read}
use powerlink_rs.Od.Bytes.{serialize, deserialize}
use powerlink_rs.Od.Bytes.RoundTrip.{IsValue, deserialize-serialize_value}
use powerlink_rs.Od.Write.{write}
use powerlink_rs.Sdo.Command.{SdoCommand}
use powerlink_rs.Sdo.Transfer.{SdoTransferState, deadline_from}
use powerlink_rs.Sdo.Download.{
  coded, finished, is_complete, write_value, perform_od_write, finish_download,
  process_download_segment,
}

-- The payloads of some commands, one after the other.
abbrev pub payloads : List SdoCommand → List ℕ
payloads [] = []
payloads (c ∷ cs) = c.payload ++ payloads cs

-- The rest of a download, if the call asks for more.
abbrev pub next_call :
    {S : Type 0}
    → Option (Result Bool ℕ × SdoTransferState × ObjectDictionary S)
    → (SdoTransferState → ObjectDictionary S → Option (Result Bool ℕ × ObjectDictionary S))
    → Option (Result Bool ℕ × ObjectDictionary S)
next_call none rest = none
next_call (some (ok false, t, od)) rest = rest t od
next_call (some (ok true, t, od)) rest = some (ok true, od)
next_call (some (err code, t, od)) rest = some (err code, od)

module _ {S : Type 0} (backend : StorageBackend S) (is_utf8 : List ℕ → Bool) where
  -- The calls of `process_download_segment` at a time, as long as each asks for more, and the
  -- last one.
  unfoldable pub download :
      List SdoCommand
      → SdoCommand
      → ℕ
      → SdoTransferState
      → ObjectDictionary S
      → Option (Result Bool ℕ × ObjectDictionary S)
  unfolding process_download_segment
  download [] last now t od = elim (process_download_segment backend is_utf8 last now t od) [
    | none ↦ none
    | some r ↦ some (r.0, r.2)
  ]
  download (c ∷ cs) last now t od =
      next_call (process_download_segment backend is_utf8 c now t od)
        (λ t' od'. download cs last now t' od')

  -- The bytes of a value are written as the value.
  perform_od_write-serialize :
      (t : SdoTransferState) (od : ObjectDictionary S) (v w : ObjectValue)
      → t.data_buffer ≡ serialize v
      → read od t.index t.sub_index ≡ some w
      → same_type w v ≡ true
      → IsValue is_utf8 v
      → perform_od_write backend is_utf8 t od ≡ some (write_value backend is_utf8 t od w v)
  unfolding perform_od_write
  perform_od_write-serialize t od v w b r same h =
      let value : deserialize is_utf8 t.data_buffer w ≡ some (ok v) =
        ap (λ bytes. deserialize is_utf8 bytes w) b
        ∙ deserialize-serialize_value is_utf8 v w h same in
      rw (perform_od_write, r, value) refl

  write_value-same_type :
      (t : SdoTransferState) (od : ObjectDictionary S) (v w : ObjectValue)
      → same_type w v ≡ true
      → write_value backend is_utf8 t od w v ≡ coded (write backend od t.index t.sub_index v)
  unfolding write_value same_type
  write_value-same_type t od v w same = ground (arith, same)

  -- The last step of a download that has all the bytes of a value.
  finish_download-serialize :
      (t : SdoTransferState) (od : ObjectDictionary S) (v w : ObjectValue)
      → t.data_buffer ≡ serialize v
      → t.offset ≡ t.total_size
      → read od t.index t.sub_index ≡ some w
      → same_type w v ≡ true
      → IsValue is_utf8 v
      → finish_download backend is_utf8 t od
        ≡ some (finished (coded (write backend od t.index t.sub_index v)))
  unfolding finish_download
  finish_download-serialize t od v w b o r same h =
      rw
        (
          finish_download,
          perform_od_write-serialize t od v w b r same h,
          write_value-same_type t od v w same,
          o,
        )
        (ground arith)

  -- The transfer after a segment.
  abbrev taken : SdoCommand → SdoTransferState → SdoTransferState
  taken c t = record t {
    data_buffer = t.data_buffer ++ c.payload;
    offset = t.offset + length c.payload;
  }

  process_last :
      (c : SdoCommand) (now : ℕ) (t : SdoTransferState) (od : ObjectDictionary S)
      → is_complete c.header.segmentation ≡ true
      → t.offset + length c.payload ≤ t.total_size
      → process_download_segment backend is_utf8 c now t od
        ≡ (elim (finish_download backend is_utf8 (taken c t) od) [
          | none ↦ none
          | some r ↦ some (r.0, taken c t, r.1)
        ])
  unfolding process_download_segment
  process_last c now t od done fits =
      let inside : ltb t.total_size (t.offset + length c.payload) ≡ false = ground arith in
      rw (process_download_segment, inside, done) refl

  process_more :
      (c : SdoCommand) (now : ℕ) (t : SdoTransferState) (od : ObjectDictionary S)
      → is_complete c.header.segmentation ≡ false
      → t.offset + length c.payload ≤ t.total_size
      → process_download_segment backend is_utf8 c now t od
        ≡ some (ok false, record (taken c t) { deadline_us = some (deadline_from od now) }, od)
  unfolding process_download_segment
  process_more c now t od more fits =
      let inside : ltb t.total_size (t.offset + length c.payload) ≡ false = ground arith in
      rw (process_download_segment, inside, more) refl

  -- A segmented download whose segments fit the announced size, the last one alone marked as
  -- complete, with the bytes of a value of the type that the dictionary holds at the address, has
  -- exactly the effect of one write of this value, with an abort code if the write fails.
  pub download-write :
      (cs : List SdoCommand) (last : SdoCommand) (now : ℕ) (t : SdoTransferState)
      (od : ObjectDictionary S) (v w : ObjectValue)
      → All (λ c. is_complete c.header.segmentation ≡ false) cs
      → is_complete last.header.segmentation ≡ true
      → t.total_size ≡ t.offset + length (payloads cs ++ last.payload)
      → t.data_buffer ++ (payloads cs ++ last.payload) ≡ serialize v
      → read od t.index t.sub_index ≡ some w
      → same_type w v ≡ true
      → IsValue is_utf8 v
      → download cs last now t od ≡ some (finished (coded (write backend od t.index t.sub_index v)))
  unfolding download
  download-write [] last now t od v w _ done total whole r same h =
      let end = finish_download-serialize (taken last t) od v w whole (sym total) r same h in
      rw (download, process_last last now t od done (omega (arith, total)), end) refl
  download-write (c ∷ cs) last now t od v w more done total whole r same h =
      let split : (c.payload ++ payloads cs) ++ last.payload
          ≡ c.payload ++ (payloads cs ++ last.payload) =
        append_assoc c.payload (payloads cs) last.payload in
      let size : length (payloads (c ∷ cs) ++ last.payload)
          ≡ length c.payload + length (payloads cs ++ last.payload) =
        ap length split ∙ length-append c.payload (payloads cs ++ last.payload) in
      let joined : (t.data_buffer ++ c.payload) ++ (payloads cs ++ last.payload) ≡ serialize v =
        append_assoc t.data_buffer c.payload (payloads cs ++ last.payload)
        ∙ ap (λ l. t.data_buffer ++ l) (sym split)
        ∙ whole in
      let next = record (taken c t) { deadline_us = some (deadline_from od now) } in
      rw (download, process_more c now t od more.0 (omega (arith, total, size)))
        (download-write cs last now next od v w more.1 done (omega (arith, total, size)) joined r
          same h)
