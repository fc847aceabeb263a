-- ===== src/Sdo/Download/Refused.antt =====
-- SDO writes to the objects that store and restore parameters.
use powerlink_rs.Hal.{PowerlinkError}
use powerlink_rs.Common.{
  ℕ, ap, ok, Result, arith, ◌≡◌, refl, ◌⊎◌, inl, inr, Bool, ltb, if◌then◌else◌, some, List, length,
  err, Bool-cases,
}
use powerlink_rs.Od.Value.{ObjectValue, unsigned32, same_type}
use powerlink_rs.Od.Dictionary.{StorageBackend, ObjectDictionary, read}
use powerlink_rs.Od.Bytes.{deserialize, fixed}
use powerlink_rs.Common.Bytes.{inside_lem, read_u32_le}
use powerlink_rs.Od.Write.{write}
use powerlink_rs.Sdo.Transfer.{SdoTransferState}
use powerlink_rs.Sdo.Download.{
  coded, write_abort_code, value_abort_code, write_value, perform_od_write,
}

module _ {S : Type 0} (backend : StorageBackend S) (is_utf8 : List ℕ → Bool) where
  write-number :
      (od : ObjectDictionary S) (index sub n : ℕ)
      → (index ≡ 0x1010) ⊎ (index ≡ 0x1011)
      → coded (write backend od index sub (unsigned32 n)) ≡ (err 0x08000020, od)
  unfolding write write_abort_code
  write-number od index sub n (inl e) = rw e refl
  write-number od index sub n (inr e) = rw e refl

  -- Where the dictionary has a 32-bit number at an element of object 0x1010 or 0x1011, an SDO
  -- write of any bytes to it fails, for want of four bytes or else as data that cannot be stored,
  -- and leaves the dictionary and its storage as they were.
  pub perform_od_write-refused :
      (t : SdoTransferState) (od : ObjectDictionary S) (n : ℕ)
      → (t.index ≡ 0x1010) ⊎ (t.index ≡ 0x1011)
      → read od t.index t.sub_index ≡ some (unsigned32 n)
      → perform_od_write backend is_utf8 t od
        ≡ some (err (if ltb (length t.data_buffer) 4 then 0x06070013 else 0x08000020), od)
  unfolding perform_od_write deserialize fixed value_abort_code write_value same_type
  perform_od_write-refused t od n i r = elim (Bool-cases (ltb (length t.data_buffer) 4)) [
    | inl q ↦ rw (perform_od_write, r, q) refl
    | inr q ↦
        let four : Result ObjectValue PowerlinkError =
          ok (unsigned32 (read_u32_le t.data_buffer 0)) in
        rw (perform_od_write, r, q, inside_lem 4 t.data_buffer four (ground arith))
          (ap some (write-number od t.index t.sub_index _ i))
  ]
