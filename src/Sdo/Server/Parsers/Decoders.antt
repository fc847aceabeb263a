-- ===== src/Sdo/Server/Parsers/Decoders.antt =====
-- The decoders of a value and of a command never read outside their bytes.
use powerlink_rs.Common.{
  ℕ, ◌+◌, ◌%◌, ◌≤◌, ◌≡◌, refl, Bool, ltb, ◌==◌, Option, none, some, List, length, arith, Bool-cases,
  Option-cases, Result-cases, inl, inr, ◌⊎◌,
}
use powerlink_rs.Common.Bytes.{inside_lem, read_u32_le}
use powerlink_rs.Od.Value.{
  ObjectValue, boolean, integer8, integer16, integer32, integer64, unsigned8, unsigned16,
  unsigned32, unsigned64, real32, real64, visible_string, octet_string, unicode_string, domain,
  time_of_day, time_difference, net_time, mac_address, ip_address,
}
use powerlink_rs.Od.Dictionary.{StorageBackend, ObjectDictionary, read, read_object}
use powerlink_rs.Od.Bytes.{checked, fixed, deserialize}
use powerlink_rs.Sdo.Command.{
  Segmentation, expedited, initiate, segment, complete, CommandLayerHeader,
}
use powerlink_rs.Sdo.Command.Codec.{read_header, read_payload, read_body}
use powerlink_rs.Sdo.Command.Codec
use powerlink_rs.Sdo.Transfer.{SdoTransferState}
use powerlink_rs.Sdo.Download.{perform_od_write}
use powerlink_rs.Sdo.Server.Parsers.{Returns, returned, guarded-Returns, slice-Returns}

module _ (is_utf8 : List ℕ → Bool) where
  checked-Returns :
      (least count : ℕ) (bytes : List ℕ) (v : ObjectValue)
      → count ≤ least
      → Returns (checked least count bytes v)
  unfolding checked
  checked-Returns least count bytes v h = guarded-Returns least count bytes _ _ h

  fixed-Returns : (size : ℕ) (bytes : List ℕ) (v : ObjectValue) → Returns (fixed size bytes v)
  unfolding fixed
  fixed-Returns size bytes v = checked-Returns size size bytes v (omega arith)

  -- A value is read of any bytes, or refused.
  deserialize_value-Returns :
      (bytes : List ℕ) (t : ObjectValue) → Returns (deserialize is_utf8 bytes t)
  unfolding deserialize
  deserialize_value-Returns bytes (boolean _) = fixed-Returns 1 bytes _
  deserialize_value-Returns bytes (integer8 _) = fixed-Returns 1 bytes _
  deserialize_value-Returns bytes (integer16 _) = fixed-Returns 2 bytes _
  deserialize_value-Returns bytes (integer32 _) = fixed-Returns 4 bytes _
  deserialize_value-Returns bytes (integer64 _) = fixed-Returns 8 bytes _
  deserialize_value-Returns bytes (unsigned8 _) = fixed-Returns 1 bytes _
  deserialize_value-Returns bytes (unsigned16 _) = fixed-Returns 2 bytes _
  deserialize_value-Returns bytes (unsigned32 _) = fixed-Returns 4 bytes _
  deserialize_value-Returns bytes (unsigned64 _) = fixed-Returns 8 bytes _
  deserialize_value-Returns bytes (real32 _) = fixed-Returns 4 bytes _
  deserialize_value-Returns bytes (real64 _) = fixed-Returns 8 bytes _
  deserialize_value-Returns bytes (visible_string _) = returned _
  deserialize_value-Returns bytes (octet_string _) = returned _
  deserialize_value-Returns bytes (unicode_string _) = elim (Bool-cases (length bytes % 2 == 0)) [
    | inl q ↦ rw q (returned _)
    | inr q ↦ rw q (returned _)
  ]
  deserialize_value-Returns bytes (domain _) = returned _
  deserialize_value-Returns bytes (time_of_day _) = checked-Returns 6 6 bytes _ (omega arith)
  deserialize_value-Returns bytes (time_difference _) = checked-Returns 6 6 bytes _ (omega arith)
  deserialize_value-Returns bytes (net_time _) = checked-Returns 8 8 bytes _ (omega arith)
  deserialize_value-Returns bytes (mac_address _) = checked-Returns 6 6 bytes _ (omega arith)
  deserialize_value-Returns bytes (ip_address _) = checked-Returns 4 4 bytes _ (omega arith)

pub Segmentation-cases :
    (g : Segmentation) → (g ≡ expedited) ⊎ ((g ≡ initiate) ⊎ ((g ≡ segment) ⊎ (g ≡ complete)))
Segmentation-cases expedited = inl refl
Segmentation-cases initiate = inr (inl refl)
Segmentation-cases segment = inr (inr (inl refl))
Segmentation-cases complete = inr (inr (inr refl))

read_payload-Returns :
    (header : CommandLayerHeader) (size : Option ℕ) (offset : ℕ) (buffer : List ℕ)
    → Returns (read_payload header size offset buffer)
unfolding read_payload
read_payload-Returns header size offset buffer =
    elim (Bool-cases (ltb (length buffer) (offset + header.segment_size))) [
      | inl q ↦ rw (read_payload, q) (returned _)
      | inr q ↦
          let (payload, r) =
            slice-Returns offset (offset + header.segment_size) buffer (omega arith)
              (ground arith) in
          rw (read_payload, q, r) (returned _)
    ]

read_body-Returns :
    (buffer : List ℕ) (header : CommandLayerHeader) → Returns (read_body buffer header)
unfolding read_body
read_body-Returns buffer header = elim (Segmentation-cases header.segmentation) [
  | inl q ↦ rw (read_body, q) (read_payload-Returns header none 8 buffer)
  | inr (inl q) ↦ elim (Bool-cases (ltb (length buffer) 12)) [
    | inl r ↦ rw (read_body, q, r) (returned _)
    | inr r ↦
        rw (read_body, q, r, inside_lem 12 buffer (read_u32_le buffer 8) (ground arith))
          (read_payload-Returns header (some (read_u32_le buffer 8)) 12 buffer)
  ]
  | inr (inr (inl q)) ↦ rw (read_body, q) (read_payload-Returns header none 8 buffer)
  | inr (inr (inr q)) ↦ rw (read_body, q) (read_payload-Returns header none 8 buffer)
]

-- A command is read of any octets, or refused.
pub deserialize_command-Returns : (buffer : List ℕ) → Returns (Codec.deserialize buffer)
unfolding Codec.deserialize
deserialize_command-Returns buffer = elim (Bool-cases (ltb (length buffer) 8)) [
  | inl q ↦ rw (Codec.deserialize, q) (returned _)
  | inr q ↦ elim (Result-cases (read_header buffer)) [
    | inl (header, r) ↦
        rw (Codec.deserialize, q, inside_lem 6 buffer (read_header buffer) (ground arith), r)
          (read_body-Returns buffer header)
    | inr (e, r) ↦
        rw (Codec.deserialize, q, inside_lem 6 buffer (read_header buffer) (ground arith), r)
          (returned _)
  ]
]

module _ {S : Type 0} (backend : StorageBackend S) (is_utf8 : List ℕ → Bool) where
  -- A write of any bytes to any address succeeds or gives an abort code.
  pub perform_od_write-Returns :
      (t : SdoTransferState) (od : ObjectDictionary S)
      → Returns (perform_od_write backend is_utf8 t od)
  unfolding perform_od_write
  perform_od_write-Returns t od = elim (Option-cases (read od t.index t.sub_index)) [
    | inl q ↦ elim (Option-cases (read_object od t.index)) [
      | inl r ↦ rw (perform_od_write, q, r) (returned _)
      | inr (o, r) ↦ rw (perform_od_write, q, r) (returned _)
    ]
    | inr (w, q) ↦
        let (result, r) = deserialize_value-Returns is_utf8 t.data_buffer w in
        elim (Result-cases result) [
          | inl (value, e) ↦ rw (perform_od_write, q, r, e) (returned _)
          | inr (x, e) ↦ rw (perform_od_write, q, r, e) (returned _)
        ]
  ]
