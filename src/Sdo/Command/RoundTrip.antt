-- ===== src/Sdo/Command/RoundTrip.antt =====
-- An SDO command is read back from its bytes.
use powerlink_rs.Common.{
  ℕ, ◌+◌, ◌*◌, ◌/◌, ◌%◌, ◌≤◌, ◌<◌, ◌≡◌, refl, bit_and, Bool, true, false, if◌then◌else◌, none, some,
  List, ◌++◌, length, take, drop, length-drop, length-append, take-append, ok, arith, Bool-cases,
  inl, inr,
}
use powerlink_rs.Common.Bytes.{
  slice_lem, inside, write_slice, overwrite_lem, has_flag, le_bytes4, read_u16_le, read_u32_le,
}
use powerlink_rs.Sdo.Command.{
  CommandId, Segmentation, expedited, initiate, segment, complete, CommandLayerHeader, SdoCommand,
}
use powerlink_rs.Sdo.Command.Codec.{
  command_id_code, command_id_try_from, segmentation_try_from, flags_of, header_bytes,
  write_payload, serialize, read_header, read_payload, read_body, deserialize,
}

command_id_try_from-code : (c : CommandId) → command_id_try_from (command_id_code c) ≡ ok c
unfolding command_id_try_from command_id_code
command_id_try_from-code c = ground arith

-- The three fields of the flags, read back.
flags_of-reads :
    (r a : Bool) (s : Segmentation)
    → (has_flag (flags_of r a s) 0x10 ≡ r)
      × (has_flag (flags_of r a s) 0x20 ≡ a)
      × (segmentation_try_from (bit_and (flags_of r a s / 64) 3) ≡ ok s)
unfolding has_flag flags_of segmentation_try_from
flags_of-reads true true expedited = (refl, refl, refl)
flags_of-reads true true initiate = (refl, refl, refl)
flags_of-reads true true segment = (refl, refl, refl)
flags_of-reads true true complete = (refl, refl, refl)
flags_of-reads true false expedited = (refl, refl, refl)
flags_of-reads true false initiate = (refl, refl, refl)
flags_of-reads true false segment = (refl, refl, refl)
flags_of-reads true false complete = (refl, refl, refl)
flags_of-reads false true expedited = (refl, refl, refl)
flags_of-reads false true initiate = (refl, refl, refl)
flags_of-reads false true segment = (refl, refl, refl)
flags_of-reads false true complete = (refl, refl, refl)
flags_of-reads false false expedited = (refl, refl, refl)
flags_of-reads false false initiate = (refl, refl, refl)
flags_of-reads false false segment = (refl, refl, refl)
flags_of-reads false false complete = (refl, refl, refl)

-- The header is read back from the front of any buffer.
read_header-header_bytes :
    (h : CommandLayerHeader) (rest : List ℕ)
    → h.segment_size < 65536
    → read_header (header_bytes h ++ rest) ≡ ok h
unfolding read_header header_bytes read_u16_le
read_header-header_bytes h rest s =
    let (response, aborted, segmentation) =
      flags_of-reads h.is_response h.is_aborted h.segmentation in
    rw (
      response,
      aborted,
      segmentation,
      command_id_try_from-code h.command_id,
      size h.segment_size s,
    )
  where
    size : (n : ℕ) → n < 65536 → n % 256 + n / 256 % 256 * 256 ≡ n
    size n h = omega arith

read_u32_le-le_bytes4 :
    (n : ℕ) (front : CommandLayerHeader) (rest : List ℕ)
    → n < 4294967296
    → read_u32_le (header_bytes front ++ le_bytes4 n ++ rest) 8 ≡ n
unfolding read_u32_le le_bytes4 header_bytes
read_u32_le-le_bytes4 n front rest h = omega arith

abbrev pub is_initiate : Segmentation → Bool
is_initiate initiate = true
is_initiate _ = false

-- A command whose header tells the length of its payload, with a data size exactly in an
-- initiate frame.
pub record IsCommand (c : SdoCommand) : Type 0 where
  pub fits : c.header.segment_size ≡ length c.payload
  pub small : c.header.segment_size < 65536
  pub size : ℕ
  pub size_small : size < 4294967296
  pub has_size : c.data_size ≡ (if is_initiate c.header.segmentation then some size else none)

-- Where the payload starts.
abbrev pub offset_of : SdoCommand → ℕ
offset_of c = if is_initiate c.header.segmentation then 12 else 8

take-append_at : (n : ℕ) (xs ys : List ℕ) → n ≡ length xs → take n (xs ++ ys) ≡ xs
take-append_at n xs ys h = rw h (take-append xs ys)

-- A command without a data size, from its bytes.
read-plain :
    (c : SdoCommand) (rest : List ℕ)
    → IsCommand c
    → is_initiate c.header.segmentation ≡ false
    → deserialize (header_bytes c.header ++ (c.payload ++ rest)) ≡ some (ok c)
unfolding deserialize read_body read_payload header_bytes inside
read-plain c rest v q =
    let fits = v.fits in
    let has_size = v.has_size in
    ground (
      arith,
      read_header-header_bytes c.header (c.payload ++ rest) v.small,
      take-append_at c.header.segment_size c.payload rest fits,
      slice_lem 8 c.header.segment_size (header_bytes c.header ++ (c.payload ++ rest))
          (ground (arith, length-append c.payload rest)),
      length-append c.payload rest,
      q,
    )

-- An initiate frame, from its bytes.
read-initiate :
    (c : SdoCommand) (rest : List ℕ) (v : IsCommand c)
    → is_initiate c.header.segmentation ≡ true
    → deserialize (header_bytes c.header ++ (le_bytes4 v.size ++ (c.payload ++ rest))) ≡ some (ok c)
unfolding deserialize read_body read_payload header_bytes le_bytes4 inside
read-initiate c rest v q =
    let fits = v.fits in
    let has_size = v.has_size in
    ground (
      arith,
      read_header-header_bytes c.header (le_bytes4 v.size ++ (c.payload ++ rest)) v.small,
      read_u32_le-le_bytes4 v.size c.header (c.payload ++ rest) v.size_small,
      take-append_at c.header.segment_size c.payload rest fits,
      slice_lem 12 c.header.segment_size
          (header_bytes c.header ++ (le_bytes4 v.size ++ (c.payload ++ rest)))
          (ground (arith, length-append c.payload rest)),
      length-append c.payload rest,
      q,
    )

-- The buffer after a write of the fixed header.
write-header_bytes :
    (h : CommandLayerHeader) (buffer : List ℕ)
    → 8 ≤ length buffer
    → write_slice 0 (header_bytes h) buffer ≡ header_bytes h ++ drop 8 buffer
unfolding header_bytes
write-header_bytes h buffer l = overwrite_lem (header_bytes h) buffer l

-- What `serialize` leaves of a buffer that is long enough.
serialize-plain :
    (c : SdoCommand) (buffer : List ℕ)
    → is_initiate c.header.segmentation ≡ false
    → 8 + length c.payload ≤ length buffer
    → serialize c buffer ≡ (
      ok (8 + length c.payload),
      header_bytes c.header ++ (c.payload ++ drop (length c.payload) (drop 8 buffer)),
    )
unfolding serialize write_payload header_bytes
serialize-plain c buffer q l = ground (
  arith,
  write-header_bytes c.header buffer (omega arith),
  overwrite_lem c.payload (drop 8 buffer) (omega (arith, length-drop 8 buffer)),
  length-drop 8 buffer,
  q,
)

serialize-initiate :
    (c : SdoCommand) (buffer : List ℕ) (v : IsCommand c)
    → is_initiate c.header.segmentation ≡ true
    → 12 + length c.payload ≤ length buffer
    → let rest = drop 4 (drop 8 buffer) in
      serialize c buffer ≡ (
        ok (12 + length c.payload),
        header_bytes c.header ++ (le_bytes4 v.size ++ (c.payload ++ drop (length c.payload) rest)),
      )
unfolding serialize write_payload header_bytes le_bytes4
serialize-initiate c buffer v q l =
    let has_size = v.has_size in
    let rest = drop 4 (drop 8 buffer) in
    ground (
      arith,
      write-header_bytes c.header buffer (omega arith),
      overwrite_lem (le_bytes4 v.size) (drop 8 buffer) (omega (arith, length-drop 8 buffer)),
      overwrite_lem c.payload rest
          (omega (arith, length-drop 8 buffer, length-drop 4 (drop 8 buffer))),
      length-drop 8 buffer,
      length-drop 4 (drop 8 buffer),
      q,
    )

-- A command of the right form, written into a buffer with room for it, is reported with its
-- length and is read back unchanged from the buffer, whatever stands behind it.
pub deserialize-serialize_command :
    (c : SdoCommand) (buffer : List ℕ)
    → IsCommand c
    → offset_of c + length c.payload ≤ length buffer
    → ((serialize c buffer).0 ≡ ok (offset_of c + length c.payload))
      × (deserialize (serialize c buffer).1 ≡ some (ok c))
deserialize-serialize_command c buffer v l = elim (Bool-cases (is_initiate c.header.segmentation)) [
  | inl q ↦
      let written = serialize-initiate c buffer v q (rw q at l) in
      rw (q, written) (refl, read-initiate c _ v q)
  | inr q ↦
      let written = serialize-plain c buffer q (rw q at l) in
      rw (q, written) (refl, read-plain c _ v q)
]
