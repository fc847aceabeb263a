-- ===== src/Sdo/Server/Parsers.antt =====
-- The parsers of request payloads never read outside their octets.
use powerlink_rs.Common.{
  ℕ, ◌+◌, ◌%◌, ◌<◌, ◌≤◌, ◌≡◌, refl, Bool, true, false, leb, ltb, ◌==◌, if◌then◌else◌, Option, none,
  some, List, [], ◌∷◌, length, arith, Bool-cases, Option-cases, Result-cases, inl, inr, ◌⊎◌,
}
use powerlink_rs.Common.Bytes.{slice, inside, inside_lem, read_u16_le, read_u32_le}
use powerlink_rs.Od.Value.{
  ObjectValue, boolean, integer8, integer16, integer32, integer64, unsigned8, unsigned16,
  unsigned32, unsigned64, real32, real64, visible_string, octet_string, unicode_string, domain,
  time_of_day, time_difference, net_time, mac_address, ip_address,
}
use powerlink_rs.Od.Dictionary.{StorageBackend, ObjectDictionary, read, read_object}
use powerlink_rs.Od.Bytes.{checked, fixed, deserialize}
use powerlink_rs.Sdo.Command.{
  Segmentation, expedited, initiate, segment, complete, CommandLayerHeader, SdoCommand,
}
use powerlink_rs.Sdo.Command.Codec.{read_header, read_payload, read_body}
use powerlink_rs.Sdo.Command.Codec
use powerlink_rs.Sdo.Transfer.{SdoTransferState}
use powerlink_rs.Sdo.Download.{perform_od_write}
use powerlink_rs.Sdo.Handlers.{handle_max_segment_size}
use powerlink_rs.Sdo.Requests.{
  zero_position, position_or, read_by_index_from_payload, write_by_index_from_payload,
  read_by_name_from_payload, write_by_name_from_payload, with_content,
}
pub mod Decoders

-- A result, and not a panic.
abbrev pub Returns : {A : Type 0} → Option A → Type 0
Returns {A} r = (a : A) × (r ≡ some a)

pub returned : {A : Type 0} (a : A) → Returns (some a)
returned a = (a, refl)

pub inside-Returns :
    {A : Type 0} (count : ℕ) (buffer : List ℕ) (a : A)
    → count ≤ length buffer
    → Returns (inside count buffer a)
inside-Returns count buffer a h = (a, inside_lem count buffer a h)

-- A test of the length before a read.
pub guarded-Returns :
    {A : Type 0} (least count : ℕ) (buffer : List ℕ) (a b : A)
    → count ≤ least
    → Returns (if ltb (length buffer) least then some a else inside count buffer b)
guarded-Returns least count buffer a b h = elim (Bool-cases (ltb (length buffer) least)) [
  | inl q ↦ rw q (returned a)
  | inr q ↦ rw q (inside-Returns count buffer b (ground arith))
]

pub read_by_index-Returns : (payload : List ℕ) → Returns (read_by_index_from_payload payload)
unfolding read_by_index_from_payload
read_by_index-Returns payload = guarded-Returns 4 3 payload _ _ (omega arith)

pub max_segment_size-Returns :
    (command : SdoCommand) (header : CommandLayerHeader)
    → Returns (handle_max_segment_size command header)
unfolding handle_max_segment_size
max_segment_size-Returns command header = elim (Bool-cases (leb 2 (length command.payload))) [
  | inl q ↦
      let read = inside_lem 2 command.payload (read_u16_le command.payload 0) (ground arith) in
      rw (handle_max_segment_size, q) (returned _)
  | inr q ↦ rw (handle_max_segment_size, q) (returned _)
]

pub write_by_index-Returns : (payload : List ℕ) → Returns (write_by_index_from_payload payload)
unfolding write_by_index_from_payload
write_by_index-Returns payload = guarded-Returns 4 4 payload _ _ (omega arith)

pub slice-Returns :
    (from to : ℕ) (buffer : List ℕ)
    → from ≤ to
    → to ≤ length buffer
    → Returns (slice from to buffer)
unfolding slice
slice-Returns from to buffer h i =
    let upwards : leb from to ≡ true = ground arith in
    let in_buffer : leb to (length buffer) ≡ true = ground arith in
    rw (upwards, in_buffer) (returned _)

zero_position-lt : (bs : List ℕ) (i : ℕ) → zero_position bs ≡ some i → i < length bs
unfolding zero_position
zero_position-lt [] i e = absurd (ground arith)
zero_position-lt (b ∷ bs) i e = elim (Option-cases (zero_position bs)) [
  | inl q ↦ ground (arith, q)
  | inr (j, q) ↦ ground (arith, q, zero_position-lt bs j q)
]

name_end-lt :
    (payload : List ℕ)
    → (position_or (zero_position payload) 0 == 0) ≡ false
    → position_or (zero_position payload) 0 < length payload
name_end-lt payload z = elim (Option-cases (zero_position payload)) [
  | inl q ↦ absurd (ground (arith, q, z))
  | inr (i, q) ↦ let inner = zero_position-lt payload i q in rw q inner
]

module _ (is_utf8 : List ℕ → Bool) where
  pub read_by_name-Returns :
      (payload : List ℕ) → Returns (read_by_name_from_payload is_utf8 payload)
  unfolding read_by_name_from_payload
  read_by_name-Returns payload =
      let (name, q) =
        slice-Returns 0 (position_or (zero_position payload) (length payload)) payload (omega arith)
          below in
      rw (read_by_name_from_payload, q) (returned _)
    where
      below : position_or (zero_position payload) (length payload) ≤ length payload
      below = elim (Option-cases (zero_position payload)) [
        | inl q ↦ rw q (omega arith)
        | inr (i, q) ↦ let inner = zero_position-lt payload i q in rw q (omega arith)
      ]

  with_content-Returns :
      (name : List ℕ) (from : ℕ) (payload : List ℕ)
      → from ≤ length payload
      → Returns (with_content is_utf8 name from payload)
  unfolding with_content
  with_content-Returns name from payload h =
      let (content, r) = slice-Returns from (length payload) payload h (omega arith) in
      elim (Bool-cases (is_utf8 name)) [
        | inl u ↦ rw (with_content, u, r) (returned _)
        | inr u ↦ rw (with_content, u) (returned _)
      ]

  pub write_by_name-Returns :
      (payload : List ℕ) → Returns (write_by_name_from_payload is_utf8 payload)
  unfolding write_by_name_from_payload
  write_by_name-Returns payload = elim (Bool-cases (position_or (zero_position payload) 0 == 0)) [
    | inl z ↦ rw (write_by_name_from_payload, z) (returned _)
    | inr z ↦
        let name_end = position_or (zero_position payload) 0 in
        let inner = name_end-lt payload z in
        let (name, q) = slice-Returns 0 name_end payload (omega arith) (omega arith) in
        rw (write_by_name_from_payload, z, q)
          (with_content-Returns name (name_end + 1) payload (omega arith))
  ]
