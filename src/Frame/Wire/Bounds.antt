-- ===== src/Frame/Wire/Bounds.antt =====
-- When a frame fits into a buffer.
use powerlink_rs.Common.{ℕ, ◌+◌, ◌-◌, replicate, ◌≤◌, max, ◌≡◌, refl, ◌↔◌, List, length, ok, arith}
use powerlink_rs.Common.Bytes.{write_slice, length-write_slice}
use powerlink_rs.Frame.Padded.{padded_size, write_padded}
use powerlink_rs.Frame.Soc.{serialize_soc}
use powerlink_rs.Frame.Soa.{serialize_soa}
use powerlink_rs.Frame.Preq.{serialize_preq}
use powerlink_rs.Frame.Pres.{serialize_pres}
use powerlink_rs.Frame.Asnd.{serialize_asnd}
use powerlink_rs.Frame.Wire.{PowerlinkFrame, soc, preq, pres, soa, asnd, serialize}
use powerlink_rs.Frame.Wire.RoundTrip.{fields, payload}

serialize-eq-write_padded :
    (f : PowerlinkFrame) (buffer : List ℕ)
    → serialize f buffer ≡ write_padded (fields f) (payload f) buffer
unfolding serialize serialize_soc serialize_soa serialize_preq serialize_pres serialize_asnd fields
    payload
serialize-eq-write_padded (soc f) buffer = refl
serialize-eq-write_padded (preq f) buffer = refl
serialize-eq-write_padded (pres f) buffer = refl
serialize-eq-write_padded (soa f) buffer = refl
serialize-eq-write_padded (asnd f) buffer = refl

module _ (fields payload buffer : List ℕ) where
  length-write_padded : length (write_padded fields payload buffer).1 ≡ length buffer
  unfolding write_padded
  length-write_padded =
      let size = length fields + length payload in
      let first = write_slice 0 fields buffer in
      let written = write_slice (length fields) payload first in
      let zeros : List ℕ = replicate (padded_size fields payload - size) 0 in
      ground (
        arith,
        length-write_slice 0 fields buffer,
        length-write_slice (length fields) payload first,
        length-write_slice size zeros written,
      )

  write_padded-fits_iff :
      (n : ℕ)
      → ((write_padded fields payload buffer).0 ≡ ok n)
        ↔ ((n ≡ padded_size fields payload) × (n ≤ length buffer))
  unfolding write_padded
  write_padded-fits_iff n = (λ h. ground arith, λ h. ground arith)

-- Serialising never moves the end of the buffer, and it succeeds exactly in a buffer that holds
-- the fields and the payload with padding to 46 bytes, and reports this size.
pub serialize-fits_iff :
    (f : PowerlinkFrame) (buffer : List ℕ) (n : ℕ)
    → (length (serialize f buffer).1 ≡ length buffer)
      × (((serialize f buffer).0 ≡ ok n)
          ↔ ((n ≡ max (length (fields f) + length (payload f)) 46) × (n ≤ length buffer)))
serialize-fits_iff f buffer n =
    rw (serialize-eq-write_padded f buffer)
      (length-write_padded _ _ buffer, write_padded-fits_iff _ _ buffer n)
