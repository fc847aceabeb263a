-- ===== src/Sdo/Sequence/RoundTrip.antt =====
-- Every header that fits its six-bit fields is read back as it was written.
use powerlink_rs.Common.{ℕ, ◌≤◌, ◌<◌, ◌≡◌, refl, true, List, [], ◌∷◌, length, ok, arith}
use powerlink_rs.Common.Tables.{agree_below, agree_below→eq}
use powerlink_rs.Sdo.Sequence.{
  ReceiveConnState, no_connection, initialization, connection_valid, error_response,
  receive_con_code, receive_con_try_from, SendConnState, not_connected, initializing, valid,
  valid_ack_request, send_con_code, send_con_try_from, SequenceLayerHeader, join_octet,
  number_of_octet, code_of_octet, serialize, read_header, deserialize,
}

-- What the two readers get back from an octet.
abbrev ReadsBack : ℕ → ℕ → Type 0
ReadsBack n code =
    (number_of_octet (join_octet n code) ≡ n) × (code_of_octet (join_octet n code) ≡ code)

octet-ReadsBack :
    (code : ℕ)
    → agree_below (λ n. number_of_octet (join_octet n code)) (λ n. n) 64 ≡ true
    → agree_below (λ n. code_of_octet (join_octet n code)) (λ n. code) 64 ≡ true
    → (n : ℕ) → n < 64
    → ReadsBack n code
octet-ReadsBack code number same n h = (
  agree_below→eq (λ n. number_of_octet (join_octet n code)) (λ n. n) 64 number n h,
  agree_below→eq (λ n. code_of_octet (join_octet n code)) (λ n. code) 64 same n h,
)

receive_con-reads : (n : ℕ) (c : ReceiveConnState) → n < 64 → ReadsBack n (receive_con_code c)
unfolding number_of_octet join_octet code_of_octet agree_below receive_con_code
receive_con-reads n no_connection h = octet-ReadsBack 0 refl refl n h
receive_con-reads n initialization h = octet-ReadsBack 1 refl refl n h
receive_con-reads n connection_valid h = octet-ReadsBack 2 refl refl n h
receive_con-reads n error_response h = octet-ReadsBack 3 refl refl n h

send_con-reads : (n : ℕ) (c : SendConnState) → n < 64 → ReadsBack n (send_con_code c)
unfolding number_of_octet join_octet code_of_octet agree_below send_con_code
send_con-reads n not_connected h = octet-ReadsBack 0 refl refl n h
send_con-reads n initializing h = octet-ReadsBack 1 refl refl n h
send_con-reads n valid h = octet-ReadsBack 2 refl refl n h
send_con-reads n valid_ack_request h = octet-ReadsBack 3 refl refl n h

receive_con_try_from-code :
    (c : ReceiveConnState) → receive_con_try_from (receive_con_code c) ≡ ok c
unfolding receive_con_try_from receive_con_code
receive_con_try_from-code c = ground arith

send_con_try_from-code : (c : SendConnState) → send_con_try_from (send_con_code c) ≡ ok c
unfolding send_con_try_from send_con_code
send_con_try_from-code c = ground arith

read_header-join_octet :
    (h : SequenceLayerHeader)
    → h.receive_sequence_number < 64
    → h.send_sequence_number < 64
    → read_header
        (join_octet h.receive_sequence_number (receive_con_code h.receive_con))
        (join_octet h.send_sequence_number (send_con_code h.send_con))
      ≡ ok h
unfolding read_header
read_header-join_octet h r s =
    let (number, code) = receive_con-reads h.receive_sequence_number h.receive_con r in
    let (number', code') = send_con-reads h.send_sequence_number h.send_con s in
    rw (
      number,
      code,
      number',
      code',
      receive_con_try_from-code h.receive_con,
      send_con_try_from-code h.send_con,
    )

-- A header with numbers below 64, written into any buffer of four bytes or more, is reported as
-- four bytes long and is read back unchanged from the buffer.
pub deserialize-serialize :
    (h : SequenceLayerHeader) (buffer : List ℕ)
    → h.receive_sequence_number < 64
    → h.send_sequence_number < 64
    → 4 ≤ length buffer
    → ((serialize h buffer).0 ≡ ok 4) × (deserialize (serialize h buffer).1 ≡ ok h)
unfolding serialize deserialize
deserialize-serialize h (a ∷ b ∷ c ∷ d ∷ rest) r s l =
    (ground arith, ground (arith, read_header-join_octet h r s))
deserialize-serialize h [] r s l = absurd (omega arith)
deserialize-serialize h (a ∷ []) r s l = absurd (omega arith)
deserialize-serialize h (a ∷ b ∷ []) r s l = absurd (omega arith)
deserialize-serialize h (a ∷ b ∷ c ∷ []) r s l = absurd (omega arith)
