-- ===== src/Sdo/Sequence.antt =====
-- crates/powerlink-rs/src/sdo/sequence.rs: the header of the SDO sequence layer.
pub mod RoundTrip
use powerlink_rs.Common.{
  ℕ, ◌*◌, ◌/◌, ◌%◌, bit_and, bit_or, ltb, ◌==◌, if◌then◌else◌, List, [], ◌∷◌, length, get_or,
  Result, ok, err, ◌>>=◌,
}
use powerlink_rs.Common.Bytes.{write_slice}
use powerlink_rs.Hal.{PowerlinkError, buffer_too_short, invalid_enum_value}

-- `enum ReceiveConnState`
pub data ReceiveConnState : Type 0 where
  no_connection initialization connection_valid error_response : ReceiveConnState

unfoldable pub receive_con_code : ReceiveConnState → ℕ
receive_con_code no_connection = 0
receive_con_code initialization = 1
receive_con_code connection_valid = 2
receive_con_code error_response = 3

unfoldable pub receive_con_try_from : ℕ → Result ReceiveConnState PowerlinkError
receive_con_try_from value =
    if value == 0
    then ok no_connection
    else if value == 1
    then ok initialization
    else if value == 2
    then ok connection_valid
    else if value == 3
    then ok error_response
    else err invalid_enum_value

-- `enum SendConnState`
pub data SendConnState : Type 0 where
  not_connected initializing valid valid_ack_request : SendConnState

unfoldable pub send_con_code : SendConnState → ℕ
send_con_code not_connected = 0
send_con_code initializing = 1
send_con_code valid = 2
send_con_code valid_ack_request = 3

unfoldable pub send_con_try_from : ℕ → Result SendConnState PowerlinkError
send_con_try_from value =
    if value == 0
    then ok not_connected
    else if value == 1
    then ok initializing
    else if value == 2
    then ok valid
    else if value == 3
    then ok valid_ack_request
    else err invalid_enum_value

-- `struct SequenceLayerHeader`
pub record SequenceLayerHeader : Type 0 where
  pub receive_sequence_number : ℕ
  pub receive_con : ReceiveConnState
  pub send_sequence_number : ℕ
  pub send_con : SendConnState

-- `(number << 2) | code` and `(octet >> 2) & 0b0011_1111` on `u8`
unfoldable pub join_octet : ℕ → ℕ → ℕ
join_octet number code = bit_or (number * 4 % 256) code

unfoldable pub number_of_octet : ℕ → ℕ
number_of_octet octet = bit_and (octet / 4) 63

unfoldable pub code_of_octet : ℕ → ℕ
code_of_octet octet = bit_and octet 3

-- `serialize`: the result, and the buffer as it is left.
unfoldable pub serialize : SequenceLayerHeader → List ℕ → Result ℕ PowerlinkError × List ℕ
unfolding join_octet receive_con_code send_con_code
serialize h buffer = if ltb (length buffer) 4 then (err buffer_too_short, buffer) else (
  ok 4,
  write_slice 0
      (join_octet h.receive_sequence_number (receive_con_code h.receive_con)
        ∷ join_octet h.send_sequence_number (send_con_code h.send_con)
        ∷ 0
        ∷ 0
        ∷ [])
      buffer,
)

-- `deserialize` after its length check
unfoldable pub read_header : ℕ → ℕ → Result SequenceLayerHeader PowerlinkError
unfolding number_of_octet code_of_octet receive_con_try_from send_con_try_from
read_header octet0 octet1 = do
  receive_con ← receive_con_try_from (code_of_octet octet0)
  send_con ← send_con_try_from (code_of_octet octet1)
  ok (record {
    receive_sequence_number = number_of_octet octet0;
    receive_con = receive_con;
    send_sequence_number = number_of_octet octet1;
    send_con = send_con;
  })

unfoldable pub deserialize : List ℕ → Result SequenceLayerHeader PowerlinkError
unfolding read_header
deserialize buffer =
    if ltb (length buffer) 4
    then err buffer_too_short
    else read_header (get_or buffer 0 0) (get_or buffer 1 0)
