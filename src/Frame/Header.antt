-- ===== src/Frame/Header.antt =====
-- crates/powerlink-rs/src/frame/basic.rs and codec.rs: the Ethernet header and the start of a
-- POWERLINK frame. A slice is taken where the length was tested, so that its conversion to an
-- array does not fail.
use powerlink_rs.Common.{
  ℕ, ◌+◌, ◌*◌, ◌/◌, ◌%◌, ◌<◌, ◌≡◌, Bool, ltb, leb, ◌==◌, ◌&&◌, if◌then◌else◌, some, none, List, [],
  ◌∷◌, ◌++◌, get_or, length, Result, ok, err, arith,
}
use powerlink_rs.Common.Bytes.{write_slice, has_flag}
use powerlink_rs.Hal.{PowerlinkError, buffer_too_short, invalid_enum_value}
use powerlink_rs.Types.{
  NodeId, ethertype_epl, MessageType, message_type_code, message_type_try_from,
}

-- `struct MacAddress`: an array of six octets
pub record MacAddress : Type 0 where
  pub octet0 : ℕ
  pub octet1 : ℕ
  pub octet2 : ℕ
  pub octet3 : ℕ
  pub octet4 : ℕ
  pub octet5 : ℕ

unfoldable pub is_multicast : MacAddress → Bool
unfolding has_flag
is_multicast m = has_flag m.octet0 0x01

unfoldable pub is_broadcast : MacAddress → Bool
is_broadcast m =
    m.octet0 == 0xFF
    && m.octet1 == 0xFF
    && m.octet2 == 0xFF
    && m.octet3 == 0xFF
    && m.octet4 == 0xFF
    && m.octet5 == 0xFF

-- The multicast addresses of the frames, which differ in the last octet.
abbrev pub epl_multicast : ℕ → MacAddress
epl_multicast last = record {
  octet0 = 0x01;
  octet1 = 0x11;
  octet2 = 0x1E;
  octet3 = 0x00;
  octet4 = 0x00;
  octet5 = last;
}

pub record EthernetHeader : Type 0 where
  pub destination_mac : MacAddress
  pub source_mac : MacAddress
  pub ether_type : ℕ

unfoldable pub is_powerlink : EthernetHeader → Bool
is_powerlink h = h.ether_type == ethertype_epl

-- `EthernetHeader::new`
abbrev pub new_eth_header : MacAddress → MacAddress → EthernetHeader
new_eth_header dest src = record {
  destination_mac = dest;
  source_mac = src;
  ether_type = ethertype_epl;
}

unfoldable pub eth_bytes : EthernetHeader → List ℕ
eth_bytes h =
    h.destination_mac.octet0
    ∷ h.destination_mac.octet1
    ∷ h.destination_mac.octet2
    ∷ h.destination_mac.octet3
    ∷ h.destination_mac.octet4
    ∷ h.destination_mac.octet5
    ∷ h.source_mac.octet0
    ∷ h.source_mac.octet1
    ∷ h.source_mac.octet2
    ∷ h.source_mac.octet3
    ∷ h.source_mac.octet4
    ∷ h.source_mac.octet5
    ∷ h.ether_type / 256 % 256
    ∷ h.ether_type % 256
    ∷ []

unfoldable pub serialize_eth_header : EthernetHeader → List ℕ → List ℕ
unfolding eth_bytes
serialize_eth_header h buffer =
    if leb 14 (length buffer) then write_slice 0 (eth_bytes h) buffer else buffer

-- `buffer[at..at + 6]` as an address
unfoldable pub read_mac : List ℕ → ℕ → MacAddress
read_mac buffer i = record {
  octet0 = get_or buffer i 0;
  octet1 = get_or buffer (i + 1) 0;
  octet2 = get_or buffer (i + 2) 0;
  octet3 = get_or buffer (i + 3) 0;
  octet4 = get_or buffer (i + 4) 0;
  octet5 = get_or buffer (i + 5) 0;
}

unfoldable pub deserialize_eth_header : List ℕ → Result EthernetHeader PowerlinkError
unfolding read_mac
deserialize_eth_header buffer =
    if ltb (length buffer) 14
    then err buffer_too_short
    else ok (record {
      destination_mac = read_mac buffer 0;
      source_mac = read_mac buffer 6;
      ether_type = get_or buffer 12 0 * 256 + get_or buffer 13 0;
    })

-- The message type and the two node numbers, as `serialize_pl_header` writes them into a buffer
-- that is long enough and `deserialize_pl_header` reads them.
abbrev pub pl_bytes : MessageType → NodeId → NodeId → List ℕ → List ℕ
pl_bytes message_type destination source rest =
    message_type_code message_type ∷ destination ∷ source ∷ rest

-- `buffer[0] & 0x7F` of a byte
unfoldable pub message_type_octet : List ℕ → ℕ
message_type_octet buffer = get_or buffer 0 0 % 128

unfoldable pub deserialize_pl_header :
    List ℕ → Result (MessageType × NodeId × NodeId) PowerlinkError
unfolding message_type_try_from message_type_octet
deserialize_pl_header buffer =
    if ltb (length buffer) 3
    then err buffer_too_short
    else (elim (message_type_try_from (message_type_octet buffer)) [
      | none ↦ err invalid_enum_value
      | some message_type ↦ ok (message_type, get_or buffer 1 0, get_or buffer 2 0)
    ])

-- `==` of message types, derived
unfoldable pub message_type_eq : MessageType → MessageType → Bool
unfolding message_type_code
message_type_eq a b = message_type_code a == message_type_code b

-- An Ethernet header is read back from the front of a buffer.
pub deserialize_eth_header-eth_bytes :
    (h : EthernetHeader) (rest : List ℕ)
    → h.ether_type < 65536
    → deserialize_eth_header (eth_bytes h ++ rest) ≡ ok h
unfolding deserialize_eth_header eth_bytes read_mac
deserialize_eth_header-eth_bytes h rest l = ground (arith, ether_type h.ether_type l)
  where
    ether_type : (n : ℕ) → n < 65536 → n / 256 % 256 * 256 + n % 256 ≡ n
    ether_type n l = omega arith

pub deserialize_pl_header-pl_bytes :
    (m : MessageType) (d s : NodeId) (rest : List ℕ)
    → deserialize_pl_header (pl_bytes m d s rest) ≡ ok (m, d, s)
unfolding deserialize_pl_header message_type_try_from message_type_code message_type_octet
deserialize_pl_header-pl_bytes m d s rest = ground arith
