-- ===== src/Frame/Pres.antt =====
-- crates/powerlink-rs/src/frame/poll/pres.rs: the PRes frame, by which a polled node answers.
pub mod RoundTrip
use powerlink_rs.Common.{
  ℕ, ◌+◌, ◌<◌, ◌≤◌, ◌%◌, ◌≡◌, refl, bit_or, Bool, true, false, ltb, ◌==◌, ◌*◌, ◌/◌, min, not,
  if◌then◌else◌, List, [], ◌∷◌, ◌++◌, length, length-append, take-append, get_or, take, drop,
  Result, ok, err, ◌>>=◌, arith,
}
use powerlink_rs.Common.Bytes.{flag, has_flag, le_bytes2, read_u16_le, join_bytes2}
use powerlink_rs.Hal.{PowerlinkError, buffer_too_short, invalid_pl_frame, invalid_enum_value}
use powerlink_rs.Types.{NodeId, broadcast_node_id, MessageType, pres, message_type_code}
use powerlink_rs.Common.Tables.{agree_below, agree_below→eq}
use powerlink_rs.Nmt.State.{NmtState, state_code, state_try_from}
use powerlink_rs.Nmt.State.Codes.{state_try_from-code}
use powerlink_rs.Pdo.Mapping.{PdoVersion}
use powerlink_rs.Frame.Header.{
  MacAddress, EthernetHeader, new_eth_header, epl_multicast, pl_bytes, deserialize_pl_header,
  deserialize_pl_header-pl_bytes, message_type_eq,
}
use powerlink_rs.Frame.Padded.{write_padded, read_sized, read_sized-append}

-- `enum PRFlag`
pub data PrFlag : Type 0 where
  prio_nmt_request high3 high2 high1 prio_generic_request low3 low2 low1 : PrFlag

unfoldable pub pr_code : PrFlag → ℕ
pr_code prio_nmt_request = 7
pr_code high3 = 6
pr_code high2 = 5
pr_code high1 = 4
pr_code prio_generic_request = 3
pr_code low3 = 2
pr_code low2 = 1
pr_code low1 = 0

-- `PRFlag::try_from`, which looks at the last three bits; its last case is never met.
unfoldable pub pr_try_from : ℕ → Result PrFlag PowerlinkError
pr_try_from value =
    let bits = value % 8 in
    if bits == 7
    then ok prio_nmt_request
    else if bits == 6
    then ok high3
    else if bits == 5
    then ok high2
    else if bits == 4
    then ok high1
    else if bits == 3
    then ok prio_generic_request
    else if bits == 2
    then ok low3
    else if bits == 1
    then ok low2
    else if bits == 0
    then ok low1
    else err invalid_enum_value

-- `RSFlag::new`: the number of waiting requests, at most 7
unfoldable pub rs_flag : ℕ → ℕ
rs_flag value = min value 7

pub record PresFlags : Type 0 where
  pub ms : Bool
  pub en : Bool
  pub rd : Bool
  pub pr : PrFlag
  pub rs : ℕ

pub record PresFrame : Type 0 where
  pub eth_header : EthernetHeader
  pub message_type : MessageType
  pub destination : NodeId
  pub source : NodeId
  pub nmt_state : NmtState
  pub flags : PresFlags
  pub pdo_version : PdoVersion
  pub payload_size : ℕ
  pub payload : List ℕ

-- `PResFrame::new`; `payload.len() as u16` wraps.
unfoldable pub new_pres :
    MacAddress → NodeId → NmtState → PresFlags → PdoVersion → List ℕ → PresFrame
new_pres source_mac source_node_id nmt_state flags pdo_version payload = record {
  eth_header = new_eth_header (epl_multicast 0x02) source_mac;
  message_type = pres;
  destination = broadcast_node_id;
  source = source_node_id;
  nmt_state = nmt_state;
  flags = flags;
  pdo_version = pdo_version;
  payload_size = length payload % 65536;
  payload = payload;
}

unfoldable pub pres_flags1_octet : Bool → Bool → Bool → ℕ
pres_flags1_octet ms en rd = bit_or (bit_or (flag ms 0x20) (flag en 0x10)) (flag rd 0x01)

-- `(pr as u8) << 3 | rs`
unfoldable pub pres_flags2_octet : PrFlag → ℕ → ℕ
unfolding pr_code
pres_flags2_octet pr rs = bit_or (pr_code pr * 8) rs

-- The 10 bytes in front of the payload, in the order in which `serialize` writes them.
unfoldable pub pres_bytes : PresFrame → List ℕ
unfolding pres_flags1_octet pres_flags2_octet state_code le_bytes2
pres_bytes f = pl_bytes f.message_type f.destination f.source (
    state_code f.nmt_state
    ∷ pres_flags1_octet f.flags.ms f.flags.en f.flags.rd
    ∷ pres_flags2_octet f.flags.pr f.flags.rs
    ∷ f.pdo_version
    ∷ 0
    ∷ le_bytes2 f.payload_size)

-- `PResFrame::serialize`
unfoldable pub serialize_pres : PresFrame → List ℕ → Result ℕ PowerlinkError × List ℕ
unfolding write_padded pres_bytes
serialize_pres f buffer = write_padded (pres_bytes f) f.payload buffer

-- The fields behind the message type and the node numbers, after the tests of these.
unfoldable pub read_pres_fields :
    EthernetHeader → List ℕ → MessageType × NodeId × NodeId → Result PresFrame PowerlinkError
unfolding has_flag read_u16_le read_sized state_try_from pr_try_from rs_flag
read_pres_fields eth_header buffer (message_type, destination, source) = do
  nmt_state ← state_try_from (get_or buffer 3 0)
  pr ← pr_try_from (get_or buffer 5 0 / 8)
  payload ← read_sized 10 (read_u16_le buffer 8) buffer
  ok (record {
    eth_header = eth_header;
    message_type = message_type;
    destination = destination;
    source = source;
    nmt_state = nmt_state;
    flags = record {
      ms = has_flag (get_or buffer 4 0) 0x20;
      en = has_flag (get_or buffer 4 0) 0x10;
      rd = has_flag (get_or buffer 4 0) 0x01;
      pr = pr;
      rs = rs_flag (get_or buffer 5 0 % 8);
    };
    pdo_version = get_or buffer 6 0;
    payload_size = read_u16_le buffer 8;
    payload = payload;
  })

unfoldable pub read_pres :
    EthernetHeader → List ℕ → MessageType × NodeId × NodeId → Result PresFrame PowerlinkError
unfolding message_type_eq read_pres_fields
read_pres eth_header buffer (message_type, destination, source) =
    if not (message_type_eq message_type pres)
    then err invalid_pl_frame
    else if not (destination == broadcast_node_id)
    then err invalid_pl_frame
    else read_pres_fields eth_header buffer (message_type, destination, source)

-- `PResFrame::deserialize`
unfoldable pub deserialize_pres : EthernetHeader → List ℕ → Result PresFrame PowerlinkError
unfolding deserialize_pl_header read_pres
deserialize_pres eth_header buffer =
    if ltb (length buffer) 10
    then err buffer_too_short
    else deserialize_pl_header buffer >>= read_pres eth_header buffer

-- A frame of the right type, to all nodes, that tells the length of its payload.
pub record IsPres (f : PresFrame) : Type 0 where
  pub is_pres : f.message_type ≡ pres
  pub to_all : f.destination ≡ broadcast_node_id
  pub few : f.flags.rs ≤ 7
  pub sized : f.payload_size ≡ length f.payload
  pub small : f.payload_size < 65536
