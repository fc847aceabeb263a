-- ===== src/Frame/Preq.antt =====
-- crates/powerlink-rs/src/frame/poll/preq.rs: the PReq frame, by which a node is polled.
use powerlink_rs.Common.{
  ℕ, ◌<◌, ◌%◌, ◌≡◌, refl, bit_or, Bool, true, false, ltb, not, if◌then◌else◌, List, ◌∷◌, ◌++◌,
  length, get_or, Result, ok, err, ◌>>=◌, arith,
}
use powerlink_rs.Common.Bytes.{flag, has_flag, le_bytes2, read_u16_le, join_bytes2}
use powerlink_rs.Hal.{PowerlinkError, buffer_too_short, invalid_pl_frame}
use powerlink_rs.Types.{NodeId, mn_def_node_id, MessageType, preq, message_type_code}
use powerlink_rs.Pdo.Mapping.{PdoVersion}
use powerlink_rs.Frame.Header.{
  MacAddress, EthernetHeader, new_eth_header, pl_bytes, deserialize_pl_header,
  deserialize_pl_header-pl_bytes, message_type_eq,
}
use powerlink_rs.Frame.Padded.{write_padded, read_sized, read_sized-append}

pub record PreqFlags : Type 0 where
  pub ms : Bool
  pub ea : Bool
  pub rd : Bool

pub record PreqFrame : Type 0 where
  pub eth_header : EthernetHeader
  pub message_type : MessageType
  pub destination : NodeId
  pub source : NodeId
  pub flags : PreqFlags
  pub pdo_version : PdoVersion
  pub payload_size : ℕ
  pub payload : List ℕ

-- `PReqFrame::new`; `payload.len() as u16` wraps.
unfoldable pub new_preq :
    MacAddress → MacAddress → NodeId → PreqFlags → PdoVersion → List ℕ → PreqFrame
new_preq source_mac dest_mac target_node_id flags pdo_version payload = record {
  eth_header = new_eth_header dest_mac source_mac;
  message_type = preq;
  destination = target_node_id;
  source = mn_def_node_id;
  flags = flags;
  pdo_version = pdo_version;
  payload_size = length payload % 65536;
  payload = payload;
}

unfoldable pub preq_flags_octet : Bool → Bool → Bool → ℕ
preq_flags_octet ms ea rd = bit_or (bit_or (flag ms 0x20) (flag ea 0x04)) (flag rd 0x01)

-- The 10 bytes in front of the payload, in the order in which `serialize` writes them.
unfoldable pub preq_bytes : PreqFrame → List ℕ
unfolding preq_flags_octet le_bytes2
preq_bytes f = pl_bytes f.message_type f.destination f.source (
    0
    ∷ preq_flags_octet f.flags.ms f.flags.ea f.flags.rd
    ∷ 0
    ∷ f.pdo_version
    ∷ 0
    ∷ le_bytes2 f.payload_size)

-- `PReqFrame::serialize`
unfoldable pub serialize_preq : PreqFrame → List ℕ → Result ℕ PowerlinkError × List ℕ
unfolding write_padded preq_bytes
serialize_preq f buffer = write_padded (preq_bytes f) f.payload buffer

-- The fields behind the message type and the node numbers.
unfoldable pub read_preq :
    EthernetHeader → List ℕ → MessageType × NodeId × NodeId → Result PreqFrame PowerlinkError
unfolding message_type_eq has_flag read_u16_le read_sized
read_preq eth_header buffer (message_type, destination, source) =
    if not (message_type_eq message_type preq) then err invalid_pl_frame else (do
      payload ← read_sized 10 (read_u16_le buffer 8) buffer
      ok (record {
        eth_header = eth_header;
        message_type = message_type;
        destination = destination;
        source = source;
        flags = record {
          ms = has_flag (get_or buffer 4 0) 0x20;
          ea = has_flag (get_or buffer 4 0) 0x04;
          rd = has_flag (get_or buffer 4 0) 0x01;
        };
        pdo_version = get_or buffer 6 0;
        payload_size = read_u16_le buffer 8;
        payload = payload;
      }))

-- `PReqFrame::deserialize`
unfoldable pub deserialize_preq : EthernetHeader → List ℕ → Result PreqFrame PowerlinkError
unfolding deserialize_pl_header read_preq
deserialize_preq eth_header buffer =
    if ltb (length buffer) 10
    then err buffer_too_short
    else deserialize_pl_header buffer >>= read_preq eth_header buffer

-- A frame of the right type that tells the length of its payload.
pub record IsPreq (f : PreqFrame) : Type 0 where
  pub is_preq : f.message_type ≡ preq
  pub sized : f.payload_size ≡ length f.payload
  pub small : f.payload_size < 65536

preq_flags_octet-reads :
    (ms ea rd : Bool)
    → (has_flag (preq_flags_octet ms ea rd) 0x20 ≡ ms)
      × (has_flag (preq_flags_octet ms ea rd) 0x04 ≡ ea)
      × (has_flag (preq_flags_octet ms ea rd) 0x01 ≡ rd)
unfolding has_flag preq_flags_octet
preq_flags_octet-reads true true true = (refl, refl, refl)
preq_flags_octet-reads true true false = (refl, refl, refl)
preq_flags_octet-reads true false true = (refl, refl, refl)
preq_flags_octet-reads true false false = (refl, refl, refl)
preq_flags_octet-reads false true true = (refl, refl, refl)
preq_flags_octet-reads false true false = (refl, refl, refl)
preq_flags_octet-reads false false true = (refl, refl, refl)
preq_flags_octet-reads false false false = (refl, refl, refl)

-- The frame is read back from its bytes, whatever follows them.
pub deserialize-preq_bytes :
    (f : PreqFrame) (rest : List ℕ)
    → IsPreq f
    → deserialize_preq f.eth_header (preq_bytes f ++ (f.payload ++ rest)) ≡ ok f
unfolding deserialize_preq read_preq preq_bytes message_type_eq message_type_code read_u16_le
    le_bytes2
deserialize-preq_bytes f rest v =
    let is_preq = v.is_preq in
    let (ms, ea, rd) = preq_flags_octet-reads f.flags.ms f.flags.ea f.flags.rd in
    rw
      (
        deserialize_pl_header-pl_bytes f.message_type f.destination f.source _,
        join_bytes2 f.payload_size v.small,
        read_sized-append (preq_bytes f) f.payload rest f.payload_size v.sized,
        ms,
        ea,
        rd,
      )
      (ground arith)
