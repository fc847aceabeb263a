-- ===== src/Frame/Soc.antt =====
-- crates/powerlink-rs/src/frame/control/soc.rs: the SoC frame, which starts a cycle.
use powerlink_rs.Common.{
  ℕ, ◌<◌, ◌≡◌, refl, bit_or, Bool, true, false, ltb, not, if◌then◌else◌, List, [], ◌∷◌, ◌++◌,
  length, get_or, Result, ok, err, ◌>>=◌, arith,
}
use powerlink_rs.Common.Bytes.{flag, has_flag, le_bytes4, read_u32_le, join_bytes4}
use powerlink_rs.Hal.{PowerlinkError, buffer_too_short, invalid_pl_frame}
use powerlink_rs.Types.{
  NodeId, broadcast_node_id, mn_def_node_id, MessageType, soc, message_type_code,
}
use powerlink_rs.Od.Value.{NetTime}
use powerlink_rs.Frame.Header.{
  MacAddress, EthernetHeader, new_eth_header, epl_multicast, pl_bytes, deserialize_pl_header,
  deserialize_pl_header-pl_bytes, message_type_eq,
}
use powerlink_rs.Frame.Padded.{write_padded}

-- `struct RelativeTime` of crates/powerlink-rs/src/common.rs
pub record RelativeTime : Type 0 where
  pub seconds : ℕ
  pub nanoseconds : ℕ

pub record SocFlags : Type 0 where
  pub mc : Bool
  pub ps : Bool

pub record SocFrame : Type 0 where
  pub eth_header : EthernetHeader
  pub message_type : MessageType
  pub destination : NodeId
  pub source : NodeId
  pub flags : SocFlags
  pub net_time : NetTime
  pub relative_time : RelativeTime

-- `SocFrame::new`
unfoldable pub new_soc : MacAddress → SocFlags → NetTime → RelativeTime → SocFrame
new_soc source_mac flags net_time relative_time = record {
  eth_header = new_eth_header (epl_multicast 0x01) source_mac;
  message_type = soc;
  destination = broadcast_node_id;
  source = mn_def_node_id;
  flags = flags;
  net_time = net_time;
  relative_time = relative_time;
}

unfoldable pub soc_flags_octet : Bool → Bool → ℕ
soc_flags_octet mc ps = bit_or (flag mc 0x80) (flag ps 0x40)

-- The 22 bytes of the frame, in the order in which `serialize` writes them.
unfoldable pub soc_bytes : SocFrame → List ℕ
unfolding soc_flags_octet le_bytes4
soc_bytes f = pl_bytes f.message_type f.destination f.source (
    0 ∷ soc_flags_octet f.flags.mc f.flags.ps ∷ 0 ∷ le_bytes4 f.net_time.seconds
    ++ (le_bytes4 f.net_time.nanoseconds
        ++ (le_bytes4 f.relative_time.seconds ++ le_bytes4 f.relative_time.nanoseconds)))

-- `SocFrame::serialize`
unfoldable pub serialize_soc : SocFrame → List ℕ → Result ℕ PowerlinkError × List ℕ
unfolding write_padded soc_bytes
serialize_soc f buffer = write_padded (soc_bytes f) [] buffer

-- The fields behind the message type and the node numbers.
unfoldable pub read_soc :
    EthernetHeader → List ℕ → MessageType × NodeId × NodeId → Result SocFrame PowerlinkError
unfolding message_type_eq has_flag read_u32_le
read_soc eth_header buffer (message_type, destination, source) =
    if not (message_type_eq message_type soc)
    then err invalid_pl_frame
    else ok (record {
      eth_header = eth_header;
      message_type = message_type;
      destination = destination;
      source = source;
      flags = record {
        mc = has_flag (get_or buffer 4 0) 0x80;
        ps = has_flag (get_or buffer 4 0) 0x40;
      };
      net_time = record { seconds = read_u32_le buffer 6; nanoseconds = read_u32_le buffer 10 };
      relative_time = record {
        seconds = read_u32_le buffer 14;
        nanoseconds = read_u32_le buffer 18;
      };
    })

-- `SocFrame::deserialize`
unfoldable pub deserialize_soc : EthernetHeader → List ℕ → Result SocFrame PowerlinkError
unfolding deserialize_pl_header read_soc
deserialize_soc eth_header buffer =
    if ltb (length buffer) 22
    then err buffer_too_short
    else deserialize_pl_header buffer >>= read_soc eth_header buffer

-- A frame of the right type with numbers of the width of their fields.
pub record IsSoc (f : SocFrame) : Type 0 where
  pub is_soc : f.message_type ≡ soc
  pub net_seconds : f.net_time.seconds < 4294967296
  pub net_nanoseconds : f.net_time.nanoseconds < 4294967296
  pub relative_seconds : f.relative_time.seconds < 4294967296
  pub relative_nanoseconds : f.relative_time.nanoseconds < 4294967296

soc_flags_octet-reads :
    (mc ps : Bool)
    → (has_flag (soc_flags_octet mc ps) 0x80 ≡ mc) × (has_flag (soc_flags_octet mc ps) 0x40 ≡ ps)
unfolding has_flag soc_flags_octet
soc_flags_octet-reads true true = (refl, refl)
soc_flags_octet-reads true false = (refl, refl)
soc_flags_octet-reads false true = (refl, refl)
soc_flags_octet-reads false false = (refl, refl)

-- The frame is read back from its bytes, whatever follows them.
pub deserialize-soc_bytes :
    (f : SocFrame) (rest : List ℕ)
    → IsSoc f
    → deserialize_soc f.eth_header (soc_bytes f ++ rest) ≡ ok f
unfolding deserialize_soc read_soc soc_bytes le_bytes4 read_u32_le message_type_eq message_type_code
deserialize-soc_bytes f rest v =
    let is_soc = v.is_soc in
    let (mc, ps) = soc_flags_octet-reads f.flags.mc f.flags.ps in
    rw
      (
        deserialize_pl_header-pl_bytes f.message_type f.destination f.source _,
        mc,
        ps,
        join_bytes4 f.net_time.seconds v.net_seconds,
        join_bytes4 f.net_time.nanoseconds v.net_nanoseconds,
        join_bytes4 f.relative_time.seconds v.relative_seconds,
        join_bytes4 f.relative_time.nanoseconds v.relative_nanoseconds,
      )
      (ground arith)
