-- ===== src/Frame/Soa.antt =====
-- crates/powerlink-rs/src/frame/control/soa.rs: the SoA frame, which opens the asynchronous phase.
use powerlink_rs.Common.{
  ℕ, ◌≡◌, refl, bit_or, Bool, true, false, ltb, ◌==◌, not, if◌then◌else◌, List, [], ◌∷◌, ◌++◌,
  length, get_or, Result, ok, err, ◌>>=◌, arith,
}
use powerlink_rs.Common.Bytes.{flag, has_flag}
use powerlink_rs.Hal.{
  PowerlinkError, buffer_too_short, invalid_pl_frame, invalid_requested_service_id,
}
use powerlink_rs.Types.{
  NodeId, EplVersion, broadcast_node_id, mn_def_node_id, MessageType, soa, message_type_code,
}
use powerlink_rs.Nmt.State.{NmtState, state_code, state_try_from}
use powerlink_rs.Nmt.State.Codes.{state_try_from-code}
use powerlink_rs.Frame.Header.{
  MacAddress, EthernetHeader, new_eth_header, epl_multicast, pl_bytes, deserialize_pl_header,
  deserialize_pl_header-pl_bytes, message_type_eq,
}
use powerlink_rs.Frame.Padded.{write_padded}

-- `enum RequestedServiceId`
pub data RequestedServiceId : Type 0 where
  no_service ident_request status_request nmt_request_invite : RequestedServiceId
  unspecified_invite : RequestedServiceId

unfoldable pub requested_service_code : RequestedServiceId → ℕ
requested_service_code no_service = 0x00
requested_service_code ident_request = 0x01
requested_service_code status_request = 0x02
requested_service_code nmt_request_invite = 0x03
requested_service_code unspecified_invite = 0xFF

unfoldable pub requested_service_try_from : ℕ → Result RequestedServiceId PowerlinkError
requested_service_try_from value =
    if value == 0x00
    then ok no_service
    else if value == 0x01
    then ok ident_request
    else if value == 0x02
    then ok status_request
    else if value == 0x03
    then ok nmt_request_invite
    else if value == 0xFF
    then ok unspecified_invite
    else err (invalid_requested_service_id value)

pub record SoaFlags : Type 0 where
  pub ea : Bool
  pub er : Bool

pub record SoaFrame : Type 0 where
  pub eth_header : EthernetHeader
  pub message_type : MessageType
  pub destination : NodeId
  pub source : NodeId
  pub nmt_state : NmtState
  pub flags : SoaFlags
  pub req_service_id : RequestedServiceId
  pub target_node_id : NodeId
  pub epl_version : EplVersion

-- `SoAFrame::new`
unfoldable pub new_soa :
    MacAddress → NmtState → SoaFlags → RequestedServiceId → NodeId → EplVersion → SoaFrame
new_soa source_mac nmt_state flags requested_service target_node_id epl_version = record {
  eth_header = new_eth_header (epl_multicast 0x03) source_mac;
  message_type = soa;
  destination = broadcast_node_id;
  source = mn_def_node_id;
  nmt_state = nmt_state;
  flags = flags;
  req_service_id = requested_service;
  target_node_id = target_node_id;
  epl_version = epl_version;
}

unfoldable pub soa_flags_octet : Bool → Bool → ℕ
soa_flags_octet ea er = bit_or (flag ea 0x04) (flag er 0x02)

-- The 9 bytes of the frame, in the order in which `serialize` writes them.
unfoldable pub soa_bytes : SoaFrame → List ℕ
unfolding soa_flags_octet state_code requested_service_code
soa_bytes f = pl_bytes f.message_type f.destination f.source (
    state_code f.nmt_state
    ∷ soa_flags_octet f.flags.ea f.flags.er
    ∷ 0
    ∷ requested_service_code f.req_service_id
    ∷ f.target_node_id
    ∷ f.epl_version
    ∷ [])

-- `SoAFrame::serialize`
unfoldable pub serialize_soa : SoaFrame → List ℕ → Result ℕ PowerlinkError × List ℕ
unfolding write_padded soa_bytes
serialize_soa f buffer = write_padded (soa_bytes f) [] buffer

-- The fields behind the message type and the node numbers.
unfoldable pub read_soa :
    EthernetHeader → List ℕ → MessageType × NodeId × NodeId → Result SoaFrame PowerlinkError
unfolding message_type_eq has_flag state_try_from requested_service_try_from
read_soa eth_header buffer (message_type, destination, source) =
    if not (message_type_eq message_type soa) then err invalid_pl_frame else (do
      nmt_state ← state_try_from (get_or buffer 3 0)
      req_service_id ← requested_service_try_from (get_or buffer 6 0)
      ok (record {
        eth_header = eth_header;
        message_type = message_type;
        destination = destination;
        source = source;
        nmt_state = nmt_state;
        flags = record {
          ea = has_flag (get_or buffer 4 0) 0x04;
          er = has_flag (get_or buffer 4 0) 0x02;
        };
        req_service_id = req_service_id;
        target_node_id = get_or buffer 7 0;
        epl_version = get_or buffer 8 0;
      }))

-- `SoAFrame::deserialize`
unfoldable pub deserialize_soa : EthernetHeader → List ℕ → Result SoaFrame PowerlinkError
unfolding deserialize_pl_header read_soa
deserialize_soa eth_header buffer =
    if ltb (length buffer) 9
    then err buffer_too_short
    else deserialize_pl_header buffer >>= read_soa eth_header buffer

soa_flags_octet-reads :
    (ea er : Bool)
    → (has_flag (soa_flags_octet ea er) 0x04 ≡ ea) × (has_flag (soa_flags_octet ea er) 0x02 ≡ er)
unfolding has_flag soa_flags_octet
soa_flags_octet-reads true true = (refl, refl)
soa_flags_octet-reads true false = (refl, refl)
soa_flags_octet-reads false true = (refl, refl)
soa_flags_octet-reads false false = (refl, refl)

requested_service_try_from-code :
    (r : RequestedServiceId) → requested_service_try_from (requested_service_code r) ≡ ok r
unfolding requested_service_try_from requested_service_code
requested_service_try_from-code r = ground arith

-- The frame is read back from its bytes, whatever follows them.
pub deserialize-soa_bytes :
    (f : SoaFrame) (rest : List ℕ)
    → f.message_type ≡ soa
    → deserialize_soa f.eth_header (soa_bytes f ++ rest) ≡ ok f
unfolding deserialize_soa read_soa soa_bytes message_type_eq message_type_code
deserialize-soa_bytes f rest is_soa =
    let (ea, er) = soa_flags_octet-reads f.flags.ea f.flags.er in
    rw
      (
        deserialize_pl_header-pl_bytes f.message_type f.destination f.source _,
        state_try_from-code f.nmt_state,
        requested_service_try_from-code f.req_service_id,
        ea,
        er,
      )
      (ground arith)
