-- ===== src/Frame/Asnd.antt =====
-- crates/powerlink-rs/src/frame/control/asnd.rs: the ASnd frame, which carries a service.
pub mod Trim
use powerlink_rs.Common.{
  ℕ, zero, suc, ◌+◌, ◌-◌, max, ◌≤◌, ◌≡◌, refl, ap, Bool, Bool-cases, inl, inr, length-append,
  length-replicate, append-nil, leb, ltb, ◌==◌, not, if◌then◌else◌, List, [], ◌∷◌, ◌++◌, length,
  get_or, take, drop, replicate, Result, ok, err, ◌>>=◌, arith,
}
use powerlink_rs.Hal.{PowerlinkError, buffer_too_short, invalid_pl_frame, invalid_service_id}
use powerlink_rs.Types.{NodeId, MessageType, asnd, message_type_code}
use powerlink_rs.Frame.Header.{
  MacAddress, EthernetHeader, new_eth_header, pl_bytes, deserialize_pl_header,
  deserialize_pl_header-pl_bytes, message_type_eq,
}
use powerlink_rs.Frame.Padded.{write_padded, padding}

-- `enum ServiceId`
pub data ServiceId : Type 0 where
  ident_response status_response nmt_request nmt_command sdo : ServiceId
  nmt_publish_time nmt_publish_nmt_state nmt_publish_node_state : ServiceId
  nmt_publish_node_list nmt_publish_emerg_new nmt_publish_heartbeat : ServiceId
  nmt_publish_active_nodes : ServiceId

unfoldable pub service_code : ServiceId → ℕ
service_code ident_response = 0x01
service_code status_response = 0x02
service_code nmt_request = 0x03
service_code nmt_command = 0x04
service_code sdo = 0x05
service_code nmt_publish_time = 0x0B
service_code nmt_publish_nmt_state = 0x0D
service_code nmt_publish_node_state = 0x0E
service_code nmt_publish_node_list = 0x0F
service_code nmt_publish_emerg_new = 0x10
service_code nmt_publish_heartbeat = 0x11
service_code nmt_publish_active_nodes = 0x12

unfoldable pub service_try_from : ℕ → Result ServiceId PowerlinkError
service_try_from value =
    if value == 0x01
    then ok ident_response
    else if value == 0x02
    then ok status_response
    else if value == 0x03
    then ok nmt_request
    else if value == 0x04
    then ok nmt_command
    else if value == 0x05
    then ok sdo
    else if value == 0x0B
    then ok nmt_publish_time
    else if value == 0x0D
    then ok nmt_publish_nmt_state
    else if value == 0x0E
    then ok nmt_publish_node_state
    else if value == 0x0F
    then ok nmt_publish_node_list
    else if value == 0x10
    then ok nmt_publish_emerg_new
    else if value == 0x11
    then ok nmt_publish_heartbeat
    else if value == 0x12
    then ok nmt_publish_active_nodes
    else err (invalid_service_id value)

pub record AsndFrame : Type 0 where
  pub eth_header : EthernetHeader
  pub message_type : MessageType
  pub destination : NodeId
  pub source : NodeId
  pub service_id : ServiceId
  pub payload : List ℕ

-- `ASndFrame::new`
unfoldable pub new_asnd : MacAddress → MacAddress → NodeId → NodeId → ServiceId → List ℕ → AsndFrame
new_asnd source_mac dest_mac target_node_id source_node_id service_id payload = record {
  eth_header = new_eth_header dest_mac source_mac;
  message_type = asnd;
  destination = target_node_id;
  source = source_node_id;
  service_id = service_id;
  payload = payload;
}

-- The 4 bytes in front of the payload.
unfoldable pub asnd_bytes : AsndFrame → List ℕ
unfolding service_code
asnd_bytes f = pl_bytes f.message_type f.destination f.source (service_code f.service_id ∷ [])

-- `ASndFrame::serialize`
unfoldable pub serialize_asnd : AsndFrame → List ℕ → Result ℕ PowerlinkError × List ℕ
unfolding write_padded asnd_bytes
serialize_asnd f buffer = write_padded (asnd_bytes f) f.payload buffer

-- `rposition(|&x| x != 0).map_or(0, |i| i + 1)`: the length without the zeros at the end
unfoldable pub actual_len : List ℕ → ℕ
actual_len [] = 0
actual_len (x ∷ xs) =
    let rest = actual_len xs in if rest == 0 then (if x == 0 then 0 else 1) else suc rest

-- The payload, without what may be padding if the frame has the smallest size.
unfoldable pub read_asnd_payload : List ℕ → List ℕ
unfolding actual_len
read_asnd_payload buffer =
    let potential_payload = drop 4 buffer in
    if length buffer == 46
    then take (actual_len potential_payload) potential_payload
    else potential_payload

-- The fields behind the message type and the node numbers.
unfoldable pub read_asnd :
    EthernetHeader → List ℕ → MessageType × NodeId × NodeId → Result AsndFrame PowerlinkError
unfolding message_type_eq service_try_from read_asnd_payload
read_asnd eth_header buffer (message_type, destination, source) =
    if not (message_type_eq message_type asnd) then err invalid_pl_frame else (do
      service_id ← service_try_from (get_or buffer 3 0)
      ok (record {
        eth_header = eth_header;
        message_type = message_type;
        destination = destination;
        source = source;
        service_id = service_id;
        payload = read_asnd_payload buffer;
      }))

-- `ASndFrame::deserialize`
unfoldable pub deserialize_asnd : EthernetHeader → List ℕ → Result AsndFrame PowerlinkError
unfolding deserialize_pl_header read_asnd
deserialize_asnd eth_header buffer =
    if ltb (length buffer) 4
    then err buffer_too_short
    else deserialize_pl_header buffer >>= read_asnd eth_header buffer
