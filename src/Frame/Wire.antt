-- ===== src/Frame/Wire.antt =====
-- crates/powerlink-rs/src/frame/mod.rs, codec.rs and `serialize_frame_action` of
-- crates/powerlink-rs/src/node/mod.rs: a frame as a node sends it and as another receives it.
pub mod RoundTrip
pub mod Received
pub mod Bounds
use powerlink_rs.Common.{
  ℕ, ◌+◌, ◌-◌, ◌%◌, max, Bool, true, false, ltb, leb, ◌==◌, not, if◌then◌else◌, Option, none, some,
  List, [], ◌∷◌, ◌++◌, length, take, drop, replicate, Result, ok, err, ◌>>=◌,
}
use powerlink_rs.Common.Bytes.{write_slice}
use powerlink_rs.Hal.{
  PowerlinkError, invalid_ethernet_frame, invalid_pl_frame, invalid_message_type,
}
use powerlink_rs.Types.{message_type_try_from, MessageType}
use powerlink_rs.Nmt.Event.{NmtEvent}
use powerlink_rs.Dll.CsMachine.{DllCsEvent}
use powerlink_rs.Dll.MsMachine.{DllMsEvent}
use powerlink_rs.Frame.Header.{
  EthernetHeader, is_powerlink, serialize_eth_header, deserialize_eth_header, message_type_octet,
}
use powerlink_rs.Frame.Soc.{SocFrame, serialize_soc, deserialize_soc}
use powerlink_rs.Frame.Soa.{SoaFrame, serialize_soa, deserialize_soa}
use powerlink_rs.Frame.Preq.{PreqFrame, serialize_preq, deserialize_preq}
use powerlink_rs.Frame.Pres.{PresFrame, serialize_pres, deserialize_pres}
use powerlink_rs.Frame.Asnd.{AsndFrame, serialize_asnd, deserialize_asnd}

-- `enum PowerlinkFrame`
pub data PowerlinkFrame : Type 0 where
  soc : SocFrame → PowerlinkFrame
  preq : PreqFrame → PowerlinkFrame
  pres : PresFrame → PowerlinkFrame
  soa : SoaFrame → PowerlinkFrame
  asnd : AsndFrame → PowerlinkFrame

unfoldable pub ethernet_header : PowerlinkFrame → EthernetHeader
ethernet_header (soc f) = f.eth_header
ethernet_header (preq f) = f.eth_header
ethernet_header (pres f) = f.eth_header
ethernet_header (soa f) = f.eth_header
ethernet_header (asnd f) = f.eth_header

unfoldable pub serialize : PowerlinkFrame → List ℕ → Result ℕ PowerlinkError × List ℕ
unfolding serialize_soc serialize_preq serialize_pres serialize_soa serialize_asnd
serialize (soc f) buffer = serialize_soc f buffer
serialize (preq f) buffer = serialize_preq f buffer
serialize (pres f) buffer = serialize_pres f buffer
serialize (soa f) buffer = serialize_soa f buffer
serialize (asnd f) buffer = serialize_asnd f buffer

-- The events that a frame is for the state machines.
unfoldable pub dll_cn_event : PowerlinkFrame → DllCsEvent
dll_cn_event (soc _) = DllCsEvent.soc
dll_cn_event (preq _) = DllCsEvent.preq
dll_cn_event (pres _) = DllCsEvent.pres
dll_cn_event (soa _) = DllCsEvent.soa
dll_cn_event (asnd _) = DllCsEvent.asnd

unfoldable pub dll_mn_event : PowerlinkFrame → DllMsEvent
dll_mn_event (pres _) = DllMsEvent.pres
dll_mn_event (asnd _) = DllMsEvent.asnd
dll_mn_event (soc _) = DllMsEvent.asnd
dll_mn_event (preq _) = DllMsEvent.asnd
dll_mn_event (soa _) = DllMsEvent.asnd

unfoldable pub nmt_event : PowerlinkFrame → Option NmtEvent
nmt_event (soc _) = some NmtEvent.soc_received
nmt_event (soa _) = some NmtEvent.soc_soa_received
nmt_event (preq _) = none
nmt_event (pres _) = none
nmt_event (asnd _) = none

-- `.map(PowerlinkFrame::…)`
abbrev pub mapped {ℓ} :
    {A : Type ℓ}
    → (A → PowerlinkFrame)
    → Result A PowerlinkError
    → Result PowerlinkFrame PowerlinkError
mapped f (ok frame) = ok (f frame)
mapped f (err e) = err e

-- The codec that the message type chooses.
unfoldable pub read_as :
    MessageType → EthernetHeader → List ℕ → Result PowerlinkFrame PowerlinkError
unfolding deserialize_soc deserialize_preq deserialize_pres deserialize_soa deserialize_asnd
read_as MessageType.soc h pl_buffer = mapped soc (deserialize_soc h pl_buffer)
read_as MessageType.preq h pl_buffer = mapped preq (deserialize_preq h pl_buffer)
read_as MessageType.pres h pl_buffer = mapped pres (deserialize_pres h pl_buffer)
read_as MessageType.soa h pl_buffer = mapped soa (deserialize_soa h pl_buffer)
read_as MessageType.asnd h pl_buffer = mapped asnd (deserialize_asnd h pl_buffer)

unfoldable pub read_frame : EthernetHeader → List ℕ → Result PowerlinkFrame PowerlinkError
unfolding message_type_try_from message_type_octet read_as
read_frame h pl_buffer = elim (message_type_try_from (message_type_octet pl_buffer)) [
  | some message_type ↦ read_as message_type h pl_buffer
  | none ↦ err (invalid_message_type (message_type_octet pl_buffer))
]

unfoldable pub deserialize_frame : List ℕ → Result PowerlinkFrame PowerlinkError
unfolding deserialize_eth_header is_powerlink read_frame
deserialize_frame buffer = do
  eth_header ← deserialize_eth_header buffer
  (if not (is_powerlink eth_header)
      then err invalid_ethernet_frame
      else if length (drop 14 buffer) == 0
      then err invalid_pl_frame
      else read_frame eth_header (drop 14 buffer))

-- `enum NodeAction`
pub data NodeAction : Type 0 where
  send_frame : List ℕ → NodeAction
  send_udp : List ℕ → ℕ → List ℕ → NodeAction
  no_action : NodeAction

-- The frames that a controlled node and a managing node may send.
unfoldable pub may_send : Bool → PowerlinkFrame → Bool
may_send true (pres _) = true
may_send true (asnd _) = true
may_send true (soc _) = false
may_send true (preq _) = false
may_send true (soa _) = false
may_send false (pres _) = false
may_send false (asnd _) = true
may_send false (soc _) = true
may_send false (preq _) = true
may_send false (soa _) = true

-- The end of `serialize_frame_action`: the buffer cut to the frame.
unfoldable pub cut_to_frame :
    Result ℕ PowerlinkError × List ℕ → List ℕ → Result NodeAction PowerlinkError
cut_to_frame (err e, tail) head = err e
cut_to_frame (ok pl_size, tail) head =
    let total_size = 14 + pl_size in
    let cut = take (max total_size 60) (head ++ tail) in
    ok (
      send_frame (
        if ltb total_size 60
        then write_slice total_size (replicate (60 - total_size) 0) cut
        else cut))

-- `serialize_frame_action` with its buffer, given `context.is_cn()`
unfoldable pub send_in : List ℕ → Bool → PowerlinkFrame → Result NodeAction PowerlinkError
unfolding may_send serialize_eth_header serialize ethernet_header cut_to_frame
send_in zeros is_cn frame =
    let buf = serialize_eth_header (ethernet_header frame) zeros in
    if not (may_send is_cn frame)
    then ok no_action
    else cut_to_frame (serialize frame (drop 14 buf)) (take 14 buf)

unfoldable pub serialize_frame_action : Bool → PowerlinkFrame → Result NodeAction PowerlinkError
unfolding send_in
serialize_frame_action is_cn frame = send_in (replicate 1518 0) is_cn frame
