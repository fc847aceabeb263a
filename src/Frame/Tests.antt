-- ===== src/Frame/Tests.antt =====
-- Frames on the wire.
use powerlink_rs.Common.{
  ℕ, ◌+◌, ◌<◌, ◌≤◌, max, ◌≡◌, refl, ◌↔◌, ◌⊎◌, true, false, List, [], ◌∷◌, ◌++◌, length, replicate,
  ok, arith,
}
use powerlink_rs.Types.{ethertype_epl}
use powerlink_rs.Nmt.State.{operational}
use powerlink_rs.Frame.Header.{MacAddress, epl_multicast}
use powerlink_rs.Frame.Padded.{padding}
use powerlink_rs.Frame.Soa.{SoaFrame, ident_request, new_soa}
use powerlink_rs.Frame.Pres.{PresFlags, prio_generic_request, new_pres}
use powerlink_rs.Frame.Asnd.{AsndFrame, nmt_command, new_asnd, asnd_bytes, deserialize_asnd}
use powerlink_rs.Frame.Asnd.Trim.{ends_in_zero, asnd_as_read_iff}
use powerlink_rs.Frame.Wire.{
  PowerlinkFrame, ethernet_header, may_send, serialize, deserialize_frame, serialize_frame_action,
  send_frame,
}
use powerlink_rs.Frame.Wire.RoundTrip.{
  fields, payload, wire, IsFrame, as_received, deserialize_frame-serialize_frame_action,
}
use powerlink_rs.Frame.Wire.Received.{deserialize_frame-IsFrame}
use powerlink_rs.Frame.Wire.Bounds.{serialize-fits_iff}

abbrev node_mac : MacAddress
node_mac = record { octet0 = 2; octet1 = 0; octet2 = 0; octet3 = 0; octet4 = 0; octet5 = 17 }

abbrev flags : PresFlags
flags = record { ms = false; en = true; rd = true; pr = prio_generic_request; rs = 5 }

abbrev answer : PowerlinkFrame
unfolding new_pres
answer = PowerlinkFrame.pres (new_pres node_mac 17 operational flags 16 (7 ∷ 0 ∷ 200 ∷ []))

deserialize_frame-serialize_frame_action_example :
    (serialize_frame_action true answer ≡ ok (send_frame (wire answer)))
    × (deserialize_frame (wire answer) ≡ ok (as_received answer))
unfolding IsFrame ethernet_header fields payload answer may_send
deserialize_frame-serialize_frame_action_example =
    deserialize_frame-serialize_frame_action true answer
      (record {
        is_pres = refl;
        to_all = refl;
        few = omega arith;
        sized = refl;
        small = omega arith;
      })
      refl refl (omega arith)

abbrev empty_buffer : List ℕ
empty_buffer = replicate 50 0

serialize-fits_iff_example :
    (length (serialize answer empty_buffer).1 ≡ length empty_buffer)
    × (((serialize answer empty_buffer).0 ≡ ok 46) ↔ (
        (46 ≡ max (length (fields answer) + length (payload answer)) 46)
        × (46 ≤ length empty_buffer)))
serialize-fits_iff_example = serialize-fits_iff answer empty_buffer 46

-- A command to node 3 with the payload 42, 0.
abbrev command : AsndFrame
unfolding new_asnd
command = new_asnd node_mac (epl_multicast 4) 3 240 nmt_command (42 ∷ 0 ∷ [])

asnd_as_read_iff_example :
    (deserialize_asnd command.eth_header
        (asnd_bytes command ++ (command.payload ++ padding (asnd_bytes command) command.payload))
      ≡ ok command)
    ↔ ((42 < length command.payload) ⊎ (ends_in_zero command.payload ≡ false))
unfolding command
asnd_as_read_iff_example = asnd_as_read_iff command refl

-- A SoA frame that asks node 17 for its identity.
abbrev soa_frame : SoaFrame
unfolding new_soa
soa_frame = new_soa node_mac operational (record { ea = true; er = false }) ident_request 17 32

abbrev soa_received : List ℕ
soa_received =
    1 ∷ 17 ∷ 30 ∷ 0 ∷ 0 ∷ 3 ∷ 2 ∷ 0 ∷ 0 ∷ 0 ∷ 0 ∷ 17 ∷ 0x88 ∷ 0xAB ∷ 5 ∷ 255 ∷ 240 ∷ 0xFD ∷ 4 ∷ 0
    ∷ 1 ∷ 17 ∷ 32 ∷ []

deserialize_frame-IsFrame_example :
    IsFrame (PowerlinkFrame.soa soa_frame)
    × ((ethernet_header (PowerlinkFrame.soa soa_frame)).ether_type ≡ ethertype_epl)
unfolding deserialize_frame soa_frame new_soa
deserialize_frame-IsFrame_example =
    deserialize_frame-IsFrame soa_received (PowerlinkFrame.soa soa_frame) (omega arith) refl
