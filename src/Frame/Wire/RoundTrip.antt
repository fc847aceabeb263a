-- ===== src/Frame/Wire/RoundTrip.antt =====
-- What a node sends is what another node reads.
use powerlink_rs.Common.{
  ℕ, ◌+◌, ◌-◌, ◌≤◌, max, ◌≡◌, refl, sym, Bool, true, some, ◌%◌, List, [], ◌++◌, length, take, drop,
  replicate, length-append, length-drop, length-replicate, take-append, append_assoc, ok, arith,
}
use powerlink_rs.Common.Bytes.{overwrite_lem}
use powerlink_rs.Types.{MessageType, ethertype_epl, message_type_code, message_type_try_from}
use powerlink_rs.Frame.Header.{
  EthernetHeader, eth_bytes, serialize_eth_header, is_powerlink, deserialize_eth_header-eth_bytes,
  message_type_octet,
}
use powerlink_rs.Frame.Padded.{padded_size, padding, write_padded-fits}
use powerlink_rs.Frame.Soc.{soc_bytes, serialize_soc, IsSoc, deserialize-soc_bytes}
use powerlink_rs.Frame.Soa.{soa_bytes, serialize_soa, deserialize-soa_bytes}
use powerlink_rs.Frame.Preq.{preq_bytes, serialize_preq, IsPreq, deserialize-preq_bytes}
use powerlink_rs.Frame.Pres.{pres_bytes, serialize_pres, IsPres}
use powerlink_rs.Frame.Pres.RoundTrip.{deserialize-pres_bytes}
use powerlink_rs.Frame.Asnd.{asnd_bytes, serialize_asnd}
use powerlink_rs.Frame.Asnd.Trim.{asnd_as_read, deserialize-asnd_bytes}
use powerlink_rs.Frame.Wire.{
  PowerlinkFrame, soc, preq, pres, soa, asnd, ethernet_header, serialize, read_as, read_frame,
  deserialize_frame, send_frame, may_send, cut_to_frame, send_in, serialize_frame_action,
}

-- The fields in front of the payload, and the payload.
unfoldable pub fields : PowerlinkFrame → List ℕ
unfolding soc_bytes preq_bytes pres_bytes soa_bytes asnd_bytes
fields (soc f) = soc_bytes f
fields (preq f) = preq_bytes f
fields (pres f) = pres_bytes f
fields (soa f) = soa_bytes f
fields (asnd f) = asnd_bytes f

unfoldable pub payload : PowerlinkFrame → List ℕ
payload (soc f) = []
payload (preq f) = f.payload
payload (pres f) = f.payload
payload (soa f) = []
payload (asnd f) = f.payload

-- The bytes of a frame on the wire.
unfoldable pub wire : PowerlinkFrame → List ℕ
unfolding eth_bytes ethernet_header fields payload
wire f =
    eth_bytes (ethernet_header f) ++ (fields f ++ (payload f ++ padding (fields f) (payload f)))

-- A frame whose fields have the values of its type.
unfoldable pub IsFrame : PowerlinkFrame → Type 0
IsFrame (soc f) = IsSoc f
IsFrame (preq f) = IsPreq f
IsFrame (pres f) = IsPres f
IsFrame (soa f) = f.message_type ≡ MessageType.soa
IsFrame (asnd f) = f.message_type ≡ MessageType.asnd

-- A short payload of an ASnd frame comes without the zeros at its end.
unfoldable pub as_received : PowerlinkFrame → PowerlinkFrame
unfolding asnd_as_read
as_received (soc f) = soc f
as_received (preq f) = preq f
as_received (pres f) = pres f
as_received (soa f) = soa f
as_received (asnd f) = asnd (asnd_as_read f)

message_type_octet-reads :
    (m n : MessageType) → m ≡ n → message_type_try_from (message_type_code m % 128) ≡ some n
unfolding message_type_try_from message_type_code
message_type_octet-reads m n e = ground arith

read_frame-typed :
    (h : EthernetHeader) (buffer : List ℕ) (m : MessageType)
    → message_type_try_from (message_type_octet buffer) ≡ some m
    → read_frame h buffer ≡ read_as m h buffer
unfolding read_frame
read_frame-typed h buffer m e = rw (read_frame, e) refl

-- The codec finds a frame behind its Ethernet header.
read_frame-fields :
    (f : PowerlinkFrame)
    → IsFrame f
    → read_frame (ethernet_header f) (fields f ++ (payload f ++ padding (fields f) (payload f)))
      ≡ ok (as_received f)
unfolding message_type_octet fields payload as_received IsFrame ethernet_header soc_bytes preq_bytes
    pres_bytes soa_bytes asnd_bytes read_as
read_frame-fields (soc f) v =
    rw
      (
        read_frame-typed f.eth_header _ _ (message_type_octet-reads _ _ v.is_soc),
        deserialize-soc_bytes f (padding (soc_bytes f) []) v,
      )
      refl
read_frame-fields (preq f) v =
    rw
      (
        read_frame-typed f.eth_header _ _ (message_type_octet-reads _ _ v.is_preq),
        deserialize-preq_bytes f (padding (preq_bytes f) f.payload) v,
      )
      refl
read_frame-fields (pres f) v =
    rw
      (
        read_frame-typed f.eth_header _ _ (message_type_octet-reads _ _ v.is_pres),
        deserialize-pres_bytes f (padding (pres_bytes f) f.payload) v,
      )
      refl
read_frame-fields (soa f) v =
    rw
      (
        read_frame-typed f.eth_header _ _ (message_type_octet-reads _ _ v),
        deserialize-soa_bytes f (padding (soa_bytes f) []) v,
      )
      refl
read_frame-fields (asnd f) v =
    rw
      (
        read_frame-typed f.eth_header _ _ (message_type_octet-reads _ _ v),
        deserialize-asnd_bytes f v,
      )
      refl

length-fields : (f : PowerlinkFrame) → 4 ≤ length (fields f)
unfolding fields soc_bytes preq_bytes pres_bytes soa_bytes asnd_bytes
length-fields (soc f) = omega arith
length-fields (preq f) = omega arith
length-fields (pres f) = omega arith
length-fields (soa f) = omega arith
length-fields (asnd f) = omega arith

deserialize_frame-wire :
    (f : PowerlinkFrame)
    → IsFrame f
    → (ethernet_header f).ether_type ≡ ethertype_epl
    → deserialize_frame (wire f) ≡ ok (as_received f)
unfolding deserialize_frame wire is_powerlink
deserialize_frame-wire f v epl =
    rw
      (
        deserialize_eth_header-eth_bytes (ethernet_header f) _ (omega (arith, epl)),
        read_frame-fields f v,
        epl,
      )
      (ground (
        arith,
        length-fields f,
        length-append (fields f) (payload f ++ padding (fields f) (payload f)),
      ))

serialize-fits :
    (f : PowerlinkFrame) (buffer : List ℕ)
    → padded_size (fields f) (payload f) ≤ length buffer
    → serialize f buffer ≡ (
      ok (padded_size (fields f) (payload f)),
      fields f
          ++ (payload f
              ++ (padding (fields f) (payload f)
                  ++ drop (padded_size (fields f) (payload f)) buffer)),
    )
unfolding serialize serialize_soc serialize_preq serialize_pres serialize_soa serialize_asnd fields
    payload
serialize-fits (soc f) buffer l = write_padded-fits (soc_bytes f) [] buffer l
serialize-fits (preq f) buffer l = write_padded-fits (preq_bytes f) f.payload buffer l
serialize-fits (pres f) buffer l = write_padded-fits (pres_bytes f) f.payload buffer l
serialize-fits (soa f) buffer l = write_padded-fits (soa_bytes f) [] buffer l
serialize-fits (asnd f) buffer l = write_padded-fits (asnd_bytes f) f.payload buffer l

-- The header in front of an empty buffer of 14 bytes or more.
eth_header-written :
    (h : EthernetHeader) (buffer : List ℕ)
    → 14 ≤ length buffer
    → serialize_eth_header h buffer ≡ eth_bytes h ++ drop 14 buffer
unfolding serialize_eth_header eth_bytes
eth_header-written h buffer l = ground (arith, overwrite_lem (eth_bytes h) buffer l)

eth_bytes-split :
    (h : EthernetHeader) (buffer : List ℕ)
    → (drop 14 (eth_bytes h ++ buffer) ≡ buffer) × (take 14 (eth_bytes h ++ buffer) ≡ eth_bytes h)
unfolding eth_bytes
eth_bytes-split h buffer = (refl, refl)

length-body :
    (f : PowerlinkFrame)
    → padded_size (fields f) (payload f)
      ≡ length (fields f ++ (payload f ++ padding (fields f) (payload f)))
length-body f =
    let padded = padding (fields f) (payload f) in
    omega (
      arith,
      length-append (fields f) (payload f ++ padded),
      length-append (payload f) padded,
      length-replicate {A = ℕ}
          (padded_size (fields f) (payload f) - (length (fields f) + length (payload f))) 0,
    )

-- The buffer is cut behind a frame of 60 bytes or more.
cut_to_frame-lem :
    (n : ℕ) (head body rest : List ℕ)
    → n ≡ length body
    → length head ≡ 14
    → 46 ≤ n
    → cut_to_frame (ok n, body ++ rest) head ≡ ok (send_frame (head ++ body))
unfolding cut_to_frame
cut_to_frame-lem n head body rest e h b =
    let size : max (14 + n) 60 ≡ length (head ++ body) = omega (arith, length-append head body) in
    rw (size, sym (append_assoc head body rest), take-append (head ++ body) rest) (ground arith)

-- In a buffer of 1518 bytes every frame that fits is sent as it stands on the wire.
send_in-wire :
    (zeros : List ℕ) (is_cn : Bool) (f : PowerlinkFrame)
    → length zeros ≡ 1518
    → may_send is_cn f ≡ true
    → length (fields f) + length (payload f) ≤ 1504
    → send_in zeros is_cn f ≡ ok (send_frame (wire f))
unfolding send_in wire
send_in-wire zeros is_cn f size allowed l =
    let h = ethernet_header f in
    let behind = drop 14 zeros in
    let padded = padding (fields f) (payload f) in
    let rest = drop (padded_size (fields f) (payload f)) behind in
    let body = fields f ++ (payload f ++ padded) in
    let room : length behind ≡ 1504 = omega (arith, length-drop 14 zeros, size) in
    let written = eth_header-written h zeros (omega (arith, size)) in
    let (after, before) = eth_bytes-split h behind in
    let done = serialize-fits f behind (omega (arith, room)) in
    let all : fields f ++ (payload f ++ (padded ++ rest)) ≡ body ++ rest =
      rw (append_assoc (fields f) _ rest, append_assoc (payload f) _ rest) refl in
    rw (allowed, written, after, before, done, all)
      (cut_to_frame-lem (padded_size (fields f) (payload f)) (eth_bytes h) body rest (length-body f)
        refl (omega arith))

-- Whatever a node is allowed to send and has room for in the buffer of 1518 bytes, with a frame
-- of the EtherType of POWERLINK whose fields have the values of its type, it sends, and the bytes
-- are read as the same frame, but for the zeros at the end of an ASnd payload of 42 bytes or less.
pub deserialize_frame-serialize_frame_action :
    (is_cn : Bool) (f : PowerlinkFrame)
    → IsFrame f
    → (ethernet_header f).ether_type ≡ ethertype_epl
    → may_send is_cn f ≡ true
    → length (fields f) + length (payload f) ≤ 1504
    → (serialize_frame_action is_cn f ≡ ok (send_frame (wire f)))
      × (deserialize_frame (wire f) ≡ ok (as_received f))
unfolding serialize_frame_action
deserialize_frame-serialize_frame_action is_cn f v epl allowed l = (
  send_in-wire (replicate 1518 0) is_cn f (length-replicate {A = ℕ} 1518 0) allowed l,
  deserialize_frame-wire f v epl,
)
