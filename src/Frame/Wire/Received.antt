-- ===== src/Frame/Wire/Received.antt =====
-- A frame that is read has the form of its type.
use powerlink_rs.Common.{
  ℕ, ok-injective, ◌∙◌, ◌/◌, ◌%◌, sym, zero, suc, ◌+◌, [], ◌∷◌, false, Result, err, ◌≤◌, refl,
  Option-cases, inl, inr, ◌<◌, ◌≡◌, not, List, All, length, get_or, length-take, length-drop, ok,
  arith, bind-ok, drop,
}
use powerlink_rs.Common.Bytes.{IsByte, read_u16_le, read_u32_le}
use powerlink_rs.Hal.{PowerlinkError}
use powerlink_rs.Nmt.State.{state_try_from}
use powerlink_rs.Types.{
  NodeId, broadcast_node_id, ethertype_epl, MessageType, message_type_code, message_type_try_from,
}
use powerlink_rs.Frame.Header.{
  EthernetHeader, message_type_eq, message_type_octet, is_powerlink, deserialize_eth_header,
  deserialize_pl_header,
}
use powerlink_rs.Frame.Padded.{read_sized}
use powerlink_rs.Frame.Soc.{SocFrame, IsSoc, read_soc, deserialize_soc}
use powerlink_rs.Frame.Soa.{SoaFrame, read_soa, deserialize_soa}
use powerlink_rs.Frame.Preq.{PreqFrame, IsPreq, read_preq, deserialize_preq}
use powerlink_rs.Frame.Pres.{
  PresFrame, IsPres, read_pres, read_pres_fields, pr_try_from, deserialize_pres, rs_flag,
}
use powerlink_rs.Frame.Asnd.{AsndFrame, read_asnd, deserialize_asnd}
use powerlink_rs.Frame.Wire.{
  PowerlinkFrame, read_as, mapped, read_frame, deserialize_frame, ethernet_header,
}
use powerlink_rs.Frame.Wire.RoundTrip.{IsFrame}

get_or-IsByte : (buffer : List ℕ) (i : ℕ) → All IsByte buffer → get_or buffer i 0 < 256
get_or-IsByte [] i v = omega arith
get_or-IsByte (x ∷ xs) zero v = v.0
get_or-IsByte (x ∷ xs) (suc i) v = get_or-IsByte xs i v.1

module _ (buffer : List ℕ) (v : All IsByte buffer) where
  read_u16_le-lt : (i : ℕ) → read_u16_le buffer i < 65536
  unfolding read_u16_le
  read_u16_le-lt i = omega (arith, get_or-IsByte buffer i v, get_or-IsByte buffer (i + 1) v)

  read_u32_le-lt : (i : ℕ) → read_u32_le buffer i < 4294967296
  unfolding read_u32_le
  read_u32_le-lt i = omega (
    arith,
    get_or-IsByte buffer i v,
    get_or-IsByte buffer (i + 1) v,
    get_or-IsByte buffer (i + 2) v,
    get_or-IsByte buffer (i + 3) v,
  )

  message_type_eq→eq : (m n : MessageType) → not (message_type_eq m n) ≡ false → m ≡ n
  unfolding message_type_eq message_type_code
  message_type_eq→eq m n h = ground arith

  read_sized-ok :
      (start size : ℕ) (payload : List ℕ)
      → read_sized start size buffer ≡ ok payload
      → size ≡ length payload
  unfolding read_sized
  read_sized-ok start size payload e =
      ground (arith, length-take size (drop start buffer), length-drop start buffer)

  read_soc-IsSoc :
      (h : EthernetHeader) (m : MessageType) (d s : NodeId) (f : SocFrame)
      → read_soc h buffer (m, d, s) ≡ ok f
      → IsSoc f × (f.eth_header ≡ h)
  unfolding read_soc message_type_eq
  read_soc-IsSoc h m d s f e = (
    record {
      is_soc = ground (arith, message_type_eq→eq m MessageType.soc);
      net_seconds = ground (arith, read_u32_le-lt 6);
      net_nanoseconds = ground (arith, read_u32_le-lt 10);
      relative_seconds = ground (arith, read_u32_le-lt 14);
      relative_nanoseconds = ground (arith, read_u32_le-lt 18);
    },
    ground arith,
  )

  read_soa-IsSoa :
      (h : EthernetHeader) (m : MessageType) (d s : NodeId) (f : SoaFrame)
      → read_soa h buffer (m, d, s) ≡ ok f
      → (f.message_type ≡ MessageType.soa) × (f.eth_header ≡ h)
  unfolding read_soa message_type_eq
  read_soa-IsSoa h m d s f e = (ground (arith, message_type_eq→eq m MessageType.soa), ground arith)

  read_asnd-IsAsnd :
      (h : EthernetHeader) (m : MessageType) (d s : NodeId) (f : AsndFrame)
      → read_asnd h buffer (m, d, s) ≡ ok f
      → (f.message_type ≡ MessageType.asnd) × (f.eth_header ≡ h)
  unfolding read_asnd message_type_eq
  read_asnd-IsAsnd h m d s f e =
      (ground (arith, message_type_eq→eq m MessageType.asnd), ground arith)

  read_preq-IsPreq :
      (h : EthernetHeader) (m : MessageType) (d s : NodeId) (f : PreqFrame)
      → read_preq h buffer (m, d, s) ≡ ok f
      → IsPreq f × (f.eth_header ≡ h)
  unfolding read_preq message_type_eq
  read_preq-IsPreq h m d s f e = (
    record {
      is_preq = ground (arith, message_type_eq→eq m MessageType.preq);
      sized = ground (arith, read_sized-ok 10 (read_u16_le buffer 8) f.payload);
      small = ground (arith, read_u16_le-lt 8);
    },
    ground arith,
  )

  rs_flag-le : (n : ℕ) → rs_flag n ≤ 7
  unfolding rs_flag
  rs_flag-le n = omega arith

  read_pres_fields-ok :
      (h : EthernetHeader) (m : MessageType) (d s : NodeId) (f : PresFrame)
      → read_pres_fields h buffer (m, d, s) ≡ ok f
      → (f.message_type ≡ m)
        × (f.destination ≡ d)
        × (f.eth_header ≡ h)
        × (f.flags.rs ≤ 7)
        × (f.payload_size ≡ length f.payload)
        × (f.payload_size < 65536)
  unfolding read_pres_fields
  read_pres_fields-ok h m d s f e =
      let (state, p, e1) = bind-ok (state_try_from (get_or buffer 3 0)) _ f e in
      let (pr, q, e2) = bind-ok (pr_try_from (get_or buffer 5 0 / 8)) _ f e1 in
      let (payload, r, e3) = bind-ok (read_sized 10 (read_u16_le buffer 8) buffer) _ f e2 in
      rw (sym (ok-injective e3)) (
        refl,
        refl,
        refl,
        rs_flag-le (get_or buffer 5 0 % 8),
        read_sized-ok 10 (read_u16_le buffer 8) payload r,
        read_u16_le-lt 8,
      )

  read_pres-IsPres :
      (h : EthernetHeader) (m : MessageType) (d s : NodeId) (f : PresFrame)
      → read_pres h buffer (m, d, s) ≡ ok f
      → IsPres f × (f.eth_header ≡ h)
  unfolding read_pres
  read_pres-IsPres h m d s f e =
      let is_pres : m ≡ MessageType.pres = ground (arith, message_type_eq→eq m MessageType.pres) in
      let to_all : d ≡ broadcast_node_id = ground arith in
      let fields : read_pres_fields h buffer (m, d, s) ≡ ok f = ground arith in
      let (type, destination, header, few, sized, small) = read_pres_fields-ok h m d s f fields in
      (
        record {
          is_pres = type ∙ is_pres;
          to_all = destination ∙ to_all;
          few = few;
          sized = sized;
          small = small;
        },
        header,
      )

  deserialize_soc-IsSoc :
      (h : EthernetHeader) (f : SocFrame)
      → deserialize_soc h buffer ≡ ok f
      → IsSoc f × (f.eth_header ≡ h)
  unfolding deserialize_soc
  deserialize_soc-IsSoc h f e =
      let (r, p, q) = bind-ok (deserialize_pl_header buffer) (read_soc h buffer) f (ground arith) in
      read_soc-IsSoc h r.0 r.1 r.2 f q

  deserialize_soa-IsSoa :
      (h : EthernetHeader) (f : SoaFrame)
      → deserialize_soa h buffer ≡ ok f
      → (f.message_type ≡ MessageType.soa) × (f.eth_header ≡ h)
  unfolding deserialize_soa
  deserialize_soa-IsSoa h f e =
      let (r, p, q) = bind-ok (deserialize_pl_header buffer) (read_soa h buffer) f (ground arith) in
      read_soa-IsSoa h r.0 r.1 r.2 f q

  deserialize_asnd-IsAsnd :
      (h : EthernetHeader) (f : AsndFrame)
      → deserialize_asnd h buffer ≡ ok f
      → (f.message_type ≡ MessageType.asnd) × (f.eth_header ≡ h)
  unfolding deserialize_asnd
  deserialize_asnd-IsAsnd h f e =
      let (r, p, q) =
        bind-ok (deserialize_pl_header buffer) (read_asnd h buffer) f (ground arith) in
      read_asnd-IsAsnd h r.0 r.1 r.2 f q

  deserialize_preq-IsPreq :
      (h : EthernetHeader) (f : PreqFrame)
      → deserialize_preq h buffer ≡ ok f
      → IsPreq f × (f.eth_header ≡ h)
  unfolding deserialize_preq
  deserialize_preq-IsPreq h f e =
      let (r, p, q) =
        bind-ok (deserialize_pl_header buffer) (read_preq h buffer) f (ground arith) in
      read_preq-IsPreq h r.0 r.1 r.2 f q

  deserialize_pres-IsPres :
      (h : EthernetHeader) (f : PresFrame)
      → deserialize_pres h buffer ≡ ok f
      → IsPres f × (f.eth_header ≡ h)
  unfolding deserialize_pres
  deserialize_pres-IsPres h f e =
      let (r, p, q) =
        bind-ok (deserialize_pl_header buffer) (read_pres h buffer) f (ground arith) in
      read_pres-IsPres h r.0 r.1 r.2 f q

  mapped-ok {ℓ} :
      {A : Type ℓ} {k : A → PowerlinkFrame} (r : Result A PowerlinkError) (f : PowerlinkFrame)
      → mapped k r ≡ ok f
      → (a : A) × (r ≡ ok a) × (k a ≡ f)
  mapped-ok (ok a) f e = (a, refl, ground arith)
  mapped-ok (err x) f e = absurd (ground arith)

  -- What a codec reads is a frame, behind the header that it is given.
  read_as-IsFrame :
      (m : MessageType) (h : EthernetHeader) (f : PowerlinkFrame)
      → read_as m h buffer ≡ ok f
      → IsFrame f × (ethernet_header f ≡ h)
  unfolding read_as IsFrame ethernet_header
  read_as-IsFrame MessageType.soc h f e =
      let (g, p, q) = mapped-ok (deserialize_soc h buffer) f e in
      rw (sym q) (deserialize_soc-IsSoc h g p)
  read_as-IsFrame MessageType.preq h f e =
      let (g, p, q) = mapped-ok (deserialize_preq h buffer) f e in
      rw (sym q) (deserialize_preq-IsPreq h g p)
  read_as-IsFrame MessageType.pres h f e =
      let (g, p, q) = mapped-ok (deserialize_pres h buffer) f e in
      rw (sym q) (deserialize_pres-IsPres h g p)
  read_as-IsFrame MessageType.soa h f e =
      let (g, p, q) = mapped-ok (deserialize_soa h buffer) f e in
      rw (sym q) (deserialize_soa-IsSoa h g p)
  read_as-IsFrame MessageType.asnd h f e =
      let (g, p, q) = mapped-ok (deserialize_asnd h buffer) f e in
      rw (sym q) (deserialize_asnd-IsAsnd h g p)

  read_frame-IsFrame :
      (h : EthernetHeader) (f : PowerlinkFrame)
      → read_frame h buffer ≡ ok f
      → IsFrame f × (ethernet_header f ≡ h)
  unfolding read_frame
  read_frame-IsFrame h f e =
      elim (Option-cases (message_type_try_from (message_type_octet buffer))) [
        | inl q ↦ absurd (ground (arith, q))
        | inr (m, q) ↦ read_as-IsFrame m h f (ground (arith, q))
      ]

drop-All : (n : ℕ) (xs : List ℕ) → All IsByte xs → All IsByte (drop n xs)
drop-All zero xs v = v
drop-All (suc n) [] v = v
drop-All (suc n) (x ∷ xs) v = drop-All n xs v.1

-- Every frame that is read from a buffer of bytes has the EtherType of POWERLINK and the message
-- type of its kind; the times of a SoC are below 2 ^ 32, the size of a PReq or a PRes is below
-- 2 ^ 16 and the length of its payload, and a PRes goes to all nodes with at most 7 requests
-- waiting.
pub deserialize_frame-IsFrame :
    (buffer : List ℕ) (f : PowerlinkFrame)
    → All IsByte buffer
    → deserialize_frame buffer ≡ ok f
    → IsFrame f × ((ethernet_header f).ether_type ≡ ethertype_epl)
unfolding deserialize_frame is_powerlink
deserialize_frame-IsFrame buffer f v e =
    let (h, p, q) = bind-ok (deserialize_eth_header buffer) _ f e in
    let r : read_frame h (drop 14 buffer) ≡ ok f = ground arith in
    let (frame, header) = read_frame-IsFrame (drop 14 buffer) (drop-All 14 buffer v) h f r in
    (frame, ground arith)
