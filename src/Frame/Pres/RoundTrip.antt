-- ===== src/Frame/Pres/RoundTrip.antt =====
-- A PRes frame is read back from its bytes.
use powerlink_rs.Common.{
  ℕ, ◌+◌, ◌≤◌, ◌%◌, ◌≡◌, refl, Bool, true, false, ◌*◌, ◌/◌, List, ◌++◌, ok, arith,
}
use powerlink_rs.Common.Bytes.{has_flag, le_bytes2, read_u16_le, join_bytes2}
use powerlink_rs.Types.{message_type_code}
use powerlink_rs.Common.Tables.{agree_below, agree_below→eq}
use powerlink_rs.Nmt.State.Codes.{state_try_from-code}
use powerlink_rs.Frame.Header.{deserialize_pl_header-pl_bytes, message_type_eq}
use powerlink_rs.Frame.Padded.{read_sized-append}
use powerlink_rs.Frame.Pres.{
  PrFlag, prio_nmt_request, high3, high2, high1, prio_generic_request, low3, low2, low1, pr_code,
  pr_try_from, rs_flag, PresFrame, pres_flags1_octet, pres_flags2_octet, pres_bytes, read_pres,
  read_pres_fields, deserialize_pres, IsPres,
}

pres_flags1_octet-reads :
    (ms en rd : Bool)
    → (has_flag (pres_flags1_octet ms en rd) 0x20 ≡ ms)
      × (has_flag (pres_flags1_octet ms en rd) 0x10 ≡ en)
      × (has_flag (pres_flags1_octet ms en rd) 0x01 ≡ rd)
unfolding has_flag pres_flags1_octet
pres_flags1_octet-reads true true true = (refl, refl, refl)
pres_flags1_octet-reads true true false = (refl, refl, refl)
pres_flags1_octet-reads true false true = (refl, refl, refl)
pres_flags1_octet-reads true false false = (refl, refl, refl)
pres_flags1_octet-reads false true true = (refl, refl, refl)
pres_flags1_octet-reads false true false = (refl, refl, refl)
pres_flags1_octet-reads false false true = (refl, refl, refl)
pres_flags1_octet-reads false false false = (refl, refl, refl)

pr_try_from-code : (p : PrFlag) → pr_try_from (pr_code p) ≡ ok p
unfolding pr_try_from pr_code
pr_try_from-code p = ground arith

pres_flags2-table :
    (p : PrFlag) → agree_below (pres_flags2_octet p) (λ n. pr_code p * 8 + n) 8 ≡ true
unfolding agree_below pres_flags2_octet pr_code
pres_flags2-table prio_nmt_request = refl
pres_flags2-table high3 = refl
pres_flags2-table high2 = refl
pres_flags2-table high1 = refl
pres_flags2-table prio_generic_request = refl
pres_flags2-table low3 = refl
pres_flags2-table low2 = refl
pres_flags2-table low1 = refl

-- The second octet of flags is a sum, so that its parts are read back.
pres_flags2_octet-sum : (p : PrFlag) (r : ℕ) → r ≤ 7 → pres_flags2_octet p r ≡ pr_code p * 8 + r
unfolding pres_flags2_octet pr_code
pres_flags2_octet-sum p r h =
    agree_below→eq (pres_flags2_octet p) (λ n. pr_code p * 8 + n) 8 (pres_flags2-table p) r
      (omega arith)

pres_flags2_octet-reads :
    (p : PrFlag) (r : ℕ)
    → r ≤ 7
    → (pr_try_from (pres_flags2_octet p r / 8) ≡ ok p) × (rs_flag (pres_flags2_octet p r % 8) ≡ r)
unfolding rs_flag
pres_flags2_octet-reads p r h =
    let quotient : (pr_code p * 8 + r) / 8 ≡ pr_code p = omega arith in
    rw (pres_flags2_octet-sum p r h, quotient) (pr_try_from-code p, omega arith)

-- The frame is read back from its bytes, whatever follows them.
pub deserialize-pres_bytes :
    (f : PresFrame) (rest : List ℕ)
    → IsPres f
    → deserialize_pres f.eth_header (pres_bytes f ++ (f.payload ++ rest)) ≡ ok f
unfolding deserialize_pres read_pres read_pres_fields pres_bytes message_type_eq message_type_code
    read_u16_le le_bytes2
deserialize-pres_bytes f rest v =
    let is_pres = v.is_pres in
    let to_all = v.to_all in
    let (ms, en, rd) = pres_flags1_octet-reads f.flags.ms f.flags.en f.flags.rd in
    let (pr, rs) = pres_flags2_octet-reads f.flags.pr f.flags.rs v.few in
    rw
      (
        deserialize_pl_header-pl_bytes f.message_type f.destination f.source _,
        state_try_from-code f.nmt_state,
        join_bytes2 f.payload_size v.small,
        read_sized-append (pres_bytes f) f.payload rest f.payload_size v.sized,
        ms,
        en,
        rd,
        pr,
        rs,
      )
      (ground arith)
