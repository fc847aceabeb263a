-- ===== src/Od/Bytes/RoundTrip.antt =====
-- A value is read back from its bytes.
use powerlink_rs.Common.{
  some, sym, ◌∙◌, ==_iff, ℕ, ◌+◌, ◌*◌, ◌/◌, ◌%◌, ◌<◌, ◌≤◌, ◌≡◌, refl, ap, Bool, true, ◌==◌,
  if◌then◌else◌, List, [], ◌∷◌, All, length, take-all, ok, arith,
}
use powerlink_rs.Common.Bytes.{
  inside, le_bytes2, le_bytes4, read_u16_le, read_u32_le, join_bytes2, join_bytes4,
}
use powerlink_rs.Od.Value.{
  ObjectValue, boolean, integer8, integer16, integer32, integer64, unsigned8, unsigned16,
  unsigned32, unsigned64, real32, real64, visible_string, octet_string, unicode_string, domain,
  time_of_day, time_difference, net_time, mac_address, ip_address, same_type, discriminant,
}
use powerlink_rs.Od.Bytes.{
  le_bytes8, read_u64_le, u16s_to_bytes, bytes_to_u16s, serialize, checked, fixed, deserialize,
}

-- The numbers that are values of a type: below its width, and the right number of octets.
unfoldable pub IsValue : (List ℕ → Bool) → ObjectValue → Type 0
IsValue is_utf8 (boolean v) = v < 256
IsValue is_utf8 (integer8 v) = v < 256
IsValue is_utf8 (integer16 v) = v < 65536
IsValue is_utf8 (integer32 v) = v < 4294967296
IsValue is_utf8 (integer64 v) = v < 18446744073709551616
IsValue is_utf8 (unsigned8 v) = v < 256
IsValue is_utf8 (unsigned16 v) = v < 65536
IsValue is_utf8 (unsigned32 v) = v < 4294967296
IsValue is_utf8 (unsigned64 v) = v < 18446744073709551616
IsValue is_utf8 (real32 v) = v < 4294967296
IsValue is_utf8 (real64 v) = v < 18446744073709551616
IsValue is_utf8 (visible_string v) = is_utf8 v ≡ true
IsValue is_utf8 (octet_string v) = Unit
IsValue is_utf8 (unicode_string v) = All (λ c. c < 65536) v
IsValue is_utf8 (domain v) = Unit
IsValue is_utf8 (time_of_day v) = (v.ms < 4294967296) × (v.days < 65536)
IsValue is_utf8 (time_difference v) = (v.ms < 4294967296) × (v.days < 65536)
IsValue is_utf8 (net_time v) = (v.seconds < 4294967296) × (v.nanoseconds < 4294967296)
IsValue is_utf8 (mac_address v) = length v ≡ 6
IsValue is_utf8 (ip_address v) = length v ≡ 4

fixed-ok :
    (size : ℕ) (bytes : List ℕ) (v w : ObjectValue)
    → size ≤ length bytes
    → v ≡ w
    → fixed size bytes v ≡ some (ok w)
unfolding fixed checked inside
fixed-ok size bytes v w l e = ground arith

join_bytes8 : (n : ℕ) → n < 18446744073709551616 → read_u64_le (le_bytes8 n) 0 ≡ n
unfolding read_u64_le le_bytes8 read_u32_le le_bytes4
join_bytes8 n h =
    let low = n % 4294967296 in
    let high = n / 4294967296 in
    let whole : high * 4294967296 + low ≡ n = omega arith in
    let front : n % 256
          + n / 256 % 256 * 256
          + n / 65536 % 256 * 65536
          + n / 16777216 % 256 * 16777216
        ≡ low =
      omega arith in
    rw (join_bytes4 high (omega arith), front) (omega (arith, whole))

bytes_to_u16s-u16s_to_bytes :
    (cs : List ℕ) → All (λ c. c < 65536) cs → bytes_to_u16s (u16s_to_bytes cs) ≡ cs
unfolding bytes_to_u16s u16s_to_bytes
bytes_to_u16s-u16s_to_bytes [] v = refl
bytes_to_u16s-u16s_to_bytes (c ∷ cs) v =
    rw (join_bytes2 c v.0, bytes_to_u16s-u16s_to_bytes cs v.1) refl

length-u16s_to_bytes : (cs : List ℕ) → length (u16s_to_bytes cs) % 2 ≡ 0
unfolding u16s_to_bytes
length-u16s_to_bytes [] = refl
length-u16s_to_bytes (c ∷ cs) = omega (arith, length-u16s_to_bytes cs)

-- A value of the type with this number.
template : ℕ → ObjectValue
template n =
    if n == 0
    then boolean 0
    else if n == 1
    then integer8 0
    else if n == 2
    then integer16 0
    else if n == 3
    then integer32 0
    else if n == 4
    then integer64 0
    else if n == 5
    then unsigned8 0
    else if n == 6
    then unsigned16 0
    else if n == 7
    then unsigned32 0
    else if n == 8
    then unsigned64 0
    else if n == 9
    then real32 0
    else if n == 10
    then real64 0
    else if n == 11
    then visible_string []
    else if n == 12
    then octet_string []
    else if n == 13
    then unicode_string []
    else if n == 14
    then domain []
    else if n == 15
    then time_of_day (record { ms = 0; days = 0 })
    else if n == 16
    then time_difference (record { ms = 0; days = 0 })
    else if n == 17
    then net_time (record { seconds = 0; nanoseconds = 0 })
    else if n == 18
    then mac_address []
    else ip_address []

module _ (is_utf8 : List ℕ → Bool) where
  -- A value is read back from its bytes, with itself as the template.
  deserialize-serialize_self :
      (v : ObjectValue) → IsValue is_utf8 v → deserialize is_utf8 (serialize v) v ≡ some (ok v)
  unfolding deserialize serialize IsValue fixed checked inside read_u16_le read_u32_le le_bytes2
      le_bytes4
  deserialize-serialize_self (boolean v) h = ground arith
  deserialize-serialize_self (integer8 v) h = ground arith
  deserialize-serialize_self (integer16 v) h =
      fixed-ok 2 (le_bytes2 v) _ _ (omega arith) (ap integer16 (join_bytes2 v h))
  deserialize-serialize_self (integer32 v) h =
      fixed-ok 4 (le_bytes4 v) _ _ (omega arith) (ap integer32 (join_bytes4 v h))
  deserialize-serialize_self (integer64 v) h =
      fixed-ok 8 (le_bytes8 v) _ _ (omega arith) (ap integer64 (join_bytes8 v h))
  deserialize-serialize_self (unsigned8 v) h = ground arith
  deserialize-serialize_self (unsigned16 v) h =
      fixed-ok 2 (le_bytes2 v) _ _ (omega arith) (ap unsigned16 (join_bytes2 v h))
  deserialize-serialize_self (unsigned32 v) h =
      fixed-ok 4 (le_bytes4 v) _ _ (omega arith) (ap unsigned32 (join_bytes4 v h))
  deserialize-serialize_self (unsigned64 v) h =
      fixed-ok 8 (le_bytes8 v) _ _ (omega arith) (ap unsigned64 (join_bytes8 v h))
  deserialize-serialize_self (real32 v) h =
      fixed-ok 4 (le_bytes4 v) _ _ (omega arith) (ap real32 (join_bytes4 v h))
  deserialize-serialize_self (real64 v) h =
      fixed-ok 8 (le_bytes8 v) _ _ (omega arith) (ap real64 (join_bytes8 v h))
  deserialize-serialize_self (visible_string v) h = rw h refl
  deserialize-serialize_self (octet_string v) h = refl
  deserialize-serialize_self (unicode_string v) h =
      rw (length-u16s_to_bytes v, bytes_to_u16s-u16s_to_bytes v h) refl
  deserialize-serialize_self (domain v) h = refl
  deserialize-serialize_self (time_of_day v) h =
      rw (join_bytes4 v.ms h.0, join_bytes2 v.days h.1) refl
  deserialize-serialize_self (time_difference v) h =
      rw (join_bytes4 v.ms h.0, join_bytes2 v.days h.1) refl
  deserialize-serialize_self (net_time v) h =
      rw (join_bytes4 v.seconds h.0, join_bytes4 v.nanoseconds h.1) refl
  deserialize-serialize_self (mac_address v) h =
      rw (take-all 6 v (omega (arith, h))) (fixed-ok 6 v _ _ (omega (arith, h)) refl)
  deserialize-serialize_self (ip_address v) h =
      rw (take-all 4 v (omega (arith, h))) (fixed-ok 4 v _ _ (omega (arith, h)) refl)

  deserialize-template :
      (bytes : List ℕ) (v : ObjectValue)
      → deserialize is_utf8 bytes v ≡ deserialize is_utf8 bytes (template (discriminant v))
  unfolding deserialize template discriminant
  deserialize-template bytes (boolean _) = refl
  deserialize-template bytes (integer8 _) = refl
  deserialize-template bytes (integer16 _) = refl
  deserialize-template bytes (integer32 _) = refl
  deserialize-template bytes (integer64 _) = refl
  deserialize-template bytes (unsigned8 _) = refl
  deserialize-template bytes (unsigned16 _) = refl
  deserialize-template bytes (unsigned32 _) = refl
  deserialize-template bytes (unsigned64 _) = refl
  deserialize-template bytes (real32 _) = refl
  deserialize-template bytes (real64 _) = refl
  deserialize-template bytes (visible_string _) = refl
  deserialize-template bytes (octet_string _) = refl
  deserialize-template bytes (unicode_string _) = refl
  deserialize-template bytes (domain _) = refl
  deserialize-template bytes (time_of_day _) = refl
  deserialize-template bytes (time_difference _) = refl
  deserialize-template bytes (net_time _) = refl
  deserialize-template bytes (mac_address _) = refl
  deserialize-template bytes (ip_address _) = refl

  -- What is read of bytes depends on the type of the template only.
  deserialize-same_type :
      (bytes : List ℕ) (t v : ObjectValue)
      → same_type t v ≡ true
      → deserialize is_utf8 bytes t ≡ deserialize is_utf8 bytes v
  unfolding same_type
  deserialize-same_type bytes t v e =
      let same : discriminant t ≡ discriminant v = (==_iff _ _).0 e in
      rw (deserialize-template bytes t, same, sym (deserialize-template bytes v)) refl

  -- The bytes of a value, read with any template of its type, give the value.
  pub deserialize-serialize_value :
      (v t : ObjectValue)
      → IsValue is_utf8 v
      → same_type t v ≡ true
      → deserialize is_utf8 (serialize v) t ≡ some (ok v)
  deserialize-serialize_value v t h e =
      deserialize-same_type (serialize v) t v e ∙ deserialize-serialize_self v h
