-- ===== src/Od/Bytes.antt =====
-- crates/powerlink-rs/src/od/value.rs: a value as bytes in little-endian order.
-- Numbers are bit patterns (see Od.Value), so that `from_le_bytes` of a signed or a real type is
-- the number of its bytes. `String::from_utf8` is the parameter `is_utf8`, its test.
pub mod RoundTrip
use powerlink_rs.Common.{
  Option, none, some, ℕ, ◌+◌, ◌*◌, ◌/◌, ◌%◌, Bool, ltb, ◌==◌, not, if◌then◌else◌, List, [], ◌∷◌,
  ◌++◌, length, get_or, take, Result, ok, err,
}
use powerlink_rs.Common.Bytes.{inside, le_bytes2, le_bytes4, read_u16_le, read_u32_le}
use powerlink_rs.Hal.{PowerlinkError, buffer_too_short, type_mismatch}
use powerlink_rs.Od.Value.{
  ObjectValue, boolean, integer8, integer16, integer32, integer64, unsigned8, unsigned16,
  unsigned32, unsigned64, real32, real64, visible_string, octet_string, unicode_string, domain,
  time_of_day, time_difference, net_time, mac_address, ip_address,
}

unfoldable pub le_bytes8 : ℕ → List ℕ
unfolding le_bytes4
le_bytes8 n = le_bytes4 n ++ le_bytes4 (n / 4294967296)

unfoldable pub read_u64_le : List ℕ → ℕ → ℕ
unfolding read_u32_le
read_u64_le buffer i = read_u32_le buffer i + read_u32_le buffer (i + 4) * 4294967296

-- `flat_map(|c| c.to_le_bytes())`, and the pairs of `chunks_exact(2)` as numbers
unfoldable pub u16s_to_bytes : List ℕ → List ℕ
u16s_to_bytes [] = []
u16s_to_bytes (c ∷ cs) = c % 256 ∷ c / 256 % 256 ∷ u16s_to_bytes cs

unfoldable pub bytes_to_u16s : List ℕ → List ℕ
bytes_to_u16s [] = []
bytes_to_u16s (a ∷ []) = []
bytes_to_u16s (a ∷ b ∷ rest) = (a + b * 256) ∷ bytes_to_u16s rest

-- `ObjectValue::serialize`
unfoldable pub serialize : ObjectValue → List ℕ
unfolding le_bytes2 le_bytes4 le_bytes8 u16s_to_bytes
serialize (boolean v) = v % 256 ∷ []
serialize (integer8 v) = v % 256 ∷ []
serialize (integer16 v) = le_bytes2 v
serialize (integer32 v) = le_bytes4 v
serialize (integer64 v) = le_bytes8 v
serialize (unsigned8 v) = v % 256 ∷ []
serialize (unsigned16 v) = le_bytes2 v
serialize (unsigned32 v) = le_bytes4 v
serialize (unsigned64 v) = le_bytes8 v
serialize (real32 v) = le_bytes4 v
serialize (real64 v) = le_bytes8 v
serialize (visible_string v) = v
serialize (octet_string v) = v
serialize (unicode_string v) = u16s_to_bytes v
serialize (domain v) = v
serialize (time_of_day v) = le_bytes4 v.ms ++ le_bytes2 v.days
serialize (time_difference v) = le_bytes4 v.ms ++ le_bytes2 v.days
serialize (net_time v) = le_bytes4 v.seconds ++ le_bytes4 v.nanoseconds
serialize (mac_address v) = v
serialize (ip_address v) = v

-- `BufferTooShort` if there are fewer bytes than `least`; else a read of `count` bytes, where
-- `none` is a panic.
unfoldable pub checked : ℕ → ℕ → List ℕ → ObjectValue → Option (Result ObjectValue PowerlinkError)
unfolding inside
checked least count bytes value =
    if ltb (length bytes) least then some (err buffer_too_short) else inside count bytes (ok value)

-- `deserialize_fixed!`: a number of `expected_len` bytes.
unfoldable pub fixed : ℕ → List ℕ → ObjectValue → Option (Result ObjectValue PowerlinkError)
unfolding checked
fixed expected_len bytes value = checked expected_len expected_len bytes value

module _ (is_utf8 : List ℕ → Bool) where
  -- `ObjectValue::deserialize`
  unfoldable pub deserialize : List ℕ → ObjectValue → Option (Result ObjectValue PowerlinkError)
  unfolding fixed checked read_u16_le read_u32_le read_u64_le bytes_to_u16s
  deserialize bytes (boolean _) = fixed 1 bytes (boolean (get_or bytes 0 0))
  deserialize bytes (integer8 _) = fixed 1 bytes (integer8 (get_or bytes 0 0))
  deserialize bytes (integer16 _) = fixed 2 bytes (integer16 (read_u16_le bytes 0))
  deserialize bytes (integer32 _) = fixed 4 bytes (integer32 (read_u32_le bytes 0))
  deserialize bytes (integer64 _) = fixed 8 bytes (integer64 (read_u64_le bytes 0))
  deserialize bytes (unsigned8 _) = fixed 1 bytes (unsigned8 (get_or bytes 0 0))
  deserialize bytes (unsigned16 _) = fixed 2 bytes (unsigned16 (read_u16_le bytes 0))
  deserialize bytes (unsigned32 _) = fixed 4 bytes (unsigned32 (read_u32_le bytes 0))
  deserialize bytes (unsigned64 _) = fixed 8 bytes (unsigned64 (read_u64_le bytes 0))
  deserialize bytes (real32 _) = fixed 4 bytes (real32 (read_u32_le bytes 0))
  deserialize bytes (real64 _) = fixed 8 bytes (real64 (read_u64_le bytes 0))
  deserialize bytes (visible_string _) =
      some (if is_utf8 bytes then ok (visible_string bytes) else err type_mismatch)
  deserialize bytes (octet_string _) = some (ok (octet_string bytes))
  deserialize bytes (unicode_string _) =
      if not (length bytes % 2 == 0)
      then some (err type_mismatch)
      else some (ok (unicode_string (bytes_to_u16s bytes)))
  deserialize bytes (domain _) = some (ok (domain bytes))
  deserialize bytes (time_of_day _) =
      checked 6 6 bytes
        (time_of_day (record { ms = read_u32_le bytes 0; days = read_u16_le bytes 4 }))
  deserialize bytes (time_difference _) =
      checked 6 6 bytes
        (time_difference (record { ms = read_u32_le bytes 0; days = read_u16_le bytes 4 }))
  deserialize bytes (net_time _) =
      checked 8 8 bytes
        (net_time (record { seconds = read_u32_le bytes 0; nanoseconds = read_u32_le bytes 4 }))
  deserialize bytes (mac_address _) = checked 6 6 bytes (mac_address (take 6 bytes))
  deserialize bytes (ip_address _) = checked 4 4 bytes (ip_address (take 4 bytes))
