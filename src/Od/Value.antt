-- ===== src/Od/Value.antt =====
-- crates/powerlink-rs/src/od/value.rs and src/common.rs: the values of an entry.
-- Numbers are bit patterns: an `i16` is a number below 2 ^ 16, an `f32` one below 2 ^ 32. Strings
-- are their bytes.
use powerlink_rs.Common.{ℕ, List, Bool, ◌==◌}

pub record TimeOfDay : Type 0 where
  pub ms : ℕ
  pub days : ℕ

pub record TimeDifference : Type 0 where
  pub ms : ℕ
  pub days : ℕ

pub record NetTime : Type 0 where
  pub seconds : ℕ
  pub nanoseconds : ℕ

-- `enum ObjectValue`
pub data ObjectValue : Type 0 where
  boolean integer8 integer16 integer32 integer64 : ℕ → ObjectValue
  unsigned8 unsigned16 unsigned32 unsigned64 real32 real64 : ℕ → ObjectValue
  visible_string octet_string unicode_string domain : List ℕ → ObjectValue
  time_of_day : TimeOfDay → ObjectValue
  time_difference : TimeDifference → ObjectValue
  net_time : NetTime → ObjectValue
  mac_address ip_address : List ℕ → ObjectValue

-- `core::mem::discriminant`
unfoldable pub discriminant : ObjectValue → ℕ
discriminant (boolean _) = 0
discriminant (integer8 _) = 1
discriminant (integer16 _) = 2
discriminant (integer32 _) = 3
discriminant (integer64 _) = 4
discriminant (unsigned8 _) = 5
discriminant (unsigned16 _) = 6
discriminant (unsigned32 _) = 7
discriminant (unsigned64 _) = 8
discriminant (real32 _) = 9
discriminant (real64 _) = 10
discriminant (visible_string _) = 11
discriminant (octet_string _) = 12
discriminant (unicode_string _) = 13
discriminant (domain _) = 14
discriminant (time_of_day _) = 15
discriminant (time_difference _) = 16
discriminant (net_time _) = 17
discriminant (mac_address _) = 18
discriminant (ip_address _) = 19

unfoldable pub same_type : ObjectValue → ObjectValue → Bool
unfolding discriminant
same_type v w = discriminant v == discriminant w
