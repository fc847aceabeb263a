-- ===== src/Pdo/Mapping.antt =====
-- crates/powerlink-rs/src/pdo/mapping.rs: an entry of a PDO mapping in its 64 bits.
use powerlink_rs.Common.{
  ℕ, ◌*◌, ◌/◌, ◌%◌, ◌^◌, bit_and, bit_or, Option, none, some, ◌==◌, if◌then◌else◌,
}

-- `struct PDOVersion(u8)`
abbrev pub PdoVersion : Type 0
PdoVersion = ℕ

-- `struct PdoMappingEntry`
pub record PdoMappingEntry : Type 0 where
  pub index : ℕ
  pub sub_index : ℕ
  pub offset_bits : ℕ
  pub length_bits : ℕ

-- `from_u64`: each field is shifted down, masked and cast.
unfoldable pub from_u64 : ℕ → PdoMappingEntry
from_u64 value = record {
  index = bit_and value 0xFFFF % 2 ^ 16;
  sub_index = bit_and (value / 2 ^ 16) 0xFF % 2 ^ 8;
  offset_bits = bit_and (value / 2 ^ 32) 0xFFFF % 2 ^ 16;
  length_bits = bit_and (value / 2 ^ 48) 0xFFFF % 2 ^ 16;
}

-- `to_u64`: the fields, which are below their widths, next to one another.
unfoldable pub to_u64 : PdoMappingEntry → ℕ
to_u64 e =
    bit_or (bit_or (bit_or e.index (e.sub_index * 2 ^ 16)) (e.offset_bits * 2 ^ 32))
      (e.length_bits * 2 ^ 48)

-- `byte_offset` and `byte_length`
unfoldable pub byte_offset : PdoMappingEntry → Option ℕ
byte_offset e = if e.offset_bits % 8 == 0 then some (e.offset_bits / 8) else none

unfoldable pub byte_length : PdoMappingEntry → Option ℕ
byte_length e = if e.length_bits % 8 == 0 then some (e.length_bits / 8) else none
