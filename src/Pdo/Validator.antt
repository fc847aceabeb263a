-- ===== src/Pdo/Validator.antt =====
-- crates/powerlink-rs/src/od/pdo_validator.rs: whether a mapping fits into its frame.
pub mod Fits
use powerlink_rs.Common.{
  ℕ, zero, suc, ◌+◌, ◌/◌, max, Bool, ◌&&◌, ◌||◌, not, ltb, leb, ◌==◌, if◌then◌else◌, Option, none,
  some, List, get_elem?, Result, ok, err, ◌>>=◌,
}
use powerlink_rs.Hal.{PowerlinkError, validation_error, object_not_found, pdo_map_overrun}
use powerlink_rs.Od.Value.{ObjectValue}
use powerlink_rs.Od.Entry.{Object, array}
use powerlink_rs.Od.Dictionary.{ObjectDictionary, as_u64, read_object, read_u16}
use powerlink_rs.Pdo.Mapping.{from_u64}

-- Where an entry ends; a sum of two `u16` in a `u32` does not overflow.
unfoldable pub end_pos_bits : ℕ → ℕ
unfolding from_u64
end_pos_bits raw = (from_u64 raw).offset_bits + (from_u64 raw).length_bits

-- The `for` loop: `count` more entries from position `i` on, over the greatest end so far.
unfoldable pub required_bits : List ObjectValue → ℕ → ℕ → ℕ → Result ℕ PowerlinkError
unfolding end_pos_bits
required_bits entries zero i most = ok most
required_bits entries (suc count) i most = elim (as_u64 (get_elem? entries i)) [
  | some raw ↦ required_bits entries count (suc i) (max most (end_pos_bits raw))
  | none ↦ err (validation_error "Incomplete PDO mapping configuration: Missing entries")
]

abbrev pub is_tpdo : ℕ → Bool
is_tpdo index = leb 0x1A00 index && leb index 0x1AFF

abbrev pub is_rpdo : ℕ → Bool
is_rpdo index = leb 0x1600 index && leb index 0x16FF

abbrev pub limit_or_default : Option ℕ → ℕ
limit_or_default none = 1490
limit_or_default (some n) = n

-- The last step of the validation
abbrev pub check_limit : ℕ → ℕ → Result (Unit {0}) PowerlinkError
check_limit limit most = if ltb limit ((most + 7) / 8) then err pdo_map_overrun else ok tt

module _ {S : Type 0} where
  -- `payload_limit_bytes`
  unfoldable pub payload_limit : ObjectDictionary S → ℕ → ℕ
  payload_limit od index =
      if is_tpdo index
      then limit_or_default (read_u16 od 0x1F98 1)
      else limit_or_default (read_u16 od 0x1F98 2)

  -- `validate_pdo_mapping`
  unfoldable pub validate_pdo_mapping :
      ObjectDictionary S → ℕ → ℕ → Result (Unit {0}) PowerlinkError
  unfolding required_bits payload_limit
  validate_pdo_mapping od index new_num_entries =
      if new_num_entries == 0
      then ok tt
      else if not (is_tpdo index) && not (is_rpdo index)
      then ok tt
      else (elim (read_object od index) [
        | some (array entries) ↦
            required_bits entries new_num_entries 0 0 >>= check_limit (payload_limit od index)
        | _ ↦ err object_not_found
      ])
