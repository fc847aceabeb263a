-- ===== src/Pdo/Tests.antt =====
-- Validation of a sample mapping.
use powerlink_rs.Common.{ℕ, ◌*◌, ◌≡◌, refl, ◌↔◌, none, List, [], ◌∷◌, ok}
use powerlink_rs.Common.BTree
use powerlink_rs.Od.Value.{ObjectValue, unsigned16, unsigned64}
use powerlink_rs.Od.Entry.{array, rec}
use powerlink_rs.Od.Dictionary.{ObjectDictionary, read_object, read_u16}
use powerlink_rs.Od.Samples.{entry_of}
use powerlink_rs.Pdo.Validator.{payload_limit, validate_pdo_mapping}
use powerlink_rs.Pdo.Validator.Fits.{Fits, validate_pdo_mapping_iff}

-- 16 bits of object 0x6000/1 at bit 32, in a payload of 36 bytes.
abbrev mapping : List ObjectValue
mapping = unsigned64 0x0010002000016000 ∷ []

abbrev mapped_od : ObjectDictionary ℕ
mapped_od = record {
  entries =
      (0x1A00, entry_of (array mapping))
      ∷ (0x1F98, entry_of (rec (unsigned16 36 ∷ unsigned16 36 ∷ [])))
      ∷ [];
  storage = none;
}

passes : validate_pdo_mapping mapped_od 0x1A00 1 ≡ ok tt
unfolding validate_pdo_mapping read_object read_u16 BTree.get
passes = refl

validate_pdo_mapping_iff_example :
    (validate_pdo_mapping mapped_od 0x1A00 1 ≡ ok tt)
    ↔ Fits mapping (payload_limit mapped_od 0x1A00 * 8) 1 0
unfolding read_object BTree.get
validate_pdo_mapping_iff_example = validate_pdo_mapping_iff mapped_od 0x1A00 0 mapping refl refl
