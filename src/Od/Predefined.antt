-- ===== src/Od/Predefined.antt =====
-- crates/powerlink-rs/src/od/predefined.rs: the objects of the protocol, and the mandatory ones.
use Prim.Native.String.{String}
use powerlink_rs.Common.{
  ℕ, Bool, true, false, if◌then◌else◌, Option, none, some, List, [], ◌∷◌, replicate, Result, ok,
  err, ◌>>=◌,
}
use powerlink_rs.Common.BTree
use powerlink_rs.Hal.{PowerlinkError, validation_error}
use powerlink_rs.Od.Value.{ObjectValue, unsigned8, unsigned32, octet_string}
use powerlink_rs.Od.Entry.{
  Object, variable, array, rec, AccessType, constant, read_only, read_write, read_write_store,
  Category, mandatory, PdoMapping, not_mapped, ObjectEntry,
}
use powerlink_rs.Od.Dictionary.{ObjectDictionary, insert}

-- An entry without a range of values.
abbrev pub entry :
    Object
    → String
    → Category
    → Option AccessType
    → Option ObjectValue
    → Option PdoMapping
    → ObjectEntry
entry object name category access default_value pdo_mapping = record {
  object = object;
  name = name;
  category = category;
  access = access;
  default_value = default_value;
  value_range = none;
  pdo_mapping = pdo_mapping;
}

-- The objects that `populate_protocol_objects` adds, in the order of the source.
abbrev pub protocol_objects : List (ℕ × ObjectEntry)
protocol_objects =
    (
      0x1010,
      entry (rec (unsigned32 1 ∷ unsigned32 1 ∷ unsigned32 1 ∷ [])) "NMT_StoreParam_REC" mandatory
          none none none,
    )
    ∷ (
      0x1011,
      entry (rec (unsigned32 1 ∷ unsigned32 1 ∷ unsigned32 1 ∷ [])) "NMT_RestoreDefParam_REC"
          Category.optional none none none,
    )
    ∷ (
      0x1300,
      entry (variable (unsigned32 15000)) "SDO_SequLayerTimeout_U32" mandatory
          (some read_write_store) (some (unsigned32 15000)) (some not_mapped),
    )
    ∷ (
      0x1302,
      entry (variable (unsigned32 2)) "SDO_SequLayerNoAck_U32" Category.optional
          (some read_write_store) (some (unsigned32 2)) (some not_mapped),
    )
    ∷ (
      0x0420,
      entry (rec (unsigned8 2 ∷ unsigned8 0 ∷ unsigned8 0 ∷ [])) "PDO_CommParamRecord_TYPE"
          mandatory (some constant) none (some not_mapped),
    )
    ∷ (
      0x1400,
      entry (rec (unsigned8 0 ∷ unsigned8 0 ∷ [])) "PDO_RxCommParam_00h_REC" mandatory none none
          none,
    )
    ∷ (0x1600, entry (array ([])) "PDO_RxMappParam_00h_AU64" mandatory none none none)
    ∷ (
      0x1800,
      entry (rec (unsigned8 1 ∷ unsigned8 0 ∷ [])) "PDO_TxCommParam_00h_REC" mandatory none none
          none,
    )
    ∷ (0x1A00, entry (array ([])) "PDO_TxMappParam_00h_AU64" mandatory none none none)
    ∷ (
      0x1C80,
      entry (variable (octet_string (replicate 32 0))) "PDO_ErrMapVers_OSTR" Category.optional
          (some read_write) (some (octet_string (replicate 32 0))) (some not_mapped),
    )
    ∷ (
      0x1C81,
      entry (variable (octet_string (replicate 32 0))) "PDO_ErrShort_RX_OSTR" Category.optional
          (some read_write) (some (octet_string (replicate 32 0))) (some not_mapped),
    )
    ∷ (
      0x1F8C,
      entry (variable (unsigned8 0)) "NMT_CurrNMTState_U8" mandatory (some read_only)
          (some (unsigned8 0)) (some not_mapped),
    )
    ∷ []

abbrev pub contains_key : ℕ → List (ℕ × ObjectEntry) → Bool
contains_key index entries = elim (BTree.get index entries) [ none ↦ false | some _ ↦ true ]

module _ {S : Type 0} where
  -- `insert_if_missing!`
  unfoldable pub insert_if_missing : ℕ → ObjectEntry → ObjectDictionary S → ObjectDictionary S
  unfolding insert
  insert_if_missing index e od = if contains_key index od.entries then od else insert index e od

  unfoldable pub populate : List (ℕ × ObjectEntry) → ObjectDictionary S → ObjectDictionary S
  unfolding insert_if_missing
  populate [] od = od
  populate ((index, e) ∷ es) od = populate es (insert_if_missing index e od)

  unfoldable pub populate_protocol_objects : ObjectDictionary S → ObjectDictionary S
  unfolding populate
  populate_protocol_objects od = populate protocol_objects od

  -- A loop that returns the error at the first index that is missing.
  unfoldable pub all_present :
      List ℕ → PowerlinkError → ObjectDictionary S → Result (Unit {0}) PowerlinkError
  all_present [] error od = ok tt
  all_present (index ∷ indices) error od =
      let rest = all_present indices error od in
      if contains_key index od.entries then rest else err error

  unfoldable pub validate_mandatory_objects :
      ObjectDictionary S → Bool → Result (Unit {0}) PowerlinkError
  unfolding all_present
  validate_mandatory_objects od is_mn =
      all_present (0x1000 ∷ 0x1018 ∷ 0x1F82 ∷ [])
        (validation_error "Missing common mandatory object") od
      >>= λ _.
          if is_mn
          then all_present (0x1006 ∷ 0x1F81 ∷ 0x1F89 ∷ [])
              (validation_error "Missing MN-specific mandatory object") od
          else all_present (0x1F93 ∷ 0x1F99 ∷ [])
              (validation_error "Missing CN-specific mandatory object") od
