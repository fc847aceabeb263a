-- ===== src/Od/Defaults.antt =====
-- crates/powerlink-rs/src/od/utils.rs: the default dictionaries of both kinds of node.
use powerlink_rs.Common.{ℕ, bit_or, none, some, List, [], ◌∷◌, replicate, Result, ok, ◌>>=◌}
use powerlink_rs.Hal.{PowerlinkError}
use powerlink_rs.Od.Value.{boolean, unsigned8, unsigned16, unsigned32, visible_string}
use powerlink_rs.Od.Entry.{
  variable, array, rec, constant, read_only, read_write, Category, mandatory, PdoMapping,
  not_mapped, ObjectEntry,
}
use powerlink_rs.Od.Predefined.{entry}
use powerlink_rs.Od.Dictionary.{ObjectDictionary, insert}

-- `FeatureFlags::ISOCHRONOUS` and `FeatureFlags::SDO_ASND` of crates/powerlink-rs/src/nmt/flags.rs
abbrev pub isochronous : ℕ
isochronous = 1

abbrev pub sdo_asnd : ℕ
sdo_asnd = 4

-- The objects in the order in which they are inserted.
abbrev pub cn_objects : ℕ → List (ℕ × ObjectEntry)
cn_objects node_id =
    (
      0x1000,
      entry (variable (unsigned32 0x000F0191)) "NMT_DeviceType_U32" mandatory (some constant) none
          none,
    )
    ∷ (
      0x1001,
      entry (variable (unsigned8 0)) "NMT_ErrorRegister_U8" mandatory (some read_only)
          (some (unsigned8 0)) (some PdoMapping.optional),
    )
    ∷ (
      0x1006,
      entry (variable (unsigned32 20000)) "NMT_CycleLen_U32" mandatory (some read_write) none none,
    )
    ∷ (
      0x1008,
      entry
          (variable (
            visible_string (
              112 ∷ 111 ∷ 119 ∷ 101 ∷ 114 ∷ 108 ∷ 105 ∷ 110 ∷ 107 ∷ 45 ∷ 114 ∷ 115 ∷ 32 ∷ 67 ∷ 78
              ∷ [])))
          "NMT_ManufactDevName_VS" Category.optional (some constant) none none,
    )
    ∷ (
      0x1010,
      entry (rec (unsigned32 0 ∷ unsigned32 0 ∷ unsigned32 0 ∷ unsigned32 0 ∷ []))
          "NMT_StoreParam_REC" Category.optional (some read_write) none none,
    )
    ∷ (
      0x1011,
      entry (rec (unsigned32 0 ∷ unsigned32 0 ∷ unsigned32 0 ∷ unsigned32 0 ∷ []))
          "NMT_RestoreParam_REC" Category.optional (some read_write) none none,
    )
    ∷ (
      0x1018,
      entry
          (rec (
            unsigned32 0x12345678
            ∷ unsigned32 0x00000001
            ∷ unsigned32 0x00010000
            ∷ unsigned32 0xABCDEF01
            ∷ []))
          "NMT_IdentityObject_REC" mandatory (some constant) none none,
    )
    ∷ (
      0x1F82,
      entry (variable (unsigned32 (bit_or isochronous sdo_asnd))) "NMT_FeatureFlags_U32" mandatory
          (some constant) none none,
    )
    ∷ (
      0x1F93,
      entry (rec (unsigned8 node_id ∷ boolean 0 ∷ [])) "NMT_EPLNodeID_REC" mandatory
          (some read_write) none none,
    )
    ∷ (
      0x1C14,
      entry (variable (unsigned32 100000)) "DLL_CNLossOfSocTolerance_U32" mandatory
          (some read_write) none none,
    )
    ∷ (
      0x1F99,
      entry (variable (unsigned32 5000000)) "NMT_CNBasicEthernetTimeout_U32" mandatory
          (some read_write) none none,
    )
    ∷ []

abbrev pub diagnostic_objects : List (ℕ × ObjectEntry)
diagnostic_objects =
    (
      0x1101,
      entry
          (rec (
            unsigned32 0
            ∷ unsigned32 0
            ∷ unsigned32 0
            ∷ unsigned32 0
            ∷ unsigned32 0
            ∷ unsigned32 0
            ∷ unsigned32 0
            ∷ unsigned32 0
            ∷ []))
          "DIA_NMTTelegrCount_REC" Category.optional (some read_only) none (some not_mapped),
    )
    ∷ (
      0x1102,
      entry
          (rec (
            unsigned32 0
            ∷ unsigned32 0
            ∷ unsigned32 0
            ∷ unsigned32 0
            ∷ unsigned32 0
            ∷ unsigned32 0
            ∷ unsigned32 0
            ∷ []))
          "DIA_ERRStatistics_REC" Category.optional (some read_only) none (some not_mapped),
    )
    ∷ []

abbrev pub mn_objects : List (ℕ × ObjectEntry)
mn_objects =
    (
      0x1F82,
      entry (variable (unsigned32 (bit_or isochronous sdo_asnd))) "NMT_FeatureFlags_U32" mandatory
          (some constant) none none,
    )
    ∷ (
      0x1F80,
      entry (variable (unsigned32 0)) "NMT_StartUp_U32" mandatory (some read_write) none none,
    )
    ∷ (
      0x1F81,
      entry (array (replicate 254 (unsigned32 0))) "NMT_NodeAssignment_AU32" mandatory
          (some read_write) none none,
    )
    ∷ (
      0x1F89,
      entry
          (rec (
            unsigned32 1000000
            ∷ unsigned32 500000
            ∷ unsigned32 500000
            ∷ unsigned32 500000
            ∷ unsigned32 500000
            ∷ unsigned32 500000
            ∷ unsigned32 500000
            ∷ unsigned32 500000
            ∷ unsigned32 500000
            ∷ []))
          "NMT_BootTime_REC" mandatory (some read_write) none none,
    )
    ∷ (
      0x1F84,
      entry (array (replicate 254 (unsigned32 0))) "NMT_MNNodeList_AU32" mandatory (some read_write)
          none none,
    )
    ∷ (
      0x1F85,
      entry (array (replicate 254 (unsigned32 0))) "NMT_MNVendorIdList_AU32" mandatory
          (some read_write) none none,
    )
    ∷ (
      0x1F86,
      entry (array (replicate 254 (unsigned32 0))) "NMT_MNProductCodeList_AU32" mandatory
          (some read_write) none none,
    )
    ∷ (
      0x1F87,
      entry (array (replicate 254 (unsigned32 0))) "NMT_MNRevisionNoList_AU32" mandatory
          (some read_write) none none,
    )
    ∷ (
      0x1F8D,
      entry (array (replicate 254 (unsigned16 0))) "DLL_MNPResPayloadLimitList_AU16" mandatory
          (some read_write) none none,
    )
    ∷ (
      0x1F92,
      entry (array (replicate 254 (unsigned32 100000))) "DLL_MNPResTimeOut_AU32" mandatory
          (some read_write) none none,
    )
    ∷ []

module _ {S : Type 0} where
  unfoldable pub insert_all : List (ℕ × ObjectEntry) → ObjectDictionary S → ObjectDictionary S
  unfolding insert
  insert_all [] od = od
  insert_all ((index, e) ∷ es) od = insert_all es (insert index e od)

  unfoldable pub cn_default : ℕ → ObjectDictionary S
  unfolding insert_all
  cn_default node_id =
      insert_all diagnostic_objects
        (insert_all (cn_objects node_id) (record { entries = []; storage = none }))

  unfoldable pub new_cn_default : ℕ → Result (ObjectDictionary S) PowerlinkError
  unfolding cn_default
  new_cn_default node_id = ok (cn_default node_id)

  unfoldable pub new_mn_default : ℕ → Result (ObjectDictionary S) PowerlinkError
  unfolding insert_all new_cn_default
  new_mn_default node_id = new_cn_default node_id >>= λ od. ok (insert_all mn_objects od)
