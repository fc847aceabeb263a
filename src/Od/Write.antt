-- ===== src/Od/Write.antt =====
-- `ObjectDictionary::write` of crates/powerlink-rs/src/od/mod.rs: a write with the commands and the
-- validation that hang on it.
use powerlink_rs.Common.{
  ℕ, Bool, true, false, ◌&&◌, ltb, ◌==◌, if◌then◌else◌, List, [], ◌∷◌, Result, ok, err,
}
use powerlink_rs.Hal.{PowerlinkError, storage_error, type_mismatch}
use powerlink_rs.Od.Value.{ObjectValue, visible_string, unsigned8}
use powerlink_rs.Od.Dictionary.{
  StorageBackend, ObjectDictionary, is_pdo_mapping_index0, write_internal,
}
use powerlink_rs.Od.Commands.{store_parameters, restore_defaults}
use powerlink_rs.Pdo.Validator.{validate_pdo_mapping}

-- `==` on texts as bytes
abbrev pub bytes_eq : List ℕ → List ℕ → Bool
bytes_eq [] [] = true
bytes_eq [] (b ∷ bs) = false
bytes_eq (a ∷ as_) [] = false
bytes_eq (a ∷ as_) (b ∷ bs) = a == b && bytes_eq as_ bs

-- "save" and "load"
abbrev pub save_signature : List ℕ
save_signature = 0x73 ∷ 0x61 ∷ 0x76 ∷ 0x65 ∷ []

abbrev pub load_signature : List ℕ
load_signature = 0x6C ∷ 0x6F ∷ 0x61 ∷ 0x64 ∷ []

-- Whether a value is a text with this signature.
abbrev pub has_signature : List ℕ → ObjectValue → Bool
has_signature signature (visible_string s) = bytes_eq s signature
has_signature signature _ = false

module _ {S : Type 0} (backend : StorageBackend S) where
  -- The case of a PDO mapping, and the write itself.
  unfoldable pub write_mapping :
      ObjectDictionary S → ℕ → ObjectValue → Result (Unit {0}) PowerlinkError × ObjectDictionary S
  unfolding validate_pdo_mapping write_internal
  write_mapping od index (unsigned8 count) = elim (validate_pdo_mapping od index count) [
    | err e ↦ (err e, od)
    | ok _ ↦ write_internal od index 0 (unsigned8 count) true
  ]
  write_mapping od index _ = (err type_mismatch, od)

  -- `ObjectDictionary::write`
  unfoldable pub write :
      ObjectDictionary S
      → ℕ
      → ℕ
      → ObjectValue
      → Result (Unit {0}) PowerlinkError × ObjectDictionary S
  unfolding store_parameters restore_defaults write_mapping write_internal
  write od index sub value =
      if index == 0x1010
      then (if has_signature save_signature value && ltb 0 sub
          then store_parameters backend od sub
          else (err (storage_error "Invalid signature or sub-index for Store Parameters"), od))
      else if index == 0x1011
      then (if has_signature load_signature value && ltb 0 sub
          then restore_defaults backend od sub
          else (err (storage_error "Invalid signature or sub-index for Restore Defaults"), od))
      else if is_pdo_mapping_index0 index sub
      then write_mapping od index value
      else write_internal od index sub value true
