-- ===== src/Od/Dictionary.antt =====
-- crates/powerlink-rs/src/od/mod.rs: the dictionary, its reads and its internal write.
-- The storage backend is a trait that the platform implements: `StorageBackend` is its interface
-- over the backend's own state `S`.

use powerlink_rs.Common.{
  ℕ, ◌-◌, min, Bool, true, false, ◌&&◌, ◌||◌, leb, ◌==◌, if◌then◌else◌, Option, none, some, List,
  length, get_elem?, set, Result, ok, err, ◌>>=◌,
}
use powerlink_rs.Common.BTree
use powerlink_rs.Hal.{
  PowerlinkError, storage_error, object_not_found, sub_object_not_found, type_mismatch,
}
use powerlink_rs.Od.Value.{ObjectValue, unsigned8, unsigned16, unsigned32, unsigned64, same_type}
use powerlink_rs.Od.Entry.{Object, variable, array, rec, AccessType, read_only, ObjectEntry}

-- `BTreeMap<(u16, u8), ObjectValue>`
abbrev pub StoredParams : Type 0
StoredParams = List ((ℕ × ℕ) × ObjectValue)

-- `trait ObjectDictionaryStorage` of crates/powerlink-rs/src/hal.rs
pub record StorageBackend (S : Type 0) : Type 0 where
  pub load : S → Result StoredParams PowerlinkError × S
  pub save : StoredParams → S → Result (Unit {0}) PowerlinkError × S
  pub clear : S → Result (Unit {0}) PowerlinkError × S
  pub restore_defaults_requested : S → Bool
  pub request_restore_defaults : S → Result (Unit {0}) PowerlinkError × S
  pub clear_restore_defaults_flag : S → Result (Unit {0}) PowerlinkError × S

pub record ObjectDictionary (S : Type 0) : Type 0 where
  pub entries : List (ℕ × ObjectEntry)
  pub storage : Option S

-- `values.get(sub_index as usize - 1)`, reached only with `sub_index > 0`
abbrev pub element : List ObjectValue → ℕ → Option ObjectValue
element values sub = get_elem? values (sub - 1)

unfoldable pub read_object_value : Object → ℕ → Option ObjectValue
read_object_value (variable v) sub = if sub == 0 then some v else none
read_object_value (array vs) sub =
    if sub == 0 then some (unsigned8 (min (length vs) 254)) else element vs sub
read_object_value (rec vs) sub =
    if sub == 0 then some (unsigned8 (min (length vs) 254)) else element vs sub

abbrev pub as_u8 : Option ObjectValue → Option ℕ
as_u8 (some (unsigned8 n)) = some n
as_u8 _ = none

abbrev pub as_u16 : Option ObjectValue → Option ℕ
as_u16 (some (unsigned16 n)) = some n
as_u16 _ = none

abbrev pub as_u32 : Option ObjectValue → Option ℕ
as_u32 (some (unsigned32 n)) = some n
as_u32 _ = none

abbrev pub as_u64 : Option ObjectValue → Option ℕ
as_u64 (some (unsigned64 n)) = some n
as_u64 _ = none

-- `0x1600..=0x16FF` or `0x1A00..=0x1AFF`, at sub-index 0
abbrev pub is_pdo_mapping_index0 : ℕ → ℕ → Bool
is_pdo_mapping_index0 index sub =
    sub == 0 && ((leb 0x1600 index && leb index 0x16FF) || (leb 0x1A00 index && leb index 0x1AFF))

abbrev pub is_write_protected : Option AccessType → Bool
is_write_protected (some read_only) = true
is_write_protected (some AccessType.constant) = true
is_write_protected _ = false

-- The element case of `write_internal`.
unfoldable pub write_element :
    List ObjectValue → ℕ → ObjectValue → Result (List ObjectValue) PowerlinkError
write_element vs sub value = elim (element vs sub) [
  | none ↦ err sub_object_not_found
  | some v ↦ if same_type v value then ok (set vs (sub - 1) value) else err type_mismatch
]

-- Sub-index 0 of an array or record: only a PDO mapping takes it, and nothing is stored.
unfoldable pub write_count : Bool → ObjectValue → Result (Unit {0}) PowerlinkError
write_count true (unsigned8 n) = ok tt
write_count true _ = err type_mismatch
write_count false _ = err (storage_error "Cannot write to sub-index 0 of standard Array/Record")

-- The value that the entry holds after the write.
unfoldable pub write_object : Bool → Object → ℕ → ObjectValue → Result Object PowerlinkError
unfolding write_element write_count
write_object mapping (variable v) sub value =
    if sub == 0
    then if same_type v value then ok (variable value) else err type_mismatch
    else err sub_object_not_found
write_object mapping (array vs) sub value =
    if sub == 0
    then write_count mapping value >>= (λ _. ok (array vs))
    else write_element vs sub value >>= (λ ws. ok (array ws))
write_object mapping (rec vs) sub value =
    if sub == 0
    then write_count mapping value >>= (λ _. ok (rec vs))
    else write_element vs sub value >>= (λ ws. ok (rec ws))

-- The body of `write_internal` on an entry that exists.
unfoldable pub write_entry :
    ℕ → ℕ → ObjectValue → Bool → ObjectEntry → Result ObjectEntry PowerlinkError
unfolding write_object
write_entry index sub value check_access entry =
    if check_access && is_write_protected entry.access
    then err (storage_error "Object is read-only")
    else write_object (is_pdo_mapping_index0 index sub) entry.object sub value >>= λ o.
        ok (record entry { object = o })

module _ {S : Type 0} where
  -- `ObjectDictionary::read`
  unfoldable pub read : ObjectDictionary S → ℕ → ℕ → Option ObjectValue
  unfolding read_object_value
  read od index sub = elim (BTree.get index od.entries) [
    | none ↦ none
    | some entry ↦ read_object_value entry.object sub
  ]

  unfoldable pub read_object : ObjectDictionary S → ℕ → Option Object
  read_object od index = elim (BTree.get index od.entries) [ none ↦ none | some e ↦ some e.object ]

  unfoldable pub read_u8 : ObjectDictionary S → ℕ → ℕ → Option ℕ
  unfolding read
  read_u8 od index sub = as_u8 (read od index sub)

  unfoldable pub read_u16 : ObjectDictionary S → ℕ → ℕ → Option ℕ
  unfolding read
  read_u16 od index sub = as_u16 (read od index sub)

  unfoldable pub read_u32 : ObjectDictionary S → ℕ → ℕ → Option ℕ
  unfolding read
  read_u32 od index sub = as_u32 (read od index sub)

  unfoldable pub read_u64 : ObjectDictionary S → ℕ → ℕ → Option ℕ
  unfolding read
  read_u64 od index sub = as_u64 (read od index sub)

  unfoldable pub insert : ℕ → ObjectEntry → ObjectDictionary S → ObjectDictionary S
  insert index entry od = record od { entries = BTree.insert index entry od.entries }

  -- `write_internal`: an error leaves the dictionary as it was.
  unfoldable pub write_internal :
      ObjectDictionary S
      → ℕ
      → ℕ
      → ObjectValue
      → Bool
      → Result (Unit {0}) PowerlinkError × ObjectDictionary S
  unfolding write_entry
  write_internal od index sub value check_access = elim (BTree.get index od.entries) [
    | none ↦ (err object_not_found, od)
    | some entry ↦ elim (write_entry index sub value check_access entry) [
      | err e ↦ (err e, od)
      | ok entry' ↦ (ok tt, record od { entries = BTree.put index entry' od.entries })
    ]
  ]
