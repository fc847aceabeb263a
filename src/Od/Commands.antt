-- ===== src/Od/Commands.antt =====
-- crates/powerlink-rs/src/od/commands.rs: storing the parameters and asking for the defaults.
use powerlink_rs.Common.{
  ℕ, suc, ◌+◌, ◌%◌, Bool, true, false, ◌&&◌, ◌||◌, ltb, leb, ◌==◌, if◌then◌else◌, Option, none,
  some, List, [], ◌∷◌, Result, err,
}
use powerlink_rs.Hal.{PowerlinkError, storage_error}
use powerlink_rs.Od.Value.{ObjectValue}
use powerlink_rs.Od.Entry.{
  Object, variable, array, rec, AccessType, read_write_store, write_only_store, ObjectEntry,
}
use powerlink_rs.Od.Dictionary.{StoredParams, StorageBackend, ObjectDictionary}

-- The order of the keys of the map that is stored.
abbrev pub key_eq : ℕ × ℕ → ℕ × ℕ → Bool
key_eq (i, s) (j, t) = i == j && s == t

abbrev pub key_lt : ℕ × ℕ → ℕ × ℕ → Bool
key_lt (i, s) (j, t) = ltb i j || (i == j && ltb s t)

-- `BTreeMap::insert`
unfoldable pub insert_param : ℕ × ℕ → ObjectValue → StoredParams → StoredParams
insert_param k v [] = (k, v) ∷ []
insert_param k v ((j, w) ∷ m) =
    let rest = insert_param k v m in
    if key_eq k j then (k, v) ∷ m else if key_lt k j then (k, v) ∷ (j, w) ∷ m else (j, w) ∷ rest

-- `should_save`
unfoldable pub should_save : ℕ → ℕ → Bool
should_save list_to_save index =
    if list_to_save == 1
    then true
    else if list_to_save == 2
    then leb 0x1000 index && leb index 0x1FFF
    else if list_to_save == 3
    then leb 0x6000 index && leb index 0x9FFF
    else false

abbrev pub is_stored : Option AccessType → Bool
is_stored (some read_write_store) = true
is_stored (some write_only_store) = true
is_stored _ = false

-- The elements of an array or record from position `i` on; `(i + 1) as u8` wraps.
unfoldable pub store_elements : ℕ → List ObjectValue → ℕ → StoredParams → StoredParams
unfolding insert_param
store_elements index [] i params = params
store_elements index (v ∷ vs) i params =
    store_elements index vs (suc i) (insert_param (index, (i + 1) % 256) v params)

unfoldable pub store_object : ℕ → Object → StoredParams → StoredParams
unfolding store_elements
store_object index (variable v) params = insert_param (index, 0) v params
store_object index (rec vs) params = store_elements index vs 0 params
store_object index (array vs) params = store_elements index vs 0 params

-- The loop over the entries.
unfoldable pub storable : ℕ → List (ℕ × ObjectEntry) → StoredParams → StoredParams
unfolding should_save store_object
storable list_to_save [] params = params
storable list_to_save ((index, entry) ∷ entries) params = storable list_to_save entries (
    if should_save list_to_save index && is_stored entry.access
    then store_object index entry.object params
    else params)

module _ {S : Type 0} (backend : StorageBackend S) where
  unfoldable pub store_parameters :
      ObjectDictionary S → ℕ → Result (Unit {0}) PowerlinkError × ObjectDictionary S
  unfolding storable
  store_parameters od list_to_save =
      if list_to_save == 0
      then (err (storage_error "Cannot save to sub-index 0"), od)
      else (elim od.storage [
        | none ↦ (err (storage_error "No storage backend configured"), od)
        | some s ↦
            let (result, s') = backend.save (storable list_to_save od.entries []) s in
            (result, record od { storage = some s' })
      ])

  unfoldable pub restore_defaults :
      ObjectDictionary S → ℕ → Result (Unit {0}) PowerlinkError × ObjectDictionary S
  restore_defaults od list_to_restore =
      if list_to_restore == 0
      then (err (storage_error "Cannot restore from sub-index 0"), od)
      else (elim od.storage [
        | none ↦ (err (storage_error "No storage backend configured"), od)
        | some s ↦
            let (result, s') = backend.request_restore_defaults s in
            (result, record od { storage = some s' })
      ])
