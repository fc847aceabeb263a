-- ===== src/Od/Restore.antt =====
-- crates/powerlink-rs/src/od/mod.rs: `restore_power_on_values`, which an NMT reset runs over a
-- range of indices, and `increment_counter`.
use powerlink_rs.Common.{
  ℕ, ◌+◌, ◌-◌, ◌%◌, ◌^◌, Bool, ◌||◌, ltb, ◌==◌, if◌then◌else◌, Option, none, some, List, [], ◌∷◌,
  set, Result, ok, err, ◌&&◌,
}
use powerlink_rs.Common.BTree
use powerlink_rs.Hal.{PowerlinkError}
use powerlink_rs.Od.Value.{ObjectValue, unsigned32, same_type}
use powerlink_rs.Od.Entry.{Object, variable, array, rec, ObjectEntry}
use powerlink_rs.Od.Dictionary.{StoredParams, StorageBackend, ObjectDictionary, element}

unfoldable pub stored_value : StoredParams → ℕ → ℕ → Option ObjectValue
stored_value [] index sub = none
stored_value (((i, s), v) ∷ ps) index sub =
    if (i == index) && (s == sub) then some v else stored_value ps index sub

-- `stored_params.as_ref().and_then(|p| p.get(&(index, sub_index)))`
abbrev pub lookup_stored : Option StoredParams → ℕ → ℕ → Option ObjectValue
lookup_stored none index sub = none
lookup_stored (some params) index sub = stored_value params index sub

-- A variable takes the stored value, else the default, whatever their types are.
abbrev pub restore_variable : Option ObjectValue → Option ObjectValue → ObjectValue → ObjectValue
restore_variable (some v) default val = v
restore_variable none (some d) val = d
restore_variable none none val = val

-- An element takes the default only where the types agree.
abbrev pub restore_element : Option ObjectValue → Option ObjectValue → ObjectValue → ObjectValue
restore_element (some v) default val = v
restore_element none (some d) val = if same_type val d then d else val
restore_element none none val = val

-- The elements from position `i` on; `(i + 1) as u8` wraps.
unfoldable pub restore_elements :
    (ℕ → Option ObjectValue) → Option ObjectValue → ℕ → List ObjectValue → List ObjectValue
restore_elements stored default i [] = []
restore_elements stored default i (v ∷ vs) =
    restore_element (stored ((i + 1) % 256)) default v ∷ restore_elements stored default (i + 1) vs

unfoldable pub restore_object : (ℕ → Option ObjectValue) → Option ObjectValue → Object → Object
unfolding restore_elements
restore_object stored default (variable v) = variable (restore_variable (stored 0) default v)
restore_object stored default (array vs) = array (restore_elements stored default 0 vs)
restore_object stored default (rec vs) = rec (restore_elements stored default 0 vs)

-- Indices outside the range, and the error history, are skipped.
abbrev pub is_skipped : ℕ → ℕ → ℕ → Bool
is_skipped start_index end_index index =
    ltb index start_index || ltb end_index index || index == 0x1003

unfoldable pub restore_entry : ℕ → ℕ → Option StoredParams → ℕ → ObjectEntry → ObjectEntry
unfolding restore_object
restore_entry start_index end_index params index entry =
    if is_skipped start_index end_index index then entry else record entry {
      object = restore_object (lookup_stored params index) entry.default_value entry.object;
    }

unfoldable pub restore_entries :
    ℕ → ℕ → Option StoredParams → List (ℕ × ObjectEntry) → List (ℕ × ObjectEntry)
unfolding restore_entry
restore_entries start_index end_index params [] = []
restore_entries start_index end_index params ((index, entry) ∷ m) =
    (index, restore_entry start_index end_index params index entry)
    ∷ restore_entries start_index end_index params m

abbrev pub result_option : Result StoredParams PowerlinkError → Option StoredParams
result_option (ok params) = some params
result_option (err e) = none

-- Add 1 to a U32, wrapping; any other value is left alone.
unfoldable pub increment_value : ObjectValue → ObjectValue
increment_value (unsigned32 n) = unsigned32 ((n + 1) % 2 ^ 32)
increment_value v = v

-- A variable at sub-index 0, or an element of a record; an array is left alone.
unfoldable pub increment_object : Object → ℕ → Object
unfolding increment_value
increment_object (variable v) sub = if sub == 0 then variable (increment_value v) else variable v
increment_object (rec vs) sub = if sub == 0 then rec vs else elim (element vs sub) [
  | none ↦ rec vs
  | some v ↦ rec (set vs (sub - 1) (increment_value v))
]
increment_object (array vs) sub = array vs

module _ {S : Type 0} where
  -- The backend is asked once; a failed load counts as nothing stored.
  unfoldable pub load_stored : StorageBackend S → Option S → Option StoredParams × Option S
  load_stored backend none = (none, none)
  load_stored backend (some s) = let (r, s') = backend.load s in (result_option r, some s')

  -- `restore_power_on_values`
  unfoldable pub restore_power_on_values :
      StorageBackend S → ℕ → ℕ → ObjectDictionary S → ObjectDictionary S
  unfolding load_stored restore_entries
  restore_power_on_values backend start_index end_index od =
      let (params, storage') = load_stored backend od.storage in
      record {
        entries = restore_entries start_index end_index params od.entries;
        storage = storage';
      }

  -- `increment_counter`
  unfoldable pub increment_counter : ObjectDictionary S → ℕ → ℕ → ObjectDictionary S
  unfolding increment_object
  increment_counter od index sub = elim (BTree.get index od.entries) [
    | none ↦ od
    | some e ↦ record od {
      entries = BTree.put index (record e { object = increment_object e.object sub }) od.entries;
    }
  ]
