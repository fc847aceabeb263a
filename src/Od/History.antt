-- ===== src/Od/History.antt =====
-- crates/powerlink-rs/src/od/error_history.rs: the error history in object 0x1003.
pub mod Newest
use powerlink_rs.Common.{ℕ, ◌-◌, ltb, if◌then◌else◌, none, some, List, ◌∷◌, length, take}
use powerlink_rs.Common.BTree
use powerlink_rs.Od.Value.{ObjectValue, domain}
use powerlink_rs.Od.Entry.{Object, variable, array, rec}
use powerlink_rs.Od.Dictionary.{ObjectDictionary}
use powerlink_rs.Dll.ErrorEntry.{ErrorEntry, serialize_entry}

abbrev pub max_history_entries : ℕ
max_history_entries = 254

-- `values.insert(0, _)`, and `pop` where there are too many
unfoldable pub push_history : ObjectValue → List ObjectValue → List ObjectValue
push_history v vs =
    if ltb max_history_entries (length (v ∷ vs))
    then take (length (v ∷ vs) - 1) (v ∷ vs)
    else v ∷ vs

unfoldable pub write_history_object : ErrorEntry → Object → Object
unfolding push_history serialize_entry
write_history_object e (array vs) = array (push_history (domain (serialize_entry e)) vs)
write_history_object e (variable v) = variable v
write_history_object e (rec vs) = rec vs

unfoldable pub write_error_to_history :
    {S : Type 0} → ErrorEntry → ObjectDictionary S → ObjectDictionary S
unfolding write_history_object
write_error_to_history e od = elim (BTree.get 0x1003 od.entries) [
  | none ↦ od
  | some entry ↦ record od {
    entries =
        BTree.put 0x1003 (record entry { object = write_history_object e entry.object }) od.entries;
  }
]
