-- ===== src/Od/Tests.antt =====
-- Runs of the dictionary's read and write.
use powerlink_rs.Common.{◌≡◌, refl, true, some, ok, arith}
use powerlink_rs.Common.BTree
use powerlink_rs.Od.Value.{unsigned8, unsigned16, unsigned32, same_type}
use powerlink_rs.Od.Dictionary.{read, write_internal}
use powerlink_rs.Od.ReadWrite.{stores_at, read-write_internal}
use powerlink_rs.Common.{[], ◌∷◌}
use powerlink_rs.Od.Samples.{sample_od, memory}
use powerlink_rs.Dll.ErrorEntry.{ErrorEntry, event_occurred}
use powerlink_rs.Od.Entry.{array}
use powerlink_rs.Od.Dictionary.{read_object}
use powerlink_rs.Common.{ℕ, take, false}
use powerlink_rs.Od.History.Newest.{newest_first, write_errors, write_errors-newest}
use powerlink_rs.Od.Restore.{stored_value}
use powerlink_rs.Od.Predefined.{populate_protocol_objects}
use powerlink_rs.Od.Storage.{init}
use powerlink_rs.Od.Storage.Loaded.{IsMap, loaded, init-read}
use powerlink_rs.Od.Bytes.{serialize, deserialize}
use powerlink_rs.Od.Bytes.RoundTrip.{IsValue, deserialize-serialize_value}

read-write_internal_example :
    read (write_internal (sample_od 0) 0x1003 2 (unsigned32 9) true).1 0x1003 2
    ≡ some (unsigned32 9)
unfolding write_internal same_type BTree.get stores_at
read-write_internal_example =
    read-write_internal (sample_od 0) 0x1003 2 (unsigned32 9) true refl 0x1003 2

deserialize-serialize_value_example :
    deserialize (λ b. true) (serialize (unsigned16 0x1234)) (unsigned16 7)
    ≡ some (ok (unsigned16 0x1234))
unfolding IsValue same_type
deserialize-serialize_value_example =
    deserialize-serialize_value (λ b. true) (unsigned16 0x1234) (unsigned16 7) (omega arith) refl

init-read_example :
    ((init memory (sample_od 0)).0 ≡ ok tt)
    × (read (init memory (sample_od 0)).1 0x1F8C 0
        ≡ loaded
            (stored_value (((0x1F8C, 0), unsigned8 28) ∷ []) 0x1F8C 0)
            (populate_protocol_objects (sample_od 0))
            0x1F8C
            0)
unfolding IsMap stored_value
init-read_example =
    init-read memory (sample_od 0) 28 28 (((0x1F8C, 0), unsigned8 28) ∷ []) 0x1F8C 0 refl refl refl
      (refl, tt)

abbrev loss_of_soc : ℕ → ErrorEntry
loss_of_soc seconds = record {
  entry_type = record {
    is_status_entry = false;
    send_to_queue = true;
    mode = event_occurred;
    profile = 2;
  };
  error_code = 0x8245;
  timestamp = record { seconds = seconds; nanoseconds = 0 };
  additional_information = 0;
}

write_errors-newest_example :
    read_object (write_errors (loss_of_soc 1 ∷ loss_of_soc 2 ∷ []) (sample_od 0)) 0x1003
    ≡ some (
        array (
          take 254
            (newest_first (loss_of_soc 1 ∷ loss_of_soc 2 ∷ []) (unsigned32 7 ∷ unsigned32 8 ∷ []))))
unfolding read_object BTree.get
write_errors-newest_example =
    write_errors-newest (loss_of_soc 1 ∷ loss_of_soc 2 ∷ []) (sample_od 0)
      (unsigned32 7 ∷ unsigned32 8 ∷ []) refl (omega arith)
