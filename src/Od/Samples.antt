-- ===== src/Od/Samples.antt =====
-- Data for the tests: a storage, and a dictionary with the object of the NMT state.
use powerlink_rs.Common.{ok, none, some, [], ◌∷◌, false, ℕ}
use powerlink_rs.Od.Value.{unsigned8, unsigned32}
use powerlink_rs.Od.Entry.{Object, variable, array, ObjectEntry, mandatory}
use powerlink_rs.Od.Dictionary.{StorageBackend, ObjectDictionary}

-- The storage keeps a byte, which it gives for that object.
abbrev pub memory : StorageBackend ℕ
memory = record {
  load = λ s. (ok (((0x1F8C, 0), unsigned8 s) ∷ []), s);
  save = λ params s. (ok tt, s);
  clear = λ s. (ok tt, 0);
  restore_defaults_requested = λ s. false;
  request_restore_defaults = λ s. (ok tt, s);
  clear_restore_defaults_flag = λ s. (ok tt, s);
}

abbrev pub entry_of : Object → ObjectEntry
entry_of o = record {
  object = o;
  name = "sample";
  category = mandatory;
  access = none;
  default_value = none;
  value_range = none;
  pdo_mapping = none;
}

-- NMT_CurrNMTState_U8 with the code of a state, after an array.
abbrev pub sample_od : ℕ → ObjectDictionary ℕ
sample_od code = record {
  entries =
      (0x1003, entry_of (array (unsigned32 7 ∷ unsigned32 8 ∷ [])))
      ∷ (0x1F8C, entry_of (variable (unsigned8 code)))
      ∷ [];
  storage = some 28;
}
