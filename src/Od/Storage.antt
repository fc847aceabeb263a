-- ===== src/Od/Storage.antt =====
-- crates/powerlink-rs/src/od/storage.rs: `init`, the start of a dictionary.
pub mod Fits
pub mod Loaded
use powerlink_rs.Common.{false, if◌then◌else◌, none, some, [], ◌∷◌, Result, ok, err}
use powerlink_rs.Hal.{PowerlinkError}
use powerlink_rs.Od.Dictionary.{StoredParams, StorageBackend, ObjectDictionary, write_internal}
use powerlink_rs.Od.Predefined.{populate_protocol_objects}

module _ {S : Type 0} where
  -- The loop over the stored parameters: one that cannot be written is left out.
  unfoldable pub load_params : StoredParams → ObjectDictionary S → ObjectDictionary S
  unfolding write_internal
  load_params [] od = od
  load_params (((index, sub), value) ∷ params) od =
      load_params params (write_internal od index sub value false).1

-- After `clear`: the flag is cleared if it succeeded.
abbrev pub clear_flag_after :
    {S : Type 0}
    → StorageBackend S
    → Result (Unit {0}) PowerlinkError × S
    → Result (Unit {0}) PowerlinkError × S
clear_flag_after backend (ok _, s) = backend.clear_restore_defaults_flag s
clear_flag_after backend (err e, s) = (err e, s)

-- The parameters that were loaded, on a dictionary.
abbrev pub overlay :
    {S : Type 0}
    → ObjectDictionary S
    → Result StoredParams PowerlinkError × S
    → Result (Unit {0}) PowerlinkError × ObjectDictionary S
overlay od (ok params, s) = (ok tt, load_params params (record od { storage = some s }))
overlay od (err e, s) = (err e, record od { storage = some s })

module _ {S : Type 0} (backend : StorageBackend S) where
  unfoldable pub init_storage :
      S → ObjectDictionary S → Result (Unit {0}) PowerlinkError × ObjectDictionary S
  unfolding load_params
  init_storage s od =
      if backend.restore_defaults_requested s
      then (let (result, s') = clear_flag_after backend (backend.clear s) in
          (result, record od { storage = some s' }))
      else overlay od (backend.load s)

  unfoldable pub init : ObjectDictionary S → Result (Unit {0}) PowerlinkError × ObjectDictionary S
  unfolding populate_protocol_objects init_storage
  init od = elim od.storage [
    | none ↦ (ok tt, populate_protocol_objects od)
    | some s ↦ init_storage s (populate_protocol_objects od)
  ]
