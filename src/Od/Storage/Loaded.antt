-- ===== src/Od/Storage/Loaded.antt =====
-- What a dictionary reads after its stored parameters are loaded.
use powerlink_rs.Common.{
  ℕ, ◌≡◌, refl, ap, sym, ◌∙◌, false, ◌&&◌, ◌==◌, if◌then◌else◌, Option, none, some, [], ◌∷◌, ok,
  Bool-cases, inl, inr, arith,
}
use powerlink_rs.Od.Value.{ObjectValue}
use powerlink_rs.Od.Dictionary.{
  StoredParams, StorageBackend, ObjectDictionary, read, read_object, write_internal,
}
use powerlink_rs.Od.ReadWrite.{stores_at}
use powerlink_rs.Od.Restore.{stored_value}
use powerlink_rs.Od.Storage.{load_params, init, init_storage}
use powerlink_rs.Od.Predefined.{populate_protocol_objects}
use powerlink_rs.Od.Storage.Fits.{fits, read-write_internal_fits, stores_at-write_internal}

-- A parameter for each address at most, as the map has.
unfoldable pub IsMap : StoredParams → Type 0
IsMap [] = Unit
IsMap (((i, s), v) ∷ params) = (stored_value params i s ≡ none) × IsMap params

module _ {S : Type 0} where
  -- The stored parameter of an address if it takes it, else what it read.
  abbrev pub loaded : Option ObjectValue → ObjectDictionary S → ℕ → ℕ → Option ObjectValue
  loaded none od j t = read od j t
  loaded (some v) od j t = if fits od j t v then some v else read od j t

  loaded-ne :
      (od : ObjectDictionary S) (i s : ℕ) (v : ObjectValue) (j t : ℕ) (x : Option ObjectValue)
      → (j == i && t == s) ≡ false
      → loaded x (write_internal od i s v false).1 j t ≡ loaded x od j t
  unfolding fits
  loaded-ne od i s v j t none e = ground (arith, read-write_internal_fits od i s v j t)
  loaded-ne od i s v j t (some w) e =
      let kept : read (write_internal od i s v false).1 j t ≡ read od j t =
        ground (arith, read-write_internal_fits od i s v j t) in
      rw (stores_at-write_internal od i s v j t, kept) refl

  loaded-written :
      (od : ObjectDictionary S) (i s : ℕ) (v : ObjectValue)
      → read (write_internal od i s v false).1 i s ≡ loaded (some v) od i s
  loaded-written od i s v = ground (arith, read-write_internal_fits od i s v i s)

  load_params-read :
      (params : StoredParams) (od : ObjectDictionary S)
      → IsMap params
      → (j t : ℕ) → read (load_params params od) j t ≡ loaded (stored_value params j t) od j t
  unfolding load_params stored_value IsMap
  load_params-read [] od m j t = refl
  load_params-read (((i, s), v) ∷ ps) od m j t =
      let od' = (write_internal od i s v false).1 in
      let rest = load_params-read ps od' m.1 j t in
      elim (Bool-cases (i == j && s == t)) [
        | inl q ↦
            let i_eq : i ≡ j = ground arith in
            let s_eq : s ≡ t = ground arith in
            let none_later : stored_value ps j t ≡ none = rw (sym i_eq, sym s_eq) m.0 in
            let after : read (load_params ps od') j t ≡ read od' j t =
              rest ∙ ap (λ x. loaded x od' j t) none_later in
            rw (q, after, sym i_eq, sym s_eq) (loaded-written od i s v)
        | inr q ↦ rw (q, rest) (loaded-ne od i s v j t (stored_value ps j t) (ground arith))
      ]

  loaded-storage :
      (x : Option ObjectValue) (od : ObjectDictionary S) (storage : Option S) (j t : ℕ)
      → loaded x (record od { storage = storage }) j t ≡ loaded x od j t
  unfolding fits read stores_at read_object
  loaded-storage none od storage j t = refl
  loaded-storage (some v) od storage j t = refl

module _ {S : Type 0} (backend : StorageBackend S) where
  init_storage-read :
      (od : ObjectDictionary S) (s s' : S) (params : StoredParams) (j t : ℕ)
      → backend.restore_defaults_requested s ≡ false
      → backend.load s ≡ (ok params, s')
      → IsMap params
      → ((init_storage backend s od).0 ≡ ok tt)
        × (read (init_storage backend s od).1 j t ≡ loaded (stored_value params j t) od j t)
  unfolding init_storage fits read stores_at read_object
  init_storage-read od s s' params j t r l m =
      let start = record od { storage = some s' } in
      (
        rw (init_storage, r, l) refl,
        rw (init_storage, r, l)
            (load_params-read params start m j t
              ∙ loaded-storage (stored_value params j t) od (some s') j t),
      )

  init-storage :
      (od : ObjectDictionary S) (s : S)
      → od.storage ≡ some s
      → init backend od ≡ init_storage backend s (populate_protocol_objects od)
  unfolding init
  init-storage od s e =
      ap
        (λ x. elim x [
          | none ↦ (ok tt, populate_protocol_objects od)
          | some s ↦ init_storage backend s (populate_protocol_objects od)
        ])
        e

  -- At the start of a dictionary with a storage that has no request to restore the defaults and
  -- gives its parameters, at most one for an address, every address reads its stored parameter,
  -- if it stores a value of the parameter's type, and else what it reads with the objects of the
  -- protocol; stored parameters that do not fit are passed over, and the start succeeds.
  pub init-read :
      (od : ObjectDictionary S) (s s' : S) (params : StoredParams) (j t : ℕ)
      → od.storage ≡ some s
      → backend.restore_defaults_requested s ≡ false
      → backend.load s ≡ (ok params, s')
      → IsMap params
      → ((init backend od).0 ≡ ok tt)
        × (read (init backend od).1 j t
            ≡ loaded (stored_value params j t) (populate_protocol_objects od) j t)
  init-read od s s' params j t e r l m =
      rw (init-storage od s e)
        (init_storage-read (populate_protocol_objects od) s s' params j t r l m)
