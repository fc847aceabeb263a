-- ===== src/Nmt/Mirror.antt =====
-- The dictionary shows the NMT state: object 0x1F8C is a U8 variable that holds the code of the
-- machine's state, and every event keeps it so, resets and their restores included.
use powerlink_rs.Common.{
  ℕ, ◌≡◌, refl, ap, true, false, ◌⊎◌, inl, inr, Bool-cases, ==_iff, ◌||◌, Option, none, some, List,
  [], ◌∷◌, Result-cases, ok, arith,
}
use powerlink_rs.Common.BTree
use powerlink_rs.Od.Value.{ObjectValue, unsigned8, same_type}
use powerlink_rs.Od.Entry.{variable, ObjectEntry}
use powerlink_rs.Od.Dictionary.{
  StoredParams, StorageBackend, ObjectDictionary, write_entry, write_internal,
}
use powerlink_rs.Od.Restore.{
  stored_value, lookup_stored, is_skipped, restore_variable, restore_entry, restore_entries,
  load_stored, restore_power_on_values,
}
use powerlink_rs.Nmt.State.{
  NmtState, state_code, state_eq, gs_initialising, gs_reset_application, gs_reset_communication,
  gs_reset_configuration, not_active,
}
use powerlink_rs.Nmt.Cn.{enter}
use powerlink_rs.Nmt.Reset.{
  curr_state_index, reaches_communication, reaches_configuration, update_od_state,
  enter_initialising, enter_reset_application, enter_reset_communication, enter_reset_configuration,
  cascade,
}

-- A value of the type of the state object, or none.
abbrev pub IsOptionalU8 : Option ObjectValue → Type 0
IsOptionalU8 none = Unit {0}
IsOptionalU8 (some (unsigned8 n)) = Unit {0}
IsOptionalU8 (some _) = ⊥

-- An entry that shows a state: a U8 variable whose default, if it has one, is a U8.
abbrev pub Shows : ℕ → ObjectEntry → Type 0
Shows n e = (e.object ≡ variable (unsigned8 n)) × IsOptionalU8 e.default_value

abbrev pub StateObject : {S : Type 0} → ℕ → ObjectDictionary S → Type 0
StateObject n od = (e : ObjectEntry) × (BTree.get curr_state_index od.entries ≡ some e) × Shows n e

-- What the platform's storage must guarantee: for the state object it holds a U8 or nothing.
abbrev pub StoresU8 : {S : Type 0} → StorageBackend S → Type 0
StoresU8 {S} backend =
    (s : S) (params : StoredParams)
    → (backend.load s).0 ≡ ok params
    → IsOptionalU8 (stored_value params curr_state_index 0)

optional_u8_cases :
    (o : Option ObjectValue) → IsOptionalU8 o → (o ≡ none) ⊎ ((n : ℕ) × (o ≡ some (unsigned8 n)))
optional_u8_cases none h = inl refl
optional_u8_cases (some (unsigned8 n)) h = inr (n, refl)
optional_u8_cases (some _) h = elim h [ ]

-- A U8 variable stays one, when what is stored for it and its default are U8 values.
restore_variable-u8 :
    (stored default : Option ObjectValue) (n : ℕ)
    → IsOptionalU8 stored
    → IsOptionalU8 default
    → (m : ℕ) × (restore_variable stored default (unsigned8 n) ≡ unsigned8 m)
restore_variable-u8 stored default n hs hd = elim (optional_u8_cases stored hs) [
  | inr (k, p) ↦ (k, rw p)
  | inl p ↦ elim (optional_u8_cases default hd) [
    | inr (k, q) ↦ (k, rw (p, q))
    | inl q ↦ (n, rw (p, q))
  ]
]

-- An entry keeps showing a state number through a restore, not always the same one.
restore_entry-Shows :
    (start_index end_index n : ℕ) (params : Option StoredParams) (e : ObjectEntry)
    → IsOptionalU8 (lookup_stored params curr_state_index 0)
    → Shows n e
    → (m : ℕ) × Shows m (restore_entry start_index end_index params curr_state_index e)
unfolding restore_entry
restore_entry-Shows start_index end_index n params e st (o, d) =
    let (m, p) =
      restore_variable-u8 (lookup_stored params curr_state_index 0) e.default_value n st d in
    elim (Bool-cases (is_skipped start_index end_index curr_state_index)) [
      | inl k ↦ (n, rw k (o, d))
      | inr k ↦ (m, rw (k, o) (ap variable p, d))
    ]

get-restore_entries :
    (start_index end_index : ℕ) (params : Option StoredParams) (m : List (ℕ × ObjectEntry)) (k : ℕ)
    (e : ObjectEntry)
    → BTree.get k m ≡ some e
    → BTree.get k (restore_entries start_index end_index params m)
      ≡ some (restore_entry start_index end_index params k e)
unfolding restore_entries BTree.get
get-restore_entries start_index end_index params [] k e h = cc
get-restore_entries start_index end_index params ((j, w) ∷ m) k e h =
    ground (arith, get-restore_entries start_index end_index params m k e)

-- States with one code are one state, as far as their codes go.
state_eq_code : (s t : NmtState) → state_eq s t ≡ true → state_code s ≡ state_code t
unfolding state_code
state_eq_code s t h = (==_iff (state_code s) (state_code t)).0 h

module _ {S : Type 0} where
  -- `update_od_state` writes the state object, whatever it showed.
  pub update_od_state-StateObject :
      (s : NmtState) (n : ℕ) (od : ObjectDictionary S)
      → StateObject n od
      → StateObject (state_code s) (update_od_state s od)
  unfolding update_od_state write_internal same_type
  update_od_state-StateObject s n od (e, g, (o, d)) =
      let e' : ObjectEntry = record e { object = variable (unsigned8 (state_code s)) } in
      let w : write_entry curr_state_index 0 (unsigned8 (state_code s)) false e ≡ ok e' =
        ground (arith, o) in
      (e', ground (arith, g, w, BTree.get-put_self curr_state_index e' e od.entries g), (refl, d))

  load_stored-u8 :
      (backend : StorageBackend S)
      → StoresU8 backend
      → (storage : Option S)
      → IsOptionalU8 (lookup_stored (load_stored backend storage).0 curr_state_index 0)
  unfolding load_stored
  load_stored-u8 backend st none = tt
  load_stored-u8 backend st (some s) = elim (Result-cases (backend.load s).0) [
    | inl (params, q) ↦ rw q (st s params q)
    | inr (x, q) ↦ rw q tt
  ]

  -- Restoring any range of indices keeps the state object a U8 variable.
  restore-StateObject :
      (backend : StorageBackend S) (start_index end_index n : ℕ) (od : ObjectDictionary S)
      → StoresU8 backend
      → StateObject n od
      → (m : ℕ) × StateObject m (restore_power_on_values backend start_index end_index od)
  unfolding restore_power_on_values
  restore-StateObject backend start_index end_index n od st (e, g, h) =
      let params = (load_stored backend od.storage).0 in
      let (m, h') =
        restore_entry-Shows start_index end_index n params e (load_stored-u8 backend st od.storage)
          h in
      (
        m,
        (
          restore_entry start_index end_index params curr_state_index e,
          get-restore_entries start_index end_index params od.entries curr_state_index e g,
          h',
        ),
      )

  -- Each step of the cascade keeps the state object a U8 variable.
  some_initialising :
      (target : NmtState) (n : ℕ) (od : ObjectDictionary S)
      → StateObject n od
      → (m : ℕ) × StateObject m (enter_initialising target od)
  unfolding enter_initialising
  some_initialising target n od h = elim (Bool-cases (state_eq target gs_initialising)) [
    | inl q ↦ rw q (_, update_od_state-StateObject gs_initialising n od h)
    | inr q ↦ rw q (n, h)
  ]

  some_application :
      (backend : StorageBackend S) (target : NmtState) (n : ℕ) (od : ObjectDictionary S)
      → StoresU8 backend
      → StateObject n od
      → (m : ℕ) × StateObject m (enter_reset_application backend target od)
  unfolding enter_reset_application
  some_application backend target n od st h =
      let a = update_od_state-StateObject gs_reset_application n od h in
      let b = restore-StateObject backend 0x2000 0x5FFF _ _ st a in
      elim (Bool-cases (state_eq target gs_initialising || state_eq target gs_reset_application)) [
        | inl q ↦ rw q (restore-StateObject backend 0x6000 0x9FFF b.0 _ st b.1)
        | inr q ↦ rw q (n, h)
      ]

  some_communication :
      (backend : StorageBackend S) (target : NmtState) (n : ℕ) (od : ObjectDictionary S)
      → StoresU8 backend
      → StateObject n od
      → (m : ℕ) × StateObject m (enter_reset_communication backend target od)
  unfolding enter_reset_communication
  some_communication backend target n od st h =
      let a = update_od_state-StateObject gs_reset_communication n od h in
      elim (Bool-cases (reaches_communication target)) [
        | inl q ↦ rw q (restore-StateObject backend 0x1000 0x1FFF _ _ st a)
        | inr q ↦ rw q (n, h)
      ]

  some_configuration :
      (target : NmtState) (n : ℕ) (od : ObjectDictionary S)
      → StateObject n od
      → (m : ℕ) × StateObject m (enter_reset_configuration target od)
  unfolding enter_reset_configuration
  some_configuration target n od h = elim (Bool-cases (reaches_configuration target)) [
    | inl q ↦ rw q (_, update_od_state-StateObject gs_reset_configuration n od h)
    | inr q ↦ rw q (n, h)
  ]

  -- Whatever steps a reset runs through, it ends by showing `NmtNotActive`.
  pub cascade-StateObject :
      (backend : StorageBackend S) (target : NmtState) (n : ℕ) (od : ObjectDictionary S)
      → StoresU8 backend
      → StateObject n od
      → StateObject (state_code not_active) (cascade backend target od)
  unfolding cascade
  cascade-StateObject backend target n od st h =
      let a = some_initialising target n od h in
      let b = some_application backend target a.0 (enter_initialising target od) st a.1 in
      let od2 = enter_reset_application backend target (enter_initialising target od) in
      let c = some_communication backend target b.0 od2 st b.1 in
      let d = some_configuration target c.0 (enter_reset_communication backend target od2) c.1 in
      update_od_state-StateObject not_active d.0 _ d.1

  pub enter-StateObject :
      (old_state state : NmtState) (od : ObjectDictionary S)
      → StateObject (state_code old_state) od
      → StateObject (state_code state) (enter old_state state od)
  unfolding enter
  enter-StateObject old_state state od h = elim (Bool-cases (state_eq old_state state)) [
    | inl q ↦ rw (q, ← state_eq_code old_state state q) h
    | inr q ↦ rw q (update_od_state-StateObject state (state_code old_state) od h)
  ]

  -- Entering a state that is shown already, as after a reset.
  pub enter-StateObject_again :
      (old_state state : NmtState) (od : ObjectDictionary S)
      → StateObject (state_code state) od
      → StateObject (state_code state) (enter old_state state od)
  unfolding enter
  enter-StateObject_again old_state state od h = elim (Bool-cases (state_eq old_state state)) [
    | inl q ↦ rw q h
    | inr q ↦ rw q (update_od_state-StateObject state (state_code state) od h)
  ]
