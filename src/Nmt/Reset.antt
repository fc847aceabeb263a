-- ===== src/Nmt/Reset.antt =====
-- crates/powerlink-rs/src/nmt/state_machine.rs: the behaviour that both node types share. The
-- methods of the trait act on the state alone (`set_state`) and on the dictionary.
use powerlink_rs.Common.{ℕ, Bool, true, false, ◌||◌, if◌then◌else◌, Option, none, some}
use powerlink_rs.Od.Value.{unsigned8}
use powerlink_rs.Od.Dictionary.{StorageBackend, ObjectDictionary, write_internal}
use powerlink_rs.Od.Restore.{restore_power_on_values}
use powerlink_rs.Nmt.State.{
  NmtState, gs_initialising, gs_reset_application, gs_reset_communication, gs_reset_configuration,
  not_active, state_code, state_eq,
}
use powerlink_rs.Nmt.Event.{NmtEvent}

-- The object that shows the NMT state, NMT_CurrNMTState_U8.
abbrev pub curr_state_index : ℕ
curr_state_index = 0x1F8C

-- The `match event` of `reset`: where the cascade starts.
unfoldable pub reset_target : NmtEvent → Option NmtState
reset_target NmtEvent.reset = some gs_initialising
reset_target NmtEvent.sw_reset = some gs_initialising
reset_target NmtEvent.reset_node = some gs_reset_application
reset_target NmtEvent.reset_communication = some gs_reset_communication
reset_target NmtEvent.reset_configuration = some gs_reset_configuration
reset_target _ = none

-- The `matches!` of both `process_event` methods.
abbrev pub is_reset_event : NmtEvent → Bool
is_reset_event NmtEvent.reset = true
is_reset_event NmtEvent.sw_reset = true
is_reset_event NmtEvent.reset_node = true
is_reset_event NmtEvent.reset_communication = true
is_reset_event NmtEvent.reset_configuration = true
is_reset_event _ = false

-- The conditions of the last two steps of the cascade.
abbrev pub reaches_communication : NmtState → Bool
reaches_communication target =
    state_eq target gs_initialising
    || state_eq target gs_reset_application
    || state_eq target gs_reset_communication

abbrev pub reaches_configuration : NmtState → Bool
reaches_configuration target =
    state_eq target gs_initialising
    || state_eq target gs_reset_application
    || state_eq target gs_reset_communication
    || state_eq target gs_reset_configuration

module _ {S : Type 0} where
  -- `update_od_state`: a failed write is only logged.
  unfoldable pub update_od_state : NmtState → ObjectDictionary S → ObjectDictionary S
  unfolding state_code
  update_od_state s od = (write_internal od curr_state_index 0 (unsigned8 (state_code s)) false).1

  unfoldable pub enter_initialising : NmtState → ObjectDictionary S → ObjectDictionary S
  enter_initialising target od =
      if state_eq target gs_initialising then update_od_state gs_initialising od else od

  unfoldable pub enter_reset_application :
      StorageBackend S → NmtState → ObjectDictionary S → ObjectDictionary S
  enter_reset_application backend target od =
      if state_eq target gs_initialising || state_eq target gs_reset_application
      then restore_power_on_values backend 0x6000 0x9FFF
          (restore_power_on_values backend 0x2000 0x5FFF (update_od_state gs_reset_application od))
      else od

  unfoldable pub enter_reset_communication :
      StorageBackend S → NmtState → ObjectDictionary S → ObjectDictionary S
  enter_reset_communication backend target od =
      if reaches_communication target
      then restore_power_on_values backend 0x1000 0x1FFF (update_od_state gs_reset_communication od)
      else od

  unfoldable pub enter_reset_configuration : NmtState → ObjectDictionary S → ObjectDictionary S
  enter_reset_configuration target od =
      if reaches_configuration target then update_od_state gs_reset_configuration od else od

  -- The cascade of `reset`; the machine ends in `NmtNotActive`, whatever it passed through.
  unfoldable pub cascade : StorageBackend S → NmtState → ObjectDictionary S → ObjectDictionary S
  cascade backend target od = update_od_state not_active (
      enter_reset_configuration target (
        enter_reset_communication backend target
          (enter_reset_application backend target (enter_initialising target od))))

  unfoldable pub reset :
      StorageBackend S → NmtEvent → NmtState → ObjectDictionary S → NmtState × ObjectDictionary S
  unfolding reset_target
  reset backend event state od = elim (reset_target event) [
    | none ↦ (state, od)
    | some target ↦ (not_active, cascade backend target od)
  ]

  -- `run_internal_initialisation`
  unfoldable pub run_internal_initialisation :
      StorageBackend S → NmtState → ObjectDictionary S → NmtState × ObjectDictionary S
  unfolding reset
  run_internal_initialisation backend state od =
      if state_eq state gs_initialising
      then reset backend NmtEvent.sw_reset state od
      else (state, od)
