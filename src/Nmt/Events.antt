-- ===== src/Nmt/Events.antt =====
-- What one event does to either kind of node: the object that shows the state, and resets.
use powerlink_rs.Common.{ℕ, ◌≡◌, true, inl, inr, Bool-cases, some, Option-cases, arith}
use powerlink_rs.Od.Dictionary.{StorageBackend, ObjectDictionary}
use powerlink_rs.Nmt.State.{NmtState, state_code, not_active}
use powerlink_rs.Nmt.Event.{NmtEvent}
use powerlink_rs.Nmt.Reset.{is_reset_event, reset_target, reset, cascade}
use powerlink_rs.Nmt.Cn
use powerlink_rs.Nmt.Cn.{CnNmtStateMachine, enter}
use powerlink_rs.Nmt.Mn
use powerlink_rs.Nmt.Mn.{MnNmtStateMachine}
use powerlink_rs.Nmt.Mirror.{
  StateObject, StoresU8, cascade-StateObject, enter-StateObject, enter-StateObject_again,
}

reset_target-is_some :
    (e : NmtEvent) → is_reset_event e ≡ true → (t : NmtState) × (reset_target e ≡ some t)
unfolding reset_target
reset_target-is_some e h = elim (Option-cases (reset_target e)) [
  | inl n ↦ absurd (ground (arith, n))
  | inr t ↦ t
]

module _ {S : Type 0} (backend : StorageBackend S) where
  -- A reset event runs a cascade and leaves the machine in `NmtNotActive`.
  reset_lem :
      (e : NmtEvent) (s : NmtState) (od : ObjectDictionary S)
      → is_reset_event e ≡ true
      → (t : NmtState) × (reset backend e s od ≡ (not_active, cascade backend t od))
  unfolding reset
  reset_lem e s od h = let (t, q) = reset_target-is_some e h in (t, rw (q, reset))

  -- After a reset event the dictionary shows `NmtNotActive`, entered once more or not.
  reset-StateObject :
      (e : NmtEvent) (s : NmtState) (n : ℕ) (od : ObjectDictionary S)
      → StoresU8 backend
      → is_reset_event e ≡ true
      → StateObject n od
      → let (s', od') = reset backend e s od in StateObject (state_code s') (enter s s' od')
  reset-StateObject e s n od st h so =
      let (t, q) = reset_lem e s od h in
      rw q (enter-StateObject_again s not_active _ (cascade-StateObject backend t n od st so))

  -- Every event, resets included, keeps object 0x1F8C of a controlled node a U8 variable that
  -- holds the code of the node's state, if it is one before, its default value is none or a U8,
  -- and the storage holds no value of another type for it.
  pub cn_process_event-StateObject :
      (e : NmtEvent) (sm : CnNmtStateMachine) (od : ObjectDictionary S)
      → StoresU8 backend
      → StateObject (state_code sm.current_state) od
      → let (_, sm', od') = Cn.process_event backend e sm od in
        StateObject (state_code sm'.current_state) od'
  unfolding Cn.process_event
  cn_process_event-StateObject e sm od st h = elim (Bool-cases (is_reset_event e)) [
    | inl q ↦ rw q (reset-StateObject e sm.current_state _ od st q h)
    | inr q ↦ rw q (enter-StateObject sm.current_state _ od h)
  ]

  -- Every event, resets included, keeps object 0x1F8C of a managing node a U8 variable that
  -- holds the code of the node's state, if it is one before, its default value is none or a U8,
  -- and the storage holds no value of another type for it.
  pub mn_process_event-StateObject :
      (e : NmtEvent) (sm : MnNmtStateMachine) (od : ObjectDictionary S)
      → StoresU8 backend
      → StateObject (state_code sm.current_state) od
      → let (_, sm', od') = Mn.process_event backend e sm od in
        StateObject (state_code sm'.current_state) od'
  unfolding Mn.process_event
  mn_process_event-StateObject e sm od st h = elim (Bool-cases (is_reset_event e)) [
    | inl q ↦ rw q (reset-StateObject e sm.current_state _ od st q h)
    | inr q ↦ rw q (enter-StateObject sm.current_state _ od h)
  ]
