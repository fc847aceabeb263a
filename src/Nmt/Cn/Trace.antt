-- ===== src/Nmt/Cn/Trace.antt =====
-- Runs of a controlled node over a list of events: what must have been seen before it operates.
use mathlib.Core.List.{Sublistᴰ}
use powerlink_rs.Common.{
  ℕ, zero, suc, ◌≤◌, ◌≡◌, refl, ◌⊎◌, inl, inr, none, some, List, [], ◌∷◌, arith,
}
use powerlink_rs.Od.Dictionary.{StorageBackend, ObjectDictionary}
use powerlink_rs.Nmt.State.{
  NmtState, not_active, pre_operational2, ready_to_operate, operational, cs_stopped,
}
use powerlink_rs.Nmt.Event.{NmtEvent}
use powerlink_rs.Nmt.Reset.{reset_target, reset}
use powerlink_rs.Nmt.Cn.{CnNmtStateMachine, process_event, transition, next_state}

module _ {S : Type 0} (backend : StorageBackend S) where
  -- The node handles the events in order; what it reports is dropped here.
  unfoldable pub run :
      List NmtEvent
      → CnNmtStateMachine
      → ObjectDictionary S
      → CnNmtStateMachine × ObjectDictionary S
  run [] sm od = (sm, od)
  run (e ∷ es) sm od = let (_, sm', od') = process_event backend e sm od in run es sm' od'

-- How many of the three milestones a state still has to see, the configured and started node
-- none.
unfoldable pub missing : NmtState → ℕ
missing operational = 0
missing ready_to_operate = 1
missing pre_operational2 = 2
missing cs_stopped = 2
missing _ = 3

-- The last `n` milestones on the way to operation, in the order in which they are seen.
unfoldable pub milestones : ℕ → List NmtEvent
milestones zero = []
milestones (suc zero) = NmtEvent.start_node ∷ []
milestones (suc (suc zero)) = NmtEvent.cn_configuration_complete ∷ NmtEvent.start_node ∷ []
milestones (suc (suc (suc n))) =
    NmtEvent.soc_received ∷ NmtEvent.cn_configuration_complete ∷ NmtEvent.start_node ∷ []

-- The state after one event: resets included, the dictionary left out.
abbrev after : NmtEvent → NmtState → NmtState
after e s = elim (reset_target e) [ some t ↦ not_active | none ↦ next_state s (transition s e) ]

current_state-process_event :
    {S : Type 0} (backend : StorageBackend S) (e : NmtEvent) (sm : CnNmtStateMachine)
    (od : ObjectDictionary S)
    → (process_event backend e sm od).1.current_state ≡ after e sm.current_state
unfolding process_event reset reset_target
current_state-process_event backend e sm od = ground arith

-- One event takes away at most one milestone, and then it is that milestone.
missing-after :
    (e : NmtEvent) (s : NmtState)
    → (missing s ≤ missing (after e s))
      ⊎ ((missing s ≡ suc (missing (after e s)))
          × (milestones (missing s) ≡ e ∷ milestones (missing (after e s))))
unfolding transition reset_target missing milestones
missing-after e s = ground arith

drop_head : {x : NmtEvent} {xs ys : List NmtEvent} → Sublistᴰ (x ∷ xs) ys → Sublistᴰ xs ys
drop_head (Sublistᴰ.cons h) = Sublistᴰ.cons (drop_head h)
drop_head (Sublistᴰ.cons-cons e h) = Sublistᴰ.cons h

fewer_milestones :
    (m n : ℕ) {es : List NmtEvent}
    → m ≤ n
    → n ≤ 3
    → Sublistᴰ (milestones n) es
    → Sublistᴰ (milestones m) es
unfolding milestones
fewer_milestones zero zero h k l = l
fewer_milestones zero (suc zero) h k l = drop_head l
fewer_milestones zero (suc (suc zero)) h k l = drop_head (drop_head l)
fewer_milestones zero (suc (suc (suc n))) h k l = drop_head (drop_head (drop_head l))
fewer_milestones (suc m) zero h k l = absurd (omega arith)
fewer_milestones (suc zero) (suc zero) h k l = l
fewer_milestones (suc zero) (suc (suc zero)) h k l = drop_head l
fewer_milestones (suc zero) (suc (suc (suc n))) h k l = drop_head (drop_head l)
fewer_milestones (suc (suc m)) (suc zero) h k l = absurd (omega arith)
fewer_milestones (suc (suc zero)) (suc (suc zero)) h k l = l
fewer_milestones (suc (suc zero)) (suc (suc (suc n))) h k l = drop_head l
fewer_milestones (suc (suc (suc m))) (suc (suc zero)) h k l = absurd (omega arith)
fewer_milestones (suc (suc (suc m))) (suc (suc (suc n))) h k l = l

missing-le : (s : NmtState) → missing s ≤ 3
unfolding missing
missing-le s = ground arith

milestones-after :
    (e : NmtEvent) (s : NmtState) (es : List NmtEvent)
    → Sublistᴰ (milestones (missing (after e s))) es
    → Sublistᴰ (milestones (missing s)) (e ∷ es)
milestones-after e s es l = elim (missing-after e s) [
  | inl h ↦ Sublistᴰ.cons (fewer_milestones _ _ h (missing-le (after e s)) l)
  | inr (_, q) ↦ rw q (Sublistᴰ.cons-cons refl l)
]

-- A controlled node that ends a run of events in `NmtOperational` has seen, in this order, every
-- milestone that its first state was missing: from a state of the reset sequence,
-- `NmtNotActive`, `NmtPreOperational1` or `NmtBasicEthernet` a SoC, the application's report that
-- it is configured, and the start command; from `NmtPreOperational2` or `NmtCsStopped` the last
-- two; from `NmtReadyToOperate` the start command.
pub run-milestones :
    {S : Type 0} (backend : StorageBackend S) (es : List NmtEvent) (sm : CnNmtStateMachine)
    (od : ObjectDictionary S)
    → (run backend es sm od).0.current_state ≡ operational
    → Sublistᴰ (milestones (missing sm.current_state)) es
unfolding run
run-milestones backend [] sm od h = rw h (unfold missing milestones in Sublistᴰ.slnil)
run-milestones backend (e ∷ es) sm od h =
    let (_, sm', od') = process_event backend e sm od in
    milestones-after e sm.current_state es
      (rw (current_state-process_event backend e sm od) at (run-milestones backend es sm' od' h))
