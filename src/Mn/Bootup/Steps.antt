-- ===== src/Mn/Bootup/Steps.antt =====
-- The boot-up of the managing node against what each step asks of the mandatory nodes.
use powerlink_rs.Common.{◌≡◌, refl, subst, ◌⊎◌, ◌==◌, bit_and, All, arith, Bool-cases, inl, inr}
use powerlink_rs.Od.Dictionary.{StorageBackend}
use powerlink_rs.Nmt.State.{
  NmtState, pre_operational1, pre_operational2, ready_to_operate, operational, gs_initialising,
  gs_reset_application, gs_reset_communication, gs_reset_configuration, not_active, cs_stopped,
  basic_ethernet, gs_off,
}
use powerlink_rs.Nmt.Mn.{process_event, next_state}
use powerlink_rs.Mn.State.{CnState, identified, pre_operational, NodeInfo, state_of}
use powerlink_rs.Mn.State as Cn
use powerlink_rs.Mn.Validation.{
  check_all_mandatory_identified, check_all_mandatory_preop, check_all_mandatory_comm_verified,
}
use powerlink_rs.Mn.Validation.Ready.{
  IsBetween, HasCommunication, check_all_mandatory_identified_iff, check_all_mandatory_preop_iff,
  check_all_mandatory_comm_verified_iff,
}
use powerlink_rs.Mn.Bootup.{BootContext, handle, boot_step1, boot_step_unless, check_bootup_state}

-- The steps of the boot-up: what the step needs of every mandatory node, the flag of
-- NMT_StartUp_U32 that holds it back, and the commands that it queues.
pub data Step {S : Type 0} (context : BootContext S) : NmtState → NmtState → Type 0 where
  step1 :
      All
        (λ n. IsBetween identified Cn.operational (state_of context.node_info n))
        context.mandatory_nodes
      → Step context pre_operational1 pre_operational2
  step2 :
      All
        (λ n. IsBetween pre_operational Cn.operational (state_of context.node_info n))
        context.mandatory_nodes
      → bit_and context.nmt_state_machine.startup_flags 0x100 ≡ 0
      → Step context pre_operational2 ready_to_operate
  step3 :
      All (HasCommunication context.node_info) context.mandatory_nodes
      → bit_and context.nmt_state_machine.startup_flags 0x4 ≡ 0
      → Step context ready_to_operate operational

module _ {S : Type 0} (backend : StorageBackend S) where
  Step-check :
      (context : BootContext S) (s s' : NmtState)
      → context.nmt_state_machine.current_state ≡ s
      → Step context s s'
      → (check_bootup_state backend context).nmt_state_machine.current_state ≡ s'
  unfolding check_bootup_state boot_step1 boot_step_unless handle process_event next_state
  Step-check context s s' e (step1 a) =
      let passed =
        (check_all_mandatory_identified_iff context.mandatory_nodes context.node_info).1 a in
      rw (e, passed)
  Step-check context s s' e (step2 a f) =
      let passed = (check_all_mandatory_preop_iff context.mandatory_nodes context.node_info).1 a in
      rw (e, passed, f)
  Step-check context s s' e (step3 a f) =
      let passed =
        (check_all_mandatory_comm_verified_iff context.mandatory_nodes context.node_info).1 a in
      rw (e, passed, f)

  check-Step :
      (context : BootContext S) (s s' : NmtState)
      → context.nmt_state_machine.current_state ≡ s
      → (check_bootup_state backend context).nmt_state_machine.current_state ≡ s'
      → (s ≡ s') ⊎ Step context s s'
  unfolding check_bootup_state boot_step1 boot_step_unless handle process_event next_state
  check-Step context pre_operational1 s' e h =
      let same = check_all_mandatory_identified_iff context.mandatory_nodes context.node_info in
      elim (Bool-cases (check_all_mandatory_identified context.mandatory_nodes context.node_info)) [
        | inl q ↦
            inr (subst (Step context pre_operational1) (ground (arith, e, q, h)) (step1 (same.0 q)))
        | inr q ↦ inl (ground (arith, e, q, h))
      ]
  check-Step context pre_operational2 s' e h =
      let same = check_all_mandatory_preop_iff context.mandatory_nodes context.node_info in
      elim (Bool-cases (check_all_mandatory_preop context.mandatory_nodes context.node_info)) [
        | inl q ↦ elim (Bool-cases (bit_and context.nmt_state_machine.startup_flags 0x100 == 0)) [
          | inl f ↦ inr (
              subst (Step context pre_operational2) (ground (arith, e, q, h, f))
                (step2 (same.0 q) (ground (arith, f))))
          | inr f ↦ inl (ground (arith, e, q, f, h))
        ]
        | inr q ↦ inl (ground (arith, e, q, h))
      ]
  check-Step context ready_to_operate s' e h =
      let same = check_all_mandatory_comm_verified_iff context.mandatory_nodes context.node_info in
      elim (Bool-cases
        (check_all_mandatory_comm_verified context.mandatory_nodes context.node_info)) [
          | inl q ↦ elim (Bool-cases (bit_and context.nmt_state_machine.startup_flags 0x4 == 0)) [
            | inl f ↦ inr (
                subst (Step context ready_to_operate) (ground (arith, e, q, h, f))
                  (step3 (same.0 q) (ground (arith, f))))
            | inr f ↦ inl (ground (arith, e, q, f, h))
          ]
          | inr q ↦ inl (ground (arith, e, q, h))
        ]
  check-Step context gs_initialising s' e h = inl (ground (arith, e, h))
  check-Step context gs_reset_application s' e h = inl (ground (arith, e, h))
  check-Step context gs_reset_communication s' e h = inl (ground (arith, e, h))
  check-Step context gs_reset_configuration s' e h = inl (ground (arith, e, h))
  check-Step context not_active s' e h = inl (ground (arith, e, h))
  check-Step context operational s' e h = inl (ground (arith, e, h))
  check-Step context cs_stopped s' e h = inl (ground (arith, e, h))
  check-Step context basic_ethernet s' e h = inl (ground (arith, e, h))
  check-Step context gs_off s' e h = inl (ground (arith, e, h))

  -- Where one call of the boot-up check changes the NMT state of the managing node, every
  -- mandatory node is as far as that step needs it, and the start-up flags do not hold it back.
  pub check_bootup_state-Step :
      (context : BootContext S) (s' : NmtState)
      → (check_bootup_state backend context).nmt_state_machine.current_state ≡ s'
      → (context.nmt_state_machine.current_state ≡ s')
        ⊎ Step context context.nmt_state_machine.current_state s'
  check_bootup_state-Step context s' h =
      check-Step context context.nmt_state_machine.current_state s' refl h

  -- Where the mandatory nodes and the start-up flags let a step be taken, one call of the boot-up
  -- check takes it.
  pub check_bootup_state-takes_Step :
      (context : BootContext S) (s' : NmtState)
      → Step context context.nmt_state_machine.current_state s'
      → (check_bootup_state backend context).nmt_state_machine.current_state ≡ s'
  check_bootup_state-takes_Step context s' =
      Step-check context context.nmt_state_machine.current_state s' refl
