-- ===== src/Mn/Tests.antt =====
-- Runs of the managing node's scheduling.
use powerlink_rs.Common.{
  ℕ, ◌≡◌, refl, ◌↔◌, ◌⊎◌, true, false, none, some, [], ◌∷◌, drop, ◌++◌, All, arith,
}
use powerlink_rs.Common.BTree
use powerlink_rs.Od.Samples.{memory, sample_od}
use powerlink_rs.Nmt.State.{pre_operational1, pre_operational2, not_active}
use powerlink_rs.Nmt.Mn.{process_event}
use powerlink_rs.Mn.State.{
  CnState, identified, pre_operational, missing, cn_state_rank, cn_state_le, CnInfo, NodeInfo,
  state_of, idle,
}
use powerlink_rs.Mn.Ident.{is_unidentified, find_next_node_to_identify, first_of, poll_order}
use powerlink_rs.Mn.Ident.Order.{remembered, find_next_node_to_identify-poll_order}
use powerlink_rs.Mn.Ident.Stuck.{find_next_node_to_identify-stuck}
use powerlink_rs.Mn.Isochronous.{
  PollContext, is_polled, get_next_isochronous_node_to_poll, has_more_isochronous_nodes,
}
use powerlink_rs.Mn.Isochronous.Cycle.{
  poll_cycle, filter, poll_cycle-filter, has_more_isochronous_nodes-get_next,
}
use powerlink_rs.Mn.AsyncOnly.{is_present, find_next_async_only_to_poll}
use powerlink_rs.Mn.AsyncOnly.Rotation.{remembered_poll, find_next_async_only_to_poll-turn}
use powerlink_rs.Mn.Validation.{check_all_mandatory_identified, all_nodes}
use powerlink_rs.Mn.Validation.Ready.{IsBetween, IsReady, check_all_mandatory_identified-IsReady}
use powerlink_rs.Mn.Bootup.{BootContext, check_bootup_state}
use powerlink_rs.Mn.Bootup.Steps.{
  Step, step1, check_bootup_state-Step, check_bootup_state-takes_Step,
}

abbrev info_in : CnState → CnInfo
info_in s = record {
  state = s;
  nmt_state = not_active;
  en_flag = false;
  ea_flag = false;
  communication_ok = true;
  last_pres_time_us = 0;
  dll_errors = 0;
  identity = none;
  sdo_state = idle;
}

abbrev nodes : NodeInfo
nodes = (1, info_in pre_operational) ∷ (5, info_in missing) ∷ (239, info_in identified) ∷ []

find_next_node_to_identify-poll_order_example :
    find_next_node_to_identify 240 nodes 7
    ≡ some (
      first_of (is_unidentified nodes) (poll_order 7),
      remembered (first_of (is_unidentified nodes) (poll_order 7)) 7,
    )
find_next_node_to_identify-poll_order_example =
    find_next_node_to_identify-poll_order 0 nodes 7 (omega arith)

abbrev identified_node : NodeInfo
identified_node = (239, info_in identified) ∷ []

identified_node_lem : (id : ℕ) → is_unidentified identified_node id ≡ false
unfolding is_unidentified BTree.get
identified_node_lem id = ground arith

find_next_node_to_identify-stuck_example :
    find_next_node_to_identify 1000 identified_node 239 ≡ none
find_next_node_to_identify-stuck_example =
    find_next_node_to_identify-stuck 1000 identified_node 239 (omega arith) (omega arith)
      identified_node_lem

find_next_async_only_to_poll-turn_example :
    find_next_async_only_to_poll ((5 ∷ []) ++ 1 ∷ 239 ∷ []) nodes 1 ≡ (
      first_of (is_present nodes) ((239 ∷ []) ++ ((5 ∷ []) ++ 1 ∷ [])),
      remembered_poll (first_of (is_present nodes) ((239 ∷ []) ++ ((5 ∷ []) ++ 1 ∷ []))) 1,
    )
find_next_async_only_to_poll-turn_example =
    find_next_async_only_to_poll-turn nodes 1 (5 ∷ []) (239 ∷ []) (refl, tt)

abbrev polls : PollContext
polls = record {
  isochronous_nodes = 1 ∷ 5 ∷ 239 ∷ [];
  multiplex_assign = (5, 2) ∷ [];
  multiplex_cycle_len = 2;
  node_info = nodes;
}

poll_cycle-filter_example :
    poll_cycle 4 polls 1 0 ≡ filter (is_polled polls 1) (drop 0 polls.isochronous_nodes)
poll_cycle-filter_example = poll_cycle-filter 4 polls 1 0 (omega arith) (omega arith)

has_more_isochronous_nodes-get_next_example :
    has_more_isochronous_nodes polls 1 1
    ≡ (elim (get_next_isochronous_node_to_poll polls 1 1).0 [ none ↦ false | some _ ↦ true ])
has_more_isochronous_nodes-get_next_example = has_more_isochronous_nodes-get_next polls 1 1

check_all_mandatory_identified-IsReady_example :
    (check_all_mandatory_identified (1 ∷ 239 ∷ []) nodes ≡ true)
    ↔ All (λ n. IsReady (state_of nodes n)) (1 ∷ 239 ∷ [])
check_all_mandatory_identified-IsReady_example =
    check_all_mandatory_identified-IsReady (1 ∷ 239 ∷ []) nodes

abbrev booting : BootContext ℕ
booting = record {
  nmt_state_machine = record {
    current_state = pre_operational1;
    node_id = 240;
    feature_flags = 0;
    wait_not_active_timeout = 1000000;
    startup_flags = 0;
  };
  od = sample_od 0x1D;
  mandatory_nodes = 1 ∷ 239 ∷ [];
  node_info = nodes;
  pending_nmt_commands = [];
}

check_bootup_state-Step_example :
    (pre_operational1 ≡ pre_operational2) ⊎ Step booting pre_operational1 pre_operational2
unfolding check_bootup_state check_all_mandatory_identified all_nodes cn_state_le state_of BTree.get
    process_event
check_bootup_state-Step_example = check_bootup_state-Step memory booting pre_operational2 refl

check_bootup_state-takes_Step_example :
    (check_bootup_state memory booting).nmt_state_machine.current_state ≡ pre_operational2
unfolding IsBetween cn_state_rank state_of BTree.get
check_bootup_state-takes_Step_example =
    check_bootup_state-takes_Step memory booting pre_operational2
      (step1 ((omega arith, omega arith), ((omega arith, omega arith), tt)))
