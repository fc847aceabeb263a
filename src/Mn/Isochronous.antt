-- ===== src/Mn/Isochronous.antt =====
-- crates/powerlink-rs/src/node/mn/scheduler.rs: the polling of the isochronous nodes of a cycle.
pub mod Cycle
use powerlink_rs.Common.{
  ℕ, suc, ◌+◌, Bool, true, false, ◌&&◌, ◌||◌, not, ltb, ◌==◌, if◌then◌else◌, Option, none, some,
  List, [], ◌∷◌, drop,
}
use powerlink_rs.Common.BTree
use powerlink_rs.Types.{NodeId}
use powerlink_rs.Mn.State.{
  CnState, stopped, pre_operational, cn_state_rank, cn_state_le, NodeInfo, state_of,
}

-- The fields of `MnContext` that the polling reads; `next_isoch_node_idx`, which it changes,
-- is an argument of its own.
pub record PollContext : Type 0 where
  pub isochronous_nodes : List NodeId
  pub multiplex_assign : List (NodeId × ℕ)
  pub multiplex_cycle_len : ℕ
  pub node_info : NodeInfo

-- `multiplex_assign.get(id).copied().unwrap_or(0)`
unfoldable pub assigned_cycle : PollContext → NodeId → ℕ
assigned_cycle context id = elim (BTree.get id context.multiplex_assign) [
  | none ↦ 0
  | some cycle ↦ cycle
]

-- `should_poll_this_cycle`; the `u8` sum is not wrapped, since it is compared only where the
-- assigned cycle is not 0.
unfoldable pub should_poll_this_cycle : PollContext → ℕ → NodeId → Bool
should_poll_this_cycle context current_multiplex_cycle id =
    assigned_cycle context id == 0
    || (ltb 0 context.multiplex_cycle_len
        && assigned_cycle context id == (current_multiplex_cycle + 1))

-- `state >= CnState::PreOperational && state != CnState::Stopped`
unfoldable pub is_polled_state : CnState → Bool
is_polled_state state =
    cn_state_le pre_operational state && not (cn_state_rank state == cn_state_rank stopped)

-- Both tests of a pass of the loop.
unfoldable pub is_polled : PollContext → ℕ → NodeId → Bool
is_polled context current_multiplex_cycle id =
    if should_poll_this_cycle context current_multiplex_cycle id
    then is_polled_state (state_of context.node_info id)
    else false

-- The `while` loop over the nodes from the index on; the index is counted with it.
unfoldable pub poll_loop : (NodeId → Bool) → List NodeId → ℕ → Option NodeId × ℕ
poll_loop test [] idx = (none, idx)
poll_loop test (n ∷ ns) idx =
    let rest = poll_loop test ns (suc idx) in if test n then (some n, suc idx) else rest

unfoldable pub get_next_isochronous_node_to_poll : PollContext → ℕ → ℕ → Option NodeId × ℕ
get_next_isochronous_node_to_poll context current_multiplex_cycle idx =
    poll_loop (is_polled context current_multiplex_cycle) (drop idx context.isochronous_nodes) idx

-- The `for` loop of `has_more_isochronous_nodes`
unfoldable pub more_loop : (NodeId → Bool) → List NodeId → Bool
more_loop test [] = false
more_loop test (n ∷ ns) = if test n then true else more_loop test ns

-- The tests of `has_more_isochronous_nodes`, which has its own copy of them.
unfoldable pub is_polled_ahead : PollContext → ℕ → NodeId → Bool
is_polled_ahead context current_multiplex_cycle id =
    let assigned = assigned_cycle context id in
    let state = state_of context.node_info id in
    if assigned == 0
      || (ltb 0 context.multiplex_cycle_len && assigned == (current_multiplex_cycle + 1))
    then cn_state_le pre_operational state && not (cn_state_rank state == cn_state_rank stopped)
    else false

unfoldable pub has_more_isochronous_nodes : PollContext → ℕ → ℕ → Bool
unfolding is_polled_ahead
has_more_isochronous_nodes context current_multiplex_cycle idx =
    more_loop (is_polled_ahead context current_multiplex_cycle) (drop idx context.isochronous_nodes)
