-- ===== src/Mn/Validation.antt =====
-- crates/powerlink-rs/src/node/mn/validation.rs: the checks on the mandatory nodes at boot-up.
pub mod Ready
use powerlink_rs.Common.{
  ℕ, ◌≡◌, refl, Bool, true, false, ◌&&◌, leb, Option, none, some, List, [], ◌∷◌, All, arith, ◌↔◌,
}
use powerlink_rs.Common.BTree
use powerlink_rs.Types.{NodeId}
use powerlink_rs.Mn.State.{
  CnState, identified, pre_operational, operational, cn_state_rank, cn_state_le, CnInfo, NodeInfo,
  state_of,
}

-- `mandatory_nodes.iter().all(test)`
unfoldable pub all_nodes : (NodeId → Bool) → List NodeId → Bool
all_nodes test [] = true
all_nodes test (n ∷ ns) = test n && all_nodes test ns

-- The test of both checks on the state, between `lowest` and `Operational`.
unfoldable pub is_active_from : CnState → NodeInfo → NodeId → Bool
is_active_from lowest node_info n =
    cn_state_le lowest (state_of node_info n) && cn_state_le (state_of node_info n) operational

unfoldable pub check_all_mandatory_identified : List NodeId → NodeInfo → Bool
unfolding is_active_from
check_all_mandatory_identified mandatory_nodes node_info =
    all_nodes (is_active_from identified node_info) mandatory_nodes

unfoldable pub check_all_mandatory_preop : List NodeId → NodeInfo → Bool
unfolding is_active_from
check_all_mandatory_preop mandatory_nodes node_info =
    all_nodes (is_active_from pre_operational node_info) mandatory_nodes

-- The test of `check_all_mandatory_comm_verified`
unfoldable pub is_comm_verified : NodeInfo → NodeId → Bool
is_comm_verified node_info n = elim (BTree.get n node_info) [
  | none ↦ false
  | some info ↦ info.communication_ok
]

unfoldable pub check_all_mandatory_comm_verified : List NodeId → NodeInfo → Bool
check_all_mandatory_comm_verified mandatory_nodes node_info =
    all_nodes (is_comm_verified node_info) mandatory_nodes
