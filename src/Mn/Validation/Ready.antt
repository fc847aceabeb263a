-- ===== src/Mn/Validation/Ready.antt =====
-- What the checks on the mandatory nodes decide.
use powerlink_rs.Common.{
  ◌≤◌, ◌≡◌, ◌&&◌, refl, Bool, true, some, List, [], ◌∷◌, All, arith, ◌↔◌, Option-cases, inl, inr,
}
use powerlink_rs.Common.BTree
use powerlink_rs.Types.{NodeId}
use powerlink_rs.Mn.State.{
  CnState, unknown, stopped, missing, identified, pre_operational, operational, cn_state_rank,
  cn_state_le, CnInfo, NodeInfo, state_of,
}
use powerlink_rs.Mn.Validation.{
  all_nodes, is_active_from, is_comm_verified, check_all_mandatory_identified,
  check_all_mandatory_preop, check_all_mandatory_comm_verified,
}

all_nodes-All :
    (test : NodeId → Bool) (P : NodeId → Type 0) (ns : List NodeId)
    → ((n : NodeId) → (test n ≡ true) ↔ P n)
    → (all_nodes test ns ≡ true) ↔ All P ns
unfolding all_nodes
all_nodes-All test P ns same = (forth ns, back ns)
  where
    forth : (ns : List NodeId) → all_nodes test ns ≡ true → All P ns
    forth [] h = tt
    forth (n ∷ ns) h = ((same n).0 (ground (arith, h)), forth ns (ground (arith, h)))

    back : (ns : List NodeId) → All P ns → all_nodes test ns ≡ true
    back [] a = refl
    back (n ∷ ns) (p, a) = rw ((same n).1 p, back ns a)

-- The state of a node lies between two others, in their order.
unfoldable pub IsBetween : CnState → CnState → CnState → Type 0
IsBetween low high state =
    (cn_state_rank low ≤ cn_state_rank state) × (cn_state_rank state ≤ cn_state_rank high)

is_active_from-IsBetween :
    (lowest : CnState) (node_info : NodeInfo) (n : NodeId)
    → (is_active_from lowest node_info n ≡ true)
      ↔ IsBetween lowest operational (state_of node_info n)
unfolding is_active_from cn_state_le IsBetween
is_active_from-IsBetween lowest node_info n = ground arith

-- A node that has an entry, with its communication flag set.
unfoldable pub HasCommunication : NodeInfo → NodeId → Type 0
HasCommunication node_info n =
    (info : CnInfo) × (BTree.get n node_info ≡ some info) × (info.communication_ok ≡ true)

is_comm_verified-HasCommunication :
    (node_info : NodeInfo) (n : NodeId)
    → (is_comm_verified node_info n ≡ true) ↔ HasCommunication node_info n
unfolding is_comm_verified HasCommunication
is_comm_verified-HasCommunication node_info n = elim (Option-cases (BTree.get n node_info)) [
  | inl e ↦ (λ h. absurd (ground arith), λ (info, q, _). absurd (ground (arith, e, q)))
  | inr (info, e) ↦
      (λ h. (info, e, ground (arith, e, h)), λ (info', q, ok). ground (arith, e, q, ok))
]

pub check_all_mandatory_identified_iff :
    (ns : List NodeId) (node_info : NodeInfo)
    → (check_all_mandatory_identified ns node_info ≡ true)
      ↔ All (λ n. IsBetween identified operational (state_of node_info n)) ns
unfolding check_all_mandatory_identified
check_all_mandatory_identified_iff ns node_info =
    all_nodes-All _ _ ns (is_active_from-IsBetween identified node_info)

pub check_all_mandatory_preop_iff :
    (ns : List NodeId) (node_info : NodeInfo)
    → (check_all_mandatory_preop ns node_info ≡ true)
      ↔ All (λ n. IsBetween pre_operational operational (state_of node_info n)) ns
unfolding check_all_mandatory_preop
check_all_mandatory_preop_iff ns node_info =
    all_nodes-All _ _ ns (is_active_from-IsBetween pre_operational node_info)

pub check_all_mandatory_comm_verified_iff :
    (ns : List NodeId) (node_info : NodeInfo)
    → (check_all_mandatory_comm_verified ns node_info ≡ true) ↔ All (HasCommunication node_info) ns
unfolding check_all_mandatory_comm_verified
check_all_mandatory_comm_verified_iff ns node_info =
    all_nodes-All _ _ ns (is_comm_verified-HasCommunication node_info)

-- A node that is identified, pre-operational or operational: not stopped, missing or unknown.
unfoldable pub IsReady : CnState → Type 0
IsReady identified = Unit
IsReady pre_operational = Unit
IsReady operational = Unit
IsReady unknown = ⊥
IsReady stopped = ⊥
IsReady missing = ⊥

is_active_from-IsReady :
    (state : CnState)
    → (cn_state_le identified state && cn_state_le state operational ≡ true) ↔ IsReady state
unfolding cn_state_le cn_state_rank IsReady
is_active_from-IsReady identified = (λ h. tt, λ r. refl)
is_active_from-IsReady pre_operational = (λ h. tt, λ r. refl)
is_active_from-IsReady operational = (λ h. tt, λ r. refl)
is_active_from-IsReady unknown = (λ h. absurd (ground arith), λ r. absurd r)
is_active_from-IsReady stopped = (λ h. absurd (ground arith), λ r. absurd r)
is_active_from-IsReady missing = (λ h. absurd (ground arith), λ r. absurd r)

-- The first check passes exactly if every mandatory node is identified, pre-operational or
-- operational.
pub check_all_mandatory_identified-IsReady :
    (ns : List NodeId) (node_info : NodeInfo)
    → (check_all_mandatory_identified ns node_info ≡ true)
      ↔ All (λ n. IsReady (state_of node_info n)) ns
unfolding check_all_mandatory_identified is_active_from
check_all_mandatory_identified-IsReady ns node_info =
    all_nodes-All _ _ ns (λ n. is_active_from-IsReady (state_of node_info n))
