-- ===== src/Mn/State.antt =====
-- crates/powerlink-rs/src/node/mn/state.rs: what the managing node keeps of each controlled node.
use powerlink_rs.Common.{ℕ, Bool, leb, Option, none, some, List}
use powerlink_rs.Common.BTree
use powerlink_rs.Types.{NodeId}
use powerlink_rs.Nmt.State.{NmtState}

-- `enum CnState`; its derived order is that of the constructors.
pub data CnState : Type 0 where
  unknown identified pre_operational operational stopped missing : CnState

unfoldable pub cn_state_rank : CnState → ℕ
cn_state_rank unknown = 0
cn_state_rank identified = 1
cn_state_rank pre_operational = 2
cn_state_rank operational = 3
cn_state_rank stopped = 4
cn_state_rank missing = 5

-- `a <= b`
unfoldable pub cn_state_le : CnState → CnState → Bool
unfolding cn_state_rank
cn_state_le a b = leb (cn_state_rank a) (cn_state_rank b)

-- `enum SdoState`
pub data SdoState : Type 0 where
  idle in_progress done : SdoState

-- `struct CnIdentity`
pub record CnIdentity : Type 0 where
  pub device_type : ℕ
  pub vendor_id : ℕ
  pub product_code : ℕ
  pub revision_no : ℕ
  pub serial_no : ℕ

-- `struct CnInfo`
pub record CnInfo : Type 0 where
  pub state : CnState
  pub nmt_state : NmtState
  pub en_flag : Bool
  pub ea_flag : Bool
  pub communication_ok : Bool
  pub last_pres_time_us : ℕ
  pub dll_errors : ℕ
  pub identity : Option CnIdentity
  pub sdo_state : SdoState

-- `node_info: BTreeMap<NodeId, CnInfo>`
abbrev pub NodeInfo : Type 0
NodeInfo = List (NodeId × CnInfo)

-- `node_info.get(id).map_or(CnState::Unknown, |info| info.state)`
unfoldable pub state_of : NodeInfo → NodeId → CnState
state_of node_info id = elim (BTree.get id node_info) [ none ↦ unknown | some info ↦ info.state ]
