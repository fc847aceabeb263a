-- ===== src/Mn/AsyncOnly.antt =====
-- crates/powerlink-rs/src/node/mn/scheduler.rs, `find_next_async_only_to_poll`.
pub mod Rotation
use powerlink_rs.Common.{
  ℕ, zero, suc, ◌+◌, ◌%◌, ltb, ◌==◌, Bool, true, false, not, if◌then◌else◌, Option, none, some,
  List, [], ◌∷◌, length, get_or,
}
use powerlink_rs.Common.BTree
use powerlink_rs.Types.{NodeId}
use powerlink_rs.Mn.State.{CnState, missing, NodeInfo}

-- `async_only_nodes.iter().position(|&id| id == last)`
unfoldable pub position : NodeId → List NodeId → Option ℕ
position last [] = none
position last (n ∷ ns) =
    let rest = position last ns in
    if n == last then some 0 else (elim rest [ none ↦ none | some i ↦ some (suc i) ])

-- `start_idx`
unfoldable pub start_idx : NodeId → List NodeId → ℕ
unfolding position
start_idx last nodes = elim (position last nodes) [ none ↦ 0 | some i ↦ (i + 1) % length nodes ]

-- `if let Some(info) … if info.state != CnState::Missing`
unfoldable pub is_present : NodeInfo → NodeId → Bool
is_present node_info id = elim (BTree.get id node_info) [
  | none ↦ false
  | some info ↦ (elim info.state [ missing ↦ false | _ ↦ true ])
]

-- The `for` loop, with `count` passes left and `i` behind it.
unfoldable pub status_loop : (NodeId → Bool) → List NodeId → ℕ → ℕ → ℕ → Option NodeId
status_loop test nodes start zero i = none
status_loop test nodes start (suc count) i =
    let id = get_or nodes ((start + i) % length nodes) 0 in
    let rest = status_loop test nodes start count (suc i) in if test id then some id else rest

-- `find_next_async_only_to_poll`: what is returned, and the new `last_status_poll_node_id`.
unfoldable pub find_next_async_only_to_poll :
    List NodeId → NodeInfo → NodeId → Option NodeId × NodeId
unfolding start_idx
find_next_async_only_to_poll nodes node_info last =
    elim (status_loop (is_present node_info) nodes (start_idx last nodes) (length nodes) 0) [
      | none ↦ (none, last)
      | some id ↦ (some id, id)
    ]
