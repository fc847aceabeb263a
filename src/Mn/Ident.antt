-- ===== src/Mn/Ident.antt =====
-- crates/powerlink-rs/src/node/mn/scheduler.rs, `find_next_node_to_identify`.
pub mod Order
pub mod Stuck
use powerlink_rs.Common.{
  ℕ, zero, suc, ◌+◌, ◌-◌, ◌%◌, ◌≤◌, ◌<◌, ◌≡◌, refl, Bool, true, false, ◌&&◌, ◌||◌, ◌⊎◌, ltb, ◌==◌,
  if◌then◌else◌, Option, none, some, List, [], ◌∷◌, ◌++◌, arith, All, Bool-cases, inl, inr,
}
use powerlink_rs.Common.BTree
use powerlink_rs.Types.{NodeId}
use powerlink_rs.Mn.State.{CnState, unknown, missing, CnInfo, NodeInfo}

-- `matches!(info, Some(CnInfo { state: Unknown, .. }) | Some(CnInfo { state: Missing, .. }))`
unfoldable pub is_unidentified : NodeInfo → NodeId → Bool
is_unidentified node_info id = elim (BTree.get id node_info) [
  | none ↦ false
  | some info ↦ (elim info.state [ unknown ↦ true | missing ↦ true | _ ↦ false ])
]

-- The reset of the number to 1 at the head of the loop.
unfoldable pub wrap_id : ℕ → ℕ
wrap_id current = if current == 0 || ltb 239 current then 1 else current

-- The `loop`, one unit of fuel for each pass: `none` is a loop still running, `some` the value
-- that the function returns.
unfoldable pub ident_loop : (NodeId → Bool) → ℕ → ℕ → Bool → ℕ → Option (Option NodeId)
ident_loop found zero start wrapped_around current = none
ident_loop found (suc fuel) start wrapped_around current =
    let id = wrap_id current in
    let rest = ident_loop found fuel start (wrapped_around || id == start) ((id + 1) % 256) in
    if id == start && wrapped_around then some none else (if found id then some (some id) else rest)

-- `find_next_node_to_identify`, from `last_ident_poll_node_id`: what is returned, and the new
-- value of that field.
unfoldable pub find_next_node_to_identify : ℕ → NodeInfo → NodeId → Option (Option NodeId × NodeId)
find_next_node_to_identify fuel node_info last =
    let start = (last + 1) % 256 in
    elim (ident_loop (is_unidentified node_info) fuel start false start) [
      | none ↦ none
      | some none ↦ some (none, last)
      | some (some id) ↦ some (some id, id)
    ]

-- The numbers from `first`, `count` of them, and the first of a list that a test accepts.
unfoldable pub numbers : ℕ → ℕ → List NodeId
numbers first zero = []
numbers first (suc count) = first ∷ numbers (first + 1) count

unfoldable pub first_of : (NodeId → Bool) → List NodeId → Option NodeId
first_of found [] = none
first_of found (n ∷ ns) = let rest = first_of found ns in if found n then some n else rest

-- Every node number from 1 to 239 once, beginning after the one polled last.
unfoldable pub poll_order : NodeId → List NodeId
poll_order last = numbers (last + 1) (239 - last) ++ numbers 1 last
