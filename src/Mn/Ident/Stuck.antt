-- ===== src/Mn/Ident/Stuck.antt =====
-- Where the search for the next node to identify does not end.
use powerlink_rs.Common.{
  ℕ, zero, suc, ◌+◌, ◌%◌, ◌≤◌, ◌≡◌, refl, Bool, false, ◌⊎◌, ◌==◌, none, arith,
}
use powerlink_rs.Types.{NodeId}
use powerlink_rs.Mn.State.{NodeInfo}
use powerlink_rs.Mn.Ident.{is_unidentified, wrap_id, ident_loop, find_next_node_to_identify}

wrap_id-bounds : (n : ℕ) → (1 ≤ wrap_id n) × (wrap_id n ≤ 239)
unfolding wrap_id
wrap_id-bounds n = ground arith

wrap_id-apart : (start n : ℕ) → (start ≡ 0) ⊎ (240 ≤ start) → (wrap_id n == start) ≡ false
wrap_id-apart start n s = let (l, u) = wrap_id-bounds n in ground arith

ident_loop-stuck :
    (found : NodeId → Bool) (fuel start current : ℕ)
    → (start ≡ 0) ⊎ (240 ≤ start)
    → ((id : NodeId) → found id ≡ false)
    → ident_loop found fuel start false current ≡ none
unfolding ident_loop
ident_loop-stuck found zero start current s f = refl
ident_loop-stuck found (suc fuel) start current s f = rw (
  wrap_id-apart start current s,
  f (wrap_id current),
  ident_loop-stuck found fuel start ((wrap_id current + 1) % 256) s f,
)

-- When the node polled last is 239 or above and every node has been identified, the loop never
-- meets its start again: however many passes it is given, it is still running.
pub find_next_node_to_identify-stuck :
    (fuel : ℕ) (node_info : NodeInfo) (last : NodeId)
    → 239 ≤ last
    → last ≤ 255
    → ((id : NodeId) → is_unidentified node_info id ≡ false)
    → find_next_node_to_identify fuel node_info last ≡ none
unfolding find_next_node_to_identify
find_next_node_to_identify-stuck fuel node_info last l u f =
    let start = (last + 1) % 256 in
    ground (arith, ident_loop-stuck (is_unidentified node_info) fuel start start (ground arith) f)
