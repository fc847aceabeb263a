-- ===== src/Mn/Isochronous/Cycle.antt =====
-- Polling to the end of a cycle: every node that is due, once and in order.
use powerlink_rs.Common.{
  ℕ, zero, suc, ◌+◌, ◌≤◌, ◌<◌, ◌≡◌, refl, ap, subst, Bool, true, false, if◌then◌else◌, Option, none,
  some, List, [], ◌∷◌, drop, length, length-drop, arith, Bool-cases, Option-cases, inl, inr,
}
use powerlink_rs.Types.{NodeId}
use powerlink_rs.Mn.Isochronous.{
  PollContext, is_polled, is_polled_ahead, should_poll_this_cycle, is_polled_state, poll_loop,
  get_next_isochronous_node_to_poll, more_loop, has_more_isochronous_nodes,
}

-- The calls of `get_next_isochronous_node_to_poll` until it returns nothing, one unit of fuel for
-- each: the nodes returned.
unfoldable pub poll_cycle : ℕ → PollContext → ℕ → ℕ → List NodeId
poll_cycle zero context cycle idx = []
poll_cycle (suc fuel) context cycle idx =
    let (polled, idx') = get_next_isochronous_node_to_poll context cycle idx in
    let rest = poll_cycle fuel context cycle idx' in elim polled [ none ↦ [] | some n ↦ n ∷ rest ]

-- The nodes that pass a test, in order.
unfoldable pub filter : (NodeId → Bool) → List NodeId → List NodeId
filter test [] = []
filter test (n ∷ ns) = let rest = filter test ns in if test n then n ∷ rest else rest

drop-suc :
    (idx : ℕ) (all : List NodeId) (n : NodeId) (ns : List NodeId)
    → drop idx all ≡ n ∷ ns
    → drop (suc idx) all ≡ ns
drop-suc zero [] n ns h = absurd (ground arith)
drop-suc zero (x ∷ xs) n ns h = ground arith
drop-suc (suc idx) [] n ns h = absurd (ground arith)
drop-suc (suc idx) (x ∷ xs) n ns h = drop-suc idx xs n ns h

-- What one call returns and where it leaves the index, for the calls that follow.
pub record Polls (test : NodeId → Bool) (nodes all : List NodeId) (idx : ℕ)
    (result : Option NodeId × ℕ) : Type 0 where
  pub rest :
      filter test nodes
      ≡ (elim result.0 [ none ↦ [] | some n ↦ n ∷ filter test (drop result.1 all) ])
  pub low : (n : NodeId) → result.0 ≡ some n → idx < result.1
  pub high : result.1 ≤ idx + length nodes

-- A node that is passed over.
skip-Polls :
    (test : NodeId → Bool) (n : NodeId) (ns all : List NodeId) (idx : ℕ)
    (result : Option NodeId × ℕ)
    → test n ≡ false
    → Polls test ns all (suc idx) result
    → Polls test (n ∷ ns) all idx result
unfolding filter
skip-Polls test n ns all idx result q p = record {
  rest = rw (q, p.rest);
  low = λ m e. let below = p.low m e in omega arith;
  high = let above = p.high in omega arith;
}

poll_loop-Polls :
    (test : NodeId → Bool) (nodes : List NodeId) (idx : ℕ) (all : List NodeId)
    → drop idx all ≡ nodes
    → Polls test nodes all idx (poll_loop test nodes idx)
unfolding poll_loop filter
poll_loop-Polls test [] idx all h = record {
  rest = refl;
  low = λ n e. absurd (ground arith);
  high = omega arith;
}
poll_loop-Polls test (n ∷ ns) idx all h =
    let after = drop-suc idx all n ns h in
    let ih = poll_loop-Polls test ns (suc idx) all after in
    elim (Bool-cases (test n)) [
      | inl q ↦ record {
        rest = ground (arith, q, ap (filter test) after);
        low = λ m e. rw q (omega arith);
        high = rw q (omega arith);
      }
      | inr q ↦ subst (Polls test (n ∷ ns) all idx) (skips q) (skip-Polls test n ns all idx _ q ih)
    ]
  where
    skips : test n ≡ false → poll_loop test ns (suc idx) ≡ poll_loop test (n ∷ ns) idx
    skips q = rw q

-- With fuel for one call more than there are nodes, the calls of one cycle return exactly the
-- nodes after the index that are due and in a state to be polled, each once and in order.
pub poll_cycle-filter :
    (fuel : ℕ) (context : PollContext) (cycle idx : ℕ)
    → length context.isochronous_nodes < fuel + idx
    → 0 < fuel
    → poll_cycle fuel context cycle idx
      ≡ filter (is_polled context cycle) (drop idx context.isochronous_nodes)
unfolding poll_cycle get_next_isochronous_node_to_poll
poll_cycle-filter zero context cycle idx h z = absurd (omega arith)
poll_cycle-filter (suc fuel) context cycle idx h z =
    let all = context.isochronous_nodes in
    let call = poll_loop-Polls (is_polled context cycle) (drop idx all) idx all refl in
    elim (Option-cases (get_next_isochronous_node_to_poll context cycle idx).0) [
      | inl none_left ↦ ground (arith, none_left, call.rest)
      | inr (n, polled) ↦
          let idx' = (get_next_isochronous_node_to_poll context cycle idx).1 in
          let above = call.low n polled in
          let below = call.high in
          let rest =
            poll_cycle-filter fuel context cycle idx' (omega arith)
              (omega (arith, length-drop idx all)) in
          ground (arith, polled, call.rest, rest)
    ]

has_more-poll_loop :
    (test : NodeId → Bool) (nodes : List NodeId) (idx : ℕ)
    → more_loop test nodes ≡ (elim (poll_loop test nodes idx).0 [ none ↦ false | some _ ↦ true ])
unfolding more_loop poll_loop
has_more-poll_loop test [] idx = refl
has_more-poll_loop test (n ∷ ns) idx = ground (arith, has_more-poll_loop test ns (suc idx))

-- The look-ahead agrees with the poll: there are more nodes exactly if the next call returns one.
pub has_more_isochronous_nodes-get_next :
    (context : PollContext) (cycle idx : ℕ)
    → has_more_isochronous_nodes context cycle idx
      ≡ (elim (get_next_isochronous_node_to_poll context cycle idx).0 [
        | none ↦ false
        | some _ ↦ true
      ])
unfolding has_more_isochronous_nodes get_next_isochronous_node_to_poll is_polled is_polled_ahead
    should_poll_this_cycle is_polled_state
has_more_isochronous_nodes-get_next context cycle idx =
    has_more-poll_loop (is_polled context cycle) (drop idx context.isochronous_nodes) idx
