-- ===== src/Mn/Ident/Order.antt =====
-- The search for the next node to identify goes once through all node numbers, in order.
use powerlink_rs.Common.{
  ℕ, zero, suc, ◌+◌, ◌-◌, ◌%◌, ◌≤◌, ◌<◌, ◌≡◌, refl, Bool, true, false, ◌⊎◌, ◌==◌, if◌then◌else◌,
  Option, none, some, List, [], ◌∷◌, ◌++◌, arith, inl, inr,
}
use powerlink_rs.Types.{NodeId}
use powerlink_rs.Mn.State.{NodeInfo}
use powerlink_rs.Mn.Ident.{
  is_unidentified, wrap_id, ident_loop, find_next_node_to_identify, numbers, first_of, poll_order,
}

small : (n : ℕ) → n ≤ 239 → (n + 1) % 256 ≡ n + 1
small n u = omega arith

==-self : (n : ℕ) → (n == n) ≡ true
==-self n = ground arith

zero_plus : (n : ℕ) → 0 + n ≡ n
zero_plus n = omega arith

suc_plus : (m n : ℕ) → suc m + n ≡ suc (m + n)
suc_plus m n = omega arith

plus_suc : (m n : ℕ) → m + suc n ≡ m + 1 + n
plus_suc m n = omega arith

plus_zero : (n : ℕ) → n + 0 ≡ n
plus_zero n = omega arith

wrap_id_lem : (current : ℕ) → 1 ≤ current → current ≤ 239 → wrap_id current ≡ current
unfolding wrap_id
wrap_id_lem current l u = ground arith

-- One pass at a number that is not the start, and one at the start.
ident_loop_pass :
    (found : NodeId → Bool) (fuel start current : ℕ) (wrapped : Bool)
    → 1 ≤ current
    → current ≤ 239
    → (current == start) ≡ false
    → ident_loop found (suc fuel) start wrapped current ≡ (
        if found current
        then some (some current)
        else ident_loop found fuel start wrapped (current + 1))
unfolding ident_loop
ident_loop_pass found fuel start current true l u ne =
    rw (wrap_id_lem current l u, ne, small current u)
ident_loop_pass found fuel start current false l u ne =
    rw (wrap_id_lem current l u, ne, small current u)

ident_loop_start :
    (found : NodeId → Bool) (fuel start : ℕ)
    → 1 ≤ start
    → start ≤ 239
    → ident_loop found (suc fuel) start false start
      ≡ (if found start then some (some start) else ident_loop found fuel start true (start + 1))
unfolding ident_loop
ident_loop_start found fuel start l u = rw (wrap_id_lem start l u, ==-self start, small start u)

ident_loop_stop :
    (found : NodeId → Bool) (fuel start : ℕ)
    → 1 ≤ start
    → start ≤ 239
    → ident_loop found (suc fuel) start true start ≡ some none
unfolding ident_loop
ident_loop_stop found fuel start l u = rw (wrap_id_lem start l u, ==-self start)

-- After 239 the loop goes on at 1.
ident_loop_wrap :
    (found : NodeId → Bool) (fuel start : ℕ) (wrapped : Bool)
    → ident_loop found fuel start wrapped 240 ≡ ident_loop found fuel start wrapped 1
unfolding ident_loop wrap_id
ident_loop_wrap found zero start wrapped = refl
ident_loop_wrap found (suc fuel) start wrapped = refl

-- The rest of a search that `first_of` has not ended.
abbrev pub or_go_on : Option NodeId → Option (Option NodeId) → Option (Option NodeId)
or_go_on none rest = rest
or_go_on (some id) rest = some (some id)

or_go_on_if :
    (b : Bool) (id : NodeId) (o : Option NodeId) (rest : Option (Option NodeId))
    → (if b then some (some id) else or_go_on o rest) ≡ or_go_on (if b then some id else o) rest
or_go_on_if true id o rest = refl
or_go_on_if false id o rest = refl

ident_loop_scan :
    (found : NodeId → Bool) (count fuel start current : ℕ) (wrapped : Bool)
    → 1 ≤ current
    → current + count ≤ 240
    → (start < current) ⊎ (current + count ≤ start)
    → ident_loop found (count + fuel) start wrapped current
      ≡ or_go_on
          (first_of found (numbers current count))
          (ident_loop found fuel start wrapped (current + count))
unfolding first_of numbers
ident_loop_scan found zero fuel start current wrapped l u apart =
    rw (plus_zero current, zero_plus fuel)
ident_loop_scan found (suc count) fuel start current wrapped l u apart =
    let pass =
      ident_loop_pass found (count + fuel) start current wrapped l (omega arith) (ground arith) in
    let rest =
      ident_loop_scan found count fuel start (current + 1) wrapped (omega arith) (omega arith)
        (ground arith) in
    rw (
      suc_plus count fuel,
      pass,
      rest,
      plus_suc current count,
      or_go_on_if (found current) current _ _,
    )

or_go_on-stop : (o : Option NodeId) → or_go_on o (some none) ≡ some o
or_go_on-stop none = refl
or_go_on-stop (some id) = refl

or_go_on-append :
    (found : NodeId → Bool) (xs ys : List NodeId)
    → or_go_on (first_of found xs) (some (first_of found ys)) ≡ some (first_of found (xs ++ ys))
unfolding first_of
or_go_on-append found [] ys = refl
or_go_on-append found (x ∷ xs) ys = ground (arith, or_go_on-append found xs ys)

-- The whole loop, with the passes of its four parts counted out.
ident_loop-poll_order :
    (found : NodeId → Bool) (last high extra : ℕ)
    → high + last ≡ 238
    → ident_loop found (suc (high + (last + suc extra))) (last + 1) false (last + 1)
      ≡ some (first_of found (numbers (last + 1) (suc high) ++ numbers 1 last))
unfolding numbers first_of
ident_loop-poll_order found last high extra h =
    let start = last + 1 in
    let begin =
      ident_loop_start found (high + (last + suc extra)) start (omega arith) (omega arith) in
    let above =
      ident_loop_scan found high (last + suc extra) start (start + 1) true (omega arith)
        (omega arith) (inl (omega arith)) in
    let below =
      ident_loop_scan found last (suc extra) start 1 true (omega arith) (omega arith)
        (inr (omega arith)) in
    rw
      (
        begin,
        above,
        top last high h,
        ident_loop_wrap found (last + suc extra) start true,
        below,
        one_plus last,
        ident_loop_stop found extra start (omega arith) (omega arith),
        or_go_on-stop (first_of found (numbers 1 last)),
        or_go_on-append found (numbers (start + 1) high) (numbers 1 last),
      )
      (ground arith)
  where
    top : (last high : ℕ) → high + last ≡ 238 → last + 1 + 1 + high ≡ 240
    top last high h = omega arith

    one_plus : (last : ℕ) → 1 + last ≡ last + 1
    one_plus last = omega arith

-- What the search returns, and the number that it remembers.
abbrev pub remembered : Option NodeId → NodeId → NodeId
remembered none last = last
remembered (some id) last = id

-- After a node number below 239, 240 passes of the loop are enough: the search returns the first
-- node that is unknown or missing among the numbers that follow the last one up to 239 and then
-- from 1, remembers it, and returns nothing exactly if there is none.
pub find_next_node_to_identify-poll_order :
    (extra : ℕ) (node_info : NodeInfo) (last : NodeId)
    → last < 239
    → let result = first_of (is_unidentified node_info) (poll_order last) in
      find_next_node_to_identify (240 + extra) node_info last
      ≡ some (result, remembered result last)
unfolding find_next_node_to_identify poll_order
find_next_node_to_identify-poll_order extra node_info last h =
    let found = is_unidentified node_info in
    let passes = ident_loop-poll_order found last (238 - last) extra (omega arith) in
    let whole : ident_loop found (240 + extra) (last + 1) false (last + 1)
        ≡ some (first_of found (numbers (last + 1) (239 - last) ++ numbers 1 last)) =
      rw (count last extra h, passes, above last h) in
    ground (arith, small last (omega arith), whole)
  where
    above : (last : ℕ) → last < 239 → 239 - last ≡ suc (238 - last)
    above last h = omega arith

    count : (last extra : ℕ) → last < 239 → 240 + extra ≡ suc (238 - last + (last + suc extra))
    count last extra h = omega arith
