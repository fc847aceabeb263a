-- ===== src/Mn/AsyncOnly/Rotation.antt =====
-- The search for an asynchronous node looks at every node once, in turn.
use powerlink_rs.Common.{
  ℕ, zero, suc, ◌+◌, ◌-◌, ◌%◌, ◌≤◌, ◌<◌, ◌≡◌, refl, ap, ◌∙◌, Bool, true, false, if◌then◌else◌,
  Option, none, some, List, [], ◌∷◌, ◌++◌, length, get_or, take, drop, take-all, arith, All, ◌==◌,
  length-append, append-nil,
}
use native.Mathlib.Nat.{mod-eq_of_lt, mod-eq-sub-mod}
use powerlink_rs.Types.{NodeId}
use powerlink_rs.Mn.State.{NodeInfo}
use powerlink_rs.Mn.Ident.{first_of}
use powerlink_rs.Mn.AsyncOnly.{
  start_idx, position, is_present, status_loop, find_next_async_only_to_poll,
}

-- The numbers at the places from `i` on, `count` of them.
unfoldable pub at_places : List NodeId → ℕ → ℕ → List NodeId
at_places nodes i zero = []
at_places nodes i (suc count) = get_or nodes i 0 ∷ at_places nodes (suc i) count

at_places-suc :
    (n : NodeId) (ns : List NodeId) (i count : ℕ)
    → at_places (n ∷ ns) (suc i) count ≡ at_places ns i count
unfolding at_places
at_places-suc n ns i zero = refl
at_places-suc n ns i (suc count) = ap (λ l. get_or ns i 0 ∷ l) (at_places-suc n ns (suc i) count)

at_places-take :
    (nodes : List NodeId) (count : ℕ)
    → count ≤ length nodes
    → at_places nodes 0 count ≡ take count nodes
unfolding at_places
at_places-take nodes zero h = refl
at_places-take [] (suc count) h = absurd (omega arith)
at_places-take (n ∷ ns) (suc count) h =
    ap (λ l. n ∷ l) (at_places-suc n ns 0 count ∙ at_places-take ns count (omega arith))

at_places-drop :
    (nodes : List NodeId) (start count : ℕ)
    → start + count ≡ length nodes
    → at_places nodes start count ≡ drop start nodes
at_places-drop nodes zero count h =
    at_places-take nodes count (omega (arith, h)) ∙ take-all count nodes (omega (arith, h))
at_places-drop [] (suc start) count h = absurd (omega (arith, h))
at_places-drop (n ∷ ns) (suc start) count h =
    at_places-suc n ns start count ∙ at_places-drop ns start count (omega (arith, h))

abbrev or_else : Option NodeId → Option NodeId → Option NodeId
or_else none o = o
or_else (some id) o = some id

or_else-if :
    (b : Bool) (id : NodeId) (o rest : Option NodeId)
    → (if b then some id else or_else o rest) ≡ or_else (if b then some id else o) rest
or_else-if true id o rest = refl
or_else-if false id o rest = refl

first_of-append :
    (test : NodeId → Bool) (xs ys : List NodeId)
    → or_else (first_of test xs) (first_of test ys) ≡ first_of test (xs ++ ys)
unfolding first_of
first_of-append test [] ys = refl
first_of-append test (x ∷ xs) ys = ground (arith, first_of-append test xs ys)

-- The passes before the end of the list, and those after it.
status_loop-low :
    (test : NodeId → Bool) (nodes : List NodeId) (start count more i : ℕ)
    → start + i + count ≤ length nodes
    → status_loop test nodes start (count + more) i
      ≡ or_else
          (first_of test (at_places nodes (start + i) count))
          (status_loop test nodes start more (i + count))
unfolding status_loop first_of at_places
status_loop-low test nodes start zero more i h = rw (zero_plus more, plus_zero i)
  where
    zero_plus : (m : ℕ) → 0 + m ≡ m
    zero_plus m = omega arith

    plus_zero : (m : ℕ) → m + 0 ≡ m
    plus_zero m = omega arith
status_loop-low test nodes start (suc count) more i h =
    let place : (start + i) % length nodes ≡ start + i = mod-eq_of_lt (omega arith) in
    rw (
      suc_plus count more,
      place,
      status_loop-low test nodes start count more (suc i) (omega arith),
      plus_suc start i,
      plus_suc i count,
      suc_plus i count,
      or_else-if (test (get_or nodes (start + i) 0)) _ _ _,
    )
  where
    suc_plus : (m n : ℕ) → suc m + n ≡ suc (m + n)
    suc_plus m n = omega arith

    plus_suc : (m n : ℕ) → m + suc n ≡ suc (m + n)
    plus_suc m n = omega arith

status_loop-high :
    (test : NodeId → Bool) (nodes : List NodeId) (start count i j : ℕ)
    → start + i ≡ length nodes + j
    → j + count ≤ length nodes
    → status_loop test nodes start count i ≡ first_of test (at_places nodes j count)
unfolding status_loop first_of at_places
status_loop-high test nodes start zero i j e h = refl
status_loop-high test nodes start (suc count) i j e h =
    let place : (start + i) % length nodes ≡ j =
      wraps (start + i) (length nodes) j e (omega arith) in
    rw (
      place,
      status_loop-high test nodes start count (suc i) (suc j) (omega (arith, e)) (omega arith),
    )
  where
    wraps : (m n j : ℕ) → m ≡ n + j → j < n → m % n ≡ j
    wraps m n j e h =
        mod-eq-sub-mod (omega (arith, e)) ∙ ap (λ k. k % n) (rest m n j e) ∙ mod-eq_of_lt h
      where
        rest : (m n j : ℕ) → m ≡ n + j → m - n ≡ j
        rest m n j e = omega (arith, e)

-- All passes of the loop: the list, turned so that it begins at `start`.
status_loop-turned :
    (test : NodeId → Bool) (nodes : List NodeId) (start : ℕ)
    → start < length nodes
    → status_loop test nodes start (length nodes) 0
      ≡ first_of test (drop start nodes ++ take start nodes)
status_loop-turned test nodes start h =
    let count = length nodes - start in
    let low = status_loop-low test nodes start count start 0 (omega arith) in
    let high = status_loop-high test nodes start start (0 + count) 0 (omega arith) (omega arith) in
    let whole : status_loop test nodes start (count + start) 0
        ≡ first_of test (drop start nodes ++ take start nodes) =
      rw (
        low,
        high,
        plus_zero start,
        at_places-drop nodes start count (omega arith),
        at_places-take nodes start (omega arith),
        first_of-append test (drop start nodes) (take start nodes),
      ) in
    ap (λ n. status_loop test nodes start n 0) (parts start (length nodes) h) ∙ whole
  where
    plus_zero : (m : ℕ) → m + 0 ≡ m
    plus_zero m = omega arith

    parts : (m n : ℕ) → m < n → n ≡ n - m + m
    parts m n h = omega arith

position-append :
    (last : NodeId) (xs ys : List NodeId)
    → All (λ n. (n == last) ≡ false) xs
    → position last (xs ++ last ∷ ys) ≡ some (length xs)
unfolding position
position-append last [] ys a = ground arith
position-append last (x ∷ xs) ys (p, a) = rw (p, position-append last xs ys a)

drop-append : (xs ys : List NodeId) (n : NodeId) → drop (suc (length xs)) (xs ++ n ∷ ys) ≡ ys
drop-append [] ys n = refl
drop-append (x ∷ xs) ys n = drop-append xs ys n

take-append_one :
    (xs ys : List NodeId) (n : NodeId) → take (suc (length xs)) (xs ++ n ∷ ys) ≡ xs ++ n ∷ []
take-append_one [] ys n = refl
take-append_one (x ∷ xs) ys n = ap (λ l. x ∷ l) (take-append_one xs ys n)

-- The turned list, from where the search starts.
turned-start_idx :
    (last : NodeId) (xs ys : List NodeId)
    → All (λ n. (n == last) ≡ false) xs
    → let nodes = xs ++ last ∷ ys in
      let start = start_idx last nodes in
      (start < length nodes) × (drop start nodes ++ take start nodes ≡ ys ++ (xs ++ last ∷ []))
unfolding start_idx
turned-start_idx last xs [] a =
    let size = length-append xs (last ∷ []) in
    let start : start_idx last (xs ++ last ∷ []) ≡ 0 =
      rw (start_idx, position-append last xs [] a)
        (self_mod (length xs + 1) (length (xs ++ last ∷ [])) size (omega (arith, size))) in
    rw start (omega (arith, size), append-nil (xs ++ last ∷ []))
  where
    self_mod : (m n : ℕ) → n ≡ m → 0 < n → m % n ≡ 0
    self_mod m n e p =
        mod-eq-sub-mod (omega (arith, e)) ∙ ap (λ k. k % n) (none_left m n e) ∙ mod-eq_of_lt p
      where
        none_left : (m n : ℕ) → n ≡ m → m - n ≡ 0
        none_left m n e = omega (arith, e)
turned-start_idx last xs (y ∷ ys) a =
    let size = length-append xs (last ∷ y ∷ ys) in
    let start : start_idx last (xs ++ last ∷ y ∷ ys) ≡ suc (length xs) =
      rw (start_idx, position-append last xs (y ∷ ys) a)
        (mod-eq_of_lt (omega (arith, size)) ∙ plus_one (length xs)) in
    rw (start, drop-append xs (y ∷ ys) last, take-append_one xs (y ∷ ys) last)
      (omega (arith, size), refl)
  where
    plus_one : (m : ℕ) → m + 1 ≡ suc m
    plus_one m = omega arith

-- What the search remembers.
abbrev pub remembered_poll : Option NodeId → NodeId → NodeId
remembered_poll none last = last
remembered_poll (some id) last = id

-- After a node of the list, the search looks at the nodes behind it, then at those before it and
-- at last at the node itself, and returns and remembers the first that has an entry and is not
-- missing; if there is none it returns nothing and remembers the node as before.
pub find_next_async_only_to_poll-turn :
    (node_info : NodeInfo) (last : NodeId) (xs ys : List NodeId)
    → All (λ n. (n == last) ≡ false) xs
    → let result = first_of (is_present node_info) (ys ++ (xs ++ last ∷ [])) in
      find_next_async_only_to_poll (xs ++ last ∷ ys) node_info last
      ≡ (result, remembered_poll result last)
unfolding find_next_async_only_to_poll
find_next_async_only_to_poll-turn node_info last xs ys a =
    let nodes = xs ++ last ∷ ys in
    let (inside, order) = turned-start_idx last xs ys a in
    let found = status_loop-turned (is_present node_info) nodes (start_idx last nodes) inside in
    ground (arith, found, ap (first_of (is_present node_info)) order)
