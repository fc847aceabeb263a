-- ===== src/Dll/CsMachine/Cycle.antt =====
-- The cycle of a controlled node: the traffic that its state machine takes without an error.
use powerlink_rs.Common.{
  ◌≡◌, refl, ap, subst, Bool, true, false, none, some, List, [], ◌∷◌, arith, ◌↔◌, inl, inr,
  Option-cases, ◌++◌,
}
use mathlib.Core.Bool.{true≢false}
use powerlink_rs.Nmt.State.{NmtState}
use powerlink_rs.Dll.CsMachine.{
  DllCsState, DllCsEvent, non_cyclic, wait_soc, wait_preq, wait_soa, soc, preq, pres, soa, asnd,
  soc_timeout, is_cyclic, process_event, non_empty, cs_transition,
}

-- A run of the machine in one NMT state: whether an error was reported, and the last state.
unfoldable pub run : NmtState → List DllCsEvent → DllCsState → Bool × DllCsState
run nmt_state [] state = (true, state)
run nmt_state (e ∷ es) state =
    let (state', errors) = process_event e nmt_state state in
    let (clean, last) = run nmt_state es state' in
    (elim errors [ none ↦ clean | some _ ↦ false ], last)

-- The traffic of a cycle: a SoC, any number of PRes of other nodes, the PReq of this node, any
-- number of PRes, and the SoA with which the asynchronous phase, in which ASnd frames pass, begins.
pub data Traffic : DllCsState → List DllCsEvent → DllCsState → Type 0 where
  stops : {state : DllCsState} → Traffic state [] state
  enters :
      {es : List DllCsEvent} {last : DllCsState}
      → Traffic wait_preq es last
      → Traffic non_cyclic (soc ∷ es) last
  starts :
      {es : List DllCsEvent} {last : DllCsState}
      → Traffic wait_preq es last
      → Traffic wait_soc (soc ∷ es) last
  asynchronous :
      {es : List DllCsEvent} {last : DllCsState}
      → Traffic wait_soc es last
      → Traffic wait_soc (asnd ∷ es) last
  answer_before :
      {es : List DllCsEvent} {last : DllCsState}
      → Traffic wait_preq es last
      → Traffic wait_preq (pres ∷ es) last
  polled :
      {es : List DllCsEvent} {last : DllCsState}
      → Traffic wait_soa es last
      → Traffic wait_preq (preq ∷ es) last
  answer_after :
      {es : List DllCsEvent} {last : DllCsState}
      → Traffic wait_soa es last
      → Traffic wait_soa (pres ∷ es) last
  ends :
      {es : List DllCsEvent} {last : DllCsState}
      → Traffic wait_soc es last
      → Traffic wait_soa (soa ∷ es) last

cyclic_step :
    (nmt_state : NmtState) (e : DllCsEvent) (state : DllCsState)
    → is_cyclic nmt_state ≡ true
    → process_event e nmt_state state
      ≡ ((cs_transition state e).0, non_empty (cs_transition state e).1)
unfolding process_event
cyclic_step nmt_state e state h = ground (arith, h)

Traffic-run :
    (nmt_state : NmtState) {es : List DllCsEvent} {state last : DllCsState}
    → is_cyclic nmt_state ≡ true
    → Traffic state es last
    → run nmt_state es state ≡ (true, last)
unfolding run cs_transition
Traffic-run nmt_state h stops = refl
Traffic-run nmt_state h (enters t) =
    ground (arith, cyclic_step nmt_state soc non_cyclic h, Traffic-run nmt_state h t)
Traffic-run nmt_state h (starts t) =
    ground (arith, cyclic_step nmt_state soc wait_soc h, Traffic-run nmt_state h t)
Traffic-run nmt_state h (asynchronous t) =
    ground (arith, cyclic_step nmt_state asnd wait_soc h, Traffic-run nmt_state h t)
Traffic-run nmt_state h (answer_before t) =
    ground (arith, cyclic_step nmt_state pres wait_preq h, Traffic-run nmt_state h t)
Traffic-run nmt_state h (polled t) =
    ground (arith, cyclic_step nmt_state preq wait_preq h, Traffic-run nmt_state h t)
Traffic-run nmt_state h (answer_after t) =
    ground (arith, cyclic_step nmt_state pres wait_soa h, Traffic-run nmt_state h t)
Traffic-run nmt_state h (ends t) =
    ground (arith, cyclic_step nmt_state soa wait_soa h, Traffic-run nmt_state h t)

-- An event without an error, and the traffic that it begins.
step-Traffic :
    (state : DllCsState) (e : DllCsEvent) (es : List DllCsEvent) (last : DllCsState)
    → non_empty (cs_transition state e).1 ≡ none
    → Traffic (cs_transition state e).0 es last
    → Traffic state (e ∷ es) last
unfolding cs_transition
step-Traffic non_cyclic soc es last q t = enters t
step-Traffic wait_soc soc es last q t = starts t
step-Traffic wait_soc asnd es last q t = asynchronous t
step-Traffic wait_preq preq es last q t = polled t
step-Traffic wait_preq pres es last q t = answer_before t
step-Traffic wait_soa pres es last q t = answer_after t
step-Traffic wait_soa soa es last q t = ends t
step-Traffic non_cyclic preq es last q t = absurd (ground arith)
step-Traffic non_cyclic pres es last q t = absurd (ground arith)
step-Traffic non_cyclic soa es last q t = absurd (ground arith)
step-Traffic non_cyclic asnd es last q t = absurd (ground arith)
step-Traffic non_cyclic soc_timeout es last q t = absurd (ground arith)
step-Traffic wait_soc preq es last q t = absurd (ground arith)
step-Traffic wait_soc pres es last q t = absurd (ground arith)
step-Traffic wait_soc soa es last q t = absurd (ground arith)
step-Traffic wait_soc soc_timeout es last q t = absurd (ground arith)
step-Traffic wait_preq soc es last q t = absurd (ground arith)
step-Traffic wait_preq soa es last q t = absurd (ground arith)
step-Traffic wait_preq asnd es last q t = absurd (ground arith)
step-Traffic wait_preq soc_timeout es last q t = absurd (ground arith)
step-Traffic wait_soa soc es last q t = absurd (ground arith)
step-Traffic wait_soa preq es last q t = absurd (ground arith)
step-Traffic wait_soa asnd es last q t = absurd (ground arith)
step-Traffic wait_soa soc_timeout es last q t = absurd (ground arith)

event-Traffic :
    (nmt_state : NmtState) (e : DllCsEvent) (es : List DllCsEvent) (state last : DllCsState)
    → is_cyclic nmt_state ≡ true
    → (process_event e nmt_state state).1 ≡ none
    → Traffic (process_event e nmt_state state).0 es last
    → Traffic state (e ∷ es) last
event-Traffic nmt_state e es state last h q t =
    let same = cyclic_step nmt_state e state h in
    step-Traffic state e es last (ground (arith, same, q))
      (subst (λ next. Traffic next es last) (ap (λ p. p.0) same) t)

run-Traffic :
    (nmt_state : NmtState) (es : List DllCsEvent) (state : DllCsState)
    → is_cyclic nmt_state ≡ true
    → (run nmt_state es state).0 ≡ true
    → Traffic state es (run nmt_state es state).1
unfolding run
run-Traffic nmt_state [] state h q = stops
run-Traffic nmt_state (e ∷ es) state h q = elim (Option-cases (process_event e nmt_state state).1) [
  | inl n ↦
      event-Traffic nmt_state e es state (run nmt_state (e ∷ es) state).1 h n
        (run-Traffic nmt_state es (process_event e nmt_state state).0 h (ground (arith, n, q)))
  | inr (errors, some_errors) ↦ absurd (true≢false (ground (arith, some_errors, q)))
]

-- In an NMT state in which the cycle runs, a controlled node takes a sequence of events without an
-- error exactly if it is the traffic of whole cycles, or of a part of one, from its state to the
-- one in which it ends.
pub run-clean_iff_Traffic :
    (nmt_state : NmtState) (es : List DllCsEvent) (state : DllCsState)
    → is_cyclic nmt_state ≡ true
    → ((run nmt_state es state).0 ≡ true) ↔ Traffic state es (run nmt_state es state).1
run-clean_iff_Traffic nmt_state es state h =
    (run-Traffic nmt_state es state h, λ t. ap (λ p. p.0) (Traffic-run nmt_state h t))

run-append :
    (nmt_state : NmtState) (es fs : List DllCsEvent) (state : DllCsState)
    → (run nmt_state (es ++ fs) state).1 ≡ (run nmt_state fs (run nmt_state es state).1).1
unfolding run
run-append nmt_state [] fs state = refl
run-append nmt_state (e ∷ es) fs state =
    run-append nmt_state es fs (process_event e nmt_state state).0

soc-wait_preq : (state : DllCsState) → (cs_transition state soc).0 ≡ wait_preq
unfolding cs_transition
soc-wait_preq state = ground arith

-- In an NMT state in which the cycle runs, whatever happened before, errors included, a SoC and
-- correct traffic after it bring the machine to the state in which that traffic ends: one SoC is
-- enough to be synchronised again.
pub run-synchronised :
    (nmt_state : NmtState) (before after : List DllCsEvent) (state last : DllCsState)
    → is_cyclic nmt_state ≡ true
    → Traffic wait_preq after last
    → (run nmt_state (before ++ soc ∷ after) state).1 ≡ last
unfolding run
run-synchronised nmt_state before after state last h t =
    let reached = (run nmt_state before state).1 in
    rw (
      run-append nmt_state before (soc ∷ after) state,
      cyclic_step nmt_state soc reached h,
      soc-wait_preq reached,
      Traffic-run nmt_state h t,
    )
