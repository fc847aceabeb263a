-- ===== src/Dll/Tests.antt =====
-- Runs of the cycle state machines and of the error counters.
use powerlink_rs.Common.{
  ◌≡◌, refl, ◌↔◌, ◌++◌, true, false, leb, if◌then◌else◌, some, List, [], ◌∷◌, arith,
}
use powerlink_rs.Dll.Error.{DllError}
use powerlink_rs.Nmt.State.{operational}
use powerlink_rs.Dll.CsMachine
use powerlink_rs.Dll.CsMachine.{is_cyclic}
use powerlink_rs.Dll.CsMachine.Cycle
use powerlink_rs.Dll.CsMachine.Cycle.{Traffic, run-clean_iff_Traffic, run-synchronised}
use powerlink_rs.Dll.MsMachine
use powerlink_rs.Dll.MsMachine.{CycleFlags}
use powerlink_rs.Dll.MsMachine.Phases.{phase, is_isochronous, node_silent, process_event-phase}
use powerlink_rs.Dll.Counters.{new_counter, cn_new}
use powerlink_rs.Dll.Counters.Rate
use powerlink_rs.Dll.Counters.Rate.{
  Tick, bad_cycle, good_cycle, level_run, IsSound, run_refines, spaced, run-spaced, run_two_errors,
}
use powerlink_rs.Dll.Counters.Kinds.{
  soc, counter_of, Report, failed, completed, observe_all, ticks_of, observe_all-run,
}
use powerlink_rs.Dll.MnCounters.{mn_new}
use powerlink_rs.Dll.MnCounters.General.{actions, has_reset, actions-mn_new}

abbrev cs_cycle : List CsMachine.DllCsEvent
cs_cycle = CsMachine.soc ∷ CsMachine.pres ∷ CsMachine.preq ∷ CsMachine.soa ∷ CsMachine.asnd ∷ []

run-clean_iff_Traffic_example :
    ((Cycle.run operational cs_cycle CsMachine.wait_soc).0 ≡ true)
    ↔ Traffic CsMachine.wait_soc cs_cycle (Cycle.run operational cs_cycle CsMachine.wait_soc).1
run-clean_iff_Traffic_example =
    run-clean_iff_Traffic operational cs_cycle CsMachine.wait_soc (unfold is_cyclic in refl)

run-synchronised_example :
    (Cycle.run operational
      ((CsMachine.preq ∷ CsMachine.soa ∷ []) ++ CsMachine.soc ∷ CsMachine.preq ∷ CsMachine.soa ∷ [])
      CsMachine.wait_soa).1
    ≡ CsMachine.wait_soc
run-synchronised_example =
    run-synchronised operational (CsMachine.preq ∷ CsMachine.soa ∷ [])
      (CsMachine.preq ∷ CsMachine.soa ∷ []) CsMachine.wait_soa CsMachine.wait_soc
      (unfold is_cyclic in refl) (Traffic.polled (Traffic.ends Traffic.stops))

abbrev last_poll : CycleFlags
last_poll = record {
  response_expected = false;
  async_in = true;
  async_out = false;
  isochr = false;
  isochr_out = true;
  dest_node_id = 7;
}

process_event-phase_example :
    MsMachine.process_event MsMachine.pres_timeout operational last_poll MsMachine.wait_pres
    ≡ (phase false true, some (DllError.loss_of_pres 7 ∷ []))
process_event-phase_example =
    process_event-phase operational MsMachine.pres_timeout MsMachine.wait_pres last_poll
      (some (DllError.loss_of_pres 7 ∷ [])) (unfold is_isochronous in refl) node_silent

abbrev ticks : List Tick
ticks = bad_cycle ∷ good_cycle ∷ bad_cycle ∷ good_cycle ∷ bad_cycle ∷ []

run_refines_example :
    (((Rate.run ticks (new_counter 15)).0, (Rate.run ticks (new_counter 15)).1.threshold_cnt)
      ≡ level_run 15 ticks 0)
    × IsSound (Rate.run ticks (new_counter 15)).1
unfolding new_counter
run_refines_example =
    run_refines ticks (new_counter 15) (record { below = omega arith; room = omega arith })

run-spaced_example : (Rate.run (spaced (8 ∷ 9 ∷ 8 ∷ [])) (new_counter 15)).0 ≡ 0
run-spaced_example =
    run-spaced 15 (8 ∷ 9 ∷ 8 ∷ []) (omega arith) (omega arith)
      (omega arith, (omega arith, (omega arith, tt)))

run_two_errors_example :
    (Rate.run (spaced (1 ∷ 0 ∷ [])) (new_counter 15)).0 ≡ (if leb 1 1 then 1 else 0)
run_two_errors_example = run_two_errors 1

abbrev reports : List Report
reports =
    failed DllError.loss_of_soc ∷ failed DllError.crc ∷ completed ∷ failed DllError.loss_of_soc ∷ []

observe_all-run_example :
    ((observe_all soc reports cn_new).0
      ≡ (Rate.run (ticks_of soc reports) (counter_of soc cn_new)).0)
    × (counter_of soc (observe_all soc reports cn_new).1
        ≡ (Rate.run (ticks_of soc reports) (counter_of soc cn_new)).1)
observe_all-run_example = observe_all-run soc reports cn_new

actions-mn_new_example : has_reset (actions reports mn_new) ≡ false
actions-mn_new_example = actions-mn_new reports
