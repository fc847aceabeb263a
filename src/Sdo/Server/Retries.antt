-- ===== src/Sdo/Server/Retries.antt =====
-- The retransmissions of an upload by `tick`, from its last segment to the abort.
use powerlink_rs.Common.{
  ℕ, zero, suc, ◌-◌, ◌<◌, ◌≤◌, ◌≡◌, refl, ap, true, false, leb, ltb, some, none, Option, List, [],
  ◌∷◌, ◌++◌, Result, ok, err, arith, replicate,
}
use powerlink_rs.Hal.{PowerlinkError}
use powerlink_rs.Od.Dictionary.{ObjectDictionary}
use powerlink_rs.Sdo.Sequence.{SequenceLayerHeader, not_connected, valid_ack_request}
use powerlink_rs.Sdo.Command.{SdoCommand}
use powerlink_rs.Sdo.Transfer.{SdoTransferState, deadline_from}
use powerlink_rs.Sdo.Handler.{SdoSequenceHandler, segmented_upload, reset}
use powerlink_rs.Sdo.Handlers.{abort_command}
use powerlink_rs.Sdo.Server.Tick.{own_header, tick, tick_upload, time_out}

-- A frame that the server sends of its own.
abbrev pub Sent : Type 0
Sent = SequenceLayerHeader × SdoCommand

-- What a tick sends or fails with; most ticks do neither.
abbrev noted : Result (Option Sent) PowerlinkError → List (Result Sent PowerlinkError)
noted (ok none) = []
noted (ok (some frame)) = ok frame ∷ []
noted (err e) = err e ∷ []

-- An upload that waits for the acknowledgement of its last segment.
abbrev pub waiting : SdoTransferState → SdoCommand → ℕ → ℕ → SdoTransferState
waiting t segment deadline retries = record t {
  deadline_us = some deadline;
  retransmissions_left = retries;
  last_sent_segment = some segment;
}

abbrev pub uploading : SdoSequenceHandler → SdoTransferState → SdoSequenceHandler
uploading h t = record h { state = segmented_upload t }

module _ {S : Type 0} (od : ObjectDictionary S) where
  -- Ticks at some times.
  unfoldable pub ticks :
      List ℕ → SdoSequenceHandler → List (Result Sent PowerlinkError) × SdoSequenceHandler
  unfolding tick
  ticks [] h = ([], h)
  ticks (now ∷ times) h =
      let (answer, h') = tick now od h in
      let (answers, last) = ticks times h' in (noted answer ++ answers, last)

  -- The times of ticks until an upload is given up: any number before each deadline, and one at or
  -- after it, which sets the next deadline, for each retransmission and for the end.
  pub data Timeouts : ℕ → ℕ → List ℕ → Type 0 where
    early :
        {deadline retries now : ℕ} {times : List ℕ}
        → now < deadline
        → Timeouts deadline retries times
        → Timeouts deadline retries (now ∷ times)
    again :
        {deadline retries now : ℕ} {times : List ℕ}
        → deadline ≤ now
        → Timeouts (deadline_from od now) retries times
        → Timeouts deadline (suc retries) (now ∷ times)
    given_up : {deadline now : ℕ} → deadline ≤ now → Timeouts deadline 0 (now ∷ [])

  module _ (h : SdoSequenceHandler) (t : SdoTransferState) (segment : SdoCommand) where
    tick_early :
        (now deadline retries : ℕ)
        → now < deadline
        → tick now od (uploading h (waiting t segment deadline retries))
          ≡ (ok none, uploading h (waiting t segment deadline retries))
    unfolding tick
    tick_early now deadline retries before =
        let q : leb deadline now ≡ false = ground arith in rw q refl

    tick_again :
        (now deadline retries : ℕ)
        → deadline ≤ now
        → tick now od (uploading h (waiting t segment deadline (suc retries))) ≡ (
          ok (some (own_header valid_ack_request h, segment)),
          uploading h (waiting t segment (deadline_from od now) retries),
        )
    unfolding tick tick_upload
    tick_again now deadline retries late =
        let q : leb deadline now ≡ true = ground arith in
        let p : ltb 0 (suc retries) ≡ true = ground arith in
        let m : suc retries - 1 ≡ retries = omega arith in
        rw (q, tick_upload, p)
          (ap
            (λ n. (
              ok (some (own_header valid_ack_request h, segment)),
              uploading h (waiting t segment (deadline_from od now) n),
            ))
            m)

    tick_given_up :
        (now deadline : ℕ)
        → deadline ≤ now
        → tick now od (uploading h (waiting t segment deadline 0)) ≡ time_out t h
    unfolding tick tick_upload time_out reset
    tick_given_up now deadline late = let q : leb deadline now ≡ true = ground arith in rw q refl

    -- An upload whose last segment is not acknowledged sends it once more at the first tick at or
    -- after each deadline, with the same numbers, as often as it has retransmissions left, and
    -- nothing at the ticks before; at the next deadline it sends the abort and closes the
    -- connection.
    pub ticks-retries :
        (deadline retries : ℕ) (times : List ℕ)
        → Timeouts deadline retries times
        → ticks times (uploading h (waiting t segment deadline retries)) ≡ (
          replicate retries (ok (own_header valid_ack_request h, segment))
              ++ ok (own_header not_connected (reset h), abort_command t.transaction_id 0x05040000)
                ∷ [],
          reset h,
        )
    unfolding ticks
    ticks-retries deadline retries [] v = elim v [ ]
    ticks-retries deadline retries (now ∷ times) (early e v) =
        rw (tick_early now deadline retries e, ticks-retries deadline retries times v) refl
    ticks-retries deadline (suc retries) (now ∷ times) (again e v) =
        rw (tick_again now deadline retries e, ticks-retries (deadline_from od now) retries times v)
          refl
    ticks-retries deadline zero (now ∷ []) (given_up e) = rw (tick_given_up now deadline e) refl
