-- ===== src/Sdo/Server/Sound/Connection.antt =====
-- The sequence layer leaves a reachable state.
use powerlink_rs.Common.{
  ℕ, ◌+◌, ◌%◌, ◌==◌, ◌&&◌, Bool, true, false, if◌then◌else◌, inl, inr, Bool-cases,
}
use powerlink_rs.Sdo.Handler.{
  SdoSequenceHandler, SdoServerState, acknowledge, on_closed, on_opening, on_open, send_con_eq,
  closed, opening, established, segmented_download, segmented_upload, process_sequence_layer,
}
use powerlink_rs.Sdo.Server.Sound.{Reachable}
use powerlink_rs.Sdo.Sequence.{SequenceLayerHeader, initializing, valid}
use powerlink_rs.Sdo.Server.Sound.Writes.{Reachable-cases}

acknowledge-Reachable : (a b : ℕ) (s : SdoServerState) → Reachable s → Reachable (acknowledge a b s)
unfolding acknowledge Reachable
acknowledge-Reachable a b closed v = tt
acknowledge-Reachable a b opening v = tt
acknowledge-Reachable a b established v = tt
acknowledge-Reachable a b (segmented_download t) v = absurd v
acknowledge-Reachable a b (segmented_upload t) v = elim (Bool-cases (a == b)) [
  | inl q ↦ rw q (record { sized = v.sized; inside = v.inside })
  | inr q ↦ rw q v
]

either-Reachable :
    {A : Type 0} (b : Bool) (x y : A × SdoSequenceHandler)
    → Reachable x.1.state
    → Reachable y.1.state
    → Reachable (if b then x else y).1.state
either-Reachable true x y v w = v
either-Reachable false x y v w = w

module _ (request : SequenceLayerHeader) (h : SdoSequenceHandler) where
  on_closed-Reachable : Reachable h.state → Reachable (on_closed request h).1.state
  unfolding on_closed Reachable
  on_closed-Reachable v = either-Reachable (send_con_eq request.send_con initializing) _ _ tt v

  on_opening-Reachable : Reachable (on_opening request h).1.state
  unfolding on_opening Reachable
  on_opening-Reachable =
      either-Reachable
        (send_con_eq request.send_con valid
          && request.receive_sequence_number == h.send_sequence_number)
        _ _ tt tt

  on_open-Reachable : Reachable h.state → Reachable (on_open request h).1.state
  unfolding on_open
  on_open-Reachable v =
      elim (Bool-cases (request.send_sequence_number == h.last_received_sequence_number)) [
        | inl q ↦ rw (on_open, q) v
        | inr q ↦
            elim (Bool-cases
              (request.send_sequence_number == (h.last_received_sequence_number + 1) % 256 % 64)) [
                | inl r ↦
                    rw (on_open, q, r)
                      (acknowledge-Reachable request.receive_sequence_number h.send_sequence_number
                        h.state v)
                | inr r ↦ rw (on_open, q, r) v
              ]
      ]

  -- The sequence layer opens, closes or keeps a connection, and starts no transfer.
  pub process_sequence_layer-Reachable :
      Reachable h.state → Reachable (process_sequence_layer request h).1.state
  unfolding process_sequence_layer
  process_sequence_layer-Reachable v = elim (Reachable-cases h.state v) [
    | inl q ↦ rw (process_sequence_layer, q) (on_closed-Reachable v)
    | inr (inl q) ↦ rw (process_sequence_layer, q) on_opening-Reachable
    | inr (inr (inl q)) ↦ rw (process_sequence_layer, q) (on_open-Reachable v)
    | inr (inr (inr (t, q, u))) ↦ rw (process_sequence_layer, q) (on_open-Reachable v)
  ]
