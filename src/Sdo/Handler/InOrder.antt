-- ===== src/Sdo/Handler/InOrder.antt =====
-- An open SDO connection takes the frames of its client in order, each once.
use powerlink_rs.Common.{
  ℕ, zero, suc, ◌+◌, ◌%◌, ◌<◌, ◌≡◌, refl, ◌∙◌, subst, ◌==◌, ◌⊎◌, Bool, true, false, if◌then◌else◌,
  List, [], ◌∷◌, arith, length, Bool-cases, inl, inr,
}
use powerlink_rs.Sdo.Sequence.{SequenceLayerHeader}
use powerlink_rs.Sdo.Handler.{
  SdoServerState, closed, opening, established, segmented_download, segmented_upload,
  SdoSequenceHandler, on_open, acknowledge, increment_send_seq, process_sequence_layer,
}

-- The states of an open connection.
unfoldable pub is_open : SdoServerState → Bool
is_open closed = false
is_open opening = false
is_open _ = true

-- The numbers that follow one another modulo 64.
unfoldable pub following : ℕ → ℕ → List ℕ
following last zero = []
following last (suc n) = let next = (last + 1) % 64 in next ∷ following next n

-- The numbers of the frames that are taken from a list of requests, answered or refused, and the
-- handler at the end.
unfoldable pub run : List SequenceLayerHeader → SdoSequenceHandler → List ℕ × SdoSequenceHandler
run [] h = ([], h)
run (r ∷ rs) h =
    let h' = (process_sequence_layer r h).1 in
    let (taken, h'') = run rs h' in
    (
      if h'.last_received_sequence_number == h.last_received_sequence_number
          then taken
          else r.send_sequence_number ∷ taken,
      h'',
    )

acknowledge-is_open :
    (a b : ℕ) (s : SdoServerState) → is_open s ≡ true → is_open (acknowledge a b s) ≡ true
unfolding acknowledge is_open
acknowledge-is_open a b closed o = absurd (ground arith)
acknowledge-is_open a b opening o = absurd (ground arith)
acknowledge-is_open a b established o = refl
acknowledge-is_open a b (segmented_download t) o = refl
acknowledge-is_open a b (segmented_upload t) o = ground arith

-- One request: nothing changes, or the next frame is taken and answered with the next number.
on_open_lem :
    (r : SequenceLayerHeader) (h : SdoSequenceHandler)
    → is_open h.state ≡ true
    → let h' = (on_open r h).1 in
      (h' ≡ h)
      ⊎ ((is_open h'.state ≡ true)
          × (r.send_sequence_number ≡ h'.last_received_sequence_number)
          × (h'.last_received_sequence_number ≡ (h.last_received_sequence_number + 1) % 256 % 64)
          × (h'.send_sequence_number ≡ (h.send_sequence_number + 1) % 256 % 64))
unfolding on_open is_open acknowledge increment_send_seq
on_open_lem r h o =
    let last = h.last_received_sequence_number in
    let kept = acknowledge-is_open r.receive_sequence_number h.send_sequence_number h.state o in
    elim (Bool-cases (r.send_sequence_number == last)) [
      | inl q ↦ inl (rw (q, on_open))
      | inr q ↦ elim (Bool-cases (r.send_sequence_number == ((last + 1) % 256 % 64))) [
        | inl p ↦ inr (
          ground (arith, q, p, kept),
          ground (arith, q, p),
          ground (arith, q, p),
          ground (arith, q, p),
        )
        | inr p ↦ inl (rw (q, p, on_open))
      ]
    ]

process_open :
    (r : SequenceLayerHeader) (h : SdoSequenceHandler)
    → is_open h.state ≡ true
    → process_sequence_layer r h ≡ on_open r h
unfolding process_sequence_layer is_open
process_open r h o = ground arith

following_sent :
    (old next n final : ℕ)
    → next ≡ (old + 1) % 64
    → final ≡ (next + n) % 64
    → final ≡ (old + suc n) % 64
following_sent old next n final h k = omega arith

==-self : (n : ℕ) → (n == n) ≡ true
==-self n = ground arith

step-256 : (n : ℕ) → n < 64 → (n + 1) % 256 % 64 ≡ (n + 1) % 64
step-256 n h = omega arith

-- Under `process_sequence_layer` alone, an open connection stays open on every list of headers. A
-- header is taken if it moves the number last received. The numbers taken follow the one last
-- received before, each once and without a gap, and the number that the connection sends goes on
-- by one for each of them.
pub run-following :
    (rs : List SequenceLayerHeader) (h : SdoSequenceHandler)
    → is_open h.state ≡ true
    → h.last_received_sequence_number < 64
    → h.send_sequence_number < 64
    → let (taken, h') = run rs h in
      (is_open h'.state ≡ true)
      × (taken ≡ following h.last_received_sequence_number (length taken))
      × (h'.send_sequence_number ≡ (h.send_sequence_number + length taken) % 64)
unfolding run following
run-following [] h o l s = (o, refl, omega arith)
run-following (r ∷ rs) h o l s =
    let same = process_open r h o in
    elim (on_open_lem r h o) [
      | inl q ↦
          let stays : (process_sequence_layer r h).1 ≡ h = rw same q in
          rw (stays, ==-self h.last_received_sequence_number) (run-following rs h o l s)
      | inr (open_next, ssn, last, send) ↦
          let next = (on_open r h).1 in
          let moved : (next.last_received_sequence_number == h.last_received_sequence_number)
              ≡ false =
            ground (arith, last) in
          let last' = last ∙ step-256 _ l in
          let send' = send ∙ step-256 _ s in
          let (stays_open, order, sent) =
            run-following rs next open_next (omega arith) (omega arith) in
          let tail : (run rs next).0
              ≡ following ((h.last_received_sequence_number + 1) % 64) (length (run rs next).0) =
            subst (λ m. (run rs next).0 ≡ following m (length (run rs next).0)) last' order in
          rw (same, moved)
            (
              stays_open,
              ground (arith, tail, ssn, last'),
              following_sent h.send_sequence_number next.send_sequence_number _ _ send' sent,
            )
    ]
