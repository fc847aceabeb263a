-- ===== src/Sdo/Server/Life.antt =====
-- An SDO server from its start, through any requests and timeouts.
use Prim.Native.String.{String}
use powerlink_rs.Common.{
  ℕ, Bool, ltb, Option, none, some, List, [], ◌∷◌, Bool-cases, Option-cases, inl, inr,
}
use powerlink_rs.Od.Dictionary.{StorageBackend, ObjectDictionary}
use powerlink_rs.Sdo.Transfer.{SdoTransferState}
use powerlink_rs.Sdo.Transfer.Upload.{IsUpload}
use powerlink_rs.Sdo.Handler.{SdoSequenceHandler, new, reset}
use powerlink_rs.Sdo.Server.{SdoCommandHandler, Response}
use powerlink_rs.Sdo.Server.Tick.{is_due, time_out, tick_upload, tick}
use powerlink_rs.Sdo.Server.Requests.{handle_request}
use powerlink_rs.Sdo.Server.Sound.{Reachable}
use powerlink_rs.Sdo.Server.Sound.Writes.{Reachable-cases}
use powerlink_rs.Sdo.Server.NoPanic.{IsServed, handle_request-IsServed}

-- A call of the node, at a time and with the dictionary as it then is; the application answers as
-- it does in the state that it is then in.
pub data Event (S : Type 0) : Type 0 where
  received : SdoCommandHandler S → List ℕ → ℕ → ObjectDictionary S → Event S
  elapsed : ℕ → ObjectDictionary S → Event S

-- The connection after a response; `none` is a panic.
abbrev pub connection : {S : Type 0} → Response S → Option SdoSequenceHandler
connection none = none
connection (some (r, h, od)) = some h

module _ {S : Type 0} (backend : StorageBackend S) (is_utf8 : List ℕ → Bool)
    (text_bytes : String → List ℕ) where
  unfoldable pub on_event : Event S → SdoSequenceHandler → Option SdoSequenceHandler
  unfolding handle_request tick
  on_event (received application request now od) h =
      connection (handle_request backend is_utf8 text_bytes application request od now h)
  on_event (elapsed now od) h = some (tick now od h).1

  -- The connection after some calls, none of which panics.
  unfoldable pub live : List (Event S) → SdoSequenceHandler → Option SdoSequenceHandler
  unfolding on_event
  live [] h = some h
  live (e ∷ es) h = elim (on_event e h) [ none ↦ none | some h' ↦ live es h' ]

-- No panic, and a state that is reachable.
unfoldable pub IsLive : Option SdoSequenceHandler → Type 0
IsLive none = ⊥
IsLive (some h) = Reachable h.state

connection-IsLive : {S : Type 0} (r : Response S) → IsServed r → IsLive (connection r)
unfolding IsServed IsLive
connection-IsLive none v = v
connection-IsLive (some (r, h, od)) v = v

bind-IsLive :
    (r : Option SdoSequenceHandler) (f : SdoSequenceHandler → Option SdoSequenceHandler)
    → IsLive r
    → ((h : SdoSequenceHandler) → Reachable h.state → IsLive (f h))
    → IsLive (elim r [ none ↦ none | some h ↦ f h ])
unfolding IsLive
bind-IsLive none f v g = absurd v
bind-IsLive (some h) f v g = g h v

time_out-Reachable :
    (t : SdoTransferState) (h : SdoSequenceHandler) → Reachable (time_out t h).1.state
unfolding time_out reset Reachable
time_out-Reachable t h = tt

module _ {S : Type 0} (now : ℕ) (od : ObjectDictionary S) (h : SdoSequenceHandler) where
  tick_upload-Reachable :
      (t : SdoTransferState) → IsUpload t → Reachable (tick_upload now od t h).1.state
  unfolding tick_upload Reachable
  tick_upload-Reachable t u = elim (Bool-cases (ltb 0 t.retransmissions_left)) [
    | inl q ↦ elim (Option-cases t.last_sent_segment) [
      | inl r ↦ rw (tick_upload, q, r) (record { sized = u.sized; inside = u.inside })
      | inr (c, r) ↦ rw (tick_upload, q, r) (record { sized = u.sized; inside = u.inside })
    ]
    | inr q ↦ rw (tick_upload, q) (time_out-Reachable t h)
  ]

  tick-Reachable : Reachable h.state → Reachable (tick now od h).1.state
  unfolding tick
  tick-Reachable v = elim (Reachable-cases h.state v) [
    | inl q ↦ rw (tick, q) v
    | inr (inl q) ↦ rw (tick, q) v
    | inr (inr (inl q)) ↦ rw (tick, q) v
    | inr (inr (inr (t, q, u))) ↦ elim (Bool-cases (is_due t.deadline_us now)) [
      | inl r ↦ rw (tick, q, r) (tick_upload-Reachable t u)
      | inr r ↦ rw (tick, q, r) v
    ]
  ]

module _ {S : Type 0} (backend : StorageBackend S) (is_utf8 : List ℕ → Bool)
    (text_bytes : String → List ℕ) where
  on_event-IsLive :
      (e : Event S) (h : SdoSequenceHandler)
      → Reachable h.state
      → IsLive (on_event backend is_utf8 text_bytes e h)
  unfolding on_event IsLive
  on_event-IsLive (received application request now od) h v =
      connection-IsLive _
        (handle_request-IsServed backend is_utf8 text_bytes application request od now h v)
  on_event-IsLive (elapsed now od) h v = tick-Reachable now od h v

  live-IsLive :
      (es : List (Event S)) (h : SdoSequenceHandler)
      → Reachable h.state
      → IsLive (live backend is_utf8 text_bytes es h)
  unfolding live IsLive
  live-IsLive [] h v = v
  live-IsLive (e ∷ es) h v =
      bind-IsLive (on_event backend is_utf8 text_bytes e h) (live backend is_utf8 text_bytes es)
        (on_event-IsLive e h v) (λ h' w. live-IsLive es h' w)

  -- From its start, a server that gets any octets as requests, with an application that may change
  -- between the calls, and ticks at any times, whatever the dictionary, never reads outside the
  -- octets of a request, a command, a payload, a value or an upload; it ends closed, opening or
  -- established, or in an upload whose offset lies in its buffer, and not in a download.
  pub live_from_new : (es : List (Event S)) → IsLive (live backend is_utf8 text_bytes es new)
  unfolding new Reachable
  live_from_new es = live-IsLive es new tt
