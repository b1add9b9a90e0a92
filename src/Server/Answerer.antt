-- ===== src/Server/Answerer.antt =====
-- server/anserer.go: `AnswererServerImpl`.
-- The model is built as that of the offerer service: every goroutine stands in a table at the point
-- where it waits, an event is one of them going on, and `none` means that the event cannot happen.
mod State
pub mod Frames
pub mod Owners
pub mod Reachable
pub mod Routing
pub mod Jam
pub mod Stops
pub mod Offers
pub mod Threads
pub mod Counts
pub mod Answers
pub mod Deaf
mod Tests
unfoldable pub use State.*
use yamrp.Prelude.{Option, String, erase, none, some, update, ℕ}
use yamrp.Errors.{Error, deadline_exceeded, eof, not_found, status}
use yamrp.Chan.{Chan, receive, send}
use yamrp.Server.Packets.{AnsPacket, IcePacket, Offering}

abbrev pub Step : Type 0
Step = Option (AnswererServer × Output)

-- WaitForOffer up to its select
pub wait_for_offer : String → AnswererServer → AnswererServer
wait_for_offer host s = elim (s.waiting_chs host) [
  | none ↦ spawn (waiting_offer host s.made_offers) (make_offers host s)
  | some ch ↦ spawn (waiting_offer host ch) s
]

abbrev offer_received : ℕ → String → ℕ → AnswererServer → Option (Offering × Chan Offering) → Step
offer_received i host ch s none = none
offer_received i host ch s (some (o, c)) =
    some (goes i (noting host o) (record s { offers = update s.offers ch c }), silent)

-- WaitForOffer takes an offer from its channel.
pub take_offer : ℕ → Thread → AnswererServer → Step
unfolding receive
take_offer i (waiting_offer host ch) s = offer_received i host ch s (receive (s.offers ch))
take_offer i _ s = none

-- The second critical section of WaitForOffer, and its return
pub note_offer : ℕ → Thread → AnswererServer → Step
note_offer i (noting host o) s = elim (s.ice_chans o.answerer_id) [
  | none ↦ some (
    goes i (returned (offer_response o.answerer_id o.offer))
        (spawn (sleeping_ice o.answerer_id) (make_ices o.answerer_id s)),
    silent,
  )
  | some ch ↦ some (goes i (returned (offer_response o.answerer_id o.offer)) s, silent)
]
note_offer i _ s = none

-- The send of SendAnswer on answerCh is done.
pub send_answer : ℕ → Thread → AnswererServer → Step
send_answer i (answering p) s = some (goes i (returned answer_response) s, push_answer p)
send_answer i _ s = none

abbrev timeout : Reply
timeout = failed (Error.status deadline_exceeded)

-- The deferred function of WaitForICECandidate, and its return
pub close_ice : ℕ → String → Reply → AnswererServer → AnswererServer
close_ice i ans r s = goes i (returned r) (record s { ice_chans = erase s.ice_chans ans })

-- `<-ctx.Done()` is chosen in a select.
pub ctx_done : ℕ → Thread → AnswererServer → Step
unfolding close_ice
ctx_done i (waiting_offer host ch) s = some (goes i (returned timeout) s, silent)
ctx_done i (answering p) s = some (goes i (returned timeout) s, silent)
ctx_done i receiving s = some (spawn left_receiving (goes i (returned timeout) s), silent)
ctx_done i (pushing p) s = some (spawn (left_pushing p) (goes i (returned timeout) s), silent)
ctx_done i (waiting_ice ans ch) s = some (close_ice i ans closed_stream s, silent)
ctx_done i _ s = none

-- SendIceCandidate: the goroutine's Recv returns a message or none; its error is only logged, and
-- the loop starts over.
pub ice_received : ℕ → Thread → Option IcePacket → AnswererServer → Step
ice_received i receiving none s = some (s, silent)
ice_received i receiving (some p) s = some (goes i (pushing p) s, silent)
ice_received i left_receiving none s = some (goes i stuck s, silent)
ice_received i left_receiving (some p) s = some (goes i (left_pushing p) s, silent)
ice_received i _ m s = none

-- The goroutine's send on iceToOfferCh is done, and the loop starts over.
pub ice_pushed : ℕ → Thread → AnswererServer → Step
ice_pushed i (pushing p) s = some (goes i receiving s, push_ice p)
ice_pushed i (left_pushing p) s = some (goes i stuck s, push_ice p)
ice_pushed i _ s = none

-- WaitForICECandidate up to its select
pub wait_for_ice_candidate : String → AnswererServer → AnswererServer
wait_for_ice_candidate ans s = elim (s.ice_chans ans) [
  | none ↦ spawn (returned (failed (Error.status not_found))) s
  | some ch ↦ spawn (waiting_ice ans ch) s
]

abbrev ice_taken : ℕ → String → ℕ → AnswererServer → Option (String × Chan String) → Step
ice_taken i ans ch s none = none
ice_taken i ans ch s (some (ice, c)) =
    some (goes i (sending_ice ans ch ice) (record s { ices = update s.ices ch c }), silent)

-- WaitForICECandidate takes a candidate from its channel.
pub take_ice : ℕ → Thread → AnswererServer → Step
unfolding receive
take_ice i (waiting_ice ans ch) s = ice_taken i ans ch s (receive (s.ices ch))
take_ice i _ s = none

-- The result of srv.Send
pub ice_sent : ℕ → Thread → Option Error → AnswererServer → Step
unfolding close_ice
ice_sent i (sending_ice ans ch ice) none s = some (goes i (waiting_ice ans ch) s, silent)
ice_sent i (sending_ice ans ch ice) (some eof) s = some (close_ice i ans closed_stream s, silent)
ice_sent i (sending_ice ans ch ice) (some e) s = some (close_ice i ans (failed e) s, silent)
ice_sent i _ _ s = none

-- The sleep of a goroutine is over.
pub clean_up : ℕ → Thread → AnswererServer → Step
clean_up i (sleeping_offer host) s =
    some (goes i absent (record s { waiting_chs = erase s.waiting_chs host }), silent)
clean_up i (sleeping_ice ans) s =
    some (goes i absent (record s { ice_chans = erase s.ice_chans ans }), silent)
clean_up i _ s = none

-- offerRouter receives an offer.
pub route_offer : Offering → Router Offering → AnswererServer → Step
route_offer o idle s = elim (s.waiting_chs o.host_id) [
  | none ↦ some (
    spawn (sleeping_offer o.host_id)
        (record (make_offers o.host_id s) { offer_router = forwarding s.made_offers o }),
    silent,
  )
  | some ch ↦ some (record s { offer_router = forwarding ch o }, silent)
]
route_offer o _ s = none

abbrev offer_sent : ℕ → AnswererServer → Option (Chan Offering) → Step
offer_sent ch s none = none
offer_sent ch s (some c) =
    some (record s { offers = update s.offers ch c; offer_router = idle }, silent)

-- The send of offerRouter is done.
pub forward_offer : Router Offering → AnswererServer → Step
unfolding send
forward_offer (forwarding ch o) s = offer_sent ch s (send (s.offers ch) o)
forward_offer idle s = none

-- iceCandidateRouter receives a candidate.
pub route_ice : IcePacket → Router IcePacket → AnswererServer → Step
route_ice p idle s = elim (s.ice_chans p.answerer_id) [
  | none ↦ some (
    spawn (sleeping_ice p.answerer_id)
        (record (make_ices p.answerer_id s) { ice_router = forwarding s.made_ices p }),
    silent,
  )
  | some ch ↦ some (record s { ice_router = forwarding ch p }, silent)
]
route_ice p _ s = none

abbrev ice_forwarded : ℕ → AnswererServer → Option (Chan String) → Step
ice_forwarded ch s none = none
ice_forwarded ch s (some c) =
    some (record s { ices = update s.ices ch c; ice_router = idle }, silent)

-- The send of iceCandidateRouter is done.
pub forward_ice : Router IcePacket → AnswererServer → Step
unfolding send
forward_ice (forwarding ch p) s = ice_forwarded ch s (send (s.ices ch) p.ice_candidate)
forward_ice idle s = none

pub data Event : Type 0 where
  -- calls
  waits_for_offer : (host : String) → Event
  sends_answer : AnsPacket → Event
  sends_ice : Event
  waits_for_ice : (ans : String) → Event
  -- a goroutine goes on
  takes_offer notes_offer answered ctx_ends ice_goes takes_ice sleep_ends : ℕ → Event
  ice_recv_returns : ℕ → Option IcePacket → Event
  ice_send_returns : ℕ → Option Error → Event
  -- the routers
  offer_arrives : Offering → Event
  ice_arrives : IcePacket → Event
  offer_goes ice_forwards : Event
  -- iceCandidateRouter receives from recvCloseIceToAnsCh
  close_arrives : String → Event

-- The select of iceCandidateRouter on recvCloseIceToAnsCh does nothing.
pub close_received : Router IcePacket → AnswererServer → Step
close_received idle s = some (s, silent)
close_received (forwarding ch p) s = none

unfoldable pub step : Event → AnswererServer → Step
unfolding wait_for_offer take_offer note_offer send_answer ctx_done ice_received ice_pushed
    wait_for_ice_candidate take_ice ice_sent clean_up route_offer forward_offer route_ice
    forward_ice close_received
step (waits_for_offer host) s = some (wait_for_offer host s, silent)
step (sends_answer p) s = some (spawn (answering p) s, silent)
step sends_ice s = some (spawn receiving s, silent)
step (waits_for_ice ans) s = some (wait_for_ice_candidate ans s, silent)
step (takes_offer i) s = take_offer i (s.threads i) s
step (notes_offer i) s = note_offer i (s.threads i) s
step (answered i) s = send_answer i (s.threads i) s
step (ctx_ends i) s = ctx_done i (s.threads i) s
step (ice_goes i) s = ice_pushed i (s.threads i) s
step (takes_ice i) s = take_ice i (s.threads i) s
step (sleep_ends i) s = clean_up i (s.threads i) s
step (ice_recv_returns i m) s = ice_received i (s.threads i) m s
step (ice_send_returns i e) s = ice_sent i (s.threads i) e s
step (offer_arrives o) s = route_offer o s.offer_router s
step (ice_arrives p) s = route_ice p s.ice_router s
step offer_goes s = forward_offer s.offer_router s
step ice_forwards s = forward_ice s.ice_router s
step (close_arrives ans) s = close_received s.ice_router s
