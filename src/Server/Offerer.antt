-- ===== src/Server/Offerer.antt =====
-- server/offerer.go: `OffererServer`.
-- A state holds the two maps, the channels made so far, the two routers and every goroutine that
-- serves a call, each at the point where it waits. An event is one of them going on: the channel
-- operation, timer or stream result that it waited for, chosen by the environment in any order.
-- `none` means that the event cannot happen in that state. What the server sends to the other
-- services comes back as an `Output`.
mod State
pub mod Owners
pub mod Calls
pub mod Routers
pub mod Routing
pub mod Blocked
pub mod Deadlock
pub mod Answers
pub mod Offers
pub mod Counts
pub mod Lifetimes
pub mod Expiry
mod Tests
unfoldable pub use State.*
use yamrp.Prelude.{
  List, Option, String, [], erase, if◌then◌else◌, insert, none, some, suc, ℕ, ◌==◌, ◌∷◌,
}
use yamrp.Errors.{Error, deadline_exceeded, eof, not_found, status}
use yamrp.Server.Packets.{AnsPacket, IcePacket}

abbrev pub Step : Type 0
Step = Option (OffererServer × Output)

-- `SendOffer` up to its first select. The identifiers are those that uuid.New returned.
pub send_offer : (host offer ans off : String) → OffererServer → Step
send_offer host offer ans off s =
    let registered = record s {
      ice_chans = insert s.ice_chans ans s.made;
      ans_chans = insert s.ans_chans ans (suc s.made);
      made = suc (suc s.made);
    } in
    some (spawn (notifying host offer ans off) (spawn (sleeping ans) registered), silent)

-- The sleep of `SendOffer`'s goroutine is over.
pub clean_up : ℕ → Thread → OffererServer → Step
clean_up i (sleeping ans) s = some (
  goes i absent (record s { ice_chans = erase s.ice_chans ans; ans_chans = erase s.ans_chans ans }),
  silent,
)
clean_up i _ s = none

-- The host service takes the signal.
pub notify : ℕ → Thread → OffererServer → Step
notify i (notifying host offer ans off) s =
    some (goes i (offering_ host offer ans off) s, notify_host host)
notify i _ s = none

-- The answerer service takes the offer.
pub offer_taken : ℕ → Thread → OffererServer → Step
offer_taken i (offering_ host offer ans off) s = some (
  goes i (returned (offer_response off ans)) s,
  send_offering (record { host_id = host; answerer_id = ans; offer = offer }),
)
offer_taken i _ s = none

abbrev timeout : Reply
timeout = failed (Error.status deadline_exceeded)

-- `<-ctx.Done()` is chosen in a select.
pub ctx_done : ℕ → Thread → OffererServer → Step
ctx_done i (notifying host offer ans off) s = some (goes i (returned timeout) s, silent)
ctx_done i (offering_ host offer ans off) s = some (goes i (returned timeout) s, silent)
ctx_done i (waiting_answer ans ch) s = some (goes i (returned timeout) s, silent)
ctx_done i (waiting_ice ans ch) s = some (goes i (closing_ice ans closed_stream) s, silent)
ctx_done i receiving s = some (spawn left_receiving (goes i (returned timeout) s), silent)
ctx_done i (pushing p) s = some (spawn (left_pushing p) (goes i (returned timeout) s), silent)
ctx_done i _ s = none

-- `WaitForAnswer` up to its select
pub wait_for_answer : String → OffererServer → Step
wait_for_answer ans s = elim (s.ans_chans ans) [
  | none ↦ some (spawn (returned (failed (Error.status not_found))) s, silent)
  | some ch ↦ some (spawn (waiting_answer ans ch) s, silent)
]

-- `WaitForICECandidate` up to its select
pub wait_for_ice_candidate : String → OffererServer → Step
wait_for_ice_candidate ans s = elim (s.ice_chans ans) [
  | none ↦ some (spawn (returned (failed (Error.status not_found))) s, silent)
  | some ch ↦ some (spawn (waiting_ice ans ch) s, silent)
]

-- `answerRouter` receives a packet.
pub route_answer : AnsPacket → OffererServer → Router AnsPacket → Step
route_answer p s idle = elim (s.ans_chans p.answerer_id) [
  | none ↦ some (s, silent)
  | some ch ↦ some (record s { ans_router = forwarding ch p }, silent)
]
route_answer p s _ = none

-- `iceCandidateRouter` receives a packet.
pub route_ice : IcePacket → OffererServer → Router IcePacket → Step
route_ice p s idle = elim (s.ice_chans p.answerer_id) [
  | none ↦ some (s, silent)
  | some ch ↦ some (record s { ice_router = forwarding ch p }, silent)
]
route_ice p s _ = none

-- The send of `answerRouter` meets the receive of a `WaitForAnswer` on the same channel.
pub deliver_answer : ℕ → Thread → Router AnsPacket → OffererServer → Step
deliver_answer i (waiting_answer ans ch) (forwarding to p) s =
    if ch == to
    then some
        (goes i (returned (answer_response p.answer)) (record s { ans_router = idle }), silent)
    else none
deliver_answer i _ _ s = none

-- The send of `iceCandidateRouter` meets the receive of a `WaitForICECandidate`.
pub deliver_ice : ℕ → Thread → Router IcePacket → OffererServer → Step
deliver_ice i (waiting_ice ans ch) (forwarding to p) s =
    if ch == to
    then some (goes i (sending_ice ans ch p.ice_candidate) (record s { ice_router = idle }), silent)
    else none
deliver_ice i _ _ s = none

-- The result of `srv.Send`
pub ice_sent : ℕ → Thread → Option Error → OffererServer → Step
ice_sent i (sending_ice ans ch ice) none s = some (goes i (waiting_ice ans ch) s, silent)
ice_sent i (sending_ice ans ch ice) (some eof) s =
    some (goes i (closing_ice ans closed_stream) s, silent)
ice_sent i (sending_ice ans ch ice) (some e) s =
    some (goes i (closing_ice ans (failed e)) s, silent)
ice_sent i _ _ s = none

-- The deferred function of `WaitForICECandidate`: the answerer service takes the signal.
pub ice_closed : ℕ → Thread → OffererServer → Step
ice_closed i (closing_ice ans r) s =
    some (goes i (returned r) (record s { ice_chans = erase s.ice_chans ans }), close_ice ans)
ice_closed i _ s = none

-- `SendIceCandidate`: the goroutine's `Recv` returns a message or none. Its error is only logged,
-- and the loop starts over.
pub ice_received : ℕ → Thread → Option IcePacket → OffererServer → Step
ice_received i receiving none s = some (s, silent)
ice_received i receiving (some p) s = some (goes i (pushing p) s, silent)
ice_received i left_receiving none s = some (goes i stuck s, silent)
ice_received i left_receiving (some p) s = some (goes i (left_pushing p) s, silent)
ice_received i _ m s = none

-- The goroutine's send on iceToAnswerCh is done, and the loop starts over.
pub ice_pushed : ℕ → Thread → OffererServer → Step
ice_pushed i (pushing p) s = some (goes i receiving s, push_ice p)
ice_pushed i (left_pushing p) s = some (goes i stuck s, push_ice p)
ice_pushed i _ s = none

pub data Event : Type 0 where
  -- calls
  sends_offer : (host offer ans off : String) → Event
  waits_for_answer waits_for_ice : String → Event
  sends_ice : Event
  -- a goroutine goes on
  sleep_ends notified offered ctx_ends ice_closes ice_goes : ℕ → Event
  ice_send_returns : ℕ → Option Error → Event
  ice_recv_returns : ℕ → Option IcePacket → Event
  -- the routers
  answer_arrives : AnsPacket → Event
  ice_arrives : IcePacket → Event
  answer_meets ice_meets : ℕ → Event

unfoldable pub step : Event → OffererServer → Step
unfolding send_offer clean_up notify offer_taken ctx_done wait_for_answer wait_for_ice_candidate
    route_answer route_ice deliver_answer deliver_ice ice_sent ice_closed ice_received ice_pushed
step (sends_offer host offer ans off) s = send_offer host offer ans off s
step (waits_for_answer ans) s = wait_for_answer ans s
step (waits_for_ice ans) s = wait_for_ice_candidate ans s
step sends_ice s = some (spawn receiving s, silent)
step (sleep_ends i) s = clean_up i (s.threads i) s
step (notified i) s = notify i (s.threads i) s
step (offered i) s = offer_taken i (s.threads i) s
step (ctx_ends i) s = ctx_done i (s.threads i) s
step (ice_closes i) s = ice_closed i (s.threads i) s
step (ice_goes i) s = ice_pushed i (s.threads i) s
step (ice_send_returns i e) s = ice_sent i (s.threads i) e s
step (ice_recv_returns i m) s = ice_received i (s.threads i) m s
step (answer_arrives p) s = route_answer p s s.ans_router
step (ice_arrives p) s = route_ice p s s.ice_router
step (answer_meets i) s = deliver_answer i (s.threads i) s.ans_router s
step (ice_meets i) s = deliver_ice i (s.threads i) s.ice_router s

-- A schedule; `none` if some event of it cannot happen when its turn comes.
unfoldable pub run : List Event → OffererServer → Option OffererServer
run [] s = some s
run (e ∷ es) s = elim (step e s) [ none ↦ none | some (s', out) ↦ run es s' ]
