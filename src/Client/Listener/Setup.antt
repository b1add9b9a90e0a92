-- ===== src/Client/Listener/Setup.antt =====
-- client/listener.go: `initWebRTCAsOfferer` once the offer is on its way, `setupWebRTC`, `Connect`.
use yamrp.Client.Listener.Exchange
use yamrp.Prelude.{Bool, List, Option, [], if◌then◌else◌, none, some, suc, true, zero, ℕ, ◌&&◌, ◌∷◌}
use yamrp.Errors.{Error, canceled, is_failure, other}
use yamrp.Chan.{Chan, make_chan, receive, send}
use yamrp.Async.{Future, await_unordered}
use yamrp.Client.Listener.Offer.{Offered, fails, panics, sent}
use yamrp.Client.Listener.Exchange.{Exchange, Loop, new_exchange, returned}
pub mod Outcome
pub mod Callbacks
mod Tests

-- errors.New("connection failed") and errors.New("failed to setup webrtc")
abbrev pub connection_failed : Error
connection_failed = other 1

abbrev pub setup_failed : Error
setup_failed = other 2

-- webrtc.PeerConnectionState, as far as the callback tells the states apart
pub data ConnectionState : Type 0 where
  connected failed other_state : ConnectionState

-- initWebRTCAsOfferer: waiting for the answer, at its select, returned.
pub data Place : Type 0 where
  awaiting selecting : Place
  ended : Option Error → Place

-- A future of an error: not resolved, resolved, and received from
pub data Pending : Type 0 where
  unresolved received : Pending
  resolved : Option Error → Pending

pub record Setup : Type 0 where
  pub place : Place
  pub answer : Pending  -- answerErrFut
  pub ice : Pending  -- errICE
  pub exchange : Exchange  -- its context is ctxSetup
  pub connected_sig : Chan (Unit {0})
  pub failed_sig : Chan (Unit {0})
  -- callbacks that wait in a send on one of the two
  pub connected_calls : ℕ
  pub failed_calls : ℕ

-- initAndSendOffer has returned an identifier; waitForAnswer and exchangeICE are started.
unfoldable pub begin : Setup
unfolding new_exchange
begin = record {
  place = awaiting;
  answer = unresolved;
  ice = unresolved;
  exchange = new_exchange;
  connected_sig = make_chan 1;
  failed_sig = make_chan 1;
  connected_calls = 0;
  failed_calls = 0;
}

-- initWebRTCAsOfferer up to its Await: it returns, it panics, or it waits.
pub data Started : Type 0 where
  gives_up : Option Error → Started
  crashes : Started
  waits : Setup → Started

abbrev start_offered : Offered → Started
start_offered (fails err) = gives_up err
start_offered panics = crashes
start_offered (sent answerer_id) = waits begin

-- on the error of NewPeerConnection and what initAndSendOffer returned
pub start : Option Error → Offered → Started
unfolding begin
start new_err offered = if is_failure new_err then gives_up new_err else start_offered offered

pub data Event : Type 0 where
  -- exchangeICE or its goroutine goes on, ctxSetup ends with the listener's context
  exchanges : Exchange.Event → Event
  answer_resolves : Option Error → Event
  -- exchangeICE has returned, and its future is resolved
  ice_resolves : Event
  -- OnConnectionStateChange is called; its send is done
  state_changes : ConnectionState → Event
  connected_pushes failed_pushes : Event
  -- initWebRTCAsOfferer: Await, and the cases of its select
  takes_answer takes_done takes_connected takes_failed takes_ice : Event

-- return err, with the deferred cancelSetup
abbrev finish : Option Error → Setup → Setup
finish r x = record x { place = ended r; exchange = record x.exchange { done = true } }

abbrev exchanged : Setup → Option (Exchange × Unit {0}) → Option Setup
exchanged x none = none
exchanged x (some (y, out)) = some (record x { exchange = y })

pub resolve_answer : Option Error → Pending → Setup → Option Setup
resolve_answer err unresolved x = some (record x { answer = resolved err })
resolve_answer err _ x = none

pub resolve_ice : Pending → Exchange.Loop → Setup → Option Setup
resolve_ice unresolved (Exchange.returned r) x = some (record x { ice = resolved r })
resolve_ice _ _ x = none

pub change_state : ConnectionState → Setup → Setup
change_state connected x = record x { connected_calls = suc x.connected_calls }
change_state failed x = record x { failed_calls = suc x.failed_calls }
change_state other_state x = x

abbrev connected_pushed : ℕ → Setup → Option (Chan (Unit {0})) → Option Setup
connected_pushed n x none = none
connected_pushed n x (some c) = some (record x { connected_sig = c; connected_calls = n })

-- connectedSig <- struct{}{}
pub push_connected : ℕ → Setup → Option Setup
unfolding send
push_connected zero x = none
push_connected (suc n) x = connected_pushed n x (send x.connected_sig tt)

abbrev failed_pushed : ℕ → Setup → Option (Chan (Unit {0})) → Option Setup
failed_pushed n x none = none
failed_pushed n x (some c) = some (record x { failed_sig = c; failed_calls = n })

-- connectionFailedSig <- struct{}{}
pub push_failed : ℕ → Setup → Option Setup
unfolding send
push_failed zero x = none
push_failed (suc n) x = failed_pushed n x (send x.failed_sig tt)

-- errAns := answerErrFut.Await()
pub await_answer : Place → Pending → Setup → Option Setup
await_answer awaiting (resolved none) x = some (record x { place = selecting; answer = received })
await_answer awaiting (resolved (some e)) x =
    some (finish (some e) (record x { answer = received }))
await_answer _ _ x = none

-- case <-ctxSetup.Done()
pub take_done : Place → Setup → Option Setup
take_done selecting x = if x.exchange.done then some (finish (some canceled) x) else none
take_done _ x = none

abbrev connected_taken : Setup → Option (Unit {0} × Chan (Unit {0})) → Option Setup
connected_taken x none = none
connected_taken x (some (u, c)) = some (finish none (record x { connected_sig = c }))

-- case <-connectedSig
pub take_connected : Place → Setup → Option Setup
unfolding receive
take_connected selecting x = connected_taken x (receive x.connected_sig)
take_connected _ x = none

abbrev failed_taken : Setup → Option (Unit {0} × Chan (Unit {0})) → Option Setup
failed_taken x none = none
failed_taken x (some (u, c)) = some (finish (some connection_failed) (record x { failed_sig = c }))

-- case <-connectionFailedSig
pub take_failed : Place → Setup → Option Setup
unfolding receive
take_failed selecting x = failed_taken x (receive x.failed_sig)
take_failed _ x = none

-- case err := <-errICE.Ch(); without an error the loop goes on
pub take_ice : Place → Pending → Setup → Option Setup
take_ice selecting (resolved none) x = some (record x { ice = received })
take_ice selecting (resolved (some e)) x = some (finish (some e) (record x { ice = received }))
take_ice _ _ x = none

pub next : Event → Setup → Option Setup
unfolding resolve_answer resolve_ice change_state push_connected push_failed await_answer take_done
    take_connected take_failed take_ice
next (exchanges e) x = exchanged x (Exchange.step e x.exchange)
next (answer_resolves err) x = resolve_answer err x.answer x
next ice_resolves x = resolve_ice x.ice x.exchange.loop x
next (state_changes st) x = some (change_state st x)
next connected_pushes x = push_connected x.connected_calls x
next failed_pushes x = push_failed x.failed_calls x
next takes_answer x = await_answer x.place x.answer x
next takes_done x = take_done x.place x
next takes_connected x = take_connected x.place x
next takes_failed x = take_failed x.place x
next takes_ice x = take_ice x.place x.ice x

abbrev silently : Option Setup → Option (Setup × Unit {0})
silently none = none
silently (some x) = some (x, tt)

unfoldable pub step : Event → Setup → Option (Setup × Unit {0})
unfolding next
step e x = silently (next e x)

-- setupWebRTC: the first nil that AwaitUnordered delivers, or an error once its channel is closed
pub first_success : List (Option Error) → Option Error
first_success [] = some setup_failed
first_success (none ∷ rest) = none
first_success (some e ∷ rest) = first_success rest

abbrev delivered : Option (Chan (Option Error)) → Option (Option Error)
delivered none = none
delivered (some c) = some (first_success c.queue)

-- `none`: it waits for ever. `ways` are the results of the ways to set the connection up; the
-- program has one.
pub setup_webrtc : List (Future (Option Error)) → Option (Option Error)
unfolding first_success
setup_webrtc ways = delivered (await_unordered 2 ways)

-- Connect, once setupWebRTC has returned `r`. When the listener's context is done too, the select
-- may choose either case.
pub connect : Option Error → (ctx_done chosen : Bool) → Option Error
connect r ctx_done chosen = if ctx_done && chosen then some canceled else r
