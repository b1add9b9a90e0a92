-- ===== src/Client/Agent/Sending.antt =====
-- client/agent.go: the callback that sends candidates, beside the rest of initWebRTCAsAnswerer.
-- The callback assigns to the variable `err` of that function, and so do the calls that the function
-- makes; its goroutines for an error read the variable when they send. So here a call with its
-- assignment is one step and the test after it belongs to the next.
pub mod Sequential
pub mod Stages
pub mod Overwritten
mod Tests
use yamrp.Prelude.{
  Bool, List, Option, String, [], false, if◌then◌else◌, none, some, suc, true, update, zero, ℕ,
  ◌++◌, ◌∷◌,
}
use yamrp.Errors.{Error, is_failure}
use yamrp.Chan.{Chan, make_chan, receive, send}
use yamrp.Schedules.{Ensures, Holds}
use yamrp.Client.Agent.{Externals, Result, WaitForOfferResponse, failure, success}

-- A call of the callback, by number: it polls RemoteDescription, or waits for Send.
pub data Callback : Type 0 where
  idle : Callback
  polling awaiting : (candidate : String) → Callback

-- proto.ReplyToRequest
pub record ReplyToRequest : Type 0 where
  pub token : String
  pub answerer_id : String
  pub body : String

-- The next thing that initWebRTCAsAnswerer does: after the last test it sends on its channel. It
-- has given up when it returned with a goroutine for the error.
pub data Place (D : Type 0) : Type 0 where
  unmarshals creates_answer tests_sent sends_success gave_up returned : Place D
  -- it tests whether the offer was decoded, and sets it
  sets_remote : D → Place D
  -- it tests the error of CreateAnswer, or of SetLocalDescription
  sets_local sends_answer : D → Place D

-- setupWebRTC: it waits; it has sent the error or the nil; it called a method of a nil interface
pub data Report (P : Type 0) : Type 0 where
  pending crashed : Report P
  failed : Option Error → Report P
  connected : P → Report P

pub record Shared (P D : Type 0) : Type 0 where
  pub place : Place D
  -- the variable
  pub err : Option Error
  pub ch : Chan (Result P)
  -- the goroutines for an error that have not sent
  pub senders : ℕ
  pub report : Report P
  pub callbacks : ℕ → Callback
  -- what the callbacks sent
  pub sent : List ReplyToRequest

pub data Event : Type 0 where
  function_goes sender_goes setup_goes : Event
  -- the callback is called; it is told whether there is a remote description; its Send returns
  called : (i : ℕ) (candidate : Option String) → Event
  polls : (i : ℕ) (has_remote : Bool) → Event
  send_returns : (i : ℕ) (err : Option Error) → Event

-- The state in which the callback is registered. The error of SendIceCandidate was no failure.
pub begin : {P D : Type 0} → Option Error → Shared P D
begin err = record {
  place = unmarshals;
  err = err;
  ch = make_chan 1;
  senders = 0;
  report = pending;
  callbacks = λ i. idle;
  sent = [];
}

-- a.peerConn = peerConn; a.peerConn.OnDataChannel(…); ch <- nil
pub connect_to : {P : Type 0} → Option P → Report P
connect_to none = crashed
connect_to (some p) = connected p

module _ {P D : Type 0} where
  -- go func() { ch <- utils.Result[peerConnAbstract]{Err: err} }()
  pub start_sender : Shared P D → Shared P D
  start_sender s = record s { senders = suc s.senders }

  abbrev assign : Place D → Option Error → Shared P D → Shared P D
  assign place err s = record s { place = place; err = err }

  -- if err != nil && err != io.EOF { go func() { … }(); return ch }
  pub or_give_up : Shared P D → Shared P D → Shared P D
  unfolding start_sender
  or_give_up s next = if is_failure s.err then record (start_sender s) { place = gave_up } else next

  pub succeed : Shared P D → Option (Chan (Result P)) → Option (Shared P D)
  succeed s none = none
  succeed s (some c) = some (record s { ch = c; place = returned })

  module _ (ext : Externals P D) (token : String) (p : P) (ret : WaitForOfferResponse) where
    pub function_step : Place D → Shared P D → Option (Shared P D)
    unfolding or_give_up succeed start_sender
    function_step unmarshals s =
        let (offer, err) = ext.unmarshal ret.body in some (assign (sets_remote offer) err s)
    function_step (sets_remote offer) s =
        some (or_give_up s (assign creates_answer (ext.set_remote_description p offer) s))
    function_step creates_answer s =
        let (answer, err) = ext.create_answer p in
        some (or_give_up s (assign (sets_local answer) err s))
    function_step (sets_local answer) s =
        some (or_give_up s (assign (sends_answer answer) (ext.set_local_description p answer) s))
    function_step (sends_answer answer) s =
        let err = ext.send_answer token (ext.sdp answer) ret.answerer_id in
        some (or_give_up s (assign tests_sent err s))
    function_step tests_sent s =
        let next = if is_failure s.err then start_sender s else s in
        some (record next { place = sends_success })
    function_step sends_success s = succeed s (send s.ch (success p))
    function_step _ s = none

  pub sender_sent : Shared P D → ℕ → Option (Chan (Result P)) → Option (Shared P D)
  sender_sent s n none = none
  sender_sent s n (some c) = some (record s { ch = c; senders = n })

  -- Nobody receives a second value, so it does not matter when a goroutine that finds the channel
  -- full read the variable.
  pub sender_step : ℕ → Shared P D → Option (Shared P D)
  unfolding sender_sent
  sender_step zero s = none
  sender_step (suc n) s = sender_sent s n (send s.ch (failure s.err))

  pub reported : Shared P D → Option (Result P × Chan (Result P)) → Option (Shared P D)
  unfolding connect_to
  reported s none = none
  reported s (some (u, c)) =
      some
        (record s { ch = c; report = if is_failure u.err then failed u.err else connect_to u.val })

  pub setup_step : Place D → Report P → Shared P D → Option (Shared P D)
  unfolding reported
  setup_step gave_up pending s = reported s (receive s.ch)
  setup_step returned pending s = reported s (receive s.ch)
  setup_step _ _ s = none

  abbrev with_callback : ℕ → Callback → Shared P D → Shared P D
  with_callback i c s = record s { callbacks = update s.callbacks i c }

  pub call : ℕ → Option String → Callback → Shared P D → Option (Shared P D)
  call i none idle s = some s
  call i (some c) idle s = some (with_callback i (polling c) s)
  call i _ _ s = none

  -- for peerConn.RemoteDescription() == nil { time.Sleep(…) }, and the call of Send
  pub poll : (token answerer_id : String) → ℕ → Bool → Callback → Shared P D → Option (Shared P D)
  poll token answerer_id i true (polling c) s = some (
      with_callback i (awaiting c) (record s {
        sent = s.sent ++ record { token = token; answerer_id = answerer_id; body = c } ∷ [];
      }))
  poll token answerer_id i false (polling c) s = some s
  poll token answerer_id i _ _ s = none

  -- err = iceCandidateStream.Send(…)
  pub overwrite : ℕ → Option Error → Callback → Shared P D → Option (Shared P D)
  overwrite i err (awaiting c) s = some (with_callback i idle (record s { err = err }))
  overwrite i err _ s = none

  abbrev silently : Option (Shared P D) → Option (Shared P D × Unit {0})
  silently none = none
  silently (some s) = some (s, tt)

  pub silently-Ensures :
      (Q : Shared P D → Type 0) (o : Option (Shared P D)) → Holds Q o → Ensures Q (silently o)
  silently-Ensures Q none h = tt
  silently-Ensures Q (some s) h = h

  module _ (ext : Externals P D) (token : String) (p : P) (ret : WaitForOfferResponse) where
    pub go : Event → Shared P D → Option (Shared P D)
    unfolding function_step sender_step setup_step call poll overwrite
    go function_goes s = function_step ext token p ret s.place s
    go sender_goes s = sender_step s.senders s
    go setup_goes s = setup_step s.place s.report s
    go (called i c) s = call i c (s.callbacks i) s
    go (polls i has_remote) s = poll token ret.answerer_id i has_remote (s.callbacks i) s
    go (send_returns i err) s = overwrite i err (s.callbacks i) s

    pub step : Event → Shared P D → Option (Shared P D × Unit {0})
    unfolding go
    step e s = silently (go e s)
