-- ===== src/Client/Agent.antt =====
-- client/agent.go: `AgentNetConn`, the end of a connection that answers an offer.
-- Answering is a chain of calls of gRPC and of WebRTC. What these return is a parameter of the
-- model, `Externals`; what the agent asks of them is written down as a list of actions.
-- Here the callback that sends candidates is not called: Client/Agent/Sending has it, and what it
-- does to the variable that it shares with the function.
pub mod Reports
pub mod Answers
pub mod Candidates
pub mod Channels
pub mod Sending
mod Tests
use yamrp.Prelude.{List, Option, String, [], if◌then◌else◌, none, some, ◌∷◌}
use yamrp.Errors.{Error, is_failure}
use yamrp.Chan.{Chan, make_chan, receive, send}

-- utils.Result; `val` is `none` where it is left out
pub record Result {ℓ} (P : Type ℓ) : Type ℓ where
  pub err : Option Error
  pub val : Option P

pub record WaitForOfferResponse : Type 0 where
  pub answerer_id : String
  pub body : String

-- A peer connection is a P and a session description a D. Each call is made once.
pub record Externals (P D : Type 0) : Type 0 where
  pub new_peer_connection : Option P × Option Error
  pub wait_for_offer : (token host_id : String) → Option WaitForOfferResponse × Option Error
  pub send_ice_candidate : Option Error
  pub unmarshal : String → D × Option Error
  pub set_remote_description : P → D → Option Error
  pub create_answer : P → D × Option Error
  pub set_local_description : P → D → Option Error
  pub send_answer : (token body answerer_id : String) → Option Error
  pub sdp : D → String

-- What the agent asks for, in the order of the code.
pub data Action (D : Type 0) : Type 0 where
  makes_connection opens_candidate_stream listens_for_candidates makes_channel makes_answer :
      Action D
  waits_for_offer : (token host_id : String) → Action D
  -- starts the goroutine that receives candidates
  receives_candidates : (token answerer_id : String) → Action D
  sets_remote sets_local : D → Action D
  sends_answer : (token body answerer_id : String) → Action D

-- How initWebRTCAsAnswerer ends: a goroutine sends an error and the function returns, or it panics,
-- or it goes on to its last send, after the result of SendAnswer.
pub data Ending (P : Type 0) : Type 0 where
  fails : Option Error → Ending P
  panics : Ending P
  answered : (send_error : Option Error) (peer_conn : P) → Ending P

pub record Trace (P D : Type 0) : Type 0 where
  pub actions : List (Action D)
  pub ending : Ending P

module _ {P D : Type 0} where
  pub ends : Ending P → Trace P D
  ends e = record { actions = []; ending = e }

  pub act : Action D → Trace P D → Trace P D
  act a t = record t { actions = a ∷ t.actions }

  -- if err != nil && err != io.EOF { go func() { ch <- Err }(); return ch }
  pub checked : Option Error → Trace P D → Trace P D
  unfolding ends
  checked err t = if is_failure err then ends (fails err) else t

  -- The calls on a nil response or a nil connection panic.
  pub non_nil {ℓ} : {A : Type ℓ} → Option A → (A → Trace P D) → Trace P D
  unfolding ends
  non_nil none k = ends panics
  non_nil (some a) k = k a

  module _ (ext : Externals P D) (token host_id : String) where
    pub answer_offer : P → WaitForOfferResponse → Trace P D
    answer_offer p ret =
        let (offer, read_err) = ext.unmarshal ret.body in
        let (answer, answer_err) = ext.create_answer p in
        let body = ext.sdp answer in
        let answering = act (sets_local answer) (
          checked (ext.set_local_description p answer) (
            act (sends_answer token body ret.answerer_id)
              (ends (answered (ext.send_answer token body ret.answerer_id) p)))) in
        checked read_err (
          act makes_channel (
            act (sets_remote offer) (
              checked (ext.set_remote_description p offer)
                (act makes_answer (checked answer_err answering)))))

    -- initWebRTCAsAnswerer up to its last send
    pub init_webrtc_as_answerer : Trace P D
    unfolding answer_offer
    init_webrtc_as_answerer =
        let (peer_conn, new_err) = ext.new_peer_connection in
        let (ret, offer_err) = ext.wait_for_offer token host_id in
        act makes_connection (
          checked new_err (
            act (waits_for_offer token host_id) (
              checked offer_err (
                non_nil ret λ offer. act (receives_candidates token offer.answerer_id) (
                  act opens_candidate_stream (
                    checked ext.send_ice_candidate (
                      non_nil peer_conn
                        λ p. act listens_for_candidates (answer_offer p offer))))))))

-- Where initWebRTCAsAnswerer is: at its last send, or gone.
pub data Place (P : Type 0) : Type 0 where
  sending : Result P → Place P
  returned panicked : Place P

pub record Setup (P : Type 0) : Type 0 where
  -- the channel that initWebRTCAsAnswerer makes, and its goroutines that wait to send on it
  pub ch : Chan (Result P)
  pub senders : List (Result P)
  pub place : Place P
  -- a.peerConn, and what the channel of Connect delivers
  pub peer_conn : Option P
  pub report : Option (Option Error)

-- A goroutine of initWebRTCAsAnswerer, that function, or the goroutine of setupWebRTC goes on.
pub data Event : Type 0 where
  sender_goes function_goes setup_goes : Event

module _ {P : Type 0} where
  abbrev pub failure : Option Error → Result P
  failure err = record { err = err; val = none }

  abbrev pub success : P → Result P
  success p = record { err = none; val = some p }

  -- A goroutine for the error of SendAnswer is started without a return.
  pub begin : Ending P → Setup P
  begin (fails err) = record {
    ch = make_chan 1;
    senders = failure err ∷ [];
    place = returned;
    peer_conn = none;
    report = none;
  }
  begin panics = record {
    ch = make_chan 1;
    senders = [];
    place = panicked;
    peer_conn = none;
    report = none;
  }
  begin (answered err p) = record {
    ch = make_chan 1;
    senders = if is_failure err then failure err ∷ [] else [];
    place = sending (success p);
    peer_conn = none;
    report = none;
  }

  abbrev sent_by_goroutine : Setup P → List (Result P) → Option (Chan (Result P)) → Setup P
  sent_by_goroutine s rest none = s
  sent_by_goroutine s rest (some c) = record s { ch = c; senders = rest }

  pub sender_step : List (Result P) → Setup P → Setup P
  sender_step [] s = s
  sender_step (r ∷ rest) s = sent_by_goroutine s rest (send s.ch r)

  abbrev sent_by_function : Setup P → Option (Chan (Result P)) → Setup P
  sent_by_function s none = s
  sent_by_function s (some c) = record s { ch = c; place = returned }

  pub function_step : Place P → Setup P → Setup P
  function_step (sending r) s = sent_by_function s (send s.ch r)
  function_step returned s = s
  function_step panicked s = s

  -- setupWebRTC on what it received
  pub set_up : Setup P → Result P → Setup P
  set_up s u =
      if is_failure u.err
      then record s { report = some u.err }
      else record s { peer_conn = u.val; report = some none }

  abbrev taken : Setup P → Option (Result P × Chan (Result P)) → Setup P
  taken s none = s
  taken s (some (u, c)) = set_up (record s { ch = c }) u

  -- The receive waits for the channel to be returned, and is done once.
  pub setup_step : Place P → Option (Option Error) → Setup P → Setup P
  unfolding set_up
  setup_step returned none s = taken s (receive s.ch)
  setup_step _ _ s = s

  pub step : Event → Setup P → Setup P
  unfolding sender_step function_step setup_step
  step sender_goes s = sender_step s.senders s
  step function_goes s = function_step s.place s
  step setup_goes s = setup_step s.place s.report s

  -- a schedule of events
  pub run : List Event → Setup P → Setup P
  unfolding step
  run [] s = s
  run (e ∷ es) s = run es (step e s)

  -- Connect on the configuration that it is given or the default one
  pub connect : {D : Type 0} → Externals P D → (token host_id : String) → List Event → Setup P
  unfolding run begin init_webrtc_as_answerer answer_offer act checked non_nil
  connect ext token host_id es = run es (begin (init_webrtc_as_answerer ext token host_id).ending)
