-- ===== src/Client/Agent/Sending/Tests.antt =====
-- An agent whose callback sends a candidate while the answer is set up.
use yamrp.Prelude.{
  List, Option, String, [], arith, false, none, refl, some, true, update, ℕ, ◌++◌, ◌∷◌, ◌≡◌,
}
use yamrp.Errors.{Error, canceled}
use yamrp.Chan.{make_chan, receive, send}
use yamrp.Schedules.{run}
use yamrp.Client.Agent.Sending.{
  Callback, Event, Place, ReplyToRequest, Report, Shared, awaiting, begin, called, connected,
  crashed, function_goes, gave_up, idle, pending, polling, polls, returned, send_returns,
  sender_goes, setup_goes, step,
}
use yamrp.Client.Agent.Sending.Sequential.{EndsAlike, follows_answer_offer}
use yamrp.Client.Agent.Sending.Overwritten.{reset_error_panics}
use yamrp.Client.Agent.{Externals, WaitForOfferResponse}

abbrev offer : WaitForOfferResponse
offer = record { answerer_id = "answerer-1"; body = "offer" }

-- Connections are numbers and descriptions are strings; the local description is refused or not.
abbrev externals : Option Error → Externals ℕ String
externals local_err = record {
  new_peer_connection = (some 7, none);
  wait_for_offer = λ token host_id. (some offer, none);
  send_ice_candidate = none;
  unmarshal = λ s. (s, none);
  set_remote_description = λ p d. none;
  create_answer = λ p. ("answer", none);
  set_local_description = λ p d. local_err;
  send_answer = λ token body answerer_id. none;
  sdp = λ d. d;
}

abbrev working : Externals ℕ String
working = externals none

abbrev refused : Externals ℕ String
refused = externals (some canceled)

-- A candidate is handed to Send before the local description is set.
abbrev up_to_local : List Event
up_to_local =
    called 0 (some "candidate-1")
    ∷ polls 0 false
    ∷ function_goes
    ∷ function_goes
    ∷ function_goes
    ∷ polls 0 true
    ∷ function_goes
    ∷ []

abbrev up_to_report : List Event
up_to_report = up_to_local ++ function_goes ∷ function_goes ∷ function_goes ∷ setup_goes ∷ []

abbrev up_to_give_up : List Event
up_to_give_up = up_to_local ++ function_goes ∷ []

abbrev sending : ℕ → Callback
sending = update (update (λ i. idle) 0 (polling "candidate-1")) 0 (awaiting "candidate-1")

abbrev candidate : ReplyToRequest
candidate = record { token = "token"; answerer_id = "answerer-1"; body = "candidate-1" }

abbrev at : Place String → Option Error → ℕ → Report ℕ → Shared ℕ String
at place err senders report = record {
  place = place;
  err = err;
  ch = make_chan 1;
  senders = senders;
  report = report;
  callbacks = sending;
  sent = candidate ∷ [];
}

gives_up :
    run (step refused "token" 7 offer) up_to_give_up (begin none)
    ≡ some (at gave_up (some canceled) 1 pending)
unfolding run step begin
gives_up = refl

connects :
    run (step working "token" 7 offer) up_to_report (begin none)
    ≡ some (at returned none 0 (connected 7))
unfolding run step begin send receive
connects = refl

-- The connection is reported, although the candidate is still being sent.
follows_answer_offer_example :
    EndsAlike working "token" "host-1" 7 offer (at returned none 0 (connected 7))
follows_answer_offer_example =
    follows_answer_offer working "token" "host-1" 7 offer none up_to_report (omega arith) connects

-- The local description was refused, and the candidate was sent.
reset_error_panics_example :
    (t : Shared ℕ String) × (run
        (step refused "token" 7 offer)
        (send_returns 0 none ∷ sender_goes ∷ setup_goes ∷ [])
        (at gave_up (some canceled) 1 pending)
      ≡ some t)
    × (t.report ≡ crashed)
reset_error_panics_example =
    reset_error_panics refused "token" 7 offer (at gave_up (some canceled) 1 pending) 0
      "candidate-1" none (none, up_to_give_up, gives_up) refl (λ h. omega (arith, h)) refl refl
