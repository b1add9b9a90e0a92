-- ===== src/Client/Agent/Tests.antt =====
-- Runs of an agent: one that cannot send its answer, and one whose gRPC fails.
use yamrp.Prelude.{List, Option, String, [], none, refl, some, ℕ, ◌∷◌, ◌≡◌}
use yamrp.Errors.{Error, canceled, eof}
use yamrp.Client.Agent.{
  Event, Externals, WaitForOfferResponse, act, answer_offer, answered, checked, connect, ends,
  function_goes, init_webrtc_as_answerer, listens_for_candidates, makes_answer, makes_channel,
  makes_connection, non_nil, opens_candidate_stream, receives_candidates, sender_goes, sends_answer,
  sets_local, sets_remote, setup_goes, waits_for_offer,
}
use yamrp.Client.Agent.Answers.{answers_or_fails, outcome, summary}
use yamrp.Client.Agent.Reports.{
  Delivers, Fails, Succeeds, failed_call_is_reported, lost_answer_is_not_reported,
}

abbrev offer : WaitForOfferResponse
offer = record { answerer_id = "answerer-1"; body = "offer" }

-- Connections are numbers and descriptions are strings.
abbrev externals : Option Error → Option Error → Externals ℕ String
externals offer_err answer_err = record {
  new_peer_connection = (some 7, none);
  wait_for_offer = λ token host_id. (some offer, offer_err);
  send_ice_candidate = none;
  unmarshal = λ s. (s, some eof);
  set_remote_description = λ p d. none;
  create_answer = λ p. ("answer", none);
  set_local_description = λ p d. none;
  send_answer = λ token body answerer_id. answer_err;
  sdp = λ d. d;
}

abbrev canceled_call : Externals ℕ String
canceled_call = externals (some canceled) none

abbrev unsent_answer : Externals ℕ String
unsent_answer = externals none (some canceled)

abbrev answering : Externals ℕ String
answering = externals (some eof) none

abbrev schedule : List Event
schedule = setup_goes ∷ function_goes ∷ sender_goes ∷ setup_goes ∷ []

answering_in_order : init_webrtc_as_answerer answering "token" "host-1" ≡ record {
  actions =
      makes_connection
      ∷ waits_for_offer "token" "host-1"
      ∷ receives_candidates "token" "answerer-1"
      ∷ opens_candidate_stream
      ∷ listens_for_candidates
      ∷ makes_channel
      ∷ sets_remote "offer"
      ∷ makes_answer
      ∷ sets_local "answer"
      ∷ sends_answer "token" "answer" "answerer-1"
      ∷ [];
  ending = answered none 7;
}
unfolding init_webrtc_as_answerer answer_offer act checked non_nil ends
answering_in_order = refl

answers_or_fails_example :
    summary (init_webrtc_as_answerer answering "token" "host-1")
    ≡ outcome answering "token" "host-1"
answers_or_fails_example = answers_or_fails answering "token" "host-1"

failed_call_is_reported_example :
    Fails (some canceled) (connect canceled_call "token" "host-1" schedule)
    × Delivers none
        (some canceled)
        (connect canceled_call "token" "host-1" (sender_goes ∷ setup_goes ∷ schedule))
failed_call_is_reported_example =
    failed_call_is_reported canceled_call "token" "host-1" canceled schedule refl

lost_answer_is_not_reported_example :
    Succeeds 7 (connect unsent_answer "token" "host-1" schedule)
    × Delivers
        (some 7)
        none
        (connect unsent_answer "token" "host-1" (function_goes ∷ setup_goes ∷ schedule))
unfolding init_webrtc_as_answerer answer_offer act checked non_nil ends
lost_answer_is_not_reported_example =
    lost_answer_is_not_reported unsent_answer "token" "host-1" (some canceled) 7 schedule refl
