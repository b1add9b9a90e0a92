-- ===== src/Client/Listener/Offer/Tests.antt =====
-- A listener whose offer is answered, and one whose server closes the call.
use yamrp.Client.Listener.Offer.{
  Externals, IsReady, init_and_send_offer, init_and_send_offer-sent, sent,
}
use yamrp.Errors.{Error, eof, is_failure}
use yamrp.Prelude.{Option, String, false, none, some, ◌↔◌, ◌≡◌}

abbrev externals : Option String × Option Error → Externals String
externals response = record {
  create_offer = ("sdp", some eof);
  set_local_description = λ d. none;
  marshal = λ d. (d, none);
  send_offer = λ token offer host_id. response;
  wait_for_answer = λ token answerer_id. (some "answer", none);
  set_remote_description = λ answer. none;
}

abbrev served : Externals String
served = externals (some "answerer-1", none)

abbrev offering : String
offering = (served.marshal served.create_offer.0).0

init_and_send_offer-sent_example :
    (init_and_send_offer served "token" "host-1" ≡ sent "answerer-1") ↔ (
      IsReady served "token"
      × (is_failure (served.send_offer "token" offering "host-1").1 ≡ false)
      × ((served.send_offer "token" offering "host-1").0 ≡ some "answerer-1"))
init_and_send_offer-sent_example = init_and_send_offer-sent served "token" "host-1" "answerer-1"
