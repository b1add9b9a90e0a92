-- ===== src/Server/Serving/Tests.antt =====
-- Runs of the whole server: a jammed offerRouter, answers and an offer on their way.
use text.Mathlib.Text.{◌==◌ as str_eq}
use yamrp.Server.Offerer
use yamrp.Server.Answerer
use yamrp.Prelude.{
  Bool, List, Option, String, [], arith, eq_iff, none, refl, some, update_all, ◌∷◌, ◌≡◌, ◌≤◌,
}
use yamrp.Server.Packets.{AnsPacket, Offering}
use yamrp.Chan.{Chan, receive, send}
use yamrp.Schedules.{collect, run}
use yamrp.Server.Serving.{Event, Server, answerers, new_server, offerers, step, takes_answer}
use yamrp.Server.Offerer.{
  absent, answer_meets, notified, offered, offering_, sends_offer, sleep_ends, waits_for_answer,
}
use yamrp.Server.Answerer.{
  answered, notes_offer, offer_goes, sends_answer, sleeping_offer, takes_offer, waits_for_offer,
}
use yamrp.Server.Serving.Bounds.{count, deliveries, deliveries_bounded}
use yamrp.Server.Serving.Counts.{sent_by}
use yamrp.Server.Serving.Offers.{Returns, returned_offer_was_sent}
use yamrp.Server.Serving.Deliveries.{Delivers, delivered_answer_was_sent}
use yamrp.Server.Serving.Outage.{jam_stops_every_client}
use yamrp.Server.Answerer.Jam.{IsJammed, NotWaiting}

abbrev offer_for : String → String → Offering
offer_for host ans = record { host_id = host; answerer_id = ans; offer = "sdp" }

abbrev second : Offering
second = offer_for "h" "b"

abbrev reached : Option Server → Server
reached none = new_server
reached (some s) = s

-- Two clients offer to a host that does not wait.
abbrev two_offers : List Event
two_offers =
    offerers (Offerer.sends_offer "h" "sdp" "a" "1")
    ∷ offerers (Offerer.notified 1)
    ∷ offerers (Offerer.offered 1)
    ∷ answerers Answerer.offer_goes
    ∷ offerers (Offerer.sends_offer "h" "sdp" "b" "2")
    ∷ offerers (Offerer.notified 3)
    ∷ offerers (Offerer.offered 3)
    ∷ answerers (Answerer.sleep_ends 0)
    ∷ []

abbrev stopped : Server
stopped = reached (run step two_offers new_server)

stopped-IsJammed : IsJammed 0 second stopped.answerer
unfolding run step new_server Offerer.step yamrp.Server.Host.step Answerer.step yamrp.Chan.send
stopped-IsJammed = record {
  sends = refl;
  full = refl;
  unmapped = λ k c m. ground (arith, eq_iff "h" k);
  unheard =
      update_all (NotWaiting 0) _ 0 Answerer.absent
        (update_all (NotWaiting 0) (λ _. Answerer.absent) 0 (Answerer.sleeping_offer "h") (λ j. tt)
          tt)
        tt;
  old = omega arith;
}

-- A third client offers to another host.
abbrev third : List Event
third = offerers (Offerer.sends_offer "g" "sdp" "c" "3") ∷ offerers (Offerer.notified 5) ∷ []

abbrev waiting : Server
waiting = reached (run step third stopped)

jam_stops_every_client_example : step (offerers (Offerer.offered 5)) waiting ≡ none
unfolding run step new_server Offerer.step yamrp.Server.Host.step Answerer.step
jam_stops_every_client_example =
    jam_stops_every_client 0 5 second third stopped {t = waiting} stopped-IsJammed refl

third_client_waits : waiting.offerer.threads 5 ≡ Offerer.offering_ "g" "sdp" "c" "3"
unfolding run step new_server Offerer.step yamrp.Server.Host.step Answerer.step
third_client_waits = refl

-- A client waits for its answer, and a host sends it.
abbrev answer : AnsPacket
answer = record { answerer_id = "a"; answer = "sdp-answer" }

abbrev up_to_answer : List Event
up_to_answer =
    offerers (Offerer.sends_offer "h" "sdp" "a" "1")
    ∷ offerers (Offerer.waits_for_answer "a")
    ∷ answerers (Answerer.sends_answer answer)
    ∷ answerers (Answerer.answered 0)
    ∷ takes_answer
    ∷ []

abbrev before_answer : Server
before_answer = reached (run step up_to_answer new_server)

abbrev after_answer : Server
after_answer = reached (run step (offerers (Offerer.answer_meets 2) ∷ []) before_answer)

delivered_answer_was_sent_example : Delivers up_to_answer 2 before_answer after_answer
unfolding run step new_server Offerer.step yamrp.Server.Host.step Answerer.step yamrp.Chan.send
    yamrp.Chan.receive
delivered_answer_was_sent_example = delivered_answer_was_sent up_to_answer 2 refl refl

-- A host waits for offers, and takes the one that lies there.
abbrev up_to_offer : List Event
up_to_offer =
    offerers (Offerer.sends_offer "h" "sdp" "a" "1")
    ∷ offerers (Offerer.notified 1)
    ∷ offerers (Offerer.offered 1)
    ∷ answerers Answerer.offer_goes
    ∷ answerers (Answerer.waits_for_offer "h")
    ∷ answerers (Answerer.takes_offer 1)
    ∷ []

abbrev before_return : Server
before_return = reached (run step up_to_offer new_server)

abbrev after_return : Server
after_return = reached (run step (answerers (Answerer.notes_offer 1) ∷ []) before_return)

returned_offer_was_sent_example : Returns up_to_offer 1 "h" after_return
unfolding run step new_server Offerer.step yamrp.Server.Host.step Answerer.step yamrp.Chan.send
    yamrp.Chan.receive
returned_offer_was_sent_example =
    returned_offer_was_sent up_to_offer 1 "h" {s = before_return} refl (offer_for "h" "a", refl)
      refl

-- The host sends its answer twice, and the only call takes one of the two.
abbrev two_answers : List Event
two_answers =
    offerers (Offerer.sends_offer "h" "sdp" "a" "1")
    ∷ offerers (Offerer.waits_for_answer "a")
    ∷ answerers (Answerer.sends_answer answer)
    ∷ answerers (Answerer.sends_answer answer)
    ∷ answerers (Answerer.answered 1)
    ∷ takes_answer
    ∷ offerers (Offerer.answer_meets 2)
    ∷ []

abbrev is_for_a : AnsPacket → Bool
is_for_a p = str_eq p.answerer_id "a"

abbrev after_two : Server
after_two = reached (run step two_answers new_server)

deliveries_bounded_example :
    count is_for_a (deliveries two_answers new_server)
    ≤ count is_for_a (collect sent_by two_answers)
unfolding run step new_server Offerer.step yamrp.Server.Host.step Answerer.step yamrp.Chan.send
    yamrp.Chan.receive
deliveries_bounded_example = deliveries_bounded is_for_a two_answers {s = after_two} refl

one_is_delivered : deliveries two_answers new_server ≡ answer ∷ []
unfolding run step new_server Offerer.step yamrp.Server.Host.step Answerer.step yamrp.Chan.send
    yamrp.Chan.receive
one_is_delivered = refl
