-- ===== src/Server/Answerer/Tests.antt =====
-- Runs of the answerer service.
use yamrp.Prelude.{List, Option, String, [], none, refl, some, update_all, ℕ, ◌∷◌, ◌≡◌, ◌≢◌}
use yamrp.Chan.{Chan, send}
use yamrp.Schedules.{run}
use yamrp.Server.Packets.{Offering}
use yamrp.Server.Answerer.{
  AnswererServer, Event, absent, forwarding, new_answerer_server, notes_offer, offer_arrives,
  offer_goes, sleep_ends, sleeping_offer, step, takes_offer, waits_for_offer,
}
use yamrp.Server.Answerer.Routing.{Answers, offer_reaches_its_host}
use yamrp.Server.Answerer.Jam.{NotWaiting}
use yamrp.Server.Answerer.Stops.{full_channel_stops_offers}
use yamrp.Server.Answerer.Deaf.{cleared_channel_is_deaf}

abbrev reached : Option AnswererServer → AnswererServer
reached none = new_answerer_server
reached (some s) = s

abbrev offer_for : String → String → Offering
offer_for host ans = record { host_id = host; answerer_id = ans; offer = "sdp" }

-- An offer comes before the host waits for it.
abbrev offered_early : List Event
offered_early = offer_arrives (offer_for "h" "a") ∷ offer_goes ∷ waits_for_offer "h" ∷ []

abbrev early : AnswererServer
early = reached (run step offered_early new_answerer_server)

abbrev served : AnswererServer
served = reached (run step (takes_offer 1 ∷ notes_offer 1 ∷ []) early)

offer_reaches_its_host_example : Answers 1 "h" 0 early served
unfolding run step new_answerer_server
offer_reaches_its_host_example =
    offer_reaches_its_host offered_early 1 0 "h" {s = early} {t = served} refl refl refl

-- Two offers come for a host that does not wait.
abbrev absent_host : List Event
absent_host = offer_arrives (offer_for "h" "a") ∷ offer_goes ∷ []

abbrev unheard : AnswererServer
unheard = reached (run step absent_host new_answerer_server)

abbrev second : Offering
second = offer_for "h" "b"

abbrev later : List Event
later = waits_for_offer "h" ∷ waits_for_offer "g" ∷ []

abbrev jammed : AnswererServer
jammed = reached (run step (offer_arrives second ∷ sleep_ends 0 ∷ later) unheard)

nobody_waits : (j : ℕ) → NotWaiting 0 (unheard.threads j)
unfolding run step new_answerer_server
nobody_waits = update_all (NotWaiting 0) (λ _. absent) 0 (sleeping_offer "h") (λ j. tt) tt

full_channel_stops_offers_example :
    (jammed.offer_router ≡ forwarding 0 second)
    × (step offer_goes jammed ≡ none)
    × ((x : Offering) → step (offer_arrives x) jammed ≡ none)
unfolding run step new_answerer_server yamrp.Chan.send
full_channel_stops_offers_example =
    full_channel_stops_offers absent_host later 0 0 second {s = unheard} {t = jammed} refl refl refl
      refl refl nobody_waits refl

-- A second call waits when the sleep for the first offer ends.
abbrev first_taken : List Event
first_taken =
    offer_arrives (offer_for "h" "a")
    ∷ offer_goes
    ∷ waits_for_offer "h"
    ∷ takes_offer 1
    ∷ notes_offer 1
    ∷ waits_for_offer "h"
    ∷ []

abbrev waiting_again : AnswererServer
waiting_again = reached (run step first_taken new_answerer_server)

abbrev missed : List Event
missed = offer_arrives second ∷ offer_goes ∷ []

abbrev deaf : AnswererServer
deaf = reached (run step (sleep_ends 0 ∷ missed) waiting_again)

cleared_channel_is_deaf_example :
    (step (takes_offer 3) deaf ≡ none) × ((k : String) → deaf.waiting_chs k ≢ some 0)
unfolding run step new_answerer_server
cleared_channel_is_deaf_example =
    cleared_channel_is_deaf first_taken missed 3 0 0 "h" {s = waiting_again} {t = deaf} refl refl
      refl tt refl refl refl
