-- ===== src/Server/Answerer/Stops.antt =====
-- Two offers for a host that does not wait can stop offerRouter for all hosts.
use yamrp.Prelude.{List, String, arith, erase, none, refl, some, ℕ, ◌∷◌, ◌≡◌, ◌≢◌}
use yamrp.Chan.{send}
use yamrp.Schedules.{run, run_keeps, run_taken}
use yamrp.Server.Packets.{Offering}
use yamrp.Server.Answerer.{
  AnswererServer, Event, absent, forwarding, goes, idle, new_answerer_server, offer_arrives,
  offer_goes, route_offer, silent, sleep_ends, sleeping_offer, step,
}
use yamrp.Server.Answerer.Frames.{step_keeps, without_host}
use yamrp.Server.Answerer.Reachable.{clean_up_lem, only_key, reachable-Inv}
use yamrp.Server.Answerer.Jam.{
  IsJammed, IsJammed-Keeps, NotWaiting, forward_offer-none, goes-IsJammed, route_offer-none,
}

route_offer_lem :
    (o : Offering) (ch : ℕ) (s : AnswererServer)
    → s.offer_router ≡ idle
    → s.waiting_chs o.host_id ≡ some ch
    → route_offer o s.offer_router s ≡ some (record s { offer_router = forwarding ch o }, silent)
unfolding route_offer
route_offer_lem o ch s free mapped = ground arith

-- Let an offer for a host arrive while the channel of that host is full and nobody waits on it, and
-- let the sleep after which the channel's entry is cleared end before anybody waits. Then, after any
-- further schedule, offerRouter still holds that offer, and takes no offer for any host.
pub full_channel_stops_offers :
    (before after : List Event) (i ch : ℕ) (o : Offering) {s t : AnswererServer}
    → run step before new_answerer_server ≡ some s
    → s.offer_router ≡ idle
    → s.threads i ≡ sleeping_offer o.host_id
    → s.waiting_chs o.host_id ≡ some ch
    → send (s.offers ch) o ≡ none
    → ((j : ℕ) → NotWaiting ch (s.threads j))
    → run step (offer_arrives o ∷ sleep_ends i ∷ after) s ≡ some t
    → (t.offer_router ≡ forwarding ch o)
      × (step offer_goes t ≡ none)
      × ((x : Offering) → step (offer_arrives x) t ≡ none)
unfolding step
full_channel_stops_offers before after i ch o {s} {t} ran free asleep mapped full unheard rest = (
  v.sends,
  forward_offer-none ch o t.offer_router t v.sends v.full,
  λ x. route_offer-none ch o x t.offer_router t v.sends,
)
  where
    holding : AnswererServer
    holding = record s { offer_router = forwarding ch o }

    arrived : step (offer_arrives o) s ≡ some (holding, silent)
    arrived = route_offer_lem o ch s free mapped

    cleared :
        step (sleep_ends i) holding ≡ some (goes i absent (without_host o.host_id holding), silent)
    cleared = clean_up_lem i o.host_id (s.threads i) holding asleep

    later : run step after (goes i absent (without_host o.host_id holding)) ≡ some t
    later = run_taken step _ after holding cleared (run_taken step _ _ s arrived rest)

    only : (k : String) (c : ℕ) → erase s.waiting_chs o.host_id k ≡ some c → c ≢ ch
    only = only_key o.host_id ch s (reachable-Inv before ran) mapped

    jammed : IsJammed ch o (without_host o.host_id holding)
    jammed = record {
      sends = refl;
      full = full;
      unmapped = only;
      unheard = unheard;
      old = ((reachable-Inv before ran).1.mapped o.host_id ch mapped).1;
    }

    v : IsJammed ch o t
    v =
        run_keeps step (IsJammed ch o) (step_keeps (IsJammed-Keeps ch o)) after _
          (goes-IsJammed ch o i absent _ tt jammed) later
