-- ===== src/Server/Answerer/Offers.antt =====
-- Where the offers that the service hands to the calls of WaitForOffer come from: offerRouter
-- receives all of them, for any property that these have.
use yamrp.Prelude.{
  All, All-append, List, Option-cases, String, [], inl, inr, subst, sym, update, update_all, ℕ, ◌∷◌,
}
use yamrp.Server.Packets.{Offering}
use yamrp.Chan.{Chan, make_chan, receive, send, take_first}
use yamrp.Chan.Laws.{send-queue}
use yamrp.Schedules.{Ensures}
use yamrp.Server.Answerer.{
  AnswererServer, Router, Thread, forward_offer, forwarding, goes, idle, make_offers,
  new_answerer_server, noting, offer_received, route_offer, sleeping_offer, spawn, take_offer,
  wait_for_offer, waiting_offer,
}
use yamrp.Server.Answerer.Frames.{IsNeutral, KeepsIf}

module _ (Q : Offering → Type 0) where
  abbrev pub ThreadHas : Thread → Type 0
  ThreadHas (noting host o) = Q o
  ThreadHas _ = Unit

  abbrev pub RouterHas : Router Offering → Type 0
  RouterHas idle = Unit
  RouterHas (forwarding ch o) = Q o

  -- The offers that lie in the channels, that the router sends and that a call has taken.
  pub record Offered (s : AnswererServer) : Type 0 where
    pub held : (c : ℕ) → All Q (s.offers c).queue
    pub router : RouterHas s.offer_router
    pub threads : (j : ℕ) → ThreadHas (s.threads j)

  neutral-ThreadHas : (t : Thread) → IsNeutral t → ThreadHas t
  neutral-ThreadHas (noting host o) n = absurd n
  neutral-ThreadHas _ n = tt

  goes-Offered :
      (i : ℕ) (t : Thread) (s : AnswererServer) → ThreadHas t → Offered s → Offered (goes i t s)
  goes-Offered i t s n v = record {
    held = v.held;
    router = v.router;
    threads = update_all ThreadHas s.threads i t v.threads n;
  }

  spawn-Offered : (t : Thread) (s : AnswererServer) → ThreadHas t → Offered s → Offered (spawn t s)
  spawn-Offered t s n v = record {
    held = v.held;
    router = v.router;
    threads = update_all ThreadHas s.threads s.spawned t v.threads n;
  }

  put-Offered :
      (ch : ℕ) (d : Chan Offering) (r : Router Offering) (s : AnswererServer)
      → All Q d.queue
      → RouterHas r
      → Offered s
      → Offered (record s { offers = update s.offers ch d; offer_router = r })
  put-Offered ch d r s new sends v = record {
    held = update_all (λ c. All Q c.queue) s.offers ch d v.held new;
    router = sends;
    threads = v.threads;
  }

  make_offers-Offered :
      (host : String) (s : AnswererServer) → Offered s → Offered (make_offers host s)
  make_offers-Offered host s v = record {
    held = update_all (λ c. All Q c.queue) s.offers s.made_offers (make_chan 1) v.held tt;
    router = v.router;
    threads = v.threads;
  }

  waits-Offered : (host : String) (s : AnswererServer) → Offered s → Offered (wait_for_offer host s)
  unfolding wait_for_offer
  waits-Offered host s v = elim (Option-cases (s.waiting_chs host)) [
    | inl e ↦
        rw (e, wait_for_offer)
          (spawn-Offered (waiting_offer host s.made_offers) _ tt (make_offers-Offered host s v))
    | inr (ch, e) ↦ rw (e, wait_for_offer) (spawn-Offered (waiting_offer host ch) s tt v)
  ]

  taken-Offered :
      (i : ℕ) (host : String) (ch n : ℕ) (q : List Offering) (s : AnswererServer)
      → All Q q
      → Offered s
      → Ensures Offered (offer_received i host ch s (take_first n q))
  taken-Offered i host ch n [] s here v = tt
  taken-Offered i host ch n (o ∷ q) s here v =
      goes-Offered i (noting host o) _ here.0 (put-Offered ch _ s.offer_router s here.1 v.router v)

  takes-Offered :
      (i : ℕ) (t : Thread) (s : AnswererServer) → Offered s → Ensures Offered (take_offer i t s)
  unfolding take_offer receive
  takes-Offered i (waiting_offer host ch) s v =
      taken-Offered i host ch (s.offers ch).capacity (s.offers ch).queue s (v.held ch) v
  takes-Offered i _ s v = tt

  -- The router holds another offer.
  sends-Offered :
      (r : Router Offering) (s : AnswererServer)
      → RouterHas r
      → Offered s
      → Offered (record s { offer_router = r })
  sends-Offered r s has v = record { held = v.held; router = has; threads = v.threads }

  routes-Offered :
      (o : Offering) (r : Router Offering) (s : AnswererServer)
      → Q o
      → Offered s
      → Ensures Offered (route_offer o r s)
  unfolding route_offer
  routes-Offered o idle s has v = elim (Option-cases (s.waiting_chs o.host_id)) [
    | inl e ↦
        rw (e, route_offer)
          (spawn-Offered (sleeping_offer o.host_id) _ tt
            (sends-Offered (forwarding s.made_offers o) _ has (make_offers-Offered o.host_id s v)))
    | inr (ch, e) ↦ rw (e, route_offer) (sends-Offered (forwarding ch o) s has v)
  ]
  routes-Offered o (forwarding ch p) s has v = tt

  forwards-Offered :
      (r : Router Offering) (s : AnswererServer)
      → RouterHas r
      → Offered s
      → Ensures Offered (forward_offer r s)
  unfolding forward_offer
  forwards-Offered idle s has v = tt
  forwards-Offered (forwarding ch o) s has v = elim (Option-cases (send (s.offers ch) o)) [
    | inl e ↦ rw e tt
    | inr (d, e) ↦
        let stored : All Q d.queue =
          subst (All Q) (sym (send-queue (s.offers ch) d o e))
            (All-append Q (s.offers ch).queue (o ∷ []) (v.held ch) (has, tt)) in
        rw e (put-Offered ch d idle s stored tt v)
  ]

  pub Offered-KeepsIf : KeepsIf Q Offered
  Offered-KeepsIf = record {
    goes_ = λ i t s n v. goes-Offered i t s (neutral-ThreadHas t n) v;
    spawns = λ t s n v. spawn-Offered t s (neutral-ThreadHas t n) v;
    changes_ices = λ m f n r s v. record { held = v.held; router = v.router; threads = v.threads };
    clears = λ host s v. record { held = v.held; router = v.router; threads = v.threads };
    waits = waits-Offered;
    takes = λ i s v. takes-Offered i (s.threads i) s v;
    routes = λ o s q v. routes-Offered o s.offer_router s q v;
    forwards = λ s v. forwards-Offered s.offer_router s v.router v;
  }

  pub new_answerer_server-Offered : Offered new_answerer_server
  unfolding new_answerer_server
  new_answerer_server-Offered = record { held = λ c. tt; router = tt; threads = λ j. tt }
