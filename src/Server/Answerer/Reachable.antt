-- ===== src/Server/Answerer/Reachable.antt =====
-- In every reachable state of the answerer service, offers lie in the channels of their hosts.
-- What is put into a channel belongs there, and what is taken leaves the rest.
use yamrp.Prelude.{
  All, All-append, Bool-cases, List, Option, Option-cases, String, [], arith, eq_iff, erase,
  erase_all, inl, inr, none, refl, some, subst, sym, update, ℕ, ◌==◌, ◌∙◌, ◌∷◌, ◌≡◌, ◌≢◌,
}
use yamrp.Chan.{Chan, receive, send, take_first}
use yamrp.Chan.Laws.{send-queue}
use yamrp.Schedules.{Ensures, run, run_keeps}
use yamrp.Server.Packets.{Offering}
use yamrp.Server.Answerer.{
  AnswererServer, Event, Router, Thread, absent, clean_up, forward_offer, forwarding, goes, idle,
  make_offers, new_answerer_server, noting, offer_received, offer_sent, route_offer, silent,
  sleeping_offer, step, take_offer, wait_for_offer, waiting_offer,
}
use yamrp.Server.Answerer.Frames.{Keeps, step_keeps, without_host}
use yamrp.Server.Answerer.Owners.{
  HoldsFor, Inv, IsFor, Owned, RouterIsFor, ThreadIsFor, adopted, goes-Owned, make_offers-Owned,
  neutral-IsFor, spawn-Owned,
}

put_held :
    (owner : ℕ → String) (offers : ℕ → Chan Offering) (ch : ℕ) (d : Chan Offering)
    → All (λ o. owner ch ≡ o.host_id) d.queue
    → ((c : ℕ) → HoldsFor owner offers c)
    → (c : ℕ) → HoldsFor owner (update offers ch d) c
put_held owner offers ch d new old c = elim (Bool-cases (ch == c)) [
  | inl e ↦
      let same : ch ≡ c = ground (arith, e) in
      rw e (subst (λ x. All (λ o. owner x ≡ o.host_id) d.queue) same new)
  | inr e ↦ rw e (old c)
]

module _ (owner : ℕ → String) (s : AnswererServer) (v : Owned owner s) where
  put-Owned :
      (ch : ℕ) (d : Chan Offering) (r : Router Offering)
      → All (λ o. owner ch ≡ o.host_id) d.queue
      → RouterIsFor owner s.made_offers r
      → Owned owner (record s { offers = update s.offers ch d; offer_router = r })
  put-Owned ch d r new sends = record {
    mapped = v.mapped;
    held = put_held owner s.offers ch d new v.held;
    router = sends;
    threads = v.threads;
  }

  waits-Inv : (host : String) → Inv (wait_for_offer host s)
  unfolding wait_for_offer
  waits-Inv host = elim (Option-cases (s.waiting_chs host)) [
    | inl e ↦
        let adopting = adopted owner host s.made_offers in
        rw (e, wait_for_offer)
          (adopting, spawn-Owned adopting _ _ (ground arith) (make_offers-Owned owner host s v))
    | inr (ch, e) ↦ rw (e, wait_for_offer) (owner, spawn-Owned owner _ s (v.mapped host ch e) v)
  ]

  taken-Inv :
      (i : ℕ) (host : String) (ch n : ℕ) (q : List Offering)
      → owner ch ≡ host
      → All (λ o. owner ch ≡ o.host_id) q
      → Ensures Inv (offer_received i host ch s (take_first n q))
  taken-Inv i host ch n [] same here = tt
  taken-Inv i host ch n (o ∷ q) same here = (
    owner,
    goes-Owned owner i (noting host o) _ (sym here.0 ∙ same)
        (put-Owned ch _ s.offer_router here.1 v.router),
  )

  takes-Inv :
      (i : ℕ) (t : Thread) → ThreadIsFor owner s.made_offers t → Ensures Inv (take_offer i t s)
  unfolding take_offer receive
  takes-Inv i (waiting_offer host ch) h =
      taken-Inv i host ch (s.offers ch).capacity (s.offers ch).queue h.0 (v.held ch)
  takes-Inv i _ h = tt

  routed :
      (o : Offering)
      → Owned
          (adopted owner o.host_id s.made_offers)
          (record (make_offers o.host_id s) { offer_router = forwarding s.made_offers o })
  routed o =
      let made = make_offers-Owned owner o.host_id s v in
      record {
        mapped = made.mapped;
        held = made.held;
        router = ground arith;
        threads = made.threads;
      }

  routes-Inv : (o : Offering) (r : Router Offering) → Ensures Inv (route_offer o r s)
  unfolding route_offer
  routes-Inv o idle = elim (Option-cases (s.waiting_chs o.host_id)) [
    | inl e ↦
        rw (e, route_offer)
          (
            adopted owner o.host_id s.made_offers,
            spawn-Owned (adopted owner o.host_id s.made_offers) (sleeping_offer o.host_id) _ tt
                (routed o),
          )
    | inr (ch, e) ↦
        rw (e, route_offer)
          (
            owner,
            record {
              mapped = v.mapped;
              held = v.held;
              router = v.mapped o.host_id ch e;
              threads = v.threads;
            },
          )
  ]
  routes-Inv o (forwarding ch p) = tt

  forwards-Inv :
      (r : Router Offering) → RouterIsFor owner s.made_offers r → Ensures Inv (forward_offer r s)
  unfolding forward_offer
  forwards-Inv idle h = tt
  forwards-Inv (forwarding ch o) h = sent (send (s.offers ch) o) refl
    where
      stored :
          (d : Chan Offering)
          → send (s.offers ch) o ≡ some d
          → All (λ x. owner ch ≡ x.host_id) d.queue
      stored d e = rw (send-queue (s.offers ch) d o e) (
          All-append (λ x. owner ch ≡ x.host_id) (s.offers ch).queue (o ∷ []) (v.held ch) (h.0, tt))

      sent :
          (r : Option (Chan Offering)) → send (s.offers ch) o ≡ r → Ensures Inv (offer_sent ch s r)
      sent none e = tt
      sent (some d) e = (owner, put-Owned ch d idle (stored d e) tt)

pub Inv-Keeps : Keeps Inv
Inv-Keeps = record {
  goes_ = λ i t s n (owner, v).
      (owner, goes-Owned owner i t s (neutral-IsFor owner s.made_offers t n) v);
  spawns =
      λ t s n (owner, v). (owner, spawn-Owned owner t s (neutral-IsFor owner s.made_offers t n) v);
  changes_ices = λ m f n r s (owner, v).
      (owner, record { mapped = v.mapped; held = v.held; router = v.router; threads = v.threads });
  clears = λ host s (owner, v). (
    owner,
    record {
      mapped = erase_all (λ k c. IsFor owner s.made_offers c k) s.waiting_chs host v.mapped;
      held = v.held;
      router = v.router;
      threads = v.threads;
    },
  );
  waits = λ host s (owner, v). waits-Inv owner s v host;
  takes = λ i s (owner, v). takes-Inv owner s v i (s.threads i) (v.threads i);
  routes = λ o s q (owner, v). routes-Inv owner s v o s.offer_router;
  forwards = λ s (owner, v). forwards-Inv owner s v s.offer_router v.router;
}

pub new_answerer_server-Inv : Inv new_answerer_server
unfolding new_answerer_server
new_answerer_server-Inv =
    ((λ c. ""), record { mapped = λ k c h. cc; held = λ c. tt; router = tt; threads = λ j. tt })

-- The invariant holds in every reachable state.
pub reachable-Inv :
    (es : List Event) {s : AnswererServer} → run step es new_answerer_server ≡ some s → Inv s
reachable-Inv es ran =
    run_keeps step Inv (step_keeps Inv-Keeps) es new_answerer_server new_answerer_server-Inv ran

pub clean_up_lem :
    (i : ℕ) (host : String) (t : Thread) (s : AnswererServer)
    → t ≡ sleeping_offer host
    → clean_up i t s ≡ some (goes i absent (without_host host s), silent)
unfolding clean_up
clean_up_lem i host t s e = rw e refl

-- Two keys that lead to one channel are equal, so once its key is cleared none leads to it.
pub only_key :
    (host : String) (ch : ℕ) (s : AnswererServer)
    → Inv s
    → s.waiting_chs host ≡ some ch
    → (k : String) (c : ℕ) → erase s.waiting_chs host k ≡ some c
    → c ≢ ch
only_key host ch s (owner, v) mapped k c m same =
    ground (arith, eq_iff host k, v.mapped k c, v.mapped host ch mapped)
