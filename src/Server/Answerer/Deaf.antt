-- ===== src/Server/Answerer/Deaf.antt =====
-- A WaitForOffer whose channel was cleared hears of no offer.
use yamrp.Prelude.{
  List, Option, Option-cases, String, [], arith, erase_all, inl, inr, insert_all, none, refl, some,
  ℕ, ◌<◌, ◌∷◌, ◌≡◌, ◌≢◌,
}
use yamrp.Chan.{Chan, receive, send, take_first}
use yamrp.Schedules.{Ensures, run, run_keeps, run_taken}
use yamrp.Server.Packets.{Offering}
use yamrp.Server.Answerer.{
  AnswererServer, Event, Router, Thread, absent, forward_offer, forwarding, goes, idle, make_offers,
  new_answerer_server, offer_received, offer_sent, route_offer, sleep_ends, sleeping_offer, step,
  take_offer, takes_offer, wait_for_offer, waiting_offer,
}
use yamrp.Server.Answerer.Frames.{Keeps, step_keeps, without_host}
use yamrp.Server.Answerer.Reachable.{clean_up_lem, only_key, reachable-Inv}

abbrev pub Avoids : ℕ → Router Offering → Type 0
Avoids ch (forwarding c o) = c ≢ ch
Avoids ch idle = Unit

-- No key leads to the channel, no offer lies in it, and offerRouter does not send to it.
record IsDeaf (ch : ℕ) (s : AnswererServer) : Type 0 where
  unmapped : (k : String) (c : ℕ) → s.waiting_chs k ≡ some c → c ≢ ch
  empty : (s.offers ch).queue ≡ []
  unsent : Avoids ch s.offer_router
  old : ch < s.made_offers

module _ (ch : ℕ) where
  kept :
      (s : AnswererServer) (threads : ℕ → Thread) (n : ℕ)
      → IsDeaf ch s
      → IsDeaf ch (record s { threads = threads; spawned = n })
  kept s threads n v = record {
    unmapped = v.unmapped;
    empty = v.empty;
    unsent = v.unsent;
    old = v.old;
  }

  make_offers-IsDeaf :
      (host : String) (s : AnswererServer) → IsDeaf ch s → IsDeaf ch (make_offers host s)
  make_offers-IsDeaf host s v = record {
    unmapped =
        insert_all (λ k c. c ≢ ch) s.waiting_chs host s.made_offers v.unmapped
          (ground (arith, v.old));
    empty = ground (arith, v.empty, v.old);
    unsent = v.unsent;
    old = omega (arith, v.old);
  }

  waits-IsDeaf :
      (host : String) (s : AnswererServer) → IsDeaf ch s → IsDeaf ch (wait_for_offer host s)
  unfolding wait_for_offer
  waits-IsDeaf host s v = elim (Option-cases (s.waiting_chs host)) [
    | inl e ↦ rw (e, wait_for_offer) (kept (make_offers host s) _ _ (make_offers-IsDeaf host s v))
    | inr (c, e) ↦ rw (e, wait_for_offer) (kept s _ _ v)
  ]

  takes-IsDeaf :
      (i : ℕ) (t : Thread) (s : AnswererServer)
      → IsDeaf ch s
      → Ensures (IsDeaf ch) (take_offer i t s)
  unfolding take_offer receive
  takes-IsDeaf i (waiting_offer host c) s v = taken (s.offers c).capacity (s.offers c).queue refl
    where
      taken :
          (n : ℕ) (q : List Offering)
          → (s.offers c).queue ≡ q
          → Ensures (IsDeaf ch) (offer_received i host c s (take_first n q))
      taken n [] e = tt
      taken n (o ∷ q) e = record {
        unmapped = v.unmapped;
        empty = ground (arith, v.empty, e);
        unsent = v.unsent;
        old = v.old;
      }
  takes-IsDeaf i _ s v = tt

  routes-IsDeaf :
      (o : Offering) (r : Router Offering) (s : AnswererServer)
      → IsDeaf ch s
      → Ensures (IsDeaf ch) (route_offer o r s)
  unfolding route_offer
  routes-IsDeaf o idle s v = elim (Option-cases (s.waiting_chs o.host_id)) [
    | inl e ↦
        let made = make_offers-IsDeaf o.host_id s v in
        rw (e, route_offer)
          (record {
            unmapped = made.unmapped;
            empty = made.empty;
            unsent = ground (arith, v.old);
            old = made.old;
          })
    | inr (c, e) ↦
        rw (e, route_offer)
          (record {
            unmapped = v.unmapped;
            empty = v.empty;
            unsent = v.unmapped o.host_id c e;
            old = v.old;
          })
  ]
  routes-IsDeaf o (forwarding c p) s v = tt

  forwards-IsDeaf :
      (r : Router Offering) (s : AnswererServer)
      → Avoids ch r
      → IsDeaf ch s
      → Ensures (IsDeaf ch) (forward_offer r s)
  unfolding forward_offer
  forwards-IsDeaf idle s a v = tt
  forwards-IsDeaf (forwarding c o) s a v = sent (send (s.offers c) o)
    where
      sent : (r : Option (Chan Offering)) → Ensures (IsDeaf ch) (offer_sent c s r)
      sent none = tt
      sent (some d) = record {
        unmapped = v.unmapped;
        empty = ground (arith, v.empty, a);
        unsent = tt;
        old = v.old;
      }

  IsDeaf-Keeps : Keeps (IsDeaf ch)
  IsDeaf-Keeps = record {
    goes_ = λ i t s n v. kept s _ _ v;
    spawns = λ t s n v. kept s _ _ v;
    changes_ices = λ m f n r s v. record {
      unmapped = v.unmapped;
      empty = v.empty;
      unsent = v.unsent;
      old = v.old;
    };
    clears = λ host s v. record {
      unmapped = erase_all (λ k c. c ≢ ch) s.waiting_chs host v.unmapped;
      empty = v.empty;
      unsent = v.unsent;
      old = v.old;
    };
    waits = waits-IsDeaf;
    takes = λ i s v. takes-IsDeaf i (s.threads i) s v;
    routes = λ o s q v. routes-IsDeaf o s.offer_router s v;
    forwards = λ s v. forwards-IsDeaf s.offer_router s v.unsent v;
  }

  take_offer-none :
      (i : ℕ) (host : String) (t : Thread) (s : AnswererServer)
      → t ≡ waiting_offer host ch
      → (s.offers ch).queue ≡ []
      → take_offer i t s ≡ none
  unfolding take_offer receive
  take_offer-none i host t s waits empty = rw waits (ground (arith, empty))

-- Let the sleep for a host end while the channel of that host is empty and offerRouter does not send
-- to it. Then, after any further schedule, a WaitForOffer that waits on that channel can take no
-- offer, and no key leads to the channel.
pub cleared_channel_is_deaf :
    (before after : List Event) (i j ch : ℕ) (host : String) {s t : AnswererServer}
    → run step before new_answerer_server ≡ some s
    → s.waiting_chs host ≡ some ch
    → (s.offers ch).queue ≡ []
    → Avoids ch s.offer_router
    → s.threads j ≡ sleeping_offer host
    → run step (sleep_ends j ∷ after) s ≡ some t
    → t.threads i ≡ waiting_offer host ch
    → (step (takes_offer i) t ≡ none) × ((k : String) → t.waiting_chs k ≢ some ch)
unfolding step
cleared_channel_is_deaf before after i j ch host {s} {t} ran mapped empty unsent asleep rest waits =
    (take_offer-none ch i host (t.threads i) t waits v.empty, λ k m. v.unmapped k ch m refl)
  where
    deaf : IsDeaf ch (without_host host s)
    deaf = record {
      unmapped = only_key host ch s (reachable-Inv before ran) mapped;
      empty = empty;
      unsent = unsent;
      old = ((reachable-Inv before ran).1.mapped host ch mapped).1;
    }

    later : run step after (goes j absent (without_host host s)) ≡ some t
    later = run_taken step _ after s (clean_up_lem j host (s.threads j) s asleep) rest

    v : IsDeaf ch t
    v =
        run_keeps step (IsDeaf ch) (step_keeps (IsDeaf-Keeps ch)) after _
          (kept ch (without_host host s) _ _ deaf) later
