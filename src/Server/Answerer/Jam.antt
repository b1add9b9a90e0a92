-- ===== src/Server/Answerer/Jam.antt =====
-- An offer that nobody will ever take stops offerRouter.
use yamrp.Prelude.{
  Option, Option-cases, String, arith, erase_all, inl, inr, insert_all, none, refl, some, update,
  update_all, ℕ, ◌<◌, ◌≡◌, ◌≢◌,
}
use yamrp.Chan.{Chan, make_chan, receive, send}
use yamrp.Schedules.{Ensures}
use yamrp.Server.Packets.{Offering}
use yamrp.Server.Answerer.{
  AnswererServer, Router, Thread, forward_offer, forwarding, goes, make_offers, noting,
  offer_received, route_offer, spawn, take_offer, wait_for_offer, waiting_offer,
}
use yamrp.Server.Answerer.Frames.{IsNeutral, Keeps}

abbrev pub NotWaiting : ℕ → Thread → Type 0
NotWaiting ch (waiting_offer host c) = c ≢ ch
NotWaiting ch _ = Unit

-- offerRouter waits for room in a channel to which no key leads and on which nobody waits.
pub record IsJammed (ch : ℕ) (o : Offering) (s : AnswererServer) : Type 0 where
  pub sends : s.offer_router ≡ forwarding ch o
  pub full : send (s.offers ch) o ≡ none
  pub unmapped : (k : String) (c : ℕ) → s.waiting_chs k ≡ some c → c ≢ ch
  pub unheard : (j : ℕ) → NotWaiting ch (s.threads j)
  pub old : ch < s.made_offers

neutral-NotWaiting : (ch : ℕ) (t : Thread) → IsNeutral t → NotWaiting ch t
neutral-NotWaiting ch (waiting_offer host c) n = absurd n
neutral-NotWaiting ch _ n = tt

module _ (ch : ℕ) (o : Offering) where
  pub goes-IsJammed :
      (i : ℕ) (t : Thread) (s : AnswererServer)
      → NotWaiting ch t
      → IsJammed ch o s
      → IsJammed ch o (goes i t s)
  goes-IsJammed i t s n v = record {
    sends = v.sends;
    full = v.full;
    unmapped = v.unmapped;
    unheard = update_all (NotWaiting ch) s.threads i t v.unheard n;
    old = v.old;
  }

  spawn-IsJammed :
      (t : Thread) (s : AnswererServer)
      → NotWaiting ch t
      → IsJammed ch o s
      → IsJammed ch o (spawn t s)
  spawn-IsJammed t s n v = record {
    sends = v.sends;
    full = v.full;
    unmapped = v.unmapped;
    unheard = update_all (NotWaiting ch) s.threads s.spawned t v.unheard n;
    old = v.old;
  }

  -- A write to another channel.
  put-IsJammed :
      (c : ℕ) (d : Chan Offering) (s : AnswererServer)
      → c ≢ ch
      → IsJammed ch o s
      → IsJammed ch o (record s { offers = update s.offers c d })
  put-IsJammed c d s other v = record {
    sends = v.sends;
    full = ground (arith, v.full, other);
    unmapped = v.unmapped;
    unheard = v.unheard;
    old = v.old;
  }

  make_offers-IsJammed :
      (host : String) (s : AnswererServer) → IsJammed ch o s → IsJammed ch o (make_offers host s)
  make_offers-IsJammed host s v =
      let other : s.made_offers ≢ ch = ground (arith, v.old) in
      record {
        sends = v.sends;
        full = (put-IsJammed s.made_offers (make_chan 1) s other v).full;
        unmapped = insert_all (λ k c. c ≢ ch) s.waiting_chs host s.made_offers v.unmapped other;
        unheard = v.unheard;
        old = omega (arith, v.old);
      }

  waits-IsJammed :
      (host : String) (s : AnswererServer) → IsJammed ch o s → IsJammed ch o (wait_for_offer host s)
  unfolding wait_for_offer
  waits-IsJammed host s v = elim (Option-cases (s.waiting_chs host)) [
    | inl e ↦
        rw (e, wait_for_offer)
          (spawn-IsJammed (waiting_offer host s.made_offers) _ (ground (arith, v.old))
            (make_offers-IsJammed host s v))
    | inr (c, e) ↦
        rw (e, wait_for_offer) (spawn-IsJammed (waiting_offer host c) s (v.unmapped host c e) v)
  ]

  takes-IsJammed :
      (i : ℕ) (t : Thread) (s : AnswererServer)
      → NotWaiting ch t
      → IsJammed ch o s
      → Ensures (IsJammed ch o) (take_offer i t s)
  unfolding take_offer
  takes-IsJammed i (waiting_offer host c) s other v = taken (receive (s.offers c))
    where
      taken :
          (r : Option (Offering × Chan Offering))
          → Ensures (IsJammed ch o) (offer_received i host c s r)
      taken none = tt
      taken (some (x, d)) = goes-IsJammed i (noting host x) _ tt (put-IsJammed c d s other v)
  takes-IsJammed i _ s other v = tt

  pub route_offer-none :
      (x : Offering) (r : Router Offering) (s : AnswererServer)
      → r ≡ forwarding ch o
      → route_offer x r s ≡ none
  unfolding route_offer
  route_offer-none x r s e = rw e refl

  pub forward_offer-none :
      (r : Router Offering) (s : AnswererServer)
      → r ≡ forwarding ch o
      → send (s.offers ch) o ≡ none
      → forward_offer r s ≡ none
  unfolding forward_offer
  forward_offer-none r s e full = rw (e, forward_offer) (rw full refl)

  pub IsJammed-Keeps : Keeps (IsJammed ch o)
  IsJammed-Keeps = record {
    goes_ = λ i t s n v. goes-IsJammed i t s (neutral-NotWaiting ch t n) v;
    spawns = λ t s n v. spawn-IsJammed t s (neutral-NotWaiting ch t n) v;
    changes_ices = λ m f n r s v. record {
      sends = v.sends;
      full = v.full;
      unmapped = v.unmapped;
      unheard = v.unheard;
      old = v.old;
    };
    clears = λ host s v. record {
      sends = v.sends;
      full = v.full;
      unmapped = erase_all (λ k c. c ≢ ch) s.waiting_chs host v.unmapped;
      unheard = v.unheard;
      old = v.old;
    };
    waits = waits-IsJammed;
    takes = λ i s v. takes-IsJammed i (s.threads i) s (v.unheard i) v;
    routes = λ x s q v. rw (route_offer-none x s.offer_router s v.sends) tt;
    forwards = λ s v. rw (forward_offer-none s.offer_router s v.sends v.full) tt;
  }
