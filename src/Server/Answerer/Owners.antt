-- ===== src/Server/Answerer/Owners.antt =====
-- Which host each channel of offers was made for.
use yamrp.Prelude.{
  All, Bool-cases, String, arith, inl, inr, insert_all, some, suc, update, update_all, ℕ, ◌<◌, ◌==◌,
  ◌≡◌,
}
use yamrp.Chan.{Chan, make_chan}
use yamrp.Server.Packets.{Offering}
use yamrp.Server.Answerer.{
  AnswererServer, Router, Thread, forwarding, goes, idle, make_offers, noting, spawn, waiting_offer,
}
use yamrp.Server.Answerer.Frames.{IsNeutral}

-- Channel `c` was made for the host `k`.
abbrev pub IsFor : (ℕ → String) → ℕ → ℕ → String → Type 0
IsFor owner made c k = (owner c ≡ k) × (c < made)

abbrev pub ThreadIsFor : (ℕ → String) → ℕ → Thread → Type 0
ThreadIsFor owner made (waiting_offer host c) = IsFor owner made c host
ThreadIsFor owner made (noting host o) = o.host_id ≡ host
ThreadIsFor owner made _ = Unit

abbrev pub RouterIsFor : (ℕ → String) → ℕ → Router Offering → Type 0
RouterIsFor owner made idle = Unit
RouterIsFor owner made (forwarding c o) = IsFor owner made c o.host_id

abbrev pub HoldsFor : (ℕ → String) → (ℕ → Chan Offering) → ℕ → Type 0
HoldsFor owner offers c = All (λ o. owner c ≡ o.host_id) (offers c).queue

-- Every offer lies in the channel of its host, and whoever waits for offers of a host or sends one
-- does so on a channel of that host.
pub record Owned (owner : ℕ → String) (s : AnswererServer) : Type 0 where
  pub mapped : (k : String) (c : ℕ) → s.waiting_chs k ≡ some c → IsFor owner s.made_offers c k
  pub held : (c : ℕ) → HoldsFor owner s.offers c
  pub router : RouterIsFor owner s.made_offers s.offer_router
  pub threads : (j : ℕ) → ThreadIsFor owner s.made_offers (s.threads j)

abbrev pub Inv : AnswererServer → Type 0
Inv s = (owner : ℕ → String) × Owned owner s

module _ (owner : ℕ → String) where
  pub neutral-IsFor : (made : ℕ) (t : Thread) → IsNeutral t → ThreadIsFor owner made t
  neutral-IsFor made (waiting_offer host ch) n = absurd n
  neutral-IsFor made (noting host o) n = absurd n
  neutral-IsFor made _ n = tt

  pub goes-Owned :
      (i : ℕ) (t : Thread) (s : AnswererServer)
      → ThreadIsFor owner s.made_offers t
      → Owned owner s
      → Owned owner (goes i t s)
  goes-Owned i t s n v = record {
    mapped = v.mapped;
    held = v.held;
    router = v.router;
    threads = update_all (ThreadIsFor owner s.made_offers) s.threads i t v.threads n;
  }

  pub spawn-Owned :
      (t : Thread) (s : AnswererServer)
      → ThreadIsFor owner s.made_offers t
      → Owned owner s
      → Owned owner (spawn t s)
  spawn-Owned t s n v = record {
    mapped = v.mapped;
    held = v.held;
    router = v.router;
    threads = update_all (ThreadIsFor owner s.made_offers) s.threads s.spawned t v.threads n;
  }

-- A new channel gets its owner; the others keep theirs.
module _ (owner : ℕ → String) (host : String) (made : ℕ) where
  abbrev pub adopted : ℕ → String
  adopted = update owner made host

  adopt-IsFor : (k : String) (c : ℕ) → IsFor owner made c k → IsFor adopted (suc made) c k
  adopt-IsFor k c h = ground arith

  adopt-thread : (t : Thread) → ThreadIsFor owner made t → ThreadIsFor adopted (suc made) t
  adopt-thread (waiting_offer k c) h = adopt-IsFor k c h
  adopt-thread (noting k o) h = h
  adopt-thread _ h = tt

  adopt-router : (r : Router Offering) → RouterIsFor owner made r → RouterIsFor adopted (suc made) r
  adopt-router idle h = tt
  adopt-router (forwarding c o) h = adopt-IsFor o.host_id c h

  adopt-held :
      (offers : ℕ → Chan Offering) (c : ℕ)
      → HoldsFor owner offers c
      → HoldsFor adopted (update offers made (make_chan 1)) c
  adopt-held offers c h = elim (Bool-cases (made == c)) [ inl e ↦ rw e tt | inr e ↦ rw e h ]

pub make_offers-Owned :
    (owner : ℕ → String) (host : String) (s : AnswererServer)
    → Owned owner s
    → Owned (adopted owner host s.made_offers) (make_offers host s)
make_offers-Owned owner host s v = record {
  mapped =
      insert_all (λ k c. IsFor (adopted owner host s.made_offers) (suc s.made_offers) c k)
        s.waiting_chs host s.made_offers
        (λ k c h. adopt-IsFor owner host s.made_offers k c (v.mapped k c h)) (ground arith);
  held = λ c. adopt-held owner host s.made_offers s.offers c (v.held c);
  router = adopt-router owner host s.made_offers s.offer_router v.router;
  threads = λ j. adopt-thread owner host s.made_offers (s.threads j) (v.threads j);
}
