-- ===== src/Server/Offerer/Owners.antt =====
-- The invariant behind routing: which identifier each channel was made for.
use yamrp.Prelude.{String, arith, none, some, suc, update, update_all, ℕ, ◌<◌, ◌≡◌}
use yamrp.Server.Packets.{AnsPacket, IcePacket}
use yamrp.Server.Offerer.{
  Event, OffererServer, Router, Step, Thread, forwarding, goes, idle, sending_ice, sends_offer,
  spawn, waiting_answer, waiting_ice,
}

-- Channel `c` was made for the identifier `k`.
abbrev pub IsFor : (ℕ → String) → ℕ → ℕ → String → Type 0
IsFor owner made c k = (owner c ≡ k) × (c < made)

abbrev pub ThreadIsFor : (ℕ → String) → ℕ → Thread → Type 0
ThreadIsFor owner made (waiting_answer ans c) = IsFor owner made c ans
ThreadIsFor owner made (waiting_ice ans c) = IsFor owner made c ans
ThreadIsFor owner made (sending_ice ans c ice) = IsFor owner made c ans
ThreadIsFor owner made _ = Unit

abbrev pub AnsRouterIsFor : (ℕ → String) → ℕ → Router AnsPacket → Type 0
AnsRouterIsFor owner made idle = Unit
AnsRouterIsFor owner made (forwarding c p) = IsFor owner made c p.answerer_id

abbrev pub IceRouterIsFor : (ℕ → String) → ℕ → Router IcePacket → Type 0
IceRouterIsFor owner made idle = Unit
IceRouterIsFor owner made (forwarding c p) = IsFor owner made c p.answerer_id

-- Every channel that is mapped, waited on or sent to is the one made for the identifier at hand.
pub record Inv (owner : ℕ → String) (s : OffererServer) : Type 0 where
  pub ice_chans : (k : String) (c : ℕ) → s.ice_chans k ≡ some c → IsFor owner s.made c k
  pub ans_chans : (k : String) (c : ℕ) → s.ans_chans k ≡ some c → IsFor owner s.made c k
  pub ice_router : IceRouterIsFor owner s.made s.ice_router
  pub ans_router : AnsRouterIsFor owner s.made s.ans_router
  pub threads : (j : ℕ) → ThreadIsFor owner s.made (s.threads j)

-- A property of the state after a step, if the step happens.
abbrev pub Ensures {ℓ} : (OffererServer → Type ℓ) → Step → Type ℓ
Ensures P none = Unit
Ensures P (some (s, out)) = P s

module _ (owner : ℕ → String) where
  pub goes-Inv :
      (i : ℕ) (t : Thread) (s : OffererServer)
      → ThreadIsFor owner s.made t
      → Inv owner s
      → Inv owner (goes i t s)
  goes-Inv i t s n v = record {
    ice_chans = v.ice_chans;
    ans_chans = v.ans_chans;
    ice_router = v.ice_router;
    ans_router = v.ans_router;
    threads = update_all (ThreadIsFor owner s.made) s.threads i t v.threads n;
  }

  pub spawn-Inv :
      (t : Thread) (s : OffererServer)
      → ThreadIsFor owner s.made t
      → Inv owner s
      → Inv owner (spawn t s)
  spawn-Inv t s n v = record {
    ice_chans = v.ice_chans;
    ans_chans = v.ans_chans;
    ice_router = v.ice_router;
    ans_router = v.ans_router;
    threads = update_all (ThreadIsFor owner s.made) s.threads s.spawned t v.threads n;
  }

-- `SendOffer` makes two channels for its identifier; the others keep their owners.
abbrev pub adopt : (ℕ → String) → ℕ → String → ℕ → String
adopt owner made ans = update (update owner made ans) (suc made) ans

abbrev pub next_owner : Event → OffererServer → (ℕ → String) → ℕ → String
next_owner (sends_offer host offer ans off) s owner = adopt owner s.made ans
next_owner _ s owner = owner

module _ (owner : ℕ → String) (ans : String) (made : ℕ) where
  pub adopt-IsFor :
      (k : String) (c : ℕ)
      → IsFor owner made c k
      → IsFor (adopt owner made ans) (suc (suc made)) c k
  adopt-IsFor k c h = ground arith

  pub adopt-thread :
      (t : Thread)
      → ThreadIsFor owner made t
      → ThreadIsFor (adopt owner made ans) (suc (suc made)) t
  adopt-thread (waiting_answer k c) h = adopt-IsFor k c h
  adopt-thread (waiting_ice k c) h = adopt-IsFor k c h
  adopt-thread (sending_ice k c ice) h = adopt-IsFor k c h
  adopt-thread _ h = tt

  pub adopt-ans_router :
      (r : Router AnsPacket)
      → AnsRouterIsFor owner made r
      → AnsRouterIsFor (adopt owner made ans) (suc (suc made)) r
  adopt-ans_router idle h = tt
  adopt-ans_router (forwarding c p) h = adopt-IsFor p.answerer_id c h

  pub adopt-ice_router :
      (r : Router IcePacket)
      → IceRouterIsFor owner made r
      → IceRouterIsFor (adopt owner made ans) (suc (suc made)) r
  adopt-ice_router idle h = tt
  adopt-ice_router (forwarding c p) h = adopt-IsFor p.answerer_id c h
