-- ===== src/Server/Offerer/Blocked.antt =====
-- An answer that nobody waits for stops `answerRouter` for good.
use yamrp.Prelude.{
  Bool-cases, Option, Option-cases, String, arith, erase, erase_all, inl, inr, insert_all, none,
  some, suc, update_all, ℕ, ◌<◌, ◌==◌, ◌≡◌, ◌≢◌,
}
use yamrp.Errors.{Error, eof}
use yamrp.Server.Packets.{AnsPacket, IcePacket}
use yamrp.Server.Offerer.{
  OffererServer, Router, Thread, absent, clean_up, closing_ice, ctx_done, deliver_ice, forwarding,
  goes, ice_closed, ice_pushed, ice_received, ice_sent, idle, left_pushing, left_receiving, notify,
  notifying, offer_taken, offering_, pushing, receiving, returned, route_ice, send_offer,
  sending_ice, sleeping, spawn, wait_for_answer, wait_for_ice_candidate, waiting_answer,
  waiting_ice,
}
use yamrp.Server.Offerer.Owners.{Ensures}

-- No call waits for an answer on the channel.
abbrev pub NotWaiting : ℕ → Thread → Type 0
NotWaiting ch (waiting_answer ans c) = c ≢ ch
NotWaiting ch _ = Unit

-- The router is in its send on a channel that no call waits on and no call can find.
pub record IsBlocked (ch : ℕ) (p : AnsPacket) (s : OffererServer) : Type 0 where
  pub old : ch < s.made
  pub sends : s.ans_router ≡ forwarding ch p
  pub unmapped : (k : String) (c : ℕ) → s.ans_chans k ≡ some c → c ≢ ch
  pub unheard : (j : ℕ) → NotWaiting ch (s.threads j)

module _ (ch : ℕ) (p : AnsPacket) where
  pub goes-IsBlocked :
      (i : ℕ) (t : Thread) (s : OffererServer)
      → NotWaiting ch t
      → IsBlocked ch p s
      → IsBlocked ch p (goes i t s)
  goes-IsBlocked i t s n v = record {
    old = v.old;
    sends = v.sends;
    unmapped = v.unmapped;
    unheard = update_all (NotWaiting ch) s.threads i t v.unheard n;
  }

  pub spawn-IsBlocked :
      (t : Thread) (s : OffererServer)
      → NotWaiting ch t
      → IsBlocked ch p s
      → IsBlocked ch p (spawn t s)
  spawn-IsBlocked t s n v = record {
    old = v.old;
    sends = v.sends;
    unmapped = v.unmapped;
    unheard = update_all (NotWaiting ch) s.threads s.spawned t v.unheard n;
  }

  pub send_offer-IsBlocked :
      (host offer ans off : String) (s : OffererServer)
      → IsBlocked ch p s
      → Ensures (IsBlocked ch p) (send_offer host offer ans off s)
  unfolding send_offer
  send_offer-IsBlocked host offer ans off s v =
      spawn-IsBlocked (notifying host offer ans off) _ tt (
        spawn-IsBlocked (sleeping ans) _ tt (record {
          old = omega (arith, v.old);
          sends = v.sends;
          unmapped =
              insert_all (λ k c. c ≢ ch) s.ans_chans ans (suc s.made) v.unmapped
                (omega (arith, v.old));
          unheard = v.unheard;
        }))

  pub clean_up-IsBlocked :
      (i : ℕ) (t : Thread) (s : OffererServer)
      → IsBlocked ch p s
      → Ensures (IsBlocked ch p) (clean_up i t s)
  unfolding clean_up
  clean_up-IsBlocked i (sleeping ans) s v = goes-IsBlocked i absent _ tt (record {
    old = v.old;
    sends = v.sends;
    unmapped = erase_all (λ k c. c ≢ ch) s.ans_chans ans v.unmapped;
    unheard = v.unheard;
  })
  clean_up-IsBlocked i _ s v = tt

  pub notify-IsBlocked :
      (i : ℕ) (t : Thread) (s : OffererServer)
      → IsBlocked ch p s
      → Ensures (IsBlocked ch p) (notify i t s)
  unfolding notify
  notify-IsBlocked i (notifying host offer ans off) s v = goes-IsBlocked i _ s tt v
  notify-IsBlocked i _ s v = tt

  pub offer_taken-IsBlocked :
      (i : ℕ) (t : Thread) (s : OffererServer)
      → IsBlocked ch p s
      → Ensures (IsBlocked ch p) (offer_taken i t s)
  unfolding offer_taken
  offer_taken-IsBlocked i (offering_ host offer ans off) s v = goes-IsBlocked i _ s tt v
  offer_taken-IsBlocked i _ s v = tt

  pub ctx_done-IsBlocked :
      (i : ℕ) (t : Thread) (s : OffererServer)
      → IsBlocked ch p s
      → Ensures (IsBlocked ch p) (ctx_done i t s)
  unfolding ctx_done
  ctx_done-IsBlocked i (notifying host offer ans off) s v = goes-IsBlocked i _ s tt v
  ctx_done-IsBlocked i (offering_ host offer ans off) s v = goes-IsBlocked i _ s tt v
  ctx_done-IsBlocked i (waiting_answer ans c) s v = goes-IsBlocked i _ s tt v
  ctx_done-IsBlocked i (waiting_ice ans c) s v = goes-IsBlocked i _ s tt v
  ctx_done-IsBlocked i receiving s v =
      spawn-IsBlocked left_receiving _ tt (goes-IsBlocked i _ s tt v)
  ctx_done-IsBlocked i (pushing q) s v =
      spawn-IsBlocked (left_pushing q) _ tt (goes-IsBlocked i _ s tt v)
  ctx_done-IsBlocked i _ s v = tt

  pub wait_for_answer-IsBlocked :
      (ans : String) (s : OffererServer)
      → IsBlocked ch p s
      → Ensures (IsBlocked ch p) (wait_for_answer ans s)
  unfolding wait_for_answer
  wait_for_answer-IsBlocked ans s v = elim (Option-cases (s.ans_chans ans)) [
    | inl e ↦ rw (e, wait_for_answer) (spawn-IsBlocked _ s tt v)
    | inr (c, e) ↦
        rw (e, wait_for_answer) (spawn-IsBlocked (waiting_answer ans c) s (v.unmapped ans c e) v)
  ]

  pub wait_for_ice-IsBlocked :
      (ans : String) (s : OffererServer)
      → IsBlocked ch p s
      → Ensures (IsBlocked ch p) (wait_for_ice_candidate ans s)
  unfolding wait_for_ice_candidate
  wait_for_ice-IsBlocked ans s v = elim (Option-cases (s.ice_chans ans)) [
    | inl e ↦ rw (e, wait_for_ice_candidate) (spawn-IsBlocked _ s tt v)
    | inr (c, e) ↦ rw (e, wait_for_ice_candidate) (spawn-IsBlocked (waiting_ice ans c) s tt v)
  ]

  pub route_ice-IsBlocked :
      (q : IcePacket) (s : OffererServer) (r : Router IcePacket)
      → IsBlocked ch p s
      → Ensures (IsBlocked ch p) (route_ice q s r)
  unfolding route_ice
  route_ice-IsBlocked q s idle v = elim (Option-cases (s.ice_chans q.answerer_id)) [
    | inl e ↦ rw (e, route_ice) v
    | inr (c, e) ↦
        rw (e, route_ice)
          (record { old = v.old; sends = v.sends; unmapped = v.unmapped; unheard = v.unheard })
  ]
  route_ice-IsBlocked q s (forwarding c q') v = tt

  pub deliver_ice-IsBlocked :
      (i : ℕ) (t : Thread) (r : Router IcePacket) (s : OffererServer)
      → IsBlocked ch p s
      → Ensures (IsBlocked ch p) (deliver_ice i t r s)
  unfolding deliver_ice
  deliver_ice-IsBlocked i (waiting_ice ans c) (forwarding to q) s v = elim (Bool-cases (c == to)) [
    | inl e ↦
        rw (e, deliver_ice)
          (goes-IsBlocked i (sending_ice ans c q.ice_candidate) (record s { ice_router = idle }) tt
            (record { old = v.old; sends = v.sends; unmapped = v.unmapped; unheard = v.unheard }))
    | inr e ↦ rw (e, deliver_ice) tt
  ]
  deliver_ice-IsBlocked i _ _ s v = tt

  pub ice_sent-IsBlocked :
      (i : ℕ) (t : Thread) (e : Option Error) (s : OffererServer)
      → IsBlocked ch p s
      → Ensures (IsBlocked ch p) (ice_sent i t e s)
  unfolding ice_sent
  ice_sent-IsBlocked i (sending_ice ans c ice) none s v =
      goes-IsBlocked i (waiting_ice ans c) s tt v
  ice_sent-IsBlocked i (sending_ice ans c ice) (some eof) s v = goes-IsBlocked i _ s tt v
  ice_sent-IsBlocked i (sending_ice ans c ice) (some _) s v = goes-IsBlocked i _ s tt v
  ice_sent-IsBlocked i _ e s v = tt

  pub ice_closed-IsBlocked :
      (i : ℕ) (t : Thread) (s : OffererServer)
      → IsBlocked ch p s
      → Ensures (IsBlocked ch p) (ice_closed i t s)
  unfolding ice_closed
  ice_closed-IsBlocked i (closing_ice ans r) s v =
      goes-IsBlocked i (returned r) (record s { ice_chans = erase s.ice_chans ans }) tt
        (record { old = v.old; sends = v.sends; unmapped = v.unmapped; unheard = v.unheard })
  ice_closed-IsBlocked i _ s v = tt

  pub ice_received-IsBlocked :
      (i : ℕ) (t : Thread) (m : Option IcePacket) (s : OffererServer)
      → IsBlocked ch p s
      → Ensures (IsBlocked ch p) (ice_received i t m s)
  unfolding ice_received
  ice_received-IsBlocked i receiving none s v = v
  ice_received-IsBlocked i receiving (some q) s v = goes-IsBlocked i _ s tt v
  ice_received-IsBlocked i left_receiving none s v = goes-IsBlocked i _ s tt v
  ice_received-IsBlocked i left_receiving (some q) s v = goes-IsBlocked i _ s tt v
  ice_received-IsBlocked i _ m s v = tt

  pub ice_pushed-IsBlocked :
      (i : ℕ) (t : Thread) (s : OffererServer)
      → IsBlocked ch p s
      → Ensures (IsBlocked ch p) (ice_pushed i t s)
  unfolding ice_pushed
  ice_pushed-IsBlocked i (pushing q) s v = goes-IsBlocked i _ s tt v
  ice_pushed-IsBlocked i (left_pushing q) s v = goes-IsBlocked i _ s tt v
  ice_pushed-IsBlocked i _ s v = tt
