-- ===== src/Server/Offerer/Lifetimes/Steps.antt =====
-- Every step leaves every entry of the maps a goroutine that will clear it.
use yamrp.Prelude.{
  Bool-cases, Option, Option-cases, String, erase, inl, inr, none, refl, some, ℕ, ◌==◌, ◌≡◌,
}
use yamrp.Errors.{Error, eof}
use yamrp.Server.Packets.{AnsPacket, IcePacket}
use yamrp.Schedules.{Ensures}
use yamrp.Server.Offerer.{
  Event, OffererServer, Router, Thread, answer_arrives, answer_meets, closing_ice, ctx_done,
  ctx_ends, deliver_answer, deliver_ice, forwarding, goes, ice_arrives, ice_closed, ice_closes,
  ice_goes, ice_meets, ice_pushed, ice_received, ice_recv_returns, ice_send_returns, ice_sent, idle,
  left_pushing, left_receiving, notified, notify, notifying, offer_taken, offered, offering_,
  pushing, receiving, returned, route_answer, route_ice, sending_ice, sends_ice, sends_offer,
  sleep_ends, step, timeout, wait_for_answer, wait_for_ice_candidate, waiting_answer, waiting_ice,
  waits_for_answer, waits_for_ice,
}
use yamrp.Server.Offerer.Lifetimes.{
  Timed, clean_up-Timed, goes-Timed, ice_erased-Timed, send_offer-Timed, spawn-Timed,
}

notify-Timed :
    (i : ℕ) (t : Thread) (s : OffererServer)
    → s.threads i ≡ t
    → Timed s
    → Ensures Timed (notify i t s)
unfolding notify
notify-Timed i (notifying host offer ans off) s is v = goes-Timed i _ _ s is tt v
notify-Timed i _ s is v = tt

offer_taken-Timed :
    (i : ℕ) (t : Thread) (s : OffererServer)
    → s.threads i ≡ t
    → Timed s
    → Ensures Timed (offer_taken i t s)
unfolding offer_taken
offer_taken-Timed i (offering_ host offer ans off) s is v = goes-Timed i _ _ s is tt v
offer_taken-Timed i _ s is v = tt

ctx_done-Timed :
    (i : ℕ) (t : Thread) (s : OffererServer)
    → s.threads i ≡ t
    → Timed s
    → Ensures Timed (ctx_done i t s)
unfolding ctx_done
ctx_done-Timed i (notifying host offer ans off) s is v = goes-Timed i _ _ s is tt v
ctx_done-Timed i (offering_ host offer ans off) s is v = goes-Timed i _ _ s is tt v
ctx_done-Timed i (waiting_answer ans ch) s is v = goes-Timed i _ _ s is tt v
ctx_done-Timed i (waiting_ice ans ch) s is v = goes-Timed i _ _ s is tt v
ctx_done-Timed i receiving s is v =
    spawn-Timed left_receiving (goes i (returned timeout) s) (goes-Timed i _ _ s is tt v)
ctx_done-Timed i (pushing p) s is v =
    spawn-Timed (left_pushing p) (goes i (returned timeout) s) (goes-Timed i _ _ s is tt v)
ctx_done-Timed i _ s is v = tt

wait_for_answer-Timed :
    (ans : String) (s : OffererServer) → Timed s → Ensures Timed (wait_for_answer ans s)
unfolding wait_for_answer
wait_for_answer-Timed ans s v = elim (Option-cases (s.ans_chans ans)) [
  | inl e ↦ rw (e, wait_for_answer) (spawn-Timed _ s v)
  | inr (ch, e) ↦ rw (e, wait_for_answer) (spawn-Timed _ s v)
]

wait_for_ice-Timed :
    (ans : String) (s : OffererServer) → Timed s → Ensures Timed (wait_for_ice_candidate ans s)
unfolding wait_for_ice_candidate
wait_for_ice-Timed ans s v = elim (Option-cases (s.ice_chans ans)) [
  | inl e ↦ rw (e, wait_for_ice_candidate) (spawn-Timed _ s v)
  | inr (ch, e) ↦ rw (e, wait_for_ice_candidate) (spawn-Timed _ s v)
]

route_answer-Timed :
    (p : AnsPacket) (s : OffererServer) (r : Router AnsPacket)
    → Timed s
    → Ensures Timed (route_answer p s r)
unfolding route_answer
route_answer-Timed p s idle v = elim (Option-cases (s.ans_chans p.answerer_id)) [
  | inl e ↦ rw (e, route_answer) v
  | inr (ch, e) ↦ rw (e, route_answer) v
]
route_answer-Timed p s (forwarding ch q) v = tt

route_ice-Timed :
    (p : IcePacket) (s : OffererServer) (r : Router IcePacket)
    → Timed s
    → Ensures Timed (route_ice p s r)
unfolding route_ice
route_ice-Timed p s idle v = elim (Option-cases (s.ice_chans p.answerer_id)) [
  | inl e ↦ rw (e, route_ice) v
  | inr (ch, e) ↦ rw (e, route_ice) v
]
route_ice-Timed p s (forwarding ch q) v = tt

deliver_answer-Timed :
    (i : ℕ) (t : Thread) (r : Router AnsPacket) (s : OffererServer)
    → s.threads i ≡ t
    → Timed s
    → Ensures Timed (deliver_answer i t r s)
unfolding deliver_answer
deliver_answer-Timed i (waiting_answer ans ch) (forwarding to p) s is v =
    elim (Bool-cases (ch == to)) [
      | inl e ↦ rw e (goes-Timed i _ _ (record s { ans_router = idle }) is tt v)
      | inr e ↦ rw e tt
    ]
deliver_answer-Timed i _ _ s is v = tt

deliver_ice-Timed :
    (i : ℕ) (t : Thread) (r : Router IcePacket) (s : OffererServer)
    → s.threads i ≡ t
    → Timed s
    → Ensures Timed (deliver_ice i t r s)
unfolding deliver_ice
deliver_ice-Timed i (waiting_ice ans ch) (forwarding to p) s is v = elim (Bool-cases (ch == to)) [
  | inl e ↦ rw e (goes-Timed i _ _ (record s { ice_router = idle }) is tt v)
  | inr e ↦ rw e tt
]
deliver_ice-Timed i _ _ s is v = tt

ice_sent-Timed :
    (i : ℕ) (t : Thread) (e : Option Error) (s : OffererServer)
    → s.threads i ≡ t
    → Timed s
    → Ensures Timed (ice_sent i t e s)
unfolding ice_sent
ice_sent-Timed i (sending_ice ans ch ice) none s is v = goes-Timed i _ _ s is tt v
ice_sent-Timed i (sending_ice ans ch ice) (some eof) s is v = goes-Timed i _ _ s is tt v
ice_sent-Timed i (sending_ice ans ch ice) (some e) s is v = goes-Timed i _ _ s is tt v
ice_sent-Timed i _ e s is v = tt

ice_closed-Timed :
    (i : ℕ) (t : Thread) (s : OffererServer)
    → s.threads i ≡ t
    → Timed s
    → Ensures Timed (ice_closed i t s)
unfolding ice_closed
ice_closed-Timed i (closing_ice ans r) s is v =
    goes-Timed i _ _ (record s { ice_chans = erase s.ice_chans ans }) is tt
      (ice_erased-Timed ans s v)
ice_closed-Timed i _ s is v = tt

ice_received-Timed :
    (i : ℕ) (t : Thread) (m : Option IcePacket) (s : OffererServer)
    → s.threads i ≡ t
    → Timed s
    → Ensures Timed (ice_received i t m s)
unfolding ice_received
ice_received-Timed i receiving none s is v = v
ice_received-Timed i receiving (some p) s is v = goes-Timed i _ _ s is tt v
ice_received-Timed i left_receiving none s is v = goes-Timed i _ _ s is tt v
ice_received-Timed i left_receiving (some p) s is v = goes-Timed i _ _ s is tt v
ice_received-Timed i _ m s is v = tt

ice_pushed-Timed :
    (i : ℕ) (t : Thread) (s : OffererServer)
    → s.threads i ≡ t
    → Timed s
    → Ensures Timed (ice_pushed i t s)
unfolding ice_pushed
ice_pushed-Timed i (pushing p) s is v = goes-Timed i _ _ s is tt v
ice_pushed-Timed i (left_pushing p) s is v = goes-Timed i _ _ s is tt v
ice_pushed-Timed i _ s is v = tt

pub step-Timed : (e : Event) (s : OffererServer) → Timed s → Ensures Timed (step e s)
unfolding step
step-Timed (sends_offer host offer ans off) s v = send_offer-Timed host offer ans off s v
step-Timed (waits_for_answer ans) s v = wait_for_answer-Timed ans s v
step-Timed (waits_for_ice ans) s v = wait_for_ice-Timed ans s v
step-Timed sends_ice s v = spawn-Timed receiving s v
step-Timed (sleep_ends i) s v = clean_up-Timed i _ s refl v
step-Timed (notified i) s v = notify-Timed i _ s refl v
step-Timed (offered i) s v = offer_taken-Timed i _ s refl v
step-Timed (ctx_ends i) s v = ctx_done-Timed i _ s refl v
step-Timed (ice_closes i) s v = ice_closed-Timed i _ s refl v
step-Timed (ice_goes i) s v = ice_pushed-Timed i _ s refl v
step-Timed (ice_send_returns i e) s v = ice_sent-Timed i _ e s refl v
step-Timed (ice_recv_returns i m) s v = ice_received-Timed i _ m s refl v
step-Timed (answer_arrives p) s v = route_answer-Timed p s s.ans_router v
step-Timed (ice_arrives p) s v = route_ice-Timed p s s.ice_router v
step-Timed (answer_meets i) s v = deliver_answer-Timed i _ s.ans_router s refl v
step-Timed (ice_meets i) s v = deliver_ice-Timed i _ s.ice_router s refl v
