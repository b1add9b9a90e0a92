-- ===== src/Server/Offerer/Answers.antt =====
-- Where the answers of `answerRouter` come from: it receives all of them.
use yamrp.Prelude.{
  Bool-cases, Option, Option-cases, String, inl, inr, none, refl, some, subst, sym, ℕ, ◌==◌, ◌≡◌,
}
use yamrp.Errors.{Error, eof}
use yamrp.Server.Packets.{AnsPacket, IcePacket}
use yamrp.Server.Offerer.{
  Event, OffererServer, Router, Step, Thread, answer_arrives, answer_meets, clean_up, closing_ice,
  ctx_done, ctx_ends, deliver_answer, deliver_ice, forwarding, ice_arrives, ice_closed, ice_closes,
  ice_goes, ice_meets, ice_pushed, ice_received, ice_recv_returns, ice_send_returns, ice_sent, idle,
  left_pushing, left_receiving, notified, notify, notifying, offer_taken, offered, offering_,
  pushing, receiving, route_answer, route_ice, send_offer, sending_ice, sends_ice, sends_offer,
  sleep_ends, sleeping, step, wait_for_answer, wait_for_ice_candidate, waiting_answer, waiting_ice,
  waits_for_answer, waits_for_ice,
}
use yamrp.Server.Offerer.Owners.{Ensures}

-- The step leaves `answerRouter` where it is.
abbrev pub KeepsRouter : OffererServer → Step → Type 0
KeepsRouter s = Ensures (λ t. t.ans_router ≡ s.ans_router)

clean_up-KeepsRouter : (i : ℕ) (t : Thread) (s : OffererServer) → KeepsRouter s (clean_up i t s)
unfolding clean_up
clean_up-KeepsRouter i (sleeping ans) s = refl
clean_up-KeepsRouter i _ s = tt

notify-KeepsRouter : (i : ℕ) (t : Thread) (s : OffererServer) → KeepsRouter s (notify i t s)
unfolding notify
notify-KeepsRouter i (notifying host offer ans off) s = refl
notify-KeepsRouter i _ s = tt

offer_taken-KeepsRouter :
    (i : ℕ) (t : Thread) (s : OffererServer) → KeepsRouter s (offer_taken i t s)
unfolding offer_taken
offer_taken-KeepsRouter i (offering_ host offer ans off) s = refl
offer_taken-KeepsRouter i _ s = tt

ctx_done-KeepsRouter : (i : ℕ) (t : Thread) (s : OffererServer) → KeepsRouter s (ctx_done i t s)
unfolding ctx_done
ctx_done-KeepsRouter i (notifying host offer ans off) s = refl
ctx_done-KeepsRouter i (offering_ host offer ans off) s = refl
ctx_done-KeepsRouter i (waiting_answer ans ch) s = refl
ctx_done-KeepsRouter i (waiting_ice ans ch) s = refl
ctx_done-KeepsRouter i receiving s = refl
ctx_done-KeepsRouter i (pushing p) s = refl
ctx_done-KeepsRouter i _ s = tt

wait_for_answer-KeepsRouter :
    (ans : String) (s : OffererServer) → KeepsRouter s (wait_for_answer ans s)
unfolding wait_for_answer
wait_for_answer-KeepsRouter ans s = elim (Option-cases (s.ans_chans ans)) [
  | inl e ↦ rw (e, wait_for_answer) refl
  | inr (ch, e) ↦ rw (e, wait_for_answer) refl
]

wait_for_ice-KeepsRouter :
    (ans : String) (s : OffererServer) → KeepsRouter s (wait_for_ice_candidate ans s)
unfolding wait_for_ice_candidate
wait_for_ice-KeepsRouter ans s = elim (Option-cases (s.ice_chans ans)) [
  | inl e ↦ rw (e, wait_for_ice_candidate) refl
  | inr (ch, e) ↦ rw (e, wait_for_ice_candidate) refl
]

route_ice-KeepsRouter :
    (p : IcePacket) (s : OffererServer) (r : Router IcePacket) → KeepsRouter s (route_ice p s r)
unfolding route_ice
route_ice-KeepsRouter p s idle = elim (Option-cases (s.ice_chans p.answerer_id)) [
  | inl e ↦ rw (e, route_ice) refl
  | inr (ch, e) ↦ rw (e, route_ice) refl
]
route_ice-KeepsRouter p s (forwarding ch q) = tt

deliver_ice-KeepsRouter :
    (i : ℕ) (t : Thread) (r : Router IcePacket) (s : OffererServer)
    → KeepsRouter s (deliver_ice i t r s)
unfolding deliver_ice
deliver_ice-KeepsRouter i (waiting_ice ans ch) (forwarding to p) s = elim (Bool-cases (ch == to)) [
  | inl e ↦ rw e refl
  | inr e ↦ rw e tt
]
deliver_ice-KeepsRouter i _ _ s = tt

ice_sent-KeepsRouter :
    (i : ℕ) (t : Thread) (e : Option Error) (s : OffererServer) → KeepsRouter s (ice_sent i t e s)
unfolding ice_sent
ice_sent-KeepsRouter i (sending_ice ans ch ice) none s = refl
ice_sent-KeepsRouter i (sending_ice ans ch ice) (some eof) s = refl
ice_sent-KeepsRouter i (sending_ice ans ch ice) (some e) s = refl
ice_sent-KeepsRouter i _ e s = tt

ice_closed-KeepsRouter : (i : ℕ) (t : Thread) (s : OffererServer) → KeepsRouter s (ice_closed i t s)
unfolding ice_closed
ice_closed-KeepsRouter i (closing_ice ans r) s = refl
ice_closed-KeepsRouter i _ s = tt

ice_received-KeepsRouter :
    (i : ℕ) (t : Thread) (m : Option IcePacket) (s : OffererServer)
    → KeepsRouter s (ice_received i t m s)
unfolding ice_received
ice_received-KeepsRouter i receiving none s = refl
ice_received-KeepsRouter i receiving (some p) s = refl
ice_received-KeepsRouter i left_receiving none s = refl
ice_received-KeepsRouter i left_receiving (some p) s = refl
ice_received-KeepsRouter i _ m s = tt

ice_pushed-KeepsRouter : (i : ℕ) (t : Thread) (s : OffererServer) → KeepsRouter s (ice_pushed i t s)
unfolding ice_pushed
ice_pushed-KeepsRouter i (pushing p) s = refl
ice_pushed-KeepsRouter i (left_pushing p) s = refl
ice_pushed-KeepsRouter i _ s = tt

-- answerRouter takes no part in the step.
abbrev pub IsOther : Event → Type 0
IsOther (answer_arrives p) = ⊥
IsOther (answer_meets i) = ⊥
IsOther _ = Unit

pub step-KeepsRouter : (e : Event) (s : OffererServer) → IsOther e → KeepsRouter s (step e s)
unfolding step send_offer
step-KeepsRouter (sends_offer host offer ans off) s o = refl
step-KeepsRouter (waits_for_answer ans) s o = wait_for_answer-KeepsRouter ans s
step-KeepsRouter (waits_for_ice ans) s o = wait_for_ice-KeepsRouter ans s
step-KeepsRouter sends_ice s o = refl
step-KeepsRouter (sleep_ends i) s o = clean_up-KeepsRouter i (s.threads i) s
step-KeepsRouter (notified i) s o = notify-KeepsRouter i (s.threads i) s
step-KeepsRouter (offered i) s o = offer_taken-KeepsRouter i (s.threads i) s
step-KeepsRouter (ctx_ends i) s o = ctx_done-KeepsRouter i (s.threads i) s
step-KeepsRouter (ice_closes i) s o = ice_closed-KeepsRouter i (s.threads i) s
step-KeepsRouter (ice_goes i) s o = ice_pushed-KeepsRouter i (s.threads i) s
step-KeepsRouter (ice_send_returns i e) s o = ice_sent-KeepsRouter i (s.threads i) e s
step-KeepsRouter (ice_recv_returns i m) s o = ice_received-KeepsRouter i (s.threads i) m s
step-KeepsRouter (ice_arrives p) s o = route_ice-KeepsRouter p s s.ice_router
step-KeepsRouter (ice_meets i) s o = deliver_ice-KeepsRouter i (s.threads i) s.ice_router s
step-KeepsRouter (answer_arrives p) s o = absurd o
step-KeepsRouter (answer_meets i) s o = absurd o

-- For any property of answers: the answer that the router sends has it.
module _ (R : AnsPacket → Type 0) where
  abbrev pub RouterHas : Router AnsPacket → Type 0
  RouterHas idle = Unit
  RouterHas (forwarding ch p) = R p

  abbrev pub ArrivesWith : Event → Type 0
  ArrivesWith (answer_arrives p) = R p
  ArrivesWith _ = Unit

  abbrev Routed : OffererServer → Type 0
  Routed s = RouterHas s.ans_router

  same-Routed : (s : OffererServer) (o : Step) → Routed s → KeepsRouter s o → Ensures Routed o
  same-Routed s none v h = tt
  same-Routed s (some (t, out)) v h = subst RouterHas (sym h) v

  route_answer-Routed :
      (p : AnsPacket) (s : OffererServer) (r : Router AnsPacket)
      → R p
      → Routed s
      → Ensures Routed (route_answer p s r)
  unfolding route_answer
  route_answer-Routed p s idle has v = elim (Option-cases (s.ans_chans p.answerer_id)) [
    | inl e ↦ rw (e, route_answer) v
    | inr (ch, e) ↦ rw (e, route_answer) has
  ]
  route_answer-Routed p s (forwarding ch q) has v = tt

  deliver_answer-Routed :
      (i : ℕ) (t : Thread) (r : Router AnsPacket) (s : OffererServer)
      → Ensures Routed (deliver_answer i t r s)
  unfolding deliver_answer
  deliver_answer-Routed i (waiting_answer ans ch) (forwarding to p) s =
      elim (Bool-cases (ch == to)) [ inl e ↦ rw e tt | inr e ↦ rw e tt ]
  deliver_answer-Routed i _ _ s = tt

  pub step-Routed :
      (e : Event) (s : OffererServer)
      → ArrivesWith e
      → RouterHas s.ans_router
      → Ensures (λ t. RouterHas t.ans_router) (step e s)
  unfolding step
  step-Routed (answer_arrives p) s q v = route_answer-Routed p s s.ans_router q v
  step-Routed (answer_meets i) s q v = deliver_answer-Routed i (s.threads i) s.ans_router s
  step-Routed e s q v = same-Routed s (step e s) v (step-KeepsRouter e s tt)
