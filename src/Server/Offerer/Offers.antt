-- ===== src/Server/Offerer/Offers.antt =====
-- Where the offers that the service sends to the answerer service come from: from its calls of
-- SendOffer, for any property of offers that these have.
use yamrp.Prelude.{
  Bool-cases, Option, Option-cases, String, inl, inr, none, some, suc, update, update_all, ℕ, ◌==◌,
}
use yamrp.Errors.{Error, eof, not_found}
use yamrp.Server.Packets.{AnsPacket, IcePacket, Offering}
use yamrp.Server.Offerer.{
  Event, OffererServer, Output, Router, Step, Thread, absent, answer_arrives, answer_meets,
  answer_response, clean_up, closed_stream, closing_ice, ctx_done, ctx_ends, deliver_answer,
  deliver_ice, failed, forwarding, ice_arrives, ice_closed, ice_closes, ice_goes, ice_meets,
  ice_pushed, ice_received, ice_recv_returns, ice_send_returns, ice_sent, idle, left_pushing,
  left_receiving, notified, notify, notifying, offer_response, offer_taken, offered, offering_,
  pushing, receiving, returned, route_answer, route_ice, send_offer, send_offering, sending_ice,
  sends_ice, sends_offer, sleep_ends, sleeping, step, stuck, timeout, wait_for_answer,
  wait_for_ice_candidate, waiting_answer, waiting_ice, waits_for_answer, waits_for_ice,
}

module _ (Q : Offering → Type 0) where
  abbrev pub HasOffer : Thread → Type 0
  HasOffer (notifying host offer ans off) =
      Q (record { host_id = host; answerer_id = ans; offer = offer })
  HasOffer (offering_ host offer ans off) =
      Q (record { host_id = host; answerer_id = ans; offer = offer })
  HasOffer _ = Unit

  abbrev pub Holding : OffererServer → Type 0
  Holding s = (j : ℕ) → HasOffer (s.threads j)

  abbrev pub OutputHas : Output → Type 0
  OutputHas (send_offering o) = Q o
  OutputHas _ = Unit

  abbrev pub SendsWith : Event → Type 0
  SendsWith (sends_offer host offer ans off) =
      Q (record { host_id = host; answerer_id = ans; offer = offer })
  SendsWith _ = Unit

  -- What a step leaves and what it puts out.
  abbrev pub Gives : Step → Type 0
  Gives none = Unit
  Gives (some (s, out)) = Holding s × OutputHas out

  put :
      (f : ℕ → Thread) (i : ℕ) (t : Thread)
      → HasOffer t
      → ((j : ℕ) → HasOffer (f j))
      → (j : ℕ) → HasOffer (update f i t j)
  put f i t h v = update_all HasOffer f i t v h

  send_offer-Gives :
      (host offer ans off : String) (s : OffererServer)
      → Q (record { host_id = host; answerer_id = ans; offer = offer })
      → Holding s
      → Gives (send_offer host offer ans off s)
  unfolding send_offer
  send_offer-Gives host offer ans off s q v = (
    put (update s.threads s.spawned (sleeping ans)) (suc s.spawned) (notifying host offer ans off) q
        (put s.threads s.spawned (sleeping ans) tt v),
    tt,
  )

  clean_up-Gives : (i : ℕ) (t : Thread) (s : OffererServer) → Holding s → Gives (clean_up i t s)
  unfolding clean_up
  clean_up-Gives i (sleeping ans) s v = (put s.threads i absent tt v, tt)
  clean_up-Gives i _ s v = tt

  notify-Gives :
      (i : ℕ) (t : Thread) (s : OffererServer) → HasOffer t → Holding s → Gives (notify i t s)
  unfolding notify
  notify-Gives i (notifying host offer ans off) s h v =
      (put s.threads i (offering_ host offer ans off) h v, tt)
  notify-Gives i _ s h v = tt

  -- The goroutine holds an offer with the property.
  offer_taken-Gives :
      (i : ℕ) (t : Thread) (s : OffererServer) → HasOffer t → Holding s → Gives (offer_taken i t s)
  unfolding offer_taken
  offer_taken-Gives i (offering_ host offer ans off) s h v =
      (put s.threads i (returned (offer_response off ans)) tt v, h)
  offer_taken-Gives i _ s h v = tt

  ctx_done-Gives : (i : ℕ) (t : Thread) (s : OffererServer) → Holding s → Gives (ctx_done i t s)
  unfolding ctx_done
  ctx_done-Gives i (notifying host offer ans off) s v =
      (put s.threads i (returned timeout) tt v, tt)
  ctx_done-Gives i (offering_ host offer ans off) s v =
      (put s.threads i (returned timeout) tt v, tt)
  ctx_done-Gives i (waiting_answer ans ch) s v = (put s.threads i (returned timeout) tt v, tt)
  ctx_done-Gives i (waiting_ice ans ch) s v =
      (put s.threads i (closing_ice ans closed_stream) tt v, tt)
  ctx_done-Gives i receiving s v =
      let r = returned timeout in
      (put (update s.threads i r) s.spawned left_receiving tt (put s.threads i r tt v), tt)
  ctx_done-Gives i (pushing p) s v =
      let r = returned timeout in
      (put (update s.threads i r) s.spawned (left_pushing p) tt (put s.threads i r tt v), tt)
  ctx_done-Gives i _ s v = tt

  wait_for_answer-Gives :
      (ans : String) (s : OffererServer) → Holding s → Gives (wait_for_answer ans s)
  unfolding wait_for_answer
  wait_for_answer-Gives ans s v = elim (Option-cases (s.ans_chans ans)) [
    | inl e ↦
        let gone = returned (failed (Error.status not_found)) in
        rw (e, wait_for_answer) (put s.threads s.spawned gone tt v, tt)
    | inr (ch, e) ↦
        rw (e, wait_for_answer) (put s.threads s.spawned (waiting_answer ans ch) tt v, tt)
  ]

  wait_for_ice-Gives :
      (ans : String) (s : OffererServer) → Holding s → Gives (wait_for_ice_candidate ans s)
  unfolding wait_for_ice_candidate
  wait_for_ice-Gives ans s v = elim (Option-cases (s.ice_chans ans)) [
    | inl e ↦
        let gone = returned (failed (Error.status not_found)) in
        rw (e, wait_for_ice_candidate) (put s.threads s.spawned gone tt v, tt)
    | inr (ch, e) ↦
        rw (e, wait_for_ice_candidate) (put s.threads s.spawned (waiting_ice ans ch) tt v, tt)
  ]

  route_answer-Gives :
      (p : AnsPacket) (s : OffererServer) (r : Router AnsPacket)
      → Holding s
      → Gives (route_answer p s r)
  unfolding route_answer
  route_answer-Gives p s idle v = elim (Option-cases (s.ans_chans p.answerer_id)) [
    | inl e ↦ rw (e, route_answer) (v, tt)
    | inr (ch, e) ↦ rw (e, route_answer) (v, tt)
  ]
  route_answer-Gives p s (forwarding ch q) v = tt

  route_ice-Gives :
      (p : IcePacket) (s : OffererServer) (r : Router IcePacket)
      → Holding s
      → Gives (route_ice p s r)
  unfolding route_ice
  route_ice-Gives p s idle v = elim (Option-cases (s.ice_chans p.answerer_id)) [
    | inl e ↦ rw (e, route_ice) (v, tt)
    | inr (ch, e) ↦ rw (e, route_ice) (v, tt)
  ]
  route_ice-Gives p s (forwarding ch q) v = tt

  deliver_answer-Gives :
      (i : ℕ) (t : Thread) (r : Router AnsPacket) (s : OffererServer)
      → Holding s
      → Gives (deliver_answer i t r s)
  unfolding deliver_answer
  deliver_answer-Gives i (waiting_answer ans ch) (forwarding to p) s v =
      elim (Bool-cases (ch == to)) [
        | inl e ↦ rw e (put s.threads i (returned (answer_response p.answer)) tt v, tt)
        | inr e ↦ rw e tt
      ]
  deliver_answer-Gives i _ _ s v = tt

  deliver_ice-Gives :
      (i : ℕ) (t : Thread) (r : Router IcePacket) (s : OffererServer)
      → Holding s
      → Gives (deliver_ice i t r s)
  unfolding deliver_ice
  deliver_ice-Gives i (waiting_ice ans ch) (forwarding to p) s v = elim (Bool-cases (ch == to)) [
    | inl e ↦ rw e (put s.threads i (sending_ice ans ch p.ice_candidate) tt v, tt)
    | inr e ↦ rw e tt
  ]
  deliver_ice-Gives i _ _ s v = tt

  ice_sent-Gives :
      (i : ℕ) (t : Thread) (e : Option Error) (s : OffererServer)
      → Holding s
      → Gives (ice_sent i t e s)
  unfolding ice_sent
  ice_sent-Gives i (sending_ice ans ch ice) none s v =
      (put s.threads i (waiting_ice ans ch) tt v, tt)
  ice_sent-Gives i (sending_ice ans ch ice) (some eof) s v =
      (put s.threads i (closing_ice ans closed_stream) tt v, tt)
  ice_sent-Gives i (sending_ice ans ch ice) (some e) s v =
      (put s.threads i (closing_ice ans (failed e)) tt v, tt)
  ice_sent-Gives i _ e s v = tt

  ice_closed-Gives : (i : ℕ) (t : Thread) (s : OffererServer) → Holding s → Gives (ice_closed i t s)
  unfolding ice_closed
  ice_closed-Gives i (closing_ice ans r) s v = (put s.threads i (returned r) tt v, tt)
  ice_closed-Gives i _ s v = tt

  ice_received-Gives :
      (i : ℕ) (t : Thread) (m : Option IcePacket) (s : OffererServer)
      → Holding s
      → Gives (ice_received i t m s)
  unfolding ice_received
  ice_received-Gives i receiving none s v = (v, tt)
  ice_received-Gives i receiving (some p) s v = (put s.threads i (pushing p) tt v, tt)
  ice_received-Gives i left_receiving none s v = (put s.threads i stuck tt v, tt)
  ice_received-Gives i left_receiving (some p) s v = (put s.threads i (left_pushing p) tt v, tt)
  ice_received-Gives i _ m s v = tt

  ice_pushed-Gives : (i : ℕ) (t : Thread) (s : OffererServer) → Holding s → Gives (ice_pushed i t s)
  unfolding ice_pushed
  ice_pushed-Gives i (pushing p) s v = (put s.threads i receiving tt v, tt)
  ice_pushed-Gives i (left_pushing p) s v = (put s.threads i stuck tt v, tt)
  ice_pushed-Gives i _ s v = tt

  pub step-Gives : (e : Event) (s : OffererServer) → SendsWith e → Holding s → Gives (step e s)
  unfolding step
  step-Gives (sends_offer host offer ans off) s q v = send_offer-Gives host offer ans off s q v
  step-Gives (waits_for_answer ans) s q v = wait_for_answer-Gives ans s v
  step-Gives (waits_for_ice ans) s q v = wait_for_ice-Gives ans s v
  step-Gives sends_ice s q v = (put s.threads s.spawned receiving tt v, tt)
  step-Gives (sleep_ends i) s q v = clean_up-Gives i (s.threads i) s v
  step-Gives (notified i) s q v = notify-Gives i (s.threads i) s (v i) v
  step-Gives (offered i) s q v = offer_taken-Gives i (s.threads i) s (v i) v
  step-Gives (ctx_ends i) s q v = ctx_done-Gives i (s.threads i) s v
  step-Gives (ice_closes i) s q v = ice_closed-Gives i (s.threads i) s v
  step-Gives (ice_goes i) s q v = ice_pushed-Gives i (s.threads i) s v
  step-Gives (ice_send_returns i e) s q v = ice_sent-Gives i (s.threads i) e s v
  step-Gives (ice_recv_returns i m) s q v = ice_received-Gives i (s.threads i) m s v
  step-Gives (answer_arrives p) s q v = route_answer-Gives p s s.ans_router v
  step-Gives (ice_arrives p) s q v = route_ice-Gives p s s.ice_router v
  step-Gives (answer_meets i) s q v = deliver_answer-Gives i (s.threads i) s.ans_router s v
  step-Gives (ice_meets i) s q v = deliver_ice-Gives i (s.threads i) s.ice_router s v
