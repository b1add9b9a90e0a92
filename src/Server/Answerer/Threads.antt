-- ===== src/Server/Answerer/Threads.antt =====
-- What an invariant of the goroutines of the service has to keep, where the calls of SendAnswer
-- matter and the others do not.
use yamrp.Prelude.{Option, Option-cases, String, inl, inr, none, refl, some, suc, update, ℕ, ◌≡◌}
use yamrp.Errors.{Error, eof, not_found}
use yamrp.Server.Packets.{AnsPacket, IcePacket, Offering}
use yamrp.Chan.{receive, send}
use yamrp.Server.Answerer.{
  AnswererServer, Event, Router, Step, Thread, answer_response, answered, answering, clean_up,
  close_arrives, close_ice, close_received, ctx_done, ctx_ends, failed, forward_ice, forward_offer,
  forwarding, ice_arrives, ice_forwards, ice_goes, ice_pushed, ice_received, ice_recv_returns,
  ice_send_returns, ice_sent, idle, left_pushing, left_receiving, note_offer, notes_offer, noting,
  offer_arrives, offer_goes, push_answer, pushing, receiving, returned, route_ice, route_offer,
  send_answer, sending_ice, sends_answer, sends_ice, sleep_ends, sleeping_ice, sleeping_offer, step,
  take_ice, take_offer, takes_ice, takes_offer, wait_for_ice_candidate, wait_for_offer, waiting_ice,
  waiting_offer, waits_for_ice, waits_for_offer,
}

-- A goroutine that is not in SendAnswer.
abbrev pub IsQuiet : Thread → Type 0
IsQuiet (answering p) = ⊥
IsQuiet _ = Unit

-- An invariant of the table of goroutines and their number, what holds of it when an answer has
-- been sent, and what the calls of SendAnswer bring.
pub record KeepsCalls (P : (ℕ → Thread) → ℕ → Type 0) (Sent : AnsPacket → (ℕ → Thread) → ℕ → Type 0)
    (Called : AnsPacket → Type 0) : Type 0 where
  pub puts : (f : ℕ → Thread) (n i : ℕ) (t : Thread) → IsQuiet t → P f n → P (update f i t) n
  pub adds : (f : ℕ → Thread) (n : ℕ) (t : Thread) → IsQuiet t → P f n → P (update f n t) (suc n)
  pub calls :
      (f : ℕ → Thread) (n : ℕ) (p : AnsPacket)
      → Called p
      → P f n
      → P (update f n (answering p)) (suc n)
  pub sends :
      (f : ℕ → Thread) (n i : ℕ) (p : AnsPacket)
      → f i ≡ answering p
      → P f n
      → Sent p (update f i (returned answer_response)) n

abbrev pub SendsWith : (AnsPacket → Type 0) → Event → Type 0
SendsWith Called (sends_answer p) = Called p
SendsWith Called _ = Unit

-- What a step leaves and what it puts out.
abbrev pub Gives :
    ((ℕ → Thread) → ℕ → Type 0) → (AnsPacket → (ℕ → Thread) → ℕ → Type 0) → Step → Type 0
Gives P Sent none = Unit
Gives P Sent (some (s, push_answer p)) = Sent p s.threads s.spawned
Gives P Sent (some (s, out)) = P s.threads s.spawned

module _ {P : (ℕ → Thread) → ℕ → Type 0} {Sent : AnsPacket → (ℕ → Thread) → ℕ → Type 0}
    {Called : AnsPacket → Type 0} (k : KeepsCalls P Sent Called) where
  abbrev Has : AnswererServer → Type 0
  Has s = P s.threads s.spawned

  abbrev Gives_ : Step → Type 0
  Gives_ = Gives P Sent

  wait_for_offer-Keeps : (host : String) (s : AnswererServer) → Has s → Has (wait_for_offer host s)
  unfolding wait_for_offer
  wait_for_offer-Keeps host s v = elim (Option-cases (s.waiting_chs host)) [
    | inl e ↦ rw (e, wait_for_offer) (k.adds _ _ _ tt v)
    | inr (ch, e) ↦ rw (e, wait_for_offer) (k.adds _ _ _ tt v)
  ]

  take_offer-Gives : (i : ℕ) (t : Thread) (s : AnswererServer) → Has s → Gives_ (take_offer i t s)
  unfolding take_offer
  take_offer-Gives i (waiting_offer host ch) s v = elim (Option-cases (receive (s.offers ch))) [
    | inl e ↦ rw e tt
    | inr ((o, c), e) ↦ rw e (k.puts _ _ _ _ tt v)
  ]
  take_offer-Gives i _ s v = tt

  note_offer-Gives : (i : ℕ) (t : Thread) (s : AnswererServer) → Has s → Gives_ (note_offer i t s)
  unfolding note_offer
  note_offer-Gives i (noting host o) s v = elim (Option-cases (s.ice_chans o.answerer_id)) [
    | inl e ↦ rw (e, note_offer) (k.puts _ _ _ _ tt (k.adds _ _ _ tt v))
    | inr (ch, e) ↦ rw (e, note_offer) (k.puts _ _ _ _ tt v)
  ]
  note_offer-Gives i _ s v = tt

  send_answer-Gives :
      (i : ℕ) (t : Thread) (s : AnswererServer)
      → s.threads i ≡ t
      → Has s
      → Gives_ (send_answer i t s)
  unfolding send_answer
  send_answer-Gives i (answering p) s h v = k.sends s.threads s.spawned i p h v
  send_answer-Gives i _ s h v = tt

  ctx_done-Gives : (i : ℕ) (t : Thread) (s : AnswererServer) → Has s → Gives_ (ctx_done i t s)
  unfolding ctx_done close_ice
  ctx_done-Gives i (waiting_offer host ch) s v = (k.puts _ _ _ _ tt v)
  ctx_done-Gives i (answering p) s v = (k.puts _ _ _ _ tt v)
  ctx_done-Gives i receiving s v = k.adds _ _ _ tt (k.puts _ _ _ _ tt v)
  ctx_done-Gives i (pushing p) s v = k.adds _ _ _ tt (k.puts _ _ _ _ tt v)
  ctx_done-Gives i (waiting_ice ans ch) s v = (k.puts _ _ _ _ tt v)
  ctx_done-Gives i _ s v = tt

  ice_received-Gives :
      (i : ℕ) (t : Thread) (m : Option IcePacket) (s : AnswererServer)
      → Has s
      → Gives_ (ice_received i t m s)
  unfolding ice_received
  ice_received-Gives i receiving none s v = v
  ice_received-Gives i receiving (some p) s v = (k.puts _ _ _ _ tt v)
  ice_received-Gives i left_receiving none s v = (k.puts _ _ _ _ tt v)
  ice_received-Gives i left_receiving (some p) s v = (k.puts _ _ _ _ tt v)
  ice_received-Gives i _ m s v = tt

  ice_pushed-Gives : (i : ℕ) (t : Thread) (s : AnswererServer) → Has s → Gives_ (ice_pushed i t s)
  unfolding ice_pushed
  ice_pushed-Gives i (pushing p) s v = (k.puts _ _ _ _ tt v)
  ice_pushed-Gives i (left_pushing p) s v = (k.puts _ _ _ _ tt v)
  ice_pushed-Gives i _ s v = tt

  wait_for_ice-Keeps :
      (ans : String) (s : AnswererServer) → Has s → Has (wait_for_ice_candidate ans s)
  unfolding wait_for_ice_candidate
  wait_for_ice-Keeps ans s v = elim (Option-cases (s.ice_chans ans)) [
    | inl e ↦
        rw (e, wait_for_ice_candidate)
          (k.adds s.threads s.spawned (returned (failed (Error.status not_found))) tt v)
    | inr (ch, e) ↦ rw (e, wait_for_ice_candidate) (k.adds _ _ _ tt v)
  ]

  take_ice-Gives : (i : ℕ) (t : Thread) (s : AnswererServer) → Has s → Gives_ (take_ice i t s)
  unfolding take_ice
  take_ice-Gives i (waiting_ice ans ch) s v = elim (Option-cases (receive (s.ices ch))) [
    | inl e ↦ rw e tt
    | inr ((ice, c), e) ↦ rw e (k.puts _ _ _ _ tt v)
  ]
  take_ice-Gives i _ s v = tt

  ice_sent-Gives :
      (i : ℕ) (t : Thread) (e : Option Error) (s : AnswererServer)
      → Has s
      → Gives_ (ice_sent i t e s)
  unfolding ice_sent close_ice
  ice_sent-Gives i (sending_ice ans ch ice) none s v = (k.puts _ _ _ _ tt v)
  ice_sent-Gives i (sending_ice ans ch ice) (some eof) s v = (k.puts _ _ _ _ tt v)
  ice_sent-Gives i (sending_ice ans ch ice) (some e) s v = (k.puts _ _ _ _ tt v)
  ice_sent-Gives i _ e s v = tt

  clean_up-Gives : (i : ℕ) (t : Thread) (s : AnswererServer) → Has s → Gives_ (clean_up i t s)
  unfolding clean_up
  clean_up-Gives i (sleeping_offer host) s v = (k.puts _ _ _ _ tt v)
  clean_up-Gives i (sleeping_ice ans) s v = (k.puts _ _ _ _ tt v)
  clean_up-Gives i _ s v = tt

  route_offer-Gives :
      (o : Offering) (r : Router Offering) (s : AnswererServer) → Has s → Gives_ (route_offer o r s)
  unfolding route_offer
  route_offer-Gives o idle s v = elim (Option-cases (s.waiting_chs o.host_id)) [
    | inl e ↦ rw (e, route_offer) (k.adds _ _ _ tt v)
    | inr (ch, e) ↦ rw (e, route_offer) v
  ]
  route_offer-Gives o (forwarding ch p) s v = tt

  forward_offer-Gives :
      (r : Router Offering) (s : AnswererServer) → Has s → Gives_ (forward_offer r s)
  unfolding forward_offer
  forward_offer-Gives (forwarding ch o) s v = elim (Option-cases (send (s.offers ch) o)) [
    | inl e ↦ rw e tt
    | inr (c, e) ↦ rw e v
  ]
  forward_offer-Gives idle s v = tt

  route_ice-Gives :
      (p : IcePacket) (r : Router IcePacket) (s : AnswererServer) → Has s → Gives_ (route_ice p r s)
  unfolding route_ice
  route_ice-Gives p idle s v = elim (Option-cases (s.ice_chans p.answerer_id)) [
    | inl e ↦ rw (e, route_ice) (k.adds _ _ _ tt v)
    | inr (ch, e) ↦ rw (e, route_ice) v
  ]
  route_ice-Gives p (forwarding ch q) s v = tt

  forward_ice-Gives : (r : Router IcePacket) (s : AnswererServer) → Has s → Gives_ (forward_ice r s)
  unfolding forward_ice
  forward_ice-Gives (forwarding ch p) s v = elim (Option-cases (send (s.ices ch) p.ice_candidate)) [
    | inl e ↦ rw e tt
    | inr (c, e) ↦ rw e v
  ]
  forward_ice-Gives idle s v = tt

  close_received-Gives :
      (r : Router IcePacket) (s : AnswererServer) → Has s → Gives_ (close_received r s)
  unfolding close_received
  close_received-Gives idle s v = v
  close_received-Gives (forwarding ch p) s v = tt

  pub step-Gives : (e : Event) (s : AnswererServer) → SendsWith Called e → Has s → Gives_ (step e s)
  unfolding step
  step-Gives (waits_for_offer host) s q v = wait_for_offer-Keeps host s v
  step-Gives (sends_answer p) s q v = k.calls s.threads s.spawned p q v
  step-Gives sends_ice s q v = (k.adds _ _ _ tt v)
  step-Gives (waits_for_ice ans) s q v = wait_for_ice-Keeps ans s v
  step-Gives (takes_offer i) s q v = take_offer-Gives i (s.threads i) s v
  step-Gives (notes_offer i) s q v = note_offer-Gives i (s.threads i) s v
  step-Gives (answered i) s q v = send_answer-Gives i (s.threads i) s refl v
  step-Gives (ctx_ends i) s q v = ctx_done-Gives i (s.threads i) s v
  step-Gives (ice_goes i) s q v = ice_pushed-Gives i (s.threads i) s v
  step-Gives (takes_ice i) s q v = take_ice-Gives i (s.threads i) s v
  step-Gives (sleep_ends i) s q v = clean_up-Gives i (s.threads i) s v
  step-Gives (ice_recv_returns i m) s q v = ice_received-Gives i (s.threads i) m s v
  step-Gives (ice_send_returns i e) s q v = ice_sent-Gives i (s.threads i) e s v
  step-Gives (offer_arrives o) s q v = route_offer-Gives o s.offer_router s v
  step-Gives (ice_arrives p) s q v = route_ice-Gives p s.ice_router s v
  step-Gives offer_goes s q v = forward_offer-Gives s.offer_router s v
  step-Gives ice_forwards s q v = forward_ice-Gives s.ice_router s v
  step-Gives (close_arrives ans) s q v = close_received-Gives s.ice_router s v
