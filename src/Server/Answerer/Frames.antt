-- ===== src/Server/Answerer/Frames.antt =====
-- What an invariant of the offers of the answerer service has to keep, operation by operation.
-- The operations on candidates and on answers leave the offers alone.
use yamrp.Prelude.{Map, Option, Option-cases, String, erase, inl, inr, none, some, ℕ}
use yamrp.Errors.{Error, eof}
use yamrp.Chan.{Chan, receive, send}
use yamrp.Schedules.{Ensures}
use yamrp.Server.Packets.{IcePacket, Offering}
use yamrp.Server.Answerer.{
  AnswererServer, Event, Reply, Router, Thread, answered, answering, clean_up, close_arrives,
  close_ice, close_received, ctx_done, ctx_ends, forward_ice, forward_offer, forwarding, goes,
  ice_arrives, ice_forwarded, ice_forwards, ice_goes, ice_pushed, ice_received, ice_recv_returns,
  ice_send_returns, ice_sent, ice_taken, idle, left_pushing, left_receiving, note_offer,
  notes_offer, noting, offer_arrives, offer_goes, pushing, receiving, route_ice, route_offer,
  send_answer, sending_ice, sends_answer, sends_ice, sleep_ends, sleeping_ice, sleeping_offer,
  spawn, step, take_ice, take_offer, takes_ice, takes_offer, wait_for_ice_candidate, wait_for_offer,
  waiting_ice, waiting_offer, waits_for_ice, waits_for_offer,
}

-- A goroutine that does not hold an offer and does not wait for one.
abbrev pub IsNeutral : Thread → Type 0
IsNeutral (waiting_offer host ch) = ⊥
IsNeutral (noting host o) = ⊥
IsNeutral _ = Unit

abbrev pub with_ices :
    Map ℕ → (ℕ → Chan String) → ℕ → Router IcePacket → AnswererServer → AnswererServer
with_ices m f n r s = record s { ice_chans = m; ices = f; made_ices = n; ice_router = r }

abbrev pub without_host : String → AnswererServer → AnswererServer
without_host host s = record s { waiting_chs = erase s.waiting_chs host }

-- The offers that arrive have the property `Q`.
pub record KeepsIf (Q : Offering → Type 0) (P : AnswererServer → Type 0) : Type 0 where
  pub goes_ : (i : ℕ) (t : Thread) (s : AnswererServer) → IsNeutral t → P s → P (goes i t s)
  pub spawns : (t : Thread) (s : AnswererServer) → IsNeutral t → P s → P (spawn t s)
  pub changes_ices :
      (m : Map ℕ) (f : ℕ → Chan String) (n : ℕ) (r : Router IcePacket) (s : AnswererServer)
      → P s
      → P (with_ices m f n r s)
  pub clears : (host : String) (s : AnswererServer) → P s → P (without_host host s)
  pub waits : (host : String) (s : AnswererServer) → P s → P (wait_for_offer host s)
  pub takes : (i : ℕ) (s : AnswererServer) → P s → Ensures P (take_offer i (s.threads i) s)
  pub routes :
      (o : Offering) (s : AnswererServer) → Q o → P s → Ensures P (route_offer o s.offer_router s)
  pub forwards : (s : AnswererServer) → P s → Ensures P (forward_offer s.offer_router s)

abbrev pub ArrivesWith : (Offering → Type 0) → Event → Type 0
ArrivesWith Q (offer_arrives o) = Q o
ArrivesWith Q _ = Unit

module _ {Q : Offering → Type 0} {P : AnswererServer → Type 0} (k : KeepsIf Q P) where
  note_offer-Keeps : (i : ℕ) (t : Thread) (s : AnswererServer) → P s → Ensures P (note_offer i t s)
  unfolding note_offer
  note_offer-Keeps i (noting host o) s v = elim (Option-cases (s.ice_chans o.answerer_id)) [
    | inl e ↦ rw (e, note_offer) (k.goes_ _ _ _ tt (k.spawns _ _ tt (k.changes_ices _ _ _ _ s v)))
    | inr (ch, e) ↦ rw (e, note_offer) (k.goes_ _ _ _ tt v)
  ]
  note_offer-Keeps i _ s v = tt

  close_ice-Keeps :
      (i : ℕ) (ans : String) (r : Reply) (s : AnswererServer) → P s → P (close_ice i ans r s)
  unfolding close_ice
  close_ice-Keeps i ans r s v = k.goes_ _ _ _ tt (k.changes_ices _ _ _ _ s v)

  send_answer-Keeps :
      (i : ℕ) (t : Thread) (s : AnswererServer) → P s → Ensures P (send_answer i t s)
  unfolding send_answer
  send_answer-Keeps i (answering p) s v = k.goes_ _ _ _ tt v
  send_answer-Keeps i _ s v = tt

  ctx_done-Keeps : (i : ℕ) (t : Thread) (s : AnswererServer) → P s → Ensures P (ctx_done i t s)
  unfolding ctx_done
  ctx_done-Keeps i (waiting_offer host ch) s v = k.goes_ _ _ _ tt v
  ctx_done-Keeps i (answering p) s v = k.goes_ _ _ _ tt v
  ctx_done-Keeps i receiving s v = k.spawns _ _ tt (k.goes_ _ _ _ tt v)
  ctx_done-Keeps i (pushing p) s v = k.spawns _ _ tt (k.goes_ _ _ _ tt v)
  ctx_done-Keeps i (waiting_ice ans ch) s v = close_ice-Keeps i ans _ s v
  ctx_done-Keeps i _ s v = tt

  ice_received-Keeps :
      (i : ℕ) (t : Thread) (m : Option IcePacket) (s : AnswererServer)
      → P s
      → Ensures P (ice_received i t m s)
  unfolding ice_received
  ice_received-Keeps i receiving none s v = v
  ice_received-Keeps i receiving (some p) s v = k.goes_ _ _ _ tt v
  ice_received-Keeps i left_receiving none s v = k.goes_ _ _ _ tt v
  ice_received-Keeps i left_receiving (some p) s v = k.goes_ _ _ _ tt v
  ice_received-Keeps i _ m s v = tt

  ice_pushed-Keeps : (i : ℕ) (t : Thread) (s : AnswererServer) → P s → Ensures P (ice_pushed i t s)
  unfolding ice_pushed
  ice_pushed-Keeps i (pushing p) s v = k.goes_ _ _ _ tt v
  ice_pushed-Keeps i (left_pushing p) s v = k.goes_ _ _ _ tt v
  ice_pushed-Keeps i _ s v = tt

  wait_for_ice_candidate-Keeps :
      (ans : String) (s : AnswererServer) → P s → P (wait_for_ice_candidate ans s)
  unfolding wait_for_ice_candidate
  wait_for_ice_candidate-Keeps ans s v = elim (Option-cases (s.ice_chans ans)) [
    | inl e ↦ rw (e, wait_for_ice_candidate) (k.spawns _ _ tt v)
    | inr (ch, e) ↦ rw (e, wait_for_ice_candidate) (k.spawns _ _ tt v)
  ]

  take_ice-Keeps : (i : ℕ) (t : Thread) (s : AnswererServer) → P s → Ensures P (take_ice i t s)
  unfolding take_ice
  take_ice-Keeps i (waiting_ice ans ch) s v = taken (receive (s.ices ch))
    where
      taken : (o : Option (String × Chan String)) → Ensures P (ice_taken i ans ch s o)
      taken none = tt
      taken (some (ice, c)) = k.goes_ _ _ _ tt (k.changes_ices _ _ _ _ s v)
  take_ice-Keeps i _ s v = tt

  ice_sent-Keeps :
      (i : ℕ) (t : Thread) (e : Option Error) (s : AnswererServer)
      → P s
      → Ensures P (ice_sent i t e s)
  unfolding ice_sent
  ice_sent-Keeps i (sending_ice ans ch ice) none s v = k.goes_ _ _ _ tt v
  ice_sent-Keeps i (sending_ice ans ch ice) (some eof) s v = close_ice-Keeps i ans _ s v
  ice_sent-Keeps i (sending_ice ans ch ice) (some e) s v = close_ice-Keeps i ans _ s v
  ice_sent-Keeps i _ e s v = tt

  clean_up-Keeps : (i : ℕ) (t : Thread) (s : AnswererServer) → P s → Ensures P (clean_up i t s)
  unfolding clean_up
  clean_up-Keeps i (sleeping_offer host) s v = k.goes_ _ _ _ tt (k.clears host s v)
  clean_up-Keeps i (sleeping_ice ans) s v = k.goes_ _ _ _ tt (k.changes_ices _ _ _ _ s v)
  clean_up-Keeps i _ s v = tt

  route_ice-Keeps :
      (p : IcePacket) (r : Router IcePacket) (s : AnswererServer)
      → P s
      → Ensures P (route_ice p r s)
  unfolding route_ice
  route_ice-Keeps p idle s v = elim (Option-cases (s.ice_chans p.answerer_id)) [
    | inl e ↦ rw (e, route_ice) (k.spawns _ _ tt (k.changes_ices _ _ _ _ s v))
    | inr (ch, e) ↦ rw (e, route_ice) (k.changes_ices _ _ _ _ s v)
  ]
  route_ice-Keeps p (forwarding ch q) s v = tt

  forward_ice-Keeps :
      (r : Router IcePacket) (s : AnswererServer) → P s → Ensures P (forward_ice r s)
  unfolding forward_ice
  forward_ice-Keeps idle s v = tt
  forward_ice-Keeps (forwarding ch p) s v = sent (send (s.ices ch) p.ice_candidate)
    where
      sent : (o : Option (Chan String)) → Ensures P (ice_forwarded ch s o)
      sent none = tt
      sent (some c) = k.changes_ices _ _ _ _ s v

  close_received-Keeps :
      (r : Router IcePacket) (s : AnswererServer) → P s → Ensures P (close_received r s)
  unfolding close_received
  close_received-Keeps idle s v = v
  close_received-Keeps (forwarding ch p) s v = tt

  pub step_keeps_if :
      (e : Event) (s : AnswererServer) → ArrivesWith Q e → P s → Ensures P (step e s)
  unfolding step
  step_keeps_if (waits_for_offer host) s q v = k.waits host s v
  step_keeps_if (sends_answer p) s q v = k.spawns _ s tt v
  step_keeps_if sends_ice s q v = k.spawns _ s tt v
  step_keeps_if (waits_for_ice ans) s q v = wait_for_ice_candidate-Keeps ans s v
  step_keeps_if (takes_offer i) s q v = k.takes i s v
  step_keeps_if (notes_offer i) s q v = note_offer-Keeps i (s.threads i) s v
  step_keeps_if (answered i) s q v = send_answer-Keeps i (s.threads i) s v
  step_keeps_if (ctx_ends i) s q v = ctx_done-Keeps i (s.threads i) s v
  step_keeps_if (ice_goes i) s q v = ice_pushed-Keeps i (s.threads i) s v
  step_keeps_if (takes_ice i) s q v = take_ice-Keeps i (s.threads i) s v
  step_keeps_if (sleep_ends i) s q v = clean_up-Keeps i (s.threads i) s v
  step_keeps_if (ice_recv_returns i m) s q v = ice_received-Keeps i (s.threads i) m s v
  step_keeps_if (ice_send_returns i e) s q v = ice_sent-Keeps i (s.threads i) e s v
  step_keeps_if (offer_arrives o) s q v = k.routes o s q v
  step_keeps_if (ice_arrives p) s q v = route_ice-Keeps p s.ice_router s v
  step_keeps_if offer_goes s q v = k.forwards s v
  step_keeps_if ice_forwards s q v = forward_ice-Keeps s.ice_router s v
  step_keeps_if (close_arrives ans) s q v = close_received-Keeps s.ice_router s v

-- Whatever arrives.
abbrev AnyOffer : Offering → Type 0
AnyOffer o = Unit

abbrev pub Keeps : (AnswererServer → Type 0) → Type 0
Keeps P = KeepsIf AnyOffer P

any-ArrivesWith : (e : Event) → ArrivesWith AnyOffer e
any-ArrivesWith (offer_arrives o) = tt
any-ArrivesWith e = tt

pub step_keeps :
    {P : AnswererServer → Type 0}
    → Keeps P
    → (e : Event) (s : AnswererServer) → P s
    → Ensures P (step e s)
step_keeps k e s v = step_keeps_if k e s (any-ArrivesWith e) v
