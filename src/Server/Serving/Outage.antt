-- ===== src/Server/Serving/Outage.antt =====
-- One absent host stops the offers of the whole server.
use yamrp.Server.Offerer
use yamrp.Server.Answerer
use yamrp.Prelude.{All, List, [], none, refl, some, ℕ, ◌∷◌, ◌≡◌}
use yamrp.Server.Packets.{AnsPacket, Offering}
use yamrp.Schedules.{Ensures, run}
use yamrp.Server.Serving.{
  Event, Server, answerer_went, answerers, next, offerer_went, offerers, step,
}
use yamrp.Server.Offerer.{Step, Thread, offer_taken, offered, offering_, send_offering}
use yamrp.Server.Answerer.{offer_arrives, push_answer, takes_ice}
use yamrp.Server.Serving.Frames.{
  AnswererGives, Has, Keeps, OffererGives, Parts, Takes, run-Has, taken-none,
}
use yamrp.Server.Answerer.Jam.{IsJammed, IsJammed-Keeps, route_offer-none}
use yamrp.Server.Answerer.Frames.{step_keeps}

module _ (ch : ℕ) (o : Offering) where
  abbrev jam_parts : Parts
  jam_parts = record {
    Offers = λ f. Unit;
    Answers = IsJammed ch o;
    Answer = λ p. Unit;
    Offer = λ x. Unit;
    OffererTakes = λ e. Unit;
    AnswererTakes = λ e. Unit;
  }

  offerer_gives : (r : Offerer.Step) → OffererGives (λ f. Unit) (λ x. Unit) r
  offerer_gives none = tt
  offerer_gives (some (f, Offerer.send_offering x)) = (tt, tt)
  offerer_gives (some (f, out)) = (tt, tt)

  answerer_gives :
      (r : Answerer.Step) → Ensures (IsJammed ch o) r → AnswererGives (IsJammed ch o) (λ p. Unit) r
  answerer_gives none v = tt
  answerer_gives (some (a, Answerer.push_answer p)) v = (v, tt)
  answerer_gives (some (a, out)) v = (v, tt)

  jam_parts-Keeps : Keeps jam_parts
  jam_parts-Keeps = record {
    offerer_steps = λ e f q v. offerer_gives (Offerer.step e f);
    answerer_steps = λ e a q v. answerer_gives _ (step_keeps (IsJammed-Keeps ch o) e a v);
    takes_answers = λ p h. tt;
    takes_ice = λ p. tt;
    takes_offers = λ x h. tt;
    takes_ice_to_ans = λ p. tt;
    takes_close = λ ans. tt;
  }

  -- Nothing is asked of the events, and nothing of the answers on their way.
  any_events : (es : List Event) → All (Takes jam_parts) es
  any_events [] = tt
  any_events (offerers e ∷ es) = (λ h. tt, any_events es)
  any_events (answerers e ∷ es) = (λ h. tt, any_events es)
  any_events (e ∷ es) = (tt, any_events es)

  any_answers : (ps : List AnsPacket) → All (λ p. Unit {0}) ps
  any_answers [] = tt
  any_answers (p ∷ ps) = (tt, any_answers ps)

  run-IsJammed :
      (es : List Event) (s : Server) {t : Server}
      → IsJammed ch o s.answerer
      → run step es s ≡ some t
      → IsJammed ch o t.answerer
  run-IsJammed es s jammed ran =
      let at_first : Has jam_parts s = (tt, any_answers s.answer_ch.queue, jammed) in
      (run-Has jam_parts-Keeps es s (any_events es) at_first ran).2

  -- While it is jammed, the answerer service takes no offer.
  refused :
      (x : Offering) (s : Server)
      → IsJammed ch o s.answerer
      → Answerer.step (Answerer.offer_arrives x) s.answerer ≡ none
  unfolding yamrp.Server.Answerer.step
  refused x s v = route_offer-none ch o x s.answerer.offer_router s.answerer v.sends

  no_hand_over :
      (i : ℕ) (t : Offerer.Thread) (s : Server)
      → IsJammed ch o s.answerer
      → offerer_went s (Offerer.offer_taken i t s.offerer) ≡ none
  unfolding offerer_went answerer_went yamrp.Server.Offerer.step
  no_hand_over i (Offerer.offering_ host offer ans off) s v =
      rw (refused (record { host_id = host; answerer_id = ans; offer = offer }) s v) refl
  no_hand_over i _ s v = refl

-- Once offerRouter holds an offer for a full channel to which no key leads and on which nobody
-- waits, after any schedule of the whole server no SendOffer can hand over its offer, for whatever
-- host.
pub jam_stops_every_client :
    (ch i : ℕ) (o : Offering) (es : List Event) (s : Server) {t : Server}
    → IsJammed ch o s.answerer
    → run step es s ≡ some t
    → step (offerers (Offerer.offered i)) t ≡ none
unfolding step next yamrp.Server.Offerer.step
jam_stops_every_client ch i o es s {t} jammed ran =
    let v = run-IsJammed ch o es s jammed ran in
    taken-none t.host.panicked _ (no_hand_over ch o i (t.offerer.threads i) t v)
