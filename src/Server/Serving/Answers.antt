-- ===== src/Server/Serving/Answers.antt =====
-- The way of an answer through the server: from SendAnswer over answerCh to answerRouter.
use yamrp.Server.Offerer
use yamrp.Server.Answerer
use yamrp.Server.Offerer.Owners
use yamrp.Prelude.{All, List, String, [], inl, inr, none, refl, some, true, ℕ, ◌∷◌, ◌≡◌, ◌⊎◌}
use yamrp.Server.Packets.{AnsPacket}
use yamrp.Schedules.{run}
use yamrp.Server.Serving.{Event, Server, answerers, new_server, offerer_own, offerers, step}
use yamrp.Server.Offerer.{
  OffererServer, Step, answer_arrives, new_offerer_server, push_ice, send_offering, silent,
}
use yamrp.Server.Answerer.{new_answerer_server, push_answer, sends_answer, takes_ice}
use yamrp.Server.Serving.Frames.{AnswererGives, Has, Keeps, OffererGives, Parts, Takes, run-Has}
use yamrp.Server.Offerer.Answers.{ArrivesWith, RouterHas, step-Routed}
use yamrp.Server.Offerer.Routing.{initial_owner, new_offerer_server-Inv, step-Inv}
use yamrp.Server.Answerer.Answers.{HasSent, Holding, Holding-KeepsCalls}
use yamrp.Server.Answerer.Threads.{Gives, SendsWith, step-Gives}

module _ (R : AnsPacket → Type 0) where
  -- The channels of the offerer service have their owners, and the answer of its router is one
  -- with the property.
  abbrev OffererHas : OffererServer → Type 0
  OffererHas f = ((owner : ℕ → String) × Owners.Inv owner f) × RouterHas R f.ans_router

  abbrev pub answer_parts : Parts
  answer_parts = record {
    Offers = OffererHas;
    Answers = λ a. Holding R a.threads a.spawned;
    Answer = R;
    Offer = λ o. Unit;
    OffererTakes = ArrivesWith R;
    AnswererTakes = SendsWith R;
  }

  offerer_gives :
      (o : Offerer.Step) (owner : ℕ → String)
      → Owners.Ensures (Owners.Inv owner) o
      → Owners.Ensures (λ t. RouterHas R t.ans_router) o
      → OffererGives OffererHas (λ x. Unit) o
  offerer_gives none owner v w = tt
  offerer_gives (some (f, Offerer.send_offering x)) owner v w = (((owner, v), w), tt)
  offerer_gives (some (f, out)) owner v w = (((owner, v), w), tt)

  answerer_gives :
      (o : Answerer.Step)
      → Gives (Holding R) (HasSent R) o
      → AnswererGives (λ a. Holding R a.threads a.spawned) R o
  answerer_gives none g = tt
  answerer_gives (some (a, Answerer.push_answer p)) g = (g.1, g.0)
  answerer_gives (some (a, Answerer.push_ice p)) g = (g, tt)
  answerer_gives (some (a, Answerer.silent)) g = (g, tt)

  pub answer_parts-Keeps : Keeps answer_parts
  answer_parts-Keeps = record {
    offerer_steps = λ e f q ((owner, v), w).
        offerer_gives (Offerer.step e f) (Owners.next_owner e f owner) (step-Inv owner e f v)
          (step-Routed R e f q w);
    answerer_steps =
        λ e a q v. answerer_gives (Answerer.step e a) (step-Gives (Holding-KeepsCalls R) e a q v);
    takes_answers = λ p has. has;
    takes_ice = λ p. tt;
    takes_offers = λ o h. tt;
    takes_ice_to_ans = λ p. tt;
    takes_close = λ ans. tt;
  }

  new_server-Has : Has answer_parts new_server
  unfolding new_server new_offerer_server new_answerer_server
  new_server-Has = (((initial_owner, new_offerer_server-Inv), tt), tt, λ j. tt)

  own-ArrivesWith : (e : Offerer.Event) → offerer_own e ≡ true → ArrivesWith R e
  unfolding offerer_own
  own-ArrivesWith (Offerer.answer_arrives p) h = cc
  own-ArrivesWith e h = tt

-- A call of SendAnswer with that answer is among the events.
abbrev pub WasSent : AnsPacket → List Event → Type 0
WasSent p [] = ⊥
WasSent p (answerers (Answerer.sends_answer q) ∷ es) = (q ≡ p) ⊎ WasSent p es
WasSent p (_ ∷ es) = WasSent p es

all-Takes :
    (R : AnsPacket → Type 0) (es : List Event)
    → ((p : AnsPacket) → WasSent p es → R p)
    → All (Takes (answer_parts R)) es
all-Takes R [] h = tt
all-Takes R (answerers (Answerer.sends_answer q) ∷ es) h =
    (λ o. h q (inl refl), all-Takes R es (λ p w. h p (inr w)))
all-Takes R (answerers e ∷ es) h = (λ o. tt, all-Takes R es h)
all-Takes R (offerers e ∷ es) h = (own-ArrivesWith R e, all-Takes R es h)
all-Takes R (e ∷ es) h = (tt, all-Takes R es h)

-- After any schedule, the answer that answerRouter holds was sent.
pub reached-Has :
    (es : List Event) {s : Server}
    → run step es new_server ≡ some s
    → Has (answer_parts (λ p. WasSent p es)) s
reached-Has es ran =
    let sent = λ (p : AnsPacket). WasSent p es in
    run-Has (answer_parts-Keeps sent) es new_server (all-Takes sent es (λ p w. w))
      (new_server-Has sent) ran
