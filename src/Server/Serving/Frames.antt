-- ===== src/Server/Serving/Frames.antt =====
-- What an invariant of the whole server has to keep: each service keeps its part, and what it sends
-- to another one or into answerCh has a property that this one may count on.
use yamrp.Server.Offerer
use yamrp.Server.Answerer
use yamrp.Prelude.{
  All, All-append, Bool, List, Option, Option-cases, String, [], false, if◌then◌else◌, inl, inr,
  none, refl, some, subst, sym, true, ◌∷◌, ◌≡◌,
}
use yamrp.Server.Packets.{AnsPacket, IcePacket, Offering}
use yamrp.Chan.{receive, send}
use yamrp.Chan.Laws.{receive-queue, send-queue}
use yamrp.Schedules.{Ensures, Holds, run, run_keeps_if}
use yamrp.Server.Serving.{
  Event, Server, alive, answerer_own, answerer_went, answerers, host_own, host_went, hosts,
  names_host, next, offerer_own, offerer_went, offerers, silently, step, takes_answer,
  takes_ice_to_ans, takes_ice_to_offer,
}
use yamrp.Server.Offerer.{
  OffererServer, Output, Step, answer_arrives, close_ice, ice_arrives, notify_host, push_ice,
  send_offering, silent,
}
use yamrp.Server.Answerer.{AnswererServer, close_arrives, offer_arrives, push_answer, takes_ice}
use yamrp.Server.Host.{HostServer}

-- What a step of a service leaves and what it puts out.
module _ (F : OffererServer → Type 0) (Q : Offering → Type 0) where
  abbrev pub OutputOffers : Offerer.Output → Type 0
  OutputOffers (Offerer.send_offering o) = Q o
  OutputOffers _ = Unit

  abbrev pub OffererGives : Offerer.Step → Type 0
  OffererGives none = Unit
  OffererGives (some (f, out)) = F f × OutputOffers out

module _ (A : AnswererServer → Type 0) (R : AnsPacket → Type 0) where
  abbrev pub OutputAnswers : Answerer.Output → Type 0
  OutputAnswers (Answerer.push_answer p) = R p
  OutputAnswers _ = Unit

  abbrev pub AnswererGives : Answerer.Step → Type 0
  AnswererGives none = Unit
  AnswererGives (some (a, out)) = A a × OutputAnswers out

-- What is said of the two services, of the answers between them, of the offers, and of the events
-- that each of them takes.
pub record Parts : Type 1 where
  pub Offers : OffererServer → Type 0
  pub Answers : AnswererServer → Type 0
  pub Answer : AnsPacket → Type 0
  pub Offer : Offering → Type 0
  pub OffererTakes : Offerer.Event → Type 0
  pub AnswererTakes : Answerer.Event → Type 0

pub record Keeps (k : Parts) : Type 0 where
  pub offerer_steps :
      (e : Offerer.Event) (f : OffererServer)
      → k.OffererTakes e
      → k.Offers f
      → OffererGives k.Offers k.Offer (Offerer.step e f)
  pub answerer_steps :
      (e : Answerer.Event) (a : AnswererServer)
      → k.AnswererTakes e
      → k.Answers a
      → AnswererGives k.Answers k.Answer (Answerer.step e a)
  pub takes_answers : (p : AnsPacket) → k.Answer p → k.OffererTakes (Offerer.answer_arrives p)
  pub takes_ice : (p : IcePacket) → k.OffererTakes (Offerer.ice_arrives p)
  pub takes_offers : (o : Offering) → k.Offer o → k.AnswererTakes (Answerer.offer_arrives o)
  pub takes_ice_to_ans : (p : IcePacket) → k.AnswererTakes (Answerer.ice_arrives p)
  pub takes_close : (ans : String) → k.AnswererTakes (Answerer.close_arrives ans)

module _ (k : Parts) where
  abbrev pub Has : Server → Type 0
  Has s = k.Offers s.offerer × All k.Answer s.answer_ch.queue × k.Answers s.answerer

  abbrev pub Takes : Event → Type 0
  Takes (offerers e) = offerer_own e ≡ true → k.OffererTakes e
  Takes (answerers e) = answerer_own e ≡ true → k.AnswererTakes e
  Takes _ = Unit

-- A service takes only its own events from the environment.
pub only_own :
    (P : Server → Type 0) (b : Bool) (r : Option Server)
    → (b ≡ true → Holds P r)
    → Holds P (if b then r else none)
only_own P true r v = v refl
only_own P false r v = tt

-- A server takes a step as `next` says, if no panic has ended it.
pub taken :
    (P : Server → Type 0) (b : Bool) (r : Option Server)
    → Holds P r
    → Ensures P (silently (alive b r))
taken P true r h = tt
taken P false none h = tt
taken P false (some t) h = h

pub taken-some :
    (b : Bool) (r : Option Server) {t : Server} {u : Unit {0}}
    → silently (alive b r) ≡ some (t, u)
    → r ≡ some t
taken-some true r h = cc
taken-some false none h = cc
taken-some false (some s) h = cc

pub taken-none : (b : Bool) (r : Option Server) → r ≡ none → silently (alive b r) ≡ none
taken-none true r h = refl
taken-none false r h = rw h refl

module _ {k : Parts} (keeps : Keeps k) where
  host_went-Has : (s : Server) (h : Option HostServer) → Has k s → Holds (Has k) (host_went s h)
  host_went-Has s none v = tt
  host_went-Has s (some h) v = v

  answerer_went-Has :
      (s : Server) (r : Answerer.Step)
      → k.Offers s.offerer
      → All k.Answer s.answer_ch.queue
      → AnswererGives k.Answers k.Answer r
      → Holds (Has k) (answerer_went s r)
  unfolding answerer_went
  answerer_went-Has s none f q g = tt
  answerer_went-Has s (some (a, Answerer.silent)) f q g = (f, q, g.0)
  answerer_went-Has s (some (a, Answerer.push_answer p)) f q g =
      elim (Option-cases (send s.answer_ch p)) [
        | inl e ↦ rw e tt
        | inr (c, e) ↦ rw e (
          f,
          subst (All k.Answer) (sym (send-queue s.answer_ch c p e))
              (All-append k.Answer s.answer_ch.queue (p ∷ []) q (g.1, tt)),
          g.0,
        )
      ]
  answerer_went-Has s (some (a, Answerer.push_ice p)) f q g =
      elim (Option-cases (send s.ice_to_offer_ch p)) [
        | inl e ↦ rw e tt
        | inr (c, e) ↦ rw e (f, q, g.0)
      ]

  offerer_went-Has :
      (s : Server) (r : Offerer.Step)
      → OffererGives k.Offers k.Offer r
      → All k.Answer s.answer_ch.queue
      → k.Answers s.answerer
      → Holds (Has k) (offerer_went s r)
  unfolding offerer_went
  offerer_went-Has s none g q a = tt
  offerer_went-Has s (some (f, Offerer.silent)) g q a = (g.0, q, a)
  offerer_went-Has s (some (f, Offerer.notify_host id)) g q a =
      host_went-Has (record s { offerer = f }) _ (g.0, q, a)
  offerer_went-Has s (some (f, Offerer.send_offering x)) g q a =
      answerer_went-Has (record s { offerer = f }) _ g.0 q
        (keeps.answerer_steps (Answerer.offer_arrives x) s.answerer (keeps.takes_offers x g.1) a)
  offerer_went-Has s (some (f, Offerer.push_ice p)) g q a =
      elim (Option-cases (send s.ice_to_ans_ch p)) [
        | inl e ↦ rw e tt
        | inr (c, e) ↦ rw e (g.0, q, a)
      ]
  offerer_went-Has s (some (f, Offerer.close_ice ans)) g q a =
      answerer_went-Has (record s { offerer = f }) _ g.0 q
        (keeps.answerer_steps (Answerer.close_arrives ans) s.answerer (keeps.takes_close ans) a)

  next-Has : (e : Event) (s : Server) → Takes k e → Has k s → Holds (Has k) (next e s)
  unfolding next
  next-Has (names_host id) s w v = host_went-Has s _ v
  next-Has (hosts e) s w v = only_own _ (host_own e) _ (λ h. host_went-Has s _ v)
  next-Has (offerers e) s w v =
      only_own _ (offerer_own e) _
        (λ h. offerer_went-Has s _ (keeps.offerer_steps e s.offerer (w h) v.0) v.1 v.2)
  next-Has (answerers e) s w v =
      only_own _ (answerer_own e) _
        (λ h. answerer_went-Has s _ v.0 v.1 (keeps.answerer_steps e s.answerer (w h) v.2))
  next-Has takes_answer s w v = elim (Option-cases (receive s.answer_ch)) [
    | inl e ↦ rw e tt
    | inr ((p, c), e) ↦
        let (has, rest) = subst (All k.Answer) (receive-queue s.answer_ch c p e) v.1 in
        rw e (
          offerer_went-Has (record s { answer_ch = c }) _
            (keeps.offerer_steps (Offerer.answer_arrives p) s.offerer (keeps.takes_answers p has)
              v.0)
            rest v.2)
  ]
  next-Has takes_ice_to_offer s w v = elim (Option-cases (receive s.ice_to_offer_ch)) [
    | inl e ↦ rw e tt
    | inr ((p, c), e) ↦ rw e (
        offerer_went-Has (record s { ice_to_offer_ch = c }) _
          (keeps.offerer_steps (Offerer.ice_arrives p) s.offerer (keeps.takes_ice p) v.0) v.1 v.2)
  ]
  next-Has takes_ice_to_ans s w v = elim (Option-cases (receive s.ice_to_ans_ch)) [
    | inl e ↦ rw e tt
    | inr ((p, c), e) ↦ rw e (
        answerer_went-Has (record s { ice_to_ans_ch = c }) _ v.0 v.1
          (keeps.answerer_steps (Answerer.ice_arrives p) s.answerer (keeps.takes_ice_to_ans p) v.2))
  ]

  pub step-Has : (e : Event) (s : Server) → Takes k e → Has k s → Ensures (Has k) (step e s)
  unfolding step
  step-Has e s w v = taken (Has k) s.host.panicked (next e s) (next-Has e s w v)

  -- What a new server has, every state has that a schedule of such events reaches.
  pub run-Has :
      (es : List Event) (s : Server) {t : Server}
      → All (Takes k) es
      → Has k s
      → run step es s ≡ some t
      → Has k t
  run-Has es s q v ran = run_keeps_if step (Takes k) (Has k) step-Has es s q v ran
