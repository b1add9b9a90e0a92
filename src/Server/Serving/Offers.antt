-- ===== src/Server/Serving/Offers.antt =====
-- The way of an offer through the server: from SendOffer over offerRouter and the channel of its
-- host to WaitForOffer.
use mathlib.Core.Option.{some-injective}
use yamrp.Server.Offerer
use yamrp.Server.Answerer
use yamrp.Server.Answerer.Owners
use yamrp.Server.Offerer.Offers
use yamrp.Prelude.{
  All, List, Option-cases, String, [], ap, inl, inr, none, refl, some, subst, true, ℕ, ◌∷◌, ◌≡◌,
  ◌⊎◌,
}
use yamrp.Server.Packets.{Offering}
use yamrp.Schedules.{Ensures, run}
use yamrp.Server.Serving.{
  Event, Server, answerer_own, answerer_went, answerers, new_server, next, offerers, step,
}
use yamrp.Server.Offerer.{
  Step, Thread, new_offerer_server, offer_response, offered, returned, send_offering, sends_offer,
  silent,
}
use yamrp.Server.Answerer.{
  AnswererServer, note_offer, notes_offer, noting, offer_arrives, push_answer, takes_ice,
}
use yamrp.Server.Serving.Frames.{
  AnswererGives, Has, Keeps, OffererGives, Parts, Takes, run-Has, taken-some,
}
use yamrp.Server.Answerer.Offers.{Offered, Offered-KeepsIf, ThreadHas, new_answerer_server-Offered}
use yamrp.Server.Answerer.Frames.{ArrivesWith, step_keeps, step_keeps_if}
use yamrp.Server.Answerer.Reachable.{Inv-Keeps, new_answerer_server-Inv}
use yamrp.Server.Answerer.Routing.{note_offer-Answers}

module _ (Q : Offering → Type 0) where
  -- Offers lie in the channels of their hosts, and all of them have the property.
  abbrev AnswererHas : AnswererServer → Type 0
  AnswererHas a = Owners.Inv a × Offered Q a

  abbrev pub offer_parts : Parts
  offer_parts = record {
    Offers = Offers.Holding Q;
    Answers = AnswererHas;
    Answer = λ p. Unit;
    Offer = Q;
    OffererTakes = Offers.SendsWith Q;
    AnswererTakes = ArrivesWith Q;
  }

  offerer_gives : (o : Offerer.Step) → Offers.Gives Q o → OffererGives (Offers.Holding Q) Q o
  offerer_gives none g = tt
  offerer_gives (some (f, Offerer.send_offering x)) g = g
  offerer_gives (some (f, out)) g = g

  answerer_gives :
      (o : Answerer.Step)
      → Ensures Owners.Inv o
      → Ensures (Offered Q) o
      → AnswererGives AnswererHas (λ p. Unit) o
  answerer_gives none v w = tt
  answerer_gives (some (a, Answerer.push_answer p)) v w = ((v, w), tt)
  answerer_gives (some (a, out)) v w = ((v, w), tt)

  offer_parts-Keeps : Keeps offer_parts
  offer_parts-Keeps = record {
    offerer_steps = λ e f q v. offerer_gives (Offerer.step e f) (Offers.step-Gives Q e f q v);
    answerer_steps = λ e a q (v, w).
        answerer_gives (Answerer.step e a) (step_keeps Inv-Keeps e a v)
          (step_keeps_if (Offered-KeepsIf Q) e a q w);
    takes_answers = λ p h. tt;
    takes_ice = λ p. tt;
    takes_offers = λ o has. has;
    takes_ice_to_ans = λ p. tt;
    takes_close = λ ans. tt;
  }

  new_server-Has : Has offer_parts new_server
  unfolding new_server new_offerer_server
  new_server-Has = ((λ j. tt), tt, (new_answerer_server-Inv, new_answerer_server-Offered Q))

  own-ArrivesWith : (e : Answerer.Event) → answerer_own e ≡ true → ArrivesWith Q e
  unfolding answerer_own
  own-ArrivesWith (Answerer.offer_arrives o) h = cc
  own-ArrivesWith e h = tt

-- A call of SendOffer for that host, with that description, which was given that identifier, is
-- among the events.
abbrev pub WasOffered : Offering → List Event → Type 0
WasOffered o [] = ⊥
WasOffered o (offerers (Offerer.sends_offer host offer ans off) ∷ es) =
    (record { host_id = host; answerer_id = ans; offer = offer } ≡ o) ⊎ WasOffered o es
WasOffered o (_ ∷ es) = WasOffered o es

all-Takes :
    (Q : Offering → Type 0) (es : List Event)
    → ((o : Offering) → WasOffered o es → Q o)
    → All (Takes (offer_parts Q)) es
all-Takes Q [] h = tt
all-Takes Q (offerers (Offerer.sends_offer host offer ans off) ∷ es) h =
    (λ o. h _ (inl refl), all-Takes Q es (λ o w. h o (inr w)))
all-Takes Q (offerers e ∷ es) h = (λ o. tt, all-Takes Q es h)
all-Takes Q (answerers e ∷ es) h = (own-ArrivesWith Q e, all-Takes Q es h)
all-Takes Q (e ∷ es) h = (tt, all-Takes Q es h)

-- The second critical section of WaitForOffer is a step of the answerer service alone.
noted_answerer :
    (i : ℕ) (l : Answerer.Thread) (s : Server) {t : Server}
    → answerer_went s (Answerer.note_offer i l s.answerer) ≡ some t
    → Answerer.note_offer i l s.answerer ≡ some (t.answerer, Answerer.silent)
unfolding answerer_went yamrp.Server.Answerer.step
noted_answerer i (Answerer.noting host o) s h =
    elim (Option-cases (s.answerer.ice_chans o.answerer_id)) [
      | inl e ↦
          rw (e, Answerer.note_offer)
            (ap (λ x. some (x.answerer, Answerer.silent))
              (some-injective _ _ (rw (e, Answerer.note_offer) at h)))
      | inr (ch, e) ↦
          rw (e, Answerer.note_offer)
            (ap (λ x. some (x.answerer, Answerer.silent))
              (some-injective _ _ (rw (e, Answerer.note_offer) at h)))
    ]
noted_answerer i _ s h = cc

-- What WaitForOffer of a host returns.
abbrev pub Returns : List Event → ℕ → String → Server → Type 0
Returns es i host t =
    (o : Offering) × WasOffered o es
    × (o.host_id ≡ host)
    × (t.answerer.threads i ≡ Answerer.returned (Answerer.offer_response o.answerer_id o.offer))

-- A call of WaitForOffer for `host` that has taken an offer.
abbrev pub HasTaken : ℕ → String → Server → Type 0
HasTaken i host s = (o : Offering) × (s.answerer.threads i ≡ Answerer.noting host o)

-- Whatever happened to the whole server, when a call of WaitForOffer that has taken an offer goes
-- on, it returns the description that a call of SendOffer brought for that very host, and the
-- identifier that this call was given.
pub returned_offer_was_sent :
    (es : List Event) (i : ℕ) (host : String) {s t : Server}
    → run step es new_server ≡ some s
    → HasTaken i host s
    → step (answerers (Answerer.notes_offer i)) s ≡ some (t, tt)
    → Returns es i host t
unfolding step next answerer_own yamrp.Server.Answerer.step
returned_offer_was_sent es i host {s} {t} ran (o, holds) went =
    let offered = λ (x : Offering). WasOffered x es in
    let has =
      run-Has (offer_parts-Keeps offered) es new_server (all-Takes offered es (λ x w. w))
        (new_server-Has offered) ran in
    let ((owner, v), w) = has.2 in
    let noted = noted_answerer i (s.answerer.threads i) s (taken-some _ _ went) in
    let answers = note_offer-Answers i host o s.answerer (
      subst (λ x. Answerer.note_offer i x s.answerer ≡ some (t.answerer, Answerer.silent)) holds
        noted) in
    (
      o,
      subst (ThreadHas offered) holds (w.threads i),
      subst (Owners.ThreadIsFor owner s.answerer.made_offers) holds (v.threads i),
      answers.0,
    )
