-- ===== src/Server/Answerer/Routing.antt =====
-- Offers reach the calls of their hosts.
use mathlib.Core.Option.{some-injective}
use yamrp.Prelude.{
  All, List, Option-cases, String, [], arith, eq_iff, inl, inr, none, refl, some, subst, sym, ℕ,
  ◌∙◌, ◌∷◌, ◌≡◌, ◌≢◌,
}
use yamrp.Chan.{receive}
use yamrp.Schedules.{run, run_cons}
use yamrp.Server.Packets.{Offering}
use yamrp.Server.Answerer.{
  AnswererServer, Event, Output, new_answerer_server, note_offer, notes_offer, noting,
  offer_response, returned, step, take_offer, takes_offer, waiting_offer,
}
use yamrp.Server.Answerer.Owners.{ThreadIsFor}
use yamrp.Server.Answerer.Reachable.{reachable-Inv}

-- What a WaitForOffer for `host` does with the first offer of the channel on which it waits.
abbrev pub Answers : (i : ℕ) (host : String) (ch : ℕ) (s t : AnswererServer) → Type 0
Answers i host ch s t =
    (o : Offering) × (rest : List Offering) × ((s.offers ch).queue ≡ o ∷ rest)
    × (o.host_id ≡ host)
    × (t.threads i ≡ returned (offer_response o.answerer_id o.offer))
    × (t.ice_chans o.answerer_id ≢ none)

pub note_offer-Answers :
    (i : ℕ) (host : String) (o : Offering) (s : AnswererServer) {t : AnswererServer} {out : Output}
    → note_offer i (noting host o) s ≡ some (t, out)
    → (t.threads i ≡ returned (offer_response o.answerer_id o.offer))
      × (t.ice_chans o.answerer_id ≢ none)
unfolding note_offer
note_offer-Answers i host o s {t} {out} h = elim (Option-cases (s.ice_chans o.answerer_id)) [
  | inl e ↦ (ground arith, λ gone. ground (arith, eq_iff o.answerer_id o.answerer_id))
  | inr (ch, e) ↦ (ground arith, λ gone. ground arith)
]

take_offer-cases :
    (i : ℕ) (host : String) (ch : ℕ) (q : List Offering) (s : AnswererServer) {t : AnswererServer}
    {out : Output}
    → (s.offers ch).queue ≡ q
    → take_offer i (waiting_offer host ch) s ≡ some (t, out)
    → (o : Offering) × (rest : List Offering) × (q ≡ o ∷ rest) × (t.threads i ≡ noting host o)
unfolding take_offer receive
take_offer-cases i host ch [] s e h = ground arith
take_offer-cases i host ch (o ∷ rest) s e h = (o, rest, refl, ground arith)

-- In every reachable state, a WaitForOffer for a host that waits on a channel, takes an offer from
-- it and goes on at once takes the first offer there, which is one for that host; it returns that
-- offer, and there is a channel for the candidates of its answerer.
pub offer_reaches_its_host :
    (es : List Event) (i ch : ℕ) (host : String) {s t : AnswererServer}
    → run step es new_answerer_server ≡ some s
    → s.threads i ≡ waiting_offer host ch
    → run step (takes_offer i ∷ notes_offer i ∷ []) s ≡ some t
    → Answers i host ch s t
unfolding step run
offer_reaches_its_host es i ch host {s} {t} ran waits goes_on =
    let (owner, v) = reachable-Inv es ran in
    let (u, out, taken, more) = run_cons step (takes_offer i) (notes_offer i ∷ []) s goes_on in
    let (o, rest, first, notes) =
      take_offer-cases i host ch _ s refl
        (subst (λ x. take_offer i x s ≡ some (u, out)) waits taken) in
    let (t', out', noted, last) = run_cons step (notes_offer i) [] u more in
    let (answers, mapped) =
      note_offer-Answers i host o u (subst (λ x. note_offer i x u ≡ some (t', out')) notes noted) in
    let waits_for = subst (ThreadIsFor owner s.made_offers) waits (v.threads i) in
    let lies_in = subst (All (λ x. owner ch ≡ x.host_id)) first (v.held ch) in
    subst (Answers i host ch s) (ended last)
      (o, rest, first, sym lies_in.0 ∙ waits_for.0, answers, mapped)
  where
    ended : {t' : AnswererServer} → run step [] t' ≡ some t → t' ≡ t
    ended h = some-injective _ _ h
