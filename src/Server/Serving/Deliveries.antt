-- ===== src/Server/Serving/Deliveries.antt =====
-- What WaitForAnswer returns to a client of the whole server.
use yamrp.Server.Offerer
use mathlib.Core.Option.{some-injective}
use yamrp.Prelude.{Bool-cases, List, String, ap, inl, inr, refl, some, subst, ℕ, ◌==◌, ◌≡◌}
use yamrp.Server.Packets.{AnsPacket}
use yamrp.Schedules.{run}
use yamrp.Server.Serving.{
  Event, Server, new_server, next, offerer_own, offerer_went, offerers, step,
}
use yamrp.Server.Offerer.{
  Router, Thread, answer_meets, answer_response, deliver_answer, forwarding, returned, silent,
  waiting_answer,
}
use yamrp.Server.Serving.Frames.{taken-some}
use yamrp.Server.Serving.Answers.{WasSent, reached-Has}
use yamrp.Server.Offerer.Answers.{RouterHas}
use yamrp.Server.Offerer.Routing.{deliver_answer_cases}

-- The router's send is a step of the offerer service alone.
met_offerer :
    (i : ℕ) (l : Offerer.Thread) (r : Offerer.Router AnsPacket) (s : Server) {t : Server}
    → offerer_went s (deliver_answer i l r s.offerer) ≡ some t
    → deliver_answer i l r s.offerer ≡ some (t.offerer, Offerer.silent)
unfolding offerer_went yamrp.Server.Offerer.step
met_offerer i (Offerer.waiting_answer ans ch) (Offerer.forwarding to p) s h =
    elim (Bool-cases (ch == to)) [
      | inl e ↦ rw e (ap (λ x. some (x.offerer, Offerer.silent)) (some-injective _ _ (rw e at h)))
      | inr e ↦ cc (rw e at h)
    ]
met_offerer i _ _ s h = cc

-- What WaitForAnswer is given when the router meets it.
abbrev pub Delivers : List Event → ℕ → Server → Server → Type 0
Delivers es i s t =
    (ans : String) × (ch : ℕ) × (p : AnsPacket) × WasSent p es
    × (p.answerer_id ≡ ans)
    × (s.offerer.threads i ≡ Offerer.waiting_answer ans ch)
    × (t.offerer.threads i ≡ Offerer.returned (Offerer.answer_response p.answer))

-- Whatever happened to the whole server, when answerRouter meets a call of WaitForAnswer, the call
-- returns the answer of a call of SendAnswer for the very identifier that it asked for.
pub delivered_answer_was_sent :
    (es : List Event) (i : ℕ) {s t : Server}
    → run step es new_server ≡ some s
    → step (offerers (Offerer.answer_meets i)) s ≡ some (t, tt)
    → Delivers es i s t
unfolding step next offerer_own yamrp.Server.Offerer.step
delivered_answer_was_sent es i {s} {t} ran met =
    let sent = λ (p : AnsPacket). WasSent p es in
    let ((owner, v), routed) = (reached-Has es ran).0 in
    let f = s.offerer in
    let delivered = met_offerer i (f.threads i) f.ans_router s (taken-some _ _ met) in
    let (ans, ch, p, waits, sends, for_it, returns, freed, kept, kept_ice) =
      deliver_answer_cases owner i (f.threads i) f.ans_router f (v.threads i) v.ans_router refl refl
        delivered in
    (ans, ch, p, subst (RouterHas sent) sends routed, for_it, waits, returns)
