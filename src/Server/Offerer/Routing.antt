-- ===== src/Server/Offerer/Routing.antt =====
-- Answers and candidates reach only the calls that wait for their identifier.
use mathlib.Core.Option.{some-injective}
use yamrp.Prelude.{
  Bool-cases, List, Option-cases, String, [], arith, inl, inr, refl, some, subst, ℕ, ◌==◌, ◌∷◌, ◌≡◌,
}
use yamrp.Server.Packets.{AnsPacket, IcePacket}
use yamrp.Server.Offerer.{
  Event, OffererServer, Output, Router, Thread, answer_arrives, answer_meets, answer_response,
  ctx_ends, deliver_answer, deliver_ice, forwarding, ice_arrives, ice_closes, ice_goes, ice_meets,
  ice_recv_returns, ice_send_returns, idle, new_offerer_server, notified, offered, receiving,
  returned, run, sending_ice, sends_ice, sends_offer, sleep_ends, step, waiting_answer, waiting_ice,
  waits_for_answer, waits_for_ice,
}
use yamrp.Server.Offerer.Owners.{
  AnsRouterIsFor, Ensures, IceRouterIsFor, Inv, ThreadIsFor, next_owner, spawn-Inv,
}
use yamrp.Server.Offerer.Calls.{
  clean_up-Inv, ctx_done-Inv, ice_closed-Inv, ice_pushed-Inv, ice_received-Inv, ice_sent-Inv,
  notify-Inv, offer_taken-Inv, send_offer-Inv, wait_for_answer-Inv, wait_for_ice-Inv,
}
use yamrp.Server.Offerer.Routers.{
  deliver_answer-Inv, deliver_ice-Inv, route_answer-Inv, route_ice-Inv,
}

pub step-Inv :
    (owner : ℕ → String) (e : Event) (s : OffererServer)
    → Inv owner s
    → Ensures (Inv (next_owner e s owner)) (step e s)
unfolding step
step-Inv o (sends_offer host offer ans off) s v = send_offer-Inv o host offer ans off s v
step-Inv o (waits_for_answer ans) s v = wait_for_answer-Inv o ans s v
step-Inv o (waits_for_ice ans) s v = wait_for_ice-Inv o ans s v
step-Inv o sends_ice s v = spawn-Inv o receiving s tt v
step-Inv o (sleep_ends i) s v = clean_up-Inv o i (s.threads i) s v
step-Inv o (notified i) s v = notify-Inv o i (s.threads i) s v
step-Inv o (offered i) s v = offer_taken-Inv o i (s.threads i) s v
step-Inv o (ctx_ends i) s v = ctx_done-Inv o i (s.threads i) s v
step-Inv o (ice_closes i) s v = ice_closed-Inv o i (s.threads i) s v
step-Inv o (ice_goes i) s v = ice_pushed-Inv o i (s.threads i) s v
step-Inv o (ice_send_returns i e) s v = ice_sent-Inv o i (s.threads i) e s (v.threads i) v
step-Inv o (ice_recv_returns i m) s v = ice_received-Inv o i (s.threads i) m s v
step-Inv o (answer_arrives p) s v = route_answer-Inv o p s s.ans_router v
step-Inv o (ice_arrives p) s v = route_ice-Inv o p s s.ice_router v
step-Inv o (answer_meets i) s v = deliver_answer-Inv o i (s.threads i) s.ans_router s v
step-Inv o (ice_meets i) s v = deliver_ice-Inv o i (s.threads i) s.ice_router s (v.threads i) v

-- The first event of a schedule that can run, and what is left.
pub run_cons :
    (e : Event) (es : List Event) (s : OffererServer) {t : OffererServer}
    → run (e ∷ es) s ≡ some t
    → (s' : OffererServer) × (out : Output) × (step e s ≡ some (s', out)) × (run es s' ≡ some t)
unfolding run
run_cons e es s {t} h = elim (Option-cases (step e s)) [
  | inl refused ↦ cc (rw (refused, run) at h)
  | inr ((s', out), taken) ↦ (s', out, taken, rw (taken, run) at h)
]

pub run-Inv :
    (es : List Event) (owner : ℕ → String) (s : OffererServer) {t : OffererServer}
    → Inv owner s
    → run es s ≡ some t
    → (owner' : ℕ → String) × Inv owner' t
unfolding run
run-Inv [] owner s v h = (owner, subst (Inv owner) (some-injective _ _ h) v)
run-Inv (e ∷ es) owner s v h =
    let (s', out, taken, rest) = run_cons e es s h in
    let owner' = next_owner e s owner in
    run-Inv es owner' s' (subst (Ensures (Inv owner')) taken (step-Inv owner e s v)) rest

abbrev pub initial_owner : ℕ → String
initial_owner _ = ""

pub new_offerer_server-Inv : Inv initial_owner new_offerer_server
unfolding new_offerer_server
new_offerer_server-Inv = record {
  ice_chans = λ k c h. cc;
  ans_chans = λ k c h. cc;
  ice_router = tt;
  ans_router = tt;
  threads = λ j. tt;
}

-- What a delivery finds and leaves.
abbrev pub AnswerMeets : ℕ → OffererServer → OffererServer → Type 0
AnswerMeets i s s' =
    (ans : String) × (ch : ℕ) × (p : AnsPacket) × (s.threads i ≡ waiting_answer ans ch)
    × (s.ans_router ≡ forwarding ch p)
    × (p.answerer_id ≡ ans)
    × (s'.threads i ≡ returned (answer_response p.answer))
    × (s'.ans_router ≡ idle)
    × ((k : String) → s'.ans_chans k ≡ s.ans_chans k)
    × ((k : String) → s'.ice_chans k ≡ s.ice_chans k)

pub deliver_answer_cases :
    (owner : ℕ → String) (i : ℕ) (t : Thread) (r : Router AnsPacket) (s : OffererServer)
    {s' : OffererServer} {out : Output}
    → ThreadIsFor owner s.made t
    → AnsRouterIsFor owner s.made r
    → s.threads i ≡ t
    → s.ans_router ≡ r
    → deliver_answer i t r s ≡ some (s', out)
    → AnswerMeets i s s'
unfolding deliver_answer
deliver_answer_cases owner i (waiting_answer ans ch) (forwarding to p) s n m et er h =
    elim (Bool-cases (ch == to)) [
      | inl e ↦ (
        ans,
        ch,
        p,
        et,
        ground arith,
        ground arith,
        ground arith,
        ground arith,
        λ k. ground arith,
        λ k. ground arith,
      )
      | inr e ↦ cc (rw e at h)
    ]
deliver_answer_cases owner i _ _ s n m et er h = cc

-- Whatever happened since the server started, when the send of `answerRouter` meets a call of
-- `WaitForAnswer`, the packet is one for the very identifier that the call asked for; the call
-- returns the answer of that packet, the router is free again, and no entry of either map of
-- channels changes.
pub answer_reaches_its_call :
    (es : List Event) (i : ℕ) {s s' : OffererServer} {out : Output}
    → run es new_offerer_server ≡ some s
    → step (answer_meets i) s ≡ some (s', out)
    → AnswerMeets i s s'
unfolding step
answer_reaches_its_call es i {s} ran met =
    let (owner, v) = run-Inv es initial_owner new_offerer_server new_offerer_server-Inv ran in
    deliver_answer_cases owner i (s.threads i) s.ans_router s (v.threads i) v.ans_router refl refl
      met

abbrev pub IceMeets : ℕ → OffererServer → OffererServer → Type 0
IceMeets i s s' =
    (ans : String) × (ch : ℕ) × (p : IcePacket) × (s.threads i ≡ waiting_ice ans ch)
    × (s.ice_router ≡ forwarding ch p)
    × (p.answerer_id ≡ ans)
    × (s'.threads i ≡ sending_ice ans ch p.ice_candidate)
    × (s'.ice_router ≡ idle)
    × ((k : String) → s'.ice_chans k ≡ s.ice_chans k)

deliver_ice_cases :
    (owner : ℕ → String) (i : ℕ) (t : Thread) (r : Router IcePacket) (s : OffererServer)
    {s' : OffererServer} {out : Output}
    → ThreadIsFor owner s.made t
    → IceRouterIsFor owner s.made r
    → s.threads i ≡ t
    → s.ice_router ≡ r
    → deliver_ice i t r s ≡ some (s', out)
    → IceMeets i s s'
unfolding deliver_ice
deliver_ice_cases owner i (waiting_ice ans ch) (forwarding to p) s n m et er h =
    elim (Bool-cases (ch == to)) [
      | inl e ↦ (
        ans,
        ch,
        p,
        et,
        ground arith,
        ground arith,
        ground arith,
        ground arith,
        λ k. ground arith,
      )
      | inr e ↦ cc (rw e at h)
    ]
deliver_ice_cases owner i _ _ s n m et er h = cc

-- Whatever happened since the server started, when the send of `iceCandidateRouter` meets a call of
-- `WaitForICECandidate`, the packet is one for the very identifier that the call asked for; the
-- call goes on to send the candidate of that packet, the router is free again, and no entry of the
-- map of candidate channels changes.
candidate_reaches_its_call :
    (es : List Event) (i : ℕ) {s s' : OffererServer} {out : Output}
    → run es new_offerer_server ≡ some s
    → step (ice_meets i) s ≡ some (s', out)
    → IceMeets i s s'
unfolding step
candidate_reaches_its_call es i {s} ran met =
    let (owner, v) = run-Inv es initial_owner new_offerer_server new_offerer_server-Inv ran in
    deliver_ice_cases owner i (s.threads i) s.ice_router s (v.threads i) v.ice_router refl refl met
