-- ===== src/Server/Offerer/Deadlock.antt =====
-- `answerRouter` waits for ever once it sends an answer that no call can receive.
use mathlib.Core.Option.{some-injective}
use yamrp.Prelude.{
  List, String, [], arith, eq_iff, none, refl, some, subst, sym, update_all, ℕ, ◌<◌, ◌∙◌, ◌∷◌, ◌≡◌,
}
use yamrp.Server.Packets.{AnsPacket}
use yamrp.Server.Offerer.{
  Event, OffererServer, Output, Router, Thread, absent, answer_arrives, answer_meets, clean_up,
  ctx_ends, deliver_answer, forwarding, ice_arrives, ice_closes, ice_goes, ice_meets,
  ice_recv_returns, ice_send_returns, idle, new_offerer_server, notified, offered, receiving,
  route_answer, run, sends_ice, sends_offer, silent, sleep_ends, sleeping, step, waiting_answer,
  waits_for_answer, waits_for_ice,
}
use yamrp.Server.Offerer.Owners.{Ensures, Inv, IsFor}
use yamrp.Server.Offerer.Routing.{initial_owner, new_offerer_server-Inv, run-Inv, run_cons}
use yamrp.Server.Offerer.Blocked.{
  IsBlocked, NotWaiting, clean_up-IsBlocked, ctx_done-IsBlocked, deliver_ice-IsBlocked,
  ice_closed-IsBlocked, ice_pushed-IsBlocked, ice_received-IsBlocked, ice_sent-IsBlocked,
  notify-IsBlocked, offer_taken-IsBlocked, route_ice-IsBlocked, send_offer-IsBlocked,
  spawn-IsBlocked, wait_for_answer-IsBlocked, wait_for_ice-IsBlocked,
}

module _ (ch : ℕ) (p : AnsPacket) where
  -- A send on the channel finds no receiver.
  deliver_answer-none :
      (i : ℕ) (t : Thread) (s : OffererServer)
      → NotWaiting ch t
      → deliver_answer i t (forwarding ch p) s ≡ none
  unfolding deliver_answer
  deliver_answer-none i (waiting_answer ans c) s n = ground arith
  deliver_answer-none i _ s n = refl

  answer_arrives-none :
      (q : AnsPacket) (s : OffererServer) → IsBlocked ch p s → step (answer_arrives q) s ≡ none
  unfolding step
  answer_arrives-none q s v = rw (v.sends, route_answer)

  answer_meets-none :
      (i : ℕ) (s : OffererServer) → IsBlocked ch p s → step (answer_meets i) s ≡ none
  unfolding step
  answer_meets-none i s v =
      subst (λ r. deliver_answer i (s.threads i) r s ≡ none) (sym v.sends)
        (deliver_answer-none i (s.threads i) s (v.unheard i))

  step-IsBlocked :
      (e : Event) (s : OffererServer) → IsBlocked ch p s → Ensures (IsBlocked ch p) (step e s)
  unfolding step
  step-IsBlocked (sends_offer host offer ans off) s v =
      send_offer-IsBlocked ch p host offer ans off s v
  step-IsBlocked (waits_for_answer ans) s v = wait_for_answer-IsBlocked ch p ans s v
  step-IsBlocked (waits_for_ice ans) s v = wait_for_ice-IsBlocked ch p ans s v
  step-IsBlocked sends_ice s v = spawn-IsBlocked ch p receiving s tt v
  step-IsBlocked (sleep_ends i) s v = clean_up-IsBlocked ch p i (s.threads i) s v
  step-IsBlocked (notified i) s v = notify-IsBlocked ch p i (s.threads i) s v
  step-IsBlocked (offered i) s v = offer_taken-IsBlocked ch p i (s.threads i) s v
  step-IsBlocked (ctx_ends i) s v = ctx_done-IsBlocked ch p i (s.threads i) s v
  step-IsBlocked (ice_closes i) s v = ice_closed-IsBlocked ch p i (s.threads i) s v
  step-IsBlocked (ice_goes i) s v = ice_pushed-IsBlocked ch p i (s.threads i) s v
  step-IsBlocked (ice_send_returns i e) s v = ice_sent-IsBlocked ch p i (s.threads i) e s v
  step-IsBlocked (ice_recv_returns i m) s v = ice_received-IsBlocked ch p i (s.threads i) m s v
  step-IsBlocked (ice_arrives q) s v = route_ice-IsBlocked ch p q s s.ice_router v
  step-IsBlocked (ice_meets i) s v = deliver_ice-IsBlocked ch p i (s.threads i) s.ice_router s v
  step-IsBlocked (answer_arrives q) s v =
      subst (Ensures (IsBlocked ch p)) (sym (answer_arrives-none q s v)) tt
  step-IsBlocked (answer_meets i) s v =
      subst (Ensures (IsBlocked ch p)) (sym (answer_meets-none i s v)) tt

  run-IsBlocked :
      (es : List Event) (s : OffererServer) {t : OffererServer}
      → IsBlocked ch p s
      → run es s ≡ some t
      → IsBlocked ch p t
  unfolding run
  run-IsBlocked [] s v h = subst (IsBlocked ch p) (some-injective _ _ h) v
  run-IsBlocked (e ∷ es) s v h =
      let (s', out, taken, rest) = run_cons e es s h in
      run-IsBlocked es s' (subst (Ensures (IsBlocked ch p)) taken (step-IsBlocked e s v)) rest

-- The router takes an answer whose channel is mapped.
answer_taken :
    (s : OffererServer) (p : AnsPacket) (ch : ℕ) (r : Router AnsPacket)
    → r ≡ idle
    → s.ans_chans p.answerer_id ≡ some ch
    → route_answer p s r ≡ some (record s { ans_router = forwarding ch p }, silent)
unfolding route_answer
answer_taken s p ch idle free mapped = rw (mapped, route_answer)
answer_taken s p ch (forwarding c q) free mapped = cc

-- The router holds an answer when the entries of its identifier are cleared.
blocks :
    (s : OffererServer) (i ch : ℕ) (p : AnsPacket) (t : Thread)
    → t ≡ sleeping p.answerer_id
    → s.ans_router ≡ forwarding ch p
    → ch < s.made
    → ((k : String) → s.ans_chans k ≡ some ch → k ≡ p.answerer_id)
    → ((j : ℕ) → NotWaiting ch (s.threads j))
    → Ensures (IsBlocked ch p) (clean_up i t s)
unfolding clean_up
blocks s i ch p (sleeping ans) asleep sends old only unheard = record {
  old = old;
  sends = sends;
  unmapped = λ k c m e. grind (arith, only k, eq_iff ans k);
  unheard = update_all (NotWaiting ch) s.threads i absent unheard tt;
}
blocks s i ch p _ asleep sends old only unheard = cc

-- Let the server have run in any way to a state where `answerRouter` is free, the goroutine of a
-- `SendOffer` still sleeps and no call waits on the answer channel of that offer. If the answer
-- comes now and the sleep ends before a call waits for it, then after any further schedule the
-- router is still in the send of that answer, takes no other answer, and delivers none to any call.
pub unreceived_answer_blocks :
    (before after : List Event) (i ch : ℕ) (p : AnsPacket) {s t : OffererServer}
    → run before new_offerer_server ≡ some s
    → s.ans_router ≡ idle
    → s.threads i ≡ sleeping p.answerer_id
    → s.ans_chans p.answerer_id ≡ some ch
    → ((j : ℕ) → NotWaiting ch (s.threads j))
    → run (answer_arrives p ∷ sleep_ends i ∷ after) s ≡ some t
    → (t.ans_router ≡ forwarding ch p)
      × ((q : AnsPacket) → step (answer_arrives q) t ≡ none)
      × ((j : ℕ) → step (answer_meets j) t ≡ none)
unfolding step
unreceived_answer_blocks before after i ch p {s} {t} ran free asleep mapped unheard rest =
    (v.sends, λ q. answer_arrives-none ch p q t v, λ j. answer_meets-none ch p j t v)
  where
    holding : OffererServer
    holding = record s { ans_router = forwarding ch p }

    first :
        (s' : OffererServer) × (out : Output) × (step (answer_arrives p) s ≡ some (s', out))
        × (run (sleep_ends i ∷ after) s' ≡ some t)
    first = run_cons (answer_arrives p) (sleep_ends i ∷ after) s rest

    same : first.0 ≡ holding
    same = ground (arith, first.2, answer_taken s p ch s.ans_router free mapped)

    second :
        (s' : OffererServer) × (out : Output) × (step (sleep_ends i) holding ≡ some (s', out))
        × (run after s' ≡ some t)
    second =
        run_cons (sleep_ends i) after holding
          (subst (λ h. run (sleep_ends i ∷ after) h ≡ some t) same first.3)

    reached : (owner : ℕ → String) × Inv owner s
    reached = run-Inv before initial_owner new_offerer_server new_offerer_server-Inv ran

    owned : (k : String) (c : ℕ) → s.ans_chans k ≡ some c → IsFor reached.0 s.made c k
    owned = reached.1.ans_chans

    now : IsBlocked ch p second.0
    now = subst (Ensures (IsBlocked ch p)) second.2 (
        blocks holding i ch p (s.threads i) asleep refl (owned p.answerer_id ch mapped).1
          (λ k m. sym (owned k ch m).0 ∙ (owned p.answerer_id ch mapped).0) unheard)

    v : IsBlocked ch p t
    v = run-IsBlocked ch p after second.0 now second.3
