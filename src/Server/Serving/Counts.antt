-- ===== src/Server/Serving/Counts.antt =====
-- How many answers are on their way to the calls of WaitForAnswer, for any weight of answers.
use yamrp.Server.Offerer
use yamrp.Server.Answerer
use yamrp.Prelude.{
  List, Option, Option-cases, [], ap, arith, inl, inr, none, refl, some, true, ℕ, ◌++◌, ◌+◌, ◌∷◌,
  ◌≡◌, ◌≤◌,
}
use yamrp.Server.Packets.{AnsPacket}
use yamrp.Chan.{receive, send}
use yamrp.Chan.Laws.{receive-queue, send-queue}
use yamrp.Schedules.{Holds, total}
use yamrp.Server.Serving.{
  Event, Server, answerer_own, answerer_went, answerers, host_own, host_went, hosts, names_host,
  next, offerer_own, offerer_went, offerers, takes_answer, takes_ice_to_ans, takes_ice_to_offer,
}
use yamrp.Server.Offerer.{
  Step, answer_arrives, close_ice, ice_arrives, notify_host, push_ice, send_offering, silent,
}
use yamrp.Server.Answerer.{close_arrives, offer_arrives, push_answer, sends_answer}
use yamrp.Server.Host.{HostServer}
use yamrp.Server.Offerer.Counts.{Leaves, arriving, handed_over, in_router, step-Leaves}
use yamrp.Server.Answerer.Counts.{Bounded, Bounded-KeepsCalls, SentBounded, call-Gives, pending}
use yamrp.Server.Answerer.Threads.{Gives, step-Gives}
use yamrp.Server.Serving.Frames.{only_own}

-- The answers that the calls of SendAnswer bring.
abbrev pub sent_by : Event → List AnsPacket
sent_by (answerers (Answerer.sends_answer p)) = p ∷ []
sent_by _ = []

-- The answer that a call of WaitForAnswer is given by an event in a state.
abbrev pub given : Event → Server → List AnsPacket
given (offerers e) s = handed_over e s.offerer
given _ s = []

module _ (w : AnsPacket → ℕ) where
  pub total-append : (xs ys : List AnsPacket) → total w (xs ++ ys) ≡ total w xs + total w ys
  total-append [] ys = omega arith
  total-append (x ∷ xs) ys = omega (arith, total-append xs ys)

  -- The answers `out` and those that are on their way to a call of WaitForAnswer weigh at most `b`.
  abbrev pub Fits : List AnsPacket → ℕ → Server → Type 0
  Fits out b s =
      (m : ℕ) × Bounded w m s.answerer.threads s.answerer.spawned
      × (total w out + (total w (in_router s.offerer.ans_router) + (total w s.answer_ch.queue + m))
          ≤ b)

  host_went-Fits :
      (out : List AnsPacket) (b : ℕ) (s : Server) (h : Option HostServer)
      → Fits out b s
      → Holds (Fits out b) (host_went s h)
  host_went-Fits out b s none v = tt
  host_went-Fits out b s (some h) v = v

  answerer_went-Fits :
      (out : List AnsPacket) (b m : ℕ) (s : Server) (r : Answerer.Step)
      → Gives (Bounded w m) (SentBounded w m) r
      → total w out + (total w (in_router s.offerer.ans_router) + (total w s.answer_ch.queue + m))
        ≤ b
      → Holds (Fits out b) (answerer_went s r)
  unfolding answerer_went
  answerer_went-Fits out b m s none g h = tt
  answerer_went-Fits out b m s (some (a, Answerer.silent)) g h = (m, g, h)
  answerer_went-Fits out b m s (some (a, Answerer.push_answer p)) g h =
      elim (Option-cases (send s.answer_ch p)) [
        | inl e ↦ rw e tt
        | inr (c, e) ↦
            let stored = ap (total w) (send-queue s.answer_ch c p e) in
            let more = total-append s.answer_ch.queue (p ∷ []) in
            rw e (
              pending w a.threads a.spawned,
              (g.0, omega arith),
              omega (arith, stored, more, g.1, h),
            )
      ]
  answerer_went-Fits out b m s (some (a, Answerer.push_ice p)) g h =
      elim (Option-cases (send s.ice_to_offer_ch p)) [
        | inl e ↦ rw e tt
        | inr (c, e) ↦ rw e (m, g, h)
      ]

  offerer_went-Fits :
      (out : List AnsPacket) (b n m : ℕ) (s : Server) (r : Offerer.Step)
      → Leaves w out n r
      → Bounded w m s.answerer.threads s.answerer.spawned
      → n + (total w s.answer_ch.queue + m) ≤ b
      → Holds (Fits out b) (offerer_went s r)
  unfolding offerer_went
  offerer_went-Fits out b n m s none l v h = tt
  offerer_went-Fits out b n m s (some (f, Offerer.silent)) l v h = (m, v, omega (arith, l, h))
  offerer_went-Fits out b n m s (some (f, Offerer.notify_host id)) l v h =
      host_went-Fits out b (record s { offerer = f }) _ (m, v, omega (arith, l, h))
  offerer_went-Fits out b n m s (some (f, Offerer.send_offering x)) l v h =
      answerer_went-Fits out b m (record s { offerer = f }) _
        (step-Gives (Bounded-KeepsCalls w m) (Answerer.offer_arrives x) s.answerer tt v)
        (omega (arith, l, h))
  offerer_went-Fits out b n m s (some (f, Offerer.push_ice p)) l v h =
      elim (Option-cases (send s.ice_to_ans_ch p)) [
        | inl e ↦ rw e tt
        | inr (c, e) ↦ rw e (m, v, omega (arith, l, h))
      ]
  offerer_went-Fits out b n m s (some (f, Offerer.close_ice ans)) l v h =
      answerer_went-Fits out b m (record s { offerer = f }) _
        (step-Gives (Bounded-KeepsCalls w m) (Answerer.close_arrives ans) s.answerer tt v)
        (omega (arith, l, h))

  own-arriving : (e : Offerer.Event) → offerer_own e ≡ true → arriving e ≡ []
  unfolding offerer_own
  own-arriving (Offerer.answer_arrives p) h = cc
  own-arriving e h = refl

  pub next-Fits :
      (e : Event) (s : Server) (b : ℕ)
      → Fits (sent_by e) b s
      → Holds (Fits (given e s) b) (next e s)
  unfolding next
  next-Fits (names_host id) s b v = host_went-Fits [] b s _ v
  next-Fits (hosts e) s b v = only_own (Fits [] b) (host_own e) _ (λ h. host_went-Fits [] b s _ v)
  next-Fits (offerers e) s b (m, v, h) =
      only_own (Fits (handed_over e s.offerer) b) (offerer_own e) _ (λ o.
        let nothing = ap (total w) (own-arriving e o) in
        let n = total w (in_router s.offerer.ans_router) in
        offerer_went-Fits (handed_over e s.offerer) b n m s _
          (step-Leaves w e s.offerer n (omega (arith, nothing))) v (omega (arith, h)))
  next-Fits (answerers (Answerer.sends_answer p)) s b (m, v, h) =
      answerer_went-Fits [] b (w p + m) s _ (call-Gives w m p s.answerer v) (omega (arith, h))
  next-Fits (answerers e) s b (m, v, h) =
      only_own (Fits [] b) (answerer_own e) _ (λ o.
        answerer_went-Fits [] b m s _ (step-Gives (Bounded-KeepsCalls w m) e s.answerer tt v) h)
  next-Fits takes_answer s b (m, v, h) = elim (Option-cases (receive s.answer_ch)) [
    | inl e ↦ rw e tt
    | inr ((p, c), e) ↦
        let less = ap (total w) (receive-queue s.answer_ch c p e) in
        let n = w p + total w (in_router s.offerer.ans_router) in
        rw e (
          offerer_went-Fits [] b n m (record s { answer_ch = c }) _
            (step-Leaves w (Offerer.answer_arrives p) s.offerer n (omega arith)) v
            (omega (arith, less, h)))
  ]
  next-Fits takes_ice_to_offer s b (m, v, h) = elim (Option-cases (receive s.ice_to_offer_ch)) [
    | inl e ↦ rw e tt
    | inr ((p, c), e) ↦
        let n = total w (in_router s.offerer.ans_router) in
        rw e (
          offerer_went-Fits [] b n m (record s { ice_to_offer_ch = c }) _
            (step-Leaves w (Offerer.ice_arrives p) s.offerer n (omega arith)) v (omega (arith, h)))
  ]
  next-Fits takes_ice_to_ans s b (m, v, h) = elim (Option-cases (receive s.ice_to_ans_ch)) [
    | inl e ↦ rw e tt
    | inr ((p, c), e) ↦ rw e (
        answerer_went-Fits [] b m (record s { ice_to_ans_ch = c }) _
          (step-Gives (Bounded-KeepsCalls w m) (Answerer.ice_arrives p) s.answerer tt v) h)
  ]
