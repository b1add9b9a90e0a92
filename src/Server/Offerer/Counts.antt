-- ===== src/Server/Offerer/Counts.antt =====
-- How many answers answerRouter has still to hand over, for any weight of answers.
use yamrp.Prelude.{
  Bool-cases, List, Option-cases, [], ap, arith, inl, inr, none, refl, some, ℕ, ◌+◌, ◌==◌, ◌∷◌, ◌≡◌,
  ◌≤◌,
}
use yamrp.Server.Packets.{AnsPacket}
use yamrp.Schedules.{total}
use yamrp.Server.Offerer.{
  Event, OffererServer, Router, Step, Thread, answer_arrives, answer_meets, deliver_answer,
  forwarding, idle, route_answer, step, waiting_answer,
}
use yamrp.Server.Offerer.Answers.{KeepsRouter, step-KeepsRouter}

abbrev pub in_router : Router AnsPacket → List AnsPacket
in_router idle = []
in_router (forwarding ch p) = p ∷ []

-- The answer that arrives with an event, and the one that a call of WaitForAnswer is given.
abbrev pub arriving : Event → List AnsPacket
arriving (answer_arrives p) = p ∷ []
arriving _ = []

abbrev pub handed_over : Event → OffererServer → List AnsPacket
handed_over (answer_meets i) s = in_router s.ans_router
handed_over _ s = []

module _ (w : AnsPacket → ℕ) where
  -- What is handed over and what the router then holds weighs at most `n`.
  abbrev pub Leaves : List AnsPacket → ℕ → Step → Type 0
  Leaves given n none = Unit
  Leaves given n (some (t, out)) = total w given + total w (in_router t.ans_router) ≤ n

  same-Leaves :
      (s : OffererServer) (n : ℕ) (o : Step)
      → total w (in_router s.ans_router) ≤ n
      → KeepsRouter s o
      → Leaves [] n o
  same-Leaves s n none b h = tt
  same-Leaves s n (some (t, out)) b h = omega (arith, ap (λ r. total w (in_router r)) h, b)

  route_answer-Leaves :
      (p : AnsPacket) (s : OffererServer) (n : ℕ) (r : Router AnsPacket)
      → s.ans_router ≡ r
      → w p ≤ n
      → Leaves [] n (route_answer p s r)
  unfolding route_answer
  route_answer-Leaves p s n idle e b = elim (Option-cases (s.ans_chans p.answerer_id)) [
    | inl gone ↦ rw (gone, route_answer, e) (omega arith)
    | inr (ch, found) ↦ rw (found, route_answer) (omega (arith, b))
  ]
  route_answer-Leaves p s n (forwarding ch q) e b = tt

  deliver_answer-Leaves :
      (i : ℕ) (t : Thread) (n : ℕ) (r : Router AnsPacket) (s : OffererServer)
      → total w (in_router r) ≤ n
      → Leaves (in_router r) n (deliver_answer i t r s)
  unfolding deliver_answer
  deliver_answer-Leaves i (waiting_answer ans ch) n (forwarding to p) s b =
      elim (Bool-cases (ch == to)) [ inl e ↦ rw e (omega (arith, b)) | inr e ↦ rw e tt ]
  deliver_answer-Leaves i _ n _ s b = tt

  pub step-Leaves :
      (e : Event) (s : OffererServer) (n : ℕ)
      → total w (arriving e) + total w (in_router s.ans_router) ≤ n
      → Leaves (handed_over e s) n (step e s)
  unfolding step
  step-Leaves (answer_arrives p) s n b =
      route_answer-Leaves p s n s.ans_router refl (omega (arith, b))
  step-Leaves (answer_meets i) s n b =
      deliver_answer-Leaves i (s.threads i) n s.ans_router s (omega (arith, b))
  step-Leaves e s n b = same-Leaves s n (step e s) (omega (arith, b)) (step-KeepsRouter e s tt)
