-- ===== src/Client/Agent/Sending/Sequential.antt =====
-- initWebRTCAsAnswerer with its callback, as long as no Send of the callback returns: it is the
-- function that Client/Agent has.
use yamrp.Prelude.{
  All, All-append, Bool, List, Option, Option-cases, String, [], arith, false, inl, inr, none, refl,
  some, subst, suc, sym, true, zero, ℕ, ◌∷◌, ◌≡◌, ◌≢◌, ◌⊎◌,
}
use yamrp.Errors.{Error, is_failure}
use yamrp.Chan.{Chan, receive, send}
use yamrp.Chan.Laws.{send-queue}
use yamrp.Schedules.{Ensures, Holds, run, run_keeps_if}
use yamrp.Client.Agent.Sending.{
  Callback, Event, Place, Report, Shared, begin, call, called, connect_to, crashed, creates_answer,
  function_goes, function_step, gave_up, go, idle, or_give_up, pending, poll, polling, polls,
  reported, returned, send_returns, sender_goes, sender_sent, sender_step, sends_answer,
  sends_success, sets_local, sets_remote, setup_goes, setup_step, silently-Ensures, start_sender,
  step, succeed, tests_sent, unmarshals,
}
use yamrp.Client.Agent.{
  Ending, Externals, Result, WaitForOfferResponse, act, answer_offer, answered, checked, ends,
  fails, failure, success,
}

abbrev pub NoReturn : Event → Type 0
NoReturn (send_returns i err) = ⊥
NoReturn _ = Unit

module _ {P D : Type 0} (ext : Externals P D) (token host_id : String) (p : P)
    (ret : WaitForOfferResponse) where
  abbrev pub ending : Ending P
  ending = (answer_offer ext token host_id p ret).ending

  abbrev decoded : D × Option Error
  decoded = ext.unmarshal ret.body

  abbrev created : D × Option Error
  created = ext.create_answer p

  -- What the calls before a place have left there.
  abbrev At : Place D → Option Error → ℕ → Type 0
  At unmarshals err senders = senders ≡ 0
  At (sets_remote offer) err senders = (senders ≡ 0) × (offer ≡ decoded.0) × (err ≡ decoded.1)
  At creates_answer err senders =
      (senders ≡ 0)
      × (is_failure decoded.1 ≡ false)
      × (err ≡ ext.set_remote_description p decoded.0)
  At (sets_local a) err senders =
      (senders ≡ 0)
      × (is_failure decoded.1 ≡ false)
      × (is_failure (ext.set_remote_description p decoded.0) ≡ false)
      × (a ≡ created.0)
      × (err ≡ created.1)
  At (sends_answer a) err senders =
      (senders ≡ 0)
      × (is_failure decoded.1 ≡ false)
      × (is_failure (ext.set_remote_description p decoded.0) ≡ false)
      × (is_failure created.1 ≡ false)
      × (a ≡ created.0)
      × (err ≡ ext.set_local_description p created.0)
  At tests_sent err senders = (senders ≡ 0) × (ending ≡ answered err p)
  At sends_success err senders = ending ≡ answered err p
  At returned err senders = ending ≡ answered err p
  At gave_up err senders = ending ≡ fails err

  -- A result that setupWebRTC can take.
  abbrev Takes : Result P → Type 0
  Takes r = (is_failure r.err ≡ true) ⊎ (r.val ≡ some p)

  record Inv (s : Shared P D) : Type 0 where
    here : At s.place s.err s.senders
    failing : (s.senders ≡ 0) ⊎ (is_failure s.err ≡ true)
    queued : All Takes s.ch.queue
    sane : s.report ≢ crashed

  queued-append :
      (c d : Chan (Result P)) (r : Result P)
      → send c r ≡ some d
      → Takes r
      → All Takes c.queue
      → All Takes d.queue
  queued-append c d r h x v =
      subst (All Takes) (sym (send-queue c d r h)) (All-append Takes c.queue (r ∷ []) v (x, tt))

  function_step-Inv :
      (l : Place D) (s : Shared P D)
      → At l s.err s.senders
      → (s.senders ≡ 0) ⊎ (is_failure s.err ≡ true)
      → All Takes s.ch.queue
      → s.report ≢ crashed
      → Holds Inv (function_step ext token p ret l s)
  unfolding function_step or_give_up start_sender answer_offer checked act ends
  function_step-Inv unmarshals s a b c d = ground arith
  function_step-Inv (sets_remote offer) s a b c d = ground arith
  function_step-Inv creates_answer s a b c d = ground arith
  function_step-Inv (sets_local x) s a b c d = ground arith
  function_step-Inv (sends_answer x) s a b c d = ground arith
  function_step-Inv tests_sent s a b c d = ground arith
  function_step-Inv sends_success s a b c d = elim (Option-cases (send s.ch (success p))) [
    | inl full ↦ rw (full, succeed) tt
    | inr (ch, sent) ↦
        rw (sent, succeed)
          (record {
            here = a;
            failing = b;
            queued = queued-append s.ch ch (success p) sent (inr refl) c;
            sane = d;
          })
  ]
  function_step-Inv gave_up s a b c d = tt
  function_step-Inv returned s a b c d = tt

  -- Where there is a goroutine for an error, the function makes no further call.
  At-sent : (l : Place D) (err : Option Error) (n : ℕ) → At l err (suc n) → At l err n
  At-sent unmarshals err n h = absurd (omega arith)
  At-sent (sets_remote offer) err n h = absurd (omega (arith, h.0))
  At-sent creates_answer err n h = absurd (omega (arith, h.0))
  At-sent (sets_local a) err n h = absurd (omega (arith, h.0))
  At-sent (sends_answer a) err n h = absurd (omega (arith, h.0))
  At-sent tests_sent err n h = absurd (omega (arith, h.0))
  At-sent sends_success err n h = h
  At-sent gave_up err n h = h
  At-sent returned err n h = h

  sender_step-Inv : (n : ℕ) (s : Shared P D) → s.senders ≡ n → Inv s → Holds Inv (sender_step n s)
  unfolding sender_step
  sender_step-Inv zero s e v = tt
  sender_step-Inv (suc n) s e v =
      let failing : is_failure s.err ≡ true = ground arith in
      elim (Option-cases (send s.ch (failure s.err))) [
        | inl full ↦ rw (full, sender_sent) tt
        | inr (ch, sent) ↦
            rw (sent, sender_sent)
              (record {
                here = At-sent s.place s.err n (subst (At s.place s.err) e v.here);
                failing = inr failing;
                queued = queued-append s.ch ch (failure s.err) sent (inl failing) v.queued;
                sane = v.sane;
              })
      ]

  reported-Inv : (s : Shared P D) → Inv s → Holds Inv (reported s (receive s.ch))
  unfolding reported receive connect_to
  reported-Inv s v = ground arith

  setup_step-Inv :
      (l : Place D) (r : Report P) (s : Shared P D) → Inv s → Holds Inv (setup_step l r s)
  unfolding setup_step
  setup_step-Inv gave_up pending s v = reported-Inv s v
  setup_step-Inv returned pending s v = reported-Inv s v
  setup_step-Inv l r s v = tt

  call-Inv :
      (i : ℕ) (c : Option String) (b : Callback) (s : Shared P D) → Inv s → Holds Inv (call i c b s)
  unfolding call
  call-Inv i none idle s v = v
  call-Inv i (some c) idle s v = ground arith
  call-Inv i c b s v = tt

  poll-Inv :
      (i : ℕ) (has_remote : Bool) (b : Callback) (s : Shared P D)
      → Inv s
      → Holds Inv (poll token ret.answerer_id i has_remote b s)
  unfolding poll
  poll-Inv i true (polling c) s v = ground arith
  poll-Inv i false (polling c) s v = v
  poll-Inv i b c s v = tt

  step-Inv :
      (e : Event) (s : Shared P D) → NoReturn e → Inv s → Ensures Inv (step ext token p ret e s)
  unfolding step go
  step-Inv function_goes s q v =
      silently-Ensures Inv _ (function_step-Inv s.place s v.here v.failing v.queued v.sane)
  step-Inv sender_goes s q v = silently-Ensures Inv _ (sender_step-Inv s.senders s refl v)
  step-Inv setup_goes s q v = silently-Ensures Inv _ (setup_step-Inv s.place s.report s v)
  step-Inv (called i c) s q v = silently-Ensures Inv _ (call-Inv i c (s.callbacks i) s v)
  step-Inv (polls i b) s q v = silently-Ensures Inv _ (poll-Inv i b (s.callbacks i) s v)
  step-Inv (send_returns i err) s q v = absurd q

  -- The function ends as the sequential one does, with the error in the variable.
  abbrev pub EndsAlike : Shared P D → Type 0
  EndsAlike s =
      (s.place ≡ gave_up → ending ≡ fails s.err)
      × (s.place ≡ sends_success → ending ≡ answered s.err p)
      × (s.place ≡ returned → ending ≡ answered s.err p)
      × (s.report ≢ crashed)

  Inv-EndsAlike : (s : Shared P D) → Inv s → EndsAlike s
  Inv-EndsAlike s v =
      let here = λ (l : Place D) (e : s.place ≡ l). subst (λ x. At x s.err s.senders) e v.here in
      (here gave_up, here sends_success, here returned, v.sane)

  begin-Inv : (err : Option Error) → Inv (begin err)
  unfolding begin
  begin-Inv err = record { here = refl; failing = inl refl; queued = tt; sane = λ h. cc }

  -- As long as no Send of the callback returns, initWebRTCAsAnswerer ends as the function without a
  -- callback does, in an error or at the result of SendAnswer, and setupWebRTC does not panic,
  -- under any schedule.
  pub follows_answer_offer :
      (err : Option Error) (es : List Event) {t : Shared P D}
      → All NoReturn es
      → run (step ext token p ret) es (begin err) ≡ some t
      → EndsAlike t
  follows_answer_offer err es {t} q h =
      Inv-EndsAlike t (
        run_keeps_if (step ext token p ret) NoReturn Inv step-Inv es (begin err) q (begin-Inv err)
          h)
