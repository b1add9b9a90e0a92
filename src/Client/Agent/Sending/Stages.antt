-- ===== src/Client/Agent/Sending/Stages.antt =====
-- What every state can have reached when initWebRTCAsAnswerer is at a place.
use yamrp.Prelude.{
  Bool, List, Option, Option-cases, String, arith, false, inl, inr, none, refl, some, subst, suc,
  true, zero, ℕ, ◌≡◌, ◌⊎◌,
}
use yamrp.Errors.{Error}
use yamrp.Chan.{Chan, make_chan, receive, send}
use yamrp.Schedules.{Ensures, Holds, run, run_keeps}
use yamrp.Client.Agent.Sending.{
  Callback, Event, Place, Report, Shared, awaiting, begin, call, called, creates_answer,
  function_goes, function_step, gave_up, go, idle, or_give_up, overwrite, pending, poll, polling,
  polls, reported, returned, send_returns, sender_goes, sender_sent, sender_step, sends_answer,
  sends_success, sets_local, sets_remote, setup_goes, setup_step, silently-Ensures, start_sender,
  step, succeed, tests_sent, unmarshals,
}
use yamrp.Client.Agent.{Externals, Result, WaitForOfferResponse, failure, taken}

module _ {P D : Type 0} where
  -- Where the function can be on its way to a give-up, nothing was sent and nothing is reported; after
  -- it, as long as the goroutine for the error is there.
  abbrev pub Stage : Place D → ℕ → Chan (Result P) → Report P → Type 0
  Stage gave_up n ch r = (n ≡ 0) ⊎ ((n ≡ 1) × (ch ≡ make_chan 1) × (r ≡ pending))
  Stage sends_success n ch r = Unit
  Stage returned n ch r = Unit
  Stage _ n ch r = (n ≡ 0) × (ch ≡ make_chan 1) × (r ≡ pending)

  pub record Inv (s : Shared P D) : Type 0 where
    pub here : Stage s.place s.senders s.ch s.report

module _ {P D : Type 0} (ext : Externals P D) (token : String) (p : P)
    (ret : WaitForOfferResponse) where
  function_step-Inv :
      (l : Place D) (s : Shared P D)
      → Stage l s.senders s.ch s.report
      → Holds Inv (function_step ext token p ret l s)
  unfolding function_step or_give_up start_sender succeed send
  function_step-Inv unmarshals s a = ground arith
  function_step-Inv (sets_remote offer) s a = ground arith
  function_step-Inv creates_answer s a = ground arith
  function_step-Inv (sets_local x) s a = ground arith
  function_step-Inv (sends_answer x) s a = ground arith
  function_step-Inv tests_sent s a = ground arith
  function_step-Inv sends_success s a = ground arith
  function_step-Inv gave_up s a = tt
  function_step-Inv returned s a = tt

  Stage-sent :
      (l : Place D) (n : ℕ) (c d : Chan (Result P)) (r : Report P)
      → Stage l (suc n) c r
      → Stage l n d r
  Stage-sent unmarshals n c d r h = absurd (omega (arith, h.0))
  Stage-sent (sets_remote offer) n c d r h = absurd (omega (arith, h.0))
  Stage-sent creates_answer n c d r h = absurd (omega (arith, h.0))
  Stage-sent (sets_local a) n c d r h = absurd (omega (arith, h.0))
  Stage-sent (sends_answer a) n c d r h = absurd (omega (arith, h.0))
  Stage-sent tests_sent n c d r h = absurd (omega (arith, h.0))
  Stage-sent sends_success n c d r h = tt
  Stage-sent gave_up n c d r h = inl (ground arith)
  Stage-sent returned n c d r h = tt

  sender_step-Inv : (n : ℕ) (s : Shared P D) → s.senders ≡ n → Inv s → Holds Inv (sender_step n s)
  unfolding sender_step
  sender_step-Inv zero s e v = tt
  sender_step-Inv (suc n) s e v = elim (Option-cases (send s.ch (failure s.err))) [
    | inl full ↦ rw (full, sender_sent) tt
    | inr (ch, sent) ↦
        rw (sent, sender_sent)
          (record {
            here =
                Stage-sent s.place n s.ch ch s.report
                  (subst (λ m. Stage s.place m s.ch s.report) e v.here);
          })
  ]

  Stage-received :
      (l : Place D) (n : ℕ) (c d : Chan (Result P)) (r r' : Report P) (u : Result P)
      → Stage l n c r
      → receive c ≡ some (u, d)
      → Stage l n d r'
  unfolding receive
  Stage-received unmarshals n c d r r' u h e = ground arith
  Stage-received (sets_remote offer) n c d r r' u h e = ground arith
  Stage-received creates_answer n c d r r' u h e = ground arith
  Stage-received (sets_local a) n c d r r' u h e = ground arith
  Stage-received (sends_answer a) n c d r r' u h e = ground arith
  Stage-received tests_sent n c d r r' u h e = ground arith
  Stage-received gave_up n c d r r' u h e = ground arith
  Stage-received sends_success n c d r r' u h e = tt
  Stage-received returned n c d r r' u h e = tt

  reported-Inv : (s : Shared P D) → Inv s → Holds Inv (reported s (receive s.ch))
  unfolding reported
  reported-Inv s v = elim (Option-cases (receive s.ch)) [
    | inl empty ↦ rw empty tt
    | inr ((u, c), taken) ↦
        rw taken
          (record { here = Stage-received s.place s.senders s.ch c s.report _ u v.here taken })
  ]

  setup_step-Inv :
      (l : Place D) (r : Report P) (s : Shared P D) → Inv s → Holds Inv (setup_step l r s)
  unfolding setup_step
  setup_step-Inv gave_up pending s v = reported-Inv s v
  setup_step-Inv returned pending s v = reported-Inv s v
  setup_step-Inv l r s v = tt

  call-Inv :
      (i : ℕ) (c : Option String) (b : Callback) (s : Shared P D) → Inv s → Holds Inv (call i c b s)
  unfolding call
  call-Inv i none idle s v = v
  call-Inv i (some c) idle s v = record { here = v.here }
  call-Inv i c b s v = tt

  poll-Inv :
      (i : ℕ) (has_remote : Bool) (b : Callback) (s : Shared P D)
      → Inv s
      → Holds Inv (poll token ret.answerer_id i has_remote b s)
  unfolding poll
  poll-Inv i true (polling c) s v = record { here = v.here }
  poll-Inv i false (polling c) s v = v
  poll-Inv i b c s v = tt

  overwrite-Inv :
      (i : ℕ) (err : Option Error) (b : Callback) (s : Shared P D)
      → Inv s
      → Holds Inv (overwrite i err b s)
  unfolding overwrite
  overwrite-Inv i err (awaiting c) s v = record { here = v.here }
  overwrite-Inv i err idle s v = tt
  overwrite-Inv i err (polling c) s v = tt

  step-Inv : (e : Event) (s : Shared P D) → Inv s → Ensures Inv (step ext token p ret e s)
  unfolding step go
  step-Inv function_goes s v = silently-Ensures Inv _ (function_step-Inv s.place s v.here)
  step-Inv sender_goes s v = silently-Ensures Inv _ (sender_step-Inv s.senders s refl v)
  step-Inv setup_goes s v = silently-Ensures Inv _ (setup_step-Inv s.place s.report s v)
  step-Inv (called i c) s v = silently-Ensures Inv _ (call-Inv i c (s.callbacks i) s v)
  step-Inv (polls i b) s v = silently-Ensures Inv _ (poll-Inv i b (s.callbacks i) s v)
  step-Inv (send_returns i err) s v =
      silently-Ensures Inv _ (overwrite-Inv i err (s.callbacks i) s v)

  abbrev pub Reachable : Shared P D → Type 0
  Reachable s =
      (err : Option Error) × (es : List Event) × (run (step ext token p ret) es (begin err)
        ≡ some s)

  pub Reachable-Inv : (s : Shared P D) → Reachable s → Inv s
  unfolding begin
  Reachable-Inv s (err, es, h) =
      run_keeps (step ext token p ret) Inv step-Inv es (begin err)
        (record { here = (refl, refl, refl) }) h
