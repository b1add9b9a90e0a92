-- ===== src/Client/Agent/Sending/Overwritten.antt =====
-- What happens when a Send of the callback returns while initWebRTCAsAnswerer, or its goroutine for
-- an error, is about to read the variable `err`.
use yamrp.Prelude.{
  List, Option, String, [], ap, arith, false, if◌then◌else◌, inl, inr, refl, some, subst, update, ℕ,
  ◌∙◌, ◌∷◌, ◌≡◌, ◌≢◌,
}
use yamrp.Errors.{Error, is_failure}
use yamrp.Chan.{Chan, make_chan, receive, send}
use yamrp.Schedules.{run, run_next}
use yamrp.Client.Agent.Sending.{
  Callback, Event, Place, ReplyToRequest, Report, Shared, awaiting, connect_to, crashed,
  creates_answer, failed, gave_up, go, idle, overwrite, pending, reported, send_returns,
  sender_goes, sender_sent, sender_step, sends_answer, sets_local, sets_remote, setup_goes,
  setup_step, step,
}
use yamrp.Client.Agent.Sending.Stages.{Reachable, Reachable-Inv, Stage}
use yamrp.Client.Agent.{Externals, Result, WaitForOfferResponse}

module _ {P D : Type 0} (ext : Externals P D) (token : String) (p : P)
    (ret : WaitForOfferResponse) where
  -- The places at which the function tests the error of a call that an answer needs.
  abbrev pub CanGiveUp : Place D → Type 0
  CanGiveUp (sets_remote offer) = Unit
  CanGiveUp creates_answer = Unit
  CanGiveUp (sets_local a) = Unit
  CanGiveUp (sends_answer a) = Unit
  CanGiveUp _ = ⊥

  -- The function, or the goroutine of setupWebRTC, at the end of a give-up.
  abbrev given_up : Option Error → (ℕ → Callback) → List ReplyToRequest → Shared P D
  given_up err callbacks sent = record {
    place = gave_up;
    err = err;
    ch = make_chan 1;
    senders = 1;
    report = pending;
    callbacks = callbacks;
    sent = sent;
  }

  abbrev taken : Option Error → (ℕ → Callback) → List ReplyToRequest → Shared P D
  taken err callbacks sent = record (given_up err callbacks sent) {
    senders = 0;
    report = if is_failure err then failed err else crashed;
  }

  still_there :
      (n : ℕ) (c : Chan (Result P)) (r : Report P)
      → n ≢ 0
      → Stage {D = D} gave_up n c r
      → (n ≡ 1) × (c ≡ make_chan 1) × (r ≡ pending)
  still_there n c r h (inl gone) = absurd (h gone)
  still_there n c r h (inr v) = v

  -- The goroutine sends the variable, and setupWebRTC takes it.
  send_and_report :
      (err : Option Error) (callbacks : ℕ → Callback) (sent : List ReplyToRequest)
      → run (step ext token p ret) (sender_goes ∷ setup_goes ∷ []) (given_up err callbacks sent)
        ≡ some (taken err callbacks sent)
  unfolding run step go sender_step sender_sent setup_step reported connect_to send receive
  send_and_report err callbacks sent = refl

  overwrite_step :
      (i : ℕ) (e : Option Error) (c : String) (s : Shared P D)
      → s.callbacks i ≡ awaiting c
      → step ext token p ret (send_returns i e) s
        ≡ some (record s { callbacks = update s.callbacks i idle; err = e }, tt)
  unfolding step go overwrite
  overwrite_step i e c s h = rw h refl

  run_overwrite :
      (i : ℕ) (e : Option Error) (c : String) (es : List Event) (s : Shared P D)
      → s.callbacks i ≡ awaiting c
      → run (step ext token p ret) (send_returns i e ∷ es) s
        ≡ run
            (step ext token p ret)
            es
            (record s { callbacks = update s.callbacks i idle; err = e })
  run_overwrite i e c es s h =
      run_next (step ext token p ret) (send_returns i e) es s (overwrite_step i e c s h)

  -- A failure that nobody has sent, and what a Send that returns makes of it
  is_given_up :
      (s : Shared P D)
      → s.place ≡ gave_up
      → s.senders ≡ 1
      → s.ch ≡ make_chan 1
      → s.report ≡ pending
      → s ≡ given_up s.err s.callbacks s.sent
  is_given_up s a b c d = ground arith

  -- In every reachable state in which the function gave up and its goroutine has not sent, let a Send
  -- of the callback return without a failure, and let the goroutine send and setupWebRTC receive
  -- next, with nothing in between. They can go on so, and then setupWebRTC panics.
  pub reset_error_panics :
      (s : Shared P D) (i : ℕ) (c : String) (e : Option Error)
      → Reachable ext token p ret s
      → s.place ≡ gave_up
      → s.senders ≢ 0
      → s.callbacks i ≡ awaiting c
      → is_failure e ≡ false
      → (t : Shared P D) × (run
            (step ext token p ret)
            (send_returns i e ∷ sender_goes ∷ setup_goes ∷ [])
            s
          ≡ some t)
        × (t.report ≡ crashed)
  reset_error_panics s i c e reachable place senders waits passing =
      let v = Reachable-Inv ext token p ret s reachable in
      let stage = subst (λ l. Stage l s.senders s.ch s.report) place v.here in
      let (one, empty, open_) = still_there s.senders s.ch s.report senders stage in
      let callbacks = update s.callbacks i idle in
      let s' : Shared P D = record s { callbacks = callbacks; err = e } in
      let at : s' ≡ given_up e callbacks s.sent = is_given_up s' place one empty open_ in
      (
        taken e callbacks s.sent,
        run_overwrite i e c (sender_goes ∷ setup_goes ∷ []) s waits
            ∙ (ap (run (step ext token p ret) (sender_goes ∷ setup_goes ∷ [])) at
                ∙ send_and_report e callbacks s.sent),
        rw passing refl,
      )
