-- ===== src/Client/Agent/Reports.antt =====
-- What the channel of Connect delivers, under every schedule.
use yamrp.Prelude.{
  List, Option, String, [], arith, inl, inr, none, refl, some, subst, sym, true, ◌∷◌, ◌≡◌, ◌⊎◌,
}
use yamrp.Errors.{Error, canceled, closed_pipe, eof, is_failure, net_closed, other, status}
use yamrp.Chan.{Chan, receive, send}
use yamrp.Client.Agent.{
  Event, Externals, Place, Result, Setup, answered, begin, connect, fails, failure, function_goes,
  function_step, returned, run, sender_goes, sender_step, sending, set_up, setup_goes, setup_step,
  step, success,
}
use yamrp.Client.Agent.Answers.{
  call_errors, ending, fails-is_failure, first_failure, first_failure-ending,
}

module _ {P : Type 0} where
  -- A state whose channel holds one list, with the goroutines that wait.
  abbrev at :
      List (Result P) → List (Result P) → Place P → Option P → Option (Option Error) → Setup P
  at queue senders place p report = record {
    ch = record { capacity = 1; queue = queue };
    senders = senders;
    place = place;
    peer_conn = p;
    report = report;
  }

  abbrev pub Delivers : Option P → Option Error → Setup P → Type 0
  Delivers p r s = (s.report ≡ some r) × (s.peer_conn ≡ p)

  step-Delivers :
      (e : Event) (s : Setup P) (p : Option P) (r : Option Error)
      → Delivers p r s
      → Delivers p r (step e s)
  unfolding step sender_step function_step setup_step set_up yamrp.Chan.send yamrp.Chan.receive
  step-Delivers sender_goes s p r h = (ground arith, ground arith)
  step-Delivers function_goes s p r h = (ground arith, ground arith)
  step-Delivers setup_goes s p r h = (ground arith, ground arith)

  -- After a report nothing that is received counts: the report stays.
  after_report :
      (es : List Event) (s : Setup P) (p : Option P) (r : Option Error)
      → Delivers p r s
      → Delivers p r (run es s)
  unfolding run
  after_report [] s p r h = h
  after_report (e ∷ es) s p r h = after_report es (step e s) p r (step-Delivers e s p r h)

  -- A function that waits to send on the full channel that it has not returned yet waits for ever.
  stuck :
      (es : List Event) (p : P) (x : Result P) (senders : List (Result P))
      → (run es (at (x ∷ []) senders (sending (success p)) none none)).report ≡ none
  unfolding run step sender_step function_step setup_step yamrp.Chan.send yamrp.Chan.receive
  stuck [] p x senders = refl
  stuck (sender_goes ∷ es) p x [] = stuck es p x []
  stuck (sender_goes ∷ es) p x (y ∷ senders) = stuck es p x (y ∷ senders)
  stuck (function_goes ∷ es) p x senders = stuck es p x senders
  stuck (setup_goes ∷ es) p x senders = stuck es p x senders

  abbrev pub Succeeds : P → Setup P → Type 0
  Succeeds p s = (s.report ≡ none) ⊎ ((s.report ≡ some none) × (s.peer_conn ≡ some p))

  -- The channel was returned with the connection in it.
  from_returned :
      (es : List Event) (p : P) (senders : List (Result P))
      → Succeeds p (run es (at (success p ∷ []) senders returned none none))
  unfolding run step sender_step function_step setup_step set_up yamrp.Chan.send yamrp.Chan.receive
  from_returned [] p senders = inl refl
  from_returned (sender_goes ∷ es) p [] = from_returned es p []
  from_returned (sender_goes ∷ es) p (x ∷ senders) = from_returned es p (x ∷ senders)
  from_returned (function_goes ∷ es) p senders = from_returned es p senders
  from_returned (setup_goes ∷ es) p senders = inr (after_report es _ (some p) none (refl, refl))

  -- The function waits at its last send, with the goroutine for an error or without.
  from_answered :
      (es : List Event) (p : P) (senders : List (Result P))
      → Succeeds p (run es (at [] senders (sending (success p)) none none))
  unfolding run step sender_step function_step setup_step yamrp.Chan.send yamrp.Chan.receive
  from_answered [] p senders = inl refl
  from_answered (sender_goes ∷ es) p [] = from_answered es p []
  from_answered (sender_goes ∷ es) p (x ∷ senders) = inl (stuck es p x senders)
  from_answered (function_goes ∷ es) p senders = from_returned es p senders
  from_answered (setup_goes ∷ es) p senders = from_answered es p senders

  abbrev pub Fails : Option Error → Setup P → Type 0
  Fails err s = ((s.report ≡ none) ⊎ (s.report ≡ some err)) × (s.peer_conn ≡ none)

  -- One error in the channel, and nobody else.
  from_failure :
      (es : List Event) (err : Option Error)
      → is_failure err ≡ true
      → Fails err (run es (at (failure err ∷ []) [] returned none none))
  unfolding run step sender_step function_step setup_step set_up yamrp.Chan.send yamrp.Chan.receive
  from_failure [] err h = (inl refl, refl)
  from_failure (sender_goes ∷ es) err h = from_failure es err h
  from_failure (function_goes ∷ es) err h = from_failure es err h
  from_failure (setup_goes ∷ es) err h =
      let reported : Delivers none err
          (step setup_goes (at (failure err ∷ []) [] returned none none)) =
        (ground arith, ground arith) in
      let kept = after_report es _ none err reported in (inr kept.0, kept.1)

  from_failed :
      (es : List Event) (err : Option Error)
      → is_failure err ≡ true
      → Fails err (run es (begin (fails err)))
  unfolding run step sender_step function_step setup_step begin yamrp.Chan.send yamrp.Chan.receive
  from_failed [] err h = (inl refl, refl)
  from_failed (sender_goes ∷ es) err h = from_failure es err h
  from_failed (function_goes ∷ es) err h = from_failed es err h
  from_failed (setup_goes ∷ es) err h = from_failed es err h

  -- Once the sender has sent and the caller has received, the error is reported.
  after_failure :
      (es : List Event) (err : Option Error)
      → is_failure err ≡ true
      → Delivers none err (run (sender_goes ∷ setup_goes ∷ es) (begin (fails err)))
  unfolding run step sender_step function_step setup_step set_up begin yamrp.Chan.send
      yamrp.Chan.receive
  after_failure es err h =
      let reported : Delivers none err
          (step setup_goes (at (failure err ∷ []) [] returned none none)) =
        (ground arith, ground arith) in
      after_report es _ none err reported

  after_answer :
      (es : List Event) (err : Option Error) (p : P)
      → Delivers (some p) none (run (function_goes ∷ setup_goes ∷ es) (begin (answered err p)))
  unfolding run step sender_step function_step setup_step set_up begin yamrp.Chan.send
      yamrp.Chan.receive
  after_answer es err p = after_report es _ (some p) none (refl, refl)

  from_begin :
      (es : List Event) (err : Option Error) (p : P) → Succeeds p (run es (begin (answered err p)))
  unfolding begin
  from_begin es err p = from_answered es p _

  lost_first :
      (es : List Event) (err : Option Error) (p : P)
      → is_failure err ≡ true
      → (run (sender_goes ∷ es) (begin (answered err p))).report ≡ none
  unfolding run step sender_step function_step setup_step begin yamrp.Chan.send yamrp.Chan.receive
  lost_first es none p h = cc
  lost_first es (some eof) p h = cc
  lost_first es (some closed_pipe) p h = stuck es p _ []
  lost_first es (some net_closed) p h = stuck es p _ []
  lost_first es (some canceled) p h = stuck es p _ []
  lost_first es (some (status c)) p h = stuck es p _ []
  lost_first es (some (other n)) p h = stuck es p _ []

module _ {P D : Type 0} (ext : Externals P D) (token host_id : String) where
  -- In a run in which no candidate is sent, let some call before SendAnswer fail, and let the first
  -- that does so give the error `e`. Then no schedule reports anything but that error or sets the
  -- connection of the agent, and once the goroutine has sent it and the caller has taken it, it is
  -- reported.
  pub failed_call_is_reported :
      (e : Error) (es : List Event)
      → first_failure (call_errors ext token host_id) ≡ some e
      → Fails (some e) (connect ext token host_id es)
        × Delivers none (some e) (connect ext token host_id (sender_goes ∷ setup_goes ∷ es))
  unfolding connect
  failed_call_is_reported e es first =
      let h = first_failure-ending ext token host_id e first in
      let failing = fails-is_failure ext token host_id (some e) h in
      subst
        (λ x.
          Fails (some e) (run es (begin x))
          × Delivers none (some e) (run (sender_goes ∷ setup_goes ∷ es) (begin x)))
        (sym h) (from_failed es (some e) failing, after_failure es (some e) failing)

  -- In a run in which no candidate is sent, when every call before the answer succeeds, no schedule
  -- reports an error, not even when the answer could not be sent: what is reported is success, with
  -- the connection set.
  -- If the function sends first, that is reported after one more step.
  pub lost_answer_is_not_reported :
      (err : Option Error) (p : P) (es : List Event)
      → ending ext token host_id ≡ answered err p
      → Succeeds p (connect ext token host_id es)
        × Delivers (some p) none (connect ext token host_id (function_goes ∷ setup_goes ∷ es))
  unfolding connect
  lost_answer_is_not_reported err p es h =
      subst
        (λ x.
          Succeeds p (run es (begin x))
          × Delivers (some p) none (run (function_goes ∷ setup_goes ∷ es) (begin x)))
        (sym h) (from_begin es err p, after_answer es err p)

  -- In a run in which no candidate is sent, when sending the answer fails and the goroutine with the error sends first, nothing is ever
  -- reported.
  lost_answer_hangs :
      (err : Option Error) (p : P) (es : List Event)
      → ending ext token host_id ≡ answered err p
      → is_failure err ≡ true
      → (connect ext token host_id (sender_goes ∷ es)).report ≡ none
  unfolding connect
  lost_answer_hangs err p es h failed =
      subst (λ x. (run (sender_goes ∷ es) (begin x)).report ≡ none) (sym h)
        (lost_first es err p failed)
