-- ===== src/Client/Listener/Exchange/Closing.antt =====
-- Closing remoteIceCh while the goroutine that receives candidates still sends on it.
use yamrp.Prelude.{
  Bool, List, Option, String, [], arith, false, if◌then◌else◌, none, refl, some, subst, true, ◌∷◌,
  ◌≡◌,
}
use yamrp.Errors.{Error, canceled}
use yamrp.Chan.{receive, send}
use yamrp.Schedules.{Ensures, run, run_keeps}
use yamrp.Client.Listener.Exchange.{
  Event, Exchange, Loop, alive_step, checks, checks_again, connects, ctx_ends, gathers, gone,
  loop_adds, loop_ends, loop_sends, new_exchange, opens, reader_sends, recv, returned, selecting,
  sending, silently, step,
}

abbrev Fails : Loop → Type 0
Fails (returned none) = ⊥
Fails _ = Unit

record Inv (x : Exchange) : Type 0 where
  fails : Fails x.loop
  closed : x.remote_closed ≡ true → (x.done ≡ true) × (x.loop ≡ returned (some canceled))
  panics : x.panicked ≡ true → x.remote_closed ≡ true

alive_step-Inv : (e : Event) (x x' : Exchange) → Inv x → alive_step e x ≡ some x' → Inv x'
unfolding alive_step send receive
alive_step-Inv ctx_ends x x' v h = ground arith
alive_step-Inv (connects err) x x' v h = ground arith
alive_step-Inv (recv c err) x x' v h = ground arith
alive_step-Inv checks x x' v h = ground arith
alive_step-Inv checks_again x x' v h = ground arith
alive_step-Inv reader_sends x x' v h = ground arith
alive_step-Inv (opens err) x x' v h = ground arith
alive_step-Inv (gathers c) x x' v h = ground arith
alive_step-Inv loop_ends x x' v h = ground arith
alive_step-Inv (loop_sends err) x x' v h = ground arith
alive_step-Inv (loop_adds err) x x' v h = ground arith

-- A step of an exchange that has not panicked.
pub step_alive :
    (e : Event) (x x' : Exchange) (out : Unit {0})
    → step e x ≡ some (x', out)
    → (x.panicked ≡ false) × (alive_step e x ≡ some x')
unfolding step
step_alive e x x' out h = go x.panicked (alive_step e x) h
  where
    go :
        (b : Bool) (o : Option Exchange)
        → (if b then none else silently o) ≡ some (x', out)
        → (b ≡ false) × (o ≡ some x')
    go true o h = cc
    go false none h = cc
    go false (some y) h = (refl, ground arith)

step-Inv : (e : Event) (x : Exchange) → Inv x → Ensures Inv (step e x)
step-Inv e x v = go (step e x) refl
  where
    go : (o : Option (Exchange × Unit {0})) → step e x ≡ o → Ensures Inv o
    go none h = tt
    go (some (x', out)) h = alive_step-Inv e x x' v (step_alive e x x' out h).1

reachable-Inv : (es : List Event) {x : Exchange} → run step es new_exchange ≡ some x → Inv x
unfolding new_exchange
reachable-Inv es ran = run_keeps step Inv step-Inv es new_exchange (ground arith) ran

-- exchangeICE never returns nil: in every reachable state in which it has returned, it has returned
-- an error.
exchange_fails :
    (es : List Event) (r : Option Error) {x : Exchange}
    → run step es new_exchange ≡ some x
    → x.loop ≡ returned r
    → (e : Error) × (r ≡ some e)
exchange_fails es none ran ended = absurd (subst Fails ended (reachable-Inv es ran).fails)
exchange_fails es (some e) ran ended = (e, refl)

-- A panic comes only after the context is done and exchangeICE has closed the channel and returned
-- the context's error.
panic_needs_close :
    (es : List Event) {x : Exchange}
    → run step es new_exchange ≡ some x
    → x.panicked ≡ true
    → (x.done ≡ true) × (x.remote_closed ≡ true) × (x.loop ≡ returned (some canceled))
panic_needs_close es ran panicked =
    let v = reachable-Inv es ran in
    let was_closed = v.panics panicked in
    ((v.closed was_closed).0, was_closed, (v.closed was_closed).1)

-- If the context ends and exchangeICE takes that case of its select while the goroutine is between
-- its second select and its send, then that send panics, whatever the candidate and however much
-- room the channel has.
pub close_before_send_panics :
    (c : String) (x : Exchange)
    → x.panicked ≡ false
    → x.reader ≡ sending c
    → x.loop ≡ selecting
    → (t : Exchange) × (run step (ctx_ends ∷ loop_ends ∷ reader_sends ∷ []) x ≡ some t)
      × (t.panicked ≡ true)
unfolding run step alive_step
close_before_send_panics c x alive at_send selects = (
  record x {
    done = true;
    remote_closed = true;
    loop = returned (some canceled);
    panicked = true;
    reader = gone;
  },
  ground arith,
  refl,
)
