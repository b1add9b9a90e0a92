-- ===== src/Client/Listener/Setup/Callbacks.antt =====
-- The callback on connection states after the set-up is over.
use yamrp.Client.Listener.Exchange
use yamrp.Prelude.{List, Option, [], arith, length, none, refl, some, suc, ◌∷◌, ◌≡◌, ◌≤◌}
use yamrp.Errors.{Error}
use yamrp.Chan.{make_chan, receive, send}
use yamrp.Schedules.{Ensures, run, run_keeps, run_taken}
use yamrp.Client.Listener.Setup.{
  Event, Setup, answer_resolves, connected, connected_pushes, ended, exchanged, exchanges,
  failed_pushes, ice_resolves, next, silently, state_changes, step, takes_answer, takes_connected,
  takes_done, takes_failed, takes_ice,
}
use yamrp.Client.Listener.Exchange.{Exchange}

-- initWebRTCAsOfferer has returned, its signal channel is full and a callback waits for room.
record IsStuck (r : Option Error) (x : Setup) : Type 0 where
  over : x.place ≡ ended r
  room : x.connected_sig.capacity ≡ 1
  full : length x.connected_sig.queue ≡ 1
  calling : 1 ≤ x.connected_calls

module _ (r : Option Error) (x x' : Setup) (v : IsStuck r x) where
  next-IsStuck : (e : Event) → next e x ≡ some x' → IsStuck r x'
  unfolding next send receive
  next-IsStuck (exchanges e) h = exchanging (Exchange.step e x.exchange) h
    where
      exchanging : (o : Option (Exchange × Unit {0})) → exchanged x o ≡ some x' → IsStuck r x'
      exchanging none h = cc
      exchanging (some (y, out)) h = ground arith
  next-IsStuck (answer_resolves err) h = ground arith
  next-IsStuck ice_resolves h = ground arith
  next-IsStuck (state_changes st) h = ground arith
  next-IsStuck connected_pushes h = ground arith
  next-IsStuck failed_pushes h = ground arith
  next-IsStuck takes_answer h = ground arith
  next-IsStuck takes_done h = ground arith
  next-IsStuck takes_connected h = ground arith
  next-IsStuck takes_failed h = ground arith
  next-IsStuck takes_ice h = ground arith

step-IsStuck :
    (r : Option Error) (e : Event) (x : Setup) → IsStuck r x → Ensures (IsStuck r) (step e x)
unfolding step
step-IsStuck r e x v = go (next e x) refl
  where
    go : (o : Option Setup) → next e x ≡ o → Ensures (IsStuck r) (silently o)
    go none h = tt
    go (some x') h = next-IsStuck r x x' v e h

-- After initWebRTCAsOfferer has returned, and the signal channel is empty, two more reports that the
-- peer connection is connected leave a callback that never returns: after any further schedule one
-- still waits for room.
pub late_callback_blocks :
    (r : Option Error) (after : List Event) (x : Setup) {t : Setup}
    → x.place ≡ ended r
    → x.connected_sig ≡ make_chan 1
    → run step (state_changes connected ∷ connected_pushes ∷ state_changes connected ∷ after) x
      ≡ some t
    → (1 ≤ t.connected_calls) × (step connected_pushes t ≡ none)
unfolding step next send
late_callback_blocks r after x {t} over empty ran = (v.calling, ground (arith, v))
  where
    called : Setup
    called = record x { connected_calls = suc x.connected_calls }

    pushed : Setup
    pushed = record x { connected_sig = record { capacity = 1; queue = tt ∷ [] } }

    again : Setup
    again = record pushed { connected_calls = suc x.connected_calls }

    room : step connected_pushes called ≡ some (pushed, tt)
    room = ground (arith, empty)

    later : run step after again ≡ some t
    later =
        run_taken step _ after pushed refl
          (run_taken step _ _ called room (run_taken step _ _ x refl ran))

    v : IsStuck r t
    v =
        run_keeps step (IsStuck r) (step-IsStuck r) after again
          (record { over = over; room = refl; full = refl; calling = omega arith }) later
