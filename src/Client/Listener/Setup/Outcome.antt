-- ===== src/Client/Listener/Setup/Outcome.antt =====
-- When the set-up of a connection succeeds.
use yamrp.Client.Listener.Exchange
use yamrp.Prelude.{
  Bool, List, Option, [], ap, arith, false, if◌then◌else◌, length, length-append, map, none, refl,
  some, true, ℕ, ◌+◌, ◌∙◌, ◌∷◌, ◌≡◌, ◌≤◌,
}
use yamrp.Errors.{Error}
use yamrp.Chan.{receive, send}
use yamrp.Schedules.{run, run_counts, total}
use yamrp.Async.Order.{await_unordered_order, done}
use yamrp.Client.Listener.Setup.{
  Event, Pending, Place, Setup, answer_resolves, begin, connected, connected_pushes, delivered,
  ended, exchanged, exchanges, failed_pushes, first_success, ice_resolves, next, resolved,
  selecting, setup_failed, setup_webrtc, silently, state_changes, step, takes_answer,
  takes_connected, takes_done, takes_failed, takes_ice,
}
use yamrp.Client.Listener.Exchange.{Exchange}

abbrev pub connections : Event → ℕ
connections (state_changes connected) = 1
connections _ = 0

abbrev pub good_answers : Event → ℕ
good_answers (answer_resolves none) = 1
good_answers _ = 0

abbrev won : Place → ℕ
won (ended none) = 1
won _ = 0

abbrev passed : Place → ℕ
passed selecting = 1
passed (ended none) = 1
passed _ = 0

abbrev good : Pending → ℕ
good (resolved none) = 1
good _ = 0

-- Signals of a connection on their way, and the one that was taken.
abbrev signals : Setup → ℕ
signals x = x.connected_calls + (length x.connected_sig.queue + won x.place)

abbrev answers : Setup → ℕ
answers x = good x.answer + passed x.place

silently_lem :
    (o : Option Setup) (x : Setup) (out : Unit {0}) → silently o ≡ some (x, out) → o ≡ some x
silently_lem none x out h = cc
silently_lem (some y) x out h = ground arith

module _ (x x' : Setup) where
  next-signals : (e : Event) → next e x ≡ some x' → signals x' ≤ signals x + connections e
  unfolding next send receive
  next-signals (exchanges e) h = exchanging (Exchange.step e x.exchange) h
    where
      exchanging :
          (o : Option (Exchange × Unit {0})) → exchanged x o ≡ some x' → signals x' ≤ signals x + 0
      exchanging none h = cc
      exchanging (some (y, out)) h = ground arith
  next-signals (answer_resolves err) h = ground arith
  next-signals ice_resolves h = ground arith
  next-signals (state_changes st) h = ground arith
  next-signals connected_pushes h = ground (arith, length-append x.connected_sig.queue (tt ∷ []))
  next-signals failed_pushes h = ground arith
  next-signals takes_answer h = ground arith
  next-signals takes_done h = ground arith
  next-signals takes_connected h = ground arith
  next-signals takes_failed h = ground arith
  next-signals takes_ice h = ground arith

  next-answers : (e : Event) → next e x ≡ some x' → answers x' ≤ answers x + good_answers e
  unfolding next send receive
  next-answers (exchanges e) h = exchanging (Exchange.step e x.exchange) h
    where
      exchanging :
          (o : Option (Exchange × Unit {0})) → exchanged x o ≡ some x' → answers x' ≤ answers x + 0
      exchanging none h = cc
      exchanging (some (y, out)) h = ground arith
  next-answers (answer_resolves err) h = ground arith
  next-answers ice_resolves h = ground arith
  next-answers (state_changes st) h = ground arith
  next-answers connected_pushes h = ground arith
  next-answers failed_pushes h = ground arith
  next-answers takes_answer h = ground arith
  next-answers takes_done h = ground arith
  next-answers takes_connected h = ground arith
  next-answers takes_failed h = ground arith
  next-answers takes_ice h = ground arith

-- Under any schedule, initWebRTCAsOfferer returns nil only if the answer was set without an error
-- and the peer connection has reported that it is connected.
pub success_needs_connection :
    (es : List Event) {t : Setup}
    → run step es begin ≡ some t
    → t.place ≡ ended none
    → (1 ≤ total connections es) × (1 ≤ total good_answers es)
unfolding begin step
success_needs_connection es {t} ran success = (
  omega (
    arith,
    run_counts step signals connections
        (λ e s s' out h. next-signals s s' e (silently_lem _ s' out h)) es begin ran,
    ap won success,
  ),
  omega (
    arith,
    run_counts step answers good_answers
        (λ e s s' out h. next-answers s s' e (silently_lem _ s' out h)) es begin ran,
    ap passed success,
  ),
)

abbrev pub any_nil : List (Option Error) → Bool
any_nil [] = false
any_nil (none ∷ rest) = true
any_nil (some e ∷ rest) = any_nil rest

first_success_lem :
    (rs : List (Option Error)) → first_success rs ≡ (if any_nil rs then none else some setup_failed)
unfolding first_success
first_success_lem [] = refl
first_success_lem (none ∷ rs) = refl
first_success_lem (some e ∷ rs) = first_success_lem rs

-- Once every way to set the connection up has returned, setupWebRTC returns nil if and only if one of
-- them did, and an error of its own otherwise, which says nothing of theirs.
pub setup_webrtc_outcome :
    (rs : List (Option Error))
    → setup_webrtc (map done rs) ≡ some (if any_nil rs then none else some setup_failed)
unfolding setup_webrtc
setup_webrtc_outcome rs =
    ap delivered (await_unordered_order rs 2 (omega arith)) ∙ ap some (first_success_lem rs)
