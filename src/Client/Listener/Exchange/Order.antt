-- ===== src/Client/Listener/Exchange/Order.antt =====
-- Candidates keep their order in both directions.
use mathlib.Core.List.{append_assoc, append-nil}
use yamrp.Prelude.{
  List, Option, String, [], ap, arith, inl, inr, none, refl, some, ◌++◌, ◌∙◌, ◌∷◌, ◌≡◌, ◌≢◌, ◌⊎◌,
}
use yamrp.Chan.{receive, send}
use yamrp.Schedules.{Ensures, collect, run, run_collects, run_cons, run_keeps}
use yamrp.Client.Listener.Exchange.{
  Event, Exchange, Reader, alive_step, checking, checking_again, checks, checks_again, connecting,
  connects, ctx_ends, gathers, gone, loop_adds, loop_ends, loop_sends, new_exchange, opens,
  reader_send_step, reader_sends, receiving, recv, sending, step,
}
use yamrp.Client.Listener.Exchange.Closing.{step_alive}

-- The candidates that the peer connection handed out, and those that Recv returned.
abbrev pub gathered_by : Event → List String
gathered_by (gathers c) = c ∷ []
gathered_by _ = []

abbrev pub received_by : Event → List String
received_by (recv c none) = c ∷ []
received_by _ = []

abbrev on_way : Exchange → List String
on_way x = x.sent ++ x.pending.queue

step-on_way :
    (e : Event) (x x' : Exchange) → alive_step e x ≡ some x' → on_way x' ≡ on_way x ++ gathered_by e
unfolding alive_step send receive
step-on_way (gathers c) x x' h = ground (arith, append_assoc x.sent x.pending.queue (c ∷ []))
step-on_way (loop_sends err) x x' h = taken x.pending.queue refl
  where
    taken : (q : List String) → x.pending.queue ≡ q → on_way x' ≡ on_way x ++ []
    taken [] e = ground arith
    taken (c ∷ q) e = ground (arith, append_assoc x.sent (c ∷ []) q, append-nil (x.sent ++ c ∷ q))
step-on_way ctx_ends x x' h = ground (arith, append-nil (on_way x))
step-on_way (connects err) x x' h = ground (arith, append-nil (on_way x))
step-on_way (recv c err) x x' h = ground (arith, append-nil (on_way x))
step-on_way checks x x' h = ground (arith, append-nil (on_way x))
step-on_way checks_again x x' h = ground (arith, append-nil (on_way x))
step-on_way reader_sends x x' h = ground (arith, append-nil (on_way x))
step-on_way (opens err) x x' h = ground (arith, append-nil (on_way x))
step-on_way loop_ends x x' h = ground (arith, append-nil (on_way x))
step-on_way (loop_adds err) x x' h = ground (arith, append-nil (on_way x))

-- Under any schedule, what was sent to the server and what waits for it are exactly the candidates
-- that the peer connection handed out, in their order, whether or not a send failed.
pub local_in_order :
    (es : List Event) {x : Exchange}
    → run step es new_exchange ≡ some x
    → x.sent ++ x.pending.queue ≡ collect gathered_by es
unfolding new_exchange
local_in_order es ran =
    run_collects step on_way gathered_by
      (λ e s s' out h. step-on_way e s s' (step_alive e s s' out h).1) es _ ran

abbrev pub hand : Reader → List String
hand (checking_again c) = c ∷ []
hand (sending c) = c ∷ []
hand _ = []

abbrev on_way_in : Exchange → List String
on_way_in x = x.added ++ (x.remote.queue ++ hand x.reader)

-- Either the goroutine has ended or nothing was lost.
abbrev Lossless : Event → Exchange → Exchange → Type 0
Lossless e x x' = (x'.reader ≡ gone) ⊎ (on_way_in x' ≡ on_way_in x ++ received_by e)

step-Lossless : (e : Event) (x x' : Exchange) → alive_step e x ≡ some x' → Lossless e x x'
unfolding alive_step send receive
step-Lossless (recv c none) x x' h =
    inr (ground (arith, append-nil x.remote.queue, append_assoc x.added x.remote.queue (c ∷ [])))
step-Lossless (recv c (some e)) x x' h = inl (ground arith)
step-Lossless reader_sends x x' h = sends x.reader refl h
  where
    sends :
        (r : Reader) → x.reader ≡ r → reader_send_step r x ≡ some x' → Lossless reader_sends x x'
    sends (sending c) e sent =
        ground (arith, append-nil (x.remote.queue ++ c ∷ []), append-nil (on_way_in x))
    sends connecting e sent = cc
    sends checking e sent = cc
    sends receiving e sent = cc
    sends gone e sent = cc
    sends (checking_again c) e sent = cc
step-Lossless (loop_adds err) x x' h = taken x.remote.queue refl
  where
    taken : (q : List String) → x.remote.queue ≡ q → Lossless (loop_adds err) x x'
    taken [] e = ground arith
    taken (c ∷ q) e = inr (
        ground (
          arith,
          append_assoc x.added (c ∷ []) (q ++ hand x.reader),
          append-nil (x.added ++ c ∷ (q ++ hand x.reader)),
        ))
step-Lossless checks x x' h = ground (arith, append-nil (on_way_in x))
step-Lossless checks_again x x' h = ground (arith, append-nil (on_way_in x))
step-Lossless ctx_ends x x' h = inr (ground (arith, append-nil (on_way_in x)))
step-Lossless (connects err) x x' h = ground (arith, append-nil (on_way_in x))
step-Lossless (opens err) x x' h = inr (ground (arith, append-nil (on_way_in x)))
step-Lossless (gathers c) x x' h = inr (ground (arith, append-nil (on_way_in x)))
step-Lossless loop_ends x x' h = inr (ground (arith, append-nil (on_way_in x)))
step-Lossless (loop_sends err) x x' h = inr (ground (arith, append-nil (on_way_in x)))

-- A goroutine that has ended stays so.
step-gone :
    (e : Event) (x x' : Exchange) → alive_step e x ≡ some x' → x.reader ≡ gone → x'.reader ≡ gone
unfolding alive_step send receive
step-gone e x x' h over = ground arith

run-gone :
    (es : List Event) (x : Exchange) {t : Exchange}
    → run step es x ≡ some t
    → x.reader ≡ gone
    → t.reader ≡ gone
run-gone es x ran over = run_keeps step (λ y. y.reader ≡ gone) keeps es x over ran
  where
    keeps : (e : Event) (y : Exchange) → y.reader ≡ gone → Ensures (λ z. z.reader ≡ gone) (step e y)
    keeps e y v = go (step e y) refl
      where
        go : (o : Option (Exchange × Unit {0})) → step e y ≡ o → Ensures (λ z. z.reader ≡ gone) o
        go none h = tt
        go (some (y', out)) h = step-gone e y y' (step_alive e y y' out h).1 v

run-on_way_in :
    (es : List Event) (x : Exchange) {t : Exchange}
    → run step es x ≡ some t
    → t.reader ≢ gone
    → on_way_in t ≡ on_way_in x ++ collect received_by es
unfolding run
run-on_way_in [] x ran on = ground (arith, append-nil (on_way_in x))
run-on_way_in (e ∷ es) x ran on =
    let (x', out, taken, rest) = run_cons step e es x ran in
    elim (step-Lossless e x x' (step_alive e x x' out taken).1) [
      | inl over ↦ absurd (on (run-gone es x' rest over))
      | inr same ↦
          run-on_way_in es x' rest on
          ∙ (ap (λ y. y ++ collect received_by es) same
              ∙ append_assoc (on_way_in x) (received_by e) (collect received_by es))
    ]

-- As long as the goroutine has not ended, what was given to the peer connection, what waits for it
-- and what the goroutine is about to send are exactly the candidates that Recv returned, in their
-- order.
pub remote_in_order :
    (es : List Event) {x : Exchange}
    → run step es new_exchange ≡ some x
    → x.reader ≢ gone
    → x.added ++ (x.remote.queue ++ hand x.reader) ≡ collect received_by es
unfolding new_exchange
remote_in_order es ran on = run-on_way_in es _ ran on
