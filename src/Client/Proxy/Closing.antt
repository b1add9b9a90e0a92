-- ===== src/Client/Proxy/Closing.antt =====
-- A proxy is closed once, and its reading loop ends by itself when nobody listens.
use yamrp.Prelude.{
  Bool-cases, List, Option, [], arith, false, inl, inr, length, length-append, none, refl, some,
  ◌==◌, ◌∷◌, ◌≡◌, ◌≤◌, ◌⊎◌,
}
use yamrp.Errors.{Error}
use yamrp.Chan.{Chan, receive, send}
use yamrp.Client.Proxy.{
  Bytes, Event, Proxy, close, closes, done, ended, left_writes, messages, new_proxy, read_error,
  read_returns, reader_stop, reading, reads, run, step, takes_eol, too_late, write_timeouts,
  writer_stop, writer_take, writes,
}
use yamrp.Client.Proxy.Runs.{Ensures, run_keeps}

record Inv (p : Proxy) : Type 0 where
  one : p.stopped.capacity ≡ 1
  counted : length p.stopped.queue ≡ p.conn_closes
  few : p.conn_closes ≤ 1
  still_open : p.conn_closes ≡ 0 → (p.write_closed ≡ false) × (p.read_closed ≡ false)
  calm : p.panicked ≡ false

step-Inv : (e : Event) (p p' : Proxy) → Inv p → step e p ≡ some p' → Inv p'
unfolding step send receive
step-Inv (reads bs re se) p p' v h = ground arith
step-Inv (messages bs) p p' v h = ground arith
step-Inv (writes e) p p' v h = ground arith
step-Inv (left_writes e) p p' v h = ground arith
step-Inv reader_stop p p' v h = ground arith
step-Inv writer_take p p' v h = ground arith
step-Inv write_timeouts p p' v h = ground arith
step-Inv writer_stop p p' v h = ground arith
step-Inv closes p p' v h = ground (arith, length-append p.stopped.queue (tt ∷ []))
step-Inv takes_eol p p' v h = ground arith

step-Ensures : (e : Event) (p : Proxy) → Inv p → Ensures Inv (step e p)
step-Ensures e p v = go (step e p) refl
  where
    go : (o : Option Proxy) → step e p ≡ o → Ensures Inv o
    go none h = tt
    go (some p') h = step-Inv e p p' v h

new_proxy-Inv : (c : Chan Error) → Inv (new_proxy c)
unfolding new_proxy
new_proxy-Inv c = ground arith

-- What Close does: it fails and changes nothing when the connection was closed, and it closes it
-- when it was not.
abbrev pub ClosesOnce : Proxy → Type 0
ClosesOnce p =
    ((p.conn_closes ≡ 1) × (close p ≡ (p, too_late)))
    ⊎ ((p.conn_closes ≡ 0)
        × ((close p).1 ≡ done)
        × ((close p).0.conn_closes ≡ 1)
        × ((close p).0.panicked ≡ false))

Inv-ClosesOnce : (p : Proxy) → Inv p → ClosesOnce p
unfolding close send
Inv-ClosesOnce p v = elim (Bool-cases (p.conn_closes == 0)) [
  | inl e ↦ inr (ground (arith, v), ground (arith, v), ground (arith, v), ground (arith, v))
  | inr e ↦ inl (ground (arith, v), ground (arith, v))
]

-- Whatever happened to a proxy, nothing panicked, and its connection was closed at most once. If
-- it was closed, a further Close fails and changes nothing; if not, Close succeeds, closes it once
-- and does not panic.
pub close_once :
    (c : Chan Error) (es : List Event) {p : Proxy}
    → run es (new_proxy c) ≡ some p
    → (p.panicked ≡ false) × ClosesOnce p
close_once c es {p} ran =
    let v : Inv p = run_keeps Inv step-Ensures es (new_proxy c) (new_proxy-Inv c) ran in
    (v.calm, Inv-ClosesOnce p v)

-- While nobody takes the EoL signal, whose channel has room for one, two failing turns end the
-- reading loop, whatever the errors are; the signal that waits is the error of the first turn.
reading_gives_up :
    (p : Proxy) (bs₁ bs₂ : Bytes) (r₁ s₁ r₂ s₂ : Option Error) (e₁ e₂ : Error) {q : Proxy}
    → p.reader ≡ reading
    → p.eol_sig.capacity ≡ 1
    → p.eol_sig.queue ≡ []
    → read_error bs₁ r₁ s₁ ≡ some e₁
    → read_error bs₂ r₂ s₂ ≡ some e₂
    → run (reads bs₁ r₁ s₁ ∷ reads bs₂ r₂ s₂ ∷ []) p ≡ some q
    → (q.reader ≡ ended) × (q.eol_sig.queue ≡ e₁ ∷ [])
unfolding run step read_returns send
reading_gives_up p bs₁ bs₂ r₁ s₁ r₂ s₂ e₁ e₂ reading_ one room f₁ f₂ ran = ground arith
