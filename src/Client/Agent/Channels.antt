-- ===== src/Client/Agent/Channels.antt =====
-- client/agent.go: `onDataChannelHandler`. What Close does to a proxy is in Client/Proxy; here it
-- counts.
mod Tests
use yamrp.Prelude.{
  Bool, List, Option, [], arith, if◌then◌else◌, inl, inr, none, refl, some, suc, ℕ, ◌∷◌, ◌≡◌, ◌⊎◌,
}
use yamrp.Errors.{Error, eof, is_failure}
use yamrp.Chan.{Chan, make_chan, receive, send}
use yamrp.Schedules.{Ensures, run, run_keeps}

-- Its goroutine at its receive, and at its end
pub data Place : Type 0 where
  waiting finished : Place

pub record Channel : Type 0 where
  pub place : Place
  pub eol_sig : Chan Error
  pub proxy_closes : ℕ  -- calls of proxy.Close
  pub channel_closes : ℕ  -- calls of d.Close

abbrev pub new_channel : Channel
new_channel = record {
  place = waiting;
  eol_sig = make_chan 1;
  proxy_closes = 0;
  channel_closes = 0;
}

-- The handler on the connection and the error of net.Dial: it returns, it makes a proxy of a nil
-- connection, whose loops panic, or it waits.
pub data Handled : Type 0 where
  gives_up panics : Handled
  serves : Channel → Handled

pub on_data_channel : (has_conn : Bool) (err : Option Error) → Handled
on_data_channel has_conn err =
    if is_failure err then gives_up else if has_conn then serves new_channel else panics

pub data Event : Type 0 where
  -- the OnClose callback; a loop of the proxy signals; the goroutine goes on
  closes goes : Event
  signals : Error → Event

abbrev or_full : Chan Error → Option (Chan Error) → Chan Error
or_full c none = c
or_full c (some d) = d

-- a send on eolSig with a default
pub try_signal : Error → Channel → Channel
unfolding send
try_signal e s = record s { eol_sig = or_full s.eol_sig (send s.eol_sig e) }

abbrev signal_taken : Channel → Option (Error × Chan Error) → Option Channel
signal_taken s none = none
signal_taken s (some (e, c)) = some (record s {
  place = finished;
  eol_sig = c;
  proxy_closes = suc s.proxy_closes;
  channel_closes = suc s.channel_closes;
})

pub finish : Place → Channel → Option Channel
unfolding receive
finish waiting s = signal_taken s (receive s.eol_sig)
finish finished s = none

abbrev silently : Option Channel → Option (Channel × Unit {0})
silently none = none
silently (some s) = some (s, tt)

pub step : Event → Channel → Option (Channel × Unit {0})
unfolding try_signal finish
step closes s = some (try_signal eof s, tt)
step (signals e) s = some (try_signal e s, tt)
step goes s = silently (finish s.place s)

record Inv (s : Channel) : Type 0 where
  room : s.eol_sig.capacity ≡ 1
  open_ : s.place ≡ waiting → (s.proxy_closes ≡ 0) × (s.channel_closes ≡ 0)
  over : s.place ≡ finished → (s.proxy_closes ≡ 1) × (s.channel_closes ≡ 1)

step-Inv : (e : Event) (s : Channel) → Inv s → Ensures Inv (step e s)
unfolding step send receive
step-Inv closes s v = ground arith
step-Inv (signals e) s v = ground arith
step-Inv goes s v = ground arith

-- What the handler promises once the data channel was closed.
abbrev pub Ended : Channel → Type 0
Ended s = (s.place ≡ finished) × (s.proxy_closes ≡ 1) × (s.channel_closes ≡ 1)

-- The channel after the data channel closed and the goroutine went on, with what is left in eolSig.
abbrev after_close : List Error → Channel → Channel
after_close rest s = record {
  place = finished;
  eol_sig = record { capacity = 1; queue = rest };
  proxy_closes = suc s.proxy_closes;
  channel_closes = suc s.channel_closes;
}

Closable : Channel → Type 0
Closable s =
    ((t : Channel) × (run step (closes ∷ goes ∷ []) s ≡ some t) × Ended t)
    ⊎ (Ended s × (step goes s ≡ none))

Inv-Closable :
    (p : Place) (q : List Error) (s : Channel)
    → s.place ≡ p
    → s.eol_sig.queue ≡ q
    → Inv s
    → Closable s
unfolding Closable run step send receive
Inv-Closable finished q s at held v = inr (ground arith, ground arith)
Inv-Closable waiting [] s at held v = inl (after_close [] s, ground arith, ground arith)
Inv-Closable waiting (e ∷ rest) s at held v = inl (after_close rest s, ground arith, ground arith)

-- After any schedule, if the data channel closes and the goroutine goes on before anything else,
-- the goroutine has ended, and the proxy and the data channel were closed once; or it had ended
-- before and cannot go on again, and they were closed once too.
pub channel_closed_once :
    (es : List Event) {s : Channel}
    → run step es new_channel ≡ some s
    → ((t : Channel) × (run step (closes ∷ goes ∷ []) s ≡ some t) × Ended t)
      ⊎ (Ended s × (step goes s ≡ none))
unfolding Closable
channel_closed_once es {s} ran =
    Inv-Closable s.place s.eol_sig.queue s refl refl
      (run_keeps step Inv step-Inv es new_channel (ground arith) ran)
