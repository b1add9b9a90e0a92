-- ===== src/Client/Listener/Sessions.antt =====
-- client/listener.go: `startProxy`, `cleanupProxy` and the Accept loop of `BindListener`.
-- A call of startProxy is a session, numbered in the order of the calls; the identifier of session n
-- is `uuid n`, what uuid.New returned. What Close does to a proxy is in Client/Proxy; here it counts.
pub mod Cleanup
pub mod Reachable
mod Tests
use yamrp.Prelude.{
  Bool, List, Map, Option, String, [], erase, false, if◌then◌else◌, insert, no_entries, none, some,
  suc, true, update, ℕ, ◌+◌, ◌∷◌,
}
use yamrp.Errors.{Error, canceled, is_failure}
use yamrp.Chan.{Chan, make_chan, receive, send}

-- No session; before the proxy is stored; its goroutine at its select; that goroutine at its end
pub data Place : Type 0 where
  absent storing waiting finished : Place

pub record Session : Type 0 where
  pub place : Place
  pub eol_sig : Chan (Option Error)
  pub closes : ℕ  -- calls of proxy.Close
  pub channel_closes : ℕ  -- calls of dataChannel.Close
  pub closed : Option (Option Error)  -- the future that startProxy returns

pub record Listener : Type 0 where
  pub proxies : Map ℕ
  pub sessions : ℕ → Session
  pub started : ℕ
  pub done : Bool  -- l.ctx

abbrev new_session : Place → Session
new_session place = record {
  place = place;
  eol_sig = make_chan 1;
  closes = 0;
  channel_closes = 0;
  closed = none;
}

unfoldable pub new_listener : Listener
new_listener = record {
  proxies = no_entries;
  sessions = λ n. new_session absent;
  started = 0;
  done = false;
}

abbrev with_session : ℕ → Session → Listener → Listener
with_session n x s = record s { sessions = update s.sessions n x }

abbrev close_proxy : Session → Session
close_proxy x = record x { closes = suc x.closes }

pub cleanup_proxy : String → Listener → Listener
cleanup_proxy id s = elim (s.proxies id) [
  | none ↦ s
  | some n ↦ with_session n (close_proxy (s.sessions n)) (record s { proxies = erase s.proxies id })
]

abbrev or_full : Chan (Option Error) → Option (Chan (Option Error)) → Chan (Option Error)
or_full c none = c
or_full c (some d) = d

-- trySendEoL on eolSig
pub signal : ℕ → Option Error → Listener → Listener
unfolding send
signal n err s =
    let x = s.sessions n in
    with_session n (record x { eol_sig = or_full x.eol_sig (send x.eol_sig err) }) s

-- The goroutine of startProxy after its select
pub conclude : String → ℕ → Option Error → Listener → Listener
unfolding cleanup_proxy
conclude id n err s =
    let t = cleanup_proxy id s in
    let x = t.sessions n in
    with_session n
      (record x { place = finished; channel_closes = suc x.channel_closes; closed = some err }) t

pub data Event : Type 0 where
  starts cancels : Event
  -- the proxy is stored; a loop of the proxy signals; the data channel is closed
  stores channel_closes : ℕ → Event
  signals : ℕ → Option Error → Event
  takes_eol takes_done : ℕ → Event

module _ (uuid : ℕ → String) where
  -- The map is written and the goroutine started.
  pub store : ℕ → Place → Listener → Option Listener
  store n storing s = some (
      with_session n (record (s.sessions n) { place = waiting })
        (record s { proxies = insert s.proxies (uuid n) n }))
  store n _ s = none

  -- The callback that startProxy gives to OnClose
  pub on_close : ℕ → Place → Listener → Option Listener
  unfolding cleanup_proxy signal
  on_close n absent s = none
  on_close n _ s = some (signal n none (cleanup_proxy (uuid n) s))

  pub on_signal : ℕ → Option Error → Place → Listener → Option Listener
  unfolding signal
  on_signal n err absent s = none
  on_signal n err _ s = some (signal n err s)

  abbrev eol_taken : ℕ → Listener → Option (Option Error × Chan (Option Error)) → Option Listener
  unfolding conclude
  eol_taken n s none = none
  eol_taken n s (some (err, c)) =
      some (conclude (uuid n) n err (with_session n (record (s.sessions n) { eol_sig = c }) s))

  -- case errL := <-eolSig
  pub take_eol : ℕ → Place → Listener → Option Listener
  unfolding receive conclude
  take_eol n waiting s = eol_taken n s (receive (s.sessions n).eol_sig)
  take_eol n _ s = none

  -- case <-l.ctx.Done()
  pub take_done : ℕ → Place → Listener → Option Listener
  unfolding conclude
  take_done n waiting s = if s.done then some (conclude (uuid n) n (some canceled) s) else none
  take_done n _ s = none

  pub next : Event → Listener → Option Listener
  unfolding store on_close on_signal take_eol take_done
  next starts s =
      some (record (with_session s.started (new_session storing) s) { started = suc s.started })
  next cancels s = some (record s { done = true })
  next (stores n) s = store n (s.sessions n).place s
  next (channel_closes n) s = on_close n (s.sessions n).place s
  next (signals n err) s = on_signal n err (s.sessions n).place s
  next (takes_eol n) s = take_eol n (s.sessions n).place s
  next (takes_done n) s = take_done n (s.sessions n).place s

  abbrev silently : Option Listener → Option (Listener × Unit {0})
  silently none = none
  silently (some s) = some (s, tt)

  unfoldable pub step : Event → Listener → Option (Listener × Unit {0})
  unfolding next
  step e s = silently (next e s)

-- BindListener on what Accept and CreateDataChannel return: a connection or none with an error, and
-- the error for the data channel; `none` is the end of the context. It returns, it panics on a nil connection, or it has registered
-- that many callbacks, each of which calls startProxy once its data channel opens.
pub data Bound : Type 0 where
  fails : Option Error → Bound
  panics : Bound
  accepts : ℕ → Bound

abbrev add_one : Bound → Bound
add_one (accepts n) = accepts (n + 1)
add_one b = b

abbrev on_channel : Option Error → Bound → Bound
on_channel none rest = add_one rest
on_channel (some e) rest = rest

pub bind_listener : List (Option (Bool × Option Error × Option Error)) → Bound
bind_listener [] = accepts 0
bind_listener (none ∷ more) = fails (some canceled)
bind_listener (some (false, err, channel_err) ∷ more) = panics
bind_listener (some (true, err, channel_err) ∷ more) =
    let rest = bind_listener more in
    if is_failure err then fails err else on_channel channel_err rest
