-- ===== src/Client/Listener/Sessions/Reachable.antt =====
-- What holds of the sessions in every reachable state.
use yamrp.Prelude.{
  Bool, Bool-cases, List, Option, String, arith, eq_iff, false, if◌then◌else◌, inl, inr, insert,
  insert_all, none, refl, some, subst, suc, true, ℕ, ◌==◌, ◌≡◌,
}
use yamrp.Errors.{Error, canceled}
use yamrp.Chan.{Chan, receive}
use yamrp.Schedules.{Ensures, Holds, run, run_keeps}
use yamrp.Client.Listener.Sessions.{
  Event, Listener, Place, absent, cancels, channel_closes, cleanup_proxy, conclude, eol_taken,
  finished, new_listener, new_session, next, on_close, on_signal, signal, signals, silently, starts,
  step, store, stores, storing, take_done, take_eol, takes_done, takes_eol, waiting, with_session,
}
use yamrp.Client.Listener.Sessions.Cleanup.{
  Fits, FitsIn, Inv, cleanup_proxy-Cleaned, conclude-Inv, signal-Inv, touch-Inv, write-Inv,
}

module _ (uuid : ℕ → String) (distinct : (m n : ℕ) → uuid m ≡ uuid n → m ≡ n) where
  start-Inv :
      (s : Listener)
      → Inv uuid s
      → Inv uuid
          (record (with_session s.started (new_session storing) s) { started = suc s.started })
  start-Inv s v = record { owned = v.owned; each = each; fresh = λ j le. ground (arith, v.fresh j) }
    where
      empty : s.proxies (uuid s.started) ≡ none
      empty =
          (subst (Fits (s.proxies (uuid s.started)) (s.sessions s.started).closes)
            (v.fresh s.started (omega arith)) (v.each s.started)).0

      each : (j : ℕ) → FitsIn uuid (with_session s.started (new_session storing) s) j
      each j = elim (Bool-cases (s.started == j)) [
        | inl e ↦
            let here : s.started ≡ j = ground (arith, e) in
            rw e (subst (λ i. s.proxies (uuid i) ≡ none) here empty, refl)
        | inr e ↦ rw e (v.each j)
      ]

  store-Inv :
      (n : ℕ) (p : Place) (s : Listener)
      → (s.sessions n).place ≡ p
      → Inv uuid s
      → Holds (Inv uuid) (store uuid n p s)
  unfolding store
  store-Inv n storing s at v =
      write-Inv uuid distinct n (record (s.sessions n) { place = waiting })
        (insert s.proxies (uuid n) n) s
        (insert_all (λ k j. uuid j ≡ k) s.proxies (uuid n) n v.owned refl)
        (λ j apart. ground (arith, eq_iff (uuid n) (uuid j), distinct n j))
        (inl ((λ gone. ground (arith, eq_iff (uuid n) (uuid n))), unclosed.1))
        (λ le. cc (v.fresh n le, at)) v
    where
      unclosed : Fits (s.proxies (uuid n)) (s.sessions n).closes storing
      unclosed = subst (Fits (s.proxies (uuid n)) (s.sessions n).closes) at (v.each n)
  store-Inv n absent s at v = tt
  store-Inv n waiting s at v = tt
  store-Inv n finished s at v = tt

  closed-Inv :
      (n : ℕ) (s : Listener) → Inv uuid s → Inv uuid (signal n none (cleanup_proxy (uuid n) s))
  closed-Inv n s v =
      signal-Inv uuid distinct n none _ (cleanup_proxy-Cleaned uuid distinct n s v).inv

  on_close-Inv :
      (n : ℕ) (p : Place) (s : Listener) → Inv uuid s → Holds (Inv uuid) (on_close uuid n p s)
  unfolding on_close
  on_close-Inv n absent s v = tt
  on_close-Inv n storing s v = closed-Inv n s v
  on_close-Inv n waiting s v = closed-Inv n s v
  on_close-Inv n finished s v = closed-Inv n s v

  on_signal-Inv :
      (n : ℕ) (err : Option Error) (p : Place) (s : Listener)
      → Inv uuid s
      → Holds (Inv uuid) (on_signal uuid n err p s)
  unfolding on_signal
  on_signal-Inv n err absent s v = tt
  on_signal-Inv n err storing s v = signal-Inv uuid distinct n err s v
  on_signal-Inv n err waiting s v = signal-Inv uuid distinct n err s v
  on_signal-Inv n err finished s v = signal-Inv uuid distinct n err s v

  take_eol-Inv :
      (n : ℕ) (p : Place) (s : Listener)
      → (s.sessions n).place ≡ p
      → Inv uuid s
      → Holds (Inv uuid) (take_eol uuid n p s)
  unfolding take_eol
  take_eol-Inv n waiting s at v = taken (receive (s.sessions n).eol_sig)
    where
      taken :
          (o : Option (Option Error × Chan (Option Error)))
          → Holds (Inv uuid) (eol_taken uuid n s o)
      taken none = tt
      taken (some (err, c)) =
          conclude-Inv uuid distinct n err _ (ground (arith, at))
            (touch-Inv uuid distinct n _ s (v.each n) (v.fresh n) v)
  take_eol-Inv n absent s at v = tt
  take_eol-Inv n storing s at v = tt
  take_eol-Inv n finished s at v = tt

  take_done-Inv :
      (n : ℕ) (p : Place) (s : Listener)
      → (s.sessions n).place ≡ p
      → Inv uuid s
      → Holds (Inv uuid) (take_done uuid n p s)
  unfolding take_done
  take_done-Inv n waiting s at v = ended s.done
    where
      ended :
          (b : Bool)
          → Holds (Inv uuid) (if b then some (conclude (uuid n) n (some canceled) s) else none)
      ended true = conclude-Inv uuid distinct n (some canceled) s at v
      ended false = tt
  take_done-Inv n absent s at v = tt
  take_done-Inv n storing s at v = tt
  take_done-Inv n finished s at v = tt

  next-Inv : (e : Event) (s : Listener) → Inv uuid s → Holds (Inv uuid) (next uuid e s)
  unfolding next
  next-Inv starts s v = start-Inv s v
  next-Inv cancels s v = record { owned = v.owned; each = v.each; fresh = v.fresh }
  next-Inv (stores n) s v = store-Inv n (s.sessions n).place s refl v
  next-Inv (channel_closes n) s v = on_close-Inv n (s.sessions n).place s v
  next-Inv (signals n err) s v = on_signal-Inv n err (s.sessions n).place s v
  next-Inv (takes_eol n) s v = take_eol-Inv n (s.sessions n).place s refl v
  next-Inv (takes_done n) s v = take_done-Inv n (s.sessions n).place s refl v

  step-Inv : (e : Event) (s : Listener) → Inv uuid s → Ensures (Inv uuid) (step uuid e s)
  unfolding step
  step-Inv e s v = quietly (next uuid e s) (next-Inv e s v)
    where
      quietly : (o : Option Listener) → Holds (Inv uuid) o → Ensures (Inv uuid) (silently uuid o)
      quietly none h = tt
      quietly (some t) h = h

  -- Let uuid.New never return an identifier twice. Then, in every reachable state, the proxy of every
  -- session was closed at most once; that of a session whose goroutine waits is in the map and was
  -- not closed, or is not in the map and was closed; and that of a session whose goroutine has ended
  -- is not in the map and was closed, whether the proxy, the data channel or the context ended first.
  pub proxies_closed_once :
      (es : List Event) (n : ℕ) {s : Listener}
      → run (step uuid) es new_listener ≡ some s
      → Fits (s.proxies (uuid n)) (s.sessions n).closes (s.sessions n).place
  unfolding new_listener
  proxies_closed_once es n ran =
      let v =
        run_keeps (step uuid) (Inv uuid) step-Inv es new_listener
          (record { owned = λ k m h. cc; each = λ j. (refl, refl); fresh = λ j le. refl }) ran in
      v.each n
