-- ===== src/Cmd/Yamcli/Start/Ready.antt =====
-- When the commands get to the point at which they wait for a signal to stop, and what they leave.
use yamrp.Prelude.{
  Bool, Bool-cases, List, Option, Option-cases, String, [], arith, false, inl, inr, none, refl,
  some, subst, suc, sym, true, ℕ, ◌↔◌, ◌∷◌, ◌≡◌, ◌≢◌,
}
use yamrp.Errors.{Error, is_failure}
use yamrp.Client.Host.{Host, LoggedIn, fails, host_login, ok}
use yamrp.Cmd.Yamcli.Start.{
  Effect, Ending, Run, World, await_interrupt, bind, bind_and_wait, closes_conn, deferred, effect,
  fatal, is_unwound, launch, logs_in, or_panic, returns, start_client, start_host, wait_as_host,
  waiting,
}
use yamrp.Cmd.Yamcli.{
  FlagSet, HostFlags, Outcome, init_host_flag, main, main-host_starts, main_host, misses,
  prints_usage, refuses_args, run_host, starts_client, starts_host,
}

-- The command waits for the signal, or had it.
abbrev pub IsReady : Ending → Type 0
IsReady returns = Unit
IsReady waiting = Unit
IsReady _ = ⊥

abbrev pub count_closes : List Effect → ℕ
count_closes [] = 0
count_closes (closes_conn ∷ more) = suc (count_closes more)
count_closes (_ ∷ more) = count_closes more

is_client : Outcome → Bool
is_client (starts_client addr username password token) = true
is_client _ = false

run_host-is_client : (fs : FlagSet) → is_client (run_host fs) ≡ false
unfolding run_host is_client
run_host-is_client fs = ground arith

module _ (w : World) where
  await_interrupt-IsReady : IsReady (await_interrupt w).ending
  unfolding await_interrupt effect
  await_interrupt-IsReady = elim (Bool-cases w.interrupted) [ inl h ↦ rw h tt | inr h ↦ rw h tt ]

  -- A host has what it needs.
  abbrev pub Serves : (grpc_url addr username password : String) → Type 0
  Serves grpc_url addr username password =
      (w.dial grpc_url ≡ none)
      × ((h : Host) × (host_login addr w.listen (w.login username password).0
              (w.login username password).1
            ≡ ok h))

  wait_as_host-IsReady :
      (l : LoggedIn) → IsReady (wait_as_host w l).ending ↔ ((h : Host) × (l ≡ ok h))
  unfolding wait_as_host
  wait_as_host-IsReady (fails e) = (λ r. absurd r, λ (h, e). cc)
  wait_as_host-IsReady LoggedIn.panics = (λ r. absurd r, λ (h, e). cc)
  wait_as_host-IsReady (ok h) = (λ r. (h, refl), λ e. await_interrupt-IsReady)

  dialled :
      (o : Option Error) (r : Run) → IsReady (or_panic o r).ending ↔ ((o ≡ none) × IsReady r.ending)
  unfolding or_panic
  dialled none r = (λ h. (refl, h), λ h. h.1)
  dialled (some e) r = (λ h. absurd h, λ h. cc (h.0))

  pub start_host-IsReady :
      (grpc_url addr username password : String)
      → IsReady (start_host w grpc_url addr username password).ending
        ↔ Serves grpc_url addr username password
  unfolding start_host effect
  start_host-IsReady grpc_url addr username password =
      let l =
        host_login addr w.listen (w.login username password).0 (w.login username password).1 in
      let dial =
        dialled (w.dial grpc_url) (effect (logs_in username password) (wait_as_host w l)) in
      let wait = wait_as_host-IsReady l in
      (λ r. ((dial.0 r).0, wait.0 (dial.0 r).1), λ s. dial.1 (s.0, wait.1 s.1))

  launched :
      (grpc_url : String) (o : Outcome)
      → is_client o ≡ false
      → IsReady (launch w grpc_url o).ending
      → (addr : String) × (username : String) × (password : String) × (o
          ≡ starts_host addr username password)
        × IsReady (start_host w grpc_url addr username password).ending
  unfolding launch is_client
  launched grpc_url (starts_host a u p) c r = (a, u, p, refl, r)
  launched grpc_url (starts_client a u p t) c r = cc
  launched grpc_url Outcome.panics c r = absurd r
  launched grpc_url (misses name) c r = absurd r
  launched grpc_url prints_usage c r = absurd r
  launched grpc_url refuses_args c r = absurd r

  -- A client gets to wait for the signal if and only if the server can be dialled, the connection to
  -- the host that its token names is reported without an error, and the address can be listened on,
  -- whatever its user name and password. If it fails to connect, the connection to the server stays
  -- open; if it cannot listen, or is interrupted, that connection is closed once.
  pub start_client_outcome :
      (grpc_url addr username password token : String)
      → let r = start_client w grpc_url addr username password token in
        (IsReady r.ending ↔ (
          (w.dial grpc_url ≡ none)
          × (w.connected token ≡ some none)
          × (is_failure (w.net_listen "tcp" addr) ≡ false)))
        × ((e : Error) → r.ending ≡ fatal e → count_closes r.effects ≡ 0)
        × (w.connected token ≡ some none
            → w.dial grpc_url ≡ none
            → r.ending ≢ waiting
            → count_closes r.effects ≡ 1)
  unfolding start_client bind_and_wait await_interrupt effect or_panic deferred is_unwound bind
  start_client_outcome grpc_url addr username password token = (
    (λ r. (ground arith, ground arith, ground arith), λ s. ground arith),
    λ e h. ground arith,
    λ a b c. ground arith,
  )

  module _ (parse : FlagSet → List String → Option FlagSet) (default_url : String) where
    main-host_no_client :
        (program : String) (args : List String)
        → is_client (main parse default_url (program ∷ "host" ∷ args)) ≡ false
    unfolding main main_host is_client
    main-host_no_client program args =
        elim (Option-cases (parse (init_host_flag default_url) args)) [
          | inl refused ↦ rw refused refl
          | inr (fs, accepted) ↦ rw accepted (run_host-is_client fs)
        ]

    -- `yamcli host` gets to wait for the signal if and only if flag.Parse accepts its arguments with
    -- an address, a user name and a password, the server can be dialled, and HostLogin succeeds with
    -- that name and password for that address.
    pub launch-host_ready :
        (program grpc_url : String) (args : List String)
        → IsReady (launch w grpc_url (main parse default_url (program ∷ "host" ∷ args))).ending ↔ (
            (addr : String) × (username : String) × (password : String) × HostFlags
              (parse (init_host_flag default_url) args)
              addr
              username
              password
            × Serves grpc_url addr username password)
    unfolding launch start_host
    launch-host_ready program grpc_url args =
        let o = main parse default_url (program ∷ "host" ∷ args) in
        let starts = main-host_starts parse default_url program args in
        (
          λ r.
              let (a, u, p, e, ready) = launched grpc_url o (main-host_no_client program args) r in
              (a, u, p, (starts a u p).0 e, (start_host-IsReady grpc_url a u p).0 ready),
          λ (a, u, p, flags, serves).
              subst (λ x. IsReady (launch w grpc_url x).ending) (sym ((starts a u p).1 flags))
                ((start_host-IsReady grpc_url a u p).1 serves),
        )
