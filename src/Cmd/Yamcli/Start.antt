-- ===== src/Cmd/Yamcli/Start.antt =====
-- cmd/yamcli/client.go and cmd/yamcli/host.go: what the command does once its flags are read, and
-- `Bind` of client/listener.go.
-- What the network, gRPC and the signals of the system return is a parameter, `World`, and so is
-- what the channel of Connect delivers, which Client/Listener/Setup is about.
mod Ready
mod Tests
use yamrp.Prelude.{
  Bool, List, Option, String, [], false, if◌then◌else◌, none, some, true, ◌++◌, ◌∷◌,
}
use yamrp.Errors.{Error, is_failure}
use yamrp.Client.Host.{LoggedIn, LoginResponse, fails, host_login, ok}
use yamrp.Cmd.Yamcli.{Outcome, starts_client, starts_host}

pub record World : Type 0 where
  -- grpc.Dial
  pub dial : (url : String) → Option Error
  -- LoginHost, and the future of NewOfferListener
  pub login : (username password : String) → Option LoginResponse × Option Error
  pub listen : (host_id : String) → Option Error
  -- what the channel of Connect delivers for a host, if anything
  pub connected : (host_id : String) → Option (Option Error)
  pub net_listen : (network addr : String) → Option Error
  pub interrupted : Bool

pub data Effect : Type 0 where
  closes_conn says_goodbye : Effect
  dials : (url : String) → Effect
  logs_in : (username password : String) → Effect
  connects : (host_id : String) → Effect
  binds : (network addr : String) → Effect

-- The call returns, it panics, log.Fatal or os.Exit ends the program, or it waits for ever: for
-- Connect, or for the signal to stop.
pub data Ending : Type 0 where
  returns nil_panic exits connecting waiting : Ending
  panics fatal : Error → Ending

pub record Run : Type 0 where
  pub effects : List Effect
  pub ending : Ending

abbrev ends : Ending → Run
ends e = record { effects = []; ending = e }

pub effect : Effect → Run → Run
effect e r = record r { effects = e ∷ r.effects }

-- if err != nil { panic(err) }
pub or_panic : Option Error → Run → Run
or_panic (some e) r = ends (panics e)
or_panic none r = r

-- A deferred call is made on a return and on a panic, and not when log.Fatal ends the program.
pub is_unwound : Ending → Bool
is_unwound returns = true
is_unwound nil_panic = true
is_unwound (panics e) = true
is_unwound _ = false

pub deferred : Effect → Run → Run
unfolding is_unwound
deferred e r = if is_unwound r.ending then record r { effects = r.effects ++ e ∷ [] } else r

-- Bind, on what net.Listen returns; BindListener is a goroutine of its own.
pub bind : Option Error → Option Error
bind err = if is_failure err then err else none

module _ (w : World) where
  -- signal.Notify, the select on its channel, and shutdown
  pub await_interrupt : Run
  unfolding effect
  await_interrupt = if w.interrupted then effect says_goodbye (ends returns) else ends waiting

  -- after Connect
  pub bind_and_wait : (addr : String) → Option (Option Error) → Run
  unfolding await_interrupt effect or_panic bind
  bind_and_wait addr none = ends connecting
  bind_and_wait addr (some (some e)) = ends (fatal e)
  bind_and_wait addr (some none) =
      effect (binds "tcp" addr) (or_panic (bind (w.net_listen "tcp" addr)) await_interrupt)

  -- The user name and the password are not used; the token is the listener's host.
  pub start_client : (grpc_url addr username password token : String) → Run
  unfolding bind_and_wait deferred effect or_panic
  start_client grpc_url addr username password token = effect (dials grpc_url) (
      or_panic (w.dial grpc_url)
        (deferred closes_conn (effect (connects token) (bind_and_wait addr (w.connected token)))))

  -- after HostLogin
  pub wait_as_host : LoggedIn → Run
  unfolding await_interrupt
  wait_as_host (fails e) = ends (panics e)
  wait_as_host LoggedIn.panics = ends nil_panic
  wait_as_host (ok h) = await_interrupt

  pub start_host : (grpc_url addr username password : String) → Run
  unfolding wait_as_host host_login effect or_panic
  start_host grpc_url addr username password =
      let (res, err) = w.login username password in
      effect (dials grpc_url) (
        or_panic (w.dial grpc_url)
          (effect (logs_in username password) (wait_as_host (host_login addr w.listen res err))))

  -- main, once it has chosen a function; the URL is what flag.Parse left in grpcURL.
  pub launch : (grpc_url : String) → Outcome → Run
  unfolding start_host start_client
  launch grpc_url (starts_host addr username password) = start_host grpc_url addr username password
  launch grpc_url (starts_client addr username password token) =
      start_client grpc_url addr username password token
  launch grpc_url Outcome.panics = ends nil_panic
  launch grpc_url _ = ends exits
