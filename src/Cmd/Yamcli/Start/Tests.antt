-- ===== src/Cmd/Yamcli/Start/Tests.antt =====
-- Runs of the two commands.
use yamrp.Prelude.{
  Bool, List, Option, String, [], false, insert, none, refl, some, true, ◌↔◌, ◌∷◌, ◌≡◌, ◌≢◌,
}
use yamrp.Errors.{Error, is_failure, net_closed}
use yamrp.Client.Host.{host_login}
use yamrp.Cmd.Yamcli.Start.Ready.{
  IsReady, Serves, count_closes, launch-host_ready, start_client_outcome,
}
use yamrp.Cmd.Yamcli.Start.{
  World, await_interrupt, bind, bind_and_wait, binds, closes_conn, connects, deferred, dials,
  effect, fatal, is_unwound, launch, logs_in, or_panic, returns, says_goodbye, start_client,
  start_host, wait_as_host, waiting,
}
use yamrp.Cmd.Yamcli.{FlagSet, HostFlags, init_host_flag, main}

-- A server that logs everybody in, and a network that can be listened on or not.
abbrev world : Option Error → Bool → World
world listen_err interrupted = record {
  dial = λ url. none;
  login = λ username password. (
    some (record { host_id = "host-1"; token = some "token"; client_secret = some "secret" }),
    none,
  );
  listen = λ host_id. none;
  connected = λ host_id. some none;
  net_listen = λ network addr. listen_err;
  interrupted = interrupted;
}

-- A parser that accepts the arguments of one user.
abbrev parse_user : FlagSet → List String → Option FlagSet
parse_user fs (u ∷ p ∷ []) = some (insert (insert fs "username" u) "password" p)
parse_user fs _ = none

client_stops :
    start_client (world none true) "server" "localhost:8000" "neo" "pw" "host-1" ≡ record {
      effects =
          dials "server"
          ∷ connects "host-1"
          ∷ binds "tcp" "localhost:8000"
          ∷ says_goodbye
          ∷ closes_conn
          ∷ [];
      ending = returns;
    }
unfolding start_client bind_and_wait await_interrupt effect or_panic deferred is_unwound bind
client_stops = refl

host_waits :
    start_host (world none false) "server" "localhost:8000" "neo" "pw"
    ≡ record { effects = dials "server" ∷ logs_in "neo" "pw" ∷ []; ending = waiting }
unfolding start_host wait_as_host await_interrupt effect or_panic host_login
host_waits = refl

launch-host_ready_example :
    IsReady
      (launch
        (world none true)
        "server"
        (main parse_user "localhost:6666" ("yamcli" ∷ "host" ∷ "neo" ∷ "pw" ∷ []))).ending
    ↔ ((addr : String) × (username : String) × (password : String) × HostFlags
          (parse_user (init_host_flag "localhost:6666") ("neo" ∷ "pw" ∷ []))
          addr
          username
          password
        × Serves (world none true) "server" addr username password)
launch-host_ready_example =
    launch-host_ready (world none true) parse_user "localhost:6666" "yamcli" "server"
      ("neo" ∷ "pw" ∷ [])

-- The port is taken.
abbrev port_taken : World
port_taken = world (some net_closed) false

start_client_outcome_example :
    let r = start_client port_taken "server" "localhost:80" "neo" "pw" "host-1" in
    (IsReady r.ending ↔ (
      (port_taken.dial "server" ≡ none)
      × (port_taken.connected "host-1" ≡ some none)
      × (is_failure (port_taken.net_listen "tcp" "localhost:80") ≡ false)))
    × ((e : Error) → r.ending ≡ fatal e → count_closes r.effects ≡ 0)
    × (port_taken.connected "host-1" ≡ some none
        → port_taken.dial "server" ≡ none
        → r.ending ≢ waiting
        → count_closes r.effects ≡ 1)
start_client_outcome_example =
    start_client_outcome port_taken "server" "localhost:80" "neo" "pw" "host-1"
