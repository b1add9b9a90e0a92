-- ===== src/Server/Host.antt =====
-- server/host.go: `HostServerImpl`. HostLifeManager handles one message at a time; the other
-- goroutines are entries of a table, at the point where each waits. Clients are pointers: a client
-- lives in `heap` under its number, and the map and the goroutines share it by that number.
-- An event is the manager taking a message, or a goroutine going on; `none` means that the event
-- cannot happen. After a panic nothing happens.
mod State
pub mod Runs
pub mod Stops
pub mod Orphans
pub mod Deaf
mod Tests
pub use State.*
use yamrp.Prelude.{
  List, Option, String, [], erase, false, if◌then◌else◌, insert, no_entries, none, some, suc, true,
  update, ℕ, ◌∷◌,
}
use yamrp.Errors.{Error, not_found, status}
use yamrp.Chan.{Chan, make_chan, receive, send}

-- NewHostServer, and Serve, which starts the manager
unfoldable pub new_host_server : HostServer
new_host_server = record {
  clients = no_entries;
  heap = λ _. new_client;
  made = 0;
  gc_host_ch = make_chan 1024;
  close_host_ch = make_chan 1024;
  request_ch = make_chan 1024;
  threads = λ _. absent;
  spawned = 0;
  panicked = false;
}

abbrev spawn : Thread → HostServer → HostServer
spawn t s = record s { threads = update s.threads s.spawned t; spawned = suc s.spawned }

abbrev goes : ℕ → Thread → HostServer → HostServer
goes i t s = record s { threads = update s.threads i t }

pub register_host : String → HostServer → HostServer
register_host id s = spawn (gc_timer id) (record s {
  clients = insert s.clients id s.made;
  heap = update s.heap s.made new_client;
  made = suc s.made;
})

-- What chkHostIdle does with a client that it found.
abbrev collect : String → HostClientStatus → HostServer → HostServer
collect id idle s = record s { clients = erase s.clients id }
collect id active s = s

-- `hs.clients[hostID].status` of a missing key reads through a nil pointer.
pub chk_host_idle : String → HostServer → HostServer
chk_host_idle id s = elim (s.clients id) [
  | none ↦ record s { panicked = true }
  | some r ↦ collect id (s.heap r).status s
]

pub delete_host : String → HostServer → HostServer
delete_host id s = record s { clients = erase s.clients id }

abbrev reply_to : ℕ → Thread → Option ℕ → HostServer → HostServer
reply_to i (awaiting id) r s = goes i (replied id r) s
reply_to i _ r s = s

pub handle_host_client_request : HostClientRequest → HostServer → HostServer
handle_host_client_request q s = reply_to q.return_to (s.threads q.return_to) (s.clients q.id) s

pub handle_new_offer : String → HostServer → HostServer
handle_new_offer id s = elim (s.clients id) [ none ↦ s | some r ↦ spawn (notifying r id) s ]

-- `client` in ListenNewOffer, up to the receive of the reply
abbrev asked : ℕ → String → HostServer → Option (Chan HostClientRequest) → Option HostServer
asked i id s none = none
asked i id s (some c) = some (goes i (awaiting id) (record s { request_ch = c }))

-- `stream.Send`'s turn comes with a signal.
abbrev signalled :
    ℕ → String → ℕ → HostServer → Option (Unit {0} × Chan (Unit {0})) → Option HostServer
signalled i id r s none = none
signalled i id r s (some (u, c)) = some (
    goes i (streaming id r)
      (record s { heap = update s.heap r (record (s.heap r) { offer_sig = c }) }))

-- ListenNewOffer returns when it takes a stop signal.
abbrev stopped : ℕ → ℕ → HostServer → Option (Unit {0} × Chan (Unit {0})) → Option HostServer
stopped i r s none = none
stopped i r s (some (u, c)) = some (
    goes i (returned closed_stream)
      (record s { heap = update s.heap r (record (s.heap r) { stop_listening_new_offer = c }) }))

abbrev notified : ℕ → ℕ → HostServer → Option (Chan (Unit {0})) → Option HostServer
notified i r s none = none
notified i r s (some c) =
    some (goes i absent (record s { heap = update s.heap r (record (s.heap r) { offer_sig = c }) }))

abbrev gc_pushed : ℕ → HostServer → Option (Chan String) → Option HostServer
gc_pushed i s none = none
gc_pushed i s (some c) = some (goes i absent (record s { gc_host_ch = c }))

abbrev close_pushed : ℕ → HostServer → Option (Chan String) → Option HostServer
close_pushed i s none = none
close_pushed i s (some c) = some (goes i absent (record s { close_host_ch = c }))

-- A goroutine makes the channel operation at which it stands.
pub proceed : ℕ → Thread → HostServer → Option HostServer
proceed i (gc_pushing id) s = gc_pushed i s (send s.gc_host_ch id)
proceed i (notifying r id) s = notified i r s (send (s.heap r).offer_sig tt)
proceed i (close_pushing id) s = close_pushed i s (send s.close_host_ch id)
proceed i (requesting id) s = asked i id s (send s.request_ch (record { id = id; return_to = i }))
proceed i (replied id none) s = some (goes i (returned (failed (Error.status not_found))) s)
proceed i (replied id (some r)) s = some (
    goes i (listening id r)
      (record s { heap = update s.heap r (record (s.heap r) { status = active }) }))
proceed i (listening id r) s = signalled i id r s (receive (s.heap r).offer_sig)
proceed i _ s = none

-- A timer fires: the one of registerHost, or `time.After` of handleNewOffer.
pub fire : ℕ → Thread → HostServer → Option HostServer
fire i (gc_timer id) s = some (goes i (gc_pushing id) s)
fire i (notifying r id) s = some (goes i (close_pushing id) s)
fire i _ s = none

-- The other case of ListenNewOffer's select
pub stop : ℕ → Thread → HostServer → Option HostServer
stop i (listening id r) s = stopped i r s (receive (s.heap r).stop_listening_new_offer)
stop i _ s = none

-- The result of `stream.Send`
pub offer_sent : ℕ → Thread → Option Error → HostServer → Option HostServer
offer_sent i (streaming id r) none s = some (goes i (listening id r) s)
offer_sent i (streaming id r) (some e) s = some (goes i (returned (failed e)) s)
offer_sent i _ e s = none

abbrev take_gc : HostServer → Option (String × Chan String) → Option HostServer
take_gc s none = none
take_gc s (some (id, c)) = some (chk_host_idle id (record s { gc_host_ch = c }))

abbrev take_close : HostServer → Option (String × Chan String) → Option HostServer
take_close s none = none
take_close s (some (id, c)) = some (delete_host id (record s { close_host_ch = c }))

abbrev take_request :
    HostServer → Option (HostClientRequest × Chan HostClientRequest) → Option HostServer
take_request s none = none
take_request s (some (q, c)) = some (handle_host_client_request q (record s { request_ch = c }))

pub data Event : Type 0 where
  -- the manager takes a message; the first two come from other services
  host_arrives offer_arrives : String → Event
  gc_arrives close_arrives request_arrives : Event
  -- a call of ListenNewOffer
  listens : String → Event
  -- a goroutine goes on
  goes_on fires stops : ℕ → Event
  send_returns : ℕ → Option Error → Event

-- HostLifeManager and the goroutines, as long as there was no panic
pub alive_step : Event → HostServer → Option HostServer
unfolding register_host chk_host_idle delete_host handle_host_client_request handle_new_offer
    proceed fire stop offer_sent
alive_step (host_arrives id) s = some (register_host id s)
alive_step (offer_arrives id) s = some (handle_new_offer id s)
alive_step gc_arrives s = take_gc s (receive s.gc_host_ch)
alive_step close_arrives s = take_close s (receive s.close_host_ch)
alive_step request_arrives s = take_request s (receive s.request_ch)
alive_step (listens id) s = some (spawn (requesting id) s)
alive_step (goes_on i) s = proceed i (s.threads i) s
alive_step (fires i) s = fire i (s.threads i) s
alive_step (stops i) s = stop i (s.threads i) s
alive_step (send_returns i e) s = offer_sent i (s.threads i) e s

unfoldable pub step : Event → HostServer → Option HostServer
unfolding alive_step
step e s = if s.panicked then none else alive_step e s

pub run : List Event → HostServer → Option HostServer
run [] s = some s
run (e ∷ es) s = elim (step e s) [ none ↦ none | some s' ↦ run es s' ]
