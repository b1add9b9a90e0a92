-- ===== src/Client/Listener/Exchange.antt =====
-- client/listener.go: `exchangeICE`, its loop and the goroutine that receives candidates.
pub mod Closing
pub mod Order
mod Tests
use yamrp.Prelude.{
  Bool, List, Option, String, [], false, if◌then◌else◌, none, some, true, ◌++◌, ◌∷◌,
}
use yamrp.Errors.{Error, canceled}
use yamrp.Chan.{Chan, make_chan, receive, send}

-- The goroutine: in WaitForICECandidate, at the first select of its loop, in Recv, at the second
-- select and in its send with a candidate.
pub data Reader : Type 0 where
  connecting checking receiving gone : Reader
  checking_again sending : String → Reader

-- exchangeICE: in SendIceCandidate, at its select, returned.
pub data Loop : Type 0 where
  opening selecting : Loop
  returned : Option Error → Loop

pub record Exchange : Type 0 where
  pub done : Bool  -- ctx is done
  pub pending : Chan String  -- pendingIceCandidates
  pub remote : Chan String  -- remoteIceCh
  pub remote_closed : Bool
  pub reader : Reader
  pub loop : Loop
  pub sent : List String  -- the candidates given to client.Send
  pub added : List String  -- those given to AddICECandidate
  pub panicked : Bool

unfoldable pub new_exchange : Exchange
new_exchange = record {
  done = false;
  pending = make_chan 1024;
  remote = make_chan 1024;
  remote_closed = false;
  reader = connecting;
  loop = opening;
  sent = [];
  added = [];
  panicked = false;
}

pub data Event : Type 0 where
  ctx_ends : Event
  -- WaitForICECandidate, Recv and SendIceCandidate return
  connects opens : Option Error → Event
  recv : (candidate : String) (err : Option Error) → Event
  -- the selects of the goroutine, and its send
  checks checks_again reader_sends : Event
  -- the peer connection hands out a candidate
  gathers : String → Event
  -- the cases of the select of exchangeICE, with the result of Send and of AddICECandidate
  loop_ends : Event
  loop_sends loop_adds : Option Error → Event

-- An error is logged and ends the goroutine, an io.EOF of Recv too.
pub connect_step : Option Error → Reader → Exchange → Option Exchange
connect_step none connecting x = some (record x { reader = checking })
connect_step (some e) connecting x = some (record x { reader = gone })
connect_step err _ x = none

pub recv_step : String → Option Error → Reader → Exchange → Option Exchange
recv_step c none receiving x = some (record x { reader = checking_again c })
recv_step c (some e) receiving x = some (record x { reader = gone })
recv_step c err _ x = none

pub check_step : Reader → Exchange → Option Exchange
check_step checking x = some (record x { reader = if x.done then gone else receiving })
check_step _ x = none

pub check_again_step : Reader → Exchange → Option Exchange
check_again_step (checking_again c) x =
    some (record x { reader = if x.done then gone else sending c })
check_again_step _ x = none

abbrev remote_sent : Exchange → Option (Chan String) → Option Exchange
remote_sent x none = none
remote_sent x (some c) = some (record x { remote = c; reader = checking })

-- A send on a closed channel panics.
pub reader_send_step : Reader → Exchange → Option Exchange
unfolding send
reader_send_step (sending c) x =
    if x.remote_closed
    then some (record x { panicked = true; reader = gone })
    else remote_sent x (send x.remote c)
reader_send_step _ x = none

pub open_step : Option Error → Loop → Exchange → Option Exchange
open_step none opening x = some (record x { loop = selecting })
open_step (some e) opening x = some (record x { loop = returned (some e) })
open_step err _ x = none

abbrev gathered : Exchange → Option (Chan String) → Option Exchange
gathered x none = none
gathered x (some c) = some (record x { pending = c })

-- case <-ctx.Done()
pub loop_end_step : Loop → Exchange → Option Exchange
loop_end_step selecting x =
    if x.done
    then some (record x { remote_closed = true; loop = returned (some canceled) })
    else none
loop_end_step _ x = none

abbrev pending_taken : Exchange → Option (String × Chan String) → Option Exchange
pending_taken x none = none
pending_taken x (some (c, rest)) = some (record x { pending = rest; sent = x.sent ++ c ∷ [] })

-- case ice := <-pendingIceCandidates; the error of client.Send is only logged.
pub loop_send_step : Loop → Exchange → Option Exchange
unfolding receive
loop_send_step selecting x = pending_taken x (receive x.pending)
loop_send_step _ x = none

abbrev after_add : Option Error → Loop
after_add none = selecting
after_add (some e) = returned (some e)

abbrev remote_taken : Option Error → Exchange → Option (String × Chan String) → Option Exchange
remote_taken err x none = none
remote_taken err x (some (c, rest)) =
    some (record x { remote = rest; added = x.added ++ c ∷ []; loop = after_add err })

-- case ice := <-remoteIceCh
pub loop_add_step : Option Error → Loop → Exchange → Option Exchange
unfolding receive
loop_add_step err selecting x = remote_taken err x (receive x.remote)
loop_add_step err _ x = none

pub alive_step : Event → Exchange → Option Exchange
unfolding connect_step recv_step check_step check_again_step reader_send_step open_step send
    loop_end_step loop_send_step loop_add_step
alive_step ctx_ends x = some (record x { done = true })
alive_step (connects err) x = connect_step err x.reader x
alive_step (recv c err) x = recv_step c err x.reader x
alive_step checks x = check_step x.reader x
alive_step checks_again x = check_again_step x.reader x
alive_step reader_sends x = reader_send_step x.reader x
alive_step (opens err) x = open_step err x.loop x
alive_step (gathers c) x = gathered x (send x.pending c)
alive_step loop_ends x = loop_end_step x.loop x
alive_step (loop_sends err) x = loop_send_step x.loop x
alive_step (loop_adds err) x = loop_add_step err x.loop x

abbrev silently : Option Exchange → Option (Exchange × Unit {0})
silently none = none
silently (some x) = some (x, tt)

-- Nothing happens after a panic, which ends the program.
unfoldable pub step : Event → Exchange → Option (Exchange × Unit {0})
unfolding alive_step
step e x = if x.panicked then none else silently (alive_step e x)
