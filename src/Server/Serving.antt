-- ===== src/Server/Serving.antt =====
-- server/server.go: `Serve`, the services and the channels between them.
-- newHostSig, notifyNewOfferCh, offerCh and closeIceToAnsCh are unbuffered: a send and its receive
-- are one event here. The other three hold 1024 packets.
pub mod Frames
pub mod Counts
pub mod Bounds
pub mod Outage
pub mod Answers
pub mod Deliveries
pub mod Offers
mod Tests
use yamrp.Server.Offerer
use yamrp.Server.Answerer
use yamrp.Server.Host
use yamrp.Prelude.{Bool, Option, String, false, if◌then◌else◌, none, some, true}
use yamrp.Chan.{Chan, make_chan, receive, send}
use yamrp.Server.Packets.{AnsPacket, IcePacket}
use yamrp.Server.Offerer.{
  OffererServer, Output, answer_arrives, close_ice, ice_arrives, new_offerer_server, notify_host,
  push_ice, send_offering, silent,
}
use yamrp.Server.Answerer.{
  AnswererServer, close_arrives, new_answerer_server, offer_arrives, push_answer,
}
use yamrp.Server.Host.{HostServer, host_arrives, new_host_server}

pub record Server : Type 0 where
  pub host : HostServer
  pub offerer : OffererServer
  pub answerer : AnswererServer
  pub answer_ch : Chan AnsPacket
  pub ice_to_ans_ch : Chan IcePacket
  pub ice_to_offer_ch : Chan IcePacket

unfoldable pub new_server : Server
unfolding new_host_server new_offerer_server new_answerer_server
new_server = record {
  host = new_host_server;
  offerer = new_offerer_server;
  answerer = new_answerer_server;
  answer_ch = make_chan 1024;
  ice_to_ans_ch = make_chan 1024;
  ice_to_offer_ch = make_chan 1024;
}

pub data Event : Type 0 where
  -- LoginHost names a new host to the host service
  names_host : String → Event
  -- a service goes on; what it sends is received by another one or put into a channel
  hosts : Host.Event → Event
  offerers : Offerer.Event → Event
  answerers : Answerer.Event → Event
  -- answerRouter and the two routers of candidates receive from their channels
  takes_answer takes_ice_to_offer takes_ice_to_ans : Event

-- The receives of a service from the others are no events of its own.
pub host_own : Host.Event → Bool
host_own (Host.host_arrives id) = false
host_own (Host.offer_arrives id) = false
host_own _ = true

pub offerer_own : Offerer.Event → Bool
offerer_own (Offerer.answer_arrives p) = false
offerer_own (Offerer.ice_arrives p) = false
offerer_own _ = true

pub answerer_own : Answerer.Event → Bool
answerer_own (Answerer.offer_arrives o) = false
answerer_own (Answerer.ice_arrives p) = false
answerer_own (Answerer.close_arrives ans) = false
answerer_own _ = true

abbrev host_went : Server → Option HostServer → Option Server
host_went s none = none
host_went s (some h) = some (record s { host = h })

abbrev put_answer : Server → Option (Chan AnsPacket) → Option Server
put_answer s none = none
put_answer s (some c) = some (record s { answer_ch = c })

abbrev put_ice_to_offer : Server → Option (Chan IcePacket) → Option Server
put_ice_to_offer s none = none
put_ice_to_offer s (some c) = some (record s { ice_to_offer_ch = c })

abbrev put_ice_to_ans : Server → Option (Chan IcePacket) → Option Server
put_ice_to_ans s none = none
put_ice_to_ans s (some c) = some (record s { ice_to_ans_ch = c })

-- The answerer service has gone on, and its output goes to the offerer service.
pub answerer_went : Server → Option (AnswererServer × Answerer.Output) → Option Server
answerer_went s none = none
answerer_went s (some (a, Answerer.silent)) = some (record s { answerer = a })
answerer_went s (some (a, Answerer.push_answer p)) =
    put_answer (record s { answerer = a }) (send s.answer_ch p)
answerer_went s (some (a, Answerer.push_ice p)) =
    put_ice_to_offer (record s { answerer = a }) (send s.ice_to_offer_ch p)

-- The offerer service has gone on, and its output goes to the host service, to offerRouter or
-- iceCandidateRouter of the answerer service, or into a channel.
pub offerer_went : Server → Option (OffererServer × Offerer.Output) → Option Server
unfolding answerer_went
offerer_went s none = none
offerer_went s (some (f, Offerer.silent)) = some (record s { offerer = f })
offerer_went s (some (f, Offerer.notify_host id)) =
    host_went (record s { offerer = f }) (Host.step (Host.offer_arrives id) s.host)
offerer_went s (some (f, Offerer.send_offering o)) =
    answerer_went (record s { offerer = f }) (Answerer.step (Answerer.offer_arrives o) s.answerer)
offerer_went s (some (f, Offerer.push_ice p)) =
    put_ice_to_ans (record s { offerer = f }) (send s.ice_to_ans_ch p)
offerer_went s (some (f, Offerer.close_ice ans)) =
    answerer_went (record s { offerer = f }) (Answerer.step (Answerer.close_arrives ans) s.answerer)

abbrev answer_taken : Server → Option (AnsPacket × Chan AnsPacket) → Option Server
unfolding offerer_went
answer_taken s none = none
answer_taken s (some (p, c)) =
    offerer_went (record s { answer_ch = c }) (Offerer.step (Offerer.answer_arrives p) s.offerer)

abbrev ice_to_offer_taken : Server → Option (IcePacket × Chan IcePacket) → Option Server
unfolding offerer_went
ice_to_offer_taken s none = none
ice_to_offer_taken s (some (p, c)) =
    offerer_went (record s { ice_to_offer_ch = c }) (Offerer.step (Offerer.ice_arrives p) s.offerer)

abbrev ice_to_ans_taken : Server → Option (IcePacket × Chan IcePacket) → Option Server
unfolding answerer_went
ice_to_ans_taken s none = none
ice_to_ans_taken s (some (p, c)) =
    answerer_went (record s { ice_to_ans_ch = c })
      (Answerer.step (Answerer.ice_arrives p) s.answerer)

pub next : Event → Server → Option Server
unfolding host_own offerer_own answerer_own answerer_went offerer_went
next (names_host id) s = host_went s (Host.step (Host.host_arrives id) s.host)
next (hosts e) s = if host_own e then host_went s (Host.step e s.host) else none
next (offerers e) s = if offerer_own e then offerer_went s (Offerer.step e s.offerer) else none
next (answerers e) s = if answerer_own e then answerer_went s (Answerer.step e s.answerer) else none
next takes_answer s = answer_taken s (receive s.answer_ch)
next takes_ice_to_offer s = ice_to_offer_taken s (receive s.ice_to_offer_ch)
next takes_ice_to_ans s = ice_to_ans_taken s (receive s.ice_to_ans_ch)

abbrev silently : Option Server → Option (Server × Unit {0})
silently none = none
silently (some s) = some (s, tt)

-- A panic of HostLifeManager ends the process.
abbrev alive : Bool → Option Server → Option Server
alive true r = none
alive false r = r

unfoldable pub step : Event → Server → Option (Server × Unit {0})
unfolding next
step e s = silently (alive s.host.panicked (next e s))
